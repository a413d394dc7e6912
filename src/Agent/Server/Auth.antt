-- ===== src/Agent/Server/Auth.antt =====
-- agent/internal/grpcserver/auth.go: the bearer token of a call, and the token that the
-- coordinator's client sends (coordinator/internal/clients/agentrpc/client.go).
pub mod Bearer
use mytonprovider_backend.Prelude.{
  String, Bool, true, false, not, Option, none, some, List, [], ◌∷◌, Map, lookup, or_else, str_eq,
  if◌then◌else◌, trim_space, is_blank, strip_prefix, append_text,
}

-- `metadata.MD` of grpc: the values of each key.
abbrev pub Metadata : Type 0
Metadata = Map (List String)

-- The part of `isAuthorized` that follows the lookup of the header.
pub has_token : List String → String → Bool
has_token [] expected = false
has_token (v ∷ vs) expected =
    let header = trim_space v in
    let token = trim_space (or_else header (strip_prefix "Bearer " header)) in
    if str_eq header "" then false else if str_eq token "" then false else str_eq token expected

-- `none` is a call without metadata.
pub is_authorized : Option Metadata → String → Bool
is_authorized none expected = false
is_authorized (some md) expected = has_token (or_else [] (lookup md "authorization")) expected

-- A call's answer, or the error `Unauthenticated`. `health_method` is the name that grpc gives to
-- `Health/Check`, and `handler` is what follows the interceptor.
pub auth_interceptor {ℓ} :
    {R : Type ℓ}
    → (health_method expected : String) → Option Metadata
    → (full_method : String) → (handler : R) → Option R
auth_interceptor health_method expected md full_method handler =
    if str_eq full_method health_method
    then some handler
    else if not (is_authorized md expected)
    then none
    else some handler

-- `New` of the coordinator's client: the token that it keeps, if the configuration has one.
unfoldable pub client_token : String → Option String
client_token raw = if is_blank raw then none else some (trim_space raw)

-- `metadata.AppendToOutgoingContext(callCtx, "authorization", "Bearer "+c.authToken)`
pub outgoing : String → Metadata
outgoing token = ("authorization", append_text "Bearer " token ∷ []) ∷ []
