-- ===== src/Agent/Server/Auth/Bearer.antt =====
-- `isAuthorized` and `authInterceptor` of agent/internal/grpcserver/auth.go on the calls of the
-- coordinator's client (coordinator/internal/clients/agentrpc/client.go).
use mytonprovider_backend.Prelude.{
  ◌≡◌, refl, String, false, none, some, [], ◌∷◌, lookup, str_eq, if◌then◌else◌, trim_space,
  is_blank, append_text, trim_space-append, trim_space_idem, strip_prefix-append,
  append_text-ne_empty, ◌||◌, Bool-cases, inl, inr, arith,
}
use mytonprovider_backend.Agent.Server.Auth.{
  has_token, is_authorized, auth_interceptor, client_token, outgoing,
}

header-lem :
    (raw : String)
    → is_blank raw ≡ false
    → trim_space (append_text "Bearer " (trim_space raw)) ≡ append_text "Bearer " (trim_space raw)
header-lem raw there = trim_space-append "B" "earer " raw (unfold trim_space in refl) there

has_token-bearer :
    (raw expected : String)
    → is_blank raw ≡ false
    → has_token (append_text "Bearer " (trim_space raw) ∷ []) expected
      ≡ str_eq (trim_space raw) expected
unfolding has_token is_blank
has_token-bearer raw expected there = rw (
  header-lem raw there,
  append_text-ne_empty "B" "earer " (trim_space raw),
  strip_prefix-append,
  trim_space_idem,
  there,
)

outgoing-authorized :
    (raw expected : String)
    → is_blank raw ≡ false
    → is_authorized (some (outgoing (trim_space raw))) expected ≡ str_eq (trim_space raw) expected
unfolding is_authorized outgoing lookup
outgoing-authorized raw expected there = has_token-bearer raw expected there

client_token-some :
    (raw token : String)
    → client_token raw ≡ some token
    → (is_blank raw ≡ false) × (token ≡ trim_space raw)
unfolding client_token
client_token-some raw token kept = elim (Bool-cases (is_blank raw)) [
  | inl blank ↦ absurd (let lost : none ≡ some token = (rw blank at kept) in cc)
  | inr there ↦ (there, (let same : some (trim_space raw) ≡ some token = (rw there at kept) in cc))
]

-- A client whose token is `raw` is let in by an agent whose token is `expected` for every method if
-- the trimmed `raw` is `expected`, and otherwise only for the health method.
pub client-admitted {ℓ} :
    {R : Type ℓ} (raw token expected health_method full_method : String) (handler : R)
    → client_token raw ≡ some token
    → auth_interceptor health_method expected (some (outgoing token)) full_method handler ≡ (
        if str_eq full_method health_method || str_eq (trim_space raw) expected
        then some handler
        else none)
unfolding auth_interceptor
client-admitted raw token expected health_method full_method handler kept =
    let (there, same) = client_token-some raw token kept in
    rw (same, outgoing-authorized raw expected there) (ground arith)
