-- ===== src/Agent/Server/Validate/Explained.antt =====
-- The errors of `validateRequest` (agent/internal/grpcserver/server.go) and the defects of a
-- request.
use mytonprovider_backend.Prelude.{
  ℕ, suc, ◌+◌, ◌≡◌, refl, ap, sym, subst, ◌∙◌, Bool, true, false, Option, none, some, List, [], ◌∷◌,
  length, is_empty, is_positive, ◌==◌, is_blank, get_elem?, arith,
}
use mytonprovider_backend.Shard.{ContractRef, Endpoint, ProviderBatch}
use mytonprovider_backend.RunChecks.Request.{RunChecksRequest}
use mytonprovider_backend.Agent.Server.Validate.{
  RequestError, guard, first_error, validate_endpoint, validate_contracts, validate_provider,
  validate_providers, validate_request, request_is_nil, job_id_is_empty, providers_list_is_empty,
  provider_is_nil, provider_pubkey_is_empty, provider_address_is_empty, contracts_are_empty,
  storage_endpoint_is_nil, endpoint_ip_is_empty, endpoint_port_is_invalid,
  adnl_pubkey_has_invalid_size, contract_is_nil, contract_address_is_empty, bag_id_is_empty,
}

-- What is wrong with a provider of the request, for each error.
pub data ProviderDefect (p : ProviderBatch) : RequestError → Type 0 where
  blank_pubkey : is_blank p.provider_pubkey ≡ true → ProviderDefect p provider_pubkey_is_empty
  blank_address : is_blank p.provider_address ≡ true → ProviderDefect p provider_address_is_empty
  no_contracts : p.contracts ≡ [] → ProviderDefect p (contracts_are_empty p.provider_pubkey)
  no_endpoint :
      p.storage_endpoint ≡ none → ProviderDefect p (storage_endpoint_is_nil p.provider_pubkey)
  blank_ip :
      (e : Endpoint)
      → p.storage_endpoint ≡ some e
      → is_blank e.ip ≡ true
      → ProviderDefect p (endpoint_ip_is_empty p.provider_pubkey)
  bad_port :
      (e : Endpoint)
      → p.storage_endpoint ≡ some e
      → is_positive e.port ≡ false
      → ProviderDefect p (endpoint_port_is_invalid p.provider_pubkey)
  bad_key :
      (e : Endpoint)
      → p.storage_endpoint ≡ some e
      → (length e.adnl_pubkey == 32) ≡ false
      → ProviderDefect p (adnl_pubkey_has_invalid_size p.provider_pubkey)
  nil_contract :
      (j : ℕ)
      → get_elem? p.contracts j ≡ some none
      → ProviderDefect p (contract_is_nil j p.provider_pubkey)
  blank_contract :
      (j : ℕ) (c : ContractRef)
      → get_elem? p.contracts j ≡ some (some c)
      → is_blank c.contract_address ≡ true
      → ProviderDefect p (contract_address_is_empty p.provider_pubkey)
  blank_bag :
      (j : ℕ) (c : ContractRef)
      → get_elem? p.contracts j ≡ some (some c)
      → is_blank c.bag_id ≡ true
      → ProviderDefect p (bag_id_is_empty p.provider_pubkey)

-- What is wrong with a request, for each error.
pub data RequestDefect : Option RunChecksRequest → RequestError → Type 0 where
  nil_request : RequestDefect none request_is_nil
  blank_job :
      (r : RunChecksRequest) → is_blank r.job_id ≡ true → RequestDefect (some r) job_id_is_empty
  no_providers :
      (r : RunChecksRequest) → r.providers ≡ [] → RequestDefect (some r) providers_list_is_empty
  nil_provider :
      (r : RunChecksRequest) (i : ℕ)
      → get_elem? r.providers i ≡ some none
      → RequestDefect (some r) (provider_is_nil i)
  bad_provider :
      (r : RunChecksRequest) (i : ℕ) (p : ProviderBatch) (e : RequestError)
      → get_elem? r.providers i ≡ some (some p)
      → ProviderDefect p e
      → RequestDefect (some r) e

-- An error at `o` comes with what `D` says of it.
record Explains (D : RequestError → Type 0) (o : Option RequestError) : Type 0 where
  meaning : (e : RequestError) → o ≡ some e → D e

-- The same of every check in a row.
infixr 20 ◌then◌
data AllExplain (D : RequestError → Type 0) : List (Option RequestError) → Type 0 where
  done : AllExplain D []
  ◌then◌ :
      {o : Option RequestError} {os : List (Option RequestError)}
      → Explains D o
      → AllExplain D os
      → AllExplain D (o ∷ os)

module _ {D : RequestError → Type 0} where
  no-error : Explains D none
  no-error = record { meaning = λ e q. absurd cc }

  some-Explains : {x : RequestError} → D x → Explains D (some x)
  some-Explains {x} d = record { meaning = λ e q. (let same : x ≡ e = cc in subst D same d) }

  guard-Explains : {bad : Bool} (x : RequestError) → (bad ≡ true → D x) → Explains D (guard bad x)
  guard-Explains {bad = true} x d = unfold guard in some-Explains (d refl)
  guard-Explains {bad = false} x d = unfold guard in no-error

  first-Explains : {os : List (Option RequestError)} → AllExplain D os → Explains D (first_error os)
  unfolding first_error
  first-Explains done = no-error
  first-Explains (◌then◌ {o = none} first others) = first-Explains others
  first-Explains (◌then◌ {o = some x} first others) = record { meaning = first.meaning }

module _ {A : Type 0} where
  empty-nil : (xs : List A) → is_empty xs ≡ true → xs ≡ []
  empty-nil [] h = refl
  empty-nil (x ∷ xs) h = cc

  -- `ys` stands in `xs` from position `k` on.
  record Tail (xs : List A) (k : ℕ) (ys : List A) : Type 0 where
    entry : (i : ℕ) → get_elem? ys i ≡ get_elem? xs (k + i)

  whole : (xs : List A) → Tail xs 0 xs
  whole xs = record { entry = λ i. ap (get_elem? xs) (omega arith) }

  head-of :
      {xs : List A} {k : ℕ} {y : A} {ys : List A} → Tail xs k (y ∷ ys) → get_elem? xs k ≡ some y
  head-of {xs} t = ap (get_elem? xs) (omega arith) ∙ sym (t.entry 0)

  rest-of : {xs : List A} {k : ℕ} {y : A} {ys : List A} → Tail xs k (y ∷ ys) → Tail xs (suc k) ys
  rest-of {xs} t = record { entry = λ i. t.entry (suc i) ∙ ap (get_elem? xs) (omega arith) }

module _ (p : ProviderBatch) where
  endpoint-Explains :
      (o : Option Endpoint)
      → p.storage_endpoint ≡ o
      → Explains (ProviderDefect p) (validate_endpoint p.provider_pubkey o)
  unfolding validate_endpoint
  endpoint-Explains none h = some-Explains (no_endpoint h)
  endpoint-Explains (some ep) h = first-Explains (
      guard-Explains _ (blank_ip ep h)
      then guard-Explains _ (λ b. bad_port ep h (ground (arith, b)))
      then guard-Explains _ (λ b. bad_key ep h (ground (arith, b)))
      then done)

  contracts-AllExplain :
      (j : ℕ) (cs : List (Option ContractRef))
      → Tail p.contracts j cs
      → Explains (ProviderDefect p) (validate_contracts p.provider_pubkey j cs)
  unfolding validate_contracts
  contracts-AllExplain j [] t = no-error
  contracts-AllExplain j (none ∷ cs) t = some-Explains (nil_contract j (head-of t))
  contracts-AllExplain j (some c ∷ cs) t = first-Explains (
      guard-Explains _ (blank_contract j c (head-of t))
      then guard-Explains _ (blank_bag j c (head-of t))
      then contracts-AllExplain (suc j) cs (rest-of t)
      then done)

  provider-Explains : Explains (ProviderDefect p) (validate_provider p)
  unfolding validate_provider
  provider-Explains = first-Explains (
      guard-Explains _ blank_pubkey
      then guard-Explains _ blank_address
      then guard-Explains _ (λ b. no_contracts (empty-nil p.contracts b))
      then endpoint-Explains p.storage_endpoint refl
      then contracts-AllExplain 0 p.contracts (whole p.contracts)
      then done)

module _ (r : RunChecksRequest) where
  providers-AllExplain :
      (i : ℕ) (ps : List (Option ProviderBatch))
      → Tail r.providers i ps
      → Explains (RequestDefect (some r)) (validate_providers i ps)
  unfolding validate_providers
  providers-AllExplain i [] t = no-error
  providers-AllExplain i (none ∷ ps) t = some-Explains (nil_provider r i (head-of t))
  providers-AllExplain i (some p ∷ ps) t = first-Explains (
      record {
        meaning = λ e q. bad_provider r i p e (head-of t) ((provider-Explains p).meaning e q);
      }
      then providers-AllExplain (suc i) ps (rest-of t)
      then done)

  request-Explains : Explains (RequestDefect (some r)) (validate_request (some r))
  unfolding validate_request
  request-Explains = first-Explains (
      guard-Explains _ (blank_job r)
      then guard-Explains _ (λ b. no_providers r (empty-nil r.providers b))
      then providers-AllExplain 0 r.providers (whole r.providers)
      then done)

-- An error that the validation of a request reports names a defect that the request has, at the
-- position or for the provider that the error carries.
pub validate_request-explains :
    (req : Option RunChecksRequest) (e : RequestError)
    → validate_request req ≡ some e
    → RequestDefect req e
unfolding validate_request
validate_request-explains none e q =
    (let m : Explains (RequestDefect none) (some request_is_nil) = some-Explains nil_request in
      m.meaning e q)
validate_request-explains (some r) e q = (request-Explains r).meaning e q
