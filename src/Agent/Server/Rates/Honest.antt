-- ===== src/Agent/Server/Rates/Honest.antt =====
-- The rows of `RunStorageRates` (agent/internal/grpcserver/run_storage_rates.go) and what they rest
-- on.
use mytonprovider_backend.Prelude.{
  ℕ, ◌≡◌, ◌≤◌, ◌<◌, ◌⊎◌, inl, inr, refl, ap, ap₂, String, false, Option, none, some, List, [], ◌∷◌,
  map, length, ◌==◌, if◌then◌else◌, is_blank, trim_space, hex_decode, len, All, arith, Bool-cases,
  subst,
}
use mytonprovider_backend.Agent.Server.Rates.{
  RunStorageRatesRequest, StorageRates, StorageRatesResult, GetStorageRates, Reply, failed,
  answered, KeyOf, key, bad_key, key_of, decoded, rates_row, fetch_rates, fetch_one_storage_rate,
  rates_query_ms, rates_rows, run_storage_rates, ServerCall, Response, responded, respond,
  validate_run_storage_rates_request, validate_list,
}

module _ (get : GetStorageRates) where
  -- A row with rates is what the transport answered for the 32 bytes that the public key spells.
  pub record IsBacked (row : StorageRatesResult) (r : StorageRates) : Type 0 where
    pub bytes : List ℕ
    pub spelled : hex_decode (trim_space row.provider_pubkey) ≡ some bytes
    pub is_key : length bytes ≡ 32
    pub query_size : ℕ
    pub has_size : 0 < query_size
    pub per_query_ms : ℕ
    pub answer : get bytes query_size per_query_ms ≡ answered row.latency_ms r

  abbrev pub IsHonest : StorageRatesResult → Type 0
  IsHonest row = (row.rates ≡ none) ⊎ ((r : StorageRates) × (row.rates ≡ some r) × IsBacked row r)

  decoded-key :
      (o : Option (List ℕ)) (bytes : List ℕ)
      → decoded o ≡ key bytes
      → (o ≡ some bytes) × (length bytes ≡ 32)
  unfolding decoded
  decoded-key none bytes h = cc
  decoded-key (some bs) bytes h = elim (Bool-cases (length bs == 32)) [
    | inl good ↦
        let found : key bs ≡ key bytes = (rw good at h) in
        let same : bs ≡ bytes = cc in
        (ap some same, subst (λ b. length b ≡ 32) same (ground (arith, good)))
    | inr bad ↦ absurd (cc (rw bad at h))
  ]

  key_of-key :
      (pk : String) (bytes : List ℕ)
      → key_of pk ≡ key bytes
      → (hex_decode pk ≡ some bytes) × (length bytes ≡ 32)
  unfolding key_of
  key_of-key pk bytes h = elim (Bool-cases (len pk == 64)) [
    | inl good ↦ decoded-key (hex_decode pk) bytes (rw good at h)
    | inr bad ↦ absurd (cc (rw bad at h))
  ]

  fetch-IsHonest :
      (size ms : ℕ) (pk : String) (k : KeyOf)
      → 0 < size
      → key_of (trim_space pk) ≡ k
      → IsHonest (fetch_rates get size ms pk k)
  unfolding fetch_rates rates_row
  fetch-IsHonest size ms pk (bad_key why) positive eq = inl refl
  fetch-IsHonest size ms pk (key bytes) positive eq = from (get bytes size ms) refl
    where
      from :
          (reply : Reply StorageRates) → get bytes size ms ≡ reply → IsHonest (rates_row pk reply)
      from (failed took text) h = inl refl
      from (answered took r) h =
          let (spelled, is_key) = key_of-key (trim_space pk) bytes eq in
          inr (
            r,
            refl,
            record {
              bytes = bytes;
              spelled = spelled;
              is_key = is_key;
              query_size = size;
              has_size = positive;
              per_query_ms = ms;
              answer = h;
            },
          )

  fetch-pubkey :
      (size ms : ℕ) (pk : String) (k : KeyOf) → (fetch_rates get size ms pk k).provider_pubkey ≡ pk
  unfolding fetch_rates rates_row
  fetch-pubkey size ms pk (bad_key why) = refl
  fetch-pubkey size ms pk (key bytes) = from (get bytes size ms)
    where
      from : (reply : Reply StorageRates) → (rates_row pk reply).provider_pubkey ≡ pk
      from (failed took text) = refl
      from (answered took r) = refl

  rows_lem :
      (size ms : ℕ) (pks : List String)
      → 0 < size
      → let rows = map (fetch_one_storage_rate get size ms) pks in
        (map (λ row. row.provider_pubkey) rows ≡ pks) × All IsHonest rows
  unfolding fetch_one_storage_rate
  rows_lem size ms [] positive = (refl, tt)
  rows_lem size ms (pk ∷ pks) positive =
      let (keys, honest) = rows_lem size ms pks positive in
      let k = key_of (trim_space pk) in
      (
        ap₂ (λ x xs. x ∷ xs) (fetch-pubkey size ms pk k) keys,
        (fetch-IsHonest size ms pk k positive refl, honest),
      )

-- What an agent answers to a request for storage rates.
pub record Answers (get : GetStorageRates) (req : RunStorageRatesRequest)
    (resp : Response StorageRatesResult) : Type 0 where
  pub same_job : resp.job_id ≡ req.job_id
  pub in_order : map (λ row. row.provider_pubkey) resp.results ≡ req.provider_pubkeys
  pub honest : All (IsHonest get) resp.results

validate_list-none {ℓ} :
    {A : Type ℓ} (job : String) (items : List A) (most : ℕ)
    → is_blank job ≡ false
    → 1 ≤ length items
    → length items ≤ most
    → validate_list job items most ≡ none
unfolding validate_list
validate_list-none job [] most named some_items few = absurd (omega (arith, some_items))
validate_list-none job (x ∷ xs) most named some_items few = rw named (ground (arith, few))

size-positive : (n : ℕ) → 0 < (if n == 0 then 1 else n)
size-positive n = ground arith

-- A request for storage rates with a name and with one to 4096 public keys is answered: the answer
-- carries the name, has one row for each public key, in the order of the request, and a row has
-- rates only if the transport answered them for the 32 bytes that the public key spells.
pub run_storage_rates-Answers :
    (get : GetStorageRates) (call : ServerCall) (req : RunStorageRatesRequest)
    → is_blank req.job_id ≡ false
    → 1 ≤ length req.provider_pubkeys
    → length req.provider_pubkeys ≤ 4096
    → (resp : Response StorageRatesResult) × (run_storage_rates get call (some req)
        ≡ responded resp)
      × Answers get req resp
unfolding run_storage_rates rates_rows respond
run_storage_rates-Answers get call req named some_keys few_keys =
    let valid : validate_run_storage_rates_request (some req) ≡ none =
      (unfold validate_run_storage_rates_request in
        validate_list-none req.job_id req.provider_pubkeys 4096 named some_keys few_keys) in
    let (in_order, honest) =
      rows_lem get (if req.query_size == 0 then 1 else req.query_size) (rates_query_ms req.timeouts)
        req.provider_pubkeys (size-positive req.query_size) in
    (
      respond call req.job_id (rates_rows get req),
      rw (valid, run_storage_rates),
      record { same_job = refl; in_order = in_order; honest = honest },
    )
