-- ===== src/Workers/NewProviders/Scanned.antt =====
-- `CollectNewProviders`: where the providers that it adds come from.
use mathlib.Core.List.Memᴰ.{Memᴰ, head, tail}
use mytonprovider_backend.Prelude.{
  ℕ, ◌<◌, ◌≡◌, refl, ap, ◌∙◌, sym, subst, inl, inr, String, true, Option, none, some, List, [], ◌∷◌,
  Map, KeySet, All, Entries, insert-Entries, lookup, length, ◌==◌, ltb, ltb→lt, str_eq, arith,
  Bool-cases, Option-cases, len, hex_decode, to_lower, after_first,
}
use mytonprovider_backend.Workers.NewProviders.{
  Transaction, ProviderCreate, prefix, known_of, is_key, new_key, message_key, Scan, put_provider,
  scan_tx, scan_loop, values, Env, parse_lt, register, collect_new_providers,
}
use mytonprovider_backend.Workers.NewProviders.Rescan.{first_scan, collect_lem}

-- The text is 64 bytes long and spells 32 bytes.
pub record SpellsKey (pubkey : String) : Type 0 where
  pub long : (len pubkey == 64) ≡ true
  pub bytes : List ℕ
  pub spelled : hex_decode pubkey ≡ some bytes
  pub is_32 : length bytes ≡ 32

-- The provider was registered by a transaction after `last`, with a key that was not known.
pub record IsNew (last : ℕ) (known : KeySet) (txs : List Transaction) (p : ProviderCreate)
    : Type 0 where
  pub tx : Transaction
  pub is_scanned : Memᴰ tx txs
  pub is_later : last < tx.lt
  pub by_sender : p.address ≡ tx.from_addr
  pub at_time : p.registered_at ≡ tx.created_at
  pub named : String
  pub in_message : after_first prefix tx.message ≡ some named
  pub is_lowered : p.pubkey ≡ to_lower named
  pub is_fresh : lookup known p.pubkey ≡ none
  pub spells : SpellsKey p.pubkey

is_key-some :
    (o : Option (List ℕ))
    → is_key o ≡ true
    → (bytes : List ℕ) × (o ≡ some bytes) × (length bytes ≡ 32)
unfolding is_key
is_key-some none h = cc
is_key-some (some bytes) h = (bytes, refl, ground (arith, h))

new_key-lem :
    (known : KeySet) (k pubkey : String)
    → new_key known k ≡ some pubkey
    → (k ≡ pubkey) × (lookup known k ≡ none) × SpellsKey k
unfolding new_key
new_key-lem known k pubkey h = elim (Bool-cases (len k == 64)) [
  | inr short ↦ absurd (cc (rw short at h))
  | inl long ↦ elim (Option-cases (lookup known k)) [
    | inr (u, there) ↦ absurd (cc (rw (long, there) at h))
    | inl fresh ↦ elim (Bool-cases (is_key (hex_decode k))) [
      | inr bad ↦ absurd (cc (rw (long, fresh, bad) at h))
      | inl good ↦
          let (bytes, spelled, is_32) = is_key-some (hex_decode k) good in
          let found : some k ≡ some pubkey = (rw (long, fresh, good) at h) in
          (cc, fresh, record { long = long; bytes = bytes; spelled = spelled; is_32 = is_32 })
    ]
  ]
]

message_key-lem :
    (known : KeySet) (o : Option String) (pubkey : String)
    → message_key known o ≡ some pubkey
    → (named : String) × (o ≡ some named)
      × (to_lower named ≡ pubkey)
      × (lookup known (to_lower named) ≡ none)
      × SpellsKey (to_lower named)
unfolding message_key
message_key-lem known none pubkey h = cc
message_key-lem known (some rest) pubkey h = elim (Bool-cases (str_eq rest "")) [
  | inl nothing ↦ absurd (cc (rw nothing at h))
  | inr more ↦
      let (same, fresh, spells) = new_key-lem known (to_lower rest) pubkey (rw more at h) in
      (rest, refl, same, fresh, spells)
]

module _ (last : ℕ) (known : KeySet) (all : List Transaction) where
  Each : String → ProviderCreate → Type 0
  Each _ p = IsNew last known all p

  put_provider-Each :
      (tx : Transaction) (m : Map ProviderCreate) (o : Option String)
      → Memᴰ tx all
      → last < tx.lt
      → message_key known (after_first prefix tx.message) ≡ o
      → Entries Each m
      → Entries Each (put_provider tx m o)
  unfolding put_provider Each
  put_provider-Each tx m none mem later h each = each
  put_provider-Each tx m (some pubkey) mem later h each =
      let (named, there, same, fresh, spells) = message_key-lem known _ pubkey h in
      insert-Entries Each m pubkey _
        (record {
          tx = tx;
          is_scanned = mem;
          is_later = later;
          by_sender = refl;
          at_time = refl;
          named = named;
          in_message = there;
          is_lowered = sym same;
          is_fresh = subst (λ k. lookup known k ≡ none) same fresh;
          spells = subst SpellsKey same spells;
        })
        each

  scan_loop-Each :
      (s : Scan) (txs : List Transaction)
      → ((tx : Transaction) → Memᴰ tx txs → Memᴰ tx all)
      → Entries Each s.unique
      → Entries Each (scan_loop last known s txs).unique
  unfolding scan_loop
  scan_loop-Each s [] within each = each
  scan_loop-Each s (tx ∷ txs) within each =
      scan_loop-Each (scan_tx last known s tx) txs (λ t m. within t (tail m))
        (elim (Bool-cases (ltb last tx.lt)) [
          | inl later ↦
              unfold scan_tx in
              rw later (
                put_provider-Each tx s.unique _ (within tx (head refl)) (ltb→lt last tx.lt later)
                  refl each)
          | inr old ↦ unfold scan_tx in rw old each
        ])

  values-All : (m : Map ProviderCreate) → Entries Each m → All (IsNew last known all) (values m)
  unfolding values Each
  values-All [] each = tt
  values-All ((k, p) ∷ m) (new, each) = (new, values-All m each)

register-added :
    (env : Env) (lt : String) (s : Scan) (ps : List ProviderCreate)
    → (register env lt s).added ≡ some ps
    → ps ≡ values s.unique
unfolding register
register-added env lt s ps h = ground (arith, h)

-- Every provider that the worker adds was registered by a transaction that the chain listed after
-- the stored bound, with its sender and its time, and its key stands in small letters for what
-- follows the prefix in the message, spells 32 bytes, and was not known.
pub added-AreNew :
    (env : Env) (lt : String) (pubkeys : List String) (txs : List Transaction)
    (ps : List ProviderCreate)
    → env.all_pubkeys ≡ some pubkeys
    → env.get_transactions (parse_lt lt) ≡ some txs
    → (collect_new_providers env lt).added ≡ some ps
    → All (IsNew (parse_lt lt) (known_of [] pubkeys) txs) ps
unfolding collect_new_providers
added-AreNew env lt pubkeys txs ps listed scanned found =
    let last = parse_lt lt in
    let known = known_of [] pubkeys in
    let s = scan_loop last known (first_scan last) txs in
    let got : ps ≡ values s.unique = elim (Bool-cases env.get_param_ok) [
      | inl ok ↦
          register-added env lt s ps
            (sym (ap (λ o. o.added) (collect_lem env lt pubkeys txs ok listed scanned)) ∙ found)
      | inr bad ↦ absurd (cc (rw bad at found))
    ] in
    subst (All (IsNew last known txs)) (sym got) (
      values-All last known txs s.unique
        (scan_loop-Each last known txs (first_scan last) txs (λ t m. m) tt))
