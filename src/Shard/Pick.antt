-- ===== src/Shard/Pick.antt =====
-- `pickAgent`: which agent a batch goes to.
use mathlib.Core.Bool.{not}
use mytonprovider_backend.Prelude.{
  ℕ, ◌≤◌, String, ◌≡◌, ◌⊎◌, inl, inr, refl, Bool, true, false, ◌&&◌, some, List, [], ◌∷◌, Map,
  lookup, arith, All, or_else, str_eq, str_eq_refl, Bool-cases, ltb→lt, ltb→le, if◌then◌else◌, ltb,
}
use mytonprovider_backend.Shard.{has_endpoint, least_loaded, pick_agent}

abbrev pub load : Map ℕ → String → ℕ
load loads ep = or_else 0 (lookup loads ep)

abbrev pub LeastOf : Map ℕ → String → List String → Type 0
LeastOf loads c es = All (λ e. load loads c ≤ load loads e) es

LeastOf-mono :
    (loads : Map ℕ) (c d : String) (es : List String)
    → load loads c ≤ load loads d
    → LeastOf loads d es
    → LeastOf loads c es
LeastOf-mono loads c d [] h all = tt
LeastOf-mono loads c d (e ∷ es) h all = (omega (arith, all.0), LeastOf-mono loads c d es h all.1)

abbrev lighter : Map ℕ → String → String → String
lighter loads c e = if ltb (load loads e) (load loads c) then e else c

lighter-le :
    (loads : Map ℕ) (c e : String)
    → (load loads (lighter loads c e) ≤ load loads c)
      × (load loads (lighter loads c e) ≤ load loads e)
lighter-le loads c e = elim (Bool-cases (ltb (load loads e) (load loads c))) [
  | inl lt ↦ rw lt (omega (arith, ltb→lt _ _ lt), omega arith)
  | inr ge ↦ rw ge (omega arith, omega (arith, ltb→le _ _ ge))
]

least_loaded-least :
    (loads : Map ℕ) (c : String) (es : List String)
    → (load loads (least_loaded loads c es) ≤ load loads c)
      × LeastOf loads (least_loaded loads c es) es
unfolding least_loaded
least_loaded-least loads c [] = (omega arith, tt)
least_loaded-least loads c (e ∷ es) =
    let (le, all) = least_loaded-least loads (lighter loads c e) es in
    (
      omega (arith, le, (lighter-le loads c e).0),
      (omega (arith, le, (lighter-le loads c e).1), all),
    )

least_loaded-mem :
    (loads : Map ℕ) (c : String) (es : List String)
    → has_endpoint (c ∷ es) (least_loaded loads c es) ≡ true
unfolding least_loaded has_endpoint
least_loaded-mem loads c [] = rw str_eq_refl
least_loaded-mem loads c (e ∷ es) = elim (Bool-cases (ltb (load loads e) (load loads c))) [
  | inl lt ↦ rw lt (ground (arith, least_loaded-mem loads e es))
  | inr ge ↦ rw ge (ground (arith, least_loaded-mem loads c es))
]

-- `c` is the sticky endpoint, and that is among the candidates.
abbrev pub is_sticky : List String → String → Bool
is_sticky candidates ep = not (str_eq ep "") && has_endpoint candidates ep

-- With at least one candidate `pickAgent` returns one of the candidates: the sticky endpoint if that
-- is a candidate, and otherwise one whose load is least among them.
pub pick_agent_lem :
    (e : String) (es : List String) (loads : Map ℕ) (sticky : String)
    → (c : String) × (pick_agent (e ∷ es) loads sticky ≡ some c)
      × (has_endpoint (e ∷ es) c ≡ true)
      × (((is_sticky (e ∷ es) sticky ≡ true) × (c ≡ sticky))
          ⊎ ((is_sticky (e ∷ es) sticky ≡ false) × LeastOf loads c (e ∷ es)))
unfolding pick_agent
pick_agent_lem e es loads sticky = elim (Bool-cases (is_sticky (e ∷ es) sticky)) [
  | inl yes_sticky ↦ (sticky, rw yes_sticky, ground arith, inl (yes_sticky, refl))
  | inr no_sticky ↦ (
    least_loaded loads e es,
    rw no_sticky,
    unfold pick_agent in least_loaded-mem loads e es,
    inr (no_sticky, least_loaded-least loads e es),
  )
]
