-- ===== src/Shard/Cover/Candidates.antt =====
-- The candidates for a batch: the endpoints, less the excluded one where another is there.
use mathlib.Core.Bool.{not}
use mytonprovider_backend.Prelude.{
  ◌≡◌, ◌≢◌, refl, String, true, false, ◌&&◌, List, [], ◌∷◌, str_eq, arith, eq_iff, is_empty, length,
  ltb,
}
use mytonprovider_backend.Shard.{has_endpoint, without, candidates_for}

has_endpoint-without :
    (es : List String) (x e : String)
    → has_endpoint (without es x) e ≡ (has_endpoint es e && not (str_eq e x))
unfolding without has_endpoint
has_endpoint-without [] x e = refl
has_endpoint-without (f ∷ es) x e =
    ground (arith, has_endpoint-without es x e, eq_iff f x, eq_iff f e, eq_iff e x)

-- A candidate is an endpoint.
pub has_endpoint-candidates_for :
    (es : List String) (x e : String)
    → has_endpoint (candidates_for es x) e ≡ true
    → has_endpoint es e ≡ true
unfolding candidates_for
has_endpoint-candidates_for es x e h = ground (arith, has_endpoint-without es x e)

-- There is an endpoint other than `x`.
abbrev pub HasOther : List String → String → Type 0
HasOther es x = (e : String) × (has_endpoint es e ≡ true) × (e ≢ x)

has_endpoint-nonempty :
    (es : List String) (e : String) → has_endpoint es e ≡ true → is_empty es ≡ false
unfolding has_endpoint
has_endpoint-nonempty [] e h = ground arith
has_endpoint-nonempty (f ∷ es) e h = refl

candidates_for-filtered :
    (es : List String) (x : String)
    → str_eq x "" ≡ false
    → ltb 1 (length es) ≡ true
    → is_empty (without es x) ≡ false
    → candidates_for es x ≡ without es x
unfolding candidates_for
candidates_for-filtered es x n l f = rw (n, l, f)

pub str_ne : (s t : String) → s ≢ t → str_eq s t ≡ false
str_ne s t n = ground (arith, eq_iff s t)

-- Where another endpoint is there, the excluded one is no candidate.
pub candidates_for-excludes :
    (es : List String) (x c : String)
    → x ≢ ""
    → HasOther es x
    → has_endpoint (candidates_for es x) c ≡ true
    → c ≢ x
unfolding has_endpoint
candidates_for-excludes [] x c n (e, m, o) h eq = ground arith
candidates_for-excludes (f ∷ []) x c n (e, m, o) h eq =
    ground (arith, has_endpoint-candidates_for (f ∷ []) x c h, eq_iff f e, eq_iff f c)
candidates_for-excludes (f ∷ g ∷ es) x c n (e, m, o) h eq =
    let kept = has_endpoint-without (f ∷ g ∷ es) x e in
    let some_left =
      has_endpoint-nonempty (without (f ∷ g ∷ es) x) e (ground (arith, kept, m, str_ne e x o)) in
    let all_filtered =
      candidates_for-filtered (f ∷ g ∷ es) x (str_ne x "" n) (ground arith) some_left in
    ground (arith, rw all_filtered at h, has_endpoint-without (f ∷ g ∷ es) x c, eq_iff c x)

-- An endpoint that is not excluded is a candidate.
pub candidates_for-keeps :
    (es : List String) (x e : String)
    → has_endpoint es e ≡ true
    → e ≢ x
    → has_endpoint (candidates_for es x) e ≡ true
unfolding candidates_for
candidates_for-keeps es x e m n = ground (arith, has_endpoint-without es x e, str_ne e x n)
