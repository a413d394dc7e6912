-- ===== src/Prelude/Text/Trim.antt =====
-- `strings.TrimSpace`: a trimmed text stays as it is.
use Prim.Native.Char.{Char, code}
use Prim.Native.String.{String}
use mathlib.Core.Path.{◌≡◌, refl, ap, ◌∙◌}
use mathlib.Core.Logic.{inl, inr}
use mathlib.Core.Bool.{false}
use mathlib.Core.Option.{some}
use text.Mathlib.Text.{◌==◌ as str_eq}
use text.Mathlib.TextEquality.{eq_iff}
use native.Mathlib.Omega.{arith}
use mytonprovider_backend.Prelude.Tests.{Bool-cases}
use mytonprovider_backend.Prelude.Text.{
  trim_left, trim_right, trim_space, is_space, keep, append_text, strip_prefix, is_blank,
}

trim_right-keep : (c : Char) (r : String) → trim_right r ≡ r → trim_right (keep c r) ≡ keep c r
unfolding trim_right keep
trim_right-keep c String.[] h = elim (Bool-cases (is_space (code c))) [
  | inl space ↦ rw space refl
  | inr other ↦ rw other (rw other refl)
]
trim_right-keep c (String.◌∷◌ d t) h = rw h refl

trim_right_idem : (s : String) → trim_right (trim_right s) ≡ trim_right s
unfolding trim_right
trim_right_idem String.[] = refl
trim_right_idem (String.◌∷◌ c s) = trim_right-keep c (trim_right s) (trim_right_idem s)

trim_left-keep :
    (c : Char) (r : String) → is_space (code c) ≡ false → trim_left (keep c r) ≡ keep c r
unfolding trim_left keep
trim_left-keep c String.[] other = rw other (rw other refl)
trim_left-keep c (String.◌∷◌ d t) other = rw other refl

trim_left-trim_right :
    (s : String) → trim_left (trim_right (trim_left s)) ≡ trim_right (trim_left s)
unfolding trim_left trim_right
trim_left-trim_right String.[] = refl
trim_left-trim_right (String.◌∷◌ c s) = elim (Bool-cases (is_space (code c))) [
  | inl space ↦ rw space (trim_left-trim_right s)
  | inr other ↦ rw other (trim_left-keep c (trim_right s) other)
]

-- Trimming a trimmed text changes nothing.
pub trim_space_idem : (s : String) → trim_space (trim_space s) ≡ trim_space s
unfolding trim_space
trim_space_idem s = rw trim_left-trim_right (trim_right_idem (trim_left s))

trim_right-append :
    (p : String) (d : Char) (u : String)
    → trim_right (String.◌∷◌ d u) ≡ String.◌∷◌ d u
    → trim_right (append_text p (String.◌∷◌ d u)) ≡ append_text p (String.◌∷◌ d u)
unfolding append_text keep trim_right
trim_right-append String.[] d u h = h
trim_right-append (String.◌∷◌ c p) d u h = ap (keep c) (trim_right-append p d u h) ∙ keeps p
  where
    keeps :
        (p : String)
        → keep c (append_text p (String.◌∷◌ d u)) ≡ String.◌∷◌ c (append_text p (String.◌∷◌ d u))
    keeps String.[] = refl
    keeps (String.◌∷◌ _ _) = refl

trim_space-word :
    (c : Char) (p w : String)
    → is_space (code c) ≡ false
    → str_eq w "" ≡ false
    → trim_right w ≡ w
    → trim_space (append_text (String.◌∷◌ c p) w) ≡ append_text (String.◌∷◌ c p) w
unfolding trim_space append_text trim_left
trim_space-word c p String.[] word there h = cc
trim_space-word c p (String.◌∷◌ d u) word there h =
    rw word (trim_right-append (String.◌∷◌ c p) d u h)

-- A trimmed text behind a word stays as it is.
pub trim_space-append :
    (c : Char) (p u : String)
    → is_space (code c) ≡ false
    → is_blank u ≡ false
    → trim_space (append_text (String.◌∷◌ c p) (trim_space u))
      ≡ append_text (String.◌∷◌ c p) (trim_space u)
unfolding is_blank
trim_space-append c p u word there =
    trim_space-word c p (trim_space u) word there
      (unfold trim_space in trim_right_idem (trim_left u))

pub strip_prefix-append : (p u : String) → strip_prefix p (append_text p u) ≡ some u
unfolding strip_prefix append_text
strip_prefix-append String.[] u = refl
strip_prefix-append (String.◌∷◌ c p) u = ground (arith, strip_prefix-append p u)

pub append_text-ne_empty :
    (c : Char) (p u : String) → str_eq (append_text (String.◌∷◌ c p) u) "" ≡ false
unfolding append_text
append_text-ne_empty c p u = elim (Bool-cases (str_eq (String.◌∷◌ c (append_text p u)) "")) [
  | inl same ↦ absurd (cc ((eq_iff (String.◌∷◌ c (append_text p u)) "").0 same))
  | inr other ↦ other
]
