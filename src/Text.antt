-- ===== src/Text.antt =====
-- JavaScript strings: lists of UTF-16 code units, with the string methods that the code uses.
pub mod Parts
use Prim.Native.Char.{code}
use Prim.Native.String.{String}
use blend_posv.Prelude.{
  ℕ, ◌-◌, ◌≡◌, refl, ◌↔◌, ◌⊎◌, inl, inr, Bool, true, false, ◌&&◌, ◌||◌, List, [], ◌∷◌, ◌++◌, Option,
  none, some, arith, ◌==◌, if◌then◌else◌, length, replicate,
}

abbrev pub Text : Type 0
Text = List ℕ

-- The code units of a literal in the basic plane.
abbrev pub codes : String → Text
codes String.[] = []
codes (String.◌∷◌ c s) = code c ∷ codes s

-- `a === b`
abbrev pub text_eq : Text → Text → Bool
text_eq [] [] = true
text_eq [] (y ∷ ys) = false
text_eq (x ∷ xs) [] = false
text_eq (x ∷ xs) (y ∷ ys) = x == y && text_eq xs ys

pub text_eq_iff : (a b : Text) → (text_eq a b ≡ true) ↔ (a ≡ b)
text_eq_iff [] [] = ground arith
text_eq_iff [] (y ∷ ys) = ground arith
text_eq_iff (x ∷ xs) [] = ground arith
text_eq_iff (x ∷ xs) (y ∷ ys) = ground (arith, text_eq_iff xs ys)

pub text_eq_refl : (a : Text) → text_eq a a ≡ true
text_eq_refl a = (text_eq_iff a a).1 refl

pub text_eq_cases : (a b : Text) → (a ≡ b) ⊎ ((text_eq a b ≡ false) × (text_eq b a ≡ false))
text_eq_cases [] [] = inl refl
text_eq_cases [] (y ∷ ys) = inr (refl, refl)
text_eq_cases (x ∷ xs) [] = inr (refl, refl)
text_eq_cases (x ∷ xs) (y ∷ ys) = elim (text_eq_cases xs ys) [
  | inl same ↦ ground (arith, same)
  | inr other ↦ inr (ground arith, ground arith)
]

-- The truth value of a string: the empty one is false.
abbrev pub truthy : Text → Bool
truthy [] = false
truthy (x ∷ xs) = true

-- The truth value of a string that may be undefined or null.
abbrev pub has_text : Option Text → Bool
has_text none = false
has_text (some t) = truthy t

-- `xs.includes(x)`
abbrev pub member : Text → List Text → Bool
member x [] = false
member x (y ∷ ys) = text_eq x y || member x ys

-- `s.startsWith(p)`
abbrev pub starts_with : Text → Text → Bool
starts_with [] s = true
starts_with (p ∷ ps) [] = false
starts_with (p ∷ ps) (c ∷ s) = p == c && starts_with ps s

-- `s.includes(p)`
abbrev pub includes : Text → Text → Bool
includes p [] = starts_with p []
includes p (c ∷ s) = starts_with p (c ∷ s) || includes p s

-- `s.split(p)[0]`, for a separator that is not empty
abbrev pub split_head : Text → Text → Text
split_head p [] = []
split_head p (c ∷ s) = if starts_with p (c ∷ s) then [] else c ∷ split_head p s

-- `s.padStart(n, ch)`
abbrev pub pad_start : ℕ → ℕ → Text → Text
pad_start n ch s = replicate (n - length s) ch ++ s
