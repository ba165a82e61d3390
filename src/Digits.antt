-- ===== src/Digits.antt =====
-- `Number.prototype.toString` on natural numbers, and the number that decimal digits stand for.
use blend_posv.Prelude.{
  ℕ, zero, suc, ◌+◌, ◌-◌, ◌*◌, ◌/◌, ◌%◌, ◌<◌, ◌≡◌, refl, ◌∙◌, inl, inr, [], ◌∷◌, ◌++◌, arith, ltb,
  ◌==◌, if◌then◌else◌, Bool-cases, length, replicate,
}
use blend_posv.Text.{Text, pad_start}

abbrev pub digit : ℕ → ℕ
digit d = if ltb d 10 then 48 + d else 87 + d

-- The digits of n before those of `acc`, with one unit of fuel for each.
unfoldable pub digits_on : ℕ → ℕ → ℕ → Text → Text
digits_on zero base n acc = acc
digits_on (suc fuel) base n acc =
    let rest = digits_on fuel base (n / base) (digit (n % base) ∷ acc) in
    if n / base == 0 then digit (n % base) ∷ acc else rest

-- A number has fewer digits than its value plus two.
unfoldable pub to_text : ℕ → ℕ → Text
unfolding digits_on
to_text base n = digits_on (suc n) base n []

abbrev pub value_from : ℕ → Text → ℕ
value_from acc [] = acc
value_from acc (c ∷ cs) = value_from (acc * 10 + (c - 48)) cs

value_from-digits_on :
    (fuel n : ℕ) (acc : Text) → n < fuel → value_from 0 (digits_on fuel 10 n acc) ≡ value_from n acc
unfolding digits_on
value_from-digits_on zero n acc h = omega arith
value_from-digits_on (suc fuel) n acc h = elim (Bool-cases (n / 10 == 0)) [
  | inl last ↦ rw last (same (0 * 10 + (digit (n % 10) - 48)) n acc (ground arith))
  | inr more ↦ rw more (
      value_from-digits_on fuel (n / 10) (digit (n % 10) ∷ acc) (ground arith)
      ∙ same (n / 10 * 10 + (digit (n % 10) - 48)) n acc (ground arith))
]
  where
    same : (a b : ℕ) (t : Text) → a ≡ b → value_from a t ≡ value_from b t
    same a b t e = rw e refl

-- The digits of a number stand for it: the fuel is enough.
pub value_from-to_text : (n : ℕ) → value_from 0 (to_text 10 n) ≡ n
unfolding to_text
value_from-to_text n = value_from-digits_on (suc n) n [] (omega arith)

value_from-zeros : (k : ℕ) (t : Text) → value_from 0 (replicate k 48 ++ t) ≡ value_from 0 t
value_from-zeros zero t = refl
value_from-zeros (suc k) t = value_from-zeros k t

-- Zeros in front change no number.
pub value_from-pad_start : (k n : ℕ) → value_from 0 (pad_start k 48 (to_text 10 n)) ≡ n
value_from-pad_start k n =
    value_from-zeros (k - length (to_text 10 n)) (to_text 10 n) ∙ value_from-to_text n
