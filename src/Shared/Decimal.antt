-- ===== src/Shared/Decimal.antt =====
-- The decimal text of a number, as a `bigint` prints it, is well-formed and reads back as the number.
use Prim.Native.Char.{code}
use Prim.Native.Nat.{ℕ, zero, suc, ◌+◌, ◌*◌, ◌/◌, ◌%◌, ◌<◌}
use Prim.Native.String.{String}
use mathlib.Core.Path.{◌≡◌, refl, ap, ◌∙◌}
use mathlib.Core.Logic.{inl, inr}
use mathlib.Core.Bool.{Bool, true, false, ◌&&◌}
use mathlib.Core.List.{List, [], ◌∷◌, ◌++◌}
use native.Mathlib.Omega.{arith}
use agent_life.Shared.Tests.{leb, ltb, if◌then◌else◌, Bool-cases}
use agent_life.Shared.Lists.{all}
use agent_life.Shared.Text.{
  codes, append, digit, digits, decimal, is_digit, is_decimal, decimal_text, decimal_value,
}

codes-append : (s t : String) → codes (append s t) ≡ codes s ++ codes t
unfolding codes append
codes-append String.[] t = refl
codes-append (String.◌∷◌ c s) t = ap (λ cs. code c ∷ cs) (codes-append s t)

codes-digit : (n : ℕ) → n < 10 → codes (digit n) ≡ (n + 48) ∷ []
unfolding codes digit
codes-digit zero h = refl
codes-digit (suc zero) h = refl
codes-digit (suc (suc zero)) h = refl
codes-digit (suc (suc (suc zero))) h = refl
codes-digit (suc (suc (suc (suc zero)))) h = refl
codes-digit (suc (suc (suc (suc (suc zero))))) h = refl
codes-digit (suc (suc (suc (suc (suc (suc zero)))))) h = refl
codes-digit (suc (suc (suc (suc (suc (suc (suc zero))))))) h = refl
codes-digit (suc (suc (suc (suc (suc (suc (suc (suc zero)))))))) h = refl
codes-digit (suc (suc (suc (suc (suc (suc (suc (suc (suc zero))))))))) h = refl
codes-digit (suc (suc (suc (suc (suc (suc (suc (suc (suc (suc n)))))))))) h = absurd (omega arith)

codes-append-digit :
    (n : ℕ) (after : String) → n < 10 → codes (append (digit n) after) ≡ (n + 48) ∷ codes after
codes-append-digit n after h =
    codes-append (digit n) after ∙ ap (λ cs. cs ++ codes after) (codes-digit n h)

value-digit :
    (acc n : ℕ) (after : String)
    → n < 10
    → decimal_value acc (codes (append (digit n) after))
      ≡ decimal_value (acc * 10 + n) (codes after)
unfolding decimal_value
value-digit acc n after h =
    ap (decimal_value acc) (codes-append-digit n after h)
    ∙ ap (λ m. decimal_value (acc * 10 + m) (codes after)) (omega arith)

value-digits :
    (fuel n : ℕ) (after : String)
    → n < fuel
    → decimal_value 0 (codes (digits fuel n after)) ≡ decimal_value n (codes after)
unfolding digits
value-digits zero n after h = absurd (omega arith)
value-digits (suc fuel) n after h = elim (Bool-cases (ltb n 10)) [
  | inl small ↦
      ap
        (λ b. decimal_value 0 (
          codes (
            if b
            then append (digit n) after
            else digits fuel (n / 10) (append (digit (n % 10)) after))))
        small
      ∙ value-digit 0 n after (ground arith)
      ∙ ap (λ m. decimal_value m (codes after)) (omega arith)
  | inr large ↦
      ap
        (λ b. decimal_value 0 (
          codes (
            if b
            then append (digit n) after
            else digits fuel (n / 10) (append (digit (n % 10)) after))))
        large
      ∙ value-digits fuel (n / 10) (append (digit (n % 10)) after) (ground arith)
      ∙ value-digit (n / 10) (n % 10) after (omega arith)
      ∙ ap (λ m. decimal_value m (codes after)) (omega arith)
]

pub decimal_value-decimal : (n : ℕ) → decimal_value 0 (codes (decimal n)) ≡ n
unfolding decimal decimal_value codes
decimal_value-decimal n = value-digits (suc n) n "" (omega arith)

-- Digits without a leading zero.
abbrev leads : List ℕ → Bool
leads [] = false
leads (c ∷ cs) = leb b'1' c && leb c b'9' && all is_digit cs

all-digit :
    (n : ℕ) (after : String)
    → n < 10
    → all is_digit (codes after) ≡ true
    → all is_digit (codes (append (digit n) after)) ≡ true
unfolding is_digit
all-digit n after h k = ap (all is_digit) (codes-append-digit n after h) ∙ ground arith

leads-digits :
    (fuel n : ℕ) (after : String)
    → n < fuel
    → 0 < n
    → all is_digit (codes after) ≡ true
    → leads (codes (digits fuel n after)) ≡ true
unfolding digits
leads-digits zero n after h p k = absurd (omega arith)
leads-digits (suc fuel) n after h p k = elim (Bool-cases (ltb n 10)) [
  | inl small ↦
      ap
        (λ b. leads (
          codes (
            if b
            then append (digit n) after
            else digits fuel (n / 10) (append (digit (n % 10)) after))))
        small
      ∙ ap leads (codes-append-digit n after (ground arith))
      ∙ ground arith
  | inr large ↦
      ap
        (λ b. leads (
          codes (
            if b
            then append (digit n) after
            else digits fuel (n / 10) (append (digit (n % 10)) after))))
        large
      ∙ leads-digits fuel (n / 10) (append (digit (n % 10)) after) (ground arith) (ground arith)
          (all-digit (n % 10) after (omega arith) k)
]

leads-is_decimal : (cs : List ℕ) → leads cs ≡ true → is_decimal cs ≡ true
unfolding is_decimal
leads-is_decimal [] h = absurd (ground arith)
leads-is_decimal (c ∷ cs) h = ground arith

pub decimal_text-decimal : (n : ℕ) → decimal_text (decimal n) ≡ true
unfolding decimal_text decimal codes
decimal_text-decimal zero = refl
decimal_text-decimal (suc n) =
    leads-is_decimal (codes (decimal (suc n)))
      (leads-digits (suc (suc n)) (suc n) "" (omega arith) (omega arith) refl)
