-- ===== src/Versions/Reading.antt =====
-- How the text of a version reads.
use agent_life.Shared.{
  ℕ, ◌≡◌, ◌∙◌, ap, sym, refl, String, true, ◌==◌, leb, Option, none, some, List, [], ◌∷◌, ◌++◌, ok,
  Bool-cases, ==_iff, inl, inr, arith,
}
use agent_life.Shared.Int.{u64_max}
use agent_life.Shared.Text.{codes, is_decimal, decimal_value}
use agent_life.Versions.{ProtocolVersion, split_dot, parse_parts, parse_protocol_version}

-- The major and the minor number in decimal digits, with a dot between, and each of 64 bits.
pub record Reads (text : String) (v : ProtocolVersion) : Type 0 where
  pub major_digits : List ℕ
  pub minor_digits : List ℕ
  pub text_is : codes text ≡ major_digits ++ (b'.' ∷ minor_digits)
  pub major_decimal : is_decimal major_digits ≡ true
  pub minor_decimal : is_decimal minor_digits ≡ true
  pub major_is : v.major ≡ decimal_value 0 major_digits
  pub minor_is : v.minor ≡ decimal_value 0 minor_digits
  pub major_fits : leb v.major u64_max ≡ true
  pub minor_fits : leb v.minor u64_max ≡ true

onto : (xs : List ℕ) (c : ℕ) (cs : List ℕ) → (xs ++ (c ∷ [])) ++ cs ≡ xs ++ (c ∷ cs)
onto [] c cs = refl
onto (x ∷ xs) c cs = ap (λ l. x ∷ l) (onto xs c cs)

split_dot-append :
    (before cs a b : List ℕ) → split_dot before cs ≡ some (a, b) → before ++ cs ≡ a ++ (b'.' ∷ b)
unfolding split_dot
split_dot-append before [] a b h = absurd (ground arith)
split_dot-append before (c ∷ cs) a b h = elim (Bool-cases (c == b'.')) [
  | inl dot ↦
      let first : before ≡ a = ground arith in
      let rest : c ∷ cs ≡ b'.' ∷ b = ground (arith, ==_iff c b'.') in
      ap (λ l. l ++ (c ∷ cs)) first ∙ ap (λ l. a ++ l) rest
  | inr other ↦ sym (onto before c cs) ∙ split_dot-append (before ++ (c ∷ [])) cs a b (ground arith)
]

parts-Reads :
    (text : String) (o : Option (List ℕ × List ℕ)) (v : ProtocolVersion)
    → split_dot [] (codes text) ≡ o
    → parse_parts text o ≡ ok v
    → Reads text v
unfolding parse_parts
parts-Reads text none v e h = absurd (ground arith)
parts-Reads text (some (a, b)) v e h = record {
  major_digits = a;
  minor_digits = b;
  text_is = split_dot-append [] (codes text) a b e;
  major_decimal = ground arith;
  minor_decimal = ground arith;
  major_is = ground arith;
  minor_is = ground arith;
  major_fits = ground arith;
  minor_fits = ground arith;
}

pub parse_protocol_version-Reads :
    (text : String) (v : ProtocolVersion) → parse_protocol_version text ≡ ok v → Reads text v
unfolding parse_protocol_version
parse_protocol_version-Reads text v h = parts-Reads text (split_dot [] (codes text)) v refl h
