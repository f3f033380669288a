-- ===== src/Gateway/Batch.antt =====
-- `joinMessageBatch` of gateway-contract/src/state-machines.ts, and `TextEncoder`, which writes UTF-8.
use agent_life.Shared.{
  ℕ, ◌+◌, ◌/◌, ◌%◌, ◌≡◌, refl, String, ◌||◌, ◌==◌, List, [], ◌∷◌, ◌++◌, length, map, Result, ok,
  err, schema_invalid, not, ltb, if◌then◌else◌,
}
use agent_life.Shared.Text.{codes}
use agent_life.Shared.Sets.{of_list}

pub record MessageMember : Type 0 where
  pub client_message_id : String
  pub text : String

utf8 : ℕ → List ℕ
utf8 c =
    if ltb c 0x80
    then c ∷ []
    else if ltb c 0x800
    then (0xc0 + c / 0x40) ∷ (0x80 + c % 0x40) ∷ []
    else if ltb c 0x10000
    then (0xe0 + c / 0x1000) ∷ (0x80 + c / 0x40 % 0x40) ∷ (0x80 + c % 0x40) ∷ []
    else (0xf0 + c / 0x40000)
      ∷ (0x80 + c / 0x1000 % 0x40)
      ∷ (0x80 + c / 0x40 % 0x40)
      ∷ (0x80 + c % 0x40)
      ∷ []

encode_text : List ℕ → List ℕ
unfolding utf8
encode_text [] = []
encode_text (c ∷ cs) = utf8 c ++ encode_text cs

-- `join("\n")`.
join_lines : List (List ℕ) → List ℕ
join_lines [] = []
join_lines (text ∷ []) = text
join_lines (text ∷ other ∷ texts) = text ++ 0x0a ∷ join_lines (other ∷ texts)

unfoldable pub join_message_batch : List MessageMember → Result (List ℕ)
unfolding encode_text join_lines of_list codes
join_message_batch members =
    if length members == 0 || ltb 20 (length members)
    then err schema_invalid
    else if not (length (of_list (map MessageMember.client_message_id members)) == length members)
    then err schema_invalid
    else ok (encode_text (join_lines (map (λ m. codes m.text) members)))

batch_sample :
    join_message_batch (
      record { client_message_id = "1"; text = "é" }
      ∷ record { client_message_id = "2"; text = "a" }
      ∷ [])
    ≡ ok (0xc3 ∷ 0xa9 ∷ 0x0a ∷ 0x61 ∷ [])
unfolding join_message_batch of_list codes
batch_sample = refl

same_id :
    join_message_batch (
      record { client_message_id = "1"; text = "b" }
      ∷ record { client_message_id = "1"; text = "a" }
      ∷ [])
    ≡ err schema_invalid
unfolding join_message_batch of_list codes
same_id = refl
