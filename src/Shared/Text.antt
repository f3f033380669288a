-- ===== src/Shared/Text.antt =====
-- The patterns by which protocol/src tests identifiers and digests, over code points:
-- `/^[^\u0000-\u001f\u007f]{1,512}$/u` (NON_EMPTY and ID) and `/^[A-Za-z0-9_-]{43}$/` (DIGEST).
use Prim.Native.Char.{code}
use Prim.Native.Nat.{ℕ, zero, suc, ◌+◌, ◌-◌, ◌*◌, ◌/◌, ◌%◌}
use Prim.Native.String.{String}
use mathlib.Core.Bool.{Bool, true, false, not, ◌&&◌, ◌||◌}
use mathlib.Core.List.{List, [], ◌∷◌}
use agent_life.Shared.Tests.{leb, ltb, ◌==◌, if◌then◌else◌}
use agent_life.Shared.Lists.{length, all}

unfoldable pub codes : String → List ℕ
codes String.[] = []
codes (String.◌∷◌ c s) = code c ∷ codes s

unfoldable pub is_printable : ℕ → Bool
is_printable c = leb 0x20 c && not (c == 0x7f)

unfoldable pub same_codes : List ℕ → List ℕ → Bool
same_codes [] [] = true
same_codes [] (_ ∷ _) = false
same_codes (_ ∷ _) [] = false
same_codes (c ∷ cs) (d ∷ ds) = c == d && same_codes cs ds

unfoldable pub non_empty : String → Bool
unfolding codes is_printable
non_empty s = let cs = codes s in leb 1 (length cs) && leb (length cs) 512 && all is_printable cs

is_base64url : ℕ → Bool
is_base64url c =
    (leb b'A' c && leb c b'Z')
    || (leb b'a' c && leb c b'z')
    || (leb b'0' c && leb c b'9')
    || c == b'_'
    || c == b'-'

unfoldable pub digest : String → Bool
unfolding codes is_base64url
digest s = let cs = codes s in length cs == 43 && all is_base64url cs

-- `length` of a JavaScript string, in UTF-16 code units.
unfoldable pub utf16_length : List ℕ → ℕ
utf16_length [] = 0
utf16_length (c ∷ cs) = (if leb c 0xffff then 1 else 2) + utf16_length cs

-- The test `text` of authorization-revision.ts and its siblings.
unfoldable pub printable_text : String → Bool
unfolding codes is_printable utf16_length
printable_text s =
    let cs = codes s in leb 1 (utf16_length cs) && leb (utf16_length cs) 512 && all is_printable cs

unfoldable pub is_digit : ℕ → Bool
is_digit c = leb b'0' c && leb c b'9'

unfoldable pub is_decimal : List ℕ → Bool
unfolding is_digit
is_decimal [] = false
is_decimal (c ∷ cs) = (c == b'0' && length cs == 0) || (leb b'1' c && leb c b'9' && all is_digit cs)

-- `/^(0|[1-9][0-9]*)$/`.
unfoldable pub decimal_text : String → Bool
unfolding codes is_decimal
decimal_text s = is_decimal (codes s)

-- `BigInt` of decimal digits.
unfoldable pub decimal_value : ℕ → List ℕ → ℕ
decimal_value acc [] = acc
decimal_value acc (c ∷ cs) = decimal_value (acc * 10 + (c - b'0')) cs

unfoldable pub append : String → String → String
append String.[] t = t
append (String.◌∷◌ c s) t = String.◌∷◌ c (append s t)

unfoldable pub digit : ℕ → String
digit n =
    if n == 0
    then "0"
    else if n == 1
    then "1"
    else if n == 2
    then "2"
    else if n == 3
    then "3"
    else if n == 4
    then "4"
    else if n == 5
    then "5"
    else if n == 6
    then "6"
    else if n == 7
    then "7"
    else if n == 8
    then "8"
    else "9"

-- The digits before `after`; `fuel` above the number is enough.
unfoldable pub digits : ℕ → ℕ → String → String
unfolding digit append
digits zero n after = after
digits (suc fuel) n after =
    let more = digits fuel (n / 10) (append (digit (n % 10)) after) in
    if ltb n 10 then append (digit n) after else more

-- `toString` of a `bigint` that is not negative.
unfoldable pub decimal : ℕ → String
unfolding digits
decimal n = digits (suc n) n ""
