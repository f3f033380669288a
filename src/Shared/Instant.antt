-- ===== src/Shared/Instant.antt =====
-- `validInstant`: a text is an instant if it is what `toISOString` prints for the time that
-- `Date.parse` reads from it. That is `YYYY-MM-DDTHH:mm:ss.sssZ`, with a year of a sign and six
-- digits outside 0 to 9999, at a real date within 8.64e15 ms of 1970. A time is a native number:
-- milliseconds since the earliest time that a `Date` holds, -271821-04-20.
use Prim.Native.Nat.{ℕ, ◌+◌, ◌-◌, ◌*◌, ◌/◌, ◌%◌}
use Prim.Native.String.{String}
use mathlib.Core.Path.{◌≡◌, refl}
use mathlib.Core.Bool.{Bool, true, false, not, ◌&&◌, ◌||◌}
use mathlib.Core.Option.{Option, none, some}
use mathlib.Core.List.{List, [], ◌∷◌}
use agent_life.Shared.Tests.{leb, ltb, ◌==◌, if◌then◌else◌, is_none}
use agent_life.Shared.Lists.{length}
use agent_life.Shared.Text.{codes}

is_digit : ℕ → Bool
is_digit c = leb b'0' c && leb c b'9'

-- Reads n digits; what stands after them comes with the number.
read_digits : ℕ → ℕ → List ℕ → Option (ℕ × List ℕ)
unfolding is_digit
read_digits ℕ.zero acc cs = some (acc, cs)
read_digits (ℕ.suc n) acc [] = none
read_digits (ℕ.suc n) acc (c ∷ cs) = elim (is_digit c) [
  | true ↦ read_digits n (acc * 10 + (c - b'0')) cs
  | false ↦ none
]

infixl 5 ◌>>=◌
abbrev ◌>>=◌ {ℓ κ} : {A : Type ℓ} {B : Type κ} → Option A → (A → Option B) → Option B
none >>= k = none
some a >>= k = k a

expect : ℕ → List ℕ → Option (List ℕ)
expect m [] = none
expect m (c ∷ cs) = if c == m then some cs else none

when : Bool → Option (Unit {0})
when true = some tt
when false = none

-- A year counted from -272000, so that none is negative.
abbrev year_origin : ℕ
year_origin = 272000

far_year : (ℕ → Bool) → (ℕ → ℕ) → List ℕ → Option (ℕ × List ℕ)
unfolding read_digits when
far_year fits shift cs = do (y, rest) ← read_digits 6 0 cs; _ ← when (fits y); some (shift y, rest)

near_year : List ℕ → Option (ℕ × List ℕ)
unfolding read_digits
near_year cs = do (y, rest) ← read_digits 4 0 cs; some (year_origin + y, rest)

year : List ℕ → Option (ℕ × List ℕ)
unfolding far_year near_year
year [] = none
year (c ∷ cs) =
    if c == b'+'
    then far_year (λ y. leb 10000 y) (λ y. year_origin + y) cs
    else if c == b'-'
    then far_year (λ y. leb 1 y && ltb y year_origin) (λ y. year_origin - y) cs
    else near_year (c ∷ cs)

is_end : List ℕ → Bool
is_end [] = true
is_end (_ ∷ _) = false

is_leap : ℕ → Bool
is_leap y = y % 4 == 0 && (not (y % 100 == 0) || y % 400 == 0)

days_in_month : ℕ → ℕ → ℕ
unfolding is_leap
days_in_month y m =
    if m == 2
    then (if is_leap y then 29 else 28)
    else if m == 4 || m == 6 || m == 9 || m == 11
    then 30
    else 31

-- Days from 1 March of year -272000, a year that starts in March having 153 days in each five
-- months. The shift of a January or February into the year before stays above 0.
day_number : ℕ → ℕ → ℕ → ℕ
day_number y m d =
    let early = leb m 2 in
    let y' = if early then y - 1 else y in
    let m' = if early then m + 9 else m - 3 in
    y' * 365 + y' / 4 - y' / 100 + y' / 400 + (m' * 153 + 2) / 5 + (d - 1)

-- -271821-04-20 has this day number, and +275760-09-13 the one 200,000,000 days later.
first_day : ℕ
unfolding day_number
first_day = day_number 179 4 20

unfoldable pub instant_ms : String → Option ℕ
unfolding codes read_digits expect when year days_in_month day_number first_day is_end
instant_ms s = do
  (y, cs) ← year (codes s)
  cs ← expect b'-' cs
  (m, cs) ← read_digits 2 0 cs
  cs ← expect b'-' cs
  (d, cs) ← read_digits 2 0 cs
  cs ← expect b'T' cs
  (h, cs) ← read_digits 2 0 cs
  cs ← expect b':' cs
  (mi, cs) ← read_digits 2 0 cs
  cs ← expect b':' cs
  (sec, cs) ← read_digits 2 0 cs
  cs ← expect b'.' cs
  (ms, cs) ← read_digits 3 0 cs
  cs ← expect b'Z' cs
  _ ← when (is_end cs)
  _ ← when (leb 1 m && leb m 12 && leb 1 d && leb d (days_in_month y m))
  _ ← when (ltb h 24 && ltb mi 60 && ltb sec 60)
  let n = day_number y m d
  let t = ((h * 60 + mi) * 60 + sec) * 1000 + ms
  _ ← when (leb first_day n && leb ((n - first_day) * 86400000 + t) 17280000000000000)
  some ((n - first_day) * 86400000 + t)

unfoldable pub valid_instant : String → Bool
unfolding instant_ms
valid_instant s = not (is_none (instant_ms s))

epoch : instant_ms "1970-01-01T00:00:00.000Z" ≡ some 8640000000000000
unfolding instant_ms
epoch = refl

leap_day : instant_ms "2024-02-29T12:00:00.001Z" ≡ some 8641709208000001
unfolding instant_ms
leap_day = refl

limits :
    (instant_ms "+275760-09-13T00:00:00.000Z" ≡ some 17280000000000000)
    × (instant_ms "-271821-04-20T00:00:00.000Z" ≡ some 0)
    × (instant_ms "+275760-09-13T00:00:00.001Z" ≡ none)
    × (instant_ms "2023-02-29T00:00:00.000Z" ≡ none)
    × (instant_ms "2023-02-28T24:00:00.000Z" ≡ none)
unfolding instant_ms
limits = (refl, refl, refl, refl, refl)

-- A timestamp of the replay ledger has a year of four digits.
unfoldable pub timestamp_ms : String → Option ℕ
timestamp_ms s = if length (codes s) == 24 then instant_ms s else none
