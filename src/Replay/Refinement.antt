-- ===== src/Replay/Refinement.antt =====
-- The window against the whole history of accepted numbers.
use Prim.Native.Nat.{bit_and, bit_or, max}
use agent_life.Shared.{
  ℕ, ◌+◌, ◌-◌, ◌≤◌, ◌<◌, ◌≡◌, refl, inl, inr, Bool, true, false, not, ◌&&◌, ◌||◌, Option, none,
  some, List, [], ◌∷◌, arith, leb, ltb, ◌==◌, if◌then◌else◌, Bool-cases, sym,
}
use agent_life.Shared.Int.{pos, u64_max}
use agent_life.Replay.{
  window_size, window_mask, ReplayWindowState, ReplayDecision, accept, reject, accept_sequence,
  within, slide, place,
}
use agent_life.Replay.Bits.{bit, bit_le_one, shl, bit-bit_or, bit-shl_high, bit-shl_low}
use agent_life.Replay.Window.{bit-masked, bit-zero, bit-one, bit-shl_one, test-bit}

-- A number was accepted before.
abbrev pub has : ℕ → List ℕ → Bool
has n [] = false
has n (x ∷ xs) = x == n || has n xs

abbrev top : ℕ → Option ℕ → ℕ
top x none = x
top x (some y) = max x y

abbrev pub highest : List ℕ → Option ℕ
highest [] = none
highest (x ∷ xs) = some (top x (highest xs))

abbrev pub recent : Option ℕ → ℕ → Bool
recent none n = true
recent (some high) n = ltb high (n + window_size)

-- The promise: a 64-bit number is accepted if it was not accepted before and is less than 1024
-- below the highest accepted number.
unfoldable pub admits : List ℕ → ℕ → Bool
admits seen n = leb n u64_max && not (has n seen) && recent (highest seen) n

abbrev pub digit : Bool → ℕ
digit b = if b then 1 else 0

pub record Tracks (seen : List ℕ) (s : ReplayWindowState) : Type 0 where
  pub tops : s.highest_seen ≡ highest seen
  pub bits :
      (n i : ℕ)
      → highest seen ≡ some (n + i)
      → i < window_size
      → bit s.seen_bitmap i ≡ digit (has n seen)

has-le : (seen : List ℕ) (n high : ℕ) → highest seen ≡ some high → has n seen ≡ true → n ≤ high
has-le [] n high e h = absurd (ground arith)
has-le (x ∷ []) n high e h = ground arith
has-le (x ∷ y ∷ seen) n high e h = ground (arith, has-le (y ∷ seen) n (top y (highest seen)) refl)

highest-none : (seen : List ℕ) (n : ℕ) → highest seen ≡ none → has n seen ≡ false
highest-none [] n e = refl
highest-none (x ∷ seen) n e = absurd (ground arith)

slide_map : ℕ → ℕ → ℕ
slide_map bitmap delta =
    bit_or (if leb window_size delta then 0 else bit_and (shl bitmap delta) window_mask) 1

-- After a slide by delta, digit i is the old digit i - delta.
bit-slide :
    (bitmap delta i : ℕ)
    → i < window_size
    → bit (slide_map bitmap delta) i ≡ (
        if i == 0
        then 1
        else if leb window_size delta || ltb i delta
        then 0
        else bit bitmap (i - delta))
unfolding slide_map
bit-slide bitmap delta i h = elim (Bool-cases (leb window_size delta)) [
  | inl far ↦ rw far (ground (arith, bit-bit_or i 0 1, bit-zero i, bit-one i))
  | inr near ↦ rw near (
      ground (
        arith,
        bit-bit_or i (bit_and (shl bitmap delta) window_mask) 1,
        bit-masked (shl bitmap delta) i h,
        bit-shl_high delta bitmap i,
        bit-shl_low delta bitmap i,
        bit-one i,
        bit_le_one bitmap (i - delta),
      ))
]

-- A number marked in the window has its digit set, and the others stay.
bit-marked :
    (bitmap k i : ℕ)
    → i < window_size
    → bit (bit_and (bit_or bitmap (shl 1 k)) window_mask) i ≡ (if k == i then 1 else bit bitmap i)
bit-marked bitmap k i h = ground (
  arith,
  bit-masked (bit_or bitmap (shl 1 k)) i h,
  bit-bit_or i bitmap (shl 1 k),
  bit-shl_one k i,
  bit_le_one bitmap i,
)

-- An answer that fits the promise, and keeps the window in step with the history.
abbrev pub Answers : List ℕ → ℕ → ReplayDecision → Type 0
Answers seen q (accept s') = (admits seen q ≡ true) × Tracks (q ∷ seen) s'
Answers seen q reject = admits seen q ≡ false

module _ (seen : List ℕ) (s : ReplayWindowState) (t : Tracks seen s) where
  first-Tracks :
      (q : ℕ)
      → highest seen ≡ none
      → Tracks (q ∷ seen) (record { highest_seen = some q; seen_bitmap = 1 })
  first-Tracks q e = record {
    tops = ground arith;
    bits = λ n i e' h. ground (arith, bit-one i, highest-none seen n e);
  }

  slide-Tracks :
      (q high : ℕ)
      → highest seen ≡ some high
      → high < q
      → Tracks
          (q ∷ seen)
          (record { highest_seen = some q; seen_bitmap = slide_map s.seen_bitmap (q - high) })
  slide-Tracks q high e above = record {
    tops = ground arith;
    bits = λ n i e' h. ground (
      arith,
      bit-slide s.seen_bitmap (q - high) i h,
      has-le seen n high e,
      t.bits n (i - (q - high)),
    );
  }

  within-Tracks :
      (q high : ℕ)
      → highest seen ≡ some high
      → q ≤ high
      → Tracks (q ∷ seen) (record {
        highest_seen = some high;
        seen_bitmap = bit_and (bit_or s.seen_bitmap (shl 1 (high - q))) window_mask;
      })
  within-Tracks q high e below = record {
    tops = ground arith;
    bits = λ n i e' h. ground (arith, bit-marked s.seen_bitmap (high - q) i h, t.bits n i);
  }

  within-Answers :
      (q high : ℕ)
      → q ≤ u64_max
      → highest seen ≡ some high
      → q ≤ high
      → Answers seen q (within high s.seen_bitmap q)
  unfolding admits within
  within-Answers q high small e below = elim (Bool-cases (leb window_size (high - q))) [
    | inl far ↦ rw (far, within) (ground arith)
    | inr near ↦ elim (Bool-cases (bit s.seen_bitmap (high - q) == 1)) [
      | inl seen_before ↦
          rw (near, test-bit s.seen_bitmap (high - q), seen_before, within)
            (ground (arith, t.bits q (high - q)))
      | inr unseen ↦
          rw (near, test-bit s.seen_bitmap (high - q), unseen, within)
            (ground (arith, t.bits q (high - q)), within-Tracks q high e below)
    ]
  ]

  slide-Answers :
      (q high : ℕ)
      → q ≤ u64_max
      → highest seen ≡ some high
      → high < q
      → Answers seen q (slide high s.seen_bitmap q)
  unfolding admits slide slide_map
  slide-Answers q high small e above =
      (ground (arith, has-le seen q high e), slide-Tracks q high e above)

  place-Answers :
      (q : ℕ) (top_seen : Option ℕ)
      → q ≤ u64_max
      → highest seen ≡ top_seen
      → Answers seen q (place top_seen s.seen_bitmap q)
  unfolding admits place
  place-Answers q none small e = (ground (arith, highest-none seen q e), first-Tracks q e)
  place-Answers q (some high) small e = elim (Bool-cases (ltb high q)) [
    | inl above ↦ rw (above, place) (slide-Answers q high small e (ground arith))
    | inr below ↦ rw (below, place) (within-Answers q high small e (ground arith))
  ]

  pub accept_sequence-Answers : (q : ℕ) → Answers seen q (accept_sequence s (pos q))
  unfolding admits accept_sequence
  accept_sequence-Answers q = elim (Bool-cases (ltb u64_max q)) [
    | inl huge ↦ rw (huge, accept_sequence) (ground arith)
    | inr small ↦
        rw (small, accept_sequence) (place-Answers q s.highest_seen (ground arith) (sym t.tops))
  ]
