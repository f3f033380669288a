-- ===== src/Replay/Streams.antt =====
-- Streams of sequence numbers through the window, against the history of all accepted numbers.
use agent_life.Shared.{
  ℕ, ◌≡◌, refl, sym, subst, Bool, true, false, List, [], ◌∷◌, arith, if◌then◌else◌,
}
use agent_life.Shared.Int.{ℤ, pos, negsuc}
use agent_life.Replay.{
  ReplayWindowState, ReplayDecision, accept, reject, empty_window, accept_sequence,
}
use agent_life.Replay.Refinement.{has, admits, Tracks, Answers, accept_sequence-Answers}

-- A stream of numbers through the window: the state that is left, and the numbers that were
-- accepted, newest first.
abbrev state_after : ReplayWindowState → ReplayDecision → ReplayWindowState
state_after s (accept s') = s'
state_after s reject = s

abbrev is_accepted : ReplayDecision → Bool
is_accepted (accept _) = true
is_accepted reject = false

unfoldable pub verdicts : ReplayWindowState → List ℤ → List Bool
verdicts s [] = []
verdicts s (q ∷ qs) =
    is_accepted (accept_sequence s q) ∷ verdicts (state_after s (accept_sequence s q)) qs

abbrev promise : List ℕ → ℤ → Bool
promise seen (pos q) = admits seen q
promise seen (negsuc _) = false

abbrev remember : List ℕ → ℤ → List ℕ
remember seen (pos q) = if admits seen q then q ∷ seen else seen
remember seen (negsuc _) = seen

pub promised_verdicts : List ℕ → List ℤ → List Bool
promised_verdicts seen [] = []
promised_verdicts seen (q ∷ qs) = promise seen q ∷ promised_verdicts (remember seen q) qs

step-Tracks :
    (seen : List ℕ) (s : ReplayWindowState) (q : ℤ)
    → Tracks seen s
    → (is_accepted (accept_sequence s q) ≡ promise seen q)
      × Tracks (remember seen q) (state_after s (accept_sequence s q))
step-Tracks seen s (negsuc n) t = unfold accept_sequence in (refl, t)
step-Tracks seen s (pos q) t = go (accept_sequence s (pos q)) (accept_sequence-Answers seen s t q)
  where
    go :
        (d : ReplayDecision)
        → Answers seen q d
        → (is_accepted d ≡ admits seen q) × Tracks (remember seen (pos q)) (state_after s d)
    go (accept s') h = (sym (h.0), rw (h.0) (h.1))
    go reject h = (sym h, rw h t)

verdicts-Tracks :
    (seen : List ℕ) (s : ReplayWindowState) (qs : List ℤ)
    → Tracks seen s
    → verdicts s qs ≡ promised_verdicts seen qs
unfolding verdicts promised_verdicts
verdicts-Tracks seen s [] t = refl
verdicts-Tracks seen s (q ∷ qs) t =
    let (same, next) = step-Tracks seen s q t in
    rw (same, verdicts-Tracks (remember seen q) (state_after s (accept_sequence s q)) qs next)

pub empty-Tracks : Tracks [] empty_window
empty-Tracks = record { tops = refl; bits = λ n i e h. absurd (ground arith) }

-- On every stream of numbers the 1024-bit window answers as the whole history would: a number is
-- accepted exactly if it is not negative, fits 64 bits, was not accepted before, and is less than
-- 1024 below the highest number accepted so far.
pub verdicts-eq-promised_verdicts :
    (qs : List ℤ) → verdicts empty_window qs ≡ promised_verdicts [] qs
verdicts-eq-promised_verdicts qs = verdicts-Tracks [] empty_window qs empty-Tracks

unfoldable pub drive : ReplayWindowState → List ℤ → ReplayWindowState
drive s [] = s
drive s (q ∷ qs) = drive (state_after s (accept_sequence s q)) qs

history : List ℕ → List ℤ → List ℕ
history seen [] = seen
history seen (q ∷ qs) = history (remember seen q) qs

drive-Tracks :
    (seen : List ℕ) (s : ReplayWindowState) (qs : List ℤ)
    → Tracks seen s
    → Tracks (history seen qs) (drive s qs)
unfolding drive history
drive-Tracks seen s [] t = t
drive-Tracks seen s (q ∷ qs) t =
    drive-Tracks (remember seen q) (state_after s (accept_sequence s q)) qs
      (step-Tracks seen s q t).1

remember-has : (seen : List ℕ) (q : ℤ) (n : ℕ) → has n seen ≡ true → has n (remember seen q) ≡ true
remember-has seen (negsuc _) n h = h
remember-has seen (pos q) n h = ground arith

history-has :
    (seen : List ℕ) (qs : List ℤ) (n : ℕ) → has n seen ≡ true → has n (history seen qs) ≡ true
unfolding history
history-has seen [] n h = h
history-has seen (q ∷ qs) n h = history-has (remember seen q) qs n (remember-has seen q n h)

pub seen-reject :
    (seen : List ℕ) (s : ReplayWindowState) (q : ℕ)
    → Tracks seen s
    → has q seen ≡ true
    → accept_sequence s (pos q) ≡ reject
seen-reject seen s q t h = go (accept_sequence s (pos q)) (accept_sequence-Answers seen s t q)
  where
    go : (d : ReplayDecision) → Answers seen q d → d ≡ reject
    go (accept s') a = unfold admits in absurd (ground arith)
    go reject a = refl

-- A number that was accepted once, after any stream, is refused after any further stream.
no_replay :
    (before after : List ℤ) (q : ℤ) {s' : ReplayWindowState}
    → accept_sequence (drive empty_window before) q ≡ accept s'
    → accept_sequence (drive s' after) q ≡ reject
no_replay before after (negsuc n) e = absurd (unfold accept_sequence in (ground arith))
no_replay before after (pos q) {s'} e =
    let t = drive-Tracks [] empty_window before empty-Tracks in
    let answer : Answers (history [] before) q (accept s') =
      subst (Answers (history [] before) q) e
        (accept_sequence-Answers (history [] before) (drive empty_window before) t q) in
    let t' = answer.1 in
    seen-reject (history (q ∷ history [] before) after) (drive s' after) q
      (drive-Tracks (q ∷ history [] before) s' after t')
      (history-has (q ∷ history [] before) after q (ground arith))
