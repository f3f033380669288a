-- ===== src/Replay/Tests.antt =====
-- The window's theorems on sample streams.
use agent_life.Shared.{◌+◌, ◌≡◌, refl, sym, ◌∙◌, some, true, false, List, [], ◌∷◌}
use agent_life.Shared.Int.{ℤ, pos, negsuc, u64_max}
use agent_life.Replay.{empty_window, accept_sequence, window_mask, ReplayWindowState, accept}
use agent_life.Replay.Bits.{shl}
use agent_life.Replay.Streams.{verdicts, promised_verdicts, drive, verdicts-eq-promised_verdicts}

abbrev stream : List ℤ
stream =
    pos 5
    ∷ pos 3
    ∷ pos 5
    ∷ pos 2000
    ∷ pos 976
    ∷ pos 977
    ∷ pos 977
    ∷ negsuc 0
    ∷ pos 18446744073709551616
    ∷ []

stream-verdicts :
    verdicts empty_window stream
    ≡ true ∷ true ∷ false ∷ true ∷ false ∷ true ∷ false ∷ false ∷ false ∷ []
unfolding verdicts accept_sequence window_mask u64_max
stream-verdicts = refl

verdicts-eq-promised_verdicts_example :
    promised_verdicts [] stream
    ≡ true ∷ true ∷ false ∷ true ∷ false ∷ true ∷ false ∷ false ∷ false ∷ []
verdicts-eq-promised_verdicts_example = sym (verdicts-eq-promised_verdicts stream) ∙ stream-verdicts

accepted_after : ReplayWindowState
accepted_after = record { highest_seen = some 2000; seen_bitmap = shl 1 1023 + 1 }

second_accepted :
    accept_sequence (drive empty_window (pos 2000 ∷ [])) (pos 977) ≡ accept accepted_after
unfolding drive accept_sequence window_mask u64_max accepted_after
second_accepted = refl
