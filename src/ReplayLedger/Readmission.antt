-- ===== src/ReplayLedger/Readmission.antt =====
-- No sequence number is put into a space twice.
use agent_life.Shared.{
  sym, ap, subst, ◌∙◌, inl, inr, ℕ, String, true, ◌≡◌, ◌≢◌, refl, Option, none, some, List, [], ◌∷◌,
  eq_iff, arith,
}
use agent_life.Shared.Dict.{get}
use agent_life.Replay.{empty_window}
use agent_life.Replay.Refinement.{has, Tracks}
use agent_life.Replay.Streams.{empty-Tracks}
use agent_life.Shared.Int.{ℤ}
use agent_life.ReplayLedger.{
  ReplaySpace, replay_space_key, ReplayClaim, ReplayLedger, empty_ledger, window_of,
}
use agent_life.ReplayLedger.Preview.{Outside}
use agent_life.ReplayLedger.Settle.{finalize, abandon, row_of}
use agent_life.ReplayLedger.Calls.{
  Call, step, run, admit_call, restore_call, finalize_call, abandon_call, compact_call,
}
use agent_life.ReplayLedger.Windows.{
  noted, Follows, unchanged-Follows, compact-windows, store_row-Follows, finalize_row-windows,
  abandon_found-windows,
}
use agent_life.ReplayLedger.Admission.{Roomy, Outcome, admit-Outcome, restore_pending-Outcome}

Roomy-windows :
    (space : ReplaySpace) (l l' : ReplayLedger) → Roomy space l l' → l'.windows ≡ l.windows
unfolding Roomy
Roomy-windows space l l' (inl same) = ap ReplayLedger.windows same
Roomy-windows space l l' (inr (now, can_remove, e)) =
    ap ReplayLedger.windows e ∙ compact-windows l space now can_remove

Outcome-Follows :
    (key : String) (seen : List ℕ) (l l' : ReplayLedger) (space : ReplaySpace) (retained : ℤ)
    (o : Option ReplayClaim)
    → Outcome l space retained l' o
    → Tracks seen (window_of key l)
    → Follows key seen o l'
unfolding Outcome
Outcome-Follows key seen l l' space retained none roomy t =
    unchanged-Follows key seen l l' (Roomy-windows space l l' roomy) t
Outcome-Follows key seen l l' space retained (some claim) s t =
    subst (Follows key seen (some claim)) (sym s.result) (
      store_row-Follows key (replay_space_key space) seen l s.room s.window claim retained
        (ap replay_space_key s.home) s.number (Roomy-windows space l s.room s.roomy) t)

module _ (env : Outside) (key : String) (seen : List ℕ) where
  step-Follows :
      (l : ReplayLedger) (call : Call)
      → Tracks seen (window_of key l)
      → (let r = step env l call in Follows key seen (r.1) (r.0))
  unfolding step
  step-Follows l (admit_call space e admitted_at claim_id retained c) t =
      Outcome-Follows key seen l _ space retained _
        (admit-Outcome env l space e admitted_at claim_id retained c) t
  step-Follows l (restore_call c retained) t =
      Outcome-Follows key seen l _ c.space retained _ (restore_pending-Outcome env l c retained) t
  step-Follows l (finalize_call claim receipt) t =
      unchanged-Follows key seen l _
        (unfold finalize in (finalize_row-windows receipt l (row_of l claim))) t
  step-Follows l (abandon_call claim) t =
      unchanged-Follows key seen l _ (unfold abandon in (abandon_found-windows l (row_of l claim)))
        t
  step-Follows l (compact_call space now can_remove) t =
      unchanged-Follows key seen l _ (compact-windows l space now can_remove) t

module _ (env : Outside) where
  abbrev reached : ReplayLedger → Call → ReplayLedger × Option ReplayClaim
  reached l call = step env l call

  -- The numbers that a run puts into a space, newest first.
  history : String → List ℕ → ReplayLedger → List Call → List ℕ
  history key seen l [] = seen
  history key seen l (call ∷ calls) =
      history key (noted key seen ((reached l call).1)) ((reached l call).0) calls

  run-Tracks :
      (key : String) (seen : List ℕ) (l : ReplayLedger) (calls : List Call)
      → Tracks seen (window_of key l)
      → Tracks (history key seen l calls) (window_of key (run env l calls))
  unfolding run history
  run-Tracks key seen l [] t = t
  run-Tracks key seen l (call ∷ calls) t =
      run-Tracks key (noted key seen ((reached l call).1)) ((reached l call).0) calls
        ((step-Follows env key seen l call t).tracks)

  noted-has :
      (key : String) (seen : List ℕ) (o : Option ReplayClaim) (n : ℕ)
      → has n seen ≡ true
      → has n (noted key seen o) ≡ true
  unfolding noted
  noted-has key seen none n h = h
  noted-has key seen (some claim) n h = ground arith

  history-has :
      (key : String) (seen : List ℕ) (l : ReplayLedger) (calls : List Call) (n : ℕ)
      → has n seen ≡ true
      → has n (history key seen l calls) ≡ true
  unfolding history
  history-has key seen l [] n h = h
  history-has key seen l (call ∷ calls) n h =
      history-has key (noted key seen ((reached l call).1)) ((reached l call).0) calls n
        (noted-has key seen ((reached l call).1) n h)

  noted-new :
      (key : String) (seen : List ℕ) (o : Option ReplayClaim) (claim : ReplayClaim)
      → o ≡ some claim
      → replay_space_key claim.space ≡ key
      → has claim.sequence (noted key seen o) ≡ true
  unfolding noted
  noted-new key seen none claim h at = absurd (ground arith)
  noted-new key seen (some other) claim h at =
      ground (arith, eq_iff (replay_space_key claim.space) key)

  empty_window_of : (key : String) → window_of key empty_ledger ≡ empty_window
  unfolding window_of get
  empty_window_of key = refl

  -- No sequence number is put into a replay space twice: of two calls of any run from the empty
  -- ledger that admit or restore a claim of the same space, the claims' numbers differ, whatever
  -- calls come before and between them, compactions included.
  pub no_readmission :
      (before between : List Call) (one two : Call) {first second : ReplayClaim}
      → (step env (run env empty_ledger before) one).1 ≡ some first
      → (step env (run env ((step env (run env empty_ledger before) one).0) between) two).1
        ≡ some second
      → replay_space_key first.space ≡ replay_space_key second.space
      → second.sequence ≢ first.sequence
  no_readmission before between one two {first} {second} a b same n =
      let key = replay_space_key second.space in
      let l = run env empty_ledger before in
      let seen = history key [] empty_ledger before in
      let t : Tracks seen (window_of key l) =
        run-Tracks key [] empty_ledger before (rw (empty_window_of key) empty-Tracks) in
      let follows = step-Follows env key seen l one t in
      let seen' = noted key seen ((reached l one).1) in
      let l' = run env ((reached l one).0) between in
      let later = run-Tracks key seen' ((reached l one).0) between follows.tracks in
      let fresh =
        (step-Follows env key (history key seen' ((reached l one).0) between) l' two later).fresh
          second b refl in
      let known =
        history-has key seen' ((reached l one).0) between first.sequence
          (noted-new key seen ((reached l one).1) first a same) in
      ground arith
