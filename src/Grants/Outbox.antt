-- ===== src/Grants/Outbox.antt =====
-- The acknowledgement of an accepted update stays in the outbox until it is marked sent.
use agent_life.Shared.{
  String, Bool, true, false, not, ◌&&◌, ◌||◌, ◌≡◌, ◌⊎◌, refl, sym, ◌∙◌, ap, subst, inl, inr, Option,
  none, some, List, [], ◌∷◌, str_eq, eq_iff, any, Bool-cases, is_none, arith,
}
use agent_life.Shared.Dict.{get, set, get-set, Entries, Entries-get, Entries-set}
use agent_life.Shared.Sets.{has, has-add}
use agent_life.Grants.{DataQueryGrantState, VerifiedGrantUpdate}
use agent_life.Grants.Update.{ReplayBoundGrantUpdate}
use agent_life.Grants.Store.{
  GrantAckOutboxEnvelope, GrantStore, empty_store, Digests, ack_or, new_ack, ack_for,
  load_ack_outbox, mark_ack_sent, unsent, recover_unsent_acks,
}
use agent_life.Grants.Outcomes.{
  Call, apply_call, sent_call, accepted, step, run, Accepted, Outcome, apply-Outcome,
}
use agent_life.Grants.Binding.{step-Accepted}

abbrev Keyed : GrantStore → Type 0
Keyed s = Entries (λ id e. e.outbox_id ≡ id) s.outbox

-- The call marks the id as sent.
abbrev pub marks : String → Call → Bool
marks id (apply_call _) = false
marks id (sent_call j) = str_eq j id

-- The outbox lists an acknowledgement of the id.
abbrev pub lists : String → List GrantAckOutboxEnvelope → Bool
lists id = any (λ e. str_eq e.outbox_id id)

module _ (digests : Digests) where
  ack_or-stored :
      (s : GrantStore) (fresh : GrantAckOutboxEnvelope) (o : Option GrantAckOutboxEnvelope)
      → Keyed s
      → get fresh.outbox_id s.outbox ≡ o
      → get ((ack_or digests fresh o).outbox_id) s.outbox ≡ o
        × ((o ≡ none) ⊎ (o ≡ some (ack_or digests fresh o)))
  unfolding ack_or
  ack_or-stored s fresh none k e = (e, inl refl)
  ack_or-stored s fresh (some existing) k e =
      let same : existing.outbox_id ≡ fresh.outbox_id =
        Entries-get (λ id e. e.outbox_id ≡ id) fresh.outbox_id s.outbox k e in
      (ap (λ i. get i s.outbox) same ∙ e, inr refl)

  ack_for-stored :
      (s : GrantStore) (u : VerifiedGrantUpdate) (state : DataQueryGrantState)
      → Keyed s
      → (let ack = ack_for digests s u state in
          (get ack.outbox_id s.outbox ≡ none) ⊎ (get ack.outbox_id s.outbox ≡ some ack))
  unfolding ack_for
  ack_for-stored s u state k = go (ack_or-stored s fresh (get fresh.outbox_id s.outbox) k refl)
    where
      fresh : GrantAckOutboxEnvelope
      fresh = new_ack digests u state

      go :
          (let o = get fresh.outbox_id s.outbox in
            (get ((ack_or digests fresh o).outbox_id) s.outbox ≡ o)
            × ((o ≡ none) ⊎ (o ≡ some (ack_or digests fresh o))))
          → (let ack = ack_or digests fresh (get fresh.outbox_id s.outbox) in
              (get ack.outbox_id s.outbox ≡ none) ⊎ (get ack.outbox_id s.outbox ≡ some ack))
      go (e, inl empty) = inl (e ∙ empty)
      go (e, inr full) = inr (e ∙ full)

  Accepted-Keyed :
      (s s' : GrantStore) (b : ReplayBoundGrantUpdate) (id : String)
      → Accepted digests s b id s'
      → Keyed s
      → Keyed s'
  Accepted-Keyed s s' b id a k = go a.outbox_is
    where
      go :
          (s'.outbox ≡ set id (ack_for digests s b.update a.state) s.outbox)
            ⊎ ((s'.outbox ≡ s.outbox) × (is_none (get id s.outbox) ≡ false))
          → Keyed s'
      go (inl e) = subst (Entries (λ i v. v.outbox_id ≡ i)) (sym e) (
          Entries-set (λ i v. v.outbox_id ≡ i) id (ack_for digests s b.update a.state) s.outbox k
            (sym a.id_is))
      go (inr (e, _)) = subst (Entries (λ i v. v.outbox_id ≡ i)) (sym e) k

  Accepted-kept :
      (s s' : GrantStore) (b : ReplayBoundGrantUpdate) (id other : String)
      {e : GrantAckOutboxEnvelope}
      → Accepted digests s b id s'
      → Keyed s
      → get other s.outbox ≡ some e
      → get other s'.outbox ≡ some e
  Accepted-kept s s' b id other {e} a k found = go a.outbox_is
    where
      ack : GrantAckOutboxEnvelope
      ack = ack_for digests s b.update a.state

      is_entry :
          get id s.outbox ≡ some e
          → (get ack.outbox_id s.outbox ≡ none) ⊎ (get ack.outbox_id s.outbox ≡ some ack)
          → some ack ≡ some e
      is_entry h (inl empty) = absurd (ground (arith, a.id_is))
      is_entry h (inr full) = sym full ∙ ap (λ i. get i s.outbox) (sym a.id_is) ∙ h

      go :
          (s'.outbox ≡ set id ack s.outbox)
            ⊎ ((s'.outbox ≡ s.outbox) × (is_none (get id s.outbox) ≡ false))
          → get other s'.outbox ≡ some e
      go (inr (same, _)) = ap (get other) same ∙ found
      go (inl e') =
          ap (get other) e' ∙ get-set id other ack s.outbox ∙ elim (Bool-cases (str_eq id other)) [
            | inl hit ↦ rw hit (
                is_entry (ap (λ i. get i s.outbox) ((eq_iff id other).0 hit) ∙ found)
                  (ack_for-stored s b.update a.state k))
            | inr miss ↦ rw miss found
          ]

  some_of :
      (o : Option GrantAckOutboxEnvelope)
      → is_none o ≡ false
      → (e : GrantAckOutboxEnvelope) × (o ≡ some e)
  some_of none h = absurd (ground arith)
  some_of (some e) h = (e, refl)

  Accepted-present :
      (s s' : GrantStore) (b : ReplayBoundGrantUpdate) (id : String)
      → Accepted digests s b id s'
      → (e : GrantAckOutboxEnvelope) × (get id s'.outbox ≡ some e)
  Accepted-present s s' b id a = go a.outbox_is
    where
      ack : GrantAckOutboxEnvelope
      ack = ack_for digests s b.update a.state

      go :
          (s'.outbox ≡ set id ack s.outbox)
            ⊎ ((s'.outbox ≡ s.outbox) × (is_none (get id s.outbox) ≡ false))
          → (e : GrantAckOutboxEnvelope) × (get id s'.outbox ≡ some e)
      go (inl e') =
          (ack, ap (get id) e' ∙ get-set id id ack s.outbox ∙ rw ((eq_iff id id).1 refl) refl)
      go (inr (same, present)) =
          let (e, found) = some_of (get id s.outbox) present in (e, ap (get id) same ∙ found)

  -- The entries are keyed by their ids, and the entry of the id is there.
  record Holds (id : String) (e : GrantAckOutboxEnvelope) (s : GrantStore) : Type 0 where
    keyed : Keyed s
    there : get id s.outbox ≡ some e

  sent-outbox :
      (s : GrantStore) (id : String) → ((step digests s (sent_call id)).0).outbox ≡ s.outbox
  unfolding step mark_ack_sent
  sent-outbox s id = ground arith

  Outcome-Keyed :
      (s s' : GrantStore) (b : ReplayBoundGrantUpdate) (o : Option String)
      → Outcome digests s b s' o
      → Keyed s
      → Keyed s'
  unfolding Outcome
  Outcome-Keyed s s' b none same k = subst (λ r. Keyed r) (sym same) k
  Outcome-Keyed s s' b (some id) a k = Accepted-Keyed s s' b id a k

  Outcome-kept :
      (s s' : GrantStore) (b : ReplayBoundGrantUpdate) (o : Option String) (id : String)
      {e : GrantAckOutboxEnvelope}
      → Outcome digests s b s' o
      → Keyed s
      → get id s.outbox ≡ some e
      → get id s'.outbox ≡ some e
  unfolding Outcome
  Outcome-kept s s' b none id same k found = ap (λ r. get id r.outbox) same ∙ found
  Outcome-kept s s' b (some other) id a k found = Accepted-kept s s' b other id a k found

  step-Keyed : (s : GrantStore) (call : Call) → Keyed s → Keyed ((step digests s call).0)
  step-Keyed s (apply_call b) k =
      unfold step in (Outcome-Keyed s _ b _ (apply-Outcome digests s b) k)
  step-Keyed s (sent_call id) k =
      subst (Entries (λ i v. v.outbox_id ≡ i)) (sym (sent-outbox s id)) k

  step-kept :
      (s : GrantStore) (call : Call) (id : String) {e : GrantAckOutboxEnvelope}
      → Keyed s
      → get id s.outbox ≡ some e
      → get id ((step digests s call).0).outbox ≡ some e
  step-kept s (apply_call b) id k found =
      unfold step in (Outcome-kept s _ b _ id (apply-Outcome digests s b) k found)
  step-kept s (sent_call other) id k found = ap (get id) (sent-outbox s other) ∙ found

  run-Keyed : (s : GrantStore) (calls : List Call) → Keyed s → Keyed (run digests s calls)
  unfolding run
  run-Keyed s [] k = k
  run-Keyed s (call ∷ calls) k = run-Keyed ((step digests s call).0) calls (step-Keyed s call k)

  run-kept :
      (s : GrantStore) (calls : List Call) (id : String) {e : GrantAckOutboxEnvelope}
      → Keyed s
      → get id s.outbox ≡ some e
      → get id (run digests s calls).outbox ≡ some e
  unfolding run
  run-kept s [] id k found = found
  run-kept s (call ∷ calls) id k found =
      run-kept ((step digests s call).0) calls id (step-Keyed s call k)
        (step-kept s call id k found)

  unsent-absent :
      (id : String) (sent : List String) (outbox : List (String × GrantAckOutboxEnvelope))
      → Entries (λ i v. v.outbox_id ≡ i) outbox
      → has id sent ≡ true
      → lists id (unsent outbox sent) ≡ false
  unfolding unsent
  unsent-absent id sent [] k h = refl
  unsent-absent id sent ((i, v) ∷ outbox) (e, k) h =
      ground (arith, e, eq_iff v.outbox_id id, eq_iff i id, unsent-absent id sent outbox k h)

  unsent-present :
      (id : String) (sent : List String) (outbox : List (String × GrantAckOutboxEnvelope))
      {v : GrantAckOutboxEnvelope}
      → Entries (λ i v. v.outbox_id ≡ i) outbox
      → get id outbox ≡ some v
      → has id sent ≡ false
      → lists id (unsent outbox sent) ≡ true
  unfolding unsent get
  unsent-present id sent [] k found h = absurd (ground arith)
  unsent-present id sent ((i, w) ∷ outbox) {v} (e, k) found h = elim (Bool-cases (str_eq i id)) [
    | inl hit ↦
        let at : i ≡ id = (eq_iff i id).0 hit in
        let new : has i sent ≡ false = ap (λ x. has x sent) at ∙ h in
        rw (new, unsent) (ground (arith, (eq_iff w.outbox_id id).1 (e ∙ at)))
    | inr miss ↦ ground (arith, unsent-present id sent outbox {v = v} k (ground arith) h)
  ]

  -- What is marked as sent is in the outbox.
  Stored : GrantStore → Type 0
  Stored s = (id : String) → has id s.sent ≡ true → is_none (get id s.outbox) ≡ false

  Outcome-sent :
      (s s' : GrantStore) (b : ReplayBoundGrantUpdate) (o : Option String)
      → Outcome digests s b s' o
      → s'.sent ≡ s.sent
  unfolding Outcome
  Outcome-sent s s' b none same = ap GrantStore.sent same
  Outcome-sent s s' b (some id) a = a.sent_kept

  step-sent :
      (s : GrantStore) (b : ReplayBoundGrantUpdate)
      → ((step digests s (apply_call b)).0).sent ≡ s.sent
  unfolding step
  step-sent s b = Outcome-sent s _ b _ (apply-Outcome digests s b)

  sent_same :
      (s : GrantStore) (id : String)
      → has id ((step digests s (sent_call id)).0).sent
        ≡ (has id s.sent || not (is_none (get id s.outbox)))
  unfolding step mark_ack_sent
  sent_same s id = ground (arith, has-add id id s.sent, (eq_iff id id).1 refl)

  sent_other :
      (s : GrantStore) (j id : String)
      → str_eq j id ≡ false
      → has id ((step digests s (sent_call j)).0).sent ≡ has id s.sent
  unfolding step mark_ack_sent
  sent_other s j id h = ground (arith, has-add j id s.sent)

  sent-step :
      (s : GrantStore) (j id : String)
      → has id ((step digests s (sent_call j)).0).sent
        ≡ (has id s.sent || (str_eq j id && not (is_none (get id s.outbox))))
  sent-step s j id = elim (Bool-cases (str_eq j id)) [
    | inl hit ↦
        subst
          (λ k.
            has id ((step digests s (sent_call k)).0).sent
            ≡ (has id s.sent || (str_eq j id && not (is_none (get id s.outbox)))))
          (sym ((eq_iff j id).0 hit)) (rw hit (sent_same s id))
    | inr miss ↦ sent_other s j id miss ∙ rw miss (or_false (has id s.sent))
  ]
    where
      or_false : (b : Bool) → b ≡ (b || false)
      or_false b = ground arith

  none_or :
      (o : Option GrantAckOutboxEnvelope)
      → (o ≡ none) ⊎ ((e : GrantAckOutboxEnvelope) × (o ≡ some e))
  none_or none = inl refl
  none_or (some e) = inr (e, refl)

  step-Stored :
      (s : GrantStore) (call : Call) → Keyed s → Stored s → Stored ((step digests s call).0)
  unfolding Stored
  step-Stored s (apply_call b) k stored id h =
      let (e, found) =
        some_of (get id s.outbox) (stored id (ap (has id) (sym (step-sent s b)) ∙ h)) in
      ap is_none (step-kept s (apply_call b) id k found)
  step-Stored s (sent_call j) k stored id h =
      ap (λ o. is_none (get id o)) (sent-outbox s j)
      ∙ present (has id s.sent) (str_eq j id) (is_none (get id s.outbox)) (stored id)
          (sym (sent-step s j id) ∙ h)
    where
      present : (a b c : Bool) → (a ≡ true → c ≡ false) → (a || (b && not c)) ≡ true → c ≡ false
      present a b c f e = ground arith

  run-Stored :
      (s : GrantStore) (calls : List Call) → Keyed s → Stored s → Stored (run digests s calls)
  unfolding run
  run-Stored s [] k h = h
  run-Stored s (call ∷ calls) k h =
      run-Stored ((step digests s call).0) calls (step-Keyed s call k) (step-Stored s call k h)

  -- For an acknowledgement in the outbox, the calls decide.
  run-sent :
      (s : GrantStore) (calls : List Call) (id : String) {e : GrantAckOutboxEnvelope}
      → Keyed s
      → get id s.outbox ≡ some e
      → has id (run digests s calls).sent ≡ (has id s.sent || any (marks id) calls)
  unfolding run
  run-sent s [] id k found = ground arith
  run-sent s (call ∷ calls) id k found =
      run-sent ((step digests s call).0) calls id (step-Keyed s call k)
        (step-kept s call id k found)
      ∙ one call
    where
      one :
          (call : Call)
          → (has id ((step digests s call).0).sent || any (marks id) calls)
            ≡ (has id s.sent || any (marks id) (call ∷ calls))
      one (apply_call b) = ap (λ l. has id l || any (marks id) calls) (step-sent s b)
      one (sent_call j) = ground (arith, sent-step s j id, ap is_none found)

  lists-sent :
      (s : GrantStore) (id : String) {e : GrantAckOutboxEnvelope}
      → Keyed s
      → get id s.outbox ≡ some e
      → lists id (recover_unsent_acks s) ≡ not (has id s.sent)
  unfolding recover_unsent_acks
  lists-sent s id k found = elim (Bool-cases (has id s.sent)) [
    | inl sent ↦ rw sent (unsent-absent id s.sent s.outbox k sent)
    | inr waiting ↦ rw waiting (unsent-present id s.sent s.outbox k found waiting)
  ]

  new_or_listed :
      (s : GrantStore) (id : String)
      → Keyed s
      → Stored s
      → not (has id s.sent) ≡ (is_none (load_ack_outbox s id) || lists id (recover_unsent_acks s))
  unfolding load_ack_outbox Stored
  new_or_listed s id k stored = elim (none_or (get id s.outbox)) [
    | inl new ↦ absent (has id s.sent) (is_none (get id s.outbox)) _ (stored id) (ap is_none new)
    | inr (e, found) ↦ ground (arith, lists-sent s id k found, ap is_none found)
  ]
    where
      absent : (a c l : Bool) → (a ≡ true → c ≡ false) → c ≡ true → not a ≡ (c || l)
      absent a c l f h = ground arith

  -- Once an update is accepted in a store that began empty, the outbox has an acknowledgement under
  -- the id of the answer, which never changes. The recovery lists it at once if it is new or was
  -- listed before, and after any further calls exactly if none of them marks the id as sent.
  pub ack_until_sent :
      (before after : List Call) (b : ReplayBoundGrantUpdate) {id : String}
      → accepted ((step digests (run digests empty_store before) (apply_call b)).1) ≡ some id
      → (let s0 = run digests empty_store before in
          let s = (step digests s0 (apply_call b)).0 in
          let s' = run digests s after in
          (e : GrantAckOutboxEnvelope) × (load_ack_outbox s id ≡ some e)
          × (load_ack_outbox s' id ≡ some e)
          × (lists id (recover_unsent_acks s)
              ≡ (is_none (load_ack_outbox s0 id) || lists id (recover_unsent_acks s0)))
          × (lists id (recover_unsent_acks s')
              ≡ (lists id (recover_unsent_acks s) && not (any (marks id) after))))
  unfolding load_ack_outbox
  ack_until_sent before after b {id} h =
      let s0 = run digests empty_store before in
      let k0 = run-Keyed empty_store before tt in
      let stored0 = run-Stored empty_store before tt empty-Stored in
      let s = (step digests s0 (apply_call b)).0 in
      let k = step-Keyed s0 (apply_call b) k0 in
      let (e, found) = Accepted-present s0 s b id (step-Accepted digests s0 b h) in
      let s' = run digests s after in
      let k' = run-Keyed s after k in
      let found' = run-kept s after id k found in
      (
        e,
        found,
        found',
        lists-sent s id k found
            ∙ ap (λ l. not (has id l)) (step-sent s0 b)
            ∙ new_or_listed s0 id k0 stored0,
        lists-sent s' id k' found'
            ∙ ap not (run-sent s after id k found)
            ∙ both (has id s.sent) (any (marks id) after)
            ∙ ap (λ l. l && not (any (marks id) after)) (sym (lists-sent s id k found)),
      )
    where
      both : (x y : Bool) → not (x || y) ≡ (not x && not y)
      both x y = ground arith

      empty-Stored : Stored empty_store
      empty-Stored = unfold Stored has in (λ id h. absurd (ground arith))
