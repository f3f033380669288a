-- ===== src/Access/Opening.antt =====
-- When the gate of body egress opens, and what a statement of zero retention says.
use agent_life.Shared.{
  ℕ, ◌≤◌, ◌<◌, ◌≡◌, ap, refl, Bool, true, false, not, ◌&&◌, ◌==◌, leb, ltb, Option, none, some,
  List, [], ◌∷◌, length, all, any, All, str_eq, eq_iff, ==_iff, arith,
}
use agent_life.Shared.Instant.{instant_ms}
use agent_life.Access.Policy.{
  ExpectedEgressDeployment, VerifiedZeroRetentionEvidence, false_matrix, ProviderObjectObservation,
  nothing, is_nothing, matches_deployment, in_order, in_force, evaluate_egress_profile,
}

-- When the gate is open for evidence, a deployment, a time and an observation.
pub record Open (e : VerifiedZeroRetentionEvidence) (deployment : ExpectedEgressDeployment)
    (now : Option ℕ) (observed : ProviderObjectObservation) : Type 0 where
  pub same_destination : e.provider_destination ≡ deployment.provider_destination
  pub same_profile : e.account_profile_id ≡ deployment.account_profile_id
  pub same_contract : e.contract_config_digest ≡ deployment.contract_config_digest
  pub same_revision : e.evidence_revision ≡ deployment.evidence_revision
  pub no_object : observed ≡ nothing
  pub start : ℕ
  pub time : ℕ
  pub end : ℕ
  pub starts : instant_ms e.verified_at ≡ some start
  pub is_now : now ≡ some time
  pub ends : instant_ms e.expires_at ≡ some end
  pub started : start ≤ time
  pub not_ended : time < end

-- What the statement of evidence says: nothing is kept, in any of the four kinds of data.
pub KeepsNothing : List (List Bool) → Type 0
KeepsNothing rows =
    (length rows ≡ 4)
    × All (λ (row : List Bool). (length row ≡ 5) × All (λ flag. flag ≡ false) row) rows

flags-All : (row : List Bool) → all (λ flag. not flag) row ≡ true → All (λ flag. flag ≡ false) row
flags-All [] h = tt
flags-All (flag ∷ row) h = (ground arith, flags-All row (ground arith))

rows-All :
    (rows : List (List Bool))
    → all (λ row. length row == 5 && all (λ flag. not flag) row) rows ≡ true
    → All (λ (row : List Bool). (length row ≡ 5) × All (λ flag. flag ≡ false) row) rows
rows-All [] h = tt
rows-All (row ∷ rows) h =
    ((ground arith, flags-All row (ground arith)), rows-All rows (ground arith))

pub false_matrix-KeepsNothing :
    (rows : List (List Bool)) → false_matrix rows ≡ true → KeepsNothing rows
unfolding false_matrix KeepsNothing
false_matrix-KeepsNothing rows h = (ground arith, rows-All rows (ground arith))

pub in_order-instants :
    (a b : Option ℕ)
    → in_order a b ≡ true
    → (v : ℕ) × (x : ℕ) × (a ≡ some v) × (b ≡ some x) × (v < x)
in_order-instants none b h = absurd (ground arith)
in_order-instants (some v) none h = absurd (ground arith)
in_order-instants (some v) (some x) h = (v, x, refl, refl, ground arith)

in_force-instants :
    (a b c : Option ℕ)
    → in_force a b c ≡ true
    → (v : ℕ) × (x : ℕ) × (t : ℕ) × (a ≡ some v) × (b ≡ some x) × (c ≡ some t) × (v ≤ t) × (t < x)
in_force-instants none b c h = absurd (ground arith)
in_force-instants (some v) none c h = absurd (ground arith)
in_force-instants (some v) (some x) none h = absurd (ground arith)
in_force-instants (some v) (some x) (some t) h =
    (v, x, t, refl, refl, refl, ground arith, ground arith)

nothing_seen : (o : ProviderObjectObservation) → is_nothing o ≡ true → o ≡ nothing
nothing_seen o h = ground arith

four :
    (a b c d : Bool) → (a && b && c && d) ≡ true → (a ≡ true) × (b ≡ true) × (c ≡ true) × (d ≡ true)
four a b c d h = ground arith

module _ (authority : List ℕ) (e : VerifiedZeroRetentionEvidence)
    (deployment : ExpectedEgressDeployment) (now : Option ℕ)
    (observed : ProviderObjectObservation) where
  gate-conjuncts :
      evaluate_egress_profile authority (some e) deployment now observed ≡ true
      → (any (λ o. o == e.object) authority ≡ true)
        × (is_nothing observed ≡ true)
        × (matches_deployment e deployment ≡ true)
        × (in_force (instant_ms e.verified_at) (instant_ms e.expires_at) now ≡ true)
  unfolding evaluate_egress_profile
  gate-conjuncts h = four _ _ _ _ h

  deployment-conjuncts :
      matches_deployment e deployment ≡ true
      → (str_eq e.provider_destination deployment.provider_destination ≡ true)
        × (str_eq e.account_profile_id deployment.account_profile_id ≡ true)
        × (str_eq e.contract_config_digest deployment.contract_config_digest ≡ true)
        × ((e.evidence_revision == deployment.evidence_revision) ≡ true)
  unfolding matches_deployment
  deployment-conjuncts h = four _ _ _ _ h

  pub gate-Open :
      evaluate_egress_profile authority (some e) deployment now observed ≡ true
      → (any (λ o. o == e.object) authority ≡ true) × Open e deployment now observed
  gate-Open h =
      let (minted, seen, matches, force) = gate-conjuncts h in
      let (destination, profile, contract, revision) = deployment-conjuncts matches in
      let (v, x, t, starts, ends, is_now, started, not_ended) =
        in_force-instants (instant_ms e.verified_at) (instant_ms e.expires_at) now force in
      (
        minted,
        record {
          same_destination =
              (eq_iff e.provider_destination deployment.provider_destination).0 destination;
          same_profile = (eq_iff e.account_profile_id deployment.account_profile_id).0 profile;
          same_contract =
              (eq_iff e.contract_config_digest deployment.contract_config_digest).0 contract;
          same_revision = (==_iff e.evidence_revision deployment.evidence_revision).0 revision;
          no_object = nothing_seen observed seen;
          start = v;
          time = t;
          end = x;
          starts = starts;
          is_now = is_now;
          ends = ends;
          started = started;
          not_ended = not_ended;
        },
      )

  pub Open-gate :
      any (λ o. o == e.object) authority ≡ true
      → Open e deployment now observed
      → evaluate_egress_profile authority (some e) deployment now observed ≡ true
  unfolding evaluate_egress_profile matches_deployment
  Open-gate a o =
      let force : in_force (instant_ms e.verified_at) (instant_ms e.expires_at) now ≡ true =
        rw (o.starts, o.ends, o.is_now) (between o.start o.time o.end o.started o.not_ended) in
      ground (
        arith,
        a,
        force,
        ap is_nothing o.no_object,
        o.same_revision,
        (eq_iff e.provider_destination deployment.provider_destination).1 o.same_destination,
        (eq_iff e.account_profile_id deployment.account_profile_id).1 o.same_profile,
        (eq_iff e.contract_config_digest deployment.contract_config_digest).1 o.same_contract,
      )
    where
      between : (v t x : ℕ) → v ≤ t → t < x → (leb v t && ltb t x) ≡ true
      between v t x h k = ground arith
