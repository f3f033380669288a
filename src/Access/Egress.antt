-- ===== src/Access/Egress.antt =====
-- Evidence of zero retention, from its verifications to the gate.
use agent_life.Shared.{
  ℕ, ◌<◌, ◌≡◌, ◌∙◌, ap, subst, refl, inl, inr, Bool, true, false, ◌&&◌, ◌||◌, ◌==◌, leb, Option,
  some, List, [], ◌∷◌, any, All, Any, str_eq, eq_iff, Result, ok, err, Bool-cases, ==_iff, arith,
  require, ◌>>◌, schema_invalid, integrity_failed,
}
use agent_life.Shared.Text.{codes, decimal_value, decimal_text}
use agent_life.Shared.Int.{u64_max}
use agent_life.Shared.Instant.{instant_ms, valid_instant}
use agent_life.Access.Policy.{
  ExpectedEgressDeployment, ZeroRetentionEvidenceInput, VerifiedZeroRetentionEvidence, well_formed,
  is_expected, evidence_id, false_matrix, verify_zero_retention_evidence, ProviderObjectObservation,
  in_order, evaluate_egress_profile,
}
use agent_life.Access.Opening.{
  Open, KeepsNothing, false_matrix-KeepsNothing, in_order-instants, gate-Open, Open-gate,
}

drop_first : (b c : Bool) → b ≡ false → (b || c) ≡ true → c ≡ true
drop_first b c h k = ground arith

last_four :
    (a b c d e f : Bool)
    → (a && b && c && d && e && f) ≡ true
    → (c ≡ true) × (d ≡ true) × (e ≡ true) × (f ≡ true)
last_four a b c d e f h = ground arith

last_two :
    (a b c d e f g i j k : Bool)
    → (a && b && c && d && e && f && g && i && j && k) ≡ true
    → (j ≡ true) × (k ≡ true)
last_two a b c d e f g i j k h = ground arith

abbrev value_or {ℓ} : {T : Type ℓ} → T → Result T → T
value_or x (ok y) = y
value_or x (err _) = x

guarded {ℓ} :
    {T : Type ℓ} (x y z : Bool) (p q : T)
    → (require x schema_invalid
        >> (require y integrity_failed >> (require z integrity_failed >> ok p)))
      ≡ ok q
    → (x ≡ true) × (y ≡ true) × (z ≡ true) × (p ≡ q)
guarded true true true p q h = (refl, refl, refl, ap (value_or p) h)
guarded false y z p q h = absurd (cc)
guarded true false z p q h = absurd (cc)
guarded true true false p q h = absurd (cc)

-- An attempt to verify evidence for a deployment; `object` is the fresh object of its answer.
pub record Attempt : Type 0 where
  pub object : ℕ
  pub input : ZeroRetentionEvidenceInput
  pub expected : ExpectedEgressDeployment

abbrev authority_of : List ℕ → Result (VerifiedZeroRetentionEvidence × List ℕ) → List ℕ
authority_of old (ok (_, new)) = new
authority_of old (err _) = old

abbrev with_answer :
    Result (VerifiedZeroRetentionEvidence × List ℕ)
    → List VerifiedZeroRetentionEvidence
    → List VerifiedZeroRetentionEvidence
with_answer (ok (e, _)) es = e ∷ es
with_answer (err _) es = es

module _ (signed : ZeroRetentionEvidenceInput → Bool) where
  abbrev attempt : List ℕ → Attempt → Result (VerifiedZeroRetentionEvidence × List ℕ)
  attempt authority a = verify_zero_retention_evidence signed authority a.object a.input a.expected

  -- The weak set after attempts, of which the last is the first of the list, and what they returned.
  unfoldable pub authority_after : List Attempt → List ℕ
  authority_after [] = []
  authority_after (a ∷ rest) =
      authority_of (authority_after rest) (attempt (authority_after rest) a)

  unfoldable pub returned : List Attempt → List VerifiedZeroRetentionEvidence
  returned [] = []
  returned (a ∷ rest) = with_answer (attempt (authority_after rest) a) (returned rest)

  -- Evidence is what an attempt returned for a signed statement that nothing is kept, of the expected
  -- deployment, over a period that is not empty.
  pub record Issued (e : VerifiedZeroRetentionEvidence) (a : Attempt) : Type 0 where
    pub has_signature : signed a.input ≡ true
    pub keeps_nothing : KeepsNothing a.input.retention_statement
    pub same_object : e.object ≡ a.object
    pub destination_is : e.provider_destination ≡ a.input.provider_destination
    pub profile_is : e.account_profile_id ≡ a.input.account_profile_id
    pub contract_is : e.contract_config_digest ≡ a.input.contract_config_digest
    pub revision_is : e.evidence_revision ≡ decimal_value 0 (codes a.input.evidence_revision)
    pub verified_is : e.verified_at ≡ a.input.verified_at
    pub expires_is : e.expires_at ≡ a.input.expires_at
    pub expected_destination : a.input.provider_destination ≡ a.expected.provider_destination
    pub expected_profile : a.input.account_profile_id ≡ a.expected.account_profile_id
    pub expected_contract : a.input.contract_config_digest ≡ a.expected.contract_config_digest
    pub expected_revision : e.evidence_revision ≡ a.expected.evidence_revision
    pub start : ℕ
    pub end : ℕ
    pub starts : instant_ms a.input.verified_at ≡ some start
    pub ends : instant_ms a.input.expires_at ≡ some end
    pub not_empty : start < end

  evidence_of : Attempt → VerifiedZeroRetentionEvidence
  evidence_of a = record {
    object = a.object;
    provider_destination = a.input.provider_destination;
    account_profile_id = a.input.account_profile_id;
    evidence_revision = decimal_value 0 (codes a.input.evidence_revision);
    contract_config_digest = a.input.contract_config_digest;
    verified_at = a.input.verified_at;
    expires_at = a.input.expires_at;
  }

  attempt-checked :
      (authority new : List ℕ) (a : Attempt) (e : VerifiedZeroRetentionEvidence)
      → attempt authority a ≡ ok (e, new)
      → (well_formed a.input ≡ true)
        × (is_expected a.expected a.input ≡ true)
        × (signed a.input ≡ true)
        × ◌≡◌ {A = VerifiedZeroRetentionEvidence × List ℕ}
            (evidence_of a, a.object ∷ authority)
            (e, new)
  unfolding verify_zero_retention_evidence evidence_of
  attempt-checked authority new a e h =
      guarded (well_formed a.input) (is_expected a.expected a.input) (signed a.input)
        (evidence_of a, a.object ∷ authority) (e, new) h

  well_formed-parts :
      (i : ZeroRetentionEvidenceInput)
      → well_formed i ≡ true
      → (in_order (instant_ms i.verified_at) (instant_ms i.expires_at) ≡ true)
        × (false_matrix i.retention_statement ≡ true)
  unfolding well_formed
  well_formed-parts i h =
      last_two (evidence_id i.provider_destination) (evidence_id i.account_profile_id)
        (evidence_id i.contract_config_digest) (evidence_id i.key_id) (evidence_id i.signature)
        (str_eq i.signature_domain "zero-retention/bridge") (valid_instant i.verified_at)
        (valid_instant i.expires_at) (in_order (instant_ms i.verified_at) (instant_ms i.expires_at))
        (false_matrix i.retention_statement) h

  expected-parts :
      (x : ExpectedEgressDeployment) (i : ZeroRetentionEvidenceInput)
      → is_expected x i ≡ true
      → (str_eq i.provider_destination x.provider_destination ≡ true)
        × (str_eq i.account_profile_id x.account_profile_id ≡ true)
        × (str_eq i.contract_config_digest x.contract_config_digest ≡ true)
        × ((decimal_value 0 (codes i.evidence_revision) == x.evidence_revision) ≡ true)
  unfolding is_expected
  expected-parts x i h =
      last_four (decimal_text i.evidence_revision)
        (leb (decimal_value 0 (codes i.evidence_revision)) u64_max)
        (str_eq i.provider_destination x.provider_destination)
        (str_eq i.account_profile_id x.account_profile_id)
        (str_eq i.contract_config_digest x.contract_config_digest)
        (decimal_value 0 (codes i.evidence_revision) == x.evidence_revision) h

  attempt-Issued :
      (a : Attempt)
      → well_formed a.input ≡ true
      → is_expected a.expected a.input ≡ true
      → signed a.input ≡ true
      → Issued (evidence_of a) a
  unfolding evidence_of
  attempt-Issued a formed expected sign =
      let i = a.input in
      let x = a.expected in
      let (ordered, false_rows) = well_formed-parts i formed in
      let (destination, profile, contract, revision) = expected-parts x i expected in
      let (v, t, starts, ends, not_empty) =
        in_order-instants (instant_ms i.verified_at) (instant_ms i.expires_at) ordered in
      record {
        has_signature = sign;
        keeps_nothing = false_matrix-KeepsNothing i.retention_statement false_rows;
        same_object = refl;
        destination_is = refl;
        profile_is = refl;
        contract_is = refl;
        revision_is = refl;
        verified_is = refl;
        expires_is = refl;
        expected_destination = (eq_iff i.provider_destination x.provider_destination).0 destination;
        expected_profile = (eq_iff i.account_profile_id x.account_profile_id).0 profile;
        expected_contract = (eq_iff i.contract_config_digest x.contract_config_digest).0 contract;
        expected_revision =
            (==_iff (decimal_value 0 (codes i.evidence_revision)) x.evidence_revision).0 revision;
        start = v;
        end = t;
        starts = starts;
        ends = ends;
        not_empty = not_empty;
      }

  -- Evidence is identified by its object: no other evidence that was returned has the same one.
  unfoldable pub Identified :
      VerifiedZeroRetentionEvidence → List VerifiedZeroRetentionEvidence → Type 0
  Identified e es = All (λ (f : VerifiedZeroRetentionEvidence). f.object ≡ e.object → f ≡ e) es

  minted-Issued :
      (e : VerifiedZeroRetentionEvidence) (attempts : List Attempt)
      → Identified e (returned attempts)
      → any (λ o. o == e.object) (authority_after attempts) ≡ true
      → Any (Issued e) attempts
  unfolding authority_after returned Identified
  minted-Issued e [] same h = absurd (ground arith)
  minted-Issued e (a ∷ rest) same h =
      go (minted-Issued e rest) (attempt (authority_after rest) a) refl same h
    where
      go :
          (Identified e (returned rest)
            → any (λ o. o == e.object) (authority_after rest) ≡ true
            → Any (Issued e) rest)
          → (r : Result (VerifiedZeroRetentionEvidence × List ℕ))
          → attempt (authority_after rest) a ≡ r
          → All
              (λ (f : VerifiedZeroRetentionEvidence). f.object ≡ e.object → f ≡ e)
              (with_answer r (returned rest))
          → any (λ o. o == e.object) (authority_of (authority_after rest) r) ≡ true
          → Any (Issued e) (a ∷ rest)
      go before (err _) is same h = inr (before same h)
      go before (ok (f, new)) is (first, others) h =
          let (formed, expected, sign, pair) = attempt-checked (authority_after rest) new a f is in
          let issued : Issued f a =
            subst (λ g. Issued g a) (ap (λ p. p.0) pair) (attempt-Issued a formed expected sign) in
          let added : any (λ o. o == e.object) (a.object ∷ authority_after rest) ≡ true =
            ap (λ p. any (λ o. o == e.object) p.1) pair ∙ h in
          elim (Bool-cases (a.object == e.object)) [
            | inl hit ↦ inl (
                subst (λ g. Issued g a)
                  (first (issued.same_object ∙ (==_iff a.object e.object).0 hit)) issued)
            | inr miss ↦ inr (before others (drop_first (a.object == e.object) _ miss added))
          ]

  -- After any attempts the gate opens for evidence only if one of them returned it: for a signed
  -- statement that nothing is kept, of the deployment that it expected, over a period that is not empty;
  -- and only for that deployment, within the period, if the provider was seen to keep no object.
  pub egress-Issued :
      (attempts : List Attempt) (e : VerifiedZeroRetentionEvidence)
      (deployment : ExpectedEgressDeployment) (now : Option ℕ)
      (observed : ProviderObjectObservation)
      → Identified e (returned attempts)
      → evaluate_egress_profile (authority_after attempts) (some e) deployment now observed ≡ true
      → Any (Issued e) attempts × Open e deployment now observed
  egress-Issued attempts e deployment now observed same h =
      let (minted, opens) = gate-Open (authority_after attempts) e deployment now observed h in
      (minted-Issued e attempts same minted, opens)

  -- Evidence that verifies opens the gate, for every deployment and time at which it is open.
  Open-egress :
      (authority new : List ℕ) (a : Attempt) (e : VerifiedZeroRetentionEvidence)
      (deployment : ExpectedEgressDeployment) (now : Option ℕ)
      (observed : ProviderObjectObservation)
      → attempt authority a ≡ ok (e, new)
      → Open e deployment now observed
      → evaluate_egress_profile new (some e) deployment now observed ≡ true
  unfolding evidence_of
  Open-egress authority new a e deployment now observed h o =
      let (_, _, _, pair) = attempt-checked authority new a e h in
      Open-gate new e deployment now observed
        (subst
          (λ (p : VerifiedZeroRetentionEvidence × List ℕ). any (λ o. o == p.0.object) p.1 ≡ true)
          pair (ground arith))
        o
