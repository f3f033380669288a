-- ===== src/Access/Risk.antt =====
-- The bounds of the risk policy.
use agent_life.Shared.{
  ℕ, ◌≤◌, ◌≡◌, refl, sym, ◌∙◌, subst, inl, inr, true, false, Option, none, some, str_eq, Bool-cases,
  leb, arith,
}
use agent_life.Capabilities.{CapabilityDefinition, CapabilityApproval, per_operation_on_device}
use agent_life.Access.Policy.{
  allowed as permitted, RiskPolicyInput, SmsConfirmationBinding, risk_rank, approval_rank,
  corrected_risk, risk_or_zero, override_or_continuous, is_text, is_true, stronger, larger,
  policy_blocked, approve, lacks_session, policy_for, evaluate_risk_policy,
}

stronger-left : (a b : CapabilityApproval) → approval_rank a ≤ approval_rank (stronger a b)
stronger-left a b = ground arith

stronger-right : (a b : CapabilityApproval) → approval_rank b ≤ approval_rank (stronger a b)
stronger-right a b = ground arith

rank_bound : (a : CapabilityApproval) → approval_rank a ≤ 2
rank_bound a = ground arith

larger_bounds : (x y z : ℕ) → leb 4 (larger x (larger y z)) ≡ false → (x ≤ 3) × (y ≤ 3) × (z ≤ 3)
larger_bounds x y z h = (ground arith, ground arith, ground arith)

abbrev risk_of : RiskPolicyInput → CapabilityDefinition → ℕ
risk_of input c = larger (risk_rank c.risk_floor) (
    larger (risk_or_zero input.deterministic_risk)
      (risk_rank (corrected_risk input.data_sensitivity_correction)))

blocked :
    {a : CapabilityApproval} {sms : Option SmsConfirmationBinding}
    → policy_blocked ≡ permitted a sms
    → ⊥
blocked e = ground arith

policy_for-approve :
    (input : RiskPolicyInput) (c : CapabilityDefinition) {a : CapabilityApproval}
    {sms : Option SmsConfirmationBinding}
    → policy_for input c ≡ permitted a sms
    → (leb 4 (risk_of input c) ≡ false)
      × (lacks_session input ≡ false)
      × (approve input c ≡ permitted a sms)
unfolding policy_for
policy_for-approve input c h = elim (Bool-cases (leb 4 (risk_of input c))) [
  | inl high ↦ absurd (blocked (sym (high_blocked high) ∙ h))
  | inr low ↦ elim (Bool-cases (lacks_session input)) [
    | inl lacking ↦ absurd (blocked (sym (session_blocked low lacking) ∙ h))
    | inr held ↦ (low, held, sym (approved low held) ∙ h)
  ]
]
  where
    high_blocked : leb 4 (risk_of input c) ≡ true → policy_for input c ≡ policy_blocked
    high_blocked high = unfold policy_for in (rw high refl)

    session_blocked :
        leb 4 (risk_of input c) ≡ false
        → lacks_session input ≡ true
        → policy_for input c ≡ policy_blocked
    session_blocked low lacking = unfold policy_for in (rw (low, lacking) refl)

    approved :
        leb 4 (risk_of input c) ≡ false
        → lacks_session input ≡ false
        → policy_for input c ≡ approve input c
    approved low held = unfold policy_for in (rw (low, held) refl)

approve-bounds :
    (input : RiskPolicyInput) (c : CapabilityDefinition) {a : CapabilityApproval}
    {sms : Option SmsConfirmationBinding}
    → approve input c ≡ permitted a sms
    → (approval_rank c.minimum_approval ≤ approval_rank a)
      × (approval_rank (override_or_continuous input.user_override) ≤ approval_rank a)
unfolding approve
approve-bounds input c {a} {sms} h = elim (Bool-cases (str_eq c.scope "sms.send")) [
  | inl is_sms ↦
      let e : per_operation_on_device ≡ a = same_approval (sym (sms_approved is_sms) ∙ h) in
      (
        subst (λ x. approval_rank c.minimum_approval ≤ approval_rank x) e
            (rank_bound c.minimum_approval),
        subst (λ x. approval_rank (override_or_continuous input.user_override) ≤ approval_rank x) e
            (rank_bound (override_or_continuous input.user_override)),
      )
  | inr other ↦
      let override = override_or_continuous input.user_override in
      let e : stronger c.minimum_approval override ≡ a =
        same_approval (sym (other_approved other) ∙ h) in
      (
        subst (λ x. approval_rank c.minimum_approval ≤ approval_rank x) e
            (stronger-left c.minimum_approval override),
        subst (λ x. approval_rank override ≤ approval_rank x) e
            (stronger-right c.minimum_approval override),
      )
]
  where
    same_approval :
        {x y : CapabilityApproval} {s t : Option SmsConfirmationBinding}
        → permitted x s ≡ permitted y t
        → x ≡ y
    same_approval e = ground arith

    sms_approved :
        str_eq c.scope "sms.send" ≡ true
        → approve input c ≡ permitted per_operation_on_device input.sms
    sms_approved is_sms = unfold approve in (rw is_sms refl)

    other_approved :
        str_eq c.scope "sms.send" ≡ false
        → approve input c
          ≡ permitted
              (stronger c.minimum_approval (override_or_continuous input.user_override))
              none
    other_approved other = unfold approve in (rw other refl)

has_session :
    (input : RiskPolicyInput)
    → lacks_session input ≡ false
    → is_text input.selected_backend "B1" ≡ true
    → is_true input.enhanced_backend_session_active ≡ true
has_session input h b1 = ground arith

-- The risk policy permits nothing of risk L4, by the capability's floor, the deterministic risk or the
-- sensitivity of the data, and no B1 backend without an active session; the approval that it asks for
-- is at least the capability's minimum and at least the user's own choice.
pub risk_policy-bounds :
    (input : RiskPolicyInput) (c : CapabilityDefinition) {a : CapabilityApproval}
    {sms : Option SmsConfirmationBinding}
    → evaluate_risk_policy input (some c) ≡ permitted a sms
    → (approval_rank c.minimum_approval ≤ approval_rank a)
      × (approval_rank (override_or_continuous input.user_override) ≤ approval_rank a)
      × (risk_rank c.risk_floor ≤ 3)
      × (risk_or_zero input.deterministic_risk ≤ 3)
      × (risk_rank (corrected_risk input.data_sensitivity_correction) ≤ 3)
      × (is_text input.selected_backend "B1" ≡ true
          → is_true input.enhanced_backend_session_active ≡ true)
unfolding evaluate_risk_policy
risk_policy-bounds input c h =
    let (low, held, approved) = policy_for-approve input c h in
    let (minimum, override) = approve-bounds input c approved in
    let (floor, deterministic, corrected) =
      larger_bounds (risk_rank c.risk_floor) (risk_or_zero input.deterministic_risk)
        (risk_rank (corrected_risk input.data_sensitivity_correction)) low in
    (minimum, override, floor, deterministic, corrected, has_session input held)
