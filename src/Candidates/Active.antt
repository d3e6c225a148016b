-- ===== src/Candidates/Active.antt =====
-- The rules that `read_active_rules` (adminos/domain/rules.py) gives, and what stands behind each.
use timmeny_admin_os.Common.{
  true, false, not, ◌&&◌, ◌≡◌, refl, sym, subst, inl, inr, Bool-cases, then-branch, else-branch,
  &&-true, not-false, Option, List, [], ◌∷◌, ◌==◌, All, Among, keep, Members, Result, ok, raised,
  >>=-ok, then-ok, refuse_if, refuse_if-ok, ok-injective,
}
use timmeny_admin_os.Capabilities.{ActionKind}
use timmeny_admin_os.Capabilities.Config.{CapabilityConfig, permits, may_execute}
use timmeny_admin_os.Candidates.{
  CandidateRule, RuleRefused, not_permitted, LearnedRule, is_active, is_automatable,
  check_rule_usable, read_rules, load_match, usable, as_learned, learned_each, read_active_rules,
}

-- The rule of the table that a learned rule is, and what the capability grants it.
pub record IsBacked (capability : CapabilityConfig) (rules : List CandidateRule) (l : LearnedRule)
    : Type 0 where
  pub rule : CandidateRule
  pub among : Among rule rules
  pub same_id : l.id ≡ rule.id
  pub same_action : l.action ≡ rule.action
  pub active : is_active rule.state ≡ true
  pub permitted : permits capability rule.action ≡ true
  pub unattended :
      l.automatable ≡ true
      → (is_automatable rule.state ≡ true)
        × (capability.learning.allow_automatable_rules ≡ true)
        × (may_execute capability rule.action ≡ true)

checked_first :
    (capability : CapabilityConfig) (action : ActionKind) (params : Option Members)
    → check_rule_usable capability action params ≡ ok tt
    → refuse_if (not (permits capability action)) (not_permitted action) ≡ ok tt
unfolding check_rule_usable
checked_first capability action params h = (then-ok (refuse_if _ _) _ h).0

usable-permits :
    (capability : CapabilityConfig) (r : CandidateRule)
    → usable capability r ≡ true
    → permits capability r.action ≡ true
unfolding usable
usable-permits capability r h =
    passed (check_rule_usable capability r.action r.action_params) refl h
  where
    passed :
        (o : Result RuleRefused (Unit {0}))
        → check_rule_usable capability r.action r.action_params ≡ o
        → elim o [ ok _ ↦ true | raised _ ↦ false ] ≡ true
        → permits capability r.action ≡ true
    passed (raised e) c k = cc
    passed (ok tt) c k =
        not-false (permits capability r.action)
          (refuse_if-ok _ _ (checked_first capability r.action r.action_params c))

module _ (capability : CapabilityConfig) (rules : List CandidateRule) where
  as_learned-IsBacked :
      (r : CandidateRule) (l : LearnedRule)
      → Among r rules
      → is_active r.state ≡ true
      → usable capability r ≡ true
      → as_learned capability r ≡ ok l
      → IsBacked capability rules l
  unfolding as_learned
  as_learned-IsBacked r l among active fit h =
      let (match, _, made) = >>=-ok (load_match r.match_conditions) _ h in
      subst (IsBacked capability rules) (sym (ok-injective made)) record {
        rule = r;
        among = among;
        same_id = refl;
        same_action = refl;
        active = active;
        permitted = usable-permits capability r fit;
        unattended = λ auto.
            let (state, more) =
              &&-true (is_automatable r.state && capability.learning.allow_automatable_rules) _
                auto in
            let (own, allowed) = &&-true (is_automatable r.state) _ state in (own, allowed, more);
      }

  -- The rows at hand are rows of the table, and active.
  abbrev AreOffered : List CandidateRule → Type 0
  AreOffered rows = All (λ r. Among r rules × (is_active r.state ≡ true)) rows

  learned_each-AreBacked :
      (rows : List CandidateRule) (learned : List LearnedRule)
      → AreOffered rows
      → learned_each capability rows ≡ ok learned
      → All (IsBacked capability rules) learned
  unfolding learned_each
  learned_each-AreBacked [] learned offered h =
      subst (All (IsBacked capability rules)) (sym (ok-injective h)) tt
  learned_each-AreBacked (r ∷ rest) learned offered h = elim (Bool-cases (usable capability r)) [
    | inr unfit ↦ learned_each-AreBacked rest learned offered.1 (rw unfit at h)
    | inl fit ↦
        let (l, one, more) = >>=-ok (as_learned capability r) _ (rw fit at h) in
        let (others, all_others, made) = >>=-ok (learned_each capability rest) _ more in
        subst (All (IsBacked capability rules)) (sym (ok-injective made)) (
          as_learned-IsBacked r l offered.0.0 offered.0.1 fit one,
          learned_each-AreBacked rest others offered.1 all_others,
        )
  ]

  offered :
      (rows : List CandidateRule)
      → ((r : CandidateRule) → Among r rows → Among r rules)
      → AreOffered
          (keep (λ r. is_active r.state) (keep (λ r. r.capability_key == capability.key) rows))
  offered [] h = tt
  offered (r ∷ rest) h = elim (Bool-cases (r.capability_key == capability.key)) [
    | inr other ↦ rw other (offered rest (λ s among. h s (inr among)))
    | inl own ↦ elim (Bool-cases (is_active r.state)) [
      | inl active ↦
          rw own (rw active ((h r (inl refl), active), offered rest (λ s among. h s (inr among))))
      | inr idle ↦ rw own (rw idle (offered rest (λ s among. h s (inr among))))
    ]
  ]

  pub read_active_rules-AreBacked :
      (learned : List LearnedRule)
      → read_active_rules capability rules ≡ ok learned
      → All (IsBacked capability rules) learned
  unfolding read_active_rules read_rules
  read_active_rules-AreBacked learned h =
      elim (Bool-cases capability.learning.allow_rule_learning) [
        | inl learns ↦
            learned_each-AreBacked _ learned (offered rules (λ r among. among))
              (then-branch _ _ _ learns h)
        | inr never ↦
            subst (All (IsBacked capability rules)) (sym (ok-injective (else-branch _ _ _ never h)))
              tt
      ]
