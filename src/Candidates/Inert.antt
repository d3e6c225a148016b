-- ===== src/Candidates/Inert.antt =====
-- Recording a rule (adminos/domain/rules.py) changes no recommendation.
use timmeny_admin_os.Common.{
  ℕ, String, true, false, ◌≡◌, refl, sym, ap, subst, ◌∙◌, inl, inr, arith, ◌&&◌, ◌||◌, Option, List,
  [], ◌∷◌, ◌++◌, ◌==◌, Bool-cases, &&-true, false≢true, elem, keep, map, Among, Members, Result, ok,
  eq_iff, if◌then◌else◌,
}
use timmeny_admin_os.Capabilities.{ActionKind}
use timmeny_admin_os.Capabilities.Config.{CapabilityConfig, MatchRule}
use timmeny_admin_os.Plan.Arrange.Order.{IsDistinct}
use timmeny_admin_os.Candidates.{
  RuleState, CandidateRule, RuleRefused, LearnedRule, is_active, is_observed, is_proposed,
  read_rules, save_rule, noticed_again, new_rule, record_rule, usable, as_learned, learned_each,
  read_active_rules,
}
use timmeny_admin_os.Candidates.Equivalent.{Recorded, record_rule-Recorded}

-- The row is for the same capability, and active with the other or not at all; where it is active, it
-- says the same.
pub record IsAlike (r r' : CandidateRule) : Type 0 where
  pub same_capability : r'.capability_key ≡ r.capability_key
  pub same_standing : is_active r'.state ≡ is_active r.state
  pub same_use : is_active r.state ≡ true → (c : CapabilityConfig) → usable c r' ≡ usable c r
  pub same_advice :
      is_active r.state ≡ true → (c : CapabilityConfig) → as_learned c r' ≡ as_learned c r

observed-inactive : (state : RuleState) → is_observed state ≡ true → is_active state ≡ false
unfolding is_observed is_active
observed-inactive state h = ground arith

noticed_again-IsAlike :
    (state : RuleState) (rationale : String) (actor : Option String) (now : ℕ) (r : CandidateRule)
    → IsAlike r (noticed_again state rationale actor now r)
unfolding noticed_again is_active usable as_learned
noticed_again-IsAlike state rationale actor now r =
    elim (Bool-cases (is_observed r.state && is_proposed state)) [
      | inl e ↦ rw e (record {
        same_capability = refl;
        same_standing = sym (observed-inactive r.state (ground (arith, e)));
        same_use = λ active c.
            absurd (false≢true (sym (observed-inactive r.state (ground (arith, e))) ∙ active));
        same_advice = λ active c.
            absurd (false≢true (sym (observed-inactive r.state (ground (arith, e))) ∙ active));
      })
      | inr e ↦ rw e (record {
        same_capability = refl;
        same_standing = refl;
        same_use = λ active c. refl;
        same_advice = λ active c. refl;
      })
    ]

-- The advice of a capability, from the rows of its active rules.
abbrev advice : CapabilityConfig → List CandidateRule → Result RuleRefused (List LearnedRule)
advice c rules = learned_each c (keep (λ r. is_active r.state) (read_rules c.key rules))

module _ (c : CapabilityConfig) where
  advice-active :
      (r : CandidateRule) (rest : List CandidateRule)
      → (r.capability_key == c.key) ≡ true
      → is_active r.state ≡ true
      → advice c (r ∷ rest)
        ≡ learned_each c (r ∷ keep (λ r. is_active r.state) (read_rules c.key rest))
  unfolding read_rules
  advice-active r rest own active = rw own (rw active refl)

  advice-idle :
      (r : CandidateRule) (rest : List CandidateRule)
      → ((r.capability_key == c.key) && is_active r.state) ≡ false
      → advice c (r ∷ rest) ≡ advice c rest
  unfolding read_rules
  advice-idle r rest idle = elim (Bool-cases (r.capability_key == c.key)) [
    | inl own ↦
        let off : is_active r.state ≡ false = ground (arith, own, idle) in rw own (rw off refl)
    | inr other ↦ rw other refl
  ]

  learned_each-alike :
      (r r' : CandidateRule) (rest rest' : List CandidateRule)
      → usable c r' ≡ usable c r
      → as_learned c r' ≡ as_learned c r
      → learned_each c rest' ≡ learned_each c rest
      → learned_each c (r' ∷ rest') ≡ learned_each c (r ∷ rest)
  unfolding learned_each
  learned_each-alike r r' rest rest' u l h = rw u (rw l (rw h refl))

  advice-alike :
      (r r' : CandidateRule) (rest rest' : List CandidateRule)
      → IsAlike r r'
      → advice c rest' ≡ advice c rest
      → advice c (r' ∷ rest') ≡ advice c (r ∷ rest)
  advice-alike r r' rest rest' a h =
      elim (Bool-cases ((r.capability_key == c.key) && is_active r.state)) [
        | inl counts ↦
            let (own, active) = &&-true (r.capability_key == c.key) (is_active r.state) counts in
            advice-active r' rest' (ap (λ k. k == c.key) a.same_capability ∙ own)
              (a.same_standing ∙ active)
            ∙ learned_each-alike r r' _ _ (a.same_use active c) (a.same_advice active c) h
            ∙ sym (advice-active r rest own active)
        | inr idle ↦
            advice-idle r' rest' (rw a.same_capability (rw a.same_standing idle))
            ∙ h
            ∙ sym (advice-idle r rest idle)
      ]

  IsAlike-refl : (r : CandidateRule) → IsAlike r r
  IsAlike-refl r = record {
    same_capability = refl;
    same_standing = refl;
    same_use = λ active c. refl;
    same_advice = λ active c. refl;
  }

  advice-append :
      (r : CandidateRule) (rules : List CandidateRule)
      → is_active r.state ≡ false
      → advice c (rules ++ r ∷ []) ≡ advice c rules
  advice-append r [] idle = advice-idle r [] (ground (arith, idle))
  advice-append r (x ∷ rest) idle =
      advice-alike x x rest (rest ++ r ∷ []) (IsAlike-refl x) (advice-append r rest idle)

  Among-elem :
      (r : CandidateRule) (rules : List CandidateRule)
      → Among r rules
      → elem r.id (map (λ x. x.id) rules) ≡ true
  Among-elem r [] h = absurd h
  Among-elem r (x ∷ rest) (inl e) = ground (arith, (eq_iff x.id r.id).1 (ap (λ y. y.id) (sym e)))
  Among-elem r (x ∷ rest) (inr h) = ground (arith, Among-elem r rest h)

  advice-saved :
      (old again : CandidateRule) (rules : List CandidateRule)
      → IsDistinct (map (λ r. r.id) rules)
      → Among old rules
      → again.id ≡ old.id
      → IsAlike old again
      → advice c (save_rule again rules) ≡ advice c rules
  unfolding save_rule IsDistinct
  advice-saved old again [] distinct h same alike = absurd h
  advice-saved old again (x ∷ rest) distinct (inl e) same alike =
      rw ((eq_iff x.id again.id).1 (ap (λ y. y.id) (sym e) ∙ sym same))
        (advice-alike x again rest rest (subst (λ y. IsAlike y again) e alike) refl)
  advice-saved old again (x ∷ rest) distinct (inr h) same alike =
      elim (Bool-cases (x.id == again.id)) [
        | inl here ↦
            let twice = Among-elem old rest h in
            let own = (eq_iff x.id again.id).0 here ∙ same in
            absurd
              (false≢true (sym distinct.0 ∙ ap (λ id. elem id (map (λ r. r.id) rest)) own ∙ twice))
        | inr other ↦ rw other (
            advice-alike x x rest (save_rule again rest) (IsAlike-refl x)
              (advice-saved old again rest distinct.1 h same alike))
      ]

noticed_again-id :
    (state : RuleState) (rationale : String) (actor : Option String) (now : ℕ) (r : CandidateRule)
    → (noticed_again state rationale actor now r).id ≡ r.id
unfolding noticed_again
noticed_again-id state rationale actor now r =
    elim (Bool-cases (is_observed r.state && is_proposed state)) [
      | inl e ↦ rw e refl
      | inr e ↦ rw e refl
    ]

created-inactive :
    (state : RuleState) → (is_observed state || is_proposed state) ≡ true → is_active state ≡ false
unfolding is_observed is_proposed is_active
created-inactive state h = ground arith

module _ (digest : Members → String) (fresh : List CandidateRule → String)
    (capability : CapabilityConfig) (match : MatchRule) (action : ActionKind) (rationale : String)
    (state : RuleState) (source : String) (params : Option Members) (confidence : ℕ)
    (actor : Option String) (now : ℕ) (rules : List CandidateRule) where
  Recorded-advice :
      (rule : CandidateRule) (after : List CandidateRule) (c : CapabilityConfig)
      → IsDistinct (map (λ r. r.id) rules)
      → Recorded digest fresh capability match action rationale state source params confidence actor
          now rules rule after
      → advice c after ≡ advice c rules
  unfolding Recorded new_rule
  Recorded-advice rule after c distinct (inl (old, among, is, saved)) = rw saved (
      rw is (
        advice-saved c old (noticed_again state rationale actor now old) rules distinct among
          (noticed_again-id state rationale actor now old)
          (noticed_again-IsAlike state rationale actor now old)))
  Recorded-advice rule after c distinct (inr (made_so, is, saved)) =
      rw saved (
        advice-append c rule rules
          (ap (λ r. is_active r.state) is ∙ created-inactive state made_so))

  -- Where the table's identities are distinct, recording a rule, new or seen before, observed or
  -- proposed, leaves the rules that shape a recommendation as they were, for every capability and
  -- configuration.
  pub record_rule-IsInert :
      (rule : CandidateRule) (after : List CandidateRule) (c : CapabilityConfig)
      → IsDistinct (map (λ r. r.id) rules)
      → record_rule digest fresh capability match action rationale state source params confidence
          actor now rules
        ≡ ok (rule, after)
      → read_active_rules c after ≡ read_active_rules c rules
  unfolding read_active_rules
  record_rule-IsInert rule after c distinct h =
      ap (λ a. if c.learning.allow_rule_learning then a else ok [])
        (Recorded-advice rule after c distinct (
          record_rule-Recorded digest fresh capability match action rationale state source params
            confidence actor now rules rule after h))
