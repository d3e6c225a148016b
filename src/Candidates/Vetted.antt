-- ===== src/Candidates/Vetted.antt =====
-- The standing of the rules that adminos/domain/rules.py keeps, over every history of their table: each
-- step is an operation that returned, under the configuration of its time.
use timmeny_admin_os.Common.{
  ℕ, String, true, not, ◌≡◌, refl, ap, inl, inr, ◌||◌, Option, none, some, List, [], ◌∷◌, not-false,
  All, All-append, All-Among, Among, Members, ok, then-ok, refuse_if, refuse_if-ok, ok-injective,
}
use timmeny_admin_os.Capabilities.{ActionKind}
use timmeny_admin_os.Capabilities.Config.{CapabilityConfig, MatchRule}
use timmeny_admin_os.Candidates.{
  RuleState, observed, proposed, confirmed, automatable, retired, CandidateRule, is_active,
  is_observed, is_proposed, may_become, cannot_become, save_rule, noticed_again, new_rule,
  record_rule, moved, check_transition, transition_rule,
}
use timmeny_admin_os.Candidates.Equivalent.{Recorded, record_rule-Recorded, save_rule-All}

-- What a rule's columns say of it, by its state.
Standing : RuleState → CandidateRule → Type 0
Standing observed r = (r.proposed_at ≡ none) × (r.confirmed_at ≡ none)
Standing proposed r = (t : ℕ) × (r.proposed_at ≡ some t) × (r.confirmed_at ≡ none)
Standing confirmed r =
    (t : ℕ) × (who : String) × (n : ℕ) × (r.proposed_at ≡ some n)
    × (r.confirmed_at ≡ some t)
    × (r.confirmed_by ≡ some who)
    × (r.automatable_at ≡ none)
Standing automatable r =
    (t : ℕ) × (who : String) × (n : ℕ) × (promoted : ℕ) × (r.proposed_at ≡ some n)
    × (r.confirmed_at ≡ some t)
    × (r.confirmed_by ≡ some who)
    × (r.automatable_at ≡ some promoted)
Standing retired r = (t : ℕ) × (r.retired_at ≡ some t)

unfoldable pub IsVetted : CandidateRule → Type 0
unfolding Standing
IsVetted r = Standing r.state r

pub data Step (digest : Members → String) (fresh : List CandidateRule → String)
    (rules : List CandidateRule) : List CandidateRule → Type 0 where
  recorded :
      {after : List CandidateRule} (capability : CapabilityConfig) (match : MatchRule)
      (action : ActionKind) (rationale : String) (state : RuleState) (source : String)
      (params : Option Members) (confidence : ℕ) (actor : Option String) (now : ℕ)
      (rule : CandidateRule)
      → record_rule digest fresh capability match action rationale state source params confidence
          actor now rules
        ≡ ok (rule, after)
      → Step digest fresh rules after
  transitioned :
      {after : List CandidateRule} (capability : CapabilityConfig) (rule : CandidateRule)
      (target : RuleState) (actor : String) (reason : Option String) (now : ℕ)
      (moved_rule : CandidateRule)
      → Among rule rules
      → transition_rule capability rule target actor reason now rules ≡ ok (moved_rule, after)
      → Step digest fresh rules after

pub data Reach (digest : Members → String) (fresh : List CandidateRule → String)
    : List CandidateRule → Type 0 where
  empty : Reach digest fresh []
  next :
      {rules after : List CandidateRule}
      → Reach digest fresh rules
      → Step digest fresh rules after
      → Reach digest fresh after

noticed-IsVetted :
    (state s : RuleState) (rationale : String) (actor : Option String) (now : ℕ) (r : CandidateRule)
    → r.state ≡ s
    → Standing s r
    → IsVetted (noticed_again state rationale actor now r)
unfolding noticed_again IsVetted Standing is_observed is_proposed
noticed-IsVetted proposed observed rationale actor now r e h = rw e (now, refl, h.1)
noticed-IsVetted observed observed rationale actor now r e h = rw e h
noticed-IsVetted confirmed observed rationale actor now r e h = rw e h
noticed-IsVetted automatable observed rationale actor now r e h = rw e h
noticed-IsVetted retired observed rationale actor now r e h = rw e h
noticed-IsVetted state proposed rationale actor now r e h = rw e h
noticed-IsVetted state confirmed rationale actor now r e h = rw e h
noticed-IsVetted state automatable rationale actor now r e h = rw e h
noticed-IsVetted state retired rationale actor now r e h = rw e h

moved-IsVetted :
    (s target : RuleState) (actor : String) (reason : Option String) (now : ℕ) (r : CandidateRule)
    → may_become s target ≡ true
    → Standing s r
    → IsVetted (moved target actor reason now r)
unfolding moved IsVetted Standing may_become
moved-IsVetted observed proposed actor reason now r legal h = (now, refl, h.1)
moved-IsVetted proposed confirmed actor reason now r legal h =
    (now, actor, h.0, h.1, refl, refl, refl)
moved-IsVetted automatable confirmed actor reason now r legal h =
    (now, actor, h.2, h.4, refl, refl, refl)
moved-IsVetted confirmed automatable actor reason now r legal h =
    (h.0, h.1, h.2, now, h.3, h.4, h.5, refl)
moved-IsVetted observed retired actor reason now r legal h = (now, refl)
moved-IsVetted proposed retired actor reason now r legal h = (now, refl)
moved-IsVetted confirmed retired actor reason now r legal h = (now, refl)
moved-IsVetted automatable retired actor reason now r legal h = (now, refl)
moved-IsVetted _ _ actor reason now r legal h = cc

new_rule-IsVetted :
    (digest : Members → String) (fresh : List CandidateRule → String)
    (capability : CapabilityConfig) (match : MatchRule) (action : ActionKind) (rationale : String)
    (state : RuleState) (source : String) (params : Option Members) (confidence : ℕ)
    (actor : Option String) (now : ℕ) (rules : List CandidateRule)
    → (is_observed state || is_proposed state) ≡ true
    → IsVetted (
        new_rule digest fresh capability match action rationale state source params confidence actor
          now rules)
unfolding new_rule IsVetted Standing is_observed is_proposed
new_rule-IsVetted digest fresh c m a rationale observed source params confidence actor now rules h =
    (refl, refl)
new_rule-IsVetted digest fresh c m a rationale proposed source params confidence actor now rules h =
    (now, refl, refl)
new_rule-IsVetted digest fresh c m a rationale confirmed source params confidence actor now rules
      h =
    cc
new_rule-IsVetted digest fresh c m a rationale automatable source params confidence actor now rules
      h =
    cc
new_rule-IsVetted digest fresh c m a rationale retired source params confidence actor now rules h =
    cc

transition_rule-moved :
    (capability : CapabilityConfig) (rule after_rule : CandidateRule) (target : RuleState)
    (actor : String) (reason : Option String) (now : ℕ) (rules after : List CandidateRule)
    → transition_rule capability rule target actor reason now rules ≡ ok (after_rule, after)
    → (may_become rule.state target ≡ true)
      × (after ≡ save_rule (moved target actor reason now rule) rules)
unfolding transition_rule check_transition
transition_rule-moved capability rule after_rule target actor reason now rules after h =
    let (checked, made) = then-ok (check_transition capability rule target) _ h in
    let (legal, _) =
      then-ok (refuse_if (not (may_become rule.state target)) cannot_become) _ checked in
    (
      not-false (may_become rule.state target) (refuse_if-ok _ cannot_become legal),
      ap (λ p. p.1) (ok-injective made),
    )

-- When the rule was proposed and confirmed, and who confirmed it.
abbrev pub WasConfirmed : CandidateRule → Type 0
WasConfirmed r =
    (t : ℕ) × (who : String) × (n : ℕ) × (r.proposed_at ≡ some n)
    × (r.confirmed_at ≡ some t)
    × (r.confirmed_by ≡ some who)

Standing-confirmed :
    (s : RuleState) (r : CandidateRule) → Standing s r → is_active s ≡ true → WasConfirmed r
unfolding Standing is_active
Standing-confirmed confirmed r v active = (v.0, v.1, v.2, v.3, v.4, v.5)
Standing-confirmed automatable r v active = (v.0, v.1, v.2, v.4, v.5, v.6)
Standing-confirmed observed r v active = cc
Standing-confirmed proposed r v active = cc
Standing-confirmed retired r v active = cc

module _ (digest : Members → String) (fresh : List CandidateRule → String) where
  Step-AreVetted :
      (rules after : List CandidateRule)
      → All IsVetted rules
      → Step digest fresh rules after
      → All IsVetted after
  unfolding Recorded IsVetted
  Step-AreVetted rules after vetted
        (recorded c match action rationale state source params confidence actor now rule h) =
      elim (record_rule-Recorded digest fresh c match action rationale state source params
        confidence actor now rules rule after h) [
          | inl (old, among, is, saved) ↦ rw saved (
              save_rule-All IsVetted rule rules
                (rw is (
                  noticed-IsVetted state old.state rationale actor now old refl
                    (All-Among IsVetted old rules vetted among)))
                vetted)
          | inr (made_so, is, saved) ↦ rw saved (
              All-append IsVetted rules (rule ∷ []) vetted (
                rw is (
                    new_rule-IsVetted digest fresh c match action rationale state source params
                      confidence actor now rules made_so),
                tt,
              ))
        ]
  Step-AreVetted rules after vetted
        (transitioned c rule target actor reason now after_rule among h) =
      let (legal, saved) =
        transition_rule-moved c rule after_rule target actor reason now rules after h in
      rw saved (
        save_rule-All IsVetted (moved target actor reason now rule) rules
          (moved-IsVetted rule.state target actor reason now rule legal
            (All-Among IsVetted rule rules vetted among))
          vetted)

  Reach-AreVetted : (rules : List CandidateRule) → Reach digest fresh rules → All IsVetted rules
  Reach-AreVetted [] empty = tt
  Reach-AreVetted rules (next before step) = Step-AreVetted _ rules (Reach-AreVetted _ before) step

  -- Over every history of the table, a rule that may shape a recommendation was proposed at some time
  -- and then confirmed by somebody, and the row says when and by whom; this holds whatever the
  -- configurations were, and for a rule that a correction was the first to notice.
  pub active-WasConfirmed :
      (rules : List CandidateRule) (r : CandidateRule)
      → Reach digest fresh rules
      → Among r rules
      → is_active r.state ≡ true
      → WasConfirmed r
  unfolding IsVetted
  active-WasConfirmed rules r reach among active =
      Standing-confirmed r.state r (All-Among IsVetted r rules (Reach-AreVetted rules reach) among)
        active
