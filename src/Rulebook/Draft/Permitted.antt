-- ===== src/Rulebook/Draft/Permitted.antt =====
-- What `check_draft` of adminos/domain/rulebook.py lets a rule recommend.
use timmeny_admin_os.Common.{
  String, Bool, true, false, not, ◌≡◌, refl, subst, ap, Option, none, some, List, [], ◌∷◌, elem,
  any, All, Among, All-Among, arith, is_set, if◌then◌else◌, ok, then-ok, else-branch, then-branch,
  refuse_if, refuse_if-ok,
}
use timmeny_admin_os.Conditions.Fields.{Engine}
use timmeny_admin_os.Conditions.Tree.{check_breadth}
use timmeny_admin_os.Capabilities.{ActionKind, read_action_kind, is_recommendation}
use timmeny_admin_os.Capabilities.Config.{CapabilityConfig, permits}
use timmeny_admin_os.Rulebook.Types.{recommend_action, effect_kind_eq}
use timmeny_admin_os.Rulebook.Draft.{
  RuleProblem, Effect, RuleDraft, destination, permitted, files_elsewhere, check_allowed,
  check_action, check_effect_action, check_actions, check_capability, check_groups, recommends,
  breadth_problem, check_draft, named,
}

-- An action that the capability allows, filed where the capability files mail if it is filed.
pub record IsPermitted (capability : CapabilityConfig) (effect : Effect) (action : String)
    : Type 0 where
  pub kind : ActionKind
  pub known : read_action_kind action ≡ some kind
  pub allowed : permits capability kind ≡ true
  pub filed :
      (folder : String)
      → destination effect ≡ some folder
      → is_set folder ≡ true
      → elem folder capability.destinations ≡ true

permitted-known :
    (capability : CapabilityConfig) (found : Option ActionKind)
    → permitted capability found ≡ true
    → (kind : ActionKind) × (found ≡ some kind) × (permits capability kind ≡ true)
unfolding permitted
permitted-known capability none h = cc
permitted-known capability (some kind) h = (kind, refl, h)

passed : (b : Bool) (problem : RuleProblem) → refuse_if (not b) problem ≡ ok tt → b ≡ true
passed true problem h = refl
passed false problem h = cc

filed_here :
    (capability : CapabilityConfig) (found : Option String) (folder : String)
    → files_elsewhere capability found ≡ false
    → found ≡ some folder
    → is_set folder ≡ true
    → elem folder capability.destinations ≡ true
unfolding files_elsewhere
filed_here capability none folder h e set = cc
filed_here capability (some d) folder h e set = ground (arith, h, e, set)

check_allowed-IsPermitted :
    (capability : CapabilityConfig) (effect : Effect) (action : String)
    → check_allowed capability effect action ≡ ok tt
    → IsPermitted capability effect action
unfolding check_allowed
check_allowed-IsPermitted capability effect action h =
    let (allowed, filed) =
      then-ok (refuse_if (not (permitted capability (read_action_kind action))) _) _ h in
    let (kind, known, allows) =
      permitted-known capability (read_action_kind action) (passed _ _ allowed) in
    record {
      kind = kind;
      known = known;
      allowed = allows;
      filed = λ folder e set.
          filed_here capability (destination effect) folder
            (refuse_if-ok (files_elsewhere capability (destination effect)) _ filed) e set;
    }

check_action-IsPermitted :
    (capability : CapabilityConfig) (effect : Effect) (action : String)
    → is_recommendation action ≡ false
    → check_action capability effect action ≡ ok tt
    → IsPermitted capability effect action
unfolding check_action
check_action-IsPermitted capability effect action is_action h =
    check_allowed-IsPermitted capability effect action (
      else-branch (is_recommendation action) (ok tt) (check_allowed capability effect action)
        is_action h)

-- What holds of each effect that recommends an action.
AllPermitted : Option CapabilityConfig → List Effect → Type 0
AllPermitted capability effects =
    All
      (λ effect.
        recommends effect ≡ true
        → (action : String) → effect.action ≡ some action
        → is_recommendation action ≡ false
        → (c : CapabilityConfig) × (capability ≡ some c) × IsPermitted c effect action)
      effects

named-IsPermitted :
    (capability : CapabilityConfig) (effect : Effect) (found : Option String) (action : String)
    → check_effect_action capability effect found ≡ ok tt
    → found ≡ some action
    → is_recommendation action ≡ false
    → IsPermitted capability effect action
unfolding check_effect_action
named-IsPermitted capability effect none action h e is_action = cc
named-IsPermitted capability effect (some a) action h e is_action =
    let same : a ≡ action = ground (arith, e) in
    check_action-IsPermitted capability effect action is_action
      (subst (λ x. check_action capability effect x ≡ ok tt) same h)

check_actions-AllPermitted :
    (capability : CapabilityConfig) (effects : List Effect)
    → check_actions capability effects ≡ ok tt
    → AllPermitted (some capability) effects
unfolding check_actions AllPermitted
check_actions-AllPermitted capability [] h = tt
check_actions-AllPermitted capability (effect ∷ rest) h =
    let (first, others) =
      then-ok
        (if recommends effect then check_effect_action capability effect effect.action else ok tt) _
        h in
    (
      λ recommending action e is_action. (
        capability,
        refl,
        named-IsPermitted capability effect effect.action action
            (then-branch (recommends effect) (check_effect_action capability effect effect.action)
              (ok tt) recommending first)
            e is_action,
      ),
      check_actions-AllPermitted capability rest others,
    )

none_recommends :
    (capability : Option CapabilityConfig) (effects : List Effect)
    → any recommends effects ≡ false
    → AllPermitted capability effects
unfolding AllPermitted
none_recommends capability [] h = tt
none_recommends capability (effect ∷ rest) h = (
  λ recommending action e is_action. ground (arith, recommending, h),
  none_recommends capability rest (ground (arith, h)),
)

check_capability-AllPermitted :
    (key : Option String) (capability : Option CapabilityConfig) (effects : List Effect)
    → check_capability key capability effects ≡ ok tt
    → AllPermitted capability effects
unfolding check_capability
check_capability-AllPermitted none capability effects h =
    none_recommends capability effects (refuse_if-ok _ _ h)
check_capability-AllPermitted (some key) none effects h = cc
check_capability-AllPermitted (some key) (some capability) effects h =
    check_actions-AllPermitted capability effects h

-- Where `check_draft` lets a draft through, an effect of it that recommends an action does so for
-- a capability that is configured and allows that action, and files mail only in a folder of that
-- capability.
pub check_draft-IsPermitted :
    (e : Engine) (draft : RuleDraft) (capability : Option CapabilityConfig) (groups : List String)
    (effect : Effect) (action : String)
    → check_draft e draft capability groups ≡ ok tt
    → Among effect draft.effects
    → effect.kind ≡ recommend_action
    → effect.action ≡ some action
    → is_recommendation action ≡ false
    → (c : CapabilityConfig) × (capability ≡ some c) × IsPermitted c effect action
unfolding check_draft AllPermitted recommends
check_draft-IsPermitted e draft capability groups effect action h among kind named is_action =
    let (_, more) = then-ok (breadth_problem (check_breadth e draft.match)) _ h in
    let (_, more) = then-ok (check_groups groups draft.effects) _ more in
    All-Among _ effect draft.effects
      (check_capability-AllPermitted draft.capability_key capability draft.effects more) among
      (ap (λ k. effect_kind_eq k recommend_action) kind) action named is_action
