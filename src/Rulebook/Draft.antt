-- ===== src/Rulebook/Draft.antt =====
-- What reading a `RuleDraft` checks, and `check_draft`, of adminos/domain/rulebook.py.
mod Parts
unfoldable pub use Parts.*
mod Wording
unfoldable pub use Wording.*
pub mod OneJob
pub mod Permitted
use timmeny_admin_os.Common.{
  ℕ, String, Bool, true, false, not, ◌&&◌, ◌||◌, Option, none, some, List, [], ◌∷◌, ◌++◌, ◌==◌, any,
  all, leb, ltb, nat_eqb, len, length, elem, keep, is_empty, is_none, is_set, if◌then◌else◌, Result,
  ok, raised, ◌>>=◌, ◌>>◌, refuse_if,
}
use timmeny_admin_os.Conditions.Fields.{Engine}
use timmeny_admin_os.Conditions.Tree.{
  Test, Tests, Group, leaf, branch, nil, cons, group, check_breadth,
}
use timmeny_admin_os.Capabilities.{
  ActionKind, gmail_move, kind_eq, action_kind, is_recommendation, read_action_kind,
  destination_param,
}
use timmeny_admin_os.Capabilities.Config.{CapabilityConfig, permits, truthy}
use timmeny_admin_os.Rulebook.Types.{
  RuleType, EffectKind, assign_email_group, recommend_action, show_notification, effect_kind_eq,
  carries, available,
}

check_shapes : List Effect → Result RuleProblem (Unit {0})
unfolding check_shape
check_shapes [] = ok tt
check_shapes (effect ∷ rest) = check_shape effect >> check_shapes rest

check_kinds : RuleType → List Effect → Result RuleProblem (Unit {0})
unfolding carries
check_kinds t [] = ok tt
check_kinds t (effect ∷ rest) =
    refuse_if (not (carries t effect.kind)) (wrong_effect t effect.kind) >> check_kinds t rest

-- `{effect.kind for effect in effects}`, as the list without its repetitions.
distinct_kinds : List Effect → List EffectKind
unfolding effect_kind_eq
distinct_kinds [] = []
distinct_kinds (effect ∷ rest) =
    let kinds = distinct_kinds rest in
    if any (effect_kind_eq effect.kind) kinds then kinds else effect.kind ∷ kinds

-- `check_effects_belong_to_the_type`.
unfoldable pub check_effects_belong_to_the_type : RuleDraft → Result RuleProblem (Unit {0})
unfolding available check_kinds distinct_kinds
check_effects_belong_to_the_type draft = do
  refuse_if (not (available draft.rule_type)) (unavailable draft.rule_type)
  check_kinds draft.rule_type draft.effects
  refuse_if (not (nat_eqb (length (distinct_kinds draft.effects)) (length draft.effects)))
      two_effects

-- The field bounds of `RuleDraft`.
unfoldable pub check_fields : RuleDraft → Result RuleProblem (Unit {0})
check_fields draft = do
  refuse_if (not (leb 3 (len draft.name) && leb (len draft.name) 120)) name_length
  refuse_if (ltb 1000 (len draft.description)) description_length
  refuse_if (not (leb 1 draft.priority && leb draft.priority 1000)) priority_range
  refuse_if (is_empty draft.effects) no_effects
  refuse_if (ltb 500 (len draft.change_reason)) reason_length

placeholders : Effect → List String
placeholders effect = elim effect.message [ none ↦ [] | some message ↦ slots message ]

check_wording : List String → List Effect → Result RuleProblem (Unit {0})
unfolding placeholders
check_wording captures [] = ok tt
check_wording captures (effect ∷ rest) =
    let missing = keep (λ name. not (elem name captures)) (placeholders effect) in
    refuse_if (not (is_empty missing)) (missing_captures missing) >> check_wording captures rest

-- `CAPTURE_NAMES.findall(value)`: the names of the groups in a pattern.
module _ (capture_names : String → List String) where
  unfoldable mutual
    pub captures_of : Group → List String
    captures_of (group every either never) =
        captures_of_tests every ++ (captures_of_tests either ++ captures_of_tests never)

    pub captures_of_tests : Tests → List String
    captures_of_tests nil = []
    captures_of_tests (cons t ts) = captures_of_test t ++ captures_of_tests ts

    pub captures_of_test : Test → List String
    captures_of_test (leaf c) = capture_names c.value
    captures_of_test (branch g) = captures_of g

  -- Reading a `RuleDraft`: its fields, its parts, and its two validators.
  unfoldable pub read_draft : RuleDraft → Result RuleProblem (Unit {0})
  unfolding check_fields check_shapes check_constraints check_effects_belong_to_the_type
      check_wording
  read_draft draft = do
    check_fields draft
    check_shapes draft.effects
    check_constraints draft.constraints
    check_effects_belong_to_the_type draft
    check_wording (captures_of draft.match) draft.effects

-- `check_group` over the effects.
check_groups : List String → List Effect → Result RuleProblem (Unit {0})
unfolding effect_kind_eq
check_groups groups [] = ok tt
check_groups groups (effect ∷ rest) =
    refuse_if
      (effect_kind_eq effect.kind assign_email_group && not (elem (named effect.group_key) groups))
      (unknown_group effect.group_key)
    >> check_groups groups rest

recommends : Effect → Bool
unfolding effect_kind_eq
recommends effect = effect_kind_eq effect.kind recommend_action

permitted : CapabilityConfig → Option ActionKind → Bool
permitted capability none = false
permitted capability (some k) = permits capability k

files_elsewhere : CapabilityConfig → Option String → Bool
files_elsewhere capability none = false
files_elsewhere capability (some d) = is_set d && not (elem d capability.destinations)

-- One turn of the last loop of `check_draft`, for an action that is set.
check_allowed : CapabilityConfig → Effect → String → Result RuleProblem (Unit {0})
unfolding permitted files_elsewhere
check_allowed capability effect action = do
  refuse_if (not (permitted capability (read_action_kind action))) (action_not_permitted action)
  refuse_if (files_elsewhere capability (destination effect))
      (unknown_folder (named (destination effect)))

check_action : CapabilityConfig → Effect → String → Result RuleProblem (Unit {0})
unfolding check_allowed
check_action capability effect action =
    if is_recommendation action then ok tt else check_allowed capability effect action

check_effect_action : CapabilityConfig → Effect → Option String → Result RuleProblem (Unit {0})
unfolding check_action
check_effect_action capability effect none = ok tt
check_effect_action capability effect (some action) = check_action capability effect action

check_actions : CapabilityConfig → List Effect → Result RuleProblem (Unit {0})
unfolding recommends check_effect_action
check_actions capability [] = ok tt
check_actions capability (effect ∷ rest) =
    (if recommends effect then check_effect_action capability effect effect.action else ok tt)
    >> check_actions capability rest

check_capability :
    Option String → Option CapabilityConfig → List Effect → Result RuleProblem (Unit {0})
unfolding recommends check_actions
check_capability none capability effects =
    refuse_if (any recommends effects) action_without_capability
check_capability (some key) none effects = raised (unknown_capability key)
check_capability (some key) (some capability) effects = check_actions capability effects

breadth_problem : {A : Type 0} {E : Type 0} → Result E A → Result RuleProblem A
breadth_problem (ok a) = ok a
breadth_problem (raised problem) = raised too_broad

unfoldable pub check_draft :
    Engine → RuleDraft → Option CapabilityConfig → List String → Result RuleProblem (Unit {0})
unfolding breadth_problem check_groups check_capability
check_draft e draft capability groups = do
  breadth_problem (check_breadth e draft.match)
  check_groups groups draft.effects
  check_capability draft.capability_key capability draft.effects
