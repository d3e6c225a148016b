-- ===== src/Rulebook/Draft/Parts.antt =====
-- `Effect`, `Constraints` and the fields of `RuleDraft` of adminos/domain/rulebook.py.
use timmeny_admin_os.Common.{
  ℕ, String, Bool, true, false, not, ◌&&◌, ◌||◌, Option, none, some, List, [], ◌∷◌, ◌==◌, leb, ltb,
  is_empty, is_none, if◌then◌else◌, Result, ◌>>◌, refuse_if,
}
use timmeny_admin_os.Conditions.Tree.{Group}
use timmeny_admin_os.Capabilities.{
  ActionKind, gmail_move, kind_eq, action_kind, read_action_kind, destination_param,
}
use timmeny_admin_os.Capabilities.Config.{truthy}
use timmeny_admin_os.Rulebook.Types.{
  RuleType, EffectKind, assign_email_group, recommend_action, show_notification,
}

pub data RuleProblem : Type 0 where
  group_unnamed group_does_more action_unnamed recommendation_does_more : RuleProblem
  move_unnamed message_unset message_does_more : RuleProblem
  unknown_action : String → RuleProblem
  auto_execute_early level_early safeguard_waived level_range items_range : RuleProblem
  name_length description_length priority_range no_effects reason_length : RuleProblem
  unavailable : RuleType → RuleProblem
  wrong_effect : RuleType → EffectKind → RuleProblem
  two_effects : RuleProblem
  missing_captures : List String → RuleProblem
  too_broad : RuleProblem
  unknown_group : Option String → RuleProblem
  action_without_capability : RuleProblem
  unknown_capability : String → RuleProblem
  action_not_permitted : String → RuleProblem
  unknown_folder : String → RuleProblem

pub record Effect : Type 0 where
  pub kind : EffectKind
  pub group_key : Option String
  pub action : Option String
  pub params : List (String × String)
  pub message : Option String

-- `params.get(key)`.
abbrev pub param : String → List (String × String) → Option String
param key [] = none
param key ((k, v) ∷ rest) = if k == key then some v else param key rest

abbrev pub destination : Effect → Option String
destination effect = param destination_param effect.params

-- `self.action` of an effect whose action is set.
abbrev pub named : Option String → String
named none = ""
named (some s) = s

unfoldable pub names_move : Option ActionKind → Bool
unfolding kind_eq
names_move none = false
names_move (some k) = kind_eq k gmail_move

-- `Effect.check_shape`: one block for each kind, of which one applies.
unfoldable pub check_shape : Effect → Result RuleProblem (Unit {0})
unfolding names_move
check_shape effect = elim effect.kind [
  | assign_email_group ↦ do
    refuse_if (not (truthy effect.group_key)) group_unnamed
    refuse_if (truthy effect.action || not (is_empty effect.params) || truthy effect.message)
        group_does_more
  | recommend_action ↦ do
    refuse_if (not (truthy effect.action)) action_unnamed
    refuse_if (is_none (action_kind (named effect.action))) (unknown_action (named effect.action))
    refuse_if (truthy effect.group_key || truthy effect.message) recommendation_does_more
    refuse_if
        (names_move (read_action_kind (named effect.action)) && not (truthy (destination effect)))
        move_unnamed
  | show_notification ↦ do
    refuse_if (not (truthy effect.message)) message_unset
    refuse_if (truthy effect.action || not (is_empty effect.params) || truthy effect.group_key)
        message_does_more
]

pub record Constraints : Type 0 where
  pub auto_execute : Bool
  pub requires_decision : Bool
  pub requires_preparation : Bool
  pub requires_execution_confirmation : Bool
  pub requires_verification : Bool
  pub automation_level : ℕ
  pub maximum_items_per_run : Option ℕ

abbrev pub recommending_level : ℕ
recommending_level = 1

unfoldable pub positive_limit : Option ℕ → Bool
positive_limit none = true
positive_limit (some n) = leb 1 n

-- The field bounds of `Constraints`, then `check_nothing_is_granted_early`.
unfoldable pub check_constraints : Constraints → Result RuleProblem (Unit {0})
unfolding positive_limit
check_constraints c = do
  refuse_if (ltb 4 c.automation_level) level_range
  refuse_if (not (positive_limit c.maximum_items_per_run)) items_range
  refuse_if c.auto_execute auto_execute_early
  refuse_if (ltb recommending_level c.automation_level) level_early
  refuse_if
      (not (
        c.requires_decision && c.requires_preparation && c.requires_execution_confirmation
        && c.requires_verification))
      safeguard_waived

pub record RuleDraft : Type 0 where
  pub name : String
  pub description : String
  pub rule_type : RuleType
  pub capability_key : Option String
  pub priority : ℕ
  pub match : Group
  pub effects : List Effect
  pub constraints : Constraints
  pub positive_examples : List String
  pub negative_examples : List String
  pub change_reason : String
