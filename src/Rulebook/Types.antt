-- ===== src/Rulebook/Types.antt =====
-- The rule types, the effects and their table in adminos/domain/rulebook.py.
use timmeny_admin_os.Common.{Bool, true, false, List, [], ◌∷◌, any}

pub data RuleType : Type 0 where
  admin_flow email_group email_classification email_recommendation : RuleType
  email_filing email_notification email_reply todo_group : RuleType
  todo_classification todo_reminder todo_next_step todo_dependency : RuleType
  todo_completion reconciliation : RuleType

unfoldable pub RuleType-discrete : Discrete RuleType
RuleType-discrete = hlevel

pub data EffectKind : Type 0 where
  assign_email_group recommend_action show_notification : EffectKind

unfoldable pub effect_kind_eq : EffectKind → EffectKind → Bool
effect_kind_eq assign_email_group assign_email_group = true
effect_kind_eq recommend_action recommend_action = true
effect_kind_eq show_notification show_notification = true
effect_kind_eq _ _ = false

pub data EffectClass : Type 0 where
  classification display recommendation : EffectClass

-- `EFFECT_CLASSES`.
unfoldable pub effect_class : EffectKind → EffectClass
effect_class assign_email_group = classification
effect_class recommend_action = recommendation
effect_class show_notification = display

-- `RULE_TYPES[rule_type].effects` and `.available`.
unfoldable pub type_effects : RuleType → List EffectKind
type_effects email_classification = assign_email_group ∷ []
type_effects email_recommendation = recommend_action ∷ []
type_effects email_notification = show_notification ∷ []
type_effects email_filing = recommend_action ∷ []
type_effects _ = []

unfoldable pub available : RuleType → Bool
available email_classification = true
available email_recommendation = true
available email_notification = true
available email_filing = true
available _ = false

-- `kind in spec.effects`.
unfoldable pub carries : RuleType → EffectKind → Bool
unfolding type_effects effect_kind_eq
carries t k = any (effect_kind_eq k) (type_effects t)
