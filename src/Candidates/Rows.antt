-- ===== src/Candidates/Rows.antt =====
-- The learned rules (adminos/db/models.py: `CandidateRule`), their states and which may follow which
-- (adminos/domain/rules.py).
use timmeny_admin_os.Common.{
  ℕ, String, Bool, true, false, Option, List, [], ◌∷◌, ◌==◌, if◌then◌else◌, Members,
}
use timmeny_admin_os.Capabilities.{ActionKind}
use timmeny_admin_os.Capabilities.Config.{MatchRule}

pub data RuleState : Type 0 where
  observed proposed confirmed automatable retired : RuleState

pub record CandidateRule : Type 0 where
  pub id : String
  pub capability_key : String
  pub state : RuleState
  pub match_conditions : Members
  pub action : ActionKind
  pub action_params : Option Members
  pub rationale : String
  pub confidence : ℕ
  pub observed_count : ℕ
  pub source : String
  pub policy_version : String
  pub proposed_by : Option String
  pub proposed_at : Option ℕ
  pub confirmed_by : Option String
  pub confirmed_at : Option ℕ
  pub automatable_at : Option ℕ
  pub retired_at : Option ℕ
  pub retired_reason : Option String

pub record LearnedRule : Type 0 where
  pub id : String
  pub capability_key : String
  pub match : MatchRule
  pub action : ActionKind
  pub confidence : ℕ
  pub rationale : String
  pub automatable : Bool
  pub params : Members

-- `state in ACTIVE_RULE_STATES`.
unfoldable pub is_active : RuleState → Bool
is_active confirmed = true
is_active automatable = true
is_active _ = false

unfoldable pub is_automatable : RuleState → Bool
is_automatable automatable = true
is_automatable _ = false

unfoldable pub is_retired : RuleState → Bool
is_retired retired = true
is_retired _ = false

unfoldable pub is_observed : RuleState → Bool
is_observed observed = true
is_observed _ = false

unfoldable pub is_proposed : RuleState → Bool
is_proposed proposed = true
is_proposed _ = false

-- `target in TRANSITIONS[current]`.
unfoldable pub may_become : RuleState → RuleState → Bool
may_become observed proposed = true
may_become observed retired = true
may_become proposed confirmed = true
may_become proposed retired = true
may_become confirmed automatable = true
may_become confirmed retired = true
may_become automatable confirmed = true
may_become automatable retired = true
may_become _ _ = false

-- The writes to the columns of a row that was read.
unfoldable pub save_rule : CandidateRule → List CandidateRule → List CandidateRule
save_rule rule [] = []
save_rule rule (r ∷ rest) =
    let others = save_rule rule rest in if r.id == rule.id then rule ∷ rest else r ∷ others
