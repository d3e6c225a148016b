-- ===== src/Review/Rows.antt =====
-- The rows of a review besides its items (adminos/db/models.py: `ReviewRun`, `ReviewGroup`), with
-- the states of adminos/domain/review.py. Times and dates are natural numbers.
use timmeny_admin_os.Common.{
  ℕ, String, Option, none, some, List, [], ◌∷◌, ◌==◌, Bool, true, false, if◌then◌else◌,
}

pub data RunState : Type 0 where
  not_started in_progress awaiting_actions completed abandoned : RunState

pub data GroupState : Type 0 where
  pending in_progress awaiting_actions completed : GroupState

pub record ReviewRun : Type 0 where
  pub id : String
  pub review_date : ℕ
  pub channel : String
  pub scope_name : String
  pub revision : ℕ
  pub state : RunState
  pub config_version : String
  pub config_digest : String
  pub started_at : ℕ
  pub completed_at : Option ℕ
  pub abandoned_at : Option ℕ
  pub evidence_refresh_at : Option ℕ
  pub snapshot_at : Option ℕ
  pub supersedes_run_id : Option String

pub record ReviewGroup : Type 0 where
  pub id : String
  pub run_id : String
  pub capability_key : String
  pub capability_name : String
  pub policy_version : String
  pub position : ℕ
  pub state : GroupState
  pub started_at : Option ℕ
  pub completed_at : Option ℕ

unfoldable pub is_abandoned : RunState → Bool
is_abandoned abandoned = true
is_abandoned _ = false

-- `session.get(ReviewRun, id)`.
unfoldable pub find_run : String → List ReviewRun → Option ReviewRun
find_run id [] = none
find_run id (r ∷ rs) = if r.id == id then some r else find_run id rs
