-- ===== src/Plan/Standing.antt =====
-- `count_standing` and `review_summary` of adminos/domain/plan.py.
pub mod Counts
use timmeny_admin_os.Common.{
  ℕ, ◌+◌, String, Bool, true, false, not, ◌&&◌, ◌||◌, Option, none, some, List, [], ◌∷◌, ◌==◌,
  if◌then◌else◌, elem, keep, map, length, is_none,
}
use timmeny_admin_os.Capabilities.{
  ActionKind, gmail_label, gmail_archive, gmail_move, gmail_trash, gmail_untrash, gmail_draft_reply,
  gmail_send_draft, monday_create_task,
}
use timmeny_admin_os.Actions.Rows.{
  ActionState, approved, prepared, executed, verified, completed, failed, ItemState, pending,
  dismissed, deferred, ReviewAction, ReviewItem,
}

pub record ReviewStanding : Type 0 where
  pub decided_not_executed : ℕ
  pub prepared_awaiting_confirmation : ℕ
  pub failed_or_unverified : ℕ

unfoldable pub outstanding : ReviewStanding → ℕ
outstanding s = s.decided_not_executed + s.prepared_awaiting_confirmation + s.failed_or_unverified

-- `state in ATTEMPTED_ACTION_STATES`, and its two halves.
unfoldable pub is_prepared : ActionState → Bool
is_prepared prepared = true
is_prepared _ = false

unfoldable pub is_unfinished : ActionState → Bool
is_unfinished failed = true
is_unfinished executed = true
is_unfinished verified = true
is_unfinished _ = false

unfoldable pub is_attempted : ActionState → Bool
is_attempted prepared = true
is_attempted executed = true
is_attempted verified = true
is_attempted failed = true
is_attempted _ = false

unfoldable pub owes_decision : ItemState → Bool
owes_decision ItemState.approved = true
owes_decision ItemState.failed = true
owes_decision _ = false

-- The identities of the rows that an attempted action is for.
unfoldable pub carried : List ReviewAction → List String
unfolding is_attempted
carried actions = map (λ a. a.item_id) (keep (λ a. is_attempted a.state) actions)

unfoldable pub count_standing : List ReviewItem → List ReviewAction → ReviewStanding
unfolding carried owes_decision is_prepared is_unfinished
count_standing items actions = record {
  decided_not_executed =
      length (keep (λ i. owes_decision i.state && not (elem i.id (carried actions))) items);
  prepared_awaiting_confirmation = length (keep (λ a. is_prepared a.state) actions);
  failed_or_unverified = length (keep (λ a. is_unfinished a.state) actions);
}

-- `ACTION_NAMES`.
unfoldable pub action_name : ActionKind → String
action_name gmail_archive = "archived"
action_name gmail_move = "filed"
action_name gmail_trash = "moved_to_trash"
action_name gmail_untrash = "restored_from_trash"
action_name gmail_label = "labelled"
action_name gmail_draft_reply = "replies_drafted"
action_name gmail_send_draft = "replies_sent"
action_name monday_create_task = "tasks_created"

-- `done[name] = done.get(name, 0) + 1`.
unfoldable pub count_name : String → List (String × ℕ) → List (String × ℕ)
count_name name [] = (name, 1) ∷ []
count_name name ((key, n) ∷ done) =
    let rest = count_name name done in if key == name then (key, n + 1) ∷ done else (key, n) ∷ rest

pub is_completed : ActionState → Bool
is_completed completed = true
is_completed _ = false

unfoldable pub count_done : List ReviewAction → List (String × ℕ) → List (String × ℕ)
unfolding is_completed action_name count_name
count_done [] done = done
count_done (a ∷ actions) done =
    let after =
      if is_completed a.state then count_name (action_name a.action_kind) done else done in
    count_done actions after

pub record ReviewSummary : Type 0 where
  pub reviewed : ℕ
  pub done : List (String × ℕ)
  pub deferred : ℕ
  pub dismissed : ℕ
  pub standing : ReviewStanding
  pub rule_matched : ℕ

is_pending : ItemState → Bool
is_pending pending = true
is_pending _ = false

is_deferred : ItemState → Bool
is_deferred deferred = true
is_deferred _ = false

is_dismissed : ItemState → Bool
is_dismissed dismissed = true
is_dismissed _ = false

-- The rows and the actions are the run's own.
unfoldable pub review_summary : List ReviewItem → List ReviewAction → ReviewSummary
unfolding count_standing count_done is_pending is_deferred is_dismissed
review_summary items actions = record {
  reviewed = length (keep (λ i. not (is_pending i.state)) items);
  done = count_done actions [];
  deferred = length (keep (λ i. is_deferred i.state) items);
  dismissed = length (keep (λ i. is_dismissed i.state) items);
  standing = count_standing items actions;
  rule_matched = length (keep (λ i. not (is_none i.rule_id)) items);
}
