-- ===== src/Actions/Lifecycle/Guards.antt =====
-- The gates in front of an execution of adminos/domain/actions.py.
use timmeny_admin_os.Common.{
  ℕ, Bool, true, false, not, ◌&&◌, ◌≡◌, ◌≢◌, refl, ap, ◌∙◌, ◌⊎◌, Option, none, some, arith,
  Bool-cases, inl, inr, Result, ok, raised, >>=-ok, then-ok, ok-some-injective, refuse_if,
  refuse_if-ok,
}
use timmeny_admin_os.Capabilities.{
  ActionKind, gmail_move, kind_eq, is_gmail, prepare_actions, execute_approved,
}
use timmeny_admin_os.Capabilities.Config.{CapabilityConfig, allows, permits, may_execute}
use timmeny_admin_os.Actions.Rows.{
  ActionState, prepared, executed, failed, Refusal, ActionError, ReviewAction, ReviewItem,
  find_item,
}
use timmeny_admin_os.Actions.Mail.{GmailClient}
use timmeny_admin_os.Actions.Lifecycle.{
  Work, has_executor, check_move_destination, check_executable, from_refusal, is_terminal,
  is_executable, admitted, ready_item, ready, run_ready, read_action_item, read_item,
  execute_action,
}

-- The grants that an execution needs at the moment it runs.
pub record IsGranted {M : Type 0} (capability : CapabilityConfig) (write_enabled : Bool)
    (w : Work M) : Type 0 where
  pub prepares : allows capability.playbook prepare_actions ≡ true
  pub permitted : permits capability w.action.action_kind ≡ true
  pub executable : may_execute capability w.action.action_kind ≡ true
  pub writes : write_enabled ≡ true
  pub executes : allows capability.playbook execute_approved ≡ true
  pub was_prepared :
      (w.action.state ≡ prepared) ⊎ (w.action.state ≡ executed) ⊎ (w.action.state ≡ failed)
  pub sanctioned :
      kind_eq w.action.action_kind gmail_move ≡ true
      → check_move_destination capability w.action ≡ ok tt

from_refusal-ok : (r : Result Refusal (Unit {0})) → from_refusal r ≡ ok tt → r ≡ ok tt
unfolding from_refusal
from_refusal-ok (ok tt) h = refl
from_refusal-ok (raised e) h = cc

passed : (b : Bool) (r : Refusal) → refuse_if (not b) r ≡ ok tt → b ≡ true
passed true r h = refl
passed false r h = cc

-- What `check_executable` lets through.
record IsAllowed (capability : CapabilityConfig) (action : ReviewAction) : Type 0 where
  prepares : allows capability.playbook prepare_actions ≡ true
  permitted : permits capability action.action_kind ≡ true
  executable : may_execute capability action.action_kind ≡ true
  runs : has_executor action.action_kind ≡ true
  sanctioned :
      kind_eq action.action_kind gmail_move ≡ true
      → check_move_destination capability action ≡ ok tt

check_executable-IsAllowed :
    (capability : CapabilityConfig) (action : ReviewAction)
    → check_executable capability action ≡ ok tt
    → IsAllowed capability action
unfolding check_executable
check_executable-IsAllowed capability action h =
    let (prepares, more) =
      then-ok (refuse_if (not (allows capability.playbook prepare_actions)) _) _ h in
    let (permitted, more) =
      then-ok (refuse_if (not (permits capability action.action_kind)) _) _ more in
    let (executable, more) =
      then-ok (refuse_if (not (may_execute capability action.action_kind)) _) _ more in
    let (runs, sanctioned) = then-ok (refuse_if (not (has_executor action.action_kind)) _) _ more in
    record {
      prepares = passed _ _ prepares;
      permitted = passed _ _ permitted;
      executable = passed _ _ executable;
      runs = passed _ _ runs;
      sanctioned = λ is_move. rw is_move at sanctioned;
    }

executor-gmail : (k : ActionKind) → has_executor k ≡ true → is_gmail k ≡ true
unfolding has_executor is_gmail
executor-gmail k h = ground arith

read_item-ok : (o : Option ReviewItem) (item : ReviewItem) → read_item o ≡ ok item → o ≡ some item
unfolding read_item
read_item-ok none item h = cc
read_item-ok (some i) item h = ground arith

resting :
    (state : ActionState)
    → is_executable state ≡ true
    → (state ≡ prepared) ⊎ (state ≡ executed) ⊎ (state ≡ failed)
unfolding is_executable
resting state h = ground arith

module _ {M : Type 0} (client : GmailClient M) (capability : CapabilityConfig) (now : ℕ) where
  pub ready-some :
      (write_enabled : Bool) (w : Work M) (item : ReviewItem)
      → ready client capability now write_enabled w ≡ ok (some item)
      → IsGranted capability write_enabled w × (find_item w.action.item_id w.items ≡ some item)
  unfolding ready ready_item admitted read_action_item
  ready-some write_enabled w item h =
      let (allowed, more) = then-ok (from_refusal (check_executable capability w.action)) _ h in
      let a = check_executable-IsAllowed capability w.action (from_refusal-ok _ allowed) in
      elim (Bool-cases (is_terminal w.action.state)) [
        | inl over ↦ let wrong = rw over at more in cc
        | inr open_yet ↦
            let (found, admits, same) =
              >>=-ok (admitted client capability now write_enabled w) _ (rw open_yet at more) in
            let (state, more) =
              then-ok (from_refusal (refuse_if (not (is_executable w.action.state)) _)) _ admits in
            let (switch, more) =
              then-ok
                (from_refusal (refuse_if (is_gmail w.action.action_kind && not write_enabled) _)) _
                more in
            let (executes, reads) =
              then-ok
                (from_refusal (refuse_if (not (allows capability.playbook execute_approved)) _)) _
                more in
            let off : (is_gmail w.action.action_kind && not write_enabled) ≡ false =
              refuse_if-ok _ _ (from_refusal-ok _ switch) in
            let gmail = executor-gmail w.action.action_kind a.runs in
            (
              record {
                prepares = a.prepares;
                permitted = a.permitted;
                executable = a.executable;
                writes = ground arith;
                executes = passed _ _ (from_refusal-ok _ executes);
                was_prepared = resting w.action.state (passed _ _ (from_refusal-ok _ state));
                sanctioned = a.sanctioned;
              },
              read_item-ok _ item (reads ∙ ap ok (ok-some-injective same)),
            )
      ]

  run_ready_grants :
      (write_enabled : Bool) (w : Work M) (r : Result ActionError (Option ReviewItem))
      → ready client capability now write_enabled w ≡ r
      → (run_ready client capability now w r).1 ≢ w
      → IsGranted capability write_enabled w
  unfolding run_ready
  run_ready_grants write_enabled w (raised e) h changed = absurd (changed refl)
  run_ready_grants write_enabled w (ok none) h changed = absurd (changed refl)
  run_ready_grants write_enabled w (ok (some item)) h changed =
      (ready-some write_enabled w item h).0

  -- An execution changes a row or the mailbox only if, at that moment, the capability's playbook
  -- prepares and executes actions, the capability permits this action and may execute it, Gmail
  -- writes are switched on, the action was prepared and is not completed, and a move names a folder
  -- that the capability still files mail in.
  pub execution_needs_grants :
      (write_enabled : Bool) (w : Work M)
      → (execute_action client capability now write_enabled w).1 ≢ w
      → IsGranted capability write_enabled w
  unfolding execute_action
  execution_needs_grants write_enabled w changed =
      run_ready_grants write_enabled w (ready client capability now write_enabled w) refl changed
