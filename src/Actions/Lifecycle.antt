-- ===== src/Actions/Lifecycle.antt =====
-- `prepare_action`, `execute_action` and `verify_action` of
-- adminos/domain/actions.py, over the rows in the session and the mailbox. An exception that leaves
-- an operation comes with the state that was reached before it.
mod Checks
unfoldable pub use Checks.*
pub mod Settles
pub mod ReadBack
pub mod Keeps
pub mod Guards
pub mod Numbering
pub mod Audit
pub mod Stranded
pub mod Retry
use timmeny_admin_os.Common.{
  ℕ, suc, ◌+◌, String, Bool, true, false, not, ◌&&◌, ◌||◌, Option, none, some, List, [], ◌∷◌, ◌==◌,
  if◌then◌else◌, ltb, elem, any, num, str, Members, end, member, get, Result, ok, raised, ◌>>=◌,
  ◌>>◌, refuse_if,
}
use timmeny_admin_os.Capabilities.{
  ActionKind, gmail_move, monday_create_task, kind_eq, is_gmail, prepare_actions, execute_approved,
  destination_param,
}
use timmeny_admin_os.Capabilities.Config.{CapabilityConfig, allows, permits, may_execute}
use timmeny_admin_os.Actions.Rows.{
  ActionState, approved, prepared, executed, verified, completed, failed, ItemState,
  ActionEventKind, execution_started, adopted_existing, already_applied, verification_failed,
  Refusal, no_prepare_step, action_not_allowed, execution_not_permitted, no_executor, move_unnamed,
  not_a_destination, not_prepared, gmail_writes_disabled, no_execute_step, not_run, Fault,
  gmail_error, refused, ActionError, gmail_raised, refusal, no_item, Failure, fault,
  verification_could_not_run, not_shown, no_longer_shown, ReviewAction, ReviewItem, ActionEvent,
  find_item, set_item_state, record_event,
}
use timmeny_admin_os.Actions.Mail.{GmailClient, Run}
use timmeny_admin_os.Actions.Params.{read_text, prepare}
use timmeny_admin_os.Actions.Executors.{ExecutionOutcome, VerificationOutcome, execute, verify}

-- The action at work, with the tables and the mailbox that its operations change.
pub record Work (M : Type 0) : Type 0 where
  pub action : ReviewAction
  pub items : List ReviewItem
  pub events : List ActionEvent
  pub mailbox : M

module _ {M : Type 0} where
  abbrev pub note :
      ActionEventKind → Option Members → Option Failure → Option String → Work M → Work M
  note event detail failure external_ref w = record w {
    events = record_event w.action event detail failure external_ref w.events;
  }

  abbrev pub with_action : ReviewAction → Work M → Work M
  with_action action w = record w { action = action }

  plan_made : ℕ → Work M → Result Refusal Members → Result ActionError (Unit {0}) × Work M
  plan_made now w (raised r) = (raised (refusal r), w)
  plan_made now w (ok params) = (
    ok tt,
    note ActionEventKind.prepared (some params) none none (
        with_action
          (record w.action {
            prepared_params = some params;
            state = prepared;
            prepared_at = some now;
          })
          w),
  )

  plan_item :
      (String → String)
      → ℕ
      → Work M
      → Result ActionError ReviewItem
      → Result ActionError (Unit {0}) × Work M
  unfolding plan_made
  plan_item upper now w (raised e) = (raised e, w)
  plan_item upper now w (ok item) =
      plan_made now w (prepare upper w.action.action_kind item w.action.params)

  prepare_checked :
      (String → String)
      → ℕ
      → Work M
      → Result Refusal (Unit {0})
      → Result ActionError (Unit {0}) × Work M
  unfolding is_approved plan_item read_action_item
  prepare_checked upper now w (raised r) = (raised (refusal r), w)
  prepare_checked upper now w (ok _) =
      if is_approved w.action.state
      then plan_item upper now w (read_action_item w.action w.items)
      else (ok tt, w)

  unfoldable pub prepare_action :
      (String → String) → CapabilityConfig → ℕ → Work M → Result ActionError (Unit {0}) × Work M
  unfolding prepare_checked
  prepare_action upper capability now w =
      prepare_checked upper now w (check_executable capability w.action)

  -- `settle_verified`: verified is recorded, and completed is where the action rests.
  unfoldable pub settle_verified : VerificationOutcome → ℕ → Work M → Work M
  settle_verified v now w =
      let settled = note ActionEventKind.verified (some v.detail) none none (
        with_action
          (record w.action {
            verification = some v.detail;
            state = verified;
            verified_at = some now;
            last_error = none;
            failed_at = none;
          })
          w) in
      record settled {
        action = record settled.action { state = completed; completed_at = some now };
        items = set_item_state w.action.item_id ItemState.executed w.items;
      }

  unfoldable pub fail_action : Failure → ℕ → Work M → Work M
  fail_action error now w = note ActionEventKind.failed none (some error) none (record w {
    action = record w.action { state = failed; failed_at = some now; last_error = some error };
    items = set_item_state w.action.item_id ItemState.failed w.items;
  })

  -- What follows a reading of the effect. `missing` is the failure where it does not show.
  read_back :
      Failure
      → ℕ
      → Work M
      → Result Fault VerificationOutcome
      → Result ActionError (Unit {0}) × Work M
  unfolding settle_verified fail_action
  read_back missing now w (raised (gmail_error e)) =
      (ok tt, fail_action (verification_could_not_run e) now w)
  read_back missing now w (raised (refused r)) = (raised (refusal r), w)
  read_back missing now w (ok v) = if v.verified then (ok tt, settle_verified v now w) else (
    ok tt,
    fail_action missing now (
        let noted = note verification_failed (some v.detail) none none w in
        with_action (record noted.action { verification = some v.detail }) noted),
  )

  -- The write is made: it is recorded as `executed` before it is read back.
  abbrev pub mark_executed : ExecutionOutcome → ℕ → Work M → Work M
  mark_executed outcome now w =
      note (execution_event outcome) (some outcome.detail) none outcome.external_ref (
        with_action
          (record w.action {
            external_kind = some outcome.external_kind;
            external_ref = outcome.external_ref;
            state = executed;
            executed_at = some now;
            last_error = none;
          })
          w)

  module _ (client : GmailClient M) (capability : CapabilityConfig) (now : ℕ) where
    read_effect :
        Failure → ActionKind → ReviewItem → Work M → Result ActionError (Unit {0}) × Work M
    unfolding read_back
    read_effect missing kind item w =
        let (r, m) = verify client kind w.action item w.mailbox in
        read_back missing now (record w { mailbox = m }) r

    after_write :
        ActionKind
        → ReviewItem
        → Work M
        → Result Fault ExecutionOutcome
        → Result ActionError (Unit {0}) × Work M
    unfolding fail_action execution_event settle_verified read_effect
    after_write kind item w (raised f) = (ok tt, fail_action (fault f) now w)
    after_write kind item w (ok outcome) =
        let written = mark_executed outcome now w in
        if not capability.execution.require_verification
        then (
          ok tt,
          settle_verified
              (record { verified = true; detail = member "verification" (str "not required") end })
              now written,
        )
        else read_effect not_shown kind item written

    write_effect : ActionKind → ReviewItem → Work M → Result ActionError (Unit {0}) × Work M
    unfolding after_write
    write_effect kind item w =
        let (r, m) = execute client kind w.action item w.mailbox in
        after_write kind item (record w { mailbox = m }) r

    -- A retry looks first: what is there already is not written again.
    after_look :
        ActionKind
        → ReviewItem
        → Work M
        → Result Fault VerificationOutcome
        → Result ActionError (Unit {0}) × Work M
    unfolding fail_action settle_verified write_effect
    after_look kind item w (raised f) = (ok tt, fail_action (fault f) now w)
    after_look kind item w (ok already) =
        if already.verified
        then (
          ok tt,
          settle_verified already now (note already_applied (some already.detail) none none w),
        )
        else write_effect kind item w

    abbrev pub started : Work M → Work M
    started w =
        let tried = with_action (record w.action { attempts = w.action.attempts + 1 }) w in
        note execution_started (some (member "attempt" (num tried.action.attempts) end)) none none
          tried

    attempt : ActionKind → ReviewItem → Work M → Result ActionError (Unit {0}) × Work M
    unfolding after_look write_effect
    attempt kind item w =
        let s = started w in
        if ltb 1 s.action.attempts
        then (let (r, m) = verify client kind s.action item s.mailbox in
            after_look kind item (record s { mailbox = m }) r)
        else write_effect kind item s

    -- The guards of `execute_action`, in their order: `none` is the return of a terminal action.
    pub admitted : Bool → Work M → Result ActionError ReviewItem
    unfolding is_executable from_refusal
    admitted write_enabled w = do
      from_refusal (refuse_if (not (is_executable w.action.state)) not_prepared)
      from_refusal
          (refuse_if (is_gmail w.action.action_kind && not write_enabled) gmail_writes_disabled)
      from_refusal (refuse_if (not (allows capability.playbook execute_approved)) no_execute_step)
      read_action_item w.action w.items

    pub ready_item : Bool → Work M → Result ActionError (Option ReviewItem)
    unfolding is_terminal admitted
    ready_item write_enabled w =
        if is_terminal w.action.state
        then ok none
        else (do item ← admitted write_enabled w; ok (some item))

    unfoldable pub ready : Bool → Work M → Result ActionError (Option ReviewItem)
    unfolding ready_item from_refusal
    ready write_enabled w = do
      from_refusal (check_executable capability w.action)
      ready_item write_enabled w

    run_ready :
        Work M → Result ActionError (Option ReviewItem) → Result ActionError (Unit {0}) × Work M
    unfolding attempt
    run_ready w (raised e) = (raised e, w)
    run_ready w (ok none) = (ok tt, w)
    run_ready w (ok (some item)) = attempt w.action.action_kind item w

    unfoldable pub execute_action : Bool → Work M → Result ActionError (Unit {0}) × Work M
    unfolding ready run_ready
    execute_action write_enabled w = run_ready w (ready write_enabled w)

    -- `verify_action`: it writes no mail, and asks no permission.
    verifiable : Work M → Result ActionError ReviewItem
    unfolding never_ran from_refusal
    verifiable w = do
      from_refusal (refuse_if (not (has_executor w.action.action_kind)) no_executor)
      from_refusal (refuse_if (never_ran w.action.state) not_run)
      read_action_item w.action w.items

    verify_ready : Work M → Result ActionError ReviewItem → Result ActionError (Unit {0}) × Work M
    unfolding read_effect
    verify_ready w (raised e) = (raised e, w)
    verify_ready w (ok item) = read_effect no_longer_shown w.action.action_kind item w

    unfoldable pub verify_action : Work M → Result ActionError (Unit {0}) × Work M
    unfolding verifiable verify_ready
    verify_action w = verify_ready w (verifiable w)
