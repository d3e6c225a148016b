-- ===== src/Actions/Lifecycle/Audit.antt =====
-- The audit history that the operations of adminos/domain/actions.py write.
use timmeny_admin_os.Common.{
  String, Bool, ltb, ◌+◌, ℕ, Option, none, some, Bool-cases, inl, inr, Members, Result, ok, raised,
}
use timmeny_admin_os.Capabilities.{ActionKind}
use timmeny_admin_os.Capabilities.Config.{CapabilityConfig}
use timmeny_admin_os.Actions.Rows.{
  Refusal, Fault, gmail_error, refused, ActionError, Failure, ReviewItem, not_shown,
  no_longer_shown,
}
use timmeny_admin_os.Actions.Mail.{GmailClient}
use timmeny_admin_os.Actions.Executors.{ExecutionOutcome, VerificationOutcome, execute, verify}
use timmeny_admin_os.Actions.Lifecycle.{
  Work, is_approved, plan_made, plan_item, prepare_checked, prepare_action, settle_verified,
  fail_action, read_back, read_effect, after_write, write_effect, after_look, attempt, started,
  run_ready, ready, execute_action, verify_action, verify_ready, verifiable, check_executable,
}
use timmeny_admin_os.Actions.Lifecycle.Numbering.{IsNumbered, record_event-IsNumbered}

module _ {M : Type 0} where
  settle_verified-IsNumbered :
      (v : VerificationOutcome) (now : ℕ) (w : Work M)
      → IsNumbered w.events
      → IsNumbered (settle_verified v now w).events
  unfolding settle_verified
  settle_verified-IsNumbered v now w h = record_event-IsNumbered _ _ _ _ _ _ h

  fail_action-IsNumbered :
      (error : Failure) (now : ℕ) (w : Work M)
      → IsNumbered w.events
      → IsNumbered (fail_action error now w).events
  unfolding fail_action
  fail_action-IsNumbered error now w h = record_event-IsNumbered _ _ _ _ _ _ h

  read_back-IsNumbered :
      (missing : Failure) (now : ℕ) (w : Work M) (r : Result Fault VerificationOutcome)
      → IsNumbered w.events
      → IsNumbered (read_back missing now w r).1.events
  unfolding read_back fail_action
  read_back-IsNumbered missing now w (raised (gmail_error e)) h = fail_action-IsNumbered _ now w h
  read_back-IsNumbered missing now w (raised (refused r)) h = h
  read_back-IsNumbered missing now w (ok v) h = elim (Bool-cases v.verified) [
    | inl there ↦ rw there (settle_verified-IsNumbered v now w h)
    | inr absent ↦
        rw absent (record_event-IsNumbered _ _ _ _ _ _ (record_event-IsNumbered _ _ _ _ _ _ h))
  ]

  module _ (client : GmailClient M) (capability : CapabilityConfig) (now : ℕ) where
    after_write-IsNumbered :
        (kind : ActionKind) (item : ReviewItem) (w : Work M) (r : Result Fault ExecutionOutcome)
        → IsNumbered w.events
        → IsNumbered (after_write client capability now kind item w r).1.events
    unfolding after_write settle_verified
    after_write-IsNumbered kind item w (raised f) h = fail_action-IsNumbered _ now w h
    after_write-IsNumbered kind item w (ok outcome) h =
        let written = record_event-IsNumbered _ _ _ _ _ _ h in
        elim (Bool-cases capability.execution.require_verification) [
          | inl wanted ↦ rw wanted (read_back-IsNumbered not_shown now _ _ written)
          | inr unwanted ↦ rw unwanted (record_event-IsNumbered _ _ _ _ _ _ written)
        ]

    write_effect-IsNumbered :
        (kind : ActionKind) (item : ReviewItem) (w : Work M)
        → IsNumbered w.events
        → IsNumbered (write_effect client capability now kind item w).1.events
    unfolding write_effect
    write_effect-IsNumbered kind item w h =
        let (_, m) = execute client kind w.action item w.mailbox in
        after_write-IsNumbered kind item (record w { mailbox = m }) _ h

    after_look-IsNumbered :
        (kind : ActionKind) (item : ReviewItem) (w : Work M) (r : Result Fault VerificationOutcome)
        → IsNumbered w.events
        → IsNumbered (after_look client capability now kind item w r).1.events
    unfolding after_look settle_verified
    after_look-IsNumbered kind item w (raised f) h = fail_action-IsNumbered _ now w h
    after_look-IsNumbered kind item w (ok already) h = elim (Bool-cases already.verified) [
      | inl there ↦
          rw there (record_event-IsNumbered _ _ _ _ _ _ (record_event-IsNumbered _ _ _ _ _ _ h))
      | inr absent ↦ rw absent (write_effect-IsNumbered kind item w h)
    ]

    attempt-IsNumbered :
        (kind : ActionKind) (item : ReviewItem) (w : Work M)
        → IsNumbered w.events
        → IsNumbered (attempt client capability now kind item w).1.events
    unfolding attempt
    attempt-IsNumbered kind item w h =
        let begun = record_event-IsNumbered _ _ _ _ _ _ h in
        elim (Bool-cases (ltb 1 (w.action.attempts + 1))) [
          | inl again ↦ rw again (
              after_look-IsNumbered kind item
                (record (started client capability now w) {
                  mailbox =
                      (verify client kind (started client capability now w).action item
                        w.mailbox).1;
                })
                _ begun)
          | inr first ↦
              rw first (write_effect-IsNumbered kind item (started client capability now w) begun)
        ]

    run_ready-IsNumbered :
        (w : Work M) (r : Result ActionError (Option ReviewItem))
        → IsNumbered w.events
        → IsNumbered (run_ready client capability now w r).1.events
    unfolding run_ready
    run_ready-IsNumbered w (raised e) h = h
    run_ready-IsNumbered w (ok none) h = h
    run_ready-IsNumbered w (ok (some item)) h = attempt-IsNumbered w.action.action_kind item w h

    verify_ready-IsNumbered :
        (w : Work M) (r : Result ActionError ReviewItem)
        → IsNumbered w.events
        → IsNumbered (verify_ready client capability now w r).1.events
    unfolding verify_ready read_effect
    verify_ready-IsNumbered w (raised e) h = h
    verify_ready-IsNumbered w (ok item) h = read_back-IsNumbered no_longer_shown now _ _ h

    plan_made-IsNumbered :
        (w : Work M) (r : Result Refusal Members)
        → IsNumbered w.events
        → IsNumbered (plan_made now w r).1.events
    unfolding plan_made
    plan_made-IsNumbered w (raised r) h = h
    plan_made-IsNumbered w (ok params) h = record_event-IsNumbered _ _ _ _ _ _ h

    plan_item-IsNumbered :
        (upper : String → String) (w : Work M) (r : Result ActionError ReviewItem)
        → IsNumbered w.events
        → IsNumbered (plan_item upper now w r).1.events
    unfolding plan_item
    plan_item-IsNumbered upper w (raised e) h = h
    plan_item-IsNumbered upper w (ok item) h = plan_made-IsNumbered w _ h

    prepare_checked-IsNumbered :
        (upper : String → String) (w : Work M) (r : Result Refusal (Unit {0}))
        → IsNumbered w.events
        → IsNumbered (prepare_checked upper now w r).1.events
    unfolding prepare_checked
    prepare_checked-IsNumbered upper w (raised r) h = h
    prepare_checked-IsNumbered upper w (ok _) h = elim (Bool-cases (is_approved w.action.state)) [
      | inl waiting ↦ rw waiting (plan_item-IsNumbered upper w _ h)
      | inr other ↦ rw other h
    ]

    -- Preparing, executing and verifying an action, however they end, keep the events of every
    -- action numbered 1, 2, 3, … in the order in which they were recorded.
    pub operations-IsNumbered :
        (upper : String → String) (write_enabled : Bool) (w : Work M)
        → IsNumbered w.events
        → IsNumbered (prepare_action upper capability now w).1.events
          × IsNumbered (execute_action client capability now write_enabled w).1.events
          × IsNumbered (verify_action client capability now w).1.events
    unfolding prepare_action execute_action verify_action
    operations-IsNumbered upper write_enabled w h = (
      prepare_checked-IsNumbered upper w (check_executable capability w.action) h,
      run_ready-IsNumbered w (ready client capability now write_enabled w) h,
      verify_ready-IsNumbered w (verifiable client capability now w) h,
    )
