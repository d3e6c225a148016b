-- ===== src/Actions/Lifecycle/Keeps.antt =====
-- What preparing and executing an action (adminos/domain/actions.py) leave as it was approved.
use timmeny_admin_os.Common.{
  String, Bool, ltb, ◌+◌, ℕ, ◌≡◌, refl, Option, none, some, Bool-cases, inl, inr, Members, Result,
  ok, raised,
}
use timmeny_admin_os.Capabilities.{ActionKind}
use timmeny_admin_os.Capabilities.Config.{CapabilityConfig}
use timmeny_admin_os.Actions.Rows.{
  Refusal, Fault, gmail_error, refused, ActionError, Failure, ReviewAction, ReviewItem, not_shown,
}
use timmeny_admin_os.Actions.Mail.{GmailClient}
use timmeny_admin_os.Actions.Executors.{ExecutionOutcome, VerificationOutcome, execute, verify}
use timmeny_admin_os.Actions.Params.{prepare}
use timmeny_admin_os.Actions.Lifecycle.{
  Work, is_approved, plan_made, plan_item, prepare_checked, prepare_action, settle_verified,
  fail_action, read_back, read_effect, after_write, write_effect, after_look, attempt, started,
  run_ready, execute_action,
}

-- The columns that say what was approved, for which item and by whom.
pub record Approved : Type 0 where
  pub id : String
  pub run_id : String
  pub item_id : String
  pub capability_key : String
  pub action_kind : ActionKind
  pub params : Members
  pub idempotency_key : String
  pub target_thread_id : String
  pub approved_by : String

abbrev pub as_approved : ReviewAction → Approved
as_approved a = record {
  id = a.id;
  run_id = a.run_id;
  item_id = a.item_id;
  capability_key = a.capability_key;
  action_kind = a.action_kind;
  params = a.params;
  idempotency_key = a.idempotency_key;
  target_thread_id = a.target_thread_id;
  approved_by = a.approved_by;
}

abbrev pub Keeps : {M : Type 0} → Work M → Work M → Type 0
Keeps w w' = as_approved w'.action ≡ as_approved w.action

module _ {M : Type 0} where
  read_back-Keeps :
      (missing : Failure) (now : ℕ) (w : Work M) (r : Result Fault VerificationOutcome)
      → Keeps w (read_back missing now w r).1
  unfolding read_back fail_action settle_verified
  read_back-Keeps missing now w (raised (gmail_error e)) = refl
  read_back-Keeps missing now w (raised (refused r)) = refl
  read_back-Keeps missing now w (ok v) = elim (Bool-cases v.verified) [
    | inl there ↦ rw there refl
    | inr absent ↦ rw absent refl
  ]

  plan_made-Keeps :
      (now : ℕ) (w : Work M) (r : Result Refusal Members) → Keeps w (plan_made now w r).1
  unfolding plan_made
  plan_made-Keeps now w (raised r) = refl
  plan_made-Keeps now w (ok params) = refl

  module _ (upper : String → String) (now : ℕ) where
    plan_item-Keeps :
        (w : Work M) (r : Result ActionError ReviewItem) → Keeps w (plan_item upper now w r).1
    unfolding plan_item
    plan_item-Keeps w (raised e) = refl
    plan_item-Keeps w (ok item) = plan_made-Keeps now w _

    prepare_checked-Keeps :
        (w : Work M) (r : Result Refusal (Unit {0})) → Keeps w (prepare_checked upper now w r).1
    unfolding prepare_checked
    prepare_checked-Keeps w (raised r) = refl
    prepare_checked-Keeps w (ok _) = elim (Bool-cases (is_approved w.action.state)) [
      | inl wanted ↦ rw wanted (plan_item-Keeps w _)
      | inr made ↦ rw made refl
    ]

    pub prepare_action-Keeps :
        (capability : CapabilityConfig) (w : Work M)
        → Keeps w (prepare_action upper capability now w).1
    unfolding prepare_action
    prepare_action-Keeps capability w = prepare_checked-Keeps w _

    plan_item_mailbox :
        (w : Work M) (r : Result ActionError ReviewItem)
        → (plan_item upper now w r).1.mailbox ≡ w.mailbox
    unfolding plan_item plan_made
    plan_item_mailbox w (raised e) = refl
    plan_item_mailbox w (ok item) =
        elim (prepare upper w.action.action_kind item w.action.params)
          as (λ r. (plan_made now w r).1.mailbox ≡ w.mailbox) [ raised r ↦ refl | ok params ↦ refl ]

    prepare_checked_mailbox :
        (w : Work M) (r : Result Refusal (Unit {0}))
        → (prepare_checked upper now w r).1.mailbox ≡ w.mailbox
    unfolding prepare_checked
    prepare_checked_mailbox w (raised r) = refl
    prepare_checked_mailbox w (ok _) = elim (Bool-cases (is_approved w.action.state)) [
      | inl wanted ↦ rw wanted (plan_item_mailbox w _)
      | inr made ↦ rw made refl
    ]

    -- Preparing an action asks nothing of the mailbox.
    pub prepare_action_mailbox :
        (capability : CapabilityConfig) (w : Work M)
        → (prepare_action upper capability now w).1.mailbox ≡ w.mailbox
    unfolding prepare_action
    prepare_action_mailbox capability w = prepare_checked_mailbox w _

  module _ (client : GmailClient M) (capability : CapabilityConfig) (now : ℕ) where
    after_write-Keeps :
        (kind : ActionKind) (item : ReviewItem) (w : Work M) (r : Result Fault ExecutionOutcome)
        → Keeps w (after_write client capability now kind item w r).1
    unfolding after_write settle_verified fail_action read_effect
    after_write-Keeps kind item w (raised f) = refl
    after_write-Keeps kind item w (ok outcome) =
        elim (Bool-cases capability.execution.require_verification) [
          | inl wanted ↦ rw wanted (read_back-Keeps not_shown now _ _)
          | inr unwanted ↦ rw unwanted refl
        ]

    write_effect-Keeps :
        (kind : ActionKind) (item : ReviewItem) (w : Work M)
        → Keeps w (write_effect client capability now kind item w).1
    unfolding write_effect
    write_effect-Keeps kind item w =
        let (_, m) = execute client kind w.action item w.mailbox in
        after_write-Keeps kind item (record w { mailbox = m }) _

    after_look-Keeps :
        (kind : ActionKind) (item : ReviewItem) (w : Work M) (r : Result Fault VerificationOutcome)
        → Keeps w (after_look client capability now kind item w r).1
    unfolding after_look settle_verified fail_action
    after_look-Keeps kind item w (raised f) = refl
    after_look-Keeps kind item w (ok already) = elim (Bool-cases already.verified) [
      | inl there ↦ rw there refl
      | inr absent ↦ rw absent (write_effect-Keeps kind item w)
    ]

    attempt-Keeps :
        (kind : ActionKind) (item : ReviewItem) (w : Work M)
        → Keeps w (attempt client capability now kind item w).1
    unfolding attempt
    attempt-Keeps kind item w =
        let s = started client capability now w in
        elim (Bool-cases (ltb 1 (w.action.attempts + 1))) [
          | inl again ↦
              let (_, m) = verify client kind s.action item s.mailbox in
              rw again (after_look-Keeps kind item (record s { mailbox = m }) _)
          | inr first ↦ rw first (write_effect-Keeps kind item s)
        ]

    run_ready-Keeps :
        (w : Work M) (r : Result ActionError (Option ReviewItem))
        → Keeps w (run_ready client capability now w r).1
    unfolding run_ready
    run_ready-Keeps w (raised e) = refl
    run_ready-Keeps w (ok none) = refl
    run_ready-Keeps w (ok (some item)) = attempt-Keeps w.action.action_kind item w

    pub execute_action-Keeps :
        (write_enabled : Bool) (w : Work M)
        → Keeps w (execute_action client capability now write_enabled w).1
    unfolding execute_action
    execute_action-Keeps write_enabled w = run_ready-Keeps w _
