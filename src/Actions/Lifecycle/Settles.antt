-- ===== src/Actions/Lifecycle/Settles.antt =====
-- How an execution of adminos/domain/actions.py ends.
use timmeny_admin_os.Common.{
  ℕ, ◌+◌, ltb, Bool, true, ◌≡◌, refl, ◌⊎◌, inl, inr, Option, none, some, arith, Bool-cases, Result,
  ok, raised, >>=-ok, then-ok,
}
use timmeny_admin_os.Capabilities.{ActionKind}
use timmeny_admin_os.Capabilities.Config.{CapabilityConfig}
use timmeny_admin_os.Actions.Rows.{
  ActionState, completed, failed, executed, Fault, gmail_error, refused, ActionError, Failure,
  not_shown, ReviewItem,
}
use timmeny_admin_os.Actions.Mail.{GmailClient}
use timmeny_admin_os.Actions.Executors.{ExecutionOutcome, VerificationOutcome, execute, verify}
use timmeny_admin_os.Actions.Lifecycle.{
  Work, read_back, after_write, write_effect, after_look, attempt, started, run_ready, ready,
  admitted, is_terminal, from_refusal, check_executable, execute_action,
}

-- An operation that has got as far as the mailbox ends in one of three ways.
abbrev Ends : {M : Type 0} → Result ActionError (Unit {0}) × Work M → Type 0
Ends (ok _, w) = (w.action.state ≡ completed) ⊎ (w.action.state ≡ failed)
Ends (raised _, w) = w.action.state ≡ executed

terminal-completed : (state : ActionState) → is_terminal state ≡ true → state ≡ completed
unfolding is_terminal
terminal-completed state h = ground arith

abbrev pub Concludes : {M : Type 0} → Work M → Result ActionError (Unit {0}) × Work M → Type 0
Concludes w (ok _, w') = (w'.action.state ≡ completed) ⊎ (w'.action.state ≡ failed)
Concludes w (raised _, w') = (w' ≡ w) ⊎ (w'.action.state ≡ executed)

Concludes-Ends :
    {M : Type 0} (w : Work M) (o : Result ActionError (Unit {0}) × Work M) → Ends o → Concludes w o
Concludes-Ends w (ok _, w') h = h
Concludes-Ends w (raised _, w') h = inr h

module _ {M : Type 0} where
  read_back-Ends :
      (missing : Failure) (now : ℕ) (w : Work M) (r : Result Fault VerificationOutcome)
      → w.action.state ≡ executed
      → Ends (read_back missing now w r)
  unfolding read_back
  read_back-Ends missing now w (raised (gmail_error e)) s = inr refl
  read_back-Ends missing now w (raised (refused r)) s = s
  read_back-Ends missing now w (ok v) s = elim (Bool-cases v.verified) [
    | inl yes_shown ↦ rw yes_shown (inl refl)
    | inr not_yet ↦ rw not_yet (inr refl)
  ]

  module _ (client : GmailClient M) (capability : CapabilityConfig) (now : ℕ) where
    after_write-Ends :
        (kind : ActionKind) (item : ReviewItem) (w : Work M) (r : Result Fault ExecutionOutcome)
        → Ends (after_write client capability now kind item w r)
    unfolding after_write
    after_write-Ends kind item w (raised f) = inr refl
    after_write-Ends kind item w (ok outcome) =
        elim (Bool-cases capability.execution.require_verification) [
          | inl wanted ↦ rw wanted (read_back-Ends not_shown now _ _ refl)
          | inr unwanted ↦ rw unwanted (inl refl)
        ]

    write_effect-Ends :
        (kind : ActionKind) (item : ReviewItem) (w : Work M)
        → Ends (write_effect client capability now kind item w)
    unfolding write_effect
    write_effect-Ends kind item w =
        let (r, m) = execute client kind w.action item w.mailbox in
        after_write-Ends kind item (record w { mailbox = m }) r

    after_look-Ends :
        (kind : ActionKind) (item : ReviewItem) (w : Work M) (r : Result Fault VerificationOutcome)
        → Ends (after_look client capability now kind item w r)
    unfolding after_look
    after_look-Ends kind item w (raised f) = inr refl
    after_look-Ends kind item w (ok already) = elim (Bool-cases already.verified) [
      | inl there ↦ rw there (inl refl)
      | inr absent ↦ rw absent (write_effect-Ends kind item w)
    ]

    attempt-Ends :
        (kind : ActionKind) (item : ReviewItem) (w : Work M)
        → Ends (attempt client capability now kind item w)
    unfolding attempt
    attempt-Ends kind item w = elim (Bool-cases (ltb 1 (w.action.attempts + 1))) [
      | inl again ↦
          let s = started client capability now w in
          let (r, m) = verify client kind s.action item s.mailbox in
          rw again (after_look-Ends kind item (record s { mailbox = m }) r)
      | inr first ↦ rw first (write_effect-Ends kind item (started client capability now w))
    ]

    run_ready-Concludes :
        (w : Work M) (r : Result ActionError (Option ReviewItem))
        → (r ≡ ok none → w.action.state ≡ completed)
        → Concludes w (run_ready client capability now w r)
    unfolding run_ready
    run_ready-Concludes w (raised e) h = inl refl
    run_ready-Concludes w (ok none) h = inl (h refl)
    run_ready-Concludes w (ok (some item)) h =
        Concludes-Ends w (attempt client capability now w.action.action_kind item w)
          (attempt-Ends w.action.action_kind item w)

    pub ready-none :
        (write_enabled : Bool) (w : Work M)
        → ready client capability now write_enabled w ≡ ok none
        → w.action.state ≡ completed
    unfolding ready
    ready-none write_enabled w h =
        let (allowed, more) = then-ok (from_refusal (check_executable capability w.action)) _ h in
        elim (Bool-cases (is_terminal w.action.state)) [
          | inl over ↦ terminal-completed w.action.state over
          | inr open_yet ↦
              let (item, admits, wrong) =
                >>=-ok (admitted client capability now write_enabled w) _ (rw open_yet at more) in
              cc
        ]

    -- An execution that returns has completed the action or recorded its failure. One that raises
    -- has changed neither a row nor the mailbox, unless it leaves the action `executed`: written to
    -- Gmail, and not read back.
    pub execute_action-Concludes :
        (write_enabled : Bool) (w : Work M)
        → Concludes w (execute_action client capability now write_enabled w)
    unfolding execute_action
    execute_action-Concludes write_enabled w =
        run_ready-Concludes w (ready client capability now write_enabled w)
          (ready-none write_enabled w)
