-- ===== src/Actions/Lifecycle/Retry.antt =====
-- Retrying and re-verifying an action of adminos/domain/actions.py.
use timmeny_admin_os.Common.{
  ℕ, ◌+◌, ◌<◌, ltb, Bool, true, ◌≡◌, refl, ap, ◌∙◌, Option, none, some, arith, Result, ok, raised,
}
use timmeny_admin_os.Capabilities.{ActionKind, gmail_label}
use timmeny_admin_os.Capabilities.Config.{CapabilityConfig}
use timmeny_admin_os.Actions.Rows.{
  completed, Fault, gmail_error, refused, ReviewItem, Failure, ActionError, find_item,
}
use timmeny_admin_os.Actions.Mail.{GmailClient}
use timmeny_admin_os.Actions.Executors.{VerificationOutcome, verify}
use timmeny_admin_os.Actions.Executors.ReadOnly.{IsReadOnly, verify-Leaves}
use timmeny_admin_os.Actions.Lifecycle.{
  Work, ready, run_ready, started, attempt, after_look, read_effect, read_back, execute_action,
  verify_action, verify_ready, verifiable,
}
use timmeny_admin_os.Actions.Lifecycle.Settles.{ready-none}
use timmeny_admin_os.Actions.Lifecycle.Guards.{ready-some}

module _ {M : Type 0} (client : GmailClient M) (capability : CapabilityConfig) (now : ℕ) where
  -- Reading back does not depend on how often the action was attempted.
  verify-started :
      (kind : ActionKind) (w : Work M) (item : ReviewItem)
      → verify client kind (started client capability now w).action item w.mailbox
        ≡ verify client kind w.action item w.mailbox
  unfolding verify
  verify-started gmail_label w item = refl
  verify-started _ w item = refl

  after_look_there :
      (kind : ActionKind) (item : ReviewItem) (w : Work M) (r : Result Fault VerificationOutcome)
      (seen : VerificationOutcome)
      → r ≡ ok seen
      → seen.verified ≡ true
      → ((after_look client capability now kind item w r).1.mailbox ≡ w.mailbox)
        × ((after_look client capability now kind item w r).1.action.state ≡ completed)
  unfolding after_look
  after_look_there kind item w r seen e there = rw (e, there) (refl, refl)

  attempt_again :
      (kind : ActionKind) (item : ReviewItem) (w : Work M) (seen : VerificationOutcome)
      → IsReadOnly client
      → 0 < w.action.attempts
      → (verify client kind w.action item w.mailbox).0 ≡ ok seen
      → seen.verified ≡ true
      → ((attempt client capability now kind item w).1.mailbox ≡ w.mailbox)
        × ((attempt client capability now kind item w).1.action.state ≡ completed)
  unfolding attempt
  attempt_again kind item w seen reads tried e there =
      let again : ltb 1 (w.action.attempts + 1) ≡ true = ground arith in
      let s = started client capability now w in
      let m = (verify client kind s.action item w.mailbox).1 in
      let same =
        ap (λ (o : Result Fault VerificationOutcome × M). o.0) (verify-started kind w item) in
      let (kept, done) =
        after_look_there kind item (record s { mailbox = m })
          (verify client kind s.action item w.mailbox).0 seen (same ∙ e) there in
      rw again (kept ∙ (verify-Leaves client reads kind s.action item).at w.mailbox, done)

  run_ready_again :
      (write_enabled : Bool) (w : Work M) (item : ReviewItem) (seen : VerificationOutcome)
      (r : Result ActionError (Option ReviewItem))
      → ready client capability now write_enabled w ≡ r
      → IsReadOnly client
      → 0 < w.action.attempts
      → find_item w.action.item_id w.items ≡ some item
      → (verify client w.action.action_kind w.action item w.mailbox).0 ≡ ok seen
      → seen.verified ≡ true
      → ((run_ready client capability now w r).1.mailbox ≡ w.mailbox)
        × ((run_ready client capability now w r).0 ≡ ok tt
            → (run_ready client capability now w r).1.action.state ≡ completed)
  unfolding run_ready
  run_ready_again write_enabled w item seen (raised x) h reads tried f e there = (refl, λ p. cc)
  run_ready_again write_enabled w item seen (ok none) h reads tried f e there =
      (refl, λ p. ready-none client capability now write_enabled w h)
  run_ready_again write_enabled w item seen (ok (some found)) h reads tried f e there =
      let same : found ≡ item =
        ground (arith, (ready-some client capability now write_enabled w found h).1) in
      let (kept, done) = attempt_again w.action.action_kind item w seen reads tried e there in
      rw same (kept, λ p. done)

  -- Retrying is safe: where an action was attempted before and its effect shows in the mailbox, an
  -- execution leaves the mailbox as it is, and if it returns the action is completed. Gmail's reads
  -- are taken to change nothing.
  pub retry_writes_nothing :
      (write_enabled : Bool) (w : Work M) (item : ReviewItem) (seen : VerificationOutcome)
      → IsReadOnly client
      → 0 < w.action.attempts
      → find_item w.action.item_id w.items ≡ some item
      → (verify client w.action.action_kind w.action item w.mailbox).0 ≡ ok seen
      → seen.verified ≡ true
      → ((execute_action client capability now write_enabled w).1.mailbox ≡ w.mailbox)
        × ((execute_action client capability now write_enabled w).0 ≡ ok tt
            → (execute_action client capability now write_enabled w).1.action.state ≡ completed)
  unfolding execute_action
  retry_writes_nothing write_enabled w item seen =
      run_ready_again write_enabled w item seen (ready client capability now write_enabled w) refl

  read_back_mailbox :
      (missing : Failure) (w : Work M) (r : Result Fault VerificationOutcome)
      → (read_back missing now w r).1.mailbox ≡ w.mailbox
  unfolding read_back
  read_back_mailbox missing w (raised (gmail_error e)) = refl
  read_back_mailbox missing w (raised (refused r)) = refl
  read_back_mailbox missing w (ok seen) = ground arith

  verify_ready_mailbox :
      (w : Work M) (r : Result ActionError ReviewItem)
      → IsReadOnly client
      → (verify_ready client capability now w r).1.mailbox ≡ w.mailbox
  unfolding verify_ready read_effect
  verify_ready_mailbox w (raised e) reads = refl
  verify_ready_mailbox w (ok item) reads =
      let (r, m) = verify client w.action.action_kind w.action item w.mailbox in
      read_back_mailbox _ (record w { mailbox = m }) r
      ∙ (verify-Leaves client reads w.action.action_kind w.action item).at w.mailbox

  -- Verifying an action again never writes to the mailbox, whatever it finds.
  pub verify_action_mailbox :
      (w : Work M)
      → IsReadOnly client
      → (verify_action client capability now w).1.mailbox ≡ w.mailbox
  unfolding verify_action
  verify_action_mailbox w = verify_ready_mailbox w (verifiable client capability now w)
