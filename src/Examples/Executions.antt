-- ===== src/Examples/Executions.antt =====
-- Executions of an archive and of a move.
use timmeny_admin_os.Common.{
  true, false, ◌≡◌, ◌≢◌, ◌⊎◌, strip, refl, sym, ◌∙◌, ap, some, [], ◌∷◌, arith, arr, end, member,
  entries, ok, raised,
}
use timmeny_admin_os.Capabilities.{gmail_archive, is_gmail}
use timmeny_admin_os.Capabilities.Config.{allows, permits, may_execute}
use timmeny_admin_os.Actions.Rows.{executed, completed, refusal, no_label, find_item}
use timmeny_admin_os.Actions.Params.{read_text}
use timmeny_admin_os.Actions.Executors.{VerificationOutcome, execute, verify}
use timmeny_admin_os.Actions.Executors.ReadOnly.{IsReadOnly}
use timmeny_admin_os.Actions.Lifecycle.{
  check_executable, read_action_item, prepare_action, execute_action, verify_action,
}
use timmeny_admin_os.Actions.Lifecycle.Settles.{Concludes, execute_action-Concludes}
use timmeny_admin_os.Actions.Lifecycle.ReadBack.{IsReadBack, completed-WasReadBack}
use timmeny_admin_os.Actions.Lifecycle.Guards.{IsGranted, execution_needs_grants}
use timmeny_admin_os.Actions.Lifecycle.Retry.{retry_writes_nothing}
use timmeny_admin_os.Actions.Lifecycle.Numbering.{IsNumbered}
use timmeny_admin_os.Actions.Lifecycle.Audit.{operations-IsNumbered}
use timmeny_admin_os.Actions.Lifecycle.Stranded.{IsLeftBehind, execute_action-IsLeftBehind}
use timmeny_admin_os.Examples.Samples.{
  Mailbox, gmail, vanishing, archived, mail, offer, first_try, second_try, moving,
}

completes : (execute_action gmail mail 7 true first_try).1.action.state ≡ completed
unfolding execute_action check_executable allows permits may_execute is_gmail read_action_item
    execute verify
completes = refl

was_prepared : first_try.action.state ≢ completed
was_prepared h = cc

completed-WasReadBack_example :
    IsReadBack gmail mail 7 first_try (execute_action gmail mail 7 true first_try).1
completed-WasReadBack_example =
    completed-WasReadBack gmail mail 7 true first_try refl was_prepared completes

changes : (execute_action gmail mail 7 true first_try).1 ≢ first_try
changes h = was_prepared (ap (λ w. w.action.state) (sym h) ∙ completes)

execution_needs_grants_example : IsGranted mail true first_try
execution_needs_grants_example = execution_needs_grants gmail mail 7 true first_try changes

execute_action-Concludes_example : Concludes first_try (execute_action gmail mail 7 true first_try)
execute_action-Concludes_example = execute_action-Concludes gmail mail 7 true first_try

reads_only : IsReadOnly gmail
reads_only = record {
  resolving = λ name m. refl;
  fetching = λ thread m. refl;
  fetching_draft = λ draft m. refl;
}

abbrev out_of_inbox : VerificationOutcome
out_of_inbox = record { verified = true; detail = member "labels" (arr (entries [])) end }

shows : (verify gmail gmail_archive second_try.action offer archived).0 ≡ ok out_of_inbox
unfolding verify
shows = refl

found : find_item "i1" (offer ∷ []) ≡ some offer
unfolding find_item
found = refl

retry_writes_nothing_example :
    ((execute_action gmail mail 7 true second_try).1.mailbox ≡ archived)
    × ((execute_action gmail mail 7 true second_try).0 ≡ ok tt
        → (execute_action gmail mail 7 true second_try).1.action.state ≡ completed)
retry_writes_nothing_example =
    retry_writes_nothing gmail mail 7 true second_try offer out_of_inbox reads_only (omega arith)
      found shows refl

no_events : IsNumbered []
no_events = record { from_one = λ id. tt }

operations-IsNumbered_example :
    IsNumbered (prepare_action (λ s. s) mail 7 first_try).1.events
    × IsNumbered (execute_action gmail mail 7 true first_try).1.events
    × IsNumbered (verify_action gmail mail 7 first_try).1.events
operations-IsNumbered_example = operations-IsNumbered gmail mail 7 (λ s. s) true first_try no_events

abbrev vanished : Mailbox
vanished = record { labels = "Receipts" ∷ []; has_receipts = false }

-- The label is deleted while the thread is being moved: the move is made, and left `executed`.
strands :
    ((execute_action vanishing mail 7 true moving).0 ≡ raised (refusal (no_label "Receipts")))
    × ((execute_action vanishing mail 7 true moving).1.action.state ≡ executed)
    × ((execute_action vanishing mail 7 true moving).1.mailbox ≡ vanished)
unfolding execute_action check_executable allows permits may_execute is_gmail read_action_item
    execute verify read_text strip
strands = (refl, refl, refl)

execute_action-IsLeftBehind_example :
    ((execute_action vanishing mail 7 true moving).1 ≡ moving)
    ⊎ IsLeftBehind vanishing mail 7 moving
        (refusal (no_label "Receipts"))
        (execute_action vanishing mail 7 true moving).1
execute_action-IsLeftBehind_example =
    execute_action-IsLeftBehind vanishing mail 7 true moving (refusal (no_label "Receipts"))
      strands.0
