-- ===== src/Examples/Approvals.antt =====
-- Approvals of an archive, and of the sending of one draft.
use timmeny_admin_os.Common.{
  Among, String, true, false, ◌≡◌, refl, none, some, [], ◌∷◌, ◌==◌, if◌then◌else◌, str, Members,
  end, member, ok,
}
use timmeny_admin_os.Capabilities.{gmail_draft_reply, gmail_send_draft, action_value}
use timmeny_admin_os.Capabilities.Config.{permits, may_execute}
use timmeny_admin_os.Actions.Rows.{ActionState, completed, ReviewAction, state_eq}
use timmeny_admin_os.Actions.Approvals.{
  Services, ActionTables, idempotency_key, ensure_actions, add_action,
}
use timmeny_admin_os.Actions.Approvals.Sends.{send_params, authorise_send}
use timmeny_admin_os.Actions.Approvals.Intents.{ensure_actions-again}
use timmeny_admin_os.Actions.Approvals.Sending.{IsReviewedDraft, authorise_send-IsReviewedDraft}
use timmeny_admin_os.Examples.Samples.{mail, offer, agreement, archive_action}

-- A digest that tells the actions apart, and identities in the order of their letters.
abbrev named_action : Members → String
named_action (member key (str value) rest) =
    let other = named_action rest in if key == "action" then value else other
named_action (member key _ rest) = named_action rest
named_action end = ""

abbrev services : Services
services = record { digest = named_action; fresh = λ rows. "new"; before = λ a b. false }

abbrev draft : ReviewAction
draft = record archive_action {
  id = "d1";
  action_kind = gmail_draft_reply;
  state = completed;
  external_ref = some "D";
  verification = some (member "message_id" (str "M") end);
  idempotency_key = "gmail.draft_reply";
}

abbrev tables : ActionTables
tables = record { actions = draft ∷ []; events = []; decisions = agreement ∷ [] }

ensure_actions-again_example :
    ensure_actions services mail "r1"
      (offer ∷ [])
      (ensure_actions services mail "r1" (offer ∷ []) tables).1
    ≡ ensure_actions services mail "r1" (offer ∷ []) tables
ensure_actions-again_example = ensure_actions-again services mail "r1" (offer ∷ []) tables

abbrev sending : ReviewAction
sending = record archive_action {
  id = "new";
  state = ActionState.approved;
  action_kind = gmail_send_draft;
  params = send_params "D" "M";
  prepared_params = none;
  prepared_at = none;
  idempotency_key = "gmail.send_draft";
}

abbrev sent : ReviewAction × ActionTables
sent = (sending, add_action sending (member "draft_id" (str "D") end) tables)

approves : authorise_send services mail "r1" offer "D" "M" "human" tables ≡ ok sent
unfolding authorise_send state_eq action_value
approves = refl

authorise_send-IsReviewedDraft_example :
    (permits mail gmail_send_draft ≡ true)
    × (may_execute mail gmail_send_draft ≡ true)
    × ((d : ReviewAction) × Among d tables.actions × IsReviewedDraft offer "D" "M" d)
    × (sent.0.idempotency_key
        ≡ idempotency_key services offer.id gmail_send_draft (send_params "D" "M"))
authorise_send-IsReviewedDraft_example =
    authorise_send-IsReviewedDraft services mail "r1" offer "D" "M" "human" tables sent approves
