-- ===== src/Actions/Executors/Drafts/Sends.antt =====
-- When `execute_send` of adminos/domain/actions.py sends.
use timmeny_admin_os.Common.{
  String, Bool, true, false, not, ◌≡◌, refl, sym, ap, ◌∙◌, subst, Option, none, some, ◌==◌, eq_iff,
  if◌then◌else◌, ok,
}
use timmeny_admin_os.Actions.Rows.{
  draft_changed, draft_gone, send_incomplete, ReviewAction, ReviewItem,
}
use timmeny_admin_os.Actions.Mail.{
  GmailDraft, GmailClient, Run, pure, refuse, from_result, call, ◌>>=◌, >>=-returns, call-returns,
  pure-returns, refuse-returns, from_result-returns,
}
use timmeny_admin_os.Actions.Params.{read_text}
use timmeny_admin_os.Actions.Executors.Results.{ExecutionOutcome, plan}
use timmeny_admin_os.Actions.Executors.Drafts.{send_outcome, send_exact, send_named, execute_send}

module _ {M : Type 0} (client : GmailClient M) where
  -- The draft that the plan names was fetched with the message that the plan names, and then sent.
  pub record IsReviewedSend (action : ReviewAction) (m m' : M) : Type 0 where
    pub draft_id : String
    pub message_id : String
    pub named_draft : read_text (plan action) "draft_id" ≡ ok (some draft_id)
    pub named_message : read_text (plan action) "draft_message_id" ≡ ok (some message_id)
    pub draft : GmailDraft
    pub before : M
    pub fetched : client.fetch_draft draft_id m ≡ (ok (some draft), before)
    pub unchanged : draft.message_id ≡ message_id
    pub sent_id : Option String
    pub sent : client.send_draft draft_id before ≡ (ok sent_id, m')

  -- `send_exact` by whether the draft is as it was approved.
  sent_when : Bool → String → Run M ExecutionOutcome
  sent_when same draft_id = if not same then refuse draft_changed else do
    message_id ← call (client.send_draft draft_id)
    pure (send_outcome client draft_id message_id)

  sent_when-lem :
      (same : Bool) (draft_id : String) (m m' : M) (outcome : ExecutionOutcome)
      → sent_when same draft_id m ≡ (ok outcome, m')
      → (same ≡ true)
        × ((sent_id : Option String) × (client.send_draft draft_id m ≡ (ok sent_id, m')))
  unfolding sent_when
  sent_when-lem true draft_id m m' outcome h =
      let (sent_id, m1, did, rest) = >>=-returns (call _) _ m m' outcome h in
      let (_, same) = pure-returns _ outcome m1 m' rest in
      (refl, (sent_id, call-returns _ m m1 sent_id did ∙ ap (λ n. (ok sent_id, n)) same))
  sent_when-lem false draft_id m m' outcome h = absurd (refuse-returns draft_changed outcome m m' h)

  send_fetched :
      (action : ReviewAction) (draft_id approved : String) (found : Option GmailDraft) (m m1 m' : M)
      (outcome : ExecutionOutcome)
      → read_text (plan action) "draft_id" ≡ ok (some draft_id)
      → read_text (plan action) "draft_message_id" ≡ ok (some approved)
      → client.fetch_draft draft_id m ≡ (ok found, m1)
      → send_exact client draft_id approved found m1 ≡ (ok outcome, m')
      → IsReviewedSend action m m'
  unfolding send_exact sent_when
  send_fetched action draft_id approved none m m1 m' outcome named message fetched h =
      absurd (refuse-returns (draft_gone draft_id) outcome m1 m' h)
  send_fetched action draft_id approved (some draft) m m1 m' outcome named message fetched h =
      let (same, (sent_id, sent)) =
        sent_when-lem (draft.message_id == approved) draft_id m1 m' outcome h in
      record {
        draft_id = draft_id;
        message_id = approved;
        named_draft = named;
        named_message = message;
        draft = draft;
        before = m1;
        fetched = fetched;
        unchanged = (eq_iff draft.message_id approved).0 same;
        sent_id = sent_id;
        sent = sent;
      }

  send_named-lem :
      (action : ReviewAction) (draft_id approved : Option String) (m m' : M)
      (outcome : ExecutionOutcome)
      → read_text (plan action) "draft_id" ≡ ok draft_id
      → read_text (plan action) "draft_message_id" ≡ ok approved
      → send_named client draft_id approved m ≡ (ok outcome, m')
      → IsReviewedSend action m m'
  unfolding send_named
  send_named-lem action (some draft_id) (some approved) m m' outcome named message h =
      let (found, m1, read, rest) =
        >>=-returns (call (client.fetch_draft draft_id)) (send_exact client draft_id approved) m m'
          outcome h in
      send_fetched action draft_id approved found m m1 m' outcome named message
        (call-returns (client.fetch_draft draft_id) m m1 found read) rest
  send_named-lem action none approved m m' outcome named message h =
      absurd (refuse-returns send_incomplete outcome m m' h)
  send_named-lem action (some draft_id) none m m' outcome named message h =
      absurd (refuse-returns send_incomplete outcome m m' h)

  -- Where an execution of a sending returns, the draft that the plan names was fetched first, it
  -- held the message that the plan names, and that draft was sent, with nothing done to the mailbox
  -- between the two or after.
  pub execute_send-IsReviewedSend :
      (action : ReviewAction) (item : ReviewItem) (m m' : M) (outcome : ExecutionOutcome)
      → execute_send client action item m ≡ (ok outcome, m')
      → IsReviewedSend action m m'
  unfolding execute_send
  execute_send-IsReviewedSend action item m m' outcome h =
      let drafts = read_text (plan action) "draft_id" in
      let messages = read_text (plan action) "draft_message_id" in
      let (draft_id, m1, first, rest) =
        >>=-returns (from_result drafts) (λ d. from_result messages >>= λ a. send_named client d a)
          m m' outcome h in
      let (named, same) = from_result-returns drafts draft_id m m1 first in
      let (approved, m2, second, rest) =
        >>=-returns (from_result messages) (λ a. send_named client draft_id a) m1 m' outcome rest in
      let (message, same_again) = from_result-returns messages approved m1 m2 second in
      send_named-lem action draft_id approved m m' outcome named message (
        subst (λ n. send_named client draft_id approved n ≡ (ok outcome, m'))
          (sym (same ∙ same_again)) rest)
