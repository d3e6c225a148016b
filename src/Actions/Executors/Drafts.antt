-- ===== src/Actions/Executors/Drafts.antt =====
-- The draft and send executors of adminos/domain/actions.py.
pub mod Sends
use timmeny_admin_os.Common.{
  String, Bool, true, false, not, ◌&&◌, Option, none, some, ◌==◌, if◌then◌else◌, ltb, is_none, bool,
  str, Members, end, member,
}
use timmeny_admin_os.Actions.Rows.{
  draft_incomplete, send_incomplete, draft_gone, draft_changed, ReviewAction, ReviewItem,
}
use timmeny_admin_os.Actions.Mail.{
  GmailDraft, GmailClient, Run, pure, refuse, from_result, call, ◌>>=◌,
}
use timmeny_admin_os.Actions.Params.{read_strings, read_text}
use timmeny_admin_os.Actions.Executors.Results.{
  ExecutionOutcome, VerificationOutcome, plan, optional,
}

module _ {M : Type 0} (client : GmailClient M) where
  draft_outcome : String → Members → Bool → ExecutionOutcome
  draft_outcome draft_id detail adopted = record {
    external_kind = "gmail_draft";
    external_ref = some draft_id;
    detail = detail;
    already_applied = false;
    adopted = adopted;
  }

  write_draft : ReviewItem → Members → Option String → Option String → Run M ExecutionOutcome
  unfolding draft_outcome ◌>>=◌
  write_draft item prepared (some body) (some subject) = do
    to ← from_result (read_strings prepared "to")
    cc ← from_result (read_strings prepared "cc")
    draft ← call (client.create_draft item.source_thread_id to subject body cc)
    pure (
        draft_outcome draft.draft_id
          (member "message_id" (str draft.message_id)
            (member "thread_id" (str draft.thread_id) end))
          false)
  write_draft item prepared _ _ = refuse draft_incomplete

  fresh_draft : ReviewAction → ReviewItem → Run M ExecutionOutcome
  unfolding write_draft ◌>>=◌
  fresh_draft action item = do
    body ← from_result (read_text (plan action) "body")
    subject ← from_result (read_text (plan action) "subject")
    write_draft item (plan action) body subject

  adopt_or_write : ReviewAction → ReviewItem → Option GmailDraft → Run M ExecutionOutcome
  unfolding draft_outcome fresh_draft
  adopt_or_write action item none = fresh_draft action item
  adopt_or_write action item (some existing) =
      pure
        (draft_outcome existing.draft_id (member "message_id" (str existing.message_id) end) true)

  unfoldable pub execute_draft : ReviewAction → ReviewItem → Run M ExecutionOutcome
  unfolding fresh_draft adopt_or_write ◌>>=◌
  execute_draft action item =
      if ltb 1 action.attempts && is_none action.external_ref
      then (do
        existing ← call (client.find_draft_for_thread item.source_thread_id)
        adopt_or_write action item existing)
      else fresh_draft action item

  not_verified : String → String → VerificationOutcome
  not_verified key value = record { verified = false; detail = member key (str value) end }

  draft_verdict : Option GmailDraft → VerificationOutcome
  unfolding not_verified
  draft_verdict none = not_verified "draft" "missing"
  draft_verdict (some draft) = record {
    verified = true;
    detail =
        member "draft_id" (str draft.draft_id)
          (member "message_id" (str draft.message_id) (member "sent" (bool false) end));
  }

  unfoldable pub verify_draft_ref : Option String → Run M VerificationOutcome
  unfolding not_verified draft_verdict ◌>>=◌
  verify_draft_ref none = pure (not_verified "draft" "not created")
  verify_draft_ref (some ref) = do draft ← call (client.fetch_draft ref); pure (draft_verdict draft)

  unfoldable pub verify_draft : ReviewAction → ReviewItem → Run M VerificationOutcome
  unfolding verify_draft_ref
  verify_draft action item = verify_draft_ref action.external_ref

  send_outcome : String → Option String → ExecutionOutcome
  send_outcome draft_id message_id = record {
    external_kind = "gmail_message";
    external_ref = message_id;
    detail = member "draft_id" (str draft_id) (member "sent_message_id" (optional message_id) end);
    already_applied = false;
    adopted = false;
  }

  send_exact : String → String → Option GmailDraft → Run M ExecutionOutcome
  unfolding send_outcome ◌>>=◌
  send_exact draft_id approved none = refuse (draft_gone draft_id)
  send_exact draft_id approved (some draft) =
      if not (draft.message_id == approved) then refuse draft_changed else do
        message_id ← call (client.send_draft draft_id)
        pure (send_outcome draft_id message_id)

  send_named : Option String → Option String → Run M ExecutionOutcome
  unfolding send_exact ◌>>=◌
  send_named (some draft_id) (some approved) = do
    draft ← call (client.fetch_draft draft_id)
    send_exact draft_id approved draft
  send_named _ _ = refuse send_incomplete

  unfoldable pub execute_send : ReviewAction → ReviewItem → Run M ExecutionOutcome
  unfolding send_named ◌>>=◌
  execute_send action item = do
    draft_id ← from_result (read_text (plan action) "draft_id")
    approved ← from_result (read_text (plan action) "draft_message_id")
    send_named draft_id approved

  unfoldable pub verify_sent : Option String → Run M VerificationOutcome
  unfolding not_verified ◌>>=◌
  verify_sent none = pure (not_verified "draft" "unknown")
  verify_sent (some draft_id) = do
    draft ← call (client.fetch_draft draft_id)
    pure (record {
      verified = is_none draft;
      detail =
          member "draft_id" (str draft_id)
            (member "draft_still_present" (bool (not (is_none draft))) end);
    })

  unfoldable pub verify_send : ReviewAction → ReviewItem → Run M VerificationOutcome
  unfolding verify_sent ◌>>=◌
  verify_send action item = do
    draft_id ← from_result (read_text (plan action) "draft_id")
    verify_sent draft_id
