-- ===== src/Actions/Executors/Disposal.antt =====
-- The archive, move, trash and untrash executors of adminos/domain/actions.py.
pub mod Shows
use timmeny_admin_os.Common.{
  String, false, not, ◌&&◌, Option, none, some, [], ◌∷◌, if◌then◌else◌, elem, bool, str, arr, end,
  member, entries,
}
use timmeny_admin_os.Capabilities.{destination_param}
use timmeny_admin_os.Actions.Rows.{move_without_folder, ReviewAction, ReviewItem}
use timmeny_admin_os.Actions.Mail.{
  GmailThread, GmailClient, Run, pure, refuse, from_result, call, ◌>>=◌, ◌>>◌,
}
use timmeny_admin_os.Actions.Params.{read_text, inbox, trash}
use timmeny_admin_os.Actions.Executors.Results.{
  ExecutionOutcome, VerificationOutcome, plan, labels_of, wrote, found_done, shown,
}
use timmeny_admin_os.Actions.Executors.Labels.{known_label}

module _ {M : Type 0} (client : GmailClient M) where
  archive_thread : ReviewItem → GmailThread → Run M ExecutionOutcome
  unfolding ◌>>=◌
  archive_thread item thread =
      if not (elem inbox thread.label_ids)
      then pure (found_done item thread "out of the inbox")
      else do
        call (client.modify_thread item.source_thread_id [] (inbox ∷ []))
        pure (wrote item (member "removed" (arr (entries (inbox ∷ []))) end))

  unfoldable pub execute_archive : ReviewAction → ReviewItem → Run M ExecutionOutcome
  unfolding archive_thread ◌>>=◌
  execute_archive action item = do
    thread ← call (client.fetch_thread item.source_thread_id)
    archive_thread item thread

  unfoldable pub verify_archive : ReviewAction → ReviewItem → Run M VerificationOutcome
  unfolding ◌>>=◌
  verify_archive action item = do
    thread ← call (client.fetch_thread item.source_thread_id)
    pure (shown (not (elem inbox thread.label_ids)) thread)

  unfoldable pub named_folder : Option String → Run M String
  named_folder none = refuse move_without_folder
  named_folder (some name) = pure name

  unfoldable pub resolve_destination : ReviewAction → Run M String
  unfolding named_folder known_label ◌>>=◌
  resolve_destination action = do
    folder ← from_result (read_text (plan action) destination_param)
    name ← named_folder folder
    found ← call (client.resolve_label_id name)
    known_label client name found

  move_thread : ReviewItem → String → GmailThread → Run M ExecutionOutcome
  unfolding ◌>>=◌
  move_thread item destination thread =
      if elem destination thread.label_ids && not (elem inbox thread.label_ids)
      then pure (found_done item thread "filed there")
      else do
        call (client.modify_thread item.source_thread_id (destination ∷ []) (inbox ∷ []))
        pure (
            wrote item (
              member "added" (arr (entries (destination ∷ [])))
                (member "removed" (arr (entries (inbox ∷ []))) end)))

  unfoldable pub execute_move : ReviewAction → ReviewItem → Run M ExecutionOutcome
  unfolding resolve_destination move_thread ◌>>=◌
  execute_move action item = do
    destination ← resolve_destination action
    thread ← call (client.fetch_thread item.source_thread_id)
    move_thread item destination thread

  unfoldable pub verify_move : ReviewAction → ReviewItem → Run M VerificationOutcome
  unfolding resolve_destination ◌>>=◌
  verify_move action item = do
    destination ← resolve_destination action
    thread ← call (client.fetch_thread item.source_thread_id)
    let filed = elem destination thread.label_ids
    let left_inbox = not (elem inbox thread.label_ids)
    pure (record {
      verified = filed && left_inbox;
      detail =
          member "filed" (bool filed)
            (member "left_inbox" (bool left_inbox) (member "labels" (labels_of thread) end));
    })

  trash_if_needed : ReviewItem → GmailThread → Run M ExecutionOutcome
  unfolding ◌>>=◌
  trash_if_needed item thread =
      if elem trash thread.label_ids then pure (found_done item thread "in Trash") else do
        call (client.trash_thread item.source_thread_id)
        pure (wrote item (member "moved_to" (str trash) (member "permanent" (bool false) end)))

  unfoldable pub execute_trash : ReviewAction → ReviewItem → Run M ExecutionOutcome
  unfolding trash_if_needed ◌>>=◌
  execute_trash action item = do
    thread ← call (client.fetch_thread item.source_thread_id)
    trash_if_needed item thread

  unfoldable pub verify_trash : ReviewAction → ReviewItem → Run M VerificationOutcome
  unfolding ◌>>=◌
  verify_trash action item = do
    thread ← call (client.fetch_thread item.source_thread_id)
    pure (shown (elem trash thread.label_ids) thread)

  untrash_if_needed : ReviewItem → GmailThread → Run M ExecutionOutcome
  unfolding ◌>>=◌
  untrash_if_needed item thread =
      if not (elem trash thread.label_ids) then pure (found_done item thread "out of Trash") else do
        call (client.untrash_thread item.source_thread_id)
        pure (wrote item (member "moved_out_of" (str trash) end))

  unfoldable pub execute_untrash : ReviewAction → ReviewItem → Run M ExecutionOutcome
  unfolding untrash_if_needed ◌>>=◌
  execute_untrash action item = do
    thread ← call (client.fetch_thread item.source_thread_id)
    untrash_if_needed item thread

  unfoldable pub verify_untrash : ReviewAction → ReviewItem → Run M VerificationOutcome
  unfolding ◌>>=◌
  verify_untrash action item = do
    thread ← call (client.fetch_thread item.source_thread_id)
    pure (shown (not (elem trash thread.label_ids)) thread)
