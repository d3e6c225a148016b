-- ===== src/Actions/Executors.antt =====
-- The `execute` and `verify` halves of the executors of adminos/domain/actions.py, and their table.
mod Results
mod Labels
pub mod Disposal
pub mod Drafts
pub mod ReadOnly
pub mod Shows
pub use Results.*
unfoldable pub use Labels.*
unfoldable pub use Disposal.*
unfoldable pub use Drafts.*
use timmeny_admin_os.Common.{
  ℕ, String, Bool, true, false, not, ◌&&◌, ◌||◌, Option, none, some, List, [], ◌∷◌, ◌++◌, ◌==◌,
  if◌then◌else◌, ltb, elem, keep, is_empty, is_none, Json, null, bool, str, arr, Members, end,
  member, entries,
}
use timmeny_admin_os.Capabilities.{
  ActionKind, gmail_label, gmail_archive, gmail_move, gmail_trash, gmail_untrash, gmail_draft_reply,
  gmail_send_draft, monday_create_task, destination_param,
}
use timmeny_admin_os.Actions.Rows.{
  Refusal, no_executor, no_label, move_without_folder, draft_incomplete, send_incomplete,
  draft_gone, draft_changed, ReviewAction, ReviewItem,
}
use timmeny_admin_os.Actions.Mail.{
  GmailThread, GmailDraft, GmailClient, Run, pure, refuse, from_result, call, ◌>>=◌, ◌>>◌,
}
use timmeny_admin_os.Actions.Params.{read_strings, read_text, inbox, trash}

module _ {M : Type 0} (client : GmailClient M) where
  -- `EXECUTORS[kind].execute` and `.verify`.
  unfoldable pub execute : ActionKind → ReviewAction → ReviewItem → Run M ExecutionOutcome
  unfolding execute_label execute_archive execute_move execute_trash execute_untrash execute_draft
      execute_send
  execute gmail_label action item = execute_label client action item
  execute gmail_archive action item = execute_archive client action item
  execute gmail_move action item = execute_move client action item
  execute gmail_trash action item = execute_trash client action item
  execute gmail_untrash action item = execute_untrash client action item
  execute gmail_draft_reply action item = execute_draft client action item
  execute gmail_send_draft action item = execute_send client action item
  execute monday_create_task action item = refuse no_executor

  unfoldable pub verify : ActionKind → ReviewAction → ReviewItem → Run M VerificationOutcome
  unfolding verify_label verify_archive verify_move verify_trash verify_untrash verify_draft
      verify_send
  verify gmail_label action item = verify_label client action item
  verify gmail_archive action item = verify_archive client action item
  verify gmail_move action item = verify_move client action item
  verify gmail_trash action item = verify_trash client action item
  verify gmail_untrash action item = verify_untrash client action item
  verify gmail_draft_reply action item = verify_draft client action item
  verify gmail_send_draft action item = verify_send client action item
  verify monday_create_task action item = refuse no_executor
