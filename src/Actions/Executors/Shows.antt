-- ===== src/Actions/Executors/Shows.antt =====
-- An execution against Gmail as documented, and the reading behind it (adminos/domain/actions.py).
use timmeny_admin_os.Common.{Bool, true, false, ◌≡◌, ok}
use timmeny_admin_os.Capabilities.{
  ActionKind, gmail_label, gmail_archive, gmail_move, gmail_trash, gmail_untrash, gmail_draft_reply,
  gmail_send_draft, monday_create_task,
}
use timmeny_admin_os.Actions.Rows.{ReviewAction, ReviewItem}
use timmeny_admin_os.Actions.Mail.{GmailClient}
use timmeny_admin_os.Actions.Executors.{ExecutionOutcome, VerificationOutcome, execute, verify}
use timmeny_admin_os.Actions.Executors.Disposal.Shows.{
  IsLawful, archive_shows, trash_shows, untrash_shows,
}

-- The actions that put a thread into the archive or into Trash, or take it out of Trash.
unfoldable pub is_disposal : ActionKind → Bool
is_disposal gmail_archive = true
is_disposal gmail_trash = true
is_disposal gmail_untrash = true
is_disposal _ = false

module _ {M : Type 0} (client : GmailClient M) (law : IsLawful client) where
  -- Where Gmail keeps a thread's labels as it documents, archiving, trashing and restoring a thread
  -- show: after an execution that returns, a reading that returns finds the effect there, whether
  -- the execution wrote it or found it done.
  pub execute-shows :
      (kind : ActionKind) (action : ReviewAction) (item : ReviewItem) (m m1 m2 : M)
      (outcome : ExecutionOutcome) (v : VerificationOutcome)
      → is_disposal kind ≡ true
      → execute client kind action item m ≡ (ok outcome, m1)
      → verify client kind action item m1 ≡ (ok v, m2)
      → v.verified ≡ true
  unfolding is_disposal execute verify
  execute-shows gmail_archive action item m m1 m2 outcome v is did read =
      archive_shows client law action item m m1 m2 outcome v did read
  execute-shows gmail_trash action item m m1 m2 outcome v is did read =
      trash_shows client law action item m m1 m2 outcome v did read
  execute-shows gmail_untrash action item m m1 m2 outcome v is did read =
      untrash_shows client law action item m m1 m2 outcome v did read
  execute-shows gmail_label action item m m1 m2 outcome v is did read = cc
  execute-shows gmail_move action item m m1 m2 outcome v is did read = cc
  execute-shows gmail_draft_reply action item m m1 m2 outcome v is did read = cc
  execute-shows gmail_send_draft action item m m1 m2 outcome v is did read = cc
  execute-shows monday_create_task action item m m1 m2 outcome v is did read = cc
