-- ===== src/Actions/Executors/ReadOnly.antt =====
-- The `verify` half of every executor of adminos/domain/actions.py only reads.
use timmeny_admin_os.Common.{String, ◌≡◌, Option, none, some, List, [], ◌∷◌}
use timmeny_admin_os.Capabilities.{
  ActionKind, gmail_label, gmail_archive, gmail_move, gmail_trash, gmail_untrash, gmail_draft_reply,
  gmail_send_draft, monday_create_task,
}
use timmeny_admin_os.Actions.Rows.{ReviewAction, ReviewItem}
use timmeny_admin_os.Actions.Mail.{
  GmailClient, Leaves, leaves_rules, Leaves-bind, Leaves-call, Leaves-pure, Leaves-refuse,
}
use timmeny_admin_os.Actions.Executors.{
  verify, resolve_names, known_label, resolve_labels, resolve_destination, named_folder,
  verify_draft_ref, verify_sent,
}

-- Gmail's reads change nothing in the mailbox.
pub record IsReadOnly {M : Type 0} (client : GmailClient M) : Type 0 where
  pub resolving : (name : String) (m : M) → (client.resolve_label_id name m).1 ≡ m
  pub fetching : (thread : String) (m : M) → (client.fetch_thread thread m).1 ≡ m
  pub fetching_draft : (draft : String) (m : M) → (client.fetch_draft draft m).1 ≡ m

module _ {M : Type 0} (client : GmailClient M) (reads : IsReadOnly client) where
  known_label-Leaves :
      (name : String) (found : Option String) → Leaves (known_label client name found)
  unfolding known_label
  known_label-Leaves name none = Leaves-refuse _
  known_label-Leaves name (some id) = Leaves-pure id

  resolve_names-Leaves : (names : List String) → Leaves (resolve_names client names)
  unfolding resolve_names
  resolve_names-Leaves [] = Leaves-pure []
  resolve_names-Leaves (name ∷ names) =
      let rest = resolve_names-Leaves names in
      Leaves-bind _ _ (Leaves-call _ (reads.resolving name)) λ found.
        Leaves-bind _ _ (known_label-Leaves name found)
          λ id. Leaves-bind _ _ rest λ ids. Leaves-pure _

  resolve_labels-Leaves : (action : ReviewAction) → Leaves (resolve_labels client action)
  unfolding resolve_labels
  resolve_labels-Leaves action = search (leaves_rules, resolve_names-Leaves)

  named_folder-Leaves : (folder : Option String) → Leaves (named_folder client folder)
  unfolding named_folder
  named_folder-Leaves none = Leaves-refuse _
  named_folder-Leaves (some name) = Leaves-pure name

  resolve_destination-Leaves : (action : ReviewAction) → Leaves (resolve_destination client action)
  unfolding resolve_destination
  resolve_destination-Leaves action =
      search (leaves_rules, named_folder-Leaves, known_label-Leaves, reads.resolving)

  ruleset reading = (leaves_rules, resolve_labels-Leaves, resolve_destination-Leaves)

  verify_draft_ref-Leaves : (ref : Option String) → Leaves (verify_draft_ref client ref)
  unfolding verify_draft_ref
  verify_draft_ref-Leaves none = search leaves_rules
  verify_draft_ref-Leaves (some ref) = search (leaves_rules, reads.fetching_draft)

  verify_sent-Leaves : (draft : Option String) → Leaves (verify_sent client draft)
  unfolding verify_sent
  verify_sent-Leaves none = search leaves_rules
  verify_sent-Leaves (some draft) = search (leaves_rules, reads.fetching_draft)

  -- Where Gmail's reads change nothing, reading an effect back changes nothing, for every executor.
  pub verify-Leaves :
      (kind : ActionKind) (action : ReviewAction) (item : ReviewItem)
      → Leaves (verify client kind action item)
  unfolding verify
  verify-Leaves gmail_label action item = search (reading, reads.fetching)
  verify-Leaves gmail_archive action item = search (reading, reads.fetching)
  verify-Leaves gmail_move action item = search (reading, reads.fetching)
  verify-Leaves gmail_trash action item = search (reading, reads.fetching)
  verify-Leaves gmail_untrash action item = search (reading, reads.fetching)
  verify-Leaves gmail_draft_reply action item = verify_draft_ref-Leaves action.external_ref
  verify-Leaves gmail_send_draft action item = search (reading, verify_sent-Leaves)
  verify-Leaves monday_create_task action item = Leaves-refuse _
