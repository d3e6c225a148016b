-- ===== src/Actions/Executors/Labels.antt =====
-- The label executor of adminos/domain/actions.py.
use timmeny_admin_os.Common.{
  String, not, ◌&&◌, Option, none, some, List, [], ◌∷◌, elem, keep, is_empty, arr, end, member,
  entries,
}
use timmeny_admin_os.Actions.Rows.{no_label, ReviewAction, ReviewItem}
use timmeny_admin_os.Actions.Mail.{
  GmailThread, GmailClient, Run, pure, refuse, from_result, call, ◌>>=◌, ◌>>◌,
}
use timmeny_admin_os.Actions.Params.{read_strings}
use timmeny_admin_os.Actions.Executors.Results.{
  ExecutionOutcome, VerificationOutcome, plan, labels_of, wrote,
}

module _ {M : Type 0} (client : GmailClient M) where
  -- `resolve_labels`: each name of one list, in order, then the next list.
  unfoldable pub known_label : String → Option String → Run M String
  known_label name none = refuse (no_label name)
  known_label name (some id) = pure id

  unfoldable pub resolve_names : List String → Run M (List String)
  unfolding known_label ◌>>=◌
  resolve_names [] = pure []
  resolve_names (name ∷ names) = do
    found ← call (client.resolve_label_id name)
    id ← known_label name found
    ids ← resolve_names names
    pure (id ∷ ids)

  unfoldable pub resolve_labels : ReviewAction → Run M (List String × List String)
  unfolding resolve_names ◌>>=◌
  resolve_labels action = do
    add ← from_result (read_strings (plan action) "add_labels")
    add_ids ← resolve_names add
    remove ← from_result (read_strings (plan action) "remove_labels")
    remove_ids ← resolve_names remove
    pure (add_ids, remove_ids)

  unfoldable pub execute_label : ReviewAction → ReviewItem → Run M ExecutionOutcome
  unfolding resolve_labels ◌>>=◌
  execute_label action item = do
    ids ← resolve_labels action
    call (client.modify_thread item.source_thread_id ids.0 ids.1)
    pure (
        wrote item
          (member "added" (arr (entries ids.0)) (member "removed" (arr (entries ids.1)) end)))

  label_verdict : List String × List String → GmailThread → VerificationOutcome
  label_verdict ids thread =
      let missing = keep (λ id. not (elem id thread.label_ids)) ids.0 in
      let lingering = keep (λ id. elem id thread.label_ids) ids.1 in
      record {
        verified = is_empty missing && is_empty lingering;
        detail =
            member "missing" (arr (entries missing)) (
              member "lingering" (arr (entries lingering))
                (member "labels" (labels_of thread) end));
      }

  unfoldable pub verify_label : ReviewAction → ReviewItem → Run M VerificationOutcome
  unfolding resolve_labels label_verdict ◌>>=◌
  verify_label action item = do
    ids ← resolve_labels action
    thread ← call (client.fetch_thread item.source_thread_id)
    pure (label_verdict ids thread)
