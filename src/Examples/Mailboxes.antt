-- ===== src/Examples/Mailboxes.antt =====
-- The scopes of the mailbox for one archived thread.
use timmeny_admin_os.Common.{true, false, ◌≡◌, refl, ◌∷◌, [], some, obj}
use timmeny_admin_os.Mailboxes.{
  admits, inbox_scope, archived_scope, snoozed_scope, everything_scope, asked_for, read_scope,
  as_json, read_stored_scope,
}
use timmeny_admin_os.Mailboxes.Partition.{one_of, is_reviewable, scopes-partition}
use timmeny_admin_os.Mailboxes.Stored.{read_stored-as_json}

scopes-partition_example :
    (one_of
        (admits inbox_scope (some ("mail" ∷ [])) (some false))
        (admits archived_scope (some ("mail" ∷ [])) (some false))
        (admits snoozed_scope (some ("mail" ∷ [])) (some false))
      ≡ is_reviewable ("mail" ∷ []))
    × (admits everything_scope (some ("mail" ∷ [])) (some false) ≡ true)
scopes-partition_example = scopes-partition ("mail" ∷ []) (some false)

names_archive : read_scope (some "archived") ≡ some (asked_for true archived_scope)
unfolding read_scope
names_archive = refl

read_stored-as_json_example :
    read_stored_scope (obj (as_json (asked_for true archived_scope)))
    ≡ asked_for true archived_scope
read_stored-as_json_example =
    read_stored-as_json (some "archived") (asked_for true archived_scope) names_archive
