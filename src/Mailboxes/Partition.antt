-- ===== src/Mailboxes/Partition.antt =====
-- The scopes of adminos/domain/mailboxes.py share the mail out between them.
use timmeny_admin_os.Common.{
  String, Bool, true, false, not, ◌&&◌, ◌||◌, ◌≡◌, refl, Option, some, List, elem, arith,
}
use timmeny_admin_os.Mailboxes.{
  is_true, is_mailbox, admits, admits_labels, admits_outside, inbox_scope, archived_scope,
  snoozed_scope, everything_scope,
}

-- Exactly one of three.
abbrev pub one_of : Bool → Bool → Bool → Bool
one_of a b c = (a && not b && not c) || (not a && b && not c) || (not a && not b && c)

-- The mail of which the three scopes speak: not in Trash or Spam, and in the inbox or neither sent nor a
-- draft.
abbrev pub is_reviewable : List String → Bool
is_reviewable labels =
    not (elem "TRASH" labels)
    && not (elem "SPAM" labels)
    && (elem "INBOX" labels || (not (elem "SENT" labels) && not (elem "DRAFT" labels)))

partition_of :
    (labels : List String) (asleep : Option Bool) (trash spam inboxed sent draft asleep_now : Bool)
    → elem "TRASH" labels ≡ trash
    → elem "SPAM" labels ≡ spam
    → elem "INBOX" labels ≡ inboxed
    → elem "SENT" labels ≡ sent
    → elem "DRAFT" labels ≡ draft
    → is_true asleep ≡ asleep_now
    → one_of
        (admits inbox_scope (some labels) asleep)
        (admits archived_scope (some labels) asleep)
        (admits snoozed_scope (some labels) asleep)
      ≡ is_reviewable labels
unfolding admits admits_labels admits_outside is_mailbox
partition_of labels asleep trash spam inboxed sent draft asleep_now t s i e d a =
    rw t (rw s (rw i (rw e (rw d (rw a (ground arith))))))

-- A thread whose labels are known is in exactly one of the default, the archived and the snoozed scope
-- where it is neither in Trash nor Spam and is in the inbox or is neither sent nor a draft, and in
-- none of the three otherwise; and it is in the scope of everything in any case.
pub scopes-partition :
    (labels : List String) (asleep : Option Bool)
    → (one_of
          (admits inbox_scope (some labels) asleep)
          (admits archived_scope (some labels) asleep)
          (admits snoozed_scope (some labels) asleep)
        ≡ is_reviewable labels)
      × (admits everything_scope (some labels) asleep ≡ true)
unfolding admits admits_labels admits_outside is_mailbox
scopes-partition labels asleep = (
  partition_of labels asleep _ _ _ _ _ _ refl refl refl refl refl refl,
  everywhere (elem "INBOX" labels) refl,
)
  where
    everywhere :
        (b : Bool) → elem "INBOX" labels ≡ b → admits everything_scope (some labels) asleep ≡ true
    everywhere true e = rw e refl
    everywhere false e = rw e refl
