-- ===== src/Mailboxes.antt =====
-- adminos/domain/mailboxes.py: which mail a review looks at. A scope that a run stores is the JSON that
-- `as_json` writes.
pub mod Partition
pub mod Stored
use timmeny_admin_os.Common.{
  String, Bool, true, false, not, ◌&&◌, ◌||◌, Option, none, some, List, [], ◌∷◌, ◌++◌, ◌==◌, ◌<>◌,
  if◌then◌else◌, elem, join, Json, null, bool, num, str, arr, obj, Members, end, member, get,
  Result, ok, raised,
}
use timmeny_admin_os.Capabilities.Config.{
  CapabilityConfig, Mailbox, inbox, archive, snoozed, anywhere,
}

pub record ReviewScope : Type 0 where
  pub name : String
  pub mailbox : Mailbox
  pub include_snoozed : Bool
  pub include_archived : Bool
  pub include_trash : Bool
  pub include_spam : Bool
  pub include_sent : Bool
  pub include_drafts : Bool
  pub requested : Bool

-- `mailbox is …`.
unfoldable pub is_mailbox : Mailbox → Mailbox → Bool
is_mailbox inbox inbox = true
is_mailbox archive archive = true
is_mailbox snoozed snoozed = true
is_mailbox anywhere anywhere = true
is_mailbox _ _ = false

unfoldable pub label_ids : ReviewScope → String → List String
unfolding is_mailbox
label_ids scope label_id =
    if is_mailbox scope.mailbox inbox then "INBOX" ∷ label_id ∷ [] else label_id ∷ []

snooze_terms : ReviewScope → List String
unfolding is_mailbox
snooze_terms scope =
    if is_mailbox scope.mailbox snoozed
    then "in:snoozed" ∷ []
    else if not scope.include_snoozed
    then "-in:snoozed" ∷ []
    else []

unfoldable pub query : ReviewScope → String
unfolding is_mailbox snooze_terms join
query scope = join " " (
    (if is_mailbox scope.mailbox archive then "-in:inbox" ∷ [] else [])
    ++ snooze_terms scope
    ++ (if scope.include_trash || scope.include_spam then "in:anywhere" ∷ [] else []))

unfoldable pub observed_snoozed : ReviewScope → Option Bool
unfolding is_mailbox
observed_snoozed scope =
    if is_mailbox scope.mailbox snoozed
    then some true
    else if not scope.include_snoozed
    then some false
    else none

-- `snoozed is True`.
abbrev pub is_true : Option Bool → Bool
is_true none = false
is_true (some b) = b

unfoldable pub admits_outside : ReviewScope → List String → Bool
admits_outside scope labels =
    if not scope.include_sent && elem "SENT" labels
    then false
    else not (not scope.include_drafts && elem "DRAFT" labels)

unfoldable pub admits_labels : ReviewScope → List String → Bool
unfolding is_mailbox admits_outside
admits_labels scope labels =
    let in_inbox = elem "INBOX" labels in
    if not scope.include_trash && elem "TRASH" labels
    then false
    else if not scope.include_spam && elem "SPAM" labels
    then false
    else if is_mailbox scope.mailbox inbox && not in_inbox
    then false
    else if is_mailbox scope.mailbox archive && in_inbox
    then false
    else if not in_inbox
    then admits_outside scope labels
    else true

unfoldable pub admits : ReviewScope → Option (List String) → Option Bool → Bool
unfolding is_mailbox admits_labels
admits scope none asleep = false
admits scope (some labels) asleep =
    if is_mailbox scope.mailbox snoozed && not (is_true asleep)
    then false
    else if not scope.include_snoozed && is_true asleep
    then false
    else admits_labels scope labels

-- `INBOX_SCOPE`, `ARCHIVED_SCOPE`, `SNOOZED_SCOPE` and `EVERYTHING_SCOPE`.
abbrev pub inbox_scope : ReviewScope
inbox_scope = record {
  name = "inbox";
  mailbox = inbox;
  include_snoozed = false;
  include_archived = false;
  include_trash = false;
  include_spam = false;
  include_sent = false;
  include_drafts = false;
  requested = false;
}

abbrev pub archived_scope : ReviewScope
archived_scope = record inbox_scope {
  name = "archived";
  mailbox = archive;
  include_archived = true;
}

abbrev pub snoozed_scope : ReviewScope
snoozed_scope = record inbox_scope { name = "snoozed"; mailbox = snoozed; include_snoozed = true }

abbrev pub everything_scope : ReviewScope
everything_scope = record {
  name = "everything";
  mailbox = anywhere;
  include_snoozed = true;
  include_archived = true;
  include_trash = true;
  include_spam = true;
  include_sent = true;
  include_drafts = true;
  requested = false;
}

-- `SCOPES.get(name)`.
unfoldable pub find_named : String → Option ReviewScope
find_named name =
    if name == "inbox"
    then some inbox_scope
    else if name == "archived"
    then some archived_scope
    else if name == "snoozed"
    then some snoozed_scope
    else if name == "everything"
    then some everything_scope
    else none

abbrev pub asked_for : Bool → ReviewScope → ReviewScope
asked_for requested scope = record scope { requested = requested }

-- `none` of the answer is `UnknownScope`.
unfoldable pub read_scope : Option String → Option ReviewScope
unfolding find_named
read_scope none = some inbox_scope
read_scope (some name) = elim (find_named name) [
  | none ↦ none
  | some scope ↦ some (asked_for true scope)
]

unfoldable pub mailbox_value : Mailbox → String
mailbox_value inbox = "INBOX"
mailbox_value archive = "ARCHIVE"
mailbox_value snoozed = "SNOOZED"
mailbox_value anywhere = "ANYWHERE"

-- `scope.as_json()`, without the sentence that describes it.
unfoldable pub as_json : ReviewScope → Members
unfolding mailbox_value query
as_json scope = member "name" (str scope.name) (
    member "mailbox" (str (mailbox_value scope.mailbox)) (
      member "include_snoozed" (bool scope.include_snoozed) (
        member "include_archived" (bool scope.include_archived) (
          member "include_trash" (bool scope.include_trash) (
            member "include_spam" (bool scope.include_spam) (
              member "include_sent" (bool scope.include_sent) (
                member "include_drafts" (bool scope.include_drafts) (
                  member "requested" (bool scope.requested)
                    (member "gmail_query" (str (query scope)) end)))))))))

-- `bool(stored.get("requested"))`, which `as_json` writes as a Boolean.
unfoldable pub truth : Option Json → Bool
truth (some (bool b)) = b
truth _ = false

unfoldable pub scope_named : Option Json → Option ReviewScope
unfolding find_named
scope_named (some (str name)) = find_named name
scope_named _ = none

unfoldable pub read_stored_scope : Json → ReviewScope
unfolding scope_named truth get
read_stored_scope (obj stored) = elim (scope_named (get stored "name")) [
  | none ↦ inbox_scope
  | some scope ↦ asked_for (truth (get stored "requested")) scope
]
read_stored_scope _ = inbox_scope

-- The first scope of the mailbox; each has one.
unfoldable pub scope_for : Mailbox → ReviewScope
scope_for inbox = inbox_scope
scope_for archive = archived_scope
scope_for snoozed = snoozed_scope
scope_for anywhere = everything_scope

unfoldable pub capability_scope : ReviewScope → CapabilityConfig → ReviewScope
unfolding is_mailbox scope_for
capability_scope scope capability =
    if not (scope.name == "inbox")
    then scope
    else if is_mailbox capability.mailbox scope.mailbox
    then scope
    else asked_for scope.requested (scope_for capability.mailbox)
