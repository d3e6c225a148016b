-- ===== src/Capabilities/Granted.antt =====
-- Actions, recommendations and playbook steps of adminos/capabilities/config.py, with their texts.
use timmeny_admin_os.Common.{
  String, Bool, true, false, Option, none, some, List, [], ◌∷◌, ◌==◌, if◌then◌else◌,
}

pub data ActionKind : Type 0 where
  gmail_label gmail_archive gmail_move gmail_trash gmail_untrash : ActionKind
  gmail_draft_reply gmail_send_draft monday_create_task : ActionKind

unfoldable pub kind_eq : ActionKind → ActionKind → Bool
kind_eq gmail_label gmail_label = true
kind_eq gmail_archive gmail_archive = true
kind_eq gmail_move gmail_move = true
kind_eq gmail_trash gmail_trash = true
kind_eq gmail_untrash gmail_untrash = true
kind_eq gmail_draft_reply gmail_draft_reply = true
kind_eq gmail_send_draft gmail_send_draft = true
kind_eq monday_create_task monday_create_task = true
kind_eq _ _ = false

-- `kind.value`.
unfoldable pub action_value : ActionKind → String
action_value gmail_label = "gmail.label"
action_value gmail_archive = "gmail.archive"
action_value gmail_move = "gmail.move"
action_value gmail_trash = "gmail.trash"
action_value gmail_untrash = "gmail.untrash"
action_value gmail_draft_reply = "gmail.draft_reply"
action_value gmail_send_draft = "gmail.send_draft"
action_value monday_create_task = "monday.create_task"

abbrev pub all_kinds : List ActionKind
all_kinds =
    gmail_label ∷ gmail_archive ∷ gmail_move ∷ gmail_trash ∷ gmail_untrash ∷ gmail_draft_reply
    ∷ gmail_send_draft ∷ monday_create_task ∷ []

abbrev kind_valued : String → List ActionKind → Option ActionKind
kind_valued value [] = none
kind_valued value (k ∷ ks) = if action_value k == value then some k else kind_valued value ks

-- `ActionKind(value)`, and `value in ACTION_VALUES` where it is not `none`.
unfoldable pub action_kind : String → Option ActionKind
unfolding action_value
action_kind value = kind_valued value all_kinds

pub data Recommendation : Type 0 where
  needs_review no_action : Recommendation

unfoldable pub is_recommendation : String → Bool
is_recommendation value = if value == "needs_review" then true else value == "no_action"

-- `ACTION_ALIASES.get(value)`.
unfoldable pub alias : String → Option ActionKind
alias value =
    if value == "archive_gmail_thread"
    then some gmail_archive
    else if value == "move_gmail_thread_to_label"
    then some gmail_move
    else if value == "move_gmail_thread_to_trash"
    then some gmail_trash
    else if value == "restore_gmail_thread_from_trash"
    then some gmail_untrash
    else none

-- `none` is the `ValueError` of an unknown action.
unfoldable pub read_action_kind : String → Option ActionKind
unfolding alias action_kind
read_action_kind value = elim (alias value) [ some k ↦ some k | none ↦ action_kind value ]

-- `kind in GMAIL_ACTIONS`.
unfoldable pub is_gmail : ActionKind → Bool
is_gmail monday_create_task = false
is_gmail _ = true

pub data PlaybookStep : Type 0 where
  collect_evidence recommend await_decision prepare_actions execute_approved verify : PlaybookStep

unfoldable pub step_eq : PlaybookStep → PlaybookStep → Bool
step_eq collect_evidence collect_evidence = true
step_eq recommend recommend = true
step_eq await_decision await_decision = true
step_eq prepare_actions prepare_actions = true
step_eq execute_approved execute_approved = true
step_eq verify verify = true
step_eq _ _ = false

abbrev pub destination_param : String
destination_param = "label"
