-- ===== src/Actions/Params.antt =====
-- The plans of adminos/domain/actions.py: reading parameters, and the `prepare` half of each
-- executor, which reaches nothing. `upper` is `str.upper`.
use timmeny_admin_os.Common.{
  String, false, ◌&&◌, Option, none, some, List, [], ◌∷◌, ◌++◌, map, if◌then◌else◌, elem, is_empty,
  is_set, strip, ◌<>◌, Json, null, bool, str, arr, Entries, nil, cons, Members, end, member, get,
  entries, Result, ok, raised, ◌>>=◌, ◌>>◌, refuse_if,
}
use timmeny_admin_os.Capabilities.{
  ActionKind, gmail_label, gmail_archive, gmail_move, gmail_trash, gmail_untrash, gmail_draft_reply,
  gmail_send_draft, monday_create_task, destination_param,
}
use timmeny_admin_os.Actions.Rows.{
  Refusal, no_executor, no_labels, inbox_by_hand, no_recipient, no_body, draft_unnamed,
  move_unnamed, not_text, not_texts, ReviewItem,
}

abbrev pub inbox : String
inbox = "INBOX"

abbrev pub trash : String
trash = "TRASH"

-- `[entry.strip() for entry in value if isinstance(entry, str) and entry.strip()]`
texts_in : Entries → List String
texts_in nil = []
texts_in (cons (str s) rest) =
    let others = texts_in rest in if is_set (strip s) then strip s ∷ others else others
texts_in (cons _ rest) = texts_in rest

strings_of : String → Option Json → Result Refusal (List String)
unfolding texts_in
strings_of key none = ok []
strings_of key (some null) = ok []
strings_of key (some (str s)) = ok (if is_set (strip s) then s ∷ [] else [])
strings_of key (some (arr es)) = ok (texts_in es)
strings_of key (some _) = raised (not_texts key)

unfoldable pub read_strings : Members → String → Result Refusal (List String)
unfolding strings_of get
read_strings params key = strings_of key (get params key)

unfoldable pub text_of : String → Option Json → Result Refusal (Option String)
text_of key none = ok none
text_of key (some null) = ok none
text_of key (some (str s)) = if is_set (strip s) then ok (some (strip s)) else raised (not_text key)
text_of key (some _) = raised (not_text key)

unfoldable pub read_text : Members → String → Result Refusal (Option String)
unfolding text_of get
read_text params key = text_of key (get params key)

-- `if value is None: raise ActionRefused(…)`.
unfoldable pub required : {A : Type 0} → Refusal → Option A → Result Refusal A
required refusal none = raised refusal
required refusal (some a) = ok a

-- The plan of a label action, as what it adds and what it removes.
unfoldable pub label_plan : (String → String) → Members → Result Refusal (List String × List String)
unfolding read_strings
label_plan upper params = do
  add ← read_strings params "add_labels"
  remove ← read_strings params "remove_labels"
  refuse_if (is_empty add && is_empty remove) no_labels
  refuse_if (elem inbox (map upper (add ++ remove))) inbox_by_hand
  ok (add, remove)

unfoldable pub prepare_label : (String → String) → Members → Result Refusal Members
unfolding label_plan
prepare_label upper params = do
  plan ← label_plan upper params
  ok (
      member "add_labels" (arr (entries plan.0))
        (member "remove_labels" (arr (entries plan.1)) end))

unfoldable pub prepare_archive : ReviewItem → Result Refusal Members
prepare_archive item = ok (
    member "remove_labels" (arr (entries (inbox ∷ [])))
      (member "thread_id" (str item.source_thread_id) end))

unfoldable pub prepare_move : ReviewItem → Members → Result Refusal Members
unfolding read_text required
prepare_move item params = do
  named ← read_text params destination_param
  destination ← required move_unnamed named
  ok (
      member "thread_id" (str item.source_thread_id) (
        member destination_param (str destination) (
          member "add_labels" (arr (entries (destination ∷ [])))
            (member "remove_labels" (arr (entries (inbox ∷ []))) end))))

unfoldable pub prepare_trash : ReviewItem → Result Refusal Members
prepare_trash item = ok (
    member "thread_id" (str item.source_thread_id)
      (member "moves_to" (str trash) (member "permanent" (bool false) end)))

unfoldable pub prepare_untrash : ReviewItem → Result Refusal Members
prepare_untrash item =
    ok (member "thread_id" (str item.source_thread_id) (member "moves_out_of" (str trash) end))

abbrev or_empty : Option String → String
or_empty none = ""
or_empty (some s) = s

-- `read_text(params, "subject") or f"Re: {item.subject or ''}".strip()`
subject_line : Option String → ReviewItem → String
subject_line (some subject) item = subject
subject_line none item = strip ("Re: " <> or_empty item.subject)

unfoldable pub prepare_draft : ReviewItem → Members → Result Refusal Members
unfolding read_strings read_text required subject_line
prepare_draft item params = do
  recipients ← read_strings params "to"
  refuse_if (is_empty recipients) no_recipient
  written ← read_text params "body"
  body ← required no_body written
  subject ← read_text params "subject"
  cc ← read_strings params "cc"
  ok (
      member "to" (arr (entries recipients)) (
        member "cc" (arr (entries cc)) (
          member "subject" (str (subject_line subject item))
            (member "body" (str body) (member "thread_id" (str item.source_thread_id) end)))))

unfoldable pub prepare_send : Members → Result Refusal Members
unfolding read_text required
prepare_send params = do
  draft ← read_text params "draft_id"
  message ← read_text params "draft_message_id"
  draft_id ← required draft_unnamed draft
  message_id ← required draft_unnamed message
  ok (member "draft_id" (str draft_id) (member "draft_message_id" (str message_id) end))

-- `EXECUTORS[kind].prepare`.
unfoldable pub prepare :
    (String → String) → ActionKind → ReviewItem → Members → Result Refusal Members
unfolding prepare_label prepare_archive prepare_move prepare_trash prepare_untrash prepare_draft
    prepare_send
prepare upper gmail_label item params = prepare_label upper params
prepare upper gmail_archive item params = prepare_archive item
prepare upper gmail_move item params = prepare_move item params
prepare upper gmail_trash item params = prepare_trash item
prepare upper gmail_untrash item params = prepare_untrash item
prepare upper gmail_draft_reply item params = prepare_draft item params
prepare upper gmail_send_draft item params = prepare_send params
prepare upper monday_create_task item params = raised no_executor
