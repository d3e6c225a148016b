-- ===== src/Actions/Approvals/Sends.antt =====
-- `read_completed_draft` and `authorise_send` of adminos/domain/actions.py.
use timmeny_admin_os.Common.{
  ℕ, String, Bool, true, false, not, ◌&&◌, Option, none, some, List, [], ◌∷◌, ◌==◌, ltb,
  if◌then◌else◌, Json, str, Members, end, member, get, Result, ok, ◌>>◌, refuse_if,
}
use timmeny_admin_os.Capabilities.{gmail_draft_reply, gmail_send_draft, kind_eq}
use timmeny_admin_os.Capabilities.Config.{CapabilityConfig, permits, may_execute}
use timmeny_admin_os.Actions.Rows.{
  completed, state_eq, human, Refusal, send_not_allowed, send_not_permitted, not_the_draft,
  not_the_message, ReviewAction, ReviewItem,
}
use timmeny_admin_os.Actions.Approvals.{
  Services, ActionTables, or_empty, idempotency_key, find_by_key, new_action, add_action,
}

-- Of the completed drafts of an item, the one that completed last.
unfoldable pub is_completed_draft : String → ReviewAction → Bool
is_completed_draft item_id a =
    a.item_id == item_id && kind_eq a.action_kind gmail_draft_reply && state_eq a.state completed

unfoldable pub completed_later : Option ℕ → Option ℕ → Bool
completed_later (some t) (some u) = ltb u t
completed_later (some t) none = true
completed_later none _ = false

unfoldable pub last_completed : ReviewAction → Option ReviewAction → ReviewAction
unfolding completed_later
last_completed a none = a
last_completed a (some b) = if completed_later b.completed_at a.completed_at then b else a

unfoldable pub read_completed_draft : String → List ReviewAction → Option ReviewAction
unfolding is_completed_draft last_completed
read_completed_draft item_id [] = none
read_completed_draft item_id (a ∷ others) =
    let rest = read_completed_draft item_id others in
    if is_completed_draft item_id a then some (last_completed a rest) else rest

unfoldable pub same_text : Option String → String → Bool
same_text none s = false
same_text (some t) s = t == s

unfoldable pub is_text : Option Json → String → Bool
is_text (some (str t)) s = t == s
is_text _ s = false

unfoldable pub is_named_draft : Option ReviewAction → String → Bool
unfolding same_text
is_named_draft none draft_id = false
is_named_draft (some draft) draft_id = same_text draft.external_ref draft_id

unfoldable pub shows_message : Option ReviewAction → String → Bool
unfolding is_text get
shows_message none message_id = false
shows_message (some draft) message_id =
    is_text (get (or_empty draft.verification) "message_id") message_id

abbrev pub send_params : String → String → Members
send_params draft_id message_id =
    member "draft_id" (str draft_id) (member "draft_message_id" (str message_id) end)

-- The guards of `authorise_send`, in their order.
unfoldable pub check_send :
    CapabilityConfig → ReviewItem → String → String → List ReviewAction → Result Refusal (Unit {0})
unfolding permits may_execute read_completed_draft is_named_draft shows_message
check_send capability item draft_id message_id actions = do
  refuse_if (not (permits capability gmail_send_draft)) send_not_allowed
  refuse_if (not (may_execute capability gmail_send_draft)) send_not_permitted
  refuse_if (not (is_named_draft (read_completed_draft item.id actions) draft_id)) not_the_draft
  refuse_if (not (shows_message (read_completed_draft item.id actions) message_id)) not_the_message

module _ (services : Services) (capability : CapabilityConfig) (run_id : String) where
  unfoldable pub send_action :
      ReviewItem
      → String
      → String
      → String
      → Option ReviewAction
      → ActionTables
      → ReviewAction × ActionTables
  send_action item draft_id message_id actor (some existing) tables = (existing, tables)
  send_action item draft_id message_id actor none tables =
      let action =
        new_action services capability run_id item gmail_send_draft
          (send_params draft_id message_id) (human, actor) none tables.actions in
      (action, add_action action (member "draft_id" (str draft_id) end) tables)

  unfoldable pub authorise_send :
      ReviewItem
      → String
      → String
      → String
      → ActionTables
      → Result Refusal (ReviewAction × ActionTables)
  unfolding check_send send_action find_by_key idempotency_key
  authorise_send item draft_id message_id actor tables = do
    check_send capability item draft_id message_id tables.actions
    ok (
        send_action item draft_id message_id actor
          (find_by_key
            (idempotency_key services item.id gmail_send_draft (send_params draft_id message_id))
            tables.actions)
          tables)
