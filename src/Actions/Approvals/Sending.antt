-- ===== src/Actions/Approvals/Sending.antt =====
-- What `authorise_send` approves.
use timmeny_admin_os.Common.{
  Among, String, true, ◌≡◌, refl, sym, ap, ◌∙◌, Option, none, some, List, [], ◌∷◌, ◌==◌, Bool-cases,
  inl, inr, arith, eq_iff, Json, null, bool, num, arr, obj, str, get, ok, then-ok, ok-injective,
  subst, &&-true, ◌⊎◌, ◌&&◌,
}
use timmeny_admin_os.Capabilities.{
  ActionKind, gmail_send_draft, gmail_draft_reply, gmail_label, gmail_archive, gmail_move,
  gmail_trash, gmail_untrash, monday_create_task, kind_eq,
}
use timmeny_admin_os.Capabilities.Config.{CapabilityConfig, permits, may_execute}
use timmeny_admin_os.Actions.Rows.{
  ReviewAction, ReviewItem, ActionState, prepared, executed, verified, failed, state_eq, completed,
  approved,
}
use timmeny_admin_os.Actions.Approvals.{
  Services, ActionTables, idempotency_key, find_by_key, or_empty,
}
use timmeny_admin_os.Actions.Approvals.Sends.{
  send_action, authorise_send, check_send, send_params, read_completed_draft, is_named_draft,
  same_text, is_text, shows_message, is_completed_draft, last_completed, completed_later,
}

-- A completed draft of the item, with the identity and the message that were named.
pub IsReviewedDraft : ReviewItem → String → String → ReviewAction → Type 0
IsReviewedDraft item draft_id message_id draft =
    (draft.item_id ≡ item.id)
    × (draft.action_kind ≡ gmail_draft_reply)
    × (draft.state ≡ completed)
    × (draft.external_ref ≡ some draft_id)
    × (get (or_empty draft.verification) "message_id" ≡ some (str message_id))

kind_eq-draft : (k : ActionKind) → kind_eq k gmail_draft_reply ≡ true → k ≡ gmail_draft_reply
unfolding kind_eq
kind_eq-draft gmail_draft_reply h = refl
kind_eq-draft gmail_label h = cc
kind_eq-draft gmail_archive h = cc
kind_eq-draft gmail_move h = cc
kind_eq-draft gmail_trash h = cc
kind_eq-draft gmail_untrash h = cc
kind_eq-draft gmail_send_draft h = cc
kind_eq-draft monday_create_task h = cc

state_eq-completed : (s : ActionState) → state_eq s completed ≡ true → s ≡ completed
unfolding state_eq
state_eq-completed completed h = refl
state_eq-completed approved h = cc
state_eq-completed prepared h = cc
state_eq-completed executed h = cc
state_eq-completed verified h = cc
state_eq-completed failed h = cc

last_completed-cases :
    (a : ReviewAction) (best : Option ReviewAction) (d : ReviewAction)
    → last_completed a best ≡ d
    → (a ≡ d) ⊎ (best ≡ some d)
unfolding last_completed
last_completed-cases a none d h = inl h
last_completed-cases a (some b) d h =
    elim (Bool-cases (completed_later b.completed_at a.completed_at)) [
      | inl e ↦ ground (arith, h, e)
      | inr e ↦ ground (arith, h, e)
    ]

read_completed_draft-Among :
    (item_id : String) (rows : List ReviewAction) (d : ReviewAction)
    → read_completed_draft item_id rows ≡ some d
    → Among d rows × (is_completed_draft item_id d ≡ true)
unfolding read_completed_draft
read_completed_draft-Among item_id [] d h = cc
read_completed_draft-Among item_id (a ∷ rest) d h =
    elim (Bool-cases (is_completed_draft item_id a)) [
      | inl e ↦
          let best = read_completed_draft item_id rest in
          let chosen : last_completed a best ≡ d = ground (arith, h, e) in
          elim (last_completed-cases a best d chosen) [
            | inl own ↦ (inl (sym own), subst (λ b. is_completed_draft item_id b ≡ true) own e)
            | inr later ↦
                let (held, is) = read_completed_draft-Among item_id rest d later in (inr held, is)
          ]
      | inr e ↦
          let (held, is) = read_completed_draft-Among item_id rest d (ground (arith, h, e)) in
          (inr held, is)
    ]

check_send-guards :
    (capability : CapabilityConfig) (item : ReviewItem) (draft_id message_id : String)
    (rows : List ReviewAction)
    → check_send capability item draft_id message_id rows ≡ ok tt
    → (permits capability gmail_send_draft ≡ true)
      × (may_execute capability gmail_send_draft ≡ true)
      × (is_named_draft (read_completed_draft item.id rows) draft_id ≡ true)
      × (shows_message (read_completed_draft item.id rows) message_id ≡ true)
unfolding check_send
check_send-guards capability item draft_id message_id rows h = ground (arith, h)

is_completed_draft-fields :
    (item_id : String) (d : ReviewAction)
    → is_completed_draft item_id d ≡ true
    → (d.item_id ≡ item_id) × (d.action_kind ≡ gmail_draft_reply) × (d.state ≡ completed)
unfolding is_completed_draft
is_completed_draft-fields item_id d h =
    let (front, state) =
      &&-true (d.item_id == item_id && kind_eq d.action_kind gmail_draft_reply) _ h in
    let (own, kind) = &&-true (d.item_id == item_id) _ front in
    ((eq_iff d.item_id item_id).0 own, kind_eq-draft _ kind, state_eq-completed _ state)

same_text_sound : (t : Option String) (s : String) → same_text t s ≡ true → t ≡ some s
unfolding same_text
same_text_sound none s h = cc
same_text_sound (some t) s h = ap some ((eq_iff t s).0 h)

is_text_sound : (j : Option Json) (s : String) → is_text j s ≡ true → j ≡ some (str s)
unfolding is_text
is_text_sound none s h = cc
is_text_sound (some null) s h = cc
is_text_sound (some (bool _)) s h = cc
is_text_sound (some (num _)) s h = cc
is_text_sound (some (str t)) s h = ap (λ u. some (str u)) ((eq_iff t s).0 h)
is_text_sound (some (arr _)) s h = cc
is_text_sound (some (obj _)) s h = cc

named-IsReviewedDraft :
    (item : ReviewItem) (draft_id message_id : String) (rows : List ReviewAction)
    (found : Option ReviewAction)
    → read_completed_draft item.id rows ≡ found
    → is_named_draft found draft_id ≡ true
    → shows_message found message_id ≡ true
    → (d : ReviewAction) × Among d rows × IsReviewedDraft item draft_id message_id d
unfolding is_named_draft shows_message IsReviewedDraft
named-IsReviewedDraft item draft_id message_id rows none r named shows = cc
named-IsReviewedDraft item draft_id message_id rows (some d) r named shows =
    let (held, is) = read_completed_draft-Among item.id rows d r in
    let (own, kind, state) = is_completed_draft-fields item.id d is in
    (
      d,
      held,
      (
        own,
        kind,
        state,
        same_text_sound d.external_ref draft_id named,
        is_text_sound (get (or_empty d.verification) "message_id") message_id shows,
      ),
    )

find_by_key-own :
    (key : String) (rows : List ReviewAction) (a : ReviewAction)
    → find_by_key key rows ≡ some a
    → a.idempotency_key ≡ key
unfolding find_by_key
find_by_key-own key [] a h = cc
find_by_key-own key (b ∷ rest) a h = elim (Bool-cases (b.idempotency_key == key)) [
  | inl e ↦ ground (arith, h, e, (eq_iff b.idempotency_key key).0 e)
  | inr e ↦ find_by_key-own key rest a (ground (arith, h, e))
]

module _ (services : Services) (capability : CapabilityConfig) (run_id : String) where
  send_action-key :
      (item : ReviewItem) (draft_id message_id actor : String) (found : Option ReviewAction)
      (t : ActionTables)
      → find_by_key
          (idempotency_key services item.id gmail_send_draft (send_params draft_id message_id))
          t.actions
        ≡ found
      → (send_action services capability run_id item draft_id message_id actor found
          t).0.idempotency_key
        ≡ idempotency_key services item.id gmail_send_draft (send_params draft_id message_id)
  unfolding send_action
  send_action-key item draft_id message_id actor (some existing) t h =
      find_by_key-own _ t.actions existing h
  send_action-key item draft_id message_id actor none t h = refl

  -- Where sending is authorised, the capability is allowed to send and to execute the sending, a
  -- completed draft of the item is in the table whose reference is the draft that was named and
  -- whose verification shows the message that was named, and the action that is returned has the
  -- key of sending that draft with that message.
  pub authorise_send-IsReviewedDraft :
      (item : ReviewItem) (draft_id message_id actor : String) (t : ActionTables)
      (sent : ReviewAction × ActionTables)
      → authorise_send services capability run_id item draft_id message_id actor t ≡ ok sent
      → (permits capability gmail_send_draft ≡ true)
        × (may_execute capability gmail_send_draft ≡ true)
        × ((d : ReviewAction) × Among d t.actions × IsReviewedDraft item draft_id message_id d)
        × (sent.0.idempotency_key
            ≡ idempotency_key services item.id gmail_send_draft (send_params draft_id message_id))
  unfolding authorise_send
  authorise_send-IsReviewedDraft item draft_id message_id actor t sent h =
      let (checked, made) =
        then-ok (check_send capability item draft_id message_id t.actions) _ h in
      let (may, runs, named, shows) =
        check_send-guards capability item draft_id message_id t.actions checked in
      (
        may,
        runs,
        named-IsReviewedDraft item draft_id message_id t.actions _ refl named shows,
        ap (λ p. p.0.idempotency_key) (ok-injective made)
            ∙ send_action-key item draft_id message_id actor _ t refl,
      )
