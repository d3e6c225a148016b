-- ===== src/Actions/Approvals.antt =====
-- `ensure_actions` and `read_approval` of adminos/domain/actions.py: how an approval
-- becomes a row of `review_actions`.
pub mod Sends
pub mod Intents
pub mod Sending
use timmeny_admin_os.Common.{
  ℕ, String, Bool, true, false, not, ◌&&◌, ◌||◌, Option, none, some, List, [], ◌∷◌, ◌++◌, ◌==◌, ltb,
  nat_eqb, if◌then◌else◌, keep, starts_with, Json, str, obj, Members, end, member, get, Result, ok,
  raised, ◌>>=◌, ◌>>◌, refuse_if,
}
use timmeny_admin_os.Capabilities.{
  ActionKind, gmail_draft_reply, gmail_send_draft, kind_eq, action_value,
}
use timmeny_admin_os.Capabilities.Config.{CapabilityConfig, permits, may_execute}
use timmeny_admin_os.Actions.Rows.{
  ActionState, approved, completed, state_eq, ItemState, ApprovalKind, human, automatable_rule,
  ActionEventKind, Refusal, send_not_allowed, send_not_permitted, not_the_draft, not_the_message,
  ReviewAction, ReviewItem, ReviewDecision, ActionEvent, record_event,
}

-- What the standard library and the database provide: the digest of a payload's JSON text
-- (`hashlib.sha256` of `json.dumps`), the identity of a new row, and the order of the identities.
pub record Services : Type 0 where
  pub digest : Members → String
  pub fresh : List ReviewAction → String
  pub before : String → String → Bool

pub record ActionTables : Type 0 where
  pub actions : List ReviewAction
  pub events : List ActionEvent
  pub decisions : List ReviewDecision

abbrev pub or_empty : Option Members → Members
or_empty none = end
or_empty (some p) = p

-- The `Services` is an argument of each operation below.
unfoldable pub idempotency_key : Services → String → ActionKind → Members → String
idempotency_key services item_id action params = services.digest (
    member "item" (str item_id)
      (member "action" (str (action_value action)) (member "params" (obj params) end)))

unfoldable pub find_by_key : String → List ReviewAction → Option ReviewAction
find_by_key key [] = none
find_by_key key (a ∷ rest) = if a.idempotency_key == key then some a else find_by_key key rest

-- Whether a decision comes before another in `ORDER BY created_at DESC, id DESC`.
decided_later : Services → ReviewDecision → ReviewDecision → Bool
decided_later services d e =
    ltb e.created_at d.created_at
    || (nat_eqb e.created_at d.created_at && services.before e.id d.id)

latest_of : Services → ReviewDecision → Option ReviewDecision → ReviewDecision
unfolding decided_later
latest_of services d none = d
latest_of services d (some e) = if decided_later services e d then e else d

pub latest_decision : Services → String → List ReviewDecision → Option ReviewDecision
unfolding latest_of
latest_decision services item_id [] = none
latest_decision services item_id (d ∷ ds) =
    let rest = latest_decision services item_id ds in
    if d.item_id == item_id then some (latest_of services d rest) else rest

abbrev rule_actor_prefix : String
rule_actor_prefix = "rule:"

approval_of : Option ReviewDecision → ApprovalKind × String
approval_of none = (human, "unknown")
approval_of (some d) =
    if starts_with d.actor rule_actor_prefix then (automatable_rule, d.actor) else (human, d.actor)

unfoldable pub read_approval : Services → ActionTables → ReviewItem → ApprovalKind × String
unfolding approval_of latest_decision
read_approval services tables item = approval_of (latest_decision services item.id tables.decisions)

approving_rule : ApprovalKind → Option String → Option String
approving_rule automatable_rule rule_id = rule_id
approving_rule human rule_id = none

-- A row as `ReviewAction(...)` makes it, with the columns' defaults.
abbrev pub new_action :
    Services
    → CapabilityConfig
    → String
    → ReviewItem
    → ActionKind
    → Members
    → ApprovalKind × String
    → Option String
    → List ReviewAction
    → ReviewAction
new_action services capability run_id item kind params (approval_kind, approved_by) rule_id
      actions =
    record {
      id = services.fresh actions;
      run_id = run_id;
      item_id = item.id;
      capability_key = capability.key;
      action_kind = kind;
      state = approved;
      params = params;
      prepared_params = none;
      idempotency_key = idempotency_key services item.id kind params;
      target_thread_id = item.source_thread_id;
      approval_kind = approval_kind;
      approved_by = approved_by;
      rule_id = rule_id;
      attempts = 0;
      external_kind = none;
      external_ref = none;
      last_error = none;
      verification = none;
      prepared_at = none;
      executed_at = none;
      verified_at = none;
      completed_at = none;
      failed_at = none;
    }

-- `session.add(action)` with the event `approved`, whose detail is given.
abbrev pub add_action : ReviewAction → Members → ActionTables → ActionTables
add_action action detail tables = record tables {
  actions = tables.actions ++ action ∷ [];
  events = record_event action ActionEventKind.approved (some detail) none none tables.events;
}

is_approved_item : ItemState → Bool
is_approved_item ItemState.approved = true
is_approved_item _ = false

-- The kind and the parameters of what an item is approved for, or `none` where the loop passes over
-- it.
unfoldable pub intent : ReviewItem → Option (ActionKind × Members)
unfolding is_approved_item
intent item =
    if is_approved_item item.state
    then elim item.approved_action [
      | none ↦ none
      | some kind ↦ some (kind, or_empty item.approved_params)
    ]
    else none

module _ (services : Services) (capability : CapabilityConfig) (run_id : String) where
  -- The loop's body from the lookup of the key on.
  record_intent :
      ReviewItem
      → ActionKind × Members
      → Option ReviewAction
      → ActionTables
      → ReviewAction × ActionTables
  unfolding read_approval approving_rule
  record_intent item (kind, params) (some existing) tables = (existing, tables)
  record_intent item (kind, params) none tables =
      let approval = read_approval services tables item in
      let action =
        new_action services capability run_id item kind params approval
          (approving_rule approval.0 item.rule_id) tables.actions in
      (action, add_action action (member "approved_by" (str approval.1) end) tables)

  ensure_intent :
      ReviewItem → Option (ActionKind × Members) → ActionTables → List ReviewAction × ActionTables
  unfolding record_intent idempotency_key find_by_key
  ensure_intent item none tables = ([], tables)
  ensure_intent item (some (kind, params)) tables =
      let (action, after) =
        record_intent item (kind, params)
          (find_by_key (idempotency_key services item.id kind params) tables.actions) tables in
      (action ∷ [], after)

  unfoldable pub ensure_actions : List ReviewItem → ActionTables → List ReviewAction × ActionTables
  unfolding ensure_intent intent
  ensure_actions [] tables = ([], tables)
  ensure_actions (item ∷ items) tables =
      let (recorded, after) = ensure_intent item (intent item) tables in
      let (others, last) = ensure_actions items after in (recorded ++ others, last)
