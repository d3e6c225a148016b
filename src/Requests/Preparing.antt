-- ===== src/Requests/Preparing.antt =====
-- `prepare_run_actions` of adminos/api/actions.py: `requested_item_ids` and `prepare_selected`. Nothing
-- of it calls Gmail. `upper` is `str.upper`, and `services` are those of an approval.
use timmeny_admin_os.Common.{
  ℕ, String, Bool, true, false, not, ◌&&◌, Option, none, some, List, [], ◌∷◌, ◌++◌, ◌==◌,
  if◌then◌else◌, keep, map, is_empty, Result, ok, raised, ◌>>=◌, ◌>>◌, refuse_if,
}
use timmeny_admin_os.Capabilities.Config.{CapabilityConfig}
use timmeny_admin_os.Actions.Rows.{
  ItemState, ReviewAction, ReviewItem, ActionError, completed, state_eq, find_item,
}
use timmeny_admin_os.Actions.Approvals.{Services, ActionTables, ensure_actions}
use timmeny_admin_os.Actions.Lifecycle.{Work, prepare_action}
use timmeny_admin_os.Plan.Arrange.{dedupe}
use timmeny_admin_os.Plan.Begin.{human_actor}
use timmeny_admin_os.Review.Rows.{ReviewGroup}
use timmeny_admin_os.Review.Reading.{read_group, read_group_items, group_with_id}
use timmeny_admin_os.Scopes.{ActionScope, ExcludedItem, open_scope}
use timmeny_admin_os.Requests.{
  HttpProblem, no_items, two_selections, unknown_selection, no_capability_named, no_group,
  action_failed, Database, save_action, read_capability, open_review,
}

pub record PrepareRequest : Type 0 where
  pub item_ids : Option (List String)
  pub capability_key : Option String
  pub entire_capability : Bool

-- `item.state == ItemState.APPROVED`.
unfoldable pub is_approved_item : ItemState → Bool
is_approved_item ItemState.approved = true
is_approved_item _ = false

group_of : String → String → List ReviewGroup → Result HttpProblem ReviewGroup
unfolding read_group
group_of run_id key groups = elim (read_group run_id key groups) [
  | raised e ↦ raised (no_group key)
  | ok group ↦ ok group
]

approved_in : String → List ReviewItem → List String
unfolding read_group_items is_approved_item
approved_in group_id items =
    map (λ i. i.id) (keep (λ i. is_approved_item i.state) (read_group_items group_id items))

whole_capability :
    List CapabilityConfig → String → Option String → Database → Result HttpProblem (List String)
unfolding read_capability group_of approved_in
whole_capability loaded run_id none db = raised no_capability_named
whole_capability loaded run_id (some key) db = do
  capability ← read_capability loaded key
  group ← group_of run_id capability.key db.groups
  ok (approved_in group.id db.items)

named_items : PrepareRequest → List String → Result HttpProblem (List String)
named_items request selected = do
  refuse_if (is_empty selected) no_items
  refuse_if request.entire_capability two_selections
  ok selected

unfoldable pub requested_from :
    List CapabilityConfig
    → String
    → PrepareRequest
    → Option (List String)
    → Database
    → Result HttpProblem (List String)
unfolding named_items whole_capability dedupe
requested_from loaded run_id request (some ids) db = named_items request (dedupe ids)
requested_from loaded run_id request none db =
    refuse_if (not request.entire_capability) unknown_selection
    >> whole_capability loaded run_id request.capability_key db

unfoldable pub requested_item_ids :
    List CapabilityConfig → String → PrepareRequest → Database → Result HttpProblem (List String)
unfolding requested_from
requested_item_ids loaded run_id request db =
    requested_from loaded run_id request request.item_ids db

-- `read_item_actions`: the rows stand in the order in which they were created.
unfoldable pub read_item_actions : String → String → List ReviewAction → List ReviewAction
read_item_actions run_id item_id actions =
    keep (λ a. a.run_id == run_id && a.item_id == item_id) actions

-- Why a row is left out; the sentences are shortened.
abbrev pub no_such_item : String
no_such_item = "This run has no such item."

abbrev pub other_capability : String
other_capability = "The item belongs to another capability."

unfoldable pub why_nothing_to_prepare : List ReviewAction → String
why_nothing_to_prepare [] = "There is no approved action to prepare."
why_nothing_to_prepare (_ ∷ _) = "Everything approved for this item has already been completed."

-- What the loop has prepared and left out, and the rows.
pub record Prepared : Type 0 where
  pub prepared : List ReviewAction
  pub excluded : List ExcludedItem
  pub db : Database

abbrev pub leave_out : String → String → Prepared → Prepared
leave_out item_id reason p = record p {
  excluded = p.excluded ++ record { item_id = item_id; reason = reason } ∷ [];
}

-- `request.capability_key is not None and capability_key != request.capability_key`.
unfoldable pub is_elsewhere : Option String → String → Bool
is_elsewhere none key = false
is_elsewhere (some wanted) key = not (key == wanted)

module _ (services : Services) (upper : String → String) (loaded : List CapabilityConfig)
    (now : ℕ) where
  abbrev pub plan_on : ReviewAction → Database → Work (Unit {0})
  plan_on action db = record { action = action; items = db.items; events = db.events; mailbox = tt }

  abbrev pub planned : Work (Unit {0}) → Prepared → Prepared
  planned done p = record p {
    prepared = p.prepared ++ done.action ∷ [];
    db = record p.db {
      actions = save_action done.action p.db.actions;
      items = done.items;
      events = done.events;
    };
  }

  prepared_one :
      Prepared → Result ActionError (Unit {0}) × Work (Unit {0}) → Result HttpProblem Prepared
  unfolding save_action
  prepared_one p (raised e, done) = raised (action_failed e)
  prepared_one p (ok _, done) = ok (planned done p)

  prepare_each : CapabilityConfig → List ReviewAction → Prepared → Result HttpProblem Prepared
  unfolding prepared_one prepare_action
  prepare_each capability [] p = ok p
  prepare_each capability (a ∷ rest) p =
      prepared_one p (prepare_action upper capability now (plan_on a p.db)) >>= λ next.
      prepare_each capability rest next

  prepare_outstanding :
      CapabilityConfig → ReviewItem → List ReviewAction → Prepared → Result HttpProblem Prepared
  unfolding state_eq prepare_each why_nothing_to_prepare
  prepare_outstanding capability item recorded p =
      let outstanding = keep (λ a. not (state_eq a.state completed)) recorded in
      if is_empty outstanding
      then ok (leave_out item.id (why_nothing_to_prepare recorded) p)
      else prepare_each capability outstanding p

  abbrev pub with_tables : ActionTables → Prepared → Prepared
  with_tables tables p = record p {
    db = record p.db {
      actions = tables.actions;
      events = tables.events;
      decisions = tables.decisions;
    };
  }

  prepare_approved : String → CapabilityConfig → ReviewItem → Prepared → Result HttpProblem Prepared
  unfolding ensure_actions read_item_actions prepare_outstanding
  prepare_approved run_id capability item p =
      let tables =
        (ensure_actions services capability run_id (item ∷ []) (record {
          actions = p.db.actions;
          events = p.db.events;
          decisions = p.db.decisions;
        })).1 in
      prepare_outstanding capability item (read_item_actions run_id item.id tables.actions)
        (with_tables tables p)

  prepare_in :
      String
      → Option String
      → ReviewItem
      → Prepared
      → Option ReviewGroup
      → Result HttpProblem Prepared
  unfolding is_elsewhere read_capability prepare_approved
  prepare_in run_id wanted item p none = raised (no_group item.id)
  prepare_in run_id wanted item p (some group) =
      if is_elsewhere wanted group.capability_key
      then ok (leave_out item.id other_capability p)
      else (do
        capability ← read_capability loaded group.capability_key
        prepare_approved run_id capability item p)

  prepare_found :
      String → Option String → String → Prepared → Option ReviewItem → Result HttpProblem Prepared
  unfolding prepare_in group_with_id
  prepare_found run_id wanted item_id p none = ok (leave_out item_id no_such_item p)
  prepare_found run_id wanted item_id p (some item) =
      if item.run_id == run_id
      then prepare_in run_id wanted item p (group_with_id item.group_id p.db.groups)
      else ok (leave_out item_id no_such_item p)

  unfoldable pub prepare_selected :
      String → Option String → List String → Prepared → Result HttpProblem Prepared
  unfolding prepare_found find_item
  prepare_selected run_id wanted [] p = ok p
  prepare_selected run_id wanted (id ∷ ids) p =
      prepare_found run_id wanted id p (find_item id p.db.items) >>= λ next.
      prepare_selected run_id wanted ids next

  scoped : String → String → PrepareRequest → List String → Prepared → ActionScope × Database
  unfolding open_scope
  scoped id run_id request requested p =
      let (scope, scopes) =
        open_scope id run_id request.capability_key request.entire_capability requested p.prepared
          p.excluded human_actor now p.db.scopes in
      (scope, record p.db { scopes = scopes })

  -- `id` is the identity that the database gives the scope. Where it raises, the transaction is undone.
  unfoldable pub prepare_run_actions :
      String → String → PrepareRequest → Database → Result HttpProblem (ActionScope × Database)
  unfolding open_review requested_item_ids prepare_selected scoped
  prepare_run_actions id run_id request db = do
    open_review run_id db.runs
    requested ← requested_item_ids loaded run_id request db
    p ←
        prepare_selected run_id request.capability_key requested
          (record { prepared = []; excluded = []; db = db })
    ok (scoped id run_id request requested p)
