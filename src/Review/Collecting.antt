-- ===== src/Review/Collecting.antt =====
-- `populate_group`, `withdraw_out_of_scope` and `authorise_by_rule` of
-- adminos/domain/review.py. `fold` is `str.casefold`, and `Fresh` holds the identities that the database
-- gives new rows.
use timmeny_admin_os.Common.{
  ℕ, String, Bool, true, false, not, ◌&&◌, Option, none, some, List, [], ◌∷◌, ◌++◌, ◌==◌, ◌<>◌,
  if◌then◌else◌, any, elem, keep, map, is_none, sort_by, order_by, ltb, Members, end, member,
}
use timmeny_admin_os.Capabilities.{ActionKind, action_kind, collect_evidence}
use timmeny_admin_os.Capabilities.Config.{CapabilityConfig, allows}
use timmeny_admin_os.Actions.Rows.{
  pending, approved, deferred, ReviewItem, ReviewDecision, approve, defer,
}
use timmeny_admin_os.Candidates.{LearnedRule}
use timmeny_admin_os.Mailboxes.{ReviewScope, admits}
use timmeny_admin_os.Review.Rows.{ReviewGroup}
use timmeny_admin_os.Review.Reading.{group_with_id, read_group_items}
use timmeny_admin_os.Review.Checking.{is_pending, is_terminal}
use timmeny_admin_os.Review.Policy.{Evidence, PolicyOutcome, evaluate_policy}

pub record Fresh : Type 0 where
  pub group : List ReviewGroup → String
  pub item : List ReviewItem → String
  pub decision : List ReviewDecision → String

-- The rows that filling a review writes.
pub record Sheet : Type 0 where
  pub groups : List ReviewGroup
  pub items : List ReviewItem
  pub decisions : List ReviewDecision

-- `ORDER BY received_at DESC NULLS LAST`.
newest : Option ℕ → Option ℕ → Bool
newest none none = true
newest none (some n) = false
newest (some m) none = true
newest (some m) (some n) = not (ltb m n)

unfoldable pub read_capability_evidence : String → List Evidence → List Evidence
unfolding newest
read_capability_evidence key evidence =
    keep (λ e. elem key e.capability_keys)
      (order_by (λ a b. newest a.received_at b.received_at) evidence)

in_capability : String → List ReviewGroup → ReviewItem → Bool
unfolding group_with_id
in_capability key groups item = elim (group_with_id item.group_id groups) [
  | none ↦ false
  | some g ↦ g.capability_key == key
]

-- The last settled row of the evidence that has a hash: a later key of the dictionary stays.
last_settled : String → Option String → List ReviewItem → Option String
unfolding is_terminal
last_settled evidence_id found [] = found
last_settled evidence_id found (i ∷ rest) =
    last_settled evidence_id
      (if i.evidence_id == evidence_id && is_terminal i.state && not (is_none i.evidence_hash)
        then i.evidence_hash
        else found)
      rest

-- `read_settled_hashes(session, capability_key).get(evidence_id)`.
unfoldable pub settled_hash : String → String → Sheet → Option String
unfolding last_settled in_capability
settled_hash key evidence_id sheet =
    last_settled evidence_id none
      (sort_by (λ i. i.created_at) (keep (in_capability key sheet.groups) sheet.items))

same_hash : Option String → Option String → Bool
same_hash (some a) (some b) = a == b
same_hash _ _ = false

unfoldable pub is_present : String → String → List ReviewItem → Bool
is_present group_id evidence_id items =
    any (λ i. i.group_id == group_id && i.evidence_id == evidence_id) items

some_unless_empty : Members → Option Members
some_unless_empty end = none
some_unless_empty (member k v rest) = some (member k v rest)

module _ (fold : String → String) (fresh : Fresh) (now : ℕ) (run_id : String)
    (capability : CapabilityConfig) where
  unfoldable pub new_item : String → Evidence → PolicyOutcome → List ReviewItem → ReviewItem
  unfolding some_unless_empty
  new_item group_id e outcome items = record {
    id = fresh.item items;
    run_id = run_id;
    group_id = group_id;
    evidence_id = e.id;
    source_thread_id = e.source_thread_id;
    evidence_hash = e.content_hash;
    subject = e.subject;
    participants = e.participants;
    received_at = e.received_at;
    state = pending;
    recommendation = outcome.recommendation;
    recommendation_source = outcome.source;
    recommendation_confidence = outcome.confidence;
    recommendation_rationale = some outcome.rationale;
    recommendation_params = some_unless_empty outcome.params;
    policy_version = capability.recommendation_policy.version;
    rule_id = outcome.rule_id;
    model_version = none;
    category = none;
    objective_keys = some outcome.objective_keys;
    approved_action = none;
    approved_params = none;
    created_at = now;
    decided_at = none;
  }

  rule_decision :
      String → ReviewItem → ActionKind → PolicyOutcome → List ReviewDecision → ReviewDecision
  unfolding some_unless_empty
  rule_decision rule_id item action outcome decisions = record {
    id = fresh.decision decisions;
    run_id = run_id;
    item_id = item.id;
    capability_key = capability.key;
    decision = approve;
    action = some action;
    action_params = some_unless_empty outcome.params;
    followed_recommendation = true;
    recommendation = item.recommendation;
    actor = "rule:" <> rule_id;
    batch_id = none;
    learning_scope = capability.learning.scope;
    note = some ("Approved by automatable rule " <> rule_id <> ".");
    created_at = now;
  }

  -- The item as the rule approves it, with the decision; an outcome whose recommendation is no action
  -- is the `ValueError` of `ActionKind`, which no automatable rule makes.
  unfoldable pub authorise_by_rule :
      String → PolicyOutcome → ReviewItem → Option ActionKind → Sheet → ReviewItem × Sheet
  unfolding rule_decision
  authorise_by_rule rule_id outcome item none sheet = (item, sheet)
  authorise_by_rule rule_id outcome item (some action) sheet = (
    record item {
      state = approved;
      approved_action = some action;
      approved_params = some outcome.params;
      decided_at = some now;
    },
    record sheet {
      decisions = sheet.decisions ++ rule_decision rule_id item action outcome sheet.decisions ∷ [];
    },
  )

  -- `if outcome.automatable and outcome.rule_id is not None`.
  unfoldable pub authorised_item :
      Bool → Option String → PolicyOutcome → ReviewItem → Sheet → ReviewItem × Sheet
  unfolding authorise_by_rule action_kind
  authorised_item true (some rule_id) outcome item sheet =
      authorise_by_rule rule_id outcome item (action_kind outcome.recommendation) sheet
  authorised_item _ _ outcome item sheet = (item, sheet)

  unfoldable pub add_evidence : String → Evidence → PolicyOutcome → Sheet → Sheet
  unfolding new_item authorised_item
  add_evidence group_id e outcome sheet =
      let (item, after) =
        authorised_item outcome.automatable outcome.rule_id outcome
          (new_item group_id e outcome sheet.items) sheet in
      record after { items = after.items ++ item ∷ [] }

  -- The thread is not in the group yet, is in the scope, and has changed since it was last settled.
  unfoldable pub is_outstanding : String → ReviewScope → Sheet → Sheet → Evidence → Bool
  unfolding is_present admits same_hash settled_hash
  is_outstanding group_id scope before sheet e =
      not (is_present group_id e.id before.items)
      && admits scope e.label_ids e.snoozed
      && not (same_hash (settled_hash capability.key e.id before) e.content_hash)

  unfoldable pub populate_each :
      String → ReviewScope → List LearnedRule → Sheet → List Evidence → Sheet → Sheet
  unfolding is_outstanding add_evidence evaluate_policy
  populate_each group_id scope learned before [] sheet = sheet
  populate_each group_id scope learned before (e ∷ rest) sheet =
      populate_each group_id scope learned before rest (
        if is_outstanding group_id scope before sheet e
        then add_evidence group_id e (evaluate_policy fold capability e now learned) sheet
        else sheet)

  unfoldable pub populate_group :
      String → ReviewScope → List LearnedRule → List Evidence → Sheet → Sheet
  unfolding populate_each read_capability_evidence
  populate_group group_id scope learned evidence sheet =
      if allows capability.playbook collect_evidence
      then populate_each group_id scope learned sheet
          (read_capability_evidence capability.key evidence) sheet
      else sheet

  -- Where the evidence of a row was last seen, if it has been: the last of that identity.
  last_seen : String → Option Evidence → List Evidence → Option Evidence
  last_seen id found [] = found
  last_seen id found (e ∷ rest) =
      last_seen id (if e.id == id && not (is_none e.label_ids) then some e else found) rest

  has_left : ReviewScope → Option Evidence → Bool
  unfolding admits
  has_left scope none = false
  has_left scope (some e) = not (admits scope e.label_ids e.snoozed)

  -- The row is one of the group that is pending, and its thread is known to have left the scope.
  unfoldable pub is_withdrawn : String → ReviewScope → List Evidence → ReviewItem → Bool
  unfolding is_pending has_left last_seen read_capability_evidence
  is_withdrawn group_id scope evidence item =
      item.group_id == group_id
      && is_pending item.state
      && has_left scope
          (last_seen item.evidence_id none (read_capability_evidence capability.key evidence))

  withdrawal : ReviewScope → ReviewItem → List ReviewDecision → ReviewDecision
  withdrawal scope item decisions = record {
    id = fresh.decision decisions;
    run_id = run_id;
    item_id = item.id;
    capability_key = capability.key;
    decision = defer;
    action = none;
    action_params = none;
    followed_recommendation = false;
    recommendation = item.recommendation;
    actor = "scope:" <> scope.name;
    batch_id = none;
    learning_scope = capability.learning.scope;
    note = some (
        "Left the " <> scope.name
        <> " scope before it was decided, so it is no longer part of this review.");
    created_at = now;
  }

  -- A row that is withdrawn is deferred; every other row stays as it is.
  unfoldable pub withdrawn_item : String → ReviewScope → List Evidence → ReviewItem → ReviewItem
  unfolding is_withdrawn
  withdrawn_item group_id scope evidence item =
      if is_withdrawn group_id scope evidence item
      then record item { state = deferred; decided_at = some now }
      else item

  withdraw_each : ReviewScope → List ReviewItem → List ReviewDecision → List ReviewDecision
  unfolding withdrawal
  withdraw_each scope [] decisions = decisions
  withdraw_each scope (i ∷ rest) decisions =
      withdraw_each scope rest (decisions ++ withdrawal scope i decisions ∷ [])

  -- The decisions stand in the order of `read_group_items`.
  unfoldable pub withdraw_out_of_scope : String → ReviewScope → List Evidence → Sheet → Sheet
  unfolding withdrawn_item is_withdrawn withdraw_each read_group_items
  withdraw_out_of_scope group_id scope evidence sheet =
      let gone =
        keep (is_withdrawn group_id scope evidence) (read_group_items group_id sheet.items) in
      record sheet {
        items = map (withdrawn_item group_id scope evidence) sheet.items;
        decisions = withdraw_each scope gone sheet.decisions;
      }
