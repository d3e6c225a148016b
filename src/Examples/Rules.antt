-- ===== src/Examples/Rules.antt =====
-- Rules: one notification, from its proposal to its retirement, and a clash of two rules.
use timmeny_admin_os.Common.{
  ℕ, ◌≤◌, String, true, false, ◌≡◌, ◌≢◌, inl, refl, arith, Option, none, some, List, [], ◌∷◌, ◌++◌,
  is_empty, ok, len, strip,
}
use timmeny_admin_os.Capabilities.{
  gmail_archive, gmail_move, gmail_send_draft, gmail_draft_reply, action_kind, is_recommendation,
  read_action_kind,
}
use timmeny_admin_os.Capabilities.Config.{
  check_permissions, may_execute, permits, auto_approves, CapabilityConfig,
}
use timmeny_admin_os.Capabilities.Config.Grants.{check_permissions_grants}
use timmeny_admin_os.Conditions.Fields.{operator_eq, spec, is_negation}
use timmeny_admin_os.Conditions.Leaf.{narrows}
use timmeny_admin_os.Conditions.Tree.{group_narrows, check_breadth}
use timmeny_admin_os.Rulebook.Types.{
  RuleType-discrete, email_notification, show_notification, available, carries, recommend_action,
  email_filing,
}
use timmeny_admin_os.Rulebook.Standing.{
  RuleStatus, status_eq, proposed, tested, confirmed, active, retired, EventKind, is_effective,
  status_eq,
}
use timmeny_admin_os.Rulebook.Draft.{Effect, RuleDraft, read_draft, check_draft, slots}
use timmeny_admin_os.Rulebook.Draft.Permitted.{IsPermitted, check_draft-IsPermitted}
use timmeny_admin_os.Rulebook.Draft.OneJob.{read_draft-one_effect, read_draft-recommends_only}
use timmeny_admin_os.Rulebook.Store.Tables.{
  Rule, RuleVersion, RuleEvent, Store, empty, find_rule, find_version, update_rule,
}
use timmeny_admin_os.Rulebook.Store.{RuleRecord, propose_rule, amend_rule, move_rule, read_rule}
use timmeny_admin_os.Rulebook.Store.Conflicts.{AreDistinct, is_live, amend_rule-clash}
use timmeny_admin_os.Rulebook.Store.History.{
  propose, move, Reach, here, next, IsExtension, Reach-IsExtension, retired_is_final,
}
use timmeny_admin_os.Rulebook.Store.Vetted.{seen, effective_was_vetted}
use timmeny_admin_os.Examples.Samples.{mail}
use timmeny_admin_os.Examples.Trees.{engine, invoices}

abbrev notice : Effect
notice = record {
  kind = show_notification;
  group_key = none;
  action = none;
  params = [];
  message = some "An invoice";
}

abbrev draft : RuleDraft
draft = record {
  name = "Invoices";
  description = "";
  rule_type = email_notification;
  capability_key = none;
  priority = 100;
  match = invoices;
  effects = notice ∷ [];
  constraints = record {
    auto_execute = false;
    requires_decision = true;
    requires_preparation = true;
    requires_execution_confirmation = true;
    requires_verification = true;
    automation_level = 1;
    maximum_items_per_run = none;
  };
  positive_examples = [];
  negative_examples = [];
  change_reason = "";
}

abbrev no_names : String → List String
no_names pattern = []

reads : read_draft no_names draft ≡ ok tt
unfolding read_draft len slots
reads = refl

read_draft-one_effect_example :
    (available email_notification ≡ true)
    × ((effect : Effect) × (draft.effects ≡ effect ∷ [])
        × (carries email_notification effect.kind ≡ true))
read_draft-one_effect_example = read_draft-one_effect no_names draft reads

read_draft-recommends_only_example :
    (draft.constraints.auto_execute ≡ false)
    × (draft.constraints.automation_level ≤ 1)
    × (draft.constraints.requires_decision ≡ true)
    × (draft.constraints.requires_preparation ≡ true)
    × (draft.constraints.requires_execution_confirmation ≡ true)
    × (draft.constraints.requires_verification ≡ true)
read_draft-recommends_only_example = read_draft-recommends_only no_names draft reads

sound : check_permissions mail ≡ ok tt
unfolding check_permissions action_kind
sound = refl

check_permissions_grants_example :
    (may_execute mail gmail_archive ≡ true → permits mail gmail_archive ≡ true)
    × (auto_approves mail gmail_archive 95 ≡ true → permits mail gmail_archive ≡ true)
    × (action_kind mail.recommendation_policy.default ≡ none)
    × (permits mail gmail_move ≡ true → is_empty mail.destinations ≡ false)
    × (may_execute mail gmail_send_draft ≡ true → may_execute mail gmail_draft_reply ≡ true)
check_permissions_grants_example = check_permissions_grants mail gmail_archive 95 sound

-- The message of the effect stands for what a draft says: its name is no part of that.
abbrev message_of : List Effect → String
message_of [] = ""
message_of (e ∷ rest) = elim e.message [ none ↦ "" | some message ↦ message ]

abbrev digest_of : RuleDraft → String
digest_of d = message_of d.effects

abbrev rule : Rule
rule = record {
  id = 0;
  rule_type = email_notification;
  capability_key = none;
  status = proposed;
  current_version_id = some 1;
  digest = "An invoice";
  created_by = "brian";
  created_at = 1;
  confirmed_at = none;
  activated_at = none;
  paused_at = none;
  retired_at = none;
}

abbrev version : RuleVersion
version = record {
  id = 1;
  rule_id = 0;
  number = 1;
  draft = draft;
  digest = "An invoice";
  supersedes_version_id = none;
  created_by = "brian";
}

abbrev event : EventKind → Option RuleStatus → RuleStatus → ℕ → RuleEvent
event kind was to now = record {
  rule_id = 0;
  version_id = 1;
  kind = kind;
  from_status = was;
  to_status = to;
  actor = "brian";
  created_at = now;
}

abbrev was_proposed : Store
was_proposed = record {
  rules = rule ∷ [];
  versions = version ∷ [];
  events = event EventKind.proposed none proposed 1 ∷ [];
  next = 2;
}

abbrev tested_rule : Rule
tested_rule = record rule { status = tested }

abbrev was_tested : Store
was_tested = record was_proposed {
  rules = tested_rule ∷ [];
  events = was_proposed.events ++ event EventKind.tested (some proposed) tested 2 ∷ [];
}

abbrev confirmed_rule : Rule
confirmed_rule = record rule { status = confirmed; confirmed_at = some 3 }

abbrev was_confirmed : Store
was_confirmed = record was_proposed {
  rules = confirmed_rule ∷ [];
  events = was_tested.events ++ event EventKind.confirmed (some tested) confirmed 3 ∷ [];
}

abbrev active_rule : Rule
active_rule = record confirmed_rule { status = active; activated_at = some 4 }

abbrev is_activated : Store
is_activated = record was_proposed {
  rules = active_rule ∷ [];
  events = was_confirmed.events ++ event EventKind.activated (some confirmed) active 4 ∷ [];
}

abbrev retired_rule : Rule
retired_rule = record rule { status = retired; retired_at = some 5 }

abbrev was_retired : Store
was_retired = record was_proposed {
  rules = retired_rule ∷ [];
  events = was_proposed.events ++ event EventKind.retired (some proposed) retired 5 ∷ [];
}

abbrev at : Rule → RuleRecord
at r = record { rule = r; version = version }

proposes : propose_rule engine digest_of [] draft "brian" 1 empty ≡ ok (at rule, was_proposed)
unfolding propose_rule check_draft check_breadth group_narrows narrows spec is_negation operator_eq
    len strip
proposes = refl

tests : move_rule 0 tested "brian" 2 was_proposed ≡ ok (at tested_rule, was_tested)
unfolding move_rule read_rule find_rule find_version update_rule
tests = refl

confirms : move_rule 0 confirmed "brian" 3 was_tested ≡ ok (at confirmed_rule, was_confirmed)
unfolding move_rule read_rule find_rule find_version update_rule
confirms = refl

activates : move_rule 0 active "brian" 4 was_confirmed ≡ ok (at active_rule, is_activated)
unfolding move_rule read_rule find_rule find_version update_rule
activates = refl

retires : move_rule 0 retired "brian" 5 was_proposed ≡ ok (at retired_rule, was_retired)
unfolding move_rule read_rule find_rule find_version update_rule
retires = refl

history : Reach engine digest_of empty is_activated
history =
    next
      (next
        (next (next here (propose [] draft "brian" 1 (at rule) proposes))
          (move 0 tested "brian" 2 (at tested_rule) tests))
        (move 0 confirmed "brian" 3 (at confirmed_rule) confirms))
      (move 0 active "brian" 4 (at active_rule) activates)

finds_active : find_rule 0 is_activated.rules ≡ some active_rule
unfolding find_rule
finds_active = refl

is_in_force : is_effective active_rule.status ≡ true
unfolding is_effective
is_in_force = refl

effective_was_vetted_example :
    (seen EventKind.tested is_activated.events active_rule ≡ true)
    × (seen EventKind.confirmed is_activated.events active_rule ≡ true)
effective_was_vetted_example =
    effective_was_vetted engine digest_of 0 active_rule history finds_active is_in_force

Reach-IsExtension_example : IsExtension engine digest_of empty is_activated
Reach-IsExtension_example = Reach-IsExtension engine digest_of history

finds_retired : find_rule 0 was_retired.rules ≡ some retired_rule
unfolding find_rule
finds_retired = refl

abbrev second_rule : Rule
second_rule = record rule { id = 2; current_version_id = some 3; created_at = 6 }

abbrev two_rules : Store
two_rules = record {
  rules = retired_rule ∷ second_rule ∷ [];
  versions = version ∷ record version { id = 3; rule_id = 2 } ∷ [];
  events =
      was_retired.events
      ++ record (event EventKind.proposed none proposed 6) { rule_id = 2; version_id = 3 } ∷ [];
  next = 4;
}

proposes_again :
    propose_rule engine digest_of [] draft "brian" 6 was_retired
    ≡ ok
        (record { rule = second_rule; version = record version { id = 3; rule_id = 2 } }, two_rules)
unfolding propose_rule check_draft check_breadth group_narrows narrows spec is_negation operator_eq
    len strip status_eq
proposes_again = refl

retired_is_final_example : find_rule 0 two_rules.rules ≡ some retired_rule
retired_is_final_example =
    retired_is_final engine digest_of 0 retired_rule
      (next here (
        propose [] draft "brian" 6
          (record { rule = second_rule; version = record version { id = 3; rule_id = 2 } })
          proposes_again))
      finds_retired refl

abbrev receipts : RuleDraft
receipts = record draft {
  name = "Receipts";
  effects = record notice { message = some "A receipt" } ∷ [];
}

abbrev receipts_rule : Rule
receipts_rule = record second_rule { digest = "A receipt" }

abbrev receipts_version : RuleVersion
receipts_version = record version { id = 3; rule_id = 2; draft = receipts; digest = "A receipt" }

abbrev both : Store
both = record {
  rules = rule ∷ receipts_rule ∷ [];
  versions = version ∷ receipts_version ∷ [];
  events = was_proposed.events;
  next = 4;
}

-- The second rule comes to say what the first says.
abbrev amended_rule : Rule
amended_rule = record receipts_rule { current_version_id = some 4; digest = "An invoice" }

abbrev amended_version : RuleVersion
amended_version = record version { id = 4; rule_id = 2; number = 2; supersedes_version_id = some 3 }

abbrev clashing : Store
clashing = record {
  rules = rule ∷ amended_rule ∷ [];
  versions = both.versions ++ amended_version ∷ [];
  events =
      both.events
      ++ record (event EventKind.amended (some proposed) proposed 7) { rule_id = 2; version_id = 4 }
        ∷ [];
  next = 5;
}

amends :
    amend_rule engine digest_of [] 2 draft "brian" 7 both
    ≡ ok (record { rule = amended_rule; version = amended_version }, clashing)
unfolding amend_rule read_rule find_rule find_version status_eq RuleType-discrete check_draft
    check_breadth group_narrows narrows spec is_negation operator_eq len strip update_rule
amends = refl

another : ◌≢◌ {A = ℕ} 0 2
another h = omega (arith, h)

finds_first : find_rule 0 both.rules ≡ some rule
unfolding find_rule
finds_first = refl

lives : is_live rule ≡ true
unfolding status_eq
lives = refl

amend_rule-clash_example : ¬ (AreDistinct clashing.rules)
amend_rule-clash_example =
    amend_rule-clash engine digest_of [] 2 0 draft "brian" 7 both clashing
      (record { rule = amended_rule; version = amended_version }) rule amends another finds_first
      lives refl

abbrev filing : Effect
filing = record {
  kind = recommend_action;
  group_key = none;
  action = some "gmail.move";
  params = ("label", "Receipts") ∷ [];
  message = none;
}

abbrev filing_draft : RuleDraft
filing_draft = record draft {
  rule_type = email_filing;
  capability_key = some "mail";
  effects = filing ∷ [];
}

lets_through : check_draft engine filing_draft (some mail) ("mail" ∷ []) ≡ ok tt
unfolding check_draft check_breadth group_narrows narrows spec is_negation operator_eq len strip
    is_recommendation read_action_kind permits
lets_through = refl

not_recommendation : is_recommendation "gmail.move" ≡ false
unfolding is_recommendation
not_recommendation = refl

check_draft-IsPermitted_example :
    (c : CapabilityConfig) × (some mail ≡ some c) × IsPermitted c filing "gmail.move"
check_draft-IsPermitted_example =
    check_draft-IsPermitted engine filing_draft (some mail) ("mail" ∷ []) filing "gmail.move"
      lets_through (inl refl) refl refl not_recommendation
