-- ===== src/Rulebook/Store.antt =====
-- adminos/domain/rulebook_store.py: the rules, their versions and their events as a database, and
-- the operations that write to it. Every operation makes its checks before its first write, and an
-- exception writes nothing, so an operation is a function into an error or a result with the new
-- database. Ids are drawn from a counter; `digest_of` is `RuleDraft.digest`.
pub mod Readers
pub mod Tables
mod Inversion
pub mod Conflicts
pub mod History
pub mod Vetted
pub mod Effective
use timmeny_admin_os.Common.{
  ℕ, suc, ◌+◌, String, Bool, true, false, not, ◌&&◌, ◌||◌, Option, none, some, List, [], ◌∷◌, ◌++◌,
  ◌==◌, nat_eqb, if◌then◌else◌, keep, map, sort_by, is_none, Result, ok, raised, ◌>>=◌, ◌>>◌,
  refuse_if, ◌≡◌, refl, ap, arith,
}
use timmeny_admin_os.Conditions.Fields.{Engine}
use timmeny_admin_os.Conditions.Tree.{Group}
use timmeny_admin_os.Capabilities.Config.{CapabilityConfig, enabled_keys, find_capability}
use timmeny_admin_os.Rulebook.Types.{RuleType, RuleType-discrete}
use timmeny_admin_os.Rulebook.Standing.{
  RuleStatus, proposed, confirmed, active, paused, retired, status_eq, is_effective, EventKind,
  amended, resumed, transition_event, TransitionProblem, check_transition,
}
use timmeny_admin_os.Rulebook.Draft.{RuleProblem, Effect, RuleDraft, check_draft}
use Tables.{
  Rule, RuleVersion, RuleEvent, Store, find_rule, find_version, find_version-id, update_rule,
}

pub data StoreProblem : Type 0 where
  rule_not_found : ℕ → StoreProblem
  no_version : ℕ → StoreProblem
  draft_refused : RuleProblem → StoreProblem
  already_said : ℕ → RuleStatus → StoreProblem
  stays_retired : StoreProblem
  another_type : RuleType → RuleType → StoreProblem
  move_refused : TransitionProblem → StoreProblem

pub record RuleRecord : Type 0 where
  pub rule : Rule
  pub version : RuleVersion

lift_draft : {A : Type 0} → Result RuleProblem A → Result StoreProblem A
lift_draft (ok a) = ok a
lift_draft (raised problem) = raised (draft_refused problem)

lift_move : {A : Type 0} → Result TransitionProblem A → Result StoreProblem A
lift_move (ok a) = ok a
lift_move (raised problem) = raised (move_refused problem)

-- `read_rule`.
current : ℕ → Rule → Option RuleVersion → Result StoreProblem RuleRecord
current id rule none = raised (no_version id)
current id rule (some version) = ok (record { rule = rule; version = version })

version_of : Option ℕ → List RuleVersion → Option RuleVersion
version_of none versions = none
version_of (some v) versions = find_version v versions

read_found : ℕ → Option Rule → Store → Result StoreProblem RuleRecord
unfolding current version_of
read_found id none s = raised (rule_not_found id)
read_found id (some rule) s = current id rule (version_of rule.current_version_id s.versions)

unfoldable pub read_rule : ℕ → Store → Result StoreProblem RuleRecord
unfolding read_found
read_rule id s = read_found id (find_rule id s.rules) s

current-ok :
    (id : ℕ) (rule : Rule) (v : Option RuleVersion) (found : RuleRecord)
    → current id rule v ≡ ok found
    → (rule ≡ found.rule) × (v ≡ some found.version)
unfolding current
current-ok id rule none found h = cc
current-ok id rule (some v) found h = ground arith

version_of-id :
    (v : Option ℕ) (vs : List RuleVersion) (version : RuleVersion)
    → version_of v vs ≡ some version
    → v ≡ some version.id
unfolding version_of
version_of-id none vs version h = cc
version_of-id (some v) vs version h = ground (arith, find_version-id v vs version h)

read_found-ok :
    (id : ℕ) (rule : Option Rule) (s : Store) (found : RuleRecord)
    → read_found id rule s ≡ ok found
    → (rule ≡ some found.rule) × (found.rule.current_version_id ≡ some found.version.id)
unfolding read_found
read_found-ok id none s found h = cc
read_found-ok id (some rule) s found h =
    let (same, version) =
      current-ok id rule (version_of rule.current_version_id s.versions) found h in
    let points = version_of-id rule.current_version_id s.versions found.version version in
    (ap some same, rw (← same) points)

-- What is read is the rule of that id, with the version that it points at.
pub read_rule-ok :
    (id : ℕ) (s : Store) (found : RuleRecord)
    → read_rule id s ≡ ok found
    → (find_rule id s.rules ≡ some found.rule)
      × (found.rule.current_version_id ≡ some found.version.id)
unfolding read_rule
read_rule-ok id s found h = read_found-ok id (find_rule id s.rules) s found h

-- The live rule that already says `digest`.
pub live_with : String → List Rule → Option Rule
live_with digest [] = none
live_with digest (r ∷ rs) =
    if r.digest == digest && not (status_eq r.status retired) then some r else live_with digest rs

refuse_live : Option Rule → Result StoreProblem (Unit {0})
refuse_live none = ok tt
refuse_live (some r) = raised (already_said r.id r.status)

pub capability_of : Option String → List CapabilityConfig → Option CapabilityConfig
capability_of none loaded = none
capability_of (some key) loaded = find_capability key loaded

pub same_type : RuleType → RuleType → Bool
same_type a b = elim (RuleType-discrete a b) [ yes p ↦ true | no p ↦ false ]

-- `_write_version`, for the version with the next id.
write_version : ℕ → ℕ → RuleDraft → String → ℕ → String → Option ℕ → RuleVersion
write_version id rule_id draft digest number actor previous = record {
  id = id;
  rule_id = rule_id;
  number = number;
  draft = draft;
  digest = digest;
  supersedes_version_id = previous;
  created_by = actor;
}

module _ (e : Engine) (digest_of : RuleDraft → String) where
  -- The rows that `propose_rule` adds, at the moment `now`.
  pub proposed_rule : RuleDraft → String → ℕ → Store → Rule
  proposed_rule draft actor now s = record {
    id = s.next;
    rule_type = draft.rule_type;
    capability_key = draft.capability_key;
    status = proposed;
    current_version_id = some (s.next + 1);
    digest = digest_of draft;
    created_by = actor;
    created_at = now;
    confirmed_at = none;
    activated_at = none;
    paused_at = none;
    retired_at = none;
  }

  pub write_proposed : RuleDraft → String → ℕ → Store → RuleRecord × Store
  unfolding proposed_rule write_version
  write_proposed draft actor now s =
      let rule = proposed_rule draft actor now s in
      let version = write_version (s.next + 1) s.next draft (digest_of draft) 1 actor none in
      (
        record { rule = rule; version = version },
        record {
          rules = s.rules ++ rule ∷ [];
          versions = s.versions ++ version ∷ [];
          events =
              s.events
              ++ record {
                rule_id = s.next;
                version_id = s.next + 1;
                kind = EventKind.proposed;
                from_status = none;
                to_status = proposed;
                actor = actor;
                created_at = now;
              }
                ∷ [];
          next = s.next + 2;
        },
      )

  unfoldable pub propose_rule :
      List CapabilityConfig
      → RuleDraft
      → String
      → ℕ
      → Store
      → Result StoreProblem (RuleRecord × Store)
  unfolding lift_draft capability_of live_with refuse_live write_proposed
  propose_rule loaded draft actor now s = do
    lift_draft
        (check_draft e draft (capability_of draft.capability_key loaded) (enabled_keys loaded))
    refuse_live (live_with (digest_of draft) s.rules)
    ok (write_proposed draft actor now s)

  pub amended_rule : RuleDraft → Rule → Store → Rule
  amended_rule draft rule s = record rule {
    current_version_id = some s.next;
    digest = digest_of draft;
    status = proposed;
    confirmed_at = none;
    activated_at = none;
    paused_at = none;
  }

  pub write_amended : RuleDraft → String → ℕ → RuleRecord → Store → RuleRecord × Store
  unfolding amended_rule write_version
  write_amended draft actor now found s =
      let rule = amended_rule draft found.rule s in
      let version =
        write_version s.next found.rule.id draft (digest_of draft) (found.version.number + 1) actor
          (some found.version.id) in
      (
        record { rule = rule; version = version },
        record {
          rules = update_rule rule s.rules;
          versions = s.versions ++ version ∷ [];
          events =
              s.events
              ++ record {
                rule_id = found.rule.id;
                version_id = s.next;
                kind = amended;
                from_status = some found.rule.status;
                to_status = proposed;
                actor = actor;
                created_at = now;
              }
                ∷ [];
          next = s.next + 1;
        },
      )

  unfoldable pub amend_rule :
      List CapabilityConfig
      → ℕ
      → RuleDraft
      → String
      → ℕ
      → Store
      → Result StoreProblem (RuleRecord × Store)
  unfolding lift_draft capability_of write_amended same_type
  amend_rule loaded rule_id draft actor now s = do
    found ← read_rule rule_id s
    refuse_if (status_eq found.rule.status retired) stays_retired
    refuse_if (not (same_type draft.rule_type found.rule.rule_type))
        (another_type found.rule.rule_type draft.rule_type)
    lift_draft
        (check_draft e draft (capability_of draft.capability_key loaded) (enabled_keys loaded))
    ok (write_amended draft actor now found s)

-- `move_rule`: the dates that a move sets, then the row, then the event.
pub moved_rule : RuleStatus → ℕ → Rule → Rule
unfolding status_eq
moved_rule to now rule = record rule {
  status = to;
  confirmed_at = if status_eq to confirmed then some now else rule.confirmed_at;
  activated_at =
      if status_eq to active && is_none rule.activated_at then some now else rule.activated_at;
  paused_at = if status_eq to paused then some now else none;
  retired_at = if status_eq to retired then some now else rule.retired_at;
}

move_event : RuleStatus → RuleStatus → EventKind
unfolding status_eq transition_event
move_event was to =
    if status_eq to active && status_eq was paused then resumed else transition_event to

pub write_moved : RuleStatus → String → ℕ → RuleRecord → Store → RuleRecord × Store
unfolding moved_rule move_event
write_moved to actor now found s =
    let rule = moved_rule to now found.rule in
    (
      record { rule = rule; version = found.version },
      record s {
        rules = update_rule rule s.rules;
        events =
            s.events
            ++ record {
              rule_id = found.rule.id;
              version_id = found.version.id;
              kind = move_event found.rule.status to;
              from_status = some found.rule.status;
              to_status = to;
              actor = actor;
              created_at = now;
            }
              ∷ [];
      },
    )

unfoldable pub move_rule :
    ℕ → RuleStatus → String → ℕ → Store → Result StoreProblem (RuleRecord × Store)
unfolding lift_move check_transition write_moved
move_rule rule_id to actor now s = do
  found ← read_rule rule_id s
  lift_move (check_transition found.rule.status to)
  ok (write_moved to actor now found s)
