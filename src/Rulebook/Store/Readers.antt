-- ===== src/Rulebook/Store/Readers.antt =====
-- `read_rules` and `read_effective_rules` of adminos/domain/rulebook_store.py.
use timmeny_admin_os.Common.{
  String, Bool, true, false, ◌&&◌, Option, none, some, List, [], ◌∷◌, ◌==◌, keep, sort_by, Result,
  ok, ◌>>=◌,
}
use timmeny_admin_os.Rulebook.Types.{RuleType}
use timmeny_admin_os.Rulebook.Standing.{RuleStatus, status_eq, is_effective}
use timmeny_admin_os.Rulebook.Store.Tables.{Rule, Store}
use timmeny_admin_os.Rulebook.Store.{StoreProblem, RuleRecord, read_rule, same_type}

-- `[read_rule(session, rule.id) for rule in rules]`.
unfoldable pub read_each : List Rule → Store → Result StoreProblem (List RuleRecord)
unfolding read_rule
read_each [] s = ok []
read_each (r ∷ rs) s = do found ← read_rule r.id s; rest ← read_each rs s; ok (found ∷ rest)

-- Lowest priority first, then oldest: two stable sorts.
unfoldable pub by_priority : List RuleRecord → List RuleRecord
by_priority found = sort_by (λ f. f.version.draft.priority) (sort_by (λ f. f.rule.created_at) found)

unfoldable pub wanted_text : Option String → Option String → Bool
wanted_text none value = true
wanted_text (some wanted) none = false
wanted_text (some wanted) (some value) = value == wanted

unfoldable pub wanted_type : Option RuleType → RuleType → Bool
unfolding same_type
wanted_type none t = true
wanted_type (some wanted) t = same_type t wanted

unfoldable pub wanted_status : Option RuleStatus → RuleStatus → Bool
unfolding status_eq
wanted_status none status = true
wanted_status (some wanted) status = status_eq status wanted

unfoldable pub sorted_records :
    Result StoreProblem (List RuleRecord) → Result StoreProblem (List RuleRecord)
unfolding by_priority
sorted_records r = do found ← r; ok (by_priority found)

unfoldable pub read_rules :
    Option RuleType
    → Option RuleStatus
    → Option String
    → Store
    → Result StoreProblem (List RuleRecord)
unfolding wanted_type wanted_status wanted_text read_each sorted_records
read_rules rule_type status capability_key s = sorted_records (
    read_each
      (keep
        (λ r.
          wanted_type rule_type r.rule_type
          && wanted_status status r.status
          && wanted_text capability_key r.capability_key)
        (sort_by (λ r. r.created_at) s.rules))
      s)

-- `read_effective_rules`; a rule of no capability serves every capability.
unfoldable pub for_capability : Option String → Option String → Bool
for_capability none key = true
for_capability (some wanted) none = true
for_capability (some wanted) (some key) = key == wanted

unfoldable pub read_effective_rules : Option String → Store → Result StoreProblem (List RuleRecord)
unfolding for_capability is_effective read_each sorted_records
read_effective_rules capability_key s = sorted_records (
    read_each
      (keep (λ r. is_effective r.status && for_capability capability_key r.capability_key) s.rules)
      s)
