-- ===== src/Plan/Begin.antt =====
-- `plan_for`, `activate_plan`, `settle_plan` and `begin_plan` of adminos/domain/plan.py, over the
-- rows of `review_plans`. The refusal of `begin_plan` comes with the rows as they were then. A
-- run has one plan at most, by the table's unique constraint.
pub mod Agreed
pub mod Signed
use timmeny_admin_os.Common.{
  ℕ, ◌+◌, String, Bool, true, false, not, ◌&&◌, ◌||◌, Option, none, some, List, [], ◌∷◌, ◌++◌, ◌==◌,
  if◌then◌else◌, elem, keep, all, is_empty, Result, ok, raised, ◌>>=◌, ◌>>◌, refuse_if,
}
use timmeny_admin_os.Capabilities.Config.{CapabilityConfig, enabled_keys}
use timmeny_admin_os.Plan.Arrange.{
  PlanRefused, nothing_to_work, sort_keys, arrange, set_aside, same_set,
}

pub data PlanStatus : Type 0 where
  proposed active : PlanStatus

pub record ReviewPlan : Type 0 where
  pub run_id : String
  pub status : PlanStatus
  pub version : ℕ
  pub sequence : List String
  pub skipped : List String
  pub config_version : String
  pub begun_at : Option ℕ
  pub begun_by : Option String

-- `LoadedCapabilities`: the capabilities, the version of the configuration, its digest and channel.
pub record Loaded : Type 0 where
  pub capabilities : List CapabilityConfig
  pub version : String
  pub digest : String
  pub channel : String

abbrev pub human_actor : String
human_actor = "human"

abbrev pub system_actor : String
system_actor = "system"

unfoldable pub find_plan : String → List ReviewPlan → Option ReviewPlan
find_plan run_id [] = none
find_plan run_id (p ∷ plans) = if p.run_id == run_id then some p else find_plan run_id plans

-- What the writes to a plan's columns leave in the table.
unfoldable pub save_plan : ReviewPlan → List ReviewPlan → List ReviewPlan
save_plan plan [] = []
save_plan plan (p ∷ plans) =
    let rest = save_plan plan plans in if p.run_id == plan.run_id then plan ∷ plans else p ∷ rest

new_plan : Loaded → String → Bool → ℕ → ReviewPlan
new_plan loaded run_id begun now = record {
  run_id = run_id;
  status = if begun then active else proposed;
  version = 1;
  sequence = enabled_keys loaded.capabilities;
  skipped = [];
  config_version = loaded.version;
  begun_at = if begun then some now else none;
  begun_by = if begun then some human_actor else none;
}

plan_or_new :
    Loaded → String → Bool → ℕ → List ReviewPlan → Option ReviewPlan → ReviewPlan × List ReviewPlan
unfolding new_plan
plan_or_new loaded run_id begun now plans (some plan) = (plan, plans)
plan_or_new loaded run_id begun now plans none =
    let plan = new_plan loaded run_id begun now in (plan, plans ++ plan ∷ [])

unfoldable pub plan_for :
    Loaded → String → Bool → ℕ → List ReviewPlan → ReviewPlan × List ReviewPlan
unfolding plan_or_new find_plan
plan_for loaded run_id begun now plans =
    plan_or_new loaded run_id begun now plans (find_plan run_id plans)

-- `xs == ys` for lists of texts.
abbrev pub same_sequence : List String → List String → Bool
same_sequence [] [] = true
same_sequence (x ∷ xs) (y ∷ ys) = x == y && same_sequence xs ys
same_sequence _ _ = false

-- The status `active` is given to a proposed plan only, with who began it and when.
unfoldable pub activated_from : PlanStatus → String → ℕ → ReviewPlan → ReviewPlan
activated_from active actor now plan = plan
activated_from proposed actor now plan = record plan {
  status = active;
  begun_at = some now;
  begun_by = some actor;
}

unfoldable pub activated : String → ℕ → ReviewPlan → ReviewPlan
unfolding activated_from
activated actor now plan = activated_from plan.status actor now plan

unfoldable pub activate_found :
    String → ℕ → List ReviewPlan → Option ReviewPlan → Option ReviewPlan × List ReviewPlan
unfolding activated save_plan
activate_found actor now plans none = (none, plans)
activate_found actor now plans (some plan) =
    let agreed = activated actor now plan in (some agreed, save_plan agreed plans)

unfoldable pub activate_plan :
    String → String → ℕ → List ReviewPlan → Option ReviewPlan × List ReviewPlan
unfolding activate_found find_plan
activate_plan run_id actor now plans = activate_found actor now plans (find_plan run_id plans)

unfoldable pub settle_plan :
    Option ReviewPlan → ℕ → List ReviewPlan → Option ReviewPlan × List ReviewPlan
unfolding activate_found
settle_plan plan now plans = activate_found system_actor now plans plan

-- The columns that agreeing writes, once the order and the omissions are known.
changed : List String → List String → ReviewPlan → Bool
unfolding same_set
changed sequence omitted plan =
    not (same_sequence plan.sequence sequence) || not (same_set plan.skipped omitted)

rewritten : Loaded → List String → List String → ReviewPlan → ReviewPlan
unfolding changed sort_keys
rewritten loaded sequence omitted plan = record plan {
  sequence = sequence;
  skipped = sort_keys omitted;
  config_version = loaded.version;
  version = if changed sequence omitted plan then plan.version + 1 else plan.version;
}

agreed : Loaded → String → ℕ → List String → List String → ReviewPlan → ReviewPlan
unfolding rewritten activated
agreed loaded actor now sequence omitted plan =
    activated actor now (rewritten loaded sequence omitted plan)

begun :
    Loaded
    → String
    → ℕ
    → List ReviewPlan
    → ReviewPlan
    → Result PlanRefused (List String × List String)
    → Result PlanRefused ReviewPlan × List ReviewPlan
unfolding agreed save_plan
begun loaded actor now plans plan (raised e) = (raised e, plans)
begun loaded actor now plans plan (ok (sequence, omitted)) =
    let after = agreed loaded actor now sequence omitted plan in (ok after, save_plan after plans)

-- The order and the omissions that are asked for.
unfoldable pub chosen :
    List String
    → Option (List String)
    → Option (List String)
    → Option (List String)
    → Result PlanRefused (List String × List String)
unfolding arrange set_aside
chosen configured order only skip = do
  sequence ← arrange configured order
  omitted ← set_aside configured sequence only skip
  refuse_if (all (λ key. elem key omitted) sequence) nothing_to_work
  ok (sequence, omitted)

unfoldable pub begin_plan :
    Loaded
    → String
    → Option (List String)
    → Option (List String)
    → Option (List String)
    → String
    → ℕ
    → List ReviewPlan
    → Result PlanRefused ReviewPlan × List ReviewPlan
unfolding plan_for begun chosen enabled_keys
begin_plan loaded run_id order only skip actor now plans =
    let (plan, planned) = plan_for loaded run_id true now plans in
    let configured = enabled_keys loaded.capabilities in
    begun loaded actor now planned plan (chosen configured order only skip)
