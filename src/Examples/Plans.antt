-- ===== src/Examples/Plans.antt =====
-- Plans of a review of two groups, and the standing of two rows.
use timmeny_admin_os.Common.{
  ◌≤◌, String, true, ◌≡◌, refl, none, some, List, [], ◌∷◌, elem, map, ok, arith,
}
use timmeny_admin_os.Capabilities.Config.{CapabilityConfig, enabled_keys}
use timmeny_admin_os.Actions.Rows.{ReviewAction, ReviewItem, failed, completed}
use timmeny_admin_os.Plan.Arrange.Order.{IsDistinct}
use timmeny_admin_os.Plan.Begin.{ReviewPlan, active, Loaded, begin_plan, plan_for, find_plan}
use timmeny_admin_os.Plan.Begin.Agreed.{IsWorkable, IsCounted, begin_plan-IsWorkable}
use timmeny_admin_os.Plan.Begin.Signed.{beginner, begin_plan-begun_by}
use timmeny_admin_os.Plan.Standing.{carried, count_standing, outstanding}
use timmeny_admin_os.Plan.Standing.Counts.{count_standing-outstanding}
use timmeny_admin_os.Examples.Samples.{mail, offer, archive_action, move_action}

abbrev legal : CapabilityConfig
legal = record mail { key = "legal"; position = 2 }

abbrev loaded : Loaded
loaded = record {
  capabilities = legal ∷ mail ∷ [];
  version = "v3";
  digest = "d";
  channel = "email";
}

two_groups : IsDistinct (enabled_keys loaded.capabilities)
unfolding IsDistinct enabled_keys
two_groups = (refl, (refl, tt))

abbrev legal_first : ReviewPlan
legal_first = record {
  run_id = "r1";
  status = active;
  version = 2;
  sequence = "legal" ∷ "mail" ∷ [];
  skipped = "mail" ∷ [];
  config_version = "v3";
  begun_at = some 5;
  begun_by = some "human";
}

begins :
    (begin_plan loaded "r1" (some ("legal" ∷ [])) none (some ("mail" ∷ [])) "brian" 5 []).0
    ≡ ok legal_first
unfolding begin_plan enabled_keys
begins = refl

begin_plan-IsWorkable_example :
    IsWorkable (enabled_keys loaded.capabilities) ("legal" ∷ []) legal_first
    × IsCounted (plan_for loaded "r1" true 5 []).0 legal_first
    × (find_plan "r1"
          (begin_plan loaded "r1" (some ("legal" ∷ [])) none (some ("mail" ∷ [])) "brian" 5 []).1
        ≡ some legal_first)
begin_plan-IsWorkable_example =
    begin_plan-IsWorkable loaded "r1" (some ("legal" ∷ [])) none (some ("mail" ∷ [])) "brian" 5 []
      legal_first two_groups begins

begin_plan-begun_by_example : legal_first.begun_by ≡ beginner (find_plan "r1" []) "brian"
begin_plan-begun_by_example =
    begin_plan-begun_by loaded "r1" (some ("legal" ∷ [])) none (some ("mail" ∷ [])) "brian" 5 []
      legal_first begins

abbrev items : List ReviewItem
items = offer ∷ record offer { id = "i2" } ∷ []

abbrev actions : List ReviewAction
actions =
    record archive_action { state = failed }
    ∷ record move_action { item_id = "i2"; state = completed }
    ∷ []

one_each : IsDistinct (carried actions)
unfolding IsDistinct carried
one_each = (refl, tt)

owned : (id : String) → elem id (carried actions) ≡ true → elem id (map (λ i. i.id) items) ≡ true
unfolding carried
owned id h = ground (arith, h)

count_standing-outstanding_example : outstanding (count_standing items actions) ≤ 2
count_standing-outstanding_example = count_standing-outstanding items actions one_each owned
