-- ===== src/Examples/Decisions.antt =====
-- Decisions on a group of one item that waits for one.
use timmeny_admin_os.Common.{map, ◌≡◌, refl, none, some, [], ◌∷◌, end, ok, raised}
use timmeny_admin_os.Capabilities.{gmail_trash}
use timmeny_admin_os.Capabilities.Config.{allows}
use timmeny_admin_os.Actions.Rows.{ItemState, ReviewItem, approve, override}
use timmeny_admin_os.Candidates.{RuleState, read_active_rules}
use timmeny_admin_os.Plan.Arrange.Order.{IsDistinct}
use timmeny_admin_os.Review.Reading.{read_group_items}
use timmeny_admin_os.Review.Deciding.{
  Identities, ReviewTables, Ruling, selected_items, record_decision, decide_group,
}
use timmeny_admin_os.Review.Permitted.{IsRuled, record_decision-IsRuled}
use timmeny_admin_os.Review.Bulk.{IsAtomic, decide_group-IsAtomic}
use timmeny_admin_os.Review.Inert.{record_decision-IsInert}
use timmeny_admin_os.Examples.Samples.{mail, offer}
use timmeny_admin_os.Examples.Runs.{archive_rule}

abbrev ids : Identities
ids = record {
  digest = λ m. "d";
  fresh_rule = λ rules. "c2";
  fresh_event = λ events. "e1";
  fresh_decision = λ decisions. "d1";
}

abbrev waiting : ReviewItem
waiting = record offer {
  state = ItemState.pending;
  approved_action = none;
  approved_params = none;
  decided_at = none;
}

abbrev tables : ReviewTables
tables = record {
  items = waiting ∷ [];
  decisions = [];
  plans = [];
  lessons = record { events = []; rules = archive_rule RuleState.confirmed none ∷ [] };
}

abbrev agree : Ruling
agree = record {
  decision = approve;
  action = none;
  action_params = none;
  note = none;
  actor = "human";
  batch_id = none;
}

abbrev trash_it : Ruling
trash_it = record agree { decision = override; action = some gmail_trash }

-- The tables after the item was approved.
abbrev recorded : ReviewTables
recorded = elim (record_decision ids mail "r1" 2 agree waiting tables) [
  | ok r ↦ r.1
  | raised e ↦ tables
]

abbrev archived_item : ReviewItem
archived_item = record offer { approved_params = some end }

records : record_decision ids mail "r1" 2 agree waiting tables ≡ ok (archived_item, recorded)
unfolding record_decision allows
records = refl

record_decision-IsRuled_example : IsRuled mail waiting agree archived_item
record_decision-IsRuled_example =
    record_decision-IsRuled ids mail "r1" 2 agree waiting archived_item tables recorded records

one_rule : IsDistinct (map (λ r. r.id) tables.lessons.rules)
unfolding IsDistinct
one_rule = (refl, tt)

record_decision-IsInert_example :
    read_active_rules mail recorded.lessons.rules ≡ read_active_rules mail tables.lessons.rules
record_decision-IsInert_example =
    record_decision-IsInert ids mail "r1" 2 agree waiting archived_item tables recorded mail
      one_rule records

decide_group-IsAtomic_example :
    IsAtomic ids mail "r1" 2 none trash_it
      (selected_items none (read_group_items "g1" tables.items))
      (decide_group ids mail "r1" 2 "g1" none trash_it tables)
decide_group-IsAtomic_example = decide_group-IsAtomic ids mail "r1" 2 "g1" none trash_it tables
