-- ===== src/Examples/Reviews.antt =====
-- A review of one group, filled, worked and replaced by another.
use timmeny_admin_os.Capabilities.Config.{allows}
use timmeny_admin_os.Common.{
  inl, Among, raised, subst, sym, ◌⊎◌, String, true, false, ◌≡◌, refl, inr, none, some, List, [],
  ◌∷◌, end, All, ok, is_empty,
}
use timmeny_admin_os.Capabilities.Config.{CapabilityConfig, enabled}
use timmeny_admin_os.Actions.Rows.{ItemState, ReviewItem}
use timmeny_admin_os.Candidates.{RuleState, CandidateRule, dump_match}
use timmeny_admin_os.Mailboxes.{inbox_scope}
use timmeny_admin_os.Plan.Begin.{ReviewPlan}
use timmeny_admin_os.Review.Rows.{RunState, is_abandoned}
use timmeny_admin_os.Review.States.{RunView, planned_groups, begun}
use timmeny_admin_os.Review.Refreshing.{refresh_states}
use timmeny_admin_os.Review.Progress.{Progresses, refresh_states-Progresses}
use timmeny_admin_os.Review.Completion.{OwesNothing}
use timmeny_admin_os.Review.Done.{refresh_states-OwesNothing}
use timmeny_admin_os.Review.Policy.{Evidence}
use timmeny_admin_os.Review.Collecting.{Fresh, Sheet}
use timmeny_admin_os.Review.Unattended.{IsUnattended}
use timmeny_admin_os.Review.Filling.{Filled, fill_review}
use timmeny_admin_os.Review.Attended.{fill_review-IsAttended}
use timmeny_admin_os.Review.Opening.{Subject, open_fresh, live}
use timmeny_admin_os.Review.Current.{IsSingle, IsCurrent, open_fresh-IsCurrent}
use timmeny_admin_os.Examples.Samples.{offer, archive_action}
use timmeny_admin_os.Examples.Runs.{morning, group, one_capability, archive_rule}

abbrev fresh : Fresh
fresh = record { group = λ groups. "g2"; item = λ items. "i1"; decision = λ decisions. "d1" }

abbrev received : Evidence
received = record {
  id = "e1";
  source_system = "gmail";
  source_thread_id = "t1";
  subject = some "An offer";
  participants = some ("ann@shop.example" ∷ []);
  received_at = some 1;
  content_hash = some "h1";
  capability_keys = "mail" ∷ [];
  label_ids = some ("INBOX" ∷ []);
  snoozed = some false;
}

abbrev blank : Sheet
blank = record { groups = group ∷ []; items = []; decisions = [] }

abbrev promoted : CandidateRule
promoted = archive_rule RuleState.automatable (some 3)

abbrev same_text : String → String
same_text s = s

abbrev no_view : RunView
no_view = record { run = morning; groups = []; plan = none }

-- The review is filled with one thread, which the promoted rule lets it archive unattended.
abbrev attended : ReviewItem
attended = record offer {
  recommendation_source = "learned_rule";
  recommendation_confidence = 95;
  recommendation_rationale = some "Offers";
  rule_id = some "c1";
  approved_params = some end;
  created_at = 300000;
  decided_at = some 300000;
}

abbrev filled : Filled
filled =
    elim (fill_review same_text fresh 300000 one_capability morning inbox_scope none (received ∷ [])
      (promoted ∷ []) [] [] blank) [
        | ok f ↦ f
        | raised e ↦ record { view = no_view; plans = []; sheet = blank }
      ]

fills :
    fill_review same_text fresh 300000 one_capability morning inbox_scope none
      (received ∷ [])
      (promoted ∷ [])
      []
      []
      blank
    ≡ ok filled
unfolding fill_review dump_match allows
fills = refl

holds_attended : filled.sheet.items ≡ attended ∷ []
unfolding fill_review dump_match allows
holds_attended = refl

is_held : Among attended filled.sheet.items
is_held = subst (Among attended) (sym holds_attended) (inl refl)

fill_review-IsAttended_example :
    Among attended []
    ⊎ ((c : CapabilityConfig) × Among c (enabled one_capability.capabilities)
        × IsUnattended c (promoted ∷ []) attended)
fill_review-IsAttended_example =
    fill_review-IsAttended same_text fresh 300000 one_capability morning inbox_scope none
      (received ∷ []) (promoted ∷ []) [] [] blank filled attended fills is_held refl

-- The item is approved, and its action is not executed yet.
abbrev refreshed : List ReviewItem → RunView × List ReviewPlan
refreshed items =
    elim (refresh_states one_capability morning (group ∷ []) items (archive_action ∷ []) 7 []) [
      | none ↦ (no_view, [])
      | some r ↦ r
    ]

abbrev approved_item : List ReviewItem
approved_item = offer ∷ []

abbrev executed_item : List ReviewItem
executed_item = record offer { state = ItemState.executed } ∷ []

under_way :
    refresh_states one_capability morning (group ∷ []) approved_item (archive_action ∷ []) 7 []
    ≡ some (refreshed approved_item)
unfolding refresh_states
under_way = refl

has_plan : begun (refreshed approved_item).0 ≡ true
unfolding begun refresh_states
has_plan = refl

has_group : is_empty (planned_groups (refreshed approved_item).0) ≡ false
unfolding planned_groups refresh_states
has_group = refl

working : is_abandoned morning.state ≡ false
unfolding is_abandoned
working = refl

refresh_states-Progresses_example : Progresses (refreshed approved_item).0
refresh_states-Progresses_example =
    refresh_states-Progresses one_capability morning (group ∷ []) approved_item
      (archive_action ∷ []) 7 [] (refreshed approved_item).1 (refreshed approved_item).0 working
      under_way has_plan has_group

finished :
    refresh_states one_capability morning (group ∷ []) executed_item (archive_action ∷ []) 7 []
    ≡ some (refreshed executed_item)
unfolding refresh_states
finished = refl

is_finished : (refreshed executed_item).0.run.state ≡ RunState.completed
unfolding refresh_states
is_finished = refl

refresh_states-OwesNothing_example :
    All (OwesNothing one_capability) (planned_groups (refreshed executed_item).0)
refresh_states-OwesNothing_example =
    refresh_states-OwesNothing one_capability morning (group ∷ []) executed_item
      (archive_action ∷ []) 7 [] (refreshed executed_item).1 (refreshed executed_item).0 working
      finished is_finished

abbrev subject : Subject
subject = record { day = 20; channel = "email"; scope_name = "inbox" }

alone : IsSingle subject (morning ∷ [])
unfolding live
alone = inr (morning, refl)

open_fresh-IsCurrent_example :
    IsCurrent subject
      (morning ∷ [])
      (open_fresh one_capability subject "r2" 9 none (morning ∷ []) []).0
      (open_fresh one_capability subject "r2" 9 none (morning ∷ []) []).1
      (open_fresh one_capability subject "r2" 9 none (morning ∷ []) []).2
open_fresh-IsCurrent_example =
    open_fresh-IsCurrent one_capability subject "r2" 9 none (morning ∷ []) [] alone
