-- ===== src/Review/Done.antt =====
-- What a review that adminos/domain/review.py reports as completed owes: nothing.
use timmeny_admin_os.Common.{
  ℕ, String, Bool, true, false, not, ◌≡◌, refl, sym, ap, subst, ◌∙◌, inl, inr, Bool-cases,
  false≢true, Option, none, some, List, [], ◌∷◌, All, all, keep, &&-true,
}
use timmeny_admin_os.Common.Sorting.{sort_by-All}
use timmeny_admin_os.Capabilities.Config.{CapabilityConfig, find_capability}
use timmeny_admin_os.Actions.Rows.{ReviewItem, ReviewAction}
use timmeny_admin_os.Plan.Begin.{ReviewPlan, Loaded, plan_for}
use timmeny_admin_os.Review.Rows.{RunState, ReviewRun, ReviewGroup, is_abandoned}
use timmeny_admin_os.Review.Reading.{read_groups, read_group_items}
use timmeny_admin_os.Review.States.{
  GroupView, RunView, is_completed, planned_by, planned_groups, refresh_each, view_with,
  refresh_known, view_of, run_state, is_run_completed, refreshed_group,
}
use timmeny_admin_os.Review.Refreshing.{is_not_started, refreshed_view, view_left, refresh_states}
use timmeny_admin_os.Review.Progress.{run_state-open, some-injective, refreshed_view-state}
use timmeny_admin_os.Review.Completion.{OwesNothing, group_state-done}

-- A completed group owes nothing.
abbrev Owes : Loaded → GroupView → Type 0
Owes loaded v = is_completed v.group.state ≡ true → OwesNothing loaded v

refresh_known-Owes :
    (loaded : Loaded) (run_id : String) (items : List ReviewItem) (actions : List ReviewAction)
    (now : ℕ) (g : ReviewGroup) (capability : CapabilityConfig)
    → find_capability g.capability_key loaded.capabilities ≡ some capability
    → Owes loaded (refresh_known run_id items actions now false g capability)
unfolding refresh_known view_of refreshed_group
refresh_known-Owes loaded run_id items actions now g capability f done =
    let (decided, executed) = group_state-done capability (read_group_items g.id items) done in
    record { capability = capability; found = f; decided = decided; executed = executed }

some-views : {xs ys : List GroupView} → some xs ≡ some ys → xs ≡ ys
some-views h = cc

view_with-Owes :
    (loaded : Loaded) (run_id : String) (items : List ReviewItem) (actions : List ReviewAction)
    (now : ℕ) (g : ReviewGroup) (c : Option CapabilityConfig) (o : Option (List GroupView))
    (views : List GroupView)
    → find_capability g.capability_key loaded.capabilities ≡ c
    → ((vs : List GroupView) → o ≡ some vs → All (Owes loaded) vs)
    → view_with run_id items actions now false g c o ≡ some views
    → All (Owes loaded) views
unfolding view_with
view_with-Owes loaded run_id items actions now g none o views f rest h = cc
view_with-Owes loaded run_id items actions now g (some capability) none views f rest h = cc
view_with-Owes loaded run_id items actions now g (some capability) (some others) views f rest h =
    subst (All (Owes loaded)) (some-views h)
      (refresh_known-Owes loaded run_id items actions now g capability f, rest others refl)

refresh_each-Owes :
    (loaded : Loaded) (run_id : String) (items : List ReviewItem) (actions : List ReviewAction)
    (now : ℕ) (groups : List ReviewGroup) (views : List GroupView)
    → refresh_each loaded run_id items actions now false groups ≡ some views
    → All (Owes loaded) views
unfolding refresh_each
refresh_each-Owes loaded run_id items actions now [] views h =
    subst (All (Owes loaded)) (some-views h) tt
refresh_each-Owes loaded run_id items actions now (g ∷ rest) views h =
    view_with-Owes loaded run_id items actions now g _ _ views refl
      (λ vs e. refresh_each-Owes loaded run_id items actions now rest vs e) h

keep-All :
    (P : GroupView → Type 0) (p : GroupView → Bool) (views : List GroupView)
    → All P views
    → All P (keep p views)
keep-All P p [] h = tt
keep-All P p (v ∷ rest) h = elim (Bool-cases (p v)) [
  | inl e ↦ rw e (h.0, keep-All P p rest h.1)
  | inr e ↦ rw e (keep-All P p rest h.1)
]

planned_by-All :
    (P : GroupView → Type 0) (plan : Option ReviewPlan) (views : List GroupView)
    → All P views
    → All P (planned_by plan views)
unfolding planned_by
planned_by-All P none views h = h
planned_by-All P (some plan) views h = sort_by-All _ P _ (keep-All P _ views h)

all-OwesNothing :
    (loaded : Loaded) (views : List GroupView)
    → all (λ v. is_completed v.group.state) views ≡ true
    → All (Owes loaded) views
    → All (OwesNothing loaded) views
all-OwesNothing loaded [] done h = tt
all-OwesNothing loaded (v ∷ rest) done h =
    let (first, others) = &&-true (is_completed v.group.state) _ done in
    (h.0 first, all-OwesNothing loaded rest others h.1)

completed-completed : is_run_completed RunState.completed ≡ true
unfolding is_run_completed
completed-completed = refl

run_state-all :
    (planned : List GroupView)
    → run_state planned ≡ RunState.completed
    → all (λ v. is_completed v.group.state) planned ≡ true
unfolding run_state
run_state-all planned h = elim (Bool-cases (all (λ v. is_completed v.group.state) planned)) [
  | inl done ↦ done
  | inr left ↦
      absurd (
        false≢true
          (sym (run_state-open planned left) ∙ ap is_run_completed h ∙ completed-completed))
]

planned_groups-All :
    (P : GroupView → Type 0) (run : ReviewRun) (plan : ReviewPlan) (now : ℕ)
    (plans : List ReviewPlan) (views : List GroupView)
    → All P views
    → All P (planned_groups (refreshed_view run views plan now plans).0)
unfolding refreshed_view planned_groups
planned_groups-All P run plan now plans views h = planned_by-All P _ views h

refreshed_view-OwesNothing :
    (loaded : Loaded) (run : ReviewRun) (plan : ReviewPlan) (now : ℕ) (plans : List ReviewPlan)
    (views : List GroupView)
    → All (Owes loaded) views
    → (refreshed_view run views plan now plans).0.run.state ≡ RunState.completed
    → All (OwesNothing loaded) (planned_groups (refreshed_view run views plan now plans).0)
refreshed_view-OwesNothing loaded run plan now plans views h done =
    all-OwesNothing loaded _
      (run_state-all _ (sym (refreshed_view-state run views plan now plans) ∙ done))
      (planned_groups-All (Owes loaded) run plan now plans views h)

left-OwesNothing :
    (loaded : Loaded) (run : ReviewRun) (plan : ReviewPlan) (now : ℕ)
    (plans plans' : List ReviewPlan) (views : Option (List GroupView)) (view : RunView)
    → ((vs : List GroupView) → views ≡ some vs → All (Owes loaded) vs)
    → view_left false run plan now plans views ≡ some (view, plans')
    → view.run.state ≡ RunState.completed
    → All (OwesNothing loaded) (planned_groups view)
unfolding view_left
left-OwesNothing loaded run plan now plans plans' none view owes h done = cc
left-OwesNothing loaded run plan now plans plans' (some views) view owes h done =
    let made = ap (λ p. p.0) (some-injective h) in
    subst (λ v. All (OwesNothing loaded) (planned_groups v)) made
      (refreshed_view-OwesNothing loaded run plan now plans views (owes views refl)
        (ap (λ v. v.run.state) made ∙ done))

-- Where `refresh_states` reports a review that is not abandoned as completed, no item of a group that
-- the plan does not set aside waits for a decision, where the group's capability requires every item
-- decided, and none is approved or failed, where it requires the approved actions executed.
pub refresh_states-OwesNothing :
    (loaded : Loaded) (run : ReviewRun) (groups : List ReviewGroup) (items : List ReviewItem)
    (actions : List ReviewAction) (now : ℕ) (plans plans' : List ReviewPlan) (view : RunView)
    → is_abandoned run.state ≡ false
    → refresh_states loaded run groups items actions now plans ≡ some (view, plans')
    → view.run.state ≡ RunState.completed
    → All (OwesNothing loaded) (planned_groups view)
unfolding refresh_states
refresh_states-OwesNothing loaded run groups items actions now plans plans' view working h done =
    let (plan, planned) = plan_for loaded run.id (not (is_not_started run.state)) now plans in
    left-OwesNothing loaded run plan now planned plans'
      (refresh_each loaded run.id items actions now false (read_groups run.id groups)) view
      (λ vs e. refresh_each-Owes loaded run.id items actions now (read_groups run.id groups) vs e)
      (subst
        (λ b.
          view_left b run plan now planned
            (refresh_each loaded run.id items actions now b (read_groups run.id groups))
          ≡ some (view, plans'))
        working h)
      done
