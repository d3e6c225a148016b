-- ===== src/Review/Progress.antt =====
-- A review at work (adminos/domain/review.py) is done, or has a group at hand.
use timmeny_admin_os.Common.{
  ℕ, Bool, true, false, not, ◌≡◌, refl, sym, ap, subst, ◌∙◌, ◌⊎◌, inl, inr, arith, Bool-cases,
  Option, none, some, List, [], ◌∷◌, Among, all, is_empty, &&-true,
}
use timmeny_admin_os.Actions.Rows.{ReviewItem, ReviewAction}
use timmeny_admin_os.Plan.Begin.{
  ReviewPlan, Loaded, plan_for, settle_plan, activate_found, activated, system_actor,
}
use timmeny_admin_os.Plan.Begin.Agreed.{activated_from-columns}
use timmeny_admin_os.Review.Rows.{RunState, ReviewRun, ReviewGroup, is_abandoned}
use timmeny_admin_os.Review.Reading.{read_groups}
use timmeny_admin_os.Review.States.{
  GroupView, RunView, is_completed, is_settled, has_decided, planned_by, planned_groups, begun,
  first_open, current_group, refresh_each, run_state, is_run_completed, refreshed_run,
}
use timmeny_admin_os.Review.Refreshing.{
  is_not_started, settled_where, refreshed_view, view_left, refresh_states,
}

first_open-none :
    (views : List GroupView)
    → all (λ v. is_completed v.group.state) views ≡ true
    → first_open views ≡ none
unfolding first_open
first_open-none [] h = refl
first_open-none (v ∷ rest) h =
    let (done, others) = &&-true (is_completed v.group.state) _ h in
    rw done (first_open-none rest others)

-- The group at hand: planned, not completed, and every group planned before it is.
abbrev IsNext : GroupView → List GroupView → Type 0
IsNext v views = Among v views × (is_completed v.group.state ≡ false)

first_open-some :
    (views : List GroupView)
    → all (λ v. is_completed v.group.state) views ≡ false
    → (v : GroupView) × (first_open views ≡ some v)
      × Among v views
      × (is_completed v.group.state ≡ false)
unfolding first_open
first_open-some [] h = cc
first_open-some (v ∷ rest) h = elim (Bool-cases (is_completed v.group.state)) [
  | inr open_yet ↦ (v, rw open_yet refl, inl refl, open_yet)
  | inl done ↦
      let (w, first, among, is) = first_open-some rest (ground (arith, h, done)) in
      (w, rw done first, inr among, is)
]

run_state-done :
    (planned : List GroupView)
    → is_empty planned ≡ false
    → all (λ v. is_completed v.group.state) planned ≡ true
    → run_state planned ≡ RunState.completed
unfolding run_state
run_state-done planned some_planned done = rw some_planned (rw done refl)

pub run_state-open :
    (planned : List GroupView)
    → all (λ v. is_completed v.group.state) planned ≡ false
    → is_run_completed (run_state planned) ≡ false
unfolding run_state is_run_completed
run_state-open planned h = elim (Bool-cases (has_decided planned)) [
  | inr none_yet ↦ elim (Bool-cases (is_empty planned)) [
    | inl e ↦ rw e (rw none_yet refl)
    | inr e ↦ rw e (rw h (rw none_yet refl))
  ]
  | inl worked ↦ elim (Bool-cases (is_empty planned)) [
    | inl e ↦ rw e (rw worked refl)
    | inr e ↦ elim (Bool-cases (all (λ v. is_settled v.group.state) planned)) [
      | inl s ↦ rw e (rw h (rw worked (rw s refl)))
      | inr o ↦ rw e (rw h (rw worked (rw o refl)))
    ]
  ]
]

-- Settling a plan changes neither its order nor what it sets aside.
pub settled_where-planned :
    (completed : Bool) (plan : ReviewPlan) (now : ℕ) (plans : List ReviewPlan)
    (views : List GroupView)
    → planned_by (settled_where completed plan now plans).0 views ≡ planned_by (some plan) views
unfolding settled_where settle_plan planned_by activate_found activated
settled_where-planned false plan now plans views = refl
settled_where-planned true plan now plans views =
    let (_, sequence, skipped, _, _) =
      activated_from-columns plan.status system_actor now plan refl in
    rw sequence (rw skipped refl)

-- What a refreshed review says of its progress.
abbrev pub Progresses : RunView → Type 0
Progresses view =
    ((view.run.state ≡ RunState.completed) × (current_group view ≡ none))
    ⊎ ((v : GroupView) × (current_group view ≡ some v)
        × Among v (planned_groups view)
        × (is_completed v.group.state ≡ false)
        × (is_run_completed view.run.state ≡ false))

view-Progresses :
    (view : RunView)
    → begun view ≡ true
    → is_empty (planned_groups view) ≡ false
    → view.run.state ≡ run_state (planned_groups view)
    → Progresses view
unfolding current_group
view-Progresses view agreed some_planned state =
    let planned = planned_groups view in
    elim (Bool-cases (all (λ v. is_completed v.group.state) planned)) [
      | inl done ↦ inl (
        state ∙ run_state-done planned some_planned done,
        rw agreed (first_open-none planned done),
      )
      | inr left ↦
          let (v, first, among, is) = first_open-some planned left in
          inr
            (v, rw agreed first, among, is, ap is_run_completed state ∙ run_state-open planned left)
    ]

pub refreshed_view-state :
    (run : ReviewRun) (views : List GroupView) (plan : ReviewPlan) (now : ℕ)
    (plans : List ReviewPlan)
    → (refreshed_view run views plan now plans).0.run.state
      ≡ run_state (planned_groups (refreshed_view run views plan now plans).0)
unfolding refreshed_view planned_groups refreshed_run
refreshed_view-state run views plan now plans = ap run_state (
    sym (
      settled_where-planned (is_run_completed (run_state (planned_by (some plan) views))) plan now
        plans views))

pub some-injective : {p q : RunView × List ReviewPlan} → some p ≡ some q → p ≡ q
some-injective h = cc

left-Progresses :
    (run : ReviewRun) (plan : ReviewPlan) (now : ℕ) (plans plans' : List ReviewPlan)
    (views : Option (List GroupView)) (view : RunView)
    → begun view ≡ true
    → is_empty (planned_groups view) ≡ false
    → view_left false run plan now plans views ≡ some (view, plans')
    → Progresses view
unfolding view_left
left-Progresses run plan now plans plans' none view agreed some_planned h = cc
left-Progresses run plan now plans plans' (some views) view agreed some_planned h =
    let made = ap (λ p. p.0) (some-injective h) in
    view-Progresses view agreed some_planned (
      subst (λ v. v.run.state ≡ run_state (planned_groups v)) made
        (refreshed_view-state run views plan now plans))

-- Where `refresh_states` returns for a review that is not abandoned, whose plan has begun and has a
-- group that is not set aside, the review is completed and no group is at hand, or it is not completed
-- and a planned group that is not completed is: a review that still has work never stands without a
-- group to work.
pub refresh_states-Progresses :
    (loaded : Loaded) (run : ReviewRun) (groups : List ReviewGroup) (items : List ReviewItem)
    (actions : List ReviewAction) (now : ℕ) (plans plans' : List ReviewPlan) (view : RunView)
    → is_abandoned run.state ≡ false
    → refresh_states loaded run groups items actions now plans ≡ some (view, plans')
    → begun view ≡ true
    → is_empty (planned_groups view) ≡ false
    → Progresses view
unfolding refresh_states
refresh_states-Progresses loaded run groups items actions now plans plans' view working h agreed
      some_planned =
    let (plan, planned) = plan_for loaded run.id (not (is_not_started run.state)) now plans in
    left-Progresses run plan now planned plans' _ view agreed some_planned (
      subst
        (λ b.
          view_left b run plan now planned
            (refresh_each loaded run.id items actions now b (read_groups run.id groups))
          ≡ some (view, plans'))
        working h)
