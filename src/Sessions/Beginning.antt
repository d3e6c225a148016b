-- ===== src/Sessions/Beginning.antt =====
-- What `begin_activity` and `begin_session` of adminos/domain/sessions.py begin.
use timmeny_admin_os.Common.{
  ℕ, String, Bool, true, false, ◌≡◌, ◌≢◌, refl, ap, subst, ◌∙◌, Option, none, some, List, arith,
  Bool-cases, inl, inr, ◌⊎◌, if◌then◌else◌, ◌==◌, Result, ok, raised, >>=-ok, then-ok, ok-injective,
}
use timmeny_admin_os.Sessions.Advance.{IsMovedOn, IsClosed, advance_session-moves}
use timmeny_admin_os.Plan.Arrange.{PlanRefused}
use timmeny_admin_os.Plan.Begin.{ReviewPlan, Loaded}
use timmeny_admin_os.Sessions.{
  skipped, unavailable, SessionProblem, was_abandoned, AssistantSession, SessionActivity,
  ActivityConfig, RunState, Availability, Desk, known_activity, email_activity, is_proposed,
  read_activity, check_state, check_workable, begun_row, plan_agreed, agree_plan, work_review,
  begin_found, begin_activity, next_activity, work_next, begin_session, is_abandoned,
}

-- The activity is one of the session's, known to the service, built and not set aside; it is the
-- one in hand, and the session is no longer only proposed.
pub record IsBegun (key : String) (before after : Desk) : Type 0 where
  pub activity : SessionActivity
  pub found : read_activity before key ≡ ok activity
  pub availability : Availability
  pub known : known_activity key ≡ some availability
  pub is_built : activity.state ≢ unavailable
  pub is_wanted : activity.state ≢ skipped
  pub in_hand : after.row.current_activity_key ≡ some activity.activity_key
  pub not_proposed : is_proposed after.row.status ≡ false

begun_row-is_proposed :
    (now : ℕ) (row : AssistantSession) → is_proposed (begun_row now row).status ≡ false
unfolding begun_row is_proposed
begun_row-is_proposed now row = elim (Bool-cases (is_proposed row.status)) [
  | inl e ↦ rw e refl
  | inr e ↦ rw e e
]

plan_agreed-row :
    (desk : Desk) (p : Result PlanRefused ReviewPlan × List ReviewPlan)
    → (plan_agreed desk p).1.row ≡ desk.row
unfolding plan_agreed
plan_agreed-row desk (ok plan, plans) = refl
plan_agreed-row desk (raised e, plans) = refl

clash_unavailable :
    (availability : Availability) (activity : SessionActivity)
    → activity.state ≡ unavailable
    → check_workable (some availability) activity ≡ ok tt
    → ⊥
unfolding check_workable check_state
clash_unavailable availability activity e h =
    ground (arith, subst (λ s. check_state s activity.activity_key ≡ ok tt) e h)

clash_skipped :
    (availability : Availability) (activity : SessionActivity)
    → activity.state ≡ skipped
    → check_workable (some availability) activity ≡ ok tt
    → ⊥
unfolding check_workable check_state
clash_skipped availability activity e h =
    ground (arith, subst (λ s. check_state s activity.activity_key ≡ ok tt) e h)

workable-state :
    (found : Option Availability) (activity : SessionActivity)
    → check_workable found activity ≡ ok tt
    → ((availability : Availability) × (found ≡ some availability))
      × (activity.state ≢ unavailable)
      × (activity.state ≢ skipped)
unfolding check_workable
workable-state none activity h = cc
workable-state (some a) activity h =
    ((a, refl), (λ e. clash_unavailable a activity e h), (λ e. clash_skipped a activity e h))

module _ (loaded : Loaded) (playbook : List ActivityConfig) (runs : String → Option RunState) where
  agree_plan-row :
      (now : ℕ) (activity : SessionActivity) (run_id : String) (run : Option RunState) (desk : Desk)
      → (agree_plan loaded playbook runs now activity run_id run desk).1.row ≡ desk.row
  unfolding agree_plan
  agree_plan-row now activity run_id none desk = refl
  agree_plan-row now activity run_id (some _) desk = plan_agreed-row desk _

  work_review-row :
      (now : ℕ) (activity : SessionActivity) (run_id : Option String) (desk : Desk)
      → (work_review loaded playbook runs now activity run_id desk).1.row ≡ desk.row
  unfolding work_review
  work_review-row now activity none desk = refl
  work_review-row now activity (some run_id) desk =
      elim (Bool-cases (activity.activity_key == email_activity)) [
        | inl e ↦ rw e (agree_plan-row now activity run_id (runs run_id) desk)
        | inr e ↦ rw e refl
      ]

  begin_found-returns :
      (now : ℕ) (r : Result SessionProblem SessionActivity) (desk : Desk)
      → (begin_found loaded playbook runs now r desk).0 ≡ ok tt
      → (activity : SessionActivity) × (r ≡ ok activity)
        × ((begin_found loaded playbook runs now r desk).1.row
            ≡ record (begun_row now desk.row) { current_activity_key = some activity.activity_key })
  unfolding begin_found
  begin_found-returns now (raised e) desk h = cc
  begin_found-returns now (ok activity) desk h =
      (activity, refl, work_review-row now activity activity.run_id _)

  -- Where `begin_activity` returns, the activity is one of the session's that the service knows and
  -- has built, and that was not set aside; it is in hand, and the session is no longer proposed.
  pub begin_activity-IsBegun :
      (key : String) (now : ℕ) (desk : Desk)
      → (begin_activity loaded playbook runs key now desk).0 ≡ ok tt
      → IsBegun key desk (begin_activity loaded playbook runs key now desk).1
  unfolding begin_activity
  begin_activity-IsBegun key now desk h =
      let (activity, chosen, row) = begin_found-returns now _ desk h in
      let (candidate, found, more) = >>=-ok (read_activity desk key) _ chosen in
      let (workable, same) = then-ok (check_workable (known_activity key) candidate) _ more in
      let ((availability, known), built, wanted) =
        workable-state (known_activity key) candidate workable in
      record {
        activity = candidate;
        found = found;
        availability = availability;
        known = known;
        is_built = built;
        is_wanted = wanted;
        in_hand =
            ap (λ r. r.current_activity_key) row
            ∙ ap (λ a. some a.activity_key) (ok-injective same);
        not_proposed = ap (λ r. is_proposed r.status) row ∙ begun_row-is_proposed now desk.row;
      }

  work_next-begins :
      (now : ℕ) (next : Option SessionActivity) (desk : Desk)
      → (work_next loaded playbook runs now next desk).0 ≡ ok tt
      → ((key : String) × IsBegun key desk (work_next loaded playbook runs now next desk).1)
        ⊎ IsMovedOn desk (work_next loaded playbook runs now next desk).1
        ⊎ IsClosed (work_next loaded playbook runs now next desk).1
  unfolding work_next
  work_next-begins now none desk h = inr (advance_session-moves runs now desk)
  work_next-begins now (some activity) desk h =
      inl (activity.activity_key, begin_activity-IsBegun activity.activity_key now desk h)

  -- `begin_session` by whether the session was set aside.
  begun_unless : Bool → ℕ → Desk → Desk → Result SessionProblem (Unit {0}) × Desk
  begun_unless set_aside now desk begun =
      if set_aside
      then (raised was_abandoned, desk)
      else work_next loaded playbook runs now (next_activity loaded playbook runs begun) begun

  begin_unless :
      (now : ℕ) (desk begun : Desk) (set_aside : Bool)
      → (begun_unless set_aside now desk begun).0 ≡ ok tt
      → (set_aside ≡ false)
        × (((key : String) × IsBegun key begun (begun_unless set_aside now desk begun).1)
            ⊎ IsMovedOn begun (begun_unless set_aside now desk begun).1
            ⊎ IsClosed (begun_unless set_aside now desk begun).1)
  unfolding begun_unless
  begin_unless now desk begun true h = cc
  begin_unless now desk begun false h =
      (refl, work_next-begins now (next_activity loaded playbook runs begun) begun h)

  -- Where `begin_session` returns, the session was not set aside, and it began an activity, or
  -- moved on to one that is open, or found nothing left to work and closed.
  pub begin_session-begins :
      (now : ℕ) (desk : Desk)
      → (begin_session loaded playbook runs now desk).0 ≡ ok tt
      → (is_abandoned desk.row.status ≡ false)
        × (((key : String) × IsBegun key
                (record desk { row = begun_row now desk.row })
                (begin_session loaded playbook runs now desk).1)
            ⊎ IsMovedOn
                (record desk { row = begun_row now desk.row })
                (begin_session loaded playbook runs now desk).1
            ⊎ IsClosed (begin_session loaded playbook runs now desk).1)
  unfolding begin_session begun_unless
  begin_session-begins now desk h =
      let begun = record desk { row = begun_row now desk.row } in
      begin_unless now desk begun (is_abandoned desk.row.status) h
