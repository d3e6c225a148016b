-- ===== src/Plan/Begin/Signed.antt =====
-- Who is recorded as having begun a plan (adminos/domain/plan.py: `begin_plan`).
use timmeny_admin_os.Common.{
  ℕ, String, true, ◌≡◌, refl, ap, ◌∙◌, Option, none, some, List, Result, ok, raised, ok-injective,
}
use timmeny_admin_os.Plan.Arrange.{PlanRefused}
use timmeny_admin_os.Plan.Begin.{
  PlanStatus, proposed, active, ReviewPlan, Loaded, human_actor, find_plan, plan_or_new, plan_for,
  activated, activated_from, rewritten, new_plan, agreed, begun, begin_plan,
}

-- Who is recorded as having begun the plan, by the plan that the run had before.
signed_by : PlanStatus → Option String → String → Option String
signed_by active before actor = before
signed_by proposed before actor = some actor

pub beginner : Option ReviewPlan → String → Option String
unfolding signed_by
beginner none actor = some human_actor
beginner (some old) actor = signed_by old.status old.begun_by actor

activated_from-begun_by :
    (status : PlanStatus) (actor : String) (now : ℕ) (plan : ReviewPlan)
    → (activated_from status actor now plan).begun_by ≡ signed_by status plan.begun_by actor
unfolding activated_from signed_by
activated_from-begun_by active actor now plan = refl
activated_from-begun_by proposed actor now plan = refl

begun-begun_by :
    (loaded : Loaded) (actor : String) (now : ℕ) (plans : List ReviewPlan) (old : ReviewPlan)
    (r : Result PlanRefused (List String × List String)) (plan : ReviewPlan)
    → (begun loaded actor now plans old r).0 ≡ ok plan
    → plan.begun_by ≡ signed_by old.status old.begun_by actor
unfolding begun agreed activated rewritten
begun-begun_by loaded actor now plans old (raised e) plan h = cc
begun-begun_by loaded actor now plans old (ok (sequence, omitted)) plan h =
    ap (λ p. p.begun_by) (ok-injective h)
    ∙ activated_from-begun_by old.status actor now (rewritten loaded sequence omitted old)

plan_or_new-beginner :
    (loaded : Loaded) (run_id actor : String) (now : ℕ) (plans : List ReviewPlan)
    (found : Option ReviewPlan)
    → signed_by
        (plan_or_new loaded run_id true now plans found).0.status
        (plan_or_new loaded run_id true now plans found).0.begun_by
        actor
      ≡ beginner found actor
unfolding plan_or_new new_plan signed_by beginner
plan_or_new-beginner loaded run_id actor now plans none = refl
plan_or_new-beginner loaded run_id actor now plans (some plan) = refl

-- Where `begin_plan` returns a plan, it is signed by the actor who asked only where the run had a
-- proposed plan. A plan already active keeps its signature, and where the run had no plan yet the
-- new one is signed `human`, whoever the actor is.
pub begin_plan-begun_by :
    (loaded : Loaded) (run_id : String) (order only skip : Option (List String)) (actor : String)
    (now : ℕ) (plans : List ReviewPlan) (plan : ReviewPlan)
    → (begin_plan loaded run_id order only skip actor now plans).0 ≡ ok plan
    → plan.begun_by ≡ beginner (find_plan run_id plans) actor
unfolding begin_plan plan_for
begin_plan-begun_by loaded run_id order only skip actor now plans plan h =
    let (old, planned) = plan_for loaded run_id true now plans in
    begun-begun_by loaded actor now planned old _ plan h
    ∙ plan_or_new-beginner loaded run_id actor now plans (find_plan run_id plans)
