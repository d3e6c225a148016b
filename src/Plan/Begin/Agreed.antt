-- ===== src/Plan/Begin/Agreed.antt =====
-- The plan that `begin_plan` of adminos/domain/plan.py leaves.
use timmeny_admin_os.Common.{
  ℕ, ◌+◌, String, Bool, true, false, ◌≡◌, refl, sym, ap, subst, ◌∙◌, Option, none, some, List, [],
  ◌∷◌, ◌++◌, ◌==◌, Bool-cases, inl, inr, arith, eq_iff, eq_refl, elem, all, Result, ok, raised,
  then-ok, >>=-ok, refuse_if, &&-true, ◌⊎◌, refuse_if-ok, ok-injective, false≢true,
}
use timmeny_admin_os.Capabilities.Config.{enabled_keys}
use timmeny_admin_os.Plan.Arrange.{
  PlanRefused, nothing_to_work, or_none, arrange, set_aside, same_set,
}
use timmeny_admin_os.Plan.Arrange.Order.{
  IsDistinct, IsOrder, arrange-IsOrder, set_aside-known, elem-sort_keys, same_set_sound,
  same_set_complete,
}
use timmeny_admin_os.Plan.Begin.{
  PlanStatus, proposed, active, ReviewPlan, Loaded, find_plan, save_plan, plan_or_new, plan_for,
  activated, activated_from, changed, rewritten, new_plan, agreed, same_sequence, begun, chosen,
  begin_plan,
}

-- A plan that can be worked: every configured group has its place, what is set aside is one of
-- them, and some group is left.
pub record IsWorkable (configured named : List String) (plan : ReviewPlan) : Type 0 where
  pub is_active : plan.status ≡ active
  pub order : IsOrder configured named plan.sequence
  pub known : (key : String) → elem key plan.skipped ≡ true → elem key configured ≡ true
  pub left : (key : String) × (elem key plan.sequence ≡ true) × (elem key plan.skipped ≡ false)

pub not_all :
    (p : String → Bool) (xs : List String)
    → all p xs ≡ false
    → (key : String) × (elem key xs ≡ true) × (p key ≡ false)
not_all p [] h = cc
not_all p (x ∷ xs) h = elim (Bool-cases (p x)) [
  | inr e ↦ (x, rw (eq_refl x) refl, e)
  | inl e ↦
      let (key, held, misses) = not_all p xs (ground (arith, h, e)) in
      (key, ground (arith, held), misses)
]

pub activated_from-columns :
    (status : PlanStatus) (actor : String) (now : ℕ) (plan : ReviewPlan)
    → plan.status ≡ status
    → ((activated_from status actor now plan).status ≡ active)
      × ((activated_from status actor now plan).sequence ≡ plan.sequence)
      × ((activated_from status actor now plan).skipped ≡ plan.skipped)
      × ((activated_from status actor now plan).version ≡ plan.version)
      × ((activated_from status actor now plan).run_id ≡ plan.run_id)
unfolding activated_from
activated_from-columns active actor now plan h = (h, refl, refl, refl, refl)
activated_from-columns proposed actor now plan h = (refl, refl, refl, refl, refl)

-- What a choice leaves out is sound when it is accepted.
record IsChosen (configured named sequence omitted : List String) : Type 0 where
  order : IsOrder configured named sequence
  known : (key : String) → elem key omitted ≡ true → elem key configured ≡ true
  left : (key : String) × (elem key sequence ≡ true) × (elem key omitted ≡ false)

chosen-IsChosen :
    (configured : List String) (order only skip : Option (List String))
    (sequence omitted : List String)
    → IsDistinct configured
    → chosen configured order only skip ≡ ok (sequence, omitted)
    → IsChosen configured (or_none order) sequence omitted
unfolding chosen
chosen-IsChosen configured order only skip sequence omitted distinct h =
    let (s, arranged, more) = >>=-ok (arrange configured order) _ h in
    let (o, aside, more) = >>=-ok (set_aside configured s only skip) _ more in
    let (works, made) = then-ok (refuse_if (all (λ key. elem key o) s) nothing_to_work) _ more in
    let ordered = arrange-IsOrder configured order s distinct arranged in
    subst (λ c. IsChosen configured (or_none order) c.0 c.1) (sym (ok-injective made))
      (record {
        order = ordered;
        known = set_aside-known configured s only skip o ordered.same_groups aside;
        left = not_all (λ key. elem key o) s (refuse_if-ok _ _ works);
      })

agreed-IsWorkable :
    (loaded : Loaded) (actor : String) (now : ℕ) (configured named sequence omitted : List String)
    (plan : ReviewPlan)
    → IsChosen configured named sequence omitted
    → IsWorkable configured named (agreed loaded actor now sequence omitted plan)
unfolding agreed activated rewritten
agreed-IsWorkable loaded actor now configured named sequence omitted plan c =
    let old = rewritten loaded sequence omitted plan in
    let (is, seq, skipped, _, _) = activated_from-columns plan.status actor now old refl in
    let (key, held, kept) = c.left in
    record {
      is_active = is;
      order = subst (λ s. IsOrder configured named s) (sym seq) c.order;
      known = λ k e. c.known k (sym (elem-sort_keys k omitted) ∙ ap (elem k) (sym skipped) ∙ e);
      left = (
        key,
        ap (elem key) seq ∙ held,
        ap (elem key) skipped ∙ elem-sort_keys key omitted ∙ kept,
      );
    }

find-save :
    (plan old : ReviewPlan) (plans : List ReviewPlan)
    → find_plan plan.run_id plans ≡ some old
    → find_plan plan.run_id (save_plan plan plans) ≡ some plan
unfolding find_plan save_plan
find-save plan old [] h = cc
find-save plan old (p ∷ plans) h = elim (Bool-cases (p.run_id == plan.run_id)) [
  | inl e ↦ rw e (rw (eq_refl plan.run_id) refl)
  | inr e ↦ rw e (rw e (find-save plan old plans (ground (arith, h, e))))
]

find-run_id :
    (run_id : String) (plans : List ReviewPlan) (plan : ReviewPlan)
    → find_plan run_id plans ≡ some plan
    → plan.run_id ≡ run_id
unfolding find_plan
find-run_id run_id [] plan h = cc
find-run_id run_id (p ∷ plans) plan h = elim (Bool-cases (p.run_id == run_id)) [
  | inl e ↦ ground (arith, h, e, (eq_iff p.run_id run_id).0 e)
  | inr e ↦ find-run_id run_id plans plan (ground (arith, h, e))
]

find-appended :
    (run_id : String) (plans : List ReviewPlan) (plan : ReviewPlan)
    → plan.run_id ≡ run_id
    → find_plan run_id plans ≡ none
    → find_plan run_id (plans ++ plan ∷ []) ≡ some plan
unfolding find_plan
find-appended run_id [] plan own h = rw own (rw (eq_refl run_id) refl)
find-appended run_id (p ∷ plans) plan own h = elim (Bool-cases (p.run_id == run_id)) [
  | inl e ↦ ground (arith, h, e)
  | inr e ↦ rw e (find-appended run_id plans plan own (ground (arith, h, e)))
]

plan_or_new-found :
    (loaded : Loaded) (run_id : String) (begun : Bool) (now : ℕ) (plans : List ReviewPlan)
    (found : Option ReviewPlan)
    → find_plan run_id plans ≡ found
    → find_plan run_id (plan_or_new loaded run_id begun now plans found).1
      ≡ some (plan_or_new loaded run_id begun now plans found).0
unfolding plan_or_new new_plan
plan_or_new-found loaded run_id begun now plans none h = find-appended run_id plans _ refl h
plan_or_new-found loaded run_id begun now plans (some plan) h = h

same_sequence_sound : (xs ys : List String) → same_sequence xs ys ≡ true → xs ≡ ys
same_sequence_sound [] [] h = refl
same_sequence_sound [] (y ∷ ys) h = cc
same_sequence_sound (x ∷ xs) [] h = cc
same_sequence_sound (x ∷ xs) (y ∷ ys) h =
    let (head, tail) = &&-true (x == y) _ h in
    rw ((eq_iff x y).0 head) (rw (same_sequence_sound xs ys tail) refl)

-- The same order, and the same groups set aside.
abbrev pub IsSamePlan : ReviewPlan → ReviewPlan → Type 0
IsSamePlan old plan =
    (plan.sequence ≡ old.sequence) × ((key : String) → elem key plan.skipped ≡ elem key old.skipped)

-- The version counts the changes of the order and of what is set aside.
abbrev pub IsCounted : ReviewPlan → ReviewPlan → Type 0
IsCounted old plan =
    (IsSamePlan old plan × (plan.version ≡ old.version))
    ⊎ ((¬ IsSamePlan old plan) × (plan.version ≡ old.version + 1))

same_sequence_refl : (xs : List String) → same_sequence xs xs ≡ true
same_sequence_refl [] = refl
same_sequence_refl (x ∷ xs) = rw (eq_refl x) (same_sequence_refl xs)

rewritten-IsCounted :
    (loaded : Loaded) (sequence omitted : List String) (old : ReviewPlan)
    → IsCounted old (rewritten loaded sequence omitted old)
unfolding rewritten changed
rewritten-IsCounted loaded sequence omitted old =
    elim (Bool-cases (same_sequence old.sequence sequence)) [
      | inl s ↦ elim (Bool-cases (same_set old.skipped omitted)) [
        | inl o ↦ rw s (
            rw o (
              inl (
                (
                  sym (same_sequence_sound old.sequence sequence s),
                  λ key.
                      elem-sort_keys key omitted ∙ sym (same_set_sound old.skipped omitted key o),
                ),
                refl,
              )))
        | inr o ↦ rw s (
            rw o (
              inr (
                λ same. false≢true (
                    sym o
                    ∙ same_set_complete old.skipped omitted
                        (λ key. sym (elem-sort_keys key omitted) ∙ same.1 key)),
                refl,
              )))
      ]
      | inr s ↦ rw s (
          inr (
            λ same. false≢true (
                sym s
                ∙ subst (λ xs. same_sequence old.sequence xs ≡ true) (sym same.0)
                    (same_sequence_refl old.sequence)),
            refl,
          ))
    ]

agreed-IsCounted :
    (loaded : Loaded) (actor : String) (now : ℕ) (sequence omitted : List String) (old : ReviewPlan)
    → IsCounted old (agreed loaded actor now sequence omitted old)
unfolding agreed activated
agreed-IsCounted loaded actor now sequence omitted old =
    let written = rewritten loaded sequence omitted old in
    let (_, seq, skipped, version, _) =
      activated_from-columns written.status actor now written refl in
    elim (rewritten-IsCounted loaded sequence omitted old) [
      | inl (same, kept) ↦
          inl ((seq ∙ same.0, λ key. ap (elem key) skipped ∙ same.1 key), version ∙ kept)
      | inr (differs, raised_by_one) ↦ inr (
        λ same. differs (sym seq ∙ same.0, λ key. sym (ap (elem key) skipped) ∙ same.1 key),
        version ∙ raised_by_one,
      )
    ]

agreed-run_id :
    (loaded : Loaded) (actor : String) (now : ℕ) (sequence omitted : List String) (old : ReviewPlan)
    → (agreed loaded actor now sequence omitted old).run_id ≡ old.run_id
unfolding agreed activated rewritten
agreed-run_id loaded actor now sequence omitted old =
    let written = rewritten loaded sequence omitted old in
    (activated_from-columns written.status actor now written refl).4

-- What `begin_plan` does once the plan is at hand.
begun-lem :
    (loaded : Loaded) (actor : String) (now : ℕ) (configured : List String)
    (order only skip : Option (List String)) (plans : List ReviewPlan) (old : ReviewPlan)
    (r : Result PlanRefused (List String × List String)) (plan : ReviewPlan)
    → IsDistinct configured
    → chosen configured order only skip ≡ r
    → find_plan old.run_id plans ≡ some old
    → (begun loaded actor now plans old r).0 ≡ ok plan
    → IsWorkable configured (or_none order) plan
      × IsCounted old plan
      × (find_plan old.run_id (begun loaded actor now plans old r).1 ≡ some plan)
unfolding begun
begun-lem loaded actor now configured order only skip plans old (raised e) plan distinct c found h =
    cc
begun-lem loaded actor now configured order only skip plans old (ok (sequence, omitted)) plan
      distinct c found h =
    let after = agreed loaded actor now sequence omitted old in
    let own = agreed-run_id loaded actor now sequence omitted old in
    let sound = chosen-IsChosen configured order only skip sequence omitted distinct c in
    subst
      (λ p.
        IsWorkable configured (or_none order) p
        × IsCounted old p
        × (find_plan old.run_id (save_plan after plans) ≡ some p))
      (sym (ok-injective h))
      (
        agreed-IsWorkable loaded actor now configured (or_none order) sequence omitted old sound,
        agreed-IsCounted loaded actor now sequence omitted old,
        subst (λ id. find_plan id (save_plan after plans) ≡ some after) own
            (find-save after old plans
              (subst (λ id. find_plan id plans ≡ some old) (sym own) found)),
      )

-- Where `begin_plan` returns a plan and the configuration names each group once: the plan is
-- active, it has the configured groups and no others, each once, with the named ones first, only
-- configured groups are set aside and at least one group is left; its version is that of the plan
-- that `plan_for` finds or writes where the order and the groups set aside are the same as there, and
-- one more where they are not; and it is the plan of its run in the table.
pub begin_plan-IsWorkable :
    (loaded : Loaded) (run_id : String) (order only skip : Option (List String)) (actor : String)
    (now : ℕ) (plans : List ReviewPlan) (plan : ReviewPlan)
    → IsDistinct (enabled_keys loaded.capabilities)
    → (begin_plan loaded run_id order only skip actor now plans).0 ≡ ok plan
    → IsWorkable (enabled_keys loaded.capabilities) (or_none order) plan
      × IsCounted (plan_for loaded run_id true now plans).0 plan
      × (find_plan run_id (begin_plan loaded run_id order only skip actor now plans).1 ≡ some plan)
unfolding begin_plan plan_for
begin_plan-IsWorkable loaded run_id order only skip actor now plans plan distinct h =
    let (old, planned) = plan_for loaded run_id true now plans in
    let there = plan_or_new-found loaded run_id true now plans _ refl in
    let own = find-run_id run_id planned old there in
    let (works, counted, found) =
      begun-lem loaded actor now (enabled_keys loaded.capabilities) order only skip planned old _
        plan distinct refl (subst (λ id. find_plan id planned ≡ some old) (sym own) there) h in
    (
      works,
      counted,
      subst
          (λ id.
            find_plan id (begin_plan loaded run_id order only skip actor now plans).1 ≡ some plan)
          own found,
    )
