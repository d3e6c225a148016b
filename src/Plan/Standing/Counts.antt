-- ===== src/Plan/Standing/Counts.antt =====
-- What `count_standing` and `review_summary` count.
use timmeny_admin_os.Common.{
  ℕ, suc, ◌+◌, ◌≤◌, String, Bool, true, false, not, ◌&&◌, ◌≡◌, refl, ap, ◌∙◌, List, [], ◌∷◌, ◌==◌,
  if◌then◌else◌, Bool-cases, inl, inr, arith, eq_iff, eq_refl, elem, elem-keep, keep, map, length,
}
use timmeny_admin_os.Actions.Rows.{
  ActionState, approved, prepared, executed, verified, completed, failed, ReviewAction, ReviewItem,
}
use timmeny_admin_os.Plan.Standing.{
  outstanding, owes_decision, is_prepared, is_unfinished, is_attempted, is_completed, carried,
  count_standing, action_name, count_name, count_done,
}
use timmeny_admin_os.Plan.Arrange.Order.{IsDistinct, keep-IsDistinct}

module _ {A : Type 0} where
  -- A test that splits into two tests, of which at most one holds, splits the count.
  keep-split :
      (p q r : A → Bool) (xs : List A)
      → ((x : A) → (p x ≡ true → q x ≡ false))
      → ((x : A) → r x ≡ (if p x then true else q x))
      → length (keep r xs) ≡ length (keep p xs) + length (keep q xs)
  keep-split p q r [] apart both = omega arith
  keep-split p q r (x ∷ xs) apart both =
      ground (arith, keep-split p q r xs apart both, apart x, both x)

  -- Two tests that never hold together are met by no more elements than there are.
  keep-apart :
      (p q : A → Bool) (xs : List A)
      → ((x : A) → p x ≡ true → q x ≡ false)
      → length (keep p xs) + length (keep q xs) ≤ length xs
  keep-apart p q [] apart = omega arith
  keep-apart p q (x ∷ xs) apart = ground (arith, keep-apart p q xs apart, apart x)

prepared-apart : (s : ActionState) → is_prepared s ≡ true → is_unfinished s ≡ false
unfolding is_prepared is_unfinished
prepared-apart prepared h = refl
prepared-apart approved h = cc
prepared-apart executed h = cc
prepared-apart verified h = cc
prepared-apart completed h = cc
prepared-apart failed h = cc

attempted-cases :
    (s : ActionState) → is_attempted s ≡ (if is_prepared s then true else is_unfinished s)
unfolding is_prepared is_unfinished is_attempted
attempted-cases approved = refl
attempted-cases prepared = refl
attempted-cases executed = refl
attempted-cases verified = refl
attempted-cases completed = refl
attempted-cases failed = refl

length-map : {A B : Type 0} (f : A → B) (xs : List A) → length (map f xs) ≡ length xs
length-map f [] = refl
length-map f (x ∷ xs) = ap suc (length-map f xs)

-- Every attempted action is in exactly one of the two counts of actions.
attempted-counts :
    (items : List ReviewItem) (actions : List ReviewAction)
    → length (carried actions)
      ≡ (count_standing items actions).prepared_awaiting_confirmation
        + (count_standing items actions).failed_or_unverified
unfolding count_standing carried
attempted-counts items actions =
    length-map (λ a. a.item_id) (keep (λ a. is_attempted a.state) actions)
    ∙ keep-split (λ a. is_prepared a.state) (λ a. is_unfinished a.state) (λ a. is_attempted a.state)
        actions (λ a. prepared-apart a.state) (λ a. attempted-cases a.state)

keep-fewer :
    (p q : ReviewItem → Bool) (items : List ReviewItem)
    → ((i : ReviewItem) → p i ≡ true → q i ≡ true)
    → length (keep p items) ≤ length (keep q items)
keep-fewer p q [] h = omega arith
keep-fewer p q (i ∷ items) h = ground (arith, keep-fewer p q items h, h i)

absent-keeps :
    (id : String) (ids : List String)
    → elem id ids ≡ false
    → length (keep (λ k. not (k == id)) ids) ≡ length ids
absent-keeps id [] h = refl
absent-keeps id (k ∷ ids) h = ground (arith, h, absent-keeps id ids)

-- Taking one identity out of distinct ones takes out one at most.
without-one :
    (id : String) (ids : List String)
    → IsDistinct ids
    → length ids ≤ length (keep (λ k. not (k == id)) ids) + (if elem id ids then 1 else 0)
unfolding IsDistinct
without-one id [] h = omega arith
without-one id (k ∷ ids) h =
    ground (arith, without-one id ids h.1, absent-keeps k ids h.0, h.0, eq_iff k id)

-- Distinct identities that all belong to rows are no more than the rows they belong to.
pigeonhole :
    (ids : List String) (items : List ReviewItem)
    → IsDistinct ids
    → ((id : String) → elem id ids ≡ true → elem id (map (λ i. i.id) items) ≡ true)
    → length ids ≤ length (keep (λ i. elem i.id ids) items)
pigeonhole [] [] distinct owned = omega arith
pigeonhole (id ∷ ids) [] distinct owned = ground (arith, owned id, eq_refl id)
pigeonhole ids (i ∷ items) distinct owned =
    let others = keep (λ k. not (k == i.id)) ids in
    let fits =
      pigeonhole others items (keep-IsDistinct (λ k. not (k == i.id)) ids distinct) (λ id e.
        ground (
          arith,
          e,
          elem-keep id (λ k. not (k == i.id)) ids,
          owned id,
          eq_iff i.id id,
          eq_iff id i.id,
        )) in
    let wider =
      keep-fewer (λ j. elem j.id others) (λ j. elem j.id ids) items
        (λ j e. ground (arith, e, elem-keep j.id (λ k. not (k == i.id)) ids)) in
    ground (arith, fits, wider, without-one i.id ids distinct)

-- Where each row has at most one attempted action and every attempted action is for one of the
-- rows, what is outstanding counts each row once at most.
pub count_standing-outstanding :
    (items : List ReviewItem) (actions : List ReviewAction)
    → IsDistinct (carried actions)
    → ((id : String) → elem id (carried actions) ≡ true → elem id (map (λ i. i.id) items) ≡ true)
    → outstanding (count_standing items actions) ≤ length items
unfolding count_standing outstanding
count_standing-outstanding items actions distinct owned = omega (
  arith,
  attempted-counts items actions,
  pigeonhole (carried actions) items distinct owned,
  keep-apart (λ i. owes_decision i.state && not (elem i.id (carried actions)))
      (λ i. elem i.id (carried actions)) items (λ i e. ground (arith, e)),
)

pub count_of : String → List (String × ℕ) → ℕ
count_of name [] = 0
count_of name ((key, n) ∷ done) = let rest = count_of name done in if key == name then n else rest

count_of-count_name :
    (name counted : String) (done : List (String × ℕ))
    → count_of name (count_name counted done)
      ≡ count_of name done + (if counted == name then 1 else 0)
unfolding count_of count_name
count_of-count_name name counted [] = ground arith
count_of-count_name name counted ((key, n) ∷ done) = elim (Bool-cases (key == counted)) [
  | inl e ↦ rw e (ground (arith, e, (eq_iff key counted).0 e, eq_iff key name))
  | inr e ↦ rw e (
      ground (
        arith,
        e,
        count_of-count_name name counted done,
        eq_iff key name,
        eq_iff counted name,
        eq_iff key counted,
      ))
]

-- What a review did under a name is counted from the completed actions of that name, and from
-- nothing else.
pub count_done-completed :
    (name : String) (actions : List ReviewAction) (done : List (String × ℕ))
    → count_of name (count_done actions done)
      ≡ count_of name done
        + length (keep (λ a. is_completed a.state && action_name a.action_kind == name) actions)
unfolding count_done
count_done-completed name [] done = omega arith
count_done-completed name (a ∷ actions) done = elim (Bool-cases (is_completed a.state)) [
  | inl e ↦ rw e (
      ground (
        arith,
        count_done-completed name actions (count_name (action_name a.action_kind) done),
        count_of-count_name name (action_name a.action_kind) done,
      ))
  | inr e ↦ rw e (count_done-completed name actions done)
]
