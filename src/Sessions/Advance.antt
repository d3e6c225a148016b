-- ===== src/Sessions/Advance.antt =====
-- Where `advance_session` of adminos/domain/sessions.py leaves a session.
use timmeny_admin_os.Common.{
  ℕ, ◌≤◌, String, Bool, ◌≡◌, refl, sym, subst, ◌⊎◌, inl, inr, Option, none, some, List, [], ◌∷◌,
  keep, map, All, Among, arith, Bool-cases, ◌==◌,
}
use timmeny_admin_os.Common.Sorting.{IsSorted, sort_by-IsSorted}
use timmeny_admin_os.Sessions.{
  completed, SessionActivity, RunState, Desk, is_open, read_activities, settled, move_on,
  advance_session,
}

-- The activities of the session that are still to be worked, in their order.
pub open_activities : Desk → List SessionActivity
unfolding read_activities is_open
open_activities desk = keep (λ a. is_open a.state) (read_activities desk.row.id desk.activities)

-- The first activity that is open is in hand, and the session stands as it stood.
pub record IsMovedOn (before after : Desk) : Type 0 where
  pub next : SessionActivity
  pub in_hand : after.row.current_activity_key ≡ some next.activity_key
  pub is_one : Among next (open_activities after)
  pub is_first : All (λ a. next.position ≤ a.position) (open_activities after)
  pub same_status : after.row.status ≡ before.row.status

-- Nothing is open, and the session is recorded as completed.
pub record IsClosed (after : Desk) : Type 0 where
  pub is_completed : after.row.status ≡ completed
  pub none_open : open_activities after ≡ []
  pub none_in_hand : after.row.current_activity_key ≡ none

module _ {A : Type 0} where
  keep-All : (P : A → Type 0) (p : A → Bool) (xs : List A) → All P xs → All P (keep p xs)
  keep-All P p [] h = tt
  keep-All P p (x ∷ xs) h = elim (Bool-cases (p x)) [
    | inl e ↦ rw e (h.0, keep-All P p xs h.1)
    | inr e ↦ rw e (keep-All P p xs h.1)
  ]

keep-IsSorted :
    (key : SessionActivity → ℕ) (p : SessionActivity → Bool) (xs : List SessionActivity)
    → IsSorted key xs
    → IsSorted key (keep p xs)
unfolding IsSorted
keep-IsSorted key p [] h = tt
keep-IsSorted key p (x ∷ xs) h = elim (Bool-cases (p x)) [
  | inl e ↦ rw e (keep-All (λ y. key x ≤ key y) p xs h.0, keep-IsSorted key p xs h.1)
  | inr e ↦ rw e (keep-IsSorted key p xs h.1)
]

open_activities-IsSorted : (desk : Desk) → IsSorted (λ a. a.position) (open_activities desk)
unfolding open_activities read_activities
open_activities-IsSorted desk =
    keep-IsSorted (λ a. a.position) (λ a. is_open a.state)
      (read_activities desk.row.id desk.activities)
      (sort_by-IsSorted (λ a. a.position) (keep (λ a. a.session_id == desk.row.id) desk.activities))

move_on-lem :
    (now : ℕ) (desk : Desk) (remaining : List SessionActivity)
    → open_activities desk ≡ remaining
    → IsSorted (λ a. a.position) remaining
    → IsMovedOn desk (move_on now desk remaining) ⊎ IsClosed (move_on now desk remaining)
unfolding move_on IsSorted open_activities
move_on-lem now desk [] e sorted =
    inr record { is_completed = refl; none_open = e; none_in_hand = refl }
move_on-lem now desk (next ∷ rest) e sorted = inl record {
  next = next;
  in_hand = refl;
  is_one = subst (λ xs. Among next xs) (sym e) (inl refl);
  is_first = subst (λ xs. All (λ a. next.position ≤ a.position) xs) (sym e) (omega arith, sorted.0);
  same_status = refl;
}

pub advance_session-moves :
    (runs : String → Option RunState) (now : ℕ) (desk : Desk)
    → IsMovedOn desk (advance_session runs now desk) ⊎ IsClosed (advance_session runs now desk)
unfolding advance_session open_activities
advance_session-moves runs now desk =
    let settled_desk = record desk {
      activities = map (settled runs now desk.row.id) desk.activities;
    } in
    elim (move_on-lem now settled_desk (open_activities settled_desk) refl
      (open_activities-IsSorted settled_desk)) [
        | inl moved ↦ inl record {
          next = moved.next;
          in_hand = moved.in_hand;
          is_one = moved.is_one;
          is_first = moved.is_first;
          same_status = moved.same_status;
        }
        | inr closed ↦ inr closed
      ]
