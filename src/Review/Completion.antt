-- ===== src/Review/Completion.antt =====
-- What a group that adminos/domain/review.py completes owes: nothing.
use timmeny_admin_os.Common.{
  Bool, true, false, not, ◌&&◌, ◌≡◌, refl, ◌⊎◌, inl, inr, arith, Bool-cases, some, List, [], ◌∷◌,
  All, keep, is_empty, if◌then◌else◌,
}
use timmeny_admin_os.Capabilities.Config.{CapabilityConfig, find_capability}
use timmeny_admin_os.Actions.Rows.{ReviewItem}
use timmeny_admin_os.Plan.Begin.{Loaded}
use timmeny_admin_os.Plan.Standing.{owes_decision}
use timmeny_admin_os.Review.Rows.{GroupState}
use timmeny_admin_os.Review.Checking.{is_pending}
use timmeny_admin_os.Review.States.{GroupView, group_state, group_state_of, is_completed}

-- Under the capability's rules of completion, no row waits for a decision or for its execution.
pub record OwesNothing (loaded : Loaded) (v : GroupView) : Type 0 where
  pub capability : CapabilityConfig
  pub found : find_capability v.group.capability_key loaded.capabilities ≡ some capability
  pub decided :
      capability.completion.require_all_items_decided ≡ true
      → All (λ i. is_pending i.state ≡ false) v.items
  pub executed :
      capability.completion.require_executed_actions ≡ true
      → All (λ i. owes_decision i.state ≡ false) v.items

keep-none :
    (p : ReviewItem → Bool) (items : List ReviewItem)
    → is_empty (keep p items) ≡ true
    → All (λ i. p i ≡ false) items
keep-none p [] h = tt
keep-none p (i ∷ rest) h = elim (Bool-cases (p i)) [
  | inl e ↦ let impossible = rw e at h in cc
  | inr e ↦ (e, keep-none p rest (rw e at h))
]

-- A group is completed by having no items, or by the rules of its capability.
group_state_of-done :
    (decided executed nothing undecided unexecuted same : Bool)
    → is_completed (
        if nothing
        then GroupState.completed
        else if decided && not undecided
        then if same then GroupState.pending else GroupState.in_progress
        else if executed && not unexecuted
        then GroupState.awaiting_actions
        else GroupState.completed)
      ≡ true
    → (nothing ≡ true)
      ⊎ ((decided ≡ true → undecided ≡ true) × (executed ≡ true → unexecuted ≡ true))
unfolding is_completed
group_state_of-done decided executed true undecided unexecuted same h = inl refl
group_state_of-done decided executed false undecided unexecuted same h =
    inr (λ d. ground (arith, h, d), λ e. ground (arith, h, e))

empty-items : (items : List ReviewItem) → is_empty items ≡ true → items ≡ []
empty-items [] h = refl
empty-items (x ∷ xs) h = cc

pub group_state-done :
    (capability : CapabilityConfig) (items : List ReviewItem)
    → is_completed (group_state capability items) ≡ true
    → (capability.completion.require_all_items_decided ≡ true
        → All (λ i. is_pending i.state ≡ false) items)
      × (capability.completion.require_executed_actions ≡ true
          → All (λ i. owes_decision i.state ≡ false) items)
unfolding group_state group_state_of
group_state-done capability items h =
    elim (group_state_of-done capability.completion.require_all_items_decided
      capability.completion.require_executed_actions (is_empty items)
      (is_empty (keep (λ i. is_pending i.state) items))
      (is_empty (keep (λ i. owes_decision i.state) items)) _ h) [
        | inl nothing ↦ rw (empty-items items nothing) (λ d. tt, λ e. tt)
        | inr (decided, executed) ↦ (
          λ d. keep-none (λ i. is_pending i.state) items (decided d),
          λ e. keep-none (λ i. owes_decision i.state) items (executed e),
        )
      ]
