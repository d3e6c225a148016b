-- ===== src/Actions/Lifecycle/Numbering.antt =====
-- The sequence numbers that `record_event` of adminos/domain/actions.py gives.
use timmeny_admin_os.Common.{
  ℕ, suc, max, String, ◌≡◌, Option, List, [], ◌∷◌, ◌++◌, ◌==◌, eq_iff, if◌then◌else◌, arith,
  Bool-cases, inl, inr, Members,
}
use timmeny_admin_os.Actions.Rows.{
  Failure, ActionEventKind, ReviewAction, ActionEvent, last_sequence, record_event,
}

abbrev next_low : String → ℕ → ActionEvent → ℕ
next_low id low e = if e.action_id == id then suc low else low

-- The events of the action go on from `low`, one at a time.
abbrev Ascends : String → ℕ → List ActionEvent → Type 0
Ascends id low [] = Unit
Ascends id low (e ∷ es) =
    (e.action_id ≡ id → e.sequence ≡ suc low) × Ascends id (next_low id low e) es

pub record IsNumbered (events : List ActionEvent) : Type 0 where
  pub from_one : (id : String) → Ascends id 0 events

final : String → ℕ → List ActionEvent → ℕ
final id low [] = low
final id low (e ∷ es) = final id (next_low id low e) es

last-final :
    (id : String) (low : ℕ) (es : List ActionEvent)
    → Ascends id low es
    → max low (last_sequence id es) ≡ final id low es
unfolding last_sequence final
last-final id low [] h = omega arith
last-final id low (e ∷ es) h = elim (Bool-cases (e.action_id == id)) [
  | inl own ↦
      let first = h.0 ((eq_iff e.action_id id).0 own) in
      rw own (rw first (omega (arith, last-final id (suc low) es (rw own at h.1))))
  | inr other ↦ rw other (last-final id low es (rw other at h.1))
]

append-Ascends :
    (id : String) (low : ℕ) (es : List ActionEvent) (e : ActionEvent)
    → Ascends id low es
    → (e.action_id ≡ id → e.sequence ≡ suc (final id low es))
    → Ascends id low (es ++ e ∷ [])
unfolding final
append-Ascends id low [] e h k = (k, tt)
append-Ascends id low (d ∷ es) e h k = (h.0, append-Ascends id (next_low id low d) es e h.1 k)

-- Recording an event gives it the next number of its action, and leaves the numbers of the others.
pub record_event-IsNumbered :
    (action : ReviewAction) (event : ActionEventKind) (detail : Option Members)
    (failure : Option Failure) (external_ref : Option String) (events : List ActionEvent)
    → IsNumbered events
    → IsNumbered (record_event action event detail failure external_ref events)
unfolding record_event
record_event-IsNumbered action event detail failure external_ref events h = record {
  from_one = λ id.
      append-Ascends id 0 events _ (h.from_one id)
        λ own. rw own (omega (arith, last-final id 0 events (h.from_one id)));
}
