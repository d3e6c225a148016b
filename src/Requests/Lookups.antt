-- ===== src/Requests/Lookups.antt =====
-- The rows that the requests of adminos/api/actions.py look up.
use timmeny_admin_os.Common.{
  String, ◌≡◌, refl, sym, subst, inl, inr, arith, Option, none, some, List, [], ◌∷◌, ◌==◌,
  Bool-cases, map, All, Result, ok, raised, >>=-ok, ok-injective, eq_iff,
}
use timmeny_admin_os.Actions.Rows.{ReviewAction}
use timmeny_admin_os.Scopes.{ScopeError}
use timmeny_admin_os.Requests.{find_action, lookup_action, action_of_run, lift_scope}
use timmeny_admin_os.Requests.Selecting.{lookup_each}

pub lift_scope-ok : {A : Type 0} (r : Result ScopeError A) {a : A} → lift_scope r ≡ ok a → r ≡ ok a
unfolding lift_scope
lift_scope-ok (ok a) h = cc
lift_scope-ok (raised e) h = cc

pub action_of_run-found :
    (run_id id : String) (o : Option ReviewAction) (a : ReviewAction)
    → action_of_run run_id id o ≡ ok a
    → o ≡ some a
unfolding action_of_run
action_of_run-found run_id id none a h = cc
action_of_run-found run_id id (some s) a h = elim (Bool-cases (s.run_id == run_id)) [
  | inl own ↦ let same = rw own at h in cc
  | inr other ↦ let impossible = rw other at h in cc
]

pub find_action-id :
    (id : String) (actions : List ReviewAction) (a : ReviewAction)
    → find_action id actions ≡ some a
    → a.id ≡ id
unfolding find_action
find_action-id id [] a h = cc
find_action-id id (b ∷ rest) a h = elim (Bool-cases (b.id == id)) [
  | inl own ↦ ground (arith, h, own, (eq_iff b.id id).0 own)
  | inr other ↦ find_action-id id rest a (ground (arith, h, other))
]

pub lookup_each-found :
    (run_id : String) (ids : List String) (rows actions : List ReviewAction)
    → lookup_each run_id ids rows ≡ ok actions
    → (map (λ a. a.id) actions ≡ ids) × All (λ a. find_action a.id rows ≡ some a) actions
unfolding lookup_each lookup_action
lookup_each-found run_id [] rows actions h =
    subst (λ xs. (map (λ a. a.id) xs ≡ []) × All (λ a. find_action a.id rows ≡ some a) xs)
      (sym (ok-injective h)) (refl, tt)
lookup_each-found run_id (id ∷ ids) rows actions h =
    let (a, one, more) = >>=-ok (lookup_action run_id id rows) _ h in
    let (others, rest, made) = >>=-ok (lookup_each run_id ids rows) _ more in
    let found = action_of_run-found run_id id (find_action id rows) a one in
    let same = find_action-id id rows a found in
    let (named, all_found) = lookup_each-found run_id ids rows others rest in
    subst (λ xs. (map (λ a. a.id) xs ≡ id ∷ ids) × All (λ a. find_action a.id rows ≡ some a) xs)
      (sym (ok-injective made))
      (
        rw same (rw named refl),
        (subst (λ i. find_action i rows ≡ some a) (sym same) found, all_found),
      )
