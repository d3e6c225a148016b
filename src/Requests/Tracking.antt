-- ===== src/Requests/Tracking.antt =====
-- `run_actions` of adminos/api/actions.py keeps each row of `review_actions` as it was approved.
use timmeny_admin_os.Common.{
  ℕ, String, true, ◌≡◌, refl, sym, ap, subst, ◌∙◌, inl, inr, arith, some, List, [], ◌∷◌, ◌==◌,
  Bool-cases, Result, ok, raised, eq_iff,
}
use timmeny_admin_os.Capabilities.Config.{CapabilityConfig}
use timmeny_admin_os.Actions.Rows.{ReviewAction, ActionError}
use timmeny_admin_os.Actions.Mail.{GmailClient}
use timmeny_admin_os.Actions.Lifecycle.{Work}
use timmeny_admin_os.Actions.Lifecycle.Keeps.{
  as_approved, Keeps, prepare_action-Keeps, execute_action-Keeps,
}
use timmeny_admin_os.Scopes.{ActionScope}
use timmeny_admin_os.Requests.{HttpProblem, find_action, save_action, lookup_action}
use timmeny_admin_os.Requests.Lookups.{find_action-id, action_of_run-found}
use timmeny_admin_os.Requests.Executing.{
  World, work_on, execute_prepared, ended, run_with, run_found, run_one, and_then, run_each,
}

-- Each row of the first table is in the second, as it was approved.
abbrev pub Tracks : List ReviewAction → List ReviewAction → Type 0
Tracks before after =
    (id : String) (a : ReviewAction)
    → find_action id before ≡ some a
    → (a' : ReviewAction) × (find_action id after ≡ some a') × (as_approved a' ≡ as_approved a)

same_row : {b old a : ReviewAction} → some b ≡ some old → some b ≡ some a → old ≡ a
same_row f h = cc

as_same : (b a : ReviewAction) → some b ≡ some a → as_approved b ≡ as_approved a
as_same b a h = ap as_approved (same_row {b = b} {old = b} {a = a} refl h)

save-Tracks :
    (row old : ReviewAction) (actions : List ReviewAction)
    → find_action row.id actions ≡ some old
    → as_approved row ≡ as_approved old
    → Tracks actions (save_action row actions)
unfolding find_action save_action
save-Tracks row old [] f same id a h = cc
save-Tracks row old (b ∷ rest) f same id a h = elim (Bool-cases (b.id == row.id)) [
  | inl own ↦ elim (Bool-cases (row.id == id)) [
    | inl asked ↦
        let here = (eq_iff b.id id).1 ((eq_iff b.id row.id).0 own ∙ (eq_iff row.id id).0 asked) in
        rw own (rw asked (row, refl, same ∙ ap as_approved (same_row (rw own at f) (rw here at h))))
    | inr other ↦ rw own (rw other (a, ground (arith, h, other, (eq_iff b.id row.id).0 own), refl))
  ]
  | inr other ↦ rw other (elim (Bool-cases (b.id == id)) [
    | inl asked ↦ rw asked (b, refl, as_same b a (rw asked at h))
    | inr next ↦ rw next (save-Tracks row old rest (rw other at f) same id a (rw next at h))
  ])
]

Tracks-refl : (xs : List ReviewAction) → Tracks xs xs
Tracks-refl xs id a h = (a, h, refl)

Tracks-trans : (xs ys zs : List ReviewAction) → Tracks xs ys → Tracks ys zs → Tracks xs zs
Tracks-trans xs ys zs f g id a h =
    let (b, found, same) = f id a h in
    let (c, there, kept) = g id b found in (c, there, kept ∙ same)

module _ {M : Type 0} (client : GmailClient M) (upper : String → String)
    (loaded : List CapabilityConfig) (now : ℕ) where
  execute_prepared-Keeps :
      (capability : CapabilityConfig) (w : Work M) (o : Result ActionError (Unit {0}) × Work M)
      → Keeps w o.1
      → Keeps w (execute_prepared client upper loaded now capability o).1
  unfolding execute_prepared
  execute_prepared-Keeps capability w (raised e, w') k = k
  execute_prepared-Keeps capability w (ok _, w') k =
      execute_action-Keeps client capability now true w' ∙ k

  ended-Tracks :
      (a : ReviewAction) (w : World M) (o : Result ActionError (Unit {0}) × Work M)
      → find_action a.id w.db.actions ≡ some a
      → as_approved o.1.action ≡ as_approved a
      → Tracks w.db.actions (ended client upper loaded now w o).1.db.actions
  unfolding ended
  ended-Tracks a w (raised e, done) f k =
      save-Tracks done.action a w.db.actions (ap (λ p. find_action p.id w.db.actions) k ∙ f) k
  ended-Tracks a w (ok _, done) f k =
      save-Tracks done.action a w.db.actions (ap (λ p. find_action p.id w.db.actions) k ∙ f) k

  run_with-Tracks :
      (a : ReviewAction) (w : World M) (c : Result HttpProblem CapabilityConfig)
      → find_action a.id w.db.actions ≡ some a
      → Tracks w.db.actions (run_with client upper loaded now a w c).1.db.actions
  unfolding run_with
  run_with-Tracks a w (raised e) f = Tracks-refl w.db.actions
  run_with-Tracks a w (ok capability) f = ended-Tracks a w _ f (
      execute_prepared-Keeps capability (work_on client upper loaded now a w) _
        (prepare_action-Keeps upper now capability (work_on client upper loaded now a w)))

  run_found-Tracks :
      (w : World M) (o : Result HttpProblem ReviewAction)
      → ((a : ReviewAction) → o ≡ ok a → find_action a.id w.db.actions ≡ some a)
      → Tracks w.db.actions (run_found client upper loaded now w o).1.db.actions
  unfolding run_found
  run_found-Tracks w (raised e) f = Tracks-refl w.db.actions
  run_found-Tracks w (ok a) f = run_with-Tracks a w _ (f a refl)

  run_one-Tracks :
      (run_id id : String) (w : World M)
      → Tracks w.db.actions (run_one client upper loaded now run_id id w).1.db.actions
  unfolding run_one lookup_action
  run_one-Tracks run_id id w = run_found-Tracks w (lookup_action run_id id w.db.actions) (λ a h.
      let found = action_of_run-found run_id id (find_action id w.db.actions) a h in
      subst (λ i. find_action i w.db.actions ≡ some a)
        (sym (find_action-id id w.db.actions a found)) found)

  and_then-Tracks :
      (before : List ReviewAction) (o : Result HttpProblem (Unit {0}) × World M)
      (next : World M → Result HttpProblem (Unit {0}) × World M)
      → Tracks before o.1.db.actions
      → ((w : World M) → Tracks w.db.actions (next w).1.db.actions)
      → Tracks before (and_then o next).1.db.actions
  and_then-Tracks before (raised e, w) next t n = t
  and_then-Tracks before (ok _, w) next t n = Tracks-trans before w.db.actions _ t (n w)

  pub run_each-Tracks :
      (run_id : String) (ids : List String) (w : World M)
      → Tracks w.db.actions (run_each client upper loaded now run_id ids w).1.db.actions
  unfolding run_each
  run_each-Tracks run_id [] w = Tracks-refl w.db.actions
  run_each-Tracks run_id (id ∷ ids) w =
      and_then-Tracks w.db.actions (run_one client upper loaded now run_id id w)
        (λ w'. run_each client upper loaded now run_id ids w') (run_one-Tracks run_id id w)
        (λ w'. run_each-Tracks run_id ids w')

  ended-scopes :
      (w : World M) (o : Result ActionError (Unit {0}) × Work M)
      → (ended client upper loaded now w o).1.db.scopes ≡ w.db.scopes
  unfolding ended
  ended-scopes w (raised e, done) = refl
  ended-scopes w (ok _, done) = refl

  and_then-scopes :
      (before : List ActionScope) (o : Result HttpProblem (Unit {0}) × World M)
      (next : World M → Result HttpProblem (Unit {0}) × World M)
      → o.1.db.scopes ≡ before
      → ((w : World M) → (next w).1.db.scopes ≡ w.db.scopes)
      → (and_then o next).1.db.scopes ≡ before
  and_then-scopes before (raised e, w) next t n = t
  and_then-scopes before (ok _, w) next t n = n w ∙ t

  run_with-scopes :
      (a : ReviewAction) (w : World M) (c : Result HttpProblem CapabilityConfig)
      → (run_with client upper loaded now a w c).1.db.scopes ≡ w.db.scopes
  unfolding run_with
  run_with-scopes a w (raised e) = refl
  run_with-scopes a w (ok capability) = ended-scopes w _

  run_found-scopes :
      (w : World M) (o : Result HttpProblem ReviewAction)
      → (run_found client upper loaded now w o).1.db.scopes ≡ w.db.scopes
  unfolding run_found
  run_found-scopes w (raised e) = refl
  run_found-scopes w (ok a) = run_with-scopes a w _

  pub run_each-scopes :
      (run_id : String) (ids : List String) (w : World M)
      → (run_each client upper loaded now run_id ids w).1.db.scopes ≡ w.db.scopes
  unfolding run_each run_one
  run_each-scopes run_id [] w = refl
  run_each-scopes run_id (id ∷ ids) w =
      and_then-scopes w.db.scopes (run_one client upper loaded now run_id id w)
        (λ w'. run_each client upper loaded now run_id ids w') (run_found-scopes w _)
        (λ w'. run_each-scopes run_id ids w')
