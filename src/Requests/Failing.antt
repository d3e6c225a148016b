-- ===== src/Requests/Failing.antt =====
-- One action of a request of adminos/api/actions.py: how it ends, and how it raises.
use timmeny_admin_os.Common.{
  ℕ, String, true, ◌≡◌, refl, sym, ap, subst, ◌∙◌, ◌⊎◌, inl, inr, List, [], ◌∷◌, ◌==◌, Bool-cases,
  some, eq_refl, Result, ok, raised,
}
use timmeny_admin_os.Capabilities.Config.{CapabilityConfig}
use timmeny_admin_os.Actions.Rows.{completed, failed, ReviewAction, ActionError}
use timmeny_admin_os.Actions.Mail.{GmailClient}
use timmeny_admin_os.Actions.Lifecycle.{Work, prepare_action, execute_action}
use timmeny_admin_os.Actions.Lifecycle.Keeps.{
  as_approved, prepare_action-Keeps, prepare_action_mailbox, execute_action-Keeps,
}
use timmeny_admin_os.Actions.Lifecycle.Settles.{Concludes, execute_action-Concludes}
use timmeny_admin_os.Actions.Lifecycle.Stranded.{IsLeftBehind, execute_action-IsLeftBehind}
use timmeny_admin_os.Requests.{
  HttpProblem, action_failed, find_action, save_action, lookup_action, read_capability,
}
use timmeny_admin_os.Requests.Executing.{
  World, work_on, execute_prepared, ended, run_with, run_found, run_one,
}
use timmeny_admin_os.Requests.Lookups.{action_of_run-found, find_action-id}

-- A row that was saved is the one that is found.
found-save :
    (row old : ReviewAction) (actions : List ReviewAction)
    → find_action row.id actions ≡ some old
    → find_action row.id (save_action row actions) ≡ some row
unfolding find_action save_action
found-save row old [] h = cc
found-save row old (a ∷ rest) h = elim (Bool-cases (a.id == row.id)) [
  | inl own ↦ rw own (rw (eq_refl row.id) refl)
  | inr other ↦ rw other (rw other (found-save row old rest (rw other at h)))
]

-- The action was executed to its end: its row says completed or failed.
abbrev pub IsEnded : {M : Type 0} → String → World M → Type 0
IsEnded id w =
    (a : ReviewAction) × (find_action id w.db.actions ≡ some a)
    × ((a.state ≡ completed) ⊎ (a.state ≡ failed))

module _ {M : Type 0} (client : GmailClient M) (upper : String → String)
    (loaded : List CapabilityConfig) (now : ℕ) where
  -- What the action that raised did to the mailbox: nothing, or its write was made and its reading was
  -- refused.
  abbrev pub IsFailing : String → World M → HttpProblem → M → Type 0
  IsFailing id w e m =
      (m ≡ w.mailbox)
      ⊎ ((a : ReviewAction) × (capability : CapabilityConfig) × (begun : Work M) × (stopped : Work
            M)
          × (why : ActionError) × (find_action id w.db.actions ≡ some a)
          × (read_capability loaded a.capability_key ≡ ok capability)
          × (begun ≡ (prepare_action upper capability now (work_on client upper loaded now a w)).1)
          × (stopped ≡ (execute_action client capability now true begun).1)
          × (as_approved begun.action ≡ as_approved a)
          × (begun.mailbox ≡ w.mailbox)
          × (e ≡ action_failed why)
          × IsLeftBehind client capability now begun why stopped
          × (m ≡ stopped.mailbox))

  executed-IsEnded :
      (a : ReviewAction) (w : World M) (p : Work M) (o : Result ActionError (Unit {0}) × Work M)
      → find_action a.id w.db.actions ≡ some a
      → as_approved o.1.action ≡ as_approved a
      → Concludes p o
      → (ended client upper loaded now w o).0 ≡ ok tt
      → IsEnded a.id (ended client upper loaded now w o).1
  unfolding ended
  executed-IsEnded a w p (raised e, done) found same ends h = cc
  executed-IsEnded a w p (ok _, done) found same ends h =
      let own : done.action.id ≡ a.id = ap (λ k. k.id) same in
      (
        done.action,
        subst (λ id. find_action id (save_action done.action w.db.actions) ≡ some done.action) own
            (found-save done.action a w.db.actions
              (subst (λ id. find_action id w.db.actions ≡ some a) (sym own) found)),
        ends,
      )

  prepared-IsEnded :
      (a : ReviewAction) (w : World M) (c : CapabilityConfig)
      (o : Result ActionError (Unit {0}) × Work M)
      → find_action a.id w.db.actions ≡ some a
      → as_approved o.1.action ≡ as_approved a
      → (ended client upper loaded now w (execute_prepared client upper loaded now c o)).0 ≡ ok tt
      → IsEnded a.id
          (ended client upper loaded now w (execute_prepared client upper loaded now c o)).1
  unfolding execute_prepared ended
  prepared-IsEnded a w c (raised e, p) found same h = cc
  prepared-IsEnded a w c (ok _, p) found same h =
      executed-IsEnded a w p (execute_action client c now true p) found
        (execute_action-Keeps client c now true p ∙ same)
        (execute_action-Concludes client c now true p) h

  executed-IsFailing :
      (a : ReviewAction) (w : World M) (c : CapabilityConfig) (p : Work M)
      (o : Result ActionError (Unit {0}) × Work M) (e : HttpProblem)
      → find_action a.id w.db.actions ≡ some a
      → read_capability loaded a.capability_key ≡ ok c
      → p ≡ (prepare_action upper c now (work_on client upper loaded now a w)).1
      → o ≡ execute_action client c now true p
      → (ended client upper loaded now w o).0 ≡ raised e
      → IsFailing a.id w e (ended client upper loaded now w o).1.mailbox
  unfolding ended
  executed-IsFailing a w c p (ok _, done) e found own begins stops h = cc
  executed-IsFailing a w c p (raised why, done) e found own begins stops h =
      let start = work_on client upper loaded now a w in
      let same = ap (λ x. as_approved x.action) begins ∙ prepare_action-Keeps upper now c start in
      let mail = ap (λ x. x.mailbox) begins ∙ prepare_action_mailbox upper now c start in
      let stopped = ap (λ x. x.1) stops in
      elim (execute_action-IsLeftBehind client c now true p why (sym (ap (λ x. x.0) stops))) [
        | inl unchanged ↦ inl (ap (λ x. x.mailbox) (stopped ∙ unchanged) ∙ mail)
        | inr behind ↦ inr (
          a,
          c,
          p,
          done,
          why,
          found,
          own,
          begins,
          stopped,
          same,
          mail,
          cc,
          subst (IsLeftBehind client c now p why) (sym stopped) behind,
          refl,
        )
      ]

  prepared-IsFailing :
      (a : ReviewAction) (w : World M) (c : CapabilityConfig)
      (o : Result ActionError (Unit {0}) × Work M) (e : HttpProblem)
      → find_action a.id w.db.actions ≡ some a
      → read_capability loaded a.capability_key ≡ ok c
      → o ≡ prepare_action upper c now (work_on client upper loaded now a w)
      → (ended client upper loaded now w (execute_prepared client upper loaded now c o)).0
        ≡ raised e
      → IsFailing a.id w e
          (ended client upper loaded now w (execute_prepared client upper loaded now c o)).1.mailbox
  unfolding execute_prepared ended
  prepared-IsFailing a w c (raised why, p) e found own begins h = inl (
      ap (λ x. x.1.mailbox) begins
      ∙ prepare_action_mailbox upper now c (work_on client upper loaded now a w))
  prepared-IsFailing a w c (ok _, p) e found own begins h =
      executed-IsFailing a w c p (execute_action client c now true p) e found own
        (ap (λ x. x.1) begins) refl h

  run_with-IsEnded :
      (a : ReviewAction) (w : World M) (c : Result HttpProblem CapabilityConfig)
      → find_action a.id w.db.actions ≡ some a
      → (run_with client upper loaded now a w c).0 ≡ ok tt
      → IsEnded a.id (run_with client upper loaded now a w c).1
  unfolding run_with
  run_with-IsEnded a w (raised e) found h = cc
  run_with-IsEnded a w (ok c) found h =
      let begun = work_on client upper loaded now a w in
      prepared-IsEnded a w c (prepare_action upper c now begun) found
        (prepare_action-Keeps upper now c begun) h

  run_with-IsFailing :
      (a : ReviewAction) (w : World M) (c : Result HttpProblem CapabilityConfig) (e : HttpProblem)
      → find_action a.id w.db.actions ≡ some a
      → read_capability loaded a.capability_key ≡ c
      → (run_with client upper loaded now a w c).0 ≡ raised e
      → IsFailing a.id w e (run_with client upper loaded now a w c).1.mailbox
  unfolding run_with
  run_with-IsFailing a w (raised e') e found own h = inl refl
  run_with-IsFailing a w (ok c) e found own h =
      prepared-IsFailing a w c (prepare_action upper c now (work_on client upper loaded now a w)) e
        found own refl h

  found_of-run :
      (run_id id : String) (w : World M) (a : ReviewAction)
      → lookup_action run_id id w.db.actions ≡ ok a
      → (a.id ≡ id) × (find_action a.id w.db.actions ≡ some a)
  unfolding lookup_action
  found_of-run run_id id w a h =
      let found = action_of_run-found run_id id (find_action id w.db.actions) a h in
      let own = find_action-id id w.db.actions a found in
      (own, subst (λ i. find_action i w.db.actions ≡ some a) (sym own) found)

  run_found-IsEnded :
      (run_id id : String) (w : World M) (r : Result HttpProblem ReviewAction)
      → lookup_action run_id id w.db.actions ≡ r
      → (run_found client upper loaded now w r).0 ≡ ok tt
      → IsEnded id (run_found client upper loaded now w r).1
  unfolding run_found
  run_found-IsEnded run_id id w (raised e) looked h = cc
  run_found-IsEnded run_id id w (ok a) looked h =
      let (own, found) = found_of-run run_id id w a looked in
      let c = read_capability loaded a.capability_key in
      subst (λ i. IsEnded i (run_with client upper loaded now a w c).1) own
        (run_with-IsEnded a w c found h)

  pub run_found-IsFailing :
      (run_id id : String) (w : World M) (r : Result HttpProblem ReviewAction) (e : HttpProblem)
      → lookup_action run_id id w.db.actions ≡ r
      → (run_found client upper loaded now w r).0 ≡ raised e
      → IsFailing id w e (run_found client upper loaded now w r).1.mailbox
  unfolding run_found
  run_found-IsFailing run_id id w (raised e') e looked h = inl refl
  run_found-IsFailing run_id id w (ok a) e looked h =
      let (own, found) = found_of-run run_id id w a looked in
      let c = read_capability loaded a.capability_key in
      subst (λ i. IsFailing i w e (run_with client upper loaded now a w c).1.mailbox) own
        (run_with-IsFailing a w c e found refl h)

  pub run_one-IsEnded :
      (run_id id : String) (w next : World M)
      → run_one client upper loaded now run_id id w ≡ (ok tt, next)
      → IsEnded id next
  unfolding run_one
  run_one-IsEnded run_id id w next h =
      subst (λ o. IsEnded id o.1) h
        (run_found-IsEnded run_id id w (lookup_action run_id id w.db.actions) refl
          (ap (λ o. o.0) h))
