-- ===== src/Requests/RolledBack.antt =====
-- A request of adminos/api/actions.py that raises in the middle of its actions.
use timmeny_admin_os.Common.{
  ℕ, String, Bool, ◌≡◌, refl, ap, subst, ◌∙◌, ◌⊎◌, inl, inr, Option, List, [], ◌∷◌, ◌++◌, map,
  Result, ok, raised,
}
use timmeny_admin_os.Capabilities.Config.{CapabilityConfig}
use timmeny_admin_os.Actions.Rows.{ReviewAction}
use timmeny_admin_os.Actions.Mail.{GmailClient}
use timmeny_admin_os.Scopes.{ActionScope}
use timmeny_admin_os.Requests.{HttpProblem, lookup_action}
use timmeny_admin_os.Requests.Selecting.{ExecuteRequest}
use timmeny_admin_os.Requests.Executing.{
  World, and_then, selection, run_one, run_each, closed, run_selected, run_actions,
}
use timmeny_admin_os.Requests.Failing.{IsEnded, IsFailing, run_one-IsEnded, run_found-IsFailing}

module _ {M : Type 0} (client : GmailClient M) (upper : String → String)
    (loaded : List CapabilityConfig) (now : ℕ) where
  -- Each of the actions ran to its end, one after another.
  unfoldable pub Ran : String → List String → World M → World M → Type 0
  Ran run_id [] w w' = w' ≡ w
  Ran run_id (id ∷ ids) w w' =
      (next : World M) × (run_one client upper loaded now run_id id w ≡ (ok tt, next))
      × IsEnded id next
      × Ran run_id ids next w'

  -- The actions before the one that raised ran to their end, and none ran after it.
  pub record IsStopped (run_id : String) (ids : List String) (w : World M) (e : HttpProblem) (m : M)
      : Type 0 where
    pub done : List String
    pub last : String
    pub rest : List String
    pub order : ids ≡ done ++ last ∷ rest
    pub between : World M
    pub ran : Ran run_id done w between
    pub failing : IsFailing client upper loaded now last between e m

  step-IsStopped :
      (run_id id : String) (ids : List String) (w : World M) (e : HttpProblem)
      (o : Result HttpProblem (Unit {0}) × World M)
      → run_one client upper loaded now run_id id w ≡ o
      → ((next : World M)
          → (run_each client upper loaded now run_id ids next).0 ≡ raised e
          → IsStopped run_id ids next e
              (run_each client upper loaded now run_id ids next).1.mailbox)
      → (and_then o (λ next. run_each client upper loaded now run_id ids next)).0 ≡ raised e
      → IsStopped run_id
          (id ∷ ids)
          w
          e
          (and_then o (λ next. run_each client upper loaded now run_id ids next)).1.mailbox
  unfolding Ran run_one
  step-IsStopped run_id id ids w e (raised e', w') is later h = record {
    done = [];
    last = id;
    rest = ids;
    order = refl;
    between = w;
    ran = refl;
    failing =
        subst (λ o. IsFailing client upper loaded now id w e o.1.mailbox) is
          (run_found-IsFailing client upper loaded now run_id id w
            (lookup_action run_id id w.db.actions) e refl (ap (λ o. o.0) is ∙ h));
  }
  step-IsStopped run_id id ids w e (ok tt, next) is later h =
      let s = later next h in
      record {
        done = id ∷ s.done;
        last = s.last;
        rest = s.rest;
        order = ap (λ xs. id ∷ xs) s.order;
        between = s.between;
        ran = (next, is, run_one-IsEnded client upper loaded now run_id id w next is, s.ran);
        failing = s.failing;
      }

  run_each-IsStopped :
      (run_id : String) (ids : List String) (w : World M) (e : HttpProblem)
      → (run_each client upper loaded now run_id ids w).0 ≡ raised e
      → IsStopped run_id ids w e (run_each client upper loaded now run_id ids w).1.mailbox
  unfolding run_each
  run_each-IsStopped run_id [] w e h = cc
  run_each-IsStopped run_id (id ∷ ids) w e h =
      step-IsStopped run_id id ids w e (run_one client upper loaded now run_id id w) refl
        (λ next raises. run_each-IsStopped run_id ids next e raises) h

  -- Nothing was touched, or the rows are as they were, and the mailbox as the selected actions left it
  -- up to the one that raised.
  abbrev pub IsUndone :
      String
      → World M
      → HttpProblem
      → Result HttpProblem (Option ActionScope × List ReviewAction)
      → World M
      → Type 0
  IsUndone run_id w e selected w' =
      (w' ≡ w)
      ⊎ ((scope : Option ActionScope) × (actions : List ReviewAction) × (selected
            ≡ ok (scope, actions))
          × (w'.db ≡ w.db)
          × IsStopped run_id (map (λ a. a.id) actions) w e w'.mailbox)

  closed-IsStopped :
      (run_id : String) (ids : List String) (before : World M) (scope : Option ActionScope)
      (actions : List ReviewAction) (o : Result HttpProblem (Unit {0}) × World M) (e : HttpProblem)
      → (o.0 ≡ raised e → IsStopped run_id ids before e o.1.mailbox)
      → (closed client upper loaded now before scope actions o).0 ≡ raised e
      → ((closed client upper loaded now before scope actions o).1.db ≡ before.db)
        × IsStopped run_id ids before e
            (closed client upper loaded now before scope actions o).1.mailbox
  unfolding closed
  closed-IsStopped run_id ids before scope actions (raised e', w) e stops h = (refl, stops cc)
  closed-IsStopped run_id ids before scope actions (ok _, w) e stops h = cc

  run_selected-IsUndone :
      (run_id : String) (w : World M) (e : HttpProblem)
      (r : Result HttpProblem (Option ActionScope × List ReviewAction))
      → (run_selected client upper loaded now run_id w r).0 ≡ raised e
      → IsUndone run_id w e r (run_selected client upper loaded now run_id w r).1
  unfolding run_selected
  run_selected-IsUndone run_id w e (raised _) h = inl refl
  run_selected-IsUndone run_id w e (ok (scope, actions)) h =
      let ids = map (λ a. a.id) actions in
      let (rows, stopped) =
        closed-IsStopped run_id ids w scope actions (run_each client upper loaded now run_id ids w)
          e (run_each-IsStopped run_id ids w e) h in
      inr (scope, actions, refl, rows, stopped)

  -- Where `run_actions` raises, nothing was touched, or it stopped at one of the selected actions: each
  -- action before it was executed to its end, completed or failed, one after another, and none after it
  -- ran; the mailbox is as those left it, or holds in addition a write of the one that raised, whose
  -- reading was refused; and yet every row is as it was before the request.
  pub run_actions-IsUndone :
      (write_enabled : Bool) (run_id : String) (request : Option ExecuteRequest)
      (retry : Option String) (w : World M) (e : HttpProblem)
      → (run_actions client upper loaded now write_enabled run_id request retry w).0 ≡ raised e
      → IsUndone run_id w e
          (selection write_enabled run_id request retry w.db)
          (run_actions client upper loaded now write_enabled run_id request retry w).1
  unfolding run_actions
  run_actions-IsUndone write_enabled run_id request retry w e h =
      run_selected-IsUndone run_id w e (selection write_enabled run_id request retry w.db) h
