-- ===== src/Review/Permitted.antt =====
-- What a decision that adminos/domain/review.py accepts is allowed to be.
use timmeny_admin_os.Common.{
  ℕ, String, true, false, not, ◌&&◌, ◌≡◌, refl, sym, ap, subst, ◌∙◌, ◌⊎◌, inl, inr, Option, none,
  some, List, not-false, if◌then◌else◌, is_set, strip, elem, Json, null, bool, num, str, arr, obj,
  Members, ok, ◌>>◌, >>=-ok, then-ok, refuse_if, refuse_if-ok, ok-injective,
}
use timmeny_admin_os.Capabilities.{
  ActionKind, gmail_move, kind_eq, await_decision, execute_approved,
}
use timmeny_admin_os.Capabilities.Config.{CapabilityConfig, allows, permits}
use timmeny_admin_os.Actions.Rows.{approved, ReviewItem}
use timmeny_admin_os.Review.Checking.{
  takes_no_decisions, no_execute_step, no_objective, is_terminal, restores_trash, folder_allowed,
  folder_of, check_destination, resolve_action, has_objective, check_move, check_chosen,
  check_decision,
}
use timmeny_admin_os.Review.Resolving.{
  same_action, resolve_action-grants, IsChosen, IsLeft, resolve_action-IsChosen,
  resolve_action-IsLeft, decided-left,
}
use timmeny_admin_os.Review.Deciding.{
  Identities, ReviewTables, Ruling, asked_params, decided, apply_decision, checked, record_decision,
}

-- The grants behind an action that was approved with these parameters.
pub record IsGranted (capability : CapabilityConfig) (item : ReviewItem) (params : Members)
    (action : ActionKind) : Type 0 where
  pub permitted : permits capability action ≡ true
  pub has_step : allows capability.playbook execute_approved ≡ true
  pub aligned : (capability.objectives.require_alignment && not (has_objective item)) ≡ false
  pub filed :
      kind_eq action gmail_move ≡ true
      → (folder : String) × (check_destination capability params ≡ ok folder)
        × (elem folder capability.destinations ≡ true)

folder_of-allowed :
    (allowed : List String) (value : Option Json) (folder : String)
    → folder_of allowed value ≡ ok folder
    → elem folder allowed ≡ true
unfolding folder_of folder_allowed
folder_of-allowed allowed none folder h = cc
folder_of-allowed allowed (some null) folder h = cc
folder_of-allowed allowed (some (bool b)) folder h = cc
folder_of-allowed allowed (some (num n)) folder h = cc
folder_of-allowed allowed (some (arr x)) folder h = cc
folder_of-allowed allowed (some (obj x)) folder h = cc
folder_of-allowed allowed (some (str s)) folder h =
    let (_, more) = then-ok (refuse_if (not (is_set (strip s))) _) _ h in
    let (known, made) = then-ok (refuse_if (not (elem (strip s) allowed)) _) _ more in
    subst (λ f. elem f allowed ≡ true) (sym (ok-injective made))
      (not-false (elem (strip s) allowed) (refuse_if-ok _ _ known))

check_chosen-IsGranted :
    (capability : CapabilityConfig) (item : ReviewItem) (params : Members) (k : Option ActionKind)
    (action : ActionKind)
    → (k ≡ some action → permits capability action ≡ true)
    → check_chosen capability item (some params) k ≡ ok (some action)
    → IsGranted capability item params action
unfolding check_chosen check_move check_destination
check_chosen-IsGranted capability item params none action grants h = cc
check_chosen-IsGranted capability item params (some k) action grants h =
    let (executes, more) =
      then-ok (refuse_if (not (allows capability.playbook execute_approved)) no_execute_step) _ h in
    let (aligned, more) = then-ok (refuse_if _ no_objective) _ more in
    let (moves, made) =
      then-ok
        (if kind_eq k gmail_move then (check_destination capability params >> ok tt) else ok tt) _
        more in
    let same = same_action (ok-injective made) in
    record {
      permitted = grants (ap some same);
      has_step = not-false _ (refuse_if-ok _ no_execute_step executes);
      aligned = refuse_if-ok _ no_objective aligned;
      filed = λ move.
          let (folder, named, _) =
            >>=-ok (check_destination capability params) _
              (rw (ap (λ a. kind_eq a gmail_move) same ∙ move) at moves) in
          (folder, named, folder_of-allowed capability.destinations _ folder named);
    }

check_chosen-same :
    (capability : CapabilityConfig) (item : ReviewItem) (params : Option Members)
    (k chosen : Option ActionKind)
    → check_chosen capability item params k ≡ ok chosen
    → k ≡ chosen
unfolding check_chosen
check_chosen-same capability item params none chosen h = sym (ok-injective h)
check_chosen-same capability item params (some k) chosen h =
    let (_, more) = then-ok (refuse_if _ no_execute_step) _ h in
    let (_, more) = then-ok (refuse_if _ no_objective) _ more in
    let (_, made) =
      then-ok (if kind_eq k gmail_move then check_move capability params else ok tt) _ more in
    sym (ok-injective made)

-- What an accepted decision makes of an item.
pub record IsRuled (capability : CapabilityConfig) (item : ReviewItem) (ruling : Ruling)
    (after : ReviewItem) : Type 0 where
  pub awaits : allows capability.playbook await_decision ≡ true
  pub reopens :
      (is_terminal item.state && not (restores_trash item ruling.decision ruling.action)) ≡ false
  pub outcome :
      ((action : ActionKind) × (after.state ≡ approved)
        × (after.approved_action ≡ some action)
        × IsChosen ruling.decision item ruling.action action
        × (after.approved_params ≡ some (asked_params ruling.action_params item ruling.decision))
        × IsGranted capability item (asked_params ruling.action_params item ruling.decision) action)
      ⊎ (IsLeft ruling.decision after.state
          × (after.approved_action ≡ none)
          × (after.approved_params ≡ none))

module _ (ids : Identities) (capability : CapabilityConfig) (run_id : String) (now : ℕ) where
  applied-outcome :
      (ruling : Ruling) (item : ReviewItem) (tables : ReviewTables) (k : Option ActionKind)
      → check_chosen capability item
          (some (asked_params ruling.action_params item ruling.decision))
          k
        ≡ ok k
      → resolve_action capability item ruling.decision ruling.action ≡ ok k
      → allows capability.playbook await_decision ≡ true
      → (is_terminal item.state && not (restores_trash item ruling.decision ruling.action)) ≡ false
      → IsRuled capability item ruling
          (apply_decision ids capability run_id now ruling item k tables).0
  unfolding apply_decision decided
  applied-outcome ruling item tables none h resolved awaits reopens = record {
    awaits = awaits;
    reopens = reopens;
    outcome =
        let params = asked_params ruling.action_params item ruling.decision in
        let (no_action, no_params) = decided-left ruling.decision params now item in
        inr (
          resolve_action-IsLeft capability item ruling.decision ruling.action params now resolved,
          no_action,
          no_params,
        );
  }
  applied-outcome ruling item tables (some action) h resolved awaits reopens = record {
    awaits = awaits;
    reopens = reopens;
    outcome = inl (
      action,
      refl,
      refl,
      resolve_action-IsChosen capability item ruling.decision ruling.action action resolved,
      refl,
      check_chosen-IsGranted capability item _ (some action) action
          (λ same.
            resolve_action-grants capability item ruling.decision ruling.action action resolved)
          h,
    );
  }

  -- Where `record_decision` returns, the playbook takes decisions, a settled item is re-decided only to
  -- take a trashed thread out of Trash, and the item is left as it was decided. Approved, it is for the
  -- recommended action, or the one named instead, with the parameters asked for: an action that the
  -- capability permits, under a playbook that has a step to execute it, with an objective where one is
  -- required and a folder of the capability where it files mail. Deferred or dismissed, it has nothing
  -- approved. Whether the capability may execute the action is not asked here.
  pub record_decision-IsRuled :
      (ruling : Ruling) (item after : ReviewItem) (tables tables' : ReviewTables)
      → record_decision ids capability run_id now ruling item tables ≡ ok (after, tables')
      → IsRuled capability item ruling after
  unfolding record_decision checked check_decision
  record_decision-IsRuled ruling item after tables tables' h =
      let params = asked_params ruling.action_params item ruling.decision in
      let (k, accepted, made) =
        >>=-ok (check_decision capability item ruling.decision ruling.action (some params)) _ h in
      let (awaits, more) = then-ok (refuse_if _ takes_no_decisions) _ accepted in
      let (reopens, more) = then-ok (refuse_if _ _) _ more in
      let (c, resolved, chosen) =
        >>=-ok (resolve_action capability item ruling.decision ruling.action) _ more in
      let same = check_chosen-same capability item (some params) c k chosen in
      subst (IsRuled capability item ruling) (sym (ap (λ p. p.0) (ok-injective made))) (
        applied-outcome ruling item tables k
          (subst (λ x. check_chosen capability item (some params) x ≡ ok k) same chosen)
          (resolved ∙ ap ok same) (not-false _ (refuse_if-ok _ takes_no_decisions awaits))
          (refuse_if-ok _ _ reopens))
