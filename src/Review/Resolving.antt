-- ===== src/Review/Resolving.antt =====
-- What `resolve_action` of adminos/domain/review.py makes of a decision: an action, or none for an item
-- that is left.
use timmeny_admin_os.Common.{
  ℕ, String, true, not, ◌≡◌, refl, sym, subst, ◌∙◌, Option, none, some, not-false, Members, ok,
  then-ok, refuse_if, refuse_if-ok, ok-injective,
}
use timmeny_admin_os.Capabilities.{ActionKind, action_kind}
use timmeny_admin_os.Capabilities.Config.{CapabilityConfig, permits}
use timmeny_admin_os.Actions.Rows.{
  ItemState, dismissed, deferred, ReviewItem, DecisionKind, approve, override, dismiss, defer,
}
use timmeny_admin_os.Review.Checking.{
  permitted, resolve_recommended, resolve_override, resolve_action,
}
use timmeny_admin_os.Review.Deciding.{decided}

pub same_action : {k action : ActionKind} → some action ≡ some k → k ≡ action
same_action h = cc

permitted-grants :
    (capability : CapabilityConfig) (k action : ActionKind)
    → permitted capability k ≡ ok (some action)
    → permits capability action ≡ true
unfolding permitted
permitted-grants capability k action h =
    let (passed, made) = then-ok (refuse_if (not (permits capability k)) _) _ h in
    subst (λ a. permits capability a ≡ true) (same_action (ok-injective made))
      (not-false (permits capability k) (refuse_if-ok _ _ passed))

resolve_recommended-grants :
    (capability : CapabilityConfig) (recommendation : String) (k : Option ActionKind)
    (action : ActionKind)
    → resolve_recommended capability recommendation k ≡ ok (some action)
    → permits capability action ≡ true
unfolding resolve_recommended
resolve_recommended-grants capability recommendation none action h = cc
resolve_recommended-grants capability recommendation (some k) action h =
    permitted-grants capability k action h

resolve_override-grants :
    (capability : CapabilityConfig) (k : Option ActionKind) (action : ActionKind)
    → resolve_override capability k ≡ ok (some action)
    → permits capability action ≡ true
unfolding resolve_override
resolve_override-grants capability none action h = cc
resolve_override-grants capability (some k) action h = permitted-grants capability k action h

pub resolve_action-grants :
    (capability : CapabilityConfig) (item : ReviewItem) (decision : DecisionKind)
    (asked : Option ActionKind) (action : ActionKind)
    → resolve_action capability item decision asked ≡ ok (some action)
    → permits capability action ≡ true
unfolding resolve_action
resolve_action-grants capability item approve asked action h =
    resolve_recommended-grants capability item.recommendation _ action h
resolve_action-grants capability item override asked action h =
    resolve_override-grants capability asked action h
resolve_action-grants capability item dismiss asked action h = cc
resolve_action-grants capability item defer asked action h = cc

-- The action is the one that was decided on: the recommended one, or the one named instead.
unfoldable pub IsChosen : DecisionKind → ReviewItem → Option ActionKind → ActionKind → Type 0
IsChosen approve item asked action = action_kind item.recommendation ≡ some action
IsChosen override item asked action = asked ≡ some action
IsChosen _ item asked action = ⊥

-- An item that is left is deferred or dismissed as it was decided.
unfoldable pub IsLeft : DecisionKind → ItemState → Type 0
IsLeft defer state = state ≡ deferred
IsLeft dismiss state = state ≡ dismissed
IsLeft _ state = ⊥

permitted-same :
    (capability : CapabilityConfig) (k : ActionKind) (c : Option ActionKind)
    → permitted capability k ≡ ok c
    → c ≡ some k
unfolding permitted
permitted-same capability k c h =
    let (_, made) = then-ok (refuse_if (not (permits capability k)) _) _ h in ok-injective made

-- What a decision resolves to: an action that was decided on, or none for an item that is left.
pub resolve_action-IsChosen :
    (capability : CapabilityConfig) (item : ReviewItem) (decision : DecisionKind)
    (asked : Option ActionKind) (action : ActionKind)
    → resolve_action capability item decision asked ≡ ok (some action)
    → IsChosen decision item asked action
unfolding resolve_action resolve_recommended resolve_override IsChosen
resolve_action-IsChosen capability item approve asked action h = recommended _ refl h
  where
    recommended :
        (k : Option ActionKind)
        → action_kind item.recommendation ≡ k
        → resolve_recommended capability item.recommendation k ≡ ok (some action)
        → action_kind item.recommendation ≡ some action
    recommended none is r = cc
    recommended (some k) is r = is ∙ sym (permitted-same capability k (some action) r)
resolve_action-IsChosen capability item override none action h = cc
resolve_action-IsChosen capability item override (some k) action h =
    sym (permitted-same capability k (some action) h)
resolve_action-IsChosen capability item dismiss asked action h = cc
resolve_action-IsChosen capability item defer asked action h = cc

pub resolve_action-IsLeft :
    (capability : CapabilityConfig) (item : ReviewItem) (decision : DecisionKind)
    (asked : Option ActionKind) (params : Members) (now : ℕ)
    → resolve_action capability item decision asked ≡ ok none
    → IsLeft decision (decided decision none params now item).state
unfolding resolve_action resolve_recommended resolve_override IsLeft decided
resolve_action-IsLeft capability item approve asked params now h =
    absurd (recommended (action_kind item.recommendation) h)
  where
    recommended :
        (k : Option ActionKind) → resolve_recommended capability item.recommendation k ≡ ok none → ⊥
    recommended none r = cc
    recommended (some k) r = let wrong = permitted-same capability k none r in cc
resolve_action-IsLeft capability item override none params now h = cc
resolve_action-IsLeft capability item override (some k) params now h =
    let wrong = permitted-same capability k none h in cc
resolve_action-IsLeft capability item dismiss asked params now h = refl
resolve_action-IsLeft capability item defer asked params now h = refl

pub decided-left :
    (decision : DecisionKind) (params : Members) (now : ℕ) (item : ReviewItem)
    → ((decided decision none params now item).approved_action ≡ none)
      × ((decided decision none params now item).approved_params ≡ none)
unfolding decided
decided-left approve params now item = (refl, refl)
decided-left override params now item = (refl, refl)
decided-left dismiss params now item = (refl, refl)
decided-left defer params now item = (refl, refl)
