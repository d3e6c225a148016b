-- ===== src/Capabilities/Config/Grants.antt =====
-- What a configuration that passes its validators can grant.
use timmeny_admin_os.Common.{ℕ, true, false, ◌≡◌, none, List, [], ◌∷◌, is_empty, arith, ok}
use timmeny_admin_os.Capabilities.Granted.{
  ActionKind, gmail_move, gmail_send_draft, gmail_draft_reply, kind_eq, action_kind,
}
use timmeny_admin_os.Capabilities.Config.{
  ConfigProblem, CapabilityConfig, has_action, permits, may_execute, auto_approves, check_covered,
  check_permissions, execute_not_allowed, auto_approve_not_allowed,
}

kind_eq-≡ : (a b : ActionKind) → kind_eq a b ≡ true → a ≡ b
unfolding kind_eq
kind_eq-≡ a b h = ground arith

covered :
    (problem : ActionKind → ConfigProblem) (allowed ks : List ActionKind) (k : ActionKind)
    → check_covered problem allowed ks ≡ ok tt
    → has_action k ks ≡ true
    → has_action k allowed ≡ true
unfolding check_covered
covered problem allowed [] k h m = cc
covered problem allowed (j ∷ ks) k h m = ground (arith, kind_eq-≡ k j, covered problem allowed ks k)

-- A configuration that passes its validators executes or auto-approves only what it allows,
-- defaults to no action, has a folder to move mail to if it may move any, and sends drafts only if
-- it writes them.
pub check_permissions_grants :
    (c : CapabilityConfig) (k : ActionKind) (confidence : ℕ)
    → check_permissions c ≡ ok tt
    → (may_execute c k ≡ true → permits c k ≡ true)
      × (auto_approves c k confidence ≡ true → permits c k ≡ true)
      × (action_kind c.recommendation_policy.default ≡ none)
      × (permits c gmail_move ≡ true → is_empty c.destinations ≡ false)
      × (may_execute c gmail_send_draft ≡ true → may_execute c gmail_draft_reply ≡ true)
unfolding check_permissions auto_approves
check_permissions_grants c k confidence h = (
  ground (arith, covered execute_not_allowed c.allowed_actions c.execution.permitted_actions k),
  ground (arith, covered auto_approve_not_allowed c.allowed_actions c.approval.auto_approve k),
  ground arith,
  ground arith,
  ground arith,
)
