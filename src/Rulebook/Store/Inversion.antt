-- ===== src/Rulebook/Store/Inversion.antt =====
-- What a request to adminos/domain/rulebook_store.py that succeeded has checked and written.
use timmeny_admin_os.Common.{
  ℕ, String, false, ◌≡◌, refl, Option, none, some, List, Result, ok, raised, >>=-ok, then-ok,
  refuse_if, refuse_if-ok, ok-injective, not,
}
use timmeny_admin_os.Conditions.Fields.{Engine}
use timmeny_admin_os.Capabilities.Config.{CapabilityConfig, enabled_keys}
use timmeny_admin_os.Rulebook.Standing.{
  RuleStatus, retired, status_eq, TransitionProblem, check_transition,
}
use timmeny_admin_os.Rulebook.Draft.{RuleProblem, RuleDraft, check_draft}
use timmeny_admin_os.Rulebook.Store.Tables.{Rule, Store}
use timmeny_admin_os.Rulebook.Store.{
  RuleRecord, propose_rule, amend_rule, move_rule, read_rule, same_type, capability_of, live_with,
  refuse_live, lift_draft, lift_move, write_proposed, write_amended, write_moved,
}

lift_draft-ok : (r : Result RuleProblem (Unit {0})) → lift_draft r ≡ ok tt → r ≡ ok tt
unfolding lift_draft
lift_draft-ok (ok tt) h = refl
lift_draft-ok (raised p) h = cc

lift_move-ok : (r : Result TransitionProblem (Unit {0})) → lift_move r ≡ ok tt → r ≡ ok tt
unfolding lift_move
lift_move-ok (ok tt) h = refl
lift_move-ok (raised p) h = cc

refuse_live-ok : (r : Option Rule) → refuse_live r ≡ ok tt → r ≡ none
unfolding refuse_live
refuse_live-ok none h = refl
refuse_live-ok (some r) h = cc

module _ (e : Engine) (digest_of : RuleDraft → String) (loaded : List CapabilityConfig) where
  pub record Proposed (draft : RuleDraft) (actor : String) (now : ℕ) (s : Store)
      (out : RuleRecord × Store) : Type 0 where
    pub checked :
        check_draft e draft (capability_of draft.capability_key loaded) (enabled_keys loaded)
        ≡ ok tt
    pub unsaid : live_with (digest_of draft) s.rules ≡ none
    pub written : out ≡ write_proposed e digest_of draft actor now s

  pub propose_rule-ok :
      (draft : RuleDraft) (actor : String) (now : ℕ) (s : Store) (out : RuleRecord × Store)
      → propose_rule e digest_of loaded draft actor now s ≡ ok out
      → Proposed draft actor now s out
  unfolding propose_rule
  propose_rule-ok draft actor now s out h =
      let (checked, more) = then-ok (lift_draft _) _ h in
      let (unsaid, wrote) = then-ok (refuse_live (live_with (digest_of draft) s.rules)) _ more in
      record {
        checked = lift_draft-ok _ checked;
        unsaid = refuse_live-ok _ unsaid;
        written = ok-injective wrote;
      }

  pub record Amended (rule_id : ℕ) (draft : RuleDraft) (actor : String) (now : ℕ) (s : Store)
      (out : RuleRecord × Store) : Type 0 where
    pub found : RuleRecord
    pub was_read : read_rule rule_id s ≡ ok found
    pub live : status_eq found.rule.status retired ≡ false
    pub checked :
        check_draft e draft (capability_of draft.capability_key loaded) (enabled_keys loaded)
        ≡ ok tt
    pub written : out ≡ write_amended e digest_of draft actor now found s

  pub amend_rule-ok :
      (rule_id : ℕ) (draft : RuleDraft) (actor : String) (now : ℕ) (s : Store)
      (out : RuleRecord × Store)
      → amend_rule e digest_of loaded rule_id draft actor now s ≡ ok out
      → Amended rule_id draft actor now s out
  unfolding amend_rule
  amend_rule-ok rule_id draft actor now s out h =
      let (found, was_read, more) = >>=-ok (read_rule rule_id s) _ h in
      let (live, more) = then-ok (refuse_if (status_eq found.rule.status retired) _) _ more in
      let (kept, more) =
        then-ok (refuse_if (not (same_type draft.rule_type found.rule.rule_type)) _) _ more in
      let (checked, wrote) = then-ok (lift_draft _) _ more in
      record {
        found = found;
        was_read = was_read;
        live = refuse_if-ok _ _ live;
        checked = lift_draft-ok _ checked;
        written = ok-injective wrote;
      }

pub record Moved (rule_id : ℕ) (to : RuleStatus) (actor : String) (now : ℕ) (s : Store)
    (out : RuleRecord × Store) : Type 0 where
  pub found : RuleRecord
  pub was_read : read_rule rule_id s ≡ ok found
  pub legal : check_transition found.rule.status to ≡ ok tt
  pub written : out ≡ write_moved to actor now found s

pub move_rule-ok :
    (rule_id : ℕ) (to : RuleStatus) (actor : String) (now : ℕ) (s : Store)
    (out : RuleRecord × Store)
    → move_rule rule_id to actor now s ≡ ok out
    → Moved rule_id to actor now s out
unfolding move_rule
move_rule-ok rule_id to actor now s out h =
    let (found, was_read, more) = >>=-ok (read_rule rule_id s) _ h in
    let (legal, wrote) = then-ok (lift_move (check_transition found.rule.status to)) _ more in
    record {
      found = found;
      was_read = was_read;
      legal = lift_move-ok _ legal;
      written = ok-injective wrote;
    }
