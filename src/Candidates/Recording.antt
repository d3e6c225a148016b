-- ===== src/Candidates/Recording.antt =====
-- `record_rule` of adminos/domain/rules.py, with `rule_digest` and `find_equivalent`.
use timmeny_admin_os.Common.{
  ℕ, suc, String, not, ◌&&◌, ◌||◌, Option, none, some, List, [], ◌∷◌, ◌++◌, ◌==◌, if◌then◌else◌,
  str, obj, Members, end, member, Result, ok, ◌>>=◌, ◌>>◌, refuse_if,
}
use timmeny_admin_os.Capabilities.{ActionKind, action_value}
use timmeny_admin_os.Capabilities.Config.{CapabilityConfig, MatchRule}
use timmeny_admin_os.Actions.Approvals.{or_empty}
use timmeny_admin_os.Candidates.Match.{RuleRefused, dump_match, load_match, not_created_so}
use timmeny_admin_os.Candidates.Rows.{
  RuleState, CandidateRule, proposed, is_retired, is_observed, is_proposed, save_rule,
}
use timmeny_admin_os.Candidates.Checks.{check_learning_allowed, read_rules}

-- `dict(params) if params else None`.
unfoldable pub none_if_empty : Option Members → Option Members
none_if_empty none = none
none_if_empty (some end) = none
none_if_empty (some (member key value rest)) = some (member key value rest)

module _ (digest : Members → String) where
  unfoldable pub rule_digest : String → MatchRule → ActionKind → Option Members → String
  unfolding dump_match action_value
  rule_digest capability_key match action params = digest (
      member "action" (str (action_value action)) (
        member "capability" (str capability_key)
          (member "match" (obj (dump_match match)) (member "params" (obj (or_empty params)) end))))

  unfoldable pub digest_of : CandidateRule → Result RuleRefused String
  unfolding load_match rule_digest
  digest_of rule = do
    match ← load_match rule.match_conditions
    ok (rule_digest rule.capability_key match rule.action rule.action_params)

  -- A rule that cannot be read ends the search with the refusal.
  unfoldable pub first_digested :
      String → List CandidateRule → Result RuleRefused (Option CandidateRule)
  unfolding is_retired digest_of
  first_digested wanted [] = ok none
  first_digested wanted (r ∷ rest) =
      let later = first_digested wanted rest in
      if is_retired r.state
      then later
      else digest_of r >>= λ d. if d == wanted then ok (some r) else later

  unfoldable pub find_equivalent :
      String
      → MatchRule
      → ActionKind
      → Option Members
      → List CandidateRule
      → Result RuleRefused (Option CandidateRule)
  unfolding rule_digest first_digested read_rules
  find_equivalent capability_key match action params rules =
      first_digested (rule_digest capability_key match action params)
        (read_rules capability_key rules)

-- What a second recording changes in the rule that is there.
unfoldable pub noticed_again :
    RuleState → String → Option String → ℕ → CandidateRule → CandidateRule
unfolding is_observed is_proposed
noticed_again state rationale actor now rule =
    let counted = record rule { observed_count = suc rule.observed_count } in
    if is_observed rule.state && is_proposed state
    then record counted {
      state = proposed;
      proposed_by = actor;
      proposed_at = some now;
      rationale = rationale;
    }
    else counted

module _ (digest : Members → String) (fresh : List CandidateRule → String) where
  unfoldable pub new_rule :
      CapabilityConfig
      → MatchRule
      → ActionKind
      → String
      → RuleState
      → String
      → Option Members
      → ℕ
      → Option String
      → ℕ
      → List CandidateRule
      → CandidateRule
  unfolding dump_match none_if_empty is_proposed
  new_rule capability match action rationale state source params confidence actor now rules =
      record {
        id = fresh rules;
        capability_key = capability.key;
        state = state;
        match_conditions = dump_match match;
        action = action;
        action_params = none_if_empty params;
        rationale = rationale;
        confidence = confidence;
        observed_count = 1;
        source = source;
        policy_version = capability.recommendation_policy.version;
        proposed_by = if is_proposed state then actor else none;
        proposed_at = if is_proposed state then some now else none;
        confirmed_by = none;
        confirmed_at = none;
        automatable_at = none;
        retired_at = none;
        retired_reason = none;
      }

  -- A rule that already says this is counted once more; otherwise the rule is new.
  unfoldable pub record_found :
      CapabilityConfig
      → MatchRule
      → ActionKind
      → String
      → RuleState
      → String
      → Option Members
      → ℕ
      → Option String
      → ℕ
      → List CandidateRule
      → Option CandidateRule
      → Result RuleRefused (CandidateRule × List CandidateRule)
  unfolding noticed_again new_rule save_rule
  record_found capability match action rationale state source params confidence actor now rules
        (some rule) =
      let again = noticed_again state rationale actor now rule in ok (again, save_rule again rules)
  record_found capability match action rationale state source params confidence actor now rules
        none =
      let rule =
        new_rule capability match action rationale state source params confidence actor now rules in
      ok (rule, rules ++ rule ∷ [])

  unfoldable pub record_rule :
      CapabilityConfig
      → MatchRule
      → ActionKind
      → String
      → RuleState
      → String
      → Option Members
      → ℕ
      → Option String
      → ℕ
      → List CandidateRule
      → Result RuleRefused (CandidateRule × List CandidateRule)
  unfolding check_learning_allowed is_observed is_proposed find_equivalent noticed_again new_rule
      save_rule
  record_rule capability match action rationale state source params confidence actor now rules = do
    check_learning_allowed capability action params
    refuse_if (not (is_observed state || is_proposed state)) not_created_so
    existing ← find_equivalent digest capability.key match action params rules
    record_found capability match action rationale state source params confidence actor now rules
        existing
