-- ===== src/Review/Unattended.antt =====
-- The items that `populate_group` of adminos/domain/review.py adds, and who approved them.
use mathlib.Core.List.{append-nil, append_assoc}
use timmeny_admin_os.Common.{
  ℕ, String, Bool, true, false, ◌≡◌, refl, sym, ap, ◌∙◌, ◌⊎◌, inl, inr, Bool-cases, false≢true,
  Option, none, some, List, [], ◌∷◌, ◌++◌, All, All-Among, Among, ok, if-both,
}
use timmeny_admin_os.Capabilities.{
  ActionKind, gmail_label, gmail_archive, gmail_move, gmail_trash, gmail_untrash, gmail_draft_reply,
  gmail_send_draft, monday_create_task, action_kind, action_value, collect_evidence, recommend,
}
use timmeny_admin_os.Capabilities.Config.{
  CapabilityConfig, RecommendationRule, allows, permits, may_execute,
}
use timmeny_admin_os.Actions.Rows.{pending, approved, ReviewItem}
use timmeny_admin_os.Candidates.{CandidateRule, LearnedRule, is_automatable, read_active_rules}
use timmeny_admin_os.Candidates.Active.{IsBacked, read_active_rules-AreBacked}
use timmeny_admin_os.Mailboxes.{ReviewScope}
use timmeny_admin_os.Review.Policy.{
  Evidence, PolicyOutcome, matches, first_learned, first_rule, by_default, by_rule, by_learned,
  evaluate_policy,
}
use timmeny_admin_os.Review.Collecting.{
  Fresh, Sheet, new_item, authorise_by_rule, authorised_item, add_evidence, is_outstanding,
  populate_each, populate_group, read_capability_evidence,
}

action_kind-value : (a : ActionKind) → action_kind (action_value a) ≡ some a
unfolding action_kind action_value
action_kind-value gmail_label = refl
action_kind-value gmail_archive = refl
action_kind-value gmail_move = refl
action_kind-value gmail_trash = refl
action_kind-value gmail_untrash = refl
action_kind-value gmail_draft_reply = refl
action_kind-value gmail_send_draft = refl
action_kind-value monday_create_task = refl

some-same : {r l : LearnedRule} → some r ≡ some l → l ≡ r
some-same h = cc

first_learned-Among :
    (fold : String → String) (learned : List LearnedRule) (e : Evidence) (now : ℕ) (l : LearnedRule)
    → first_learned fold learned e now ≡ some l
    → Among l learned
unfolding first_learned
first_learned-Among fold [] e now l h = cc
first_learned-Among fold (r ∷ rest) e now l h = elim (Bool-cases (matches fold r.match e now)) [
  | inl fits ↦ inl (some-same (rw fits at h))
  | inr not_it ↦ inr (first_learned-Among fold rest e now l (rw not_it at h))
]

-- An outcome that may act unattended is that of a learned rule that may.
abbrev IsOfRule : List LearnedRule → PolicyOutcome → Type 0
IsOfRule learned outcome =
    outcome.automatable ≡ true
    → (l : LearnedRule) × Among l learned
      × (l.automatable ≡ true)
      × (outcome.recommendation ≡ action_value l.action)
      × (outcome.rule_id ≡ some l.id)

module _ (fold : String → String) (capability : CapabilityConfig) (e : Evidence) (now : ℕ) where
  by_rule-asks : (r : Option RecommendationRule) → (by_rule fold capability r).automatable ≡ false
  unfolding by_rule by_default
  by_rule-asks none = refl
  by_rule-asks (some r) = refl

  by_learned-IsOfRule :
      (learned : List LearnedRule) (o : Option LearnedRule)
      → first_learned fold learned e now ≡ o
      → IsOfRule learned (by_learned fold capability o e now)
  unfolding by_learned
  by_learned-IsOfRule learned none h auto = absurd (
      false≢true
        (sym (by_rule-asks (first_rule fold capability.recommendation_policy.rules e now)) ∙ auto))
  by_learned-IsOfRule learned (some l) h auto =
      (l, first_learned-Among fold learned e now l h, auto, refl, refl)

  evaluate_policy-IsOfRule :
      (learned : List LearnedRule)
      → IsOfRule learned (evaluate_policy fold capability e now learned)
  unfolding evaluate_policy by_default
  evaluate_policy-IsOfRule learned =
      if-both (IsOfRule learned) (allows capability.playbook recommend)
        (by_learned fold capability (first_learned fold learned e now) e now)
        (by_default fold capability) (by_learned-IsOfRule learned _ refl)
        (λ auto. absurd (false≢true auto))

-- The rule that approved an item that nobody was asked about, and what grants it.
pub record IsUnattended (capability : CapabilityConfig) (rules : List CandidateRule)
    (item : ReviewItem) : Type 0 where
  pub rule : CandidateRule
  pub among : Among rule rules
  pub signed : item.rule_id ≡ some rule.id
  pub acts : item.approved_action ≡ some rule.action
  pub promoted : is_automatable rule.state ≡ true
  pub allowed : capability.learning.allow_automatable_rules ≡ true
  pub permitted : permits capability rule.action ≡ true
  pub executed : may_execute capability rule.action ≡ true

-- An item that filling the review added: it waits for a decision, or a rule that may approved it.
abbrev pub IsCollected : CapabilityConfig → List CandidateRule → ReviewItem → Type 0
IsCollected capability rules item =
    ((item.state ≡ pending) × (item.approved_action ≡ none) × (item.approved_params ≡ none))
    ⊎ ((item.state ≡ approved) × IsUnattended capability rules item)

-- What filling adds to the table, after what was there.
abbrev pub Adds : CapabilityConfig → List CandidateRule → List ReviewItem → List ReviewItem → Type 0
Adds capability rules before after =
    (new : List ReviewItem) × (after ≡ before ++ new) × All (IsCollected capability rules) new

module _ (fold : String → String) (fresh : Fresh) (now : ℕ) (run_id : String)
    (capability : CapabilityConfig) (rules : List CandidateRule) (learned : List LearnedRule)
    (backed : All (IsBacked capability rules) learned) where
  authorise-IsCollected :
      (rule_id : String) (outcome : PolicyOutcome) (item : ReviewItem) (sheet : Sheet)
      (l : LearnedRule) (k : Option ActionKind)
      → item.rule_id ≡ some rule_id
      → outcome.rule_id ≡ some rule_id
      → Among l learned
      → l.automatable ≡ true
      → k ≡ some l.action
      → outcome.rule_id ≡ some l.id
      → IsCollected capability rules
          (authorise_by_rule fold fresh now run_id capability rule_id outcome item k sheet).0
  unfolding authorise_by_rule
  authorise-IsCollected rule_id outcome item sheet l none own named among auto is of_rule = cc
  authorise-IsCollected rule_id outcome item sheet l (some action) own named among auto is of_rule =
      let b = All-Among (IsBacked capability rules) l learned backed among in
      let (state, allowed, executes) = b.unattended auto in
      inr (
        refl,
        record {
          rule = b.rule;
          among = b.among;
          signed = own ∙ sym named ∙ of_rule ∙ ap some b.same_id;
          acts = is ∙ ap some b.same_action;
          promoted = state;
          allowed = allowed;
          permitted = b.permitted;
          executed = executes;
        },
      )

  authorised-IsCollected :
      (auto : Bool) (rule_id : Option String) (outcome : PolicyOutcome) (item : ReviewItem)
      (sheet : Sheet)
      → outcome.automatable ≡ auto
      → outcome.rule_id ≡ rule_id
      → item.rule_id ≡ rule_id
      → (item.state ≡ pending) × (item.approved_action ≡ none) × (item.approved_params ≡ none)
      → IsOfRule learned outcome
      → IsCollected capability rules
          (authorised_item fold fresh now run_id capability auto rule_id outcome item sheet).0
  unfolding authorised_item
  authorised-IsCollected true (some rule_id) outcome item sheet a r own waits of_rule =
      let (l, among, auto, recommends, named) = of_rule a in
      authorise-IsCollected rule_id outcome item sheet l _ own r among auto
        (ap action_kind recommends ∙ action_kind-value l.action) named
  authorised-IsCollected true none outcome item sheet a r own waits of_rule = inl waits
  authorised-IsCollected false rule_id outcome item sheet a r own waits of_rule = inl waits

  authorise-items :
      (rule_id : String) (outcome : PolicyOutcome) (item : ReviewItem) (k : Option ActionKind)
      (sheet : Sheet)
      → (authorise_by_rule fold fresh now run_id capability rule_id outcome item k sheet).1.items
        ≡ sheet.items
  unfolding authorise_by_rule
  authorise-items rule_id outcome item none sheet = refl
  authorise-items rule_id outcome item (some k) sheet = refl

  authorised-items :
      (auto : Bool) (rule_id : Option String) (outcome : PolicyOutcome) (item : ReviewItem)
      (sheet : Sheet)
      → (authorised_item fold fresh now run_id capability auto rule_id outcome item sheet).1.items
        ≡ sheet.items
  unfolding authorised_item
  authorised-items true (some rule_id) outcome item sheet =
      authorise-items rule_id outcome item _ sheet
  authorised-items true none outcome item sheet = refl
  authorised-items false rule_id outcome item sheet = refl

  add_evidence-adds :
      (group_id : String) (e : Evidence) (outcome : PolicyOutcome) (sheet : Sheet)
      → IsOfRule learned outcome
      → (item : ReviewItem) × ((add_evidence fold fresh now run_id capability group_id e outcome
            sheet).items
          ≡ sheet.items ++ item ∷ [])
        × IsCollected capability rules item
  unfolding add_evidence new_item
  add_evidence-adds group_id e outcome sheet of_rule =
      let item = new_item fold fresh now run_id capability group_id e outcome sheet.items in
      let given =
        (authorised_item fold fresh now run_id capability outcome.automatable outcome.rule_id
          outcome item sheet).0 in
      (
        given,
        ap (λ xs. xs ++ given ∷ [])
            (authorised-items outcome.automatable outcome.rule_id outcome item sheet),
        authorised-IsCollected outcome.automatable outcome.rule_id outcome item sheet refl refl refl
            (refl, refl, refl) of_rule,
      )

  populate_each-Adds :
      (group_id : String) (scope : ReviewScope) (before : Sheet) (evidence : List Evidence)
      (sheet : Sheet)
      → Adds capability rules sheet.items
          (populate_each fold fresh now run_id capability group_id scope learned before evidence
            sheet).items
  unfolding populate_each
  populate_each-Adds group_id scope before [] sheet = ([], sym (append-nil sheet.items), tt)
  populate_each-Adds group_id scope before (e ∷ rest) sheet =
      let outcome = evaluate_policy fold capability e now learned in
      let (item, added, collected) =
        add_evidence-adds group_id e outcome sheet
          (evaluate_policy-IsOfRule fold capability e now learned) in
      let (new, more, all_collected) =
        populate_each-Adds group_id scope before rest
          (add_evidence fold fresh now run_id capability group_id e outcome sheet) in
      if-both
        (λ (s : Sheet).
          Adds capability rules sheet.items
            (populate_each fold fresh now run_id capability group_id scope learned before rest
              s).items)
        (is_outstanding fold fresh now run_id capability group_id scope before sheet e)
        (add_evidence fold fresh now run_id capability group_id e outcome sheet) sheet
        (
          item ∷ new,
          more ∙ ap (λ xs. xs ++ new) added ∙ append_assoc sheet.items (item ∷ []) new,
          (collected, all_collected),
        )
        (populate_each-Adds group_id scope before rest sheet)

-- `populate_group`, given the active rules of the capability, keeps every item of the table and appends
-- items that wait for a decision with nothing approved, or that a rule approved: a rule of the table
-- that was promoted to act unattended, for the action that the rule says and the capability both permits
-- and executes, where the capability allows rules to act so.
pub populate_group-IsCollected :
    (fold : String → String) (fresh : Fresh) (now : ℕ) (run_id : String)
    (capability : CapabilityConfig) (rules : List CandidateRule) (learned : List LearnedRule)
    (group_id : String) (scope : ReviewScope) (evidence : List Evidence) (sheet : Sheet)
    → read_active_rules capability rules ≡ ok learned
    → Adds capability rules sheet.items
        (populate_group fold fresh now run_id capability group_id scope learned evidence
          sheet).items
unfolding populate_group
populate_group-IsCollected fold fresh now run_id capability rules learned group_id scope evidence
      sheet h =
    let backed = read_active_rules-AreBacked capability rules learned h in
    if-both (λ (s : Sheet). Adds capability rules sheet.items s.items)
      (allows capability.playbook collect_evidence) _ sheet
      (populate_each-Adds fold fresh now run_id capability rules learned backed group_id scope sheet
        (read_capability_evidence capability.key evidence) sheet)
      ([], sym (append-nil sheet.items), tt)
