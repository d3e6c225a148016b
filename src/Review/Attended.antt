-- ===== src/Review/Attended.antt =====
-- What `fill_review` of adminos/domain/review.py may do to the items of a review.
use timmeny_admin_os.Common.{
  map, ℕ, String, true, ◌&&◌, ◌≡◌, refl, sym, ap, subst, ◌∙◌, ◌⊎◌, inl, inr, Bool-cases, &&-true,
  Option, none, some, List, [], ◌∷◌, ◌==◌, All, All-append, All-Among, Among, Result, ok, raised,
  >>=-ok, ok-injective,
}
use timmeny_admin_os.Capabilities.Config.{CapabilityConfig, enabled}
use timmeny_admin_os.Actions.Rows.{approved, deferred, ReviewAction, ReviewItem}
use timmeny_admin_os.Candidates.{RuleRefused, CandidateRule, LearnedRule, read_active_rules}
use timmeny_admin_os.Mailboxes.{ReviewScope, capability_scope}
use timmeny_admin_os.Plan.Begin.{ReviewPlan, Loaded}
use timmeny_admin_os.Review.Rows.{ReviewRun, ReviewGroup}
use timmeny_admin_os.Review.Checking.{is_pending}
use timmeny_admin_os.Review.States.{RunView}
use timmeny_admin_os.Review.Policy.{Evidence}
use timmeny_admin_os.Review.Collecting.{
  Fresh, Sheet, withdraw_out_of_scope, withdrawn_item, is_withdrawn,
}
use timmeny_admin_os.Review.Unattended.{IsUnattended, IsCollected, populate_group-IsCollected}
use timmeny_admin_os.Review.Filling.{
  lift_rule, Filled, group_or_new, get_or_create_group, fill_group, fill_each, viewed, fill_review,
}

-- How an item came to be in the table: it was there, it was added for a capability, or it was pending
-- and its thread had left.
pub data Came (now : ℕ) (capabilities : List CapabilityConfig) (rules : List CandidateRule)
    (before : List ReviewItem) : ReviewItem → Type 0 where
  kept : {i : ReviewItem} → Among i before → Came now capabilities rules before i
  added :
      {i : ReviewItem} (c : CapabilityConfig)
      → Among c capabilities
      → IsCollected c rules i
      → Came now capabilities rules before i
  left :
      {i : ReviewItem}
      → Came now capabilities rules before i
      → is_pending i.state ≡ true
      → Came now capabilities rules before (record i { state = deferred; decided_at = some now })

-- An item that is approved was there before, or a rule approved it that may.
Came-approved :
    (now : ℕ) (capabilities : List CapabilityConfig) (rules : List CandidateRule)
    (before : List ReviewItem) (i : ReviewItem)
    → Came now capabilities rules before i
    → i.state ≡ approved
    → Among i before ⊎ ((c : CapabilityConfig) × Among c capabilities × IsUnattended c rules i)
Came-approved now capabilities rules before i (kept among) h = inl among
Came-approved now capabilities rules before i (added c among (inl waits)) h =
    let impossible = sym (waits.0) ∙ h in cc
Came-approved now capabilities rules before i (added c among (inr ruled)) h =
    inr (c, among, ruled.1)
Came-approved now capabilities rules before i (left came waits) h = cc

module _ (fold : String → String) (fresh : Fresh) (now : ℕ) (run_id : String)
    (capabilities : List CapabilityConfig) (rules : List CandidateRule)
    (before : List ReviewItem) where
  AllCame : List ReviewItem → Type 0
  AllCame items = All (λ i. Came now capabilities rules before i) items

  is_withdrawn-pending :
      (c : CapabilityConfig) (group_id : String) (scope : ReviewScope) (evidence : List Evidence)
      (i : ReviewItem)
      → is_withdrawn fold fresh now run_id c group_id scope evidence i ≡ true
      → is_pending i.state ≡ true
  unfolding is_withdrawn
  is_withdrawn-pending c group_id scope evidence i gone =
      (&&-true (i.group_id == group_id) (is_pending i.state)
        (&&-true (i.group_id == group_id && is_pending i.state) _ gone).0).1

  withdrawn-AllCame :
      (c : CapabilityConfig) (group_id : String) (scope : ReviewScope) (evidence : List Evidence)
      (items : List ReviewItem)
      → AllCame items
      → AllCame (map (withdrawn_item fold fresh now run_id c group_id scope evidence) items)
  unfolding withdrawn_item AllCame
  withdrawn-AllCame c group_id scope evidence [] h = tt
  withdrawn-AllCame c group_id scope evidence (i ∷ rest) h =
      let others = withdrawn-AllCame c group_id scope evidence rest h.1 in
      elim (Bool-cases (is_withdrawn fold fresh now run_id c group_id scope evidence i)) [
        | inl gone ↦
            rw gone (left h.0 (is_withdrawn-pending c group_id scope evidence i gone), others)
        | inr stays ↦ rw stays (h.0, others)
      ]

  collected-AllCame :
      (c : CapabilityConfig)
      → Among c capabilities
      → (new : List ReviewItem) → All (IsCollected c rules) new
      → AllCame new
  unfolding AllCame
  collected-AllCame c among [] h = tt
  collected-AllCame c among (i ∷ rest) h = (added c among h.0, collected-AllCame c among rest h.1)

  lift_rule-ok :
      (r : Result RuleRefused (List LearnedRule)) (learned : List LearnedRule)
      → lift_rule r ≡ ok learned
      → r ≡ ok learned
  unfolding lift_rule
  lift_rule-ok (ok xs) learned h = ap ok (sym (ok-injective h))
  lift_rule-ok (raised e) learned h = cc

  same_items :
      (c : CapabilityConfig) (sheet : Sheet) (o : Option ReviewGroup)
      → (group_or_new fold fresh now run_id c sheet o).1.items ≡ sheet.items
  unfolding group_or_new
  same_items c sheet none = refl
  same_items c sheet (some group) = refl

  fill_group-AllCame :
      (scope : ReviewScope) (evidence : List Evidence) (c : CapabilityConfig) (sheet filled : Sheet)
      → Among c capabilities
      → AllCame sheet.items
      → fill_group fold fresh now run_id scope evidence rules c sheet ≡ ok filled
      → AllCame filled.items
  unfolding fill_group get_or_create_group withdraw_out_of_scope AllCame
  fill_group-AllCame scope evidence c sheet filled among came h =
      let watched = capability_scope scope c in
      let p = get_or_create_group fold fresh now run_id c sheet in
      let gone = withdraw_out_of_scope fold fresh now run_id c p.0.id watched evidence p.1 in
      let (learned, lifted, made) = >>=-ok (lift_rule (read_active_rules c rules)) _ h in
      let (new, is, collected) =
        populate_group-IsCollected fold fresh now run_id c rules learned p.0.id watched evidence
          gone (lift_rule-ok (read_active_rules c rules) learned lifted) in
      let opened = subst AllCame (sym (same_items c sheet _)) came in
      subst (λ s. AllCame s.items) (sym (ok-injective made))
        (subst AllCame (sym is) (
          All-append _ gone.items new (withdrawn-AllCame c p.0.id watched evidence p.1.items opened)
            (collected-AllCame c among new collected)))

  fill_each-AllCame :
      (scope : ReviewScope) (evidence : List Evidence) (cs : List CapabilityConfig)
      (sheet filled : Sheet)
      → All (λ c. Among c capabilities) cs
      → AllCame sheet.items
      → fill_each fold fresh now run_id scope evidence rules cs sheet ≡ ok filled
      → AllCame filled.items
  unfolding fill_each AllCame
  fill_each-AllCame scope evidence [] sheet filled among came h =
      subst (λ s. AllCame s.items) (sym (ok-injective h)) came
  fill_each-AllCame scope evidence (c ∷ cs) sheet filled among came h =
      let (one, first, more) =
        >>=-ok (fill_group fold fresh now run_id scope evidence rules c sheet) _ h in
      fill_each-AllCame scope evidence cs one filled among.1
        (fill_group-AllCame scope evidence c sheet one among.0 came first) more

each-Among :
    (xs ys : List CapabilityConfig)
    → ((c : CapabilityConfig) → Among c xs → Among c ys)
    → All (λ c. Among c ys) xs
each-Among [] ys h = tt
each-Among (x ∷ xs) ys h = (h x (inl refl), each-Among xs ys (λ c among. h c (inr among)))

each-Came :
    (now : ℕ) (capabilities : List CapabilityConfig) (rules : List CandidateRule)
    (xs ys : List ReviewItem)
    → ((i : ReviewItem) → Among i xs → Among i ys)
    → All (λ i. Came now capabilities rules ys i) xs
each-Came now capabilities rules [] ys h = tt
each-Came now capabilities rules (x ∷ xs) ys h =
    (kept (h x (inl refl)), each-Came now capabilities rules xs ys (λ i among. h i (inr among)))

viewed-items :
    (fold : String → String) (fresh : Fresh) (now : ℕ) (run_id : String) (sheet : Sheet)
    (o : Option (RunView × List ReviewPlan)) (filled : Filled)
    → viewed fold fresh now run_id sheet o ≡ ok filled
    → sheet.items ≡ filled.sheet.items
unfolding viewed
viewed-items fold fresh now run_id sheet none filled h = cc
viewed-items fold fresh now run_id sheet (some (view, plans)) filled h =
    sym (ap (λ f. f.sheet.items) (ok-injective h))

-- Where `fill_review` returns, an item of its table that is approved was there before, as it is, or was
-- approved by a rule that was promoted to act unattended, for the action that the rule says and an
-- enabled capability both permits and executes, where the capability allows rules to act so.
pub fill_review-IsAttended :
    (fold : String → String) (fresh : Fresh) (now : ℕ) (loaded : Loaded) (run : ReviewRun)
    (scope : ReviewScope) (refreshed : Option ℕ) (evidence : List Evidence)
    (rules : List CandidateRule) (actions : List ReviewAction) (plans : List ReviewPlan)
    (sheet : Sheet) (filled : Filled) (item : ReviewItem)
    → fill_review fold fresh now loaded run scope refreshed evidence rules actions plans sheet
      ≡ ok filled
    → Among item filled.sheet.items
    → item.state ≡ approved
    → Among item sheet.items
      ⊎ ((c : CapabilityConfig) × Among c (enabled loaded.capabilities) × IsUnattended c rules item)
unfolding fill_review AllCame
fill_review-IsAttended fold fresh now loaded run scope refreshed evidence rules actions plans sheet
      filled item h among is_approved =
    let capabilities = enabled loaded.capabilities in
    let (full, made, shown) =
      >>=-ok (fill_each fold fresh now run.id scope evidence rules capabilities sheet) _ h in
    let all_came =
      fill_each-AllCame fold fresh now run.id capabilities rules sheet.items scope evidence
        capabilities sheet full (each-Among capabilities capabilities (λ c there. there))
        (each-Came now capabilities rules sheet.items sheet.items (λ i there. there)) made in
    Came-approved now capabilities rules sheet.items item
      (All-Among _ item filled.sheet.items
        (subst (All (λ i. Came now capabilities rules sheet.items i))
          (viewed-items fold fresh now run.id full _ filled shown) all_came)
        among)
      is_approved
