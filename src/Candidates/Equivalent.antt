-- ===== src/Candidates/Equivalent.antt =====
-- `find_equivalent` of adminos/domain/rules.py: the rule that it finds is one of the table's, and the
-- writes to that rule's row. What `record_rule` does, once it returns.
use timmeny_admin_os.Common.{
  ℕ, String, Bool, true, ◌≡◌, sym, ap, ◌∙◌, ◌⊎◌, inl, inr, ◌||◌, Option, none, some, List, [], ◌∷◌,
  ◌++◌, ◌==◌, Bool-cases, not-false, keep, All, Among, Members, Result, ok, >>=-ok, then-ok,
  refuse_if, refuse_if-ok, ok-injective,
}
use timmeny_admin_os.Capabilities.{ActionKind}
use timmeny_admin_os.Capabilities.Config.{CapabilityConfig, MatchRule}
use timmeny_admin_os.Candidates.{
  RuleState, CandidateRule, RuleRefused, is_retired, is_observed, is_proposed, digest_of,
  first_digested, find_equivalent, not_created_so, check_learning_allowed, record_found, read_rules,
  save_rule, noticed_again, new_rule, record_rule,
}

some-same :
    {x r : CandidateRule}
    → ◌≡◌ {A = Result RuleRefused (Option CandidateRule)} (ok (some x)) (ok (some r))
    → x ≡ r
some-same h = cc

kept-Among :
    (p : CandidateRule → Bool) (r : CandidateRule) (rules : List CandidateRule)
    → Among r (keep p rules)
    → Among r rules
kept-Among p r [] h = absurd h
kept-Among p r (x ∷ rest) h = elim (Bool-cases (p x)) [
  | inl e ↦ elim (rw e at h) [ inl here ↦ inl here | inr there ↦ inr (kept-Among p r rest there) ]
  | inr e ↦ inr (kept-Among p r rest (rw e at h))
]

pub save_rule-All :
    (P : CandidateRule → Type 0) (r : CandidateRule) (rules : List CandidateRule)
    → P r
    → All P rules
    → All P (save_rule r rules)
unfolding save_rule
save_rule-All P r [] h hs = tt
save_rule-All P r (x ∷ rest) h hs = elim (Bool-cases (x.id == r.id)) [
  | inl e ↦ rw e (h, hs.1)
  | inr e ↦ rw e (hs.0, save_rule-All P r rest h hs.1)
]

module _ (digest : Members → String) where
  first_digested-Among :
      (wanted : String) (rules : List CandidateRule) (r : CandidateRule)
      → first_digested digest wanted rules ≡ ok (some r)
      → Among r rules
  unfolding first_digested
  first_digested-Among wanted [] r h = cc
  first_digested-Among wanted (x ∷ rest) r h = elim (Bool-cases (is_retired x.state)) [
    | inl gone ↦ inr (first_digested-Among wanted rest r (rw gone at h))
    | inr live ↦
        let (d, _, more) = >>=-ok (digest_of digest x) _ (rw live at h) in
        elim (Bool-cases (d == wanted)) [
          | inl same ↦ let here = rw same at more in inl (sym (some-same here))
          | inr other ↦ inr (first_digested-Among wanted rest r (rw other at more))
        ]
  ]

  find_equivalent-Among :
      (key : String) (match : MatchRule) (action : ActionKind) (params : Option Members)
      (rules : List CandidateRule) (r : CandidateRule)
      → find_equivalent digest key match action params rules ≡ ok (some r)
      → Among r rules
  unfolding find_equivalent read_rules
  find_equivalent-Among key match action params rules r h =
      kept-Among _ r rules (first_digested-Among _ _ r h)

module _ (digest : Members → String) (fresh : List CandidateRule → String)
    (capability : CapabilityConfig) (match : MatchRule) (action : ActionKind) (rationale : String)
    (state : RuleState) (source : String) (params : Option Members) (confidence : ℕ)
    (actor : Option String) (now : ℕ) (rules : List CandidateRule) where
  -- `record_rule` counts a rule of the table once more, or appends one that is observed or proposed.
  unfoldable pub Recorded : CandidateRule → List CandidateRule → Type 0
  unfolding is_observed is_proposed noticed_again save_rule new_rule
  Recorded rule after =
      ((old : CandidateRule) × Among old rules
        × (rule ≡ noticed_again state rationale actor now old)
        × (after ≡ save_rule rule rules))
      ⊎ (((is_observed state || is_proposed state) ≡ true)
          × (rule
              ≡ new_rule digest fresh capability match action rationale state source params
                  confidence actor now rules)
          × (after ≡ rules ++ rule ∷ []))

  record_found-Recorded :
      (found : Option CandidateRule) (rule : CandidateRule) (after : List CandidateRule)
      → (is_observed state || is_proposed state) ≡ true
      → find_equivalent digest capability.key match action params rules ≡ ok found
      → record_found digest fresh capability match action rationale state source params confidence
          actor now rules found
        ≡ ok (rule, after)
      → Recorded rule after
  unfolding record_found Recorded
  record_found-Recorded none rule after made_so looked h =
      let same = ok-injective h in
      inr (
        made_so,
        ap (λ p. p.0) same,
        ap (λ p. p.1) same ∙ ap (λ r. rules ++ r ∷ []) (sym (ap (λ p. p.0) same)),
      )
  record_found-Recorded (some old) rule after made_so looked h =
      let same = ok-injective h in
      inl (
        old,
        find_equivalent-Among digest capability.key match action params rules old looked,
        ap (λ p. p.0) same,
        ap (λ p. p.1) same ∙ ap (λ r. save_rule r rules) (sym (ap (λ p. p.0) same)),
      )

  pub record_rule-Recorded :
      (rule : CandidateRule) (after : List CandidateRule)
      → record_rule digest fresh capability match action rationale state source params confidence
          actor now rules
        ≡ ok (rule, after)
      → Recorded rule after
  unfolding record_rule
  record_rule-Recorded rule after h =
      let (_, more) = then-ok (check_learning_allowed capability action params) _ h in
      let (made_so, more) = then-ok (refuse_if _ not_created_so) _ more in
      let (found, looked, more) =
        >>=-ok (find_equivalent digest capability.key match action params rules) _ more in
      record_found-Recorded found rule after
        (not-false (is_observed state || is_proposed state) (refuse_if-ok _ not_created_so made_so))
        looked more
