-- ===== src/Rulebook/Store/Effective.antt =====
-- The rules that shape a review: `read_effective_rules` of adminos/domain/rulebook_store.py.
use timmeny_admin_os.Common.{
  String, Bool, true, ◌&&◌, ◌≡◌, refl, sym, ap, subst, ◌∙◌, inl, inr, Option, some, List, [], ◌∷◌,
  map, keep, All, Among, sort_by, Bool-cases, ok, >>=-ok, ok-injective,
}
use timmeny_admin_os.Common.Sorting.{IsSorted, sort_by-All, sort_by-Among, sort_by-IsSorted}
use timmeny_admin_os.Rulebook.Standing.{is_effective}
use timmeny_admin_os.Rulebook.Store.Tables.{Rule, Store, find_rule}
use timmeny_admin_os.Rulebook.Store.{RuleRecord, read_rule, read_rule-ok}
use timmeny_admin_os.Rulebook.Store.Readers.{
  read_each, by_priority, sorted_records, for_capability, read_effective_rules,
}

-- Each row is the one that its identity finds.
unfoldable pub AreFound : Store → List Rule → Type 0
AreFound s rules = All (λ r. find_rule r.id s.rules ≡ some r) rules

keep-AreFound :
    (s : Store) (p : Rule → Bool) (rules : List Rule) → AreFound s rules → AreFound s (keep p rules)
unfolding AreFound
keep-AreFound s p [] h = tt
keep-AreFound s p (r ∷ rs) h = elim (Bool-cases (p r)) [
  | inl e ↦ rw e (h.0, keep-AreFound s p rs h.1)
  | inr e ↦ rw e (keep-AreFound s p rs h.1)
]

keep-All : (p : Rule → Bool) (rules : List Rule) → All (λ r. p r ≡ true) (keep p rules)
keep-All p [] = tt
keep-All p (r ∷ rs) = elim (Bool-cases (p r)) [
  | inl e ↦ rw e (e, keep-All p rs)
  | inr e ↦ rw e (keep-All p rs)
]

keep-Among :
    (p : Rule → Bool) (r : Rule) (rules : List Rule)
    → p r ≡ true
    → Among r rules
    → Among r (keep p rules)
keep-Among p r [] h among = absurd among
keep-Among p r (q ∷ rs) h (inl e) = rw (ap p (sym e) ∙ h) (inl e)
keep-Among p r (q ∷ rs) h (inr later) = elim (Bool-cases (p q)) [
  | inl e ↦ rw e (inr (keep-Among p r rs h later))
  | inr e ↦ rw e (keep-Among p r rs h later)
]

some-injective : {a b : Rule} → ◌≡◌ {A = Option Rule} (some a) (some b) → a ≡ b
some-injective h = cc

-- Reading row by row gives the rows, in their order.
read_each-rules :
    (s : Store) (rules : List Rule) (found : List RuleRecord)
    → AreFound s rules
    → read_each rules s ≡ ok found
    → map (λ f. f.rule) found ≡ rules
unfolding read_each AreFound
read_each-rules s [] found h e = ap (map (λ f. f.rule)) (ok-injective e)
read_each-rules s (r ∷ rs) found h e =
    let (first, reads, more) = >>=-ok (read_rule r.id s) _ e in
    let (rest, others, made) = >>=-ok (read_each rs s) _ more in
    let own = some-injective (sym (read_rule-ok r.id s first reads).0 ∙ h.0) in
    ap (map (λ f. f.rule)) (ok-injective made)
    ∙ ap (λ q. q ∷ map (λ f. f.rule) rest) own
    ∙ ap (λ rules. r ∷ rules) (read_each-rules s rs rest h.1 others)

map-All :
    (P : Rule → Type 0) (found : List RuleRecord)
    → All P (map (λ f. f.rule) found)
    → All (λ f. P f.rule) found
map-All P [] h = tt
map-All P (f ∷ fs) h = (h.0, map-All P fs h.1)

Among-map :
    (r : Rule) (found : List RuleRecord)
    → Among r (map (λ f. f.rule) found)
    → (f : RuleRecord) × (f.rule ≡ r) × Among f found
Among-map r [] h = absurd h
Among-map r (f ∷ fs) (inl e) = (f, sym e, inl refl)
Among-map r (f ∷ fs) (inr later) = let (g, own, among) = Among-map r fs later in (g, own, inr among)

-- In force, and for the capability that is asked about.
unfoldable pub shapes : Option String → Rule → Bool
unfolding for_capability
shapes key r = is_effective r.status && for_capability key r.capability_key

read_effective_rules-inversion :
    (key : Option String) (s : Store) (found : List RuleRecord)
    → AreFound s s.rules
    → read_effective_rules key s ≡ ok found
    → (read : List RuleRecord) × (map (λ f. f.rule) read ≡ keep (shapes key) s.rules)
      × (found ≡ by_priority read)
unfolding read_effective_rules sorted_records shapes
read_effective_rules-inversion key s found h e =
    let (read, reads, made) = >>=-ok (read_each (keep (shapes key) s.rules) s) _ e in
    (
      read,
      read_each-rules s (keep (shapes key) s.rules) read (keep-AreFound s (shapes key) s.rules h)
          reads,
      ok-injective made,
    )

-- Where each row is found by its identity, the rules that `read_effective_rules` gives are in force
-- and for the capability that is asked about, and they stand in the order of their priorities.
pub read_effective_rules-IsSorted :
    (key : Option String) (s : Store) (found : List RuleRecord)
    → AreFound s s.rules
    → read_effective_rules key s ≡ ok found
    → All (λ f. shapes key f.rule ≡ true) found × IsSorted (λ f. f.version.draft.priority) found
unfolding by_priority
read_effective_rules-IsSorted key s found h e =
    let (read, rows, sorted) = read_effective_rules-inversion key s found h e in
    let held =
      map-All (λ r. shapes key r ≡ true) read
        (subst (λ rs. All (λ r. shapes key r ≡ true) rs) (sym rows)
          (keep-All (shapes key) s.rules)) in
    let oldest = sort_by (λ f. f.rule.created_at) read in
    subst
      (λ fs. All (λ f. shapes key f.rule ≡ true) fs × IsSorted (λ f. f.version.draft.priority) fs)
      (sym sorted)
      (
        sort_by-All (λ f. f.version.draft.priority) (λ f. shapes key f.rule ≡ true) oldest
            (sort_by-All (λ f. f.rule.created_at) (λ f. shapes key f.rule ≡ true) read held),
        sort_by-IsSorted (λ f. f.version.draft.priority) oldest,
      )

-- Where each row is found by its identity, no rule that is in force for the capability is left out
-- of what `read_effective_rules` gives.
pub read_effective_rules-Among :
    (key : Option String) (s : Store) (found : List RuleRecord) (r : Rule)
    → AreFound s s.rules
    → read_effective_rules key s ≡ ok found
    → Among r s.rules
    → shapes key r ≡ true
    → (f : RuleRecord) × (f.rule ≡ r) × Among f found
unfolding by_priority
read_effective_rules-Among key s found r h e among shaping =
    let (read, rows, sorted) = read_effective_rules-inversion key s found h e in
    let (f, own, held) =
      Among-map r read
        (subst (λ rs. Among r rs) (sym rows) (keep-Among (shapes key) r s.rules shaping among)) in
    (
      f,
      own,
      subst (λ fs. Among f fs) (sym sorted)
          (sort_by-Among (λ g. g.version.draft.priority) f (sort_by (λ g. g.rule.created_at) read)
            (sort_by-Among (λ g. g.rule.created_at) f read held)),
    )
