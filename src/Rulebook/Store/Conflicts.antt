-- ===== src/Rulebook/Store/Conflicts.antt =====
-- Two live rules that say the same thing (adminos/domain/rulebook_store.py): what `propose_rule`
-- refuses, and what `amend_rule` lets through.
use timmeny_admin_os.Common.{
  ℕ, String, Bool, true, not, ◌≡◌, ◌≢◌, refl, sym, ap, ◌∙◌, none, some, List, [], ◌∷◌, ◌++◌, eq_iff,
  nat_eqb, arith, ok, Bool-cases, inl, inr,
}
use timmeny_admin_os.Conditions.Fields.{Engine}
use timmeny_admin_os.Capabilities.Config.{CapabilityConfig}
use timmeny_admin_os.Rulebook.Standing.{RuleStatus, retired, status_eq, check_transition}
use timmeny_admin_os.Rulebook.Draft.{RuleDraft}
use timmeny_admin_os.Rulebook.Store.Tables.{
  Rule, Store, find_rule, update_rule, find_rule-id, find_rule-update_ne,
}
use timmeny_admin_os.Rulebook.Store.{
  RuleRecord, propose_rule, amend_rule, move_rule, read_rule-ok, live_with, write_proposed,
  write_amended, amended_rule, write_moved, moved_rule,
}
use timmeny_admin_os.Rulebook.Store.Inversion.{propose_rule-ok, amend_rule-ok, move_rule-ok}

abbrev pub is_live : Rule → Bool
is_live r = not (status_eq r.status retired)

-- No two live rules have one digest.
abbrev pub AreDistinct : List Rule → Type 0
AreDistinct [] = Unit
AreDistinct (r ∷ rs) = (is_live r ≡ true → live_with r.digest rs ≡ none) × AreDistinct rs

live_with-append :
    (d : String) (rs : List Rule) (new : Rule)
    → live_with d rs ≡ none
    → new.digest ≢ d
    → live_with d (rs ++ new ∷ []) ≡ none
unfolding live_with
live_with-append d [] new h ne = ground (arith, eq_iff new.digest d)
live_with-append d (r ∷ rs) new h ne = ground (arith, live_with-append d rs new)

append-AreDistinct :
    (rs : List Rule) (new : Rule)
    → live_with new.digest rs ≡ none
    → AreDistinct rs
    → AreDistinct (rs ++ new ∷ [])
unfolding live_with
append-AreDistinct [] new h d = (λ l. refl, tt)
append-AreDistinct (r ∷ rs) new h d = (
  λ l. live_with-append r.digest rs new (d.0 l) (ground (arith, eq_iff r.digest new.digest)),
  append-AreDistinct rs new (ground arith) d.1,
)

-- A rewritten row with the digest it had, which is live only if it was.
update-live_with :
    (d : String) (rs : List Rule) (old new : Rule)
    → find_rule new.id rs ≡ some old
    → new.digest ≡ old.digest
    → (is_live new ≡ true → is_live old ≡ true)
    → live_with d rs ≡ none
    → live_with d (update_rule new rs) ≡ none
unfolding live_with update_rule find_rule
update-live_with d [] old new f e l h = refl
update-live_with d (r ∷ rs) old new f e l h =
    ground (arith, update-live_with d rs old new, eq_iff new.digest d)

update-AreDistinct :
    (rs : List Rule) (old new : Rule)
    → find_rule new.id rs ≡ some old
    → new.digest ≡ old.digest
    → (is_live new ≡ true → is_live old ≡ true)
    → AreDistinct rs
    → AreDistinct (update_rule new rs)
unfolding update_rule find_rule
update-AreDistinct [] old new f e l d = tt
update-AreDistinct (r ∷ rs) old new f e l d = elim (Bool-cases (nat_eqb r.id new.id)) [
  | inl here ↦ rw here (λ n. let same : r ≡ old = ground arith in ground (arith, d.0), d.1)
  | inr there ↦
      let f' : find_rule new.id rs ≡ some old = ground arith in
      rw there (
        λ live. update-live_with r.digest rs old new f' e l (d.0 live),
        update-AreDistinct rs old new f' e l d.1,
      )
]

-- A proposal that is accepted says what no live rule says.
pub propose_rule-AreDistinct :
    (e : Engine) (digest_of : RuleDraft → String) (loaded : List CapabilityConfig)
    (draft : RuleDraft) (actor : String) (now : ℕ) (s t : Store) (found : RuleRecord)
    → propose_rule e digest_of loaded draft actor now s ≡ ok (found, t)
    → AreDistinct s.rules
    → AreDistinct t.rules
unfolding write_proposed
propose_rule-AreDistinct e digest_of loaded draft actor now s t found h d =
    let p = propose_rule-ok e digest_of loaded draft actor now s _ h in
    rw (ap (λ (out : RuleRecord × Store). out.1) p.written)
      (append-AreDistinct s.rules _ p.unsaid d)

legal-live :
    (now : ℕ) (old : Rule) (to : RuleStatus)
    → check_transition old.status to ≡ ok tt
    → is_live (moved_rule to now old) ≡ true
    → is_live old ≡ true
unfolding check_transition moved_rule
legal-live now old to c l = ground arith

-- A move never makes two live rules say the same thing.
pub move_rule-AreDistinct :
    (id : ℕ) (to : RuleStatus) (actor : String) (now : ℕ) (s t : Store) (found : RuleRecord)
    → move_rule id to actor now s ≡ ok (found, t)
    → AreDistinct s.rules
    → AreDistinct t.rules
unfolding write_moved
move_rule-AreDistinct id to actor now s t found h d =
    let m = move_rule-ok id to actor now s _ h in
    let (f, points) = read_rule-ok id s m.found m.was_read in
    let f' = ap (λ k. find_rule k s.rules) (find_rule-id id s.rules m.found.rule f) ∙ f in
    rw (ap (λ (out : RuleRecord × Store). out.1) m.written) (
      update-AreDistinct s.rules m.found.rule _ (unfold moved_rule in f')
        (unfold moved_rule in refl) (legal-live now m.found.rule to m.legal) d)

live_with-found :
    (j : ℕ) (rs : List Rule) (b : Rule)
    → find_rule j rs ≡ some b
    → is_live b ≡ true
    → live_with b.digest rs ≢ none
unfolding find_rule live_with
live_with-found j [] b f l = cc
live_with-found j (r ∷ rs) b f l = ground (arith, live_with-found j rs b, eq_iff b.digest b.digest)

clash :
    (i j : ℕ) (rs : List Rule) (a b : Rule)
    → i ≢ j
    → find_rule i rs ≡ some a
    → find_rule j rs ≡ some b
    → is_live a ≡ true
    → is_live b ≡ true
    → a.digest ≡ b.digest
    → AreDistinct rs
    → ⊥
unfolding find_rule
clash i j [] a b ne f g l m e d = cc
clash i j (r ∷ rs) a b ne f g l m e d =
    ground (arith, clash i j rs a b, live_with-found i rs a, live_with-found j rs b)

find_rule-update_self :
    (new : Rule) (rs : List Rule) (old : Rule)
    → find_rule new.id rs ≡ some old
    → find_rule new.id (update_rule new rs) ≡ some new
unfolding find_rule update_rule
find_rule-update_self new [] old f = cc
find_rule-update_self new (r ∷ rs) old f = ground (arith, find_rule-update_self new rs old)

-- An amendment does not look for another rule that already says what it says: where a live rule
-- other than the one amended has the draft's digest, an amendment that is accepted leaves two live
-- rules that say the same thing, the conflict which `propose_rule` refuses.
pub amend_rule-clash :
    (e : Engine) (digest_of : RuleDraft → String) (loaded : List CapabilityConfig) (id other : ℕ)
    (draft : RuleDraft) (actor : String) (now : ℕ) (s t : Store) (found : RuleRecord) (r : Rule)
    → amend_rule e digest_of loaded id draft actor now s ≡ ok (found, t)
    → other ≢ id
    → find_rule other s.rules ≡ some r
    → is_live r ≡ true
    → r.digest ≡ digest_of draft
    → ¬ (AreDistinct t.rules)
unfolding write_amended status_eq
amend_rule-clash e digest_of loaded id other draft actor now s t found r h ne f l same d =
    let a = amend_rule-ok e digest_of loaded id draft actor now s _ h in
    let (g, points) = read_rule-ok id s a.found a.was_read in
    let at_id : a.found.rule.id ≡ id = find_rule-id id s.rules a.found.rule g in
    let w = ap (λ (out : RuleRecord × Store). out.1.rules) a.written in
    let g' = ap (λ k. find_rule k s.rules) at_id ∙ g in
    let new = amended_rule e digest_of draft a.found.rule s in
    clash other a.found.rule.id t.rules r new (λ p. ne (p ∙ at_id))
      (ap (find_rule other) w ∙ find_rule-update_ne other new s.rules (λ p. ne (sym p ∙ at_id)) ∙ f)
      (ap (find_rule a.found.rule.id) w ∙ find_rule-update_self new s.rules a.found.rule g') l refl
      same d
