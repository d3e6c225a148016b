-- ===== src/Rulebook/Store/Vetted.antt =====
-- A rule shapes a review only in a version that was tested and confirmed
-- (adminos/domain/rulebook_store.py).
use timmeny_admin_os.Common.{
  ℕ, String, Bool, true, false, ◌&&◌, ◌≡◌, refl, ◌⊎◌, inl, inr, Option, none, some, List, [], ◌∷◌,
  ◌++◌, nat_eqb, any, arith, ap, ok,
}
use timmeny_admin_os.Conditions.Fields.{Engine}
use timmeny_admin_os.Rulebook.Standing.{
  RuleStatus, observed, proposed, tested, confirmed, retired, is_effective, EventKind, event_eq,
  check_transition,
}
use timmeny_admin_os.Rulebook.Draft.{RuleDraft}
use timmeny_admin_os.Rulebook.Store.Tables.{
  Rule, RuleEvent, Store, empty, find_rule, find_rule-update_rule, find_rule-append,
}
use timmeny_admin_os.Rulebook.Store.{
  RuleRecord, read_rule-ok, move_event, write_moved, write_proposed, write_amended,
}
use timmeny_admin_os.Rulebook.Store.Inversion.{propose_rule-ok, amend_rule-ok, move_rule-ok}
use timmeny_admin_os.Rulebook.Store.History.{Step, propose, amend, move, Reach, here, next}

-- An event of this kind, about this rule and this version of it.
abbrev pub has_event : EventKind → ℕ → ℕ → List RuleEvent → Bool
has_event kind rule version events =
    any (λ e. event_eq kind e.kind && (nat_eqb e.rule_id rule && nat_eqb e.version_id version))
      events

abbrev seen_of : EventKind → List RuleEvent → ℕ → Option ℕ → Bool
seen_of kind events id none = false
seen_of kind events id (some v) = has_event kind id v events

-- An event of this kind about the version of the rule that is in force.
abbrev pub seen : EventKind → List RuleEvent → Rule → Bool
seen kind events r = seen_of kind events r.id r.current_version_id

any-append :
    (p : RuleEvent → Bool) (es fs : List RuleEvent) → any p es ≡ true → any p (es ++ fs) ≡ true
any-append p [] fs h = cc
any-append p (e ∷ es) fs h = ground (arith, any-append p es fs)

any-append_right :
    (p : RuleEvent → Bool) (es fs : List RuleEvent) → any p fs ≡ true → any p (es ++ fs) ≡ true
any-append_right p [] fs h = h
any-append_right p (e ∷ es) fs h = ground (arith, any-append_right p es fs)

abbrev needs_test : RuleStatus → Bool
needs_test observed = false
needs_test proposed = false
needs_test retired = false
needs_test _ = true

abbrev needs_confirmation : RuleStatus → Bool
needs_confirmation tested = false
needs_confirmation status = needs_test status

pub record IsVettedRule (events : List RuleEvent) (r : Rule) : Type 0 where
  pub was_tested : needs_test r.status ≡ true → seen EventKind.tested events r ≡ true
  pub was_confirmed : needs_confirmation r.status ≡ true → seen EventKind.confirmed events r ≡ true

pub record IsVetted (s : Store) : Type 0 where
  pub at : (id : ℕ) (r : Rule) → find_rule id s.rules ≡ some r → IsVettedRule s.events r

seen_of-append :
    (kind : EventKind) (es fs : List RuleEvent) (id : ℕ) (v : Option ℕ)
    → seen_of kind es id v ≡ true
    → seen_of kind (es ++ fs) id v ≡ true
seen_of-append kind es fs id none h = cc
seen_of-append kind es fs id (some v) h = any-append _ es fs h

IsVettedRule-append :
    (es fs : List RuleEvent) (r : Rule) → IsVettedRule es r → IsVettedRule (es ++ fs) r
IsVettedRule-append es fs r h = record {
  was_tested =
      λ n. seen_of-append EventKind.tested es fs r.id r.current_version_id (h.was_tested n);
  was_confirmed =
      λ n. seen_of-append EventKind.confirmed es fs r.id r.current_version_id (h.was_confirmed n);
}

-- A proposed rule has earned nothing yet.
proposed-IsVettedRule : (es : List RuleEvent) (r : Rule) → r.status ≡ proposed → IsVettedRule es r
proposed-IsVettedRule es r p = record {
  was_tested = λ n. ground arith;
  was_confirmed = λ n. ground arith;
}

earned_test :
    (was to : RuleStatus)
    → check_transition was to ≡ ok tt
    → needs_test to ≡ true
    → (to ≡ tested) ⊎ (needs_test was ≡ true)
unfolding check_transition
earned_test was to c n = ground arith

earned_confirmation :
    (was to : RuleStatus)
    → check_transition was to ≡ ok tt
    → needs_confirmation to ≡ true
    → (to ≡ confirmed) ⊎ (needs_confirmation was ≡ true)
unfolding check_transition
earned_confirmation was to c n = ground arith

move_event-tested : (was : RuleStatus) → event_eq EventKind.tested (move_event was tested) ≡ true
unfolding event_eq move_event
move_event-tested was = refl

move_event-confirmed :
    (was : RuleStatus) → event_eq EventKind.confirmed (move_event was confirmed) ≡ true
unfolding event_eq move_event
move_event-confirmed was = refl

module _ {s : Store} (h : IsVetted s) where
  -- One row is new or rewritten, and events are added.
  keeps-IsVetted :
      (new : Rule) (added : List RuleEvent) (t : Store)
      → t.events ≡ s.events ++ added
      → ((id : ℕ) (r : Rule)
          → find_rule id t.rules ≡ some r
          → (r ≡ new) ⊎ (find_rule id s.rules ≡ some r))
      → IsVettedRule (s.events ++ added) new
      → IsVetted t
  keeps-IsVetted new added t e rows v = record {
    at = λ id r p. elim (rows id r p) [
      | inl same ↦ rw e (rw same v)
      | inr old ↦ rw e (IsVettedRule-append s.events added r (h.at id r old))
    ];
  }

  -- The event of a move is about the version in force.
  event_seen :
      (found : RuleRecord) (kind : EventKind) (to : RuleStatus) (actor : String) (now : ℕ)
      → found.rule.current_version_id ≡ some found.version.id
      → event_eq kind (move_event found.rule.status to) ≡ true
      → seen kind
          (write_moved to actor now found s).1.events
          (write_moved to actor now found s).0.rule
        ≡ true
  unfolding write_moved
  event_seen found kind to actor now v k = rw v (any-append_right _ s.events _ (ground arith))

  old_seen :
      (found : RuleRecord) (kind : EventKind) (to : RuleStatus) (actor : String) (now : ℕ)
      → seen kind s.events found.rule ≡ true
      → seen kind
          (write_moved to actor now found s).1.events
          (write_moved to actor now found s).0.rule
        ≡ true
  unfolding write_moved
  old_seen found kind to actor now p =
      seen_of-append kind s.events _ found.rule.id found.rule.current_version_id p

  move-IsVettedRule :
      (found : RuleRecord) (to : RuleStatus) (actor : String) (now : ℕ)
      → IsVettedRule s.events found.rule
      → found.rule.current_version_id ≡ some found.version.id
      → check_transition found.rule.status to ≡ ok tt
      → IsVettedRule
          (write_moved to actor now found s).1.events
          (write_moved to actor now found s).0.rule
  move-IsVettedRule found to actor now f v c = record {
    was_tested = λ n. elim (earned_test found.rule.status to c (unfold write_moved in n)) [
      | inl now_tested ↦
          event_seen found EventKind.tested to actor now v
            (rw now_tested (move_event-tested found.rule.status))
      | inr before ↦ old_seen found EventKind.tested to actor now (f.was_tested before)
    ];
    was_confirmed = λ n.
        elim (earned_confirmation found.rule.status to c (unfold write_moved in n)) [
          | inl now_confirmed ↦
              event_seen found EventKind.confirmed to actor now v
                (rw now_confirmed (move_event-confirmed found.rule.status))
          | inr before ↦ old_seen found EventKind.confirmed to actor now (f.was_confirmed before)
        ];
  }

  moved-IsVetted :
      (found : RuleRecord) (to : RuleStatus) (actor : String) (now : ℕ)
      → IsVettedRule s.events found.rule
      → found.rule.current_version_id ≡ some found.version.id
      → check_transition found.rule.status to ≡ ok tt
      → IsVetted (write_moved to actor now found s).1
  moved-IsVetted found to actor now f v c =
      let row = move-IsVettedRule found to actor now f v c in
      unfold write_moved in
      keeps-IsVetted _ _ _ refl (λ id r p. find_rule-update_rule id _ s.rules r p) row

empty-IsVetted : IsVetted empty
unfolding find_rule
empty-IsVetted = record { at = λ id r f. cc }

effective_needs_test : (status : RuleStatus) → is_effective status ≡ true → needs_test status ≡ true
unfolding is_effective
effective_needs_test status h = ground arith

effective_needs_confirmation :
    (status : RuleStatus) → is_effective status ≡ true → needs_confirmation status ≡ true
unfolding is_effective
effective_needs_confirmation status h = ground arith

module _ (e : Engine) (digest_of : RuleDraft → String) where
  Step-IsVetted : {s t : Store} → Step e digest_of s t → IsVetted s → IsVetted t
  unfolding write_proposed write_amended
  Step-IsVetted {s} (propose loaded draft actor now found p) h =
      let w =
        ap (λ (out : RuleRecord × Store). out.1)
          (propose_rule-ok e digest_of loaded draft actor now s _ p).written in
      rw w (
        keeps-IsVetted h _ _ _ refl (λ id r f. find_rule-append id _ s.rules r f)
          (proposed-IsVettedRule _ _ refl))
  Step-IsVetted {s} (amend loaded id draft actor now found p) h =
      let w =
        ap (λ (out : RuleRecord × Store). out.1)
          (amend_rule-ok e digest_of loaded id draft actor now s _ p).written in
      rw w (
        keeps-IsVetted h _ _ _ refl (λ id r f. find_rule-update_rule id _ s.rules r f)
          (proposed-IsVettedRule _ _ refl))
  Step-IsVetted {s} (move id to actor now found p) h =
      let m = move_rule-ok id to actor now s _ p in
      let (f, v) = read_rule-ok id s m.found m.was_read in
      let w = ap (λ (out : RuleRecord × Store). out.1) m.written in
      rw w (moved-IsVetted h m.found to actor now (h.at id m.found.rule f) v m.legal)

  Reach-IsVetted : {s t : Store} → Reach e digest_of s t → IsVetted s → IsVetted t
  Reach-IsVetted here h = h
  Reach-IsVetted (next before step) h = Step-IsVetted step (Reach-IsVetted before h)

  -- In every history that starts from empty tables, a rule that shapes a review does so in a
  -- version that has itself been tested and confirmed: an amendment takes both away.
  pub effective_was_vetted :
      {t : Store} (id : ℕ) (r : Rule)
      → Reach e digest_of empty t
      → find_rule id t.rules ≡ some r
      → is_effective r.status ≡ true
      → (seen EventKind.tested t.events r ≡ true) × (seen EventKind.confirmed t.events r ≡ true)
  effective_was_vetted id r history f works =
      let v = (Reach-IsVetted history empty-IsVetted).at id r f in
      (
        v.was_tested (effective_needs_test r.status works),
        v.was_confirmed (effective_needs_confirmation r.status works),
      )
