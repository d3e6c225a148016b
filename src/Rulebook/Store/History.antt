-- ===== src/Rulebook/Store/History.antt =====
-- The histories of the rule tables (adminos/domain/rulebook_store.py): each step is a request that
-- succeeded. A request that fails writes nothing and is no step.
use native.Mathlib.Decide.{ℕ_discrete}
use mathlib.Core.List.{append-nil, append_assoc}
use timmeny_admin_os.Common.{
  ℕ, String, false, ◌≡◌, sym, ap, ◌∙◌, ◌⊎◌, inl, inr, ◌≢◌, some, List, [], ◌++◌, arith, ok,
}
use timmeny_admin_os.Conditions.Fields.{Engine}
use timmeny_admin_os.Capabilities.Config.{CapabilityConfig}
use timmeny_admin_os.Rulebook.Standing.{RuleStatus, retired, status_eq, check_transition}
use timmeny_admin_os.Rulebook.Draft.{RuleDraft}
use timmeny_admin_os.Rulebook.Store.Tables.{
  Rule, RuleVersion, RuleEvent, Store, find_rule, find_rule-id, find_rule-update_ne,
  find_rule-append_old,
}
use timmeny_admin_os.Rulebook.Store.{
  RuleRecord, propose_rule, amend_rule, move_rule, read_rule, read_rule-ok, write_proposed,
  write_amended, write_moved,
}
use timmeny_admin_os.Rulebook.Store.Inversion.{propose_rule-ok, amend_rule-ok, move_rule-ok}

live-retired : (a r : Rule) → status_eq a.status retired ≡ false → a ≡ r → r.status ≡ retired → ⊥
unfolding status_eq
live-retired a r live same d = ground arith

legal-retired :
    (a r : Rule) (to : RuleStatus)
    → check_transition a.status to ≡ ok tt
    → a ≡ r
    → r.status ≡ retired
    → ⊥
unfolding check_transition
legal-retired a r to legal same d = ground arith

module _ (e : Engine) (digest_of : RuleDraft → String) where
  pub data Step : Store → Store → Type 0 where
    propose :
        {s t : Store} (loaded : List CapabilityConfig) (draft : RuleDraft) (actor : String)
        (now : ℕ) (found : RuleRecord)
        → propose_rule e digest_of loaded draft actor now s ≡ ok (found, t)
        → Step s t
    amend :
        {s t : Store} (loaded : List CapabilityConfig) (id : ℕ) (draft : RuleDraft) (actor : String)
        (now : ℕ) (found : RuleRecord)
        → amend_rule e digest_of loaded id draft actor now s ≡ ok (found, t)
        → Step s t
    move :
        {s t : Store} (id : ℕ) (to : RuleStatus) (actor : String) (now : ℕ) (found : RuleRecord)
        → move_rule id to actor now s ≡ ok (found, t)
        → Step s t

  pub data Reach (s : Store) : Store → Type 0 where
    here : Reach s s
    next : {t u : Store} → Reach s t → Step t u → Reach s u

  -- A version or an event, once written, stays where it is: both tables only grow.
  pub record IsExtension (s t : Store) : Type 0 where
    pub new_versions : List RuleVersion
    pub versions : t.versions ≡ s.versions ++ new_versions
    pub new_events : List RuleEvent
    pub events : t.events ≡ s.events ++ new_events

  Step-IsExtension : {s t : Store} → Step s t → IsExtension s t
  unfolding write_proposed write_amended write_moved
  Step-IsExtension {s} (propose loaded draft actor now found h) =
      let w =
        ap (λ (out : RuleRecord × Store). out.1)
          (propose_rule-ok e digest_of loaded draft actor now s _ h).written in
      record {
        new_versions = _;
        versions = ap (λ (u : Store). u.versions) w;
        new_events = _;
        events = ap (λ (u : Store). u.events) w;
      }
  Step-IsExtension {s} (amend loaded id draft actor now found h) =
      let w =
        ap (λ (out : RuleRecord × Store). out.1)
          (amend_rule-ok e digest_of loaded id draft actor now s _ h).written in
      record {
        new_versions = _;
        versions = ap (λ (u : Store). u.versions) w;
        new_events = _;
        events = ap (λ (u : Store). u.events) w;
      }
  Step-IsExtension {s} (move id to actor now found h) =
      let w =
        ap (λ (out : RuleRecord × Store). out.1) (move_rule-ok id to actor now s _ h).written in
      record {
        new_versions = [];
        versions = ap (λ (u : Store). u.versions) w ∙ sym (append-nil s.versions);
        new_events = _;
        events = ap (λ (u : Store). u.events) w;
      }

  -- Whatever the requests, the versions and the events that were written stay written, unchanged
  -- and in their order: later requests only add behind them.
  pub Reach-IsExtension : {s t : Store} → Reach s t → IsExtension s t
  Reach-IsExtension {s} here = record {
    new_versions = [];
    versions = sym (append-nil s.versions);
    new_events = [];
    events = sym (append-nil s.events);
  }
  Reach-IsExtension {s} (next r step) =
      let a = Reach-IsExtension r in
      let b = Step-IsExtension step in
      record {
        new_versions = a.new_versions ++ b.new_versions;
        versions = simp (b.versions, a.versions, append_assoc);
        new_events = a.new_events ++ b.new_events;
        events = simp (b.events, a.events, append_assoc);
      }

  -- The two writes to a row, at a row of another id and at the row itself.
  same_or_other :
      (s : Store) (id other : ℕ) (r : Rule) (found : RuleRecord)
      → find_rule id s.rules ≡ some r
      → read_rule other s ≡ ok found
      → (found.rule ≡ r) ⊎ (found.rule.id ≢ id)
  same_or_other s id other r found f h =
      let (g, points) = read_rule-ok other s found h in
      let same_id = find_rule-id other s.rules found.rule g in
      elim (ℕ_discrete other id) [
        | yes p ↦ inl (ground (arith, rw p at g))
        | no p ↦ inr (λ q. p (sym same_id ∙ q))
      ]

  Step-retired :
      {s t : Store} (id : ℕ) (r : Rule)
      → Step s t
      → find_rule id s.rules ≡ some r
      → r.status ≡ retired
      → find_rule id t.rules ≡ some r
  unfolding write_proposed write_amended write_moved
  Step-retired {s} id r (propose loaded draft actor now found h) f d =
      let w = (propose_rule-ok e digest_of loaded draft actor now s _ h).written in
      rw (ap (λ (out : RuleRecord × Store). out.1) w) (find_rule-append_old id s.rules _ r f)
  Step-retired {s} id r (amend loaded other draft actor now found h) f d =
      let a = amend_rule-ok e digest_of loaded other draft actor now s _ h in
      elim (same_or_other s id other r a.found f a.was_read) [
        | inl same ↦ absurd (live-retired a.found.rule r a.live same d)
        | inr ne ↦
            rw (ap (λ (out : RuleRecord × Store). out.1) a.written)
              (find_rule-update_ne id _ s.rules ne ∙ f)
      ]
  Step-retired {s} id r (move other to actor now found h) f d =
      let m = move_rule-ok other to actor now s _ h in
      elim (same_or_other s id other r m.found f m.was_read) [
        | inl same ↦ absurd (legal-retired m.found.rule r to m.legal same d)
        | inr ne ↦
            rw (ap (λ (out : RuleRecord × Store). out.1) m.written)
              (find_rule-update_ne id _ s.rules ne ∙ f)
      ]

  -- Retirement is final: the row of a retired rule is the same after any requests.
  pub retired_is_final :
      {s t : Store} (id : ℕ) (r : Rule)
      → Reach s t
      → find_rule id s.rules ≡ some r
      → r.status ≡ retired
      → find_rule id t.rules ≡ some r
  retired_is_final id r here f d = f
  retired_is_final id r (next before step) f d =
      Step-retired id r step (retired_is_final id r before f d) d
