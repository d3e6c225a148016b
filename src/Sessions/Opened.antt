-- ===== src/Sessions/Opened.antt =====
-- The session that `open_session` of adminos/domain/sessions.py leaves open.
use timmeny_admin_os.Common.{
  ℕ, String, Bool, true, false, ◌&&◌, ◌≡◌, refl, sym, ap, subst, ◌∙◌, ◌⊎◌, inl, inr, arith,
  Bool-cases, Option, none, some, List, [], ◌∷◌, ◌++◌, ◌==◌, eq_refl, elem, all, keep, map, ok,
  >>=-ok, then-ok, refuse_if, refuse_if-ok, ok-injective, if◌then◌else◌,
}
use timmeny_admin_os.Plan.Arrange.Order.{elem-sort_keys}
use timmeny_admin_os.Plan.Begin.{Loaded}
use timmeny_admin_os.Plan.Begin.Agreed.{not_all}
use timmeny_admin_os.Sessions.{
  proposed, AssistantSession, SessionActivity, ActivityConfig, is_under_way, opened_later,
  abandon_session, read_open_session,
}
use timmeny_admin_os.Sessions.Opening.{
  Reviews, Morning, enabled_activities, arrange, sidelined, open_each, new_session, without_open,
  open_session,
}

-- A session of the playbook that is under way.
unfoldable pub is_open_of : String → AssistantSession → Bool
is_open_of playbook_id s = s.playbook_id == playbook_id && is_under_way s.status

some-same : {a b : AssistantSession} → some a ≡ some b → a ≡ b
some-same h = cc

head-same :
    {a b : AssistantSession} {xs : List AssistantSession} → a ∷ xs ≡ b ∷ [] → (a ≡ b) × (xs ≡ [])
head-same h = (cc, cc)

keep-append :
    (p : AssistantSession → Bool) (xs ys : List AssistantSession)
    → keep p (xs ++ ys) ≡ keep p xs ++ keep p ys
keep-append p [] ys = refl
keep-append p (x ∷ xs) ys = elim (Bool-cases (p x)) [
  | inl e ↦ rw e (rw (keep-append p xs ys) refl)
  | inr e ↦ rw e (keep-append p xs ys)
]

module _ (playbook_id : String) where
  read-none :
      (sessions : List AssistantSession)
      → keep (is_open_of playbook_id) sessions ≡ []
      → read_open_session playbook_id sessions ≡ none
  unfolding read_open_session is_open_of
  read-none [] h = refl
  read-none (s ∷ rest) h = elim (Bool-cases (is_open_of playbook_id s)) [
    | inl e ↦ let impossible = rw e at h in cc
    | inr e ↦ rw e (read-none rest (rw e at h))
  ]

  read-only :
      (sessions : List AssistantSession) (r : AssistantSession)
      → keep (is_open_of playbook_id) sessions ≡ r ∷ []
      → read_open_session playbook_id sessions ≡ some r
  unfolding read_open_session is_open_of opened_later
  read-only [] r h = cc
  read-only (s ∷ rest) r h = elim (Bool-cases (is_open_of playbook_id s)) [
    | inl e ↦
        let (same, others) = head-same (rw e at h) in
        rw e (rw (read-none rest others) (ap some same))
    | inr e ↦ rw e (read-only rest r (rw e at h))
  ]

  abandoned-shut :
      (now : ℕ) (s : AssistantSession) → is_open_of playbook_id (abandon_session now s) ≡ false
  unfolding is_open_of is_under_way abandon_session
  abandoned-shut now s = ground arith

  abandoned-none :
      (id : String) (now : ℕ) (sessions : List AssistantSession)
      → keep (is_open_of playbook_id) sessions ≡ []
      → keep
          (is_open_of playbook_id)
          (map (λ s. if s.id == id then abandon_session now s else s) sessions)
        ≡ []
  abandoned-none id now [] h = refl
  abandoned-none id now (s ∷ rest) h = elim (Bool-cases (is_open_of playbook_id s)) [
    | inl e ↦ let impossible = rw e at h in cc
    | inr e ↦ elim (Bool-cases (s.id == id)) [
      | inl own ↦ rw own (rw (abandoned-shut now s) (abandoned-none id now rest (rw e at h)))
      | inr other ↦ rw other (rw e (abandoned-none id now rest (rw e at h)))
    ]
  ]

  abandoned-only :
      (now : ℕ) (sessions : List AssistantSession) (r : AssistantSession)
      → keep (is_open_of playbook_id) sessions ≡ r ∷ []
      → keep
          (is_open_of playbook_id)
          (map (λ s. if s.id == r.id then abandon_session now s else s) sessions)
        ≡ []
  abandoned-only now [] r h = cc
  abandoned-only now (s ∷ rest) r h = elim (Bool-cases (is_open_of playbook_id s)) [
    | inl e ↦
        let (same, others) = head-same (rw e at h) in
        let own : (s.id == r.id) ≡ true = subst (λ t. (s.id == t.id) ≡ true) same (eq_refl s.id) in
        rw own (rw (abandoned-shut now s) (abandoned-none r.id now rest others))
    | inr e ↦ elim (Bool-cases (s.id == r.id)) [
      | inl own ↦ rw own (rw (abandoned-shut now s) (abandoned-only now rest r (rw e at h)))
      | inr other ↦ rw other (rw e (abandoned-only now rest r (rw e at h)))
    ]
  ]

-- At most one session of the playbook is under way.
abbrev pub IsSingleSession : String → List AssistantSession → Type 0
IsSingleSession playbook_id sessions =
    (keep (is_open_of playbook_id) sessions ≡ [])
    ⊎ ((r : AssistantSession) × (keep (is_open_of playbook_id) sessions ≡ r ∷ []))

-- The session that was opened waits to begin, is the only one under way, has work to do, and names the
-- one that it replaced.
pub record IsOpened (playbook_id : String) (sessions : List AssistantSession)
    (row : AssistantSession) (after : List AssistantSession) : Type 0 where
  pub waits : row.status ≡ proposed
  pub alone : keep (is_open_of playbook_id) after ≡ row ∷ []
  pub works : (key : String) × (elem key row.sequence ≡ true) × (elem key row.skipped ≡ false)
  pub replaces :
      (old : AssistantSession)
      → read_open_session playbook_id sessions ≡ some old
      → row.supersedes_session_id ≡ some old.id

module _ (loaded : Loaded) (playbook : List ActivityConfig) (morning : Morning) where
  without_open-none :
      (playbook_id : String) (sessions : List AssistantSession)
      → IsSingleSession playbook_id sessions
      → keep
          (is_open_of playbook_id)
          (without_open loaded playbook morning (read_open_session playbook_id sessions) sessions)
        ≡ []
  unfolding without_open
  without_open-none playbook_id sessions (inl idle) = rw (read-none playbook_id sessions idle) idle
  without_open-none playbook_id sessions (inr (r, one)) =
      rw (read-only playbook_id sessions r one)
        (abandoned-only playbook_id morning.now sessions r one)

  new_session-open :
      (id playbook_id revision_id : String) (sequence aside : List String)
      (superseded : Option AssistantSession)
      → is_open_of playbook_id
          (new_session loaded playbook morning id playbook_id revision_id sequence aside superseded)
        ≡ true
  unfolding is_open_of new_session is_under_way
  new_session-open id playbook_id revision_id sequence aside superseded =
      rw (eq_refl playbook_id) refl

  new_session-IsOpened :
      (id playbook_id revision_id : String) (sequence aside : List String)
      (sessions : List AssistantSession)
      → IsSingleSession playbook_id sessions
      → all (λ key. elem key aside) sequence ≡ false
      → IsOpened playbook_id sessions
          (new_session loaded playbook morning id playbook_id revision_id sequence aside
            (read_open_session playbook_id sessions))
          (without_open loaded playbook morning (read_open_session playbook_id sessions) sessions
            ++ new_session loaded playbook morning id playbook_id revision_id sequence aside
                (read_open_session playbook_id sessions)
              ∷ [])
  unfolding new_session
  new_session-IsOpened id playbook_id revision_id sequence aside sessions single works =
      let old = read_open_session playbook_id sessions in
      let (key, held, kept) = not_all (λ k. elem k aside) sequence works in
      record {
        waits = refl;
        alone =
            keep-append (is_open_of playbook_id) (without_open loaded playbook morning old sessions)
              _
            ∙ rw (without_open-none playbook_id sessions single)
                (rw (new_session-open id playbook_id revision_id sequence aside old) refl);
        works = (key, held, elem-sort_keys key aside ∙ kept);
        replaces = λ r is. rw is refl;
      }

  -- Where at most one session of the playbook is under way and `open_session` returns, the session
  -- that it opened waits to begin, is the only one of the playbook under way, has an activity that is
  -- not set aside, and names the session that it replaced.
  pub open_session-IsOpened :
      (id playbook_id revision_id : String) (order only skip : Option (List String))
      (sessions after : List AssistantSession) (activities made : List SessionActivity)
      (reviews opened : Reviews) (row : AssistantSession)
      → IsSingleSession playbook_id sessions
      → open_session loaded playbook morning id playbook_id revision_id order only skip sessions
          activities reviews
        ≡ ok (row, after, made, opened)
      → IsOpened playbook_id sessions row after
  unfolding open_session
  open_session-IsOpened id playbook_id revision_id order only skip sessions after activities made
        reviews opened row single h =
      let configured = map (λ a. a.activity_key) (enabled_activities playbook) in
      let (sequence, arranged, more) = >>=-ok (arrange configured order) _ h in
      let (aside, sidelined_so, more) = >>=-ok (sidelined configured sequence only skip) _ more in
      let (works, more) = then-ok (refuse_if _ _) _ more in
      let (filled, each, made_so) =
        >>=-ok (open_each loaded playbook morning id aside 1 sequence ([], reviews)) _ more in
      let same = ok-injective made_so in
      subst (λ p. IsOpened playbook_id sessions p.0 p.1) (sym same)
        (new_session-IsOpened id playbook_id revision_id sequence aside sessions single
          (refuse_if-ok _ _ works))
