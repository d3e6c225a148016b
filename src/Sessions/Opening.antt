-- ===== src/Sessions/Opening.antt =====
-- `open_session` and `continue_session` of adminos/domain/sessions.py. The sentences of
-- `describe_overrides` are left out, and the views. Nothing is kept of an opening that raises.
use timmeny_admin_os.Common.{
  ℕ, suc, String, Bool, true, false, not, ◌&&◌, Option, none, some, List, [], ◌∷◌, ◌++◌, ◌==◌,
  if◌then◌else◌, all, elem, keep, map, is_empty, sort_by, Result, ok, raised, ◌>>=◌, ◌>>◌,
  refuse_if,
}
use timmeny_admin_os.Actions.Rows.{ReviewAction}
use timmeny_admin_os.Candidates.{CandidateRule}
use timmeny_admin_os.Mailboxes.{ReviewScope}
use timmeny_admin_os.Plan.Arrange.{dedupe, sort_keys, or_none, named_first}
use timmeny_admin_os.Plan.Begin.{ReviewPlan, Loaded}
use timmeny_admin_os.Scopes.{ActionScope}
use timmeny_admin_os.Review.Rows.{ReviewRun}
use timmeny_admin_os.Review.Policy.{Evidence}
use timmeny_admin_os.Review.Collecting.{Fresh, Sheet}
use timmeny_admin_os.Review.Opening.{Subject}
use timmeny_admin_os.Review.Filling.{FillingProblem, Filled, open_fresh_review}
use timmeny_admin_os.Sessions.{
  proposed, SessionProblem, nothing_to_do, no_session, not_in_playbook, review_failed,
  AssistantSession, SessionActivity, ActivityState, StepConfig, ActivityConfig, Availability, built,
  planned, email_activity, known_activity, is_pending, find_configured, abandon_session,
  read_open_session,
}

-- `PlaybookDocument.enabled` and `ActivityConfig.enabled_steps`.
unfoldable pub enabled_activities : List ActivityConfig → List ActivityConfig
enabled_activities playbook = sort_by (λ a. a.order) (keep (λ a. a.enabled) playbook)

unfoldable pub enabled_steps : ActivityConfig → List StepConfig
enabled_steps activity = sort_by (λ s. s.order) (keep (λ s. s.enabled) activity.steps)

unfoldable pub activity_state : Availability → Bool → ActivityState
activity_state kind true = ActivityState.skipped
activity_state built false = ActivityState.pending
activity_state planned false = ActivityState.unavailable

unfoldable pub check_known : List String → List String → Result SessionProblem (Unit {0})
check_known configured named =
    let unknown = keep (λ key. not (elem key configured)) named in
    refuse_if (not (is_empty unknown)) (not_in_playbook unknown)

unfoldable pub arrange : List String → Option (List String) → Result SessionProblem (List String)
unfolding check_known named_first
arrange configured order =
    if is_empty (or_none order)
    then ok configured
    else check_known configured (or_none order) >> ok (named_first configured (or_none order))

unfoldable pub sidelined :
    List String
    → List String
    → Option (List String)
    → Option (List String)
    → Result SessionProblem (List String)
unfolding check_known dedupe
sidelined configured sequence only skip =
    if not (is_empty (or_none only))
    then check_known configured (or_none only)
      >> ok (dedupe (keep (λ key. not (elem key (or_none only))) sequence))
    else if not (is_empty (or_none skip))
    then check_known configured (or_none skip) >> ok (dedupe (or_none skip))
    else ok []

-- The rows of the reviews.
pub record Reviews : Type 0 where
  pub runs : List ReviewRun
  pub scopes : List ActionScope
  pub plans : List ReviewPlan
  pub sheet : Sheet

-- What `open_fresh_review` is called with, and the rows that it only reads.
pub record Morning : Type 0 where
  pub fold : String → String
  pub fresh : Fresh
  pub run_id : String
  pub now : ℕ
  pub subject : Subject
  pub scope : ReviewScope
  pub refreshed : Option ℕ
  pub evidence : List Evidence
  pub rules : List CandidateRule
  pub actions : List ReviewAction

unfoldable pub started_review :
    Result FillingProblem (List ReviewRun × List ActionScope × Filled)
    → Result SessionProblem (String × Reviews)
started_review (raised e) = raised (review_failed e)
started_review (ok (runs, scopes, filled)) = ok (
  filled.view.run.id,
  record { runs = runs; scopes = scopes; plans = filled.plans; sheet = filled.sheet },
)

module _ (loaded : Loaded) (playbook : List ActivityConfig) (morning : Morning) where
  unfoldable pub start_review : Reviews → Result SessionProblem (String × Reviews)
  unfolding started_review open_fresh_review
  start_review reviews = started_review (
      open_fresh_review morning.fold morning.fresh morning.now loaded morning.subject morning.scope
        morning.refreshed morning.evidence morning.rules morning.actions reviews.plans
        morning.run_id reviews.runs reviews.scopes reviews.sheet)

  unfoldable pub new_activity :
      String → List String → ℕ → ActivityConfig → Availability → SessionActivity
  unfolding activity_state enabled_steps
  new_activity session_id aside position configured kind = record {
    session_id = session_id;
    activity_key = configured.activity_key;
    label = configured.label;
    position = position;
    state = activity_state kind (elem configured.activity_key aside);
    intro = some configured.intro;
    steps = map (λ s. s.capability_key) (enabled_steps configured);
    run_id = none;
    started_at = none;
    completed_at = none;
  }

  -- The email review is opened with its activity.
  unfoldable pub add_activity :
      SessionActivity
      → List SessionActivity × Reviews
      → Result SessionProblem (List SessionActivity × Reviews)
  unfolding start_review is_pending
  add_activity activity (made, reviews) =
      if activity.activity_key == email_activity && is_pending activity.state
      then (start_review reviews >>= λ started.
          ok (made ++ record activity { run_id = some started.0 } ∷ [], started.1))
      else ok (made ++ activity ∷ [], reviews)

  open_known :
      String
      → List String
      → ℕ
      → Option ActivityConfig
      → Option Availability
      → List SessionActivity × Reviews
      → Result SessionProblem (List SessionActivity × Reviews)
  unfolding new_activity add_activity
  open_known session_id aside position (some configured) (some kind) made =
      add_activity (new_activity session_id aside position configured kind) made
  open_known session_id aside position _ _ made = ok made

  -- The loop of `open_session`.
  unfoldable pub open_each :
      String
      → List String
      → ℕ
      → List String
      → List SessionActivity × Reviews
      → Result SessionProblem (List SessionActivity × Reviews)
  unfolding open_known known_activity
  open_each session_id aside position [] made = ok made
  open_each session_id aside position (key ∷ keys) made =
      open_known session_id aside position (find_configured key playbook) (known_activity key) made
      >>= λ after. open_each session_id aside (suc position) keys after

  unfoldable pub new_session :
      String
      → String
      → String
      → List String
      → List String
      → Option AssistantSession
      → AssistantSession
  unfolding sort_keys
  new_session id playbook_id revision_id sequence aside superseded = record {
    id = id;
    playbook_id = playbook_id;
    playbook_revision_id = revision_id;
    status = proposed;
    sequence = sequence;
    skipped = sort_keys aside;
    current_activity_key = none;
    opened_at = morning.now;
    begun_at = none;
    completed_at = none;
    abandoned_at = none;
    supersedes_session_id = elim superseded [ none ↦ none | some s ↦ some s.id ];
  }

  unfoldable pub without_open :
      Option AssistantSession → List AssistantSession → List AssistantSession
  unfolding abandon_session
  without_open none sessions = sessions
  without_open (some old) sessions =
      map (λ s. if s.id == old.id then abandon_session morning.now s else s) sessions

  unfoldable pub open_session :
      String
      → String
      → String
      → Option (List String)
      → Option (List String)
      → Option (List String)
      → List AssistantSession
      → List SessionActivity
      → Reviews
      → Result SessionProblem
          (AssistantSession × List AssistantSession × List SessionActivity × Reviews)
  unfolding read_open_session arrange enabled_activities sidelined open_each new_session
      without_open
  open_session id playbook_id revision_id order only skip sessions activities reviews =
      let superseded = read_open_session playbook_id sessions in
      let configured = map (λ a. a.activity_key) (enabled_activities playbook) in
      do
        sequence ← arrange configured order
        aside ← sidelined configured sequence only skip
        refuse_if (all (λ key. elem key aside) sequence) nothing_to_do
        made ← open_each id aside 1 sequence ([], reviews)
        let row = new_session id playbook_id revision_id sequence aside superseded
        ok (row, without_open superseded sessions ++ row ∷ [], activities ++ made.0, made.1)

-- `continue_session`, up to the view of the session that it finds.
unfoldable pub continue_session :
    String → List AssistantSession → Result SessionProblem AssistantSession
unfolding read_open_session
continue_session playbook_id sessions = elim (read_open_session playbook_id sessions) [
  | none ↦ raised no_session
  | some row ↦ ok row
]
