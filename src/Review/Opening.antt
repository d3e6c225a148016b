-- ===== src/Review/Opening.antt =====
-- How a review of a day is opened, set aside and continued (adminos/domain/review.py). A day is a number,
-- and `run_id` the identity that the database gives the new run.
use timmeny_admin_os.Common.{
  ℕ, suc, String, Bool, true, false, not, ◌&&◌, Option, none, some, List, [], ◌∷◌, ◌++◌, ◌==◌,
  if◌then◌else◌, any, keep, map, order_by, leb, nat_eqb, max, Result, ok, raised,
}
use timmeny_admin_os.Actions.Rows.{ReviewDecision}
use timmeny_admin_os.Plan.Begin.{Loaded, human_actor}
use timmeny_admin_os.Review.Rows.{not_started, abandoned, ReviewRun, is_abandoned}
use timmeny_admin_os.Review.States.{is_run_completed}
use timmeny_admin_os.Scopes.{ActionScope, supersede_open_scopes}

-- What a review is of: the day, the channel and the scope by name.
pub record Subject : Type 0 where
  pub day : ℕ
  pub channel : String
  pub scope_name : String

unfoldable pub is_of : Subject → ReviewRun → Bool
is_of subject run =
    nat_eqb run.review_date subject.day
    && run.channel == subject.channel
    && run.scope_name == subject.scope_name

-- The reviews of the subject that nobody abandoned.
unfoldable pub live : Subject → ReviewRun → Bool
unfolding is_of is_abandoned
live subject run = is_of subject run && not (is_abandoned run.state)

unfoldable pub first_run : List ReviewRun → Option ReviewRun
first_run [] = none
first_run (r ∷ rest) = some r

-- `ORDER BY revision DESC LIMIT 1`.
unfoldable pub read_current_review : Subject → List ReviewRun → Option ReviewRun
unfolding live first_run
read_current_review subject runs =
    first_run (order_by (λ a b. leb b.revision a.revision) (keep (live subject) runs))

-- The highest revision of the subject, abandoned or not, or 0.
unfoldable pub highest : Subject → List ReviewRun → ℕ
unfolding is_of
highest subject [] = 0
highest subject (r ∷ rest) =
    let others = highest subject rest in if is_of subject r then max r.revision others else others

unfoldable pub next_revision : Subject → List ReviewRun → ℕ
unfolding highest
next_revision subject runs = suc (highest subject runs)

-- `now` where it is absent.
abbrev moment_or : Option ℕ → ℕ → ℕ
moment_or none now = now
moment_or (some t) now = t

unfoldable pub new_run :
    Loaded → Subject → String → ℕ → Option ℕ → Option ReviewRun → List ReviewRun → ReviewRun
unfolding next_revision
new_run loaded subject run_id now refreshed superseded runs = record {
  id = run_id;
  review_date = subject.day;
  channel = subject.channel;
  scope_name = subject.scope_name;
  revision = next_revision subject runs;
  state = not_started;
  config_version = loaded.version;
  config_digest = loaded.digest;
  started_at = now;
  completed_at = none;
  abandoned_at = none;
  evidence_refresh_at = refreshed;
  snapshot_at = some (moment_or refreshed now);
  supersedes_run_id = elim superseded [ none ↦ none | some r ↦ some r.id ];
}

unfoldable pub open_review :
    Loaded
    → Subject
    → String
    → ℕ
    → Option ℕ
    → Option ReviewRun
    → List ReviewRun
    → ReviewRun × List ReviewRun
unfolding new_run
open_review loaded subject run_id now refreshed superseded runs =
    let run = new_run loaded subject run_id now refreshed superseded runs in (run, runs ++ run ∷ [])

-- The row of this identity is abandoned, and the scopes that stand open in it are superseded.
unfoldable pub abandoned_row : String → ℕ → ReviewRun → ReviewRun
abandoned_row id now run =
    if run.id == id then record run { state = abandoned; abandoned_at = some now } else run

unfoldable pub abandon_review :
    ReviewRun → ℕ → List ReviewRun → List ActionScope → List ReviewRun × List ActionScope
unfolding abandoned_row supersede_open_scopes
abandon_review run now runs scopes =
    (map (abandoned_row run.id now) runs, supersede_open_scopes run.id none none scopes)

unfoldable pub set_aside :
    Option ReviewRun → ℕ → List ReviewRun → List ActionScope → List ReviewRun × List ActionScope
unfolding abandon_review
set_aside none now runs scopes = (runs, scopes)
set_aside (some run) now runs scopes = abandon_review run now runs scopes

-- `open_fresh_review`, up to the filling of the review that it opens.
unfoldable pub open_fresh :
    Loaded
    → Subject
    → String
    → ℕ
    → Option ℕ
    → List ReviewRun
    → List ActionScope
    → ReviewRun × List ReviewRun × List ActionScope
unfolding read_current_review set_aside open_review
open_fresh loaded subject run_id now refreshed runs scopes =
    let superseded = read_current_review subject runs in
    let (left, disarmed) = set_aside superseded now runs scopes in
    let (run, opened) = open_review loaded subject run_id now refreshed superseded left in
    (run, opened, disarmed)

unfoldable pub was_worked : String → List ReviewDecision → Bool
was_worked run_id decisions = any (λ d. d.run_id == run_id && d.actor == human_actor) decisions

unfoldable pub is_finished_with : ReviewRun → List ReviewDecision → Bool
unfolding is_abandoned is_run_completed was_worked
is_finished_with run decisions =
    if is_abandoned run.state
    then true
    else if not (is_run_completed run.state)
    then false
    else was_worked run.id decisions

pub data OpeningProblem : Type 0 where
  nothing_to_continue : OpeningProblem
  review_closed : ReviewRun → OpeningProblem

resumable : List ReviewDecision → Option ReviewRun → Result OpeningProblem ReviewRun
unfolding is_finished_with
resumable decisions none = raised nothing_to_continue
resumable decisions (some run) =
    if is_finished_with run decisions then raised (review_closed run) else ok run

-- `continue_review`, up to the filling of the review that it finds.
unfoldable pub continue_review :
    Subject → List ReviewRun → List ReviewDecision → Result OpeningProblem ReviewRun
unfolding read_current_review resumable
continue_review subject runs decisions = resumable decisions (read_current_review subject runs)
