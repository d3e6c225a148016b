-- ===== src/Examples/Mornings.antt =====
-- A session of an email review and a closeout.
use timmeny_admin_os.Capabilities.Config.{allows}
use timmeny_admin_os.Common.{
  raised, inr, String, true, ◌≡◌, refl, Option, none, some, List, [], ◌∷◌, ok,
}
use timmeny_admin_os.Plan.Begin.{Loaded}
use timmeny_admin_os.Sessions.{
  proposed, pending, SessionActivity, ActivityConfig, RunState, Desk, AssistantSession,
  begin_activity, is_under_way,
}
use timmeny_admin_os.Sessions.Beginning.{IsBegun, begin_activity-IsBegun}
use timmeny_admin_os.Mailboxes.{inbox_scope}
use timmeny_admin_os.Sessions.Opening.{Reviews, Morning, open_session}
use timmeny_admin_os.Sessions.Opened.{is_open_of, IsSingleSession, IsOpened, open_session-IsOpened}
use timmeny_admin_os.Examples.Samples.{mail}

abbrev loaded : Loaded
loaded = record { capabilities = mail ∷ []; version = "v1"; digest = "d"; channel = "email" }

abbrev playbook : List ActivityConfig
playbook =
    record {
      activity_key = "email_review";
      label = "Email";
      enabled = true;
      order = 1;
      intro = "";
      steps = record { capability_key = "mail"; enabled = true; order = 1 } ∷ [];
    }
    ∷ []

abbrev runs : String → Option RunState
runs run_id = some RunState.in_progress

abbrev email : SessionActivity
email = record {
  session_id = "s1";
  activity_key = "email_review";
  label = "Email";
  position = 1;
  state = pending;
  intro = none;
  steps = "mail" ∷ [];
  run_id = some "r1";
  started_at = none;
  completed_at = none;
}

abbrev closeout : SessionActivity
closeout = record email {
  activity_key = "session_closeout";
  position = 2;
  steps = [];
  run_id = none;
}

abbrev morning : Desk
morning = record {
  row = record {
    id = "s1";
    playbook_id = "p";
    playbook_revision_id = "v1";
    status = proposed;
    sequence = "email_review" ∷ "session_closeout" ∷ [];
    skipped = [];
    current_activity_key = none;
    opened_at = 1;
    begun_at = none;
    completed_at = none;
    abandoned_at = none;
    supersedes_session_id = none;
  };
  activities = closeout ∷ email ∷ [];
  plans = [];
}

begins : (begin_activity loaded playbook runs "email_review" 2 morning).0 ≡ ok tt
unfolding begin_activity
begins = refl

begin_activity-IsBegun_example :
    IsBegun "email_review" morning (begin_activity loaded playbook runs "email_review" 2 morning).1
begin_activity-IsBegun_example =
    begin_activity-IsBegun loaded playbook runs "email_review" 2 morning begins

-- The next wake-up, at which that session is set aside.
abbrev wake : Morning
wake = record {
  fold = λ s. s;
  fresh = record { group = λ groups. "g2"; item = λ items. "i1"; decision = λ decisions. "d1" };
  run_id = "r2";
  now = 9;
  subject = record { day = 20; channel = "email"; scope_name = "inbox" };
  scope = inbox_scope;
  refreshed = none;
  evidence = [];
  rules = [];
  actions = [];
}

abbrev no_reviews : Reviews
no_reviews = record {
  runs = [];
  scopes = [];
  plans = [];
  sheet = record { groups = []; items = []; decisions = [] };
}

abbrev woken : AssistantSession × List AssistantSession × List SessionActivity × Reviews
woken =
    elim (open_session loaded playbook wake "s2" "p" "v2" none none none (morning.row ∷ [])
      morning.activities no_reviews) [ ok r ↦ r | raised e ↦ (morning.row, [], [], no_reviews) ]

opens :
    open_session loaded playbook wake "s2" "p" "v2" none none none
      (morning.row ∷ [])
      morning.activities
      no_reviews
    ≡ ok woken
unfolding open_session allows
opens = refl

one_session : IsSingleSession "p" (morning.row ∷ [])
unfolding is_open_of is_under_way
one_session = inr (morning.row, refl)

open_session-IsOpened_example : IsOpened "p" (morning.row ∷ []) woken.0 woken.1
open_session-IsOpened_example =
    open_session-IsOpened loaded playbook wake "s2" "p" "v2" none none none (morning.row ∷ [])
      woken.1 morning.activities woken.2 no_reviews woken.3 woken.0 one_session opens
