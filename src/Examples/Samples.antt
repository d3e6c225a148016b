-- ===== src/Examples/Samples.antt =====
-- A mailbox of one thread, a capability, and the rows of one archive action and one move.
use timmeny_admin_os.Common.{
  String, Bool, true, false, not, Option, none, some, List, [], ◌∷◌, ◌++◌, keep, elem,
  if◌then◌else◌, str, arr, end, member, entries, ok, raised,
}
use timmeny_admin_os.Capabilities.{
  gmail_archive, gmail_move, gmail_draft_reply, gmail_send_draft, collect_evidence, recommend,
  await_decision, prepare_actions, execute_approved, verify,
}
use timmeny_admin_os.Capabilities.Config.{CapabilityConfig, capability, inbox}
use timmeny_admin_os.Actions.Rows.{
  prepared, executed, ItemState, ReviewAction, ReviewItem, approve, ReviewDecision, human,
}
use timmeny_admin_os.Actions.Mail.{GmailDraft, GmailClient}
use timmeny_admin_os.Actions.Lifecycle.{Work}

-- The thread's labels, and whether the user still has the label `Receipts`.
pub record Mailbox : Type 0 where
  pub labels : List String
  pub has_receipts : Bool

abbrev without : List String → List String → List String
without gone labels = keep (λ l. not (elem l gone)) labels

abbrev no_draft : Option GmailDraft
no_draft = none

abbrev pub gmail : GmailClient Mailbox
gmail = record {
  resolve_label_id = λ name m. (ok (if m.has_receipts then some name else none), m);
  fetch_thread = λ thread m. (ok record { label_ids = m.labels }, m);
  modify_thread = λ thread add gone m. (ok tt, record m { labels = without gone m.labels ++ add });
  trash_thread = λ thread m. (ok tt, record m { labels = "TRASH" ∷ m.labels });
  untrash_thread = λ thread m. (ok tt, record m { labels = without ("TRASH" ∷ []) m.labels });
  create_draft = λ thread to subject body cc m. (raised "no drafts here", m);
  fetch_draft = λ draft m. (ok no_draft, m);
  find_draft_for_thread = λ thread m. (ok no_draft, m);
  send_draft = λ draft m. (raised "no drafts here", m);
}

-- The same, where the label is deleted while the thread is being moved.
abbrev pub vanishing : GmailClient Mailbox
vanishing = record gmail {
  modify_thread = λ thread add gone m.
      (ok tt, record { labels = without gone m.labels ++ add; has_receipts = false });
}

-- The same, with the draft that was reviewed.
abbrev pub drafting : GmailClient Mailbox
drafting = record gmail {
  fetch_draft =
      λ draft m. (ok (some record { draft_id = draft; message_id = "M"; thread_id = "t1" }), m);
  send_draft = λ draft m. (ok (some "S"), record m { labels = "SENT" ∷ m.labels });
}

abbrev pub inboxed : Mailbox
inboxed = record { labels = "INBOX" ∷ []; has_receipts = true }

abbrev pub archived : Mailbox
archived = record { labels = []; has_receipts = true }

abbrev pub mail : CapabilityConfig
mail = record {
  key = "mail";
  name = "Mail";
  enabled = true;
  position = 1;
  mailbox = inbox;
  destinations = "Receipts" ∷ [];
  playbook = record {
    id = "standard";
    steps =
        collect_evidence ∷ recommend ∷ await_decision ∷ prepare_actions ∷ execute_approved ∷ verify
        ∷ [];
  };
  recommendation_policy = record {
    version = "1";
    default = "needs_review";
    categories = "receipt" ∷ [];
    rules =
        record {
          id = "receipts";
          when = record {
            subject_contains = "receipt" ∷ [];
            participant_domains = [];
            participants = [];
            older_than_days = none;
            newer_than_days = none;
          };
          recommend = "gmail.move";
          move_to = some "Receipts";
          confidence = 80;
          rationale = "A receipt";
          aligns_with = [];
        }
        ∷ [];
    allow_ai_recommendation = true;
    min_ai_confidence = 80;
  };
  allowed_actions = gmail_archive ∷ gmail_move ∷ gmail_draft_reply ∷ gmail_send_draft ∷ [];
  approval = record {
    auto_approve = gmail_archive ∷ [];
    min_confidence_for_auto = 90;
    allow_bulk_decisions = true;
  };
  execution = record {
    permitted_actions = gmail_archive ∷ gmail_move ∷ gmail_draft_reply ∷ gmail_send_draft ∷ [];
    require_verification = true;
  };
  completion = record { require_all_items_decided = true; require_executed_actions = true };
  learning = record {
    scope = capability;
    record_decisions = true;
    allow_rule_learning = true;
    allow_automatable_rules = true;
  };
  objectives = record { default_keys = "O1" ∷ []; require_alignment = false };
}

abbrev pub offer : ReviewItem
offer = record {
  id = "i1";
  run_id = "r1";
  group_id = "g1";
  evidence_id = "e1";
  source_thread_id = "t1";
  evidence_hash = some "h1";
  subject = some "An offer";
  participants = some ("ann@shop.example" ∷ []);
  received_at = some 1;
  state = ItemState.approved;
  recommendation = "gmail.archive";
  recommendation_source = "policy";
  recommendation_confidence = 80;
  recommendation_rationale = none;
  recommendation_params = none;
  policy_version = "1";
  rule_id = none;
  model_version = none;
  category = none;
  objective_keys = some ("O1" ∷ []);
  approved_action = some gmail_archive;
  approved_params = none;
  created_at = 1;
  decided_at = some 2;
}

abbrev pub agreement : ReviewDecision
agreement = record {
  id = "x";
  run_id = "r1";
  item_id = "i1";
  capability_key = "mail";
  decision = approve;
  action = some gmail_archive;
  action_params = some end;
  followed_recommendation = true;
  recommendation = "gmail.archive";
  actor = "human";
  batch_id = none;
  learning_scope = capability;
  note = none;
  created_at = 3;
}

abbrev pub archive_action : ReviewAction
archive_action = record {
  id = "a1";
  run_id = "r1";
  item_id = "i1";
  capability_key = "mail";
  action_kind = gmail_archive;
  state = prepared;
  params = end;
  prepared_params =
      some
        (member "remove_labels" (arr (entries ("INBOX" ∷ []))) (member "thread_id" (str "t1") end));
  idempotency_key = "k1";
  target_thread_id = "t1";
  approval_kind = human;
  approved_by = "human";
  rule_id = none;
  attempts = 0;
  external_kind = none;
  external_ref = none;
  last_error = none;
  verification = none;
  prepared_at = some 1;
  executed_at = none;
  verified_at = none;
  completed_at = none;
  failed_at = none;
}

abbrev pub move_action : ReviewAction
move_action = record archive_action {
  action_kind = gmail_move;
  params = member "label" (str "Receipts") end;
  prepared_params = some (member "thread_id" (str "t1") (member "label" (str "Receipts") end));
}

abbrev pub send_action : ReviewAction
send_action = record archive_action {
  action_kind = gmail_send_draft;
  prepared_params = some (member "draft_id" (str "D") (member "draft_message_id" (str "M") end));
}

abbrev pub first_try : Work Mailbox
first_try = record { action = archive_action; items = offer ∷ []; events = []; mailbox = inboxed }

-- An execution that was cut off after its write.
abbrev pub second_try : Work Mailbox
second_try = record {
  action = record archive_action { state = executed; attempts = 1 };
  items = offer ∷ [];
  events = [];
  mailbox = archived;
}

abbrev pub moving : Work Mailbox
moving = record { action = move_action; items = offer ∷ []; events = []; mailbox = inboxed }
