-- ===== src/Lib.antt =====
-- The core of timmeny-admin-os: how a rule comes to match mail and to shape a review, how the
-- review is filled, planned, decided and a session worked, and how an approved action is carried
-- out against Gmail and checked.
--
-- The parts and how they meet. A rule (adminos/domain/rulebook.py) matches an email by a tree of
-- conditions (adminos/domain/conditions.py) and recommends one thing; the store of rules
-- (adminos/domain/rulebook_store.py) records its versions and the moves of its status, and asks
-- the configuration of the capability (adminos/capabilities/config.py) what it may recommend. The
-- plan of a review (adminos/domain/plan.py) says in which order the capabilities' groups are
-- worked. A review (adminos/domain/review.py) fills its groups with rows, each with a
-- recommendation of the policy or of a learned rule (adminos/domain/rules.py), and takes a
-- decision on each, from which rules are learned (adminos/domain/learning.py). An approved row
-- becomes an action (adminos/domain/actions.py), which asks the same configuration at every step
-- whether it is still allowed, and Gmail whether it has happened; a request to execute
-- (adminos/api/actions.py) must restate what was prepared (adminos/domain/scopes.py).
--
-- Conditions: adminos/domain/conditions.py. Conditions/Fields has FIELDS, the operators, `Facts`
--   and the record `Engine`, which holds what the standard library provides: floats, `casefold`
--   and regular expressions. Conditions/Leaf is `Condition` with its `narrows` and `test`;
--   Conditions/Tree is `ConditionGroup` (`run_group` is its `test`) and `check_breadth`;
--   Conditions/Facts is `email_facts`.
-- Capabilities: adminos/capabilities/config.py. Capabilities/Granted has the closed lists
--   (`ActionKind`, `PlaybookStep`, the aliases), Capabilities/Config the record `CapabilityConfig`
--   and its validators; `check_permissions` is `check_permissions_cover_every_action`. Confidences
--   are natural numbers on a fixed scale, since they are only compared.
-- Rulebook: adminos/domain/rulebook.py in Rulebook/Types, Rulebook/Standing (`RuleStatus`,
--   `check_transition`) and Rulebook/Draft (`read_draft` is what reading a `RuleDraft` checks,
--   then `check_draft`; the records are in its child Parts); adminos/domain/rulebook_store.py in
--   Rulebook/Store, over the tables of Rulebook/Store/Tables. Row identities are counted from 0;
--   the digest of a draft is a parameter.
-- Actions: adminos/domain/actions.py. Actions/Rows has the rows, states and events of
--   adminos/db/models.py; Actions/Mail the Gmail client, a record of functions over a mailbox of
--   any type; Actions/Params the `prepare` halves; Actions/Executors the `execute` and `verify`
--   halves; Actions/Lifecycle, with its child Checks, `prepare_action`, `execute_action` and
--   `verify_action` over the state `Work` (the action, the items, the events, the mailbox);
--   Actions/Approvals `ensure_actions` and, in its child Sends, `authorise_send`. An exception
--   that leaves an operation is a result that comes with the state that was reached.
-- The order of a review: adminos/domain/plan.py. Plan/Arrange has `arrange` and `set_aside`,
--   Plan/Begin the rows of `review_plans` and the operations on them, Plan/Standing the counts of
--   the summary.
-- Sessions: adminos/domain/sessions.py. Sessions has the operations that begin and advance a
--   session, over the state `Desk` (the session, the activities, the plans), with `known_activity`
--   of adminos/domain/activities.py, the states of the review runs being an argument;
--   Sessions/Opening has `open_session`, which opens the email review with it, and
--   `continue_session`. The playbook is an argument, of the records of adminos/domain/playbook.py.
-- The review: adminos/domain/review.py. Review/Rows and Review/Reading have the rows and their
--   lookups, Review/Checking `check_decision` with what it calls, Review/Deciding
--   `record_decision` and `decide_group` over the four tables that they write, Review/States and
--   Review/Refreshing `group_state` and `refresh_states`, Review/Policy `evaluate_policy`,
--   `matches` and `record_assessment`, Review/Collecting `populate_group` and
--   `withdraw_out_of_scope`, Review/Opening the rows that opening, continuing and abandoning a
--   review write (`open_fresh`, `continue_review`, `abandon_review`), and Review/Filling
--   `fill_review`, with `open_fresh_review` and `continue_review` whole (`continue_filled`).
-- Learned rules: adminos/domain/rules.py. Candidates/Rows has the rows and their states
--   (`may_become` is TRANSITIONS), Candidates/Match the stored conditions, Candidates/Recording
--   `record_rule`, and Candidates itself `transition_rule` and `read_active_rules`.
-- Learning: adminos/domain/learning.py, over the learning events and the learned rules, which
--   together are `Lessons`. A decision that corrects a recommendation is noticed as a rule there.
-- Scopes: adminos/domain/scopes.py, what was prepared and may be confirmed; Mailboxes:
--   adminos/domain/mailboxes.py, which threads a review reads.
-- Requests: adminos/api/actions.py. Requests/Selecting has the checks before an execution,
--   Requests/Preparing `prepare_actions` (`prepare_run_actions` here), Requests/Executing
--   `execute_actions` and `retry_action`, and Requests/OneAction the rest, over a `World` of the
--   rows and the mailbox; `closed` is the end of the transaction of adminos/db/engine.py, which
--   restores the rows where the request raised.
-- Common has the helpers that all of them use: JSON values, Python's methods of `str`, lists over
--   the native natural numbers, and `Result`, a value or an exception. Examples has runs at
--   concrete inputs.
--
-- Bounds. Every loop is over a list, a text or a tree and is structural, so that no fuel is
-- needed. Times are natural numbers, of seconds where an age in days is computed, and a confidence
-- is a whole number of hundredths. The identity of a new row, the digest of a rule's JSON,
-- `casefold` and `upper` are parameters. A set of Python is a list without repetitions. An
-- exception's wording is left out: the constructors of the problem types say which check it was.
--
-- Not modelled: the storing of playbooks, which are an argument here, the wording that is shown
-- to people, logging, the SQL queries that only list rows, the other HTTP and MCP interfaces, the
-- Gmail and Monday clients, and the modules of adminos/domain that are not named above.
mod Common
pub mod Conditions
pub mod Capabilities
pub mod Rulebook
pub mod Actions
pub mod Plan
pub mod Candidates
pub mod Learning
pub mod Mailboxes
pub mod Review
pub mod Scopes
pub mod Requests
pub mod Sessions
mod Examples
