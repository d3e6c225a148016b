-- ===== src/Actions/Lifecycle/ReadBack.antt =====
-- An action of adminos/domain/actions.py is completed only by reading its effect back.
use timmeny_admin_os.Common.{
  ℕ, ◌+◌, ltb, Bool, true, ◌≡◌, ◌≢◌, refl, sym, Option, none, some, Bool-cases, inl, inr, Result,
  ok, raised,
}
use timmeny_admin_os.Capabilities.{ActionKind}
use timmeny_admin_os.Capabilities.Config.{CapabilityConfig}
use timmeny_admin_os.Actions.Rows.{
  find_item, completed, Fault, gmail_error, refused, ActionError, Failure, not_shown, ReviewAction,
  ReviewItem,
}
use timmeny_admin_os.Actions.Mail.{GmailClient}
use timmeny_admin_os.Actions.Executors.{ExecutionOutcome, VerificationOutcome, execute, verify}
use timmeny_admin_os.Actions.Lifecycle.{
  Work, read_back, read_effect, after_write, write_effect, after_look, attempt, started, run_ready,
  ready, execute_action, mark_executed,
}
use timmeny_admin_os.Actions.Lifecycle.Guards.{ready-some}

-- The same work: what an executor reads of an action, besides the reference that the write returned.
pub record IsSameWork (origin action : ReviewAction) : Type 0 where
  pub same_id : action.id ≡ origin.id
  pub same_item : action.item_id ≡ origin.item_id
  pub same_kind : action.action_kind ≡ origin.action_kind
  pub same_params : action.params ≡ origin.params
  pub same_plan : action.prepared_params ≡ origin.prepared_params
  pub same_thread : action.target_thread_id ≡ origin.target_thread_id

module _ {M : Type 0} (client : GmailClient M) (kind : ActionKind) (origin : ReviewAction)
    (item : ReviewItem) where
  -- The executor of `kind` read the mailbox for the action, in the state of its row at the time and with
  -- the reference that the row still has, and for the item; it found the effect there, and what it saw
  -- was recorded. The mailbox is as that reading left it.
  pub record WasReadBack (w' : Work M) : Type 0 where
    pub reader : ReviewAction
    pub same_work : IsSameWork origin reader
    pub same_reference : reader.external_ref ≡ w'.action.external_ref
    pub before : M
    pub seen : VerificationOutcome
    pub reads : verify client kind reader item before ≡ (ok seen, w'.mailbox)
    pub shows : seen.verified ≡ true
    pub recorded : w'.action.verification ≡ some seen.detail

  read_back-WasReadBack :
      (missing : Failure) (now : ℕ) (w : Work M) (reader : ReviewAction) (before : M)
      (r : Result Fault VerificationOutcome)
      → IsSameWork origin reader
      → w.action.external_ref ≡ reader.external_ref
      → verify client kind reader item before ≡ (r, w.mailbox)
      → w.action.state ≢ completed
      → (read_back missing now w r).1.action.state ≡ completed
      → WasReadBack (read_back missing now w r).1
  unfolding read_back
  read_back-WasReadBack missing now w reader before (raised (gmail_error e)) same reference v n c =
      cc
  read_back-WasReadBack missing now w reader before (raised (refused r)) same reference v n c =
      absurd (n c)
  read_back-WasReadBack missing now w reader before (ok seen) same reference v n c =
      elim (Bool-cases seen.verified) [
        | inl there ↦ rw there (record {
          reader = reader;
          same_work = same;
          same_reference = sym reference;
          before = before;
          seen = seen;
          reads = v;
          shows = there;
          recorded = refl;
        })
        | inr absent ↦ let impossible = rw absent at c in cc
      ]

  module _ (capability : CapabilityConfig) (now : ℕ) where
    -- Neither the count of an attempt nor the record of a write changes what the work is.
    pub begun :
        (w : Work M)
        → IsSameWork origin w.action
        → IsSameWork origin (started client capability now w).action
    begun w same = record {
      same_id = same.same_id;
      same_item = same.same_item;
      same_kind = same.same_kind;
      same_params = same.same_params;
      same_plan = same.same_plan;
      same_thread = same.same_thread;
    }

    pub marked :
        (outcome : ExecutionOutcome) (w : Work M)
        → IsSameWork origin w.action
        → IsSameWork origin (mark_executed outcome now w).action
    marked outcome w same = record {
      same_id = same.same_id;
      same_item = same.same_item;
      same_kind = same.same_kind;
      same_params = same.same_params;
      same_plan = same.same_plan;
      same_thread = same.same_thread;
    }

    read_effect-WasReadBack :
        (missing : Failure) (w : Work M)
        → IsSameWork origin w.action
        → w.action.state ≢ completed
        → (read_effect client capability now missing kind item w).1.action.state ≡ completed
        → WasReadBack (read_effect client capability now missing kind item w).1
    unfolding read_effect
    read_effect-WasReadBack missing w same n c =
        let (r, m) = verify client kind w.action item w.mailbox in
        read_back-WasReadBack missing now (record w { mailbox = m }) w.action w.mailbox r same refl
          refl n c

    after_write-WasReadBack :
        (w : Work M) (r : Result Fault ExecutionOutcome)
        → IsSameWork origin w.action
        → capability.execution.require_verification ≡ true
        → (after_write client capability now kind item w r).1.action.state ≡ completed
        → WasReadBack (after_write client capability now kind item w r).1
    unfolding after_write
    after_write-WasReadBack w (raised f) same q c = cc
    after_write-WasReadBack w (ok outcome) same q c = rw q (
        read_effect-WasReadBack not_shown (mark_executed outcome now w) (marked outcome w same)
          (λ e. cc) (rw q at c))

    write_effect-WasReadBack :
        (w : Work M)
        → IsSameWork origin w.action
        → capability.execution.require_verification ≡ true
        → (write_effect client capability now kind item w).1.action.state ≡ completed
        → WasReadBack (write_effect client capability now kind item w).1
    unfolding write_effect
    write_effect-WasReadBack w same q c =
        let (r, m) = execute client kind w.action item w.mailbox in
        after_write-WasReadBack (record w { mailbox = m }) r same q c

    after_look-WasReadBack :
        (w : Work M) (reader : ReviewAction) (before : M) (r : Result Fault VerificationOutcome)
        → IsSameWork origin w.action
        → IsSameWork origin reader
        → w.action.external_ref ≡ reader.external_ref
        → capability.execution.require_verification ≡ true
        → verify client kind reader item before ≡ (r, w.mailbox)
        → (after_look client capability now kind item w r).1.action.state ≡ completed
        → WasReadBack (after_look client capability now kind item w r).1
    unfolding after_look
    after_look-WasReadBack w reader before (raised f) own same reference q v c = cc
    after_look-WasReadBack w reader before (ok seen) own same reference q v c =
        elim (Bool-cases seen.verified) [
          | inl there ↦ rw there (record {
            reader = reader;
            same_work = same;
            same_reference = sym reference;
            before = before;
            seen = seen;
            reads = v;
            shows = there;
            recorded = refl;
          })
          | inr absent ↦ rw absent (write_effect-WasReadBack w own q (rw absent at c))
        ]

    attempt-WasReadBack :
        (w : Work M)
        → IsSameWork origin w.action
        → capability.execution.require_verification ≡ true
        → (attempt client capability now kind item w).1.action.state ≡ completed
        → WasReadBack (attempt client capability now kind item w).1
    unfolding attempt
    attempt-WasReadBack w same q c =
        let s = started client capability now w in
        elim (Bool-cases (ltb 1 (w.action.attempts + 1))) [
          | inl again ↦
              let (r, m) = verify client kind s.action item s.mailbox in
              rw again (
                after_look-WasReadBack (record s { mailbox = m }) s.action s.mailbox r
                  (begun w same) (begun w same) refl q refl (rw again at c))
          | inr first ↦ rw first (write_effect-WasReadBack s (begun w same) q (rw first at c))
        ]

module _ {M : Type 0} (client : GmailClient M) (capability : CapabilityConfig) (now : ℕ) where
  -- The item of the action was found, and the effect on it was read back.
  abbrev pub IsReadBack : Work M → Work M → Type 0
  IsReadBack w w' =
      (item : ReviewItem) × (find_item w.action.item_id w.items ≡ some item)
      × WasReadBack client w.action.action_kind w.action item w'

  run_ready-WasReadBack :
      (w : Work M) (r : Result ActionError (Option ReviewItem))
      → ((item : ReviewItem) → r ≡ ok (some item) → find_item w.action.item_id w.items ≡ some item)
      → capability.execution.require_verification ≡ true
      → w.action.state ≢ completed
      → (run_ready client capability now w r).1.action.state ≡ completed
      → IsReadBack w (run_ready client capability now w r).1
  unfolding run_ready
  run_ready-WasReadBack w (raised e) found q n c = absurd (n c)
  run_ready-WasReadBack w (ok none) found q n c = absurd (n c)
  run_ready-WasReadBack w (ok (some item)) found q n c = (
    item,
    found item refl,
    attempt-WasReadBack client w.action.action_kind w.action item capability now w
        (record {
          same_id = refl;
          same_item = refl;
          same_kind = refl;
          same_params = refl;
          same_plan = refl;
          same_thread = refl;
        })
        q c,
  )

  -- Where verification is required, an execution that completes the action has found the action's item
  -- in the table and read the mailbox, through the action's executor and for that action and item,
  -- after its last change; it found the effect there, and recorded what it saw.
  pub completed-WasReadBack :
      (write_enabled : Bool) (w : Work M)
      → capability.execution.require_verification ≡ true
      → w.action.state ≢ completed
      → (execute_action client capability now write_enabled w).1.action.state ≡ completed
      → IsReadBack w (execute_action client capability now write_enabled w).1
  unfolding execute_action
  completed-WasReadBack write_enabled w q n c =
      run_ready-WasReadBack w (ready client capability now write_enabled w)
        (λ item admits. (ready-some client capability now write_enabled w item admits).1) q n c
