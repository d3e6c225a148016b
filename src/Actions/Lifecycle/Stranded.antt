-- ===== src/Actions/Lifecycle/Stranded.antt =====
-- How an execution of adminos/domain/actions.py can raise after it has begun.
use timmeny_admin_os.Common.{
  ℕ, ◌+◌, ltb, Bool, true, ◌≡◌, refl, sym, ap, ◌∙◌, ◌⊎◌, inl, inr, Option, none, some, Bool-cases,
  Result, ok, raised,
}
use timmeny_admin_os.Capabilities.{ActionKind}
use timmeny_admin_os.Capabilities.Config.{CapabilityConfig}
use timmeny_admin_os.Actions.Rows.{
  executed, Fault, gmail_error, refused, Refusal, ActionError, refusal, Failure, not_shown,
  ReviewAction, ReviewItem, find_item,
}
use timmeny_admin_os.Actions.Mail.{GmailClient}
use timmeny_admin_os.Actions.Executors.{ExecutionOutcome, VerificationOutcome, execute, verify}
use timmeny_admin_os.Actions.Lifecycle.{
  Work, started, mark_executed, ready, run_ready, attempt, after_look, write_effect, after_write,
  read_effect, read_back, execute_action,
}
use timmeny_admin_os.Actions.Lifecycle.Guards.{ready-some}
use timmeny_admin_os.Actions.Lifecycle.ReadBack.{IsSameWork, begun, marked}

-- The one way in which a reading raises: the executor refused, and nothing was recorded of it.
read_back-refused :
    {M : Type 0} (missing : Failure) (now : ℕ) (w : Work M) (r : Result Fault VerificationOutcome)
    (e : ActionError)
    → (read_back missing now w r).0 ≡ raised e
    → (why : Refusal) × (r ≡ raised (refused why))
      × (e ≡ refusal why)
      × ((read_back missing now w r).1 ≡ w)
unfolding read_back
read_back-refused missing now w (raised (gmail_error x)) e h = cc
read_back-refused missing now w (raised (refused why)) e h = (why, refl, cc, refl)
read_back-refused missing now w (ok v) e h = elim (Bool-cases v.verified) [
  | inl there ↦ let impossible = rw there at h in cc
  | inr absent ↦ let impossible = rw absent at h in cc
]

module _ {M : Type 0} (client : GmailClient M) (kind : ActionKind) (origin : ReviewAction)
    (item : ReviewItem) (capability : CapabilityConfig) where
  -- The write was made and its reading was refused, which is what was raised; the row says `executed`,
  -- of this attempt, and the mailbox is as the reading left it after the write.
  pub record IsStranded (tries : ℕ) (e : ActionError) (w' : Work M) : Type 0 where
    pub required : capability.execution.require_verification ≡ true
    pub writer : ReviewAction
    pub reader : ReviewAction
    pub writes_it : IsSameWork origin writer
    pub reads_it : IsSameWork origin reader
    pub before : M
    pub after : M
    pub outcome : ExecutionOutcome
    pub why : Refusal
    pub writes : execute client kind writer item before ≡ (ok outcome, after)
    pub same_reference : reader.external_ref ≡ outcome.external_ref
    pub reads : verify client kind reader item after ≡ (raised (refused why), w'.mailbox)
    pub reported : e ≡ refusal why
    pub left : w'.action.state ≡ executed
    pub counted : w'.action.attempts ≡ tries

  module _ (now : ℕ) where
    after_write-IsStranded :
        (w : Work M) (writer : ReviewAction) (before : M) (r : Result Fault ExecutionOutcome)
        (e : ActionError)
        → IsSameWork origin writer
        → IsSameWork origin w.action
        → execute client kind writer item before ≡ (r, w.mailbox)
        → (after_write client capability now kind item w r).0 ≡ raised e
        → IsStranded w.action.attempts e (after_write client capability now kind item w r).1
    unfolding after_write read_effect
    after_write-IsStranded w writer before (raised f) e own same made h = cc
    after_write-IsStranded w writer before (ok outcome) e own same made h =
        elim (Bool-cases capability.execution.require_verification) [
          | inr unwanted ↦ let impossible = rw unwanted at h in cc
          | inl wanted ↦
              let written = mark_executed outcome now w in
              let (r, m) = verify client kind written.action item written.mailbox in
              let (why, refused_so, reported, left) =
                read_back-refused not_shown now (record written { mailbox = m }) r e
                  (rw wanted at h) in
              rw wanted record {
                required = refl;
                writer = writer;
                reader = written.action;
                writes_it = own;
                reads_it = marked client kind origin item capability now outcome w same;
                before = before;
                after = w.mailbox;
                outcome = outcome;
                why = why;
                writes = made;
                same_reference = refl;
                reads =
                    ap (λ x. (x, m)) refused_so
                    ∙ ap (λ x. (raised (refused why), x.mailbox)) (sym left);
                reported = reported;
                left = ap (λ x. x.action.state) left;
                counted = ap (λ x. x.action.attempts) left;
              }
        ]

    write_effect-IsStranded :
        (w : Work M) (e : ActionError)
        → IsSameWork origin w.action
        → (write_effect client capability now kind item w).0 ≡ raised e
        → IsStranded w.action.attempts e (write_effect client capability now kind item w).1
    unfolding write_effect
    write_effect-IsStranded w e same h =
        let (r, m) = execute client kind w.action item w.mailbox in
        after_write-IsStranded (record w { mailbox = m }) w.action w.mailbox r e same same refl h

    after_look-IsStranded :
        (w : Work M) (r : Result Fault VerificationOutcome) (e : ActionError)
        → IsSameWork origin w.action
        → (after_look client capability now kind item w r).0 ≡ raised e
        → IsStranded w.action.attempts e (after_look client capability now kind item w r).1
    unfolding after_look
    after_look-IsStranded w (raised f) e same h = cc
    after_look-IsStranded w (ok already) e same h = elim (Bool-cases already.verified) [
      | inl there ↦ let impossible = rw there at h in cc
      | inr absent ↦ rw absent (write_effect-IsStranded w e same (rw absent at h))
    ]

    attempt-IsStranded :
        (w : Work M) (e : ActionError)
        → IsSameWork origin w.action
        → (attempt client capability now kind item w).0 ≡ raised e
        → IsStranded (w.action.attempts + 1) e (attempt client capability now kind item w).1
    unfolding attempt
    attempt-IsStranded w e same h =
        let s = started client capability now w in
        let own = begun client kind origin item capability now w same in
        elim (Bool-cases (ltb 1 (w.action.attempts + 1))) [
          | inl again ↦
              let (r, m) = verify client kind s.action item s.mailbox in
              rw again (after_look-IsStranded (record s { mailbox = m }) r e own (rw again at h))
          | inr first ↦ rw first (write_effect-IsStranded s e own (rw first at h))
        ]

module _ {M : Type 0} (client : GmailClient M) (capability : CapabilityConfig) (now : ℕ) where
  -- The item of the action was found, and its write was stranded.
  abbrev pub IsLeftBehind : Work M → ActionError → Work M → Type 0
  IsLeftBehind w e w' =
      (item : ReviewItem) × (find_item w.action.item_id w.items ≡ some item)
      × IsStranded client w.action.action_kind w.action item capability (w.action.attempts + 1) e w'

  run_ready-IsLeftBehind :
      (w : Work M) (r : Result ActionError (Option ReviewItem)) (e : ActionError)
      → ((item : ReviewItem) → r ≡ ok (some item) → find_item w.action.item_id w.items ≡ some item)
      → (run_ready client capability now w r).0 ≡ raised e
      → ((run_ready client capability now w r).1 ≡ w)
        ⊎ IsLeftBehind w e (run_ready client capability now w r).1
  unfolding run_ready
  run_ready-IsLeftBehind w (raised e') e found h = inl refl
  run_ready-IsLeftBehind w (ok none) e found h = inl refl
  run_ready-IsLeftBehind w (ok (some item)) e found h = inr (
    item,
    found item refl,
    attempt-IsStranded client w.action.action_kind w.action item capability now w e
        (record {
          same_id = refl;
          same_item = refl;
          same_kind = refl;
          same_params = refl;
          same_plan = refl;
          same_thread = refl;
        })
        h,
  )

  -- An execution that raises has changed nothing, or there is one way in which it came about: the
  -- capability requires verification, the write of the action was made, on the first attempt or a later
  -- one, and the reading of it was refused rather than failed. That refusal is what is raised; the
  -- mailbox holds the write, and the action is left `executed`, neither completed nor failed.
  pub execute_action-IsLeftBehind :
      (write_enabled : Bool) (w : Work M) (e : ActionError)
      → (execute_action client capability now write_enabled w).0 ≡ raised e
      → ((execute_action client capability now write_enabled w).1 ≡ w)
        ⊎ IsLeftBehind w e (execute_action client capability now write_enabled w).1
  unfolding execute_action
  execute_action-IsLeftBehind write_enabled w e h =
      run_ready-IsLeftBehind w (ready client capability now write_enabled w) e
        (λ item admits. (ready-some client capability now write_enabled w item admits).1) h
