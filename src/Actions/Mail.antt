-- ===== src/Actions/Mail.antt =====
-- What adminos/domain/actions.py asks of Gmail, through the client of adminos/adapters/gmail.py: a
-- parameter of the model. `M` is the mailbox behind it. A call returns or raises `GmailError`, and
-- may change the mailbox either way.
use timmeny_admin_os.Common.{
  String, ◌≡◌, refl, sym, ap, ◌∙◌, Option, List, Result, ok, raised, ok-injective,
}
use timmeny_admin_os.Actions.Rows.{Fault, gmail_error, Refusal, refused}

pub record GmailThread : Type 0 where
  pub label_ids : List String

pub record GmailDraft : Type 0 where
  pub draft_id : String
  pub message_id : String
  pub thread_id : String

abbrev pub Call : Type 0 → Type 0 → Type 0
Call M A = M → Result String A × M

pub record GmailClient (M : Type 0) : Type 0 where
  pub resolve_label_id : String → Call M (Option String)
  pub fetch_thread : String → Call M GmailThread
  pub modify_thread : String → List String → List String → Call M (Unit {0})
  pub trash_thread : String → Call M (Unit {0})
  pub untrash_thread : String → Call M (Unit {0})
  -- thread, recipients, subject, body, copies
  pub create_draft : String → List String → String → String → List String → Call M GmailDraft
  pub fetch_draft : String → Call M (Option GmailDraft)
  pub find_draft_for_thread : String → Call M (Option GmailDraft)
  pub send_draft : String → Call M (Option String)

-- The asynchronous functions of an executor.
abbrev pub Run : Type 0 → Type 0 → Type 0
Run M A = M → Result Fault A × M

lift_call : {A : Type 0} → Result String A → Result Fault A
lift_call (ok a) = ok a
lift_call (raised e) = raised (gmail_error e)

module _ {M A : Type 0} where
  unfoldable pub pure : A → Run M A
  pure a m = (ok a, m)

  unfoldable pub refuse : Refusal → Run M A
  refuse r m = (raised (refused r), m)

  unfoldable pub from_result : Result Refusal A → Run M A
  from_result (ok a) m = (ok a, m)
  from_result (raised r) m = (raised (refused r), m)

  unfoldable pub call : Call M A → Run M A
  unfolding lift_call
  call c m = let (r, m') = c m in (lift_call r, m')

module _ {M A B : Type 0} where
  abbrev continue : Result Fault A → (A → Run M B) → Run M B
  continue (ok a) f m = f a m
  continue (raised e) f m = (raised e, m)

  infixl 10 ◌>>=◌ ◌>>◌
  unfoldable pub ◌>>=◌ : Run M A → (A → Run M B) → Run M B
  unfolding pure refuse from_result call
  ◌>>=◌ run f m = let (r, m') = run m in continue r f m'

  abbrev pub ◌>>◌ : Run M A → Run M B → Run M B
  a >> b = a >>= λ _. b

-- A run that leaves the mailbox as it is, with a rule for each way to build a run.
pub record Leaves {M A : Type 0} (run : Run M A) : Type 0 where
  pub at : (m : M) → (run m).1 ≡ m

module _ {M A : Type 0} where
  pub Leaves-pure : (a : A) → Leaves (pure {M = M} a)
  unfolding pure
  Leaves-pure a = record { at = λ m. refl }

  pub Leaves-refuse : (r : Refusal) → Leaves (refuse {M = M} {A = A} r)
  unfolding refuse
  Leaves-refuse r = record { at = λ m. refl }

  pub Leaves-from_result : (r : Result Refusal A) → Leaves (from_result {M = M} r)
  unfolding from_result
  Leaves-from_result (ok a) = record { at = λ m. refl }
  Leaves-from_result (raised r) = record { at = λ m. refl }

  pub Leaves-call : (c : Call M A) → ((m : M) → (c m).1 ≡ m) → Leaves (call c)
  unfolding call
  Leaves-call c h = record { at = h }

module _ {M A B : Type 0} where
  continue-Leaves :
      (f : A → Run M B) (r : Result Fault A) (m m' : M)
      → ((a : A) → Leaves (f a))
      → m' ≡ m
      → (continue r f m').1 ≡ m
  continue-Leaves f (ok a) m m' h e = (h a).at m' ∙ e
  continue-Leaves f (raised x) m m' h e = e

  pub Leaves-bind :
      (run : Run M A) (f : A → Run M B) → Leaves run → ((a : A) → Leaves (f a)) → Leaves (run >>= f)
  unfolding ◌>>=◌
  Leaves-bind run f h k = record { at = λ m. continue-Leaves f (run m).0 m (run m).1 k (h.at m) }

pub ruleset leaves_rules =
    (Leaves-pure, Leaves-refuse, Leaves-from_result, Leaves-call, Leaves-bind)

raised-ok : {B : Type 0} (e : Fault) (b : B) → ◌≡◌ {A = Result Fault B} (raised e) (ok b) → ⊥
raised-ok e b h = cc

lift_call-ok : {A : Type 0} (r : Result String A) (a : A) → lift_call r ≡ ok a → r ≡ ok a
unfolding lift_call
lift_call-ok (ok b) a h = cc
lift_call-ok (raised e) a h = cc

-- What a run that returns did at each of its steps.
module _ {M A B : Type 0} where
  continue-ok :
      (f : A → Run M B) (r : Result Fault A) (m1 m' : M) (b : B)
      → continue r f m1 ≡ (ok b, m')
      → (a : A) × (r ≡ ok a) × (f a m1 ≡ (ok b, m'))
  continue-ok f (ok a) m1 m' b h = (a, refl, h)
  continue-ok f (raised e) m1 m' b h = absurd (raised-ok e b (ap (λ p. p.0) h))

  pub >>=-returns :
      (run : Run M A) (f : A → Run M B) (m m' : M) (b : B)
      → (run >>= f) m ≡ (ok b, m')
      → (a : A) × (m1 : M) × (run m ≡ (ok a, m1)) × (f a m1 ≡ (ok b, m'))
  unfolding ◌>>=◌
  >>=-returns run f m m' b h =
      let (a, e, rest) = continue-ok f (run m).0 (run m).1 m' b h in
      (a, (run m).1, ap (λ r. (r, (run m).1)) e, rest)

module _ {M A : Type 0} where
  pub call-returns : (c : Call M A) (m m' : M) (a : A) → call c m ≡ (ok a, m') → c m ≡ (ok a, m')
  unfolding call
  call-returns c m m' a h =
      let e = lift_call-ok (c m).0 a (ap (λ p. p.0) h) in
      ap (λ r. (r, (c m).1)) e ∙ ap (λ x. (ok a, x)) (ap (λ p. p.1) h)

  pub pure-returns : (a b : A) (m m' : M) → pure a m ≡ (ok b, m') → (a ≡ b) × (m ≡ m')
  unfolding pure
  pure-returns a b m m' h = (sym (ok-injective (ap (λ p. p.0) h)), ap (λ p. p.1) h)

  pub refuse-returns : (r : Refusal) (a : A) (m m' : M) → refuse r m ≡ (ok a, m') → ⊥
  unfolding refuse
  refuse-returns r a m m' h = raised-ok (refused r) a (ap (λ p. p.0) h)

  pub from_result-returns :
      (r : Result Refusal A) (a : A) (m m' : M)
      → from_result r m ≡ (ok a, m')
      → (r ≡ ok a) × (m ≡ m')
  unfolding from_result
  from_result-returns (ok b) a m m' h =
      (ap ok (sym (ok-injective (ap (λ p. p.0) h))), ap (λ p. p.1) h)
  from_result-returns (raised e) a m m' h = absurd (raised-ok (refused e) a (ap (λ p. p.0) h))
