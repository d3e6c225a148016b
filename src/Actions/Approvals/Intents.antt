-- ===== src/Actions/Approvals/Intents.antt =====
-- One row for one intent: the idempotency keys of `ensure_actions` and `authorise_send`.
use timmeny_admin_os.Common.{
  String, false, ◌≡◌, refl, sym, ap, ◌∙◌, Option, none, some, List, [], ◌∷◌, ◌++◌, ◌==◌, Bool-cases,
  inl, inr, arith, eq_iff, eq_refl, Members, ok, then-ok, ok-injective, subst,
}
use timmeny_admin_os.Capabilities.{ActionKind, gmail_send_draft}
use timmeny_admin_os.Capabilities.Config.{CapabilityConfig}
use timmeny_admin_os.Actions.Rows.{ReviewAction, ReviewItem}
use timmeny_admin_os.Actions.Approvals.{
  Services, ActionTables, idempotency_key, find_by_key, record_intent, ensure_intent, intent,
  ensure_actions,
}
use timmeny_admin_os.Actions.Approvals.Sends.{send_action, authorise_send, check_send, send_params}

-- The keys of the rows are pairwise distinct, as the table's unique constraint demands.
unfoldable pub AreKeyed : List ReviewAction → Type 0
AreKeyed [] = Unit
AreKeyed (a ∷ rest) = (find_by_key a.idempotency_key rest ≡ none) × AreKeyed rest

find-append :
    (key : String) (rows more : List ReviewAction) (a : ReviewAction)
    → find_by_key key rows ≡ some a
    → find_by_key key (rows ++ more) ≡ some a
unfolding find_by_key
find-append key [] more a h = cc
find-append key (b ∷ rest) more a h = elim (Bool-cases (b.idempotency_key == key)) [
  | inl e ↦ rw e (ground (arith, h, e))
  | inr e ↦ rw e (find-append key rest more a (ground (arith, h, e)))
]

find-append_missing :
    (key : String) (rows more : List ReviewAction)
    → find_by_key key rows ≡ none
    → find_by_key key (rows ++ more) ≡ find_by_key key more
unfolding find_by_key
find-append_missing key [] more h = refl
find-append_missing key (b ∷ rest) more h = elim (Bool-cases (b.idempotency_key == key)) [
  | inl e ↦ ground (arith, h, e)
  | inr e ↦ rw e (find-append_missing key rest more (ground (arith, h, e)))
]

find-own :
    (rows : List ReviewAction) (a : ReviewAction)
    → find_by_key a.idempotency_key rows ≡ none
    → find_by_key a.idempotency_key (rows ++ a ∷ []) ≡ some a
unfolding find_by_key
find-own rows a h =
    find-append_missing a.idempotency_key rows (a ∷ []) h ∙ rw (eq_refl a.idempotency_key) refl

other_key :
    (b a : ReviewAction)
    → b.idempotency_key == a.idempotency_key ≡ false
    → find_by_key b.idempotency_key (a ∷ []) ≡ none
unfolding find_by_key
other_key b a h = ground (
  arith,
  h,
  eq_iff b.idempotency_key a.idempotency_key,
  eq_iff a.idempotency_key b.idempotency_key,
)

find_by_key-tail :
    (b : ReviewAction) (rest : List ReviewAction) (key : String)
    → find_by_key key (b ∷ rest) ≡ none
    → (b.idempotency_key == key ≡ false) × (find_by_key key rest ≡ none)
unfolding find_by_key
find_by_key-tail b rest key h = ground (arith, h)

append-AreKeyed :
    (rows : List ReviewAction) (a : ReviewAction)
    → AreKeyed rows
    → find_by_key a.idempotency_key rows ≡ none
    → AreKeyed (rows ++ a ∷ [])
unfolding AreKeyed find_by_key
append-AreKeyed [] a keyed h = (refl, tt)
append-AreKeyed (b ∷ rest) a keyed h =
    let (differs, absent) = find_by_key-tail b rest a.idempotency_key h in
    (
      find-append_missing b.idempotency_key rest (a ∷ []) keyed.0 ∙ other_key b a differs,
      append-AreKeyed rest a keyed.1 absent,
    )

-- Whatever key is found in the first table is found, with the same row, in the second.
Extends : ActionTables → ActionTables → Type 0
Extends t u =
    (key : String) (a : ReviewAction)
    → find_by_key key t.actions ≡ some a
    → find_by_key key u.actions ≡ some a

module _ (services : Services) (capability : CapabilityConfig) (run_id : String) where
  record_intent-Extends :
      (item : ReviewItem) (wanted : ActionKind × Members) (found : Option ReviewAction)
      (t : ActionTables)
      → Extends t (record_intent services capability run_id item wanted found t).1
  unfolding record_intent Extends
  record_intent-Extends item (kind, params) (some existing) t key a h = h
  record_intent-Extends item (kind, params) none t key a h = find-append key t.actions _ a h

  ensure_intent-Extends :
      (item : ReviewItem) (wanted : Option (ActionKind × Members)) (t : ActionTables)
      → Extends t (ensure_intent services capability run_id item wanted t).1
  unfolding ensure_intent Extends
  ensure_intent-Extends item none t key a h = h
  ensure_intent-Extends item (some (kind, params)) t key a h =
      record_intent-Extends item (kind, params)
        (find_by_key (idempotency_key services item.id kind params) t.actions) t key a h

  ensure_actions-Extends :
      (items : List ReviewItem) (t : ActionTables)
      → Extends t (ensure_actions services capability run_id items t).1
  unfolding ensure_actions Extends
  ensure_actions-Extends [] t key a h = h
  ensure_actions-Extends (item ∷ items) t key a h =
      ensure_actions-Extends items _ key a (ensure_intent-Extends item (intent item) t key a h)

  -- After an item's turn its key is found, with the row that was returned.
  record_intent-found :
      (item : ReviewItem) (kind : ActionKind) (params : Members) (found : Option ReviewAction)
      (t : ActionTables)
      → find_by_key (idempotency_key services item.id kind params) t.actions ≡ found
      → find_by_key
          (idempotency_key services item.id kind params)
          (record_intent services capability run_id item (kind, params) found t).1.actions
        ≡ some (record_intent services capability run_id item (kind, params) found t).0
  unfolding record_intent
  record_intent-found item kind params (some existing) t h = h
  record_intent-found item kind params none t h = find-own t.actions _ h

  ensure_intent-again :
      (item : ReviewItem) (wanted : Option (ActionKind × Members)) (t u : ActionTables)
      → Extends (ensure_intent services capability run_id item wanted t).1 u
      → ensure_intent services capability run_id item wanted u
        ≡ ((ensure_intent services capability run_id item wanted t).0, u)
  unfolding ensure_intent Extends
  ensure_intent-again item none t u h = refl
  ensure_intent-again item (some (kind, params)) t u h =
      let found =
        h (idempotency_key services item.id kind params) _
          (record_intent-found item kind params _ t refl) in
      ap
        (λ f. (
          (record_intent services capability run_id item (kind, params) f u).0 ∷ [],
          (record_intent services capability run_id item (kind, params) f u).1,
        ))
        found

  ensure_actions-repeats :
      (items : List ReviewItem) (t u : ActionTables)
      → Extends (ensure_actions services capability run_id items t).1 u
      → ensure_actions services capability run_id items u
        ≡ ((ensure_actions services capability run_id items t).0, u)
  unfolding ensure_actions Extends
  ensure_actions-repeats [] t u h = refl
  ensure_actions-repeats (item ∷ items) t u h =
      let after = (ensure_intent services capability run_id item (intent item) t).1 in
      let first =
        ensure_intent-again item (intent item) t u
          (λ key a found. h key a (ensure_actions-Extends items after key a found)) in
      rw first (rw (ensure_actions-repeats items after u h) refl)

  -- Recording the actions of a list of items again, from the tables that the first time left,
  -- writes nothing: it returns the same rows in the same order, and the tables as they were.
  pub ensure_actions-again :
      (items : List ReviewItem) (t : ActionTables)
      → ensure_actions services capability run_id items
          (ensure_actions services capability run_id items t).1
        ≡ ensure_actions services capability run_id items t
  unfolding Extends
  ensure_actions-again items t = ensure_actions-repeats items t _ (λ key a found. found)

  record_intent-AreKeyed :
      (item : ReviewItem) (kind : ActionKind) (params : Members) (found : Option ReviewAction)
      (t : ActionTables)
      → find_by_key (idempotency_key services item.id kind params) t.actions ≡ found
      → AreKeyed t.actions
      → AreKeyed (record_intent services capability run_id item (kind, params) found t).1.actions
  unfolding record_intent
  record_intent-AreKeyed item kind params (some existing) t h keyed = keyed
  record_intent-AreKeyed item kind params none t h keyed = append-AreKeyed t.actions _ keyed h

  ensure_intent-AreKeyed :
      (item : ReviewItem) (wanted : Option (ActionKind × Members)) (t : ActionTables)
      → AreKeyed t.actions
      → AreKeyed (ensure_intent services capability run_id item wanted t).1.actions
  unfolding ensure_intent
  ensure_intent-AreKeyed item none t keyed = keyed
  ensure_intent-AreKeyed item (some (kind, params)) t keyed =
      record_intent-AreKeyed item kind params _ t refl keyed

  pub ensure_actions-AreKeyed :
      (items : List ReviewItem) (t : ActionTables)
      → AreKeyed t.actions
      → AreKeyed (ensure_actions services capability run_id items t).1.actions
  unfolding ensure_actions
  ensure_actions-AreKeyed [] t keyed = keyed
  ensure_actions-AreKeyed (item ∷ items) t keyed =
      ensure_actions-AreKeyed items _ (ensure_intent-AreKeyed item (intent item) t keyed)

  send_action-AreKeyed :
      (item : ReviewItem) (draft_id message_id actor : String) (found : Option ReviewAction)
      (t : ActionTables)
      → find_by_key
          (idempotency_key services item.id gmail_send_draft (send_params draft_id message_id))
          t.actions
        ≡ found
      → AreKeyed t.actions
      → AreKeyed
          (send_action services capability run_id item draft_id message_id actor found t).1.actions
  unfolding send_action
  send_action-AreKeyed item draft_id message_id actor (some existing) t h keyed = keyed
  send_action-AreKeyed item draft_id message_id actor none t h keyed =
      append-AreKeyed t.actions _ keyed h

  -- Whichever of the two ways an approval comes in by, the rows' idempotency keys stay pairwise
  -- distinct: one intent has one row.
  pub approvals-AreKeyed :
      (items : List ReviewItem) (item : ReviewItem) (draft_id message_id actor : String)
      (t : ActionTables) (sent : ReviewAction × ActionTables)
      → AreKeyed t.actions
      → authorise_send services capability run_id item draft_id message_id actor
          (ensure_actions services capability run_id items t).1
        ≡ ok sent
      → AreKeyed (ensure_actions services capability run_id items t).1.actions
        × AreKeyed sent.1.actions
  unfolding authorise_send
  approvals-AreKeyed items item draft_id message_id actor t sent keyed h =
      let u = (ensure_actions services capability run_id items t).1 in
      let kept = ensure_actions-AreKeyed items t keyed in
      let (_, made) = then-ok (check_send capability item draft_id message_id u.actions) _ h in
      (
        kept,
        subst (λ p. AreKeyed p.1.actions) (sym (ok-injective made))
            (send_action-AreKeyed item draft_id message_id actor _ u refl kept),
      )
