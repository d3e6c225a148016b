-- ===== src/Review/Bulk.antt =====
-- `decide_group` of adminos/domain/review.py decides every selected item or none.
use timmeny_admin_os.Common.{
  ℕ, String, Bool, true, false, not, ◌≡◌, refl, ◌∙◌, ◌⊎◌, inl, inr, Option, none, some, List, [],
  ◌∷◌, ◌++◌, is_empty, Members, Result, ok, raised, ◌>>◌, refuse_if, All,
}
use timmeny_admin_os.Capabilities.{ActionKind}
use timmeny_admin_os.Capabilities.Config.{CapabilityConfig}
use timmeny_admin_os.Actions.Rows.{ReviewItem, DecisionKind, approve, override, dismiss, defer}
use timmeny_admin_os.Review.Reading.{read_group_items}
use timmeny_admin_os.Review.Checking.{DecisionRefused}
use timmeny_admin_os.Review.Deciding.{
  Identities, ReviewTables, Ruling, IneligibleItem, GroupProblem, no_bulk_decisions, missing_items,
  bulk_refused, ineligible, decided, lift_refusal, selected_items, missing, apply_decision, checked,
  record_decision, all_ineligible, decide_each, decide_group,
}
use timmeny_admin_os.Review.Permitted.{IsRuled, record_decision-IsRuled}

-- Each of the items, in their order, with what the decision made of it.
unfoldable pub AreRuled : CapabilityConfig → Ruling → List ReviewItem → List ReviewItem → Type 0
AreRuled capability ruling [] [] = Unit
AreRuled capability ruling (i ∷ is) (d ∷ ds) =
    (d.id ≡ i.id) × IsRuled capability i ruling d × AreRuled capability ruling is ds
AreRuled capability ruling _ _ = ⊥

-- Three checks before something else: the first that fails decides, and otherwise what follows.
in_turn :
    {E B : Type 0} (a b c : Bool) (first second third : E) (k : Result E B)
    → ((a ≡ false)
        × ((refuse_if (not a) first >> (refuse_if (not b) second >> (refuse_if (not c) third >> k)))
            ≡ raised first))
      ⊎ (((b ≡ false)
            × ((refuse_if (not a) first
                  >> (refuse_if (not b) second >> (refuse_if (not c) third >> k)))
                ≡ raised second))
          ⊎ (((c ≡ false)
                × ((refuse_if (not a) first
                      >> (refuse_if (not b) second >> (refuse_if (not c) third >> k)))
                    ≡ raised third))
              ⊎ ((c ≡ true)
                  × ((refuse_if (not a) first
                        >> (refuse_if (not b) second >> (refuse_if (not c) third >> k)))
                      ≡ k))))
in_turn false b c first second third k = inl (refl, refl)
in_turn true false c first second third k = inr (inl (refl, refl))
in_turn true true false first second third k = inr (inr (inl (refl, refl)))
in_turn true true true first second third k = inr (inr (inr (refl, refl)))

empty-append-left :
    (xs ys : List IneligibleItem) → is_empty (xs ++ ys) ≡ true → (xs ≡ []) × (is_empty ys ≡ true)
empty-append-left [] ys h = (refl, h)
empty-append-left (x ∷ xs) ys h = cc

decided-id :
    (decision : DecisionKind) (k : Option ActionKind) (params : Members) (now : ℕ) (i : ReviewItem)
    → (decided decision k params now i).id ≡ i.id
unfolding decided
decided-id decision (some action) params now i = refl
decided-id approve none params now i = refl
decided-id override none params now i = refl
decided-id dismiss none params now i = refl
decided-id defer none params now i = refl

module _ (ids : Identities) (capability : CapabilityConfig) (run_id : String) (now : ℕ) where
  Accepts : Ruling → ReviewItem → Type 0
  Accepts ruling i = (k : Option ActionKind) × (checked ids capability run_id now ruling i ≡ ok k)

  eligible-Accepts :
      (ruling : Ruling) (i : ReviewItem) (r : Result DecisionRefused (Option ActionKind))
      → checked ids capability run_id now ruling i ≡ r
      → ineligible i r ≡ []
      → Accepts ruling i
  unfolding ineligible Accepts
  eligible-Accepts ruling i (ok k) e h = (k, e)
  eligible-Accepts ruling i (raised reason) e h = cc

  All-Accepts :
      (ruling : Ruling) (items : List ReviewItem)
      → is_empty (all_ineligible ids capability run_id now ruling items) ≡ true
      → All (Accepts ruling) items
  unfolding all_ineligible
  All-Accepts ruling [] h = tt
  All-Accepts ruling (i ∷ rest) h =
      let (first, others) =
        empty-append-left (ineligible i (checked ids capability run_id now ruling i)) _ h in
      (eligible-Accepts ruling i _ refl first, All-Accepts ruling rest others)

  apply-id :
      (ruling : Ruling) (i : ReviewItem) (k : Option ActionKind) (tables : ReviewTables)
      → (apply_decision ids capability run_id now ruling i k tables).0.id ≡ i.id
  unfolding apply_decision
  apply-id ruling i k tables = decided-id ruling.decision k _ now i

  decide_each-decides :
      (ruling : Ruling) (items : List ReviewItem) (tables : ReviewTables)
      → All (Accepts ruling) items
      → (done : List ReviewItem) × (tables' : ReviewTables) × (decide_each ids capability run_id now
            ruling items tables
          ≡ ok (done, tables'))
        × AreRuled capability ruling items done
  unfolding decide_each record_decision lift_refusal AreRuled Accepts
  decide_each-decides ruling [] tables h = ([], tables, refl, tt)
  decide_each-decides ruling (i ∷ rest) tables h =
      let (k, accepted) = h.0 in
      let (after, between) = apply_decision ids capability run_id now ruling i k tables in
      let recorded : record_decision ids capability run_id now ruling i tables
          ≡ ok (after, between) =
        rw accepted refl in
      let (done, tables', all_done, ruled) = decide_each-decides ruling rest between h.1 in
      (
        after ∷ done,
        tables',
        rw accepted (rw all_done refl),
        (
          apply-id ruling i k tables,
          record_decision-IsRuled ids capability run_id now ruling i after tables between recorded,
          ruled,
        ),
      )

  -- Why nothing was decided: bulk decisions are not allowed, a named item is not in the group, or a
  -- selected item does not permit the decision.
  unfoldable pub Refuses : GroupProblem → Option (List String) → Ruling → List ReviewItem → Type 0
  Refuses e named ruling selected =
      ((e ≡ no_bulk_decisions) × (capability.approval.allow_bulk_decisions ≡ false))
      ⊎ (((e ≡ missing_items (missing named selected))
            × (is_empty (missing named selected) ≡ false))
          ⊎ ((e ≡ bulk_refused (all_ineligible ids capability run_id now ruling selected))
              × (is_empty (all_ineligible ids capability run_id now ruling selected) ≡ false)))

  -- Every selected item is decided, or none and why.
  abbrev pub IsAtomic :
      Option (List String)
      → Ruling
      → List ReviewItem
      → Result GroupProblem (List ReviewItem × ReviewTables)
      → Type 0
  IsAtomic named ruling selected r =
      ((e : GroupProblem) × (r ≡ raised e) × Refuses e named ruling selected)
      ⊎ ((done : List ReviewItem) × (tables : ReviewTables) × (r ≡ ok (done, tables))
          × AreRuled capability ruling selected done)

  -- `decide_group` does one of two things. It raises before anything is recorded, and says whether bulk
  -- decisions are not allowed, which named items the group has not, or every selected item that
  -- refuses; or it returns each selected item, in their order, with the decision made. It never raises
  -- once it has begun to record.
  pub decide_group-IsAtomic :
      (group_id : String) (named : Option (List String)) (ruling : Ruling) (tables : ReviewTables)
      → IsAtomic named ruling
          (selected_items named (read_group_items group_id tables.items))
          (decide_group ids capability run_id now group_id named ruling tables)
  unfolding decide_group Refuses
  decide_group-IsAtomic group_id named ruling tables =
      let selected = selected_items named (read_group_items group_id tables.items) in
      let refusing = all_ineligible ids capability run_id now ruling selected in
      let lacking = missing named selected in
      elim (in_turn capability.approval.allow_bulk_decisions (is_empty lacking) (is_empty refusing)
        no_bulk_decisions (missing_items lacking) (bulk_refused refusing)
        (decide_each ids capability run_id now ruling selected tables)) [
          | inl (never, e) ↦ inl (no_bulk_decisions, e, inl (refl, never))
          | inr (inl (lacks, e)) ↦ inl (missing_items lacking, e, inr (inl (refl, lacks)))
          | inr (inr (inl (refuses, e))) ↦ inl (bulk_refused refusing, e, inr (inr (refl, refuses)))
          | inr (inr (inr (eligible, e))) ↦
              let (done, tables', made, ruled) =
                decide_each-decides ruling selected tables (All-Accepts ruling selected eligible) in
              inr (done, tables', e ∙ made, ruled)
        ]
