-- ===== src/Rulebook/Draft/OneJob.antt =====
-- A rule has one job: what the validators of adminos/domain/rulebook.py leave of a draft.
use timmeny_admin_os.Common.{
  String, true, false, ◌≡◌, ◌≤◌, refl, List, [], ◌∷◌, arith, length, is_empty, nat_eqb, ok, then-ok,
}
use timmeny_admin_os.Rulebook.Types.{RuleType, EffectKind, carries, available}
use timmeny_admin_os.Rulebook.Draft.{
  Effect, RuleDraft, check_kinds, distinct_kinds, check_effects_belong_to_the_type,
  check_constraints, check_fields, check_shapes, read_draft,
}

-- A type that is available carries one kind of effect.
one_kind : (t : RuleType) (j k : EffectKind) → carries t j ≡ true → carries t k ≡ true → j ≡ k
unfolding carries
one_kind t j k a b = ground arith

distinct_le :
    (t : RuleType) (effects : List Effect)
    → check_kinds t effects ≡ ok tt
    → length (distinct_kinds effects) ≤ 1
unfolding check_kinds distinct_kinds
distinct_le t [] h = omega arith
distinct_le t (effect ∷ []) h = ground arith
distinct_le t (effect ∷ other ∷ rest) h =
    ground (arith, distinct_le t (other ∷ rest), one_kind t effect.kind other.kind)

one_only :
    (t : RuleType) (effects : List Effect)
    → is_empty effects ≡ false
    → check_kinds t effects ≡ ok tt
    → nat_eqb (length (distinct_kinds effects)) (length effects) ≡ true
    → (effect : Effect) × (effects ≡ effect ∷ []) × (carries t effect.kind ≡ true)
one_only t [] n h d = cc
one_only t (effect ∷ []) n h d = (effect, refl, unfold check_kinds in ground arith)
one_only t (effect ∷ other ∷ rest) n h d =
    absurd (ground (arith, distinct_le t (effect ∷ other ∷ rest) h))

-- What `read_draft` has checked of the effects and the constraints.
record Checked (draft : RuleDraft) : Type 0 where
  some_effect : is_empty draft.effects ≡ false
  is_available : available draft.rule_type ≡ true
  kinds : check_kinds draft.rule_type draft.effects ≡ ok tt
  distinct : nat_eqb (length (distinct_kinds draft.effects)) (length draft.effects) ≡ true
  limits : check_constraints draft.constraints ≡ ok tt

check_fields-effects :
    (draft : RuleDraft) → check_fields draft ≡ ok tt → is_empty draft.effects ≡ false
unfolding check_fields
check_fields-effects draft h = ground arith

belongs :
    (draft : RuleDraft)
    → check_effects_belong_to_the_type draft ≡ ok tt
    → (available draft.rule_type ≡ true)
      × (check_kinds draft.rule_type draft.effects ≡ ok tt)
      × (nat_eqb (length (distinct_kinds draft.effects)) (length draft.effects) ≡ true)
unfolding check_effects_belong_to_the_type
belongs draft h = ground arith

read_draft-Checked :
    (capture_names : String → List String) (draft : RuleDraft)
    → read_draft capture_names draft ≡ ok tt
    → Checked draft
unfolding read_draft
read_draft-Checked capture_names draft h =
    let (fields, more) = then-ok (check_fields draft) _ h in
    let (shapes, more) = then-ok (check_shapes draft.effects) _ more in
    let (limits, more) = then-ok (check_constraints draft.constraints) _ more in
    let (kinds, wording) = then-ok (check_effects_belong_to_the_type draft) _ more in
    record {
      some_effect = check_fields-effects draft fields;
      is_available = (belongs draft kinds).0;
      kinds = (belongs draft kinds).1;
      distinct = (belongs draft kinds).2;
      limits = limits;
    }

-- A draft that is read carries exactly one effect, of a kind that its type owns, and its type is
-- one that this service carries out.
pub read_draft-one_effect :
    (capture_names : String → List String) (draft : RuleDraft)
    → read_draft capture_names draft ≡ ok tt
    → (available draft.rule_type ≡ true)
      × ((effect : Effect) × (draft.effects ≡ effect ∷ [])
          × (carries draft.rule_type effect.kind ≡ true))
read_draft-one_effect capture_names draft h =
    let c = read_draft-Checked capture_names draft h in
    (c.is_available, one_only draft.rule_type draft.effects c.some_effect c.kinds c.distinct)

-- A draft that is read never executes on its own, is trusted at most to recommend, and waives none
-- of the review's safeguards.
pub read_draft-recommends_only :
    (capture_names : String → List String) (draft : RuleDraft)
    → read_draft capture_names draft ≡ ok tt
    → (draft.constraints.auto_execute ≡ false)
      × (draft.constraints.automation_level ≤ 1)
      × (draft.constraints.requires_decision ≡ true)
      × (draft.constraints.requires_preparation ≡ true)
      × (draft.constraints.requires_execution_confirmation ≡ true)
      × (draft.constraints.requires_verification ≡ true)
unfolding check_constraints
read_draft-recommends_only capture_names draft h =
    let c = read_draft-Checked capture_names draft h in ground (arith, c.limits)
