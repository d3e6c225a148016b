-- ===== src/Conditions/Leaf.antt =====
-- `Condition` of adminos/domain/conditions.py: its validation, whether it narrows, and its test.
use timmeny_admin_os.Common.{
  ℕ, String, Bool, true, false, not, ◌&&◌, ◌||◌, Option, none, some, List, [], ◌∷◌, ◌==◌,
  if◌then◌else◌, leb, strip, len, join, contains, starts_with, ends_with, all, is_none, keep,
  is_set, Result, ok, raised, ◌>>◌, refuse_if, ◌≡◌, refl, arith,
}
use timmeny_admin_os.Conditions.Fields.{
  FieldKind, text, texts, number, Operator, equals, not_equals, at_least, at_most, regex,
  operator_eq, is_negation, Field, FieldSpec, spec, find_field, applies, Engine, Facts,
}

abbrev pub minimum_literal : ℕ
minimum_literal = 4

pub record Condition : Type 0 where
  pub field : Field
  pub operator : Operator
  pub value : String

-- What `ValueError`, `ConditionError` and `ConditionRefused` say, without the wording.
pub data Problem : Type 0 where
  value_length : Problem
  unknown_field : String → Problem
  wrong_operator : Field → Operator → Problem
  not_a_number : String → Problem
  bad_pattern : String → Problem
  empty_group : Problem
  too_deep : Problem
  too_broad : Problem

-- Why an outcome came out as it did: `saying`, without the wording of the field and operator.
pub data Saying : Type 0 where
  not_set : Field → Saying
  not_known : Field → Saying
  verdict : Bool → String → Saying
  must_not_match : Saying → Saying

pub record Outcome : Type 0 where
  pub condition : Condition
  pub matched : Bool
  pub captured : List (String × String)
  pub saying : Saying

module _ (e : Engine) where
  open e use {Num, num_eq, num_le, read_float, show_float, casefold, Pattern, search, erase}

  -- `compile_pattern`.
  unfoldable pub compile_pattern : String → Result Problem Pattern
  compile_pattern p = elim (e.compile p) [ none ↦ raised (bad_pattern p) | some c ↦ ok c ]

  -- `check_field_and_operator`, on the texts that were sent; `field` and `value` are the strings.
  check_number : FieldSpec → String → Result Problem (Unit {0})
  check_number s value = elim s.kind [
    | number ↦ refuse_if (is_none (read_float value)) (not_a_number value)
    | _ ↦ ok tt
  ]

  check_regex : Operator → String → Result Problem (Unit {0})
  unfolding compile_pattern
  check_regex regex value = do compile_pattern value; ok tt
  check_regex _ value = ok tt

  check_known : Option Field → String → Operator → String → Result Problem Condition
  unfolding check_number check_regex applies
  check_known none name operator value = raised (unknown_field name)
  check_known (some field) name operator value = do
    refuse_if (not (applies operator (spec field))) (wrong_operator field operator)
    check_number (spec field) value
    check_regex operator value
    ok (record { field = field; operator = operator; value = value })

  unfoldable pub check_field_and_operator : String → Operator → String → Result Problem Condition
  unfolding check_known
  check_field_and_operator name operator value = do
    refuse_if (not (leb 1 (len value) && leb (len value) 500)) value_length
    check_known (find_field name) name operator value

  -- `literal_text` and `pattern_narrows`; a pattern that does not compile was refused before.
  unfoldable pub literal_text : String → String
  literal_text pattern =
      erase "[\\\\^$.|?*+()\\[\\]{}\\d\\s]"
        (erase "\\(\\?P<\\w+>[^)]*\\)|\\[[^\\]]*\\]|\\\\[dDwWsS]" pattern)

  matches_something : Option (List (String × String)) → String → Bool
  unfolding literal_text len
  matches_something (some found) pattern = false
  matches_something none pattern = leb minimum_literal (len (literal_text pattern))

  unfoldable pub pattern_narrows : String → Bool
  unfolding compile_pattern matches_something
  pattern_narrows pattern = elim (compile_pattern pattern) [
    | ok c ↦ matches_something (search c "") pattern
    | raised problem ↦ false
  ]

  is_number : FieldKind → Bool
  is_number number = true
  is_number _ = false

  -- `Condition.narrows`.
  unfoldable pub narrows : Condition → Bool
  unfolding is_number
  narrows c =
      if not (spec c.field).narrowing || is_negation c.operator
      then false
      else if is_number (spec c.field).kind
      then false
      else if operator_eq c.operator regex
      then pattern_narrows c.value
      else leb minimum_literal (len (strip c.value))

  -- `compare`: the dictionary of text comparisons has no entry for the number operators.
  compare_folded : Operator → String → String → Bool
  compare_folded equals left right = left == right
  compare_folded not_equals left right = not (left == right)
  compare_folded Operator.contains left right = contains left right
  compare_folded Operator.not_contains left right = not (contains left right)
  compare_folded Operator.starts_with left right = starts_with left right
  compare_folded Operator.ends_with left right = ends_with left right
  compare_folded _ left right = false

  found_groups : Option (List (String × String)) → Bool × List (String × String)
  found_groups none = (false, [])
  found_groups (some groups) = (true, keep (λ g. is_set g.1) groups)

  compare_pattern : Result Problem Pattern → String → Bool × List (String × String)
  unfolding found_groups
  compare_pattern (ok c) value = found_groups (search c value)
  compare_pattern (raised problem) value = (false, [])

  unfoldable pub compare : Operator → String → String → Bool × List (String × String)
  unfolding compare_folded compare_pattern
  compare regex value wanted = compare_pattern (compile_pattern wanted) value
  compare operator value wanted = (compare_folded operator (casefold value) (casefold wanted), [])

  -- `test_text`, `test_texts`, `test_number` and `test`.
  unfoldable pub test_text : Condition → Option String → Outcome
  test_text c none = record {
    condition = c;
    matched = false;
    captured = [];
    saying = not_set c.field;
  }
  test_text c (some value) =
      let (matched, captured) = compare c.operator value c.value in
      record {
        condition = c;
        matched = matched;
        captured = captured;
        saying = verdict matched value;
      }

  -- the loop that returns at the first value that satisfies the condition
  first_match : Condition → String → List String → Outcome
  first_match c seen [] = record {
    condition = c;
    matched = false;
    captured = [];
    saying = verdict false seen;
  }
  first_match c seen (value ∷ values) =
      let rest = first_match c seen values in
      if (compare c.operator value c.value).0
      then record {
        condition = c;
        matched = true;
        captured = (compare c.operator value c.value).1;
        saying = verdict true value;
      }
      else rest

  seen_or_nothing : List String → String
  seen_or_nothing values = let said = join ", " values in if said == "" then "nothing" else said

  unfoldable pub test_texts : Condition → List String → Outcome
  unfolding first_match seen_or_nothing
  test_texts c values =
      if is_negation c.operator
      then (let matched = all (λ value. (compare c.operator value c.value).0) values in
          record {
            condition = c;
            matched = matched;
            captured = [];
            saying = verdict matched (join ", " values);
          })
      else first_match c (seen_or_nothing values) values

  compare_number : Operator → Num → Num → Bool
  compare_number equals value wanted = num_eq value wanted
  compare_number at_least value wanted = num_le wanted value
  compare_number at_most value wanted = num_le value wanted
  compare_number _ value wanted = false

  -- `float(self.value)` was checked when the condition was read.
  test_known : Condition → Num → Option Num → Outcome
  unfolding compare_number
  test_known c value none = record {
    condition = c;
    matched = false;
    captured = [];
    saying = not_known c.field;
  }
  test_known c value (some wanted) =
      let matched = compare_number c.operator value wanted in
      record {
        condition = c;
        matched = matched;
        captured = [];
        saying = verdict matched (show_float value);
      }

  unfoldable pub test_number : Condition → Option Num → Outcome
  unfolding test_known
  test_number c none = record {
    condition = c;
    matched = false;
    captured = [];
    saying = not_known c.field;
  }
  test_number c (some value) = test_known c value (read_float c.value)

  unfoldable pub test : Condition → Facts Num → Outcome
  test c facts = elim (spec c.field).kind [
    | number ↦ test_number c (facts.read_number (spec c.field).key)
    | texts ↦ test_texts c (facts.read_list (spec c.field).key)
    | text ↦ test_text c (facts.read_text (spec c.field).key)
  ]

  condition-first_match :
      (c : Condition) (seen : String) (values : List String)
      → (first_match c seen values).condition ≡ c
  unfolding first_match
  condition-first_match c seen [] = refl
  condition-first_match c seen (value ∷ values) =
      ground (arith, condition-first_match c seen values)

  -- The condition of an outcome is the one that was tested.
  pub condition-test : (c : Condition) (facts : Facts Num) → (test c facts).condition ≡ c
  unfolding test test_text test_number test_texts
  condition-test c facts = ground (
    arith,
    condition-first_match c (seen_or_nothing (facts.read_list (spec c.field).key))
        (facts.read_list (spec c.field).key),
  )
