-- ===== src/Conditions/Tree.antt =====
-- `ConditionGroup` of adminos/domain/conditions.py: trees of `all`, `any` and `none` over
-- conditions, their validation, and their evaluation with an explanation.
use timmeny_admin_os.Common.{
  ℕ, suc, max, String, Bool, true, false, not, ◌&&◌, ◌||◌, List, [], ◌∷◌, ◌++◌, map, ◌==◌, ltb,
  if◌then◌else◌, all, any, is_empty, Result, ◌>>◌, refuse_if,
}
use timmeny_admin_os.Conditions.Fields.{Engine, Facts}
use timmeny_admin_os.Conditions.Leaf.{
  Condition, Outcome, Problem, empty_group, too_deep, too_broad, must_not_match,
}
use timmeny_admin_os.Conditions.Leaf

abbrev pub maximum_depth : ℕ
maximum_depth = 4

mutual
  pub data Test : Type 0 where
    leaf : Condition → Test
    branch : Group → Test

  pub data Tests : Type 0 where
    nil : Tests
    cons : Test → Tests → Tests

  -- the fields `all`, `any` and `none`
  pub data Group : Type 0 where
    group : Tests → Tests → Tests → Group

abbrev pub is_nil : Tests → Bool
is_nil nil = true
is_nil (cons t ts) = false

-- `depth_of`, and the deepest of a list of tests with `level` as the default of `max`.
unfoldable mutual
  pub depth_of : Test → ℕ → ℕ
  depth_of (leaf c) level = level
  depth_of (branch g) level = group_depth g level

  pub deepest : Tests → ℕ → ℕ
  deepest nil level = 0
  deepest (cons t ts) level = max (depth_of t level) (deepest ts level)

  pub group_depth : Group → ℕ → ℕ
  group_depth (group every either never) level = max level (
      max (deepest every (suc level))
        (max (deepest either (suc level)) (deepest never (suc level))))

-- `check_not_empty`; the groups below were checked when they were read.
unfoldable pub check_not_empty : Group → Result Problem (Unit {0})
check_not_empty (group every either never) = do
  refuse_if (is_nil every && is_nil either && is_nil never) empty_group
  refuse_if (ltb maximum_depth (group_depth (group every either never) 1)) too_deep

pub record Match : Type 0 where
  pub matched : Bool
  pub outcomes : List Outcome
  pub captured : List (String × String)

-- `dict.update`: a later value replaces an earlier one.
abbrev put : String → String → List (String × String) → List (String × String)
put k v [] = (k, v) ∷ []
put k v ((j, w) ∷ rest) = if j == k then (k, v) ∷ rest else (j, w) ∷ put k v rest

abbrev update : List (String × String) → List (String × String) → List (String × String)
update found [] = found
update found ((k, v) ∷ more) = update (put k v found) more

unfoldable pub captures : List (String × String) → List Outcome → List (String × String)
captures found [] = found
captures found (o ∷ os) = captures (if o.matched then update found o.captured else found) os

-- A condition's outcome read as `test.test(facts)` is by a group.
abbrev pub match_of : Outcome → Match
match_of o = record { matched = o.matched; outcomes = o ∷ []; captured = o.captured }

abbrev pub all_outcomes : List Match → List Outcome
all_outcomes [] = []
all_outcomes (r ∷ rs) = r.outcomes ++ all_outcomes rs

abbrev pub forbidden : Outcome → Outcome
forbidden o = record o { saying = must_not_match o.saying }

abbrev pub hit : Match → Bool
hit r = r.matched

abbrev pub missed : Match → Bool
missed r = not r.matched

-- The three loops of `ConditionGroup.test` over the results of their tests.
unfoldable pub combine : List Match → List Match → List Match → Match
combine every either never =
    let outcomes =
      all_outcomes every ++ (all_outcomes either ++ map forbidden (all_outcomes never)) in
    record {
      matched =
          all hit every && ((if is_empty either then true else any hit either) && all missed never);
      outcomes = outcomes;
      captured = captures [] outcomes;
    }

module _ (e : Engine) where
  open e use {Num}

  unfoldable mutual
    unfolding combine

    pub run_test : Test → Facts Num → Match
    run_test (leaf c) facts = match_of (Leaf.test e c facts)
    run_test (branch g) facts = run_group g facts

    pub run_tests : Tests → Facts Num → List Match
    run_tests nil facts = []
    run_tests (cons t ts) facts = run_test t facts ∷ run_tests ts facts

    -- `ConditionGroup.test`
    pub run_group : Group → Facts Num → Match
    run_group (group every either never) facts =
        combine (run_tests every facts) (run_tests either facts) (run_tests never facts)

  unfoldable mutual
    pub test_narrows : Test → Bool
    test_narrows (leaf c) = Leaf.narrows e c
    test_narrows (branch g) = group_narrows g

    pub any_narrows : Tests → Bool
    any_narrows nil = false
    any_narrows (cons t ts) = test_narrows t || any_narrows ts

    pub all_narrow : Tests → Bool
    all_narrow nil = true
    all_narrow (cons t ts) = test_narrows t && all_narrow ts

    -- `ConditionGroup.narrows`
    pub group_narrows : Group → Bool
    group_narrows (group every either never) =
        not (is_nil every) && any_narrows every || not (is_nil either) && all_narrow either

  unfoldable pub check_breadth : Group → Result Problem (Unit {0})
  check_breadth g = refuse_if (not (group_narrows g)) too_broad
