-- ===== src/Conditions/Explains.antt =====
-- A match of adminos/domain/conditions.py accounts for each condition of its tree.
use mathlib.Core.List.{map-append}
use timmeny_admin_os.Common.{◌≡◌, refl, ap, List, [], ◌∷◌, ◌++◌, map}
use timmeny_admin_os.Conditions.Fields.{Engine, Facts}
use timmeny_admin_os.Conditions.Leaf
use timmeny_admin_os.Conditions.Leaf.{Condition, Outcome}
use timmeny_admin_os.Conditions.Tree.{
  Test, Tests, Group, leaf, branch, nil, cons, group, all_outcomes, forbidden, run_test, run_tests,
  run_group,
}

-- The conditions of a tree in the order in which they are written.
mutual
  pub leaves : Test → List Condition
  leaves (leaf c) = c ∷ []
  leaves (branch g) = group_leaves g

  pub all_leaves : Tests → List Condition
  all_leaves nil = []
  all_leaves (cons t ts) = leaves t ++ all_leaves ts

  pub group_leaves : Group → List Condition
  group_leaves (group every either never) =
      all_leaves every ++ (all_leaves either ++ all_leaves never)

abbrev pub conditions : List Outcome → List Condition
conditions = map (λ o. o.condition)

conditions-forbidden : (os : List Outcome) → conditions (map forbidden os) ≡ conditions os
conditions-forbidden [] = refl
conditions-forbidden (o ∷ os) = ap (λ rest. o.condition ∷ rest) (conditions-forbidden os)

module _ (e : Engine) (facts : Facts e.Num) where
  mutual
    unfolding run_tests leaves

    test_explained : (t : Test) → conditions (run_test e t facts).outcomes ≡ leaves t
    test_explained (leaf c) = ap (λ d. d ∷ []) (Leaf.condition-test e c facts)
    test_explained (branch g) = group_explained g

    tests_explained :
        (ts : Tests) → conditions (all_outcomes (run_tests e ts facts)) ≡ all_leaves ts
    tests_explained nil = refl
    tests_explained (cons t ts) = simp (map-append, test_explained t, tests_explained ts)

    group_explained : (g : Group) → conditions (run_group e g facts).outcomes ≡ group_leaves g
    group_explained (group every either never) = simp (
      map-append,
      conditions-forbidden,
      tests_explained every,
      tests_explained either,
      tests_explained never,
    )

  -- The explanation of a match names each condition of the tree once, in the order in which they
  -- are written, whether it matched or not: none is passed over, and none is added.
  pub explanation_complete :
      (g : Group) → conditions (run_group e g facts).outcomes ≡ group_leaves g
  explanation_complete g = group_explained g
