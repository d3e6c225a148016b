-- ===== src/Conditions/Breadth.antt =====
-- What `check_breadth` of adminos/domain/conditions.py protects a review from.
use timmeny_admin_os.Common.{
  Bool, true, false, ◌&&◌, ◌||◌, ◌≡◌, refl, none, [], arith, any, all, is_empty, ok,
}
use timmeny_admin_os.Conditions.Fields.{Engine, Facts, spec, is_negation}
use timmeny_admin_os.Conditions.Leaf
use timmeny_admin_os.Conditions.Leaf.{Condition}
use timmeny_admin_os.Conditions.Tree.{
  Test, Tests, Group, leaf, branch, nil, cons, group, hit, is_nil, run_test, run_tests, run_group,
  test_narrows, any_narrows, all_narrow, group_narrows, check_breadth,
}

-- Nothing to go by: no subject, no preview, no address and no domain.
pub record IsBlank {Num : Type 0} (facts : Facts Num) : Type 0 where
  pub subject : facts.read_text "subject" ≡ none
  pub snippet : facts.read_text "snippet" ≡ none
  pub participants : facts.read_list "participant" ≡ []
  pub domains : facts.read_list "participant_domain" ≡ []

module _ (e : Engine) (facts : Facts e.Num) where
  -- A condition somewhere in the tree, outside every `none`, that narrows and that matched.
  mutual
    pub pinned : Test → Bool
    pinned (leaf c) = Leaf.narrows e c && (Leaf.test e c facts).matched
    pinned (branch g) = pinned_group g

    pub any_pinned : Tests → Bool
    any_pinned nil = false
    any_pinned (cons t ts) = pinned t || any_pinned ts

    pub pinned_group : Group → Bool
    pinned_group (group every either never) = any_pinned every || any_pinned either

  is_empty-run_tests : (ts : Tests) → is_empty (run_tests e ts facts) ≡ is_nil ts
  unfolding run_tests
  is_empty-run_tests nil = refl
  is_empty-run_tests (cons t ts) = refl

  mutual
    unfolding run_tests pinned test_narrows

    test_pinned :
        (t : Test) → test_narrows e t ≡ true → (run_test e t facts).matched ≡ true → pinned t ≡ true
    test_pinned (leaf c) n m = ground arith
    test_pinned (branch g) n m = group_pinned g n m

    every_pinned :
        (ts : Tests)
        → any_narrows e ts ≡ true
        → all hit (run_tests e ts facts) ≡ true
        → any_pinned ts ≡ true
    every_pinned nil n m = n
    every_pinned (cons t ts) n m = ground (arith, test_pinned t, every_pinned ts)

    either_pinned :
        (ts : Tests)
        → all_narrow e ts ≡ true
        → any hit (run_tests e ts facts) ≡ true
        → any_pinned ts ≡ true
    either_pinned nil n m = m
    either_pinned (cons t ts) n m = ground (arith, test_pinned t, either_pinned ts)

    group_pinned :
        (g : Group)
        → group_narrows e g ≡ true
        → (run_group e g facts).matched ≡ true
        → pinned_group g ≡ true
    group_pinned (group every either never) n m =
        ground (arith, every_pinned every, either_pinned either, is_empty-run_tests either)

  -- A condition that narrows needs something to match.
  leaf_blank :
      (c : Condition)
      → IsBlank facts
      → Leaf.narrows e c ≡ true
      → (Leaf.test e c facts).matched ≡ false
  unfolding Leaf.narrows Leaf.test Leaf.test_text Leaf.test_texts spec is_negation
  leaf_blank c h n = ground arith

  mutual
    unfolding pinned

    blank_unpinned : (t : Test) → IsBlank facts → pinned t ≡ false
    blank_unpinned (leaf c) h = ground (arith, leaf_blank c h)
    blank_unpinned (branch g) h = blank_group_unpinned g h

    blank_none_pinned : (ts : Tests) → IsBlank facts → any_pinned ts ≡ false
    blank_none_pinned nil h = refl
    blank_none_pinned (cons t ts) h = ground (arith, blank_unpinned t h, blank_none_pinned ts h)

    blank_group_unpinned : (g : Group) → IsBlank facts → pinned_group g ≡ false
    blank_group_unpinned (group every either never) h =
        ground (arith, blank_none_pinned every h, blank_none_pinned either h)

  -- A tree that passes `check_breadth` and matches an email does so because of a condition,
  -- outside every `none`, that narrows and that itself matched.
  pub breadth_pins :
      (g : Group)
      → check_breadth e g ≡ ok tt
      → (run_group e g facts).matched ≡ true
      → pinned_group g ≡ true
  unfolding check_breadth
  breadth_pins g h m = ground (arith, group_pinned g)

  -- A tree that passes `check_breadth` never matches an email with no subject, preview, address or
  -- domain to go by, whatever its labels, review group and age.
  pub breadth_refuses_blank :
      (g : Group)
      → check_breadth e g ≡ ok tt
      → IsBlank facts
      → (run_group e g facts).matched ≡ false
  breadth_refuses_blank g h b = ground (arith, breadth_pins g h, blank_group_unpinned g b)
