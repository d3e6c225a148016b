-- ===== src/Plan/Arrange.antt =====
-- `arrange`, `set_aside` and `check_known` of adminos/domain/plan.py.
pub mod Order
use timmeny_admin_os.Common.{
  String, Bool, true, false, not, Option, none, some, List, [], ◌∷◌, ◌++◌, ◌==◌, if◌then◌else◌,
  elem, all, keep, is_empty, text_leb, Result, ok, raised, ◌>>=◌, ◌>>◌, refuse_if,
}

pub data PlanRefused : Type 0 where
  unknown_group : List String → PlanRefused
  nothing_to_work : PlanRefused

-- `list(dict.fromkeys(keys))`: each key once, where it first stands.
unfoldable pub dedupe : List String → List String
dedupe [] = []
dedupe (key ∷ keys) = key ∷ keep (λ k. not (k == key)) (dedupe keys)

-- `sorted(keys)`.
abbrev insert_key : String → List String → List String
insert_key key [] = key ∷ []
insert_key key (k ∷ keys) =
    let later = k ∷ insert_key key keys in if text_leb key k then key ∷ k ∷ keys else later

unfoldable pub sort_keys : List String → List String
sort_keys [] = []
sort_keys (key ∷ keys) = insert_key key (sort_keys keys)

-- `order`, `only` and `skip` may be absent, which reads as the empty list.
abbrev pub or_none : Option (List String) → List String
or_none none = []
or_none (some keys) = keys

unfoldable pub check_known : List String → List String → Result PlanRefused (Unit {0})
check_known configured named =
    let unknown = keep (λ key. not (elem key configured)) named in
    refuse_if (not (is_empty unknown)) (unknown_group unknown)

unfoldable pub named_first : List String → List String → List String
unfolding dedupe
named_first configured order =
    let named = dedupe order in named ++ keep (λ key. not (elem key named)) configured

unfoldable pub arrange : List String → Option (List String) → Result PlanRefused (List String)
unfolding check_known named_first
arrange configured order =
    if is_empty (or_none order)
    then ok configured
    else check_known configured (or_none order) >> ok (named_first configured (or_none order))

-- A set of keys is a list without repetitions.
unfoldable pub set_aside :
    List String
    → List String
    → Option (List String)
    → Option (List String)
    → Result PlanRefused (List String)
unfolding check_known dedupe
set_aside configured sequence only skip =
    if not (is_empty (or_none only))
    then check_known configured (or_none only)
      >> ok (dedupe (keep (λ key. not (elem key (or_none only))) sequence))
    else if not (is_empty (or_none skip))
    then check_known configured (or_none skip) >> ok (dedupe (or_none skip))
    else ok []

-- `set(xs) == set(ys)`.
unfoldable pub same_set : List String → List String → Bool
same_set xs ys = if all (λ x. elem x ys) xs then all (λ y. elem y xs) ys else false
