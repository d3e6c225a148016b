-- ===== src/Review/Reading.antt =====
-- The readings of adminos/domain/review.py: a run, its groups and their items, in their order.
use timmeny_admin_os.Common.{
  ℕ, String, Bool, true, false, ◌&&◌, Option, none, some, List, [], ◌∷◌, ◌==◌, if◌then◌else◌, keep,
  sort_by, order_by, ltb, leb, nat_eqb, Result, ok, raised,
}
use timmeny_admin_os.Actions.Rows.{ReviewItem, find_item}
use timmeny_admin_os.Review.Rows.{ReviewRun, ReviewGroup, find_run}

-- `ReviewNotFound`: a run, a group, or an item.
pub data ReviewNotFound : Type 0 where
  no_run no_group no_item : String → ReviewNotFound
  no_review : ReviewNotFound

unfoldable pub read_run : String → List ReviewRun → Result ReviewNotFound ReviewRun
unfolding find_run
read_run id runs = elim (find_run id runs) [ none ↦ raised (no_run id) | some run ↦ ok run ]

unfoldable pub read_groups : String → List ReviewGroup → List ReviewGroup
read_groups run_id groups = sort_by (λ g. g.position) (keep (λ g. g.run_id == run_id) groups)

unfoldable pub find_group : String → String → List ReviewGroup → Option ReviewGroup
find_group run_id key [] = none
find_group run_id key (g ∷ gs) =
    if g.run_id == run_id && g.capability_key == key then some g else find_group run_id key gs

unfoldable pub read_group : String → String → List ReviewGroup → Result ReviewNotFound ReviewGroup
unfolding find_group
read_group run_id key groups = elim (find_group run_id key groups) [
  | none ↦ raised (no_group key)
  | some group ↦ ok group
]

-- `session.get(ReviewGroup, id)`.
unfoldable pub group_with_id : String → List ReviewGroup → Option ReviewGroup
group_with_id id [] = none
group_with_id id (g ∷ gs) = if g.id == id then some g else group_with_id id gs

-- `ORDER BY received_at DESC NULLS LAST, created_at`.
newer : Option ℕ → Option ℕ → ℕ → ℕ → Bool
newer none none made other = leb made other
newer none (some n) made other = false
newer (some m) none made other = true
newer (some m) (some n) made other = if nat_eqb m n then leb made other else ltb n m

unfoldable pub stands_before : ReviewItem → ReviewItem → Bool
unfolding newer
stands_before a b = newer a.received_at b.received_at a.created_at b.created_at

unfoldable pub read_group_items : String → List ReviewItem → List ReviewItem
unfolding stands_before
read_group_items group_id items = order_by stands_before (keep (λ i. i.group_id == group_id) items)

item_of_run : String → String → Option ReviewItem → Result ReviewNotFound ReviewItem
item_of_run run_id id none = raised (no_item id)
item_of_run run_id id (some item) = if item.run_id == run_id then ok item else raised (no_item id)

unfoldable pub read_item : String → String → List ReviewItem → Result ReviewNotFound ReviewItem
unfolding item_of_run find_item
read_item run_id id items = item_of_run run_id id (find_item id items)
