-- ===== src/Scopes/Single.antt =====
-- adminos/domain/scopes.py: which preparations of a review can still be executed.
use timmeny_admin_os.Common.{
  ℕ, String, Bool, true, false, ◌≡◌, refl, ◌∙◌, ◌⊎◌, inl, inr, arith, Option, none, some, List, [],
  ◌∷◌, ◌++◌, Bool-cases, keep, eq_refl,
}
use timmeny_admin_os.Actions.Rows.{ReviewAction}
use timmeny_admin_os.Scopes.{
  superseded, ExcludedItem, ActionScope, is_current, covers, is_open_scope, read_open_scopes,
  is_kept, superseded_row, supersede_open_scopes, new_scope, open_scope,
}

-- The row was open, for this capability or for any, and is open no longer; or it is as it was.
abbrev pub IsSuperseded : String → Option String → ActionScope → ActionScope → Type 0
IsSuperseded run_id capability_key before after =
    ((is_open_scope run_id capability_key before ≡ true)
      × (after ≡ record before { state = superseded; superseded_by = none }))
    ⊎ ((is_open_scope run_id capability_key before ≡ false) × (after ≡ before))

superseded_row-closed :
    (run_id : String) (capability_key : Option String) (s : ActionScope)
    → is_open_scope run_id capability_key (superseded_row run_id capability_key none s) ≡ false
unfolding superseded_row is_kept is_open_scope is_current
superseded_row-closed run_id capability_key s =
    elim (Bool-cases (is_open_scope run_id capability_key s)) [
      | inl e ↦ rw e (ground arith)
      | inr e ↦ rw e e
    ]

pub superseded-none_open :
    (run_id : String) (capability_key : Option String) (scopes : List ActionScope)
    → read_open_scopes run_id capability_key
        (supersede_open_scopes run_id capability_key none scopes)
      ≡ []
unfolding read_open_scopes supersede_open_scopes
superseded-none_open run_id capability_key [] = refl
superseded-none_open run_id capability_key (s ∷ scopes) =
    rw (superseded_row-closed run_id capability_key s)
      (superseded-none_open run_id capability_key scopes)

keep-append :
    (p : ActionScope → Bool) (xs ys : List ActionScope) → keep p (xs ++ ys) ≡ keep p xs ++ keep p ys
keep-append p [] ys = refl
keep-append p (x ∷ xs) ys = elim (Bool-cases (p x)) [
  | inl e ↦ rw e (rw (keep-append p xs ys) refl)
  | inr e ↦ rw e (keep-append p xs ys)
]

covers-own : (key : Option String) → covers key key ≡ true
unfolding covers
covers-own none = refl
covers-own (some key) = eq_refl key

-- After `open_scope`, the scope that it made is the one scope of the review and the capability that
-- can still be executed, whatever stood open before.
pub open_scope-alone :
    (id run_id : String) (capability_key : Option String) (entire_capability : Bool)
    (requested : List String) (actions : List ReviewAction) (excluded : List ExcludedItem)
    (actor : String) (now : ℕ) (scopes : List ActionScope)
    → read_open_scopes run_id capability_key
        (open_scope id run_id capability_key entire_capability requested actions excluded actor now
          scopes).1
      ≡ (open_scope id run_id capability_key entire_capability requested actions excluded actor now
          scopes).0
        ∷ []
unfolding open_scope read_open_scopes is_open_scope is_current new_scope
open_scope-alone id run_id capability_key entire_capability requested actions excluded actor now
      scopes =
    let scope =
      new_scope id run_id capability_key entire_capability requested actions excluded actor now in
    keep-append (is_open_scope run_id capability_key)
      (supersede_open_scopes run_id capability_key none scopes) (scope ∷ [])
    ∙ rw (superseded-none_open run_id capability_key scopes)
        (rw (eq_refl run_id) (rw (covers-own capability_key) refl))
