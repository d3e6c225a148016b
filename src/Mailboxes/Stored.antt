-- ===== src/Mailboxes/Stored.antt =====
-- A scope that a run stores is read back as it was (adminos/domain/mailboxes.py).
use timmeny_admin_os.Common.{
  String, Bool, true, false, ◌≡◌, refl, subst, Bool-cases, inl, inr, Option, none, some, ◌==◌, obj,
  get,
}
use timmeny_admin_os.Mailboxes.{
  ReviewScope, find_named, asked_for, read_scope, as_json, truth, scope_named, read_stored_scope,
  inbox_scope, archived_scope, snoozed_scope, everything_scope,
}

abbrev IsStored : Bool → ReviewScope → Type 0
IsStored requested s =
    read_stored_scope (obj (as_json (asked_for requested s))) ≡ asked_for requested s

same_scope : {s t : ReviewScope} → some s ≡ some t → s ≡ t
same_scope h = cc

IsStored-same :
    (requested : Bool) (s t : ReviewScope)
    → some s ≡ some t
    → IsStored requested s
    → IsStored requested t
IsStored-same requested s t h k = subst (IsStored requested) (same_scope h) k

-- A scope that is found by a name is one of the four, and is stored under a name that finds it.
find_named-IsStored :
    (name : String) (s : ReviewScope) (requested : Bool)
    → find_named name ≡ some s
    → IsStored requested s
unfolding find_named read_stored_scope scope_named truth as_json get
find_named-IsStored name s requested h = elim (Bool-cases (name == "inbox")) [
  | inl e ↦ IsStored-same requested inbox_scope s (rw e at h) refl
  | inr e ↦ elim (Bool-cases (name == "archived")) [
    | inl f ↦ IsStored-same requested archived_scope s (rw f at (rw e at h)) refl
    | inr f ↦ elim (Bool-cases (name == "snoozed")) [
      | inl g ↦ IsStored-same requested snoozed_scope s (rw g at (rw f at (rw e at h))) refl
      | inr g ↦ elim (Bool-cases (name == "everything")) [
        | inl k ↦
            IsStored-same requested everything_scope s (rw k at (rw g at (rw f at (rw e at h))))
              refl
        | inr k ↦ let impossible = rw k at (rw g at (rw f at (rw e at h))) in cc
      ]
    ]
  ]
]

default-IsStored : IsStored false inbox_scope
unfolding find_named read_stored_scope scope_named truth as_json get
default-IsStored = refl

-- The scope that a caller is given, by a name or by none, is the one that is read back from the JSON
-- that a run stores of it, with whether it was asked for.
pub read_stored-as_json :
    (name : Option String) (scope : ReviewScope)
    → read_scope name ≡ some scope
    → read_stored_scope (obj (as_json scope)) ≡ scope
unfolding read_scope
read_stored-as_json none scope h =
    subst (λ s. read_stored_scope (obj (as_json s)) ≡ s) (same_scope h) default-IsStored
read_stored-as_json (some name) scope h = found (find_named name) refl h
  where
    found :
        (o : Option ReviewScope)
        → find_named name ≡ o
        → elim o [ none ↦ none | some s ↦ some (asked_for true s) ] ≡ some scope
        → read_stored_scope (obj (as_json scope)) ≡ scope
    found none e k = cc
    found (some s) e k =
        subst (λ t. read_stored_scope (obj (as_json t)) ≡ t) (same_scope k)
          (find_named-IsStored name s true e)
