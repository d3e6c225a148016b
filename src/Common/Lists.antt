-- ===== src/Common/Lists.antt =====
-- Lists of the program: lengths, Boolean quantifiers, membership of texts, and predicates.
use Prim.Native.Nat.{ℕ, suc, ◌+◌}
use Prim.Native.String.{String}
use mathlib.Core.Path.{◌≡◌, refl, sym, subst}
use mathlib.Core.Logic.{◌⊎◌, inl, inr}
use mathlib.Core.Bool.{Bool, true, false, ◌&&◌, ◌||◌}
use mathlib.Core.List.{List, [], ◌∷◌, ◌++◌}
use native.Mathlib.Omega.{arith}
use text.Mathlib.Text.{◌==◌}
use text.Mathlib.TextEquality.{eq_iff}
use timmeny_admin_os.Common.Tests.{if◌then◌else◌, leb}

module _ {ℓ} {A : Type ℓ} where
  abbrev pub length : List A → ℕ
  length [] = 0
  length (_ ∷ xs) = suc (length xs)

  -- Python's `any(p(x) for x in xs)` and `all(p(x) for x in xs)`.
  abbrev pub any : (A → Bool) → List A → Bool
  any p [] = false
  any p (x ∷ xs) = p x || any p xs

  abbrev pub all : (A → Bool) → List A → Bool
  all p [] = true
  all p (x ∷ xs) = p x && all p xs

  -- `[x for x in xs if p(x)]`.
  abbrev pub keep : (A → Bool) → List A → List A
  keep p [] = []
  keep p (x ∷ xs) = let rest = keep p xs in if p x then x ∷ rest else rest

  abbrev pub is_empty : List A → Bool
  is_empty [] = true
  is_empty (x ∷ xs) = false

  -- `sorted(xs, key=key)`, stable: an earlier element stays before a later one of the same key.
  abbrev pub insert_by : (A → ℕ) → A → List A → List A
  insert_by key x [] = x ∷ []
  insert_by key x (y ∷ ys) =
      let later = y ∷ insert_by key x ys in if leb (key x) (key y) then x ∷ y ∷ ys else later

  abbrev pub sort_by : (A → ℕ) → List A → List A
  sort_by key [] = []
  sort_by key (x ∷ xs) = insert_by key x (sort_by key xs)

  -- `ORDER BY`, stable: `first x y` where `x` may stand before `y`.
  abbrev pub insert_with : (A → A → Bool) → A → List A → List A
  insert_with first x [] = x ∷ []
  insert_with first x (y ∷ ys) =
      let later = y ∷ insert_with first x ys in if first x y then x ∷ y ∷ ys else later

  abbrev pub order_by : (A → A → Bool) → List A → List A
  order_by first [] = []
  order_by first (x ∷ xs) = insert_with first x (order_by first xs)

  pub length-append : (xs ys : List A) → length (xs ++ ys) ≡ length xs + length ys
  length-append [] ys = omega arith
  length-append (x ∷ xs) ys = omega (arith, length-append xs ys)

  abbrev pub All {κ} : (A → Type κ) → List A → Type κ
  All P [] = Unit
  All P (x ∷ xs) = P x × All P xs

  pub All-append {κ} : (P : A → Type κ) (xs ys : List A) → All P xs → All P ys → All P (xs ++ ys)
  All-append P [] ys h k = k
  All-append P (x ∷ xs) ys h k = (h.0, All-append P xs ys h.1 k)

-- `s in xs` for a list of texts.
abbrev pub elem : String → List String → Bool
elem s [] = false
elem s (x ∷ xs) = x == s || elem s xs

pub elem-append : (s : String) (xs ys : List String) → elem s (xs ++ ys) ≡ (elem s xs || elem s ys)
elem-append s [] ys = refl
elem-append s (x ∷ xs) ys = ground (arith, elem-append s xs ys)

pub elem-keep :
    (s : String) (p : String → Bool) (xs : List String) → elem s (keep p xs) ≡ (p s && elem s xs)
elem-keep s p [] = ground arith
elem-keep s p (x ∷ xs) = ground (arith, elem-keep s p xs, eq_iff x s)

module _ {A : Type 0} where
  -- Some element of the list is this one.
  abbrev pub Among : A → List A → Type 0
  Among x [] = ⊥
  Among x (y ∷ ys) = (x ≡ y) ⊎ Among x ys

  pub All-Among : (P : A → Type 0) (x : A) (xs : List A) → All P xs → Among x xs → P x
  All-Among P x [] h among = absurd among
  All-Among P x (y ∷ ys) h (inl e) = subst P (sym e) h.0
  All-Among P x (y ∷ ys) h (inr later) = All-Among P x ys h.1 later
