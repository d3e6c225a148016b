-- ===== src/Common/Sorting.antt =====
-- Stable sorting by a number: what is kept, and the order.
use Prim.Native.Nat.{ℕ, ◌≤◌}
use mathlib.Core.Path.{refl, sym, subst}
use mathlib.Core.Logic.{inl, inr}
use mathlib.Core.List.{List, [], ◌∷◌}
use native.Mathlib.Omega.{arith}
use timmeny_admin_os.Common.Tests.{leb, leb→le, Bool-cases}
use timmeny_admin_os.Common.Lists.{All, Among, insert_by, sort_by}

module _ {A : Type 0} (key : A → ℕ) where
  unfoldable pub IsSorted : List A → Type 0
  IsSorted [] = Unit
  IsSorted (x ∷ xs) = All (λ y. key x ≤ key y) xs × IsSorted xs

  insert_by-All :
      (P : A → Type 0) (x : A) (xs : List A) → P x → All P xs → All P (insert_by key x xs)
  insert_by-All P x [] h hs = (h, tt)
  insert_by-All P x (y ∷ ys) h hs = elim (Bool-cases (leb (key x) (key y))) [
    | inl e ↦ rw e (h, hs)
    | inr e ↦ rw e (hs.0, insert_by-All P x ys h hs.1)
  ]

  pub sort_by-All : (P : A → Type 0) (xs : List A) → All P xs → All P (sort_by key xs)
  sort_by-All P [] h = tt
  sort_by-All P (x ∷ xs) h = insert_by-All P x (sort_by key xs) h.0 (sort_by-All P xs h.1)

  insert_by-first : (x : A) (xs : List A) → Among x (insert_by key x xs)
  insert_by-first x [] = inl refl
  insert_by-first x (y ∷ ys) = elim (Bool-cases (leb (key x) (key y))) [
    | inl e ↦ rw e (inl refl)
    | inr e ↦ rw e (inr (insert_by-first x ys))
  ]

  insert_by-Among : (a x : A) (xs : List A) → Among a xs → Among a (insert_by key x xs)
  insert_by-Among a x [] h = absurd h
  insert_by-Among a x (y ∷ ys) h = elim (Bool-cases (leb (key x) (key y))) [
    | inl e ↦ rw e (inr h)
    | inr e ↦ rw e (elim h [ inl first ↦ inl first | inr k ↦ inr (insert_by-Among a x ys k) ])
  ]

  pub sort_by-Among : (a : A) (xs : List A) → Among a xs → Among a (sort_by key xs)
  sort_by-Among a [] h = absurd h
  sort_by-Among a (x ∷ xs) (inl e) =
      subst (λ b. Among b (insert_by key x (sort_by key xs))) (sym e)
        (insert_by-first x (sort_by key xs))
  sort_by-Among a (x ∷ xs) (inr h) = insert_by-Among a x (sort_by key xs) (sort_by-Among a xs h)

  le-All : (n m : ℕ) (ys : List A) → n ≤ m → All (λ y. m ≤ key y) ys → All (λ y. n ≤ key y) ys
  le-All n m [] h hs = tt
  le-All n m (y ∷ ys) h hs = (omega (arith, h, hs.0), le-All n m ys h hs.1)

  insert_by-IsSorted : (x : A) (xs : List A) → IsSorted xs → IsSorted (insert_by key x xs)
  unfolding IsSorted
  insert_by-IsSorted x [] h = (tt, tt)
  insert_by-IsSorted x (y ∷ ys) h = elim (Bool-cases (leb (key x) (key y))) [
    | inl e ↦
        let below = leb→le (key x) (key y) e in
        rw e ((below, le-All (key x) (key y) ys below h.0), h)
    | inr e ↦ rw e (
      insert_by-All (λ z. key y ≤ key z) x ys (ground (arith, e)) h.0,
      insert_by-IsSorted x ys h.1,
    )
  ]

  pub sort_by-IsSorted : (xs : List A) → IsSorted (sort_by key xs)
  unfolding IsSorted
  sort_by-IsSorted [] = tt
  sort_by-IsSorted (x ∷ xs) = insert_by-IsSorted x (sort_by key xs) (sort_by-IsSorted xs)
