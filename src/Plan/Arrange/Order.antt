-- ===== src/Plan/Arrange/Order.antt =====
-- The orders that `arrange` gives and the sets that `set_aside` leaves out.
use timmeny_admin_os.Common.{
  String, Bool, true, false, not, ◌||◌, ◌≡◌, refl, sym, ap, subst, ◌∙◌, ◌>>◌, Option, List, [], ◌∷◌,
  ◌++◌, ◌==◌, Bool-cases, inl, inr, arith, eq_iff, eq_refl, elem, keep, all, is_empty, elem-append,
  elem-keep, Result, ok, then-ok, refuse_if-ok, ok-injective,
}
use timmeny_admin_os.Plan.Arrange.{
  PlanRefused, dedupe, insert_key, sort_keys, or_none, check_known, named_first, arrange, set_aside,
  same_set,
}

unfoldable pub IsDistinct : List String → Type 0
IsDistinct [] = Unit
IsDistinct (x ∷ xs) = (elem x xs ≡ false) × IsDistinct xs

keep-absent :
    (s : String) (p : String → Bool) (xs : List String)
    → elem s xs ≡ false
    → elem s (keep p xs) ≡ false
keep-absent s p xs h = ground (arith, elem-keep s p xs, h)

pub keep-IsDistinct :
    (p : String → Bool) (xs : List String) → IsDistinct xs → IsDistinct (keep p xs)
unfolding IsDistinct
keep-IsDistinct p [] h = tt
keep-IsDistinct p (x ∷ xs) h = elim (Bool-cases (p x)) [
  | inl e ↦ rw e (keep-absent x p xs h.0, keep-IsDistinct p xs h.1)
  | inr e ↦ rw e (keep-IsDistinct p xs h.1)
]

pub elem-dedupe : (s : String) (xs : List String) → elem s (dedupe xs) ≡ elem s xs
unfolding dedupe
elem-dedupe s [] = refl
elem-dedupe s (x ∷ xs) =
    ground
      (arith, elem-keep s (λ k. not (k == x)) (dedupe xs), elem-dedupe s xs, eq_iff x s, eq_iff s x)

dedupe-IsDistinct : (xs : List String) → IsDistinct (dedupe xs)
unfolding dedupe IsDistinct
dedupe-IsDistinct [] = tt
dedupe-IsDistinct (x ∷ xs) = (
  elem-keep x (λ k. not (k == x)) (dedupe xs) ∙ rw (eq_refl x) refl,
  keep-IsDistinct (λ k. not (k == x)) (dedupe xs) (dedupe-IsDistinct xs),
)

append-IsDistinct :
    (xs ys : List String)
    → IsDistinct xs
    → IsDistinct ys
    → ((s : String) → elem s xs ≡ true → elem s ys ≡ false)
    → IsDistinct (xs ++ ys)
unfolding IsDistinct
append-IsDistinct [] ys h k apart = k
append-IsDistinct (x ∷ xs) ys h k apart = (
  ground (arith, elem-append x xs ys, h.0, apart x, eq_refl x),
  append-IsDistinct xs ys h.1 k (λ s e. apart s (ground (arith, e))),
)

elem-insert_key :
    (s key : String) (xs : List String) → elem s (insert_key key xs) ≡ (key == s || elem s xs)
elem-insert_key s key [] = refl
elem-insert_key s key (x ∷ xs) = ground (arith, elem-insert_key s key xs)

pub elem-sort_keys : (s : String) (xs : List String) → elem s (sort_keys xs) ≡ elem s xs
unfolding sort_keys
elem-sort_keys s [] = refl
elem-sort_keys s (x ∷ xs) = ground (arith, elem-insert_key s x (sort_keys xs), elem-sort_keys s xs)

empty-elem : (s : String) (xs : List String) → is_empty xs ≡ true → elem s xs ≡ false
empty-elem s [] h = refl
empty-elem s (x ∷ xs) h = cc

check_known-lem :
    (configured named : List String)
    → check_known configured named ≡ ok tt
    → (key : String) → elem key named ≡ true
    → elem key configured ≡ true
unfolding check_known
check_known-lem configured named h key e =
    let unknown = keep (λ k. not (elem k configured)) named in
    let none_left = refuse_if-ok (not (is_empty unknown)) _ h in
    ground (
      arith,
      none_left,
      e,
      empty-elem key unknown,
      elem-keep key (λ k. not (elem k configured)) named,
    )

elem-named_first :
    (configured order : List String) (key : String)
    → (elem key order ≡ true → elem key configured ≡ true)
    → elem key (named_first configured order) ≡ elem key configured
unfolding named_first
elem-named_first configured order key known = ground (
  arith,
  elem-append key (dedupe order) (keep (λ k. not (elem k (dedupe order))) configured),
  elem-keep key (λ k. not (elem k (dedupe order))) configured,
  elem-dedupe key order,
  known,
)

named_first-IsDistinct :
    (configured order : List String)
    → IsDistinct configured
    → IsDistinct (named_first configured order)
unfolding named_first
named_first-IsDistinct configured order distinct =
    append-IsDistinct (dedupe order) _ (dedupe-IsDistinct order)
      (keep-IsDistinct _ configured distinct)
      (λ s e. ground (arith, e, elem-keep s (λ k. not (elem k (dedupe order))) configured))

-- An order of the configured groups, each once, that begins with the named ones.
pub record IsOrder (configured named sequence : List String) : Type 0 where
  pub distinct : IsDistinct sequence
  pub same_groups : (key : String) → elem key sequence ≡ elem key configured
  pub begins : (rest : List String) × (sequence ≡ dedupe named ++ rest)

is_empty-nil : (xs : List String) → is_empty xs ≡ true → xs ≡ []
is_empty-nil [] h = refl
is_empty-nil (x ∷ xs) h = cc

configured-IsOrder :
    (configured named : List String)
    → is_empty named ≡ true
    → IsDistinct configured
    → IsOrder configured named configured
unfolding dedupe
configured-IsOrder configured named e distinct = record {
  distinct = distinct;
  same_groups = λ key. refl;
  begins = (configured, ap (λ n. dedupe n ++ configured) (sym (is_empty-nil named e)));
}

named_first-IsOrder :
    (configured named : List String)
    → check_known configured named ≡ ok tt
    → IsDistinct configured
    → IsOrder configured named (named_first configured named)
unfolding named_first
named_first-IsOrder configured named known distinct = record {
  distinct = named_first-IsDistinct configured named distinct;
  same_groups =
      λ key. elem-named_first configured named key (check_known-lem configured named known key);
  begins = (keep (λ key. not (elem key (dedupe named))) configured, refl);
}

-- Where `arrange` gives an order, it has the configured groups and no others, each of them once if
-- the configuration has each once, and it begins with the groups that were named, in the order in
-- which they were first named.
pub arrange-IsOrder :
    (configured : List String) (order : Option (List String)) (sequence : List String)
    → IsDistinct configured
    → arrange configured order ≡ ok sequence
    → IsOrder configured (or_none order) sequence
unfolding arrange
arrange-IsOrder configured order sequence distinct h =
    let named = or_none order in
    elim (Bool-cases (is_empty named)) [
      | inl e ↦
          let same : configured ≡ sequence = ground (arith, h, e) in
          subst (λ s. IsOrder configured named s) same
            (configured-IsOrder configured named e distinct)
      | inr e ↦
          let asked : (check_known configured named >> ok (named_first configured named))
              ≡ ok sequence =
            ground (arith, h, e) in
          let (known, made) = then-ok (check_known configured named) _ asked in
          subst (λ s. IsOrder configured named s) (sym (ok-injective made))
            (named_first-IsOrder configured named known distinct)
    ]

skipped-known :
    (configured skip : List String) (key : String)
    → check_known configured skip ≡ ok tt
    → elem key (dedupe skip) ≡ true
    → elem key configured ≡ true
skipped-known configured skip key known e =
    check_known-lem configured skip known key (sym (elem-dedupe key skip) ∙ e)

unwanted-known :
    (configured sequence only : List String) (key : String)
    → elem key sequence ≡ elem key configured
    → elem key (dedupe (keep (λ k. not (elem k only)) sequence)) ≡ true
    → elem key configured ≡ true
unwanted-known configured sequence only key same e =
    let rest = keep (λ k. not (elem k only)) sequence in
    ground (arith, e, elem-dedupe key rest, elem-keep key (λ k. not (elem k only)) sequence, same)

abbrev set_aside_nothing : Result PlanRefused (List String)
set_aside_nothing = ok []

-- What is set aside was asked for: configured groups only.
pub set_aside-known :
    (configured sequence : List String) (only skip : Option (List String)) (omitted : List String)
    → ((key : String) → elem key sequence ≡ elem key configured)
    → set_aside configured sequence only skip ≡ ok omitted
    → (key : String) → elem key omitted ≡ true
    → elem key configured ≡ true
unfolding set_aside
set_aside-known configured sequence only skip omitted same h key e =
    elim (Bool-cases (is_empty (or_none only))) [
      | inr asked ↦
          let kept : (check_known configured (or_none only)
                >> ok (dedupe (keep (λ k. not (elem k (or_none only))) sequence)))
              ≡ ok omitted =
            ground (arith, h, asked) in
          let (_, made) = then-ok (check_known configured (or_none only)) _ kept in
          unwanted-known configured sequence (or_none only) key (same key)
            (subst (λ o. elem key o ≡ true) (ok-injective made) e)
      | inl all_wanted ↦ elim (Bool-cases (is_empty (or_none skip))) [
        | inr asked ↦
            let kept : (check_known configured (or_none skip) >> ok (dedupe (or_none skip)))
                ≡ ok omitted =
              ground (arith, h, all_wanted, asked) in
            let (known, made) = then-ok (check_known configured (or_none skip)) _ kept in
            skipped-known configured (or_none skip) key known
              (subst (λ o. elem key o ≡ true) (ok-injective made) e)
        | inl nothing ↦
            let kept : set_aside_nothing ≡ ok omitted = ground (arith, h, all_wanted, nothing) in
            ground (arith, subst (λ o. elem key o ≡ true) (ok-injective kept) e)
      ]
    ]

all-elem :
    (xs ys : List String) (key : String)
    → all (λ x. elem x ys) xs ≡ true
    → elem key xs ≡ true
    → elem key ys ≡ true
all-elem [] ys key h e = cc
all-elem (x ∷ xs) ys key h e = ground (arith, h, e, eq_iff x key, all-elem xs ys key)

all-held :
    (xs ys : List String)
    → ((key : String) → elem key xs ≡ true → elem key ys ≡ true)
    → all (λ x. elem x ys) xs ≡ true
all-held [] ys h = refl
all-held (x ∷ xs) ys h =
    rw (h x (rw (eq_refl x) refl)) (all-held xs ys (λ key held. h key (ground (arith, held))))

-- Lists with the same members are the same set.
pub same_set_complete :
    (xs ys : List String) → ((key : String) → elem key ys ≡ elem key xs) → same_set xs ys ≡ true
unfolding same_set
same_set_complete xs ys h =
    rw (all-held xs ys (λ key held. h key ∙ held)) (all-held ys xs (λ key held. sym (h key) ∙ held))

pub same_set_sound :
    (xs ys : List String) (key : String) → same_set xs ys ≡ true → elem key xs ≡ elem key ys
unfolding same_set
same_set_sound xs ys key h = ground (arith, h, all-elem xs ys key, all-elem ys xs key)
