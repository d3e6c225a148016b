-- ===== src/Review/Current.antt =====
-- One review of a day is current at a time (adminos/domain/review.py).
use timmeny_admin_os.Common.{
  ℕ, suc, ◌<◌, String, Bool, true, false, ◌≡◌, refl, sym, ap, subst, ◌∙◌, ◌⊎◌, inl, inr, arith,
  Bool-cases, false≢true, Option, none, some, List, [], ◌∷◌, ◌++◌, ◌==◌, All, keep, map, eq_refl,
}
use timmeny_admin_os.Plan.Begin.{Loaded}
use timmeny_admin_os.Review.Rows.{ReviewRun, is_abandoned}
use timmeny_admin_os.Scopes.{ActionScope, read_open_scopes}
use timmeny_admin_os.Scopes.Single.{superseded-none_open}
use timmeny_admin_os.Review.Opening.{
  Subject, is_of, live, first_run, read_current_review, highest, next_revision, new_run,
  open_review, abandoned_row, abandon_review, set_aside, open_fresh,
}

keep-append :
    (p : ReviewRun → Bool) (xs ys : List ReviewRun) → keep p (xs ++ ys) ≡ keep p xs ++ keep p ys
keep-append p [] ys = refl
keep-append p (x ∷ xs) ys = elim (Bool-cases (p x)) [
  | inl e ↦ rw e (rw (keep-append p xs ys) refl)
  | inr e ↦ rw e (keep-append p xs ys)
]

keep-none :
    (p : ReviewRun → Bool) (runs : List ReviewRun) → All (λ r. p r ≡ false) runs → keep p runs ≡ []
keep-none p [] h = refl
keep-none p (r ∷ rest) h = rw h.0 (keep-none p rest h.1)

abandoned-not_live :
    (subject : Subject) (id : String) (now : ℕ) (r : ReviewRun)
    → (r.id == id) ≡ true
    → live subject (abandoned_row id now r) ≡ false
unfolding live abandoned_row is_of is_abandoned
abandoned-not_live subject id now r own = rw own (ground arith)

-- Each review of the subject that nobody abandoned has this identity.
AreOnly : Subject → String → List ReviewRun → Type 0
AreOnly subject id runs = All (λ r. live subject r ≡ true → (r.id == id) ≡ true) runs

abandoned-none_live :
    (subject : Subject) (id : String) (now : ℕ) (runs : List ReviewRun)
    → AreOnly subject id runs
    → keep (live subject) (map (abandoned_row id now) runs) ≡ []
unfolding AreOnly abandoned_row
abandoned-none_live subject id now [] only = refl
abandoned-none_live subject id now (r ∷ rest) only = elim (Bool-cases (r.id == id)) [
  | inl own ↦
      rw (abandoned-not_live subject id now r own) (abandoned-none_live subject id now rest only.1)
  | inr other ↦ elim (Bool-cases (live subject r)) [
    | inl alive ↦ absurd (false≢true (sym other ∙ only.0 alive))
    | inr gone ↦ rw other (rw gone (abandoned-none_live subject id now rest only.1))
  ]
]

kept-AreOnly :
    (subject : Subject) (run : ReviewRun) (runs : List ReviewRun)
    → All (λ r. (r.id == run.id) ≡ true) (keep (live subject) runs)
    → AreOnly subject run.id runs
unfolding AreOnly
kept-AreOnly subject run [] h = tt
kept-AreOnly subject run (r ∷ rest) h = elim (Bool-cases (live subject r)) [
  | inl alive ↦
      let (own, others) = rw alive at h in (λ _. own, kept-AreOnly subject run rest others)
  | inr gone ↦ (
    λ alive. absurd (false≢true (sym gone ∙ alive)),
    kept-AreOnly subject run rest (rw gone at h),
  )
]

-- At most one review of the subject is not abandoned.
abbrev pub IsSingle : Subject → List ReviewRun → Type 0
IsSingle subject runs =
    (keep (live subject) runs ≡ []) ⊎ ((r : ReviewRun) × (keep (live subject) runs ≡ r ∷ []))

-- The review that the mornings' work goes to, and what it took the place of.
pub record IsCurrent (subject : Subject) (runs : List ReviewRun) (run : ReviewRun)
    (after : List ReviewRun) (disarmed : List ActionScope) : Type 0 where
  pub alone : keep (live subject) after ≡ run ∷ []
  pub is_read : read_current_review subject after ≡ some run
  pub newest : All (λ r. is_of subject r ≡ true → r.revision < run.revision) runs
  pub replaced :
      (old : ReviewRun)
      → read_current_review subject runs ≡ some old
      → (run.supersedes_run_id ≡ some old.id) × (read_open_scopes old.id none disarmed ≡ [])

highest-below :
    (subject : Subject) (runs : List ReviewRun) (n : ℕ)
    → highest subject runs < n
    → All (λ r. is_of subject r ≡ true → r.revision < n) runs
unfolding highest
highest-below subject [] n h = tt
highest-below subject (r ∷ rest) n h = elim (Bool-cases (is_of subject r)) [
  | inl own ↦
      let both = rw own at h in
      (λ _. ground (arith, both), highest-below subject rest n (ground (arith, both)))
  | inr other ↦
      (λ own. absurd (false≢true (sym other ∙ own)), highest-below subject rest n (rw other at h))
]

-- Abandoning a row leaves its revision.
highest-set_aside :
    (subject : Subject) (id : String) (now : ℕ) (runs : List ReviewRun)
    → highest subject (map (abandoned_row id now) runs) ≡ highest subject runs
unfolding highest abandoned_row is_of
highest-set_aside subject id now [] = refl
highest-set_aside subject id now (r ∷ rest) = elim (Bool-cases (r.id == id)) [
  | inl own ↦ rw own (rw (highest-set_aside subject id now rest) refl)
  | inr other ↦ rw other (rw (highest-set_aside subject id now rest) refl)
]

new_run-live :
    (loaded : Loaded) (subject : Subject) (run_id : String) (now : ℕ) (refreshed : Option ℕ)
    (superseded : Option ReviewRun) (runs : List ReviewRun)
    → live subject (new_run loaded subject run_id now refreshed superseded runs) ≡ true
unfolding new_run live is_of is_abandoned
new_run-live loaded subject run_id now refreshed superseded runs =
    rw (eq_refl subject.channel) (rw (eq_refl subject.scope_name) (ground arith))

same_run : {r old : ReviewRun} → some r ≡ some old → old ≡ r
same_run h = cc

read-alone :
    (subject : Subject) (runs : List ReviewRun) (run : ReviewRun)
    → keep (live subject) runs ≡ run ∷ []
    → read_current_review subject runs ≡ some run
unfolding read_current_review first_run
read-alone subject runs run h = rw h refl

-- What is left of the review that stood before.
abbrev IsLeft : Subject → List ReviewRun → Option ReviewRun → List ReviewRun → Type 0
IsLeft subject runs superseded left =
    (keep (live subject) left ≡ []) × (highest subject left ≡ highest subject runs)

set_aside-IsLeft :
    (subject : Subject) (now : ℕ) (runs : List ReviewRun) (scopes : List ActionScope)
    (superseded : Option ReviewRun)
    → read_current_review subject runs ≡ superseded
    → IsSingle subject runs
    → IsLeft subject runs superseded (set_aside superseded now runs scopes).0
unfolding set_aside abandon_review read_current_review first_run
set_aside-IsLeft subject now runs scopes none h (inl idle) = (idle, refl)
set_aside-IsLeft subject now runs scopes none h (inr (r, one)) = let impossible = rw one at h in cc
set_aside-IsLeft subject now runs scopes (some old) h (inl idle) =
    let impossible = rw idle at h in cc
set_aside-IsLeft subject now runs scopes (some old) h (inr (r, one)) =
    let same = same_run (rw one at h) in
    (
      abandoned-none_live subject old.id now runs (
          kept-AreOnly subject old runs (
            subst (All (λ x. (x.id == old.id) ≡ true)) (sym one)
              (subst (λ x. (x.id == old.id) ≡ true) same (eq_refl old.id), tt))),
      highest-set_aside subject old.id now runs,
    )

set_aside-disarms :
    (now : ℕ) (runs : List ReviewRun) (scopes : List ActionScope) (old : ReviewRun)
    → read_open_scopes old.id none (set_aside (some old) now runs scopes).1 ≡ []
unfolding set_aside abandon_review
set_aside-disarms now runs scopes old = superseded-none_open old.id none scopes

replaced-id :
    (loaded : Loaded) (subject : Subject) (run_id : String) (now : ℕ) (refreshed : Option ℕ)
    (old : ReviewRun) (runs : List ReviewRun)
    → (new_run loaded subject run_id now refreshed (some old) runs).supersedes_run_id ≡ some old.id
unfolding new_run
replaced-id loaded subject run_id now refreshed old runs = refl

new_run-revision :
    (loaded : Loaded) (subject : Subject) (run_id : String) (now : ℕ) (refreshed : Option ℕ)
    (superseded : Option ReviewRun) (runs : List ReviewRun)
    → (new_run loaded subject run_id now refreshed superseded runs).revision
      ≡ suc (highest subject runs)
unfolding new_run next_revision
new_run-revision loaded subject run_id now refreshed superseded runs = refl

opened-IsCurrent :
    (loaded : Loaded) (subject : Subject) (run_id : String) (now : ℕ) (refreshed : Option ℕ)
    (runs : List ReviewRun) (scopes : List ActionScope) (superseded : Option ReviewRun)
    → read_current_review subject runs ≡ superseded
    → IsSingle subject runs
    → IsCurrent subject runs
        (open_review loaded subject run_id now refreshed superseded
          (set_aside superseded now runs scopes).0).0
        (open_review loaded subject run_id now refreshed superseded
          (set_aside superseded now runs scopes).0).1
        (set_aside superseded now runs scopes).1
unfolding open_review
opened-IsCurrent loaded subject run_id now refreshed runs scopes superseded h single =
    let left = (set_aside superseded now runs scopes).0 in
    let (idle, top) = set_aside-IsLeft subject now runs scopes superseded h single in
    let run = new_run loaded subject run_id now refreshed superseded left in
    let alone : keep (live subject) (left ++ run ∷ []) ≡ run ∷ [] =
      keep-append (live subject) left (run ∷ [])
      ∙ rw idle (rw (new_run-live loaded subject run_id now refreshed superseded left) refl) in
    record {
      alone = alone;
      is_read = read-alone subject (left ++ run ∷ []) run alone;
      newest = highest-below subject runs run.revision (
          ground
            (arith, top, new_run-revision loaded subject run_id now refreshed superseded left));
      replaced = λ old is.
          let same = h0 old is in
          (
            ap (λ s. (new_run loaded subject run_id now refreshed s left).supersedes_run_id) same
                ∙ replaced-id loaded subject run_id now refreshed old left,
            subst (λ s. read_open_scopes old.id none (set_aside s now runs scopes).1 ≡ [])
                (sym same) (set_aside-disarms now runs scopes old),
          );
    }
  where
    h0 : (old : ReviewRun) → read_current_review subject runs ≡ some old → superseded ≡ some old
    h0 old is = sym h ∙ is

-- Where at most one review of the day, the channel and the scope is not abandoned, `open_fresh_review`
-- opens, before it fills it, one that is then the only one, and the one that is read as current; its
-- revision is above every earlier one; and where a review stood before, it is recorded as the one
-- replaced, and none of its preparations can be executed any more.
pub open_fresh-IsCurrent :
    (loaded : Loaded) (subject : Subject) (run_id : String) (now : ℕ) (refreshed : Option ℕ)
    (runs : List ReviewRun) (scopes : List ActionScope)
    → IsSingle subject runs
    → IsCurrent subject runs
        (open_fresh loaded subject run_id now refreshed runs scopes).0
        (open_fresh loaded subject run_id now refreshed runs scopes).1
        (open_fresh loaded subject run_id now refreshed runs scopes).2
unfolding open_fresh
open_fresh-IsCurrent loaded subject run_id now refreshed runs scopes single =
    opened-IsCurrent loaded subject run_id now refreshed runs scopes _ refl single
