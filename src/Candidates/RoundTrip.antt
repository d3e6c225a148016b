-- ===== src/Candidates/RoundTrip.antt =====
-- `load_match` reads back what `dump_match` stores (adminos/domain/rules.py).
use timmeny_admin_os.Common.{
  ℕ, String, true, false, ◌≡◌, refl, ap, ◌∙◌, Option, none, some, List, [], ◌∷◌, ◌==◌, elem,
  entries, Members, end, get, ok, eq_refl,
}
use timmeny_admin_os.Capabilities.Config.{MatchRule}
use timmeny_admin_os.Candidates.{
  add_texts, add_number, dump_match, match_fields, only_fields, texts_of, texts_at, number_at,
  states_a_condition, stating, load_match,
}

texts_of-entries : (xs : List String) → texts_of (entries xs) ≡ some xs
unfolding texts_of
texts_of-entries [] = refl
texts_of-entries (x ∷ xs) = rw (texts_of-entries xs) refl

-- Another field is not found among the texts or the number of this one.
skip_texts :
    (key field : String) (xs : List String) (rest : Members)
    → (field == key) ≡ false
    → get (add_texts field xs rest) key ≡ get rest key
unfolding add_texts get
skip_texts key field [] rest h = refl
skip_texts key field (x ∷ xs) rest h = rw h refl

skip_number :
    (key field : String) (n : Option ℕ) (rest : Members)
    → (field == key) ≡ false
    → get (add_number field n rest) key ≡ get rest key
unfolding add_number get
skip_number key field none rest h = refl
skip_number key field (some n) rest h = rw h refl

texts_at-add :
    (key : String) (xs : List String) (rest : Members)
    → get rest key ≡ none
    → texts_at key (get (add_texts key xs rest) key) ≡ ok xs
unfolding add_texts get texts_at
texts_at-add key [] rest h = rw h refl
texts_at-add key (x ∷ xs) rest h = rw (eq_refl key) (rw (texts_of-entries xs) refl)

number_at-add :
    (key : String) (n : Option ℕ) (rest : Members)
    → get rest key ≡ none
    → number_at key (get (add_number key n rest) key) ≡ ok n
unfolding add_number get number_at
number_at-add key none rest h = rw h refl
number_at-add key (some n) rest h = rw (eq_refl key) refl

only_texts :
    (key : String) (xs : List String) (rest : Members)
    → elem key match_fields ≡ true
    → only_fields rest ≡ ok tt
    → only_fields (add_texts key xs rest) ≡ ok tt
unfolding add_texts only_fields
only_texts key [] rest known h = h
only_texts key (x ∷ xs) rest known h = rw known h

only_number :
    (key : String) (n : Option ℕ) (rest : Members)
    → elem key match_fields ≡ true
    → only_fields rest ≡ ok tt
    → only_fields (add_number key n rest) ≡ ok tt
unfolding add_number only_fields
only_number key none rest known h = h
only_number key (some n) rest known h = rw known h

module _ (m : MatchRule) where
  -- What is stored from a field on.
  abbrev newer : Members
  newer = add_number "newer_than_days" m.newer_than_days end

  abbrev older : Members
  older = add_number "older_than_days" m.older_than_days newer

  abbrev people : Members
  people = add_texts "participants" m.participants older

  abbrev domains : Members
  domains = add_texts "participant_domains" m.participant_domains people

  dump-only_fields : only_fields (dump_match m) ≡ ok tt
  unfolding dump_match only_fields
  dump-only_fields = only_texts "subject_contains" m.subject_contains domains refl (
      only_texts "participant_domains" m.participant_domains people refl (
        only_texts "participants" m.participants older refl (
          only_number "older_than_days" m.older_than_days newer refl
            (only_number "newer_than_days" m.newer_than_days end refl refl))))

  subject_contains-read :
      texts_at "subject_contains" (get (dump_match m) "subject_contains") ≡ ok m.subject_contains
  unfolding dump_match get
  subject_contains-read = texts_at-add "subject_contains" m.subject_contains domains (
      skip_texts "subject_contains" "participant_domains" m.participant_domains people refl
      ∙ skip_texts "subject_contains" "participants" m.participants older refl
      ∙ skip_number "subject_contains" "older_than_days" m.older_than_days newer refl
      ∙ skip_number "subject_contains" "newer_than_days" m.newer_than_days end refl)

  participant_domains-read :
      texts_at "participant_domains" (get (dump_match m) "participant_domains")
      ≡ ok m.participant_domains
  unfolding dump_match get
  participant_domains-read =
      ap (texts_at "participant_domains")
        (skip_texts "participant_domains" "subject_contains" m.subject_contains domains refl)
      ∙ texts_at-add "participant_domains" m.participant_domains people (
          skip_texts "participant_domains" "participants" m.participants older refl
          ∙ skip_number "participant_domains" "older_than_days" m.older_than_days newer refl
          ∙ skip_number "participant_domains" "newer_than_days" m.newer_than_days end refl)

  participants-read :
      texts_at "participants" (get (dump_match m) "participants") ≡ ok m.participants
  unfolding dump_match get
  participants-read =
      ap (texts_at "participants") (
        skip_texts "participants" "subject_contains" m.subject_contains domains refl
        ∙ skip_texts "participants" "participant_domains" m.participant_domains people refl)
      ∙ texts_at-add "participants" m.participants older (
          skip_number "participants" "older_than_days" m.older_than_days newer refl
          ∙ skip_number "participants" "newer_than_days" m.newer_than_days end refl)

  older_than_days-read :
      number_at "older_than_days" (get (dump_match m) "older_than_days") ≡ ok m.older_than_days
  unfolding dump_match get
  older_than_days-read =
      ap (number_at "older_than_days") (
        skip_texts "older_than_days" "subject_contains" m.subject_contains domains refl
        ∙ skip_texts "older_than_days" "participant_domains" m.participant_domains people refl
        ∙ skip_texts "older_than_days" "participants" m.participants older refl)
      ∙ number_at-add "older_than_days" m.older_than_days newer
          (skip_number "older_than_days" "newer_than_days" m.newer_than_days end refl)

  newer_than_days-read :
      number_at "newer_than_days" (get (dump_match m) "newer_than_days") ≡ ok m.newer_than_days
  unfolding dump_match get
  newer_than_days-read =
      ap (number_at "newer_than_days") (
        skip_texts "newer_than_days" "subject_contains" m.subject_contains domains refl
        ∙ skip_texts "newer_than_days" "participant_domains" m.participant_domains people refl
        ∙ skip_texts "newer_than_days" "participants" m.participants older refl
        ∙ skip_number "newer_than_days" "older_than_days" m.older_than_days newer refl)
      ∙ number_at-add "newer_than_days" m.newer_than_days end (refl)

  -- Conditions that are stored and read again are the conditions they were, each of the five that is
  -- stated and none that is not, where at least one is stated, as `MatchRule` requires.
  pub load-dump : states_a_condition m ≡ true → load_match (dump_match m) ≡ ok m
  unfolding load_match stating
  load-dump stated = rw dump-only_fields (
      rw subject_contains-read (
        rw participant_domains-read (
          rw participants-read
            (rw older_than_days-read (rw newer_than_days-read (rw stated refl))))))
