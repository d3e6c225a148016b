-- ===== src/Candidates/Match.antt =====
-- `dump_match` and `load_match` of adminos/domain/rules.py: the conditions of a rule as they are stored.
-- `load_match` is the validation that `MatchRule` (adminos/capabilities/config.py) declares.
use timmeny_admin_os.Common.{
  ℕ, String, Bool, true, false, not, ◌||◌, Option, none, some, List, [], ◌∷◌, elem, is_empty,
  is_none, Json, null, bool, num, str, arr, Entries, nil, cons, entries, Members, end, member, get,
  Result, ok, raised, ◌>>=◌, ◌>>◌, refuse_if,
}
use timmeny_admin_os.Capabilities.{ActionKind}
use timmeny_admin_os.Capabilities.Config.{MatchRule}

-- What `RuleRefused` says.
pub data RuleRefused : Type 0 where
  learns_no_rules not_a_destination not_created_so cannot_become acts_only_approved : RuleRefused
  no_condition : RuleRefused
  unusable_condition : String → RuleRefused
  not_permitted may_not_execute : ActionKind → RuleRefused

-- A condition is stored where it is stated.
unfoldable pub add_texts : String → List String → Members → Members
add_texts key [] rest = rest
add_texts key (x ∷ xs) rest = member key (arr (entries (x ∷ xs))) rest

unfoldable pub add_number : String → Option ℕ → Members → Members
add_number key none rest = rest
add_number key (some n) rest = member key (num n) rest

unfoldable pub dump_match : MatchRule → Members
unfolding add_texts add_number
dump_match m = add_texts "subject_contains" m.subject_contains (
    add_texts "participant_domains" m.participant_domains (
      add_texts "participants" m.participants (
        add_number "older_than_days" m.older_than_days
          (add_number "newer_than_days" m.newer_than_days end))))

abbrev pub match_fields : List String
match_fields =
    "subject_contains" ∷ "participant_domains" ∷ "participants" ∷ "older_than_days"
    ∷ "newer_than_days" ∷ []

-- A key that `MatchRule` does not declare is refused.
unfoldable pub only_fields : Members → Result RuleRefused (Unit {0})
only_fields end = ok tt
only_fields (member key value rest) =
    refuse_if (not (elem key match_fields)) (unusable_condition key) >> only_fields rest

unfoldable pub texts_of : Entries → Option (List String)
texts_of nil = some []
texts_of (cons (str s) rest) = elim (texts_of rest) [ none ↦ none | some xs ↦ some (s ∷ xs) ]
texts_of (cons _ rest) = none

unfoldable pub texts_at : String → Option Json → Result RuleRefused (List String)
unfolding texts_of
texts_at key none = ok []
texts_at key (some (arr items)) = elim (texts_of items) [
  | none ↦ raised (unusable_condition key)
  | some xs ↦ ok xs
]
texts_at key (some _) = raised (unusable_condition key)

-- Days are absent, null, or a number that is not negative; a Boolean is read as 1 or 0. A text is
-- refused here, where the validation would read a number that is written in it: `dump_match` stores none.
unfoldable pub number_at : String → Option Json → Result RuleRefused (Option ℕ)
number_at key none = ok none
number_at key (some null) = ok none
number_at key (some (bool true)) = ok (some 1)
number_at key (some (bool false)) = ok (some 0)
number_at key (some (num n)) = ok (some n)
number_at key (some _) = raised (unusable_condition key)

-- `MatchRule.require_a_condition`.
unfoldable pub states_a_condition : MatchRule → Bool
states_a_condition m =
    not (is_empty m.subject_contains)
    || not (is_empty m.participant_domains)
    || not (is_empty m.participants)
    || not (is_none m.older_than_days)
    || not (is_none m.newer_than_days)

unfoldable pub stating : MatchRule → Result RuleRefused MatchRule
unfolding states_a_condition
stating match = refuse_if (not (states_a_condition match)) no_condition >> ok match

unfoldable pub load_match : Members → Result RuleRefused MatchRule
unfolding only_fields texts_at number_at stating get
load_match conditions = do
  only_fields conditions
  subjects ← texts_at "subject_contains" (get conditions "subject_contains")
  domains ← texts_at "participant_domains" (get conditions "participant_domains")
  people ← texts_at "participants" (get conditions "participants")
  older ← number_at "older_than_days" (get conditions "older_than_days")
  newer ← number_at "newer_than_days" (get conditions "newer_than_days")
  stating (record {
    subject_contains = subjects;
    participant_domains = domains;
    participants = people;
    older_than_days = older;
    newer_than_days = newer;
  })
