-- ===== src/Conditions/Fields.antt =====
-- The closed list of fields and operators of adminos/domain/conditions.py, and the facts that a
-- condition is evaluated against.
use timmeny_admin_os.Common.{
  String, Bool, true, false, Option, none, some, List, [], ◌∷◌, ◌==◌, if◌then◌else◌, any,
}

pub data FieldKind : Type 0 where
  text texts number : FieldKind

pub data Operator : Type 0 where
  equals not_equals contains not_contains starts_with ends_with regex at_least at_most : Operator

unfoldable pub operator_eq : Operator → Operator → Bool
operator_eq equals equals = true
operator_eq not_equals not_equals = true
operator_eq contains contains = true
operator_eq not_contains not_contains = true
operator_eq starts_with starts_with = true
operator_eq ends_with ends_with = true
operator_eq regex regex = true
operator_eq at_least at_least = true
operator_eq at_most at_most = true
operator_eq _ _ = false

abbrev pub text_operators : List Operator
text_operators =
    equals ∷ not_equals ∷ contains ∷ not_contains ∷ starts_with ∷ ends_with ∷ regex ∷ []

abbrev pub number_operators : List Operator
number_operators = equals ∷ at_least ∷ at_most ∷ []

-- `operator in NEGATIONS`.
unfoldable pub is_negation : Operator → Bool
is_negation not_equals = true
is_negation not_contains = true
is_negation _ = false

-- The keys of `FIELDS`.
pub data Field : Type 0 where
  subject participant participant_domain snippet gmail_label capability thread_age_days : Field

pub record FieldSpec : Type 0 where
  pub key : String
  pub label : String
  pub kind : FieldKind
  pub narrowing : Bool

unfoldable pub spec : Field → FieldSpec
spec subject = record { key = "subject"; label = "the subject"; kind = text; narrowing = true }
spec participant = record {
  key = "participant";
  label = "an address on the thread";
  kind = texts;
  narrowing = true;
}
spec participant_domain = record {
  key = "participant_domain";
  label = "a domain on the thread";
  kind = texts;
  narrowing = true;
}
spec snippet = record {
  key = "snippet";
  label = "Gmail's preview text";
  kind = text;
  narrowing = true;
}
spec gmail_label = record {
  key = "gmail_label";
  label = "a Gmail label on the thread";
  kind = texts;
  narrowing = false;
}
spec capability = record {
  key = "capability";
  label = "the review group";
  kind = text;
  narrowing = false;
}
spec thread_age_days = record {
  key = "thread_age_days";
  label = "the thread's age in days";
  kind = number;
  narrowing = false;
}

abbrev all_fields : List Field
all_fields =
    subject ∷ participant ∷ participant_domain ∷ snippet ∷ gmail_label ∷ capability
    ∷ thread_age_days ∷ []

-- `FIELDS.get(name)`.
abbrev field_named : String → List Field → Option Field
field_named name [] = none
field_named name (f ∷ fs) = if (spec f).key == name then some f else field_named name fs

unfoldable pub find_field : String → Option Field
unfolding spec
find_field name = field_named name all_fields

-- `FieldSpec.operators`.
abbrev kind_operators : FieldKind → List Operator
kind_operators number = number_operators
kind_operators _ = text_operators

unfoldable pub applies : Operator → FieldSpec → Bool
unfolding operator_eq
applies o s = any (operator_eq o) (kind_operators s.kind)

-- What the standard library gives the conditions: Unicode case folding, the `re` module, `float`
-- and its printing. A pattern is what `re.compile` returns; `search` is its method of that name,
-- with the match's `groupdict`, where a group that took no part reads as the empty text.
pub record Engine : Type 1 where
  pub Num : Type 0
  pub num_eq : Num → Num → Bool
  pub num_le : Num → Num → Bool
  pub read_float : String → Option Num
  pub show_float : Num → String
  pub casefold : String → String
  pub Pattern : Type 0
  pub compile : String → Option Pattern
  pub search : Pattern → String → Option (List (String × String))
  -- `re.sub(pattern, "", value)`
  pub erase : String → String → String

-- The mappings of `Facts`, with what a missing key reads as.
pub record Facts (Num : Type 0) : Type 0 where
  pub read_text : String → Option String
  pub read_list : String → List String
  pub read_number : String → Option Num
