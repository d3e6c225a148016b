-- ===== src/Examples/Trees.antt =====
-- Condition trees over an engine whose numbers are natural and which knows no patterns.
use timmeny_admin_os.Common.{
  ℕ, String, true, ◌≡◌, refl, Option, none, some, List, [], ◌∷◌, ◌==◌, leb, nat_eqb, if◌then◌else◌,
  ok, strip, contains as text_contains, len,
}
use timmeny_admin_os.Conditions.Fields.{
  Engine, Facts, subject, participant_domain, gmail_label, contains, equals, is_negation, spec,
  operator_eq,
}
use timmeny_admin_os.Conditions.Leaf.{Condition, test_texts, narrows, test_text, test, compare}
use timmeny_admin_os.Conditions.Tree.{
  Group, leaf, branch, nil, cons, group, run_group, check_breadth, group_narrows,
}
use timmeny_admin_os.Conditions.Breadth.{pinned_group, breadth_pins}
use timmeny_admin_os.Conditions.Explains.{conditions, group_leaves, explanation_complete}

abbrev no_number : String → Option ℕ
no_number s = none

abbrev no_captures : Option (List (String × String))
no_captures = none

abbrev no_pattern : String → Option String
no_pattern s = none

abbrev pub engine : Engine
engine = record {
  Num = ℕ;
  num_eq = nat_eqb;
  num_le = leb;
  read_float = no_number;
  show_float = λ n. "";
  casefold = λ s. s;
  Pattern = String;
  compile = no_pattern;
  search = λ p s. no_captures;
  erase = λ p s. s;
}

abbrev about_invoices : Condition
about_invoices = record { field = subject; operator = contains; value = "invoice" }

abbrev from_shop : Condition
from_shop = record { field = participant_domain; operator = equals; value = "shop.example" }

abbrev unread : Condition
unread = record { field = gmail_label; operator = equals; value = "UNREAD" }

abbrev pub invoices : Group
invoices =
    group
      (cons (leaf about_invoices) (
        cons (branch (group nil (cons (leaf from_shop) (cons (leaf about_invoices) nil)) nil)) nil))
      nil (cons (leaf unread) nil)

abbrev text_of : String → Option String
text_of key = if key == "subject" then some "Your invoice" else none

abbrev list_of : String → List String
list_of key = if key == "participant_domain" then "shop.example" ∷ [] else []

abbrev email : Facts ℕ
email = record { read_text = text_of; read_list = list_of; read_number = no_number }

narrow : check_breadth engine invoices ≡ ok tt
unfolding check_breadth group_narrows narrows spec is_negation operator_eq len strip
narrow = refl

matches : (run_group engine invoices email).matched ≡ true
unfolding run_group test spec test_text compare text_contains test_texts is_negation
matches = refl

breadth_pins_example : pinned_group engine email invoices ≡ true
breadth_pins_example = breadth_pins engine email invoices narrow matches

explanation_complete_example :
    conditions (run_group engine invoices email).outcomes ≡ group_leaves invoices
explanation_complete_example = explanation_complete engine email invoices
