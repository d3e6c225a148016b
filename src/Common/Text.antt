-- ===== src/Common/Text.antt =====
-- Python's `str` methods that the program calls, over the native `String`, which is a list of
-- characters by its own `[]` and `∷`.
use Prim.Native.Nat.{ℕ, suc}
use Prim.Native.Char.{Char, code}
use Prim.Native.String.{String}
use mathlib.Core.Bool.{Bool, true, false, ◌&&◌, ◌||◌}
use mathlib.Core.Option.{Option, none, some}
use mathlib.Core.List.{List, [], ◌∷◌}
use text.Mathlib.Text.{◌==◌}
use timmeny_admin_os.Common.Tests.{if◌then◌else◌, leb, nat_eqb}

abbrev chars : String → List Char
chars String.[] = []
chars (String.◌∷◌ c s) = c ∷ chars s

abbrev of_chars : List Char → String
of_chars [] = String.[]
of_chars (c ∷ cs) = String.◌∷◌ c (of_chars cs)

-- `str.isspace` of one character, by its code point.
abbrev pub is_space : ℕ → Bool
is_space c =
    leb 9 c && leb c 13
    || leb 28 c && leb c 32
    || nat_eqb c 0x85
    || nat_eqb c 0xA0
    || nat_eqb c 0x1680
    || leb 0x2000 c && leb c 0x200A
    || leb 0x2028 c && leb c 0x2029
    || nat_eqb c 0x202F
    || nat_eqb c 0x205F
    || nat_eqb c 0x3000

-- `s.lstrip()` with a test for what goes.
unfoldable pub drop_leading : (ℕ → Bool) → String → String
drop_leading p String.[] = String.[]
drop_leading p (String.◌∷◌ c s) =
    let rest = drop_leading p s in if p (code c) then rest else String.◌∷◌ c s

-- `s.rstrip()`: what is left of the tail decides whether this character is at the end.
abbrev put_back : Bool → Char → String → String
put_back gone c String.[] = if gone then String.[] else String.◌∷◌ c String.[]
put_back gone c (String.◌∷◌ d s) = String.◌∷◌ c (String.◌∷◌ d s)

unfoldable pub drop_trailing : (ℕ → Bool) → String → String
drop_trailing p String.[] = String.[]
drop_trailing p (String.◌∷◌ c s) = put_back (p (code c)) c (drop_trailing p s)

-- `s.strip(chars)` for the characters that `p` accepts, and `s.strip()`.
unfoldable pub strip_by : (ℕ → Bool) → String → String
unfolding drop_leading drop_trailing
strip_by p s = drop_trailing p (drop_leading p s)

unfoldable pub strip : String → String
unfolding strip_by
strip s = strip_by is_space s

-- `bool(s)`.
abbrev pub is_set : String → Bool
is_set String.[] = false
is_set (String.◌∷◌ c s) = true

-- `len(s)`: code points.
unfoldable pub len : String → ℕ
len String.[] = 0
len (String.◌∷◌ c s) = suc (len s)

abbrev prefix_of : List Char → List Char → Bool
prefix_of [] s = true
prefix_of (c ∷ t) [] = false
prefix_of (c ∷ t) (d ∷ s) = nat_eqb (code c) (code d) && prefix_of t s

abbrev within : List Char → List Char → Bool
within t [] = prefix_of t []
within t (d ∷ s) = prefix_of t (d ∷ s) || within t s

abbrev suffix_of : List Char → List Char → Bool
suffix_of t [] = prefix_of t []
suffix_of t (d ∷ s) = of_chars t == of_chars (d ∷ s) || suffix_of t s

-- `s.startswith(t)`, `t in s`, `s.endswith(t)`.
unfoldable pub starts_with : String → String → Bool
starts_with s t = prefix_of (chars t) (chars s)

unfoldable pub contains : String → String → Bool
contains s t = within (chars t) (chars s)

unfoldable pub ends_with : String → String → Bool
ends_with s t = suffix_of (chars t) (chars s)

infixl 65 ◌<>◌
abbrev pub ◌<>◌ : String → String → String
String.[] <> t = t
(String.◌∷◌ c s) <> t = String.◌∷◌ c (s <> t)

-- `sep.join(parts)`.
abbrev joined : String → List String → String
joined sep [] = String.[]
joined sep (s ∷ ss) = sep <> (s <> joined sep ss)

unfoldable pub join : String → List String → String
join sep [] = String.[]
join sep (s ∷ ss) = s <> joined sep ss

-- The text after the last character that `p` accepts, if there is one: `s.rpartition(…)[2]`.
abbrev after_last : (ℕ → Bool) → String → String → String
after_last p String.[] found = found
after_last p (String.◌∷◌ c s) found = after_last p s (if p (code c) then s else found)

unfoldable pub rpartition : (ℕ → Bool) → String → String
rpartition p s = after_last p s s

-- `s <= t`, the order of `sorted` on texts: by code points, a prefix first.
abbrev pub text_leb : String → String → Bool
text_leb String.[] t = true
text_leb (String.◌∷◌ c s) String.[] = false
text_leb (String.◌∷◌ c s) (String.◌∷◌ d t) =
    let rest = text_leb s t in if nat_eqb (code c) (code d) then rest else leb (code c) (code d)

-- `s.partition(c)[2]` where `c` occurs, with the separator's presence.
abbrev pub after_first : ℕ → String → Option String
after_first c String.[] = none
after_first c (String.◌∷◌ d s) =
    let rest = after_first c s in if nat_eqb (code d) c then some s else rest
