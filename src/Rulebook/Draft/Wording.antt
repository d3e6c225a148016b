-- ===== src/Rulebook/Draft/Wording.antt =====
-- `Effect.placeholders` of adminos/domain/rulebook.py: the names between `{{` and `}}`.
use Prim.Native.Char.{Char, code}
use timmeny_admin_os.Common.{
  ℕ, String, ◌&&◌, List, [], ◌∷◌, nat_eqb, if◌then◌else◌, strip, ◌≡◌, refl,
}

on_first : Char → List String → List String
on_first c [] = String.◌∷◌ c String.[] ∷ []
on_first c (piece ∷ pieces) = String.◌∷◌ c piece ∷ pieces

-- `s.split(pp)` for a character `p` written twice.
split_pair : ℕ → String → List String
unfolding on_first
split_pair p String.[] = String.[] ∷ []
split_pair p (String.◌∷◌ c String.[]) = String.◌∷◌ c String.[] ∷ []
split_pair p (String.◌∷◌ c (String.◌∷◌ d s)) =
    let cut = String.[] ∷ split_pair p s in
    let whole = on_first c (split_pair p (String.◌∷◌ d s)) in
    if nat_eqb (code c) p && nat_eqb (code d) p then cut else whole

-- `"}}" in piece` holds exactly if the piece falls apart there.
closed_slot : List String → List String → List String
closed_slot (name ∷ after ∷ _) slots = strip name ∷ slots
closed_slot _ slots = slots

slot_loop : List String → List String
unfolding closed_slot
slot_loop [] = []
slot_loop (piece ∷ pieces) = closed_slot (split_pair b'}' piece) (slot_loop pieces)

but_first : List String → List String
but_first [] = []
but_first (piece ∷ pieces) = pieces

unfoldable pub slots : String → List String
unfolding split_pair slot_loop but_first strip
slots message = slot_loop (but_first (split_pair b'{' message))

slots_test : slots "Sale {{ amount }} at {{shop}}, {{open" ≡ "amount" ∷ "shop" ∷ []
unfolding slots
slots_test = refl
