-- ===== src/Common/Values.antt =====
-- JSON values: the `params`, `detail` and plan dictionaries that are stored with an action.
use Prim.Native.Nat.{ℕ}
use Prim.Native.String.{String}
use mathlib.Core.Bool.{Bool}
use mathlib.Core.Option.{Option, none, some}
use mathlib.Core.List.{List, [], ◌∷◌}
use text.Mathlib.Text.{◌==◌}
use timmeny_admin_os.Common.Tests.{if◌then◌else◌}

mutual
  pub data Json : Type 0 where
    null : Json
    bool : Bool → Json
    num : ℕ → Json
    str : String → Json
    arr : Entries → Json
    obj : Members → Json

  pub data Entries : Type 0 where
    nil : Entries
    cons : Json → Entries → Entries

  pub data Members : Type 0 where
    end : Members
    member : String → Json → Members → Members

-- `params.get(key)` of a dictionary whose keys are distinct; a stored `null` reads as absent.
unfoldable pub get : Members → String → Option Json
get end key = none
get (member k v rest) key = if k == key then some v else get rest key

abbrev pub entries : List String → Entries
entries [] = nil
entries (s ∷ ss) = cons (str s) (entries ss)
