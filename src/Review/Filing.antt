-- ===== src/Review/Filing.antt =====
-- A move that adminos/domain/review.py accepts is one that adminos/domain/actions.py will execute.
use timmeny_admin_os.Common.{
  String, true, not, ◌≡◌, refl, not-false, Option, none, some, List, is_set, strip, elem, Json,
  null, bool, num, str, arr, obj, ok, then-ok, refuse_if, refuse_if-ok, ok-injective,
}
use timmeny_admin_os.Capabilities.{gmail_move, kind_eq, destination_param}
use timmeny_admin_os.Capabilities.Config.{CapabilityConfig}
use timmeny_admin_os.Actions.Rows.{ReviewAction, ReviewItem}
use timmeny_admin_os.Actions.Params.{read_text, text_of}
use timmeny_admin_os.Actions.Lifecycle.{check_move_destination, destination_allowed}
use timmeny_admin_os.Review.Checking.{folder_allowed, folder_of, check_destination}
use timmeny_admin_os.Review.Permitted.{IsGranted}

folder_of-read :
    (allowed : List String) (value : Option Json) (folder : String)
    → folder_of allowed value ≡ ok folder
    → text_of destination_param value ≡ ok (some folder)
unfolding folder_of folder_allowed text_of
folder_of-read allowed none folder h = cc
folder_of-read allowed (some null) folder h = cc
folder_of-read allowed (some (bool b)) folder h = cc
folder_of-read allowed (some (num n)) folder h = cc
folder_of-read allowed (some (arr x)) folder h = cc
folder_of-read allowed (some (obj x)) folder h = cc
folder_of-read allowed (some (str s)) folder h =
    let (named, more) = then-ok (refuse_if (not (is_set (strip s))) _) _ h in
    let (_, made) = then-ok (refuse_if (not (elem (strip s) allowed)) _) _ more in
    rw (not-false (is_set (strip s)) (refuse_if-ok _ _ named)) (rw (ok-injective made) refl)

-- An approval that was granted for a move and has become an action with the approved parameters passes
-- the check of the destination that `prepare_action` and `execute_action` make, under the same
-- configuration.
pub granted_move-checks :
    (capability : CapabilityConfig) (item : ReviewItem) (action : ReviewAction)
    → IsGranted capability item action.params action.action_kind
    → kind_eq action.action_kind gmail_move ≡ true
    → check_move_destination capability action ≡ ok tt
unfolding check_move_destination read_text destination_allowed check_destination
granted_move-checks capability item action g move =
    let (folder, named, known) = g.filed move in
    rw (folder_of-read capability.destinations _ folder named) (rw known refl)
