-- ===== src/Rulebook/Store/Tables.antt =====
-- The rows of `rules`, `rule_versions` and `rule_events` (adminos/db/models.py), as the operations
-- of adminos/domain/rulebook_store.py read and write them.
use timmeny_admin_os.Common.{
  ℕ, String, ◌≡◌, refl, ◌⊎◌, ◌≢◌, Option, none, some, List, [], ◌∷◌, ◌++◌, nat_eqb, if◌then◌else◌,
  arith,
}
use timmeny_admin_os.Rulebook.Types.{RuleType}
use timmeny_admin_os.Rulebook.Standing.{RuleStatus, EventKind}
use timmeny_admin_os.Rulebook.Draft.{RuleDraft}

pub record Rule : Type 0 where
  pub id : ℕ
  pub rule_type : RuleType
  pub capability_key : Option String
  pub status : RuleStatus
  pub current_version_id : Option ℕ
  pub digest : String
  pub created_by : String
  pub created_at : ℕ
  pub confirmed_at : Option ℕ
  pub activated_at : Option ℕ
  pub paused_at : Option ℕ
  pub retired_at : Option ℕ

-- A version holds the draft that it was written from, in place of its columns. `RuleRecord.draft` takes
-- the capability's key from the row of the rule, so that of the draft here is not read back.
pub record RuleVersion : Type 0 where
  pub id : ℕ
  pub rule_id : ℕ
  pub number : ℕ
  pub draft : RuleDraft
  pub digest : String
  pub supersedes_version_id : Option ℕ
  pub created_by : String

pub record RuleEvent : Type 0 where
  pub rule_id : ℕ
  pub version_id : ℕ
  pub kind : EventKind
  pub from_status : Option RuleStatus
  pub to_status : RuleStatus
  pub actor : String
  pub created_at : ℕ

pub record Store : Type 0 where
  pub rules : List Rule
  pub versions : List RuleVersion
  pub events : List RuleEvent
  pub next : ℕ

abbrev pub empty : Store
empty = record { rules = []; versions = []; events = []; next = 0 }

-- `session.get(Rule, id)`, `session.get(RuleVersion, id)`, and a write to a row.
unfoldable pub find_rule : ℕ → List Rule → Option Rule
find_rule id [] = none
find_rule id (r ∷ rs) = if nat_eqb r.id id then some r else find_rule id rs

unfoldable pub find_version : ℕ → List RuleVersion → Option RuleVersion
find_version id [] = none
find_version id (v ∷ vs) = if nat_eqb v.id id then some v else find_version id vs

unfoldable pub update_rule : Rule → List Rule → List Rule
update_rule new [] = []
update_rule new (r ∷ rs) =
    let rest = update_rule new rs in if nat_eqb r.id new.id then new ∷ rs else r ∷ rest

pub find_rule-id : (id : ℕ) (rs : List Rule) (r : Rule) → find_rule id rs ≡ some r → r.id ≡ id
unfolding find_rule
find_rule-id id [] r h = cc
find_rule-id id (x ∷ rs) r h = ground (arith, find_rule-id id rs r)

pub find_version-id :
    (id : ℕ) (vs : List RuleVersion) (v : RuleVersion) → find_version id vs ≡ some v → v.id ≡ id
unfolding find_version
find_version-id id [] v h = cc
find_version-id id (x ∷ vs) v h = ground (arith, find_version-id id vs v)

-- A rule that is found after a row was rewritten is the new row or was there before.
pub find_rule-update_rule :
    (id : ℕ) (new : Rule) (rs : List Rule) (r : Rule)
    → find_rule id (update_rule new rs) ≡ some r
    → (r ≡ new) ⊎ (find_rule id rs ≡ some r)
unfolding find_rule update_rule
find_rule-update_rule id new [] r h = cc
find_rule-update_rule id new (x ∷ rs) r h = ground (arith, find_rule-update_rule id new rs r)

pub find_rule-append :
    (id : ℕ) (new : Rule) (rs : List Rule) (r : Rule)
    → find_rule id (rs ++ new ∷ []) ≡ some r
    → (r ≡ new) ⊎ (find_rule id rs ≡ some r)
unfolding find_rule
find_rule-append id new [] r h = ground arith
find_rule-append id new (x ∷ rs) r h = ground (arith, find_rule-append id new rs r)

pub find_rule-update_ne :
    (id : ℕ) (new : Rule) (rs : List Rule)
    → new.id ≢ id
    → find_rule id (update_rule new rs) ≡ find_rule id rs
unfolding find_rule update_rule
find_rule-update_ne id new [] h = refl
find_rule-update_ne id new (x ∷ rs) h = ground (arith, find_rule-update_ne id new rs h)

pub find_rule-append_old :
    (id : ℕ) (rs more : List Rule) (r : Rule)
    → find_rule id rs ≡ some r
    → find_rule id (rs ++ more) ≡ some r
unfolding find_rule
find_rule-append_old id [] more r h = cc
find_rule-append_old id (x ∷ rs) more r h = ground (arith, find_rule-append_old id rs more r)
