-- ===== src/Examples/Candidates.antt =====
-- A rule that is proposed and confirmed, and its conditions as they are stored.
use timmeny_admin_os.Common.{String, ◌≡◌, refl, none, some, List, [], ◌∷◌, inl, ok, Members}
use timmeny_admin_os.Capabilities.{gmail_archive}
use timmeny_admin_os.Candidates.{
  proposed, confirmed, CandidateRule, dump_match, load_match, record_rule, transition_rule,
  states_a_condition, is_active, record_found,
}
use timmeny_admin_os.Candidates.RoundTrip.{load-dump}
use timmeny_admin_os.Candidates.Vetted.{
  recorded, transitioned, Reach, empty, next, WasConfirmed, active-WasConfirmed,
}
use timmeny_admin_os.Examples.Samples.{mail}
use timmeny_admin_os.Examples.Runs.{of_shop, archive_rule}

load-dump_example : load_match (dump_match of_shop) ≡ ok of_shop
unfolding states_a_condition
load-dump_example = load-dump of_shop refl

abbrev same_digest : Members → String
same_digest m = "d"

abbrev one_identity : List CandidateRule → String
one_identity rules = "c1"

proposes :
    record_rule same_digest one_identity mail of_shop gmail_archive "Offers" proposed "user" none 95
      (some "human")
      1
      []
    ≡ ok (archive_rule proposed none, archive_rule proposed none ∷ [])
unfolding record_rule record_found is_active
proposes = refl

confirms :
    transition_rule mail
      (archive_rule proposed none)
      confirmed
      "ann"
      none
      2
      (archive_rule proposed none ∷ [])
    ≡ ok (archive_rule confirmed none, archive_rule confirmed none ∷ [])
unfolding transition_rule is_active
confirms = refl

history : Reach same_digest one_identity (archive_rule confirmed none ∷ [])
history =
    next
      (next empty (
        recorded mail of_shop gmail_archive "Offers" proposed "user" none 95 (some "human") 1
          (archive_rule proposed none) proposes))
      (transitioned mail (archive_rule proposed none) confirmed "ann" none 2
        (archive_rule confirmed none) (inl refl) confirms)

active-WasConfirmed_example : WasConfirmed (archive_rule confirmed none)
unfolding is_active
active-WasConfirmed_example =
    active-WasConfirmed same_digest one_identity (archive_rule confirmed none ∷ [])
      (archive_rule confirmed none) history (inl refl) refl
