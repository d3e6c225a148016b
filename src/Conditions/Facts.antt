-- ===== src/Conditions/Facts.antt =====
-- `email_facts` and `domains_of` of adminos/domain/conditions.py: an email thread as facts.
use Prim.Native.Nat.{ℕ}
use timmeny_admin_os.Common.{
  String, Bool, ◌&&◌, ◌||◌, not, Option, none, List, [], ◌∷◌, ◌++◌, ◌==◌, if◌then◌else◌, keep, elem,
  is_set, strip_by, rpartition, nat_eqb,
}
use timmeny_admin_os.Conditions.Fields.{Engine, Facts}

-- `address.rpartition("@")[2]`: the whole address where it has no `@`.
abbrev is_at : ℕ → Bool
is_at c = nat_eqb c b'@'

-- `domain.strip("> ")`.
abbrev is_closing : ℕ → Bool
is_closing c = nat_eqb c b'>' || nat_eqb c b' '

module _ (e : Engine) where
  open e use {Num, casefold}

  pub domain_loop : List String → List String → List String
  domain_loop found [] = found
  domain_loop found (address ∷ addresses) =
      let domain = rpartition is_at address in
      domain_loop
        (if is_set domain && not (elem domain found)
          then found ++ casefold (strip_by is_closing domain) ∷ []
          else found)
        addresses

  unfoldable pub domains_of : List String → List String
  unfolding domain_loop
  domains_of addresses = domain_loop [] addresses

  -- `age` is `(now - received_at).total_seconds() / SECONDS_A_DAY`, where the mail has a time.
  abbrev text_fact : Option String → Option String → Option String → String → Option String
  text_fact subject snippet capability_key key =
      if key == "subject"
      then subject
      else if key == "snippet"
      then snippet
      else if key == "capability"
      then capability_key
      else none

  abbrev list_fact : List String → List String → String → List String
  list_fact addresses labels key =
      if key == "participant"
      then addresses
      else if key == "participant_domain"
      then domains_of addresses
      else if key == "gmail_label"
      then keep is_set labels
      else []

  unfoldable pub email_facts :
      Option String
      → List String
      → List String
      → Option String
      → Option String
      → Option Num
      → Facts Num
  email_facts subject participants labels snippet capability_key age = record {
    read_text = text_fact subject snippet capability_key;
    read_list = list_fact (keep is_set participants) labels;
    read_number = λ key. if key == "thread_age_days" then age else none;
  }
