-- ===== src/Actions/Executors/Disposal/Shows.antt =====
-- Archiving, trashing and restoring a thread, and reading it back, where Gmail does as it documents
-- (adminos/domain/actions.py).
use timmeny_admin_os.Common.{
  String, Bool, true, false, not, ◌&&◌, ◌||◌, ◌≡◌, sym, ap, ◌∙◌, subst, List, [], ◌∷◌, elem, arith,
  eq_refl, ok, if◌then◌else◌, member, end, arr, str, bool, entries,
}
use timmeny_admin_os.Actions.Rows.{ReviewAction, ReviewItem}
use timmeny_admin_os.Actions.Mail.{
  GmailThread, GmailClient, Run, pure, call, ◌>>=◌, ◌>>◌, >>=-returns, call-returns, pure-returns,
}
use timmeny_admin_os.Actions.Params.{inbox, trash}
use timmeny_admin_os.Actions.Executors.Results.{
  ExecutionOutcome, VerificationOutcome, found_done, wrote, shown,
}
use timmeny_admin_os.Actions.Executors.Disposal.{
  archive_thread, execute_archive, verify_archive, trash_if_needed, execute_trash, verify_trash,
  untrash_if_needed, execute_untrash, verify_untrash,
}

-- What Gmail documents of a thread's labels: a read shows them and leaves them, a change that
-- returns adds and takes away what it was given, Trash is a label.
pub record IsLawful {M : Type 0} (client : GmailClient M) : Type 0 where
  pub labels : String → M → List String
  pub fetched :
      (t : String) (m m1 : M) (thread : GmailThread)
      → client.fetch_thread t m ≡ (ok thread, m1)
      → (thread.label_ids ≡ labels t m) × (labels t m1 ≡ labels t m)
  pub modified :
      (t : String) (add gone : List String) (m m1 : M)
      → client.modify_thread t add gone m ≡ (ok tt, m1)
      → (l : String)
      → elem l (labels t m1) ≡ (elem l add || elem l (labels t m) && not (elem l gone))
  pub trashed :
      (t : String) (m m1 : M)
      → client.trash_thread t m ≡ (ok tt, m1)
      → elem trash (labels t m1) ≡ true
  pub untrashed :
      (t : String) (m m1 : M)
      → client.untrash_thread t m ≡ (ok tt, m1)
      → elem trash (labels t m1) ≡ false

module _ {M : Type 0} (client : GmailClient M) (law : IsLawful client) where
  open law use {labels}

  -- The three writes by the label that they look for first.
  archived : Bool → ReviewItem → GmailThread → Run M ExecutionOutcome
  archived in_inbox item thread =
      if not in_inbox then pure (found_done item thread "out of the inbox") else do
        call (client.modify_thread item.source_thread_id [] (inbox ∷ []))
        pure (wrote item (member "removed" (arr (entries (inbox ∷ []))) end))

  archived-lem :
      (in_inbox : Bool) (item : ReviewItem) (thread : GmailThread) (m m1 : M)
      (outcome : ExecutionOutcome)
      → elem inbox (labels item.source_thread_id m) ≡ in_inbox
      → archived in_inbox item thread m ≡ (ok outcome, m1)
      → elem inbox (labels item.source_thread_id m1) ≡ false
  unfolding archived
  archived-lem true item thread m m1 outcome there h =
      let (_, m2, wrote_it, rest) = >>=-returns (call _) _ m m1 outcome h in
      let (_, same) = pure-returns _ outcome m2 m1 rest in
      let after =
        law.modified item.source_thread_id [] (inbox ∷ []) m m2 (call-returns _ m m2 tt wrote_it)
          inbox in
      subst (λ n. elem inbox (labels item.source_thread_id n) ≡ false) same
        (ground (arith, after, eq_refl inbox))
  archived-lem false item thread m m1 outcome gone h =
      let (_, same) = pure-returns _ outcome m m1 h in
      subst (λ n. elem inbox (labels item.source_thread_id n) ≡ false) same gone

  trashed : Bool → ReviewItem → GmailThread → Run M ExecutionOutcome
  trashed in_trash item thread = if in_trash then pure (found_done item thread "in Trash") else do
    call (client.trash_thread item.source_thread_id)
    pure (wrote item (member "moved_to" (str trash) (member "permanent" (bool false) end)))

  trashed-lem :
      (in_trash : Bool) (item : ReviewItem) (thread : GmailThread) (m m1 : M)
      (outcome : ExecutionOutcome)
      → elem trash (labels item.source_thread_id m) ≡ in_trash
      → trashed in_trash item thread m ≡ (ok outcome, m1)
      → elem trash (labels item.source_thread_id m1) ≡ true
  unfolding trashed
  trashed-lem false item thread m m1 outcome gone h =
      let (_, m2, wrote_it, rest) = >>=-returns (call _) _ m m1 outcome h in
      let (_, same) = pure-returns _ outcome m2 m1 rest in
      subst (λ n. elem trash (labels item.source_thread_id n) ≡ true) same
        (law.trashed item.source_thread_id m m2 (call-returns _ m m2 tt wrote_it))
  trashed-lem true item thread m m1 outcome there h =
      let (_, same) = pure-returns _ outcome m m1 h in
      subst (λ n. elem trash (labels item.source_thread_id n) ≡ true) same there

  untrashed : Bool → ReviewItem → GmailThread → Run M ExecutionOutcome
  untrashed in_trash item thread =
      if not in_trash then pure (found_done item thread "out of Trash") else do
        call (client.untrash_thread item.source_thread_id)
        pure (wrote item (member "moved_out_of" (str trash) end))

  untrashed-lem :
      (in_trash : Bool) (item : ReviewItem) (thread : GmailThread) (m m1 : M)
      (outcome : ExecutionOutcome)
      → elem trash (labels item.source_thread_id m) ≡ in_trash
      → untrashed in_trash item thread m ≡ (ok outcome, m1)
      → elem trash (labels item.source_thread_id m1) ≡ false
  unfolding untrashed
  untrashed-lem true item thread m m1 outcome there h =
      let (_, m2, wrote_it, rest) = >>=-returns (call _) _ m m1 outcome h in
      let (_, same) = pure-returns _ outcome m2 m1 rest in
      subst (λ n. elem trash (labels item.source_thread_id n) ≡ false) same
        (law.untrashed item.source_thread_id m m2 (call-returns _ m m2 tt wrote_it))
  untrashed-lem false item thread m m1 outcome gone h =
      let (_, same) = pure-returns _ outcome m m1 h in
      subst (λ n. elem trash (labels item.source_thread_id n) ≡ false) same gone

  -- A read of the thread that returns, and what follows it.
  fetch-returns :
      {A : Type 0} (t : String) (f : GmailThread → Run M A) (m m' : M) (a : A)
      → (call (client.fetch_thread t) >>= f) m ≡ (ok a, m')
      → (thread : GmailThread) × (m1 : M) × (thread.label_ids ≡ labels t m)
        × (labels t m1 ≡ labels t m)
        × (f thread m1 ≡ (ok a, m'))
  fetch-returns t f m m' a h =
      let (thread, m1, read, rest) = >>=-returns (call _) f m m' a h in
      let (shows, leaves) = law.fetched t m m1 thread (call-returns _ m m1 thread read) in
      (thread, m1, shows, leaves, rest)

  -- A reading of one label after a write that settled it.
  shown-lem :
      (p : List String → Bool) (t : String) (m m' : M) (v : VerificationOutcome)
      → p (labels t m) ≡ true
      → (call (client.fetch_thread t) >>= λ thread. pure (shown (p thread.label_ids) thread)) m
        ≡ (ok v, m')
      → v.verified ≡ true
  shown-lem p t m m' v holds h =
      let (thread, m1, shows, leaves, rest) = fetch-returns t _ m m' v h in
      let (same, _) = pure-returns _ v m1 m' rest in
      ap (λ x. x.verified) (sym same) ∙ ap p shows ∙ holds

  pub archive_shows :
      (action : ReviewAction) (item : ReviewItem) (m m1 m2 : M) (outcome : ExecutionOutcome)
      (v : VerificationOutcome)
      → execute_archive client action item m ≡ (ok outcome, m1)
      → verify_archive client action item m1 ≡ (ok v, m2)
      → v.verified ≡ true
  unfolding execute_archive verify_archive archive_thread archived
  archive_shows action item m m1 m2 outcome v did read =
      let (thread, m0, shows, leaves, rest) =
        fetch-returns item.source_thread_id _ m m1 outcome did in
      let out =
        archived-lem (elem inbox thread.label_ids) item thread m0 m1 outcome
          (ap (elem inbox) (leaves ∙ sym shows)) rest in
      shown-lem (λ ls. not (elem inbox ls)) item.source_thread_id m1 m2 v (ap not out) read

  pub trash_shows :
      (action : ReviewAction) (item : ReviewItem) (m m1 m2 : M) (outcome : ExecutionOutcome)
      (v : VerificationOutcome)
      → execute_trash client action item m ≡ (ok outcome, m1)
      → verify_trash client action item m1 ≡ (ok v, m2)
      → v.verified ≡ true
  unfolding execute_trash verify_trash trash_if_needed trashed
  trash_shows action item m m1 m2 outcome v did read =
      let (thread, m0, shows, leaves, rest) =
        fetch-returns item.source_thread_id _ m m1 outcome did in
      let there =
        trashed-lem (elem trash thread.label_ids) item thread m0 m1 outcome
          (ap (elem trash) (leaves ∙ sym shows)) rest in
      shown-lem (λ ls. elem trash ls) item.source_thread_id m1 m2 v there read

  pub untrash_shows :
      (action : ReviewAction) (item : ReviewItem) (m m1 m2 : M) (outcome : ExecutionOutcome)
      (v : VerificationOutcome)
      → execute_untrash client action item m ≡ (ok outcome, m1)
      → verify_untrash client action item m1 ≡ (ok v, m2)
      → v.verified ≡ true
  unfolding execute_untrash verify_untrash untrash_if_needed untrashed
  untrash_shows action item m m1 m2 outcome v did read =
      let (thread, m0, shows, leaves, rest) =
        fetch-returns item.source_thread_id _ m m1 outcome did in
      let out =
        untrashed-lem (elem trash thread.label_ids) item thread m0 m1 outcome
          (ap (elem trash) (leaves ∙ sym shows)) rest in
      shown-lem (λ ls. not (elem trash ls)) item.source_thread_id m1 m2 v (ap not out) read
