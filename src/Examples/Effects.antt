-- ===== src/Examples/Effects.antt =====
-- An archive that shows, and the sending of a reviewed draft.
use timmeny_admin_os.Common.{
  String, true, false, not, ◌&&◌, ◌||◌, ◌≡◌, refl, sym, ap, ◌∙◌, some, List, [], ◌∷◌, elem,
  elem-append, elem-keep, keep, arith, strip, str, arr, end, member, entries, ok, ok-injective,
}
use timmeny_admin_os.Capabilities.{gmail_archive}
use timmeny_admin_os.Actions.Mail.{GmailThread}
use timmeny_admin_os.Actions.Params.{read_text}
use timmeny_admin_os.Actions.Executors.{
  ExecutionOutcome, VerificationOutcome, execute, verify, execute_send,
}
use timmeny_admin_os.Actions.Executors.Disposal.Shows.{IsLawful}
use timmeny_admin_os.Actions.Executors.Shows.{is_disposal, execute-shows}
use timmeny_admin_os.Actions.Executors.Drafts.Sends.{IsReviewedSend, execute_send-IsReviewedSend}
use timmeny_admin_os.Examples.Samples.{
  Mailbox, gmail, drafting, inboxed, archived, offer, archive_action, send_action,
}

fetches :
    (t : String) (m m1 : Mailbox) (thread : GmailThread)
    → gmail.fetch_thread t m ≡ (ok thread, m1)
    → (thread.label_ids ≡ m.labels) × (m1.labels ≡ m.labels)
fetches t m m1 thread h =
    (ap (λ th. th.label_ids) (ok-injective (ap (λ p. p.0) h)), ap (λ p. p.1.labels) (sym h))

modifies :
    (t : String) (add gone : List String) (m m1 : Mailbox)
    → gmail.modify_thread t add gone m ≡ (ok tt, m1)
    → (l : String) → elem l m1.labels ≡ (elem l add || elem l m.labels && not (elem l gone))
modifies t add gone m m1 h l =
    let kept = keep (λ k. not (elem k gone)) m.labels in
    ap (λ p. elem l p.1.labels) (sym h)
    ∙ ground (arith, elem-append l kept add, elem-keep l (λ k. not (elem k gone)) m.labels)

trashes :
    (t : String) (m m1 : Mailbox)
    → gmail.trash_thread t m ≡ (ok tt, m1)
    → elem "TRASH" m1.labels ≡ true
trashes t m m1 h = ap (λ p. elem "TRASH" p.1.labels) (sym h)

restores :
    (t : String) (m m1 : Mailbox)
    → gmail.untrash_thread t m ≡ (ok tt, m1)
    → elem "TRASH" m1.labels ≡ false
restores t m m1 h =
    ap (λ p. elem "TRASH" p.1.labels) (sym h)
    ∙ ground (arith, elem-keep "TRASH" (λ k. not (elem k ("TRASH" ∷ []))) m.labels)

lawful : IsLawful gmail
lawful = record {
  labels = λ t m. m.labels;
  fetched = fetches;
  modified = modifies;
  trashed = trashes;
  untrashed = restores;
}

abbrev wrote_archive : ExecutionOutcome
wrote_archive = record {
  external_kind = "gmail_thread";
  external_ref = some "t1";
  detail = member "removed" (arr (entries ("INBOX" ∷ []))) end;
  already_applied = false;
  adopted = false;
}

abbrev no_labels : VerificationOutcome
no_labels = record { verified = true; detail = member "labels" (arr (entries [])) end }

archives : execute gmail gmail_archive archive_action offer inboxed ≡ (ok wrote_archive, archived)
unfolding execute
archives = refl

looks : verify gmail gmail_archive archive_action offer archived ≡ (ok no_labels, archived)
unfolding verify
looks = refl

is_archive : is_disposal gmail_archive ≡ true
unfolding is_disposal
is_archive = refl

execute-shows_example : no_labels.verified ≡ true
execute-shows_example =
    execute-shows gmail lawful gmail_archive archive_action offer inboxed archived archived
      wrote_archive no_labels is_archive archives looks

abbrev sent_outcome : ExecutionOutcome
sent_outcome = record {
  external_kind = "gmail_message";
  external_ref = some "S";
  detail = member "draft_id" (str "D") (member "sent_message_id" (str "S") end);
  already_applied = false;
  adopted = false;
}

sends :
    execute_send drafting send_action offer inboxed
    ≡ (ok sent_outcome, record inboxed { labels = "SENT" ∷ "INBOX" ∷ [] })
unfolding execute_send read_text strip
sends = refl

execute_send-IsReviewedSend_example :
    IsReviewedSend drafting send_action inboxed (record inboxed { labels = "SENT" ∷ "INBOX" ∷ [] })
execute_send-IsReviewedSend_example =
    execute_send-IsReviewedSend drafting send_action offer inboxed
      (record inboxed { labels = "SENT" ∷ "INBOX" ∷ [] }) sent_outcome sends
