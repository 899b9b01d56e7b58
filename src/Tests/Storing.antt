-- ===== src/Tests/Storing.antt =====
-- Runs of the store-and-forward file.
use gmonitor.Base.{ℕ, ◌<◌, length, ◌≡◌, refl, true, List, [], ◌∷◌, none, some, arith, success}
use gmonitor.SafFile.Reopening.{Opened, open_existing_lem}
use gmonitor.SafFile.{
  status_f, Slot, Saf, Stdio, Entry, add, get, commit_get, abort_get, status_s, find, slot_at, size,
  put, write_at, gen_id, mark, locate, open_file, fresh, entry_of, control_record,
}
use gmonitor.SafFile.Waiting.{content_at}
use gmonitor.SafFile.Invariant.{Ready}
use gmonitor.SafFile.Queue.{Added, queue, queue-add}
use gmonitor.SafFile.Delivery.{Taken, queue-get}
use gmonitor.SafFile.Settling.{emptied, emptied-IsValid}
use gmonitor.SafFile.Committing.{Committed, commit_get_lem}
use gmonitor.SafFile.Commits.{abort_get_loses}
use gmonitor.SafFile.Reachable.{Reachable, Step, Reachable-Ready}

abbrev env : Stdio
env = record { creates = true; junk = 0 }

abbrev hello : List ℕ
hello = 104 ∷ 105 ∷ []

abbrev stored : Saf
stored = (add (some hello) 2 0 (emptied env)).0

abbrev sent : Saf
sent = (get 10 5 stored).0

queue-add_example :
    Added env
      (gen_id (emptied env).last_id, hello)
      (emptied env)
      (add (some hello) 2 0 (emptied env))
queue-add_example = queue-add hello 2 0 (emptied env) env (emptied-IsValid env) (omega arith) refl

stored-Ready : Ready env stored
stored-Ready =
    (queue-add hello 2 0 (emptied env) env (emptied-IsValid env) (omega arith) refl).ready

stored-queue : queue stored ≡ (1, hello) ∷ []
unfolding add find size put write_at gen_id content_at slot_at
stored-queue = refl

queue-get_example : Taken env 1 hello [] (get 10 5 stored)
queue-get_example = queue-get 10 5 stored env 1 hello [] stored-Ready stored-queue refl

sent-Ready : Ready env sent
sent-Ready = (queue-get 10 5 stored env 1 hello [] stored-Ready stored-queue refl).ready

abbrev sent_entry : Entry
sent_entry = record { id = 1; trans = 5; record_len = 34; status = status_s; header_pos = 32 }

sent_index : sent.index ≡ entry_of 0 (control_record env) ∷ sent_entry ∷ []
unfolding get mark add find size put write_at gen_id slot_at
sent_index = refl

sent_small : length sent.index < 18446744073709551616
sent_small = rw sent_index (omega arith)

commit_get_lem_example : Committed env 1 0 sent (commit_get env 1 0 sent)
commit_get_lem_example = commit_get_lem 1 0 sent env sent-Ready sent_small refl

sent_located : locate 1 0 sent.index ≡ some (1, sent_entry)
unfolding locate find
sent_located = rw sent_index refl

abort_get_loses_example :
    ((abort_get env 1 0 sent).1 ≡ success)
    × ((abort_get env 1 0 sent).0 ≡ emptied env)
    × (queue (abort_get env 1 0 sent).0 ≡ [])
abort_get_loses_example =
    abort_get_loses 1 0 1 sent_entry sent env sent-Ready refl sent_located refl refl
      (rw sent_index refl)

reaches_stored : Reachable env (add (some hello) 2 0 (open_file env (fresh none none)).0).0
reaches_stored =
    Reachable.then_step (open_file env (fresh none none)).0
      (add (some hello) 2 0 (open_file env (fresh none none)).0).0 Reachable.created
      (Step.adds (open_file env (fresh none none)).0 hello 2 0 (omega arith))

Reachable-Ready_example : Ready env (add (some hello) 2 0 (open_file env (fresh none none)).0).0
Reachable-Ready_example =
    Reachable-Ready env (add (some hello) 2 0 (open_file env (fresh none none)).0).0 refl
      reaches_stored

-- One message that was sent without success.
abbrev failed_slot : Slot
failed_slot = record {
  id = 4;
  trans = 0;
  record_len = 34;
  data_len = 2;
  status = status_f;
  content = hello;
}

abbrev closed : Saf
closed = fresh (some (control_record env ∷ failed_slot ∷ [])) none

open_existing_lem_example :
    Opened env (control_record env ∷ failed_slot ∷ []) (open_file env closed)
open_existing_lem_example =
    open_existing_lem env (control_record env) (failed_slot ∷ []) closed refl refl refl
      (refl, (refl, tt))
