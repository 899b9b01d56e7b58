-- ===== src/Tests/Sharing.antt =====
-- Runs of the shared memory.
use gmonitor.Base.{◌+◌, ◌≤◌, refl, true, [], ◌∷◌, min, true}
use gmonitor.SincMem.{idle, writing, System, runs, advance, create}
use gmonitor.SincMem.Sums.{sum, writes, reads}
use gmonitor.SincMem.Exclusion.{Reachable, writers_alone}
use gmonitor.SincMem.Progress.{Runs, no_deadlock}

-- The first of two processes writes.
abbrev one_writes : System
one_writes = record {
  shared = record { read_sem = 1; write_sem = 0; count = 0 };
  places = writing ∷ idle ∷ [];
}

one_writes-Reachable : Reachable one_writes
unfolding create advance
one_writes-Reachable =
    Reachable.then_step (create (idle ∷ idle ∷ [])) one_writes (Reachable.created 2) (
      runs (create (idle ∷ idle ∷ [])) 0 true idle writing
        (record { read_sem = 1; write_sem = 0; count = 0 }) refl refl)

writers_alone_example : sum writes one_writes.places + min 1 (sum reads one_writes.places) ≤ 1
writers_alone_example = writers_alone one_writes one_writes-Reachable

no_deadlock_example : Runs one_writes
no_deadlock_example = no_deadlock one_writes 0 writing one_writes-Reachable refl refl
