-- ===== src/SincMem.antt =====
-- CSincMem (system/shared/sincmem.cc): shared memory with readers and writers, synchronised by two
-- semaphores and a counter of the readers that stands at the head of the memory. Each process goes
-- through SetAt and GetAt in the steps between which another one can run; a semaphore at 0 makes
-- it wait. The semaphores and the memory itself are taken to work, and the bytes that are copied
-- are left out.
pub mod Sums
pub mod Exclusion
pub mod Progress
use gmonitor.Base.{
  ℕ, zero, suc, ◌+◌, ◌-◌, ◌≡◌, Bool, true, false, List, [], ◌∷◌, Option, none, some, ◌==◌,
  if◌then◌else◌, set, get_elem?,
}

-- Where a process stands; the number is its variable `count` of WriteBloq.
pub data Place : Type 0 where
  idle : Place
  -- SetAt, behind Wait(SSHMEM_WRITE_SEM).
  writing : Place
  -- WriteBloq(WRITE_BLOQ_IN): behind Wait(SSHMEM_READ_SEM), before the Wait of the first reader,
  -- before the count is stored, and before Signal(SSHMEM_READ_SEM).
  entering : Place
  first_reader : ℕ → Place
  storing_in : ℕ → Place
  entered : Place
  -- GetAt, between the two calls of WriteBloq.
  reading : Place
  -- WriteBloq(WRITE_BLOQ_OUT), in the same way.
  leaving : Place
  storing_out : ℕ → Place
  left : Place

pub record Shared : Type 0 where
  pub read_sem : ℕ
  pub write_sem : ℕ
  pub count : ℕ

-- The next step of a process, none if it has to wait; an idle one starts SetAt or GetAt.
unfoldable pub advance : Bool → Place → Shared → Option (Place × Shared)
advance sets idle m =
    if sets
    then (if m.write_sem == 0
        then none
        else some (writing, record m { write_sem = m.write_sem - 1 }))
    else (if m.read_sem == 0 then none else some (entering, record m { read_sem = m.read_sem - 1 }))
advance sets writing m = some (idle, record m { write_sem = m.write_sem + 1 })
advance sets entering m =
    some (if m.count + 1 == 1 then first_reader (m.count + 1) else storing_in (m.count + 1), m)
advance sets (first_reader c) m =
    if m.write_sem == 0 then none else some (storing_in c, record m { write_sem = m.write_sem - 1 })
advance sets (storing_in c) m = some (entered, record m { count = c })
advance sets entered m = some (reading, record m { read_sem = m.read_sem + 1 })
advance sets reading m =
    if m.read_sem == 0 then none else some (leaving, record m { read_sem = m.read_sem - 1 })
-- A count that would get negative is left as it is.
advance sets leaving m =
    if m.count == 0
    then some (left, m)
    else if m.count - 1 == 0
    then some (storing_out (m.count - 1), record m { write_sem = m.write_sem + 1 })
    else some (storing_out (m.count - 1), m)
advance sets (storing_out c) m = some (left, record m { count = c })
advance sets left m = some (idle, record m { read_sem = m.read_sem + 1 })

pub record System : Type 0 where
  pub shared : Shared
  pub places : List Place

-- Behind Create, whose two Signal calls open the semaphores; every process is idle.
unfoldable pub create : List Place → System
create places = record {
  shared = record { read_sem = 1; write_sem = 1; count = 0 };
  places = places;
}

-- One process makes its next step.
pub data Step : System → System → Type 0 where
  runs :
      (s : System) (i : ℕ) (sets : Bool) (p q : Place) (m : Shared)
      → get_elem? s.places i ≡ some p
      → advance sets p s.shared ≡ some (q, m)
      → Step s (record { shared = m; places = set s.places i q })
