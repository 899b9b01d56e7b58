-- ===== src/SafFile.antt =====
-- CGMSafFile (system/servers/gm_squeue/gmsafile.cc, gmsafile.h): the operations of a
-- store-and-forward file. Reads and writes on an open file are taken to succeed, and an object to
-- use one file name. The records and the index are those of SafIndex, whose names this module
-- passes on.
pub mod Slots
pub mod Waiting
pub mod Counts
pub mod Invariant
pub mod Queue
pub mod Delivery
pub mod Settling
pub mod Commits
pub mod Committing
pub mod Reachable
pub mod Reopening
use gmonitor.Base.{
  ℕ, suc, ◌+◌, ◌-◌, ◌%◌, Bool, true, false, ◌&&◌, ◌||◌, not, List, [], ◌∷◌, ◌++◌, Option, none,
  some, length, take, ◌==◌, ltb, leb, if◌then◌else◌, set, get_elem?, erase_at, find_index, ℤ,
  success, failure, min,
}
pub use gmonitor.SafIndex.{
  status_n, status_s, status_f, status_d, status_x, header_size, Slot, Entry, Saf, Stdio, inc64,
  dec64, entry_of, is_live,
}
unfoldable pub use gmonitor.SafIndex.{
  gen_id, slot_at, write_at, size, insert_index, scan, get_saf_info,
}

-- The object after the resets at the head of Open.
abbrev pub fresh : Option (List Slot) → Option (List Slot) → Saf
fresh disk m_fd = record {
  disk = disk;
  m_fd = m_fd;
  last_id = 0;
  record_count = 0;
  data_count = 0;
  index = [];
}

-- The first record of a file that Open creates.
abbrev pub control_record : Stdio → Slot
control_record env = record {
  id = 0;
  trans = env.junk;
  record_len = header_size;
  data_len = 0;
  status = status_x;
  content = [];
}

-- The test of the first record of a file.
abbrev pub is_control : Slot → Bool
is_control header =
    header.id == 0
    && (header.record_len == header_size && (header.data_len == 0 && header.status == status_x))

unfoldable pub open_existing : List Slot → Saf × ℤ
unfolding get_saf_info
open_existing [] = (fresh (some []) none, failure)
open_existing (header ∷ rest) =
    if is_control header
    then (get_saf_info (header ∷ rest) (fresh none (some (header ∷ rest))), success)
    else (fresh (some (header ∷ rest)) none, failure)

unfoldable pub open_file : Stdio → Saf → Saf × ℤ
unfolding open_existing get_saf_info
open_file env s = elim s.m_fd [
  | some _ ↦ (s, failure)
  | none ↦ elim s.disk [
    | some file ↦ open_existing file
    | none ↦
        if env.creates
        then (
          get_saf_info (control_record env ∷ []) (fresh none (some (control_record env ∷ []))),
          success,
        )
        else (fresh none none, failure)
  ]
]

-- The counters stay as they are.
unfoldable pub close_file : Bool → Saf → Saf × ℤ
close_file drop s = elim s.m_fd [
  | none ↦ (s, failure)
  | some file ↦ (
    record {
      disk = if drop then none else some file;
      m_fd = none;
      last_id = s.last_id;
      record_count = s.record_count;
      data_count = s.data_count;
      index = [];
    },
    success,
  )
]

-- `record_len - sizeof(saf_record_header)` on unsigned long.
abbrev pub room_of : ℕ → ℕ
room_of record_len =
    if ltb record_len header_size
    then record_len + 18446744073709551584
    else record_len - header_size

-- A deleted record with space for `len` bytes.
abbrev pub reusable : ℕ → Entry → Bool
reusable len e = e.status == status_d && leb len (room_of e.record_len)

-- The new record and its entry at the end of the index.
abbrev pub new_slot : List ℕ → ℕ → ℕ → ℕ → ℕ → Slot
new_slot content len trans id record_len = record {
  id = id;
  trans = trans;
  record_len = record_len;
  data_len = len;
  status = status_n;
  content = take len content;
}

-- Add from `header.id = GenId()` on, at the position `pos`.
unfoldable pub put : List ℕ → ℕ → ℕ → List Slot → ℕ → ℕ → ℕ → List Entry → Saf → Saf
unfolding write_at gen_id
put content len trans file pos record_len record_count index s =
    let slot = new_slot content len trans (gen_id s.last_id) record_len in
    record {
      disk = s.disk;
      m_fd = some (write_at pos slot file);
      last_id = gen_id s.last_id;
      record_count = record_count;
      data_count = inc64 s.data_count;
      index = index ++ entry_of pos slot ∷ [];
    }

-- The place in the index with its entry, as found by a test.
unfoldable pub find : (Entry → Bool) → List Entry → Option (ℕ × Entry)
find p index = elim (find_index p index) [
  | none ↦ none
  | some i ↦ elim (get_elem? index i) [ none ↦ none | some e ↦ some (i, e) ]
]

unfoldable pub add : Option (List ℕ) → ℕ → ℕ → Saf → Saf × ℤ
unfolding find slot_at size put
add none len trans s = (s, failure)
add (some content) len trans s = if len == 0 then (s, failure) else elim s.m_fd [
  | none ↦ (s, failure)
  | some file ↦ elim (find (reusable len) s.index) [
    | some (i, e) ↦ elim (slot_at e.header_pos file) [
      | none ↦ (s, failure)
      | some header ↦ (
        put content len trans file e.header_pos header.record_len s.record_count
            (erase_at s.index i) s,
        success,
      )
    ]
    | none ↦ (
      put content len trans file (size file) (len + header_size) (inc64 s.record_count) s.index s,
      success,
    )
  ]
]

-- A record that Get may deliver.
abbrev pub deliverable : Entry → Bool
deliverable e = e.status == status_n || e.status == status_f

-- The header of a record is written back with a new status and transaction, and the index
-- follows.
unfoldable pub mark : ℕ → ℕ → ℕ → Entry → Slot → List Slot → ℕ → Saf → Saf
unfolding write_at
mark status trans i e header file data_count s = record {
  disk = s.disk;
  m_fd = some (
      write_at e.header_pos
        (record {
          id = header.id;
          trans = trans;
          record_len = header.record_len;
          data_len = header.data_len;
          status = status;
          content = header.content;
        })
        file);
  last_id = s.last_id;
  record_count = s.record_count;
  data_count = data_count;
  index = set s.index i (record {
    id = e.id;
    trans = trans;
    record_len = e.record_len;
    status = status;
    header_pos = e.header_pos;
  });
}

-- The identifier that Get returns, 0 for an error, and the bytes that it delivers.
unfoldable pub get : ℕ → ℕ → Saf → Saf × ℕ × List ℕ
unfolding find slot_at mark
get max_len trans s = elim s.m_fd [
  | none ↦ (s, 0, [])
  | some file ↦ elim (find deliverable s.index) [
    | none ↦ (s, 0, [])
    | some (i, e) ↦ elim (slot_at e.header_pos file) [
      | none ↦ (s, 0, [])
      | some header ↦ if min max_len header.data_len == 0 then (s, 0, []) else (
        mark status_s trans i e header file s.data_count s,
        header.id,
        take (min max_len header.data_len) header.content,
      )
    ]
  ]
]

-- The search by identifier, or by transaction for the identifier 0.
unfoldable pub locate : ℕ → ℕ → List Entry → Option (ℕ × Entry)
unfolding find
locate id trans index =
    if id == 0 then find (λ e. e.trans == trans) index else find (λ e. e.id == id) index

-- A file without data is removed and made anew.
unfoldable pub clean : Stdio → Saf → Saf
unfolding close_file open_file
clean env s = if s.data_count == 0 then (open_file env (close_file true s).0).0 else s

-- CommitGet, AbortGet and Delete, by the statuses that each allows and the one that it sets.
unfoldable pub settle : (ℕ → Bool) → ℕ → Stdio → ℕ → ℕ → Saf → Saf × ℤ
unfolding locate slot_at mark clean
settle allowed status env id trans s = elim s.m_fd [
  | none ↦ (s, failure)
  | some file ↦ if id == 0 && trans == 0 then (s, failure) else elim (locate id trans s.index) [
    | none ↦ (s, failure)
    | some (i, e) ↦
        if allowed e.status
        then elim (slot_at e.header_pos file) [
          | none ↦ (s, failure)
          | some header ↦
              (clean env (mark status 0 i e header file (dec64 s.data_count) s), success)
        ]
        else (s, failure)
  ]
]

unfoldable pub commit_get : Stdio → ℕ → ℕ → Saf → Saf × ℤ
unfolding settle
commit_get = settle (λ status. status == status_s) status_d

unfoldable pub abort_get : Stdio → ℕ → ℕ → Saf → Saf × ℤ
unfolding settle
abort_get = settle (λ status. status == status_s) status_f

unfoldable pub delete : Stdio → ℕ → ℕ → Saf → Saf × ℤ
unfolding settle
delete = settle (λ status. not (status == status_d)) status_d
