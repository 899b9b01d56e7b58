-- ===== src/SafIndex.antt =====
-- The records of a store-and-forward file and the index over them (CGMSafFile,
-- system/servers/gm_squeue/gmsafile.cc, gmsafile.h): where a record stands, and GetSafInfo.
-- A file is the list of its records in file order; a record is its header and the first data_len
-- bytes behind it, since no operation reads further. A position is a byte offset, the sum of the
-- lengths of the records before it.
use gmonitor.Base.{
  ℕ, ◌+◌, ◌-◌, ◌%◌, Bool, ◌&&◌, not, List, [], ◌∷◌, Option, none, some, ◌==◌, ltb, if◌then◌else◌,
}

-- The letters of record_status: new, sent, sent without success, deleted, control record.
abbrev pub status_n : ℕ
status_n = 78

abbrev pub status_s : ℕ
status_s = 83

abbrev pub status_f : ℕ
status_f = 70

abbrev pub status_d : ℕ
status_d = 68

abbrev pub status_x : ℕ
status_x = 88

-- sizeof(saf_record_header), with 8-byte longs.
abbrev pub header_size : ℕ
header_size = 32

-- A record of the file: saf_record_header and its data.
pub record Slot : Type 0 where
  pub id : ℕ
  pub trans : ℕ
  pub record_len : ℕ
  pub data_len : ℕ
  pub status : ℕ
  pub content : List ℕ

-- saf_index
pub record Entry : Type 0 where
  pub id : ℕ
  pub trans : ℕ
  pub record_len : ℕ
  pub status : ℕ
  pub header_pos : ℕ

pub record Saf : Type 0 where
  -- The file under the object's name while it is not open; none, if there is no such file.
  pub disk : Option (List Slot)
  -- The file while it is open.
  pub m_fd : Option (List Slot)
  pub last_id : ℕ
  pub record_count : ℕ
  pub data_count : ℕ
  pub index : List Entry

-- What the operating system decides: whether `fopen` can create the file, and the `trans` of the
-- control record, which Open writes without having set it.
pub record Stdio : Type 0 where
  pub creates : Bool
  pub junk : ℕ

-- unsigned long counters and the unsigned int identifier.
abbrev pub inc64 : ℕ → ℕ
inc64 n = (n + 1) % 18446744073709551616

abbrev pub dec64 : ℕ → ℕ
dec64 n = (n + 18446744073709551615) % 18446744073709551616

unfoldable pub gen_id : ℕ → ℕ
gen_id last_id = (last_id + 1) % 4294967296

-- `fseek` to a position and `fread` of a record.
unfoldable pub slot_at : ℕ → List Slot → Option Slot
slot_at p [] = none
slot_at p (x ∷ xs) =
    if p == 0 then some x else if ltb p x.record_len then none else slot_at (p - x.record_len) xs

-- `fseek` to a position and `fwrite` of a record; at the end of the file it adds the record.
unfoldable pub write_at : ℕ → Slot → List Slot → List Slot
write_at p y [] = y ∷ []
write_at p y (x ∷ xs) = if p == 0 then y ∷ xs else x ∷ write_at (p - x.record_len) y xs

-- The position of the end of the file.
unfoldable pub size : List Slot → ℕ
size [] = 0
size (x ∷ xs) = x.record_len + size xs

-- GetSafInfo inserts an entry before the first one with a larger identifier.
unfoldable pub insert_index : Entry → List Entry → List Entry
insert_index si [] = si ∷ []
insert_index si (x ∷ xs) = if ltb si.id x.id then si ∷ x ∷ xs else x ∷ insert_index si xs

abbrev pub entry_of : ℕ → Slot → Entry
entry_of pos header = record {
  id = header.id;
  trans = header.trans;
  record_len = header.record_len;
  status = header.status;
  header_pos = pos;
}

-- A record that data_count counts.
abbrev pub is_live : ℕ → Bool
is_live status = not (status == status_d) && not (status == status_x)

unfoldable pub scan : ℕ → List Slot → Saf → Saf
unfolding insert_index
scan pos [] s = s
scan pos (x ∷ xs) s = scan (pos + x.record_len) xs (record {
  disk = s.disk;
  m_fd = s.m_fd;
  last_id = if ltb s.last_id x.id then x.id else s.last_id;
  record_count = inc64 s.record_count;
  data_count = if is_live x.status then inc64 s.data_count else s.data_count;
  index = insert_index (entry_of pos x) s.index;
})

-- GetSafInfo on the records of the open file.
unfoldable pub get_saf_info : List Slot → Saf → Saf
unfolding scan
get_saf_info file s = scan 0 file (record {
  disk = s.disk;
  m_fd = s.m_fd;
  last_id = s.last_id;
  record_count = 0;
  data_count = 0;
  index = s.index;
})
