-- ===== src/SafStore.antt =====
-- CGMSaf (system/servers/gm_squeue/gmsaf.cc, gmsaf.h): the store-and-forward files of a directory
-- by their names. The objects of CGMSafFile are those of SafFile. A file is reached by one name
-- only; `found` stands for what the directory holds under the name of a file that is created.
pub mod Names
use gmonitor.Base.{
  ℕ, ◌-◌, Bool, true, false, ◌&&◌, List, [], ◌∷◌, ◌++◌, Option, none, some, length, ltb, ◌==◌,
  if◌then◌else◌, ℤ, pos, negsuc, success, failure, str_eq, map, codes,
}
use gmonitor.SafFile.{
  Slot, Saf, Stdio, fresh, add, get, commit_get, abort_get, delete, open_file, close_file,
}

-- The codes of gmerror.h.
abbrev pub gme_file_notopen : ℤ
gme_file_notopen = pos 3

abbrev pub gme_file_duplicated : ℤ
gme_file_duplicated = pos 4

abbrev pub gme_directory_error : ℤ
gme_directory_error = pos 6

abbrev pub gme_saf_not_found : ℤ
gme_saf_not_found = pos 23

-- SAFNAME_MAX, the length of the array for a name with its NUL, which stands before record_count in
-- saf_info. Open copies the name with strcpy() and does not look at its length.
abbrev pub safname_max : ℕ
safname_max = 32

-- An element of m_saf_list, with the name of the object, which is shorter than safname_max.
pub record Named : Type 0 where
  pub name : List ℕ
  pub file : Saf

abbrev pub is_open : Saf → Bool
is_open s = elim s.m_fd [ none ↦ false | some _ ↦ true ]

-- `strstr(name, ".saf")` and the NUL at that place.
unfoldable pub is_prefix : List ℕ → List ℕ → Bool
is_prefix [] ys = true
is_prefix (x ∷ xs) [] = false
is_prefix (x ∷ xs) (y ∷ ys) = (x == y) && is_prefix xs ys

unfoldable pub before_saf : List ℕ → Option (List ℕ)
unfolding is_prefix
before_saf [] = none
before_saf (c ∷ cs) =
    let rest = before_saf cs in
    if is_prefix (codes ".saf") (c ∷ cs)
    then some []
    else elim rest [ none ↦ none | some front ↦ some (c ∷ front) ]

-- Open: the entries of the directory with the records of the files, or none if there is no
-- directory, and then whether it could be made. The answer none stands for a name that is written
-- behind the end of its array.
unfoldable pub with_entry : Named → Option (List Named) → Option (List Named)
with_entry x none = none
with_entry x (some xs) = some (x ∷ xs)

unfoldable pub open_entries : Stdio → List (List ℕ × List Slot) → Option (List Named)
unfolding before_saf open_file with_entry
open_entries env [] = some []
open_entries env ((name, content) ∷ rest) =
    let opened = (open_file env (fresh (some content) none)).0 in
    let others = open_entries env rest in
    elim (before_saf name) [
      | none ↦ others
      | some saf_name ↦
          if is_open opened
          then (if ltb (length saf_name) safname_max
              then with_entry (record { name = saf_name; file = opened }) others
              else none)
          else others
    ]

unfoldable pub open_all :
    Stdio → Option (List (List ℕ × List Slot)) → Bool → Option (List Named × ℤ)
unfolding open_entries
open_all env none made = some ([], if made then success else gme_directory_error)
open_all env (some entries) made = elim (open_entries env entries) [
  | none ↦ none
  | some safs ↦ some (safs, success)
]

-- Close leaves the list empty; the files stay on disk, or are removed.
unfoldable pub close_all : Bool → List Named → List Named × List Saf
unfolding close_file
close_all drop safs = ([], map (λ x. (close_file drop x.file).0) safs)

-- The first object of a name does an operation; `missing` is the answer if there is none.
unfoldable pub with_file : {R : Type 0} → (Saf → Saf × R) → R → List ℕ → List Named → List Named × R
with_file op missing n [] = ([], missing)
with_file op missing n (x ∷ xs) =
    let rest = with_file op missing n xs in
    if str_eq x.name n
    then (record { name = x.name; file = (op x.file).0 } ∷ xs, (op x.file).1)
    else (x ∷ rest.0, rest.1)

unfoldable pub exist : List ℕ → List Named → Bool
exist n [] = false
exist n (x ∷ xs) = if str_eq x.name n then true else exist n xs

-- Create; none stands for a name that is written behind the end of its array.
unfoldable pub create : Stdio → Option (List Slot) → List ℕ → List Named → Option (List Named × ℤ)
unfolding exist open_file
create env found n safs =
    let opened = (open_file env (fresh found none)).0 in
    if exist n safs
    then some (safs, gme_file_duplicated)
    else if is_open opened
    then (if ltb (length n) safname_max
        then some (safs ++ record { name = n; file = opened } ∷ [], success)
        else none)
    else some (safs, gme_file_notopen)

unfoldable pub drop_file : List ℕ → List Named → List Named × ℤ
drop_file n [] = ([], gme_saf_not_found)
drop_file n (x ∷ xs) =
    let rest = drop_file n xs in if str_eq x.name n then (xs, success) else (x ∷ rest.0, rest.1)

-- saf_info, without the name of the file in the directory.
pub record SafInfo : Type 0 where
  pub name : List ℕ
  pub record_count : ℕ
  pub data_count : ℕ

unfoldable pub info : List ℕ → List Named → Option SafInfo
info n [] = none
info n (x ∷ xs) =
    let rest = info n xs in
    if str_eq x.name n
    then some (record {
      name = x.name;
      record_count = x.file.record_count;
      data_count = x.file.data_count;
    })
    else rest

unfoldable pub list : List Named → List SafInfo
list = map (λ x. record {
  name = x.name;
  record_count = x.file.record_count;
  data_count = x.file.data_count;
})

unfoldable pub add_to : List ℕ → Option (List ℕ) → ℕ → ℕ → List Named → List Named × ℤ
unfolding with_file add
add_to n bytes len trans = with_file (add bytes len trans) gme_saf_not_found n

-- An unsigned int that is returned as an int.
abbrev pub to_int : ℕ → ℤ
to_int n = if ltb n 2147483648 then pos n else negsuc (4294967295 - n)

abbrev pub taken_as_int : Saf × ℕ × List ℕ → Saf × (ℤ × List ℕ)
taken_as_int (s, id, bytes) = (s, (to_int id, bytes))

unfoldable pub get_from : List ℕ → ℕ → ℕ → List Named → List Named × (ℤ × List ℕ)
unfolding with_file get
get_from n max_len trans = with_file (λ s. taken_as_int (get max_len trans s)) (failure, []) n

unfoldable pub commit_get_in : Stdio → List ℕ → ℕ → ℕ → List Named → List Named × ℤ
unfolding with_file commit_get
commit_get_in env n id trans = with_file (commit_get env id trans) gme_saf_not_found n

unfoldable pub abort_get_in : Stdio → List ℕ → ℕ → ℕ → List Named → List Named × ℤ
unfolding with_file abort_get
abort_get_in env n id trans = with_file (abort_get env id trans) gme_saf_not_found n

unfoldable pub delete_in : Stdio → List ℕ → ℕ → ℕ → List Named → List Named × ℤ
unfolding with_file delete
delete_in env n id trans = with_file (delete env id trans) gme_saf_not_found n
