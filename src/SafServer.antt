-- ===== src/SafServer.antt =====
-- CGMServer of the store-and-forward server (system/servers/gm_squeue/gm_squeue.cc): the services
-- on the files of SafStore, and the names of the files from which a transaction has taken messages.
-- A request is ST_SQUEUE (system/shared/svcstru.h): a name of 32 bytes, a length of 8 and the text.
pub mod Delivery
pub mod Unique
use gmonitor.Base.{
  ℕ, zero, suc, ◌+◌, ◌%◌, Bool, true, false, List, [], ◌∷◌, ◌++◌, Option, none, some, ◌==◌, take,
  drop, if◌then◌else◌, ℤ, pos, negsuc, success, failure, str_eq, c_str, codes,
}
use gmonitor.Service.{le_word, word}
use gmonitor.SafFile.{Slot, Stdio}
use gmonitor.SafStore.{
  Named, SafInfo, open_all, create, drop_file, info, list, add_to, get_from, commit_get_in,
  abort_get_in, gme_saf_not_found,
}

-- squeue_trans
pub record Trans : Type 0 where
  pub trans : ℕ
  pub vsaf : List (List ℕ)

pub record Squeue : Type 0 where
  pub safs : List Named
  pub vtrans : List Trans

-- The parts of a request.
unfoldable pub saf_name : List ℕ → List ℕ
unfolding c_str
saf_name st = c_str st

-- The name once `head.len = 0` ends it behind its 32 bytes.
unfoldable pub short_name : List ℕ → List ℕ
unfolding c_str
short_name st = c_str (take 32 st)

unfoldable pub text_len : List ℕ → ℕ
unfolding le_word
text_len st = word 8 32 st

abbrev pub text : List ℕ → List ℕ
text st = drop 40 st

unfoldable pub init : Stdio → Option (List (List ℕ × List Slot)) → Bool → Option Squeue
unfolding open_all
init env directory made = elim (open_all env directory made) [
  | none ↦ none
  | some r ↦ some (record { safs = r.0; vtrans = [] })
]

unfoldable pub has_trans : ℕ → List Trans → Bool
has_trans t [] = false
has_trans t (x ∷ xs) = if x.trans == t then true else has_trans t xs

unfoldable pub begin_trans : ℕ → Squeue → Squeue × ℤ
unfolding has_trans
begin_trans t s = if has_trans t s.vtrans then (s, failure) else (
  record { safs = s.safs; vtrans = s.vtrans ++ record { trans = t; vsaf = [] } ∷ [] },
  success,
)

-- The names of the first entry of the transaction, and the list without that entry.
unfoldable pub names_of : ℕ → List Trans → List (List ℕ)
names_of t [] = []
names_of t (x ∷ xs) = if x.trans == t then x.vsaf else names_of t xs

unfoldable pub without : ℕ → List Trans → List Trans
without t [] = []
without t (x ∷ xs) = if x.trans == t then xs else x ∷ without t xs

-- CommitGet, or AbortGet, with the identifier 0 on each of the names.
unfoldable pub settle_names :
    (List ℕ → List Named → List Named × ℤ) → List (List ℕ) → List Named → List Named
settle_names op [] safs = safs
settle_names op (n ∷ ns) safs = settle_names op ns (op n safs).0

unfoldable pub commit_trans : Stdio → ℕ → Squeue → Squeue × ℤ
unfolding settle_names commit_get_in names_of without
commit_trans env t s = (
  record {
    safs = settle_names (λ n. commit_get_in env n 0 t) (names_of t s.vtrans) s.safs;
    vtrans = without t s.vtrans;
  },
  success,
)

unfoldable pub rollback_trans : Stdio → ℕ → Squeue → Squeue × ℤ
unfolding settle_names abort_get_in names_of without
rollback_trans env t s = (
  record {
    safs = settle_names (λ n. abort_get_in env n 0 t) (names_of t s.vtrans) s.safs;
    vtrans = without t s.vtrans;
  },
  success,
)

-- `vtrans[i].vsaf.push_back(name)` for the first entry of the transaction.
unfoldable pub remember : ℕ → List ℕ → List Trans → List Trans
remember t n [] = []
remember t n (x ∷ xs) =
    if x.trans == t
    then record { trans = x.trans; vsaf = x.vsaf ++ n ∷ [] } ∷ xs
    else x ∷ remember t n xs

abbrev pub gme_no_data : ℤ
gme_no_data = pos 25

abbrev pub gme_svc_unresolved : ℤ
gme_svc_unresolved = pos 17

-- What stands in `out`: bytes of a message, a saf_info or the list of them, which is written as a
-- text with tags.
pub data Reply : Type 0 where
  no_reply : Reply
  bytes : List ℕ → Reply
  info_reply : SafInfo → Reply
  listing : List SafInfo → Reply

pub record Result : Type 0 where
  pub state : Squeue
  pub rc : ℤ
  pub reply : Reply

-- Behind the call of Get, by its answer.
unfoldable pub deliver : Stdio → ℕ → List ℕ → Squeue → List Named → List ℕ → ℤ → Result
deliver env m_trans st s safs out (pos zero) = record {
  state = record s { safs = safs };
  rc = gme_no_data;
  reply = no_reply;
}
deliver env m_trans st s safs out (pos (suc id)) =
    if m_trans == 0
    then record {
      state = record s { safs = (commit_get_in env (saf_name st) (suc id) 0 safs).0 };
      rc = success;
      reply = bytes out;
    }
    else record {
      state = record { safs = safs; vtrans = remember m_trans (short_name st) s.vtrans };
      rc = success;
      reply = bytes out;
    }
deliver env m_trans st s safs out (negsuc n) = record {
  state = record s { safs = safs };
  rc = gme_saf_not_found;
  reply = no_reply;
}

unfoldable pub dequeue : Stdio → ℕ → ℕ → List ℕ → Squeue → Result
unfolding deliver
dequeue env m_trans max_outlen st s =
    let got = get_from (saf_name st) max_outlen m_trans s.safs in
    deliver env m_trans st s got.0 got.1.1 got.1.0

pub data Service : Type 0 where
  enqueue_svc dequeue_svc create_svc drop_svc info_svc list_svc clear_svc : Service
  clear_all_svc unresolved : Service

unfoldable pub service : List ℕ → Service
service f =
    if str_eq f (codes ".enqueue")
    then enqueue_svc
    else if str_eq f (codes ".dequeue")
    then dequeue_svc
    else if str_eq f (codes ".create-queue")
    then create_svc
    else if str_eq f (codes ".drop-queue")
    then drop_svc
    else if str_eq f (codes ".info-queue")
    then info_svc
    else if str_eq f (codes ".list-queue")
    then list_svc
    else if str_eq f (codes ".clear-queue")
    then clear_svc
    else if str_eq f (codes ".clear-all-queue")
    then clear_all_svc
    else unresolved

-- The services that change the files and answer with a code.
abbrev pub of_safs : Squeue → List Named × ℤ → Result
of_safs s (safs, code) = record { state = record s { safs = safs }; rc = code; reply = no_reply }

-- None stands for what Create does with a name that does not fit.
unfoldable pub serve :
    Service → Stdio → Option (List Slot) → ℕ → ℕ → List ℕ → Squeue → Option Result
unfolding dequeue
serve enqueue_svc env found m_trans max_outlen st s =
    some (of_safs s (add_to (saf_name st) (some (text st)) (text_len st) m_trans s.safs))
serve dequeue_svc env found m_trans max_outlen st s = some (dequeue env m_trans max_outlen st s)
serve create_svc env found m_trans max_outlen st s = elim (create env found (saf_name st) s.safs) [
  | none ↦ none
  | some r ↦ some (of_safs s r)
]
serve drop_svc env found m_trans max_outlen st s = some (of_safs s (drop_file (saf_name st) s.safs))
serve info_svc env found m_trans max_outlen st s = elim (info (saf_name st) s.safs) [
  | none ↦ some (record { state = s; rc = gme_saf_not_found; reply = no_reply })
  | some i ↦ some (record { state = s; rc = success; reply = info_reply i })
]
serve list_svc env found m_trans max_outlen st s =
    some (record { state = s; rc = success; reply = listing (list s.safs) })
serve clear_svc env found m_trans max_outlen st s =
    some (record { state = s; rc = success; reply = no_reply })
serve clear_all_svc env found m_trans max_outlen st s =
    some (record { state = s; rc = success; reply = no_reply })
serve unresolved env found m_trans max_outlen st s =
    some (record { state = s; rc = gme_svc_unresolved; reply = no_reply })

unfoldable pub main : Stdio → Option (List Slot) → ℕ → List ℕ → List ℕ → ℕ → Squeue → Option Result
unfolding service serve
main env found m_trans funcion st max_outlen s =
    serve (service funcion) env found m_trans max_outlen st s
