-- ===== src/SafServer/Delivery.antt =====
-- Messages through the services of the store-and-forward server.
use gmonitor.Base.{
  ℕ, ◌≤◌, ◌≡◌, refl, ◌∙◌, false, List, [], ◌∷◌, ◌++◌, Option, some, str_eq, pos, success, length,
  take, ◌==◌,
}
use gmonitor.SafFile.{Saf, Stdio, Slot, add, gen_id}
use gmonitor.SafFile.Invariant.{Ready}
use gmonitor.SafFile.Queue.{queue, queue-add}
use gmonitor.SafStore.{add_to}
use gmonitor.SafStore.Names.{file_of, with_file_same, with_file_other}
use gmonitor.SafServer.{
  Squeue, Result, Reply, no_reply, saf_name, serve, enqueue_svc, text, text_len,
}

-- What a service did with the file `n`: it is in agreement with its index, `waits` is its queue, and
-- the file `k` of another name is as it was.
pub record Served (env : Stdio) (n k : List ℕ) (waits : List (ℕ × List ℕ)) (s : Squeue)
    (reply : Reply) (o : Option Result) : Type 0 where
  pub r : Result
  pub returns : o ≡ some r
  pub code : r.rc ≡ success
  pub answers : r.reply ≡ reply
  pub after : Saf
  pub found : file_of n r.state.safs ≡ some after
  pub ready : Ready env after
  pub waiting : queue after ≡ waits
  pub other : str_eq n k ≡ false → file_of k r.state.safs ≡ file_of k s.safs
  pub same_trans : r.state.vtrans ≡ s.vtrans

module _ (env : Stdio) (found : Option (List Slot)) (m_trans max_outlen : ℕ) (st k : List ℕ)
    (s : Squeue) (f : Saf) (there : file_of (saf_name st) s.safs ≡ some f)
    (ready : Ready env f) where
  -- A message that is stored under the name of a file goes behind the queue of that file, whole, and
  -- the files of other names stay. The file is in agreement with its index, and the text of the
  -- request has as many bytes as it says, not none.
  pub enqueue_lem :
      (text_len st == 0) ≡ false
      → text_len st ≤ length (text st)
      → Served env
          (saf_name st)
          k
          (queue f ++ (gen_id f.last_id, take (text_len st) (text st)) ∷ [])
          s
          no_reply
          (serve enqueue_svc env found m_trans max_outlen st s)
  unfolding serve add_to
  enqueue_lem nz fits =
      let added = queue-add (text st) (text_len st) m_trans f env ready fits nz in
      let (file, rc) =
        with_file_same (add (some (text st)) (text_len st) m_trans) (pos 23) (saf_name st) s.safs f
          there in
      record {
        r = _;
        returns = refl;
        code = rc ∙ added.succeeds;
        answers = refl;
        after = (add (some (text st)) (text_len st) m_trans f).0;
        found = file;
        ready = added.ready;
        waiting = added.behind;
        other = λ d.
            with_file_other (add (some (text st)) (text_len st) m_trans) (pos 23) (saf_name st) k
              s.safs d;
        same_trans = refl;
      }
