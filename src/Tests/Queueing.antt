-- ===== src/Tests/Queueing.antt =====
-- Runs of the store-and-forward server.
use gmonitor.Base.{
  ℕ, ◌≡◌, refl, true, List, [], ◌∷◌, ◌++◌, none, some, arith, codes, take, replicate, str_eq, c_str,
}
use gmonitor.SafFile.{Saf, Stdio, add, gen_id}
use gmonitor.SafFile.Queue.{queue}
use gmonitor.SafFile.Settling.{emptied, emptied-IsValid}
use gmonitor.SafStore.Names.{file_of}
use gmonitor.SafServer.{Squeue, no_reply, serve, enqueue_svc, saf_name, text, text_len}
use gmonitor.SafServer.Delivery.{Served, enqueue_lem}

abbrev env : Stdio
env = record { creates = true; junk = 0 }

-- The file "q" without messages.
abbrev empty_queue : Squeue
empty_queue = record { safs = record { name = codes "q"; file = emptied env } ∷ []; vtrans = [] }

-- The name "q" and the text "hi".
abbrev request : List ℕ
request = codes "q" ++ (replicate 31 0 ++ (2 ∷ (replicate 7 0 ++ codes "hi")))

there : file_of (saf_name request) empty_queue.safs ≡ some (emptied env)
unfolding file_of saf_name c_str str_eq
there = refl

length_2 : text_len request ≡ 2
unfolding text_len
length_2 = refl

enqueue_lem_example :
    Served env
      (saf_name request)
      (codes "other")
      (queue (emptied env)
        ++ (gen_id (emptied env).last_id, take (text_len request) (text request)) ∷ [])
      empty_queue
      no_reply
      (serve enqueue_svc env none 5 100 request empty_queue)
enqueue_lem_example =
    enqueue_lem env none 5 100 request (codes "other") empty_queue (emptied env) there
      (emptied-IsValid env) (rw length_2 refl) (rw length_2 (omega arith))

abbrev hello : List ℕ
hello = codes "hi"

-- The file "q" with the message "hi".
abbrev stored : Saf
stored = (add (some hello) 2 0 (emptied env)).0

abbrev one_message : Squeue
one_message = record { safs = record { name = codes "q"; file = stored } ∷ []; vtrans = [] }
