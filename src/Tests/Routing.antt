-- ===== src/Tests/Routing.antt =====
-- Runs of the tables and of the choice of a queue.
use gmonitor.Base.{
  ◌≡◌, ◌↔◌, refl, true, false, List, [], ◌∷◌, none, some, arith, codes, replicate, if◌then◌else◌,
  ◌==◌, find_index, str_eq, ℤ, pos, negsuc, success, failure,
}
use gmonitor.Tables.{
  Server, Funcion, FcnTab, fcn_tab, add_srv, add_fcn, remove_fcn, cola, queues_of, open_queues,
  is_server, serves,
}
use gmonitor.Tables.Counting.{IsValid}
use gmonitor.Tables.Subscriptions.{IsNamed, Subscribed, add_fcn_lem}
use gmonitor.Tables.Removal.{Unsubscribed, remove_fcn_lem}
use gmonitor.Tables.Queues.{In, is_known, add_srv-cola, add_srv_overflow}
use gmonitor.Router.{queue_at, is_negative, is_better, first, select_queue}
use gmonitor.Router.Selection.{select_queue_least, select_queue_dead}

-- The function ".echo" of the server "srv", as a query.
abbrev echo : FcnTab
echo = fcn_tab (codes ".echo") 67 (codes "srv")

abbrev functions : List Funcion
functions =
    record {
      nombre = codes ".echo";
      descripcion = [];
      tipo_mensaje = 67;
      server = codes "srv";
      suscripciones = pos 1;
    }
    ∷ []

functions-IsValid : IsValid functions
functions-IsValid = record { distinct = (tt, tt); subscribed = (refl, tt) }

echo-IsNamed : IsNamed echo
echo-IsNamed = record { named = refl; short = omega arith; server_short = omega arith }

add_fcn_lem_example : Subscribed echo echo functions (add_fcn echo functions)
add_fcn_lem_example = add_fcn_lem echo echo functions functions-IsValid echo-IsNamed

remove_fcn_lem_example : Unsubscribed echo echo functions (remove_fcn echo functions)
remove_fcn_lem_example = remove_fcn_lem echo echo functions functions-IsValid

-- The server "srv" with the queues in its first places.
abbrev srv : List ℤ → Server
srv queues = record {
  nombre = codes "srv";
  descripcion = [];
  modo = 0;
  path = [];
  cola = queues;
  qid = [];
  pid = [];
}

abbrev no_queues : List ℤ
no_queues = replicate 255 (pos 0)

found_srv : find_index (is_server (codes "srv")) (srv no_queues ∷ []) ≡ some 0
unfolding str_eq
found_srv = refl

serves_echo :
    serves (codes ".echo") 67 (record {
      nombre = codes ".echo";
      descripcion = [];
      tipo_mensaje = 67;
      server = codes "srv";
      suscripciones = pos 1;
    })
    ≡ true
unfolding str_eq
serves_echo = refl

add_srv-cola_example :
    (after : List Server) × (add_srv
        (codes "srv")
        (pos 9)
        (pos 77)
        (pos 5)
        (pos 3)
        (srv no_queues ∷ [])
      ≡ some (after, success))
    × In (pos 77) (cola (codes ".echo") 67 functions after)
add_srv-cola_example =
    add_srv-cola (codes "srv") (pos 9) (pos 77) (pos 5) 3 0 0 (codes ".echo") 67 functions
      (srv no_queues ∷ [])
      (record {
        nombre = codes ".echo";
        descripcion = [];
        tipo_mensaje = 67;
        server = codes "srv";
        suscripciones = pos 1;
      })
      (refl, tt) (omega arith) refl found_srv refl serves_echo refl

add_srv_overflow_example :
    (add_srv (codes "srv") (pos 9) (pos 77) (pos 5) (pos 255) (srv no_queues ∷ []) ≡ none)
    ↔ ((pos 255 ≡ pos 255) × (is_known (codes "srv") (srv no_queues ∷ []) ≡ true))
add_srv_overflow_example =
    add_srv_overflow (codes "srv") (pos 9) (pos 77) (pos 5) (pos 255) (srv no_queues ∷ [])

-- Queue 10 has 4 messages, queue 20 has 1.
abbrev counts : ℤ → ℤ
counts (pos n) = if n == 10 then pos 4 else pos 1
counts (negsuc n) = failure

-- Queue 20 cannot be read.
abbrev counts_dead : ℤ → ℤ
counts_dead (pos n) = if n == 20 then failure else pos 1
counts_dead (negsuc n) = failure

abbrev servers : List Server
servers = srv (pos 10 ∷ pos 20 ∷ []) ∷ []

two_queues : cola (codes ".echo") 67 functions servers ≡ pos 10 ∷ pos 20 ∷ []
unfolding cola queues_of open_queues str_eq
two_queues = refl

abbrev colas : List ℤ
colas = cola (codes ".echo") 67 functions servers

readable : is_negative (counts (queue_at colas (first 7 colas))) ≡ false
unfolding cola queues_of open_queues str_eq queue_at
readable = refl

select_queue_least_example :
    let selected = select_queue counts 7 (codes ".echo") 67 functions servers in
    (is_negative (counts selected) ≡ false)
    × (is_better (counts (queue_at colas 0)) (counts selected) ≡ false)
select_queue_least_example =
    select_queue_least counts 7 (codes ".echo") 67 functions servers 0 (rw two_queues (omega arith))
      readable

dead : counts_dead (queue_at colas (first 7 colas)) ≡ failure
unfolding cola queues_of open_queues str_eq queue_at
dead = refl

select_queue_dead_example :
    select_queue counts_dead 7 (codes ".echo") 67 functions servers ≡ queue_at colas (first 7 colas)
select_queue_dead_example =
    select_queue_dead counts_dead 7 (codes ".echo") 67 functions servers
      (rw two_queues (omega arith)) dead
