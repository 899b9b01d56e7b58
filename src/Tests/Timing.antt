-- ===== src/Tests/Timing.antt =====
-- Runs of the timer table and of the timer server.
use gmonitor.Base.{ℕ, ◌+◌, ◌≡◌, ◌≢◌, refl, inr, false, [], ◌∷◌, none, some, arith, All, codes}
use gmonitor.Ids.{is_used, get_new_id, rounds}
use gmonitor.Service.{Client}
use gmonitor.Timers.{Timer, Table, set_timer, get, expired}
use gmonitor.Timers.Invariant.{IsValid}
use gmonitor.Timers.Insertion.{get-set_timer}
use gmonitor.Timers.Pending.{pending}
use gmonitor.TimerServer.{StTimer, message, Round, time_out_loop}
use gmonitor.TimerServer.TimeOut.{time_out_loop_ends}
use gmonitor.TimerServer.Messages.{message-IsValid}

abbrev ana : Client
ana = record { user = codes "ana"; client = codes "pc1"; key = []; group = codes "g" }

-- A periodic timer that is late at time 100, and one that is still to come.
abbrev periodic : Timer
periodic = record {
  id = 1;
  start_t = 60;
  end_t = 70;
  restart = 10;
  trans = 5;
  owner = ana;
  servicio = codes ".poll";
  tipo = b'N';
  buffer = none;
}

abbrev once : Timer
once = record periodic { id = 2; end_t = 130; restart = 0 }

abbrev two_timers : Table
two_timers = record { last_id = 2; timers = periodic ∷ once ∷ [] }

two_timers-IsValid : IsValid two_timers
unfolding is_used
two_timers-IsValid = record {
  distinct = (refl, omega arith, omega arith, (refl, omega arith, omega arith, tt));
  ready = inr (omega arith);
}

-- The periodic timer is served at 70, 80, 90 and 100.
abbrev late_round : Round
late_round = record { table = two_timers; reads = 0; sent = [] }

time_out_loop_ends_example :
    (q : Round) × (time_out_loop 32 (λ n. 100) late_round ≡ some q)
    × IsValid q.table
    × (m : ℕ) × (q.reads ≡ m + 1)
    × All (λ x. expired 100 x ≡ false) q.table.timers
unfolding pending
time_out_loop_ends_example =
    time_out_loop_ends 32 (λ n. 100) 100 late_round (λ n. omega arith) two_timers-IsValid
      (omega arith)

-- The third identifier.
abbrev third : Table × ℕ
third = set_timer 100 30 (codes ".ping") b'M' 5 ana (some (1 ∷ 2 ∷ 3 ∷ [])) 2 false two_timers

get-set_timer_example :
    (third.1 ≢ 0)
    × (is_used third.1 (1 ∷ 2 ∷ []) ≡ false)
    × (get third.1 third.0
        ≡ some (record {
          servicio = codes ".ping";
          tipo = b'M';
          msg = some (1 ∷ 2 ∷ 0 ∷ []);
          msg_len = 2;
        }))
    × (get 1 third.0 ≡ get 1 two_timers)
unfolding set_timer rounds get_new_id is_used
get-set_timer_example =
    get-set_timer 100 30 (codes ".ping") b'M' 5 ana (1 ∷ 2 ∷ 3 ∷ []) 2 false two_timers 1
      two_timers-IsValid (omega arith) (λ e. omega arith)

abbrev kill_one : StTimer
kill_one = record {
  id = 1;
  servicio = [];
  modo_servicio = 0;
  delay = 0;
  tipo_timer = 0;
  end_at = 0;
  len = 0;
  body = [];
}

message-IsValid_example :
    IsValid (message 100 (codes ".kill_timer") kill_one 4 0 ana two_timers).table
message-IsValid_example =
    message-IsValid 100 (codes ".kill_timer") kill_one 4 0 ana two_timers two_timers-IsValid
