-- ===== src/Tests/Buffering.antt =====
-- Runs of the buffer and of the buffer server.
use gmonitor.Base.{ℕ, ◌≡◌, refl, false, List, [], ◌∷◌, ◌++◌, some, arith, take, replicate, codes}
use gmonitor.Buffer.{GmBuffer}
use gmonitor.Ids.{is_used, rounds, get_new_id}
use gmonitor.Service.{Client, gme_ok, gme_undefined, le_word}
use gmonitor.TimerServer.{StTimer}
use gmonitor.BufferServer.{Store, Garbage, process, timer_request, answer, new_id, chunk}
use gmonitor.BufferServer.Invariant.{IsValid, process-IsValid}
use gmonitor.BufferServer.Reading.{get_buffer-new_buffer, timer_misses}

abbrev hello : GmBuffer
hello = record { m_len = 2; m_buffer = some (104 ∷ 105 ∷ 0 ∷ []) }

abbrev bob : Client
bob = record { user = codes "bob"; client = []; key = []; group = [] }

-- A little-endian word of eight bytes, below 256.
abbrev word8 : ℕ → List ℕ
word8 n = n ∷ replicate 7 0

-- Identifier 0, length 5, "abcde".
abbrev new_request : List ℕ
new_request = word8 0 ++ (word8 5 ++ (codes "abcde" ++ replicate 27 0))

-- Identifier 1, offset 1, at most 3 bytes.
abbrev get_request : List ℕ
get_request = word8 1 ++ (word8 1 ++ (word8 3 ++ replicate 24 0))

abbrev garbage : Garbage
garbage = record { id = 0; end_at = 0; behind = [] }

abbrev accepts : StTimer → ℕ × ℕ
accepts request = (0, 7)

abbrev no_buffers : Store
no_buffers = record { last_id = 0; buffers = [] }

no_buffers-IsValid : IsValid no_buffers
no_buffers-IsValid = record { distinct = tt; bounded = omega arith }

abbrev run_new : ℕ
run_new = (process accepts garbage 0 bob (codes ".new_buffer") new_request 48 no_buffers).code

get_buffer-new_buffer_example :
    let made = process accepts garbage 0 bob (codes ".new_buffer") new_request 48 no_buffers in
    (made.code ≡ gme_ok)
    × (made.reply ≡ new_id 1)
    × (is_used 1 [] ≡ false)
    × ((process accepts garbage 0 bob (codes ".get_buffer") get_request 48 made.store).reply
        ≡ chunk
            (record { id = 1; offset = 1; maxlen = 3; len = 3; totlen = 5; body = codes "bcd" }))
unfolding get_new_id le_word rounds
get_buffer-new_buffer_example =
    get_buffer-new_buffer accepts garbage 0 bob new_request get_request 48 48 no_buffers
      no_buffers-IsValid (omega arith) refl (omega arith) (omega arith) (omega arith) (omega arith)
      refl (omega arith)

timer_misses_example :
    let sent = timer_request garbage new_request in
    (sent.servicio ≡ codes ".del_buffer")
    × (process accepts garbage 0 bob sent.servicio (take sent.len sent.body) sent.len no_buffers
        ≡ answer no_buffers gme_undefined)
unfolding le_word
timer_misses_example =
    timer_misses accepts garbage 0 bob new_request no_buffers no_buffers-IsValid refl (omega arith)

process-IsValid_example :
    IsValid (process accepts garbage 0 bob (codes ".new_buffer") new_request 48 no_buffers).store
process-IsValid_example =
    process-IsValid accepts garbage 0 bob (codes ".new_buffer") new_request 48 no_buffers
      no_buffers-IsValid

abbrev stored_hello : Store
stored_hello = record {
  last_id = 1;
  buffers = record { id_buffer = 1; id_trans = 0; id_timer = 7; owner = bob; buffer = hello } ∷ [];
}

stored_hello-IsValid : IsValid stored_hello
unfolding is_used
stored_hello-IsValid = record {
  distinct = (refl, omega arith, omega arith, tt);
  bounded = omega arith;
}

-- Identifier 1, length 1, "!".
abbrev add_request : List ℕ
add_request = word8 1 ++ (word8 1 ++ (codes "!" ++ replicate 31 0))
