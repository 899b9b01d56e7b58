-- ===== src/BufferServer/Reading.antt =====
-- What is stored can be read back, in pieces; what is deleted cannot.
use gmonitor.Base.{
  ℕ, zero, suc, ◌+◌, ◌-◌, ◌*◌, ◌≤◌, ◌<◌, ◌≡◌, ◌≢◌, refl, ap, ◌∙◌, inl, inr, false, List, [], ◌∷◌,
  ◌++◌, none, some, arith, min, ◌==◌, ==_refl, length, take, drop, get_elem?-append, take-append,
  find_index-append, codes, str_eq, length-take,
}
use gmonitor.Buffer.{new_data}
use gmonitor.Ids.{is_used, rounds}
use gmonitor.Ids.Distinct.{Distinct}
use gmonitor.Ids.Fresh.{get_new_id_fresh, ne-zero}
use gmonitor.Ids.Room.{get_new_id-ne-zero}
use gmonitor.Service.{Client, gme_ok, gme_undefined, le_word}
use gmonitor.TimerServer.{StTimer}
use gmonitor.BufferServer.{
  StBuffer, Store, ids, by_id, find, Outcome, answer, Garbage, new_buffer, delete_id, get_buffer,
  process, request_id, request_len, request_data, request_offset, request_maxlen, size_sbuffer,
  timer_request, new_id, chunk, Chunk, chunk_of, bytes_from,
}
use gmonitor.BufferServer.Invariant.{IsValid, fresh_id, stored, success}

by_id-unused : (id : ℕ) (xs : List StBuffer) → is_used id (ids xs) ≡ false → by_id id xs ≡ none
unfolding is_used
by_id-unused id [] h = refl
by_id-unused id (x ∷ xs) h = ground (arith, by_id-unused id xs)

length-ids : (xs : List StBuffer) → length (ids xs) ≡ length xs
length-ids [] = refl
length-ids (x ∷ xs) = omega (arith, length-ids xs)

find-last :
    (xs : List StBuffer) (x : StBuffer)
    → is_used x.id_buffer (ids xs) ≡ false
    → find x.id_buffer (xs ++ x ∷ []) ≡ some (length xs, x)
unfolding find
find-last xs x fresh =
    rw
      (
        find_index-append (λ (y : StBuffer). y.id_buffer == x.id_buffer) xs x
            (by_id-unused x.id_buffer xs fresh) (==_refl x.id_buffer),
        find,
      )
      (rw (get_elem?-append (length xs) xs x [] refl) refl)

-- A read that ends before the NUL sees the bytes only.
take-drop-append :
    {A : Type 0} (m n : ℕ) (xs ys : List A)
    → m + n ≤ length xs
    → take m (drop n (xs ++ ys)) ≡ take m (drop n xs)
take-drop-append zero n xs ys h = refl
take-drop-append (suc m) n [] ys h = absurd (omega arith)
take-drop-append (suc m) zero (x ∷ xs) ys h =
    ap (◌∷◌ x) (take-drop-append m zero xs ys (omega arith))
take-drop-append (suc m) (suc n) (x ∷ xs) ys h = take-drop-append (suc m) n xs ys (omega arith)

-- The identifier that a .new_buffer gets is new while fewer than 8191 buffers are stored.
fresh_id_lem :
    (s : Store)
    → IsValid s
    → length s.buffers < rounds
    → (is_used (fresh_id s) (ids s.buffers) ≡ false) × ((fresh_id s == 0) ≡ false)
fresh_id_lem s v h = elim (get_new_id_fresh (ids s.buffers) s.last_id (inr v.bounded)) [
  | inl z ↦ absurd (
      get_new_id-ne-zero (ids s.buffers) s.last_id (inr v.bounded)
        (omega (arith, length-ids s.buffers)) z)
  | inr (fresh, lo, hi) ↦ (fresh, ne-zero (fresh_id s) lo)
]

-- The part of the bytes of a request that a .get_buffer asks for.
abbrev pub piece : List ℕ → List ℕ → List ℕ
piece raw wanted =
    take (min (request_len raw - request_offset wanted) (request_maxlen wanted))
      (drop (request_offset wanted) (take (request_len raw) (request_data raw)))

abbrev pub expected : List ℕ → List ℕ → Chunk
expected raw wanted = record {
  id = request_id wanted;
  offset = request_offset wanted;
  maxlen = request_maxlen wanted;
  len = min (request_len raw - request_offset wanted) (request_maxlen wanted);
  totlen = request_len raw;
  body = piece raw wanted;
}

nonzero : (n : ℕ) → n ≢ 0 → (n == 0) ≡ false
nonzero n h = ground arith

get_buffer-found :
    (wanted : List ℕ) (s : Store) (i : ℕ) (x : StBuffer)
    → find (request_id wanted) s.buffers ≡ some (i, x)
    → request_offset wanted < x.buffer.m_len
    → get_buffer wanted s ≡ record (answer s gme_ok) { reply = chunk (chunk_of wanted x.buffer) }
unfolding get_buffer
get_buffer-found wanted s i x e h = rw (e, get_buffer) (ground arith)

chunk_of-new_data :
    (raw wanted : List ℕ)
    → request_len raw ≢ 0
    → request_len raw ≤ length (request_data raw)
    → request_offset wanted < request_len raw
    → (chunk_of wanted (new_data (some (request_data raw)) (request_len raw)) ≡ expected raw wanted)
      × ((new_data (some (request_data raw)) (request_len raw)).m_len ≡ request_len raw)
unfolding chunk_of bytes_from new_data
chunk_of-new_data raw wanted nz enough inside = rw (nonzero (request_len raw) nz) (
  ap (λ (b : List ℕ). record (expected raw wanted) { body = b })
      (take-drop-append (min (request_len raw - request_offset wanted) (request_maxlen wanted))
        (request_offset wanted) (take (request_len raw) (request_data raw)) (0 ∷ [])
        (omega (arith, length-take (request_len raw) (request_data raw)))),
  refl,
)

get_buffer-stored :
    (call : StTimer → ℕ × ℕ) (g : Garbage) (trans : ℕ) (owner : Client) (raw wanted : List ℕ)
    (s : Store)
    → is_used (fresh_id s) (ids s.buffers) ≡ false
    → request_len raw ≢ 0
    → request_len raw ≤ length (request_data raw)
    → request_id wanted ≡ fresh_id s
    → request_offset wanted < request_len raw
    → (get_buffer wanted (success call g trans owner raw s).store).reply
      ≡ chunk (expected raw wanted)
get_buffer-stored call g trans owner raw wanted s fresh len_nz enough same inside =
    let x = stored call g trans owner raw s in
    let (whole, size) = chunk_of-new_data raw wanted len_nz enough inside in
    let found : find (request_id wanted) (s.buffers ++ x ∷ []) ≡ some (length s.buffers, x) =
      rw same (find-last s.buffers x fresh) in
    ap (λ (o : Outcome). o.reply)
      (get_buffer-found wanted (success call g trans owner raw s).store (length s.buffers) x found
        (rw size inside))
    ∙ ap chunk whole

by_id-zero : (xs : List StBuffer) → Distinct (ids xs) → by_id 0 xs ≡ none
by_id-zero [] d = refl
by_id-zero (x ∷ xs) d = ground (arith, by_id-zero xs d.3)

delete_id-zero : (s : Store) → IsValid s → delete_id 0 s ≡ answer s gme_undefined
unfolding delete_id find
delete_id-zero s v = rw (by_id-zero s.buffers v.distinct, delete_id, find) refl

le_word-take : (n m : ℕ) (bs : List ℕ) → n ≤ m → le_word n (take m bs) ≡ le_word n bs
unfolding le_word
le_word-take zero m bs h = refl
le_word-take (suc n) zero bs h = absurd (omega arith)
le_word-take (suc n) (suc m) [] h = refl
le_word-take (suc n) (suc m) (b ∷ bs) h =
    ap (λ (w : ℕ). b + 256 * w) (le_word-take n m bs (omega arith))

module _ (call : StTimer → ℕ × ℕ) (g : Garbage) (trans : ℕ) (owner : Client) where
  process-new_buffer :
      (raw : List ℕ) (inlen : ℕ) (s : Store)
      → size_sbuffer ≤ inlen
      → process call g trans owner (codes ".new_buffer") raw inlen s
        ≡ new_buffer call g trans owner raw s
  unfolding process str_eq
  process-new_buffer raw inlen s h = ground arith

  process-get_buffer :
      (raw : List ℕ) (inlen : ℕ) (s : Store)
      → size_sbuffer ≤ inlen
      → process call g trans owner (codes ".get_buffer") raw inlen s ≡ get_buffer raw s
  unfolding process str_eq
  process-get_buffer raw inlen s h = ground arith

  pub process-del_buffer :
      (raw : List ℕ) (inlen : ℕ) (s : Store)
      → size_sbuffer ≤ inlen
      → process call g trans owner (codes ".del_buffer") raw inlen s ≡ delete_id (request_id raw) s
  unfolding process str_eq
  process-del_buffer raw inlen s h = ground arith

  new_buffer-success :
      (raw : List ℕ) (s : Store)
      → request_len raw ≢ 0
      → (fresh_id s == 0) ≡ false
      → (call (timer_request g raw)).0 ≡ gme_ok
      → new_buffer call g trans owner raw s ≡ success call g trans owner raw s
  unfolding new_buffer
  new_buffer-success raw s nz fresh timed =
      rw (nonzero (request_len raw) nz) (rw fresh (rw (timed) refl))

  -- Bytes that .new_buffer accepts can be read back. If the timer server accepts the timer, the
  -- length is not 0 and the message holds that many bytes, and fewer than 8191 buffers are stored,
  -- then .new_buffer answers with a new identifier, and a .get_buffer for it with an offset inside
  -- the bytes answers with the piece from that offset, at most `maxlen` bytes, and the total length.
  pub get_buffer-new_buffer :
      (raw wanted : List ℕ) (inlen wanted_len : ℕ) (s : Store)
      → IsValid s
      → length s.buffers < rounds
      → (call (timer_request g raw)).0 ≡ gme_ok
      → request_len raw ≢ 0
      → request_len raw ≤ length (request_data raw)
      → size_sbuffer ≤ inlen
      → size_sbuffer ≤ wanted_len
      → request_id wanted ≡ fresh_id s
      → request_offset wanted < request_len raw
      → let made = process call g trans owner (codes ".new_buffer") raw inlen s in
        (made.code ≡ gme_ok)
        × (made.reply ≡ new_id (fresh_id s))
        × (is_used (fresh_id s) (ids s.buffers) ≡ false)
        × ((process call g trans owner (codes ".get_buffer") wanted wanted_len made.store).reply
            ≡ chunk (expected raw wanted))
  get_buffer-new_buffer raw wanted inlen wanted_len s v room timed nz enough long wide same inside =
      let (fresh, id_nz) = fresh_id_lem s v room in
      rw
        (
          process-new_buffer raw inlen s long,
          new_buffer-success raw s nz id_nz timed,
          process-get_buffer wanted wanted_len (success call g trans owner raw s).store wide,
        )
        (
          refl,
          refl,
          fresh,
          get_buffer-stored call g trans owner raw wanted s fresh nz enough same inside,
        )

  -- The timer of a buffer never deletes it, if the request came with the identifier 0, as the
  -- router sends it: what the timer notifies is the request itself, and .del_buffer refuses that
  -- identifier and keeps every buffer.
  pub timer_misses :
      (raw : List ℕ) (s : Store)
      → IsValid s
      → request_id raw ≡ 0
      → size_sbuffer ≤ length raw
      → let sent = timer_request g raw in
        (sent.servicio ≡ codes ".del_buffer")
        × (process call g trans owner sent.servicio (take sent.len sent.body) sent.len s
            ≡ answer s gme_undefined)
  unfolding timer_request
  timer_misses raw s v zero_id long =
      let kept : take size_sbuffer (take size_sbuffer raw ++ g.behind) ≡ take size_sbuffer raw =
        take-append size_sbuffer (take size_sbuffer raw) g.behind
          (omega (arith, length-take size_sbuffer raw)) in
      let asked : request_id (take size_sbuffer raw) ≡ 0 =
        le_word-take 4 size_sbuffer raw (omega arith) ∙ zero_id in
      (
        refl,
        rw kept (
            process-del_buffer (take size_sbuffer raw) size_sbuffer s (omega arith)
            ∙ rw asked (delete_id-zero s v)),
      )
