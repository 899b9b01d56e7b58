-- ===== src/BufferServer/Invariant.antt =====
-- The identifiers of the stored buffers, through every message.
use mathlib.Core.List.{map-append}
use gmonitor.Base.{
  ℕ, zero, suc, ◌≤◌, ◌≡◌, refl, ap, inl, inr, true, false, List, [], ◌∷◌, ◌++◌, some, arith,
  Bool-cases, Option-cases, ◌==◌, set, erase_at, get_elem?, find_index-some,
}
use gmonitor.Buffer.{add, new_data}
use gmonitor.Ids.{max_id, get_new_id}
use gmonitor.Ids.Distinct.{Distinct, Distinct-append, Distinct-erase}
use gmonitor.Ids.Fresh.{get_new_id_fresh, get_new_id-le-max}
use gmonitor.Service.{Client, gme_ok, gme_undefined}
use gmonitor.TimerServer.{StTimer}
use gmonitor.BufferServer.{
  StBuffer, Store, init, ids, by_id, find, Outcome, answer, Garbage, new_buffer, add_buffer,
  delete_id, get_buffer, process, request_id, request_len, request_data, timer_request, new_id,
  call_set_timer,
}

pub record IsValid (s : Store) : Type 0 where
  pub distinct : Distinct (ids s.buffers)
  pub bounded : s.last_id ≤ max_id

pub init-IsValid : IsValid init
unfolding init
init-IsValid = record { distinct = tt; bounded = omega arith }

ids-erase : (i : ℕ) (xs : List StBuffer) → ids (erase_at xs i) ≡ erase_at (ids xs) i
ids-erase i [] = refl
ids-erase zero (x ∷ xs) = refl
ids-erase (suc i) (x ∷ xs) = ap (◌∷◌ x.id_buffer) (ids-erase i xs)

-- A new entry under an identifier in place leaves the identifiers alone.
ids-set :
    (i : ℕ) (xs : List StBuffer) (x y : StBuffer)
    → get_elem? xs i ≡ some x
    → y.id_buffer ≡ x.id_buffer
    → ids (set xs i y) ≡ ids xs
ids-set i [] x y e h = cc
ids-set zero (z ∷ xs) x y e h = ground arith
ids-set (suc i) (z ∷ xs) x y e h = ap (◌∷◌ z.id_buffer) (ids-set i xs x y e h)

-- What `find` finds stands at its place under its identifier.
pub find_lem :
    (id i : ℕ) (xs : List StBuffer) (x : StBuffer)
    → find id xs ≡ some (i, x)
    → (get_elem? xs i ≡ some x) × (x.id_buffer ≡ id) × (by_id id xs ≡ some i)
unfolding find
find_lem id i xs x e = elim (Option-cases (by_id id xs)) [
  | inl f ↦ absurd (ground arith)
  | inr (j, f) ↦
      let (y, at, hit, below) = find_index-some (λ (z : StBuffer). z.id_buffer == id) xs j f in
      ground arith
]

-- The ways in which .new_buffer is answered; the last is a success.
abbrev pub fresh_id : Store → ℕ
fresh_id s = get_new_id (ids s.buffers) s.last_id

abbrev pub stored : (StTimer → ℕ × ℕ) → Garbage → ℕ → Client → List ℕ → Store → StBuffer
stored call g trans owner raw s = record {
  id_buffer = fresh_id s;
  id_trans = trans;
  id_timer = (call (timer_request g raw)).1;
  owner = owner;
  buffer = new_data (some (request_data raw)) (request_len raw);
}

abbrev pub success : (StTimer → ℕ × ℕ) → Garbage → ℕ → Client → List ℕ → Store → Outcome
success call g trans owner raw s = record {
  store = record {
    last_id = fresh_id s;
    buffers = s.buffers ++ stored call g trans owner raw s ∷ [];
  };
  code = gme_ok;
  reply = new_id (fresh_id s);
  outgoing = call_set_timer (timer_request g raw) ∷ [];
}

pub new_buffer_cases {ℓ} :
    (P : Outcome → Type ℓ) (call : StTimer → ℕ × ℕ) (g : Garbage) (trans : ℕ) (owner : Client)
    (raw : List ℕ) (s : Store)
    → P (answer s gme_undefined)
    → P (answer (record s { last_id = fresh_id s }) gme_undefined)
    → P (record (answer (record s { last_id = fresh_id s }) gme_undefined) {
      outgoing = call_set_timer (timer_request g raw) ∷ [];
    })
    → ((fresh_id s == 0) ≡ false
        → (request_len raw == 0) ≡ false
        → ((call (timer_request g raw)).0 == 0) ≡ true
        → P (success call g trans owner raw s))
    → P (new_buffer call g trans owner raw s)
unfolding new_buffer
new_buffer_cases P call g trans owner raw s none_sent no_id no_timer done =
    elim (Bool-cases (request_len raw == 0)) [
      | inl e ↦ rw e none_sent
      | inr e ↦ rw e (elim (Bool-cases (fresh_id s == 0)) [
        | inl f ↦ rw f no_id
        | inr f ↦ rw f (elim (Bool-cases ((call (timer_request g raw)).0 == 0)) [
          | inl h ↦ rw h (done f e h)
          | inr h ↦ rw h no_timer
        ])
      ])
    ]

append-IsValid :
    (s : Store) (x : StBuffer)
    → x.id_buffer ≡ fresh_id s
    → (fresh_id s == 0) ≡ false
    → IsValid s
    → IsValid (record { last_id = fresh_id s; buffers = s.buffers ++ x ∷ [] })
append-IsValid s x e nz v = elim (get_new_id_fresh (ids s.buffers) s.last_id (inr v.bounded)) [
  | inl z ↦ absurd (ground arith)
  | inr (fresh, lo, hi) ↦ record {
    distinct =
        rw (map-append (λ (y : StBuffer). y.id_buffer) s.buffers (x ∷ []), e)
          (Distinct-append (fresh_id s) (ids s.buffers) fresh lo hi v.distinct);
    bounded = hi;
  }
]

new_buffer-IsValid :
    (call : StTimer → ℕ × ℕ) (g : Garbage) (trans : ℕ) (owner : Client) (raw : List ℕ) (s : Store)
    → IsValid s
    → IsValid (new_buffer call g trans owner raw s).store
new_buffer-IsValid call g trans owner raw s v =
    let low = get_new_id-le-max (ids s.buffers) s.last_id v.bounded in
    let kept : IsValid (record s { last_id = fresh_id s }) = record {
      distinct = v.distinct;
      bounded = low;
    } in
    new_buffer_cases (λ o. IsValid o.store) call g trans owner raw s v kept kept
      (λ nz _ _. append-IsValid s (stored call g trans owner raw s) refl nz v)

add_buffer-IsValid : (raw : List ℕ) (s : Store) → IsValid s → IsValid (add_buffer raw s).store
unfolding add_buffer
add_buffer-IsValid raw s v = elim (Bool-cases (request_len raw == 0)) [
  | inl e ↦ rw e v
  | inr e ↦ rw e (elim (Option-cases (find (request_id raw) s.buffers)) [
    | inl f ↦ rw f v
    | inr ((i, x), f) ↦ rw f (record {
      distinct =
          rw
            (ids-set i s.buffers x
              (record x { buffer = add x.buffer (some (request_data raw)) (request_len raw) })
              (find_lem (request_id raw) i s.buffers x f).0 refl)
            v.distinct;
      bounded = v.bounded;
    })
  ])
]

delete_id-IsValid : (id : ℕ) (s : Store) → IsValid s → IsValid (delete_id id s).store
unfolding delete_id
delete_id-IsValid id s v = elim (Option-cases (find id s.buffers)) [
  | inl f ↦ rw (f, delete_id) v
  | inr ((i, x), f) ↦
      rw (f, delete_id)
        (record {
          distinct = rw (ids-erase i s.buffers) (Distinct-erase i (ids s.buffers) v.distinct);
          bounded = low (erase_at s.buffers i);
        })
]
  where
    low : (left : List StBuffer) → elim left [ [] ↦ 0 | _ ∷ _ ↦ s.last_id ] ≤ max_id
    low [] = omega arith
    low (y ∷ ys) = v.bounded

get_buffer_store : (raw : List ℕ) (s : Store) → (get_buffer raw s).store ≡ s
unfolding get_buffer
get_buffer_store raw s = elim (Option-cases (find (request_id raw) s.buffers)) [
  | inl f ↦ rw (f, get_buffer) refl
  | inr ((i, x), f) ↦ rw (f, get_buffer) (ground arith)
]

-- Whatever message arrives, and whatever the timer server answers, the identifiers of the stored
-- buffers stay distinct and in range.
pub process-IsValid :
    (call : StTimer → ℕ × ℕ) (g : Garbage) (trans : ℕ) (owner : Client) (funcion raw : List ℕ)
    (inlen : ℕ) (s : Store)
    → IsValid s
    → IsValid (process call g trans owner funcion raw inlen s).store
unfolding process
process-IsValid call g trans owner funcion raw inlen s v = ground (
  arith,
  new_buffer-IsValid call g trans owner raw s v,
  add_buffer-IsValid raw s v,
  delete_id-IsValid (request_id raw) s v,
  get_buffer_store raw s,
)
