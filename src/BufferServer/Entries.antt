-- ===== src/BufferServer/Entries.antt =====
-- The store as a map from identifiers to bytes.
use gmonitor.Base.{
  ℕ, zero, suc, ◌≤◌, ◌≡◌, ◌≢◌, refl, ap, ◌∙◌, inl, inr, true, false, List, [], ◌∷◌, ◌++◌, Option,
  none, some, arith, Bool-cases, Option-cases, ◌==◌, ==_iff, ◌⊎◌, find_index-some, if◌then◌else◌,
  length, take, set, erase_at, get_elem?,
}
use gmonitor.Buffer.{GmBuffer, add}
use gmonitor.Buffer.Contents.{bytes, add-bytes}
use gmonitor.Buffer.Contents
use gmonitor.Ids.{is_used}
use gmonitor.Ids.Distinct.{Distinct}
use gmonitor.Service.{gme_ok}
use gmonitor.BufferServer.{
  StBuffer, Store, ids, by_id, find, add_buffer, delete_id, request_id, request_len, request_data,
}
use gmonitor.BufferServer.Invariant.{IsValid, find_lem}

-- The buffer under an identifier.
unfoldable pub entry : ℕ → List StBuffer → Option GmBuffer
entry id [] = none
entry id (x ∷ xs) = if x.id_buffer == id then some x.buffer else entry id xs

entry-unused : (id : ℕ) (xs : List StBuffer) → is_used id (ids xs) ≡ false → entry id xs ≡ none
unfolding entry is_used
entry-unused id [] h = refl
entry-unused id (x ∷ xs) h = ground (arith, entry-unused id xs)

nonzero : (n : ℕ) → n ≢ 0 → (n == 0) ≡ false
nonzero n h = ground arith

entry-none : (id : ℕ) (xs : List StBuffer) → by_id id xs ≡ none → entry id xs ≡ none
unfolding entry
entry-none id [] h = refl
entry-none id (x ∷ xs) h = ground (arith, entry-none id xs)

entry-hit :
    (id i : ℕ) (xs : List StBuffer) (x : StBuffer)
    → by_id id xs ≡ some i
    → get_elem? xs i ≡ some x
    → entry id xs ≡ some x.buffer
unfolding entry
entry-hit id i [] x e at = cc
entry-hit id zero (y ∷ xs) x e at = ground arith
entry-hit id (suc i) (y ∷ xs) x e at = ground (arith, entry-hit id i xs x)

-- The scan and the map agree.
find-entry :
    (id : ℕ) (xs : List StBuffer)
    → ((find id xs ≡ none) × (entry id xs ≡ none))
      ⊎ ((i : ℕ) × (x : StBuffer) × (find id xs ≡ some (i, x)) × (entry id xs ≡ some x.buffer))
unfolding find
find-entry id xs = elim (Option-cases (by_id id xs)) [
  | inl e ↦ inl (rw (e, find) refl, entry-none id xs e)
  | inr (i, e) ↦
      let (x, at, hit, below) = find_index-some (λ (y : StBuffer). y.id_buffer == id) xs i e in
      inr (i, x, rw (e, find) (rw at refl), entry-hit id i xs x e at)
]

is_used-get :
    (xs : List StBuffer) (i : ℕ) (x : StBuffer)
    → get_elem? xs i ≡ some x
    → is_used x.id_buffer (ids xs) ≡ true
unfolding is_used
is_used-get [] i x e = cc
is_used-get (y ∷ xs) zero x e = ground arith
is_used-get (y ∷ xs) (suc i) x e = ground (arith, is_used-get xs i x)

entry-erase :
    (j id i : ℕ) (xs : List StBuffer)
    → Distinct (ids xs)
    → by_id id xs ≡ some i
    → entry j (erase_at xs i) ≡ (if j == id then none else entry j xs)
unfolding entry
entry-erase j id i [] d e = cc
entry-erase j id zero (x ∷ xs) d e = ground (arith, entry-unused x.id_buffer xs d.0)
entry-erase j id (suc i) (x ∷ xs) d e = ground (arith, entry-erase j id i xs d.3)

-- .del_buffer takes the buffer of its identifier away, and no other; on a missing identifier that
-- is no change.
pub entry-delete_id :
    (j id : ℕ) (s : Store)
    → IsValid s
    → entry j (delete_id id s).store.buffers ≡ (if j == id then none else entry j s.buffers)
unfolding delete_id
entry-delete_id j id s v = elim (find-entry id s.buffers) [
  | inl (e, gone) ↦ rw (e, delete_id) (unchanged gone)
  | inr (i, x, e, here) ↦
      rw (e, delete_id) (entry-erase j id i s.buffers v.distinct (find_lem id i s.buffers x e).2)
]
  where
    unchanged :
        entry id s.buffers ≡ none
        → entry j s.buffers ≡ (if j == id then none else entry j s.buffers)
    unchanged gone = elim (Bool-cases (j == id)) [
      | inl same ↦ rw same (ap (λ (k : ℕ). entry k s.buffers) ((==_iff j id).0 same) ∙ gone)
      | inr other ↦ rw other refl
    ]

entry-set :
    (j i : ℕ) (xs : List StBuffer) (x : StBuffer) (b : GmBuffer)
    → Distinct (ids xs)
    → get_elem? xs i ≡ some x
    → entry j (set xs i (record x { buffer = b }))
      ≡ (if j == x.id_buffer then some b else entry j xs)
unfolding entry
entry-set j i [] x b d e = cc
entry-set j zero (y ∷ xs) x b d e = ground arith
entry-set j (suc i) (y ∷ xs) x b d e =
    ground (arith, entry-set j i xs x b d.3 e, is_used-get xs i x e)

-- An accepted .add_buffer appends its bytes to the buffer of its identifier, and changes no other.
pub entry-add_buffer :
    (j : ℕ) (raw : List ℕ) (s : Store) (b : GmBuffer)
    → IsValid s
    → entry (request_id raw) s.buffers ≡ some b
    → request_len raw ≢ 0
    → request_len raw ≤ length (request_data raw)
    → Contents.IsValid b
    → ((add_buffer raw s).code ≡ gme_ok)
      × (entry j (add_buffer raw s).store.buffers ≡ (
          if j == request_id raw
          then some (add b (some (request_data raw)) (request_len raw))
          else entry j s.buffers))
      × (bytes (add b (some (request_data raw)) (request_len raw))
          ≡ bytes b ++ take (request_len raw) (request_data raw))
unfolding add_buffer
entry-add_buffer j raw s b v e nz enough w = elim (find-entry (request_id raw) s.buffers) [
  | inl (missing, gone) ↦ absurd (cc)
  | inr (i, x, found, here) ↦
      let (at, name, place) = find_lem (request_id raw) i s.buffers x found in
      let same : x.buffer ≡ b = ground arith in
      let grown = add x.buffer (some (request_data raw)) (request_len raw) in
      let stored = entry-set j i s.buffers x grown v.distinct at in
      rw (nonzero (request_len raw) nz) (
        rw found (
          refl,
          stored ∙ rw (name, same) refl,
          (add-bytes b (request_data raw) (request_len raw) w enough).1,
        ))
]
