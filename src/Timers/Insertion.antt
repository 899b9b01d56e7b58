-- ===== src/Timers/Insertion.antt =====
-- A timer that is set can be fetched, and the other timers stay as they are.
use gmonitor.Base.{
  ℕ, zero, suc, ◌+◌, ◌≤◌, ◌<◌, ◌≡◌, ◌≢◌, refl, ap, ◌∙◌, inl, inr, Bool, false, List, [], ◌∷◌, ◌++◌,
  Option, none, some, arith, ◌==◌, if◌then◌else◌, length, take, Option-cases, ==_refl,
  find_index-some, find_index-append, find_index-append_other, get_elem?-append,
  get_elem?-append_left,
}
use gmonitor.Ids.{is_used, get_new_id, rounds}
use gmonitor.Ids.Fresh.{ne-zero, get_new_id_fresh}
use gmonitor.Ids.Room.{get_new_id-ne-zero}
use gmonitor.Buffer.{new_data}
use gmonitor.Service.{Client}
use gmonitor.Timers.{Timer, Table, ids, by_id, delivery, new_timer, insert, set_timer, get}
use gmonitor.Timers.Invariant.{IsValid}

by_id-unused : (id : ℕ) (xs : List Timer) → is_used id (ids xs) ≡ false → by_id id xs ≡ none
unfolding is_used
by_id-unused id [] h = refl
by_id-unused id (x ∷ xs) h = ground (arith, by_id-unused id xs)

length-ids : (xs : List Timer) → length (ids xs) ≡ length xs
length-ids [] = refl
length-ids (x ∷ xs) = omega (arith, length-ids xs)

inserted :
    (start_t end_t restart : ℕ) (servicio : List ℕ) (tipo trans : ℕ) (owner : Client)
    (msg : Option (List ℕ)) (msg_len : ℕ) (s : Table)
    → let id = get_new_id (ids s.timers) s.last_id in
      (id == 0) ≡ false
      → insert start_t end_t restart servicio tipo trans owner msg msg_len s ≡ (
        record {
          last_id = id;
          timers =
              s.timers
              ++ new_timer id start_t end_t restart servicio tipo trans owner msg msg_len ∷ [];
        },
        id,
      )
unfolding insert
inserted start_t end_t restart servicio tipo trans owner msg msg_len s e = rw e refl

-- Get on a table with one more entry.
get-last :
    (s : Table) (x : Timer) (last : ℕ)
    → 1 ≤ x.id
    → is_used x.id (ids s.timers) ≡ false
    → get x.id (record { last_id = last; timers = s.timers ++ x ∷ [] }) ≡ some (delivery x)
unfolding get
get-last s x last nz fresh = rw (ne-zero x.id nz) (
    rw
      (find_index-append (λ (y : Timer). y.id == x.id) s.timers x (by_id-unused x.id s.timers fresh)
        (==_refl x.id))
      (rw (get_elem?-append (length s.timers) s.timers x [] refl) refl))

get-others :
    (s : Table) (x : Timer) (last j : ℕ)
    → j ≢ x.id
    → get j (record { last_id = last; timers = s.timers ++ x ∷ [] }) ≡ get j s
unfolding get
get-others s x last j ne =
    rw (find_index-append_other (λ (y : Timer). y.id == j) s.timers x (ground arith))
      (elim (Option-cases (by_id j s.timers)) [
        | inl e ↦ rw e refl
        | inr (i, e) ↦
            let (y, at, hit, below) = find_index-some (λ (y : Timer). y.id == j) s.timers i e in
            rw (e, get_elem?-append_left i s.timers (x ∷ []) below) refl
      ])

take-take : {A : Type 0} (n : ℕ) (xs : List A) → take n (take n xs) ≡ take n xs
take-take zero xs = refl
take-take (suc n) [] = refl
take-take (suc n) (x ∷ xs) = ap (◌∷◌ x) (take-take n xs)

delivery-new_timer :
    (id start_t end_t restart : ℕ) (servicio : List ℕ) (tipo trans : ℕ) (owner : Client)
    (msg : List ℕ) (msg_len : ℕ)
    → delivery (new_timer id start_t end_t restart servicio tipo trans owner (some msg) msg_len)
      ≡ record {
        servicio = take 32 servicio;
        tipo = tipo;
        msg = if msg_len == 0 then none else some (take msg_len msg ++ 0 ∷ []);
        msg_len = msg_len;
      }
unfolding delivery new_timer new_data
delivery-new_timer id start_t end_t restart servicio tipo trans owner msg msg_len =
    rw (take-take 32 servicio) (ground arith)

-- Set on a table of fewer than 8191 timers succeeds. The identifier that it returns is not 0 and
-- was not in use; under it Get delivers the first 32 bytes of the service, the type, and the
-- message unless its length is 0; and what Get says of any other identifier does not change.
pub get-set_timer :
    (t seconds : ℕ) (servicio : List ℕ) (tipo trans : ℕ) (owner : Client) (msg : List ℕ)
    (msg_len : ℕ) (repeat : Bool) (s : Table) (j : ℕ)
    → IsValid s
    → length s.timers < rounds
    → j ≢ (set_timer t seconds servicio tipo trans owner (some msg) msg_len repeat s).1
    → let made = set_timer t seconds servicio tipo trans owner (some msg) msg_len repeat s in
      (made.1 ≢ 0)
      × (is_used made.1 (ids s.timers) ≡ false)
      × (get made.1 made.0
          ≡ some (record {
            servicio = take 32 servicio;
            tipo = tipo;
            msg = if msg_len == 0 then none else some (take msg_len msg ++ 0 ∷ []);
            msg_len = msg_len;
          }))
      × (get j made.0 ≡ get j s)
unfolding set_timer new_timer
get-set_timer t seconds servicio tipo trans owner msg msg_len repeat s j v room =
    let id = get_new_id (ids s.timers) s.last_id in
    let period = if repeat then seconds else 0 in
    let x = new_timer id t (t + seconds) period servicio tipo trans owner (some msg) msg_len in
    let filled =
      delivery-new_timer id t (t + seconds) period servicio tipo trans owner msg msg_len in
    elim (get_new_id_fresh (ids s.timers) s.last_id v.ready) [
      | inl e ↦ absurd (
          get_new_id-ne-zero (ids s.timers) s.last_id v.ready (omega (arith, length-ids s.timers))
            e)
      | inr (fresh, lo, hi) ↦
          rw
            (inserted t (t + seconds) period servicio tipo trans owner (some msg) msg_len s
              (ne-zero id lo))
            (λ ne. (
              (λ z. omega arith),
              fresh,
              get-last s x id lo fresh ∙ ap some filled,
              get-others s x id j ne,
            ))
    ]
