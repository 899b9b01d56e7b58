-- ===== src/TimerServer/Messages.antt =====
-- What the messages do to the table.
use gmonitor.Base.{
  ℕ, ◌≡◌, ◌≢◌, refl, ap, inl, inr, ◌&&◌, ◌||◌, List, some, arith, ltb, ◌==◌, ℤ, success, failure,
  ◌⊎◌, codes, str_eq, Bool-cases,
}
use gmonitor.Service.{Client, gme_ok, gme_undefined, gme_svc_unresolved}
use gmonitor.Timers.{Table, at, set_timer, del_id, del_trans}
use gmonitor.Timers.Invariant.{
  IsValid, setting-IsValid, setting_refused, removal-IsValid, removal_refused,
}
use gmonitor.TimerServer.{
  StTimer, Answer, answer_set, answer_removal, size_set_timer, size_kill_timer, refuse,
  on_set_timer, is_success, message,
}

answer_set-IsValid : (pt : StTimer) (r : Table × ℕ) → IsValid r.0 → IsValid (answer_set pt r).table
answer_set-IsValid pt (s, id) v = ground arith

answer_removal-IsValid : (r : Table × ℤ) → IsValid r.0 → IsValid (answer_removal r).table
answer_removal-IsValid (s, rc) v = v

-- The three ways in which `.set_timer` is answered.
on_set_timer_cases {ℓ} :
    (P : Answer → Type ℓ) (t : ℕ) (pt : StTimer) (inlen trans : ℕ) (owner : Client) (s : Table)
    → P (refuse s gme_undefined)
    → P (
        answer_set pt (
          set_timer t pt.delay pt.servicio pt.modo_servicio trans owner
            (some pt.body)
            pt.len
            (pt.tipo_timer == b'R')
            s))
    → P (
        answer_set pt
          (at t pt.end_at pt.servicio pt.modo_servicio trans owner (some pt.body) pt.len s))
    → P (on_set_timer t pt inlen trans owner s)
unfolding on_set_timer
on_set_timer_cases P t pt inlen trans owner s bad delayed timed =
    elim (Bool-cases (ltb inlen size_set_timer)) [
      | inl e ↦ rw e bad
      | inr e ↦ rw e (elim (Bool-cases (ltb 0 pt.delay && pt.end_at == 0)) [
        | inl f ↦ rw f delayed
        | inr f ↦ rw f (elim (Bool-cases (ltb 0 pt.end_at && pt.delay == 0)) [
          | inl g ↦ rw g timed
          | inr g ↦ rw g bad
        ])
      ])
    ]

-- The five ways in which a message is answered.
message_cases {ℓ} :
    (P : Answer → Type ℓ) (t : ℕ) (funcion : List ℕ) (pt : StTimer) (inlen trans : ℕ)
    (owner : Client) (s : Table)
    → P (on_set_timer t pt inlen trans owner s)
    → P (refuse s gme_undefined)
    → P (answer_removal (del_id pt.id owner s))
    → P (answer_removal (del_trans pt.id s))
    → P (refuse s gme_svc_unresolved)
    → P (message t funcion pt inlen trans owner s)
unfolding message
message_cases P t funcion pt inlen trans owner s set short killed ended other =
    elim (Bool-cases (str_eq funcion (codes ".set_timer"))) [
      | inl e ↦ rw e set
      | inr e ↦ rw e (elim (Bool-cases (str_eq funcion (codes ".kill_timer"))) [
        | inl f ↦ rw f (elim (Bool-cases (ltb inlen size_kill_timer)) [
          | inl g ↦ rw g short
          | inr g ↦ rw g killed
        ])
        | inr f ↦
            rw f
              (elim (Bool-cases
                (str_eq funcion (codes ".committrans") || str_eq funcion (codes ".aborttrans"))) [
                  | inl g ↦ rw g ended
                  | inr g ↦ rw g other
                ])
      ])
    ]

-- Whatever message arrives, of any length, the identifiers stay distinct and in range.
pub message-IsValid :
    (t : ℕ) (funcion : List ℕ) (pt : StTimer) (inlen trans : ℕ) (owner : Client) (s : Table)
    → IsValid s
    → IsValid (message t funcion pt inlen trans owner s).table
message-IsValid t funcion pt inlen trans owner s v =
    let set =
      setting-IsValid t pt.delay pt.end_at pt.servicio pt.modo_servicio trans owner (some pt.body)
        pt.len (pt.tipo_timer == b'R') s v in
    message_cases (λ a. IsValid a.table) t funcion pt inlen trans owner s
      (on_set_timer_cases (λ a. IsValid a.table) t pt inlen trans owner s v
        (answer_set-IsValid pt _ set.0) (answer_set-IsValid pt _ set.1))
      v (answer_removal-IsValid (del_id pt.id owner s) (removal-IsValid pt.id owner s v).1)
      (answer_removal-IsValid (del_trans pt.id s) (removal-IsValid pt.id owner s v).2) v

abbrev Refused : Table → Answer → Type 0
Refused s a = a.code ≢ gme_ok → a.table.timers ≡ s.timers

answer_set-Refused :
    (pt : StTimer) (s : Table) (r : Table × ℕ)
    → (r.1 ≡ 0 → r.0.timers ≡ s.timers)
    → Refused s (answer_set pt r)
answer_set-Refused pt s (s', id) h = elim (Bool-cases (id == 0)) [
  | inl e ↦ rw e (λ n. h (ground arith))
  | inr e ↦ rw e (λ n. absurd (n refl))
]

answer_removal-Refused :
    (s : Table) (r : Table × ℤ)
    → (r ≡ (s, failure)) ⊎ (r.1 ≡ success)
    → Refused s (answer_removal r)
unfolding is_success
answer_removal-Refused s r (inl e) n = ap (λ (q : Table × ℤ). q.0.timers) e
answer_removal-Refused s (s', rc) (inr e) n = absurd (n (rw e refl))

-- A message that is answered by an error code changes no timer.
pub message_refused :
    (t : ℕ) (funcion : List ℕ) (pt : StTimer) (inlen trans : ℕ) (owner : Client) (s : Table)
    → (message t funcion pt inlen trans owner s).code ≢ gme_ok
    → (message t funcion pt inlen trans owner s).table.timers ≡ s.timers
message_refused t funcion pt inlen trans owner s =
    let set =
      setting_refused t pt.delay pt.end_at pt.servicio pt.modo_servicio trans owner (some pt.body)
        pt.len (pt.tipo_timer == b'R') s in
    let removed = removal_refused pt.id owner s in
    message_cases (Refused s) t funcion pt inlen trans owner s
      (on_set_timer_cases (Refused s) t pt inlen trans owner s (λ n. refl)
        (answer_set-Refused pt s _ set.0) (answer_set-Refused pt s _ set.1))
      (λ n. refl) (answer_removal-Refused s _ removed.0) (answer_removal-Refused s _ removed.1)
      (λ n. refl)
