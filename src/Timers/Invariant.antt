-- ===== src/Timers/Invariant.antt =====
-- The identifiers of the pending timers, through every operation of the table.
use mathlib.Core.List.{map-append}
use gmonitor.Base.{
  ℕ, zero, suc, ◌+◌, ◌≡◌, refl, ap, ◌⊎◌, inl, inr, Bool, List, [], ◌∷◌, Option, none, some, arith,
  Bool-cases, Option-cases, ◌==◌, if◌then◌else◌, set, erase_at, get_elem?, ℤ, success, failure,
}
use gmonitor.Ids.Fresh.{Ready, ne-zero, get_new_id_fresh}
use gmonitor.Ids.Distinct.{Distinct, Distinct-append, Distinct-erase}
use gmonitor.Service.{Client}
use gmonitor.Timers.{
  init, Timer, Table, ids, by_id, by_trans, insert, at, set_timer, finish, ok, del_id, del_trans,
}

-- Every identifier is used once and lies in 1 .. 8192; `m_last_id` is at most 8192 unless there is
-- no timer.
pub record IsValid (s : Table) : Type 0 where
  pub distinct : Distinct (ids s.timers)
  pub ready : Ready (ids s.timers) s.last_id

ids-erase : (i : ℕ) (xs : List Timer) → ids (erase_at xs i) ≡ erase_at (ids xs) i
ids-erase i [] = refl
ids-erase zero (x ∷ xs) = refl
ids-erase (suc i) (x ∷ xs) = ap (◌∷◌ x.id) (ids-erase i xs)

pub erase_at-Distinct :
    (i : ℕ) (xs : List Timer) → Distinct (ids xs) → Distinct (ids (erase_at xs i))
erase_at-Distinct i xs d = rw (ids-erase i xs) (Distinct-erase i (ids xs) d)

-- A new end leaves the identifiers alone.
ids-set :
    (i : ℕ) (xs : List Timer) (x : Timer) (end : ℕ)
    → get_elem? xs i ≡ some x
    → ids (set xs i (record x { end_t = end })) ≡ ids xs
ids-set i [] x end e = cc
ids-set zero (y ∷ xs) x end e = ground arith
ids-set (suc i) (y ∷ xs) x end e = ap (◌∷◌ y.id) (ids-set i xs x end e)

finish-Distinct :
    (xs : List Timer) (i : ℕ) (o : Option Timer)
    → get_elem? xs i ≡ o
    → Distinct (ids xs)
    → Distinct (ids (finish xs i o))
unfolding finish
finish-Distinct xs i none e d = d
finish-Distinct xs i (some x) e d =
    ground (arith, ids-set i xs x (x.end_t + x.restart), erase_at-Distinct i xs)

pub init-IsValid : (garbage : ℕ) → IsValid (init garbage)
unfolding init
init-IsValid garbage = record { distinct = tt; ready = inl refl }

pub insert-IsValid :
    (start_t end_t restart : ℕ) (servicio : List ℕ) (tipo trans : ℕ) (owner : Client)
    (msg : Option (List ℕ)) (msg_len : ℕ) (s : Table)
    → IsValid s
    → IsValid (insert start_t end_t restart servicio tipo trans owner msg msg_len s).0
unfolding insert
insert-IsValid start_t end_t restart servicio tipo trans owner msg msg_len s v =
    elim (get_new_id_fresh (ids s.timers) s.last_id v.ready) [
      | inl e ↦ rw e (record { distinct = v.distinct; ready = inr (omega arith) })
      | inr (fresh, lo, hi) ↦ rw (ne-zero _ lo) (record {
        distinct =
            rw (map-append (λ (x : Timer). x.id) s.timers (_ ∷ []))
              (Distinct-append _ (ids s.timers) fresh lo hi v.distinct);
        ready = inr hi;
      })
    ]

-- Set and At keep the identifiers distinct and in range, also where they find none.
pub setting-IsValid :
    (t seconds end : ℕ) (servicio : List ℕ) (tipo trans : ℕ) (owner : Client)
    (msg : Option (List ℕ)) (msg_len : ℕ) (repeat : Bool) (s : Table)
    → IsValid s
    → IsValid (set_timer t seconds servicio tipo trans owner msg msg_len repeat s).0
      × IsValid (at t end servicio tipo trans owner msg msg_len s).0
unfolding set_timer at
setting-IsValid t seconds end servicio tipo trans owner msg msg_len repeat s v = (
  insert-IsValid t (t + seconds) (if repeat then seconds else 0) servicio tipo trans owner msg
      msg_len s v,
  insert-IsValid t end 0 servicio tipo trans owner msg msg_len s v,
)

-- An operation that refuses leaves the timers alone.
pub setting_refused :
    (t seconds end : ℕ) (servicio : List ℕ) (tipo trans : ℕ) (owner : Client)
    (msg : Option (List ℕ)) (msg_len : ℕ) (repeat : Bool) (s : Table)
    → ((set_timer t seconds servicio tipo trans owner msg msg_len repeat s).1 ≡ 0
        → (set_timer t seconds servicio tipo trans owner msg msg_len repeat s).0.timers ≡ s.timers)
      × ((at t end servicio tipo trans owner msg msg_len s).1 ≡ 0
          → (at t end servicio tipo trans owner msg msg_len s).0.timers ≡ s.timers)
unfolding set_timer at insert
setting_refused t seconds end servicio tipo trans owner msg msg_len repeat s =
    ((λ e. ground arith), (λ e. ground arith))

erase_at-IsValid :
    (s : Table) (i : ℕ) → IsValid s → IsValid (record s { timers = erase_at s.timers i })
erase_at-IsValid s i v = record {
  distinct = erase_at-Distinct i s.timers v.distinct;
  ready = still s.timers v.ready;
}
  where
    still : (xs : List Timer) → Ready (ids xs) s.last_id → Ready (ids (erase_at xs i)) s.last_id
    still [] r = r
    still (x ∷ xs) (inl e) = cc
    still (x ∷ xs) (inr h) = inr h

finish-Ready :
    (xs : List Timer) (last i : ℕ) (o : Option Timer)
    → get_elem? xs i ≡ o
    → Ready (ids xs) last
    → Ready (ids (finish xs i o)) last
unfolding finish
finish-Ready xs last i none e r = r
finish-Ready [] last i (some x) e r = cc
finish-Ready (y ∷ xs) last i (some x) e (inl none_there) = cc
finish-Ready (y ∷ xs) last i (some x) e (inr h) = inr h

-- The shape of the three removals: their guards, and the table that they make.
abbrev pub guarded : ℕ → Option ℕ → Table → (ℕ → Table) → Table × ℤ
guarded id found s new =
    if id == 0 then (s, failure) else elim found [ none ↦ (s, failure) | some i ↦ (new i, success) ]

pub removal_cases {ℓ} :
    (P : Table → Type ℓ) (id : ℕ) (found : Option ℕ) (s : Table) (new : ℕ → Table)
    → P s
    → ((i : ℕ) → found ≡ some i → P (new i))
    → P (guarded id found s new).0
removal_cases P id found s new kept gone = elim (Bool-cases (id == 0)) [
  | inl e ↦ rw e kept
  | inr e ↦ rw e (elim (Option-cases found) [ inl f ↦ rw f kept | inr (i, f) ↦ rw f (gone i f) ])
]

-- Ok, DelId and DelTrans keep the identifiers distinct and in range.
pub removal-IsValid :
    (id : ℕ) (caller : Client) (s : Table)
    → IsValid s
    → IsValid (ok id s).0 × IsValid (del_id id caller s).0 × IsValid (del_trans id s).0
unfolding ok del_id del_trans
removal-IsValid id caller s v = (
  removal_cases IsValid id (by_id id s.timers) s
      (λ i. record s { timers = finish s.timers i (get_elem? s.timers i) }) v
      (λ i e. record {
        distinct = finish-Distinct s.timers i _ refl v.distinct;
        ready = finish-Ready s.timers s.last_id i _ refl v.ready;
      }),
  removal_cases IsValid id (by_id id s.timers) s (λ i. record s { timers = erase_at s.timers i }) v
      (λ i e. erase_at-IsValid s i v),
  removal_cases IsValid id (by_trans id s.timers) s (λ i. record s { timers = erase_at s.timers i })
      v (λ i e. erase_at-IsValid s i v),
)

pub removal_refused :
    (id : ℕ) (caller : Client) (s : Table)
    → ((del_id id caller s ≡ (s, failure)) ⊎ ((del_id id caller s).1 ≡ success))
      × ((del_trans id s ≡ (s, failure)) ⊎ ((del_trans id s).1 ≡ success))
unfolding del_id del_trans
removal_refused id caller s = (refused (by_id id s.timers), refused (by_trans id s.timers))
  where
    remove : ℕ → Table
    remove i = record s { timers = erase_at s.timers i }

    refused :
        (o : Option ℕ)
        → (guarded id o s remove ≡ (s, failure)) ⊎ ((guarded id o s remove).1 ≡ success)
    refused o = elim (Bool-cases (id == 0)) [
      | inl e ↦ inl (rw e refl)
      | inr e ↦ elim (Option-cases o) [
        | inl f ↦ inl (rw (e, f) refl)
        | inr (i, f) ↦ inr (rw (e, f) refl)
      ]
    ]
