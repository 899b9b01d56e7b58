-- ===== src/Router/Selection.antt =====
-- SelectQueue as a whole: a queue of the service, with the fewest messages.
use gmonitor.Base.{
  ℕ, zero, suc, ◌-◌, ◌≤◌, ◌<◌, ◌≡◌, refl, subst, inl, inr, ◌⊎◌, false, List, arith, ◌==◌, ltb,
  Bool-cases, length, ℤ, pos, negsuc, failure,
}
use gmonitor.Tables.{Server, Funcion, cola}
use gmonitor.Tables.Queues.{In}
use gmonitor.Router.{
  queue_at, is_negative, next_index, is_better, rotate, first, choose, select_queue,
}
use gmonitor.Router.Choice.{
  In-queue_at, In-rotate, not_better, rotate_keeps, rotate_readable, rotate_visits, walk, round_of,
  walk-round_of,
}

first_below : (pid : ℕ) (colas : List ℤ) → 1 ≤ length colas → first pid colas < length colas
first_below pid colas h = omega arith

alone : (pid : ℕ) (colas : List ℤ) → length colas ≡ 1 → first pid colas ≡ 0
alone pid colas h = rw h (omega arith)

choose_cases {ℓ} :
    (P : ℤ → Type ℓ) (counts : ℤ → ℤ) (pid : ℕ) (colas : List ℤ)
    → (length colas ≡ 0 → P failure)
    → (length colas ≡ 1 → P (queue_at colas 0))
    → (1 < length colas
        → P (
            rotate counts colas
              (length colas - 1)
              (first pid colas)
              (queue_at colas (first pid colas))))
    → P (choose counts pid colas)
unfolding choose
choose_cases P counts pid colas none_there one more = elim (Bool-cases (length colas == 0)) [
  | inl e ↦ rw (choose, e) (none_there (ground arith))
  | inr e ↦ elim (Bool-cases (ltb 1 (length colas))) [
    | inl f ↦ rw (choose, e, f) (more (ground arith))
    | inr f ↦ rw (choose, e, f) (one (ground arith))
  ]
]

-- SelectQueue returns -1 for a service without queues, and otherwise one of the queues that Cola
-- lists for it.
pub select_queue-In :
    (counts : ℤ → ℤ) (pid : ℕ) (funcion : List ℕ) (tipo_mensaje : ℕ) (fs : List Funcion)
    (servers : List Server)
    → let colas = cola funcion tipo_mensaje fs servers in
      let selected = select_queue counts pid funcion tipo_mensaje fs servers in
      ((length colas ≡ 0) × (selected ≡ failure)) ⊎ ((1 ≤ length colas) × In selected colas)
unfolding select_queue
select_queue-In counts pid funcion tipo_mensaje fs servers =
    let colas = cola funcion tipo_mensaje fs servers in
    choose_cases (λ c. ((length colas ≡ 0) × (c ≡ failure)) ⊎ ((1 ≤ length colas) × In c colas))
      counts pid colas (λ h. inl (h, refl))
      (λ h. inr (omega arith, In-queue_at colas 0 (omega arith)))
      (λ h. inr (
        omega arith,
        In-rotate counts colas (length colas - 1) (first pid colas)
            (queue_at colas (first pid colas)) (first_below pid colas (omega arith))
            (In-queue_at colas (first pid colas) (first_below pid colas (omega arith))),
      ))

-- If the first candidate, that at the place getpid() modulo the number of queues, can be read,
-- then so can the queue that SelectQueue returns, and no queue of the service that can be read
-- has fewer messages; `m` is the place of any of them.
pub select_queue_least :
    (counts : ℤ → ℤ) (pid : ℕ) (funcion : List ℕ) (tipo_mensaje : ℕ) (fs : List Funcion)
    (servers : List Server) (m : ℕ)
    → m < length (cola funcion tipo_mensaje fs servers)
    → is_negative (
        counts (
          queue_at
            (cola funcion tipo_mensaje fs servers)
            (first pid (cola funcion tipo_mensaje fs servers))))
      ≡ false
    → let selected = select_queue counts pid funcion tipo_mensaje fs servers in
      (is_negative (counts selected) ≡ false)
      × (is_better (counts (queue_at (cola funcion tipo_mensaje fs servers) m)) (counts selected)
          ≡ false)
unfolding select_queue
select_queue_least counts pid funcion tipo_mensaje fs servers m small readable =
    let colas = cola funcion tipo_mensaje fs servers in
    let q = first pid colas in
    choose_cases
      (λ c.
        (is_negative (counts c) ≡ false)
        × (is_better (counts (queue_at colas m)) (counts c) ≡ false))
      counts pid colas (λ h. absurd (omega arith))
      (λ h.
        let at_zero : m ≡ 0 = omega arith in
        let candidate = alone pid colas h in
        (
          subst (λ i. is_negative (counts (queue_at colas i)) ≡ false) candidate readable,
          rw at_zero (not_better (counts (queue_at colas 0))),
        ))
      (λ h.
        let below = first_below pid colas (omega arith) in
        let at = walk-round_of (length colas) q m below small in
        (
          rotate_readable counts colas (length colas - 1) q (queue_at colas q) readable,
          elim (Bool-cases (round_of (length colas) q m == 0)) [
            | inl z ↦
                let here : m ≡ q = ground arith in
                rw here (
                  rotate_keeps counts colas (length colas - 1) q (queue_at colas q)
                    (queue_at colas q) (not_better (counts (queue_at colas q))))
            | inr nz ↦
                let t = round_of (length colas) q m - 1 in
                let turn : round_of (length colas) q m ≡ suc t = ground arith in
                let last : t < length colas - 1 = ground arith in
                subst
                  (λ i.
                    is_better (counts (queue_at colas i))
                      (counts (rotate counts colas (length colas - 1) q (queue_at colas q)))
                    ≡ false)
                  (subst (λ r. walk (length colas) q r ≡ m) turn at)
                  (rotate_visits counts colas (length colas - 1) q (queue_at colas q) t last)
          ],
        ))

none_better : (a : ℤ) → is_better a failure ≡ false
none_better (pos n) = ground arith
none_better (negsuc n) = refl

dead_candidate :
    (counts : ℤ → ℤ) (colas : List ℤ) (n qi : ℕ) (candidate : ℤ)
    → counts candidate ≡ failure
    → rotate counts colas n qi candidate ≡ candidate
unfolding rotate
dead_candidate counts colas zero qi candidate h = refl
dead_candidate counts colas (suc n) qi candidate h =
    let next = next_index (length colas) qi in
    let worse : is_better (counts (queue_at colas next)) (counts candidate) ≡ false =
      rw h (none_better (counts (queue_at colas next))) in
    rw worse (dead_candidate counts colas n next candidate h)

-- If the first candidate cannot be read, SelectQueue returns it, whatever the other queues hold.
pub select_queue_dead :
    (counts : ℤ → ℤ) (pid : ℕ) (funcion : List ℕ) (tipo_mensaje : ℕ) (fs : List Funcion)
    (servers : List Server)
    → 1 < length (cola funcion tipo_mensaje fs servers)
    → counts (
        queue_at
          (cola funcion tipo_mensaje fs servers)
          (first pid (cola funcion tipo_mensaje fs servers)))
      ≡ failure
    → select_queue counts pid funcion tipo_mensaje fs servers
      ≡ queue_at
          (cola funcion tipo_mensaje fs servers)
          (first pid (cola funcion tipo_mensaje fs servers))
unfolding select_queue
select_queue_dead counts pid funcion tipo_mensaje fs servers several dead =
    let colas = cola funcion tipo_mensaje fs servers in
    choose_cases (λ c. c ≡ queue_at colas (first pid colas)) counts pid colas
      (λ h. absurd (omega arith)) (λ h. absurd (omega arith))
      (λ h.
        dead_candidate counts colas (length colas - 1) (first pid colas)
          (queue_at colas (first pid colas)) dead)
