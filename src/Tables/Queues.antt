-- ===== src/Tables/Queues.antt =====
-- The queues of a service: who registers a queue, and which arrays it goes into.
use gmonitor.Base.{
  ℕ, zero, suc, ◌<◌, ◌≡◌, ◌↔◌, refl, ap, sym, subst, inl, inr, ◌⊎◌, Bool, true, false, List, [],
  ◌∷◌, ◌++◌, none, some, arith, ltb, All, All-get_elem?, Bool-cases, Option-cases, length,
  get_elem?, set, find_index, find_index-some, ℤ, pos, negsuc, success, is_positive,
}
use gmonitor.Tables.{
  Server, Funcion, is_server, open_queues, queues_of, serves, cola, max_server_instances, register,
  add_srv,
}

-- A queue is in a list.
abbrev pub In : ℤ → List ℤ → Type 0
In c [] = ⊥
In c (x ∷ xs) = (x ≡ c) ⊎ In c xs

pub In-left : (c : ℤ) (xs ys : List ℤ) → In c xs → In c (xs ++ ys)
In-left c [] ys h = elim h [ ]
In-left c (x ∷ xs) ys (inl e) = inl e
In-left c (x ∷ xs) ys (inr h) = inr (In-left c xs ys h)

pub In-right : (c : ℤ) (xs ys : List ℤ) → In c ys → In c (xs ++ ys)
In-right c [] ys h = h
In-right c (x ∷ xs) ys h = inr (In-right c xs ys h)

In-open_queues :
    (c : ℤ) (k : ℕ) (cs : List ℤ)
    → is_positive c ≡ true
    → k < length cs
    → In c (open_queues (set cs k c))
unfolding open_queues
In-open_queues c k [] h l = elim l [ ]
In-open_queues c zero (x ∷ cs) h l = rw h (inl refl)
In-open_queues c (suc k) (x ∷ cs) h l =
    let rest = In-open_queues c k cs h (omega arith) in
    elim (Bool-cases (is_positive x)) [ inl e ↦ rw e (inr rest) | inr e ↦ rw e rest ]

In-queues_of :
    (c : ℤ) (nombre : List ℕ) (i : ℕ) (servers : List Server) (x : Server)
    → get_elem? servers i ≡ some x
    → is_server nombre x ≡ true
    → In c (open_queues x.cola)
    → In c (queues_of nombre servers)
unfolding queues_of
In-queues_of c nombre i [] x g s h = cc
In-queues_of c nombre zero (y ∷ servers) x g s h =
    let same : y ≡ x = ground arith in
    rw (same, s) (In-left c (open_queues x.cola) (queues_of nombre servers) h)
In-queues_of c nombre (suc i) (y ∷ servers) x g s h =
    let rest = In-queues_of c nombre i servers x g s h in
    elim (Bool-cases (is_server nombre y)) [
      | inl e ↦ rw e (In-right c (open_queues y.cola) (queues_of nombre servers) rest)
      | inr e ↦ rw e rest
    ]

In-cola :
    (c : ℤ) (servicio : List ℕ) (tipo_mensaje j : ℕ) (fs : List Funcion) (servers : List Server)
    (f : Funcion)
    → get_elem? fs j ≡ some f
    → serves servicio tipo_mensaje f ≡ true
    → In c (queues_of f.server servers)
    → In c (cola servicio tipo_mensaje fs servers)
unfolding cola
In-cola c servicio tipo_mensaje j [] servers f g s h = cc
In-cola c servicio tipo_mensaje zero (y ∷ fs) servers f g s h =
    let same : y ≡ f = ground arith in
    rw (same, s) (In-left c (queues_of f.server servers) (cola servicio tipo_mensaje fs servers) h)
In-cola c servicio tipo_mensaje (suc j) (y ∷ fs) servers f g s h =
    let rest = In-cola c servicio tipo_mensaje j fs servers f g s h in
    elim (Bool-cases (serves servicio tipo_mensaje y)) [
      | inl e ↦
          rw e
            (In-right c (queues_of y.server servers) (cola servicio tipo_mensaje fs servers) rest)
      | inr e ↦ rw e rest
    ]

get_elem?-set :
    (xs : List Server) (i : ℕ) (x y : Server)
    → get_elem? xs i ≡ some x
    → get_elem? (set xs i y) i ≡ some y
get_elem?-set [] i x y g = cc
get_elem?-set (z ∷ xs) zero x y g = refl
get_elem?-set (z ∷ xs) (suc i) x y g = get_elem?-set xs i x y g

-- A server of the table that registers a queue is reached by its services: AddSrv of a positive
-- key with an index below 255, for a server whose arrays have 255 places, succeeds, and then
-- Cola finds the queue for every service and type that an entry of the function table gives to
-- that server.
pub add_srv-cola :
    (nombre : List ℕ) (pid c qid : ℤ) (k i j : ℕ) (servicio : List ℕ) (tipo_mensaje : ℕ)
    (fs : List Funcion) (servers : List Server) (f : Funcion)
    → All (λ x. length x.cola ≡ max_server_instances) servers
    → k < max_server_instances
    → is_positive c ≡ true
    → find_index (is_server nombre) servers ≡ some i
    → get_elem? fs j ≡ some f
    → serves servicio tipo_mensaje f ≡ true
    → f.server ≡ nombre
    → (after : List Server) × (add_srv nombre pid c qid (pos k) servers ≡ some (after, success))
      × In c (cola servicio tipo_mensaje fs after)
unfolding add_srv register
add_srv-cola nombre pid c qid k i j servicio tipo_mensaje fs servers f sized small positive at g s
      named =
    let (x, found, hit, below) = find_index-some (is_server nombre) servers i at in
    let y = record x { cola = set x.cola k c; qid = set x.qid k qid; pid = set x.pid k pid } in
    let len = All-get_elem? (λ z. length z.cola ≡ max_server_instances) servers i x sized found in
    let good : ltb 255 k ≡ false = ground arith in
    let fits : ltb k max_server_instances ≡ true = ground arith in
    let queues =
      In-queues_of c nombre i (set servers i y) y (get_elem?-set servers i x y found) hit
        (In-open_queues c k x.cola positive (omega arith)) in
    (
      set servers i y,
      rw (good, at, found, fits) refl,
      In-cola c servicio tipo_mensaje j fs (set servers i y) f g s
          (subst (λ n. In c (queues_of n (set servers i y))) (sym named) queues),
    )

-- A server of that name is in the table.
abbrev pub is_known : List ℕ → List Server → Bool
is_known nombre servers = elim (find_index (is_server nombre) servers) [
  | none ↦ false
  | some i ↦ true
]

over_is : (k : ℕ) → ltb 255 k ≡ false → ltb k max_server_instances ≡ false → k ≡ 255
over_is k small over = ground arith

-- AddSrv writes behind the arrays of a server exactly with the index 255, which its guard lets
-- pass, for a server of the table.
pub add_srv_overflow :
    (nombre : List ℕ) (pid c qid indice : ℤ) (servers : List Server)
    → (add_srv nombre pid c qid indice servers ≡ none)
      ↔ ((indice ≡ pos 255) × (is_known nombre servers ≡ true))
unfolding add_srv register
add_srv_overflow nombre pid c qid (negsuc n) servers =
    (λ e. absurd (ground arith), λ h. absurd (ground arith))
add_srv_overflow nombre pid c qid (pos k) servers = elim (Bool-cases (ltb 255 k)) [
  | inl large ↦
      rw (add_srv, register, large) (λ e. absurd (ground arith), λ h. absurd (ground arith))
  | inr small ↦ elim (Option-cases (find_index (is_server nombre) servers)) [
    | inl missing ↦
        rw (add_srv, register, small, missing)
          (λ e. absurd (ground arith), λ h. absurd (ground arith))
    | inr (i, found) ↦
        let (x, at, hit, below) = find_index-some (is_server nombre) servers i found in
        elim (Bool-cases (ltb k max_server_instances)) [
          | inl fits ↦
              rw (add_srv, register, small, found, at, fits)
                (λ e. absurd (ground arith), λ h. absurd (ground arith))
          | inr over ↦
              rw (add_srv, register, small, found, at, over)
                (
                  λ e. (ap pos (omega (arith, over_is k small over)), rw (is_known, found) refl),
                  λ h. refl,
                )
        ]
  ]
]
