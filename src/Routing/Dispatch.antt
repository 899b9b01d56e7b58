-- ===== src/Routing/Dispatch.antt =====
-- The queues that a message is put into.
use gmonitor.Base.{
  ℕ, ◌+◌, ◌≡◌, refl, ap, sym, ◌∙◌, Bool, true, false, List, [], ◌∷◌, All, ℤ, some, subst, inl, inr,
  Bool-cases, ◌==◌, ◌||◌, length, if◌then◌else◌,
}
use gmonitor.Service.{type_msg, type_cr, type_int, type_not, gme_msgq_error}
use gmonitor.Header.{get_char, get_text, tipo_mensaje, funcion}
use gmonitor.Message.{GmMessage, get_msg, set_response}
use gmonitor.Tables.{Server, Funcion, cola}
use gmonitor.Tables.Queues.{In}
use gmonitor.Router.{select_queue, is_negative}
use gmonitor.Router.Selection.{select_queue-In}
use gmonitor.Routing.{
  Net, Routed, put, send_all, query_one, notify_one, post_all, dispatch, msg_query, by_router,
}

-- Every copy is the message, and goes to a queue of the list.
abbrev pub Copies : List ℕ → List ℤ → List (ℤ × List ℕ) → Type 0
Copies bytes colas = All (λ p. In p.0 colas × (p.1 ≡ bytes))

Copies-more :
    (bytes : List ℕ) (c : ℤ) (colas : List ℤ) (sent : List (ℤ × List ℕ))
    → Copies bytes colas sent
    → Copies bytes (c ∷ colas) sent
Copies-more bytes c colas [] h = tt
Copies-more bytes c colas (p ∷ sent) h = ((inr h.0.0, h.0.1), Copies-more bytes c colas sent h.1)

send_all-Copies :
    (forks : ℕ → Bool) (takes : ℤ → Bool) (bytes : List ℕ) (i : ℕ) (colas : List ℤ)
    → Copies bytes colas (send_all forks takes bytes i colas)
unfolding send_all put
send_all-Copies forks takes bytes i [] = tt
send_all-Copies forks takes bytes i (c ∷ cs) =
    let rest =
      Copies-more bytes c cs (send_all forks takes bytes (i + 1) cs)
        (send_all-Copies forks takes bytes (i + 1) cs) in
    elim (Bool-cases (forks i)) [
      | inl e ↦ elim (Bool-cases (takes c)) [
        | inl t ↦ rw e (rw t ((inl refl, refl), rest))
        | inr t ↦ rw e (rw t rest)
      ]
      | inr e ↦ rw e rest
    ]

put-Copies :
    (takes : ℤ → Bool) (bytes : List ℕ) (c : ℤ) (colas : List ℤ)
    → In c colas
    → Copies bytes colas (put takes bytes c)
unfolding put
put-Copies takes bytes c colas h = elim (Bool-cases (takes c)) [
  | inl t ↦ rw t ((h, refl), tt)
  | inr t ↦ rw t tt
]

-- The queues of a list that take a message.
abbrev pub taking : (ℤ → Bool) → List ℤ → List ℤ
taking takes [] = []
taking takes (c ∷ cs) = let rest = taking takes cs in if takes c then c ∷ rest else rest

selected-In :
    (counts : ℤ → ℤ) (pid : ℕ) (f : List ℕ) (t : ℕ) (fs : List Funcion) (servers : List Server)
    → is_negative (select_queue counts pid f t fs servers) ≡ false
    → In (select_queue counts pid f t fs servers) (cola f t fs servers)
selected-In counts pid f t fs servers e = elim (select_queue-In counts pid f t fs servers) [
  | inl none_left ↦ let negative : true ≡ false = ap is_negative (sym none_left.1) ∙ e in cc
  | inr found ↦ found.1
]

pub if_true {ℓ} : {A : Type ℓ} (b : Bool) (x y : A) → b ≡ true → (if b then x else y) ≡ x
if_true true x y e = refl
if_true false x y e = cc

pub if_false {ℓ} : {A : Type ℓ} (b : Bool) (x y : A) → b ≡ false → (if b then x else y) ≡ y
if_false true x y e = cc
if_false false x y e = refl

module _ {W : Type 0} (net : Net W) (raw : List ℕ) (fs : List Funcion) (servers : List Server)
    (input : GmMessage) (w : W) where
  abbrev pub bytes : List ℕ
  bytes = (get_msg input).0

  -- The queues of the service.
  abbrev pub colas : List ℤ
  colas = cola (get_text funcion input.m_header) (get_char tipo_mensaje input.m_header) fs servers

  abbrev selected : ℤ
  selected =
      select_queue net.counts net.pid (get_text funcion input.m_header)
        (get_char tipo_mensaje input.m_header) fs servers

  In-selected : is_negative selected ≡ false → In selected colas
  In-selected e =
      selected-In net.counts net.pid (get_text funcion input.m_header)
        (get_char tipo_mensaje input.m_header) fs servers e

  query_one-Copies :
      (out : GmMessage) → Copies bytes colas (query_one net raw fs servers input out w).sent
  unfolding query_one
  query_one-Copies out = elim (Bool-cases (is_negative selected)) [
    | inl e ↦ rw (query_one, e) tt
    | inr e ↦ rw (query_one, e) (put-Copies net.takes bytes selected colas (In-selected e))
  ]

  notify_one-Copies :
      (out : GmMessage) → Copies bytes colas (notify_one net raw fs servers input out w).sent
  unfolding notify_one
  notify_one-Copies out = elim (Bool-cases (is_negative selected)) [
    | inl e ↦ rw (notify_one, e) tt
    | inr e ↦ elim (Bool-cases (net.forks 0)) [
      | inl forked ↦ elim (Bool-cases (net.takes selected)) [
        | inl t ↦ rw (notify_one, e, send_all, forked, put, t) ((In-selected e, refl), tt)
        | inr t ↦ rw (notify_one, e, send_all, forked, put, t) tt
      ]
      | inr alone ↦ rw (notify_one, e, send_all, alone) tt
    ]
  ]

  post_all-Copies :
      (out : GmMessage) → Copies bytes colas (post_all net raw fs servers input out w).sent
  unfolding post_all
  post_all-Copies out = elim (Bool-cases (length colas == 0)) [
    | inl e ↦ rw (post_all, e) tt
    | inr e ↦ rw (post_all, e) (send_all-Copies net.forks net.takes bytes 0 colas)
  ]

  dispatch-Copies :
      (out : GmMessage) → Copies bytes colas (dispatch net raw fs servers input out w).sent
  unfolding dispatch
  dispatch-Copies out =
      let t = get_char tipo_mensaje input.m_header in
      elim (Bool-cases (t == type_cr || t == type_int)) [
        | inl e ↦ rw e (query_one-Copies out)
        | inr e ↦ rw e (elim (Bool-cases (t == type_not)) [
          | inl d ↦ rw d (notify_one-Copies out)
          | inr d ↦ rw d (elim (Bool-cases (t == type_msg)) [
            | inl c ↦ rw c (post_all-Copies out)
            | inr c ↦ rw c tt
          ])
        ])
      ]

  pub msg_query_open :
      (out : GmMessage)
      → net.opens ≡ true
      → msg_query net raw fs servers input out w
        ≡ dispatch net raw fs servers input (set_response out (some input)).0 w
  unfolding msg_query
  msg_query_open out e = if_true net.opens _ _ e

  msg_query_closed :
      (out : GmMessage)
      → net.opens ≡ false
      → msg_query net raw fs servers input out w ≡ record {
        out = by_router gme_msgq_error (set_response out (some input)).0;
        world = w;
        sent = [];
      }
  unfolding msg_query
  msg_query_closed out e = if_false net.opens _ _ e

  -- Whatever its type, a message is put unchanged, as GetMsg shows it, into queues that Cola lists
  -- for its function and type, and into no others.
  pub msg_query-Copies :
      (out : GmMessage) → Copies bytes colas (msg_query net raw fs servers input out w).sent
  msg_query-Copies out = elim (Bool-cases net.opens) [
    | inl e ↦
        subst (λ (r : Routed W). Copies bytes colas r.sent) (sym (msg_query_open out e))
          (dispatch-Copies (set_response out (some input)).0)
    | inr e ↦ subst (λ (r : Routed W). Copies bytes colas r.sent) (sym (msg_query_closed out e)) tt
  ]
