-- ===== src/Routing/Refusal.antt =====
-- A message for which no server has subscribed.
use gmonitor.Base.{
  ℕ, ◌≡◌, refl, ap, sym, ◌∙◌, true, List, [], arith, some, inl, inr, ◌==◌, ◌||◌, length,
  if◌then◌else◌, subst,
}
use gmonitor.Service.{type_msg, type_cr, type_int, type_not, gme_svc_notfound}
use gmonitor.Header.{get_char, get_text, tipo_mensaje, funcion, header_len}
use gmonitor.Message.{GmMessage, set_response}
use gmonitor.Message.Values.{is_query}
use gmonitor.Tables.{Server, Funcion}
use gmonitor.Router.{select_queue, is_negative}
use gmonitor.Router.Selection.{select_queue-In}
use gmonitor.ServerLoop.Keeping.{length-set_response}
use gmonitor.Routing.{Net, Routed, query_one, notify_one, post_all, dispatch, msg_query, by_router}
use gmonitor.Routing.Marks.{IsMarked, by_router-IsMarked}
use gmonitor.Routing.Dispatch.{colas, if_true, msg_query_open}

one_branch {ℓ} :
    {A : Type ℓ} (t : ℕ) (a b c d e : A)
    → is_query t ≡ true
    → a ≡ e
    → b ≡ e
    → c ≡ e
    → (if t == type_cr || t == type_int
        then a
        else if t == type_not
        then b
        else if t == type_msg
        then c
        else d)
      ≡ e
one_branch t a b c d e q h k l = ground arith

module _ {W : Type 0} (net : Net W) (raw : List ℕ) (fs : List Funcion) (servers : List Server)
    (input : GmMessage) (w : W) where
  abbrev refused : GmMessage → Routed W
  refused out = record { out = by_router gme_svc_notfound out; world = w; sent = [] }

  selected_negative :
      length (colas net raw fs servers input w) ≡ 0
      → is_negative (
          select_queue net.counts net.pid
            (get_text funcion input.m_header)
            (get_char tipo_mensaje input.m_header)
            fs
            servers)
        ≡ true
  selected_negative e =
      elim (select_queue-In net.counts net.pid (get_text funcion input.m_header)
        (get_char tipo_mensaje input.m_header) fs servers) [
          | inl none_left ↦ ap is_negative none_left.1
          | inr found ↦ absurd (omega arith)
        ]

  dispatch-refused :
      (out : GmMessage)
      → is_query (get_char tipo_mensaje input.m_header) ≡ true
      → length (colas net raw fs servers input w) ≡ 0
      → dispatch net raw fs servers input out w ≡ refused out
  unfolding dispatch query_one notify_one post_all
  dispatch-refused out t e =
      one_branch (get_char tipo_mensaje input.m_header) _ _ _ _ (refused out) t
        (if_true _ _ _ (selected_negative e)) (if_true _ _ _ (selected_negative e))
        (if_true (length (colas net raw fs servers input w) == 0) _ _ (rw e refl))

  -- If Cola lists no queue for the function and the type of a message of one of the four kinds, and
  -- the router's own queue opens, then nothing is sent, the other processes are left alone, and the
  -- answer of the router says GME_SVC_NOTFOUND.
  pub msg_query_refused :
      (out : GmMessage)
      → is_query (get_char tipo_mensaje input.m_header) ≡ true
      → net.opens ≡ true
      → length (colas net raw fs servers input w) ≡ 0
      → length out.m_header ≡ header_len
      → ((msg_query net raw fs servers input out w).sent ≡ [])
        × ((msg_query net raw fs servers input out w).world ≡ w)
        × IsMarked gme_svc_notfound (msg_query net raw fs servers input out w).out
  msg_query_refused out t opens none_left sized =
      let prepared = (set_response out (some input)).0 in
      let e =
        msg_query_open net raw fs servers input w out opens
        ∙ dispatch-refused prepared t none_left in
      (
        ap (λ (r : Routed W). r.sent) e,
        ap (λ (r : Routed W). r.world) e,
        subst (λ (r : Routed W). IsMarked gme_svc_notfound r.out) (sym e)
            (by_router-IsMarked gme_svc_notfound prepared (omega arith)
              (length-set_response out input ∙ sized)),
      )
