-- ===== src/Tables/Subscriptions.antt =====
-- The subscriptions of the function table: AddSvc adds one to those of its service, type and
-- server, and RemoveSvc takes one away.
use gmonitor.Base.{
  str_eq_comm, ℕ, zero, suc, ◌≤◌, ◌≡◌, refl, ap, ◌∙◌, sym, inl, inr, ◌⊎◌, true, false, not, List,
  [], ◌∷◌, arith, if◌then◌else◌, All, All-set, All-get_elem?, Bool-cases, Option-cases, length,
  find_index, find_index-some, find_index-none, find_index_first, ℤ, pos, negsuc, success, failure,
  inc_ℤ, dec_ℤ, is_positive,
}
use gmonitor.Tables.{Funcion, FcnTab, is_used, matches, add_fcn, new_funcion}
use gmonitor.Tables.Keys.{same_key, tab_of, matches_same, matches_cleared, take_short}
use gmonitor.Tables.Counting.{
  subscriptions, is_subscribed, IsValid, subscriptions_none, subscriptions-set, subscriptions-found,
  subscriptions-set_free, Distinct-keeps, Distinct-new,
}

-- A name that is not empty and, like the server, fits the field.
pub record IsNamed (t : FcnTab) : Type 0 where
  pub named : is_used t.nombre ≡ true
  pub short : length t.nombre ≤ 32
  pub server_short : length t.server ≤ 32

unused_nil : (xs : List ℕ) → is_used xs ≡ false → xs ≡ []
unused_nil [] h = refl
unused_nil (x ∷ xs) h = absurd (ground arith)

-- The entries that Add finds nothing among do not find the new one.
new_missed :
    (t : FcnTab) (fs : List Funcion)
    → IsNamed t
    → All (λ g. matches t g ≡ false) fs
    → All (λ g. matches (tab_of g) (new_funcion t) ≡ false) fs
new_missed t [] n a = tt
new_missed t (g ∷ fs) n a =
    let name = take_short 32 t.nombre n.short in
    let host = take_short 32 t.server n.server_short in
    (
      elim (Bool-cases (is_used g.nombre)) [
        | inl used ↦
            rw (name, host)
              (ground (arith, a.0, str_eq_comm t.nombre g.nombre, str_eq_comm t.server g.server))
        | inr unused ↦ matches_cleared (tab_of g) (new_funcion t) (unused_nil g.nombre unused)
      ],
      new_missed t fs n a.1,
    )

new_finds :
    (t : FcnTab) (fs : List Funcion)
    → IsNamed t
    → All (λ g. matches t g ≡ false) fs
    → All (λ g. matches (tab_of (new_funcion t)) g ≡ false) fs
new_finds t [] n a = tt
new_finds t (g ∷ fs) n a =
    let name = take_short 32 t.nombre n.short in
    let host = take_short 32 t.server n.server_short in (rw (name, host) a.0, new_finds t fs n a.1)

pub subscriptions_same :
    (t u : FcnTab) (fs : List Funcion)
    → same_key t u ≡ true
    → subscriptions u fs ≡ subscriptions t fs
subscriptions_same t u [] k = refl
subscriptions_same t u (f ∷ fs) k = rw (matches_same t u f k) (elim (Bool-cases (matches t f)) [
  | inl m ↦ rw m refl
  | inr m ↦ rw m (subscriptions_same t u fs k)
])

inc_positive : (z : ℤ) → is_positive z ≡ true → is_positive (inc_ℤ z) ≡ true
inc_positive (pos n) h = ground arith
inc_positive (negsuc n) h = absurd (ground arith)

-- Without subscriptions left after the first is taken, there was one.
pub last_one : (z : ℤ) → is_positive z ≡ true → is_positive (dec_ℤ z) ≡ false → dec_ℤ z ≡ pos 0
last_one (pos zero) h l = absurd (ground arith)
last_one (pos (suc zero)) h l = refl
last_one (pos (suc (suc n))) h l = absurd (ground arith)
last_one (negsuc n) h l = absurd (ground arith)

-- What Add does: `t` is the entry that it is for, and `u` any entry. It fails only if the table
-- has neither that entry nor a free one, and then changes nothing.
pub record Subscribed (t u : FcnTab) (fs : List Funcion) (r : List Funcion × ℤ) : Type 0 where
  pub valid : IsValid r.0
  pub counts :
      ((r.1 ≡ success)
        × (subscriptions u r.0
            ≡ (if same_key t u then inc_ℤ (subscriptions u fs) else subscriptions u fs)))
      ⊎ ((r ≡ (fs, failure)) × All (λ f. is_used f.nombre ≡ true) fs × (subscriptions t fs ≡ pos 0))

still_subscribed :
    (f : Funcion)
    → is_subscribed f ≡ true
    → is_subscribed (record f { suscripciones = inc_ℤ f.suscripciones }) ≡ true
still_subscribed f h = elim (Bool-cases (is_used f.nombre)) [
  | inl used ↦ let more = inc_positive f.suscripciones (ground arith) in ground arith
  | inr unused ↦ ground arith
]

matches-new_funcion : (t u : FcnTab) → IsNamed t → matches u (new_funcion t) ≡ same_key t u
matches-new_funcion t u n =
    rw (take_short 32 t.nombre n.short, take_short 32 t.server n.server_short, n.named)
      (ground (arith, str_eq_comm t.nombre u.nombre, str_eq_comm t.server u.server))

all_used :
    (fs : List Funcion)
    → All (λ f. not (is_used f.nombre) ≡ false) fs
    → All (λ f. is_used f.nombre ≡ true) fs
all_used [] a = tt
all_used (f ∷ fs) a = (ground arith, all_used fs a.1)

-- Add of an entry with a name of 1 to 32 bytes, and a server of at most 32, adds one to the
-- subscriptions of its service, type and server and changes no other's, or fails on a full table
-- without that entry. The table stays well formed.
pub add_fcn_lem :
    (t u : FcnTab) (fs : List Funcion) → IsValid fs → IsNamed t → Subscribed t u fs (add_fcn t fs)
unfolding add_fcn
add_fcn_lem t u fs v n = elim (Option-cases (find_index (matches t) fs)) [
  | inr (i, e) ↦
      let (f, at, hit, below) = find_index-some (matches t) fs i e in
      let before = find_index_first (matches t) fs i e in
      let y = record f { suscripciones = inc_ℤ f.suscripciones } in
      rw (add_fcn, e, at)
        (record {
          valid = record {
            distinct = Distinct-keeps fs i f y at (λ w h. h) (λ g h. h) v.distinct;
            subscribed =
                All-set (λ g. is_subscribed g ≡ true) fs i y
                  (still_subscribed f
                    (All-get_elem? (λ g. is_subscribed g ≡ true) fs i f v.subscribed at))
                  v.subscribed;
          };
          counts = inl (
            refl,
            subscriptions-set t u fs i f y before at hit refl ∙ (elim (Bool-cases (same_key t u)) [
              | inl k ↦ rw k (
                  ap inc_ℤ (
                    sym (subscriptions_same t u fs k ∙ subscriptions-found t fs i f before at hit)))
              | inr k ↦ rw k refl
            ]),
          );
        })
  | inl e ↦
      let missing = find_index-none (matches t) fs e in
      elim (Option-cases (find_index (λ f. not (is_used f.nombre)) fs)) [
        | inl full ↦
            rw (add_fcn, e, full)
              (record {
                valid = v;
                counts = inr (
                  refl,
                  all_used fs (find_index-none (λ f. not (is_used f.nombre)) fs full),
                  subscriptions_none t fs missing,
                );
              })
        | inr (i, free) ↦
            let (f, at, hit, below) = find_index-some (λ f. not (is_used f.nombre)) fs i free in
            rw (add_fcn, e, free)
              (record {
                valid = record {
                  distinct =
                      Distinct-new fs i (new_funcion t) (new_finds t fs n missing)
                        (new_missed t fs n missing) v.distinct;
                  subscribed =
                      All-set (λ g. is_subscribed g ≡ true) fs i (new_funcion t) (ground arith)
                        v.subscribed;
                };
                counts = inl (
                  refl,
                  subscriptions-set_free t u fs i f (new_funcion t) missing at (ground arith)
                        (matches-new_funcion t u n)
                      ∙ (elim (Bool-cases (same_key t u)) [
                        | inl k ↦ rw k (
                            ap inc_ℤ
                              (sym (subscriptions_same t u fs k ∙ subscriptions_none t fs missing)))
                        | inr k ↦ rw k refl
                      ]),
                );
              })
      ]
]
