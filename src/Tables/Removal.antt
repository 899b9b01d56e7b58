-- ===== src/Tables/Removal.antt =====
-- RemoveSvc: one subscription less, and a free entry behind the last one.
use gmonitor.Base.{
  ℕ, zero, suc, ◌≡◌, refl, ap, ◌∙◌, sym, subst, inl, inr, ◌⊎◌, true, false, List, [], ◌∷◌, some,
  arith, if◌then◌else◌, All, All-set, All-get_elem?, Bool-cases, Option-cases, get_elem?, set,
  find_index, find_index-some, find_index-none, find_index_first, take, ℤ, pos, success, failure,
  dec_ℤ, is_positive,
}
use gmonitor.Tables.{Funcion, FcnTab, is_used, matches, remove_fcn}
use gmonitor.Tables.Keys.{same_key, tab_of, matches_same, matches-same_key, matches_cleared}
use gmonitor.Tables.Counting.{
  subscriptions, Distinct, is_subscribed, IsValid, subscriptions_none, subscriptions-set,
  subscriptions-found, Distinct-keeps,
}
use gmonitor.Tables.Subscriptions.{subscriptions_same, last_one}

same_key-tab_of : (t : FcnTab) (f : Funcion) → matches t f ≡ true → same_key t (tab_of f) ≡ true
same_key-tab_of t f m = ground arith

-- Behind the first entry of a key there is no other.
rest_missed :
    (t : FcnTab) (f : Funcion) (gs : List Funcion)
    → matches t f ≡ true
    → All (λ g. matches (tab_of f) g ≡ false) gs
    → All (λ g. matches t g ≡ false) gs
rest_missed t f [] m a = tt
rest_missed t f (g ∷ gs) m a =
    (sym (matches_same t (tab_of f) g (same_key-tab_of t f m)) ∙ a.0, rest_missed t f gs m a.1)

subscriptions-set_cleared :
    (t u : FcnTab) (fs : List Funcion) (i : ℕ) (f y : Funcion)
    → Distinct fs
    → All (λ g. matches t g ≡ false) (take i fs)
    → get_elem? fs i ≡ some f
    → matches t f ≡ true
    → is_used y.nombre ≡ false
    → subscriptions u (set fs i y) ≡ (if same_key t u then pos 0 else subscriptions u fs)
subscriptions-set_cleared t u [] i f y d before g m cleared = cc
subscriptions-set_cleared t u (x ∷ fs) zero f y d before g m cleared =
    let at : x ≡ f = ground arith in
    let hit : matches u x ≡ same_key t u = rw at (matches-same_key t u f m) in
    let gone : matches u y ≡ false = rw cleared refl in
    let missed =
      rest_missed t f fs m (subst (λ z. All (λ g. matches (tab_of z) g ≡ false) fs) at d.0) in
    rw (gone, hit)
      (elim (Bool-cases (same_key t u)) [
        | inl k ↦ rw k (subscriptions_same t u fs k ∙ subscriptions_none t fs missed)
        | inr k ↦ rw k refl
      ])
subscriptions-set_cleared t u (x ∷ fs) (suc i) f y d before g m cleared =
    let rest = subscriptions-set_cleared t u fs i f y d.1 before.1 g m cleared in
    elim (Bool-cases (same_key t u)) [
      | inl k ↦ rw (matches_same t u x k, before.0, k) (rest ∙ rw k refl)
      | inr k ↦
          rw k (elim (Bool-cases (matches u x)) [
            | inl n ↦ rw n refl
            | inr n ↦ rw n (rest ∙ rw k refl)
          ])
    ]

-- What Remove does: `t` is the entry that it is for, and `u` any entry. It fails only without
-- that entry, and then changes nothing.
pub record Unsubscribed (t u : FcnTab) (fs : List Funcion) (r : List Funcion × ℤ) : Type 0 where
  pub valid : IsValid r.0
  pub counts :
      ((r.1 ≡ success)
        × (subscriptions u r.0
            ≡ (if same_key t u then dec_ℤ (subscriptions u fs) else subscriptions u fs)))
      ⊎ ((r ≡ (fs, failure)) × (subscriptions t fs ≡ pos 0))

found_used : (t : FcnTab) (f : Funcion) → matches t f ≡ true → is_used f.nombre ≡ true
found_used t f m = ground arith

-- An entry that has no name.
abbrev nameless : Funcion → Funcion
nameless f = record f { nombre = []; suscripciones = dec_ℤ f.suscripciones }

-- Remove takes one from the subscriptions of its service, type and server, down to 0 with the
-- last one, and changes no other's, or fails without that entry. The table stays well formed.
pub remove_fcn_lem :
    (t u : FcnTab) (fs : List Funcion) → IsValid fs → Unsubscribed t u fs (remove_fcn t fs)
unfolding remove_fcn
remove_fcn_lem t u fs v = elim (Option-cases (find_index (matches t) fs)) [
  | inl e ↦
      rw (remove_fcn, e)
        (record {
          valid = v;
          counts = inr (refl, subscriptions_none t fs (find_index-none (matches t) fs e));
        })
  | inr (i, e) ↦
      let (f, at, hit, below) = find_index-some (matches t) fs i e in
      let before = find_index_first (matches t) fs i e in
      let used = found_used t f hit in
      let has_some : is_positive f.suscripciones ≡ true =
        ground (arith, All-get_elem? (λ g. is_subscribed g ≡ true) fs i f v.subscribed at) in
      let total = λ (k : same_key t u ≡ true).
        subscriptions_same t u fs k ∙ subscriptions-found t fs i f before at hit in
      elim (Bool-cases (is_positive (dec_ℤ f.suscripciones))) [
        | inl left ↦
            let y = record f { suscripciones = dec_ℤ f.suscripciones } in
            rw (remove_fcn, e, at, left)
              (record {
                valid = record {
                  distinct = Distinct-keeps fs i f y at (λ w h. h) (λ g h. h) v.distinct;
                  subscribed =
                      All-set (λ g. is_subscribed g ≡ true) fs i y (rw (used, left) refl)
                        v.subscribed;
                };
                counts = inl (
                  refl,
                  subscriptions-set t u fs i f y before at hit refl
                      ∙ (elim (Bool-cases (same_key t u)) [
                        | inl k ↦ rw k (ap dec_ℤ (sym (total k)))
                        | inr k ↦ rw k refl
                      ]),
                );
              })
        | inr left ↦
            let y = nameless f in
            let none_left = last_one f.suscripciones has_some left in
            rw (remove_fcn, e, at, left)
              (record {
                valid = record {
                  distinct =
                      Distinct-keeps fs i f y at (λ w h. refl)
                        (λ g h. matches_cleared (tab_of y) g refl) v.distinct;
                  subscribed = All-set (λ g. is_subscribed g ≡ true) fs i y refl v.subscribed;
                };
                counts = inl (
                  refl,
                  subscriptions-set_cleared t u fs i f y v.distinct before at hit refl
                      ∙ (elim (Bool-cases (same_key t u)) [
                        | inl k ↦ rw k (sym (ap dec_ℤ (total k) ∙ none_left))
                        | inr k ↦ rw k refl
                      ]),
                );
              })
      ]
]
