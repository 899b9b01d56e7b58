-- ===== src/Tables/Counting.antt =====
-- The subscriptions that the function table holds, and entries that stay distinct.
use gmonitor.Base.{
  ℕ, zero, suc, ◌≡◌, refl, ◌∙◌, subst, inl, inr, Bool, true, false, ◌||◌, not, List, [], ◌∷◌, some,
  arith, if◌then◌else◌, All, All-set, All-get_elem?, Bool-cases, get_elem?, set, take, ℤ, pos,
  is_positive,
}
use gmonitor.Tables.{Funcion, FcnTab, is_used, matches}
use gmonitor.Tables.Keys.{same_key, tab_of, matches_same, matches-same_key}

-- The subscriptions of an entry, 0 without one.
abbrev pub subscriptions : FcnTab → List Funcion → ℤ
subscriptions t [] = pos 0
subscriptions t (f ∷ fs) = if matches t f then f.suscripciones else subscriptions t fs

abbrev pub Distinct : List Funcion → Type 0
Distinct [] = Unit {0}
Distinct (f ∷ fs) = All (λ g. matches (tab_of f) g ≡ false) fs × Distinct fs

-- An entry in use has a subscription.
abbrev pub is_subscribed : Funcion → Bool
is_subscribed f = not (is_used f.nombre) || is_positive f.suscripciones

-- One entry for a key, with at least one subscription.
pub record IsValid (fs : List Funcion) : Type 0 where
  pub distinct : Distinct fs
  pub subscribed : All (λ f. is_subscribed f ≡ true) fs

pub subscriptions_none :
    (t : FcnTab) (fs : List Funcion)
    → All (λ f. matches t f ≡ false) fs
    → subscriptions t fs ≡ pos 0
subscriptions_none t [] h = refl
subscriptions_none t (f ∷ fs) h = rw h.0 (subscriptions_none t fs h.1)

-- The first entry of a key with other subscriptions.
pub subscriptions-set :
    (t u : FcnTab) (fs : List Funcion) (i : ℕ) (f y : Funcion)
    → All (λ g. matches t g ≡ false) (take i fs)
    → get_elem? fs i ≡ some f
    → matches t f ≡ true
    → matches u y ≡ matches u f
    → subscriptions u (set fs i y) ≡ (if same_key t u then y.suscripciones else subscriptions u fs)
subscriptions-set t u [] i f y before g m same = cc
subscriptions-set t u (x ∷ fs) zero f y before g m same =
    let at : x ≡ f = ground arith in
    rw (same, at, matches-same_key t u f m)
      (elim (Bool-cases (same_key t u)) [ inl k ↦ rw k refl | inr k ↦ rw k refl ])
subscriptions-set t u (x ∷ fs) (suc i) f y before g m same =
    let rest = subscriptions-set t u fs i f y before.1 g m same in
    elim (Bool-cases (same_key t u)) [
      | inl k ↦ rw (matches_same t u x k, before.0, k) (rest ∙ rw k refl)
      | inr k ↦
          rw k (elim (Bool-cases (matches u x)) [
            | inl n ↦ rw n refl
            | inr n ↦ rw n (rest ∙ rw k refl)
          ])
    ]

pub subscriptions-found :
    (t : FcnTab) (fs : List Funcion) (i : ℕ) (f : Funcion)
    → All (λ g. matches t g ≡ false) (take i fs)
    → get_elem? fs i ≡ some f
    → matches t f ≡ true
    → subscriptions t fs ≡ f.suscripciones
subscriptions-found t [] i f before g m = cc
subscriptions-found t (x ∷ fs) zero f before g m = ground arith
subscriptions-found t (x ∷ fs) (suc i) f before g m =
    rw before.0 (subscriptions-found t fs i f before.1 g m)

-- An entry that is filled in place of a free one.
pub subscriptions-set_free :
    (t u : FcnTab) (fs : List Funcion) (i : ℕ) (f y : Funcion)
    → All (λ g. matches t g ≡ false) fs
    → get_elem? fs i ≡ some f
    → is_used f.nombre ≡ false
    → matches u y ≡ same_key t u
    → subscriptions u (set fs i y) ≡ (if same_key t u then y.suscripciones else subscriptions u fs)
subscriptions-set_free t u [] i f y missing g free m = cc
subscriptions-set_free t u (x ∷ fs) zero f y missing g free m =
    let at : x ≡ f = ground arith in
    let not_f : matches u f ≡ false = rw free refl in rw (m, at, not_f) refl
subscriptions-set_free t u (x ∷ fs) (suc i) f y missing g free m =
    let rest = subscriptions-set_free t u fs i f y missing.1 g free m in
    elim (Bool-cases (same_key t u)) [
      | inl k ↦ rw (matches_same t u x k, missing.0, k) (rest ∙ rw k refl)
      | inr k ↦
          rw k (elim (Bool-cases (matches u x)) [
            | inl n ↦ rw n refl
            | inr n ↦ rw n (rest ∙ rw k refl)
          ])
    ]

-- An entry that is changed to one that is found, and finds others, no more than before.
pub All-keeps :
    (u : FcnTab) (fs : List Funcion) (i : ℕ) (f y : Funcion)
    → get_elem? fs i ≡ some f
    → ((v : FcnTab) → matches v f ≡ false → matches v y ≡ false)
    → All (λ g. matches u g ≡ false) fs
    → All (λ g. matches u g ≡ false) (set fs i y)
All-keeps u fs i f y g from a =
    All-set (λ h. matches u h ≡ false) fs i y
      (from u (All-get_elem? (λ h. matches u h ≡ false) fs i f a g)) a

pub finds_less :
    (x y : Funcion) (gs : List Funcion)
    → ((h : Funcion) → matches (tab_of x) h ≡ false → matches (tab_of y) h ≡ false)
    → All (λ h. matches (tab_of x) h ≡ false) gs
    → All (λ h. matches (tab_of y) h ≡ false) gs
finds_less x y [] imp a = tt
finds_less x y (h ∷ gs) imp a = (imp h a.0, finds_less x y gs imp a.1)

pub Distinct-keeps :
    (fs : List Funcion) (i : ℕ) (f y : Funcion)
    → get_elem? fs i ≡ some f
    → ((v : FcnTab) → matches v f ≡ false → matches v y ≡ false)
    → ((g : Funcion) → matches (tab_of f) g ≡ false → matches (tab_of y) g ≡ false)
    → Distinct fs
    → Distinct (set fs i y)
Distinct-keeps [] i f y g from to d = d
Distinct-keeps (x ∷ fs) zero f y g from to d =
    let at : x ≡ f = ground arith in
    (finds_less x y fs (λ h k. to h (subst (λ z. matches (tab_of z) h ≡ false) at k)) d.0, d.1)
Distinct-keeps (x ∷ fs) (suc i) f y g from to d =
    (All-keeps (tab_of x) fs i f y g from d.0, Distinct-keeps fs i f y g from to d.1)

pub Distinct-new :
    (fs : List Funcion) (i : ℕ) (y : Funcion)
    → All (λ g. matches (tab_of y) g ≡ false) fs
    → All (λ g. matches (tab_of g) y ≡ false) fs
    → Distinct fs
    → Distinct (set fs i y)
Distinct-new [] i y to from d = d
Distinct-new (x ∷ fs) zero y to from d = (to.1, d.1)
Distinct-new (x ∷ fs) (suc i) y to from d = (
  All-set (λ h. matches (tab_of x) h ≡ false) fs i y from.0 d.0,
  Distinct-new fs i y to.1 from.1 d.1,
)
