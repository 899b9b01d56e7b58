-- ===== src/Transac/Numbers.antt =====
-- New, Del and the messages: which transactions exist afterwards.
use gmonitor.Base.{
  codes, ℕ, zero, suc, ◌≤◌, ◌≡◌, refl, ap, ◌∙◌, sym, subst, inl, inr, true, false, not, ◌&&◌, ◌||◌,
  List, [], ◌∷◌, none, some, arith, ◌==◌, if◌then◌else◌, All-append, All-erase_at, Bool-cases,
  Option-cases, find_index, find_index-some, get_elem?, erase_at, ℤ, success, failure, str_eq,
  str_eq_refl, str_eq_sound,
}
use gmonitor.Service.{le_word}
use gmonitor.Transac.{
  Timer, Transac, has_key, exist, add, del, word4, max_trans, next_count, new, del_trans,
  exist_trans, message, settle,
}
use gmonitor.Transac.Keys.{
  number-word4, IsKey, Distinct, IsValid, exist-append, Distinct-append, Distinct-erase,
}

word4_eq : (m n : ℕ) → m ≤ max_trans → n ≤ max_trans → str_eq (word4 n) (word4 m) ≡ (n == m)
word4_eq m n hm hn = elim (Bool-cases (n == m)) [
  | inl e ↦ let same : n ≡ m = ground arith in rw same (str_eq_refl (word4 m) ∙ sym (ground arith))
  | inr e ↦ elim (Bool-cases (str_eq (word4 n) (word4 m))) [
    | inl k ↦
        let same = ap (le_word 4) (str_eq_sound (word4 n) (word4 m) k) in
        absurd (ground (arith, number-word4 n hn, number-word4 m hm))
    | inr k ↦ k ∙ sym e
  ]
]

next_count_range : (n : ℕ) → 1 ≤ n → n ≤ max_trans → (1 ≤ next_count n) × (next_count n ≤ max_trans)
unfolding next_count
next_count_range n lo hi = ground arith

exists_already :
    (n m : ℕ) (s : Transac)
    → exist (word4 n) s.timers ≡ true
    → exist_trans m s ≡ (exist_trans m s || (n == m))
unfolding exist_trans
exists_already n m s used = elim (Bool-cases (n == m)) [
  | inl e ↦
      let at_n : n ≡ m = ground arith in
      let used_m = subst (λ k. exist (word4 k) s.timers ≡ true) at_n used in ground arith
  | inr e ↦ ground arith
]

-- What New does: `n` is the number that it tries, and `m` any number.
pub record Started (n m : ℕ) (s : Transac) (r : Transac × ℕ) : Type 0 where
  pub valid : IsValid r.0
  pub in_range : (1 ≤ n) × (n ≤ max_trans)
  pub answer : r.1 ≡ (if exist_trans n s then 0 else n)
  pub exists : exist_trans m r.0 ≡ (exist_trans m s || (n == m))

-- New tries the number after the last one, within 1 to 9999: it returns it, or 0 if it is in use.
-- Then the transactions that exist are those from before and that number, and the table stays
-- well formed.
pub new_lem :
    (now seconds m : ℕ) (s : Transac)
    → IsValid s
    → m ≤ max_trans
    → Started (next_count s.trans_count) m s (new now seconds s)
unfolding new add exist_trans
new_lem now seconds m s v hm =
    let n = next_count s.trans_count in
    let (lo, hi) = next_count_range s.trans_count v.low v.high in
    let same = word4_eq m n hm hi in
    let num = number-word4 n hi in
    elim (Bool-cases (exist (word4 n) s.timers)) [
      | inl used ↦
          rw (new, add, used)
            (record {
              valid = record { keys = v.keys; distinct = v.distinct; low = lo; high = hi };
              in_range = (lo, hi);
              answer = rw (exist_trans, used) refl;
              exists = exists_already n m s used;
            })
      | inr free ↦
          rw (new, add, free)
            (record {
              valid = record {
                keys =
                    All-append IsKey s.timers (_ ∷ []) v.keys
                      ((ap word4 (sym num), omega (arith, num), omega (arith, num)), tt);
                distinct = Distinct-append s.timers _ free v.distinct;
                low = lo;
                high = hi;
              };
              in_range = (lo, hi);
              answer = rw (exist_trans, free) refl;
              exists =
                  exist-append (word4 m) s.timers _ ∙ ap (λ b. exist (word4 m) s.timers || b) same;
            })
    ]

exist-get_elem? :
    (key : List ℕ) (i : ℕ) (xs : List Timer) (x : Timer)
    → exist key xs ≡ false
    → get_elem? xs i ≡ some x
    → str_eq x.key key ≡ false
unfolding exist
exist-get_elem? key i [] x h g = cc
exist-get_elem? key zero (y ∷ xs) x h g = ground arith
exist-get_elem? key (suc i) (y ∷ xs) x h g = exist-get_elem? key i xs x (ground arith) g

erased_exist :
    (m i : ℕ) (xs : List Timer) (x : Timer)
    → Distinct xs
    → get_elem? xs i ≡ some x
    → exist (word4 m) (erase_at xs i) ≡ (exist (word4 m) xs && not (str_eq x.key (word4 m)))
unfolding exist
erased_exist m i [] x d g = refl
erased_exist m zero (y ∷ xs) x d g = elim (Bool-cases (str_eq y.key (word4 m))) [
  | inl e ↦
      let key = str_eq_sound y.key (word4 m) e in
      let gone : exist (word4 m) xs ≡ false = subst (λ k. exist k xs ≡ false) key d.0 in
      ground arith
  | inr e ↦ ground arith
]
erased_exist m (suc i) (y ∷ xs) x d g = elim (Bool-cases (str_eq y.key (word4 m))) [
  | inl e ↦
      let key = str_eq_sound y.key (word4 m) e in
      let other = exist-get_elem? (word4 m) i xs x (subst (λ k. exist k xs ≡ false) key d.0) g in
      ground arith
  | inr e ↦ ground (arith, erased_exist m i xs x d.1 g)
]

-- What Del does: `n` is the number that ends, and `m` any number.
pub record Ended (n m : ℕ) (s : Transac) (r : Transac × ℤ) : Type 0 where
  pub valid : IsValid r.0
  pub answer : r.1 ≡ (if exist_trans n s then success else failure)
  pub exists : exist_trans m r.0 ≡ (exist_trans m s && not (n == m))

find-exist :
    (key : List ℕ) (xs : List Timer) → find_index (has_key key) xs ≡ none → exist key xs ≡ false
unfolding exist
find-exist key [] e = refl
find-exist key (x ∷ xs) e = ground (arith, find-exist key xs)

found-exist :
    (key : List ℕ) (xs : List Timer) (i : ℕ)
    → find_index (has_key key) xs ≡ some i
    → exist key xs ≡ true
unfolding exist
found-exist key [] i e = cc
found-exist key (x ∷ xs) i e = elim (Bool-cases (has_key key x)) [
  | inl h ↦ ground arith
  | inr h ↦ elim (Option-cases (find_index (has_key key) xs)) [
    | inl f ↦ absurd (ground arith)
    | inr (j, f) ↦ ground (arith, found-exist key xs j f)
  ]
]

missing_stays :
    (n m : ℕ) (s : Transac)
    → exist (word4 n) s.timers ≡ false
    → exist_trans m s ≡ (exist_trans m s && not (n == m))
unfolding exist_trans
missing_stays n m s gone = elim (Bool-cases (n == m)) [
  | inl e ↦
      let at_n : n ≡ m = ground arith in
      let gone_m = subst (λ k. exist (word4 k) s.timers ≡ false) at_n gone in ground arith
  | inr e ↦ ground arith
]

-- Del ends a transaction that exists, and fails without one: then the transactions that exist are
-- those from before without its number, and the table stays well formed.
pub del_trans_lem :
    (n m : ℕ) (s : Transac)
    → IsValid s
    → n ≤ max_trans
    → m ≤ max_trans
    → Ended n m s (del_trans n s)
unfolding del_trans del exist_trans
del_trans_lem n m s v hn hm = elim (Option-cases (find_index (has_key (word4 n)) s.timers)) [
  | inl e ↦
      let gone = find-exist (word4 n) s.timers e in
      rw (del_trans, del, e)
        (record {
          valid = v;
          answer = rw (exist_trans, gone) refl;
          exists = missing_stays n m s gone;
        })
  | inr (i, e) ↦
      let there = found-exist (word4 n) s.timers i e in
      let (x, at, hit, below) = find_index-some (has_key (word4 n)) s.timers i e in
      let key = str_eq_sound x.key (word4 n) hit in
      let same : str_eq x.key (word4 m) ≡ (n == m) = rw key (word4_eq m n hm hn) in
      rw (del_trans, del, e)
        (record {
          valid = record {
            keys = All-erase_at IsKey s.timers i v.keys;
            distinct = Distinct-erase i s.timers v.distinct;
            low = v.low;
            high = v.high;
          };
          answer = rw (exist_trans, there) refl;
          exists =
              erased_exist m i s.timers x v.distinct at
              ∙ ap (λ b. exist (word4 m) s.timers && not b) same;
        })
]

del_trans-IsValid : (n : ℕ) (s : Transac) → IsValid s → IsValid (del_trans n s).0
unfolding del_trans del
del_trans-IsValid n s v = elim (Option-cases (find_index (has_key (word4 n)) s.timers)) [
  | inl e ↦ rw (del_trans, del, e) v
  | inr (i, e) ↦
      rw (del_trans, del, e)
        (record {
          keys = All-erase_at IsKey s.timers i v.keys;
          distinct = Distinct-erase i s.timers v.distinct;
          low = v.low;
          high = v.high;
        })
]

-- Every message keeps the numbers of the transactions distinct and within 1 to 9999.
pub transac_message-IsValid :
    (now : ℕ) (fn : List ℕ) (client_trans indata : ℕ) (s : Transac)
    → IsValid s
    → IsValid (message now fn client_trans indata s).transac
unfolding message settle
transac_message-IsValid now fn client_trans indata s v =
    elim (Bool-cases (str_eq fn (codes ".begintrans"))) [
      | inl e ↦ rw (message, e) (new_lem now indata 0 s v (omega arith)).valid
      | inr e ↦ elim (Bool-cases (str_eq fn (codes ".committrans"))) [
        | inl f ↦ rw (message, e, f) (del_trans-IsValid client_trans s v)
        | inr f ↦ elim (Bool-cases (str_eq fn (codes ".aborttrans"))) [
          | inl g ↦ rw (message, e, f, g) (del_trans-IsValid client_trans s v)
          | inr g ↦ rw (message, e, f, g) v
        ]
      ]
    ]
