-- ===== src/SafStore/Names.antt =====
-- The file of a name, and what the operations on one name do to it and to the others.
use gmonitor.Base.{
  ℕ, ◌≡◌, refl, false, List, [], ◌∷◌, arith, Option, none, some, if◌then◌else◌, str_eq,
  str_eq_sound, Bool-cases, inl, inr,
}
use gmonitor.SafFile.{Saf}
use gmonitor.SafStore.{Named, with_file}

unfoldable pub file_of : List ℕ → List Named → Option Saf
file_of n [] = none
file_of n (x ∷ xs) = if str_eq x.name n then some x.file else file_of n xs

module _ {R : Type 0} (op : Saf → Saf × R) (missing : R) where
  pub with_file_same :
      (n : List ℕ) (safs : List Named) (s : Saf)
      → file_of n safs ≡ some s
      → (file_of n (with_file op missing n safs).0 ≡ some (op s).0)
        × ((with_file op missing n safs).1 ≡ (op s).1)
  unfolding with_file file_of
  with_file_same n [] s e = cc
  with_file_same n (x ∷ xs) s e = elim (Bool-cases (str_eq x.name n)) [
    | inl hit ↦ let same : x.file ≡ s = ground arith in rw hit (rw same (rw hit refl, refl))
    | inr miss ↦ rw miss (rw miss (with_file_same n xs s (ground arith)))
  ]

  pub with_file_other :
      (n k : List ℕ) (safs : List Named)
      → str_eq n k ≡ false
      → file_of k (with_file op missing n safs).0 ≡ file_of k safs
  unfolding with_file file_of
  with_file_other n k [] d = refl
  with_file_other n k (x ∷ xs) d = elim (Bool-cases (str_eq x.name n)) [
    | inl hit ↦
        let apart : str_eq x.name k ≡ false = rw (str_eq_sound x.name n hit) d in
        rw hit (rw apart refl)
    | inr miss ↦ rw (miss, with_file_other n k xs d) refl
  ]
