-- ===== src/Tables/Keys.antt =====
-- The key of a function entry: its service, its type and its server.
use gmonitor.Base.{
  ℕ, zero, suc, ◌≡◌, refl, ap, ◌∙◌, sym, inl, inr, Bool, true, false, ◌&&◌, List, [], ◌∷◌, arith,
  ◌==◌, Bool-cases, length, ◌≤◌, take, str_eq, str_eq_sound, str_eq_comm,
}
use gmonitor.Tables.{Funcion, FcnTab, is_used, matches}

-- Two requests for one entry.
abbrev pub same_key : FcnTab → FcnTab → Bool
same_key t u =
    str_eq t.nombre u.nombre && (t.tipo_mensaje == u.tipo_mensaje && str_eq t.server u.server)

-- The key of an entry.
abbrev pub tab_of : Funcion → FcnTab
tab_of f = record {
  nombre = f.nombre;
  descripcion = f.descripcion;
  tipo_mensaje = f.tipo_mensaje;
  server = f.server;
}

record Equal (t u : FcnTab) : Type 0 where
  pub nombre : t.nombre ≡ u.nombre
  pub tipo_mensaje : t.tipo_mensaje ≡ u.tipo_mensaje
  pub server : t.server ≡ u.server

same_key-Equal : (t u : FcnTab) → same_key t u ≡ true → Equal t u
same_key-Equal t u h = record {
  nombre = str_eq_sound t.nombre u.nombre (ground arith);
  tipo_mensaje = ground arith;
  server = str_eq_sound t.server u.server (ground arith);
}

-- An entry of one key is looked for under it.
pub matches_same : (t u : FcnTab) (g : Funcion) → same_key t u ≡ true → matches u g ≡ matches t g
matches_same t u g h = let e = same_key-Equal t u h in rw (e.nombre, e.tipo_mensaje, e.server) refl

-- An entry that a request finds is found by the requests with its key.
pub matches-same_key :
    (t u : FcnTab) (f : Funcion) → matches t f ≡ true → matches u f ≡ same_key t u
matches-same_key t u f h =
    let e : Equal t (tab_of f) = record {
      nombre = str_eq_sound t.nombre f.nombre (ground arith);
      tipo_mensaje = ground arith;
      server = str_eq_sound t.server f.server (ground arith);
    } in
    let used : is_used f.nombre ≡ true = ground arith in
    rw (e.nombre, e.tipo_mensaje, e.server)
      (ground (arith, str_eq_comm u.nombre f.nombre, str_eq_comm u.server f.server))

pub matches_cleared : (t : FcnTab) (g : Funcion) → t.nombre ≡ [] → matches t g ≡ false
matches_cleared t g h = elim (Bool-cases (matches t g)) [
  | inl m ↦
      let name : t.nombre ≡ g.nombre = str_eq_sound t.nombre g.nombre (ground arith) in
      let no_name : g.nombre ≡ [] = sym name ∙ h in
      let unused : is_used g.nombre ≡ false = rw no_name refl in absurd (ground arith)
  | inr m ↦ m
]

pub take_short : (n : ℕ) (xs : List ℕ) → length xs ≤ n → take n xs ≡ xs
take_short zero [] h = refl
take_short zero (x ∷ xs) h = elim h [ ]
take_short (suc n) [] h = refl
take_short (suc n) (x ∷ xs) h = ap (◌∷◌ x) (take_short n xs (omega arith))
