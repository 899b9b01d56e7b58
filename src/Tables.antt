-- ===== src/Tables.antt =====
-- CGMTdb (system/shared/gmontdb.cc, gmontdb.h): the tables of servers and functions in shared
-- memory. A table is the list of its entries, of which one without a name is free; a char array
-- is the C string in it. Access to the shared memory is taken to succeed.
pub mod Listing
pub mod Keys
pub mod Counting
pub mod Subscriptions
pub mod Removal
pub mod Queues
use gmonitor.Base.{
  ℕ, ◌+◌, Bool, true, false, ◌&&◌, ◌||◌, not, List, [], ◌∷◌, ◌++◌, Option, none, some, length, take,
  ◌==◌, ltb, if◌then◌else◌, set, get_elem?, replicate, find_index, ℤ, pos, negsuc, success, failure,
  str_eq, inc_ℤ, dec_ℤ, is_positive,
}

abbrev pub max_server_instances : ℕ
max_server_instances = 255

-- CGMTdb::SH_SERVER; the three arrays hold max_server_instances values each.
pub record Server : Type 0 where
  pub nombre : List ℕ
  pub descripcion : List ℕ
  pub modo : ℕ
  pub path : List ℕ
  pub cola : List ℤ
  pub qid : List ℤ
  pub pid : List ℤ

-- CGMTdb::SH_FUNCION
pub record Funcion : Type 0 where
  pub nombre : List ℕ
  pub descripcion : List ℕ
  pub tipo_mensaje : ℕ
  pub server : List ℕ
  pub suscripciones : ℤ

-- CGMTdb::CSrvTab without its queues, and CGMTdb::CFcnTab.
pub record SrvTab : Type 0 where
  pub nombre : List ℕ
  pub descripcion : List ℕ
  pub modo : ℕ
  pub path : List ℕ

pub record FcnTab : Type 0 where
  pub nombre : List ℕ
  pub descripcion : List ℕ
  pub tipo_mensaje : ℕ
  pub server : List ℕ

-- `strlen(nombre)` as a condition.
abbrev pub is_used : List ℕ → Bool
is_used nombre = not (length nombre == 0)

abbrev pub is_server : List ℕ → Server → Bool
is_server nombre x = is_used x.nombre && str_eq nombre x.nombre

-- Server(CSrvTab&): the entry whose data it copies.
unfoldable pub server : List ℕ → List Server → Option SrvTab
server nombre [] = none
server nombre (x ∷ xs) =
    if is_server nombre x
    then some
        (record { nombre = nombre; descripcion = x.descripcion; modo = x.modo; path = x.path })
    else server nombre xs

-- The queues of an entry of the server table.
unfoldable pub open_queues : List ℤ → List ℤ
open_queues [] = []
open_queues (c ∷ cs) = if is_positive c then c ∷ open_queues cs else open_queues cs

unfoldable pub queues_of : List ℕ → List Server → List ℤ
unfolding open_queues
queues_of nombre [] = []
queues_of nombre (x ∷ xs) =
    if is_server nombre x then open_queues x.cola ++ queues_of nombre xs else queues_of nombre xs

abbrev pub serves : List ℕ → ℕ → Funcion → Bool
serves servicio tipo_mensaje f =
    is_used f.nombre && (str_eq f.nombre servicio && f.tipo_mensaje == tipo_mensaje)

-- Cola(servicio, tipo_mensaje)
unfoldable pub cola : List ℕ → ℕ → List Funcion → List Server → List ℤ
unfolding queues_of
cola servicio tipo_mensaje [] servers = []
cola servicio tipo_mensaje (f ∷ fs) servers =
    if serves servicio tipo_mensaje f
    then queues_of f.server servers ++ cola servicio tipo_mensaje fs servers
    else cola servicio tipo_mensaje fs servers

-- `indice < 0 || indice > 255`
abbrev pub bad_index : ℤ → Bool
bad_index (negsuc _) = true
bad_index (pos n) = ltb 255 n

-- AddSrv and RemoveSrv: the values for the arrays of the first server of that name. The result is
-- none where the code writes behind the arrays.
unfoldable pub register : List ℕ → ℤ → ℤ → ℤ → ℤ → List Server → Option (List Server × ℤ)
register nombre pid cola qid indice servers =
    if bad_index indice
    then some (servers, failure)
    else elim (find_index (is_server nombre) servers) [
      | none ↦ some (servers, failure)
      | some i ↦ elim (get_elem? servers i) [
        | none ↦ some (servers, failure)
        | some x ↦ elim indice [
          | negsuc _ ↦ none
          | pos k ↦
              if ltb k max_server_instances
              then some (
                set servers i (record x {
                  cola = set x.cola k cola;
                  qid = set x.qid k qid;
                  pid = set x.pid k pid;
                }),
                success,
              )
              else none
        ]
      ]
    ]

unfoldable pub add_srv : List ℕ → ℤ → ℤ → ℤ → ℤ → List Server → Option (List Server × ℤ)
unfolding register
add_srv nombre pid cola qid indice servers = register nombre pid cola qid indice servers

unfoldable pub remove_srv : List ℕ → ℤ → List Server → Option (List Server × ℤ)
unfolding register
remove_srv nombre indice servers = register nombre (pos 0) (pos 0) (pos 0) indice servers

-- Add(CSrvTab): an entry of that name keeps its queues, and a new one has none.
unfoldable pub add_server : SrvTab → List Server → List Server × ℤ
add_server t servers = elim (find_index (is_server t.nombre) servers) [
  | some i ↦ elim (get_elem? servers i) [
    | none ↦ (servers, failure)
    | some x ↦ (
      set servers i (record x {
        nombre = take 32 t.nombre;
        descripcion = take 255 t.descripcion;
        modo = t.modo;
        path = take 255 t.path;
      }),
      success,
    )
  ]
  | none ↦ elim (find_index (λ x. not (is_used x.nombre)) servers) [
    | none ↦ (servers, failure)
    | some i ↦ (
      set servers i (record {
        nombre = take 32 t.nombre;
        descripcion = take 255 t.descripcion;
        modo = t.modo;
        path = take 255 t.path;
        cola = replicate max_server_instances (pos 0);
        qid = replicate max_server_instances (pos 0);
        pid = replicate max_server_instances (pos 0);
      }),
      success,
    )
  ]
]

-- The entry of a service, a type and a server.
abbrev pub matches : FcnTab → Funcion → Bool
matches t f =
    is_used f.nombre
    && (str_eq t.nombre f.nombre && (t.tipo_mensaje == f.tipo_mensaje && str_eq t.server f.server))

abbrev pub new_funcion : FcnTab → Funcion
new_funcion t = record {
  nombre = take 32 t.nombre;
  descripcion = take 255 t.descripcion;
  tipo_mensaje = t.tipo_mensaje;
  server = take 32 t.server;
  suscripciones = pos 1;
}

-- Add(CFcnTab)
unfoldable pub add_fcn : FcnTab → List Funcion → List Funcion × ℤ
add_fcn t fs = elim (find_index (matches t) fs) [
  | some i ↦ elim (get_elem? fs i) [
    | none ↦ (fs, failure)
    | some f ↦ (set fs i (record f { suscripciones = inc_ℤ f.suscripciones }), success)
  ]
  | none ↦ elim (find_index (λ f. not (is_used f.nombre)) fs) [
    | none ↦ (fs, failure)
    | some i ↦ (set fs i (new_funcion t), success)
  ]
]

-- An entry with one subscription less; the last one clears the name.
abbrev pub unsubscribed : Funcion → Funcion
unsubscribed f =
    let left = dec_ℤ f.suscripciones in
    record f { nombre = if is_positive left then f.nombre else []; suscripciones = left }

-- Remove(CFcnTab)
unfoldable pub remove_fcn : FcnTab → List Funcion → List Funcion × ℤ
remove_fcn t fs = elim (find_index (matches t) fs) [
  | some i ↦ elim (get_elem? fs i) [
    | none ↦ (fs, failure)
    | some f ↦ (set fs i (unsubscribed f), success)
  ]
  | none ↦ (fs, failure)
]

abbrev pub fcn_tab : List ℕ → ℕ → List ℕ → FcnTab
fcn_tab servicio tipo_mensaje nombre = record {
  nombre = servicio;
  descripcion = [];
  tipo_mensaje = tipo_mensaje;
  server = nombre;
}

-- AddSvc and RemoveSvc
unfoldable pub add_svc : List ℕ → ℕ → List ℕ → List Funcion → List Funcion × ℤ
unfolding add_fcn
add_svc servicio tipo_mensaje nombre = add_fcn (fcn_tab servicio tipo_mensaje nombre)

unfoldable pub remove_svc : List ℕ → ℕ → List ℕ → List Funcion → List Funcion × ℤ
unfolding remove_fcn
remove_svc servicio tipo_mensaje nombre = remove_fcn (fcn_tab servicio tipo_mensaje nombre)
