-- ===== src/Tables/Listing.antt =====
-- ServerList and ServicioList of CGMTdb (system/shared/gmontdb.cc).
use gmonitor.Base.{
  ℕ, ◌&&◌, ◌||◌, List, [], ◌∷◌, none, some, length, ◌==◌, if◌then◌else◌, ℤ, str_eq, is_positive,
}
use gmonitor.Tables.{Server, Funcion, SrvTab, FcnTab, is_used, server}

-- The instances of ServerList: the values of a queue that is open and has a process.
unfoldable pub instances : List ℤ → List ℤ → List ℤ → List (ℤ × ℤ × ℤ)
instances (c ∷ cs) (q ∷ qs) (p ∷ ps) =
    if is_positive c && is_positive p then (c, q, p) ∷ instances cs qs ps else instances cs qs ps
instances _ _ _ = []

-- ServerList without a service: every server.
unfoldable pub all_servers : List Server → List (SrvTab × List (ℤ × ℤ × ℤ))
unfolding instances
all_servers [] = []
all_servers (x ∷ xs) =
    if is_used x.nombre
    then (
      record { nombre = x.nombre; descripcion = x.descripcion; modo = x.modo; path = x.path },
      instances x.cola x.qid x.pid,
    )
      ∷ all_servers xs
    else all_servers xs

-- ServerList of a service, whose entries have no queues; the type 0 stands for any.
unfoldable pub servers_of :
    List ℕ → ℕ → List Funcion → List Server → List (SrvTab × List (ℤ × ℤ × ℤ))
unfolding server
servers_of servicio tipo_mensaje [] servers = []
servers_of servicio tipo_mensaje (f ∷ fs) servers =
    let rest = servers_of servicio tipo_mensaje fs servers in
    if str_eq f.nombre servicio && (f.tipo_mensaje == tipo_mensaje || tipo_mensaje == 0)
    then (elim (server f.server servers) [ none ↦ rest | some t ↦ (t, []) ∷ rest ])
    else rest

unfoldable pub server_list :
    List ℕ → ℕ → List Funcion → List Server → List (SrvTab × List (ℤ × ℤ × ℤ))
unfolding all_servers servers_of
server_list servicio tipo_mensaje fs servers =
    if length servicio == 0
    then all_servers servers
    else servers_of servicio tipo_mensaje fs servers

-- ServicioList, which ignores its parameter.
unfoldable pub servicio_list : List ℕ → List Funcion → List FcnTab
servicio_list nombre [] = []
servicio_list nombre (f ∷ fs) =
    if is_used f.nombre
    then record {
      nombre = f.nombre;
      descripcion = f.descripcion;
      tipo_mensaje = f.tipo_mensaje;
      server = f.server;
    }
      ∷ servicio_list nombre fs
    else servicio_list nombre fs
