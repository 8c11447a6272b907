-- ===== src/Notifications/Gateway.antt =====
-- The channel in real time: src/modules/notifications/interfaces/notifications.gateway.ts and
-- application/salas.ts. The rooms of the socket server are a parameter. The bucket of a socket counts
-- in the part of a token that one millisecond brings, of which 3000 make a token: the code counts in
-- fractions of a token, which floating-point numbers round. `entorno k` is what happens before the
-- k-th awaited call takes effect.
pub mod Laws
mod Tests
use wedding_planner_backend.Prelude.{
  ℕ, Bool, ltb, [], none, List, Option, if◌then◌else◌, ◌+◌, ◌∷◌, leb, false, ◌-◌, true, ◌++◌, ◌&&◌,
  some, suc,
}
use wedding_planner_backend.Events.Access.{EventAccess, admin, member, vendor, no_access, resolve}
use wedding_planner_backend.Prelude.Monad.{ok, err, Result}
use wedding_planner_backend.Users.{User}
use wedding_planner_backend.Events.Store.{Almacen}
use wedding_planner_backend.Auth.Access.{
  es_system_role, UsuarioAutenticado, Autenticado, PayloadAccess, autenticar_access_token,
}
use wedding_planner_backend.Auth.Account.{AuthError}
use wedding_planner_backend.Shared.Text.{Text, codes}

abbrev pub joins_por_minuto : ℕ
joins_por_minuto = 20

-- `1 / RECARGA_POR_MS`
abbrev pub ms_por_ficha : ℕ
ms_por_ficha = 3000

abbrev pub cubo_lleno : ℕ
cubo_lleno = 60000

pub record DatosDeSocket : Type 0 where
  pub user_id : ℕ
  pub token : ℕ
  pub fichas : ℕ
  pub recargado_en : ℕ

pub data RespuestaSala : Type 0 where
  bien not_found no_autorizado interno rate_limited : RespuestaSala

-- The rooms that a socket may be put into.
module _ (id_text : ℕ → Text) where
  unfoldable pub sala_de_usuario : ℕ → Text
  sala_de_usuario user_id = codes "user:" ++ id_text user_id

  unfoldable pub sala_de_evento : ℕ → Text
  sala_de_evento event_id = codes "event:" ++ id_text event_id

  unfoldable pub sala_de_vendors_de_evento : ℕ → Text
  sala_de_vendors_de_evento event_id = codes "event:" ++ id_text event_id ++ codes ":vendors"

-- The socket server: the rooms of the socket.
pub record Salas (R : Type 0) : Type 0 where
  pub id_text : ℕ → Text
  pub unir : Text → R → R
  pub dejar : Text → R → R

-- What a request of the socket finds. `caida` says that the database does not answer.
pub record Servidor (R : Type 0) : Type 0 where
  pub verificar_access : ℕ → Option PayloadAccess
  pub usuarios : List User
  pub eventos : Almacen
  pub caida : Bool
  pub reloj : ℕ
  pub socket : DatosDeSocket
  pub red : R

-- `tomarFicha` at the instant `ahora`. A clock that was set back takes from the bucket what it went
-- back, here until the bucket is empty and in the code below that.
unfoldable pub tomar_ficha : ℕ → DatosDeSocket → Bool × DatosDeSocket
tomar_ficha ahora s =
    let recargado = (s.fichas + ahora) - s.recargado_en in
    let fichas = if leb recargado cubo_lleno then recargado else cubo_lleno in
    if ltb fichas ms_por_ficha
    then (false, record s { fichas = fichas; recargado_en = ahora })
    else (true, record s { fichas = fichas - ms_por_ficha; recargado_en = ahora })

abbrev pub firma_buena : Option PayloadAccess → Bool
firma_buena none = false
firma_buena (some p) = es_system_role p.role

-- The token again, as every request of the REST does; `none` is an error that is not the token's.
unfoldable pub reautenticar : {R : Type 0} → Servidor R → Option (Result AuthError Autenticado)
reautenticar s =
    if firma_buena (s.verificar_access s.socket.token) && s.caida
    then none
    else some (autenticar_access_token s.verificar_access s.usuarios s.socket.token)

module _ {R : Type 0} (salas : Salas R) (entorno : ℕ → Servidor R → Servidor R) where
  abbrev pub sala_para : EventAccess → ℕ → Option Text
  sala_para no_access event_id = none
  sala_para (vendor id) event_id = some (sala_de_vendors_de_evento salas.id_text event_id)
  sala_para (member r) event_id = some (sala_de_evento salas.id_text event_id)
  sala_para admin event_id = some (sala_de_evento salas.id_text event_id)

  -- The action of `join`, for whom the token stands.
  unfoldable pub unir_si_puede : ℕ → UsuarioAutenticado → Servidor R → RespuestaSala × Servidor R
  unir_si_puede event_id usuario s =
      let s1 = entorno 1 s in
      if s1.caida
      then (interno, s1)
      else (elim (sala_para (resolve usuario.id usuario.system_role event_id s1.eventos) event_id) [
        | none ↦ (not_found, s1)
        | some sala ↦ let s2 = entorno 2 s1 in (bien, record s2 { red = salas.unir sala s2.red })
      ])

  -- `conSalaAutorizada`
  unfoldable pub con_sala_autorizada :
      Option ℕ
      → (ℕ → UsuarioAutenticado → Servidor R → RespuestaSala × Servidor R)
      → Servidor R
      → RespuestaSala × Servidor R
  con_sala_autorizada none accion s = (not_found, s)
  con_sala_autorizada (some event_id) accion s =
      let s0 = entorno 0 s in
      elim (reautenticar s0) [
        | none ↦ (interno, s0)
        | some (err e) ↦ (no_autorizado, s0)
        | some (ok a) ↦ accion event_id a.usuario s0
      ]

  -- `unirse`: the body is `none` where it has no id of an event.
  unfoldable pub unirse : Option ℕ → Servidor R → RespuestaSala × Servidor R
  unirse datos s =
      let (tomada, socket) = tomar_ficha s.reloj s.socket in
      let s' = record s { socket = socket } in
      if tomada then con_sala_autorizada datos unir_si_puede s' else (rate_limited, s')

  -- `salir`
  unfoldable pub salir : Option ℕ → Servidor R → RespuestaSala × Servidor R
  salir none s = (not_found, s)
  salir (some event_id) s = (
    bien,
    record s {
      red =
          salas.dejar (sala_de_vendors_de_evento salas.id_text event_id)
            (salas.dejar (sala_de_evento salas.id_text event_id) s.red);
    },
  )

  -- `autenticar`: a connection is refused (`false`) or starts with a full bucket. The timer that
  -- closes the socket when the token expires is not modelled.
  unfoldable pub autenticar : ℕ → Servidor R → Bool × Servidor R
  autenticar token s = elim (autenticar_access_token s.verificar_access s.usuarios token) [
    | err e ↦ (false, s)
    | ok a ↦ (
      true,
      record s {
        socket = record {
          user_id = a.usuario.id;
          token = token;
          fichas = cubo_lleno;
          recargado_en = s.reloj;
        };
      },
    )
  ]

  -- `handleConnection`
  unfoldable pub al_conectar : Servidor R → Servidor R
  al_conectar s = record s {
    red = salas.unir (sala_de_usuario salas.id_text s.socket.user_id) s.red;
  }

-- The requests of a socket at given instants: how many get a token.
unfoldable pub tomar_todas : List ℕ → DatosDeSocket → ℕ
tomar_todas [] s = 0
tomar_todas (ahora ∷ luego) s =
    let (tomada, s') = tomar_ficha ahora s in
    let resto = tomar_todas luego s' in if tomada then suc resto else resto
