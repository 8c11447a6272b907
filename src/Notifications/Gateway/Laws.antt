-- ===== src/Notifications/Gateway/Laws.antt =====
-- How often a socket may join, and where it is let in.
use mathlib.Core.Option.{some-injective}
use wedding_planner_backend.Prelude.{
  ℕ, arith, ◌*◌, [], inl, List, if◌then◌else◌, ◌+◌, ◌∷◌, inr, ◌≡◌, Bool-cases, ◌≤◌, false, none,
  Option-cases, refl, ◌&&◌, Bool, some, Option, true, sym, ◌⊎◌,
}
use wedding_planner_backend.Notifications.Gateway.{
  ms_por_ficha, tomar_todas, DatosDeSocket, tomar_ficha, con_sala_autorizada, Salas, unir_si_puede,
  unirse, no_autorizado, reautenticar, not_found, Servidor, sala_para, firma_buena, interno,
  rate_limited, RespuestaSala, bien, sala_de_vendors_de_evento, sala_de_evento,
}
use wedding_planner_backend.Users.{User, find_by_id}
use wedding_planner_backend.Events.Access.{resolve, EventAccess, member, no_access}
use wedding_planner_backend.Auth.Access.{
  autenticar_access_token_sub, autenticar_access_token, Autenticado, PayloadAccess,
}
use wedding_planner_backend.Shared.Text.{Text}
use wedding_planner_backend.Prelude.Monad.{ok, Result-cases, err}
use wedding_planner_backend.Events.Store.{EventRole}
use wedding_planner_backend.Auth.Account.{AuthError}

-- The instants of a clock that does not go back, from one instant to another.
abbrev pub Avanza : ℕ → List ℕ → ℕ → Type 0
Avanza desde [] hasta = desde ≤ hasta
Avanza desde (t ∷ ts) hasta = (desde ≤ t) × Avanza t ts hasta

tomar_ficha_pays :
    (ahora : ℕ) (s : DatosDeSocket)
    → s.recargado_en ≤ ahora
    → ((if (tomar_ficha ahora s).0 then ms_por_ficha else 0)
          + (tomar_ficha ahora s).1.fichas
          + s.recargado_en
        ≤ s.fichas + ahora)
      × ((tomar_ficha ahora s).1.recargado_en ≡ ahora)
unfolding tomar_ficha
tomar_ficha_pays ahora s h = ground arith

-- However often a socket asks, from an instant with so much in its bucket until a later one, what it
-- is granted is at most what was there and what the time between brings: with a full bucket at most
-- 20 joins and one more for each three seconds.
pub tomar_todas_bound :
    (ts : List ℕ) (s : DatosDeSocket) (hasta : ℕ)
    → Avanza s.recargado_en ts hasta
    → ms_por_ficha * tomar_todas ts s + s.recargado_en ≤ s.fichas + hasta
unfolding tomar_todas
tomar_todas_bound [] s hasta h = omega arith
tomar_todas_bound (t ∷ ts) s hasta h =
    let p = tomar_ficha_pays t s h.0 in
    let s' = (tomar_ficha t s).1 in
    let next : Avanza s'.recargado_en ts hasta = rw p.1 h.1 in
    let rest = tomar_todas_bound ts s' hasta next in
    elim (Bool-cases (tomar_ficha t s).0) [
      | inl taken ↦ grind (arith, taken, p.0, p.1, rest)
      | inr refused ↦ grind (arith, refused, p.0, p.1, rest)
    ]

abbrev es_bien : RespuestaSala → Bool
es_bien bien = true
es_bien _ = false

-- The room of an access to an event.
pub data SalaDe {R : Type 0} (salas : Salas R) (event_id : ℕ) : EventAccess → Text → Type 0 where
  de_vendor :
      (id : ℕ)
      → SalaDe salas event_id
          (EventAccess.vendor id)
          (sala_de_vendors_de_evento salas.id_text event_id)
  de_miembro :
      (r : EventRole) → SalaDe salas event_id (member r) (sala_de_evento salas.id_text event_id)
  de_admin : SalaDe salas event_id EventAccess.admin (sala_de_evento salas.id_text event_id)

-- What a `join` comes to, where the others did `s0`, `s1` and `s2` on the way: the socket gets into
-- the one room that is for the access that the account of its token has, or it gets nowhere. `hay_ficha`
-- tells whether the bucket had a token.
pub data Salida {R : Type 0} (salas : Salas R) (entorno : ℕ → Servidor R → Servidor R)
    (datos : Option ℕ) (hay_ficha : Bool) (s' : Servidor R)
    : RespuestaSala × Servidor R → Type 0 where
  entra :
      (event_id : ℕ) (p : PayloadAccess) (u : User) (sala : Text)
      → datos ≡ some event_id
      → (entorno 0 s').verificar_access (entorno 0 s').socket.token ≡ some p
      → find_by_id p.sub (entorno 0 s').usuarios ≡ some u
      → SalaDe salas event_id
          (resolve u.id u.system_role event_id (entorno 1 (entorno 0 s')).eventos)
          sala
      → Salida salas entorno datos hay_ficha s' (
        bien,
        record (entorno 2 (entorno 1 (entorno 0 s'))) {
          red = salas.unir sala (entorno 2 (entorno 1 (entorno 0 s'))).red;
        },
      )
  antes :
      (r : RespuestaSala)
      → es_bien r ≡ false
      → (datos ≡ none) ⊎ (hay_ficha ≡ false)
      → Salida salas entorno datos hay_ficha s' (r, s')
  al_autenticar :
      (r : RespuestaSala)
      → es_bien r ≡ false
      → ((entorno 0 s').caida ≡ true)
        ⊎ ((x : AuthError) × (autenticar_access_token
                (entorno 0 s').verificar_access
                (entorno 0 s').usuarios
                (entorno 0 s').socket.token
              ≡ err x))
      → Salida salas entorno datos hay_ficha s' (r, entorno 0 s')
  al_resolver :
      (r : RespuestaSala)
      → es_bien r ≡ false
      → ((entorno 1 (entorno 0 s')).caida ≡ true)
        ⊎ ((event_id : ℕ) × (p : PayloadAccess) × (u : User) × (datos ≡ some event_id)
            × ((entorno 0 s').verificar_access (entorno 0 s').socket.token ≡ some p)
            × (find_by_id p.sub (entorno 0 s').usuarios ≡ some u)
            × (resolve u.id u.system_role event_id (entorno 1 (entorno 0 s')).eventos ≡ no_access))
      → Salida salas entorno datos hay_ficha s' (r, entorno 1 (entorno 0 s'))

module _ {R : Type 0} (salas : Salas R) (entorno : ℕ → Servidor R → Servidor R) where
  sala_para-SalaDe :
      (event_id : ℕ) (acceso : EventAccess) (sala : Text)
      → sala_para salas entorno acceso event_id ≡ some sala
      → SalaDe salas event_id acceso sala
  sala_para-SalaDe event_id no_access sala h = absurd cc
  sala_para-SalaDe event_id (EventAccess.vendor id) sala h =
      rw (sym (some-injective _ _ h)) (de_vendor id)
  sala_para-SalaDe event_id (member r) sala h = rw (sym (some-injective _ _ h)) (de_miembro r)
  sala_para-SalaDe event_id EventAccess.admin sala h = rw (sym (some-injective _ _ h)) de_admin

  sala_para-none :
      (event_id : ℕ) (acceso : EventAccess)
      → sala_para salas entorno acceso event_id ≡ none
      → acceso ≡ no_access
  sala_para-none event_id no_access h = refl
  sala_para-none event_id (EventAccess.vendor id) h = absurd cc
  sala_para-none event_id (member r) h = absurd cc
  sala_para-none event_id EventAccess.admin h = absurd cc

  unir_si_puede-Salida :
      (event_id : ℕ) (a : Autenticado) (hay_ficha : Bool) (s : Servidor R)
      → autenticar_access_token
          (entorno 0 s).verificar_access
          (entorno 0 s).usuarios
          (entorno 0 s).socket.token
        ≡ ok a
      → Salida salas entorno
          (some event_id)
          hay_ficha
          s
          (unir_si_puede salas entorno event_id a.usuario (entorno 0 s))
  unfolding unir_si_puede
  unir_si_puede-Salida event_id a hay_ficha s e =
      let s0 = entorno 0 s in
      let s1 = entorno 1 s0 in
      let s2 = entorno 2 s1 in
      let (p, u, signed, there, same) =
        autenticar_access_token_sub s0.verificar_access s0.usuarios s0.socket.token a e in
      let acceso = resolve a.usuario.id a.usuario.system_role event_id s1.eventos in
      elim (Bool-cases s1.caida) [
        | inl down ↦
            let q : unir_si_puede salas entorno event_id a.usuario s0 ≡ (interno, s1) =
              grind (arith, down) in
            rw q (al_resolver interno refl (inl down))
        | inr up ↦ elim (Option-cases (sala_para salas entorno acceso event_id)) [
          | inl none_for ↦
              let q : unir_si_puede salas entorno event_id a.usuario s0 ≡ (not_found, s1) =
                grind (arith, up, none_for) in
              let shut : resolve u.id u.system_role event_id s1.eventos ≡ no_access =
                sala_para-none event_id (resolve u.id u.system_role event_id s1.eventos)
                  (grind (arith, same, none_for)) in
              rw q (al_resolver not_found refl (inr (event_id, p, u, refl, signed, there, shut)))
          | inr (sala, for_it) ↦
              let q : unir_si_puede salas entorno event_id a.usuario s0
                  ≡ (bien, record s2 { red = salas.unir sala s2.red }) =
                grind (arith, up, for_it) in
              rw q (
                entra event_id p u sala refl signed there (
                  sala_para-SalaDe event_id (resolve u.id u.system_role event_id s1.eventos) sala
                    (grind (arith, same, for_it))))
        ]
      ]

  sala_autorizada-Salida :
      (datos : Option ℕ) (hay_ficha : Bool) (s : Servidor R)
      → Salida salas entorno datos hay_ficha s
          (con_sala_autorizada salas entorno datos (unir_si_puede salas entorno) s)
  unfolding con_sala_autorizada reautenticar
  sala_autorizada-Salida none hay_ficha s = antes not_found refl (inl refl)
  sala_autorizada-Salida (some event_id) hay_ficha s =
      let s0 = entorno 0 s in
      let c : RespuestaSala × Servidor R =
        con_sala_autorizada salas entorno (some event_id) (unir_si_puede salas entorno) s in
      elim (Bool-cases (firma_buena (s0.verificar_access s0.socket.token) && s0.caida)) [
        | inl down ↦
            let q : c ≡ (interno, s0) = grind (arith, down) in
            rw q (al_autenticar interno refl (inl (ground (arith, down))))
        | inr up ↦
            elim (Result-cases
              (autenticar_access_token s0.verificar_access s0.usuarios s0.socket.token)) [
                | inr (x, bad) ↦
                    let q : c ≡ (no_autorizado, s0) = grind (arith, up, bad) in
                    rw q (al_autenticar no_autorizado refl (inr (x, bad)))
                | inl (a, good) ↦
                    let q : c ≡ unir_si_puede salas entorno event_id a.usuario s0 =
                      grind (arith, up, good) in
                    rw q (unir_si_puede-Salida event_id a hay_ficha s good)
              ]
      ]

  -- Whatever happens between its steps, a `join` puts the socket into one room only, and only where
  -- the account that the payload of its token names exists and has access to the event: a booked vendor
  -- into the room of the vendors, a member and an administrator into the room of the event. It gets into
  -- none only where the bucket is empty, the body names no event, the token is refused, the account has
  -- no access, or the database does not answer.
  pub unirse-Salida :
      (datos : Option ℕ) (s : Servidor R)
      → Salida salas entorno datos
          (tomar_ficha s.reloj s.socket).0
          (record s { socket = (tomar_ficha s.reloj s.socket).1 })
          (unirse salas entorno datos s)
  unfolding unirse
  unirse-Salida datos s =
      let s' = record s { socket = (tomar_ficha s.reloj s.socket).1 } in
      elim (Bool-cases (tomar_ficha s.reloj s.socket).0) [
        | inl taken ↦
            let q : unirse salas entorno datos s
                ≡ con_sala_autorizada salas entorno datos (unir_si_puede salas entorno) s' =
              grind (arith, taken) in
            rw q (sala_autorizada-Salida datos (tomar_ficha s.reloj s.socket).0 s')
        | inr refused ↦
            let q : unirse salas entorno datos s ≡ (rate_limited, s') = grind (arith, refused) in
            rw q (antes rate_limited refl (inr refused))
      ]
