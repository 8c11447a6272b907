-- ===== src/Auth/Refresh.antt =====
-- src/modules/auth/application/refresh.use-case.ts and logout.use-case.ts. What happens while a
-- request waits is the argument `entorno`: `entorno k` is what other requests do to the tables, and
-- the time that passes, before the k-th awaited call of the request takes effect. `hash_token` is
-- SHA-256 and `firmar_access` is the JWT library.
pub mod Family
pub mod Sequential
pub mod Concurrent
use wedding_planner_backend.Prelude.{
  ℕ, ◌*◌, Option, none, Bool, ◌+◌, ◌-◌, some, leb, List, ltb, false,
}
use wedding_planner_backend.Prelude.Monad.{
  ok, modify, gets, pure, or_throw, throw, Action, throw_if, ◌>>=◌, ◌>>◌, choose, on_null,
}
use wedding_planner_backend.Users.{User, SystemRole, find_by_id}
use wedding_planner_backend.Auth.Sessions.{
  SesionInterna, revocar_familia, buscar_por_hash, rotar, DatosNuevaSesion,
  buscar_sesion_viva_de_familia, SesionPersistida,
}

-- domain/token-errors.ts
pub data TokenError : Type 0 where
  refresh_invalido refresh_reutilizado : TokenError

-- The tables that a request reads and writes, and the clock.
pub record Mundo : Type 0 where
  pub sesiones : List SesionInterna
  pub usuarios : List User
  pub reloj : ℕ

pub record Tokens : Type 0 where
  pub access_token : ℕ
  pub refresh_token : ℕ

-- What the request draws at random: a refresh token and the id of its row.
pub record Sorteo : Type 0 where
  pub token : ℕ
  pub uuid : ℕ

abbrev pub ventana_gracia_ms : ℕ
ventana_gracia_ms = 10000

abbrev pub RefreshAction : Type 0 → Type 0
RefreshAction A = Action Mundo TokenError A

abbrev pub fuera_de_ventana : Option ℕ → ℕ → Bool
fuera_de_ventana none ahora = false
fuera_de_ventana (some t) ahora = ltb ventana_gracia_ms (ahora - t)

-- What the use case is given: SHA-256, the JWT signature, `REFRESH_TTL_DAYS`, and the environment.
pub record Contexto : Type 0 where
  pub hash_token : ℕ → ℕ
  pub firmar_access : ℕ → SystemRole → ℕ
  pub refresh_ttl_days : ℕ
  pub entorno : ℕ → Mundo → Mundo

module _ (c : Contexto) where
  open c use {hash_token, firmar_access, refresh_ttl_days, entorno}

  -- The k-th `await`.
  abbrev pub esperar : ℕ → RefreshAction (Unit {0})
  esperar k = modify (entorno k)

  abbrev pub caducidad_refresh : ℕ → ℕ
  caducidad_refresh ahora = ahora + refresh_ttl_days * 86400000

  abbrev pub nueva_sesion : SesionPersistida → Sorteo → ℕ → DatosNuevaSesion
  nueva_sesion s sorteo ahora = record {
    user_id = s.user_id;
    token_hash = hash_token sorteo.token;
    family_id = s.family_id;
    expires_at = caducidad_refresh ahora;
    ip = none;
    user_agent = none;
  }

  -- `this.sesiones.rotar(…)`, which revokes on the clock at which it runs; `ahora` is the instant of the
  -- call, at which its argument `caducidadRefresh()` was read.
  abbrev pub rotar_sesion : SesionPersistida → Sorteo → ℕ → RefreshAction Bool
  rotar_sesion s sorteo ahora m =
      let (ganada, sesiones) =
        rotar s.id m.reloj sorteo.uuid (nueva_sesion s sorteo ahora) m.sesiones in
      (ok ganada, record m { sesiones = sesiones })

  unfoldable pub firmar_respuesta : ℕ → ℕ → RefreshAction Tokens
  firmar_respuesta user_id refresh_token = do
    esperar 5
    usuario ← gets (λ m. find_by_id user_id m.usuarios)
    u ← or_throw usuario refresh_invalido
    pure (record { access_token = firmar_access u.id u.system_role; refresh_token = refresh_token })

  -- A rotation that loses once more is not tried again.
  unfoldable pub rotar_viva : SesionPersistida → Sorteo → ℕ → RefreshAction (Option Tokens)
  rotar_viva viva sorteo ahora = do
    esperar 3
    ganada ← rotar_sesion viva sorteo ahora
    choose ganada (firmar_respuesta viva.user_id sorteo.token >>= λ t. pure (some t)) (pure none)

  -- The family's living successor is rotated once more; `none` stands for `null`.
  unfoldable pub rotar_sucesora : SesionPersistida → Sorteo → RefreshAction (Option Tokens)
  rotar_sucesora viva sorteo = do
    ahora ← gets (λ m. m.reloj)
    choose (leb viva.expires_at ahora) (pure none) (rotar_viva viva sorteo ahora)

  unfoldable pub buscar_sucesora : SesionPersistida → Sorteo → RefreshAction (Option Tokens)
  buscar_sucesora sesion sorteo = do
    esperar 2
    viva ← gets (λ m. buscar_sesion_viva_de_familia sesion.family_id m.sesiones)
    on_null viva (pure none) (λ v. rotar_sucesora v sorteo)

  unfoldable pub intentar_continuar_como_concurrente :
      SesionPersistida → Sorteo → RefreshAction (Option Tokens)
  intentar_continuar_como_concurrente sesion sorteo = do
    ahora ← gets (λ m. m.reloj)
    choose (fuera_de_ventana sesion.revoked_at ahora) (pure none)
        (throw_if (leb sesion.expires_at ahora) refresh_invalido >> buscar_sucesora sesion sorteo)

  unfoldable pub tumbar_familia : SesionPersistida → RefreshAction Tokens
  tumbar_familia sesion = do
    esperar 4
    modify (λ m. record m { sesiones = revocar_familia sesion.family_id m.reloj m.sesiones })
    throw refresh_reutilizado

  -- The grace window, or else the whole family falls.
  unfoldable pub continuar_o_revocar : SesionPersistida → Sorteo → RefreshAction Tokens
  continuar_o_revocar sesion sorteo = do
    continuada ← intentar_continuar_como_concurrente sesion sorteo
    on_null continuada (tumbar_familia sesion) (λ t. pure t)

  unfoldable pub rotar_presentada : SesionPersistida → Sorteo → Sorteo → RefreshAction Tokens
  rotar_presentada sesion primero segundo = do
    ahora ← gets (λ m. m.reloj)
    throw_if (leb sesion.expires_at ahora) refresh_invalido
    esperar 1
    ganada ← rotar_sesion sesion primero ahora
    choose ganada (firmar_respuesta sesion.user_id primero.token)
        (continuar_o_revocar sesion segundo)

  -- `RefreshUseCase.ejecutar`, with the draws of its first and of its second rotation.
  unfoldable pub ejecutar : ℕ → Sorteo → Sorteo → RefreshAction Tokens
  ejecutar refresh_token primero segundo = do
    esperar 0
    hallada ← gets (λ m. buscar_por_hash (hash_token refresh_token) m.sesiones)
    sesion ← or_throw hallada refresh_invalido
    on_null sesion.revoked_at (rotar_presentada sesion primero segundo)
        (λ _. continuar_o_revocar sesion segundo)

  unfoldable pub cerrar_familia : SesionPersistida → RefreshAction (Unit {0})
  cerrar_familia sesion = do
    esperar 1
    modify (λ m. record m { sesiones = revocar_familia sesion.family_id m.reloj m.sesiones })

  -- `LogoutUseCase.ejecutar`
  unfoldable pub logout : ℕ → RefreshAction (Unit {0})
  logout refresh_token = do
    esperar 0
    hallada ← gets (λ m. buscar_por_hash (hash_token refresh_token) m.sesiones)
    on_null hallada (pure tt) (λ sesion. cerrar_familia sesion)
