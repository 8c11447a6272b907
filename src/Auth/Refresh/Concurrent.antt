-- ===== src/Auth/Refresh/Concurrent.antt =====
-- What holds of a refresh whatever other requests do while it waits.
use wedding_planner_backend.Prelude.{ℕ, arith, ◌≤◌, ◌≡◌, false, some}
use wedding_planner_backend.Auth.Refresh.{
  Mundo, Contexto, buscar_sucesora, Sorteo, rotar_viva, nueva_sesion, rotar_sucesora,
  continuar_o_revocar, tumbar_familia, firmar_respuesta, intentar_continuar_como_concurrente,
  rotar_presentada, fuera_de_ventana, refresh_invalido, ejecutar,
}
use wedding_planner_backend.Auth.Sessions.OneAlive.{
  UnaViva, revocar_familia-UnaViva, Pertenece, buscar_sesion_viva-Pertenece, rotar-UnaViva,
  Coherente, rotar_lost, buscar_por_hash-Pertenece,
}
use wedding_planner_backend.Auth.Sessions.{SesionPersistida, buscar_por_hash}
use wedding_planner_backend.Prelude.Monad.{err}

-- Other requests keep the table sound: rows are never deleted, their ids and families never change,
-- and a new row has a new id.
pub record Fiable (c : Contexto) : Type 0 where
  pub una_viva : (k : ℕ) (m : Mundo) → UnaViva m.sesiones → UnaViva (c.entorno k m).sesiones
  pub coherente : (k : ℕ) (m : Mundo) → Coherente m.sesiones → Coherente (c.entorno k m).sesiones
  pub pertenece :
      (k id family : ℕ) (m : Mundo)
      → Pertenece id family m.sesiones
      → Pertenece id family (c.entorno k m).sesiones

module _ (c : Contexto) (fiable : Fiable c) where
  firmar_respuesta-UnaViva :
      (u t : ℕ) (m : Mundo) → UnaViva m.sesiones → UnaViva (firmar_respuesta c u t m).1.sesiones
  unfolding firmar_respuesta
  firmar_respuesta-UnaViva u t m h = ground (arith, fiable.una_viva 5 m h)

  rotar_viva-UnaViva :
      (v : SesionPersistida) (sorteo : Sorteo) (ahora : ℕ) (m : Mundo)
      → Pertenece v.id v.family_id m.sesiones
      → UnaViva m.sesiones
      → UnaViva (rotar_viva c v sorteo ahora m).1.sesiones
  unfolding rotar_viva
  rotar_viva-UnaViva v sorteo ahora m p h = grind (
    arith,
    rotar-UnaViva v.id (c.entorno 3 m).reloj sorteo.uuid (nueva_sesion c v sorteo ahora)
        (c.entorno 3 m).sesiones (fiable.pertenece 3 v.id v.family_id m p) (fiable.una_viva 3 m h),
    firmar_respuesta-UnaViva,
  )

  intentar-UnaViva :
      (s : SesionPersistida) (sorteo : Sorteo) (m : Mundo)
      → Coherente m.sesiones
      → UnaViva m.sesiones
      → UnaViva (intentar_continuar_como_concurrente c s sorteo m).1.sesiones
  unfolding intentar_continuar_como_concurrente buscar_sucesora rotar_sucesora
  intentar-UnaViva s sorteo m k h = grind (
    arith,
    fiable.una_viva 2 m h,
    fiable.coherente 2 m k,
    buscar_sesion_viva-Pertenece s.family_id (c.entorno 2 m).sesiones,
    rotar_viva-UnaViva,
  )

  continuar_o_revocar-UnaViva :
      (s : SesionPersistida) (sorteo : Sorteo) (m : Mundo)
      → Coherente m.sesiones
      → UnaViva m.sesiones
      → UnaViva (continuar_o_revocar c s sorteo m).1.sesiones
  unfolding continuar_o_revocar tumbar_familia
  continuar_o_revocar-UnaViva s sorteo m k h = grind (
    arith,
    intentar-UnaViva s sorteo m k h,
    fiable.una_viva 4 (intentar_continuar_como_concurrente c s sorteo m).1,
    revocar_familia-UnaViva,
  )

  rotar_presentada-UnaViva :
      (s : SesionPersistida) (primero segundo : Sorteo) (m : Mundo)
      → Pertenece s.id s.family_id m.sesiones
      → Coherente m.sesiones
      → UnaViva m.sesiones
      → UnaViva (rotar_presentada c s primero segundo m).1.sesiones
  unfolding rotar_presentada
  rotar_presentada-UnaViva s primero segundo m p k h = grind (
    arith,
    rotar-UnaViva s.id (c.entorno 1 m).reloj primero.uuid (nueva_sesion c s primero m.reloj)
        (c.entorno 1 m).sesiones (fiable.pertenece 1 s.id s.family_id m p) (fiable.una_viva 1 m h),
    fiable.una_viva 1 m h,
    fiable.coherente 1 m k,
    rotar_lost,
    firmar_respuesta-UnaViva,
    continuar_o_revocar-UnaViva,
  )

-- If other requests keep every family at one live session at most, and the ids and families of the
-- rows as they are, then so does a refresh, however the other requests interleave with it and
-- whatever its outcome.
pub ejecutar-UnaViva :
    (c : Contexto) (token : ℕ) (primero segundo : Sorteo) (m : Mundo)
    → Fiable c
    → Coherente m.sesiones
    → UnaViva m.sesiones
    → UnaViva (ejecutar c token primero segundo m).1.sesiones
unfolding ejecutar
ejecutar-UnaViva c token primero segundo m fiable k h = grind (
  arith,
  fiable.una_viva 0 m h,
  fiable.coherente 0 m k,
  buscar_por_hash-Pertenece (c.hash_token token) (c.entorno 0 m).sesiones,
  rotar_presentada-UnaViva c fiable,
  continuar_o_revocar-UnaViva c fiable,
)

-- A token that has expired when it is read is refused as invalid and changes nothing, unless it was
-- revoked longer ago than the grace window.
pub ejecutar-expired :
    (c : Contexto) (token : ℕ) (primero segundo : Sorteo) (m : Mundo) (s : SesionPersistida)
    → buscar_por_hash (c.hash_token token) (c.entorno 0 m).sesiones ≡ some s
    → s.expires_at ≤ (c.entorno 0 m).reloj
    → fuera_de_ventana s.revoked_at (c.entorno 0 m).reloj ≡ false
    → ejecutar c token primero segundo m ≡ (err refresh_invalido, c.entorno 0 m)
unfolding ejecutar rotar_presentada continuar_o_revocar intentar_continuar_como_concurrente
ejecutar-expired c token primero segundo m s found old window = ground arith
