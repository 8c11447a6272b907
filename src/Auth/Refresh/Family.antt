-- ===== src/Auth/Refresh/Family.antt =====
-- A refusal for reuse shuts the family down, whatever other requests do while this one waits.
use wedding_planner_backend.Prelude.{ℕ, some, ◌≢◌, ◌∙◌, arith, ap, ◌≡◌, if◌then◌else◌, ==_refl}
use wedding_planner_backend.Auth.Refresh.{
  Mundo, Contexto, rotar_viva, Sorteo, buscar_sucesora, refresh_reutilizado, Tokens, rotar_sucesora,
  firmar_respuesta, intentar_continuar_como_concurrente, TokenError, tumbar_familia, ejecutar,
  rotar_presentada, continuar_o_revocar,
}
use wedding_planner_backend.Auth.Sessions.OneAlive.{vivas, vivas-revocar_familia}
use wedding_planner_backend.Auth.Sessions.{SesionPersistida, buscar_por_hash}
use wedding_planner_backend.Prelude.Monad.{err, Result}

-- The outcome is no refusal for reuse.
abbrev pub NotReused : {A : Type 0} → Result TokenError A × Mundo → Type 0
NotReused o = o.0 ≢ err refresh_reutilizado

-- A refusal for reuse leaves no live session in the family.
abbrev pub Shut : ℕ → Result TokenError Tokens × Mundo → Type 0
Shut family o = o.0 ≡ err refresh_reutilizado → vivas family o.1.sesiones ≡ 0

module _ (c : Contexto) where
  firmar_respuesta-NotReused : (u t : ℕ) (m : Mundo) → NotReused (firmar_respuesta c u t m)
  unfolding firmar_respuesta
  firmar_respuesta-NotReused u t m = ground arith

  rotar_viva-NotReused :
      (v : SesionPersistida) (sorteo : Sorteo) (ahora : ℕ) (m : Mundo)
      → NotReused (rotar_viva c v sorteo ahora m)
  unfolding rotar_viva
  rotar_viva-NotReused v sorteo ahora m = grind (arith, firmar_respuesta-NotReused)

  intentar-NotReused :
      (s : SesionPersistida) (sorteo : Sorteo) (m : Mundo)
      → NotReused (intentar_continuar_como_concurrente c s sorteo m)
  unfolding intentar_continuar_como_concurrente buscar_sucesora rotar_sucesora
  intentar-NotReused s sorteo m = grind (arith, rotar_viva-NotReused)

  tumbar_familia-Shut : (s : SesionPersistida) (m : Mundo) → Shut s.family_id (tumbar_familia c s m)
  unfolding tumbar_familia
  tumbar_familia-Shut s m h =
      let m' = c.entorno 4 m in
      vivas-revocar_familia s.family_id s.family_id m'.reloj m'.sesiones
      ∙ ap (λ b. if b then 0 else vivas s.family_id m'.sesiones) (==_refl s.family_id)

  continuar_o_revocar-Shut :
      (s : SesionPersistida) (sorteo : Sorteo) (m : Mundo)
      → Shut s.family_id (continuar_o_revocar c s sorteo m)
  unfolding continuar_o_revocar
  continuar_o_revocar-Shut s sorteo m = grind (arith, tumbar_familia-Shut, intentar-NotReused)

  rotar_presentada-Shut :
      (s : SesionPersistida) (primero segundo : Sorteo) (m : Mundo)
      → Shut s.family_id (rotar_presentada c s primero segundo m)
  unfolding rotar_presentada
  rotar_presentada-Shut s primero segundo m =
      grind (arith, firmar_respuesta-NotReused, continuar_o_revocar-Shut)

-- Whatever other requests do while a refresh waits, an answer REFRESH_REUSED leaves the family of
-- the presented token, as it was found in the table, without a live session.
pub ejecutar-reused_shuts :
    (c : Contexto) (token : ℕ) (primero segundo : Sorteo) (m : Mundo) (s : SesionPersistida)
    → buscar_por_hash (c.hash_token token) (c.entorno 0 m).sesiones ≡ some s
    → (ejecutar c token primero segundo m).0 ≡ err refresh_reutilizado
    → vivas s.family_id (ejecutar c token primero segundo m).1.sesiones ≡ 0
unfolding ejecutar
ejecutar-reused_shuts c token primero segundo m s found =
    grind (arith, rotar_presentada-Shut, continuar_o_revocar-Shut)
