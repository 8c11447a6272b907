-- ===== src/Guests/UseCases/Report.antt =====
-- What the mass sending reports.
use wedding_planner_backend.Guests.UseCases.Send.{
  ResultadoEnvio, anotar, enviar_a_todos, EnCola, Omitido, enviar_uno, MotivoOmision,
  SorteoInvitacion, enviar_invitaciones,
}
use wedding_planner_backend.Prelude.{
  ℕ, List, Bool, ◌≡◌, [], if◌then◌else◌, arith, ◌+◌, ◌==◌, suc, ◌∷◌, count, ◌∙◌, refl, ◌&&◌, filter,
}
use wedding_planner_backend.Queue.{JobId}
use wedding_planner_backend.Prelude.Monad.{ok, Result, err}
use wedding_planner_backend.Guests.Guest.{Guest}
use wedding_planner_backend.Guests.UseCases.{Boda, DatosDeTrabajo}
use wedding_planner_backend.Shared.Cursor.Order.{count-ordenar_por, ascendente, ordenar_por}
use wedding_planner_backend.Guests.Table.{clave, ordenadas}

abbrev pub veces : ℕ → ResultadoEnvio → ℕ
veces id r =
    count (λ (e : EnCola). e.guest_id == id) r.queued
    + count (λ (o : Omitido). o.guest_id == id) r.skipped

module _ {Q : Type 0} (enqueue : JobId → DatosDeTrabajo → Q → Bool × Q)
    (hash_de_token : ℕ → ℕ) where
  anotar-veces :
      (id guest_id : ℕ) (una : Result MotivoOmision ℕ) (r : ResultadoEnvio)
      → veces id (anotar guest_id una r) ≡ (if guest_id == id then suc (veces id r) else veces id r)
  anotar-veces id guest_id (ok i) r = ground arith
  anotar-veces id guest_id (err e) r = ground arith

  enviar_a_todos-veces :
      (sorteo : ℕ → SorteoInvitacion) (ahora id : ℕ) (gs : List Guest) (s : Boda Q)
      → veces id (enviar_a_todos enqueue hash_de_token sorteo ahora gs s).0
        ≡ count (λ (g : Guest). g.id == id) gs
  unfolding enviar_a_todos
  enviar_a_todos-veces sorteo ahora id [] s = omega arith
  enviar_a_todos-veces sorteo ahora id (g ∷ gs) s =
      let uno : Result MotivoOmision ℕ × Boda Q =
        enviar_uno enqueue hash_de_token (sorteo g.id) ahora g s in
      ground (
        arith,
        enviar_a_todos-veces sorteo ahora id gs uno.1,
        anotar-veces id g.id uno.0 (enviar_a_todos enqueue hash_de_token sorteo ahora gs uno.1).0,
      )

  count-both :
      (p q : Guest → Bool) (gs : List Guest) → count q (filter p gs) ≡ count (λ g. p g && q g) gs
  count-both p q [] = refl
  count-both p q (g ∷ gs) = ground (arith, count-both p q gs)

  -- The mass sending of an event reports each guest of the event, queued or skipped, as often as the
  -- table has it, and nobody else.
  pub enviar_invitaciones_report :
      (event_id ahora id : ℕ) (sorteo : ℕ → SorteoInvitacion) (s : Boda Q)
      → veces id (enviar_invitaciones enqueue hash_de_token event_id sorteo ahora s).0
        ≡ count (λ (g : Guest). g.event_id == event_id && g.id == id) s.guests
  unfolding enviar_invitaciones ordenadas
  enviar_invitaciones_report event_id ahora id sorteo s =
      let del_evento : List Guest = filter (λ (g : Guest). g.event_id == event_id) s.guests in
      enviar_a_todos-veces sorteo ahora id (ordenar_por ascendente clave del_evento) s
      ∙ count-ordenar_por ascendente clave (λ (g : Guest). g.id == id) del_evento
      ∙ count-both (λ (g : Guest). g.event_id == event_id) (λ (g : Guest). g.id == id) s.guests
