-- ===== src/Guests/UseCases/Requests/Answering.antt =====
-- The guests' table through the answers of guests and the sendings.
use wedding_planner_backend.Guests.UseCases.{
  Boda, responder_rsvp, guardar_respuesta, DatosDeTrabajo, acompanantes, RespuestaRsvp, cambios_de,
}
use wedding_planner_backend.Guests.Store.{
  crear, InvitacionCompleta, caducar_vigentes_de, buscar_respondible,
}
use wedding_planner_backend.Guests.Table.{actualizar, buscar, es_guest}
use wedding_planner_backend.Guests.Table.Invariant.{Sana}
use wedding_planner_backend.Prelude.{
  ℕ, List, Bool, ◌≡◌, ◌∙◌, [], sym, ◌∷◌, Bool-cases, Option-cases, some, inr, find?, is_none, inl,
  refl, arith,
}
use wedding_planner_backend.Prelude.Monad.{Result, Result-cases, ok}
use mathlib.Core.Option.{some-injective}
use wedding_planner_backend.Database.{en_transaccion}
use wedding_planner_backend.Queue.{JobId}
use wedding_planner_backend.Guests.Guest.{cupo_cubre_confirmados, GuestError, Guest}
use wedding_planner_backend.Guests.UseCases.OneToken.{datos_de}
use wedding_planner_backend.Guests.UseCases.Send.{
  enviar_uno, enviar_invitacion, encolar_invitacion, enviar_a_todos, SorteoInvitacion,
}
use wedding_planner_backend.Guests.Table.Update.{actualizar-Sana}

module _ {Q : Type 0} (enqueue : JobId → DatosDeTrabajo → Q → Bool × Q)
    (hash_de_token : ℕ → ℕ) where
  -- What a transaction of an answer leaves of the guests.
  pub guardar-Sana :
      (i : InvitacionCompleta) (r : RespuestaRsvp) (ahora : ℕ) (s : Boda Q)
      → Sana s.guests
      → Sana (actualizar i.guest.event_id i.guest.id (cambios_de r) s.guests).1
      → Sana (en_transaccion (guardar_respuesta enqueue hash_de_token i r ahora) s).1.guests
  guardar-Sana i r ahora s h k =
      let cambio : Result GuestError Guest × List Guest =
        actualizar i.guest.event_id i.guest.id (cambios_de r) s.guests in
      elim (Result-cases (en_transaccion (guardar_respuesta enqueue hash_de_token i r ahora) s).0) [
        | inl (u, done) ↦
            let e : (en_transaccion (guardar_respuesta enqueue hash_de_token i r ahora) s).1.guests
                ≡ cambio.1 =
              grind (arith, done) in
            rw e k
        | inr (e, refused) ↦
            let same : (en_transaccion (guardar_respuesta enqueue hash_de_token i r ahora)
                  s).1.guests
                ≡ s.guests =
              grind (arith, refused) in
            rw same h
      ]

  pub responder-known :
      (i : InvitacionCompleta) (token : ℕ) (r : RespuestaRsvp) (ahora : ℕ) (s : Boda Q)
      → Sana s.guests
      → buscar_respondible hash_de_token token ahora s.invitaciones ≡ ok i
      → Sana (responder_rsvp enqueue hash_de_token (λ t. t) token r ahora s).1.guests
  unfolding responder_rsvp buscar
  responder-known i token r ahora s h answerable =
      elim (Option-cases (find? (es_guest i.guest.event_id i.guest.id) s.guests)) [
        | inl missing ↦
            let same : (responder_rsvp enqueue hash_de_token (λ t. t) token r ahora s).1.guests
                ≡ s.guests =
              grind (arith, answerable, missing) in
            rw same h
        | inr (g, found) ↦
            elim (Bool-cases
              (cupo_cubre_confirmados g.companions_allowed (some (acompanantes r)))) [
                | inr over ↦
                    let same : (responder_rsvp enqueue hash_de_token (λ t. t) token r ahora
                          s).1.guests
                        ≡ s.guests =
                      grind (arith, answerable, found, over) in
                    rw same h
                | inl room ↦
                    let kept : Sana
                        (en_transaccion (guardar_respuesta enqueue hash_de_token i r ahora)
                          s).1.guests =
                      guardar-Sana i r ahora s h (
                        actualizar-Sana i.guest.event_id i.guest.id (cambios_de r) s.guests
                          (λ g' e. rw (sym (some-injective g g' (sym found ∙ e))) room) h) in
                    elim (Result-cases
                      (en_transaccion (guardar_respuesta enqueue hash_de_token i r ahora) s).0) [
                        | inl (u, done) ↦
                            let e : (responder_rsvp enqueue hash_de_token (λ t. t) token r ahora
                                  s).1.guests
                                ≡ (en_transaccion
                                    (guardar_respuesta enqueue hash_de_token i r ahora)
                                    s).1.guests =
                              grind (arith, answerable, found, room, done) in
                            rw e kept
                        | inr (x, failed) ↦
                            let e : (responder_rsvp enqueue hash_de_token (λ t. t) token r ahora
                                  s).1.guests
                                ≡ (en_transaccion
                                    (guardar_respuesta enqueue hash_de_token i r ahora)
                                    s).1.guests =
                              grind (arith, answerable, found, room, failed) in
                            rw e kept
                      ]
              ]
      ]

  pub responder_rsvp-Sana :
      (token : ℕ) (r : RespuestaRsvp) (ahora : ℕ) (s : Boda Q)
      → Sana s.guests
      → Sana (responder_rsvp enqueue hash_de_token (λ t. t) token r ahora s).1.guests
  unfolding responder_rsvp
  responder_rsvp-Sana token r ahora s h =
      elim (Result-cases (buscar_respondible hash_de_token token ahora s.invitaciones)) [
        | inr (e, refused) ↦
            let same : (responder_rsvp enqueue hash_de_token (λ t. t) token r ahora s).1.guests
                ≡ s.guests =
              grind (arith, refused) in
            rw same h
        | inl (i, answerable) ↦ responder-known i token r ahora s h answerable
      ]

  pub encolar_invitacion-guests :
      (guest_id : ℕ) (sorteo : SorteoInvitacion) (ahora : ℕ) (s : Boda Q)
      → (encolar_invitacion enqueue hash_de_token (λ t. t) guest_id sorteo ahora s).1.guests
        ≡ s.guests
  unfolding encolar_invitacion
  encolar_invitacion-guests guest_id sorteo ahora s =
      elim (Result-cases
        (crear sorteo.uuid (datos_de hash_de_token guest_id sorteo ahora)
          (caducar_vigentes_de guest_id ahora s.invitaciones)).0) [
            | inl (id, created) ↦ grind (arith, created)
            | inr (e, refused) ↦ grind (arith, refused)
          ]

  pub enviar_invitacion-guests :
      (event_id guest_id : ℕ) (sorteo : SorteoInvitacion) (ahora : ℕ) (s : Boda Q)
      → (enviar_invitacion enqueue hash_de_token event_id guest_id sorteo ahora s).1.guests
        ≡ s.guests
  unfolding enviar_invitacion buscar encolar_invitacion crear caducar_vigentes_de
  enviar_invitacion-guests event_id guest_id sorteo ahora s =
      elim (Option-cases (find? (es_guest event_id guest_id) s.guests)) [
        | inl missing ↦ grind (arith, missing)
        | inr (g, found) ↦ elim (Bool-cases (is_none g.email)) [
          | inl without ↦ grind (arith, found, without)
          | inr has ↦
              let una : Result GuestError ℕ × Boda Q =
                encolar_invitacion enqueue hash_de_token (λ t. t) g.id sorteo ahora s in
              elim (Result-cases una.0) [
                | inl (id, done) ↦
                    rw (found, has, done) (encolar_invitacion-guests g.id sorteo ahora s)
                | inr (e, refused) ↦
                    rw (found, has, refused) (encolar_invitacion-guests g.id sorteo ahora s)
              ]
        ]
      ]

  pub enviar_a_todos-guests :
      (sorteo : ℕ → SorteoInvitacion) (ahora : ℕ) (gs : List Guest) (s : Boda Q)
      → (enviar_a_todos enqueue hash_de_token sorteo ahora gs s).1.guests ≡ s.guests
  unfolding enviar_a_todos enviar_uno
  enviar_a_todos-guests sorteo ahora [] s = refl
  enviar_a_todos-guests sorteo ahora (g ∷ gs) s =
      enviar_a_todos-guests sorteo ahora gs
        (enviar_uno enqueue hash_de_token (sorteo g.id) ahora g s).1
      ∙ ground (arith, encolar_invitacion-guests g.id (sorteo g.id) ahora s)
