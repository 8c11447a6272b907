-- ===== src/Guests/UseCases/Send.antt =====
-- src/modules/guests/application/send-invitations.use-case.ts and send-single-invitation.use-case.ts.
use wedding_planner_backend.Guests.UseCases.{
  Boda, en_invitaciones, DatosDeTrabajo, guest_invitation,
}
use wedding_planner_backend.Guests.Guest.{
  pending, guest_has_no_email, cola_caida, rsvp_eq, Guest, invitado_no_encontrado, GuestError,
}
use wedding_planner_backend.Guests.Store.{crear, caducar_vigentes_de}
use wedding_planner_backend.Guests.Table.{buscar, ordenadas}
use wedding_planner_backend.Prelude.{ℕ, List, Bool, if◌then◌else◌, [], ◌∷◌, is_none, not}
use wedding_planner_backend.Prelude.Monad.{
  Action, pure, ◌>>◌, gets, Result, err, throw_if, or_throw, ◌>>=◌, modify, ok,
}
use wedding_planner_backend.Queue.{invitation_job, JobId}
use wedding_planner_backend.Guests.Invitation.{caducidad_invitacion}

-- What the sending draws for one invitation: `generarTokenInvitacion` and the ids.
pub record SorteoInvitacion : Type 0 where
  pub token : ℕ
  pub uuid : ℕ

pub data MotivoOmision : Type 0 where
  no_email already_responded enqueue_failed : MotivoOmision

pub record EnCola : Type 0 where
  pub guest_id : ℕ
  pub invitation_id : ℕ

pub record Omitido : Type 0 where
  pub guest_id : ℕ
  pub reason : MotivoOmision

pub record ResultadoEnvio : Type 0 where
  pub queued : List EnCola
  pub skipped : List Omitido

abbrev pub anotar : ℕ → Result MotivoOmision ℕ → ResultadoEnvio → ResultadoEnvio
anotar guest_id (ok id) r = record r {
  queued = record { guest_id = guest_id; invitation_id = id } ∷ r.queued;
}
anotar guest_id (err motivo) r = record r {
  skipped = record { guest_id = guest_id; reason = motivo } ∷ r.skipped;
}

module _ {Q : Type 0} (enqueue : JobId → DatosDeTrabajo → Q → Bool × Q)
    (hash_de_token : ℕ → ℕ) where
  abbrev pub encolar : JobId → DatosDeTrabajo → Action (Boda Q) GuestError (Unit {0})
  encolar id datos s =
      let (aceptado, q) = enqueue id datos s.cola in
      throw_if (not aceptado) cola_caida (record s { cola = q })

  -- `encolarInvitacion`. `entorno` is what other requests do between the expiry and the creation.
  unfoldable pub encolar_invitacion :
      (Boda Q → Boda Q) → ℕ → SorteoInvitacion → ℕ → Action (Boda Q) GuestError ℕ
  encolar_invitacion entorno guest_id sorteo ahora = do
    modify (λ s. record s { invitaciones = caducar_vigentes_de guest_id ahora s.invitaciones })
    modify entorno
    id ← en_invitaciones (
        crear sorteo.uuid (record {
          guest_id = guest_id;
          token_hash = hash_de_token sorteo.token;
          expires_at = caducidad_invitacion ahora;
        }))
    encolar (invitation_job id)
        (guest_invitation (record { invitation_id = id; token = sorteo.token }))
    pure id

  -- `SendSingleInvitationUseCase`
  unfoldable pub enviar_invitacion :
      ℕ → ℕ → SorteoInvitacion → ℕ → Action (Boda Q) GuestError EnCola
  enviar_invitacion event_id guest_id sorteo ahora = do
    hallado ← gets (λ s. buscar event_id guest_id s.guests)
    g ← or_throw hallado invitado_no_encontrado
    throw_if (is_none g.email) guest_has_no_email
    id ← encolar_invitacion (λ s. s) g.id sorteo ahora
    pure (record { guest_id = g.id; invitation_id = id })

  -- What comes of one guest in the loop: the `continue`s, and the `try` around the sending.
  unfoldable pub enviar_uno :
      SorteoInvitacion → ℕ → Guest → Boda Q → Result MotivoOmision ℕ × Boda Q
  enviar_uno sorteo ahora g s =
      if is_none g.email
      then (err no_email, s)
      else (if not (rsvp_eq g.rsvp pending)
          then (err already_responded, s)
          else (let (una, s') = encolar_invitacion (λ t. t) g.id sorteo ahora s in
              (elim una [ ok id ↦ ok id | err e ↦ err enqueue_failed ], s')))

  -- The loop over the guests. A row stands before those of the guests that follow.
  unfoldable pub enviar_a_todos :
      (ℕ → SorteoInvitacion) → ℕ → List Guest → Boda Q → ResultadoEnvio × Boda Q
  enviar_a_todos sorteo ahora [] s = (record { queued = []; skipped = [] }, s)
  enviar_a_todos sorteo ahora (g ∷ gs) s =
      let (una, s') = enviar_uno (sorteo g.id) ahora g s in
      let (r, s'') = enviar_a_todos sorteo ahora gs s' in (anotar g.id una r, s'')

  -- `SendInvitationsUseCase`
  unfoldable pub enviar_invitaciones :
      ℕ → (ℕ → SorteoInvitacion) → ℕ → Boda Q → ResultadoEnvio × Boda Q
  enviar_invitaciones event_id sorteo ahora s =
      enviar_a_todos sorteo ahora (ordenadas event_id s.guests) s
