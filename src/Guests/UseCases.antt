-- ===== src/Guests/UseCases.antt =====
-- src/modules/guests/application: the use cases over the guests, their invitations and the public RSVP.
-- The queue and its failures are a parameter, like SHA-256 and `toLowerCase`. Random ids and tokens are
-- arguments, and so is `new Date()`.
pub mod Import
pub mod ImportLaws
pub mod Send
pub mod Answer
pub mod Queries
pub mod Report
mod Tests
pub mod Requests
pub mod OneToken
use wedding_planner_backend.Guests.Guest.{
  confirmed, declined, RsvpStatus, GuestError, Guest, notificacion_no_guardada,
  invitacion_no_valida, resumir_por_estado, GuestSummary, acompanantes_excedidos,
  cupo_cubre_confirmados, invitado_no_encontrado,
}
use wedding_planner_backend.Guests.Store.{
  marcar_respondida, caducar_vigentes_de, buscar_respondible, buscar_legible, Invitaciones,
  InvitacionCompleta,
}
use wedding_planner_backend.Guests.Table.{
  actualizar, crear, buscar, CambiosInvitado, contar_por_estado, borrar,
  sumar_acompanantes_confirmados, DatosCrearInvitado,
}
use wedding_planner_backend.Prelude.{ℕ, List, Bool, Option, some, none, true, get_or, false, not}
use wedding_planner_backend.Prelude.Monad.{
  Action, pure, modify, or_throw, Result, ◌>>◌, throw_if, gets, choose, ◌>>=◌,
}
use wedding_planner_backend.Database.{en_transaccion}
use wedding_planner_backend.Queue.{enqueue, rsvp_job, JobId}
use wedding_planner_backend.Notifications.Port.{crear_para_miembros, Avisos}
use wedding_planner_backend.Shared.Text.{codes, Text, text_eq}
use wedding_planner_backend.Prelude.Int.{ℤ}
use wedding_planner_backend.Guests.Invitation.{cierre_rsvp}

-- What the RSVP stores with a notification and sends to the worker.
pub record AvisoRsvp : Type 0 where
  pub guest_id : ℕ
  pub guest_name : Text
  pub rsvp : RsvpStatus

pub record PayloadInvitacion : Type 0 where
  pub invitation_id : ℕ
  pub token : ℕ

pub data DatosDeTrabajo : Type 0 where
  guest_invitation : PayloadInvitacion → DatosDeTrabajo
  guest_rsvp_updated : ℕ → AvisoRsvp → DatosDeTrabajo

pub record Boda (Q : Type 0) : Type 0 where
  pub guests : List Guest
  pub invitaciones : Invitaciones
  pub avisos : Avisos AvisoRsvp
  pub cola : Q

-- An answer that is computed before.
abbrev pub of_result : {S A : Type 0} → Result GuestError A → Action S GuestError A
of_result r s = (r, s)

-- Operations of one table.
module _ {Q A : Type 0} where
  abbrev pub en_guests : Action (List Guest) GuestError A → Action (Boda Q) GuestError A
  en_guests m s = let (r, g) = m s.guests in (r, record s { guests = g })

  abbrev pub en_invitaciones : Action Invitaciones GuestError A → Action (Boda Q) GuestError A
  en_invitaciones m s = let (r, i) = m s.invitaciones in (r, record s { invitaciones = i })

-- `cambios.email !== undefined && cambios.email !== existente.email`
abbrev pub mismo_email : Option Text → Option Text → Bool
mismo_email none none = true
mismo_email (some a) (some b) = text_eq a b
mismo_email _ _ = false

abbrev pub cambia_email : Option (Option Text) → Option Text → Bool
cambia_email none actual = false
cambia_email (some nuevo) actual = not (mismo_email nuevo actual)

-- `companionsAllowed !== undefined && !cupoCubreConfirmados(…)`
abbrev pub baja_del_confirmado : Option ℕ → Option ℕ → Bool
baja_del_confirmado none confirmados = false
baja_del_confirmado (some permitidos) confirmados =
    not (cupo_cubre_confirmados permitidos confirmados)

module _ {Q : Type 0} where
  -- `CreateGuestUseCase`; `base` is the table's first instant.
  unfoldable pub crear_invitado : ℕ → ℕ → DatosCrearInvitado → ℕ → Action (Boda Q) GuestError Guest
  crear_invitado event_id base datos uuid =
      en_guests (crear base uuid (record datos { event_id = event_id }))

  -- `GetGuestUseCase`
  unfoldable pub leer_invitado : ℕ → ℕ → Action (Boda Q) GuestError Guest
  leer_invitado event_id guest_id = do
    hallado ← gets (λ s. buscar event_id guest_id s.guests)
    or_throw hallado invitado_no_encontrado

  -- `DeleteGuestUseCase`
  unfoldable pub borrar_invitado : ℕ → ℕ → Action (Boda Q) GuestError (Unit {0})
  unfolding leer_invitado
  borrar_invitado event_id guest_id = do
    existente ← leer_invitado event_id guest_id
    modify (λ s. record s { guests = borrar event_id guest_id s.guests })

  -- The change of an e-mail, with the links that already went out.
  abbrev pub cambiar_y_caducar : ℕ → ℕ → CambiosInvitado → ℕ → Action (Boda Q) GuestError Guest
  cambiar_y_caducar event_id guest_id c ahora = do
    actualizado ← en_guests (actualizar event_id guest_id c)
    modify (λ s. record s { invitaciones = caducar_vigentes_de guest_id ahora s.invitaciones })
    pure actualizado

  -- `UpdateGuestUseCase`
  unfoldable pub editar_invitado : ℕ → ℕ → CambiosInvitado → ℕ → Action (Boda Q) GuestError Guest
  editar_invitado event_id guest_id c ahora = do
    hallado ← gets (λ s. buscar event_id guest_id s.guests)
    existente ← or_throw hallado invitado_no_encontrado
    throw_if (baja_del_confirmado c.companions_allowed existente.companions_confirmed)
        acompanantes_excedidos
    choose (cambia_email c.email existente.email)
        (en_transaccion (cambiar_y_caducar event_id guest_id c ahora))
        (en_guests (actualizar event_id guest_id c))

  -- `GuestSummaryUseCase`
  unfoldable pub resumen_de_invitados : ℕ → Boda Q → GuestSummary
  resumen_de_invitados event_id s =
      resumir_por_estado (contar_por_estado event_id s.guests)
        (sumar_acompanantes_confirmados event_id s.guests)

-- The answer of a guest: `rsvp` is `CONFIRMED` or `DECLINED`, and an absent `dietary` is the outer
-- `none`.
pub data Asistencia : Type 0 where
  viene no_viene : Asistencia

abbrev pub estado_de : Asistencia → RsvpStatus
estado_de viene = confirmed
estado_de no_viene = declined

pub record RespuestaRsvp : Type 0 where
  pub rsvp : Asistencia
  pub dietary : Option (Option Text)
  pub companions : Option ℕ

abbrev pub acompanantes : RespuestaRsvp → ℕ
acompanantes r = elim r.rsvp [ no_viene ↦ 0 | viene ↦ get_or r.companions 0 ]

abbrev pub cambios_de : RespuestaRsvp → CambiosInvitado
cambios_de r = record {
  name = none;
  email = none;
  group = none;
  rsvp = some (estado_de r.rsvp);
  dietary = r.dietary;
  companions_allowed = none;
  companions_confirmed = some (some (acompanantes r));
}

pub record VistaPublicaRsvp : Type 0 where
  pub guest_name : Text
  pub wedding_date : Option ℕ
  pub rsvp : RsvpStatus
  pub dietary : Option Text
  pub companions_allowed : ℕ
  pub companions_confirmed : Option ℕ
  pub rsvp_closes_at : Option ℤ

module _ {Q : Type 0} (enqueue : JobId → DatosDeTrabajo → Q → Bool × Q)
    (hash_de_token : ℕ → ℕ) where
  -- `GetRsvpUseCase`, without the event's name, which the invitations' model does not keep.
  unfoldable pub ver_rsvp : ℕ → ℕ → Action (Boda Q) GuestError VistaPublicaRsvp
  ver_rsvp token ahora = do
    legible ← gets (λ s. buscar_legible hash_de_token token ahora s.invitaciones)
    i ← of_result legible
    hallado ← gets (λ s. buscar i.guest.event_id i.guest.id s.guests)
    g ← or_throw hallado invitacion_no_valida
    pure (record {
      guest_name = g.name;
      wedding_date = i.event.wedding_date;
      rsvp = g.rsvp;
      dietary = g.dietary;
      companions_allowed = g.companions_allowed;
      companions_confirmed = g.companions_confirmed;
      rsvp_closes_at = cierre_rsvp i.event;
    })

  abbrev pub aviso_de : InvitacionCompleta → RespuestaRsvp → AvisoRsvp
  aviso_de i r = record {
    guest_id = i.guest.id;
    guest_name = i.guest.name;
    rsvp = estado_de r.rsvp;
  }

  abbrev pub tipo_rsvp_actualizado : Text
  tipo_rsvp_actualizado = codes "guest.rsvp.updated"

  abbrev pub marcar : ℕ → ℕ → Action (Boda Q) GuestError (Unit {0})
  marcar id ahora s =
      let (escrita, t) = marcar_respondida id ahora s.invitaciones in
      throw_if (not escrita) invitacion_no_valida (record s { invitaciones = t })

  abbrev pub notificar : InvitacionCompleta → RespuestaRsvp → Action (Boda Q) GuestError (Unit {0})
  notificar i r s =
      let (guardada, t) =
        crear_para_miembros i.guest.event_id tipo_rsvp_actualizado (aviso_de i r) s.avisos in
      throw_if (not guardada) notificacion_no_guardada (record s { avisos = t })

  -- The work of the transaction.
  abbrev pub guardar_respuesta :
      InvitacionCompleta → RespuestaRsvp → ℕ → Action (Boda Q) GuestError (Unit {0})
  guardar_respuesta i r ahora = do
    marcar i.id ahora
    en_guests (actualizar i.guest.event_id i.guest.id (cambios_de r))
    notificar i r

  -- The job goes out behind the commit, and a failure to enqueue it is swallowed.
  abbrev pub encolar_aviso :
      InvitacionCompleta → RespuestaRsvp → ℕ → Action (Boda Q) GuestError (Unit {0})
  encolar_aviso i r ahora = modify (λ s. record s {
    cola =
        (enqueue (rsvp_job i.id ahora) (guest_rsvp_updated i.guest.event_id (aviso_de i r))
          s.cola).1;
  })

  -- `SubmitRsvpUseCase`. `entorno` is what other requests do between the readings and the transaction.
  unfoldable pub responder_rsvp :
      (Boda Q → Boda Q) → ℕ → RespuestaRsvp → ℕ → Action (Boda Q) GuestError (Unit {0})
  responder_rsvp entorno token r ahora = do
    respondible ← gets (λ s. buscar_respondible hash_de_token token ahora s.invitaciones)
    i ← of_result respondible
    hallado ← gets (λ s. buscar i.guest.event_id i.guest.id s.guests)
    g ← or_throw hallado invitacion_no_valida
    throw_if (not (cupo_cubre_confirmados g.companions_allowed (some (acompanantes r))))
        acompanantes_excedidos
    modify entorno
    en_transaccion (guardar_respuesta i r ahora)
    encolar_aviso i r ahora
