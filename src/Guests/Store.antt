-- ===== src/Guests/Store.antt =====
-- src/modules/guests/application/invitation.repository.ts and invitacion-valida.ts, by the in-memory
-- implementation (src/modules/guests/infrastructure/invitation.repository.fake.ts) without its test
-- helpers. The hash of a row's token stands in the row. SHA-256 is a parameter.
use wedding_planner_backend.Prelude.{
  ℕ, false, ◌++◌, modify_all, List, some, if◌then◌else◌, Bool, any, modify_first, Option, ◌∷◌,
  filter, [], true, ◌&&◌, find?, none, map, ◌==◌, ltb,
}
use wedding_planner_backend.Shared.Text.{Text}
use wedding_planner_backend.Prelude.Monad.{
  ◌>>◌, gets, Result, throw_if, or_throw, Action, pure, ok, ◌>>=◌, err, modify,
}
use wedding_planner_backend.Guests.Invitation.{
  responded, admite_lectura, queued, estados_que_pueden_avanzar_a, InvitationStatus, sent,
  estado_eq, DatosDeCierre, admite_respuesta,
}
use wedding_planner_backend.Guests.Guest.{
  invitado_no_encontrado, GuestError, invitacion_no_valida, token_hash_duplicado, rsvp_cerrado,
}

pub record Invitado : Type 0 where
  pub id : ℕ
  pub event_id : ℕ
  pub name : Text
  pub email : Option Text

pub record InvitacionCompleta : Type 0 where
  pub id : ℕ
  pub status : InvitationStatus
  pub expires_at : ℕ
  pub responded_at : Option ℕ
  pub resend_message_id : Option ℕ
  pub guest : Invitado
  pub event : DatosDeCierre
  pub token_hash : ℕ

-- A guest that exists, with the data of the event.
pub record InvitadoConocido : Type 0 where
  pub guest : Invitado
  pub event : DatosDeCierre

pub record Invitaciones : Type 0 where
  pub filas : List InvitacionCompleta
  pub invitados : List InvitadoConocido

pub record DatosCrearInvitacion : Type 0 where
  pub guest_id : ℕ
  pub token_hash : ℕ
  pub expires_at : ℕ

abbrev pub fila_nueva : ℕ → DatosCrearInvitacion → InvitadoConocido → InvitacionCompleta
fila_nueva uuid datos c = record {
  id = uuid;
  status = queued;
  expires_at = datos.expires_at;
  responded_at = none;
  resend_message_id = none;
  guest = c.guest;
  event = c.event;
  token_hash = datos.token_hash;
}

unfoldable pub crear : ℕ → DatosCrearInvitacion → Action Invitaciones GuestError ℕ
crear uuid datos = do
  conocido ← gets (λ s. find? (λ c. c.guest.id == datos.guest_id) s.invitados)
  c ← or_throw conocido invitado_no_encontrado
  repetido ← gets (λ s. any (λ f. f.token_hash == datos.token_hash) s.filas)
  throw_if repetido token_hash_duplicado
  modify (λ s. record s { filas = s.filas ++ fila_nueva uuid datos c ∷ [] })
  pure uuid

unfoldable pub buscar : ℕ → Invitaciones → Option InvitacionCompleta
buscar id s = find? (λ f. f.id == id) s.filas

abbrev pub incluye : List InvitationStatus → InvitationStatus → Bool
incluye desde estado = any (λ e. estado_eq e estado) desde

unfoldable pub marcar_enviada : ℕ → Option ℕ → Invitaciones → Invitaciones
marcar_enviada id provider_message_id s = elim (buscar id s) [
  | none ↦ s
  | some f ↦
      if incluye (estados_que_pueden_avanzar_a sent) f.status
      then record s {
        filas =
            modify_first (λ r. r.id == id)
              (λ r. record r { status = sent; resend_message_id = provider_message_id }) s.filas;
      }
      else s
]

unfoldable pub buscar_por_hash : ℕ → Invitaciones → Option InvitacionCompleta
buscar_por_hash hash s = find? (λ f. f.token_hash == hash) s.filas

unfoldable pub marcar_respondida : ℕ → ℕ → Invitaciones → Bool × Invitaciones
marcar_respondida id ahora s = elim (buscar id s) [
  | none ↦ (false, s)
  | some f ↦
      if admite_lectura f.expires_at ahora
      then (
        true,
        record s {
          filas =
              modify_first (λ r. r.id == id)
                (λ r. record r { status = responded; responded_at = some ahora }) s.filas;
        },
      )
      else (false, s)
]

unfoldable pub caducar : ℕ → ℕ → Invitaciones → Invitaciones
caducar id ahora s = record s {
  filas = modify_first (λ r. r.id == id) (λ r. record r { expires_at = ahora }) s.filas;
}

abbrev pub vigente_de : ℕ → ℕ → InvitacionCompleta → Bool
vigente_de guest_id ahora f = f.guest.id == guest_id && ltb ahora f.expires_at

unfoldable pub caducar_vigentes_de : ℕ → ℕ → Invitaciones → Invitaciones
caducar_vigentes_de guest_id ahora s = record s {
  filas = modify_all (vigente_de guest_id ahora) (λ r. record r { expires_at = ahora }) s.filas;
}

pub record InvitacionAvanzada : Type 0 where
  pub invitation_id : ℕ
  pub guest_id : ℕ
  pub event_id : ℕ

abbrev pub es_mensaje : ℕ → Option ℕ → Bool
es_mensaje message_id none = false
es_mensaje message_id (some m) = m == message_id

-- A row that the event of a message takes to a status.
abbrev pub avanza : ℕ → InvitationStatus → InvitacionCompleta → Bool
avanza message_id estado f =
    es_mensaje message_id f.resend_message_id
    && incluye (estados_que_pueden_avanzar_a estado) f.status

unfoldable pub actualizar_estado_por_message_id :
    ℕ → InvitationStatus → Invitaciones → List InvitacionAvanzada × Invitaciones
actualizar_estado_por_message_id message_id estado s = (
  map (λ f. record { invitation_id = f.id; guest_id = f.guest.id; event_id = f.guest.event_id })
      (filter (avanza message_id estado) s.filas),
  record s {
    filas = modify_all (avanza message_id estado) (λ f. record f { status = estado }) s.filas;
  },
)

module _ (hash_de_token : ℕ → ℕ) where
  -- `buscarInvitacionLegible`
  unfoldable pub buscar_legible : ℕ → ℕ → Invitaciones → Result GuestError InvitacionCompleta
  buscar_legible token ahora s = elim (buscar_por_hash (hash_de_token token) s) [
    | none ↦ err invitacion_no_valida
    | some i ↦ if admite_lectura i.expires_at ahora then ok i else err invitacion_no_valida
  ]

  -- `buscarInvitacionRespondible`
  unfoldable pub buscar_respondible : ℕ → ℕ → Invitaciones → Result GuestError InvitacionCompleta
  buscar_respondible token ahora s = elim (buscar_legible token ahora s) [
    | err e ↦ err e
    | ok i ↦ if admite_respuesta i.expires_at i.event ahora then ok i else err rsvp_cerrado
  ]
