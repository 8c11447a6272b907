-- ===== src/Guests/Invitation.antt =====
-- src/modules/guests/domain/invitation.ts. The closing instant of an event may lie before the epoch,
-- so it is an integer.
use wedding_planner_backend.Prelude.{
  ℕ, ◌+◌, List, some, Bool, Option, ◌∷◌, filter, [], true, ◌&&◌, none, ◌==◌, ◌*◌, ltb,
}
use wedding_planner_backend.Prelude.Int.{ℤ, pos, sub_ℕ, ltb_ℤ}

pub data InvitationStatus : Type 0 where
  queued sent delivered bounced complained responded : InvitationStatus

abbrev pub dias_de_validez : ℕ
dias_de_validez = 90

unfoldable pub caducidad_invitacion : ℕ → ℕ
caducidad_invitacion desde = desde + dias_de_validez * 86400000

-- `ORDEN`
abbrev pub orden : InvitationStatus → ℕ
orden queued = 0
orden sent = 1
orden delivered = 2
orden bounced = 3
orden complained = 3
orden responded = 4

-- The statuses in the order of `ORDEN`'s keys.
abbrev pub estados : List InvitationStatus
estados = queued ∷ sent ∷ delivered ∷ bounced ∷ complained ∷ responded ∷ []

abbrev pub numero_de_estado : InvitationStatus → ℕ
numero_de_estado queued = 0
numero_de_estado sent = 1
numero_de_estado delivered = 2
numero_de_estado bounced = 3
numero_de_estado complained = 4
numero_de_estado responded = 5

-- Two statuses are compared as the texts that they are in the source.
abbrev pub estado_eq : InvitationStatus → InvitationStatus → Bool
estado_eq a b = numero_de_estado a == numero_de_estado b

unfoldable pub estados_que_pueden_avanzar_a : InvitationStatus → List InvitationStatus
estados_que_pueden_avanzar_a destino = filter (λ e. ltb (orden e) (orden destino)) estados

pub record DatosDeCierre : Type 0 where
  pub wedding_date : Option ℕ
  pub rsvp_deadline_days : ℕ

unfoldable pub cierre_rsvp : DatosDeCierre → Option ℤ
cierre_rsvp evento = elim evento.wedding_date [
  | none ↦ none
  | some fecha ↦ some (sub_ℕ fecha (evento.rsvp_deadline_days * 86400000))
]

unfoldable pub admite_lectura : ℕ → ℕ → Bool
admite_lectura expires_at ahora = ltb ahora expires_at

unfoldable pub admite_respuesta : ℕ → DatosDeCierre → ℕ → Bool
admite_respuesta expires_at evento ahora =
    admite_lectura expires_at ahora
    && (elim (cierre_rsvp evento) [ none ↦ true | some cierre ↦ ltb_ℤ (pos ahora) cierre ])
