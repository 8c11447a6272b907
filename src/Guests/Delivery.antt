-- ===== src/Guests/Delivery.antt =====
-- src/modules/guests/application/handle-delivery-event.use-case.ts. The queue is a parameter: its
-- state, and `enqueue`, which may fail. The types of the provider's events are a data type, all the
-- types that the code ignores being one constructor.
use wedding_planner_backend.Prelude.{ℕ, List, some, Bool, Option, ◌∷◌, [], none}
use wedding_planner_backend.Guests.Invitation.{delivered, bounced, complained, InvitationStatus}
use wedding_planner_backend.Guests.Store.{
  Invitaciones, actualizar_estado_por_message_id, InvitacionAvanzada,
}

pub data TipoDeEvento : Type 0 where
  email_delivered email_bounced email_complained otro : TipoDeEvento

unfoldable pub mapear_estado_resend : TipoDeEvento → Option InvitationStatus
mapear_estado_resend email_delivered = some delivered
mapear_estado_resend email_bounced = some bounced
mapear_estado_resend email_complained = some complained
mapear_estado_resend otro = none

pub record JobEstadoInvitacion : Type 0 where
  pub event_id : ℕ
  pub guest_id : ℕ
  pub invitation_id : ℕ
  pub status : InvitationStatus

module _ {Q : Type 0} (enqueue : JobEstadoInvitacion → Q → Bool × Q) where
  -- The loop over the invitations that advanced; a failure to enqueue is swallowed.
  abbrev pub avisar : InvitationStatus → List InvitacionAvanzada → Q → Q
  avisar estado [] q = q
  avisar estado (a ∷ as_rest) q = avisar estado as_rest (
      (enqueue
        (record {
          event_id = a.event_id;
          guest_id = a.guest_id;
          invitation_id = a.invitation_id;
          status = estado;
        })
        q).1)

  -- `HandleDeliveryEventUseCase.ejecutar`
  unfoldable pub manejar_entrega : TipoDeEvento → ℕ → Invitaciones × Q → Invitaciones × Q
  manejar_entrega tipo message_id (s, q) = elim (mapear_estado_resend tipo) [
    | none ↦ (s, q)
    | some estado ↦
        let (avanzadas, s') = actualizar_estado_por_message_id message_id estado s in
        (s', avisar estado avanzadas q)
  ]
