-- ===== src/Guests/Tests.antt =====
-- Invitations at concrete inputs: guest 3 of event 1 has the invitation 10, which was sent.
use wedding_planner_backend.Guests.Store.{Invitado, Invitaciones, InvitacionCompleta}
use wedding_planner_backend.Prelude.{ℕ, ◌∷◌, true, suc, [], Bool, some, none}
use wedding_planner_backend.Guests.Invitation.{sent, DatosDeCierre}
use wedding_planner_backend.Guests.Delivery.{manejar_entrega, email_bounced, JobEstadoInvitacion}
use wedding_planner_backend.Guests.Laws.{manejar_entrega-Avanzan, Avanzan}

abbrev ana : Invitado
ana = record { id = 3; event_id = 1; name = []; email = none }

abbrev boda : DatosDeCierre
boda = record { wedding_date = some 2000000000; rsvp_deadline_days = 14 }

abbrev enviada : InvitacionCompleta
enviada = record {
  id = 10;
  status = sent;
  expires_at = 900;
  responded_at = none;
  resend_message_id = some 77;
  guest = ana;
  event = boda;
  token_hash = 1005;
}

abbrev tabla : Invitaciones
tabla = record { filas = enviada ∷ []; invitados = record { guest = ana; event = boda } ∷ [] }

abbrev cola : JobEstadoInvitacion → ℕ → Bool × ℕ
cola job n = (true, suc n)

manejar_entrega-Avanzan_example :
    Avanzan tabla.filas (manejar_entrega cola email_bounced 77 (tabla, 0)).0.filas
manejar_entrega-Avanzan_example = manejar_entrega-Avanzan cola email_bounced 77 tabla 0
