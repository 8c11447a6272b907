-- ===== src/Guests/Worker/Tests.antt =====
-- A job of five attempts, at its last one, whose mail the provider refuses.
use wedding_planner_backend.Guests.Worker.{Correo, otro_error, Intento}
use wedding_planner_backend.Guests.Invitation.{queued}
use wedding_planner_backend.Guests.Store.{InvitacionCompleta}
use wedding_planner_backend.Prelude.{ℕ, ◌∷◌, some, [], false, none}
use wedding_planner_backend.Prelude.Monad.{err}

abbrev en_espera : InvitacionCompleta
en_espera = record {
  id = 9;
  status = queued;
  expires_at = 900;
  responded_at = none;
  resend_message_id = none;
  guest = record { id = 3; event_id = 1; name = []; email = some [] };
  event = record { wedding_date = none; rsvp_deadline_days = 7 };
  token_hash = 1005;
}

abbrev correo : Correo
correo = record {
  invitaciones = record { filas = en_espera ∷ []; invitados = [] };
  salidas = [];
  enviadas_sin_marcar = [];
}

abbrev rechazo : ℕ → Intento
rechazo ahora = record {
  ahora = ahora;
  mail = err otro_error;
  falla_marcar = false;
  falla_caducar = false;
}
