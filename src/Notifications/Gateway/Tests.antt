-- ===== src/Notifications/Gateway/Tests.antt =====
-- The gateway at concrete inputs: the administrator 7 asks for the room of event 1.
use wedding_planner_backend.Prelude.{
  List, none, arith, ◌*◌, false, ◌≤◌, ◌+◌, [], some, ◌∷◌, ℕ, true, ◌⊎◌, ◌≡◌,
}
use wedding_planner_backend.Users.{User, SystemRole}
use wedding_planner_backend.Notifications.Gateway.{
  Servidor, Salas, DatosDeSocket, cubo_lleno, tomar_ficha, unirse, tomar_todas, ms_por_ficha,
}
use wedding_planner_backend.Notifications.Gateway.Laws.{unirse-Salida, Salida, tomar_todas_bound}
use wedding_planner_backend.Shared.Text.{codes, Text, text_eq}
use wedding_planner_backend.Notifications.Processor.{
  tipo_aviso_rsvp, JobDeAviso, a_usuario, avisos_a, procesar_aviso, procesar_aviso_cases,
  tipo_estado_invitacion, a_evento, apuntar, Ilegible,
}
use wedding_planner_backend.Notifications.Store.{Buzon}
use wedding_planner_backend.Prelude.Monad.{ok, err}
use wedding_planner_backend.Guests.Worker.{irrecuperable}

abbrev salas : Salas (List Text)
salas = record { id_text = λ n. n ∷ []; unir = λ sala r. sala ∷ r; dejar = λ sala r. r }

abbrev cubo : DatosDeSocket
cubo = record { user_id = 7; token = 1; fichas = cubo_lleno; recargado_en = 100 }

abbrev ana : User
ana = record {
  id = 7;
  email = [];
  full_name = [];
  system_role = SystemRole.admin;
  email_verified_at = none;
  password_hash = 0;
}

abbrev servidor : Servidor (List Text)
servidor = record {
  verificar_access = λ t. some (record { sub = 7; role = codes "ADMIN"; exp = 9 });
  usuarios = ana ∷ [];
  eventos = record {
    eventos = [];
    membresias = [];
    perfiles = [];
    event_vendors = [];
    auditoria = [];
  };
  caida = false;
  reloj = 200;
  socket = cubo;
  red = [];
}

unirse-Salida_example :
    Salida salas
      (λ k s. s)
      (some 1)
      true
      (record servidor { socket = (tomar_ficha 200 cubo).1 })
      (unirse salas (λ k s. s) (some 1) servidor)
unfolding tomar_ficha
unirse-Salida_example = unirse-Salida salas (λ k s. s) (some 1) servidor

tomar_todas_bound_example :
    ms_por_ficha * tomar_todas (150 ∷ 4000 ∷ []) cubo + 100 ≤ cubo_lleno + 5000
tomar_todas_bound_example =
    tomar_todas_bound (150 ∷ 4000 ∷ []) cubo 5000 (omega arith, (omega arith, omega arith))

abbrev buzon : Buzon ℕ
buzon = record { filas = []; miembros = λ event_id. 7 ∷ 8 ∷ [] }

abbrev job : JobDeAviso
job = record { name = codes "guest.rsvp.updated"; aviso_rsvp = some 1; estado_invitacion = none }

procesar_aviso_cases_example :
    ((event_id : ℕ) × (text_eq job.name tipo_aviso_rsvp ≡ true)
      × (job.aviso_rsvp ≡ some event_id)
      × (procesar_aviso (apuntar a_evento) (apuntar a_usuario) job buzon []
          ≡ (ok tt, a_evento event_id tipo_aviso_rsvp ∷ avisos_a (buzon.miembros event_id))))
    ⊎ (((event_id : ℕ) × (text_eq job.name tipo_estado_invitacion ≡ true)
          × (text_eq job.name tipo_aviso_rsvp ≡ false)
          × (job.estado_invitacion ≡ some event_id)
          × (procesar_aviso (apuntar a_evento) (apuntar a_usuario) job buzon []
              ≡ (ok tt, a_evento event_id tipo_estado_invitacion ∷ [])))
        ⊎ (Ilegible job
            × (procesar_aviso (apuntar a_evento) (apuntar a_usuario) job buzon []
                ≡ (err irrecuperable, []))))
procesar_aviso_cases_example = procesar_aviso_cases job buzon []
