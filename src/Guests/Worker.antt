-- ===== src/Guests/Worker.antt =====
-- src/modules/guests/interfaces/invitation.processor.ts: the worker that mails the invitations. The mail
-- provider, the failures of the storage and the clock of each attempt are parameters. The queue runs
-- `process` at each attempt, and a worker that lives runs `alFallar` at the event `failed`.
pub mod Laws
pub mod GivenUp
mod Tests
use wedding_planner_backend.Guests.Store.{
  buscar, caducar, marcar_enviada, Invitaciones, InvitacionCompleta,
}
use wedding_planner_backend.Guests.Invitation.{queued, estado_eq}
use wedding_planner_backend.Prelude.{
  ℕ, List, Bool, Option, some, none, true, ◌∷◌, ◌==◌, filter, if◌then◌else◌, not, leb, false,
  is_some, ◌-◌, ◌+◌, ◌&&◌, ◌||◌, ltb, any,
}
use wedding_planner_backend.Prelude.Monad.{Result, ok, err}

-- `UnrecoverableError`, and any other error.
pub data ErrorDeTrabajo : Type 0 where
  irrecuperable otro_error : ErrorDeTrabajo

abbrev pub es_irrecuperable : ErrorDeTrabajo → Bool
es_irrecuperable irrecuperable = true
es_irrecuperable otro_error = false

-- What an attempt meets: the clock, the provider's answer (with the message's id, where it has one), and
-- whether the storage fails to mark and to expire.
pub record Intento : Type 0 where
  pub ahora : ℕ
  pub mail : Result ErrorDeTrabajo (Option ℕ)
  pub falla_marcar : Bool
  pub falla_caducar : Bool

-- `salidas` are the idempotency keys of the mails that went out, the invitations' ids.
pub record Correo : Type 0 where
  pub invitaciones : Invitaciones
  pub salidas : List ℕ
  pub enviadas_sin_marcar : List ℕ

-- How `enviar` ends; a mail that went out may be followed by an error.
pub data Envio : Type 0 where
  hecho : Envio
  fallo_sin_salir fallo_tras_salir : ErrorDeTrabajo → Envio

abbrev pub con_salida : ℕ → Correo → Correo
con_salida id s = record s { salidas = id ∷ s.salidas }

abbrev pub marcar_envio : ℕ → Option ℕ → Bool → Correo → Envio × Correo
marcar_envio id mensaje falla s =
    if falla
    then (fallo_tras_salir otro_error, s)
    else (hecho, record s { invitaciones = marcar_enviada id mensaje s.invitaciones })

abbrev pub se_manda : InvitacionCompleta → ℕ → Bool
se_manda i ahora = estado_eq i.status queued && (ltb ahora i.expires_at && is_some i.guest.email)

-- `enviar`: the jobs that are discarded end well.
unfoldable pub enviar : ℕ → Intento → Correo → Envio × Correo
enviar id x s = elim (buscar id s.invitaciones) [
  | none ↦ (hecho, s)
  | some i ↦
      if se_manda i x.ahora
      then (elim x.mail [
        | err e ↦ (fallo_sin_salir e, s)
        | ok mensaje ↦ marcar_envio id mensaje x.falla_marcar (con_salida id s)
      ])
      else (hecho, s)
]

-- `esUltimoIntento`; `hechos` counts the attempts that are over.
abbrev pub es_ultimo_intento : ℕ → ℕ → ErrorDeTrabajo → Bool
es_ultimo_intento hechos intentos e = es_irrecuperable e || leb intentos (hechos + 1)

-- `caducarSinOcultar`
unfoldable pub caducar_sin_ocultar : ℕ → Intento → Correo → Correo
caducar_sin_ocultar id x s =
    if x.falla_caducar then s else record s { invitaciones = caducar id x.ahora s.invitaciones }

-- `process`, for a payload that the schema reads (`some`) or not.
unfoldable pub procesar :
    Option ℕ → ℕ → ℕ → Intento → Correo → Result ErrorDeTrabajo (Unit {0}) × Correo
procesar none hechos intentos x s = (err irrecuperable, s)
procesar (some id) hechos intentos x s =
    let (r, s') = enviar id x s in
    elim r [
      | hecho ↦ (ok tt, s')
      | fallo_tras_salir e ↦
          (err e, record s' { enviadas_sin_marcar = id ∷ s'.enviadas_sin_marcar })
      | fallo_sin_salir e ↦
          (err e, if es_ultimo_intento hechos intentos e then caducar_sin_ocultar id x s' else s')
    ]

-- `alFallar`, on the event `failed`, which counts the attempt that failed among those made.
unfoldable pub al_fallar : Option ℕ → ℕ → ℕ → ErrorDeTrabajo → Intento → Correo → Correo
al_fallar none hechos intentos e x s = s
al_fallar (some id) hechos intentos e x s =
    if any (λ m. m == id) s.enviadas_sin_marcar
    then record s { enviadas_sin_marcar = filter (λ m. not (m == id)) s.enviadas_sin_marcar }
    else (if ltb 0 (intentos - hechos) && not (es_irrecuperable e)
        then s
        else caducar_sin_ocultar id x s)
