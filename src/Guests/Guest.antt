-- ===== src/Guests/Guest.antt =====
-- src/modules/guests/domain: guest.ts and guest-errors.ts.
use wedding_planner_backend.Prelude.{ℕ, true, Option, leb, false, List, none, ◌+◌, some, Bool}
use wedding_planner_backend.Shared.Text.{Text}

pub data RsvpStatus : Type 0 where
  confirmed pending declined : RsvpStatus

pub record Guest : Type 0 where
  pub id : ℕ
  pub event_id : ℕ
  pub name : Text
  pub email : Option Text
  pub group : Text
  pub rsvp : RsvpStatus
  pub dietary : Option Text
  pub companions_allowed : ℕ
  pub companions_confirmed : Option ℕ
  pub created_at : ℕ

pub record GuestSummary : Type 0 where
  pub total : ℕ
  pub confirmed : ℕ
  pub pending : ℕ
  pub declined : ℕ
  pub attending : ℕ

pub record Conteo : Type 0 where
  pub confirmed : ℕ
  pub pending : ℕ
  pub declined : ℕ

unfoldable pub resumir_por_estado : Conteo → ℕ → GuestSummary
resumir_por_estado conteo acompanantes_confirmados = record {
  total = conteo.confirmed + conteo.pending + conteo.declined;
  confirmed = conteo.confirmed;
  pending = conteo.pending;
  declined = conteo.declined;
  attending = conteo.confirmed + acompanantes_confirmados;
}

abbrev pub cupo_cubre_confirmados : ℕ → Option ℕ → Bool
cupo_cubre_confirmados permitidos none = true
cupo_cubre_confirmados permitidos (some confirmados) = leb confirmados permitidos

abbrev pub rsvp_eq : RsvpStatus → RsvpStatus → Bool
rsvp_eq confirmed confirmed = true
rsvp_eq pending pending = true
rsvp_eq declined declined = true
rsvp_eq _ _ = false

pub data CodigoDeFila : Type 0 where
  invalid duplicated_in_file already_invited : CodigoDeFila

pub record ErrorDeFila : Type 0 where
  pub row : ℕ
  pub field : Text
  pub code : CodigoDeFila

-- The errors of the module. `fila_inexistente` and `token_hash_duplicado` stand for what the storage
-- throws for itself, `cola_caida` for what the queue throws,
-- `notificacion_no_guardada` for what the notifications throw.
pub data GuestError : Type 0 where
  invitado_no_encontrado email_duplicado guest_has_no_email invitacion_no_valida : GuestError
  acompanantes_excedidos rsvp_cerrado : GuestError
  importacion_invalida : List ErrorDeFila → GuestError
  token_hash_duplicado fila_inexistente cola_caida notificacion_no_guardada : GuestError
