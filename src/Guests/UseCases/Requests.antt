-- ===== src/Guests/UseCases/Requests.antt =====
-- The guests' table through any sequence of requests of the module, served one after the other.
pub mod Editing
pub mod Answering
pub mod Sound
use wedding_planner_backend.Guests.UseCases.{
  Boda, en_guests, RespuestaRsvp, borrar_invitado, editar_invitado, crear_invitado, DatosDeTrabajo,
  responder_rsvp,
}
use wedding_planner_backend.Guests.Table.{CambiosInvitado, DatosCrearInvitado}
use wedding_planner_backend.Prelude.{ℕ, List, Bool, none, ◌∷◌, []}
use wedding_planner_backend.Queue.{JobId, enqueue}
use wedding_planner_backend.Shared.Text.{Text}
use wedding_planner_backend.Guests.Guest.{Guest}
use wedding_planner_backend.Guests.UseCases.Import.{importar, FilaImportacion}
use wedding_planner_backend.Guests.UseCases.Send.{
  enviar_invitacion, SorteoInvitacion, enviar_invitaciones,
}

-- The body of an edition has no `companionsConfirmed`: the schema of the route leaves it out.
pub data Peticion : Type 0 where
  alta : ℕ → DatosCrearInvitado → Peticion
  edicion : ℕ → ℕ → CambiosInvitado → Peticion
  baja : ℕ → ℕ → Peticion
  importacion : ℕ → List FilaImportacion → Peticion
  respuesta : ℕ → RespuestaRsvp → Peticion
  envio : ℕ → ℕ → SorteoInvitacion → Peticion
  envio_masivo : ℕ → (ℕ → SorteoInvitacion) → Peticion

abbrev pub sin_confirmados : CambiosInvitado → CambiosInvitado
sin_confirmados c = record c { companions_confirmed = none }

-- A request behind others finds no row changed since it began.
module _ {Q : Type 0} (enqueue : JobId → DatosDeTrabajo → Q → Bool × Q) (hash_de_token : ℕ → ℕ)
    (to_lower_case : Text → Text) (base : ℕ) (nuevo : List Guest → ℕ) where
  abbrev pub atender : Peticion → ℕ → Boda Q → Boda Q
  atender (alta event datos) ahora s = (crear_invitado event base datos (nuevo s.guests) s).1
  atender (edicion event guest c) ahora s =
      (editar_invitado event guest (sin_confirmados c) ahora s).1
  atender (baja event guest) ahora s = (borrar_invitado event guest s).1
  atender (importacion event filas) ahora s =
      (en_guests (importar to_lower_case (λ xs. xs) base nuevo event filas) s).1
  atender (respuesta token r) ahora s =
      (responder_rsvp enqueue hash_de_token (λ t. t) token r ahora s).1
  atender (envio event guest sorteo) ahora s =
      (enviar_invitacion enqueue hash_de_token event guest sorteo ahora s).1
  atender (envio_masivo event sorteo) ahora s =
      (enviar_invitaciones enqueue hash_de_token event sorteo ahora s).1

  unfoldable pub atender_todas : List (Peticion × ℕ) → Boda Q → Boda Q
  atender_todas [] s = s
  atender_todas ((p, ahora) ∷ ps) s = atender_todas ps (atender p ahora s)
