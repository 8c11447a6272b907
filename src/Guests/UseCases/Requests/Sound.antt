-- ===== src/Guests/UseCases/Requests/Sound.antt =====
-- The guests' table through any sequence of requests.
use wedding_planner_backend.Guests.UseCases.Requests.{
  Peticion, atender_todas, atender, alta, envio_masivo, respuesta, envio, importacion, baja,
  edicion,
}
use wedding_planner_backend.Guests.UseCases.{Boda, DatosDeTrabajo, crear_invitado}
use wedding_planner_backend.Guests.Table.{ordenadas}
use wedding_planner_backend.Guests.Table.Invariant.{Sana, crear-Sana, fresco}
use wedding_planner_backend.Prelude.{ℕ, List, Bool, ◌≡◌, [], ◌∷◌, true}
use wedding_planner_backend.Queue.{JobId}
use wedding_planner_backend.Shared.Text.{Text}
use wedding_planner_backend.Guests.Guest.{Guest}
use wedding_planner_backend.Guests.UseCases.Send.{enviar_invitaciones}
use wedding_planner_backend.Guests.UseCases.Requests.Editing.{
  borrar_invitado-Sana, editar_invitado-Sana, importar-Sana,
}
use wedding_planner_backend.Guests.UseCases.Requests.Answering.{
  responder_rsvp-Sana, enviar_a_todos-guests, enviar_invitacion-guests,
}

module _ {Q : Type 0} (enqueue : JobId → DatosDeTrabajo → Q → Bool × Q) (hash_de_token : ℕ → ℕ)
    (to_lower_case : Text → Text) (base : ℕ) (nuevo : List Guest → ℕ)
    (f : (xs : List Guest) → fresco (nuevo xs) xs ≡ true) where
  pub atender-Sana :
      (p : Peticion) (ahora : ℕ) (s : Boda Q)
      → Sana s.guests
      → Sana (atender enqueue hash_de_token to_lower_case base nuevo p ahora s).guests
  unfolding crear_invitado enviar_invitaciones
  atender-Sana (alta event datos) ahora s h =
      crear-Sana base (nuevo s.guests) (record datos { event_id = event }) s.guests (f s.guests) h
  atender-Sana (edicion event guest c) ahora s h = editar_invitado-Sana event guest c ahora s h
  atender-Sana (baja event guest) ahora s h = borrar_invitado-Sana event guest s h
  atender-Sana (importacion event filas) ahora s h =
      importar-Sana to_lower_case base nuevo event filas s.guests f h
  atender-Sana (respuesta token r) ahora s h =
      responder_rsvp-Sana enqueue hash_de_token token r ahora s h
  atender-Sana (envio event guest sorteo) ahora s h =
      rw (enviar_invitacion-guests enqueue hash_de_token event guest sorteo ahora s) h
  atender-Sana (envio_masivo event sorteo) ahora s h =
      rw (enviar_a_todos-guests enqueue hash_de_token sorteo ahora (ordenadas event s.guests) s) h

  -- Where the ids that are drawn are new, any sequence of requests, served one after the other and
  -- whatever of them fails, keeps the guests' table sound: within an event no two guests have one
  -- e-mail, no two rows have one id, and nobody's confirmed companions exceed those allowed.
  pub atender_todas-Sana :
      (ps : List (Peticion × ℕ)) (s : Boda Q)
      → Sana s.guests
      → Sana (atender_todas enqueue hash_de_token to_lower_case base nuevo ps s).guests
  unfolding atender_todas
  atender_todas-Sana [] s h = h
  atender_todas-Sana ((p, ahora) ∷ ps) s h =
      atender_todas-Sana ps (atender enqueue hash_de_token to_lower_case base nuevo p ahora s)
        (atender-Sana p ahora s h)
