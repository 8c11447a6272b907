-- ===== src/Guests/UseCases/Answer.antt =====
-- What an answer of a guest does, whatever other requests do behind the readings.
use wedding_planner_backend.Guests.UseCases.{
  Boda, responder_rsvp, acompanantes, RespuestaRsvp, DatosDeTrabajo, guardar_respuesta, cambios_de,
  estado_de, encolar_aviso,
}
use wedding_planner_backend.Guests.Store.{
  buscar_respondible, marcar_respondida, InvitacionCompleta, marcar_respondida,
}
use wedding_planner_backend.Guests.Table.{
  buscar, actualizar, aplicar, email_ocupado, CambiosInvitado, es_guest,
}
use wedding_planner_backend.Prelude.{
  ℕ, Bool, ◌≡◌, Option-cases, some, inr, arith, Bool-cases, ◌⊎◌, inl, find?-modify_first, get_or,
  find?, none, List, refl, ◌==◌, ◌++◌, ◌<◌, map,
}
use wedding_planner_backend.Guests.Invitation.{responded, admite_lectura, responded}
use wedding_planner_backend.Prelude.Monad.{ok, err, Result-cases, ok}
use wedding_planner_backend.Queue.{JobId}
use wedding_planner_backend.Guests.Guest.{GuestError, cupo_cubre_confirmados, Guest}
use wedding_planner_backend.Notifications.Port.{notificacion_de, crear_para_miembros}
use wedding_planner_backend.Shared.Text.{codes}
use wedding_planner_backend.Guests.Laws.{marcar-buscar}

module _ {Q : Type 0} (enqueue : JobId → DatosDeTrabajo → Q → Bool × Q)
    (hash_de_token : ℕ → ℕ) where
  -- An answer that is refused, or of which the storage refuses a part, has written nothing: the state
  -- is the one before, or the one that the other requests left.
  pub responder_rsvp-err :
      (entorno : Boda Q → Boda Q) (token : ℕ) (r : RespuestaRsvp) (ahora : ℕ) (s : Boda Q)
      (e : GuestError)
      → (responder_rsvp enqueue hash_de_token entorno token r ahora s).0 ≡ err e
      → ((responder_rsvp enqueue hash_de_token entorno token r ahora s).1 ≡ s)
        ⊎ ((responder_rsvp enqueue hash_de_token entorno token r ahora s).1 ≡ entorno s)
  unfolding responder_rsvp
  responder_rsvp-err entorno token r ahora s e h =
      elim (Result-cases (buscar_respondible hash_de_token token ahora s.invitaciones)) [
        | inr (e, refused) ↦ inl (grind (arith, refused))
        | inl (i, answerable) ↦ elim (Option-cases (buscar i.guest.event_id i.guest.id s.guests)) [
          | inl missing ↦ inl (grind (arith, answerable, missing))
          | inr (g, found) ↦
              elim (Bool-cases
                (cupo_cubre_confirmados g.companions_allowed (some (acompanantes r)))) [
                  | inr over ↦ inl (grind (arith, answerable, found, over))
                  | inl room ↦
                      elim (Result-cases
                        (guardar_respuesta enqueue hash_de_token i r ahora (entorno s)).0) [
                          | inl (u, done) ↦ inr (grind (arith, answerable, found, room, done))
                          | inr (x, failed) ↦ inr (grind (arith, answerable, found, room, failed))
                        ]
                ]
        ]
      ]

-- The row that an update that succeeds leaves.
pub actualizar-buscar :
    (event_id guest_id : ℕ) (c : CambiosInvitado) (filas : List Guest) (g : Guest)
    → (actualizar event_id guest_id c filas).0 ≡ ok g
    → (x : Guest) × (buscar event_id guest_id filas ≡ some x)
      × (buscar event_id guest_id (actualizar event_id guest_id c filas).1 ≡ some (aplicar c x))
unfolding actualizar buscar
actualizar-buscar event_id guest_id c filas g h =
    elim (Option-cases (find? (es_guest event_id guest_id) filas)) [
      | inl missing ↦ absurd (grind (arith, missing))
      | inr (x, found) ↦
          elim (Bool-cases (email_ocupado event_id (get_or c.email none) (some guest_id) filas)) [
            | inl taken ↦ absurd (grind (arith, found, taken))
            | inr free ↦ (
              x,
              found,
              grind (
                arith,
                found,
                free,
                find?-modify_first (es_guest event_id guest_id) (aplicar c) filas x (λ a. refl)
                    found,
              ),
            )
          ]
    ]

-- The three writings of an answer.
abbrev pub Guardada :
    {Q : Type 0} → InvitacionCompleta → RespuestaRsvp → ℕ → Boda Q → Boda Q → Type 0
Guardada i r ahora antes despues =
    ((f : InvitacionCompleta) × (find? (λ (x : InvitacionCompleta). x.id == i.id)
          despues.invitaciones.filas
        ≡ some f)
      × (f.status ≡ responded)
      × (f.responded_at ≡ some ahora)
      × (ahora < f.expires_at))
    × ((g : Guest) × (buscar i.guest.event_id i.guest.id despues.guests ≡ some g)
        × (g.rsvp ≡ estado_de r.rsvp)
        × (g.companions_confirmed ≡ some (acompanantes r)))
    × (despues.avisos.creadas
        ≡ antes.avisos.creadas
          ++ map
              (notificacion_de i.guest.event_id (codes "guest.rsvp.updated") (record {
                guest_id = i.guest.id;
                guest_name = i.guest.name;
                rsvp = estado_de r.rsvp;
              }))
              (antes.avisos.miembros i.guest.event_id))

module _ {Q : Type 0} (enqueue : JobId → DatosDeTrabajo → Q → Bool × Q)
    (hash_de_token : ℕ → ℕ) where
  guardar-Guardada :
      (i : InvitacionCompleta) (r : RespuestaRsvp) (ahora : ℕ) (s : Boda Q)
      → (guardar_respuesta enqueue hash_de_token i r ahora s).0 ≡ ok tt
      → Guardada i r ahora s (guardar_respuesta enqueue hash_de_token i r ahora s).1
  unfolding crear_para_miembros admite_lectura
  guardar-Guardada i r ahora s h =
      elim (Bool-cases (marcar_respondida i.id ahora s.invitaciones).0) [
        | inr unwritten ↦ absurd (grind (arith, unwritten))
        | inl written ↦
            elim (Result-cases (actualizar i.guest.event_id i.guest.id (cambios_de r) s.guests).0) [
              | inr (e, refused) ↦ absurd (grind (arith, written, refused))
              | inl (g, updated) ↦ elim (Bool-cases s.avisos.fallo_proximo) [
                | inl down ↦ absurd (grind (arith, written, updated, down))
                | inr up ↦
                    let (f, was, alive, marked) = marcar-buscar i.id ahora s.invitaciones written in
                    let (x, before, after) =
                      actualizar-buscar i.guest.event_id i.guest.id (cambios_de r) s.guests g
                        updated in
                    (
                      (
                        record f { status = responded; responded_at = some ahora },
                        grind (arith, written, updated, up, marked),
                        refl,
                        refl,
                        ground (arith, alive),
                      ),
                      (
                        aplicar (cambios_de r) x,
                        grind (arith, written, updated, up, after),
                        refl,
                        refl,
                      ),
                      grind (arith, written, updated, up),
                    )
              ]
            ]
      ]

  -- An answer that succeeds has written its three parts together on what the other requests left: the
  -- invitation, still alive, is marked as answered, the guest's row has the answer and its companions,
  -- and every member of the event has a notification.
  pub responder_rsvp-Guardada :
      (entorno : Boda Q → Boda Q) (token : ℕ) (r : RespuestaRsvp) (ahora : ℕ) (s : Boda Q)
      (i : InvitacionCompleta)
      → buscar_respondible hash_de_token token ahora s.invitaciones ≡ ok i
      → (responder_rsvp enqueue hash_de_token entorno token r ahora s).0 ≡ ok tt
      → Guardada i r ahora
          (entorno s)
          (responder_rsvp enqueue hash_de_token entorno token r ahora s).1
  unfolding responder_rsvp
  responder_rsvp-Guardada entorno token r ahora s i answerable h =
      elim (Option-cases (buscar i.guest.event_id i.guest.id s.guests)) [
        | inl missing ↦ absurd (grind (arith, answerable, missing))
        | inr (g, found) ↦
            elim (Bool-cases
              (cupo_cubre_confirmados g.companions_allowed (some (acompanantes r)))) [
                | inr over ↦ absurd (grind (arith, answerable, found, over))
                | inl room ↦
                    elim (Result-cases
                      (guardar_respuesta enqueue hash_de_token i r ahora (entorno s)).0) [
                        | inr (x, failed) ↦ absurd (grind (arith, answerable, found, room, failed))
                        | inl (u, done) ↦
                            let e : (responder_rsvp enqueue hash_de_token entorno token r ahora s).1
                                ≡ (encolar_aviso enqueue hash_de_token i r ahora
                                    (guardar_respuesta enqueue hash_de_token i r ahora
                                      (entorno s)).1).1 =
                              grind (arith, answerable, found, room, done) in
                            rw e (guardar-Guardada i r ahora (entorno s) done)
                      ]
              ]
      ]
