-- ===== src/Guests/UseCases/OneToken.antt =====
-- The living tokens of a guest through the sendings, and through two sendings that overlap.
use wedding_planner_backend.Guests.Store.{
  crear, InvitacionCompleta, fila_nueva, vigente_de, InvitadoConocido, DatosCrearInvitacion,
  Invitaciones, caducar_vigentes_de,
}
use wedding_planner_backend.Prelude.{
  ℕ, List, ◌≡◌, Option-cases, find?-sound, ◌+◌, inl, ◌==◌, ◌∷◌, find?, arith, ◌≤◌, modify_all, [],
  count, if◌then◌else◌, count-append, inr, Bool, true, suc, ◌<◌, some, Bool-cases,
}
use wedding_planner_backend.Queue.{JobId}
use wedding_planner_backend.Prelude.Monad.{Result-cases, is_ok, ok}
use wedding_planner_backend.Guests.Invitation.{caducidad_invitacion}
use wedding_planner_backend.Guests.UseCases.{
  DatosDeTrabajo, Boda, cambia_email, editar_invitado, baja_del_confirmado,
}
use wedding_planner_backend.Guests.UseCases.Send.{
  encolar_invitacion, SorteoInvitacion, enviar_a_todos, enviar_invitaciones, enviar_uno,
}
use wedding_planner_backend.Guests.Guest.{Guest}
use wedding_planner_backend.Guests.Table.{buscar, actualizar, ordenadas, CambiosInvitado}

-- Each guest has one living token at most.
unfoldable pub UnSoloVivo : ℕ → List InvitacionCompleta → Type 0
UnSoloVivo ahora fs = (id : ℕ) → count (vigente_de id ahora) fs ≤ 1

abbrev pub vencida : ℕ → InvitacionCompleta → InvitacionCompleta
vencida ahora r = record r { expires_at = ahora }

count-vencidas :
    (id guest_id ahora : ℕ) (fs : List InvitacionCompleta)
    → count (vigente_de id ahora) (modify_all (vigente_de guest_id ahora) (vencida ahora) fs)
      ≡ (if id == guest_id then 0 else count (vigente_de id ahora) fs)
count-vencidas id guest_id ahora [] = ground arith
count-vencidas id guest_id ahora (f ∷ fs) = ground (arith, count-vencidas id guest_id ahora fs)

count-crear :
    (id uuid ahora : ℕ) (d : DatosCrearInvitacion) (s : Invitaciones)
    → count (vigente_de id ahora) (crear uuid d s).1.filas
      ≤ (if id == d.guest_id then 1 else 0) + count (vigente_de id ahora) s.filas
unfolding crear
count-crear id uuid ahora d s =
    elim (Option-cases (find? (λ (c : InvitadoConocido). c.guest.id == d.guest_id) s.invitados)) [
      | inl missing ↦ ground arith
      | inr (c, found) ↦ ground (
        arith,
        find?-sound (λ (c : InvitadoConocido). c.guest.id == d.guest_id) s.invitados c found,
        count-append (vigente_de id ahora) s.filas (fila_nueva uuid d c ∷ []),
      )
    ]

crear_adds :
    (uuid ahora : ℕ) (d : DatosCrearInvitacion) (s : Invitaciones)
    → ahora < d.expires_at
    → is_ok (crear uuid d s).0 ≡ true
    → count (vigente_de d.guest_id ahora) (crear uuid d s).1.filas
      ≡ suc (count (vigente_de d.guest_id ahora) s.filas)
unfolding crear
crear_adds uuid ahora d s alive h =
    elim (Option-cases (find? (λ (c : InvitadoConocido). c.guest.id == d.guest_id) s.invitados)) [
      | inl missing ↦ ground arith
      | inr (c, found) ↦ ground (
        arith,
        find?-sound (λ (c : InvitadoConocido). c.guest.id == d.guest_id) s.invitados c found,
        count-append (vigente_de d.guest_id ahora) s.filas (fila_nueva uuid d c ∷ []),
      )
    ]

abbrev pub datos_de : (ℕ → ℕ) → ℕ → SorteoInvitacion → ℕ → DatosCrearInvitacion
datos_de hash_de_token guest_id sorteo ahora = record {
  guest_id = guest_id;
  token_hash = hash_de_token sorteo.token;
  expires_at = caducidad_invitacion ahora;
}

module _ {Q : Type 0} (enqueue : JobId → DatosDeTrabajo → Q → Bool × Q)
    (hash_de_token : ℕ → ℕ) where
  -- The state behind the expiry and the other requests.
  abbrev pub vencido : (Boda Q → Boda Q) → ℕ → ℕ → Boda Q → Boda Q
  vencido entorno guest_id ahora s =
      entorno (record s { invitaciones = caducar_vigentes_de guest_id ahora s.invitaciones })

  encolar_invitacion-crear :
      (entorno : Boda Q → Boda Q) (guest_id : ℕ) (sorteo : SorteoInvitacion) (ahora : ℕ)
      (s : Boda Q)
      → (encolar_invitacion enqueue hash_de_token entorno guest_id sorteo ahora s).1.invitaciones
        ≡ (crear sorteo.uuid
            (datos_de hash_de_token guest_id sorteo ahora)
            (vencido entorno guest_id ahora s).invitaciones).1
  unfolding encolar_invitacion
  encolar_invitacion-crear entorno guest_id sorteo ahora s =
      elim (Result-cases
        (crear sorteo.uuid (datos_de hash_de_token guest_id sorteo ahora)
          (vencido entorno guest_id ahora s).invitaciones).0) [
            | inl (id, created) ↦ grind (arith, created)
            | inr (e, refused) ↦ grind (arith, refused)
          ]

  encolar_invitacion-UnSoloVivo :
      (guest_id : ℕ) (sorteo : SorteoInvitacion) (ahora : ℕ) (s : Boda Q)
      → UnSoloVivo ahora s.invitaciones.filas
      → UnSoloVivo ahora
          (encolar_invitacion enqueue hash_de_token
            (λ t. t)
            guest_id
            sorteo
            ahora
            s).1.invitaciones.filas
  unfolding UnSoloVivo caducar_vigentes_de
  encolar_invitacion-UnSoloVivo guest_id sorteo ahora s h id =
      let vencidas : Invitaciones = caducar_vigentes_de guest_id ahora s.invitaciones in
      rw (encolar_invitacion-crear (λ t. t) guest_id sorteo ahora s) (
        ground (
          arith,
          count-crear id sorteo.uuid ahora (datos_de hash_de_token guest_id sorteo ahora) vencidas,
          count-vencidas id guest_id ahora s.invitaciones.filas,
          h id,
        ))

  enviar_uno-UnSoloVivo :
      (sorteo : SorteoInvitacion) (ahora : ℕ) (g : Guest) (s : Boda Q)
      → UnSoloVivo ahora s.invitaciones.filas
      → UnSoloVivo ahora (enviar_uno enqueue hash_de_token sorteo ahora g s).1.invitaciones.filas
  unfolding enviar_uno
  enviar_uno-UnSoloVivo sorteo ahora g s h =
      ground (arith, encolar_invitacion-UnSoloVivo g.id sorteo ahora s h)

  enviar_a_todos-UnSoloVivo :
      (sorteo : ℕ → SorteoInvitacion) (ahora : ℕ) (gs : List Guest) (s : Boda Q)
      → UnSoloVivo ahora s.invitaciones.filas
      → UnSoloVivo ahora
          (enviar_a_todos enqueue hash_de_token sorteo ahora gs s).1.invitaciones.filas
  unfolding enviar_a_todos
  enviar_a_todos-UnSoloVivo sorteo ahora [] s h = h
  enviar_a_todos-UnSoloVivo sorteo ahora (g ∷ gs) s h =
      enviar_a_todos-UnSoloVivo sorteo ahora gs
        (enviar_uno enqueue hash_de_token (sorteo g.id) ahora g s).1
        (enviar_uno-UnSoloVivo (sorteo g.id) ahora g s h)

  -- A mass sending that runs alone, whatever of it fails, leaves each guest with one living token at
  -- most if that held before.
  pub enviar_invitaciones-UnSoloVivo :
      (event_id : ℕ) (sorteo : ℕ → SorteoInvitacion) (ahora : ℕ) (s : Boda Q)
      → UnSoloVivo ahora s.invitaciones.filas
      → UnSoloVivo ahora
          (enviar_invitaciones enqueue hash_de_token event_id sorteo ahora s).1.invitaciones.filas
  unfolding enviar_invitaciones
  enviar_invitaciones-UnSoloVivo event_id sorteo ahora s h =
      enviar_a_todos-UnSoloVivo sorteo ahora (ordenadas event_id s.guests) s h

  encolar_invitacion-is_ok :
      (entorno : Boda Q → Boda Q) (guest_id : ℕ) (sorteo : SorteoInvitacion) (ahora id : ℕ)
      (s : Boda Q)
      → (encolar_invitacion enqueue hash_de_token entorno guest_id sorteo ahora s).0 ≡ ok id
      → is_ok
          (crear sorteo.uuid
            (datos_de hash_de_token guest_id sorteo ahora)
            (vencido entorno guest_id ahora s).invitaciones).0
        ≡ true
  unfolding encolar_invitacion
  encolar_invitacion-is_ok entorno guest_id sorteo ahora id s h =
      elim (Result-cases
        (crear sorteo.uuid (datos_de hash_de_token guest_id sorteo ahora)
          (vencido entorno guest_id ahora s).invitaciones).0) [
            | inl (uuid, created) ↦ grind (arith, created)
            | inr (e, refused) ↦ grind (arith, refused)
          ]

  one_more :
      (entorno : Boda Q → Boda Q) (guest_id : ℕ) (sorteo : SorteoInvitacion) (ahora id : ℕ)
      (s : Boda Q)
      → (encolar_invitacion enqueue hash_de_token entorno guest_id sorteo ahora s).0 ≡ ok id
      → count
          (vigente_de guest_id ahora)
          (encolar_invitacion enqueue hash_de_token entorno guest_id sorteo ahora
            s).1.invitaciones.filas
        ≡ suc (
            count (vigente_de guest_id ahora) (vencido entorno guest_id ahora s).invitaciones.filas)
  unfolding caducidad_invitacion
  one_more entorno guest_id sorteo ahora id s h =
      rw (encolar_invitacion-crear entorno guest_id sorteo ahora s) (
        crear_adds sorteo.uuid ahora (datos_de hash_de_token guest_id sorteo ahora)
          (vencido entorno guest_id ahora s).invitaciones (omega arith)
          (encolar_invitacion-is_ok entorno guest_id sorteo ahora id s h))

  -- Two sendings to one guest overlap, the second running between the first one's expiry of the old
  -- tokens and its creation of the new one: if both succeed, the guest has two living tokens.
  pub encolar_invitacion_overlap :
      (guest_id : ℕ) (primero segundo : SorteoInvitacion) (ahora a b : ℕ) (s : Boda Q)
      → (encolar_invitacion enqueue hash_de_token
          (λ t. t)
          guest_id
          segundo
          ahora
          (vencido (λ t. t) guest_id ahora s)).0
        ≡ ok b
      → (encolar_invitacion enqueue hash_de_token
          (λ t. (encolar_invitacion enqueue hash_de_token (λ u. u) guest_id segundo ahora t).1)
          guest_id
          primero
          ahora
          s).0
        ≡ ok a
      → count
          (vigente_de guest_id ahora)
          (encolar_invitacion enqueue hash_de_token
            (λ t. (encolar_invitacion enqueue hash_de_token (λ u. u) guest_id segundo ahora t).1)
            guest_id
            primero
            ahora
            s).1.invitaciones.filas
        ≡ 2
  unfolding caducar_vigentes_de
  encolar_invitacion_overlap guest_id primero segundo ahora a b s h k = ground (
    arith,
    one_more (λ t. (encolar_invitacion enqueue hash_de_token (λ u. u) guest_id segundo ahora t).1)
        guest_id primero ahora a s k,
    one_more (λ t. t) guest_id segundo ahora b (vencido (λ t. t) guest_id ahora s) h,
    count-vencidas guest_id guest_id ahora
        (vencido (λ (t : Boda Q). t) guest_id ahora s).invitaciones.filas,
  )

-- An edition that changes the e-mail of a guest and succeeds leaves the guest without a living token,
-- so that no link that went to the old address opens anything.
pub editar_invitado_closes :
    {Q : Type 0} (event_id guest_id : ℕ) (c : CambiosInvitado) (ahora : ℕ) (s : Boda Q)
    (antes despues : Guest)
    → buscar event_id guest_id s.guests ≡ some antes
    → cambia_email c.email antes.email ≡ true
    → (editar_invitado event_id guest_id c ahora s).0 ≡ ok despues
    → count
        (vigente_de guest_id ahora)
        (editar_invitado event_id guest_id c ahora s).1.invitaciones.filas
      ≡ 0
unfolding editar_invitado caducar_vigentes_de
editar_invitado_closes event_id guest_id c ahora s antes despues found moved h =
    elim (Bool-cases (baja_del_confirmado c.companions_allowed antes.companions_confirmed)) [
      | inl lowered ↦ absurd (grind (arith, found, lowered))
      | inr room ↦ elim (Result-cases (actualizar event_id guest_id c s.guests).0) [
        | inr (e, refused) ↦ absurd (grind (arith, found, room, moved, refused))
        | inl (g, done) ↦ grind (
          arith,
          found,
          room,
          moved,
          done,
          count-vencidas guest_id guest_id ahora s.invitaciones.filas,
        )
      ]
    ]
