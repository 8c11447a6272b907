-- ===== src/Guests/Laws.antt =====
-- What holds of invitations: statuses only advance, and a guest has one living token at most.
use wedding_planner_backend.Guests.Store.{
  buscar, marcar_respondida, crear, Invitaciones, actualizar_estado_por_message_id,
  buscar_respondible, buscar_legible, avanza, incluye, InvitacionCompleta, vigente_de,
  DatosCrearInvitacion, caducar_vigentes_de, fila_nueva, buscar_por_hash,
}
use wedding_planner_backend.Prelude.{
  find?-modify_first, some, Bool-cases, ℕ, ◌≤◌, inl, ◌==◌, Bool, false, filter, find?, [], ◌≡◌,
  modify_all, true, ◌∷◌, inr, count, refl, List, ◌<◌, zero, suc, arith, Option-cases, count-append,
  find?-sound,
}
use wedding_planner_backend.Prelude.Monad.{ok}
use wedding_planner_backend.Guests.Invitation.{
  responded, cierre_rsvp, orden, delivered, sent, InvitationStatus, admite_respuesta,
  admite_lectura, queued, complained, bounced, estados_que_pueden_avanzar_a,
}
use wedding_planner_backend.Guests.Delivery.{
  JobEstadoInvitacion, TipoDeEvento, manejar_entrega, mapear_estado_resend,
}

-- Two tables with the same rows, where no status went back in its rank and nothing else that decides
-- about a token changed.
abbrev pub Avanzan : List InvitacionCompleta → List InvitacionCompleta → Type 0
Avanzan [] [] = Unit
Avanzan (x ∷ xs) (y ∷ ys) =
    ((x.id ≡ y.id)
      × (orden x.status ≤ orden y.status)
      × (x.expires_at ≡ y.expires_at)
      × (x.token_hash ≡ y.token_hash))
    × Avanzan xs ys
Avanzan _ _ = zero ≡ suc zero

avanza_raises :
    (destino origen : InvitationStatus)
    → incluye (estados_que_pueden_avanzar_a destino) origen ≡ true
    → orden origen ≤ orden destino
unfolding estados_que_pueden_avanzar_a
avanza_raises destino queued h = ground arith
avanza_raises destino sent h = ground arith
avanza_raises destino delivered h = ground arith
avanza_raises destino bounced h = ground arith
avanza_raises destino complained h = ground arith
avanza_raises destino responded h = ground arith

Avanzan-modify_all :
    (message_id : ℕ) (estado : InvitationStatus) (fs : List InvitacionCompleta)
    → Avanzan fs (modify_all (avanza message_id estado) (λ f. record f { status = estado }) fs)
Avanzan-modify_all message_id estado [] = tt
Avanzan-modify_all message_id estado (f ∷ fs) =
    ground (arith, avanza_raises estado f.status, Avanzan-modify_all message_id estado fs)

Avanzan-refl : (fs : List InvitacionCompleta) → Avanzan fs fs
Avanzan-refl [] = tt
Avanzan-refl (f ∷ fs) = ((refl, omega arith, refl, refl), Avanzan-refl fs)

module _ {Q : Type 0} (enqueue : JobEstadoInvitacion → Q → Bool × Q) where
  -- Whatever event the mail provider delivers, in whatever order, no invitation goes back in the rank
  -- of its status, and ids, tokens and expiries stay.
  pub manejar_entrega-Avanzan :
      (tipo : TipoDeEvento) (message_id : ℕ) (s : Invitaciones) (q : Q)
      → Avanzan s.filas (manejar_entrega enqueue tipo message_id (s, q)).0.filas
  unfolding manejar_entrega actualizar_estado_por_message_id
  manejar_entrega-Avanzan tipo message_id s q = elim (Option-cases (mapear_estado_resend tipo)) [
    | inl ignored ↦ ground (arith, Avanzan-refl s.filas)
    | inr (estado, found) ↦ ground (arith, Avanzan-modify_all message_id estado s.filas)
  ]

not_again :
    (estado : InvitationStatus) → incluye (estados_que_pueden_avanzar_a estado) estado ≡ false
unfolding estados_que_pueden_avanzar_a
not_again queued = refl
not_again sent = refl
not_again delivered = refl
not_again bounced = refl
not_again complained = refl
not_again responded = refl

filter-modify_all :
    (message_id : ℕ) (estado : InvitationStatus) (fs : List InvitacionCompleta)
    → filter
        (avanza message_id estado)
        (modify_all (avanza message_id estado) (λ f. record f { status = estado }) fs)
      ≡ []
filter-modify_all message_id estado [] = refl
filter-modify_all message_id estado (f ∷ fs) =
    ground (arith, not_again estado, filter-modify_all message_id estado fs)

modify_all_twice :
    (message_id : ℕ) (estado : InvitationStatus) (fs : List InvitacionCompleta)
    → modify_all
        (avanza message_id estado)
        (λ f. record f { status = estado })
        (modify_all (avanza message_id estado) (λ f. record f { status = estado }) fs)
      ≡ modify_all (avanza message_id estado) (λ f. record f { status = estado }) fs
modify_all_twice message_id estado [] = refl
modify_all_twice message_id estado (f ∷ fs) =
    ground (arith, not_again estado, modify_all_twice message_id estado fs)

module _ {Q : Type 0} (enqueue : JobEstadoInvitacion → Q → Bool × Q) where
  -- An event that the provider delivers a second time changes nothing and enqueues nothing.
  pub manejar_entrega_twice :
      (tipo : TipoDeEvento) (message_id : ℕ) (m : Invitaciones × Q)
      → manejar_entrega enqueue tipo message_id (manejar_entrega enqueue tipo message_id m)
        ≡ manejar_entrega enqueue tipo message_id m
  unfolding manejar_entrega actualizar_estado_por_message_id
  manejar_entrega_twice tipo message_id (s, q) = elim (Option-cases (mapear_estado_resend tipo)) [
    | inl ignored ↦ grind (arith, ignored)
    | inr (estado, found) ↦ grind (
      arith,
      found,
      filter-modify_all message_id estado s.filas,
      modify_all_twice message_id estado s.filas,
    )
  ]

-- A token with which the guest may answer now serves to read now, and would have served to answer
-- at every earlier instant.
pub buscar_respondible_earlier :
    (hash_de_token : ℕ → ℕ) (token antes ahora : ℕ) (s : Invitaciones) (i : InvitacionCompleta)
    → buscar_respondible hash_de_token token ahora s ≡ ok i
    → antes ≤ ahora
    → (buscar_legible hash_de_token token ahora s ≡ ok i)
      × (buscar_respondible hash_de_token token antes s ≡ ok i)
unfolding buscar_respondible buscar_legible admite_respuesta admite_lectura cierre_rsvp
buscar_respondible_earlier hash_de_token token antes ahora s i h le =
    elim (Option-cases (buscar_por_hash (hash_de_token token) s)) [
      | inl unknown ↦ grind (arith, unknown)
      | inr (r, found) ↦ elim (Option-cases r.event.wedding_date) [
        | inl dateless ↦ grind (arith, found, dateless)
        | inr (fecha, closing) ↦ grind (arith, found, closing)
      ]
    ]

count-caducar :
    (guest_id ahora : ℕ) (fs : List InvitacionCompleta)
    → count
        (vigente_de guest_id ahora)
        (modify_all (vigente_de guest_id ahora) (λ r. record r { expires_at = ahora }) fs)
      ≡ 0
count-caducar guest_id ahora [] = refl
count-caducar guest_id ahora (f ∷ fs) = ground (arith, count-caducar guest_id ahora fs)

-- A new invitation is created after the living ones of its guest are expired: then the guest has
-- exactly one living token, the new one.
pub crear_one_alive :
    (uuid ahora id : ℕ) (datos : DatosCrearInvitacion) (s : Invitaciones)
    → ahora < datos.expires_at
    → (crear uuid datos (caducar_vigentes_de datos.guest_id ahora s)).0 ≡ ok id
    → count
        (vigente_de datos.guest_id ahora)
        (crear uuid datos (caducar_vigentes_de datos.guest_id ahora s)).1.filas
      ≡ 1
unfolding crear caducar_vigentes_de
crear_one_alive uuid ahora id datos s alive h =
    elim (Option-cases (find? (λ c. c.guest.id == datos.guest_id) s.invitados)) [
      | inl unknown ↦ grind (arith, unknown)
      | inr (c, known) ↦ grind (
        arith,
        known,
        count-caducar datos.guest_id ahora s.filas,
        find?-sound (λ x. x.guest.id == datos.guest_id) s.invitados c known,
        count-append (vigente_de datos.guest_id ahora)
            (caducar_vigentes_de datos.guest_id ahora s).filas (fila_nueva uuid datos c ∷ []),
      )
    ]

-- The row of an invitation that was marked as answered.
pub marcar-buscar :
    (id ahora : ℕ) (s : Invitaciones)
    → (marcar_respondida id ahora s).0 ≡ true
    → (f : InvitacionCompleta) × (find? (λ (x : InvitacionCompleta). x.id == id) s.filas ≡ some f)
      × (admite_lectura f.expires_at ahora ≡ true)
      × (find? (λ (x : InvitacionCompleta). x.id == id) (marcar_respondida id ahora s).1.filas
          ≡ some (record f { status = responded; responded_at = some ahora }))
unfolding marcar_respondida buscar
marcar-buscar id ahora s h =
    elim (Option-cases (find? (λ (x : InvitacionCompleta). x.id == id) s.filas)) [
      | inl missing ↦ absurd (grind (arith, missing))
      | inr (f, found) ↦ elim (Bool-cases (admite_lectura f.expires_at ahora)) [
        | inr expired ↦ absurd (grind (arith, found, expired))
        | inl alive ↦ (
          f,
          found,
          alive,
          grind (
            arith,
            found,
            alive,
            find?-modify_first (λ (x : InvitacionCompleta). x.id == id)
                (λ x. record x { status = responded; responded_at = some ahora }) s.filas f
                (λ a. refl) found,
          ),
        )
      ]
    ]
