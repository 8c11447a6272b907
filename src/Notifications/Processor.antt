-- ===== src/Notifications/Processor.antt =====
-- The worker of the queue of notifications:
-- src/modules/notifications/interfaces/notification.processor.ts. What the schemas read of a job's
-- data is a field of the job, `none` where they refuse it; the payload is opaque and goes along.
use mathlib.Core.List.{append_assoc, append-nil}
use wedding_planner_backend.Prelude.{
  ℕ, Bool, [], sym, Option, none, if◌then◌else◌, some, ◌⊎◌, Option-cases, arith, Bool-cases, ◌∷◌,
  ◌++◌, ◌∙◌, ◌≡◌, true, map, inr, inl, List, ap, false,
}
use wedding_planner_backend.Prelude.Monad.{Result, ok, err}
use wedding_planner_backend.Guests.Worker.{ErrorDeTrabajo, irrecuperable, otro_error}
use wedding_planner_backend.Notifications.Store.{emitir_a_todos, Buzon, avisar_de_notificacion}
use wedding_planner_backend.Shared.Text.{Text, text_eq, codes}

abbrev pub tipo_estado_invitacion : Text
tipo_estado_invitacion = codes "guest.invitation.status"

abbrev pub tipo_aviso_rsvp : Text
tipo_aviso_rsvp = codes "guest.rsvp.updated"

pub record JobDeAviso : Type 0 where
  pub name : Text
  pub aviso_rsvp : Option ℕ
  pub estado_invitacion : Option ℕ

-- An emission that fails is an error that the queue tries again.
abbrev pub emitido : {R : Type 0} → Bool × R → Result ErrorDeTrabajo (Unit {0}) × R
emitido e = (if e.0 then ok tt else err otro_error, e.1)

module _ {P R : Type 0} (emitir_a_evento emitir_a_usuario : ℕ → Text → R → Bool × R) where
  -- `process`
  unfoldable pub procesar_aviso : JobDeAviso → Buzon P → R → Result ErrorDeTrabajo (Unit {0}) × R
  procesar_aviso job s r =
      if text_eq job.name tipo_aviso_rsvp
      then (elim job.aviso_rsvp [
        | none ↦ (err irrecuperable, r)
        | some event_id ↦
            emitido
              (avisar_de_notificacion emitir_a_evento emitir_a_usuario event_id tipo_aviso_rsvp s r)
      ])
      else if text_eq job.name tipo_estado_invitacion
      then (elim job.estado_invitacion [
        | none ↦ (err irrecuperable, r)
        | some event_id ↦ emitido (emitir_a_evento event_id tipo_estado_invitacion r)
      ])
      else (err irrecuperable, r)

-- A channel that never fails, and writes down what it sends.
pub data Emision : Type 0 where
  a_evento a_usuario : ℕ → Text → Emision

abbrev pub apuntar : (ℕ → Text → Emision) → ℕ → Text → List Emision → Bool × List Emision
apuntar e id tipo r = (true, r ++ e id tipo ∷ [])

abbrev pub avisos_a : List ℕ → List Emision
avisos_a us = map (λ u. a_usuario u (codes "notification.created")) us

emitir_a_todos-apuntar :
    (us : List ℕ) (r : List Emision)
    → emitir_a_todos (apuntar a_evento) (apuntar a_usuario) us r ≡ (true, r ++ avisos_a us)
unfolding emitir_a_todos
emitir_a_todos-apuntar [] r = ap (λ (q : List Emision). (true, q)) (sym (append-nil r))
emitir_a_todos-apuntar (u ∷ us) r =
    emitir_a_todos-apuntar us (r ++ a_usuario u (codes "notification.created") ∷ [])
    ∙ ap (λ (q : List Emision). (true, q))
        (append_assoc r (a_usuario u (codes "notification.created") ∷ []) (avisos_a us))

-- The schema of its name, where it has one, refuses the job's data.
abbrev pub Ilegible : JobDeAviso → Type 0
Ilegible job =
    (text_eq job.name tipo_aviso_rsvp ≡ true → job.aviso_rsvp ≡ none)
    × (text_eq job.name tipo_estado_invitacion ≡ true
        → text_eq job.name tipo_aviso_rsvp ≡ false
        → job.estado_invitacion ≡ none)

-- Over a channel that does not fail, a job is done exactly where its name is known and its data can be
-- read, and sends this: for an answer the event and then each active member of it once, for a delivery
-- the event alone. A job whose name is unknown, or whose data cannot be read, and no other, is given
-- up at once and sends nothing.
pub procesar_aviso_cases :
    {P : Type 0} (job : JobDeAviso) (s : Buzon P) (r : List Emision)
    → ((event_id : ℕ) × (text_eq job.name tipo_aviso_rsvp ≡ true)
        × (job.aviso_rsvp ≡ some event_id)
        × (procesar_aviso (apuntar a_evento) (apuntar a_usuario) job s r ≡ (
          ok tt,
          (r ++ a_evento event_id tipo_aviso_rsvp ∷ []) ++ avisos_a (s.miembros event_id),
        )))
      ⊎ (((event_id : ℕ) × (text_eq job.name tipo_estado_invitacion ≡ true)
            × (text_eq job.name tipo_aviso_rsvp ≡ false)
            × (job.estado_invitacion ≡ some event_id)
            × (procesar_aviso (apuntar a_evento) (apuntar a_usuario) job s r
                ≡ (ok tt, r ++ a_evento event_id tipo_estado_invitacion ∷ [])))
          ⊎ (Ilegible job
              × (procesar_aviso (apuntar a_evento) (apuntar a_usuario) job s r
                  ≡ (err irrecuperable, r))))
unfolding procesar_aviso avisar_de_notificacion
procesar_aviso_cases job s r = elim (Bool-cases (text_eq job.name tipo_aviso_rsvp)) [
  | inl answer ↦ elim (Option-cases job.aviso_rsvp) [
    | inl bad ↦
        inr (inr ((λ y. bad, λ y n. absurd (grind (arith, answer, n))), grind (arith, answer, bad)))
    | inr (event_id, good) ↦ inl (
      event_id,
      answer,
      good,
      grind (
        arith,
        answer,
        good,
        emitir_a_todos-apuntar (s.miembros event_id) (r ++ a_evento event_id tipo_aviso_rsvp ∷ []),
      ),
    )
  ]
  | inr other ↦ elim (Bool-cases (text_eq job.name tipo_estado_invitacion)) [
    | inl delivery ↦ elim (Option-cases job.estado_invitacion) [
      | inl bad ↦ inr (
          inr (
            (λ y. absurd (grind (arith, other, y)), λ y n. bad),
            grind (arith, other, delivery, bad),
          ))
      | inr (event_id, good) ↦
          inr (inl (event_id, delivery, other, good, grind (arith, other, delivery, good)))
    ]
    | inr unknown ↦ inr (
        inr (
          (λ y. absurd (grind (arith, other, y)), λ y n. absurd (grind (arith, unknown, y))),
          grind (arith, other, unknown),
        ))
  ]
]
