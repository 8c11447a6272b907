-- ===== src/Guests/Worker/Laws.antt =====
-- What a job that the queue gives up leaves behind.
use wedding_planner_backend.Guests.Worker.{
  Correo, fallo_tras_salir, Envio, fallo_sin_salir, caducar_sin_ocultar, enviar, se_manda, hecho,
  Intento, ErrorDeTrabajo,
}
use wedding_planner_backend.Guests.Store.{buscar, caducar, InvitacionCompleta}
use wedding_planner_backend.Prelude.{
  ℕ, List, Bool, ◌≡◌, inr, ◌==◌, find?, ◌∷◌, [], arith, refl, Bool-cases, some, none, ◌⊎◌, ◌||◌,
  not, find?-modify_first, Option-cases, inl, false, any, modify_first, true, ◌≤◌,
}
use wedding_planner_backend.Prelude.Monad.{Result-cases}
use wedding_planner_backend.Guests.Invitation.{admite_lectura}

-- The token of the invitation opens nothing, and a mail went out.
abbrev pub muerta : ℕ → ℕ → Correo → Bool
muerta id luego s = elim (buscar id s.invitaciones) [
  | none ↦ true
  | some f ↦ not (admite_lectura f.expires_at luego)
]

abbrev pub salio : ℕ → Correo → Bool
salio id s = any (λ m. m == id) s.salidas

-- A mark tells that the mail went out.
abbrev pub marca_fiel : ℕ → Correo → Bool
marca_fiel id s = not (any (λ m. m == id) s.enviadas_sin_marcar) || salio id s

find?-modify_none :
    {A : Type 0} (p : A → Bool) (f : A → A) (xs : List A)
    → find? p xs ≡ none
    → find? p (modify_first p f xs) ≡ none
find?-modify_none p f [] h = h
find?-modify_none p f (x ∷ xs) h = ground (arith, find?-modify_none p f xs)

pub caducar-muerta :
    (id luego : ℕ) (x : Intento) (s : Correo)
    → x.falla_caducar ≡ false
    → x.ahora ≤ luego
    → muerta id luego (caducar_sin_ocultar id x s) ≡ true
unfolding caducar_sin_ocultar caducar buscar admite_lectura
caducar-muerta id luego x s works le =
    elim (Option-cases (find? (λ (r : InvitacionCompleta). r.id == id) s.invitaciones.filas)) [
      | inl missing ↦ grind (
        arith,
        works,
        find?-modify_none (λ (r : InvitacionCompleta). r.id == id)
            (λ (r : InvitacionCompleta). record r { expires_at = x.ahora }) s.invitaciones.filas
            missing,
      )
      | inr (f, found) ↦ grind (
        arith,
        works,
        find?-modify_first (λ (r : InvitacionCompleta). r.id == id)
            (λ (r : InvitacionCompleta). record r { expires_at = x.ahora }) s.invitaciones.filas f
            (λ a. refl) found,
      )
    ]

pub Envio-cases :
    (r : Envio)
    → (r ≡ hecho)
      ⊎ (((e : ErrorDeTrabajo) × (r ≡ fallo_sin_salir e))
          ⊎ ((e : ErrorDeTrabajo) × (r ≡ fallo_tras_salir e)))
Envio-cases hecho = inl refl
Envio-cases (fallo_sin_salir e) = inr (inl (e, refl))
Envio-cases (fallo_tras_salir e) = inr (inr (e, refl))

-- What `enviar` leaves of the mails, by how it ends.
pub enviar-salio :
    (id : ℕ) (x : Intento) (s : Correo) (e : ErrorDeTrabajo)
    → (enviar id x s).0 ≡ fallo_tras_salir e
    → salio id (enviar id x s).1 ≡ true
unfolding enviar
enviar-salio id x s e h = elim (Option-cases (buscar id s.invitaciones)) [
  | inl missing ↦ absurd (grind (arith, missing))
  | inr (i, found) ↦ elim (Bool-cases (se_manda i x.ahora)) [
    | inr discarded ↦ absurd (grind (arith, found, discarded))
    | inl goes ↦ elim (Result-cases x.mail) [
      | inr (f, failed) ↦ absurd (grind (arith, found, goes, failed))
      | inl (mensaje, went) ↦ elim (Bool-cases x.falla_marcar) [
        | inr marked ↦ absurd (grind (arith, found, goes, went, marked))
        | inl unmarked ↦ grind (arith, found, goes, went, unmarked)
      ]
    ]
  ]
]

pub enviar-same :
    (id : ℕ) (x : Intento) (s : Correo) (e : ErrorDeTrabajo)
    → (enviar id x s).0 ≡ fallo_sin_salir e
    → (enviar id x s).1 ≡ s
unfolding enviar
enviar-same id x s e h = elim (Option-cases (buscar id s.invitaciones)) [
  | inl missing ↦ absurd (grind (arith, missing))
  | inr (i, found) ↦ elim (Bool-cases (se_manda i x.ahora)) [
    | inr discarded ↦ absurd (grind (arith, found, discarded))
    | inl goes ↦ elim (Result-cases x.mail) [
      | inr (f, failed) ↦ grind (arith, found, goes, failed)
      | inl (mensaje, went) ↦ elim (Bool-cases x.falla_marcar) [
        | inr marked ↦ absurd (grind (arith, found, goes, went, marked))
        | inl unmarked ↦ absurd (grind (arith, found, goes, went, unmarked))
      ]
    ]
  ]
]
