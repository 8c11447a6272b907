-- ===== src/Auth/Account/Reset.antt =====
-- The reset of a password.
use wedding_planner_backend.Auth.Links.{
  Enlace, consumir_reset, con_hash, es_pendiente, gastado, enlace_vigente, TokenResetConsumido,
  Enlaces, caducar_enlaces_de,
}
use wedding_planner_backend.Prelude.{
  ℕ, List, ◌≡◌, find?-modify_first, ◌==◌, refl, modify_first, modify_all, find?, not, inr,
  Bool-cases, ◌||◌, arith, count, find?-modify_all, inl, leb, none, [], Option-cases, ◌∷◌, some,
  Bool,
}
use wedding_planner_backend.Users.{por_defecto, User, find_by_id, actualizar_password}
use wedding_planner_backend.Auth.Sessions.{
  SesionInterna, viva_de_usuario, revocada, vivas_de_usuario, revocar_todas_de_usuario,
}
use wedding_planner_backend.Queue.{JobId}
use wedding_planner_backend.Auth.Account.{
  Cuentas, Servicios, token_reset_invalido, TrabajoDeCorreo, restablecer, avisar_del_cambio,
}
use wedding_planner_backend.Prelude.Monad.{ok, err}

count-vivas :
    (user_id ahora : ℕ) (ss : List SesionInterna)
    → count (viva_de_usuario user_id) (modify_all (viva_de_usuario user_id) (revocada ahora) ss) ≡ 0
count-vivas user_id ahora [] = refl
count-vivas user_id ahora (s ∷ ss) = ground (arith, count-vivas user_id ahora ss)

count-enlaces :
    (user_id ahora : ℕ) (ts : List Enlace)
    → count
        (enlace_vigente user_id ahora)
        (modify_all (enlace_vigente user_id ahora) (λ t. record t { expires_at = ahora }) ts)
      ≡ 0
count-enlaces user_id ahora [] = refl
count-enlaces user_id ahora (t ∷ ts) = ground (arith, count-enlaces user_id ahora ts)

-- A token that was consumed, behind the expiry of the others.
consumido-spent :
    (hash user_id ahora despues : ℕ) (s : Enlaces) (x : TokenResetConsumido)
    → (consumir_reset hash ahora s).0 ≡ some x
    → (consumir_reset hash despues
        (caducar_enlaces_de user_id ahora (consumir_reset hash ahora s).1)).0
      ≡ none
unfolding consumir_reset caducar_enlaces_de
consumido-spent hash user_id ahora despues s x h =
    elim (Option-cases (find? (con_hash hash) s.filas)) [
      | inl missing ↦ absurd (grind (arith, missing))
      | inr (t, found) ↦ elim (Bool-cases (not (es_pendiente t.status) || leb t.expires_at ahora)) [
        | inl refused ↦ absurd (grind (arith, found, refused))
        | inr good ↦
            let once : find? (con_hash hash) (modify_first (con_hash hash) (gastado ahora) s.filas)
                ≡ some (gastado ahora t) =
              find?-modify_first (con_hash hash) (gastado ahora) s.filas t (λ a. refl) found in
            grind (
              arith,
              found,
              good,
              find?-modify_all (con_hash hash) (enlace_vigente user_id ahora)
                  (λ r. record r { expires_at = ahora })
                  (modify_first (con_hash hash) (gastado ahora) s.filas) (gastado ahora t)
                  (λ a. refl) once,
            )
      ]
    ]

password_of :
    (user_id hash ahora : ℕ) (us : List User) (u : User)
    → find_by_id user_id us ≡ some u
    → find_by_id user_id (actualizar_password user_id hash ahora us)
      ≡ some (record u {
        password_hash = hash;
        email_verified_at = por_defecto u.email_verified_at ahora;
      })
unfolding find_by_id actualizar_password
password_of user_id hash ahora us u found =
    find?-modify_first (λ (x : User). x.id == user_id)
      (λ (x : User). record x {
        password_hash = hash;
        email_verified_at = por_defecto x.email_verified_at ahora;
      })
      us u (λ a. refl) found

-- What a reset leaves: nobody logged in, the link spent, no other link, and the new password on an
-- account that is verified.
abbrev pub Restablecida : {Q : Type 0} → ℕ → ℕ → ℕ → ℕ → ℕ → User → Cuentas Q → Type 0
Restablecida hash user_id password_hash ahora luego antes s =
    (vivas_de_usuario user_id s.sesiones ≡ 0)
    × ((consumir_reset hash luego s.resets).0 ≡ none)
    × (count (enlace_vigente user_id ahora) s.resets.filas ≡ 0)
    × (find_by_id user_id s.usuarios
        ≡ some (record antes {
          password_hash = password_hash;
          email_verified_at = por_defecto antes.email_verified_at ahora;
        }))

module _ {Q : Type 0} (enqueue : JobId → TrabajoDeCorreo → Q → Bool × Q) (c : Servicios) where
  avisar-state :
      (x : TokenResetConsumido) (s : Cuentas Q)
      → ((avisar_del_cambio enqueue c x s).0 ≡ ok tt)
        × ((avisar_del_cambio enqueue c x s).1.usuarios ≡ s.usuarios)
        × ((avisar_del_cambio enqueue c x s).1.sesiones ≡ s.sesiones)
        × ((avisar_del_cambio enqueue c x s).1.resets ≡ s.resets)
  avisar-state x s = elim (Option-cases (find_by_id x.user_id s.usuarios)) [
    | inl missing ↦ (
      grind (arith, missing),
      grind (arith, missing),
      grind (arith, missing),
      grind (arith, missing),
    )
    | inr (u, found) ↦
        (grind (arith, found), grind (arith, found), grind (arith, found), grind (arith, found))
  ]

  restablecer-ok :
      (token password_hash ahora : ℕ) (s : Cuentas Q) (x : TokenResetConsumido)
      → (consumir_reset (c.hash_token token) ahora s.resets).0 ≡ some x
      → restablecer enqueue c token password_hash ahora s
        ≡ avisar_del_cambio enqueue c x (record s {
          usuarios = actualizar_password x.user_id password_hash ahora s.usuarios;
          sesiones = revocar_todas_de_usuario x.user_id ahora s.sesiones;
          resets =
              caducar_enlaces_de x.user_id ahora
                (consumir_reset (c.hash_token token) ahora s.resets).1;
        })
  unfolding restablecer
  restablecer-ok token password_hash ahora s x h = grind (arith, h)

  -- A reset with a link that can be consumed succeeds, whether or not its notice can be sent: it
  -- closes every session of the user, spends the link for ever, expires the user's other links, and sets
  -- the password on the account, which is verified from then on.
  pub restablecer-Restablecida :
      (token password_hash ahora luego : ℕ) (s : Cuentas Q) (x : TokenResetConsumido) (u : User)
      → (consumir_reset (c.hash_token token) ahora s.resets).0 ≡ some x
      → find_by_id x.user_id s.usuarios ≡ some u
      → ((restablecer enqueue c token password_hash ahora s).0 ≡ ok tt)
        × Restablecida
            (c.hash_token token)
            x.user_id
            password_hash
            ahora
            luego
            u
            (restablecer enqueue c token password_hash ahora s).1
  unfolding vivas_de_usuario revocar_todas_de_usuario caducar_enlaces_de
  restablecer-Restablecida token password_hash ahora luego s x u h known =
      let t : Enlaces = (consumir_reset (c.hash_token token) ahora s.resets).1 in
      let s' : Cuentas Q = record s {
        usuarios = actualizar_password x.user_id password_hash ahora s.usuarios;
        sesiones = revocar_todas_de_usuario x.user_id ahora s.sesiones;
        resets = caducar_enlaces_de x.user_id ahora t;
      } in
      let (answer, usuarios, sesiones, resets) = avisar-state x s' in
      rw (restablecer-ok token password_hash ahora s x h) (
        answer,
        (
          rw sesiones (count-vivas x.user_id ahora s.sesiones),
          rw resets (consumido-spent (c.hash_token token) x.user_id ahora luego s.resets x h),
          rw resets (count-enlaces x.user_id ahora t.filas),
          rw usuarios (password_of x.user_id password_hash ahora s.usuarios u known),
        ),
      )

  -- With any other link a reset is refused and nothing is changed.
  pub restablecer_refused :
      (token password_hash ahora : ℕ) (s : Cuentas Q)
      → (consumir_reset (c.hash_token token) ahora s.resets).0 ≡ none
      → restablecer enqueue c token password_hash ahora s ≡ (err token_reset_invalido, s)
  unfolding restablecer
  restablecer_refused token password_hash ahora s h = grind (arith, h)
