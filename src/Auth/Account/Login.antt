-- ===== src/Auth/Account/Login.antt =====
-- Login, the verification of the e-mail, and registration.
use wedding_planner_backend.Auth.Account.{
  Cuentas, TrabajoDeCorreo, send_registration_notice, SorteoCuenta, login, credenciales_invalidas,
  already_verified, Servicios, verificar_email, DatosRegistro, registrar, email_no_verificado,
  verified, TokensDeSesion, AuthError, CuentaVista,
}
use wedding_planner_backend.Auth.Links.{gastado, es_pendiente, con_hash, consumir_verificacion}
use wedding_planner_backend.Auth.Sessions.{insertar, fila_nueva}
use wedding_planner_backend.Prelude.{
  ℕ, Bool, ◌≡◌, refl, inr, leb, is_none, Option-cases, true, inl, arith, ◌+◌, find?-modify_first,
  find?, none, Bool-cases, is_some, ◌&&◌, false, some, ◌*◌, if◌then◌else◌, length, [], ap, ◌∷◌,
  length-append, suc, sym, ◌∙◌, List, any, ◌++◌,
}
use wedding_planner_backend.Prelude.Monad.{Result, ok, err, is_ok}
use wedding_planner_backend.Users.{User, find_by_email, normalizar_email, crear_usuario, SystemRole}
use wedding_planner_backend.Queue.{registration_notice_job, JobId}
use wedding_planner_backend.Shared.Text.{Text, text_eq}

nobody-any : {A : Type 0} (p : A → Bool) (xs : List A) → find? p xs ≡ none → any p xs ≡ false
nobody-any p [] h = refl
nobody-any p (x ∷ xs) h = ground (arith, nobody-any p xs)

module _ {Q : Type 0} (enqueue : JobId → TrabajoDeCorreo → Q → Bool × Q) (c : Servicios) where
  -- Whether an e-mail and a password are those of an account.
  abbrev pub acredita : Text → ℕ → Cuentas Q → Bool
  acredita email password s = elim (find_by_email c.to_lower_case email s.usuarios) [
    | none ↦ false
    | some u ↦ c.verify u.password_hash password
  ]

  abbrev pub verificado : Text → Cuentas Q → Bool
  verificado email s = elim (find_by_email c.to_lower_case email s.usuarios) [
    | none ↦ false
    | some u ↦ is_some u.email_verified_at
  ]

  -- What a login leaves of the sessions.
  abbrev pub una_mas : SorteoCuenta → ℕ → User → Cuentas Q → Cuentas Q
  una_mas sorteo ahora u s = record s {
    sesiones =
        insertar sorteo.uuid
          (record {
            user_id = u.id;
            token_hash = c.hash_token sorteo.token;
            family_id = sorteo.family;
            expires_at = ahora + c.refresh_ttl_days * 86400000;
            ip = none;
            user_agent = none;
          })
          s.sesiones;
  }

  login-known :
      (email : Text) (password : ℕ) (sorteo : SorteoCuenta) (ahora : ℕ) (s : Cuentas Q) (u : User)
      → find_by_email c.to_lower_case email s.usuarios ≡ some u
      → c.verify u.password_hash password ≡ true
      → is_none u.email_verified_at ≡ false
      → login enqueue c email password sorteo ahora s ≡ (
        ok (record {
          access_token = c.firmar_access u.id u.system_role;
          refresh_token = sorteo.token;
        }),
        una_mas sorteo ahora u s,
      )
  unfolding login
  login-known email password sorteo ahora s u found valid has = grind (arith, found, valid, has)

  length-una_mas :
      (sorteo : SorteoCuenta) (ahora : ℕ) (u : User) (s : Cuentas Q)
      → length (una_mas sorteo ahora u s).sesiones ≡ suc (length s.sesiones)
  unfolding insertar
  length-una_mas sorteo ahora u s = omega (
    arith,
    length-append s.sesiones (
        fila_nueva sorteo.uuid (record {
          user_id = u.id;
          token_hash = c.hash_token sorteo.token;
          family_id = sorteo.family;
          expires_at = ahora + c.refresh_ttl_days * 86400000;
          ip = none;
          user_agent = none;
        })
        ∷ []),
  )

  -- A login opens a session exactly for an e-mail and a password that are those of an account whose
  -- address is verified. A wrong password and an e-mail that no account has get one and the same answer,
  -- and that the address is not verified is told to those only who know the password. A login that is
  -- refused changes nothing.
  pub login_cases :
      (email : Text) (password : ℕ) (sorteo : SorteoCuenta) (ahora : ℕ) (s : Cuentas Q)
      → (is_ok (login enqueue c email password sorteo ahora s).0
          ≡ (acredita email password s && verificado email s))
        × (login enqueue c email password sorteo ahora s ≡ (
            if acredita email password s
            then (if verificado email s
                then login enqueue c email password sorteo ahora s
                else (err email_no_verificado, s))
            else (err credenciales_invalidas, s)))
        × (length (login enqueue c email password sorteo ahora s).1.sesiones
            ≡ (if acredita email password s && verificado email s then 1 else 0)
              + length s.sesiones)
  unfolding login
  login_cases email password sorteo ahora s =
      elim (Option-cases (find_by_email c.to_lower_case email s.usuarios)) [
        | inl unknown ↦ (grind (arith, unknown), grind (arith, unknown), grind (arith, unknown))
        | inr (u, found) ↦ elim (Bool-cases (c.verify u.password_hash password)) [
          | inr wrong ↦ (
            grind (arith, found, wrong),
            grind (arith, found, wrong),
            grind (arith, found, wrong),
          )
          | inl right ↦ elim (Option-cases u.email_verified_at) [
            | inl unverified ↦ (
              grind (arith, found, right, unverified),
              grind (arith, found, right, unverified),
              grind (arith, found, right, unverified),
            )
            | inr (t, verified_at) ↦ (
              grind (arith, found, right, verified_at),
              grind (arith, found, right, verified_at),
              grind (
                arith,
                found,
                right,
                verified_at,
                ap (λ (r : Result AuthError TokensDeSesion × Cuentas Q). length r.1.sesiones)
                    (login-known email password sorteo ahora s u found right
                      (grind (arith, verified_at))),
                length-una_mas sorteo ahora u s,
              ),
            )
          ]
        ]
      ]

  -- A link that verifies an address verifies the account, and used once more at any time it answers that
  -- the address is verified already and changes nothing.
  pub verificar_email_twice :
      (token ahora luego : ℕ) (s : Cuentas Q)
      → (verificar_email enqueue c token ahora s).0 ≡ verified
      → verificar_email enqueue c token luego (verificar_email enqueue c token ahora s).1
        ≡ (already_verified, (verificar_email enqueue c token ahora s).1)
  unfolding verificar_email consumir_verificacion
  verificar_email_twice token ahora luego s h =
      elim (Option-cases (find? (con_hash (c.hash_token token)) s.verificaciones.filas)) [
        | inl missing ↦ absurd (grind (arith, missing))
        | inr (t, found) ↦ elim (Bool-cases (es_pendiente t.status)) [
          | inr spent ↦ absurd (grind (arith, found, spent))
          | inl waiting ↦ elim (Bool-cases (leb t.expires_at ahora)) [
            | inl expired ↦ absurd (grind (arith, found, waiting, expired))
            | inr good ↦ grind (
              arith,
              found,
              waiting,
              good,
              find?-modify_first (con_hash (c.hash_token token)) (gastado ahora)
                  s.verificaciones.filas t (λ a. refl) found,
            )
          ]
        ]
      ]

  crear_usuario_new :
      (uuid hash : ℕ) (email nombre : Text) (us : List User)
      → find_by_email c.to_lower_case email us ≡ none
      → (r : User × List User) × (crear_usuario c.to_lower_case uuid email hash nombre us ≡ some r)
        × (r.0.full_name ≡ nombre)
  unfolding find_by_email crear_usuario
  crear_usuario_new uuid hash email nombre us new =
      let free =
        nobody-any (λ u. text_eq u.email (normalizar_email c.to_lower_case email)) us new in
      let nuevo : User = record {
        id = uuid;
        email = normalizar_email c.to_lower_case email;
        full_name = nombre;
        system_role = SystemRole.user;
        email_verified_at = none;
        password_hash = hash;
      } in
      ((nuevo, us ++ nuevo ∷ []), grind (arith, free), refl)

  registrar_new :
      (datos : DatosRegistro) (sorteo : SorteoCuenta) (ahora : ℕ) (s : Cuentas Q) (v : CuentaVista)
      → find_by_email c.to_lower_case (normalizar_email c.to_lower_case datos.email) s.usuarios
        ≡ none
      → (registrar enqueue c (λ t. t) datos sorteo ahora s).0 ≡ ok v
      → v.full_name ≡ datos.full_name
  unfolding registrar
  registrar_new datos sorteo ahora s v new h =
      let email : Text = normalizar_email c.to_lower_case datos.email in
      let (u, hecho, name) =
        crear_usuario_new sorteo.uuid datos.password_hash email datos.full_name s.usuarios new in
      grind (arith, new, hecho, name, h)

  -- The answer to the registration of an e-mail that an account has, where the notice can be
  -- enqueued, shows the id and the name of that account, not the name that was sent. Where the two
  -- names differ, no registration of that e-mail and name where no account has it, whatever ids it
  -- draws and whenever it is made, has the same answer: whoever registers can tell that there is an
  -- account.
  pub registrar_reveals :
      (datos : DatosRegistro) (sorteo : SorteoCuenta) (ahora : ℕ) (s : Cuentas Q) (u : User)
      (nuevo : SorteoCuenta) (luego : ℕ) (s' : Cuentas Q)
      → find_by_email c.to_lower_case (normalizar_email c.to_lower_case datos.email) s.usuarios
        ≡ some u
      → (enqueue (registration_notice_job u.id) (send_registration_notice u) s.cola).0 ≡ true
      → find_by_email c.to_lower_case (normalizar_email c.to_lower_case datos.email) s'.usuarios
        ≡ none
      → ¬ (u.full_name ≡ datos.full_name)
      → ((registrar enqueue c (λ t. t) datos sorteo ahora s).0
          ≡ ok (record { id = some u.id; email = u.email; full_name = u.full_name }))
        × ¬ (
            (registrar enqueue c (λ t. t) datos sorteo ahora s).0
            ≡ (registrar enqueue c (λ t. t) datos nuevo luego s').0)
  unfolding registrar
  registrar_reveals datos sorteo ahora s u nuevo luego s' known accepted new differ =
      let v : CuentaVista = record { id = some u.id; email = u.email; full_name = u.full_name } in
      let told : (registrar enqueue c (λ t. t) datos sorteo ahora s).0 ≡ ok v =
        grind (arith, known, accepted) in
      (told, λ same. differ (registrar_new datos nuevo luego s' v new (sym same ∙ told)))
