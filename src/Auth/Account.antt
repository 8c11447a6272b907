-- ===== src/Auth/Account.antt =====
-- src/modules/auth/application: registration, login, the verification of the e-mail and the reset of the
-- password. The hashing of tokens and passwords, the signing, `toLowerCase`, the queue and its failures
-- are parameters; what is drawn at random and `new Date()` are arguments.
pub mod Reset
pub mod Login
mod Tests
use wedding_planner_backend.Users.{
  find_by_id, actualizar_password, marcar_email_verificado, normalizar_email, SystemRole, User,
  find_by_email, crear_usuario,
}
use wedding_planner_backend.Auth.Sessions.{insertar, revocar_todas_de_usuario, SesionInterna}
use wedding_planner_backend.Prelude.{
  ℕ, List, Bool, Option, some, none, ◌*◌, is_none, is_some, not, ◌+◌,
}
use wedding_planner_backend.Prelude.Monad.{
  ok, err, ◌>>◌, ◌>>=◌, throw_if, modify, choose, gets, or_throw, pure, Action, on_null,
}
use wedding_planner_backend.Database.{en_transaccion}
use wedding_planner_backend.Queue.{
  password_reset_job, verify_email_job, password_changed_job, enqueue, JobId,
  registration_notice_job,
}
use wedding_planner_backend.Auth.Links.{
  consumir_reset, DatosEnlace, TokenResetConsumido, consumir_verificacion, Enlaces, crear_reset,
  ya_consumido, token_consumido, caducar_enlaces_de, no_encontrado_o_caducado, crear_verificacion,
}
use wedding_planner_backend.Shared.Text.{Text, codes}

-- `cola_caida` stands for what the queue throws, `hash_repetido` for what the storage throws.
pub data AuthError : Type 0 where
  credenciales_invalidas email_no_verificado token_reset_invalido unauthorized : AuthError
  hash_repetido cola_rota : AuthError

pub data TrabajoDeCorreo : Type 0 where
  send_verification_email send_password_reset_email : User → ℕ → TrabajoDeCorreo
  send_password_changed_notice : User → ℕ → TrabajoDeCorreo
  send_registration_notice : User → TrabajoDeCorreo

pub record Cuentas (Q : Type 0) : Type 0 where
  pub usuarios : List User
  pub sesiones : List SesionInterna
  pub verificaciones : Enlaces
  pub resets : Enlaces
  pub cola : Q

-- What the use cases are given. `hash_senuelo` is the fixed hash of the login, `hash` a hashing with the
-- salt that is drawn.
pub record Servicios : Type 0 where
  pub hash_token : ℕ → ℕ
  pub verify : ℕ → ℕ → Bool
  pub hash_senuelo : ℕ
  pub firmar_access : ℕ → SystemRole → ℕ
  pub refresh_ttl_days : ℕ
  pub verification_ttl_hours : ℕ
  pub reset_ttl_minutes : ℕ
  pub to_lower_case : Text → Text

pub record SorteoCuenta : Type 0 where
  pub token : ℕ
  pub uuid : ℕ
  pub family : ℕ

pub record TokensDeSesion : Type 0 where
  pub access_token : ℕ
  pub refresh_token : ℕ

pub record CuentaVista : Type 0 where
  pub id : Option ℕ
  pub email : Text
  pub full_name : Text

pub record DatosRegistro : Type 0 where
  pub email : Text
  pub password_hash : ℕ
  pub full_name : Text

pub data OutcomeVerificacion : Type 0 where
  verified already_verified invalid_or_expired : OutcomeVerificacion

module _ {Q : Type 0} (enqueue : JobId → TrabajoDeCorreo → Q → Bool × Q) (c : Servicios) where
  abbrev pub CuentasAction : Type 0 → Type 0
  CuentasAction A = Action (Cuentas Q) AuthError A

  abbrev pub encolar_correo : JobId → TrabajoDeCorreo → CuentasAction (Unit {0})
  encolar_correo id datos s =
      let (aceptado, q) = enqueue id datos s.cola in
      throw_if (not aceptado) cola_rota (record s { cola = q })

  -- `.catch` with a log: whatever of the work was written stays.
  abbrev pub en_segundo_plano : CuentasAction (Unit {0}) → CuentasAction (Unit {0})
  en_segundo_plano trabajo s = (ok tt, (trabajo s).1)

  -- `LoginUseCase`
  unfoldable pub login : Text → ℕ → SorteoCuenta → ℕ → CuentasAction TokensDeSesion
  login email password sorteo ahora = do
    hallado ← gets (λ s. find_by_email c.to_lower_case email s.usuarios)
    clave_valida ←
        gets (λ s.
          c.verify (elim hallado [ none ↦ c.hash_senuelo | some u ↦ u.password_hash ]) password)
    u ← or_throw hallado credenciales_invalidas
    throw_if (not clave_valida) credenciales_invalidas
    throw_if (is_none u.email_verified_at) email_no_verificado
    modify (λ s. record s {
      sesiones =
          insertar sorteo.uuid
            (record {
              user_id = u.id;
              token_hash = c.hash_token sorteo.token;
              family_id = sorteo.family;
              expires_at = ahora + c.refresh_ttl_days * 86400000;
              ip = none;
              user_agent = none;
            })
            s.sesiones;
    })
    pure
        (record { access_token = c.firmar_access u.id u.system_role; refresh_token = sorteo.token })

  -- `crear` of a token, which throws where the hash is there already.
  abbrev pub verificacion_creada : DatosEnlace → CuentasAction ℕ
  verificacion_creada datos s =
      let (id, t) = crear_verificacion datos s.verificaciones in
      or_throw id hash_repetido (record s { verificaciones = t })

  abbrev pub reset_creado : DatosEnlace → CuentasAction ℕ
  reset_creado datos s =
      let (id, t) = crear_reset datos s.resets in
      or_throw id hash_repetido (record s { resets = t })

  unfoldable pub caducidad_verificacion : ℕ → ℕ
  caducidad_verificacion desde = desde + c.verification_ttl_hours * 3600000

  unfoldable pub caducidad_reset : ℕ → ℕ
  caducidad_reset desde = desde + c.reset_ttl_minutes * 60000

  -- A new link to verify an address.
  abbrev pub enviar_verificacion : User → SorteoCuenta → ℕ → CuentasAction (Unit {0})
  enviar_verificacion u sorteo ahora = do
    id ← verificacion_creada (record {
      user_id = u.id;
      token_hash = c.hash_token sorteo.token;
      expires_at = caducidad_verificacion ahora;
    })
    encolar_correo (verify_email_job id) (send_verification_email u sorteo.token)

  -- `ResendVerificationUseCase`
  abbrev pub emitir_verificacion : User → SorteoCuenta → ℕ → CuentasAction (Unit {0})
  emitir_verificacion u sorteo ahora = do
    modify (λ s. record s { verificaciones = caducar_enlaces_de u.id ahora s.verificaciones })
    enviar_verificacion u sorteo ahora

  unfoldable pub reenviar_verificacion : Text → SorteoCuenta → ℕ → CuentasAction (Unit {0})
  reenviar_verificacion email sorteo ahora = do
    hallado ←
        gets
          (λ s. find_by_email c.to_lower_case (normalizar_email c.to_lower_case email) s.usuarios)
    on_null hallado (pure tt) (λ u.
        choose (is_some u.email_verified_at) (pure tt)
          (en_segundo_plano (emitir_verificacion u sorteo ahora)))

  -- `ForgotPasswordUseCase`
  abbrev pub emitir_reset : User → SorteoCuenta → ℕ → CuentasAction (Unit {0})
  emitir_reset u sorteo ahora = do
    modify (λ s. record s { resets = caducar_enlaces_de u.id ahora s.resets })
    id ← reset_creado (record {
      user_id = u.id;
      token_hash = c.hash_token sorteo.token;
      expires_at = caducidad_reset ahora;
    })
    encolar_correo (password_reset_job id) (send_password_reset_email u sorteo.token)

  unfoldable pub olvidar_password : Text → SorteoCuenta → ℕ → CuentasAction (Unit {0})
  olvidar_password email sorteo ahora = do
    hallado ←
        gets
          (λ s. find_by_email c.to_lower_case (normalizar_email c.to_lower_case email) s.usuarios)
    on_null hallado (pure tt) (λ u. en_segundo_plano (emitir_reset u sorteo ahora))

  -- `VerifyEmailUseCase`
  unfoldable pub verificar_email : ℕ → ℕ → Cuentas Q → OutcomeVerificacion × Cuentas Q
  verificar_email token ahora s =
      let (r, t) = consumir_verificacion (c.hash_token token) ahora s.verificaciones in
      let s' : Cuentas Q = record s { verificaciones = t } in
      elim r [
        | token_consumido id ↦
            (verified, record s' { usuarios = marcar_email_verificado id ahora s'.usuarios })
        | ya_consumido id ↦ (already_verified, s')
        | no_encontrado_o_caducado ↦ (invalid_or_expired, s')
      ]

  -- The work of the reset's transaction.
  abbrev pub cambiar_password : ℕ → ℕ → ℕ → CuentasAction TokenResetConsumido
  cambiar_password token password_hash ahora s =
      let (r, t) = consumir_reset (c.hash_token token) ahora s.resets in
      elim r [
        | none ↦ (err token_reset_invalido, record s { resets = t })
        | some x ↦ (
          ok x,
          record s {
            usuarios = actualizar_password x.user_id password_hash ahora s.usuarios;
            sesiones = revocar_todas_de_usuario x.user_id ahora s.sesiones;
            resets = caducar_enlaces_de x.user_id ahora t;
          },
        )
      ]

  -- `avisarDelCambio`, which throws nothing.
  abbrev pub avisar_del_cambio : TokenResetConsumido → CuentasAction (Unit {0})
  avisar_del_cambio x = do
    hallado ← gets (λ s. find_by_id x.user_id s.usuarios)
    on_null hallado (pure tt) (λ u. en_segundo_plano (
        encolar_correo (password_changed_job x.token_id)
          (send_password_changed_notice u x.token_id)))

  -- `ResetPasswordUseCase`, with the new password hashed.
  unfoldable pub restablecer : ℕ → ℕ → ℕ → CuentasAction (Unit {0})
  restablecer token password_hash ahora = do
    x ← en_transaccion (cambiar_password token password_hash ahora)
    avisar_del_cambio x

  abbrev pub vista_de : User → CuentaVista
  vista_de u = record { id = some u.id; email = u.email; full_name = u.full_name }

  -- `notificarExistente`; an id that is `'unknown'` is `none`.
  abbrev pub notificar_existente : Text → CuentasAction CuentaVista
  notificar_existente email = do
    hallado ← gets (λ s. find_by_email c.to_lower_case email s.usuarios)
    on_null hallado (pure (record { id = none; email = email; full_name = codes "Unknown" })) (λ u.
        encolar_correo (registration_notice_job u.id) (send_registration_notice u)
        >> pure (vista_de u))

  abbrev pub registrar_nuevo : Text → DatosRegistro → SorteoCuenta → ℕ → CuentasAction CuentaVista
  registrar_nuevo email datos sorteo ahora = do
    creado ← gets (λ s.
        crear_usuario c.to_lower_case sorteo.uuid email datos.password_hash datos.full_name
          s.usuarios)
    on_null creado (notificar_existente email) (λ r.
        modify (λ s. record s { usuarios = r.1 })
        >> enviar_verificacion r.0 sorteo ahora
        >> pure (vista_de r.0))

  -- `RegisterUseCase`. `entorno` is what other requests do between the look-up and the creation.
  unfoldable pub registrar :
      (Cuentas Q → Cuentas Q) → DatosRegistro → SorteoCuenta → ℕ → CuentasAction CuentaVista
  registrar entorno datos sorteo ahora = do
    existente ← gets (λ s.
        find_by_email c.to_lower_case (normalizar_email c.to_lower_case datos.email) s.usuarios)
    modify entorno
    on_null existente
        (registrar_nuevo (normalizar_email c.to_lower_case datos.email) datos sorteo ahora)
        (λ u. notificar_existente (normalizar_email c.to_lower_case datos.email))
