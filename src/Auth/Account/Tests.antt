-- ===== src/Auth/Account/Tests.antt =====
-- The use cases of accounts at concrete inputs: Ana, who is verified and logged in, with a reset link.
use wedding_planner_backend.Auth.Account.{
  Cuentas, registrar, TrabajoDeCorreo, send_registration_notice, SorteoCuenta, Servicios,
  restablecer, DatosRegistro,
}
use wedding_planner_backend.Users.{user, User, find_by_email, find_by_id, normalizar_email}
use wedding_planner_backend.Prelude.{
  List, ◌≡◌, [], refl, ◌+◌, some, true, none, ◌∷◌, ◌==◌, arith, ℕ, ap,
}
use wedding_planner_backend.Prelude.Monad.{ok}
use wedding_planner_backend.Queue.{enqueue, registration_notice_job, Encolado}
use wedding_planner_backend.Auth.Sessions.{SesionInterna}
use wedding_planner_backend.Auth.Links.{consumir_reset, Enlace, pendiente, TokenResetConsumido}
use wedding_planner_backend.Auth.Account.Reset.{Restablecida, restablecer-Restablecida}
use wedding_planner_backend.Auth.Account.Login.{registrar_reveals}
use wedding_planner_backend.Shared.Text.{trim_end, trim, codes, Text, is_space, trim_start, text_eq}

abbrev servicios : Servicios
servicios = record {
  hash_token = λ t. t + 1000;
  verify = λ hash password. hash == password + 500;
  hash_senuelo = 0;
  firmar_access = λ id role. id + 2000;
  refresh_ttl_days = 1;
  verification_ttl_hours = 48;
  reset_ttl_minutes = 30;
  to_lower_case = λ t. t;
}

abbrev ana : User
ana = record {
  id = 7;
  email = codes "ana@x.com";
  full_name = codes "Ana";
  system_role = user;
  email_verified_at = some 5;
  password_hash = 542;
}

abbrev sesion : SesionInterna
sesion = record {
  persistida = record { id = 1; user_id = 7; family_id = 5; expires_at = 9000; revoked_at = none };
  token_hash = 1001;
  ip = none;
  user_agent = none;
}

abbrev enlace : Enlace
enlace = record {
  id = 1;
  user_id = 7;
  token_hash = 1005;
  status = pendiente;
  expires_at = 900;
  consumed_at = none;
}

abbrev Cola : Type 0
Cola = List (Encolado TrabajoDeCorreo)

abbrev cuentas : Cuentas Cola
cuentas = record {
  usuarios = ana ∷ [];
  sesiones = sesion ∷ [];
  verificaciones = record { filas = []; last_id = 0 };
  resets = record {
    filas = enlace ∷ record enlace { id = 2; token_hash = 1006 } ∷ [];
    last_id = 2;
  };
  cola = [];
}

abbrev consumida : TokenResetConsumido
consumida = record { user_id = 7; token_id = 1 }

gasta : (consumir_reset 1005 400 cuentas.resets).0 ≡ some consumida
unfolding consumir_reset
gasta = refl

conocida : find_by_id 7 cuentas.usuarios ≡ some ana
unfolding find_by_id
conocida = refl

restablecer-Restablecida_example :
    ((restablecer enqueue servicios 5 999 400 cuentas).0 ≡ ok tt)
    × Restablecida 1005 7 999 400 800 ana (restablecer enqueue servicios 5 999 400 cuentas).1
restablecer-Restablecida_example =
    restablecer-Restablecida enqueue servicios 5 999 400 800 cuentas consumida ana gasta conocida

abbrev sorteo : SorteoCuenta
sorteo = record { token = 8; uuid = 9; family = 6 }

abbrev correo : Text
correo = codes "ana@x.com"

abbrev intruso : DatosRegistro
intruso = record { email = correo; password_hash = 1; full_name = codes "Eva" }

registrada :
    find_by_email servicios.to_lower_case
      (normalizar_email servicios.to_lower_case correo)
      cuentas.usuarios
    ≡ some ana
unfolding find_by_email normalizar_email text_eq trim trim_start trim_end is_space
registrada = refl

aceptada :
    (enqueue (registration_notice_job 7) (send_registration_notice ana) cuentas.cola).0 ≡ true
unfolding enqueue
aceptada = refl

abbrev vacias : Cuentas (List (Encolado TrabajoDeCorreo))
vacias = record cuentas { usuarios = [] }

sin_cuenta :
    find_by_email servicios.to_lower_case
      (normalizar_email servicios.to_lower_case correo)
      vacias.usuarios
    ≡ none
unfolding find_by_email
sin_cuenta = refl

abbrev primera : Text → ℕ
primera [] = 0
primera (x ∷ t) = x

otro_nombre : ¬ (ana.full_name ≡ intruso.full_name)
otro_nombre h = omega (arith, ap primera h)

registrar_reveals_example :
    ((registrar enqueue servicios (λ t. t) intruso sorteo 400 cuentas).0
      ≡ ok (record { id = some 7; email = correo; full_name = codes "Ana" }))
    × ¬ (
        (registrar enqueue servicios (λ t. t) intruso sorteo 400 cuentas).0
        ≡ (registrar enqueue servicios (λ t. t) intruso sorteo 500 vacias).0)
registrar_reveals_example =
    registrar_reveals enqueue servicios intruso sorteo 400 cuentas ana sorteo 500 vacias registrada
      aceptada sin_cuenta otro_nombre
