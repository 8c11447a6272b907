-- ===== src/Auth/Tests.antt =====
-- Refresh sessions at concrete inputs: family 5 of user 7, whose token 1 was rotated into token 2.
use wedding_planner_backend.Prelude.{ℕ, ◌≡◌, ◌+◌, [], Option, ◌∷◌, none, arith, refl, some}
use wedding_planner_backend.Users.{User, find_by_id, user}
use wedding_planner_backend.Auth.Sessions.{
  SesionInterna, buscar_por_hash, buscar_sesion_viva_de_familia,
}
use wedding_planner_backend.Auth.Sessions.OneAlive.{vivas, UnaViva, Coherente}
use wedding_planner_backend.Auth.Refresh.{
  Contexto, Mundo, ejecutar, Sorteo, tumbar_familia, intentar_continuar_como_concurrente,
  refresh_reutilizado, continuar_o_revocar,
}
use wedding_planner_backend.Auth.Refresh.Family.{ejecutar-reused_shuts}
use wedding_planner_backend.Auth.Refresh.Concurrent.{Fiable, ejecutar-UnaViva}
use wedding_planner_backend.Auth.Refresh.Sequential.{
  Tranquilo, ejecutar_rotates, ejecutar_grace, FilaDe,
}
use wedding_planner_backend.Prelude.Monad.{err, ok}

abbrev contexto : Contexto
contexto = record {
  hash_token = λ t. t + 1000;
  firmar_access = λ id role. id + 500;
  refresh_ttl_days = 1;
  entorno = λ k m. m;
}

abbrev sesion : ℕ → ℕ → Option ℕ → ℕ → SesionInterna
sesion id expires revocada_en hash = record {
  persistida = record {
    id = id;
    user_id = 7;
    family_id = 5;
    expires_at = expires;
    revoked_at = revocada_en;
  };
  token_hash = hash;
  ip = none;
  user_agent = none;
}

abbrev ana : User
ana = record {
  id = 7;
  email = [];
  full_name = [];
  system_role = user;
  email_verified_at = none;
  password_hash = 0;
}

abbrev mundo : ℕ → Mundo
mundo reloj = record {
  sesiones = sesion 1 90000 (some 20000) 1001 ∷ sesion 2 90000 none 1002 ∷ [];
  usuarios = ana ∷ [];
  reloj = reloj;
}

abbrev primero : Sorteo
primero = record { token = 3; uuid = 3 }

abbrev segundo : Sorteo
segundo = record { token = 4; uuid = 4 }

tranquilo : Tranquilo contexto
tranquilo = λ k m. refl

contexto-Fiable : Fiable contexto
contexto-Fiable = record {
  una_viva = λ k m h. h;
  coherente = λ k m h. h;
  pertenece = λ k id family m h. h;
}

mundo-Coherente : Coherente (mundo 25000).sesiones
mundo-Coherente = record {
  ids = ((λ _. refl, (λ _. refl, tt)), ((λ _. refl, (λ _. refl, tt)), tt));
}

mundo-UnaViva : UnaViva (mundo 25000).sesiones
mundo-UnaViva = record { at_most = λ g. ground arith }

ejecutar-UnaViva_example : UnaViva (ejecutar contexto 2 primero segundo (mundo 25000)).1.sesiones
ejecutar-UnaViva_example =
    ejecutar-UnaViva contexto 2 primero segundo (mundo 25000) contexto-Fiable mundo-Coherente
      mundo-UnaViva

found_first :
    buscar_por_hash 1001 (mundo 31000).sesiones ≡ some (sesion 1 90000 (some 20000) 1001).persistida
unfolding buscar_por_hash
found_first = refl

reused : (ejecutar contexto 1 primero segundo (mundo 31000)).0 ≡ err refresh_reutilizado
unfolding ejecutar continuar_o_revocar intentar_continuar_como_concurrente tumbar_familia
    buscar_por_hash
reused = refl

ejecutar-reused_shuts_example :
    vivas 5 (ejecutar contexto 1 primero segundo (mundo 31000)).1.sesiones ≡ 0
ejecutar-reused_shuts_example =
    ejecutar-reused_shuts contexto 1 primero segundo (mundo 31000)
      (sesion 1 90000 (some 20000) 1001).persistida found_first reused

found_live :
    buscar_por_hash 1002 (mundo 25000).sesiones ≡ some (sesion 2 90000 none 1002).persistida
unfolding buscar_por_hash
found_live = refl

ana_known : find_by_id 7 (mundo 25000).usuarios ≡ some ana
unfolding find_by_id
ana_known = refl

ejecutar_rotates_example :
    let (r, m') = ejecutar contexto 2 primero segundo (mundo 25000) in
    (r ≡ ok (record { access_token = 507; refresh_token = 3 }))
    × (buscar_por_hash 1003 m'.sesiones
        ≡ some (record {
          id = 3;
          user_id = 7;
          family_id = 5;
          expires_at = 86425000;
          revoked_at = none;
        }))
    × FilaDe (sesion 2 90000 (some 25000) 1002).persistida m'.sesiones
ejecutar_rotates_example =
    ejecutar_rotates contexto 2 primero segundo (mundo 25000) (sesion 2 90000 none 1002).persistida
      ana tranquilo found_live refl refl (omega arith) refl ana_known

found_rotated :
    buscar_por_hash 1001 (mundo 25000).sesiones ≡ some (sesion 1 90000 (some 20000) 1001).persistida
unfolding buscar_por_hash
found_rotated = refl

successor :
    buscar_sesion_viva_de_familia 5 (mundo 25000).sesiones
    ≡ some (sesion 2 90000 none 1002).persistida
unfolding buscar_sesion_viva_de_familia
successor = refl

ejecutar_grace_example :
    let (r, m') = ejecutar contexto 1 primero segundo (mundo 25000) in
    (r ≡ ok (record { access_token = 507; refresh_token = 4 }))
    × (buscar_por_hash 1004 m'.sesiones
        ≡ some (record {
          id = 4;
          user_id = 7;
          family_id = 5;
          expires_at = 86425000;
          revoked_at = none;
        }))
    × FilaDe (sesion 2 90000 (some 25000) 1002).persistida m'.sesiones
ejecutar_grace_example =
    ejecutar_grace contexto 1 primero segundo (mundo 25000)
      (sesion 1 90000 (some 20000) 1001).persistida (sesion 2 90000 none 1002).persistida 20000 ana
      tranquilo found_rotated refl (omega arith) (omega arith) successor refl refl (omega arith)
      refl ana_known
