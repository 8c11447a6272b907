-- ===== src/Users/Profile/Tests.antt =====
-- An avatar at concrete inputs.
use wedding_planner_backend.Prelude.{ℕ, some, refl, [], ◌∷◌, ◌+◌, none, true}
use wedding_planner_backend.Users.{User, SystemRole}
use wedding_planner_backend.Users.Profile.{
  Cuentas, poner_avatar, quitar_avatar, cambiar_mi_nombre, prefijo_de_avatar,
}
use wedding_planner_backend.Storage.{ObjectStorage}
use wedding_planner_backend.Users.Profile.Laws.{avatar-Propios, Propios}
use wedding_planner_backend.Shared.Text.{codes, Text}
use wedding_planner_backend.Prelude.Monad.{ok}

abbrev almacen : ObjectStorage ℕ
almacen = record {
  disponible = true;
  firmar_subida = λ key content_type bytes. key;
  firmar_lectura = λ key. some key;
  inspeccionar = λ key n. some (record { content_type = some (codes "image/png"); bytes = 1024 });
  borrar_objeto = λ key n. (ok tt, n + 1);
}

abbrev ana : User
ana = record {
  id = 7;
  email = [];
  full_name = [];
  system_role = SystemRole.user;
  email_verified_at = none;
  password_hash = 0;
}

abbrev cuentas : Cuentas ℕ
cuentas = record {
  usuarios = ana ∷ [];
  avatares = record { user_id = 7; avatar_key = some (codes "users/u/avatar/1.png") } ∷ [];
  almacen = 0;
}

abbrev texto : ℕ → Text
texto n = codes "u"

cuentas-Propios : Propios texto cuentas
unfolding prefijo_de_avatar
cuentas-Propios = (refl, tt)

avatar-Propios_example :
    ((key : Text) → Propios texto (poner_avatar almacen texto (λ k s. s) 7 key cuentas).1)
    × Propios texto (quitar_avatar almacen texto (λ k s. s) 7 cuentas).1
    × ((full_name : Text)
        → Propios texto (cambiar_mi_nombre almacen texto (λ k s. s) 7 full_name cuentas).1)
avatar-Propios_example =
    avatar-Propios almacen texto (λ k s. s) cuentas 7 (λ k t h. h) cuentas-Propios
