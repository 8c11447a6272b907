-- ===== src/Users.antt =====
-- src/modules/users: the account (domain/user.ts) and its in-memory repository
-- (infrastructure/user.repository.fake.ts). `toLowerCase` covers all of Unicode and is a parameter.
pub mod Profile
use wedding_planner_backend.Prelude.{
  ℕ, ◌==◌, Option, none, find?, modify_first, some, List, ◌∷◌, [], ◌++◌, any, if◌then◌else◌,
}
use wedding_planner_backend.Shared.Text.{Text, trim, text_eq}

pub data SystemRole : Type 0 where
  user admin : SystemRole

pub record User : Type 0 where
  pub id : ℕ
  pub email : Text
  pub full_name : Text
  pub system_role : SystemRole
  pub email_verified_at : Option ℕ
  pub password_hash : ℕ

unfoldable pub find_by_id : ℕ → List User → Option User
find_by_id id usuarios = find? (λ u. u.id == id) usuarios

abbrev pub por_defecto : Option ℕ → ℕ → Option ℕ
por_defecto none ahora = some ahora
por_defecto (some t) ahora = some t

-- `actualizarPassword`: the reset link proves control of the mailbox, so it verifies the address.
unfoldable pub actualizar_password : ℕ → ℕ → ℕ → List User → List User
actualizar_password id hash ahora =
    modify_first (λ u. u.id == id)
      (λ u. record u {
        password_hash = hash;
        email_verified_at = por_defecto u.email_verified_at ahora;
      })

unfoldable pub marcar_email_verificado : ℕ → ℕ → List User → List User
marcar_email_verificado id ahora =
    modify_first (λ u. u.id == id) (λ u. record u { email_verified_at = some ahora })

module _ (to_lower_case : Text → Text) where
  unfoldable pub normalizar_email : Text → Text
  normalizar_email email = to_lower_case (trim email)

  unfoldable pub find_by_email : Text → List User → Option User
  unfolding normalizar_email
  find_by_email email usuarios =
      let normalizado = normalizar_email email in find? (λ u. text_eq u.email normalizado) usuarios

  -- `create`: `none` stands for the e-mail that is registered already.
  unfoldable pub crear_usuario : ℕ → Text → ℕ → Text → List User → Option (User × List User)
  unfolding normalizar_email
  crear_usuario uuid email hash nombre usuarios =
      let normalizado = normalizar_email email in
      let nuevo : User = record {
        id = uuid;
        email = normalizado;
        full_name = nombre;
        system_role = user;
        email_verified_at = none;
        password_hash = hash;
      } in
      if any (λ u. text_eq u.email normalizado) usuarios
      then none
      else some (nuevo, usuarios ++ nuevo ∷ [])
