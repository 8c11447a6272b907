-- ===== src/Users/Profile.antt =====
-- The profile of a user and the avatar: src/modules/users/application, get-my-profile, update-my-profile
-- and avatar.use-cases.ts, with `actualizarNombre`, `leerAvatar` and `fijarAvatar` of the in-memory
-- repository. The avatar stands beside the row of its user; the text of an id is a parameter.
-- `entorno k` is what other requests do before the k-th awaited call takes effect.
pub mod Laws
mod Tests
use wedding_planner_backend.Prelude.{
  ℕ, suc, ◌++◌, none, and_then, List, Option, some, ◌∷◌, if◌then◌else◌, modify_first, ◌==◌, find?,
}
use wedding_planner_backend.Users.{User, find_by_id}
use wedding_planner_backend.Storage.{
  ObjectStorage, preparar, confirmar, borrar_imagen, SubidaError, SubidaPreparada,
}
use wedding_planner_backend.Shared.Text.{text_eq, codes, Text}
use wedding_planner_backend.Prelude.Monad.{
  or_throw, ◌>>=◌, modify, Action, ◌>>◌, err, pure, gets, ok,
}

pub record AvatarDeUsuario : Type 0 where
  pub user_id : ℕ
  pub avatar_key : Option Text

pub record Cuentas (A : Type 0) : Type 0 where
  pub usuarios : List User
  pub avatares : List AvatarDeUsuario
  pub almacen : A

pub data PerfilError : Type 0 where
  usuario_no_encontrado : PerfilError
  de_subida : SubidaError → PerfilError

pub record PerfilPersonal : Type 0 where
  pub id : ℕ
  pub email : Text
  pub full_name : Text
  pub avatar_url : Option Text

unfoldable pub prefijo_de_avatar : (ℕ → Text) → ℕ → Text
prefijo_de_avatar id_text user_id = codes "users/" ++ id_text user_id ++ codes "/avatar"

unfoldable pub actualizar_nombre : ℕ → Text → List User → List User
actualizar_nombre id full_name =
    modify_first (λ u. u.id == id) (λ u. record u { full_name = full_name })

-- The last that was written of a user stands first.
abbrev pub avatar_guardado : ℕ → List AvatarDeUsuario → Option Text
avatar_guardado id avatares = elim (find? (λ (a : AvatarDeUsuario). a.user_id == id) avatares) [
  | none ↦ none
  | some a ↦ a.avatar_key
]

module _ {A : Type 0} (storage : ObjectStorage A) (id_text : ℕ → Text)
    (entorno : ℕ → Cuentas A → Cuentas A) where
  abbrev pub PerfilAction : Type 0 → Type 0
  PerfilAction B = Action (Cuentas A) PerfilError B

  abbrev pub esperar : ℕ → PerfilAction (Unit {0})
  esperar k = modify (entorno k)

  unfoldable pub leer_avatar : ℕ → Cuentas A → Option Text
  leer_avatar id s = elim (find_by_id id s.usuarios) [
    | none ↦ none
    | some u ↦ avatar_guardado id s.avatares
  ]

  unfoldable pub fijar_avatar : ℕ → Option Text → Cuentas A → Option Text × Cuentas A
  fijar_avatar id key s = elim (find_by_id id s.usuarios) [
    | none ↦ (none, s)
    | some u ↦ (
      avatar_guardado id s.avatares,
      record s { avatares = (record { user_id = id; avatar_key = key }) ∷ s.avatares },
    )
  ]

  -- `GetMyProfileUseCase.ejecutar`
  unfoldable pub leer_mi_perfil : ℕ → ℕ → PerfilAction PerfilPersonal
  leer_mi_perfil k user_id = do
    esperar k
    encontrado ← gets (λ s. find_by_id user_id s.usuarios)
    usuario ← or_throw encontrado usuario_no_encontrado
    esperar (suc k)
    avatar_key ← gets (leer_avatar user_id)
    pure (record {
      id = usuario.id;
      email = usuario.email;
      full_name = usuario.full_name;
      avatar_url = and_then avatar_key storage.firmar_lectura;
    })

  -- `UpdateMyProfileUseCase.ejecutar`
  unfoldable pub cambiar_mi_nombre : ℕ → Text → PerfilAction PerfilPersonal
  cambiar_mi_nombre user_id full_name = do
    esperar 0
    modify (λ s. record s { usuarios = actualizar_nombre user_id full_name s.usuarios })
    leer_mi_perfil 1 user_id

  abbrev pub sobre_almacen : {B : Type 0} → Action A SubidaError B → PerfilAction B
  sobre_almacen accion s =
      let (r, a) = accion s.almacen in
      elim r [
        | ok b ↦ (ok b, record s { almacen = a })
        | err e ↦ (err (de_subida e), record s { almacen = a })
      ]

  -- `PrepareAvatarUploadUseCase.ejecutar`
  unfoldable pub preparar_avatar : Text → ℕ → Text → ℕ → PerfilAction SubidaPreparada
  preparar_avatar uuid user_id content_type size =
      sobre_almacen (preparar storage uuid (prefijo_de_avatar id_text user_id) content_type size)

  -- The image that was the avatar before goes, unless it is the new one.
  abbrev pub soltar_anterior : Option Text → Option Text → A → A
  soltar_anterior none key a = a
  soltar_anterior (some anterior) none a = borrar_imagen storage anterior a
  soltar_anterior (some anterior) (some key) a =
      if text_eq anterior key then a else borrar_imagen storage anterior a

  -- `SetAvatarUseCase.ejecutar`
  unfoldable pub poner_avatar : ℕ → Text → PerfilAction PerfilPersonal
  poner_avatar user_id key = do
    esperar 0
    sobre_almacen (confirmar storage (prefijo_de_avatar id_text user_id) key)
    esperar 1
    anterior ← (λ s. let (a, s') = fijar_avatar user_id (some key) s in (ok a, s'))
    esperar 2
    modify (λ s. record s { almacen = soltar_anterior anterior (some key) s.almacen })
    leer_mi_perfil 3 user_id

  -- `RemoveAvatarUseCase.ejecutar`
  unfoldable pub quitar_avatar : ℕ → PerfilAction (Unit {0})
  quitar_avatar user_id = do
    esperar 0
    anterior ← (λ s. let (a, s') = fijar_avatar user_id none s in (ok a, s'))
    esperar 1
    modify (λ s. record s { almacen = soltar_anterior anterior none s.almacen })
