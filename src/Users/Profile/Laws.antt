-- ===== src/Users/Profile/Laws.antt =====
-- Where avatars lie.
use wedding_planner_backend.Prelude.{
  ℕ, Bool, Option, All, suc, Option-cases, ◌≡◌, some, refl, [], arith, inl, ◌∷◌, inr, none, true,
}
use wedding_planner_backend.Users.Profile.{
  Cuentas, AvatarDeUsuario, poner_avatar, quitar_avatar, actualizar_nombre, fijar_avatar,
  prefijo_de_avatar, leer_mi_perfil, cambiar_mi_nombre, soltar_anterior,
}
use wedding_planner_backend.Storage.{ObjectStorage, confirmar, con_barra, confirmar-Confirmada}
use wedding_planner_backend.Users.{find_by_id}
use wedding_planner_backend.Shared.Text.{starts_with, Text}
use wedding_planner_backend.Prelude.Monad.{Result-cases}

abbrev pub en_su_carpeta : (ℕ → Text) → AvatarDeUsuario → Bool
en_su_carpeta id_text a = elim a.avatar_key [
  | none ↦ true
  | some key ↦ starts_with key (con_barra (prefijo_de_avatar id_text a.user_id) [])
]

abbrev pub Propios : {A : Type 0} → (ℕ → Text) → Cuentas A → Type 0
Propios id_text s = All (λ a. en_su_carpeta id_text a ≡ true) s.avatares

module _ {A : Type 0} (storage : ObjectStorage A) (id_text : ℕ → Text)
    (entorno : ℕ → Cuentas A → Cuentas A)
    (r : (k : ℕ) (s : Cuentas A) → Propios id_text s → Propios id_text (entorno k s)) where
  leer_mi_perfil-Propios :
      (k user_id : ℕ) (s : Cuentas A)
      → Propios id_text s
      → Propios id_text (leer_mi_perfil storage id_text entorno k user_id s).1
  unfolding leer_mi_perfil
  leer_mi_perfil-Propios k user_id s h =
      let s1 = entorno k s in
      let h1 = r k s h in
      elim (Option-cases (find_by_id user_id s1.usuarios)) [
        | inl missing ↦ grind (arith, missing, h1)
        | inr (u, found) ↦ grind (arith, found, r (suc k) s1 h1)
      ]

  fijar_avatar-Propios :
      (user_id : ℕ) (key : Option Text) (s : Cuentas A)
      → en_su_carpeta id_text (record { user_id = user_id; avatar_key = key }) ≡ true
      → Propios id_text s
      → Propios id_text (fijar_avatar storage id_text entorno user_id key s).1
  unfolding fijar_avatar
  fijar_avatar-Propios user_id key s own h = elim (Option-cases (find_by_id user_id s.usuarios)) [
    | inl missing ↦ grind (arith, missing, h)
    | inr (u, found) ↦
        let more : Propios id_text (record s {
          avatares = (record { user_id = user_id; avatar_key = key }) ∷ s.avatares;
        }) =
          (own, h) in
        grind (arith, found, more)
  ]

  poner_avatar-Propios :
      (user_id : ℕ) (key : Text) (s : Cuentas A)
      → Propios id_text s
      → Propios id_text (poner_avatar storage id_text entorno user_id key s).1
  unfolding poner_avatar
  poner_avatar-Propios user_id key s h =
      let s0 = entorno 0 s in
      let c = confirmar storage (prefijo_de_avatar id_text user_id) key s0.almacen in
      let s1 : Cuentas A = record s0 { almacen = c.1 } in
      let h1 = r 0 s h in
      elim (Result-cases c.0) [
        | inr (e, refused) ↦ grind (arith, refused, h1)
        | inl (u, kept) ↦
            let own : starts_with key (con_barra (prefijo_de_avatar id_text user_id) []) ≡ true =
              (confirmar-Confirmada storage (prefijo_de_avatar id_text user_id) key s0.almacen
                kept).0.bajo_prefijo in
            let s2 = entorno 1 s1 in
            let w = fijar_avatar storage id_text entorno user_id (some key) s2 in
            let h2 : Propios id_text w.1 =
              fijar_avatar-Propios user_id (some key) s2 own (r 1 s1 h1) in
            let s3 = entorno 2 w.1 in
            let s4 : Cuentas A = record s3 {
              almacen = soltar_anterior storage id_text entorno w.0 (some key) s3.almacen;
            } in
            grind (arith, kept, leer_mi_perfil-Propios 3 user_id s4 (r 2 w.1 h2))
      ]

  quitar_avatar-Propios :
      (user_id : ℕ) (s : Cuentas A)
      → Propios id_text s
      → Propios id_text (quitar_avatar storage id_text entorno user_id s).1
  unfolding quitar_avatar
  quitar_avatar-Propios user_id s h =
      let s0 = entorno 0 s in
      let w = fijar_avatar storage id_text entorno user_id none s0 in
      r 1 w.1 (fijar_avatar-Propios user_id none s0 refl (r 0 s h))

  cambiar_mi_nombre-Propios :
      (user_id : ℕ) (full_name : Text) (s : Cuentas A)
      → Propios id_text s
      → Propios id_text (cambiar_mi_nombre storage id_text entorno user_id full_name s).1
  unfolding cambiar_mi_nombre
  cambiar_mi_nombre-Propios user_id full_name s h =
      let s0 = entorno 0 s in
      leer_mi_perfil-Propios 1 user_id
        (record s0 { usuarios = actualizar_nombre user_id full_name s0.usuarios }) (r 0 s h)

-- Every avatar lies in the folder of its user: setting and removing one and changing the name keep
-- this, answered or refused, and whatever other requests that keep it come in between.
pub avatar-Propios :
    {A : Type 0} (storage : ObjectStorage A) (id_text : ℕ → Text)
    (entorno : ℕ → Cuentas A → Cuentas A) (s : Cuentas A) (user_id : ℕ)
    → ((k : ℕ) (t : Cuentas A) → Propios id_text t → Propios id_text (entorno k t))
    → Propios id_text s
    → ((key : Text) → Propios id_text (poner_avatar storage id_text entorno user_id key s).1)
      × Propios id_text (quitar_avatar storage id_text entorno user_id s).1
      × ((full_name : Text)
          → Propios id_text (cambiar_mi_nombre storage id_text entorno user_id full_name s).1)
avatar-Propios storage id_text entorno s user_id r h = (
  λ key. poner_avatar-Propios storage id_text entorno r user_id key s h,
  quitar_avatar-Propios storage id_text entorno r user_id s h,
  λ full_name. cambiar_mi_nombre-Propios storage id_text entorno r user_id full_name s h,
)
