-- ===== src/Auth/Access.antt =====
-- src/modules/auth/application/autenticar-access-token.ts. The verification of a token's signature and of
-- the form of its claims (`verificarAccess`) is a parameter; `none` stands for what it throws.
use wedding_planner_backend.Users.{User, SystemRole, find_by_id}
use wedding_planner_backend.Prelude.{
  ℕ, List, Bool, ◌≡◌, sym, Option, some, inl, find?, [], any, ◌∷◌, arith, Bool-cases, ◌==◌,
  Option-cases, none, if◌then◌else◌, inr, ◌*◌, not, ap, find?-sound,
}
use wedding_planner_backend.Prelude.Monad.{Result, ok, err}
use wedding_planner_backend.Auth.Account.{unauthorized, AuthError}
use wedding_planner_backend.Shared.Text.{Text, text_eq, codes}

pub record PayloadAccess : Type 0 where
  pub sub : ℕ
  pub role : Text
  pub exp : ℕ

pub record UsuarioAutenticado : Type 0 where
  pub id : ℕ
  pub email : Text
  pub full_name : Text
  pub system_role : SystemRole

pub record Autenticado : Type 0 where
  pub usuario : UsuarioAutenticado
  pub expira_en : ℕ

-- `ROLES_VALIDOS`
abbrev pub roles_validos : List Text
roles_validos = codes "USER" ∷ codes "ADMIN" ∷ []

unfoldable pub es_system_role : Text → Bool
es_system_role valor = any (λ r. text_eq r valor) roles_validos

abbrev pub usuario_de : User → UsuarioAutenticado
usuario_de u = record {
  id = u.id;
  email = u.email;
  full_name = u.full_name;
  system_role = u.system_role;
}

-- `exp` counts seconds.
unfoldable pub autenticar_access_token :
    (ℕ → Option PayloadAccess) → List User → ℕ → Result AuthError Autenticado
autenticar_access_token verificar_access usuarios token = elim (verificar_access token) [
  | none ↦ err unauthorized
  | some p ↦
      if not (es_system_role p.role) then err unauthorized else (elim (find_by_id p.sub usuarios) [
        | none ↦ err unauthorized
        | some u ↦ ok (record { usuario = usuario_de u; expira_en = p.exp * 1000 })
      ])
]

-- Whoever is let in is the account that the payload of the token names.
pub autenticar_access_token_sub :
    (verificar_access : ℕ → Option PayloadAccess) (usuarios : List User) (token : ℕ)
    (a : Autenticado)
    → autenticar_access_token verificar_access usuarios token ≡ ok a
    → (p : PayloadAccess) × (u : User) × (verificar_access token ≡ some p)
      × (find_by_id p.sub usuarios ≡ some u)
      × (a.usuario ≡ usuario_de u)
unfolding autenticar_access_token
autenticar_access_token_sub verificar_access usuarios token a h =
    elim (Option-cases (verificar_access token)) [
      | inl bad ↦ absurd (grind (arith, bad))
      | inr (p, good) ↦ elim (Bool-cases (es_system_role p.role)) [
        | inr role ↦ absurd (grind (arith, good, role))
        | inl role ↦ elim (Option-cases (find_by_id p.sub usuarios)) [
          | inl gone ↦ absurd (grind (arith, good, role, gone))
          | inr (u, found) ↦
              let same : usuario_de u ≡ a.usuario = grind (arith, good, role, found) in
              (p, u, good, found, sym same)
        ]
      ]
    ]

-- Whoever is let in is an account that exists now, with the role of its row, whatever role the token
-- has.
pub autenticar_access_token_sound :
    (verificar_access : ℕ → Option PayloadAccess) (usuarios : List User) (token : ℕ)
    (a : Autenticado)
    → autenticar_access_token verificar_access usuarios token ≡ ok a
    → (u : User) × (find_by_id a.usuario.id usuarios ≡ some u) × (a.usuario ≡ usuario_de u)
unfolding autenticar_access_token find_by_id
autenticar_access_token_sound verificar_access usuarios token a h =
    elim (Option-cases (verificar_access token)) [
      | inl bad ↦ absurd (grind (arith, bad))
      | inr (p, good) ↦ elim (Bool-cases (es_system_role p.role)) [
        | inr role ↦ absurd (grind (arith, good, role))
        | inl role ↦ elim (Option-cases (find? (λ (x : User). x.id == p.sub) usuarios)) [
          | inl gone ↦ absurd (grind (arith, good, role, gone))
          | inr (u, found) ↦
              let same : usuario_de u ≡ a.usuario = grind (arith, good, role, found) in
              let same_id : a.usuario.id ≡ p.sub = ground (
                arith,
                ap (λ (x : UsuarioAutenticado). x.id) same,
                find?-sound (λ (x : User). x.id == p.sub) usuarios u found,
              ) in
              (u, rw same_id found, sym same)
        ]
      ]
    ]
