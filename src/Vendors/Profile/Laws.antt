-- ===== src/Vendors/Profile/Laws.antt =====
-- What holds of the profiles, and how a write to one row keeps it.
pub mod Permutation
pub mod Portfolio
pub mod Requests
pub mod Photos
pub mod Whole
pub mod Order
pub mod Reorder
pub mod Price
pub mod Public
use mathlib.Core.Option.{some-injective}
use wedding_planner_backend.Prelude.{
  ℕ, Bool, All-find?, ◌≤◌, true, ap, List, any, find?, false, Bool-cases, inr, ◌∷◌, [], arith, ◌==◌,
  ◌≡◌, some, inl, All, length,
}
use wedding_planner_backend.Prelude.Rows.{All-modify_any}
use wedding_planner_backend.Prelude.Pairs.{All-modify_first, Dispares, Dispares-modify_first}
use wedding_planner_backend.Storage.{con_barra}
use wedding_planner_backend.Vendors.Profile.{
  prefijo_de_portfolio, en_ficha, Fila, es_ficha, Fichas, max_fotos_portfolio, FotoDePortfolio,
  es_de,
}
use wedding_planner_backend.Shared.Text.{starts_with, Text}

abbrev pub es_propia : Text → FotoDePortfolio → Bool
es_propia user_id p = starts_with p.storage_key (con_barra (prefijo_de_portfolio user_id) [])

-- At most 20 photos, each with a key in the folder of the profile's owner.
pub record FilaSana (f : Fila) : Type 0 where
  pub limite : length f.portfolio ≤ max_fotos_portfolio
  pub propias : All (λ p. es_propia f.user_id p ≡ true) f.portfolio

abbrev pub mismo_id : Fila → Fila → Bool
mismo_id f g = f.id == g.id

pub record Sanas (s : Fichas) : Type 0 where
  pub filas : All FilaSana s.fichas
  pub ids : Dispares mismo_id s.fichas

any-found :
    {A : Type 0} (q p : A → Bool) (xs : List A) (x : A)
    → any q xs ≡ false
    → find? p xs ≡ some x
    → q x ≡ false
any-found q p [] x h e = cc
any-found q p (y ∷ ys) x h e = ground (arith, any-found q p ys x)

-- The row of a user is the row of its id.
pub same_row :
    (user_id : Text) (fs : List Fila) (f : Fila)
    → Dispares mismo_id fs
    → find? (es_de user_id) fs ≡ some f
    → find? (es_ficha f.id) fs ≡ some f
same_row user_id [] f d e = cc
same_row user_id (g ∷ fs) f d e = elim (Bool-cases (es_de user_id g)) [
  | inl here ↦
      let same : g ≡ f = some-injective g f (ground (arith, e)) in
      ground (arith, ap (λ x. x.id) same, same)
  | inr later ↦
      let rest : find? (es_de user_id) fs ≡ some f = ground (arith, e) in
      ground (
        arith,
        any-found (mismo_id g) (es_de user_id) fs f d.0 rest,
        same_row user_id fs f d.1 rest,
      )
]

-- A write that touches neither id, owner nor portfolio.
pub en_ficha-Sanas :
    (ficha_id : ℕ) (cambio : Fila → Fila) (s : Fichas)
    → ((f : Fila) → FilaSana f → FilaSana (cambio f))
    → ((f : Fila) → (cambio f).id ≡ f.id)
    → Sanas s
    → Sanas (en_ficha ficha_id cambio s)
en_ficha-Sanas ficha_id cambio s k i h = record {
  filas = All-modify_any FilaSana (es_ficha ficha_id) cambio s.fichas k h.filas;
  ids =
      Dispares-modify_first mismo_id (es_ficha ficha_id) cambio s.fichas
        (λ a b. ap (λ n. n == b.id) (i a)) (λ a b. ap (λ n. a.id == n) (i b)) h.ids;
}

-- A write to the row of a user.
pub en_ficha_de-Sanas :
    (user_id : Text) (f : Fila) (cambio : Fila → Fila) (s : Fichas)
    → find? (es_de user_id) s.fichas ≡ some f
    → FilaSana (cambio f)
    → ((g : Fila) → (cambio g).id ≡ g.id)
    → Sanas s
    → Sanas (en_ficha f.id cambio s)
en_ficha_de-Sanas user_id f cambio s e k i h = record {
  filas =
      All-modify_first FilaSana (es_ficha f.id) cambio s.fichas f h.filas
        (same_row user_id s.fichas f h.ids e) k;
  ids =
      Dispares-modify_first mismo_id (es_ficha f.id) cambio s.fichas
        (λ a b. ap (λ n. n == b.id) (i a)) (λ a b. ap (λ n. a.id == n) (i b)) h.ids;
}

-- Of the user's row.
pub found-FilaSana :
    (user_id : Text) (s : Fichas) (f : Fila)
    → Sanas s
    → find? (es_de user_id) s.fichas ≡ some f
    → FilaSana f
found-FilaSana user_id s f h e = All-find? FilaSana (es_de user_id) s.fichas f h.filas e
