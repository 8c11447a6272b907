-- ===== src/Auth/Sessions/Prisma.antt =====
-- src/modules/auth/infrastructure/prisma-session.repository.ts over the operations of the table of
-- sessions, which are a parameter, and the refinement: it answers and writes what the in-memory
-- repository does. A transaction is atomic, and the advisory lock of a family orders the transactions
-- that touch it, so that each operation is one step here.
pub mod Refinement
mod Tests
use wedding_planner_backend.Prelude.Pairs.{Dispares}
use wedding_planner_backend.Prelude.{
  ℕ, Bool, true, ◌∷◌, find?, ◌&&◌, ◌≡◌, [], any, modify_all, none, false, ◌==◌, ◌++◌, List, count,
  if◌then◌else◌, some, Option, ◌||◌,
}
use wedding_planner_backend.Auth.Sessions.{
  fila_nueva, esta_viva, viva_de_usuario, DatosNuevaSesion, SesionPersistida, revocada,
  viva_en_familia, SesionInterna,
}
use wedding_planner_backend.Seating.Domain.{por_id}

-- The operations of the client on the model `session`: a condition is a test of a row, and the data
-- of an update a change of it. `T` is the state of the table.
pub record TablaSession (T : Type 0) : Type 0 where
  pub find_by_token_hash : ℕ → T → Option SesionInterna
  pub find_by_id_session : ℕ → T → Option SesionInterna
  pub find_first : (SesionInterna → Bool) → T → Option SesionInterna
  pub update_many : (SesionInterna → Bool) → (SesionInterna → SesionInterna) → T → ℕ × T
  pub create_session : SesionInterna → T → T

module _ {T : Type 0} (tabla : TablaSession T) where
  -- `buscarPorHash`; the row's other columns stay behind.
  unfoldable pub prisma_buscar_por_hash : ℕ → T → Option SesionPersistida
  prisma_buscar_por_hash hash t = elim (tabla.find_by_token_hash hash t) [
    | none ↦ none
    | some s ↦ some s.persistida
  ]

  -- `crear`, with the id that the database draws.
  unfoldable pub prisma_crear : ℕ → DatosNuevaSesion → T → T
  prisma_crear uuid datos = tabla.create_session (fila_nueva uuid datos)

  abbrev pub es_sesion_viva : ℕ → SesionInterna → Bool
  es_sesion_viva id s = s.id == id && esta_viva s

  -- `rotar`
  unfoldable pub prisma_rotar : ℕ → ℕ → ℕ → DatosNuevaSesion → T → Bool × T
  prisma_rotar sesion_a_revocar ahora uuid nueva t =
      elim (tabla.find_by_id_session sesion_a_revocar t) [
        | none ↦ (false, t)
        | some sesion ↦
            let (cuenta, t') =
              tabla.update_many (es_sesion_viva sesion_a_revocar) (revocada ahora) t in
            if cuenta == 1
            then (true, tabla.create_session (fila_nueva uuid nueva) t')
            else (false, t')
      ]

  -- `revocarFamilia`
  unfoldable pub prisma_revocar_familia : ℕ → ℕ → T → T
  prisma_revocar_familia family ahora t =
      (tabla.update_many (viva_en_familia family) (revocada ahora) t).1

  -- `buscarSesionVivaDeFamilia`
  unfoldable pub prisma_buscar_sesion_viva : ℕ → T → Option SesionPersistida
  prisma_buscar_sesion_viva family t = elim (tabla.find_first (viva_en_familia family) t) [
    | none ↦ none
    | some s ↦ some s.persistida
  ]

  -- `revocarTodasDeUsuario`, whose locks of the families only order.
  unfoldable pub prisma_revocar_todas : ℕ → ℕ → T → T
  prisma_revocar_todas user ahora t =
      (tabla.update_many (viva_de_usuario user) (revocada ahora) t).1

-- No row has the id or the hash of this one, which the schema makes unique.
abbrev pub SinPareja : SesionInterna → List SesionInterna → Type 0
SinPareja s filas = any (λ r. r.id == s.id || r.token_hash == s.token_hash) filas ≡ false

-- What the client documents, on the rows of the table in the order of their creation. `findFirst`
-- without an order may give any row that passes.
pub record Documentada {T : Type 0} (tabla : TablaSession T) (filas : T → List SesionInterna)
    : Type 0 where
  pub por_hash :
      (h : ℕ) (t : T) → tabla.find_by_token_hash h t ≡ find? (λ s. s.token_hash == h) (filas t)
  pub por_id : (i : ℕ) (t : T) → tabla.find_by_id_session i t ≡ find? (λ s. s.id == i) (filas t)
  pub alguna :
      (p : SesionInterna → Bool) (t : T) (s : SesionInterna)
      → tabla.find_first p t ≡ some s
      → (xs : List SesionInterna) × (ys : List SesionInterna) × (filas t ≡ xs ++ s ∷ ys)
        × (p s ≡ true)
  pub ninguna :
      (p : SesionInterna → Bool) (t : T) → tabla.find_first p t ≡ none → any p (filas t) ≡ false
  pub cuenta :
      (p : SesionInterna → Bool) (f : SesionInterna → SesionInterna) (t : T)
      → (tabla.update_many p f t).0 ≡ count p (filas t)
  pub cambia :
      (p : SesionInterna → Bool) (f : SesionInterna → SesionInterna) (t : T)
      → filas (tabla.update_many p f t).1 ≡ modify_all p f (filas t)
  pub anade :
      (s : SesionInterna) (t : T)
      → SinPareja s (filas t)
      → filas (tabla.create_session s t) ≡ filas t ++ s ∷ []

-- The ids are a primary key.
abbrev pub IdsUnicos : List SesionInterna → Type 0
IdsUnicos = Dispares (λ a b. a.id == b.id)
