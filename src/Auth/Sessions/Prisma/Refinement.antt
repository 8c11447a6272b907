-- ===== src/Auth/Sessions/Prisma/Refinement.antt =====
-- The Prisma repository of sessions refines the in-memory one.
use mathlib.Core.Option.{some-injective}
use mathlib.Core.Path.{subst}
use wedding_planner_backend.Auth.Sessions.OneAlive.{UnaViva}
use wedding_planner_backend.Auth.Sessions.{
  fila_nueva, insertar, buscar_por_hash, revocada, buscar_sesion_viva_de_familia,
  revocar_todas_de_usuario, SesionInterna, viva_de_usuario, DatosNuevaSesion, esta_viva,
  revocar_familia, revocar_si_viva, viva_en_familia, rotar,
}
use wedding_planner_backend.Auth.Sessions.Prisma.{
  IdsUnicos, Documentada, prisma_rotar, prisma_crear, prisma_buscar_por_hash, es_sesion_viva,
  prisma_buscar_sesion_viva, prisma_revocar_todas, prisma_revocar_familia, TablaSession, SinPareja,
}
use wedding_planner_backend.Prelude.{
  ℕ, Option-cases, sym, true, none, some, arith, ◌++◌, false, ◌==◌, count, ◌≡◌, count-append, List,
  Bool-cases, Bool, ◌&&◌, modify_all, inr, any, find?, modify_first, ◌≤◌, [], refl, if◌then◌else◌,
  ◌∷◌, inl,
}

pub count-gone :
    (id : ℕ) (xs : List SesionInterna)
    → any (λ s. s.id == id) xs ≡ false
    → count (λ s. s.id == id && esta_viva s) xs ≡ 0
count-gone id [] h = refl
count-gone id (x ∷ xs) h = ground (arith, count-gone id xs)

pub modify_all-gone :
    (id ahora : ℕ) (xs : List SesionInterna)
    → any (λ s. s.id == id) xs ≡ false
    → modify_all (λ s. s.id == id && esta_viva s) (revocada ahora) xs ≡ xs
modify_all-gone id ahora [] h = refl
modify_all-gone id ahora (x ∷ xs) h = ground (arith, modify_all-gone id ahora xs)

pub any_same_id :
    (x : SesionInterna) (id : ℕ) (xs : List SesionInterna)
    → x.id ≡ id
    → any (λ s. x.id == s.id) xs ≡ false
    → any (λ s. s.id == id) xs ≡ false
any_same_id x id [] e h = refl
any_same_id x id (y ∷ xs) e h = ground (arith, any_same_id x id xs e)

-- The conditional update of one id is the compare-and-swap.
pub update-one :
    (id ahora : ℕ) (xs : List SesionInterna) (s : SesionInterna)
    → IdsUnicos xs
    → find? (λ r. r.id == id) xs ≡ some s
    → (count (λ r. r.id == id && esta_viva r) xs ≡ (if esta_viva s then 1 else 0))
      × (modify_all (λ r. r.id == id && esta_viva r) (revocada ahora) xs
          ≡ (if esta_viva s then modify_first (λ r. r.id == id) (revocada ahora) xs else xs))
update-one id ahora [] s d e = absurd cc
update-one id ahora (x ∷ xs) s d e = elim (Bool-cases (x.id == id)) [
  | inl here ↦
      let same : x ≡ s = some-injective x s (ground (arith, e, here)) in
      let gone : any (λ r. r.id == id) xs ≡ false =
        any_same_id x id xs (ground (arith, here)) d.0 in
      rw (sym same) (
        grind (arith, here, count-gone id xs gone),
        grind (arith, here, modify_all-gone id ahora xs gone),
      )
  | inr later ↦
      let rest = update-one id ahora xs s d.1 (ground (arith, e, later)) in
      (grind (arith, later, rest.0), grind (arith, later, rest.1))
]

pub find?-only :
    (p : SesionInterna → Bool) (xs : List SesionInterna) (s : SesionInterna)
    (ys : List SesionInterna)
    → p s ≡ true
    → count p (xs ++ s ∷ ys) ≤ 1
    → find? p (xs ++ s ∷ ys) ≡ some s
find?-only p [] s ys h c = ground (arith, h)
find?-only p (x ∷ xs) s ys h c = elim (Bool-cases (p x)) [
  | inr out ↦ ground (arith, out, find?-only p xs s ys h)
  | inl first ↦ absurd (ground (arith, first, h, c, count-append p xs (s ∷ ys)))
]

pub find?-none :
    (p : SesionInterna → Bool) (xs : List SesionInterna) → any p xs ≡ false → find? p xs ≡ none
find?-none p [] h = refl
find?-none p (x ∷ xs) h = ground (arith, find?-none p xs)

-- Where the abstract repository stands at the rows of the table, each operation answers the same and
-- leaves the table at the rows that the abstract one leaves; `uuid` and `nueva` are what is written.
pub record Refina {T : Type 0} (tabla : TablaSession T) (filas : T → List SesionInterna) (t : T)
    (uuid : ℕ) (nueva : DatosNuevaSesion) : Type 0 where
  pub crear : filas (prisma_crear tabla uuid nueva t) ≡ insertar uuid nueva (filas t)
  pub busca : (h : ℕ) → prisma_buscar_por_hash tabla h t ≡ buscar_por_hash h (filas t)
  pub rota :
      (id ahora : ℕ)
      → ((prisma_rotar tabla id ahora uuid nueva t).0 ≡ (rotar id ahora uuid nueva (filas t)).0)
        × (filas (prisma_rotar tabla id ahora uuid nueva t).1
            ≡ (rotar id ahora uuid nueva (filas t)).1)
  pub revoca_familia :
      (family ahora : ℕ)
      → filas (prisma_revocar_familia tabla family ahora t) ≡ revocar_familia family ahora (filas t)
  pub viva :
      (family : ℕ)
      → prisma_buscar_sesion_viva tabla family t ≡ buscar_sesion_viva_de_familia family (filas t)
  pub revoca_todas :
      (user ahora : ℕ)
      → filas (prisma_revocar_todas tabla user ahora t)
        ≡ revocar_todas_de_usuario user ahora (filas t)

pub SinPareja-modify_all :
    (s : SesionInterna) (p : SesionInterna → Bool) (ahora : ℕ) (xs : List SesionInterna)
    → SinPareja s xs
    → SinPareja s (modify_all p (revocada ahora) xs)
SinPareja-modify_all s p ahora [] h = refl
SinPareja-modify_all s p ahora (x ∷ xs) h = ground (arith, SinPareja-modify_all s p ahora xs)

module _ {T : Type 0} (tabla : TablaSession T) (filas : T → List SesionInterna)
    (d : Documentada tabla filas) (t : T) where
  pub busca-same : (h : ℕ) → prisma_buscar_por_hash tabla h t ≡ buscar_por_hash h (filas t)
  unfolding prisma_buscar_por_hash wedding_planner_backend.Auth.Sessions.buscar_por_hash
  busca-same h = elim (Option-cases (find? (λ s. s.token_hash == h) (filas t))) [
    | inl missing ↦ grind (arith, d.por_hash h t, missing)
    | inr (s, found) ↦ grind (arith, d.por_hash h t, found)
  ]

  pub rota-same :
      (id ahora uuid : ℕ) (nueva : DatosNuevaSesion)
      → IdsUnicos (filas t)
      → SinPareja (fila_nueva uuid nueva) (filas t)
      → ((prisma_rotar tabla id ahora uuid nueva t).0 ≡ (rotar id ahora uuid nueva (filas t)).0)
        × (filas (prisma_rotar tabla id ahora uuid nueva t).1
            ≡ (rotar id ahora uuid nueva (filas t)).1)
  unfolding prisma_rotar rotar revocar_si_viva wedding_planner_backend.Auth.Sessions.insertar
  rota-same id ahora uuid nueva u fresh =
      let p : SesionInterna → Bool = es_sesion_viva tabla id in
      let w = tabla.update_many p (revocada ahora) t in
      let cuenta = d.cuenta p (revocada ahora) t in
      let cambia = d.cambia p (revocada ahora) t in
      let alone : SinPareja (fila_nueva uuid nueva) (filas w.1) =
        rw cambia (SinPareja-modify_all (fila_nueva uuid nueva) p ahora (filas t) fresh) in
      elim (Option-cases (find? (λ s. s.id == id) (filas t))) [
        | inl missing ↦
            (grind (arith, d.por_id id t, missing), grind (arith, d.por_id id t, missing))
        | inr (s, found) ↦
            let one = update-one id ahora (filas t) s u found in
            elim (Option-cases s.revoked_at) [
              | inl alive ↦ (
                grind (arith, d.por_id id t, found, alive, cuenta, one.0),
                grind (
                  arith,
                  d.por_id id t,
                  found,
                  alive,
                  cuenta,
                  one.0,
                  cambia,
                  one.1,
                  d.anade (fila_nueva uuid nueva) w.1 alone,
                ),
              )
              | inr (cuando, dead) ↦ (
                grind (arith, d.por_id id t, found, dead, cuenta, one.0),
                grind (arith, d.por_id id t, found, dead, cuenta, one.0, cambia, one.1),
              )
            ]
      ]

  pub viva-same :
      (family : ℕ)
      → UnaViva (filas t)
      → prisma_buscar_sesion_viva tabla family t ≡ buscar_sesion_viva_de_familia family (filas t)
  unfolding prisma_buscar_sesion_viva buscar_sesion_viva_de_familia
  viva-same family u = elim (Option-cases (tabla.find_first (viva_en_familia family) t)) [
    | inl missing ↦ grind (
      arith,
      missing,
      find?-none (viva_en_familia family) (filas t) (d.ninguna (viva_en_familia family) t missing),
    )
    | inr (s, found) ↦
        let (xs, ys, split, alive) = d.alguna (viva_en_familia family) t s found in
        let few : count (viva_en_familia family) (xs ++ s ∷ ys) ≤ 1 =
          subst (λ zs. count (viva_en_familia family) zs ≤ 1) split (u.at_most family) in
        let same : find? (viva_en_familia family) (filas t) ≡ some s =
          subst (λ zs. find? (viva_en_familia family) zs ≡ some s) (sym split)
            (find?-only (viva_en_familia family) xs s ys alive few) in
        grind (arith, found, same)
  ]

  -- Over a table that does what the client documents, with unique ids and one living session in a
  -- family at most, and where no row has the id or the hash of the session to be written, every operation of the Prisma repository of sessions refines the one of the
  -- in-memory repository.
  pub prisma-Refina :
      (uuid : ℕ) (nueva : DatosNuevaSesion)
      → IdsUnicos (filas t)
      → UnaViva (filas t)
      → SinPareja (fila_nueva uuid nueva) (filas t)
      → Refina tabla filas t uuid nueva
  unfolding prisma_crear prisma_revocar_familia prisma_revocar_todas revocar_familia
      revocar_todas_de_usuario wedding_planner_backend.Auth.Sessions.insertar
  prisma-Refina uuid nueva ids una fresh = record {
    crear = d.anade (fila_nueva uuid nueva) t fresh;
    busca = busca-same;
    rota = λ id ahora. rota-same id ahora uuid nueva ids fresh;
    revoca_familia = λ family ahora. d.cambia (viva_en_familia family) (revocada ahora) t;
    viva = λ family. viva-same family una;
    revoca_todas = λ user ahora. d.cambia (viva_de_usuario user) (revocada ahora) t;
  }
