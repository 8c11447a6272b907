-- ===== src/Auth/Sessions/OneAlive.antt =====
-- A family of refresh sessions has one live member at most, whatever operations run.
use wedding_planner_backend.Prelude.{
  ℕ, List, ◌∷◌, count-append, [], count, ◌≤◌, if◌then◌else◌, ◌==◌, ◌≡◌, arith, true, ◌+◌, All,
  Option-cases, some, inr, modify_first, inl, find?, Bool-cases, none, refl, Bool, ==_refl, any,
  Option, All-find?, false,
}
use wedding_planner_backend.Auth.Sessions.{
  SesionInterna, insertar, DatosNuevaSesion, revocar_si_viva, viva_en_familia, revocar_familia,
  revocar_todas_de_usuario, fila_nueva, rotar, revocada, SesionPersistida, publica, buscar_por_hash,
  buscar_sesion_viva_de_familia,
}

-- How many live sessions a family has.
abbrev pub vivas : ℕ → List SesionInterna → ℕ
vivas family sesiones = count (viva_en_familia family) sesiones

pub record UnaViva (sesiones : List SesionInterna) : Type 0 where
  pub at_most : (family : ℕ) → vivas family sesiones ≤ 1

-- Every row with this id is of this family.
abbrev pub FamiliaDe : ℕ → ℕ → List SesionInterna → Type 0
FamiliaDe id family = All (λ s. s.id ≡ id → s.family_id ≡ family)

pub vivas-revocar_familia :
    (f g ahora : ℕ) (sesiones : List SesionInterna)
    → vivas g (revocar_familia f ahora sesiones) ≡ (if f == g then 0 else vivas g sesiones)
unfolding revocar_familia
vivas-revocar_familia f g ahora [] = ground arith
vivas-revocar_familia f g ahora (s ∷ ss) = ground (arith, vivas-revocar_familia f g ahora ss)

pub vivas-revocar_todas_le :
    (u g ahora : ℕ) (sesiones : List SesionInterna)
    → vivas g (revocar_todas_de_usuario u ahora sesiones) ≤ vivas g sesiones
unfolding revocar_todas_de_usuario
vivas-revocar_todas_le u g ahora [] = omega arith
vivas-revocar_todas_le u g ahora (s ∷ ss) = ground (arith, vivas-revocar_todas_le u g ahora ss)

pub vivas-insertar :
    (g uuid : ℕ) (datos : DatosNuevaSesion) (sesiones : List SesionInterna)
    → vivas g (insertar uuid datos sesiones)
      ≡ (if datos.family_id == g then vivas g sesiones + 1 else vivas g sesiones)
unfolding insertar
vivas-insertar g uuid datos sesiones =
    ground (arith, count-append (viva_en_familia g) sesiones (fila_nueva uuid datos ∷ []))

-- Revoking a live session of family `f` takes one live session from it.
vivas-modify_first :
    (id f g ahora : ℕ) (sesiones : List SesionInterna) (s : SesionInterna)
    → FamiliaDe id f sesiones
    → find? (λ r. r.id == id) sesiones ≡ some s
    → s.revoked_at ≡ none
    → vivas g (modify_first (λ r. r.id == id) (revocada ahora) sesiones) + (if f == g then 1 else 0)
      ≡ vivas g sesiones
vivas-modify_first id f g ahora [] s h e alive = cc
vivas-modify_first id f g ahora (r ∷ rs) s h e alive = elim (Bool-cases (r.id == id)) [
  | inl here ↦ ground (arith, h.0)
  | inr later ↦ ground (arith, vivas-modify_first id f g ahora rs s h.1)
]

-- The compare-and-swap wins exactly on a session that is there and alive.
pub vivas-revocar_si_viva :
    (id f g ahora : ℕ) (sesiones : List SesionInterna)
    → FamiliaDe id f sesiones
    → (revocar_si_viva id ahora sesiones).0 ≡ true
    → vivas g (revocar_si_viva id ahora sesiones).1 + (if f == g then 1 else 0) ≡ vivas g sesiones
unfolding revocar_si_viva
vivas-revocar_si_viva id f g ahora ss h won = elim (Option-cases (find? (λ r. r.id == id) ss)) [
  | inl missing ↦ absurd (ground arith)
  | inr (s, found) ↦ ground (arith, vivas-modify_first id f g ahora ss s h found)
]

-- A rotation that wins leaves every family with as many live sessions as it had, and one that
-- loses leaves the table as it was.
pub vivas-rotar :
    (id ahora uuid g : ℕ) (nueva : DatosNuevaSesion) (sesiones : List SesionInterna)
    → FamiliaDe id nueva.family_id sesiones
    → vivas g (rotar id ahora uuid nueva sesiones).1 ≡ vivas g sesiones
unfolding rotar
vivas-rotar id ahora uuid g nueva ss h = elim (Bool-cases (revocar_si_viva id ahora ss).0) [
  | inl won ↦ ground (
    arith,
    vivas-revocar_si_viva id nueva.family_id g ahora ss h won,
    vivas-insertar g uuid nueva (revocar_si_viva id ahora ss).1,
  )
  | inr lost ↦ ground arith
]

-- The id is in the table, and names rows of this family alone.
pub record Pertenece (id family : ℕ) (sesiones : List SesionInterna) : Type 0 where
  pub hay : any (λ s. s.id == id) sesiones ≡ true
  pub solo : FamiliaDe id family sesiones

-- Rows that share an id share the family.
pub record Coherente (sesiones : List SesionInterna) : Type 0 where
  pub ids : All (λ s. FamiliaDe s.id s.family_id sesiones) sesiones

any_of_find? :
    {A : Type 0} (p q : A → Bool) (xs : List A) (a : A)
    → find? p xs ≡ some a
    → q a ≡ true
    → any q xs ≡ true
any_of_find? p q [] a e h = cc
any_of_find? p q (x ∷ xs) a e h = ground (arith, any_of_find? p q xs a)

find?-Pertenece :
    (p : SesionInterna → Bool) (sesiones : List SesionInterna) (s : SesionInterna)
    → Coherente sesiones
    → find? p sesiones ≡ some s
    → Pertenece s.id s.family_id sesiones
find?-Pertenece p sesiones s h e = record {
  hay = any_of_find? p (λ r. r.id == s.id) sesiones s e (==_refl s.id);
  solo = All-find? (λ r. FamiliaDe r.id r.family_id sesiones) p sesiones s h.ids e;
}

publica-eq-some :
    (o : Option SesionInterna) (s : SesionPersistida)
    → publica o ≡ some s
    → (r : SesionInterna) × (o ≡ some r) × (r.persistida ≡ s)
publica-eq-some none s e = cc
publica-eq-some (some r) s e = (r, refl, cc)

pub buscar_por_hash-Pertenece :
    (hash : ℕ) (sesiones : List SesionInterna) (s : SesionPersistida)
    → Coherente sesiones
    → buscar_por_hash hash sesiones ≡ some s
    → Pertenece s.id s.family_id sesiones
unfolding buscar_por_hash
buscar_por_hash-Pertenece hash ss s h e =
    let (r, found, same) = publica-eq-some _ s e in rw (← same) (find?-Pertenece _ ss r h found)

pub buscar_sesion_viva-Pertenece :
    (family : ℕ) (sesiones : List SesionInterna) (s : SesionPersistida)
    → Coherente sesiones
    → buscar_sesion_viva_de_familia family sesiones ≡ some s
    → Pertenece s.id s.family_id sesiones
unfolding buscar_sesion_viva_de_familia
buscar_sesion_viva-Pertenece family ss s h e =
    let (r, found, same) = publica-eq-some _ s e in rw (← same) (find?-Pertenece _ ss r h found)

pub rotar-UnaViva :
    (id ahora uuid : ℕ) (nueva : DatosNuevaSesion) (sesiones : List SesionInterna)
    → Pertenece id nueva.family_id sesiones
    → UnaViva sesiones
    → UnaViva (rotar id ahora uuid nueva sesiones).1
rotar-UnaViva id ahora uuid nueva ss h u = record {
  at_most = λ g. omega (arith, vivas-rotar id ahora uuid g nueva ss h.solo, u.at_most g);
}

pub revocar_familia-UnaViva :
    (f ahora : ℕ) (sesiones : List SesionInterna)
    → UnaViva sesiones
    → UnaViva (revocar_familia f ahora sesiones)
revocar_familia-UnaViva f ahora ss u = record {
  at_most = λ g. ground (arith, vivas-revocar_familia f g ahora ss, u.at_most g);
}

pub revocar_todas-UnaViva :
    (id ahora : ℕ) (sesiones : List SesionInterna)
    → UnaViva sesiones
    → UnaViva (revocar_todas_de_usuario id ahora sesiones)
revocar_todas-UnaViva id ahora ss u = record {
  at_most = λ g. omega (arith, vivas-revocar_todas_le id g ahora ss, u.at_most g);
}

pub rotar_lost :
    (id ahora uuid : ℕ) (nueva : DatosNuevaSesion) (sesiones : List SesionInterna)
    → (rotar id ahora uuid nueva sesiones).0 ≡ false
    → (rotar id ahora uuid nueva sesiones).1 ≡ sesiones
unfolding rotar
rotar_lost id ahora uuid nueva ss h = ground arith
