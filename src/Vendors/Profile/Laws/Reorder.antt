-- ===== src/Vendors/Profile/Laws/Reorder.antt =====
-- An order that is accepted is an order of the same photos.
use wedding_planner_backend.Prelude.Pairs.{Dispares}
use wedding_planner_backend.Vendors.Profile.Laws.Order.{figura, todas-actuales, todas_self}
use wedding_planner_backend.Vendors.Profile.UseCases.{
  MundoDeFichas, orden_valido, sin_repetir, todas_pedidas, ordenar_si_vale, orden_de_fotos_invalido,
}
use wedding_planner_backend.Prelude.{
  ◌≡◌, Bool, some, inr, length, ◌==◌, [], Bool-cases, arith, true, inl, false, find?, none, ℕ, suc,
  ◌∷◌, ◌⊎◌, find?-modify_first, Option-cases, refl, List, ◌∙◌, sym, remove_first, ◌+◌, map, count,
  if◌then◌else◌, ap,
}
use wedding_planner_backend.Database.{en_transaccion}
use wedding_planner_backend.Storage.{ObjectStorage}
use wedding_planner_backend.Vendors.Profile.{
  Fichas, Fila, es_ficha, es_foto, reordenar_fotos, en_ese_orden, FotoDePortfolio, es_de,
  foto_con_id,
}
use wedding_planner_backend.Vendors.Profile.Laws.{same_row, mismo_id}
use wedding_planner_backend.Vendors.Profile.Laws.Photos.{fotos_de-found}
use wedding_planner_backend.Shared.Text.{Text}
use wedding_planner_backend.Prelude.Monad.{ok, err}
use wedding_planner_backend.Guests.Invitation.{orden}
use wedding_planner_backend.Vendors.Profile.Laws.Permutation.{Permuta, Permuta-orden_valido}

abbrev pub los_ids : List FotoDePortfolio → List ℕ
los_ids fotos = map (λ p. p.id) fotos

abbrev menos : ℕ → List FotoDePortfolio → List FotoDePortfolio
menos id = remove_first (es_foto id)

pub foto_con_id-gone :
    (id : ℕ) (fotos : List FotoDePortfolio)
    → figura id (los_ids fotos) ≡ false
    → foto_con_id id fotos ≡ none
foto_con_id-gone id [] h = refl
foto_con_id-gone id (p ∷ fotos) h = ground (arith, foto_con_id-gone id fotos)

-- The photo of an id, and the rest.
pub foto_con_id-there :
    (id : ℕ) (fotos : List FotoDePortfolio)
    → sin_repetir (los_ids fotos) ≡ true
    → figura id (los_ids fotos) ≡ true
    → (p : FotoDePortfolio) × (foto_con_id id fotos ≡ some p)
      × (p.id ≡ id)
      × ((q : FotoDePortfolio → Bool)
          → count q fotos ≡ (if q p then 1 else 0) + count q (menos id fotos))
foto_con_id-there id [] d h = absurd cc
foto_con_id-there id (p ∷ fotos) d h = elim (Bool-cases (p.id == id)) [
  | inl here ↦
      let gone : foto_con_id id fotos ≡ none =
        foto_con_id-gone id fotos (ground (arith, d, here)) in
      (p, grind (arith, gone, here), ground (arith, here), λ q. ground (arith, here))
  | inr later ↦
      let (r, found, same, counts) =
        foto_con_id-there id fotos (ground (arith, d)) (ground (arith, h, later)) in
      (r, grind (arith, found), same, λ q. ground (arith, later, counts q))
]

pub figura-menos-false :
    (x id : ℕ) (fotos : List FotoDePortfolio)
    → figura x (los_ids fotos) ≡ false
    → figura x (los_ids (menos id fotos)) ≡ false
figura-menos-false x id [] h = h
figura-menos-false x id (p ∷ fotos) h = ground (arith, figura-menos-false x id fotos)

pub sin_repetir-menos :
    (id : ℕ) (fotos : List FotoDePortfolio)
    → sin_repetir (los_ids fotos) ≡ true
    → sin_repetir (los_ids (menos id fotos)) ≡ true
sin_repetir-menos id [] d = refl
sin_repetir-menos id (p ∷ fotos) d =
    ground (arith, d, figura-menos-false p.id id fotos, sin_repetir-menos id fotos)

pub foto_con_id-menos :
    (id j : ℕ) (fotos : List FotoDePortfolio)
    → (j == id) ≡ false
    → foto_con_id j (menos id fotos) ≡ foto_con_id j fotos
foto_con_id-menos id j [] n = refl
foto_con_id-menos id j (p ∷ fotos) n = elim (Bool-cases (p.id == id)) [
  | inl here ↦ elim (Option-cases (foto_con_id j fotos)) [
    | inl none_left ↦ grind (arith, here, none_left, n)
    | inr (q, found) ↦ grind (arith, here, found, n)
  ]
  | inr later ↦ grind (arith, later, foto_con_id-menos id j fotos n)
]

pub en_ese_orden-menos :
    (id : ℕ) (fotos : List FotoDePortfolio) (ids : List ℕ)
    → figura id ids ≡ false
    → en_ese_orden (menos id fotos) ids ≡ en_ese_orden fotos ids
en_ese_orden-menos id fotos [] h = refl
en_ese_orden-menos id fotos (j ∷ ids) h = grind (
  arith,
  foto_con_id-menos id j fotos (ground (arith, h)),
  en_ese_orden-menos id fotos ids (ground (arith, h)),
)

pub figura-menos :
    (x id : ℕ) (fotos : List FotoDePortfolio)
    → (x == id) ≡ false
    → figura x (los_ids fotos) ≡ true
    → figura x (los_ids (menos id fotos)) ≡ true
figura-menos x id [] n h = h
figura-menos x id (p ∷ fotos) n h = ground (arith, figura-menos x id fotos n)

pub todas-menos :
    (id : ℕ) (fotos : List FotoDePortfolio) (ids : List ℕ)
    → figura id ids ≡ false
    → todas_pedidas (los_ids fotos) ids ≡ true
    → todas_pedidas (los_ids (menos id fotos)) ids ≡ true
todas-menos id fotos [] n h = refl
todas-menos id fotos (j ∷ ids) n h =
    ground (arith, figura-menos j id fotos, todas-menos id fotos ids)

pub length-menos :
    (id : ℕ) (fotos : List FotoDePortfolio)
    → figura id (los_ids fotos) ≡ true
    → suc (length (menos id fotos)) ≡ length fotos
length-menos id [] h = absurd cc
length-menos id (p ∷ fotos) h = ground (arith, length-menos id fotos)

pub length-los_ids : (fotos : List FotoDePortfolio) → length (los_ids fotos) ≡ length fotos
length-los_ids [] = refl
length-los_ids (p ∷ fotos) = ground (arith, length-los_ids fotos)

en_ese_orden-same :
    (fotos : List FotoDePortfolio) (ids : List ℕ)
    → sin_repetir (los_ids fotos) ≡ true
    → sin_repetir ids ≡ true
    → length ids ≡ length fotos
    → todas_pedidas (los_ids fotos) ids ≡ true
    → (los_ids (en_ese_orden fotos ids) ≡ ids)
      × ((q : FotoDePortfolio → Bool) → count q (en_ese_orden fotos ids) ≡ count q fotos)
en_ese_orden-same [] [] d u n h = (refl, λ q. refl)
en_ese_orden-same (p ∷ fotos) [] d u n h = absurd (omega (arith, n))
en_ese_orden-same fotos (id ∷ ids) d u n h =
    let (p, found, same, counts) = foto_con_id-there id fotos d (ground (arith, h)) in
    let new : figura id ids ≡ false = ground (arith, u) in
    let (orden, cuenta) =
      en_ese_orden-same (menos id fotos) ids (sin_repetir-menos id fotos d) (ground (arith, u))
        (omega (arith, n, length-menos id fotos (ground (arith, h))))
        (todas-menos id fotos ids new (ground (arith, h))) in
    let rest : en_ese_orden fotos ids ≡ en_ese_orden (menos id fotos) ids =
      sym (en_ese_orden-menos id fotos ids new) in
    let whole : en_ese_orden fotos (id ∷ ids) ≡ p ∷ en_ese_orden (menos id fotos) ids =
      grind (arith, found, rest) in
    rw whole (grind (arith, same, orden), λ q. grind (arith, counts q, cuenta q))

-- The row of the profile after the write: its photos are those that it had, each as often, and stand
-- in the order that was asked for.
pub record Ordenada (ficha_id : ℕ) (ids : List ℕ) (antes : List FotoDePortfolio) (s : Fichas)
    : Type 0 where
  pub fila : Fila
  pub esta_en : find? (es_ficha ficha_id) s.fichas ≡ some fila
  pub orden : los_ids fila.portfolio ≡ ids
  pub mismas : (q : FotoDePortfolio → Bool) → count q fila.portfolio ≡ count q antes

orden_valido-same :
    (ids : List ℕ) (fotos : List FotoDePortfolio)
    → sin_repetir (los_ids fotos) ≡ true
    → orden_valido ids (los_ids fotos) ≡ true
    → (los_ids (en_ese_orden fotos ids) ≡ ids)
      × ((q : FotoDePortfolio → Bool) → count q (en_ese_orden fotos ids) ≡ count q fotos)
unfolding orden_valido
orden_valido-same ids fotos d v =
    let n : length ids ≡ length (los_ids fotos) = grind (arith, v) in
    en_ese_orden-same fotos ids d (grind (arith, v)) (n ∙ length-los_ids fotos)
      (todas-actuales ids (los_ids fotos) ids d n (grind (arith, v)) (todas_self ids))

count-los_ids :
    (q : ℕ → Bool) (fotos : List FotoDePortfolio)
    → count q (los_ids fotos) ≡ count (λ (p : FotoDePortfolio). q p.id) fotos
count-los_ids q [] = refl
count-los_ids q (p ∷ fotos) = ground (arith, count-los_ids q fotos)

orden_valido-Permuta :
    (ids : List ℕ) (fotos : List FotoDePortfolio)
    → sin_repetir (los_ids fotos) ≡ true
    → orden_valido ids (los_ids fotos) ≡ true
    → Permuta ids (los_ids fotos)
orden_valido-Permuta ids fotos d v q =
    let (orden_de, mismas) = orden_valido-same ids fotos d v in
    ap (count q) (sym orden_de)
    ∙ count-los_ids q (en_ese_orden fotos ids)
    ∙ mismas (λ p. q p.id)
    ∙ sym (count-los_ids q fotos)

-- Under the lock of a profile whose photos have distinct ids, an order is accepted exactly where it
-- has each photo's id as often as the portfolio, once, and no other: then the profile has the same
-- photos in that order. Otherwise the request is refused and nothing is changed.
pub ordenar_si_vale_cases :
    {A : Type 0} (storage : ObjectStorage A) (entorno : ℕ → MundoDeFichas A → MundoDeFichas A)
    (user_id : Text) (ids : List ℕ) (f : Fila) (m : MundoDeFichas A)
    → Dispares mismo_id m.fichas.fichas
    → find? (es_de user_id) m.fichas.fichas ≡ some f
    → sin_repetir (los_ids f.portfolio) ≡ true
    → (Permuta ids (los_ids f.portfolio)
        × (s : Fichas) × (en_transaccion (ordenar_si_vale storage entorno user_id f.id ids) m
            ≡ (ok tt, record m { fichas = s }))
        × Ordenada f.id ids f.portfolio s)
      ⊎ (¬ (Permuta ids (los_ids f.portfolio))
          × (en_transaccion (ordenar_si_vale storage entorno user_id f.id ids) m
              ≡ (err orden_de_fotos_invalido, m)))
unfolding ordenar_si_vale reordenar_fotos
ordenar_si_vale_cases storage entorno user_id ids f m d e u =
    let q = fotos_de-found storage entorno user_id f m e in
    elim (Bool-cases (orden_valido ids (los_ids f.portfolio))) [
      | inl good ↦
          let new = orden_valido-same ids f.portfolio u good in
          let cambio : Fila → Fila = λ g. record g { portfolio = en_ese_orden g.portfolio ids } in
          inl (
            orden_valido-Permuta ids f.portfolio u good,
            reordenar_fotos f.id ids m.fichas,
            grind (arith, q, good),
            record {
              fila = cambio f;
              esta_en =
                  find?-modify_first (es_ficha f.id) cambio m.fichas.fichas f (λ a. refl)
                    (same_row user_id m.fichas.fichas f d e);
              orden = new.0;
              mismas = new.1;
            },
          )
      | inr bad ↦ inr (
        λ same. absurd (grind (arith, bad, Permuta-orden_valido ids (los_ids f.portfolio) u same)),
        grind (arith, q, bad),
      )
    ]
