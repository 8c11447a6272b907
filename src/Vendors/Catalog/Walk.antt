-- ===== src/Vendors/Catalog/Walk.antt =====
-- A walk through the catalogue finds what it searches for.
use wedding_planner_backend.Prelude.Rows.{length-filter, count_every, All-map}
use wedding_planner_backend.Shared.Cursor.Pages.{posterior_a, pagina, recorrer, recorrer_all}
use wedding_planner_backend.Shared.Cursor.Order.{
  All-ordenar, ordenar_por-Estricto, count-ordenar_por, ascendente-EsOrden, Estricto, EsOrden,
  insertar_en_orden, ordenar_por, Distintos, ascendente,
}
use wedding_planner_backend.Prelude.{
  Bool, ◌==◌, if◌then◌else◌, Bool-cases, ◌∷◌, sym, refl, inr, filter, true, All, false, [], arith,
  inl, List, ◌≡◌, All-filter, ◌<◌, ℕ, count, length, ◌∙◌, zero, suc, Option, none, some,
  Option-cases,
}
use wedding_planner_backend.Shared.Cursor.{CursorValue}
use wedding_planner_backend.Vendors.Catalog.{
  clave_de_perfil, Filtro, se_busca, recorrer_catalogo, buscar, PerfilDeCatalogo,
}
use wedding_planner_backend.Shared.Text.{Text}

module _ {T : Type 0} (despues : CursorValue → CursorValue → Bool) (llave : T → CursorValue) where
  insertar-first :
      (x : T) (ys : List T)
      → All (λ y. despues (llave x) (llave y) ≡ false) ys
      → insertar_en_orden despues llave x ys ≡ x ∷ ys
  insertar-first x [] h = refl
  insertar-first x (y ∷ ys) h = grind (arith, h.0)

  not_after :
      (x y : T) (ys : List T)
      → EsOrden despues
      → despues (llave y) (llave x) ≡ true
      → All (λ z. despues (llave z) (llave y) ≡ true) ys
      → All (λ z. despues (llave x) (llave z) ≡ false) (y ∷ ys)
  not_after x y ys o h k = (
    o.asim (llave y) (llave x) h,
    All-map (λ z. despues (llave z) (llave y) ≡ true) (λ z. despues (llave x) (llave z) ≡ false) ys
        (λ z a. o.asim (llave z) (llave x) (o.trans (llave z) (llave y) (llave x) a h)) k,
  )

  filter-insertar :
      (p : T → Bool) (x : T) (ys : List T)
      → EsOrden despues
      → All (λ y. ((llave x).id == (llave y).id) ≡ false) ys
      → Estricto despues llave ys
      → filter p (insertar_en_orden despues llave x ys)
        ≡ (if p x then insertar_en_orden despues llave x (filter p ys) else filter p ys)
  filter-insertar p x [] o d h = ground arith
  filter-insertar p x (y ∷ ys) o d h = elim (Bool-cases (despues (llave x) (llave y))) [
    | inl later ↦ grind (arith, later, filter-insertar p x ys o d.1 h.1)
    | inr first ↦
        let before : despues (llave y) (llave x) ≡ true =
          ground (arith, o.total (llave x) (llave y) d.0, first) in
        let fits : insertar_en_orden despues llave x (filter p (y ∷ ys)) ≡ x ∷ filter p (y ∷ ys) =
          insertar-first x (filter p (y ∷ ys)) (
            All-filter (λ z. despues (llave x) (llave z) ≡ false) p (y ∷ ys)
              (not_after x y ys o before h.0)) in
        elim (Bool-cases (p x)) [
          | inl kept ↦ rw (first, kept) (sym fits)
          | inr out ↦ rw (first, out) refl
        ]
  ]

  pub filter-ordenar_por :
      (p : T → Bool) (xs : List T)
      → EsOrden despues
      → Distintos despues llave xs
      → filter p (ordenar_por despues llave xs) ≡ ordenar_por despues llave (filter p xs)
  unfolding ordenar_por
  filter-ordenar_por p [] o d = refl
  filter-ordenar_por p (x ∷ xs) o d =
      let step =
        filter-insertar p x (ordenar_por despues llave xs) o
          (All-ordenar despues llave (λ y. ((llave x).id == (llave y).id) ≡ false) xs d.0)
          (ordenar_por-Estricto despues llave xs o d.1) in
      elim (Bool-cases (p x)) [
        | inl kept ↦ grind (arith, step, kept, filter-ordenar_por p xs o d.1)
        | inr out ↦ grind (arith, step, out, filter-ordenar_por p xs o d.1)
      ]

  Distintos-filter :
      (p : T → Bool) (xs : List T)
      → Distintos despues llave xs
      → Distintos despues llave (filter p xs)
  Distintos-filter p [] d = tt
  Distintos-filter p (x ∷ xs) d = ground (
    arith,
    All-filter (λ y. ((llave x).id == (llave y).id) ≡ false) p xs d.0,
    Distintos-filter p xs d.1,
  )

length-ordenar_por :
    (xs : List PerfilDeCatalogo) → length (ordenar_por ascendente clave_de_perfil xs) ≡ length xs
length-ordenar_por xs =
    sym (count_every (ordenar_por ascendente clave_de_perfil xs))
    ∙ count-ordenar_por ascendente clave_de_perfil (λ x. true) xs
    ∙ count_every xs

abbrev buscados : (Text → Text) → Filtro → List PerfilDeCatalogo → List PerfilDeCatalogo
buscados to_lower_case f perfiles = filter (se_busca to_lower_case f) perfiles

buscar-pagina :
    (to_lower_case : Text → Text) (f : Filtro) (cursor : Option CursorValue) (limite : ℕ)
    (perfiles : List PerfilDeCatalogo)
    → Distintos ascendente clave_de_perfil (buscados to_lower_case f perfiles)
    → buscar to_lower_case f cursor limite perfiles
      ≡ pagina ascendente clave_de_perfil
          (ordenar_por ascendente clave_de_perfil (buscados to_lower_case f perfiles))
          cursor
          limite
unfolding buscar pagina
buscar-pagina to_lower_case f cursor limite perfiles d =
    rw
      (filter-ordenar_por ascendente clave_de_perfil (posterior_a ascendente clave_de_perfil cursor)
        (buscados to_lower_case f perfiles) ascendente-EsOrden d)
      refl

recorrer-same :
    (pages : ℕ) (to_lower_case : Text → Text) (f : Filtro) (cursor : Option CursorValue)
    (limite : ℕ) (perfiles : List PerfilDeCatalogo)
    → Distintos ascendente clave_de_perfil (buscados to_lower_case f perfiles)
    → recorrer_catalogo to_lower_case pages f cursor limite perfiles
      ≡ recorrer ascendente clave_de_perfil pages
          (ordenar_por ascendente clave_de_perfil (buscados to_lower_case f perfiles))
          cursor
          limite
unfolding recorrer_catalogo recorrer
recorrer-same zero to_lower_case f cursor limite perfiles d = refl
recorrer-same (suc pages) to_lower_case f cursor limite perfiles d =
    let p =
      pagina ascendente clave_de_perfil
        (ordenar_por ascendente clave_de_perfil (buscados to_lower_case f perfiles)) cursor
        limite in
    let one = buscar-pagina to_lower_case f cursor limite perfiles d in
    elim (Option-cases p.next_cursor) [
      | inl last ↦ rw (one, last) refl
      | inr (c, next) ↦
          rw (one, next) (rw (recorrer-same pages to_lower_case f (some c) limite perfiles d) refl)
    ]

-- A client that asks the catalogue for a search and follows the cursors, with pages of one profile at
-- least, gets the published profiles that the search is for, each once, by their creation and id,
-- and the last page comes before one page more than there are profiles.
pub recorrer_catalogo_all :
    (pages k : ℕ) (to_lower_case : Text → Text) (f : Filtro) (perfiles : List PerfilDeCatalogo)
    → Distintos ascendente clave_de_perfil perfiles
    → length perfiles < pages
    → (recorrer_catalogo to_lower_case pages f none (suc k) perfiles
        ≡ ordenar_por ascendente clave_de_perfil (filter (se_busca to_lower_case f) perfiles))
      × ((q : PerfilDeCatalogo → Bool)
          → count q (recorrer_catalogo to_lower_case pages f none (suc k) perfiles)
            ≡ count q (filter (se_busca to_lower_case f) perfiles))
recorrer_catalogo_all pages k to_lower_case f perfiles d enough =
    let d' = Distintos-filter ascendente clave_de_perfil (se_busca to_lower_case f) perfiles d in
    let rows = ordenar_por ascendente clave_de_perfil (buscados to_lower_case f perfiles) in
    let whole : recorrer_catalogo to_lower_case pages f none (suc k) perfiles ≡ rows =
      recorrer-same pages to_lower_case f none (suc k) perfiles d'
      ∙ recorrer_all ascendente clave_de_perfil pages k rows ascendente-EsOrden
          (ordenar_por-Estricto ascendente clave_de_perfil (buscados to_lower_case f perfiles)
            ascendente-EsOrden d')
          (omega (
            arith,
            enough,
            length-ordenar_por (buscados to_lower_case f perfiles),
            length-filter (se_busca to_lower_case f) perfiles,
          )) in
    (
      whole,
      λ q.
          rw whole
            (count-ordenar_por ascendente clave_de_perfil q (buscados to_lower_case f perfiles)),
    )
