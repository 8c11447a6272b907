-- ===== src/Vendors/Profile.antt =====
-- The profiles of the marketplace: src/modules/vendors/domain/vendor-profile.ts and
-- infrastructure/vendor-profile.repository.fake.ts. An id that the code writes into a key is a text.
pub mod Views
pub mod UseCases
pub mod Laws
use wedding_planner_backend.Vendors.Contracts.{
  draft, published, suspended, EstadoDeFicha, published, es_publicado, suspended,
}
use wedding_planner_backend.Prelude.{
  ℕ, Bool, [], any, ◌&&◌, not, find?, map, if◌then◌else◌, ltb, ◌++◌, List, none, suc, Option,
  and_then, modify_first, filter, count, is_some, some, take, ◌==◌, ◌∷◌,
}
use wedding_planner_backend.Events.Domain.{Ubicacion}
use wedding_planner_backend.Shared.Text.{Text, text_eq, codes}

pub record Contacto : Type 0 where
  pub email : Option Text
  pub phone : Option Text
  pub website : Option Text

pub record Paquete : Type 0 where
  pub id : ℕ
  pub name : Text
  pub description : Text
  pub price : Text

pub record FotoDePortfolio : Type 0 where
  pub id : ℕ
  pub storage_key : Text
  pub alt : Text

pub record DatosDeFicha : Type 0 where
  pub business_name : Text
  pub category : Text
  pub specialty : Option Text
  pub tagline : Option Text
  pub bio : Option Text
  pub quote : Option Text
  pub years_experience : Option ℕ
  pub response_time : Option Text
  pub currency : Text
  pub publications : List Text
  pub contact : Contacto
  pub location : Option Ubicacion

-- A row of the repository; the avatar is looked up when a copy goes out.
pub record Fila : Type 0 where
  pub datos : DatosDeFicha
  pub id : ℕ
  pub user_id : Text
  pub status : EstadoDeFicha
  pub packages : List Paquete
  pub portfolio : List FotoDePortfolio
  pub created_at : ℕ

pub record FichaDeProveedor : Type 0 where
  pub fila : Fila
  pub avatar_key : Option Text

abbrev pub max_fotos_portfolio : ℕ
max_fotos_portfolio = 20

abbrev pub max_similares : ℕ
max_similares = 4

unfoldable pub prefijo_de_portfolio : Text → Text
prefijo_de_portfolio user_id = codes "users/" ++ user_id ++ codes "/portfolio"

-- The owner's switch.
unfoldable pub estado_al_cambiar_modo : EstadoDeFicha → Bool → Option EstadoDeFicha
estado_al_cambiar_modo suspended activo = none
estado_al_cambiar_modo _ activo = some (if activo then published else draft)

pub record BodaDeFicha : Type 0 where
  pub ficha_id : ℕ
  pub event_id : ℕ

pub record Avatar : Type 0 where
  pub user_id : Text
  pub key : Text

-- `bodas` keeps each pair once, as the set of the code does, and `avatares` the last of a user first.
pub record Fichas : Type 0 where
  pub fichas : List Fila
  pub bodas : List BodaDeFicha
  pub avatares : List Avatar
  pub reloj : ℕ

unfoldable pub avatar_de : Text → Fichas → Option Text
avatar_de user_id s = elim (find? (λ a. text_eq a.user_id user_id) s.avatares) [
  | none ↦ none
  | some a ↦ some a.key
]

abbrev pub copia : Fichas → Fila → FichaDeProveedor
copia s f = record { fila = f; avatar_key = avatar_de f.user_id s }

unfoldable pub sembrar :
    ℕ → Text → DatosDeFicha → EstadoDeFicha → Fichas → FichaDeProveedor × Fichas
sembrar uuid user_id datos status s =
    let fila : Fila = record {
      datos = datos;
      id = uuid;
      user_id = user_id;
      status = status;
      packages = [];
      portfolio = [];
      created_at = s.reloj;
    } in
    (copia s fila, record s { fichas = s.fichas ++ fila ∷ []; reloj = suc s.reloj })

unfoldable pub sembrar_boda : ℕ → ℕ → Fichas → Fichas
sembrar_boda ficha_id event_id s =
    if any (λ b. b.ficha_id == ficha_id && b.event_id == event_id) s.bodas
    then s
    else record s { bodas = s.bodas ++ (record { ficha_id = ficha_id; event_id = event_id }) ∷ [] }

unfoldable pub sembrar_avatar : Text → Text → Fichas → Fichas
sembrar_avatar user_id key s = record s {
  avatares = (record { user_id = user_id; key = key }) ∷ s.avatares;
}

abbrev pub es_de : Text → Fila → Bool
es_de user_id f = text_eq f.user_id user_id

abbrev pub es_ficha : ℕ → Fila → Bool
es_ficha ficha_id f = f.id == ficha_id

unfoldable pub buscar_por_usuario : Text → Fichas → Option FichaDeProveedor
buscar_por_usuario user_id s = elim (find? (es_de user_id) s.fichas) [
  | none ↦ none
  | some f ↦ some (copia s f)
]

unfoldable pub buscar_publicada : ℕ → Fichas → Option FichaDeProveedor
buscar_publicada id s = elim (find? (λ f. f.id == id && es_publicado f.status) s.fichas) [
  | none ↦ none
  | some f ↦ some (copia s f)
]

unfoldable pub guardar_datos : ℕ → Text → DatosDeFicha → Fichas → FichaDeProveedor × Fichas
guardar_datos uuid user_id datos s = elim (find? (es_de user_id) s.fichas) [
  | none ↦ sembrar uuid user_id datos draft s
  | some f ↦ (
    copia s (record f { datos = datos }),
    record s { fichas = modify_first (es_de user_id) (λ g. record g { datos = datos }) s.fichas },
  )
]

abbrev pub en_ficha : ℕ → (Fila → Fila) → Fichas → Fichas
en_ficha ficha_id cambio s = record s { fichas = modify_first (es_ficha ficha_id) cambio s.fichas }

unfoldable pub fijar_estado : ℕ → EstadoDeFicha → Fichas → Fichas
fijar_estado ficha_id estado = en_ficha ficha_id (λ f. record f { status = estado })

pub record NuevoPaquete : Type 0 where
  pub name : Text
  pub description : Text
  pub price : Text

-- `uuid k` is the k-th id that is drawn.
abbrev pub numerados : (ℕ → ℕ) → ℕ → List NuevoPaquete → List Paquete
numerados uuid k [] = []
numerados uuid k (p ∷ ps) =
    (record { id = uuid k; name = p.name; description = p.description; price = p.price })
    ∷ numerados uuid (suc k) ps

unfoldable pub reemplazar_paquetes : (ℕ → ℕ) → ℕ → List NuevoPaquete → Fichas → Fichas
reemplazar_paquetes uuid ficha_id paquetes =
    en_ficha ficha_id (λ f. record f { packages = numerados uuid 0 paquetes })

-- `none` is the error for a profile that is not there.
unfoldable pub agregar_foto : ℕ → ℕ → Text → Text → Fichas → Option FotoDePortfolio × Fichas
agregar_foto uuid ficha_id storage_key alt s =
    let nueva : FotoDePortfolio = record { id = uuid; storage_key = storage_key; alt = alt } in
    if any (es_ficha ficha_id) s.fichas
    then (some nueva, en_ficha ficha_id (λ f. record f { portfolio = f.portfolio ++ nueva ∷ [] }) s)
    else (none, s)

abbrev pub es_foto : ℕ → FotoDePortfolio → Bool
es_foto foto_id p = p.id == foto_id

-- `this.fichas.find(…)?.portfolio.find(…)`
abbrev pub foto_de : ℕ → ℕ → Fichas → Option FotoDePortfolio
foto_de ficha_id foto_id s =
    and_then (find? (es_ficha ficha_id) s.fichas) (λ f. find? (es_foto foto_id) f.portfolio)

unfoldable pub cambiar_alt : ℕ → ℕ → Text → Fichas → Bool × Fichas
cambiar_alt ficha_id foto_id alt s = (
  is_some (foto_de ficha_id foto_id s),
  en_ficha ficha_id
      (λ f. record f {
        portfolio = modify_first (es_foto foto_id) (λ p. record p { alt = alt }) f.portfolio;
      })
      s,
)

unfoldable pub borrar_foto : ℕ → ℕ → Fichas → Option Text × Fichas
borrar_foto ficha_id foto_id s = elim (foto_de ficha_id foto_id s) [
  | none ↦ (none, s)
  | some foto ↦ (
    some foto.storage_key,
    en_ficha ficha_id
        (λ f. record f { portfolio = filter (λ p. not (es_foto foto_id p)) f.portfolio }) s,
  )
]

-- `porId.get(id)` of the map that is made of the list: the last of an id.
abbrev pub foto_con_id : ℕ → List FotoDePortfolio → Option FotoDePortfolio
foto_con_id id [] = none
foto_con_id id (p ∷ ps) = elim (foto_con_id id ps) [
  | some q ↦ some q
  | none ↦ if p.id == id then some p else none
]

abbrev pub en_ese_orden : List FotoDePortfolio → List ℕ → List FotoDePortfolio
en_ese_orden fotos [] = []
en_ese_orden fotos (id ∷ ids) = elim (foto_con_id id fotos) [
  | none ↦ en_ese_orden fotos ids
  | some p ↦ p ∷ en_ese_orden fotos ids
]

unfoldable pub reordenar_fotos : ℕ → List ℕ → Fichas → Fichas
reordenar_fotos ficha_id ids =
    en_ficha ficha_id (λ f. record f { portfolio = en_ese_orden f.portfolio ids })

unfoldable pub contar_bodas : ℕ → Fichas → ℕ
contar_bodas ficha_id s = count (λ b. b.ficha_id == ficha_id) s.bodas

abbrev pub insertar_por_alta : Fila → List Fila → List Fila
insertar_por_alta x [] = x ∷ []
insertar_por_alta x (y ∷ ys) =
    let resto = insertar_por_alta x ys in
    if ltb y.created_at x.created_at then y ∷ resto else x ∷ y ∷ ys

abbrev pub ordenar_por_alta : List Fila → List Fila
ordenar_por_alta [] = []
ordenar_por_alta (x ∷ xs) = insertar_por_alta x (ordenar_por_alta xs)

-- `to_lower_case` is the platform's.
unfoldable pub similares : (Text → Text) → Fila → ℕ → Fichas → List FichaDeProveedor
similares to_lower_case ficha limite s = map (copia s) (
    take limite (
      ordenar_por_alta (
        filter
          (λ f.
            not (f.id == ficha.id)
            && (es_publicado f.status
                && text_eq (to_lower_case f.datos.category) (to_lower_case ficha.datos.category)))
          s.fichas)))
