-- ===== src/Vendors/Profile/Views.antt =====
-- What goes out of a profile: src/modules/vendors/application/ficha-vista.ts and `precioDesde` of
-- domain/vendor-profile.ts. A price that is no number makes `aCentimos` throw, which is `none` here.
use wedding_planner_backend.Prelude.{
  ℕ, ◌∷◌, if◌then◌else◌, some, and_then, [], none, List, map, Option,
}
use wedding_planner_backend.Vendors.Profile.{
  Paquete, FotoDePortfolio, FichaDeProveedor, DatosDeFicha, Fila,
}
use wedding_planner_backend.Vendors.Contracts.{EstadoDeFicha}
use wedding_planner_backend.Shared.Text.{Text}
use wedding_planner_backend.Shared.Money.{a_centimos}
use wedding_planner_backend.Prelude.Int.{ltb_ℤ}

-- One turn of the loop, over the least price so far.
unfoldable pub menor_precio : Text → Text → Option Text
menor_precio price minimo =
    and_then (a_centimos price)
      (λ a. and_then (a_centimos minimo) (λ b. some (if ltb_ℤ a b then price else minimo)))

abbrev pub precio_desde_con : Text → List Text → Option Text
precio_desde_con minimo [] = some minimo
precio_desde_con minimo (p ∷ ps) =
    and_then (menor_precio p minimo) (λ menor. precio_desde_con menor ps)

-- The inner `none` is the null of a profile without packages.
unfoldable pub precio_desde : List Text → Option (Option Text)
precio_desde [] = some none
precio_desde (p ∷ ps) = and_then (precio_desde_con p ps) (λ m. some (some m))

pub record FotoVista : Type 0 where
  pub id : ℕ
  pub alt : Text
  pub url : Option Text

pub record FichaVista : Type 0 where
  pub id : ℕ
  pub status : EstadoDeFicha
  pub avatar_url : Option Text
  pub datos : DatosDeFicha
  pub packages : List Paquete
  pub portfolio : List FotoVista
  pub price_from : Option Text
  pub weddings_count : ℕ

pub record SimilarVista : Type 0 where
  pub id : ℕ
  pub business_name : Text
  pub category : Text
  pub specialty : Option Text
  pub currency : Text
  pub price_from : Option Text
  pub image_url : Option Text

abbrev pub precios : Fila → List Text
precios f = map (λ p. p.price) f.packages

module _ (firmar_lectura : Text → Option Text) where
  unfoldable pub a_fotos : List FotoDePortfolio → List FotoVista
  a_fotos fotos =
      map (λ f. record { id = f.id; alt = f.alt; url = firmar_lectura f.storage_key }) fotos

  unfoldable pub a_vista : FichaDeProveedor → ℕ → Option FichaVista
  a_vista ficha weddings_count = and_then (precio_desde (precios ficha.fila)) (λ desde.
      some (record {
        id = ficha.fila.id;
        status = ficha.fila.status;
        avatar_url = and_then ficha.avatar_key firmar_lectura;
        datos = ficha.fila.datos;
        packages = ficha.fila.packages;
        portfolio = a_fotos ficha.fila.portfolio;
        price_from = desde;
        weddings_count = weddings_count;
      }))

  abbrev pub primera_imagen : List FotoDePortfolio → Option Text
  primera_imagen [] = none
  primera_imagen (f ∷ fs) = firmar_lectura f.storage_key

  unfoldable pub a_similar : FichaDeProveedor → Option SimilarVista
  a_similar ficha = and_then (precio_desde (precios ficha.fila)) (λ desde. some (record {
    id = ficha.fila.id;
    business_name = ficha.fila.datos.business_name;
    category = ficha.fila.datos.category;
    specialty = ficha.fila.datos.specialty;
    currency = ficha.fila.datos.currency;
    price_from = desde;
    image_url = primera_imagen ficha.fila.portfolio;
  }))

  -- `Promise.all(similares.map(…))`, which throws as soon as one does.
  abbrev pub a_similares : List FichaDeProveedor → Option (List SimilarVista)
  a_similares [] = some []
  a_similares (f ∷ fs) =
      and_then (a_similar f) (λ v. and_then (a_similares fs) (λ vs. some (v ∷ vs)))
