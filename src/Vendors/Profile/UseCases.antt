-- ===== src/Vendors/Profile/UseCases.antt =====
-- The use cases over the profiles: src/modules/vendors/application, my-vendor-profile.use-cases.ts,
-- portfolio.use-cases.ts and get-public-vendor-profile.use-case.ts, over an object store. `entorno k`
-- is what other requests do before the k-th awaited call takes effect; inside a transaction that has
-- locked the profile nothing comes between.
use wedding_planner_backend.Vendors.Profile.Views.{
  a_vista, a_similares, a_similares, FichaVista, SimilarVista,
}
use wedding_planner_backend.Vendors.Profile.{
  Fichas, agregar_foto, similares, reemplazar_paquetes, FotoDePortfolio, borrar_foto,
  estado_al_cambiar_modo, guardar_datos, FichaDeProveedor, max_similares, reordenar_fotos,
  max_fotos_portfolio, buscar_publicada, DatosDeFicha, cambiar_alt, NuevoPaquete,
  buscar_por_usuario, contar_bodas, fijar_estado, prefijo_de_portfolio,
}
use wedding_planner_backend.Storage.{
  ObjectStorage, preparar, confirmar, borrar_imagen, SubidaError, SubidaPreparada,
}
use wedding_planner_backend.Prelude.Monad.{
  ok, err, ◌>>=◌, ◌>>◌, Action, gets, or_throw, throw_if, modify, pure,
}
use wedding_planner_backend.Prelude.{
  ℕ, ◌∷◌, true, length, suc, ◌&&◌, some, not, any, leb, [], none, ◌==◌, List, map, Bool,
}
use wedding_planner_backend.Database.{en_transaccion}
use wedding_planner_backend.Shared.Text.{Text}

pub data FichaError : Type 0 where
  ficha_no_encontrada ficha_suspendida foto_no_encontrada limite_de_fotos : FichaError
  orden_de_fotos_invalido precio_invalido ficha_inexistente : FichaError
  subida : SubidaError → FichaError

pub record MundoDeFichas (A : Type 0) : Type 0 where
  pub fichas : Fichas
  pub almacen : A

-- Whether the set of the asked ids is as large as their list.
abbrev pub sin_repetir : List ℕ → Bool
sin_repetir [] = true
sin_repetir (x ∷ xs) = not (any (λ y. y == x) xs) && sin_repetir xs

abbrev pub todas_pedidas : List ℕ → List ℕ → Bool
todas_pedidas ids [] = true
todas_pedidas ids (a ∷ actuales) = any (λ y. y == a) ids && todas_pedidas ids actuales

unfoldable pub orden_valido : List ℕ → List ℕ → Bool
orden_valido ids actuales =
    sin_repetir ids && (length ids == length actuales && todas_pedidas ids actuales)

module _ {A : Type 0} (storage : ObjectStorage A)
    (entorno : ℕ → MundoDeFichas A → MundoDeFichas A) where
  abbrev pub FichaAction : Type 0 → Type 0
  FichaAction B = Action (MundoDeFichas A) FichaError B

  abbrev pub esperar : ℕ → FichaAction (Unit {0})
  esperar k = modify (entorno k)

  -- A call of `SubidaDeImagenes`, which works on the store.
  abbrev pub en_almacen : {B : Type 0} → Action A SubidaError B → FichaAction B
  en_almacen accion m =
      let (r, a) = accion m.almacen in
      elim r [
        | ok b ↦ (ok b, record m { almacen = a })
        | err e ↦ (err (subida e), record m { almacen = a })
      ]

  -- `GetMyVendorProfileUseCase.exigir`
  unfoldable pub exigir : ℕ → Text → FichaAction FichaDeProveedor
  exigir k user_id = do
    esperar k
    encontrada ← gets (λ m. buscar_por_usuario user_id m.fichas)
    or_throw encontrada ficha_no_encontrada

  -- `GetMyVendorProfileUseCase.vista`
  unfoldable pub vista : ℕ → FichaDeProveedor → FichaAction FichaVista
  vista k ficha = do
    esperar k
    bodas ← gets (λ m. contar_bodas ficha.fila.id m.fichas)
    or_throw (a_vista storage.firmar_lectura ficha bodas) precio_invalido

  -- `GetMyVendorProfileUseCase.ejecutar`
  unfoldable pub leer_mi_ficha : ℕ → Text → FichaAction FichaVista
  leer_mi_ficha k user_id = do ficha ← exigir k user_id; vista (suc k) ficha

  -- `SaveMyVendorProfileUseCase.ejecutar`
  unfoldable pub guardar_mi_ficha : ℕ → Text → DatosDeFicha → FichaAction FichaVista
  guardar_mi_ficha uuid user_id datos = do
    esperar 0
    ficha ← (λ m.
        let (f, s) = guardar_datos uuid user_id datos m.fichas in (ok f, record m { fichas = s }))
    vista 1 ficha

  -- `SetVendorModeUseCase.ejecutar`
  unfoldable pub cambiar_modo : Text → Bool → FichaAction FichaVista
  cambiar_modo user_id activo = do
    ficha ← exigir 0 user_id
    estado ← or_throw (estado_al_cambiar_modo ficha.fila.status activo) ficha_suspendida
    esperar 1
    modify (λ m. record m { fichas = fijar_estado ficha.fila.id estado m.fichas })
    vista 2 (record ficha { fila = record ficha.fila { status = estado } })

  -- `ReplacePackagesUseCase.ejecutar`
  unfoldable pub cambiar_paquetes : (ℕ → ℕ) → Text → List NuevoPaquete → FichaAction FichaVista
  cambiar_paquetes uuid user_id paquetes = do
    ficha ← exigir 0 user_id
    esperar 1
    modify (λ m. record m { fichas = reemplazar_paquetes uuid ficha.fila.id paquetes m.fichas })
    leer_mi_ficha 2 user_id

  -- `PreparePortfolioUploadUseCase.ejecutar`
  unfoldable pub preparar_foto : Text → Text → Text → ℕ → FichaAction SubidaPreparada
  preparar_foto uuid user_id content_type size = do
    ficha ← exigir 0 user_id
    throw_if (leb max_fotos_portfolio (length ficha.fila.portfolio)) limite_de_fotos
    en_almacen (preparar storage uuid (prefijo_de_portfolio user_id) content_type size)

  -- How many photos the profile of a user has, 0 without one.
  abbrev pub fotos_de : Text → MundoDeFichas A → List FotoDePortfolio
  fotos_de user_id m = elim (buscar_por_usuario user_id m.fichas) [
    | none ↦ []
    | some f ↦ f.fila.portfolio
  ]

  -- The transaction of `AddPortfolioImageUseCase`.
  unfoldable pub agregar_si_cabe : ℕ → Text → ℕ → Text → Text → FichaAction (Unit {0})
  agregar_si_cabe uuid user_id ficha_id key alt = do
    fotos ← gets (fotos_de user_id)
    throw_if (leb max_fotos_portfolio (length fotos)) limite_de_fotos
    nueva ← (λ m.
        let (f, s) = agregar_foto uuid ficha_id key alt m.fichas in (ok f, record m { fichas = s }))
    or_throw nueva ficha_inexistente
    pure tt

  -- The `catch`: the image that found no place goes.
  abbrev pub soltar_si_no_cabe : Text → FichaAction (Unit {0}) → FichaAction (Unit {0})
  soltar_si_no_cabe key trabajo m =
      let (r, m') = trabajo m in
      elim r [
        | ok b ↦ (ok b, m')
        | err e ↦ (
          err e,
          elim e [
            | limite_de_fotos ↦ record m' { almacen = borrar_imagen storage key m'.almacen }
            | _ ↦ m'
          ],
        )
      ]

  -- `AddPortfolioImageUseCase.ejecutar`
  unfoldable pub agregar_a_portfolio : ℕ → Text → Text → Text → FichaAction FichaVista
  agregar_a_portfolio uuid user_id key alt = do
    ficha ← exigir 0 user_id
    esperar 1
    en_almacen (confirmar storage (prefijo_de_portfolio user_id) key)
    esperar 2
    soltar_si_no_cabe key (en_transaccion (agregar_si_cabe uuid user_id ficha.fila.id key alt))
    leer_mi_ficha 3 user_id

  -- `UpdatePortfolioImageUseCase.ejecutar`
  unfoldable pub cambiar_foto : Text → ℕ → Text → FichaAction FichaVista
  cambiar_foto user_id foto_id alt = do
    ficha ← exigir 0 user_id
    esperar 1
    estaba ← (λ m.
        let (b, s) = cambiar_alt ficha.fila.id foto_id alt m.fichas in
        (ok b, record m { fichas = s }))
    throw_if (not estaba) foto_no_encontrada
    leer_mi_ficha 2 user_id

  -- `RemovePortfolioImageUseCase.ejecutar`
  unfoldable pub quitar_foto : Text → ℕ → FichaAction (Unit {0})
  quitar_foto user_id foto_id = do
    ficha ← exigir 0 user_id
    esperar 1
    borrada ← (λ m.
        let (k, s) = borrar_foto ficha.fila.id foto_id m.fichas in (ok k, record m { fichas = s }))
    key ← or_throw borrada foto_no_encontrada
    esperar 2
    modify (λ m. record m { almacen = borrar_imagen storage key m.almacen })

  -- The transaction of `ReorderPortfolioUseCase`.
  unfoldable pub ordenar_si_vale : Text → ℕ → List ℕ → FichaAction (Unit {0})
  ordenar_si_vale user_id ficha_id ids = do
    fotos ← gets (fotos_de user_id)
    throw_if (not (orden_valido ids (map (λ f. f.id) fotos))) orden_de_fotos_invalido
    modify (λ m. record m { fichas = reordenar_fotos ficha_id ids m.fichas })

  -- `ReorderPortfolioUseCase.ejecutar`
  unfoldable pub ordenar_portfolio : Text → List ℕ → FichaAction FichaVista
  ordenar_portfolio user_id ids = do
    ficha ← exigir 0 user_id
    esperar 1
    en_transaccion (ordenar_si_vale user_id ficha.fila.id ids)
    leer_mi_ficha 2 user_id

  -- `GetPublicVendorProfileUseCase.ejecutar`; the view leaves its `status` out on the way.
  unfoldable pub leer_publica : (Text → Text) → ℕ → FichaAction (FichaVista × List SimilarVista)
  leer_publica to_lower_case id = do
    esperar 0
    encontrada ← gets (λ m. buscar_publicada id m.fichas)
    ficha ← or_throw encontrada ficha_no_encontrada
    esperar 1
    v ← vista 2 ficha
    parecidas ← gets (λ m. similares to_lower_case ficha.fila max_similares m.fichas)
    vs ← or_throw (a_similares storage.firmar_lectura parecidas) precio_invalido
    pure (v, vs)
