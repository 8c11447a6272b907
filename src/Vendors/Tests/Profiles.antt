-- ===== src/Vendors/Tests/Profiles.antt =====
-- Profiles at concrete inputs: the user `u` has a published profile with two photos and two packages.
use wedding_planner_backend.Prelude.{
  ℕ, [], count, true, ◌⊎◌, ◌∷◌, arith, List, Bool, some, ◌≡◌, find?, ◌+◌, refl, none, filter,
}
use wedding_planner_backend.Vendors.Contracts.{published}
use wedding_planner_backend.Storage.{ObjectStorage}
use wedding_planner_backend.Vendors.Profile.UseCases.{
  MundoDeFichas, leer_publica, ordenar_si_vale, ordenar_portfolio, cambiar_foto,
  agregar_a_portfolio, guardar_mi_ficha, cambiar_paquetes, vista, quitar_foto,
  orden_de_fotos_invalido, cambiar_modo,
}
use wedding_planner_backend.Vendors.Profile.Laws.{Sanas}
use wedding_planner_backend.Vendors.Profile.Laws.Requests.{Respeta}
use wedding_planner_backend.Vendors.Catalog.{
  PerfilDeCatalogo, Filtro, se_busca, recorrer_catalogo, clave_de_perfil,
}
use wedding_planner_backend.Vendors.Catalog.Walk.{recorrer_catalogo_all}
use wedding_planner_backend.Shared.Cursor.Order.{ordenar_por, ascendente}
use wedding_planner_backend.Database.{en_transaccion}
use wedding_planner_backend.Vendors.Profile.{
  es_de, avatar_de, Fila, contar_bodas, FotoDePortfolio, Fichas, similares, NuevoPaquete,
  DatosDeFicha, buscar_publicada, prefijo_de_portfolio,
}
use wedding_planner_backend.Vendors.Profile.Views.{a_vista, FichaVista, precio_desde, a_fotos}
use wedding_planner_backend.Vendors.Profile.Laws.Public.{Publica, leer_publica-Publica}
use wedding_planner_backend.Vendors.Profile.Laws.Whole.{peticiones-Sanas}
use wedding_planner_backend.Vendors.Profile.Laws.Reorder.{Ordenada, los_ids, ordenar_si_vale_cases}
use wedding_planner_backend.Vendors.Profile.Laws.Permutation.{Permuta}
use wedding_planner_backend.Shared.Text.{codes, Text, text_eq}
use wedding_planner_backend.Prelude.Monad.{err, ok}

abbrev almacen : ObjectStorage ℕ
almacen = record {
  disponible = true;
  firmar_subida = λ key content_type bytes. key;
  firmar_lectura = λ key. some key;
  inspeccionar = λ key n. some (record { content_type = some (codes "image/png"); bytes = 1024 });
  borrar_objeto = λ key n. (ok tt, n + 1);
}

abbrev foto : ℕ → FotoDePortfolio
foto id = record { id = id; storage_key = codes "users/u/portfolio/x.png"; alt = [] }

abbrev datos : DatosDeFicha
datos = record {
  business_name = [];
  category = [];
  specialty = none;
  tagline = none;
  bio = none;
  quote = none;
  years_experience = none;
  response_time = none;
  currency = codes "USD";
  publications = [];
  contact = record { email = none; phone = none; website = none };
  location = none;
}

abbrev ficha : Fila
ficha = record {
  datos = datos;
  id = 5;
  user_id = codes "u";
  status = published;
  packages = [];
  portfolio = foto 1 ∷ foto 2 ∷ [];
  created_at = 0;
}

abbrev mundo : MundoDeFichas ℕ
mundo = record {
  fichas = record { fichas = ficha ∷ []; bodas = []; avatares = []; reloj = 1 };
  almacen = 0;
}

mundo-Sanas : Sanas mundo.fichas
unfolding prefijo_de_portfolio
mundo-Sanas = record {
  filas = (record { limite = omega arith; propias = (refl, (refl, tt)) }, tt);
  ids = (refl, tt);
}

quieto : Respeta {A = ℕ} (λ k m. m)
quieto = record { sanas = λ k m h. h; fija = λ k m user_id f e. (f, e, refl) }

peticiones-Sanas_example :
    ((d : DatosDeFicha)
      → Sanas (guardar_mi_ficha almacen (λ k m. m) 6 (codes "u") d mundo).1.fichas)
    × ((activo : Bool) → Sanas (cambiar_modo almacen (λ k m. m) (codes "u") activo mundo).1.fichas)
    × ((ids : ℕ → ℕ) (ps : List NuevoPaquete)
        → Sanas (cambiar_paquetes almacen (λ k m. m) ids (codes "u") ps mundo).1.fichas)
    × ((foto_id : ℕ) (key alt : Text)
        → Sanas (agregar_a_portfolio almacen (λ k m. m) foto_id (codes "u") key alt mundo).1.fichas)
    × ((foto_id : ℕ) (alt : Text)
        → Sanas (cambiar_foto almacen (λ k m. m) (codes "u") foto_id alt mundo).1.fichas)
    × ((foto_id : ℕ) → Sanas (quitar_foto almacen (λ k m. m) (codes "u") foto_id mundo).1.fichas)
    × ((ids : List ℕ) → Sanas (ordenar_portfolio almacen (λ k m. m) (codes "u") ids mundo).1.fichas)
peticiones-Sanas_example =
    peticiones-Sanas almacen (λ k m. m) (codes "u") mundo 6 quieto refl mundo-Sanas

del_usuario : find? (es_de (codes "u")) mundo.fichas.fichas ≡ some ficha
unfolding text_eq
del_usuario = refl

ordenar_si_vale_cases_example :
    (Permuta (2 ∷ 1 ∷ []) (los_ids ficha.portfolio)
      × (s : Fichas) × (en_transaccion
            (ordenar_si_vale almacen (λ k m. m) (codes "u") 5 (2 ∷ 1 ∷ []))
            mundo
          ≡ (ok tt, record mundo { fichas = s }))
      × Ordenada 5 (2 ∷ 1 ∷ []) ficha.portfolio s)
    ⊎ (¬ (Permuta (2 ∷ 1 ∷ []) (los_ids ficha.portfolio))
        × (en_transaccion (ordenar_si_vale almacen (λ k m. m) (codes "u") 5 (2 ∷ 1 ∷ [])) mundo
            ≡ (err orden_de_fotos_invalido, mundo)))
ordenar_si_vale_cases_example =
    ordenar_si_vale_cases almacen (λ k m. m) (codes "u") (2 ∷ 1 ∷ []) ficha mundo mundo-Sanas.ids
      del_usuario refl

abbrev ficha_publica : FichaVista
ficha_publica = record {
  id = 5;
  status = published;
  avatar_url = none;
  datos = datos;
  packages = [];
  portfolio = a_fotos (λ key. some key) (foto 1 ∷ foto 2 ∷ []);
  price_from = none;
  weddings_count = 0;
}

se_lee : (leer_publica almacen (λ k m. m) (λ t. t) 5 mundo).0 ≡ ok (ficha_publica, [])
unfolding leer_publica vista buscar_publicada a_vista contar_bodas similares avatar_de precio_desde
se_lee = refl

leer_publica-Publica_example : Publica 5 mundo.fichas ficha_publica []
leer_publica-Publica_example =
    leer_publica-Publica almacen (λ k m. m) (λ t. t) 5 mundo ficha_publica [] se_lee

abbrev perfil : ℕ → PerfilDeCatalogo
perfil id = record {
  id = id;
  business_name = [];
  category = [];
  specialty = none;
  created_at = 3;
  status = published;
}

abbrev catalogo : List PerfilDeCatalogo
catalogo = perfil 2 ∷ perfil 1 ∷ []

abbrev todos : Filtro
todos = record { q = none; category = none }

recorrer_catalogo_all_example :
    (recorrer_catalogo (λ t. t) 3 todos none 1 catalogo
      ≡ ordenar_por ascendente clave_de_perfil (filter (se_busca (λ t. t) todos) catalogo))
    × ((q : PerfilDeCatalogo → Bool)
        → count q (recorrer_catalogo (λ t. t) 3 todos none 1 catalogo)
          ≡ count q (filter (se_busca (λ t. t) todos) catalogo))
recorrer_catalogo_all_example =
    recorrer_catalogo_all 3 0 (λ t. t) todos catalogo ((refl, tt), (tt, tt)) (omega arith)
