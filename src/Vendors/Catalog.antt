-- ===== src/Vendors/Catalog.antt =====
-- The search of the marketplace: src/modules/vendors/infrastructure/vendor-catalog.repository.fake.ts.
-- `to_lower_case` is the platform's; a cursor is its value, before it is encoded.
pub mod Walk
use wedding_planner_backend.Prelude.{
  ℕ, Bool, take, zero, none, suc, ◌||◌, some, Option, filter, true, false, ◌++◌, ◌&&◌, [], List,
}
use wedding_planner_backend.Shared.Cursor.{CursorValue, CursorPage}
use wedding_planner_backend.Shared.Cursor.Pages.{siguiente, posterior_a}
use wedding_planner_backend.Shared.Cursor.Order.{ordenar_por, ascendente}
use wedding_planner_backend.Vendors.Contracts.{EstadoDeFicha, es_publicado}
use wedding_planner_backend.Shared.Text.{text_eq, includes, Text}

pub record PerfilDeCatalogo : Type 0 where
  pub id : ℕ
  pub business_name : Text
  pub category : Text
  pub specialty : Option Text
  pub created_at : ℕ
  pub status : EstadoDeFicha

pub record Filtro : Type 0 where
  pub q : Option Text
  pub category : Option Text

abbrev pub clave_de_perfil : PerfilDeCatalogo → CursorValue
clave_de_perfil p = record { created_at = p.created_at; id = p.id }

module _ (to_lower_case : Text → Text) where
  abbrev pub de_categoria : Option Text → PerfilDeCatalogo → Bool
  de_categoria none p = true
  de_categoria (some c) p = text_eq (to_lower_case p.category) (to_lower_case c)

  abbrev pub nombrado : Option Text → PerfilDeCatalogo → Bool
  nombrado none p = true
  nombrado (some q) p =
      includes (to_lower_case p.business_name) (to_lower_case q)
      || (elim p.specialty [ none ↦ false | some s ↦ includes (to_lower_case s) (to_lower_case q) ])

  -- What the filters of the query let through, the cursor aside.
  unfoldable pub se_busca : Filtro → PerfilDeCatalogo → Bool
  se_busca f p = es_publicado p.status && (de_categoria f.category p && nombrado f.q p)

  -- The rows are filtered first and sorted then.
  unfoldable pub buscar :
      Filtro → Option CursorValue → ℕ → List PerfilDeCatalogo → CursorPage PerfilDeCatalogo
  buscar f cursor limite perfiles =
      let candidatos =
        ordenar_por ascendente clave_de_perfil
          (filter (posterior_a ascendente clave_de_perfil cursor) (filter (se_busca f) perfiles)) in
      record {
        items = take limite candidatos;
        next_cursor = siguiente ascendente clave_de_perfil limite candidatos;
      }

  -- `SearchVendorCatalogUseCase.ejecutar`, asked again with each cursor that comes back.
  unfoldable pub recorrer_catalogo :
      ℕ → Filtro → Option CursorValue → ℕ → List PerfilDeCatalogo → List PerfilDeCatalogo
  recorrer_catalogo zero f cursor limite perfiles = []
  recorrer_catalogo (suc pages) f cursor limite perfiles =
      let p = buscar f cursor limite perfiles in
      p.items ++ (elim p.next_cursor [
        | none ↦ []
        | some c ↦ recorrer_catalogo pages f (some c) limite perfiles
      ])
