-- ===== src/Vendors/Tests.antt =====
-- The vendors of an event at concrete inputs: event 1 has a vendor that is linked to the profile `p`
-- and has an expense.
mod Profiles
use wedding_planner_backend.Vendors.Ref.{
  columnas_de, parse_vendor_ref, parse_vendor_ref_iff, external, limpias, EntradaVendorRef, linked,
  origen_exclusivo,
}
use wedding_planner_backend.Prelude.{[], true, ◌∷◌, some, ◌≡◌, refl, none, ◌↔◌}
use wedding_planner_backend.Vendors.Contracts.{
  Contratos, FilaEnMemoria, shortlisted, published, nota, event_vendor_added,
}
use wedding_planner_backend.Vendors.Contracts.UseCases.{atender_todas, pide_quitar, anota_gasto}
use wedding_planner_backend.Vendors.Contracts.Laws.{Integro}
use wedding_planner_backend.Vendors.Contracts.Laws.Requests.{atender_todas-Integro}
use wedding_planner_backend.Shared.Text.{codes, text_eq}
use wedding_planner_backend.Prelude.Monad.{ok}

abbrev entrada : EntradaVendorRef
entrada = record {
  vendor_profile_id = none;
  external_name = some (codes " Ana ");
  external_email = some (codes " ");
  external_phone = none;
}

parse_vendor_ref_iff_example :
    ((parse_vendor_ref entrada ≡ ok (external (codes "Ana") none none))
      ↔ (columnas_de (external (codes "Ana") none none) ≡ limpias entrada))
    × (origen_exclusivo (columnas_de (external (codes "Ana") none none)) ≡ true)
parse_vendor_ref_iff_example = parse_vendor_ref_iff entrada (external (codes "Ana") none none)

abbrev fila : FilaEnMemoria
fila = record {
  id = 4;
  event_id = 1;
  vendor_ref = linked (codes "p");
  category = [];
  specialty = none;
  assigned_budget = none;
  status = shortlisted;
  created_at = 0;
  updated_at = 0;
}

abbrev contratos : Contratos
contratos = record {
  filas = fila ∷ [];
  perfiles = record { id = codes "p"; status = published; business_name = none } ∷ [];
  auditoria = nota 9 1 event_vendor_added 4 ∷ [];
  gastos = record { event_id = 1; event_vendor_id = 4 } ∷ [];
}

contratos-Integro : Integro contratos
unfolding text_eq
contratos-Integro = record { gastos = (refl, tt); altas = (refl, tt); perfiles = (refl, tt) }

atender_todas-Integro_example :
    Integro (atender_todas (pide_quitar 1 4 9 ∷ anota_gasto 1 4 ∷ []) contratos)
atender_todas-Integro_example =
    atender_todas-Integro (pide_quitar 1 4 9 ∷ anota_gasto 1 4 ∷ []) contratos contratos-Integro
