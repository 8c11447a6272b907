-- ===== src/Vendors/Contracts/UseCases.antt =====
-- The use cases over the vendors of an event: src/modules/vendors/application, add-, list-, remove-
-- and update-event-vendor.use-case.ts, and requests that are served one after the other.
use wedding_planner_backend.Vendors.Contracts.{
  Contratos, crear, actualizar, buscar_por_id, eliminar, listar_por_evento, CambiosEventVendor,
  EstadoDeFicha, EventVendorVista, buscar_perfil_publicado, tiene_gastos, es_fila,
  DatosCrearEventVendor,
}
use wedding_planner_backend.Prelude.{
  ◌++◌, [], Option, any, ℕ, modify_first, List, ◌∷◌, false, is_none, Bool, if◌then◌else◌,
}
use wedding_planner_backend.Vendors.Ref.{
  VendorRefError, parse_vendor_ref, external, VendorRef, linked, EntradaVendorRef,
}
use wedding_planner_backend.Shared.Text.{Text, text_eq}
use wedding_planner_backend.Prelude.Monad.{
  ok, ◌>>=◌, gets, ◌>>◌, modify, or_throw, throw_if, err, Action,
}
use wedding_planner_backend.Vendors.Profile.UseCases.{vista}

pub data VendorError : Type 0 where
  ref_rechazada : VendorRefError → VendorError
  vendor_profile_no_disponible event_vendor_no_encontrado proveedor_con_gastos : VendorError
  fila_inexistente : VendorError

abbrev pub VendorAction : Type 0 → Type 0
VendorAction A = Action Contratos VendorError A

pub record CrearEventVendor : Type 0 where
  pub entrada : EntradaVendorRef
  pub category : Text
  pub specialty : Option Text
  pub assigned_budget : Option Text
  pub actor_user_id : ℕ

-- A profile is asked for only where the reference is to one.
abbrev pub falta_perfil : VendorRef → Contratos → Bool
falta_perfil (linked v) s = is_none (buscar_perfil_publicado v s)
falta_perfil (external name email phone) s = false

abbrev pub datos_de : ℕ → CrearEventVendor → VendorRef → DatosCrearEventVendor
datos_de event_id datos vendor_ref = record {
  event_id = event_id;
  vendor_ref = vendor_ref;
  category = datos.category;
  specialty = datos.specialty;
  assigned_budget = datos.assigned_budget;
  actor_user_id = datos.actor_user_id;
}

-- `AddEventVendorUseCase.ejecutar`
unfoldable pub agregar_contrato : ℕ → ℕ → CrearEventVendor → VendorAction EventVendorVista
agregar_contrato uuid event_id datos s = elim (parse_vendor_ref datos.entrada) [
  | err e ↦ (err (ref_rechazada e), s)
  | ok vendor_ref ↦
      if falta_perfil vendor_ref s
      then (err vendor_profile_no_disponible, s)
      else let (vista, s') = crear uuid (datos_de event_id datos vendor_ref) s in (ok vista, s')
]

-- `ListEventVendorsUseCase.ejecutar`
unfoldable pub listar_contratos : ℕ → VendorAction (List EventVendorVista)
listar_contratos event_id = gets (listar_por_evento event_id)

-- `UpdateEventVendorUseCase.ejecutar`
unfoldable pub editar_contrato : ℕ → ℕ → CambiosEventVendor → ℕ → VendorAction EventVendorVista
editar_contrato event_id event_vendor_id cambios actor = do
  existente ← gets (buscar_por_id event_id event_vendor_id)
  or_throw existente event_vendor_no_encontrado
  escrita ← (λ s. let (v, s') = actualizar event_id event_vendor_id cambios actor s in (ok v, s'))
  or_throw escrita fila_inexistente

-- `RemoveEventVendorUseCase.ejecutar`
unfoldable pub quitar_contrato : ℕ → ℕ → ℕ → VendorAction (Unit {0})
quitar_contrato event_id event_vendor_id actor = do
  existente ← gets (buscar_por_id event_id event_vendor_id)
  or_throw existente event_vendor_no_encontrado
  con_gastos ← gets (tiene_gastos event_id event_vendor_id)
  throw_if con_gastos proveedor_con_gastos
  modify (eliminar event_id event_vendor_id actor)

-- What reaches the table: the three use cases that write, an expense that the expenses module records
-- for a vendor that it found in the event, and a marketplace that changes the state of its profiles.
pub data Peticion : Type 0 where
  pide_agregar : (uuid event_id : ℕ) → CrearEventVendor → Peticion
  pide_editar : (event_id event_vendor_id : ℕ) → CambiosEventVendor → ℕ → Peticion
  pide_quitar : (event_id event_vendor_id actor : ℕ) → Peticion
  anota_gasto : (event_id event_vendor_id : ℕ) → Peticion
  cambia_estado : Text → EstadoDeFicha → Peticion

unfoldable pub atender : Peticion → Contratos → Contratos
atender (pide_agregar uuid event_id datos) s = (agregar_contrato uuid event_id datos s).1
atender (pide_editar event_id event_vendor_id cambios actor) s =
    (editar_contrato event_id event_vendor_id cambios actor s).1
atender (pide_quitar event_id event_vendor_id actor) s =
    (quitar_contrato event_id event_vendor_id actor s).1
atender (anota_gasto event_id event_vendor_id) s =
    if any (es_fila event_id event_vendor_id) s.filas
    then record s {
      gastos = s.gastos ++ (record { event_id = event_id; event_vendor_id = event_vendor_id }) ∷ [];
    }
    else s
atender (cambia_estado id estado) s = record s {
  perfiles = modify_first (λ p. text_eq p.id id) (λ p. record p { status = estado }) s.perfiles;
}

unfoldable pub atender_todas : List Peticion → Contratos → Contratos
atender_todas [] s = s
atender_todas (p ∷ ps) s = atender_todas ps (atender p s)
