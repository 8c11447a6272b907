-- ===== src/Vendors/Contracts.antt =====
-- The vendors that an event has contracted: event-vendor.repository.fake.ts of src/modules/vendors and
-- the use cases over it.
pub mod UseCases
pub mod Laws
use wedding_planner_backend.Prelude.{
  ℕ, Bool, some, ◌++◌, find?, [], none, Option, get_or, ◌&&◌, any, map, modify_first, ◌==◌, true,
  List, ◌∷◌, filter, false, remove_first,
}
use wedding_planner_backend.Vendors.Ref.{external, VendorRef, linked}
use wedding_planner_backend.Shared.Text.{Text, text_eq}

pub data EventVendorStatus : Type 0 where
  shortlisted booked cancelled : EventVendorStatus

pub data EstadoDeFicha : Type 0 where
  draft published suspended : EstadoDeFicha

pub record PerfilEnMemoria : Type 0 where
  pub id : Text
  pub status : EstadoDeFicha
  pub business_name : Option Text

pub record FilaEnMemoria : Type 0 where
  pub id : ℕ
  pub event_id : ℕ
  pub vendor_ref : VendorRef
  pub category : Text
  pub specialty : Option Text
  pub assigned_budget : Option Text
  pub status : EventVendorStatus
  pub created_at : ℕ
  pub updated_at : ℕ

pub record EventVendorVista : Type 0 where
  pub fila : FilaEnMemoria
  pub name : Text

pub data AccionAuditada : Type 0 where
  event_vendor_added event_vendor_updated event_vendor_removed : AccionAuditada

pub record AuditoriaDeProveedor : Type 0 where
  pub actor_user_id : ℕ
  pub event_id : ℕ
  pub action : AccionAuditada
  pub target : ℕ

pub record GastoDeProveedor : Type 0 where
  pub event_id : ℕ
  pub event_vendor_id : ℕ

pub record Contratos : Type 0 where
  pub filas : List FilaEnMemoria
  pub perfiles : List PerfilEnMemoria
  pub auditoria : List AuditoriaDeProveedor
  pub gastos : List GastoDeProveedor

abbrev pub es_publicado : EstadoDeFicha → Bool
es_publicado published = true
es_publicado _ = false

unfoldable pub buscar_perfil_publicado : Text → Contratos → Option Text
buscar_perfil_publicado vendor_profile_id s =
    elim (find? (λ p. text_eq p.id vendor_profile_id && es_publicado p.status) s.perfiles) [
      | none ↦ none
      | some p ↦ some p.id
    ]

abbrev pub nombre_de : VendorRef → List PerfilEnMemoria → Text
nombre_de (linked v) perfiles = elim (find? (λ p. text_eq p.id v) perfiles) [
  | none ↦ []
  | some p ↦ get_or p.business_name []
]
nombre_de (external name email phone) perfiles = name

abbrev pub a_event_vendor_vista : Contratos → FilaEnMemoria → EventVendorVista
a_event_vendor_vista s fila = record { fila = fila; name = nombre_de fila.vendor_ref s.perfiles }

abbrev pub auditar : AuditoriaDeProveedor → Contratos → Contratos
auditar a s = record s { auditoria = s.auditoria ++ a ∷ [] }

pub record DatosCrearEventVendor : Type 0 where
  pub event_id : ℕ
  pub vendor_ref : VendorRef
  pub category : Text
  pub specialty : Option Text
  pub assigned_budget : Option Text
  pub actor_user_id : ℕ

-- The instants that the repository writes are its two constants, here 0 and 1.
abbrev pub fila_nueva : ℕ → DatosCrearEventVendor → FilaEnMemoria
fila_nueva uuid datos = record {
  id = uuid;
  event_id = datos.event_id;
  vendor_ref = datos.vendor_ref;
  category = datos.category;
  specialty = datos.specialty;
  assigned_budget = datos.assigned_budget;
  status = shortlisted;
  created_at = 0;
  updated_at = 0;
}

abbrev pub nota : ℕ → ℕ → AccionAuditada → ℕ → AuditoriaDeProveedor
nota actor event_id action target = record {
  actor_user_id = actor;
  event_id = event_id;
  action = action;
  target = target;
}

unfoldable pub crear : ℕ → DatosCrearEventVendor → Contratos → EventVendorVista × Contratos
crear uuid datos s =
    let fila = fila_nueva uuid datos in
    (
      a_event_vendor_vista s fila,
      auditar (nota datos.actor_user_id datos.event_id event_vendor_added uuid)
          (record s { filas = s.filas ++ fila ∷ [] }),
    )

unfoldable pub listar_por_evento : ℕ → Contratos → List EventVendorVista
listar_por_evento event_id s =
    map (a_event_vendor_vista s) (filter (λ f. f.event_id == event_id) s.filas)

abbrev pub es_fila : ℕ → ℕ → FilaEnMemoria → Bool
es_fila event_id event_vendor_id f = f.id == event_vendor_id && f.event_id == event_id

unfoldable pub buscar_por_id : ℕ → ℕ → Contratos → Option EventVendorVista
buscar_por_id event_id event_vendor_id s = elim (find? (es_fila event_id event_vendor_id) s.filas) [
  | none ↦ none
  | some f ↦ some (a_event_vendor_vista s f)
]

-- `undefined` is the outer `none` of a field.
pub record CambiosEventVendor : Type 0 where
  pub category : Option Text
  pub specialty : Option (Option Text)
  pub assigned_budget : Option (Option Text)
  pub status : Option EventVendorStatus

abbrev pub aplicar : CambiosEventVendor → FilaEnMemoria → FilaEnMemoria
aplicar c f = record f {
  category = get_or c.category f.category;
  specialty = get_or c.specialty f.specialty;
  assigned_budget = get_or c.assigned_budget f.assigned_budget;
  status = get_or c.status f.status;
  updated_at = 1;
}

-- `none` is the error that the repository throws for a row that is not there.
unfoldable pub actualizar :
    ℕ → ℕ → CambiosEventVendor → ℕ → Contratos → Option EventVendorVista × Contratos
actualizar event_id event_vendor_id cambios actor s =
    elim (find? (es_fila event_id event_vendor_id) s.filas) [
      | none ↦ (none, s)
      | some f ↦ (
        some (a_event_vendor_vista s (aplicar cambios f)),
        auditar (nota actor event_id event_vendor_updated event_vendor_id) (record s {
          filas = modify_first (es_fila event_id event_vendor_id) (aplicar cambios) s.filas;
        }),
      )
    ]

unfoldable pub eliminar : ℕ → ℕ → ℕ → Contratos → Contratos
eliminar event_id event_vendor_id actor s =
    auditar (nota actor event_id event_vendor_removed event_vendor_id)
      (record s { filas = remove_first (es_fila event_id event_vendor_id) s.filas })

unfoldable pub tiene_gastos : ℕ → ℕ → Contratos → Bool
tiene_gastos event_id event_vendor_id s =
    any (λ g. g.event_id == event_id && g.event_vendor_id == event_vendor_id) s.gastos
