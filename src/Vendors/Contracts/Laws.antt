-- ===== src/Vendors/Contracts/Laws.antt =====
-- What holds of the vendors of an event, whatever requests are served.
pub mod Requests
pub mod Trail
use wedding_planner_backend.Vendors.Contracts.{
  Contratos, crear, AccionAuditada, auditar, es_fila, GastoDeProveedor, PerfilEnMemoria,
  event_vendor_added, AuditoriaDeProveedor, es_publicado, DatosCrearEventVendor, FilaEnMemoria,
  buscar_perfil_publicado, nota, fila_nueva,
}
use wedding_planner_backend.Prelude.Rows.{All-map, any-append_old, any-append_new}
use wedding_planner_backend.Vendors.Contracts.UseCases.{
  falta_perfil, agregar_contrato, datos_de, CrearEventVendor,
}
use wedding_planner_backend.Prelude.{
  ◌&&◌, ◌==◌, Bool, [], true, find?, All-append, ◌≡◌, arith, ◌++◌, All, refl, ◌∷◌, ℕ, List, any,
  false, inl, Bool-cases, inr, is_none,
}
use wedding_planner_backend.Vendors.Ref.{external, linked, VendorRef, parse_vendor_ref}
use wedding_planner_backend.Shared.Text.{text_eq, Text}
use wedding_planner_backend.Prelude.Monad.{Result-cases}

-- The vendor of an expense is still among the event's.
abbrev pub con_proveedor : List FilaEnMemoria → GastoDeProveedor → Bool
con_proveedor filas g = any (es_fila g.event_id g.event_vendor_id) filas

abbrev es_alta : AccionAuditada → Bool
es_alta event_vendor_added = true
es_alta _ = false

abbrev pub perfil_conocido : List PerfilEnMemoria → VendorRef → Bool
perfil_conocido perfiles (linked v) = any (λ p. text_eq p.id v) perfiles
perfil_conocido perfiles (external name email phone) = true

-- The trail says who added the row.
abbrev pub con_alta : List AuditoriaDeProveedor → FilaEnMemoria → Bool
con_alta auditoria f =
    any (λ a. es_alta a.action && (a.target == f.id && a.event_id == f.event_id)) auditoria

-- The profile that a row is linked to is in the marketplace.
abbrev pub con_perfil : List PerfilEnMemoria → FilaEnMemoria → Bool
con_perfil perfiles f = perfil_conocido perfiles f.vendor_ref

pub record Integro (s : Contratos) : Type 0 where
  pub gastos : All (λ g. con_proveedor s.filas g ≡ true) s.gastos
  pub altas : All (λ f. con_alta s.auditoria f ≡ true) s.filas
  pub perfiles : All (λ f. con_perfil s.perfiles f ≡ true) s.filas

abbrev es_alta_de : FilaEnMemoria → AuditoriaDeProveedor → Bool
es_alta_de f a = es_alta a.action && (a.target == f.id && a.event_id == f.event_id)

-- A row more in the trail.
pub auditar-Integro : (a : AuditoriaDeProveedor) (s : Contratos) → Integro s → Integro (auditar a s)
auditar-Integro a s i = record {
  gastos = i.gastos;
  altas =
      All-map (λ f. con_alta s.auditoria f ≡ true) (λ f. con_alta (s.auditoria ++ a ∷ []) f ≡ true)
        s.filas (λ f h. any-append_old (es_alta_de f) s.auditoria (a ∷ []) h) i.altas;
  perfiles = i.perfiles;
}

is_some-published :
    (v : Text) (ps : List PerfilEnMemoria)
    → is_none (find? (λ p. text_eq p.id v && es_publicado p.status) ps) ≡ false
    → any (λ p. text_eq p.id v) ps ≡ true
is_some-published v [] h = absurd cc
is_some-published v (p ∷ ps) h = ground (arith, is_some-published v ps)

falta_perfil-known :
    (r : VendorRef) (s : Contratos) → falta_perfil r s ≡ false → perfil_conocido s.perfiles r ≡ true
unfolding buscar_perfil_publicado
falta_perfil-known (external n e p) s h = refl
falta_perfil-known (linked v) s h = is_some-published v s.perfiles (grind (arith, h))

crear-Integro :
    (uuid : ℕ) (datos : DatosCrearEventVendor) (s : Contratos)
    → perfil_conocido s.perfiles datos.vendor_ref ≡ true
    → Integro s
    → Integro (crear uuid datos s).1
unfolding wedding_planner_backend.Vendors.Contracts.crear
crear-Integro uuid datos s known i =
    let fila = fila_nueva uuid datos in
    let a = nota datos.actor_user_id datos.event_id event_vendor_added uuid in
    record {
      gastos =
          All-map (λ g. con_proveedor s.filas g ≡ true)
            (λ g. con_proveedor (s.filas ++ fila ∷ []) g ≡ true) s.gastos
            (λ g h. any-append_old (es_fila g.event_id g.event_vendor_id) s.filas (fila ∷ []) h)
            i.gastos;
      altas =
          All-append (λ f. con_alta (s.auditoria ++ a ∷ []) f ≡ true) s.filas (fila ∷ [])
            (auditar-Integro a s i).altas
            (any-append_new (es_alta_de fila) s.auditoria a (ground arith), tt);
      perfiles =
          All-append (λ f. con_perfil s.perfiles f ≡ true) s.filas (fila ∷ []) i.perfiles
            (known, tt);
    }

pub agregar-Integro :
    (uuid event_id : ℕ) (datos : CrearEventVendor) (s : Contratos)
    → Integro s
    → Integro (agregar_contrato uuid event_id datos s).1
unfolding agregar_contrato
agregar-Integro uuid event_id datos s i = elim (Result-cases (parse_vendor_ref datos.entrada)) [
  | inl (r, e) ↦ elim (Bool-cases (falta_perfil r s)) [
    | inl missing ↦ grind (arith, i, e, missing)
    | inr known ↦ grind (
      arith,
      e,
      known,
      crear-Integro uuid (datos_de event_id datos r) s (falta_perfil-known r s known) i,
    )
  ]
  | inr (x, e) ↦ grind (arith, i, e)
]
