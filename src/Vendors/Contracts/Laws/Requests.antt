-- ===== src/Vendors/Contracts/Laws/Requests.antt =====
-- The other requests keep what holds of the vendors of an event.
use wedding_planner_backend.Vendors.Contracts.{
  Contratos, buscar_por_id, eliminar, aplicar, CambiosEventVendor, event_vendor_removed,
  PerfilEnMemoria, FilaEnMemoria, es_fila, nota, event_vendor_updated, GastoDeProveedor,
  EstadoDeFicha, tiene_gastos,
}
use wedding_planner_backend.Prelude.Pairs.{All-remove_first}
use wedding_planner_backend.Prelude.Rows.{
  All-map, any-modify_first, All-modify_any, any-remove_first,
}
use wedding_planner_backend.Vendors.Contracts.UseCases.{
  editar_contrato, quitar_contrato, atender, atender_todas, Peticion, cambia_estado, pide_quitar,
  anota_gasto, pide_agregar, pide_editar,
}
use wedding_planner_backend.Vendors.Contracts.Laws.{
  Integro, auditar-Integro, agregar-Integro, con_proveedor, con_alta, con_perfil, perfil_conocido,
}
use wedding_planner_backend.Prelude.{
  remove_first, Bool-cases, List, inl, true, false, find?, any, refl, ◌&&◌, ◌≡◌, Option-cases, ◌++◌,
  ◌∷◌, arith, All-append, modify_first, ◌∙◌, ℕ, All, ◌==◌, [], inr,
}
use wedding_planner_backend.Vendors.Ref.{VendorRef, external, linked}
use wedding_planner_backend.Shared.Text.{text_eq, Text}

-- A write through a row that is found keeps its ids and its reference.
pub editada-Integro :
    (event_id event_vendor_id : ℕ) (c : CambiosEventVendor) (s : Contratos)
    → Integro s
    → Integro
        (record s { filas = modify_first (es_fila event_id event_vendor_id) (aplicar c) s.filas })
editada-Integro event_id event_vendor_id c s i = record {
  gastos =
      All-map (λ g. con_proveedor s.filas g ≡ true)
        (λ g.
          con_proveedor (modify_first (es_fila event_id event_vendor_id) (aplicar c) s.filas) g
          ≡ true)
        s.gastos
        (λ g h.
          any-modify_first (es_fila g.event_id g.event_vendor_id) (es_fila event_id event_vendor_id)
            (aplicar c) s.filas (λ f. refl)
          ∙ h)
        i.gastos;
  altas =
      All-modify_any (λ f. con_alta s.auditoria f ≡ true) _ (aplicar c) s.filas (λ f h. h) i.altas;
  perfiles =
      All-modify_any (λ f. con_perfil s.perfiles f ≡ true) _ (aplicar c) s.filas (λ f h. h)
        i.perfiles;
}

pub editar-Integro :
    (event_id event_vendor_id : ℕ) (c : CambiosEventVendor) (actor : ℕ) (s : Contratos)
    → Integro s
    → Integro (editar_contrato event_id event_vendor_id c actor s).1
unfolding editar_contrato wedding_planner_backend.Vendors.Contracts.actualizar
    wedding_planner_backend.Vendors.Contracts.buscar_por_id
editar-Integro event_id event_vendor_id c actor s i =
    elim (Option-cases (find? (es_fila event_id event_vendor_id) s.filas)) [
      | inl missing ↦ grind (arith, i, missing)
      | inr (f, found) ↦ grind (
        arith,
        found,
        auditar-Integro (nota actor event_id event_vendor_updated event_vendor_id)
            (record s {
              filas = modify_first (es_fila event_id event_vendor_id) (aplicar c) s.filas;
            })
            (editada-Integro event_id event_vendor_id c s i),
      )
    ]

-- A row without expenses goes.
pub con_proveedor-remove :
    (event_id event_vendor_id : ℕ) (filas : List FilaEnMemoria) (gs : List GastoDeProveedor)
    → any (λ g. g.event_id == event_id && g.event_vendor_id == event_vendor_id) gs ≡ false
    → All (λ g. con_proveedor filas g ≡ true) gs
    → All (λ g. con_proveedor (remove_first (es_fila event_id event_vendor_id) filas) g ≡ true) gs
con_proveedor-remove event_id event_vendor_id filas [] h k = tt
con_proveedor-remove event_id event_vendor_id filas (g ∷ gs) h k = (
  any-remove_first (es_fila g.event_id g.event_vendor_id) (es_fila event_id event_vendor_id) filas
        (λ f. ground arith)
      ∙ k.0,
  con_proveedor-remove event_id event_vendor_id filas gs (ground arith) k.1,
)

pub eliminar-Integro :
    (event_id event_vendor_id actor : ℕ) (s : Contratos)
    → tiene_gastos event_id event_vendor_id s ≡ false
    → Integro s
    → Integro (eliminar event_id event_vendor_id actor s)
unfolding wedding_planner_backend.Vendors.Contracts.eliminar tiene_gastos
eliminar-Integro event_id event_vendor_id actor s h i =
    let menos : List FilaEnMemoria = remove_first (es_fila event_id event_vendor_id) s.filas in
    auditar-Integro (nota actor event_id event_vendor_removed event_vendor_id)
      (record s { filas = menos })
      (record {
        gastos = con_proveedor-remove event_id event_vendor_id s.filas s.gastos h i.gastos;
        altas = All-remove_first (λ f. con_alta s.auditoria f ≡ true) _ s.filas i.altas;
        perfiles = All-remove_first (λ f. con_perfil s.perfiles f ≡ true) _ s.filas i.perfiles;
      })

pub quitar-Integro :
    (event_id event_vendor_id actor : ℕ) (s : Contratos)
    → Integro s
    → Integro (quitar_contrato event_id event_vendor_id actor s).1
unfolding quitar_contrato
quitar-Integro event_id event_vendor_id actor s i =
    elim (Option-cases (buscar_por_id event_id event_vendor_id s)) [
      | inl missing ↦ grind (arith, i, missing)
      | inr (v, found) ↦ elim (Bool-cases (tiene_gastos event_id event_vendor_id s)) [
        | inl spent ↦ grind (arith, i, found, spent)
        | inr free ↦
            grind (arith, found, free, eliminar-Integro event_id event_vendor_id actor s free i)
      ]
    ]

pub perfil_conocido-modify :
    (id : Text) (estado : EstadoDeFicha) (ps : List PerfilEnMemoria) (r : VendorRef)
    → perfil_conocido ps r ≡ true
    → perfil_conocido (modify_first (λ p. text_eq p.id id) (λ p. record p { status = estado }) ps) r
      ≡ true
perfil_conocido-modify id estado ps (external n e p) h = refl
perfil_conocido-modify id estado ps (linked v) h =
    any-modify_first (λ p. text_eq p.id v) _ _ ps (λ p. refl) ∙ h

pub atender-Integro : (p : Peticion) (s : Contratos) → Integro s → Integro (atender p s)
unfolding atender
atender-Integro (pide_agregar uuid event_id datos) s i = agregar-Integro uuid event_id datos s i
atender-Integro (pide_editar event_id v c actor) s i = editar-Integro event_id v c actor s i
atender-Integro (pide_quitar event_id v actor) s i = quitar-Integro event_id v actor s i
atender-Integro (anota_gasto event_id v) s i =
    elim (Bool-cases (any (es_fila event_id v) s.filas)) [
      | inl there ↦
          let mas : Integro (record s {
            gastos = s.gastos ++ (record { event_id = event_id; event_vendor_id = v }) ∷ [];
          }) =
            record {
              gastos =
                  All-append (λ g. con_proveedor s.filas g ≡ true) s.gastos _ i.gastos (there, tt);
              altas = i.altas;
              perfiles = i.perfiles;
            } in
          grind (arith, there, mas)
      | inr gone ↦ grind (arith, gone, i)
    ]
atender-Integro (cambia_estado id estado) s i = record {
  gastos = i.gastos;
  altas = i.altas;
  perfiles =
      All-map (λ f. con_perfil s.perfiles f ≡ true) _ s.filas
        (λ f h. perfil_conocido-modify id estado s.perfiles f.vendor_ref h) i.perfiles;
}

-- Whatever requests are served one after the other, every expense that is recorded for a vendor of
-- an event has its vendor among the event's, every vendor has the entry of its addition in the audit
-- trail, and every linked vendor has its profile in the marketplace.
pub atender_todas-Integro :
    (ps : List Peticion) (s : Contratos) → Integro s → Integro (atender_todas ps s)
unfolding atender_todas
atender_todas-Integro [] s i = i
atender_todas-Integro (p ∷ ps) s i = atender_todas-Integro ps (atender p s) (atender-Integro p s i)
