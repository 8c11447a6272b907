-- ===== src/Vendors/Contracts/Laws/Trail.antt =====
-- What the use cases answer, and what they leave in the audit trail.
use wedding_planner_backend.Vendors.Contracts.{
  Contratos, buscar_por_id, CambiosEventVendor, event_vendor_removed, es_fila, nota,
  event_vendor_updated, event_vendor_added, AuditoriaDeProveedor, tiene_gastos, eliminar, aplicar,
  crear, auditar, a_event_vendor_vista,
}
use wedding_planner_backend.Vendors.Contracts.UseCases.{
  agregar_contrato, editar_contrato, quitar_contrato, VendorError, vendor_profile_no_disponible,
  falta_perfil, CrearEventVendor, ref_rechazada, proveedor_con_gastos, event_vendor_no_encontrado,
  datos_de,
}
use wedding_planner_backend.Prelude.{
  Bool-cases, inl, find?, refl, ◌≡◌, Option-cases, ◌++◌, ◌∷◌, ℕ, [], inr, modify_first, arith,
}
use wedding_planner_backend.Vendors.Ref.{parse_vendor_ref}
use wedding_planner_backend.Prelude.Monad.{Result-cases, err, ok, Result}

-- A use case that answers leaves this one entry more; one that refuses leaves all as it was.
pub data Deja {A : Type 0} (a : AuditoriaDeProveedor) (s : Contratos)
    : Result VendorError A × Contratos → Type 0 where
  hecho :
      (v : A) (s' : Contratos)
      → s'.auditoria ≡ s.auditoria ++ a ∷ []
      → s'.gastos ≡ s.gastos
      → s'.perfiles ≡ s.perfiles
      → Deja a s (ok v, s')
  negado : (e : VendorError) → Deja a s (err e, s)

agregar-Deja :
    (s : Contratos) (event_id v : ℕ) (datos : CrearEventVendor)
    → Deja
        (nota datos.actor_user_id event_id event_vendor_added v)
        s
        (agregar_contrato v event_id datos s)
unfolding agregar_contrato wedding_planner_backend.Vendors.Contracts.crear
agregar-Deja s event_id v datos = elim (Result-cases (parse_vendor_ref datos.entrada)) [
  | inl (r, e) ↦ elim (Bool-cases (falta_perfil r s)) [
    | inl missing ↦
        let q : agregar_contrato v event_id datos s ≡ (err (vendor_profile_no_disponible), s) =
          grind (arith, e, missing) in
        rw q (negado (vendor_profile_no_disponible))
    | inr known ↦
        let p = crear v (datos_de event_id datos r) s in
        let q : agregar_contrato v event_id datos s ≡ (ok p.0, p.1) = grind (arith, e, known) in
        rw q (hecho p.0 p.1 refl refl refl)
  ]
  | inr (x, e) ↦
      let q : agregar_contrato v event_id datos s ≡ (err (ref_rechazada x), s) = grind (arith, e) in
      rw q (negado (ref_rechazada x))
]

editar-Deja :
    (s : Contratos) (event_id v actor : ℕ) (c : CambiosEventVendor)
    → Deja (nota actor event_id event_vendor_updated v) s (editar_contrato event_id v c actor s)
unfolding editar_contrato wedding_planner_backend.Vendors.Contracts.actualizar
    wedding_planner_backend.Vendors.Contracts.buscar_por_id
editar-Deja s event_id v actor c = elim (Option-cases (find? (es_fila event_id v) s.filas)) [
  | inl missing ↦
      let q : editar_contrato event_id v c actor s ≡ (err (event_vendor_no_encontrado), s) =
        grind (arith, missing) in
      rw q (negado (event_vendor_no_encontrado))
  | inr (f, found) ↦
      let s' =
        auditar (nota actor event_id event_vendor_updated v)
          (record s { filas = modify_first (es_fila event_id v) (aplicar c) s.filas }) in
      let q : editar_contrato event_id v c actor s
          ≡ (ok (a_event_vendor_vista s (aplicar c f)), s') =
        grind (arith, found) in
      rw q (hecho (a_event_vendor_vista s (aplicar c f)) s' refl refl refl)
]

quitar-Deja :
    (s : Contratos) (event_id v actor : ℕ)
    → Deja (nota actor event_id event_vendor_removed v) s (quitar_contrato event_id v actor s)
unfolding quitar_contrato wedding_planner_backend.Vendors.Contracts.eliminar
quitar-Deja s event_id v actor = elim (Option-cases (buscar_por_id event_id v s)) [
  | inl missing ↦
      let q : quitar_contrato event_id v actor s ≡ (err (event_vendor_no_encontrado), s) =
        grind (arith, missing) in
      rw q (negado (event_vendor_no_encontrado))
  | inr (f, found) ↦ elim (Bool-cases (tiene_gastos event_id v s)) [
    | inl spent ↦
        let q : quitar_contrato event_id v actor s ≡ (err (proveedor_con_gastos), s) =
          grind (arith, found, spent) in
        rw q (negado (proveedor_con_gastos))
    | inr free ↦
        let q : quitar_contrato event_id v actor s ≡ (ok tt, eliminar event_id v actor s) =
          grind (arith, found, free) in
        rw q (hecho tt (eliminar event_id v actor s) refl refl refl)
  ]
]

-- An addition, an edition and a removal of a vendor leave exactly one entry in the audit trail, with
-- who asked, the event and the vendor, where they answer, and change nothing where they refuse.
pub casos_Deja :
    (s : Contratos) (event_id v actor : ℕ)
    → ((datos : CrearEventVendor)
        → Deja
            (nota datos.actor_user_id event_id event_vendor_added v)
            s
            (agregar_contrato v event_id datos s))
      × ((c : CambiosEventVendor)
          → Deja
              (nota actor event_id event_vendor_updated v)
              s
              (editar_contrato event_id v c actor s))
      × Deja (nota actor event_id event_vendor_removed v) s (quitar_contrato event_id v actor s)
casos_Deja s event_id v actor = (
  λ datos. agregar-Deja s event_id v datos,
  λ c. editar-Deja s event_id v actor c,
  quitar-Deja s event_id v actor,
)
