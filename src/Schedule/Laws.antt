-- ===== src/Schedule/Laws.antt =====
-- What holds of the items of a schedule.
use wedding_planner_backend.Prelude.Rows.{All-map}
use wedding_planner_backend.Prelude.Pairs.{All-modify_first, All-remove_first}
use wedding_planner_backend.Schedule.{
  crear, aplicar, listar_por_evento, atender, atender_todas, Peticion, va_despues, Cronograma,
  es_item, ScheduleItemStatus, insertar_item, pide_editar, borrar_item, rango_valido, editar_item,
  CambiosItem, pide_borrar, DatosNuevoItem, con_estado_inicial, pide_crear, crear_item,
  ScheduleItem, ordenar_items,
}
use wedding_planner_backend.Prelude.{
  inl, modify_first, find?, inr, suc, get_or, Option, All-append, ◌++◌, if◌then◌else◌, Option-cases,
  ◌==◌, arith, true, count, ◌≡◌, ℕ, Bool, ◌∷◌, [], Bool-cases, false, All, filter, any,
  remove_first, List, refl,
}

-- No item ends before it starts.
abbrev pub ConRango : ScheduleItem → Type 0
ConRango i = rango_valido i.starts_at i.ends_at ≡ true

abbrev pub ConRangos : Cronograma → Type 0
ConRangos c = All ConRango c.items

crear_item-ConRangos :
    (uuid : ℕ) (estado : Option ScheduleItemStatus) (datos : DatosNuevoItem) (c : Cronograma)
    → ConRangos c
    → ConRangos (crear_item (λ k s. s) uuid estado datos c).1
unfolding crear_item wedding_planner_backend.Schedule.crear
crear_item-ConRangos uuid estado datos c h =
    elim (Bool-cases (rango_valido datos.starts_at datos.ends_at)) [
      | inl good ↦
          let i = (crear uuid (con_estado_inicial estado datos) c).0 in
          let more : All ConRango (c.items ++ i ∷ []) =
            All-append ConRango c.items (i ∷ []) h (good, tt) in
          grind (arith, good, more)
      | inr bad ↦ grind (arith, bad, h)
    ]

editar_item-ConRangos :
    (event_id item_id : ℕ) (cambios : CambiosItem) (c : Cronograma)
    → ConRangos c
    → ConRangos (editar_item (λ k s. s) event_id item_id cambios c).1
unfolding editar_item wedding_planner_backend.Schedule.actualizar
    wedding_planner_backend.Schedule.buscar_por_id
editar_item-ConRangos event_id item_id cambios c h =
    elim (Option-cases (find? (es_item event_id item_id) c.items)) [
      | inl missing ↦ grind (arith, missing, h)
      | inr (i, found) ↦
          elim (Bool-cases (
            rango_valido (get_or cambios.starts_at i.starts_at)
              (get_or cambios.ends_at i.ends_at))) [
                | inl good ↦
                    let kept : All ConRango (
                        modify_first (es_item event_id item_id) (aplicar c.reloj cambios) c.items) =
                      All-modify_first ConRango (es_item event_id item_id) (aplicar c.reloj cambios)
                        c.items i h found good in
                    grind (arith, found, good, kept)
                | inr bad ↦ grind (arith, found, bad, h)
              ]
    ]

borrar_item-ConRangos :
    (event_id item_id : ℕ) (c : Cronograma)
    → ConRangos c
    → ConRangos (borrar_item (λ k s. s) event_id item_id c).1
unfolding borrar_item wedding_planner_backend.Schedule.eliminar
borrar_item-ConRangos event_id item_id c h =
    let kept : All ConRango (remove_first (es_item event_id item_id) c.items) =
      All-remove_first ConRango (es_item event_id item_id) c.items h in
    elim (Bool-cases (any (es_item event_id item_id) c.items)) [
      | inl there ↦ grind (arith, there, kept)
      | inr gone ↦ grind (arith, gone, h)
    ]

atender-ConRangos : (p : Peticion) (c : Cronograma) → ConRangos c → ConRangos (atender p c)
unfolding atender
atender-ConRangos (pide_crear uuid estado datos) c h = crear_item-ConRangos uuid estado datos c h
atender-ConRangos (pide_editar event_id item_id cambios) c h =
    editar_item-ConRangos event_id item_id cambios c h
atender-ConRangos (pide_borrar event_id item_id) c h = borrar_item-ConRangos event_id item_id c h

-- Whatever creations, editions and deletions are served one after the other, no item of a schedule
-- ends before it starts, also where an edition changes only one of the two instants.
pub atender_todas-ConRangos :
    (ps : List Peticion) (c : Cronograma) → ConRangos c → ConRangos (atender_todas ps c)
unfolding atender_todas
atender_todas-ConRangos [] c h = h
atender_todas-ConRangos (p ∷ ps) c h =
    atender_todas-ConRangos ps (atender p c) (atender-ConRangos p c h)

-- No item stands before one that goes before it.
abbrev pub EnOrden : List ScheduleItem → Type 0
EnOrden [] = Unit
EnOrden (x ∷ xs) = All (λ y. va_despues x y ≡ false) xs × EnOrden xs

va_despues_trans :
    (x y z : ScheduleItem)
    → va_despues x y ≡ false
    → va_despues y z ≡ false
    → va_despues x z ≡ false
va_despues_trans x y z h k = ground arith

va_despues_asim : (x y : ScheduleItem) → va_despues x y ≡ true → va_despues y x ≡ false
va_despues_asim x y h = ground arith

All-insertar_item :
    (P : ScheduleItem → Type 0) (x : ScheduleItem) (ys : List ScheduleItem)
    → P x
    → All P ys
    → All P (insertar_item x ys)
All-insertar_item P x [] p h = (p, tt)
All-insertar_item P x (y ∷ ys) p h = ground (arith, All-insertar_item P x ys p h.1)

insertar_item-EnOrden :
    (x : ScheduleItem) (ys : List ScheduleItem) → EnOrden ys → EnOrden (insertar_item x ys)
insertar_item-EnOrden x [] h = (tt, tt)
insertar_item-EnOrden x (y ∷ ys) h = elim (Bool-cases (va_despues x y)) [
  | inl later ↦
      let rest : All (λ z. va_despues y z ≡ false) (insertar_item x ys) =
        All-insertar_item (λ z. va_despues y z ≡ false) x ys (va_despues_asim x y later) h.0 in
      grind (arith, later, rest, insertar_item-EnOrden x ys h.1)
  | inr first ↦
      let rest : All (λ z. va_despues x z ≡ false) ys =
        All-map (λ z. va_despues y z ≡ false) (λ z. va_despues x z ≡ false) ys
          (λ z k. va_despues_trans x y z first k) h.0 in
      grind (arith, first, rest, h)
]

ordenar_items-EnOrden : (xs : List ScheduleItem) → EnOrden (ordenar_items xs)
unfolding ordenar_items
ordenar_items-EnOrden [] = tt
ordenar_items-EnOrden (x ∷ xs) =
    insertar_item-EnOrden x (ordenar_items xs) (ordenar_items-EnOrden xs)

count-insertar_item :
    (p : ScheduleItem → Bool) (x : ScheduleItem) (ys : List ScheduleItem)
    → count p (insertar_item x ys) ≡ (if p x then suc (count p ys) else count p ys)
count-insertar_item p x [] = ground arith
count-insertar_item p x (y ∷ ys) = ground (arith, count-insertar_item p x ys)

count-ordenar_items :
    (p : ScheduleItem → Bool) (xs : List ScheduleItem) → count p (ordenar_items xs) ≡ count p xs
unfolding ordenar_items
count-ordenar_items p [] = refl
count-ordenar_items p (x ∷ xs) =
    ground (arith, count-insertar_item p x (ordenar_items xs), count-ordenar_items p xs)

-- The schedule of an event is listed in the order of the starts and then of the ids, and has as many
-- items of any kind as the event has.
pub listar_por_evento-EnOrden :
    (event_id : ℕ) (c : Cronograma) (p : ScheduleItem → Bool)
    → EnOrden (listar_por_evento event_id c)
      × (count p (listar_por_evento event_id c)
          ≡ count p (filter (λ i. i.event_id == event_id) c.items))
unfolding wedding_planner_backend.Schedule.listar_por_evento
listar_por_evento-EnOrden event_id c p = (
  ordenar_items-EnOrden (filter (λ i. i.event_id == event_id) c.items),
  count-ordenar_items p (filter (λ i. i.event_id == event_id) c.items),
)
