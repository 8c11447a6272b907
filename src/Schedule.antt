-- ===== src/Schedule.antt =====
-- src/modules/schedule: the items of the schedule of an event: schedule-item.ts, the in-memory
-- repository and the use cases over it. `entorno k` is what other requests do before the k-th
-- awaited call takes effect.
pub mod Laws
mod Tests
use wedding_planner_backend.Prelude.{
  ℕ, Bool, ◌++◌, if◌then◌else◌, remove_first, none, ◌&&◌, List, not, [], true, modify_first, find?,
  any, ◌==◌, ◌||◌, ltb, some, false, get_or, ◌∷◌, Option, filter,
}
use wedding_planner_backend.Events.Domain.{Ubicacion}
use wedding_planner_backend.Shared.Text.{Text}
use wedding_planner_backend.Prelude.Monad.{
  ok, ◌>>◌, modify, gets, or_throw, ◌>>=◌, throw_if, Action,
}
use wedding_planner_backend.Prelude.Int.{ltb_ℤ, ℤ}

pub data ScheduleItemStatus : Type 0 where
  pendiente en_curso hecho : ScheduleItemStatus

pub record ScheduleItem : Type 0 where
  pub id : ℕ
  pub event_id : ℕ
  pub title : Text
  pub description : Option Text
  pub starts_at : ℤ
  pub ends_at : Option ℤ
  pub location : Option Ubicacion
  pub status : ScheduleItemStatus
  pub created_at : ℕ
  pub updated_at : ℕ

unfoldable pub rango_valido : ℤ → Option ℤ → Bool
rango_valido starts_at none = true
rango_valido starts_at (some e) = not (ltb_ℤ e starts_at)

pub data ScheduleError : Type 0 where
  item_no_encontrado rango_invalido : ScheduleError

pub record DatosNuevoItem : Type 0 where
  pub event_id : ℕ
  pub title : Text
  pub description : Option Text
  pub starts_at : ℤ
  pub ends_at : Option ℤ
  pub location : Option Ubicacion
  pub status : ScheduleItemStatus

-- `undefined` is the outer `none` of a field.
pub record CambiosItem : Type 0 where
  pub title : Option Text
  pub description : Option (Option Text)
  pub starts_at : Option ℤ
  pub ends_at : Option (Option ℤ)
  pub location : Option (Option Ubicacion)
  pub status : Option ScheduleItemStatus

pub record Cronograma : Type 0 where
  pub items : List ScheduleItem
  pub reloj : ℕ

-- `startsAt` and then the id, ascending.
abbrev pub va_despues : ScheduleItem → ScheduleItem → Bool
va_despues a b =
    ltb_ℤ b.starts_at a.starts_at || (not (ltb_ℤ a.starts_at b.starts_at) && ltb b.id a.id)

abbrev pub insertar_item : ScheduleItem → List ScheduleItem → List ScheduleItem
insertar_item x [] = x ∷ []
insertar_item x (y ∷ ys) =
    let resto = insertar_item x ys in if va_despues x y then y ∷ resto else x ∷ y ∷ ys

unfoldable pub ordenar_items : List ScheduleItem → List ScheduleItem
ordenar_items [] = []
ordenar_items (x ∷ xs) = insertar_item x (ordenar_items xs)

unfoldable pub listar_por_evento : ℕ → Cronograma → List ScheduleItem
listar_por_evento event_id c = ordenar_items (filter (λ i. i.event_id == event_id) c.items)

abbrev pub es_item : ℕ → ℕ → ScheduleItem → Bool
es_item event_id item_id i = i.id == item_id && i.event_id == event_id

unfoldable pub buscar_por_id : ℕ → ℕ → Cronograma → Option ScheduleItem
buscar_por_id event_id item_id c = find? (es_item event_id item_id) c.items

unfoldable pub crear : ℕ → DatosNuevoItem → Cronograma → ScheduleItem × Cronograma
crear uuid datos c =
    let item : ScheduleItem = record {
      id = uuid;
      event_id = datos.event_id;
      title = datos.title;
      description = datos.description;
      starts_at = datos.starts_at;
      ends_at = datos.ends_at;
      location = datos.location;
      status = datos.status;
      created_at = c.reloj;
      updated_at = c.reloj;
    } in
    (item, record c { items = c.items ++ item ∷ [] })

abbrev pub aplicar : ℕ → CambiosItem → ScheduleItem → ScheduleItem
aplicar ahora cambios i = record i {
  title = get_or cambios.title i.title;
  description = get_or cambios.description i.description;
  starts_at = get_or cambios.starts_at i.starts_at;
  ends_at = get_or cambios.ends_at i.ends_at;
  location = get_or cambios.location i.location;
  status = get_or cambios.status i.status;
  updated_at = ahora;
}

-- `none` is the rejection with `ItemDeCronogramaNoEncontradoError`.
unfoldable pub actualizar : ℕ → ℕ → CambiosItem → Cronograma → Option ScheduleItem × Cronograma
actualizar event_id item_id cambios c = elim (find? (es_item event_id item_id) c.items) [
  | none ↦ (none, c)
  | some i ↦ (
    some (aplicar c.reloj cambios i),
    record c { items = modify_first (es_item event_id item_id) (aplicar c.reloj cambios) c.items },
  )
]

unfoldable pub eliminar : ℕ → ℕ → Cronograma → Bool × Cronograma
eliminar event_id item_id c =
    if any (es_item event_id item_id) c.items
    then (true, record c { items = remove_first (es_item event_id item_id) c.items })
    else (false, c)

abbrev pub ScheduleAction : Type 0 → Type 0
ScheduleAction A = Action Cronograma ScheduleError A

abbrev pub con_estado_inicial : Option ScheduleItemStatus → DatosNuevoItem → DatosNuevoItem
con_estado_inicial estado datos = record datos { status = get_or estado pendiente }

module _ (entorno : ℕ → Cronograma → Cronograma) where
  abbrev pub esperar : ℕ → ScheduleAction (Unit {0})
  esperar k = modify (entorno k)

  -- `CreateScheduleItemUseCase.ejecutar`; the `status` of `datos` is not read.
  unfoldable pub crear_item :
      ℕ → Option ScheduleItemStatus → DatosNuevoItem → ScheduleAction ScheduleItem
  crear_item uuid estado datos = do
    throw_if (not (rango_valido datos.starts_at datos.ends_at)) rango_invalido
    esperar 0
    λ c. let (i, c') = crear uuid (con_estado_inicial estado datos) c in (ok i, c')

  -- `ListScheduleItemsUseCase.ejecutar`
  unfoldable pub listar_items : ℕ → ScheduleAction (List ScheduleItem)
  listar_items event_id = do esperar 0; gets (listar_por_evento event_id)

  -- `UpdateScheduleItemUseCase.ejecutar`
  unfoldable pub editar_item : ℕ → ℕ → CambiosItem → ScheduleAction ScheduleItem
  editar_item event_id item_id cambios = do
    esperar 0
    encontrado ← gets (buscar_por_id event_id item_id)
    actual ← or_throw encontrado item_no_encontrado
    throw_if
        (not (
          rango_valido (get_or cambios.starts_at actual.starts_at)
            (get_or cambios.ends_at actual.ends_at)))
        rango_invalido
    esperar 1
    escrito ← (λ c. let (i, c') = actualizar event_id item_id cambios c in (ok i, c'))
    or_throw escrito item_no_encontrado

  -- `DeleteScheduleItemUseCase.ejecutar`
  unfoldable pub borrar_item : ℕ → ℕ → ScheduleAction (Unit {0})
  borrar_item event_id item_id = do
    esperar 0
    habia ← (λ c. let (b, c') = eliminar event_id item_id c in (ok b, c'))
    throw_if (not habia) item_no_encontrado

-- Requests of one client after the other, each served to its end.
pub data Peticion : Type 0 where
  pide_crear : ℕ → Option ScheduleItemStatus → DatosNuevoItem → Peticion
  pide_editar : ℕ → ℕ → CambiosItem → Peticion
  pide_borrar : ℕ → ℕ → Peticion

unfoldable pub atender : Peticion → Cronograma → Cronograma
atender (pide_crear uuid estado datos) c = (crear_item (λ k s. s) uuid estado datos c).1
atender (pide_editar event_id item_id cambios) c =
    (editar_item (λ k s. s) event_id item_id cambios c).1
atender (pide_borrar event_id item_id) c = (borrar_item (λ k s. s) event_id item_id c).1

unfoldable pub atender_todas : List Peticion → Cronograma → Cronograma
atender_todas [] c = c
atender_todas (p ∷ ps) c = atender_todas ps (atender p c)
