-- ===== src/Events/UseCases.antt =====
-- src/modules/events/application: publish-event, update-event and create-event. `entorno k` is what
-- other requests do before the k-th awaited call takes effect.
pub mod Publication
pub mod Creation
pub mod Invite
pub mod InviteLaws
use wedding_planner_backend.Prelude.{
  ℕ, ◌∷◌, any, List, ◌++◌, is_none, get_or, ◌&&◌, some, Option, modify_first, none, Bool, ◌||◌,
  if◌then◌else◌, ◌==◌, [], not, filter,
}
use wedding_planner_backend.Shared.Text.{Text, codes, is_empty}
use wedding_planner_backend.Events.Domain.{
  Event, total_budget, campos_faltantes_para_publicar, publicables, dias_de_cierre_por_defecto,
  EventStatus, wedding_date, timezone, venue, Ubicacion, name, active, CampoPublicable, currency,
  draft,
}
use wedding_planner_backend.Events.Store.{
  Almacen, buscar_por_id, MembershipStatus, es_activo, Membresia, couple,
}
use wedding_planner_backend.Prelude.Monad.{
  err, modify, or_throw, on_null, throw_if, choose, ◌>>=◌, pure, ◌>>◌, ok, Action, throw,
}

-- domain/event-errors.ts
pub data EventError : Type 0 where
  evento_no_encontrado invitado_sin_cuenta ya_es_miembro : EventError
  evento_incompleto : List CampoPublicable → EventError

abbrev pub EventAction : Type 0 → Type 0
EventAction A = Action Almacen EventError A

-- The repository's conditional write, DRAFT to ACTIVE.
unfoldable pub publicar_si_completo : ℕ → Almacen → Option Event × Almacen
publicar_si_completo event_id a =
    let publicado = λ (e : Event). record e { status = active } in
    elim (buscar_por_id event_id a) [
      | none ↦ (none, a)
      | some e ↦
          if es_activo e.status
            || (is_none e.wedding_date || (is_none e.total_budget || is_none e.venue))
          then (none, a)
          else (
            some (publicado e),
            record a { eventos = modify_first (λ r. r.id == event_id) publicado a.eventos },
          )
    ]

-- `undefined` is the outer `none` of a field.
pub record CambiosEvento : Type 0 where
  pub name : Option Text
  pub status : Option EventStatus
  pub wedding_date : Option (Option ℕ)
  pub timezone : Option Text
  pub currency : Option Text
  pub total_budget : Option (Option Text)
  pub venue : Option (Option Ubicacion)

abbrev pub aplicar : CambiosEvento → Event → Event
aplicar c e = record e {
  name = get_or c.name e.name;
  status = get_or c.status e.status;
  wedding_date = get_or c.wedding_date e.wedding_date;
  timezone = get_or c.timezone e.timezone;
  currency = get_or c.currency e.currency;
  total_budget = get_or c.total_budget e.total_budget;
  venue = get_or c.venue e.venue;
}

-- The repository's `actualizar`.
unfoldable pub actualizar : ℕ → CambiosEvento → EventAction Event
actualizar event_id cambios a = elim (buscar_por_id event_id a) [
  | none ↦ (err evento_no_encontrado, a)
  | some e ↦ (
    ok (aplicar cambios e),
    record a { eventos = modify_first (λ r. r.id == event_id) (aplicar cambios) a.eventos },
  )
]

-- The fields are compared as the texts that they are in the source.
abbrev pub numero_de : CampoPublicable → ℕ
numero_de CampoPublicable.name = 0
numero_de CampoPublicable.wedding_date = 1
numero_de CampoPublicable.timezone = 2
numero_de CampoPublicable.currency = 3
numero_de CampoPublicable.total_budget = 4
numero_de CampoPublicable.venue = 5

abbrev pub campo_eq : CampoPublicable → CampoPublicable → Bool
campo_eq c d = numero_de c == numero_de d

-- The fields that an event has now and would lack after the change.
unfoldable pub nuevos_faltantes : Event → CambiosEvento → List CampoPublicable
nuevos_faltantes actual cambios =
    let antes = campos_faltantes_para_publicar (publicables actual) in
    filter (λ campo. not (any (campo_eq campo) antes))
      (campos_faltantes_para_publicar (publicables (aplicar cambios actual)))

module _ (entorno : ℕ → Almacen → Almacen) where
  abbrev pub esperar : ℕ → EventAction (Unit {0})
  esperar k = modify (entorno k)

  abbrev pub leer : ℕ → EventAction Event
  leer event_id a = or_throw (buscar_por_id event_id a) evento_no_encontrado a

  -- The second reading, after the conditional write found nothing to write.
  unfoldable pub releer : ℕ → EventAction Event
  releer event_id = do
    esperar 2
    e ← leer event_id
    choose (es_activo e.status) (pure e)
        (throw (evento_incompleto (campos_faltantes_para_publicar (publicables e))))

  unfoldable pub publicar_borrador : ℕ → Event → EventAction Event
  publicar_borrador event_id actual = do
    throw_if (not (is_empty (campos_faltantes_para_publicar (publicables actual))))
        (evento_incompleto (campos_faltantes_para_publicar (publicables actual)))
    esperar 1
    publicado ← (λ a. let (p, a') = publicar_si_completo event_id a in (ok p, a'))
    on_null publicado (releer event_id) (λ e. pure e)

  -- `PublishEventUseCase.ejecutar`
  unfoldable pub publicar : ℕ → EventAction Event
  publicar event_id = do
    esperar 0
    actual ← leer event_id
    choose (es_activo actual.status) (pure actual) (publicar_borrador event_id actual)

  -- `UpdateEventUseCase.ejecutar`
  unfoldable pub editar : ℕ → CambiosEvento → EventAction Event
  editar event_id cambios = do
    esperar 0
    actual ← leer event_id
    throw_if (es_activo actual.status && not (is_empty (nuevos_faltantes actual cambios)))
        (evento_incompleto (nuevos_faltantes actual cambios))
    esperar 1
    actualizar event_id cambios

pub record DatosNuevoEvento : Type 0 where
  pub name : Text
  pub owner_id : ℕ
  pub rsvp_deadline_days : Option ℕ
  pub wedding_date : Option ℕ
  pub timezone : Option Text
  pub currency : Option Text
  pub total_budget : Option Text
  pub venue : Option Ubicacion

-- `crearConMembresia`: the event and its creator's membership, in one transaction; the ids and the
-- instant are what `randomUUID()` and `new Date()` give.
unfoldable pub crear_con_membresia : ℕ → ℕ → ℕ → DatosNuevoEvento → Almacen → Event × Almacen
crear_con_membresia event_uuid member_uuid ahora datos a =
    let evento : Event = record {
      id = event_uuid;
      name = datos.name;
      status = draft;
      wedding_date = datos.wedding_date;
      timezone = get_or datos.timezone (codes "UTC");
      currency = get_or datos.currency (codes "USD");
      total_budget = datos.total_budget;
      venue = datos.venue;
      rsvp_deadline_days = get_or datos.rsvp_deadline_days dias_de_cierre_por_defecto;
      owner_id = datos.owner_id;
      conteos = record { schedule_items = 0; vendors = 0 };
      created_at = ahora;
    } in
    let membresia : Membresia = record {
      id = member_uuid;
      event_id = event_uuid;
      user_id = datos.owner_id;
      role = couple;
      status = MembershipStatus.active;
    } in
    (
      evento,
      record a { eventos = a.eventos ++ evento ∷ []; membresias = a.membresias ++ membresia ∷ [] },
    )
