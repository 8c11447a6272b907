-- ===== src/Events/Store.antt =====
-- src/modules/events/application/event.repository.ts, by the rows and operations of its in-memory
-- implementation (src/modules/events/infrastructure/event.repository.fake.ts). The rows of events
-- are complete: the values that the implementation supplies for unset columns are outside the model.
use wedding_planner_backend.Prelude.{
  ℕ, find?, map, modify_first, [], any, Option, ◌++◌, some, ◌==◌, filter, none, ◌&&◌, false, Bool,
  List, true, ◌∷◌,
}
use wedding_planner_backend.Events.Domain.{Event, EventStatus}

-- domain/event-access.ts
pub data EventRole : Type 0 where
  couple planner : EventRole

pub data MembershipStatus : Type 0 where
  invited active revoked : MembershipStatus

pub data ContratacionStatus : Type 0 where
  shortlisted booked cancelled : ContratacionStatus

pub record Membresia : Type 0 where
  pub id : ℕ
  pub event_id : ℕ
  pub user_id : ℕ
  pub role : EventRole
  pub status : MembershipStatus

pub record Perfil : Type 0 where
  pub id : ℕ
  pub user_id : ℕ

pub record EventVendor : Type 0 where
  pub id : ℕ
  pub event_id : ℕ
  pub vendor_profile_id : Option ℕ
  pub status : ContratacionStatus

pub record Auditoria : Type 0 where
  pub actor_user_id : ℕ
  pub event_id : ℕ
  pub target : ℕ

pub record Almacen : Type 0 where
  pub eventos : List Event
  pub membresias : List Membresia
  pub perfiles : List Perfil
  pub event_vendors : List EventVendor
  pub auditoria : List Auditoria

-- `=== MEMBRESIA_CON_ACCESO` and `=== CONTRATACION_CON_ACCESO`
abbrev pub membresia_con_acceso : MembershipStatus → Bool
membresia_con_acceso MembershipStatus.active = true
membresia_con_acceso _ = false

abbrev pub contratacion_con_acceso : ContratacionStatus → Bool
contratacion_con_acceso booked = true
contratacion_con_acceso _ = false

abbrev pub es_activo : EventStatus → Bool
es_activo EventStatus.active = true
es_activo EventStatus.draft = false

unfoldable pub buscar_por_id : ℕ → Almacen → Option Event
buscar_por_id event_id a = find? (λ e. e.id == event_id) a.eventos

-- An event that is not there counts as active.
unfoldable pub esta_activo : ℕ → Almacen → Bool
unfolding buscar_por_id
esta_activo event_id a = elim (buscar_por_id event_id a) [
  | none ↦ true
  | some e ↦ es_activo e.status
]

abbrev pub es_membresia_activa : ℕ → ℕ → Membresia → Bool
es_membresia_activa event_id user_id m =
    m.event_id == event_id && (m.user_id == user_id && membresia_con_acceso m.status)

unfoldable pub buscar_membresia_activa : ℕ → ℕ → Almacen → Option Membresia
buscar_membresia_activa event_id user_id a =
    find? (es_membresia_activa event_id user_id) a.membresias

-- `x === id` where `x` may be null.
abbrev pub es_id : Option ℕ → ℕ → Bool
es_id none id = false
es_id (some x) id = x == id

abbrev pub es_contratacion_de : ℕ → Almacen → EventVendor → Bool
es_contratacion_de perfil a v =
    es_id v.vendor_profile_id perfil
    && (contratacion_con_acceso v.status && esta_activo v.event_id a)

abbrev pub buscar_perfil : ℕ → Almacen → Option Perfil
buscar_perfil user_id a = find? (λ p. p.user_id == user_id) a.perfiles

unfoldable pub buscar_contratacion_reservada : ℕ → ℕ → Almacen → Option EventVendor
buscar_contratacion_reservada event_id user_id a = elim (buscar_perfil user_id a) [
  | none ↦ none
  | some p ↦ find? (λ v. v.event_id == event_id && es_contratacion_de p.id a v) a.event_vendors
]

-- The ids of the events to which the user has access, by membership and then by contract.
unfoldable pub ids_accesibles : ℕ → Almacen → List ℕ
ids_accesibles user_id a =
    map (λ m. m.event_id)
      (filter (λ m. m.user_id == user_id && membresia_con_acceso m.status) a.membresias)
    ++ (elim (buscar_perfil user_id a) [
      | none ↦ []
      | some p ↦ map (λ v. v.event_id) (filter (es_contratacion_de p.id a) a.event_vendors)
    ])

unfoldable pub listar_accesibles_por : ℕ → Almacen → List Event
unfolding ids_accesibles
listar_accesibles_por user_id a =
    filter (λ e. any (λ id. id == e.id) (ids_accesibles user_id a)) a.eventos

unfoldable pub buscar_membresia : ℕ → ℕ → Almacen → Option Membresia
buscar_membresia event_id user_id a =
    find? (λ m. m.event_id == event_id && m.user_id == user_id) a.membresias

pub record DatosInvitacion : Type 0 where
  pub event_id : ℕ
  pub user_id : ℕ
  pub role : EventRole
  pub invited_by_id : ℕ

-- `invitarMiembro`: an upsert, with the audit entry; `uuid` is the id of a new row.
unfoldable pub invitar_miembro : ℕ → DatosInvitacion → Almacen → Membresia × Almacen
invitar_miembro uuid datos a =
    let es_suya = λ (m : Membresia). m.event_id == datos.event_id && m.user_id == datos.user_id in
    let invitada = λ (m : Membresia). record m { role = datos.role; status = invited } in
    let nueva : Membresia = record {
      id = uuid;
      event_id = datos.event_id;
      user_id = datos.user_id;
      role = datos.role;
      status = invited;
    } in
    let auditoria =
      a.auditoria
      ++ record {
        actor_user_id = datos.invited_by_id;
        event_id = datos.event_id;
        target = datos.user_id;
      }
        ∷ [] in
    elim (find? es_suya a.membresias) [
      | none ↦ (nueva, record a { membresias = a.membresias ++ nueva ∷ []; auditoria = auditoria })
      | some m ↦ (
        invitada m,
        record a { membresias = modify_first es_suya invitada a.membresias; auditoria = auditoria },
      )
    ]
