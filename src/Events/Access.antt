-- ===== src/Events/Access.antt =====
-- src/modules/events: application/event-access.service.ts, interfaces/event-access.guard.ts and the
-- access part of domain/event-access.ts.
pub mod Laws
use wedding_planner_backend.Prelude.{
  ℕ, none, any, Bool, true, List, false, Option, if◌then◌else◌, some,
}
use wedding_planner_backend.Prelude.Monad.{Result, ok, err}
use wedding_planner_backend.Shared.DomainError.{
  DomainError, not_found_error, forbidden_error, unauthorized_error,
}
use wedding_planner_backend.Users.{SystemRole}
use wedding_planner_backend.Events.Store.{
  Almacen, EventRole, Membresia, buscar_contratacion_reservada, couple, planner,
  buscar_membresia_activa, EventVendor,
}

pub data EventAccess : Type 0 where
  admin : EventAccess
  member : EventRole → EventAccess
  vendor : ℕ → EventAccess
  no_access : EventAccess

pub data PermisoDeEvento : Type 0 where
  rol : EventRole → PermisoDeEvento
  vendor_permiso : PermisoDeEvento

unfoldable pub tiene_algun_acceso : EventAccess → Bool
tiene_algun_acceso no_access = false
tiene_algun_acceso _ = true

unfoldable pub etiqueta_de : EventAccess → Option PermisoDeEvento
etiqueta_de EventAccess.admin = none
etiqueta_de (member r) = some (rol r)
etiqueta_de (vendor id) = some vendor_permiso
etiqueta_de no_access = none

abbrev pub acceso_de_usuario : Option Membresia → Option EventVendor → EventAccess
acceso_de_usuario (some m) contratacion = member m.role
acceso_de_usuario none (some v) = vendor v.id
acceso_de_usuario none none = no_access

-- `EventAccessService.resolve`
unfoldable pub resolve : ℕ → SystemRole → ℕ → Almacen → EventAccess
resolve user_id SystemRole.admin event_id a = EventAccess.admin
resolve user_id SystemRole.user event_id a =
    acceso_de_usuario (buscar_membresia_activa event_id user_id a)
      (buscar_contratacion_reservada event_id user_id a)

abbrev pub permiso_eq : PermisoDeEvento → PermisoDeEvento → Bool
permiso_eq (rol couple) (rol couple) = true
permiso_eq (rol planner) (rol planner) = true
permiso_eq vendor_permiso vendor_permiso = true
permiso_eq _ _ = false

-- What the guard throws: a domain error, or the plain `Error` of a route without the decorator.
pub data GuardError : Type 0 where
  requires_decorator : GuardError
  domain : DomainError → GuardError

pub record Usuario : Type 0 where
  pub id : ℕ
  pub system_role : SystemRole

abbrev pub permitido : Option PermisoDeEvento → List PermisoDeEvento → Bool
permitido none permitidos = false
permitido (some mio) permitidos = any (permiso_eq mio) permitidos

-- What the guard decides once the access is known.
abbrev pub decidir : List PermisoDeEvento → EventAccess → Result GuardError EventAccess
decidir permitidos no_access = err (domain not_found_error)
decidir permitidos EventAccess.admin = ok EventAccess.admin
decidir permitidos acceso =
    if permitido (etiqueta_de acceso) permitidos then ok acceso else err (domain forbidden_error)

-- `EventAccessGuard.canActivate`: the list of the decorator, the user of the token, and the route's
-- parameter. The answer is what it writes to `req.eventAccess`. `es_uuid` is the test of the format.
module _ (es_uuid : ℕ → Bool) where
  unfoldable pub can_activate :
      Option (List PermisoDeEvento)
      → Option Usuario
      → Option ℕ
      → Almacen
      → Result GuardError EventAccess
  unfolding etiqueta_de
  can_activate none usuario event_id a = err requires_decorator
  can_activate (some permitidos) none event_id a = err (domain unauthorized_error)
  can_activate (some permitidos) (some u) none a = err (domain not_found_error)
  can_activate (some permitidos) (some u) (some event_id) a =
      if es_uuid event_id
      then decidir permitidos (resolve u.id u.system_role event_id a)
      else err (domain not_found_error)
