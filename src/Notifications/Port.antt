-- ===== src/Notifications/Port.antt =====
-- src/modules/notifications/application/notification.port.ts, by its in-memory implementation
-- (infrastructure/notification.port.fake.ts). The payload is opaque and serializable.
use wedding_planner_backend.Prelude.{ℕ, List, Bool, ◌++◌, false, if◌then◌else◌, map, true}
use wedding_planner_backend.Shared.Text.{Text}

pub record NotificacionCreada (P : Type 0) : Type 0 where
  pub event_id : ℕ
  pub user_id : ℕ
  pub tipo : Text
  pub payload : P

-- `miembros` gives the users with an active membership; `fallo_proximo` tells that the storage fails.
pub record Avisos (P : Type 0) : Type 0 where
  pub creadas : List (NotificacionCreada P)
  pub miembros : ℕ → List ℕ
  pub fallo_proximo : Bool

module _ {P : Type 0} where
  abbrev pub notificacion_de : ℕ → Text → P → ℕ → NotificacionCreada P
  notificacion_de event tipo dato u = record {
    event_id = event;
    user_id = u;
    tipo = tipo;
    payload = dato;
  }

  -- The answer tells whether it was written.
  unfoldable pub crear_para_miembros : ℕ → Text → P → Avisos P → Bool × Avisos P
  crear_para_miembros event tipo dato s =
      if s.fallo_proximo then (false, record s { fallo_proximo = false }) else (
        true,
        record s {
          creadas = s.creadas ++ map (notificacion_de event tipo dato) (s.miembros event);
        },
      )
