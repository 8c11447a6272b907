-- ===== src/Notifications/Store.antt =====
-- src/modules/notifications: notification.repository.ts by its in-memory implementation
-- (infrastructure/notification.repository.fake.ts), and the use cases over it. The payload is opaque. The
-- real-time channel is a parameter: an emission changes its state and may fail.
use wedding_planner_backend.Prelude.{
  ℕ, List, Bool, Option, some, none, true, false, [], find?, filter, ◌∷◌, not, get_or, take, ◌==◌,
  if◌then◌else◌, length, map, ◌||◌, is_none, ◌&&◌, modify_first,
}
use wedding_planner_backend.Prelude.Monad.{throw_if, Action}
use wedding_planner_backend.Shared.Cursor.{CursorValue, CursorPage}
use wedding_planner_backend.Shared.Text.{codes, Text}
use wedding_planner_backend.Shared.Cursor.Pages.{siguiente, posterior_a}
use wedding_planner_backend.Shared.Cursor.Order.{ordenar_por, descendente}

pub data NotificationError : Type 0 where
  notificacion_no_encontrada : NotificationError

pub record Notificacion (P : Type 0) : Type 0 where
  pub id : ℕ
  pub tipo : Text
  pub payload : P
  pub read_at : Option ℕ
  pub created_at : ℕ

pub record NotificacionEnMemoria (P : Type 0) : Type 0 where
  pub vista : Notificacion P
  pub open vista use *
  pub event_id : ℕ
  pub user_id : ℕ

pub record OpcionesListado : Type 0 where
  pub desde : Option CursorValue
  pub limite : ℕ
  pub solo_no_leidas : Bool

pub record Buzon (P : Type 0) : Type 0 where
  pub filas : List (NotificacionEnMemoria P)
  pub miembros : ℕ → List ℕ

pub record PaginaDeNotificaciones (P : Type 0) : Type 0 where
  pub page : CursorPage (Notificacion P)
  pub unread_count : ℕ

module _ {P : Type 0} where
  abbrev pub es_suya : ℕ → ℕ → NotificacionEnMemoria P → Bool
  es_suya event user n = n.event_id == event && n.user_id == user

  -- `delUsuario`
  unfoldable pub del_usuario :
      ℕ → ℕ → List (NotificacionEnMemoria P) → List (NotificacionEnMemoria P)
  del_usuario event user filas = filter (es_suya event user) filas

  abbrev pub cursor_de : NotificacionEnMemoria P → CursorValue
  cursor_de n = record { created_at = n.created_at; id = n.id }

  unfoldable pub listar_notificaciones :
      ℕ → ℕ → OpcionesListado → Buzon P → CursorPage (Notificacion P)
  listar_notificaciones event user o s =
      let elegidas : List (NotificacionEnMemoria P) =
        filter (λ n. not o.solo_no_leidas || is_none n.read_at) (del_usuario event user s.filas) in
      let ordenadas : List (NotificacionEnMemoria P) =
        ordenar_por descendente cursor_de
          (filter (posterior_a descendente cursor_de o.desde) elegidas) in
      record {
        items = map (λ (n : NotificacionEnMemoria P). n.vista) (take o.limite ordenadas);
        next_cursor = siguiente descendente cursor_de o.limite ordenadas;
      }

  abbrev pub sin_leer : NotificacionEnMemoria P → Bool
  sin_leer n = is_none n.read_at

  unfoldable pub contar_no_leidas : ℕ → ℕ → Buzon P → ℕ
  contar_no_leidas event user s = length (filter sin_leer (del_usuario event user s.filas))

  abbrev pub la_suya : ℕ → ℕ → ℕ → NotificacionEnMemoria P → Bool
  la_suya event user id n = es_suya event user n && n.id == id

  -- `fila.readAt ??= ahora`
  abbrev pub leida : ℕ → NotificacionEnMemoria P → NotificacionEnMemoria P
  leida ahora n = record n { vista = record n.vista { read_at = some (get_or n.read_at ahora) } }

  unfoldable pub marcar_leida : ℕ → ℕ → ℕ → ℕ → Buzon P → Bool × Buzon P
  marcar_leida event user id ahora s =
      elim (find? (λ (n : NotificacionEnMemoria P). n.id == id) (del_usuario event user s.filas)) [
        | none ↦ (false, s)
        | some n ↦
            (true, record s { filas = modify_first (la_suya event user id) (leida ahora) s.filas })
      ]

  -- `ListNotificationsUseCase`
  unfoldable pub ver_notificaciones : ℕ → ℕ → OpcionesListado → Buzon P → PaginaDeNotificaciones P
  ver_notificaciones event user o s = record {
    page = listar_notificaciones event user o s;
    unread_count = contar_no_leidas event user s;
  }

  -- `MarkReadUseCase`
  unfoldable pub leer_notificacion : ℕ → ℕ → ℕ → ℕ → Action (Buzon P) NotificationError (Unit {0})
  leer_notificacion event user id ahora s =
      let (marcada, s') = marcar_leida event user id ahora s in
      throw_if (not marcada) notificacion_no_encontrada s'

-- `BroadcastNoticeUseCase`: the first emission that fails ends the job, and the queue tries it again.
module _ {R : Type 0} (emitir_a_evento emitir_a_usuario : ℕ → Text → R → Bool × R) where
  abbrev pub notificacion_creada : Text
  notificacion_creada = codes "notification.created"

  unfoldable pub emitir_a_todos : List ℕ → R → Bool × R
  emitir_a_todos [] r = (true, r)
  emitir_a_todos (u ∷ us) r =
      let (emitida, r') = emitir_a_usuario u notificacion_creada r in
      let resto = emitir_a_todos us r' in if emitida then resto else (false, r')

  unfoldable pub avisar_de_notificacion : {P : Type 0} → ℕ → Text → Buzon P → R → Bool × R
  avisar_de_notificacion event tipo s r =
      let (emitida, r') = emitir_a_evento event tipo r in
      let resto = emitir_a_todos (s.miembros event) r' in if emitida then resto else (false, r')
