-- ===== src/Notifications/Laws.antt =====
-- Reading a notification.
use mathlib.Core.Option.{some-injective, some-injective, some-injective}
use wedding_planner_backend.Notifications.Store.{
  Buzon, leida, leer_notificacion, contar_no_leidas, sin_leer, la_suya, marcar_leida, del_usuario,
  NotificacionEnMemoria,
}
use wedding_planner_backend.Prelude.{
  ℕ, List, ◌≡◌, ◌∙◌, [], find?, filter, ◌∷◌, refl, Bool-cases, ◌==◌, if◌then◌else◌, length, arith,
  some, inr, inl, ◌+◌, find?-modify_first, is_none, modify_first,
}
use wedding_planner_backend.Prelude.Monad.{ok}

module _ {P : Type 0} where
  del_usuario-find :
      (event user id : ℕ) (ns : List (NotificacionEnMemoria P))
      → find? (λ (n : NotificacionEnMemoria P). n.id == id) (del_usuario event user ns)
        ≡ find? (la_suya event user id) ns
  unfolding del_usuario
  del_usuario-find event user id [] = refl
  del_usuario-find event user id (n ∷ ns) = ground (arith, del_usuario-find event user id ns)

  unread_left :
      (event user id ahora : ℕ) (ns : List (NotificacionEnMemoria P)) (n : NotificacionEnMemoria P)
      → find? (la_suya event user id) ns ≡ some n
      → length (
            filter sin_leer
              (del_usuario event user (modify_first (la_suya event user id) (leida ahora) ns)))
          + (if is_none n.read_at then 1 else 0)
        ≡ length (filter sin_leer (del_usuario event user ns))
  unfolding del_usuario
  unread_left event user id ahora [] n h = cc
  unread_left event user id ahora (m ∷ ms) n h = elim (Bool-cases (la_suya event user id m)) [
    | inl here ↦ let same : m ≡ n = some-injective m n (ground (arith, h)) in ground (arith, same)
    | inr other ↦ ground (arith, unread_left event user id ahora ms n)
  ]

  -- Reading a notification of one's own succeeds; it keeps the instant at which the notification was
  -- first read, and takes one off what is left to read where the notification had not been read, and
  -- nothing otherwise.
  pub leer_notificacion_counts :
      (event user id ahora : ℕ) (s : Buzon P) (n : NotificacionEnMemoria P)
      → find? (la_suya event user id) s.filas ≡ some n
      → ((leer_notificacion event user id ahora s).0 ≡ ok tt)
        × (find? (la_suya event user id) (leer_notificacion event user id ahora s).1.filas
            ≡ some (leida ahora n))
        × (contar_no_leidas event user (leer_notificacion event user id ahora s).1
              + (if is_none n.read_at then 1 else 0)
            ≡ contar_no_leidas event user s)
  unfolding leer_notificacion marcar_leida contar_no_leidas
  leer_notificacion_counts event user id ahora s n found =
      let there : find? (λ (m : NotificacionEnMemoria P). m.id == id)
            (del_usuario event user s.filas)
          ≡ some n =
        del_usuario-find event user id s.filas ∙ found in
      (
        grind (arith, there),
        grind (
          arith,
          there,
          find?-modify_first (la_suya event user id) (leida ahora) s.filas n (λ a. refl) found,
        ),
        grind (arith, there, unread_left event user id ahora s.filas n found),
      )
