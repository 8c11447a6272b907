-- ===== src/Seating/UseCases/Total.antt =====
-- An assignment to a good seat never meets the unique constraints.
use wedding_planner_backend.Prelude.{
  ℕ, arith, true, some, refl, ◌≡◌, false, ◌∷◌, All, find?, [], any, inl, find?-sound, Bool-cases,
  find_index?, inr, ◌++◌, Option,
}
use wedding_planner_backend.Seating.Domain.{Asignacion, es_persona, es_asiento}
use wedding_planner_backend.Seating.Store.{choca, listar_asignaciones, Plano}
use wedding_planner_backend.Seating.UseCases.Exchange.{lista, Propia, first-free}
use wedding_planner_backend.Seating.UseCases.Invariant.{SinChoques, any-append_false}
use wedding_planner_backend.Prelude.Monad.{ok}
use wedding_planner_backend.Seating.UseCases.{sentar, colocar, mismo_lugar}
use wedding_planner_backend.Seating.UseCases.Swap.{
  sentado-find, cambiada, sentado, restantes, sentado_as, sentar_seats, sentar_succeeds,
  mismo_lugar-same, distinct-free, second-left, intercambiados,
}

restantes_at :
    (event_id : ℕ) (origen previo : Option Asignacion) (o r e : Asignacion) (p : Plano)
    → origen ≡ some o
    → previo ≡ some r
    → any (λ x. choca e x.asignacion) (restantes event_id (some o) (some r) p) ≡ false
    → any (λ x. choca e x.asignacion) (restantes event_id origen previo p) ≡ false
restantes_at event_id origen previo o r e p f g h = rw (f, g) h

-- In a seating without clashes, where the rows of a table and of a guest are of its event, placing a
-- person of the event at a table of the event never meets the unique constraints. Afterwards the
-- person sits there; and where both the person and somebody at that place were seated before, that
-- somebody sits where the person sat.
pub colocar_succeeds :
    (mesa_de invitado_de : ℕ → ℕ) (event_id : ℕ) (d : Asignacion) (p : Plano)
    → All (Propia mesa_de invitado_de event_id) p.asignaciones
    → SinChoques p.asignaciones
    → mesa_de d.table_id ≡ event_id
    → invitado_de d.ocupante.guest_id ≡ event_id
    → let (r, p') = colocar event_id d p in
      (r ≡ ok tt)
      × (sentado event_id d p'.asignaciones ≡ true)
      × (intercambiados event_id
            (find? (es_persona d.ocupante) (listar_asignaciones event_id p))
            (find? (es_asiento d.table_id d.seat_index) (listar_asignaciones event_id p))
            p'.asignaciones
          ≡ true)
unfolding colocar listar_asignaciones
colocar_succeeds mesa_de invitado_de event_id d p co h ht hg =
    let rows = p.asignaciones in
    let persona = es_persona d.ocupante in
    let asiento = es_asiento d.table_id d.seat_index in
    let xs = lista event_id rows in
    let previo = find? asiento xs in
    let origen = find? persona xs in
    elim (Bool-cases (mismo_lugar (find_index? persona xs) (find_index? asiento xs))) [
      | inl same ↦
          let (o, f, g) = mismo_lugar-same persona asiento xs same in
          let stays : colocar event_id d p ≡ (ok tt, p) = grind (arith, same) in
          let there : sentado event_id o rows ≡ true = sentado-find event_id persona o rows f in
          let is_person : persona o ≡ true = find?-sound persona xs o f in
          let is_seat : asiento o ≡ true = find?-sound asiento xs o g in
          rw stays (
            refl,
            sentado_as event_id o d rows (grind (arith, is_person, is_seat)) there,
            rw (f, g) there,
          )
      | inr distinct ↦
          let first = first-free mesa_de invitado_de event_id d rows ht hg co h in
          let second : (o r : Asignacion)
              → origen ≡ some o
              → previo ≡ some r
              → any (λ x. choca (cambiada o r) x.asignacion)
                  (restantes event_id origen previo p
                    ++ record { event_id = event_id; asignacion = d } ∷ [])
                ≡ false =
            λ o r f g.
              any-append_false (λ x. choca (cambiada o r) x.asignacion)
                (restantes event_id origen previo p)
                (record { event_id = event_id; asignacion = d })
                (restantes_at event_id origen previo o r (cambiada o r) p f g
                  (second-left mesa_de invitado_de event_id persona asiento o r rows f g co h))
                (distinct-free mesa_de invitado_de event_id d o r rows f g h distinct) in
          let moves : colocar event_id d p ≡ sentar event_id d origen previo p =
            grind (arith, distinct) in
          let seats = sentar_seats event_id d origen previo p first second in
          rw moves (sentar_succeeds event_id d origen previo p first second, seats.0, seats.1)
    ]
