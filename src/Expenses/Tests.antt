-- ===== src/Expenses/Tests.antt =====
-- Expenses at concrete inputs: event 1 has a paid expense of 30.50 and a pending one of 9.75.
use wedding_planner_backend.Expenses.Store.{
  CambiosGasto, booked, sumas, DatosNuevoGasto, Libro, Proveedor, cancelled,
}
use wedding_planner_backend.Prelude.{ℕ, ◌≡◌, [], refl, and_then, Option, ◌∷◌, none, some}
use wedding_planner_backend.Shared.Decimal.{parse}
use wedding_planner_backend.Expenses.Domain.{
  pending, ExpenseStatus, externo, paid, Gasto, calcular_resumen,
}
use wedding_planner_backend.Expenses.UseCases.{editar_gasto, borrar_gasto, crear_gasto}
use wedding_planner_backend.Expenses.Laws.{
  Exacto, calcular_resumen-Exacto, gastos-Cuadra, Cuadra, Respeta,
}
use wedding_planner_backend.Expenses.Sums.{Asignado, fila_aparte, Gastado, fila_sumada}
use wedding_planner_backend.Shared.Text.{codes, Text}
use wedding_planner_backend.Shared.Money.{a_centimos}
use wedding_planner_backend.Prelude.Int.{pos, ◌+ℤ◌}

abbrev gasto : ℕ → ExpenseStatus → Option ℕ → Text → Gasto
gasto id status paid_at amount = record {
  id = id;
  event_id = 1;
  origen = externo [];
  concept = [];
  category = [];
  amount = amount;
  status = status;
  due_date = none;
  paid_at = paid_at;
  notes = none;
  created_by_id = 7;
  created_at = 0;
  updated_at = 0;
}

abbrev reserva : Proveedor
reserva = record { id = 2; event_id = 1; assigned_budget = some (codes "20.00"); status = booked }

abbrev anulado : Proveedor
anulado = record { id = 5; event_id = 1; assigned_budget = some (codes "7.00"); status = cancelled }

abbrev libro : Libro
libro = record {
  proveedores = reserva ∷ anulado ∷ [];
  gastos = gasto 3 paid (some 40) (codes "30.50") ∷ gasto 4 pending none (codes "9.75") ∷ [];
  reloj = 60;
}

libro-Cuadra : Cuadra libro
libro-Cuadra = record { gastos = (refl, (refl, tt)) }

quieto : Respeta (λ k l. l)
quieto = record { cuadra = λ k l c. c }

gastos-Cuadra_example :
    ((uuid : ℕ) (estado : Option ExpenseStatus) (datos : DatosNuevoGasto)
      → Cuadra (crear_gasto (λ k l. l) uuid estado datos libro).1)
    × ((event_id expense_id : ℕ) (c : CambiosGasto)
        → Cuadra (editar_gasto (λ k l. l) event_id expense_id c libro).1)
    × ((event_id expense_id : ℕ) → Cuadra (borrar_gasto (λ k l. l) event_id expense_id libro).1)
gastos-Cuadra_example = gastos-Cuadra (λ k l. l) libro quieto libro-Cuadra

budget : a_centimos (codes "100.00") ≡ some (pos 10000)
unfolding a_centimos parse ◌+ℤ◌
budget = refl

assigned_sum : Asignado 1 libro.proveedores (pos 2000)
unfolding a_centimos parse ◌+ℤ◌
assigned_sum =
    fila_sumada reserva (anulado ∷ []) (codes "20.00") (pos 2000) (pos 0) refl (λ e. cc) refl refl
      (fila_aparte anulado [] (pos 0) (λ e kept. absurd (kept refl)) Asignado.sin_filas)

paid_sum : Gastado 1 paid libro.gastos (pos 3050)
unfolding a_centimos parse ◌+ℤ◌
paid_sum =
    fila_sumada (gasto 3 paid (some 40) (codes "30.50")) _ (pos 3050) (pos 0) refl refl refl (
      fila_aparte (gasto 4 pending none (codes "9.75")) [] (pos 0) (λ e. λ s. cc) Gastado.sin_filas)

pending_sum : Gastado 1 pending libro.gastos (pos 975)
unfolding a_centimos parse ◌+ℤ◌
pending_sum =
    fila_aparte (gasto 3 paid (some 40) (codes "30.50")) _ (pos 975) (λ e. λ s. cc)
      (fila_sumada (gasto 4 pending none (codes "9.75")) [] (pos 975) (pos 0) refl refl refl
        Gastado.sin_filas)

calcular_resumen-Exacto_example :
    Exacto
      (pos 10000)
      (pos 2000)
      (pos 3050)
      (pos 975)
      (and_then (sumas 1 libro) (calcular_resumen (codes "USD") (some (codes "100.00"))))
calcular_resumen-Exacto_example =
    calcular_resumen-Exacto 1 (codes "USD") (codes "100.00") libro (pos 10000) (pos 2000) (pos 3050)
      (pos 975) budget assigned_sum paid_sum pending_sum
