-- ===== src/Expenses/UseCases.antt =====
-- src/modules/expenses/application: create-expense, update-expense and delete-expense.
-- `entorno k` is what other requests do before the k-th awaited call takes effect.
use wedding_planner_backend.Expenses.Store.{
  buscar_por_id, crear, actualizar, Libro, eliminar, es_pagado, DatosNuevoGasto, CambiosGasto,
  proveedor_existe,
}
use wedding_planner_backend.Prelude.{ℕ, get_or, Option, not, Bool, false, none, if◌then◌else◌, some}
use wedding_planner_backend.Expenses.Domain.{
  de_proveedor, Gasto, Origen, paid_at_tras_cambio, ExpenseStatus, pending,
}
use wedding_planner_backend.Prelude.Monad.{
  throw_if, ◌>>◌, ok, Action, ◌>>=◌, gets, or_throw, modify,
}

pub data ExpenseError : Type 0 where
  gasto_no_encontrado proveedor_del_evento_no_encontrado : ExpenseError

abbrev pub ExpenseAction : Type 0 → Type 0
ExpenseAction A = Action Libro ExpenseError A

-- `origen?.kind === 'vendor' && !(await proveedorExiste(…))`
abbrev pub falta_proveedor : ℕ → Option Origen → Libro → Bool
falta_proveedor event_id (some (de_proveedor v)) l = not (proveedor_existe event_id v l)
falta_proveedor event_id _ l = false

-- The input of a creation: the `paid_at` of `datos` is not the client's, and is not read.
abbrev pub con_estado : ExpenseStatus → ℕ → DatosNuevoGasto → DatosNuevoGasto
con_estado estado ahora datos = record datos {
  status = estado;
  paid_at = if es_pagado estado then some ahora else none;
}

-- The change with the date that the server decides.
abbrev pub con_paid_at : Gasto → ℕ → CambiosGasto → CambiosGasto
con_paid_at actual ahora c = record c {
  paid_at = elim c.status [
    | none ↦ none
    | some s ↦ some (paid_at_tras_cambio actual.status actual.paid_at (some s) ahora)
  ];
}

module _ (entorno : ℕ → Libro → Libro) where
  abbrev pub esperar : ℕ → ExpenseAction (Unit {0})
  esperar k = modify (entorno k)

  -- `CreateExpenseUseCase.ejecutar`
  unfoldable pub crear_gasto : ℕ → Option ExpenseStatus → DatosNuevoGasto → ExpenseAction Gasto
  crear_gasto uuid estado datos = do
    esperar 0
    falta ← gets (falta_proveedor datos.event_id (some datos.origen))
    throw_if falta proveedor_del_evento_no_encontrado
    ahora ← gets (λ l. l.reloj)
    esperar 1
    λ l. let (g, l') = crear uuid (con_estado (get_or estado pending) ahora datos) l in (ok g, l')

  -- `UpdateExpenseUseCase.ejecutar`
  unfoldable pub editar_gasto : ℕ → ℕ → CambiosGasto → ExpenseAction Gasto
  editar_gasto event_id expense_id cambios = do
    esperar 0
    encontrado ← gets (buscar_por_id event_id expense_id)
    actual ← or_throw encontrado gasto_no_encontrado
    esperar 1
    falta ← gets (falta_proveedor event_id cambios.origen)
    throw_if falta proveedor_del_evento_no_encontrado
    ahora ← gets (λ l. l.reloj)
    esperar 2
    escrito ← (λ l.
        let (g, l') = actualizar event_id expense_id (con_paid_at actual ahora cambios) l in
        (ok g, l'))
    or_throw escrito gasto_no_encontrado

  -- `DeleteExpenseUseCase.ejecutar`
  unfoldable pub borrar_gasto : ℕ → ℕ → ExpenseAction (Unit {0})
  borrar_gasto event_id expense_id = do
    esperar 0
    habia ← (λ l. let (b, l') = eliminar event_id expense_id l in (ok b, l'))
    throw_if (not habia) gasto_no_encontrado
