-- ===== src/Expenses/Domain.antt =====
-- src/modules/expenses/domain/expense.ts, with the row as the repository keeps it. An amount that is
-- not of the form that `aCentimos` accepts is `none` here.
use wedding_planner_backend.Prelude.{ℕ, get_or, Option, none, some, and_then}
use wedding_planner_backend.Shared.Text.{Text}
use wedding_planner_backend.Shared.Money.{de_centimos, a_centimos}
use wedding_planner_backend.Prelude.Int.{◌-ℤ◌, ℤ}

pub data ExpenseStatus : Type 0 where
  pending paid : ExpenseStatus

-- `OrigenEntrada`
pub data Origen : Type 0 where
  de_proveedor : ℕ → Origen
  externo : Text → Origen

pub record Gasto : Type 0 where
  pub id : ℕ
  pub event_id : ℕ
  pub origen : Origen
  pub concept : Text
  pub category : Text
  pub amount : Text
  pub status : ExpenseStatus
  pub due_date : Option ℕ
  pub paid_at : Option ℕ
  pub notes : Option Text
  pub created_by_id : ℕ
  pub created_at : ℕ
  pub updated_at : ℕ

pub record Sumas : Type 0 where
  pub assigned : Text
  pub paid : Text
  pub pending : Text

pub record Resumen : Type 0 where
  pub currency : Text
  pub total_budget : Option Text
  pub assigned : Text
  pub unassigned : Option Text
  pub paid : Text
  pub pending : Text
  pub remaining : Option Text

abbrev pub resumir : Text → Text → Sumas → ℤ → ℤ → ℤ → ℤ → Resumen
resumir moneda presupuesto s todo asignado pagado pendiente = record {
  currency = moneda;
  total_budget = some presupuesto;
  assigned = s.assigned;
  unassigned = some (de_centimos (todo -ℤ asignado));
  paid = s.paid;
  pending = s.pending;
  remaining = some (de_centimos ((todo -ℤ pagado) -ℤ pendiente));
}

abbrev pub con_total : Text → Text → Sumas → Option Resumen
con_total moneda presupuesto s = and_then (a_centimos presupuesto) (λ todo.
    and_then (a_centimos s.assigned) (λ asignado. and_then (a_centimos s.paid) (λ pagado.
      and_then (a_centimos s.pending)
        (λ pendiente. some (resumir moneda presupuesto s todo asignado pagado pendiente)))))

unfoldable pub calcular_resumen : Text → Option Text → Sumas → Option Resumen
calcular_resumen moneda none s = some (record {
  currency = moneda;
  total_budget = none;
  assigned = s.assigned;
  unassigned = none;
  paid = s.paid;
  pending = s.pending;
  remaining = none;
})
calcular_resumen moneda (some presupuesto) s = con_total moneda presupuesto s

unfoldable pub paid_at_tras_cambio : ExpenseStatus → Option ℕ → Option ExpenseStatus → ℕ → Option ℕ
paid_at_tras_cambio actual paid_at nuevo ahora = elim (get_or nuevo actual) [
  | pending ↦ none
  | paid ↦ elim actual [ pending ↦ some ahora | paid ↦ some (get_or paid_at ahora) ]
]
