-- ===== src/Expenses/Store.antt =====
-- src/modules/expenses/infrastructure/expense.repository.fake.ts, without the page of `listar` and
-- the name that `aDominio` looks up for the answer.
use wedding_planner_backend.Prelude.{
  ℕ, ◌++◌, [], find?, get_or, Option, map, remove_first, not, Bool, modify_first, ◌∷◌, ◌&&◌, List,
  false, any, none, filter, true, ◌==◌, if◌then◌else◌, is_some, some, and_then,
}
use wedding_planner_backend.Expenses.Domain.{Sumas, Gasto, Origen, paid, ExpenseStatus, pending}
use wedding_planner_backend.Shared.Text.{Text, codes}
use wedding_planner_backend.Shared.Money.{de_centimos, a_centimos}
use wedding_planner_backend.Prelude.Int.{◌+ℤ◌, ℤ, pos}

pub data EstadoProveedor : Type 0 where
  shortlisted booked cancelled : EstadoProveedor

pub record Proveedor : Type 0 where
  pub id : ℕ
  pub event_id : ℕ
  pub assigned_budget : Option Text
  pub status : EstadoProveedor

pub record Libro : Type 0 where
  pub proveedores : List Proveedor
  pub gastos : List Gasto
  pub reloj : ℕ

pub record DatosNuevoGasto : Type 0 where
  pub event_id : ℕ
  pub origen : Origen
  pub concept : Text
  pub category : Text
  pub amount : Text
  pub status : ExpenseStatus
  pub paid_at : Option ℕ
  pub due_date : Option ℕ
  pub notes : Option Text
  pub created_by_id : ℕ

unfoldable pub proveedor_existe : ℕ → ℕ → Libro → Bool
proveedor_existe event_id event_vendor_id l =
    any (λ p. p.id == event_vendor_id && p.event_id == event_id) l.proveedores

unfoldable pub crear : ℕ → DatosNuevoGasto → Libro → Gasto × Libro
crear uuid datos l =
    let gasto : Gasto = record {
      id = uuid;
      event_id = datos.event_id;
      origen = datos.origen;
      concept = datos.concept;
      category = datos.category;
      amount = datos.amount;
      status = datos.status;
      due_date = datos.due_date;
      paid_at = datos.paid_at;
      notes = datos.notes;
      created_by_id = datos.created_by_id;
      created_at = l.reloj;
      updated_at = l.reloj;
    } in
    (gasto, record l { gastos = l.gastos ++ gasto ∷ [] })

abbrev pub es_gasto : ℕ → ℕ → Gasto → Bool
es_gasto event_id expense_id g = g.id == expense_id && g.event_id == event_id

unfoldable pub buscar_por_id : ℕ → ℕ → Libro → Option Gasto
buscar_por_id event_id expense_id l = find? (es_gasto event_id expense_id) l.gastos

-- `undefined` is the outer `none` of a field.
pub record CambiosGasto : Type 0 where
  pub origen : Option Origen
  pub concept : Option Text
  pub category : Option Text
  pub amount : Option Text
  pub status : Option ExpenseStatus
  pub paid_at : Option (Option ℕ)
  pub due_date : Option (Option ℕ)
  pub notes : Option (Option Text)

abbrev pub aplicar : ℕ → CambiosGasto → Gasto → Gasto
aplicar ahora c g = record g {
  origen = get_or c.origen g.origen;
  concept = get_or c.concept g.concept;
  category = get_or c.category g.category;
  amount = get_or c.amount g.amount;
  status = get_or c.status g.status;
  paid_at = get_or c.paid_at g.paid_at;
  due_date = get_or c.due_date g.due_date;
  notes = get_or c.notes g.notes;
  updated_at = ahora;
}

-- `none` is the rejection with `GastoNoEncontradoError`.
unfoldable pub actualizar : ℕ → ℕ → CambiosGasto → Libro → Option Gasto × Libro
actualizar event_id expense_id c l = elim (find? (es_gasto event_id expense_id) l.gastos) [
  | none ↦ (none, l)
  | some g ↦ (
    some (aplicar l.reloj c g),
    record l { gastos = modify_first (es_gasto event_id expense_id) (aplicar l.reloj c) l.gastos },
  )
]

unfoldable pub eliminar : ℕ → ℕ → Libro → Bool × Libro
eliminar event_id expense_id l =
    if any (es_gasto event_id expense_id) l.gastos
    then (true, record l { gastos = remove_first (es_gasto event_id expense_id) l.gastos })
    else (false, l)

abbrev pub total : List Text → Option ℤ
total [] = some (pos 0)
total (m ∷ ms) =
    and_then (total ms) (λ resto. and_then (a_centimos m) (λ centimos. some (centimos +ℤ resto)))

abbrev pub suma : List Text → Option Text
suma textos = and_then (total textos) (λ centimos. some (de_centimos centimos))

abbrev pub es_pagado : ExpenseStatus → Bool
es_pagado paid = true
es_pagado pending = false

abbrev pub es_cancelado : EstadoProveedor → Bool
es_cancelado cancelled = true
es_cancelado _ = false

abbrev pub asignados : ℕ → Libro → List Text
asignados event_id l =
    map (λ p. get_or p.assigned_budget (codes "0"))
      (filter
        (λ p. p.event_id == event_id && (not (es_cancelado p.status) && is_some p.assigned_budget))
        l.proveedores)

abbrev pub montos : ℕ → Bool → Libro → List Text
montos event_id pagados l =
    map (λ g. g.amount)
      (filter (λ g. if pagados then es_pagado g.status else not (es_pagado g.status))
        (filter (λ g. g.event_id == event_id) l.gastos))

unfoldable pub sumas : ℕ → Libro → Option Sumas
sumas event_id l = and_then (suma (asignados event_id l)) (λ asignado.
    and_then (suma (montos event_id true l)) (λ pagado.
      and_then (suma (montos event_id false l))
        (λ pendiente. some (record { assigned = asignado; paid = pagado; pending = pendiente }))))
