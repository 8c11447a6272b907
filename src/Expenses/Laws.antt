-- ===== src/Expenses/Laws.antt =====
-- What holds of every expense, and of the summary.
use wedding_planner_backend.Expenses.Store.{
  crear, actualizar, aplicar, Libro, es_pagado, DatosNuevoGasto, CambiosGasto, es_gasto,
  buscar_por_id, eliminar, sumas, asignados, total, montos,
}
use wedding_planner_backend.Prelude.{
  ℕ, [], All, remove_first, Bool, modify_first, All-append, ◌∷◌, List, arith, ◌≡◌, is_some,
  Option-cases, false, inr, and_then, Option, any, find?, get_or, Bool-cases, true, inl, some,
}
use wedding_planner_backend.Expenses.Domain.{
  Gasto, paid_at_tras_cambio, ExpenseStatus, pending, resumir, Resumen, Sumas, calcular_resumen,
  paid,
}
use wedding_planner_backend.Expenses.UseCases.{
  con_estado, con_paid_at, editar_gasto, borrar_gasto, crear_gasto,
}
use wedding_planner_backend.Shared.Text.{Text}
use wedding_planner_backend.Shared.Money.{de_centimos, a_centimos}
use wedding_planner_backend.Shared.Money.RoundTrip.{a_centimos-de_centimos}
use wedding_planner_backend.Prelude.Int.{◌-ℤ◌, ℤ}
use wedding_planner_backend.Expenses.Sums.{Asignado-total, Gastado-total, Asignado, Gastado}

-- The table's check `expenses_pagado_con_fecha`: paid exactly when it has the date.
abbrev pub PagadoConFecha : Gasto → Type 0
PagadoConFecha g = es_pagado g.status ≡ is_some g.paid_at

pub record Cuadra (l : Libro) : Type 0 where
  pub gastos : All PagadoConFecha l.gastos

-- The other requests keep it too.
pub record Respeta (entorno : ℕ → Libro → Libro) : Type 0 where
  pub cuadra : (k : ℕ) (l : Libro) → Cuadra l → Cuadra (entorno k l)

crear-Cuadra :
    (uuid : ℕ) (estado : ExpenseStatus) (ahora : ℕ) (datos : DatosNuevoGasto) (l : Libro)
    → Cuadra l
    → Cuadra (crear uuid (con_estado estado ahora datos) l).1
unfolding crear
crear-Cuadra uuid estado ahora datos l c = record {
  gastos =
      All-append PagadoConFecha l.gastos ((crear uuid (con_estado estado ahora datos) l).0 ∷ [])
        c.gastos (ground arith, tt);
}

All-modify_first :
    {A : Type 0} (P : A → Type 0) (q : A → Bool) (f : A → A) (xs : List A)
    → ((x : A) → P x → P (f x))
    → All P xs
    → All P (modify_first q f xs)
All-modify_first P q f [] h k = tt
All-modify_first P q f (x ∷ xs) h k = ground (arith, h x k.0, All-modify_first P q f xs h k.1)

All-remove_first :
    {A : Type 0} (P : A → Type 0) (q : A → Bool) (xs : List A)
    → All P xs
    → All P (remove_first q xs)
All-remove_first P q [] k = tt
All-remove_first P q (x ∷ xs) k = ground (arith, All-remove_first P q xs k.1)

aplicar-PagadoConFecha :
    (actual g : Gasto) (ahora luego : ℕ) (c : CambiosGasto)
    → PagadoConFecha g
    → PagadoConFecha (aplicar luego (con_paid_at actual ahora c) g)
unfolding paid_at_tras_cambio
aplicar-PagadoConFecha actual g ahora luego c h = ground arith

actualizar-Cuadra :
    (event_id expense_id : ℕ) (actual : Gasto) (ahora : ℕ) (c : CambiosGasto) (l : Libro)
    → Cuadra l
    → Cuadra (actualizar event_id expense_id (con_paid_at actual ahora c) l).1
unfolding actualizar
actualizar-Cuadra event_id expense_id actual ahora c l h =
    let escrito : Cuadra (record l {
      gastos =
          modify_first (es_gasto event_id expense_id) (aplicar l.reloj (con_paid_at actual ahora c))
            l.gastos;
    }) =
      record {
        gastos =
            All-modify_first PagadoConFecha (es_gasto event_id expense_id)
              (aplicar l.reloj (con_paid_at actual ahora c)) l.gastos
              (λ g. aplicar-PagadoConFecha actual g ahora l.reloj c) h.gastos;
      } in
    elim (Option-cases (find? (es_gasto event_id expense_id) l.gastos)) [
      | inl missing ↦ grind (arith, h)
      | inr (g, found) ↦ grind (arith, escrito)
    ]

crear_gasto-Cuadra :
    (entorno : ℕ → Libro → Libro) (uuid : ℕ) (estado : Option ExpenseStatus)
    (datos : DatosNuevoGasto) (l : Libro)
    → Respeta entorno
    → Cuadra l
    → Cuadra (crear_gasto entorno uuid estado datos l).1
unfolding crear_gasto
crear_gasto-Cuadra entorno uuid estado datos l r c =
    let primero = entorno 0 l in
    let antes : Cuadra primero = r.cuadra 0 l c in
    let luego : Cuadra (entorno 1 primero) = r.cuadra 1 primero antes in
    grind (
      arith,
      antes,
      crear-Cuadra uuid (get_or estado pending) primero.reloj datos (entorno 1 primero) luego,
    )

editar_gasto-Cuadra :
    (entorno : ℕ → Libro → Libro) (event_id expense_id : ℕ) (c : CambiosGasto) (l : Libro)
    → Respeta entorno
    → Cuadra l
    → Cuadra (editar_gasto entorno event_id expense_id c l).1
unfolding editar_gasto
editar_gasto-Cuadra entorno event_id expense_id c l r h =
    let primero = entorno 0 l in
    let segundo = entorno 1 primero in
    let antes : Cuadra primero = r.cuadra 0 l h in
    let luego : Cuadra segundo = r.cuadra 1 primero antes in
    let escribe : Cuadra (entorno 2 segundo) = r.cuadra 2 segundo luego in
    elim (Option-cases (buscar_por_id event_id expense_id primero)) [
      | inl missing ↦ grind (arith, antes)
      | inr (g, found) ↦ grind (
        arith,
        luego,
        actualizar-Cuadra event_id expense_id g segundo.reloj c (entorno 2 segundo) escribe,
      )
    ]

borrar_gasto-Cuadra :
    (entorno : ℕ → Libro → Libro) (event_id expense_id : ℕ) (l : Libro)
    → Respeta entorno
    → Cuadra l
    → Cuadra (borrar_gasto entorno event_id expense_id l).1
unfolding borrar_gasto eliminar
borrar_gasto-Cuadra entorno event_id expense_id l r h =
    let primero = entorno 0 l in
    let antes : Cuadra primero = r.cuadra 0 l h in
    let menos : Cuadra
        (record primero { gastos = remove_first (es_gasto event_id expense_id) primero.gastos }) =
      record {
        gastos =
            All-remove_first PagadoConFecha (es_gasto event_id expense_id) primero.gastos
              antes.gastos;
      } in
    elim (Bool-cases (any (es_gasto event_id expense_id) primero.gastos)) [
      | inl there ↦ grind (arith, menos)
      | inr gone ↦ grind (arith, antes)
    ]

-- An expense has its payment date exactly when it is paid: creation, edition and deletion keep this
-- of all rows, answered or refused, and whatever other requests that keep it do in between.
pub gastos-Cuadra :
    (entorno : ℕ → Libro → Libro) (l : Libro)
    → Respeta entorno
    → Cuadra l
    → ((uuid : ℕ) (estado : Option ExpenseStatus) (datos : DatosNuevoGasto)
        → Cuadra (crear_gasto entorno uuid estado datos l).1)
      × ((event_id expense_id : ℕ) (c : CambiosGasto)
          → Cuadra (editar_gasto entorno event_id expense_id c l).1)
      × ((event_id expense_id : ℕ) → Cuadra (borrar_gasto entorno event_id expense_id l).1)
gastos-Cuadra entorno l r c = (
  λ uuid estado datos. crear_gasto-Cuadra entorno uuid estado datos l r c,
  λ event_id expense_id cambios. editar_gasto-Cuadra entorno event_id expense_id cambios l r c,
  λ event_id expense_id. borrar_gasto-Cuadra entorno event_id expense_id l r c,
)

-- What the summary says of an event: the amount that is not assigned and the amount that is left,
-- read back as numbers.
pub record Exacto (t a p q : ℤ) (r : Option Resumen) : Type 0 where
  pub resumen : Resumen
  pub responde : r ≡ some resumen
  pub sin_asignar : and_then resumen.unassigned a_centimos ≡ some (t -ℤ a)
  pub queda : and_then resumen.remaining a_centimos ≡ some ((t -ℤ p) -ℤ q)

-- Where the budget and the amounts of an event are numbers, the summary is given, and in it what is
-- not assigned is the budget less the assigned budgets of the vendors that were not cancelled, and
-- what is left is the budget less the paid and less the pending expenses, to the cent.
pub calcular_resumen-Exacto :
    (event_id : ℕ) (moneda presupuesto : Text) (l : Libro) (t a p q : ℤ)
    → a_centimos presupuesto ≡ some t
    → Asignado event_id l.proveedores a
    → Gastado event_id paid l.gastos p
    → Gastado event_id pending l.gastos q
    → Exacto t a p q (and_then (sumas event_id l) (calcular_resumen moneda (some presupuesto)))
unfolding sumas calcular_resumen
calcular_resumen-Exacto event_id moneda presupuesto l t a p q ht da dp dq =
    let ha : total (asignados event_id l) ≡ some a = Asignado-total event_id l.proveedores a da in
    let hp : total (montos event_id true l) ≡ some p = Gastado-total event_id true l.gastos p dp in
    let hq : total (montos event_id false l) ≡ some q =
      Gastado-total event_id false l.gastos q dq in
    let s : Sumas = record {
      assigned = de_centimos a;
      paid = de_centimos p;
      pending = de_centimos q;
    } in
    record {
      resumen = resumir moneda presupuesto s t a p q;
      responde = grind (
        arith,
        ht,
        ha,
        hp,
        hq,
        a_centimos-de_centimos a,
        a_centimos-de_centimos p,
        a_centimos-de_centimos q,
      );
      sin_asignar = a_centimos-de_centimos (t -ℤ a);
      queda = a_centimos-de_centimos ((t -ℤ p) -ℤ q);
    }
