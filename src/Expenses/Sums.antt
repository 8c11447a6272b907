-- ===== src/Expenses/Sums.antt =====
-- The sums of an event, row by row.
use wedding_planner_backend.Expenses.Store.{
  es_pagado, total, cancelled, es_cancelado, booked, EstadoProveedor, Proveedor, shortlisted,
}
use wedding_planner_backend.Prelude.{
  ℕ, [], Bool, ◌∷◌, List, arith, ◌≡◌, is_some, false, inr, get_or, Bool-cases, true, inl, some, not,
  if◌then◌else◌, ==_iff, ◌↔◌, ◌&&◌, map, ◌==◌, filter, refl, none,
}
use wedding_planner_backend.Expenses.Domain.{Gasto, ExpenseStatus, pending, paid}
use wedding_planner_backend.Shared.Text.{Text, codes}
use wedding_planner_backend.Shared.Money.{a_centimos}
use wedding_planner_backend.Prelude.Int.{ℤ, ◌+ℤ◌, pos}

-- The assigned budgets of the vendors of an event that were not cancelled, added up row by row.
pub data Asignado (event_id : ℕ) : List Proveedor → ℤ → Type 0 where
  sin_filas : Asignado event_id [] (pos 0)
  fila_aparte :
      (p : Proveedor) (ps : List Proveedor) (a : ℤ)
      → (p.event_id ≡ event_id → ¬ (p.status ≡ cancelled) → p.assigned_budget ≡ none)
      → Asignado event_id ps a
      → Asignado event_id (p ∷ ps) a
  fila_sumada :
      (p : Proveedor) (ps : List Proveedor) (m : Text) (c a : ℤ)
      → p.event_id ≡ event_id
      → ¬ (p.status ≡ cancelled)
      → p.assigned_budget ≡ some m
      → a_centimos m ≡ some c
      → Asignado event_id ps a
      → Asignado event_id (p ∷ ps) (c +ℤ a)

-- The amounts of the expenses of an event in a state, added up row by row.
pub data Gastado (event_id : ℕ) (estado : ExpenseStatus) : List Gasto → ℤ → Type 0 where
  sin_filas : Gastado event_id estado [] (pos 0)
  fila_aparte :
      (g : Gasto) (gs : List Gasto) (a : ℤ)
      → (g.event_id ≡ event_id → ¬ (g.status ≡ estado))
      → Gastado event_id estado gs a
      → Gastado event_id estado (g ∷ gs) a
  fila_sumada :
      (g : Gasto) (gs : List Gasto) (c a : ℤ)
      → g.event_id ≡ event_id
      → g.status ≡ estado
      → a_centimos g.amount ≡ some c
      → Gastado event_id estado gs a
      → Gastado event_id estado (g ∷ gs) (c +ℤ a)

pub es_cancelado_iff : (e : EstadoProveedor) → (es_cancelado e ≡ true) ↔ (e ≡ cancelled)
es_cancelado_iff shortlisted = (λ h. absurd cc, λ h. absurd cc)
es_cancelado_iff booked = (λ h. absurd cc, λ h. absurd cc)
es_cancelado_iff cancelled = (λ h. refl, λ h. refl)

pub es_pagado_iff : (e : ExpenseStatus) → (es_pagado e ≡ true) ↔ (e ≡ paid)
es_pagado_iff pending = (λ h. absurd cc, λ h. absurd cc)
es_pagado_iff paid = (λ h. refl, λ h. refl)

pub es_pagado-false : (e : ExpenseStatus) → (es_pagado e ≡ false) ↔ (e ≡ pending)
es_pagado-false pending = (λ h. refl, λ h. refl)
es_pagado-false paid = (λ h. absurd cc, λ h. absurd cc)

-- Whether a row of a vendor is summed.
abbrev pub se_suma : ℕ → Proveedor → Bool
se_suma event_id p =
    p.event_id == event_id && (not (es_cancelado p.status) && is_some p.assigned_budget)

pub Asignado-total :
    (event_id : ℕ) (ps : List Proveedor) (a : ℤ)
    → Asignado event_id ps a
    → total (map (λ p. get_or p.assigned_budget (codes "0")) (filter (se_suma event_id) ps))
      ≡ some a
Asignado-total event_id _ _ sin_filas = refl
Asignado-total event_id _ _ (fila_aparte p ps a out d) =
    let rest = Asignado-total event_id ps a d in
    elim (Bool-cases (se_suma event_id p)) [
      | inr skipped ↦ grind (arith, skipped, rest)
      | inl taken ↦
          let same : p.event_id ≡ event_id =
            (==_iff p.event_id event_id).0 (grind (arith, taken)) in
          let bare : p.assigned_budget ≡ none =
            out same (λ gone. grind (arith, taken, (es_cancelado_iff p.status).1 gone)) in
          absurd (grind (arith, taken, bare))
    ]
Asignado-total event_id _ _ (fila_sumada p ps m c a same kept given cents d) =
    let rest = Asignado-total event_id ps a d in
    let alive : es_cancelado p.status ≡ false = elim (Bool-cases (es_cancelado p.status)) [
      | inl gone ↦ absurd (kept ((es_cancelado_iff p.status).0 gone))
      | inr there ↦ there
    ] in
    let mine : (p.event_id == event_id) ≡ true = (==_iff p.event_id event_id).1 same in
    grind (arith, mine, alive, given, cents, rest)

-- Whether a row of an expense is summed.
abbrev pub en_estado : Bool → Gasto → Bool
en_estado pagados g = if pagados then es_pagado g.status else not (es_pagado g.status)

abbrev pub estado_buscado : Bool → ExpenseStatus
estado_buscado pagados = if pagados then paid else pending

pub en_estado_iff :
    (pagados : Bool) (g : Gasto)
    → (en_estado pagados g ≡ true) ↔ (g.status ≡ estado_buscado pagados)
en_estado_iff true g = es_pagado_iff g.status
en_estado_iff false g = (
  λ h. (es_pagado-false g.status).0 (grind (arith, h)),
  λ h. grind (arith, (es_pagado-false g.status).1 h),
)

pub Gastado-total :
    (event_id : ℕ) (pagados : Bool) (gs : List Gasto) (a : ℤ)
    → Gastado event_id (estado_buscado pagados) gs a
    → total
        (map (λ g. g.amount) (filter (en_estado pagados) (filter (λ g. g.event_id == event_id) gs)))
      ≡ some a
Gastado-total event_id pagados _ _ sin_filas = refl
Gastado-total event_id pagados _ _ (fila_aparte g gs a out d) =
    let rest = Gastado-total event_id pagados gs a d in
    elim (Bool-cases (g.event_id == event_id)) [
      | inr other ↦ grind (arith, other, rest)
      | inl mine ↦ elim (Bool-cases (en_estado pagados g)) [
        | inr skipped ↦ grind (arith, mine, skipped, rest)
        | inl taken ↦
            absurd (out ((==_iff g.event_id event_id).0 mine) ((en_estado_iff pagados g).0 taken))
      ]
    ]
Gastado-total event_id pagados _ _ (fila_sumada g gs c a same kept cents d) =
    let rest = Gastado-total event_id pagados gs a d in
    let mine : (g.event_id == event_id) ≡ true = (==_iff g.event_id event_id).1 same in
    let taken : en_estado pagados g ≡ true = (en_estado_iff pagados g).1 kept in
    grind (arith, mine, taken, cents, rest)
