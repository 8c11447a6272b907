-- ===== src/Seating/UseCases/Invariant.antt =====
-- What holds of the seating whatever operations run on it.
use wedding_planner_backend.Seating.UseCases.{actualizar, quedaria_fuera}
use wedding_planner_backend.Prelude.{
  ℕ, any, Bool, List, Bool-cases, ◌≡◌, [], refl, inr, ◌≤◌, ltb, true, ◌∷◌, ◌&&◌, inl, All, arith,
  false, filter, ◌++◌, some, leb, ◌==◌, get_or, modify_first, find?, ap, map, count, Option-cases,
}
use wedding_planner_backend.Seating.Domain.{rango_asientos_valido, Mesa, Asignacion}
use wedding_planner_backend.Seating.Store.{
  AsignacionGuardada, choca, es_mesa, Plano, contar_mesas, aplicar, CambiosMesa, actualizar_mesa,
  listar_asignaciones, buscar_mesa,
}

-- No two rows are of one seat, nor of one person.
abbrev pub SinChoques : List AsignacionGuardada → Type 0
SinChoques [] = Unit
SinChoques (x ∷ xs) = (any (λ y. choca x.asignacion y.asignacion) xs ≡ false) × SinChoques xs

-- The row's table is there, in the row's event, and has that seat.
abbrev pub cabe_en : List Mesa → AsignacionGuardada → Bool
cabe_en mesas a =
    any
      (λ m. es_mesa a.event_id a.asignacion.table_id m && ltb a.asignacion.seat_index m.seat_count)
      mesas

abbrev pub CabenEn : List Mesa → List AsignacionGuardada → Type 0
CabenEn mesas = All (λ a. cabe_en mesas a ≡ true)

abbrev pub MesasValidas : List Mesa → Type 0
MesasValidas = All (λ m. rango_asientos_valido m.min_seats m.seat_count m.max_seats ≡ true)

pub record Valido (p : Plano) : Type 0 where
  pub sin_choques : SinChoques p.asignaciones
  pub caben : CabenEn p.mesas p.asignaciones
  pub mesas_validas : MesasValidas p.mesas
  pub limite : (event_id : ℕ) → contar_mesas event_id p ≤ 100

any-filter :
    {A : Type 0} (q p : A → Bool) (xs : List A) → any q xs ≡ false → any q (filter p xs) ≡ false
any-filter q p [] h = refl
any-filter q p (x ∷ xs) h = ground (arith, any-filter q p xs)

pub SinChoques-filter :
    (p : AsignacionGuardada → Bool) (xs : List AsignacionGuardada)
    → SinChoques xs
    → SinChoques (filter p xs)
SinChoques-filter p [] h = tt
SinChoques-filter p (x ∷ xs) h =
    ground (
      arith,
      SinChoques-filter p xs h.1,
      any-filter (λ y. choca x.asignacion y.asignacion) p xs h.0,
    )

pub any-append_false :
    {A : Type 0} (q : A → Bool) (xs : List A) (x : A)
    → any q xs ≡ false
    → q x ≡ false
    → any q (xs ++ x ∷ []) ≡ false
any-append_false q [] x h k = ground arith
any-append_false q (y ∷ xs) x h k = ground (arith, any-append_false q xs x)

choca_sym : (a b : Asignacion) → choca a b ≡ choca b a
choca_sym a b = ground arith

pub SinChoques-append :
    (a : AsignacionGuardada) (xs : List AsignacionGuardada)
    → SinChoques xs
    → any (λ x. choca a.asignacion x.asignacion) xs ≡ false
    → SinChoques (xs ++ a ∷ [])
SinChoques-append a [] h k = (refl, tt)
SinChoques-append a (x ∷ xs) h k = (
  any-append_false (λ y. choca x.asignacion y.asignacion) xs a h.0
      (ground (arith, choca_sym x.asignacion a.asignacion)),
  SinChoques-append a xs h.1 (ground arith),
)

-- The table that is changed keeps every row that had its place, unless the row is of that table
-- and beyond its new number of seats.
cabe_en-modify_first :
    (event_id table_id : ℕ) (c : CambiosMesa) (m : Mesa) (a : AsignacionGuardada)
    (mesas : List Mesa)
    → find? (es_mesa event_id table_id) mesas ≡ some m
    → cabe_en mesas a ≡ true
    → ((ltb (get_or c.seat_count m.seat_count) m.seat_count
          && (a.event_id == event_id
              && (a.asignacion.table_id == table_id
                  && leb (get_or c.seat_count m.seat_count) a.asignacion.seat_index)))
        ≡ false)
    → cabe_en (modify_first (es_mesa event_id table_id) (aplicar c) mesas) a ≡ true
cabe_en-modify_first event_id table_id c m a [] f h k = cc
cabe_en-modify_first event_id table_id c m a (n ∷ ns) f h k =
    elim (Bool-cases (es_mesa event_id table_id n)) [
      | inl here ↦ let same : n ≡ m = ground arith in ground (arith, ap (λ x. x.seat_count) same)
      | inr later ↦ ground (arith, cabe_en-modify_first event_id table_id c m a ns)
    ]

any-listar :
    (q : Asignacion → Bool) (event_id : ℕ) (rows : List AsignacionGuardada)
    → any q (map (λ a. a.asignacion) (filter (λ a. a.event_id == event_id) rows)) ≡ false
    → All (λ a. (a.event_id == event_id && q a.asignacion) ≡ false) rows
any-listar q event_id [] h = tt
any-listar q event_id (a ∷ rows) h = ground (arith, any-listar q event_id rows)

-- `b` says that the number of seats goes down; only then were the rows looked at.
CabenEn-modify_first :
    (event_id table_id : ℕ) (c : CambiosMesa) (m : Mesa) (mesas : List Mesa)
    (rows : List AsignacionGuardada)
    → find? (es_mesa event_id table_id) mesas ≡ some m
    → CabenEn mesas rows
    → ((ltb (get_or c.seat_count m.seat_count) m.seat_count ≡ true)
        → All
            (λ a.
              (a.event_id == event_id
                && (a.asignacion.table_id == table_id
                    && leb (get_or c.seat_count m.seat_count) a.asignacion.seat_index))
              ≡ false)
            rows)
    → CabenEn (modify_first (es_mesa event_id table_id) (aplicar c) mesas) rows
CabenEn-modify_first event_id table_id c m mesas [] f h k = tt
CabenEn-modify_first event_id table_id c m mesas (a ∷ rows) f h k = (
  cabe_en-modify_first event_id table_id c m a mesas f h.0
      (elim (Bool-cases (ltb (get_or c.seat_count m.seat_count) m.seat_count)) [
        | inl less ↦ ground (arith, (k less).0)
        | inr more ↦ ground arith
      ]),
  CabenEn-modify_first event_id table_id c m mesas rows f h.1 (λ less. (k less).1),
)

MesasValidas-modify_first :
    (event_id table_id : ℕ) (c : CambiosMesa) (m : Mesa) (mesas : List Mesa)
    → find? (es_mesa event_id table_id) mesas ≡ some m
    → MesasValidas mesas
    → rango_asientos_valido
        (get_or c.min_seats m.min_seats)
        (get_or c.seat_count m.seat_count)
        (get_or c.max_seats m.max_seats)
      ≡ true
    → MesasValidas (modify_first (es_mesa event_id table_id) (aplicar c) mesas)
MesasValidas-modify_first event_id table_id c m [] f h k = tt
MesasValidas-modify_first event_id table_id c m (n ∷ ns) f h k =
    elim (Bool-cases (es_mesa event_id table_id n)) [
      | inl here ↦
          let same : n ≡ m = ground arith in
          let valid : rango_asientos_valido (get_or c.min_seats n.min_seats)
                (get_or c.seat_count n.seat_count) (get_or c.max_seats n.max_seats)
              ≡ true =
            rw same k in
          ground (arith, valid, h.1)
      | inr later ↦ ground (arith, MesasValidas-modify_first event_id table_id c m ns)
    ]

contar-modify_first :
    (g event_id table_id : ℕ) (c : CambiosMesa) (mesas : List Mesa)
    → count (λ m. m.event_id == g) (modify_first (es_mesa event_id table_id) (aplicar c) mesas)
      ≡ count (λ m. m.event_id == g) mesas
contar-modify_first g event_id table_id c [] = refl
contar-modify_first g event_id table_id c (m ∷ ms) =
    ground (arith, contar-modify_first g event_id table_id c ms)

-- `UpdateTableUseCase`'s write, under what it tests before.
actualizada-Valido :
    (event_id table_id : ℕ) (c : CambiosMesa) (p : Plano) (m : Mesa)
    → Valido p
    → find? (es_mesa event_id table_id) p.mesas ≡ some m
    → rango_asientos_valido
        (get_or c.min_seats m.min_seats)
        (get_or c.seat_count m.seat_count)
        (get_or c.max_seats m.max_seats)
      ≡ true
    → (ltb (get_or c.seat_count m.seat_count) m.seat_count
        && quedaria_fuera event_id table_id (get_or c.seat_count m.seat_count) p)
      ≡ false
    → Valido (record p { mesas = modify_first (es_mesa event_id table_id) (aplicar c) p.mesas })
unfolding listar_asignaciones contar_mesas
actualizada-Valido event_id table_id c p m v found valid empty = record {
  sin_choques = v.sin_choques;
  caben = CabenEn-modify_first event_id table_id c m p.mesas p.asignaciones found v.caben (λ less.
      any-listar
        (λ a. a.table_id == table_id && leb (get_or c.seat_count m.seat_count) a.seat_index)
        event_id p.asignaciones (ground arith));
  mesas_validas =
      MesasValidas-modify_first event_id table_id c m p.mesas found v.mesas_validas valid;
  limite = λ g. omega (arith, contar-modify_first g event_id table_id c p.mesas, v.limite g);
}

-- `actualizar` keeps the invariant whatever it answers.
pub actualizar-Valido :
    (event_id table_id : ℕ) (c : CambiosMesa) (p : Plano)
    → Valido p
    → Valido (actualizar event_id table_id c p).1
unfolding actualizar actualizar_mesa buscar_mesa
actualizar-Valido event_id table_id c p v =
    elim (Option-cases (find? (es_mesa event_id table_id) p.mesas)) [
      | inl missing ↦ grind (arith, missing)
      | inr (m, found) ↦ grind (arith, found, actualizada-Valido event_id table_id c p m v found)
    ]
