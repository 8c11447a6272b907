-- ===== src/Seating/UseCases/Preservation.antt =====
-- Every operation of the seating keeps its invariant.
use wedding_planner_backend.Seating.UseCases.{
  borrar_mesa, vaciar_asiento, sentar, colocar, intercambiar, asignar_asiento, presentes,
}
use wedding_planner_backend.Prelude.{
  ℕ, Bool, Bool-cases, ◌≤◌, List, inr, All-append, some, true, ◌==◌, leb, filter, not, any, find?,
  All-filter, inl, remove_first, [], count, false, ap, arith, ◌≡◌, map, ==_iff, ◌∷◌, ◌++◌, ◌&&◌,
  Option-cases, none, sym, refl, Option,
}
use wedding_planner_backend.Seating.Domain.{Asignacion, Mesa, es_asiento, es_persona}
use wedding_planner_backend.Seating.Store.{
  quitar_donde, contar_mesas, eliminar_mesa, asignar, Plano, AsignacionGuardada, choca, es_mesa,
  buscar_mesa, quitar_asiento, listar_asignaciones, quitar_ocupantes, SeatingAction,
}
use wedding_planner_backend.Seating.UseCases.Invariant.{
  MesasValidas, cabe_en, SinChoques-filter, SinChoques-append, CabenEn, Valido,
}
use wedding_planner_backend.Prelude.Monad.{◌>>◌}

-- Taking rows away.
pub quitar_donde-Valido :
    (q : AsignacionGuardada → Bool) (p : Plano) → Valido p → Valido (quitar_donde q p)
unfolding contar_mesas
quitar_donde-Valido q p v = record {
  sin_choques = SinChoques-filter (λ a. not (q a)) p.asignaciones v.sin_choques;
  caben = All-filter (λ a. cabe_en p.mesas a ≡ true) (λ a. not (q a)) p.asignaciones v.caben;
  mesas_validas = v.mesas_validas;
  limite = v.limite;
}

-- Adding a row for a seat that is there.
pub asignar-Valido :
    (event_id : ℕ) (a : Asignacion) (p : Plano)
    → Valido p
    → cabe_en p.mesas (record { event_id = event_id; asignacion = a }) ≡ true
    → Valido (asignar event_id a p).1
unfolding asignar contar_mesas
asignar-Valido event_id a p v fits =
    elim (Bool-cases (any (λ x. choca a x.asignacion) p.asignaciones)) [
      | inl clash ↦ ground (arith, v)
      | inr free ↦
          let fila : AsignacionGuardada = record { event_id = event_id; asignacion = a } in
          let mas : Valido (record p { asignaciones = p.asignaciones ++ fila ∷ [] }) = record {
            sin_choques = SinChoques-append fila p.asignaciones v.sin_choques free;
            caben =
                All-append (λ r. cabe_en p.mesas r ≡ true) p.asignaciones (fila ∷ []) v.caben
                  (fits, tt);
            mesas_validas = v.mesas_validas;
            limite = v.limite;
          } in
          ground (arith, mas)
    ]

find?-listar :
    (q : Asignacion → Bool) (event_id : ℕ) (mesas : List Mesa) (rows : List AsignacionGuardada)
    (o : Asignacion)
    → CabenEn mesas rows
    → find? q (map (λ a. a.asignacion) (filter (λ a. a.event_id == event_id) rows)) ≡ some o
    → cabe_en mesas (record { event_id = event_id; asignacion = o }) ≡ true
find?-listar q event_id mesas [] o h f = cc
find?-listar q event_id mesas (a ∷ rows) o h f = elim (Bool-cases (a.event_id == event_id)) [
  | inl here ↦
      let same : a.event_id ≡ event_id = (==_iff a.event_id event_id).0 here in
      let fits : cabe_en mesas (record { event_id = event_id; asignacion = a.asignacion }) ≡ true =
        rw (sym same) h.0 in
      elim (Bool-cases (q a.asignacion)) [
        | inl it ↦ let eo : a.asignacion ≡ o = ground arith in rw (sym eo) fits
        | inr differs ↦ ground (arith, find?-listar q event_id mesas rows o h.1)
      ]
  | inr other ↦ ground (arith, find?-listar q event_id mesas rows o h.1)
]

-- The seat of a table that `buscar_mesa` finds.
buscar_mesa-cabe :
    (event_id : ℕ) (a : Asignacion) (m : Mesa) (mesas : List Mesa)
    → find? (es_mesa event_id a.table_id) mesas ≡ some m
    → leb m.seat_count a.seat_index ≡ false
    → cabe_en mesas (record { event_id = event_id; asignacion = a }) ≡ true
buscar_mesa-cabe event_id a m [] f h = cc
buscar_mesa-cabe event_id a m (n ∷ ns) f h = elim (Bool-cases (es_mesa event_id a.table_id n)) [
  | inl here ↦ let same : n ≡ m = ground arith in ground (arith, ap (λ x. x.seat_count) same)
  | inr later ↦ ground (arith, buscar_mesa-cabe event_id a m ns)
]

cabe_en-remove_first :
    (event_id table_id : ℕ) (a : AsignacionGuardada) (mesas : List Mesa)
    → cabe_en mesas a ≡ true
    → (a.asignacion.table_id == table_id) ≡ false
    → cabe_en (remove_first (es_mesa event_id table_id) mesas) a ≡ true
cabe_en-remove_first event_id table_id a [] h k = h
cabe_en-remove_first event_id table_id a (m ∷ ms) h k =
    ground (arith, cabe_en-remove_first event_id table_id a ms)

CabenEn-remove_first :
    (event_id table_id : ℕ) (mesas : List Mesa) (rows : List AsignacionGuardada)
    → CabenEn mesas rows
    → CabenEn
        (remove_first (es_mesa event_id table_id) mesas)
        (filter (λ a. not (a.asignacion.table_id == table_id)) rows)
CabenEn-remove_first event_id table_id mesas [] h = tt
CabenEn-remove_first event_id table_id mesas (a ∷ rows) h = ground (
  arith,
  cabe_en-remove_first event_id table_id a mesas h.0,
  CabenEn-remove_first event_id table_id mesas rows h.1,
)

count-remove_first :
    (g event_id table_id : ℕ) (mesas : List Mesa)
    → count (λ m. m.event_id == g) (remove_first (es_mesa event_id table_id) mesas)
      ≤ count (λ m. m.event_id == g) mesas
count-remove_first g event_id table_id [] = omega arith
count-remove_first g event_id table_id (m ∷ ms) =
    ground (arith, count-remove_first g event_id table_id ms)

MesasValidas-remove_first :
    (event_id table_id : ℕ) (mesas : List Mesa)
    → MesasValidas mesas
    → MesasValidas (remove_first (es_mesa event_id table_id) mesas)
MesasValidas-remove_first event_id table_id [] h = tt
MesasValidas-remove_first event_id table_id (m ∷ ms) h =
    ground (arith, MesasValidas-remove_first event_id table_id ms h.1)

pub borrar_mesa-Valido :
    (event_id table_id : ℕ) (p : Plano) → Valido p → Valido (borrar_mesa event_id table_id p).1
unfolding borrar_mesa eliminar_mesa contar_mesas
borrar_mesa-Valido event_id table_id p v =
    elim (Bool-cases (any (es_mesa event_id table_id) p.mesas)) [
      | inl there ↦
          let menos : Valido (
              quitar_donde (λ a. a.asignacion.table_id == table_id)
                (record p { mesas = remove_first (es_mesa event_id table_id) p.mesas })) =
            record {
              sin_choques =
                  SinChoques-filter (λ a. not (a.asignacion.table_id == table_id)) p.asignaciones
                    v.sin_choques;
              caben = CabenEn-remove_first event_id table_id p.mesas p.asignaciones v.caben;
              mesas_validas = MesasValidas-remove_first event_id table_id p.mesas v.mesas_validas;
              limite =
                  λ g. omega (arith, count-remove_first g event_id table_id p.mesas, v.limite g);
            } in
          ground (arith, menos)
      | inr missing ↦ ground (arith, v)
    ]

intercambiar-Valido :
    (event_id : ℕ) (origen previo : Option Asignacion) (p : Plano)
    → Valido p
    → ((o : Asignacion)
        → origen ≡ some o
        → cabe_en p.mesas (record { event_id = event_id; asignacion = o }) ≡ true)
    → Valido (intercambiar event_id origen previo p).1
intercambiar-Valido event_id none previo p v fits = v
intercambiar-Valido event_id (some o) none p v fits = v
intercambiar-Valido event_id (some o) (some r) p v fits =
    asignar-Valido event_id
      (record { table_id = o.table_id; seat_index = o.seat_index; ocupante = r.ocupante }) p v
      (fits o refl)

asignar-mesas :
    (event_id : ℕ) (a : Asignacion) (p : Plano) → (asignar event_id a p).1.mesas ≡ p.mesas
unfolding asignar
asignar-mesas event_id a p = elim (Bool-cases (any (λ x. choca a x.asignacion) p.asignaciones)) [
  | inl clash ↦ ground arith
  | inr free ↦ ground arith
]

-- Two handlers in a row, where the first keeps the invariant and the second does after it.
then-Valido :
    {A B : Type 0} (m : SeatingAction A) (k : SeatingAction B) (p : Plano)
    → Valido (m p).1
    → Valido (k (m p).1).1
    → Valido ((m >> k) p).1
then-Valido m k p first second = grind (arith, first, second)

sentar-Valido :
    (event_id : ℕ) (destino : Asignacion) (q r : Asignacion → Bool) (p : Plano)
    → Valido p
    → cabe_en p.mesas (record { event_id = event_id; asignacion = destino }) ≡ true
    → Valido
        (sentar event_id destino
          (find? q (listar_asignaciones event_id p))
          (find? r (listar_asignaciones event_id p))
          p).1
unfolding sentar listar_asignaciones quitar_ocupantes
sentar-Valido event_id destino q r p v fits =
    let origen = find? q (listar_asignaciones event_id p) in
    let previo = find? r (listar_asignaciones event_id p) in
    let quitado = quitar_ocupantes event_id (presentes origen previo) p in
    let first : Valido quitado =
      quitar_donde-Valido
        (λ a.
          a.event_id == event_id && any (λ o. es_persona o a.asignacion) (presentes origen previo))
        p v in
    let second : Valido (asignar event_id destino quitado).1 =
      asignar-Valido event_id destino quitado first fits in
    then-Valido (asignar event_id destino) (intercambiar event_id origen previo) quitado second (
      intercambiar-Valido event_id origen previo (asignar event_id destino quitado).1 second (λ o e.
        rw (asignar-mesas event_id destino quitado)
          (find?-listar q event_id p.mesas p.asignaciones o v.caben e)))

-- `asignar_asiento` keeps the invariant whatever it answers.
pub asignar_asiento-Valido :
    (event_id : ℕ) (destino : Asignacion) (p : Plano)
    → Valido p
    → Valido (asignar_asiento event_id destino p).1
unfolding asignar_asiento colocar buscar_mesa
asignar_asiento-Valido event_id destino p v =
    elim (Option-cases (find? (es_mesa event_id destino.table_id) p.mesas)) [
      | inl missing ↦ grind (arith, v)
      | inr (m, found) ↦ grind (
        arith,
        sentar-Valido event_id destino (es_persona destino.ocupante)
            (es_asiento destino.table_id destino.seat_index) p v,
        buscar_mesa-cabe event_id destino m p.mesas found,
        v,
      )
    ]

pub vaciar_asiento-Valido :
    (event_id table_id seat_index : ℕ) (p : Plano)
    → Valido p
    → Valido (vaciar_asiento event_id table_id seat_index p).1
unfolding vaciar_asiento quitar_asiento
vaciar_asiento-Valido event_id table_id seat_index p v =
    elim (Option-cases (buscar_mesa event_id table_id p)) [
      | inl missing ↦ grind (arith, v)
      | inr (m, found) ↦ grind (
        arith,
        quitar_donde-Valido
            (λ a. a.event_id == event_id && es_asiento table_id seat_index a.asignacion) p v,
        v,
      )
    ]
