-- ===== src/Seating/UseCases/NewTables.antt =====
-- Creating tables keeps the invariant of the seating, and with it so does any sequence of requests.
use wedding_planner_backend.Seating.UseCases.{
  actualizar, vaciar_asiento, nueva_mesa, generar_mesas, asignar_asiento, borrar_mesa, crear_mesa,
}
use wedding_planner_backend.Prelude.{
  ℕ, count, true, All-append, Bool, List, ◌≡◌, ltb, ◌&&◌, get_or, suc, arith, count-append, ◌≤◌,
  Option, All, refl, map, if◌then◌else◌, zero, [], ◌∷◌, any, ◌==◌, ◌++◌, ◌+◌, length,
}
use wedding_planner_backend.Shared.Text.{Text}
use wedding_planner_backend.Seating.Domain.{
  Mesa, Asignacion, rango_asientos_valido, nombre_por_defecto, rango_desde,
}
use wedding_planner_backend.Seating.Store.{
  Plano, AsignacionGuardada, mayor, DatosNuevaMesa, crear_mesas, contar_mesas, mesas_nuevas,
  es_mesa, CambiosMesa, ultima,
}
use wedding_planner_backend.Seating.UseCases.Invariant.{
  MesasValidas, actualizar-Valido, CabenEn, Valido,
}
use wedding_planner_backend.Seating.UseCases.Preservation.{
  borrar_mesa-Valido, asignar_asiento-Valido, vaciar_asiento-Valido,
}

any-append_true :
    {A : Type 0} (q : A → Bool) (xs ys : List A) → any q xs ≡ true → any q (xs ++ ys) ≡ true
any-append_true q [] ys h = cc
any-append_true q (x ∷ xs) ys h = ground (arith, any-append_true q xs ys)

CabenEn-append :
    (mesas nuevas : List Mesa) (rows : List AsignacionGuardada)
    → CabenEn mesas rows
    → CabenEn (mesas ++ nuevas) rows
CabenEn-append mesas nuevas [] h = tt
CabenEn-append mesas nuevas (a ∷ rows) h = (
  any-append_true
      (λ m. es_mesa a.event_id a.asignacion.table_id m && ltb a.asignacion.seat_index m.seat_count)
      mesas nuevas h.0,
  CabenEn-append mesas nuevas rows h.1,
)

abbrev pub DatosValidos : List DatosNuevaMesa → Type 0
DatosValidos = All (λ d. rango_asientos_valido d.min_seats d.seat_count d.max_seats ≡ true)

mesas_nuevas-MesasValidas :
    (event_id : ℕ) (uuid : ℕ → ℕ) (base i : ℕ) (datos : List DatosNuevaMesa)
    → DatosValidos datos
    → MesasValidas (mesas_nuevas event_id uuid base i datos)
mesas_nuevas-MesasValidas event_id uuid base i [] h = tt
mesas_nuevas-MesasValidas event_id uuid base i (d ∷ ds) h =
    (h.0, mesas_nuevas-MesasValidas event_id uuid base (suc i) ds h.1)

count-mesas_nuevas :
    (g event_id : ℕ) (uuid : ℕ → ℕ) (base i : ℕ) (datos : List DatosNuevaMesa)
    → count (λ m. m.event_id == g) (mesas_nuevas event_id uuid base i datos)
      ≡ (if event_id == g then length datos else 0)
count-mesas_nuevas g event_id uuid base i [] = ground arith
count-mesas_nuevas g event_id uuid base i (d ∷ ds) =
    ground (arith, count-mesas_nuevas g event_id uuid base (suc i) ds)

crear_mesas-Valido :
    (event_id : ℕ) (uuid : ℕ → ℕ) (datos : List DatosNuevaMesa) (p : Plano)
    → Valido p
    → DatosValidos datos
    → contar_mesas event_id p + length datos ≤ 100
    → Valido (crear_mesas event_id uuid datos p).1
unfolding crear_mesas contar_mesas
crear_mesas-Valido event_id uuid datos p v h room =
    let base = mayor p.reloj (ultima event_id p.mesas + 1) in
    let nuevas = mesas_nuevas event_id uuid base 0 datos in
    record {
      sin_choques = v.sin_choques;
      caben = CabenEn-append p.mesas nuevas p.asignaciones v.caben;
      mesas_validas =
          All-append (λ m. rango_asientos_valido m.min_seats m.seat_count m.max_seats ≡ true)
            p.mesas nuevas v.mesas_validas (mesas_nuevas-MesasValidas event_id uuid base 0 datos h);
      limite = λ g. ground (
        arith,
        count-append (λ m. m.event_id == g) p.mesas nuevas,
        count-mesas_nuevas g event_id uuid base 0 datos,
        v.limite g,
      );
    }

crear_mesa-Valido :
    (event_id : ℕ) (uuid : ℕ → ℕ) (nombre : Option Text) (min_seats max_seats : ℕ) (p : Plano)
    → Valido p
    → Valido (crear_mesa event_id uuid nombre min_seats max_seats p).1
unfolding crear_mesa
crear_mesa-Valido event_id uuid nombre min_seats max_seats p v =
    let i = contar_mesas event_id p in
    let datos =
      nueva_mesa (get_or nombre (nombre_por_defecto (i + 1))) min_seats max_seats i ∷ [] in
    grind (arith, v, crear_mesas-Valido event_id uuid datos p v)

DatosValidos-map :
    (min_seats max_seats i n : ℕ)
    → rango_asientos_valido min_seats min_seats max_seats ≡ true
    → DatosValidos
        (map (λ j. nueva_mesa (nombre_por_defecto (j + 1)) min_seats max_seats j) (rango_desde i n))
DatosValidos-map min_seats max_seats i zero h = tt
DatosValidos-map min_seats max_seats i (suc n) h =
    (h, DatosValidos-map min_seats max_seats (suc i) n h)

length-map-rango_desde : {A : Type 0} (f : ℕ → A) (i n : ℕ) → length (map f (rango_desde i n)) ≡ n
length-map-rango_desde f i zero = refl
length-map-rango_desde f i (suc n) = omega (arith, length-map-rango_desde f (suc i) n)

generar_mesas-Valido :
    (event_id : ℕ) (uuid : ℕ → ℕ) (cuantas min_seats max_seats : ℕ) (p : Plano)
    → Valido p
    → Valido (generar_mesas event_id uuid cuantas min_seats max_seats p).1
unfolding generar_mesas
generar_mesas-Valido event_id uuid cuantas min_seats max_seats p v =
    let i = contar_mesas event_id p in
    let nueva = λ (j : ℕ). nueva_mesa (nombre_por_defecto (j + 1)) min_seats max_seats j in
    grind (
      arith,
      v,
      crear_mesas-Valido event_id uuid (map nueva (rango_desde i cuantas)) p v,
      DatosValidos-map min_seats max_seats i cuantas,
      length-map-rango_desde nueva i cuantas,
    )

-- A request to change the seating of an event.
pub data Peticion : Type 0 where
  sienta : ℕ → Asignacion → Peticion
  vacia : ℕ → ℕ → ℕ → Peticion
  crea : ℕ → (ℕ → ℕ) → Option Text → ℕ → ℕ → Peticion
  genera : ℕ → (ℕ → ℕ) → ℕ → ℕ → ℕ → Peticion
  actualiza : ℕ → ℕ → CambiosMesa → Peticion
  borra : ℕ → ℕ → Peticion

-- The state after a request, answered or refused.
abbrev pub atender : Peticion → Plano → Plano
atender (sienta event_id destino) p = (asignar_asiento event_id destino p).1
atender (vacia event_id table_id seat_index) p = (vaciar_asiento event_id table_id seat_index p).1
atender (crea event_id uuid nombre min max) p = (crear_mesa event_id uuid nombre min max p).1
atender (genera event_id uuid cuantas min max) p = (generar_mesas event_id uuid cuantas min max p).1
atender (actualiza event_id table_id c) p = (actualizar event_id table_id c p).1
atender (borra event_id table_id) p = (borrar_mesa event_id table_id p).1

abbrev pub atender_todas : List Peticion → Plano → Plano
atender_todas [] p = p
atender_todas (q ∷ qs) p = atender_todas qs (atender q p)

atender-Valido : (q : Peticion) (p : Plano) → Valido p → Valido (atender q p)
atender-Valido (sienta event_id destino) p v = asignar_asiento-Valido event_id destino p v
atender-Valido (vacia event_id table_id seat_index) p v =
    vaciar_asiento-Valido event_id table_id seat_index p v
atender-Valido (crea event_id uuid nombre min max) p v =
    crear_mesa-Valido event_id uuid nombre min max p v
atender-Valido (genera event_id uuid cuantas min max) p v =
    generar_mesas-Valido event_id uuid cuantas min max p v
atender-Valido (actualiza event_id table_id c) p v = actualizar-Valido event_id table_id c p v
atender-Valido (borra event_id table_id) p v = borrar_mesa-Valido event_id table_id p v

-- Whatever requests run, one after another and answered or refused, from a valid seating: no two
-- rows are of one seat or of one person, every row's table is there and has that seat, the numbers
-- of seats of every table keep their order and limits, and no event has more than 100 tables.
pub atender_todas-Valido : (qs : List Peticion) (p : Plano) → Valido p → Valido (atender_todas qs p)
atender_todas-Valido [] p v = v
atender_todas-Valido (q ∷ qs) p v = atender_todas-Valido qs (atender q p) (atender-Valido q p v)
