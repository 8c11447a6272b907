-- ===== src/Seating/UseCases.antt =====
-- src/modules/seating/application: the use cases. `bloquearEvento` writes nothing: it makes the
-- transactions on one event's seating follow one another, so each runs here on the state it finds.
pub mod Swap
pub mod Exchange
pub mod Total
pub mod Invariant
pub mod NewTables
pub mod Preservation
use wedding_planner_backend.Prelude.{
  ℕ, find?, ◌∷◌, none, leb, ◌&&◌, ltb, any, map, some, ◌+◌, [], find_index?, List, get_or, not,
  Option, if◌then◌else◌, Bool, ◌==◌, false,
}
use wedding_planner_backend.Database.{en_transaccion}
use wedding_planner_backend.Shared.Text.{Text}
use wedding_planner_backend.Prelude.Monad.{
  pure, choose, ◌>>◌, throw_if, gets, ◌>>=◌, modify, or_throw, ok, err,
}
use wedding_planner_backend.Seating.Domain.{
  es_persona, nombre_por_defecto, mesa_no_encontrada, rango_de_asientos_invalido, limite_de_mesas,
  ocupante_valido, es_asiento, ocupante_invalido, Mesa, Ocupante, asiento_ocupado,
  rango_asientos_valido, max_mesas_por_evento, armar_distribucion, posicion_en_cuadricula,
  Asignacion, rango_desde, asiento_fuera_de_rango, MesaVista, mesa_no_devuelta,
}
use wedding_planner_backend.Seating.Store.{
  quitar_ocupantes, eliminar_mesa, actualizar_mesa, listar_mesas, CambiosMesa, quitar_asiento,
  SeatingAction, contar_mesas, buscar_mesa, listar_asignaciones, listar_invitados, Plano,
  DatosNuevaMesa, buscar_invitado, asignar, crear_mesas,
}

unfoldable pub leer_distribucion : ℕ → Plano → List MesaVista
leer_distribucion event_id p =
    armar_distribucion (listar_mesas event_id p) (listar_asignaciones event_id p)
      (listar_invitados event_id p)

abbrev pub leer : ℕ → SeatingAction (List MesaVista)
leer event_id = gets (leer_distribucion event_id)

-- `o.filter((a) => a !== undefined)` on the two rows that may be there.
abbrev pub presentes : Option Asignacion → Option Asignacion → List Ocupante
presentes none none = []
presentes (some a) none = a.ocupante ∷ []
presentes none (some b) = b.ocupante ∷ []
presentes (some a) (some b) = a.ocupante ∷ b.ocupante ∷ []

-- `previo === origen` compares references: both were found in one array, so they are the same
-- object exactly when they were found at the same place.
abbrev pub mismo_lugar : Option ℕ → Option ℕ → Bool
mismo_lugar (some i) (some j) = i == j
mismo_lugar _ _ = false

-- The second write of an exchange: the one who was in the seat goes to where the person was.
abbrev pub intercambiar : ℕ → Option Asignacion → Option Asignacion → SeatingAction (Unit {0})
intercambiar event_id (some origen) (some previo) = asignar event_id (record {
  table_id = origen.table_id;
  seat_index = origen.seat_index;
  ocupante = previo.ocupante;
})
intercambiar event_id _ _ = pure tt

-- The writes of `AssignSeatUseCase.ejecutar`, once the seat and the person are known to be good.
unfoldable pub sentar :
    ℕ → Asignacion → Option Asignacion → Option Asignacion → SeatingAction (Unit {0})
sentar event_id destino origen previo = do
  modify (quitar_ocupantes event_id (presentes origen previo))
  asignar event_id destino
  intercambiar event_id origen previo

unfoldable pub colocar : ℕ → Asignacion → SeatingAction (Unit {0})
colocar event_id destino p =
    let asignaciones = listar_asignaciones event_id p in
    let es_origen = es_persona destino.ocupante in
    let es_previo = es_asiento destino.table_id destino.seat_index in
    choose (mismo_lugar (find_index? es_origen asignaciones) (find_index? es_previo asignaciones))
      (pure tt)
      (sentar event_id destino (find? es_origen asignaciones) (find? es_previo asignaciones)) p

-- `AssignSeatUseCase.ejecutar`
unfoldable pub asignar_asiento : ℕ → Asignacion → SeatingAction (List MesaVista)
asignar_asiento event_id destino = en_transaccion do
  encontrada ← gets (buscar_mesa event_id destino.table_id)
  mesa ← or_throw encontrada mesa_no_encontrada
  throw_if (leb mesa.seat_count destino.seat_index) asiento_fuera_de_rango
  invitado ← gets (buscar_invitado event_id destino.ocupante.guest_id)
  throw_if (not (ocupante_valido destino.ocupante invitado)) ocupante_invalido
  colocar event_id destino
  leer event_id

-- `ClearSeatUseCase.ejecutar`
unfoldable pub vaciar_asiento : ℕ → ℕ → ℕ → SeatingAction (Unit {0})
vaciar_asiento event_id table_id seat_index = en_transaccion do
  encontrada ← gets (buscar_mesa event_id table_id)
  mesa ← or_throw encontrada mesa_no_encontrada
  throw_if (leb mesa.seat_count seat_index) asiento_fuera_de_rango
  modify (quitar_asiento event_id table_id seat_index)

abbrev pub nueva_mesa : Text → ℕ → ℕ → ℕ → DatosNuevaMesa
nueva_mesa nombre min_seats max_seats i =
    let (x, y) = posicion_en_cuadricula i in
    record {
      name = nombre;
      min_seats = min_seats;
      max_seats = max_seats;
      seat_count = min_seats;
      x = x;
      y = y;
    }

abbrev pub guardar_mesas : ℕ → (ℕ → ℕ) → List DatosNuevaMesa → SeatingAction (List Mesa)
guardar_mesas event_id uuid datos p =
    let (creadas, p') = crear_mesas event_id uuid datos p in (ok creadas, p')

abbrev pub vista_vacia : Mesa → MesaVista
vista_vacia m = record {
  mesa = m;
  seats = map (λ i. record { index = i; occupant = none }) (rango_desde 0 m.seat_count);
}

-- `const [mesa] = …`
abbrev pub primera : List Mesa → Option Mesa
primera [] = none
primera (m ∷ ms) = some m

-- `CreateTableUseCase.ejecutar`
unfoldable pub crear_mesa : ℕ → (ℕ → ℕ) → Option Text → ℕ → ℕ → SeatingAction MesaVista
crear_mesa event_id uuid nombre min_seats max_seats = do
  throw_if (not (rango_asientos_valido min_seats min_seats max_seats)) rango_de_asientos_invalido
  en_transaccion do
    existentes ← gets (contar_mesas event_id)
    throw_if (ltb max_mesas_por_evento (existentes + 1)) limite_de_mesas
    creadas ← guardar_mesas event_id uuid (
        nueva_mesa (get_or nombre (nombre_por_defecto (existentes + 1))) min_seats max_seats
          existentes
        ∷ [])
    mesa ← or_throw (primera creadas) mesa_no_devuelta
    pure (vista_vacia mesa)

-- `DeleteTableUseCase.ejecutar`
unfoldable pub borrar_mesa : ℕ → ℕ → SeatingAction (Unit {0})
borrar_mesa event_id table_id p =
    let (habia, p') = eliminar_mesa event_id table_id p in
    (if habia then ok tt else err mesa_no_encontrada, p')

-- `GenerateTablesUseCase.ejecutar`
unfoldable pub generar_mesas : ℕ → (ℕ → ℕ) → ℕ → ℕ → ℕ → SeatingAction (List MesaVista)
generar_mesas event_id uuid cuantas min_seats max_seats = do
  throw_if (not (rango_asientos_valido min_seats min_seats max_seats)) rango_de_asientos_invalido
  en_transaccion do
    existentes ← gets (contar_mesas event_id)
    throw_if (ltb max_mesas_por_evento (existentes + cuantas)) limite_de_mesas
    guardar_mesas event_id uuid (
        map (λ i. nueva_mesa (nombre_por_defecto (i + 1)) min_seats max_seats i)
          (rango_desde existentes cuantas))
    leer event_id

abbrev pub quedaria_fuera : ℕ → ℕ → ℕ → Plano → Bool
quedaria_fuera event_id table_id seat_count p =
    any (λ a. a.table_id == table_id && leb seat_count a.seat_index)
      (listar_asignaciones event_id p)

-- `UpdateTableUseCase.ejecutar`
unfoldable pub actualizar : ℕ → ℕ → CambiosMesa → SeatingAction MesaVista
actualizar event_id table_id cambios = en_transaccion do
  encontrada ← gets (buscar_mesa event_id table_id)
  actual ← or_throw encontrada mesa_no_encontrada
  throw_if
      (not (
        rango_asientos_valido (get_or cambios.min_seats actual.min_seats)
          (get_or cambios.seat_count actual.seat_count)
          (get_or cambios.max_seats actual.max_seats)))
      rango_de_asientos_invalido
  fuera ← gets (quedaria_fuera event_id table_id (get_or cambios.seat_count actual.seat_count))
  throw_if (ltb (get_or cambios.seat_count actual.seat_count) actual.seat_count && fuera)
      asiento_ocupado
  actualizar_mesa event_id table_id cambios
  vistas ← leer event_id
  or_throw (find? (λ v. v.mesa.id == table_id) vistas) mesa_no_encontrada
