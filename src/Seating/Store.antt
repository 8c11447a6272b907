-- ===== src/Seating/Store.antt =====
-- src/modules/seating/application/seating.repository.ts by its in-memory implementation
-- (src/modules/seating/infrastructure/seating.repository.fake.ts). A row of `asignaciones` and of
-- `invitados` has its event beside it, as in the file.
use wedding_planner_backend.Prelude.{
  ℕ, ◌+◌, ◌==◌, map, false, get_or, find?, any, Bool, suc, none, ◌∷◌, List, ltb, some,
  if◌then◌else◌, count, not, ◌&&◌, ◌++◌, modify_first, remove_first, true, ◌||◌, [], Option, filter,
}
use wedding_planner_backend.Shared.Text.{Text}
use wedding_planner_backend.Prelude.Monad.{ok, Action, err}
use wedding_planner_backend.Seating.Domain.{
  violacion_de_unicidad, Mesa, SeatingError, InvitadoSentable, es_asiento, es_persona, Asignacion,
  Ocupante, mesa_no_encontrada,
}

pub record AsignacionGuardada : Type 0 where
  pub event_id : ℕ
  pub asignacion : Asignacion

pub record InvitadoGuardado : Type 0 where
  pub event_id : ℕ
  pub invitado : InvitadoSentable

-- `reloj` is what `Date.now()` gives.
pub record Plano : Type 0 where
  pub mesas : List Mesa
  pub asignaciones : List AsignacionGuardada
  pub invitados : List InvitadoGuardado
  pub reloj : ℕ

abbrev pub SeatingAction : Type 0 → Type 0
SeatingAction A = Action Plano SeatingError A

-- The comparison of `listarMesas`.
abbrev pub va_antes : Mesa → Mesa → Bool
va_antes a b = ltb a.created_at b.created_at || (a.created_at == b.created_at && ltb a.id b.id)

abbrev pub insertar_mesa : Mesa → List Mesa → List Mesa
insertar_mesa m [] = m ∷ []
insertar_mesa m (n ∷ ns) = if va_antes n m then n ∷ insertar_mesa m ns else m ∷ n ∷ ns

-- `sort` with that comparison.
abbrev pub ordenar : List Mesa → List Mesa
ordenar [] = []
ordenar (m ∷ ms) = insertar_mesa m (ordenar ms)

unfoldable pub listar_mesas : ℕ → Plano → List Mesa
listar_mesas event_id p = ordenar (filter (λ m. m.event_id == event_id) p.mesas)

abbrev pub es_mesa : ℕ → ℕ → Mesa → Bool
es_mesa event_id table_id m = m.id == table_id && m.event_id == event_id

unfoldable pub buscar_mesa : ℕ → ℕ → Plano → Option Mesa
buscar_mesa event_id table_id p = find? (es_mesa event_id table_id) p.mesas

unfoldable pub contar_mesas : ℕ → Plano → ℕ
contar_mesas event_id p = count (λ m. m.event_id == event_id) p.mesas

pub record DatosNuevaMesa : Type 0 where
  pub name : Text
  pub min_seats : ℕ
  pub max_seats : ℕ
  pub seat_count : ℕ
  pub x : ℕ
  pub y : ℕ

abbrev pub mayor : ℕ → ℕ → ℕ
mayor a b = if ltb a b then b else a

-- The instant of the last table of an event, or 0.
abbrev pub ultima : ℕ → List Mesa → ℕ
ultima event_id [] = 0
ultima event_id (m ∷ ms) =
    if m.event_id == event_id then mayor m.created_at (ultima event_id ms) else ultima event_id ms

-- `datos.map((d, i) => …)` from `i` on; `uuid` gives what `randomUUID()` gives for each row.
abbrev pub mesas_nuevas : ℕ → (ℕ → ℕ) → ℕ → ℕ → List DatosNuevaMesa → List Mesa
mesas_nuevas event_id uuid base i [] = []
mesas_nuevas event_id uuid base i (d ∷ ds) =
    record {
      id = uuid i;
      event_id = event_id;
      name = d.name;
      min_seats = d.min_seats;
      max_seats = d.max_seats;
      seat_count = d.seat_count;
      x = d.x;
      y = d.y;
      created_at = base + i;
    }
    ∷ mesas_nuevas event_id uuid base (suc i) ds

unfoldable pub crear_mesas : ℕ → (ℕ → ℕ) → List DatosNuevaMesa → Plano → List Mesa × Plano
crear_mesas event_id uuid datos p =
    let creadas =
      mesas_nuevas event_id uuid (mayor p.reloj (ultima event_id p.mesas + 1)) 0 datos in
    (creadas, record p { mesas = p.mesas ++ creadas })

pub record CambiosMesa : Type 0 where
  pub name : Option Text
  pub min_seats : Option ℕ
  pub max_seats : Option ℕ
  pub seat_count : Option ℕ
  pub x : Option ℕ
  pub y : Option ℕ

abbrev pub aplicar : CambiosMesa → Mesa → Mesa
aplicar c m = record m {
  name = get_or c.name m.name;
  min_seats = get_or c.min_seats m.min_seats;
  max_seats = get_or c.max_seats m.max_seats;
  seat_count = get_or c.seat_count m.seat_count;
  x = get_or c.x m.x;
  y = get_or c.y m.y;
}

unfoldable pub actualizar_mesa : ℕ → ℕ → CambiosMesa → SeatingAction Mesa
actualizar_mesa event_id table_id c p = elim (find? (es_mesa event_id table_id) p.mesas) [
  | none ↦ (err mesa_no_encontrada, p)
  | some m ↦ (
    ok (aplicar c m),
    record p { mesas = modify_first (es_mesa event_id table_id) (aplicar c) p.mesas },
  )
]

abbrev pub quitar_donde : (AsignacionGuardada → Bool) → Plano → Plano
quitar_donde predicado p = record p {
  asignaciones = filter (λ a. not (predicado a)) p.asignaciones;
}

unfoldable pub eliminar_mesa : ℕ → ℕ → Plano → Bool × Plano
eliminar_mesa event_id table_id p =
    if any (es_mesa event_id table_id) p.mesas
    then (
      true,
      quitar_donde (λ a. a.asignacion.table_id == table_id)
          (record p { mesas = remove_first (es_mesa event_id table_id) p.mesas }),
    )
    else (false, p)

unfoldable pub listar_asignaciones : ℕ → Plano → List Asignacion
listar_asignaciones event_id p =
    map (λ a. a.asignacion) (filter (λ a. a.event_id == event_id) p.asignaciones)

-- The two unique constraints: one occupant to a seat and one seat to a person.
abbrev pub choca : Asignacion → Asignacion → Bool
choca a x = es_asiento a.table_id a.seat_index x || es_persona a.ocupante x

unfoldable pub asignar : ℕ → Asignacion → SeatingAction (Unit {0})
asignar event_id a p =
    if any (λ x. choca a x.asignacion) p.asignaciones then (err violacion_de_unicidad, p) else (
      ok tt,
      record p {
        asignaciones = p.asignaciones ++ record { event_id = event_id; asignacion = a } ∷ [];
      },
    )

unfoldable pub quitar_ocupantes : ℕ → List Ocupante → Plano → Plano
quitar_ocupantes event_id ocupantes =
    quitar_donde (λ a. a.event_id == event_id && any (λ o. es_persona o a.asignacion) ocupantes)

unfoldable pub quitar_asiento : ℕ → ℕ → ℕ → Plano → Plano
quitar_asiento event_id table_id seat_index =
    quitar_donde (λ a. a.event_id == event_id && es_asiento table_id seat_index a.asignacion)

unfoldable pub buscar_invitado : ℕ → ℕ → Plano → Option InvitadoSentable
buscar_invitado event_id guest_id p =
    elim (find? (λ x. x.invitado.id == guest_id && x.event_id == event_id) p.invitados) [
      | none ↦ none
      | some i ↦ some i.invitado
    ]

unfoldable pub listar_invitados : ℕ → Plano → List InvitadoSentable
listar_invitados event_id p =
    map (λ i. i.invitado) (filter (λ i. i.event_id == event_id) p.invitados)
