-- ===== src/Seating/Domain.antt =====
-- src/modules/seating/domain: seating.ts and seating-errors.ts. Ids are numbers, in the order of the
-- texts that they stand for; a seat's index and a companion's are not negative, as the DTO and the
-- columns' checks have it.
use wedding_planner_backend.Prelude.{
  ℕ, ◌+◌, ◌==◌, map, false, get_or, Bool, zero, suc, none, ◌∷◌, List, ltb, some, not, ◌%◌, ◌&&◌,
  ◌++◌, get_last?, ◌*◌, leb, [], Option, filter, ◌/◌,
}
use wedding_planner_backend.Shared.Decimal.{print}
use wedding_planner_backend.Shared.Text.{codes, Text}

abbrev pub max_asientos_por_mesa : ℕ
max_asientos_por_mesa = 20

abbrev pub max_mesas_por_evento : ℕ
max_mesas_por_evento = 100

pub data EstadoRsvp : Type 0 where
  confirmed pending declined : EstadoRsvp

pub record InvitadoSentable : Type 0 where
  pub id : ℕ
  pub rsvp : EstadoRsvp
  pub companions_allowed : ℕ
  pub companions_confirmed : Option ℕ

pub record Mesa : Type 0 where
  pub id : ℕ
  pub event_id : ℕ
  pub name : Text
  pub min_seats : ℕ
  pub max_seats : ℕ
  pub seat_count : ℕ
  pub x : ℕ
  pub y : ℕ
  pub created_at : ℕ

pub record Ocupante : Type 0 where
  pub guest_id : ℕ
  pub companion_index : ℕ

pub record Asignacion : Type 0 where
  pub table_id : ℕ
  pub seat_index : ℕ
  pub ocupante : Ocupante

pub record OcupanteVista : Type 0 where
  pub ocupante : Ocupante
  pub sobrante : Bool

pub record AsientoVista : Type 0 where
  pub index : ℕ
  pub occupant : Option OcupanteVista

pub record MesaVista : Type 0 where
  pub mesa : Mesa
  pub seats : List AsientoVista

pub data SeatingError : Type 0 where
  mesa_no_encontrada asiento_fuera_de_rango ocupante_invalido : SeatingError
  asiento_ocupado limite_de_mesas rango_de_asientos_invalido violacion_de_unicidad : SeatingError
  mesa_no_devuelta : SeatingError

abbrev pub plazas_de : InvitadoSentable → ℕ
plazas_de invitado = elim invitado.rsvp [
  | declined ↦ 0
  | _ ↦ 1 + get_or invitado.companions_confirmed invitado.companions_allowed
]

unfoldable pub ocupante_valido : Ocupante → Option InvitadoSentable → Bool
ocupante_valido o none = false
ocupante_valido o (some invitado) = ltb o.companion_index (plazas_de invitado)

abbrev pub es_sobrante : Ocupante → Option InvitadoSentable → Bool
es_sobrante o invitado = not (ocupante_valido o invitado)

unfoldable pub rango_asientos_valido : ℕ → ℕ → ℕ → Bool
rango_asientos_valido min_seats seat_count max_seats =
    leb 1 min_seats
    && (leb min_seats seat_count
        && (leb seat_count max_seats && leb max_seats max_asientos_por_mesa))

unfoldable pub nombre_por_defecto : ℕ → Text
nombre_por_defecto numero = codes "Mesa " ++ print numero

-- `COLUMNAS`, `SEPARACION`, `MARGEN`
abbrev pub columnas : ℕ
columnas = 5

abbrev pub separacion : ℕ
separacion = 220

abbrev pub margen : ℕ
margen = 40

unfoldable pub posicion_en_cuadricula : ℕ → ℕ × ℕ
posicion_en_cuadricula i =
    (margen + (i % columnas) * separacion, margen + (i / columnas) * separacion)

-- The index `0..n-1` from `Array.from({ length: n }, …)`.
abbrev pub rango_desde : ℕ → ℕ → List ℕ
rango_desde i zero = []
rango_desde i (suc n) = i ∷ rango_desde (suc i) n

abbrev pub es_asiento : ℕ → ℕ → Asignacion → Bool
es_asiento table_id seat_index a = a.table_id == table_id && a.seat_index == seat_index

abbrev pub es_persona : Ocupante → Asignacion → Bool
es_persona o a =
    a.ocupante.guest_id == o.guest_id && a.ocupante.companion_index == o.companion_index

-- A map made from pairs keeps the last value of each key.
unfoldable pub por_asiento : List Asignacion → ℕ → ℕ → Option Asignacion
por_asiento asignaciones table_id seat_index =
    get_last? (filter (es_asiento table_id seat_index) asignaciones)

unfoldable pub por_id : List InvitadoSentable → ℕ → Option InvitadoSentable
por_id invitados id = get_last? (filter (λ i. i.id == id) invitados)

abbrev pub armar_asiento : List Asignacion → List InvitadoSentable → Mesa → ℕ → AsientoVista
armar_asiento asignaciones invitados mesa index = record {
  index = index;
  occupant = elim (por_asiento asignaciones mesa.id index) [
    | none ↦ none
    | some a ↦ some (record {
      ocupante = a.ocupante;
      sobrante = es_sobrante a.ocupante (por_id invitados a.ocupante.guest_id);
    })
  ];
}

unfoldable pub armar_distribucion :
    List Mesa → List Asignacion → List InvitadoSentable → List MesaVista
armar_distribucion mesas asignaciones invitados =
    map
      (λ mesa. record {
        mesa = mesa;
        seats = map (armar_asiento asignaciones invitados mesa) (rango_desde 0 mesa.seat_count);
      })
      mesas
