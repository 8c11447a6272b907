-- ===== src/Seating/Tests.antt =====
-- Seating at concrete inputs: event 1 has table 10 with four seats, where guest 5 sits in seat 0 and
-- guest 6, who may bring one companion, in seat 1.
use wedding_planner_backend.Prelude.{
  ℕ, ◌∷◌, List, some, arith, ◌+◌, ◌≡◌, [], refl, none, All, true, find?,
}
use wedding_planner_backend.Shared.Text.{codes}
use wedding_planner_backend.Seating.Domain.{
  Ocupante, Mesa, confirmed, Asignacion, ocupante_valido, rango_asientos_valido, es_asiento,
  es_persona,
}
use wedding_planner_backend.Seating.UseCases.{asignar_asiento, sentar, colocar}
use wedding_planner_backend.Seating.Store.{
  InvitadoGuardado, quitar_ocupantes, contar_mesas, Plano, buscar_invitado, buscar_mesa,
  listar_asignaciones, asignar,
}
use wedding_planner_backend.Seating.UseCases.Invariant.{Valido}
use wedding_planner_backend.Seating.UseCases.NewTables.{
  sienta, borra, atender, actualiza, Peticion, atender_todas, crea, atender_todas-Valido,
}
use wedding_planner_backend.Prelude.Monad.{ok}
use wedding_planner_backend.Seating.UseCases.Exchange.{Propia}
use wedding_planner_backend.Seating.UseCases.Total.{colocar_succeeds}
use wedding_planner_backend.Seating.UseCases.Swap.{sentado, intercambiados}

abbrev mesa : Mesa
mesa = record {
  id = 10;
  event_id = 1;
  name = codes "Mesa 1";
  min_seats = 2;
  max_seats = 8;
  seat_count = 4;
  x = 40;
  y = 40;
  created_at = 0;
}

abbrev persona : ℕ → ℕ → Ocupante
persona guest companion = record { guest_id = guest; companion_index = companion }

abbrev en : ℕ → Ocupante → Asignacion
en seat o = record { table_id = 10; seat_index = seat; ocupante = o }

abbrev invitado : ℕ → InvitadoGuardado
invitado id = record {
  event_id = 1;
  invitado = record {
    id = id;
    rsvp = confirmed;
    companions_allowed = 1;
    companions_confirmed = none;
  };
}

abbrev plano : Plano
plano = record {
  mesas = mesa ∷ [];
  asignaciones =
      record { event_id = 1; asignacion = en 0 (persona 5 0) }
      ∷ record { event_id = 1; asignacion = en 1 (persona 6 0) }
      ∷ [];
  invitados = invitado 5 ∷ invitado 6 ∷ [];
  reloj = 50;
}

plano-Valido : Valido plano
unfolding rango_asientos_valido contar_mesas
plano-Valido = record {
  sin_choques = (refl, (refl, tt));
  caben = (refl, (refl, tt));
  mesas_validas = (refl, tt);
  limite = λ g. ground arith;
}

-- An exchange, a companion, a table more, a shrink that is refused, and a table less.
abbrev peticiones : List Peticion
peticiones =
    sienta 1 (en 1 (persona 5 0))
    ∷ sienta 1 (en 2 (persona 6 1))
    ∷ crea 1 (λ i. 11 + i) none 2 8
    ∷ actualiza 1 10 (record {
      name = none;
      min_seats = none;
      max_seats = none;
      seat_count = some 2;
      x = none;
      y = none;
    })
    ∷ borra 1 11
    ∷ []

atender_todas-Valido_example : Valido (atender_todas peticiones plano)
atender_todas-Valido_example = atender_todas-Valido peticiones plano plano-Valido

exchanged :
    (atender (sienta 1 (en 1 (persona 5 0))) plano).asignaciones
    ≡ record { event_id = 1; asignacion = en 1 (persona 5 0) }
      ∷ record { event_id = 1; asignacion = en 0 (persona 6 0) }
      ∷ []
unfolding asignar_asiento buscar_mesa buscar_invitado ocupante_valido colocar sentar
    listar_asignaciones quitar_ocupantes asignar
exchanged = refl

abbrev siempre_1 : ℕ → ℕ
siempre_1 id = 1

plano-Propia : All (Propia siempre_1 siempre_1 1) plano.asignaciones
plano-Propia = ((refl, refl), ((refl, refl), tt))

colocar_succeeds_example :
    let (r, p') = colocar 1 (en 1 (persona 5 0)) plano in
    (r ≡ ok tt)
    × (sentado 1 (en 1 (persona 5 0)) p'.asignaciones ≡ true)
    × (intercambiados 1
          (find? (es_persona (persona 5 0)) (listar_asignaciones 1 plano))
          (find? (es_asiento 10 1) (listar_asignaciones 1 plano))
          p'.asignaciones
        ≡ true)
colocar_succeeds_example =
    colocar_succeeds siempre_1 siempre_1 1 (en 1 (persona 5 0)) plano plano-Propia
      plano-Valido.sin_choques refl refl
