-- ===== src/Schedule/Tests.antt =====
-- The schedule at concrete inputs: two items of event 1, the later one first.
use wedding_planner_backend.Prelude.{ℕ, [], Option, ◌∷◌, some, refl, none}
use wedding_planner_backend.Schedule.{
  atender_todas, pide_editar, CambiosItem, rango_valido, Cronograma, ScheduleItem, pendiente,
}
use wedding_planner_backend.Prelude.Int.{ℤ, pos}
use wedding_planner_backend.Schedule.Laws.{atender_todas-ConRangos, ConRangos}

abbrev item : ℕ → ℤ → Option ℤ → ScheduleItem
item id starts_at ends_at = record {
  id = id;
  event_id = 1;
  title = [];
  description = none;
  starts_at = starts_at;
  ends_at = ends_at;
  location = none;
  status = pendiente;
  created_at = 0;
  updated_at = 0;
}

abbrev cronograma : Cronograma
cronograma = record {
  items = item 7 (pos 90) (some (pos 95)) ∷ item 3 (pos 40) none ∷ [];
  reloj = 5;
}

abbrev adelanta : CambiosItem
adelanta = record {
  title = none;
  description = none;
  starts_at = some (pos 99);
  ends_at = none;
  location = none;
  status = none;
}

cronograma-ConRangos : ConRangos cronograma
unfolding rango_valido
cronograma-ConRangos = (refl, (refl, tt))

atender_todas-ConRangos_example :
    ConRangos (atender_todas (pide_editar 1 7 adelanta ∷ pide_editar 1 3 adelanta ∷ []) cronograma)
atender_todas-ConRangos_example =
    atender_todas-ConRangos (pide_editar 1 7 adelanta ∷ pide_editar 1 3 adelanta ∷ []) cronograma
      cronograma-ConRangos
