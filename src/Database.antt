-- ===== src/Database.antt =====
-- src/modules/database/application/unidad-de-trabajo.ts: what is written inside `ejecutar` is kept
-- together or not at all; if the work throws, all of it is undone and the error goes out as it is.
use wedding_planner_backend.Prelude.Monad.{Action, ok, err}

abbrev pub en_transaccion : {S E A : Type 0} → Action S E A → Action S E A
en_transaccion trabajo s =
    let (r, s') = trabajo s in elim r [ ok a ↦ (ok a, s') | err e ↦ (err e, s) ]
