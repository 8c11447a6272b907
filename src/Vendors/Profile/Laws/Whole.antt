-- ===== src/Vendors/Profile/Laws/Whole.antt =====
-- What holds of the profiles whatever an owner asks for.
use wedding_planner_backend.Vendors.Profile.Laws.{Sanas}
use wedding_planner_backend.Vendors.Profile.Laws.Requests.{
  Respeta, cambiar_foto-Sanas, guardar_mi_ficha-Sanas, quitar_foto-Sanas, cambiar_paquetes-Sanas,
  cambiar_modo-Sanas,
}
use wedding_planner_backend.Vendors.Profile.UseCases.{
  MundoDeFichas, guardar_mi_ficha, cambiar_modo, quitar_foto, agregar_a_portfolio,
  ordenar_portfolio, cambiar_foto, cambiar_paquetes,
}
use wedding_planner_backend.Storage.{ObjectStorage}
use wedding_planner_backend.Prelude.{◌≡◌, Bool, any, ℕ, false, List}
use wedding_planner_backend.Vendors.Profile.{es_ficha, DatosDeFicha, NuevoPaquete}
use wedding_planner_backend.Vendors.Profile.Laws.Photos.{
  ordenar_portfolio-Sanas, agregar_a_portfolio-Sanas,
}
use wedding_planner_backend.Shared.Text.{Text}

-- A profile has at most 20 photos, each with a key in the folder of its owner, and no two profiles
-- have one id. Saving with an id that is new, the switch, the packages, and adding, describing,
-- removing and ordering photos keep this, answered or refused, whatever requests that keep it and
-- leave the profiles where they are come between their steps: also when several additions overlap.
pub peticiones-Sanas :
    {A : Type 0} (storage : ObjectStorage A) (entorno : ℕ → MundoDeFichas A → MundoDeFichas A)
    (user_id : Text) (m : MundoDeFichas A) (uuid : ℕ)
    → Respeta entorno
    → any (es_ficha uuid) (entorno 0 m).fichas.fichas ≡ false
    → Sanas m.fichas
    → ((datos : DatosDeFicha)
        → Sanas (guardar_mi_ficha storage entorno uuid user_id datos m).1.fichas)
      × ((activo : Bool) → Sanas (cambiar_modo storage entorno user_id activo m).1.fichas)
      × ((ids : ℕ → ℕ) (ps : List NuevoPaquete)
          → Sanas (cambiar_paquetes storage entorno ids user_id ps m).1.fichas)
      × ((foto_id : ℕ) (key alt : Text)
          → Sanas (agregar_a_portfolio storage entorno foto_id user_id key alt m).1.fichas)
      × ((foto_id : ℕ) (alt : Text)
          → Sanas (cambiar_foto storage entorno user_id foto_id alt m).1.fichas)
      × ((foto_id : ℕ) → Sanas (quitar_foto storage entorno user_id foto_id m).1.fichas)
      × ((ids : List ℕ) → Sanas (ordenar_portfolio storage entorno user_id ids m).1.fichas)
peticiones-Sanas storage entorno user_id m uuid r fresh h = (
  λ datos. guardar_mi_ficha-Sanas storage entorno r uuid user_id datos m fresh h,
  λ activo. cambiar_modo-Sanas storage entorno r user_id activo m h,
  λ ids ps. cambiar_paquetes-Sanas storage entorno r ids user_id ps m h,
  λ foto_id key alt. agregar_a_portfolio-Sanas storage entorno r foto_id user_id key alt m h,
  λ foto_id alt. cambiar_foto-Sanas storage entorno r user_id foto_id alt m h,
  λ foto_id. quitar_foto-Sanas storage entorno r user_id foto_id m h,
  λ ids. ordenar_portfolio-Sanas storage entorno r user_id ids m h,
)
