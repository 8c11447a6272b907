-- ===== src/Vendors/Profile/Laws/Requests.antt =====
-- The requests on profiles keep what holds of them, among the requests of others.
use wedding_planner_backend.Vendors.Profile.Views.{a_vista}
use wedding_planner_backend.Vendors.Profile.UseCases.{
  MundoDeFichas, exigir, cambiar_modo, ficha_no_encontrada, guardar_mi_ficha, vista, leer_mi_ficha,
  cambiar_foto, quitar_foto, cambiar_paquetes,
}
use wedding_planner_backend.Prelude.{
  ℕ, Bool, arith, any, inr, some, false, Option-cases, ◌≡◌, inl, find?, ◌⊎◌, suc, List, Bool-cases,
}
use wedding_planner_backend.Storage.{ObjectStorage}
use wedding_planner_backend.Vendors.Profile.Laws.{Sanas}
use wedding_planner_backend.Vendors.Profile.{
  es_de, es_ficha, FichaDeProveedor, Fila, guardar_datos, contar_bodas, copia, DatosDeFicha,
  buscar_por_usuario, estado_al_cambiar_modo, fijar_estado, borrar_foto, cambiar_alt,
  reemplazar_paquetes, NuevoPaquete,
}
use wedding_planner_backend.Vendors.Profile.Laws.Portfolio.{
  guardar_datos-Sanas, reemplazar_paquetes-Sanas, borrar_foto-Sanas, cambiar_alt-Sanas,
  fijar_estado-Sanas,
}
use wedding_planner_backend.Shared.Text.{Text}
use wedding_planner_backend.Prelude.Monad.{ok, err}

-- The other requests keep it too, and no profile goes or changes its id.
pub record Respeta {A : Type 0} (entorno : ℕ → MundoDeFichas A → MundoDeFichas A) : Type 0 where
  pub sanas : (k : ℕ) (m : MundoDeFichas A) → Sanas m.fichas → Sanas (entorno k m).fichas
  pub fija :
      (k : ℕ) (m : MundoDeFichas A) (user_id : Text) (f : Fila)
      → find? (es_de user_id) m.fichas.fichas ≡ some f
      → (g : Fila) × (find? (es_de user_id) (entorno k m).fichas.fichas ≡ some g) × (g.id ≡ f.id)

module _ {A : Type 0} (storage : ObjectStorage A) (entorno : ℕ → MundoDeFichas A → MundoDeFichas A)
    (r : Respeta entorno) where
  vista-Sanas :
      (k : ℕ) (ficha : FichaDeProveedor) (m : MundoDeFichas A)
      → Sanas m.fichas
      → Sanas (vista storage entorno k ficha m).1.fichas
  unfolding vista
  vista-Sanas k ficha m h =
      let bodas = contar_bodas ficha.fila.id (entorno k m).fichas in
      elim (Option-cases (a_vista storage.firmar_lectura ficha bodas)) [
        | inl bad ↦ grind (arith, bad, r.sanas k m h)
        | inr (v, good) ↦ grind (arith, good, r.sanas k m h)
      ]

  -- What `exigir` leaves: the others' writes, and the user's row.
  pub exigir-cases :
      (k : ℕ) (user_id : Text) (m : MundoDeFichas A)
      → (exigir storage entorno k user_id m ≡ (err ficha_no_encontrada, entorno k m))
        ⊎ ((f : Fila) × (find? (es_de user_id) (entorno k m).fichas.fichas ≡ some f)
            × (exigir storage entorno k user_id m
                ≡ (ok (copia (entorno k m).fichas f), entorno k m)))
  unfolding exigir buscar_por_usuario
  exigir-cases k user_id m =
      elim (Option-cases (find? (es_de user_id) (entorno k m).fichas.fichas)) [
        | inl missing ↦ inl (grind (arith, missing))
        | inr (f, found) ↦ inr (f, found, grind (arith, found))
      ]

  pub leer-Sanas :
      (k : ℕ) (user_id : Text) (m : MundoDeFichas A)
      → Sanas m.fichas
      → Sanas (leer_mi_ficha storage entorno k user_id m).1.fichas
  unfolding leer_mi_ficha
  leer-Sanas k user_id m h =
      let h1 = r.sanas k m h in
      elim (exigir-cases k user_id m) [
        | inl gone ↦ grind (arith, gone, h1)
        | inr (f, found, there) ↦
            grind
              (arith, there, vista-Sanas (suc k) (copia (entorno k m).fichas f) (entorno k m) h1)
      ]

  pub guardar_mi_ficha-Sanas :
      (uuid : ℕ) (user_id : Text) (datos : DatosDeFicha) (m : MundoDeFichas A)
      → any (es_ficha uuid) (entorno 0 m).fichas.fichas ≡ false
      → Sanas m.fichas
      → Sanas (guardar_mi_ficha storage entorno uuid user_id datos m).1.fichas
  unfolding guardar_mi_ficha
  guardar_mi_ficha-Sanas uuid user_id datos m fresh h =
      let m1 = entorno 0 m in
      let w = guardar_datos uuid user_id datos m1.fichas in
      let m2 : MundoDeFichas A = record m1 { fichas = w.1 } in
      let h2 : Sanas m2.fichas =
        guardar_datos-Sanas uuid user_id datos m1.fichas fresh (r.sanas 0 m h) in
      vista-Sanas 1 w.0 m2 h2

  pub cambiar_modo-Sanas :
      (user_id : Text) (activo : Bool) (m : MundoDeFichas A)
      → Sanas m.fichas
      → Sanas (cambiar_modo storage entorno user_id activo m).1.fichas
  unfolding cambiar_modo
  cambiar_modo-Sanas user_id activo m h =
      let m1 = entorno 0 m in
      let h1 = r.sanas 0 m h in
      elim (exigir-cases 0 user_id m) [
        | inl gone ↦ grind (arith, gone, h1)
        | inr (f, found, there) ↦ elim (Option-cases (estado_al_cambiar_modo f.status activo)) [
          | inl stuck ↦ grind (arith, there, stuck, h1)
          | inr (estado, free) ↦
              let m2 = entorno 1 m1 in
              let m3 : MundoDeFichas A = record m2 {
                fichas = fijar_estado f.id estado m2.fichas;
              } in
              let h3 : Sanas m3.fichas =
                fijar_estado-Sanas f.id estado m2.fichas (r.sanas 1 m1 h1) in
              let c = copia m1.fichas f in
              let c' : FichaDeProveedor = record c { fila = record f { status = estado } } in
              grind (arith, there, free, vista-Sanas 2 c' m3 h3)
        ]
      ]

  pub cambiar_paquetes-Sanas :
      (uuid : ℕ → ℕ) (user_id : Text) (ps : List NuevoPaquete) (m : MundoDeFichas A)
      → Sanas m.fichas
      → Sanas (cambiar_paquetes storage entorno uuid user_id ps m).1.fichas
  unfolding cambiar_paquetes
  cambiar_paquetes-Sanas uuid user_id ps m h =
      let m1 = entorno 0 m in
      let h1 = r.sanas 0 m h in
      elim (exigir-cases 0 user_id m) [
        | inl gone ↦ grind (arith, gone, h1)
        | inr (f, found, there) ↦
            let m2 = entorno 1 m1 in
            let m3 : MundoDeFichas A = record m2 {
              fichas = reemplazar_paquetes uuid f.id ps m2.fichas;
            } in
            let h3 : Sanas m3.fichas =
              reemplazar_paquetes-Sanas uuid f.id ps m2.fichas (r.sanas 1 m1 h1) in
            grind (arith, there, leer-Sanas 2 user_id m3 h3)
      ]

  pub cambiar_foto-Sanas :
      (user_id : Text) (foto_id : ℕ) (alt : Text) (m : MundoDeFichas A)
      → Sanas m.fichas
      → Sanas (cambiar_foto storage entorno user_id foto_id alt m).1.fichas
  unfolding cambiar_foto
  cambiar_foto-Sanas user_id foto_id alt m h =
      let m1 = entorno 0 m in
      let h1 = r.sanas 0 m h in
      elim (exigir-cases 0 user_id m) [
        | inl gone ↦ grind (arith, gone, h1)
        | inr (f, found, there) ↦
            let m2 = entorno 1 m1 in
            let w = cambiar_alt f.id foto_id alt m2.fichas in
            let m3 : MundoDeFichas A = record m2 { fichas = w.1 } in
            let h3 : Sanas m3.fichas =
              cambiar_alt-Sanas f.id foto_id alt m2.fichas (r.sanas 1 m1 h1) in
            elim (Bool-cases w.0) [
              | inl was ↦ grind (arith, there, was, leer-Sanas 2 user_id m3 h3)
              | inr was ↦ grind (arith, there, was, h3)
            ]
      ]

  pub quitar_foto-Sanas :
      (user_id : Text) (foto_id : ℕ) (m : MundoDeFichas A)
      → Sanas m.fichas
      → Sanas (quitar_foto storage entorno user_id foto_id m).1.fichas
  unfolding quitar_foto
  quitar_foto-Sanas user_id foto_id m h =
      let m1 = entorno 0 m in
      let h1 = r.sanas 0 m h in
      elim (exigir-cases 0 user_id m) [
        | inl gone ↦ grind (arith, gone, h1)
        | inr (f, found, there) ↦
            let m2 = entorno 1 m1 in
            let w = borrar_foto f.id foto_id m2.fichas in
            let m3 : MundoDeFichas A = record m2 { fichas = w.1 } in
            let h3 : Sanas m3.fichas = borrar_foto-Sanas f.id foto_id m2.fichas (r.sanas 1 m1 h1) in
            elim (Option-cases w.0) [
              | inl missing ↦ grind (arith, there, missing, h3)
              | inr (key, was) ↦ grind (arith, there, was, r.sanas 2 m3 h3)
            ]
      ]
