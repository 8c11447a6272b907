-- ===== src/Vendors/Profile/Laws/Photos.antt =====
-- The requests that write the photos under the lock of the profile keep what holds of them.
use wedding_planner_backend.Storage.{ObjectStorage, confirmar, con_barra, confirmar-Confirmada}
use wedding_planner_backend.Vendors.Profile.Laws.{Sanas}
use wedding_planner_backend.Vendors.Profile.Laws.Requests.{Respeta, exigir-cases, leer-Sanas}
use wedding_planner_backend.Vendors.Profile.UseCases.{
  MundoDeFichas, fotos_de, ordenar_si_vale, FichaAction, agregar_a_portfolio, orden_valido,
  soltar_si_no_cabe, agregar_si_cabe, ordenar_portfolio,
}
use wedding_planner_backend.Prelude.{
  map, leb, Option-cases, some, List, length, ◌≤◌, sym, refl, ◌∙◌, Bool-cases, ◌≡◌, inl, find?, ℕ,
  true, [], inr, arith, ◌∷◌,
}
use wedding_planner_backend.Database.{en_transaccion}
use wedding_planner_backend.Vendors.Profile.{
  es_de, prefijo_de_portfolio, buscar_por_usuario, Fila, reordenar_fotos, max_fotos_portfolio,
  agregar_foto, FotoDePortfolio,
}
use wedding_planner_backend.Vendors.Profile.Laws.Portfolio.{
  reordenar_fotos-Sanas, agregar_foto-Sanas,
}
use wedding_planner_backend.Shared.Text.{Text, starts_with}
use wedding_planner_backend.Prelude.Monad.{Result-cases, ok}

length-map : {A B : Type 0} (f : A → B) (xs : List A) → length (map f xs) ≡ length xs
length-map f [] = refl
length-map f (x ∷ xs) = ground (arith, length-map f xs)

orden_valido-length :
    (ids : List ℕ) (fotos : List FotoDePortfolio)
    → orden_valido ids (map (λ p. p.id) fotos) ≡ true
    → length ids ≤ length fotos
unfolding orden_valido
orden_valido-length ids fotos h = grind (arith, length-map (λ (p : FotoDePortfolio). p.id) fotos, h)

module _ {A : Type 0} (storage : ObjectStorage A)
    (entorno : ℕ → MundoDeFichas A → MundoDeFichas A) where
  -- In the transactions: the photos that are counted are those of the row that is written.
  pub fotos_de-found :
      (user_id : Text) (f : Fila) (m : MundoDeFichas A)
      → find? (es_de user_id) m.fichas.fichas ≡ some f
      → fotos_de storage entorno user_id m ≡ f.portfolio
  unfolding buscar_por_usuario
  fotos_de-found user_id f m e = grind (arith, e)

  agregar_si_cabe-Sanas :
      (uuid : ℕ) (user_id key alt : Text) (f : Fila) (m : MundoDeFichas A)
      → find? (es_de user_id) m.fichas.fichas ≡ some f
      → starts_with key (con_barra (prefijo_de_portfolio user_id) []) ≡ true
      → Sanas m.fichas
      → Sanas
          (en_transaccion (agregar_si_cabe storage entorno uuid user_id f.id key alt) m).1.fichas
  unfolding agregar_si_cabe
  agregar_si_cabe-Sanas uuid user_id key alt f m e own h =
      let q = fotos_de-found user_id f m e in
      elim (Bool-cases (leb max_fotos_portfolio (length f.portfolio))) [
        | inl full ↦ grind (arith, q, full, h)
        | inr room ↦
            let w = agregar_foto uuid f.id key alt m.fichas in
            let h1 : Sanas w.1 = agregar_foto-Sanas uuid user_id key alt f m.fichas e room own h in
            elim (Option-cases w.0) [
              | inl missing ↦ grind (arith, q, room, missing, h)
              | inr (p, done) ↦ grind (arith, q, room, done, h1)
            ]
      ]

  soltar_fichas :
      (key : Text) (trabajo : FichaAction storage entorno (Unit {0})) (m : MundoDeFichas A)
      → (soltar_si_no_cabe storage entorno key trabajo m).1.fichas ≡ (trabajo m).1.fichas
  soltar_fichas key trabajo m = elim (Result-cases (trabajo m).0) [
    | inl (b, e) ↦ grind (arith, e)
    | inr (e, q) ↦ grind (arith, q)
  ]

module _ {A : Type 0} (storage : ObjectStorage A) (entorno : ℕ → MundoDeFichas A → MundoDeFichas A)
    (r : Respeta entorno) where
  -- The row of the user after two more waits.
  al_escribir :
      (user_id : Text) (f : Fila) (m m' : MundoDeFichas A) (k : ℕ)
      → find? (es_de user_id) m.fichas.fichas ≡ some f
      → m'.fichas ≡ (entorno 1 m).fichas
      → (g : Fila) × (find? (es_de user_id) (entorno k m').fichas.fichas ≡ some g) × (g.id ≡ f.id)
  al_escribir user_id f m m' k e q =
      let (f2, e2, i2) = r.fija 1 m user_id f e in
      let (f3, e3, i3) = r.fija k m' user_id f2 (rw q e2) in (f3, e3, i3 ∙ i2)

  confirmada-own :
      (prefijo key : Text) (a : A)
      → (confirmar storage prefijo key a).0 ≡ ok tt
      → starts_with key (con_barra prefijo []) ≡ true
  confirmada-own prefijo key a e = (confirmar-Confirmada storage prefijo key a e).0.bajo_prefijo

  pub agregar_a_portfolio-Sanas :
      (uuid : ℕ) (user_id key alt : Text) (m : MundoDeFichas A)
      → Sanas m.fichas
      → Sanas (agregar_a_portfolio storage entorno uuid user_id key alt m).1.fichas
  unfolding agregar_a_portfolio
  agregar_a_portfolio-Sanas uuid user_id key alt m h =
      let m1 = entorno 0 m in
      let h1 = r.sanas 0 m h in
      let m2 = entorno 1 m1 in
      let h2 = r.sanas 1 m1 h1 in
      let c = confirmar storage (prefijo_de_portfolio user_id) key m2.almacen in
      let m3 : MundoDeFichas A = record m2 { almacen = c.1 } in
      let m4 = entorno 2 m3 in
      let h4 = r.sanas 2 m3 h2 in
      elim (exigir-cases storage entorno r 0 user_id m) [
        | inl gone ↦ grind (arith, gone, h1)
        | inr (f, found, there) ↦ elim (Result-cases c.0) [
          | inr (e, refused) ↦ grind (arith, there, refused, h2)
          | inl (u, kept) ↦
              let (g, e, i) = al_escribir user_id f m1 m3 2 found refl in
              let t = en_transaccion (agregar_si_cabe storage entorno uuid user_id f.id key alt) in
              let h5 : Sanas (t m4).1.fichas = rw (sym i) (
                agregar_si_cabe-Sanas storage entorno uuid user_id key alt g m4 e
                  (confirmada-own (prefijo_de_portfolio user_id) key m2.almacen kept) h4) in
              let w = soltar_si_no_cabe storage entorno key t m4 in
              let h6 : Sanas w.1.fichas = rw (soltar_fichas storage entorno key t m4) h5 in
              elim (Result-cases w.0) [
                | inl (v, done) ↦
                    grind (arith, there, kept, done, leer-Sanas storage entorno r 3 user_id w.1 h6)
                | inr (x, failed) ↦ grind (arith, there, kept, failed, h6)
              ]
        ]
      ]

  ordenar_si_vale-Sanas :
      (user_id : Text) (ids : List ℕ) (f : Fila) (m : MundoDeFichas A)
      → find? (es_de user_id) m.fichas.fichas ≡ some f
      → Sanas m.fichas
      → Sanas (en_transaccion (ordenar_si_vale storage entorno user_id f.id ids) m).1.fichas
  unfolding ordenar_si_vale
  ordenar_si_vale-Sanas user_id ids f m e h =
      let q = fotos_de-found storage entorno user_id f m e in
      elim (Bool-cases (orden_valido ids (map (λ p. p.id) f.portfolio))) [
        | inr bad ↦ grind (arith, q, bad, h)
        | inl good ↦
            let h1 : Sanas (reordenar_fotos f.id ids m.fichas) =
              reordenar_fotos-Sanas user_id f ids m.fichas e
                (orden_valido-length ids f.portfolio good) h in
            grind (arith, q, good, h1)
      ]

  pub ordenar_portfolio-Sanas :
      (user_id : Text) (ids : List ℕ) (m : MundoDeFichas A)
      → Sanas m.fichas
      → Sanas (ordenar_portfolio storage entorno user_id ids m).1.fichas
  unfolding ordenar_portfolio
  ordenar_portfolio-Sanas user_id ids m h =
      let m1 = entorno 0 m in
      let h1 = r.sanas 0 m h in
      let m2 = entorno 1 m1 in
      let h2 = r.sanas 1 m1 h1 in
      elim (exigir-cases storage entorno r 0 user_id m) [
        | inl gone ↦ grind (arith, gone, h1)
        | inr (f, found, there) ↦
            let (g, e, i) = r.fija 1 m1 user_id f found in
            let t = en_transaccion (ordenar_si_vale storage entorno user_id f.id ids) in
            let h3 : Sanas (t m2).1.fichas =
              rw (sym i) (ordenar_si_vale-Sanas user_id ids g m2 e h2) in
            elim (Result-cases (t m2).0) [
              | inl (v, done) ↦
                  grind (arith, there, done, leer-Sanas storage entorno r 2 user_id (t m2).1 h3)
              | inr (x, failed) ↦ grind (arith, there, failed, h3)
            ]
      ]
