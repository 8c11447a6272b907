-- ===== src/Vendors/Profile/Laws/Public.antt =====
-- What the public sees of a profile.
use mathlib.Core.Path.{subst}
use wedding_planner_backend.Vendors.Profile.Views.{
  a_vista, precio_desde, SimilarVista, FichaVista, precios, a_similares, a_similar,
}
use wedding_planner_backend.Vendors.Profile.UseCases.{
  MundoDeFichas, leer_publica, vista, leer_publica, vista,
}
use wedding_planner_backend.Prelude.{
  some, refl, [], sym, ◌≡◌, ◌∷◌, inl, All, List, Option-cases, inr, Option, false, arith, true,
  filter, ◌==◌, ◌&&◌, ℕ, length, map, find?, zero, take, Bool, not, suc, ◌≤◌, none, ap, find?-sound,
}
use wedding_planner_backend.Shared.Text.{Text, text_eq}
use wedding_planner_backend.Vendors.Profile.{
  insertar_por_alta, Fila, Fichas, max_similares, ordenar_por_alta, copia, contar_bodas, similares,
  buscar_publicada, FichaDeProveedor,
}
use wedding_planner_backend.Vendors.Contracts.{es_publicado, EstadoDeFicha}
use wedding_planner_backend.Storage.{ObjectStorage}
use wedding_planner_backend.Prelude.Monad.{ok}

-- What a profile that may be shown to anybody is, and what is shown beside it.
pub record Publica (id : ℕ) (s : Fichas) (v : FichaVista) (vs : List SimilarVista) : Type 0 where
  pub fila : Fila
  pub guardada : find? (λ f. f.id == id && es_publicado f.status) s.fichas ≡ some fila
  pub del_id : v.id ≡ id
  pub visible : es_publicado v.status ≡ true
  pub pocas : length vs ≤ max_similares
  pub otras : All (λ w. (w.id == id) ≡ false) vs

length-take : {B : Type 0} (n : ℕ) (xs : List B) → length (take n xs) ≤ n
length-take zero xs = omega arith
length-take (suc n) [] = omega arith
length-take (suc n) (x ∷ xs) = omega (arith, length-take n xs)

All-take : {B : Type 0} (P : B → Type 0) (n : ℕ) (xs : List B) → All P xs → All P (take n xs)
All-take P zero xs h = tt
All-take P (suc n) [] h = tt
All-take P (suc n) (x ∷ xs) h = (h.0, All-take P n xs h.1)

All-insertar :
    (P : Fila → Type 0) (x : Fila) (ys : List Fila)
    → P x
    → All P ys
    → All P (insertar_por_alta x ys)
All-insertar P x [] p h = (p, tt)
All-insertar P x (y ∷ ys) p h = ground (arith, All-insertar P x ys p h.1)

All-ordenar : (P : Fila → Type 0) (xs : List Fila) → All P xs → All P (ordenar_por_alta xs)
All-ordenar P [] h = tt
All-ordenar P (x ∷ xs) h = All-insertar P x (ordenar_por_alta xs) h.0 (All-ordenar P xs h.1)

filter-otras :
    (q : Fila → Bool) (id : ℕ) (fs : List Fila)
    → All (λ f. (f.id == id) ≡ false) (filter (λ f. not (f.id == id) && q f) fs)
filter-otras q id [] = tt
filter-otras q id (f ∷ fs) = ground (arith, filter-otras q id fs)

abbrev id_similar : ℕ → Option SimilarVista → ℕ
id_similar id none = id
id_similar id (some w) = w.id

a_similar-id :
    (firmar : Text → Option Text) (c : FichaDeProveedor)
    → id_similar c.fila.id (a_similar firmar c) ≡ c.fila.id
unfolding a_similar
a_similar-id firmar c = elim (Option-cases (precio_desde (precios c.fila))) [
  | inl bad ↦ grind (arith, bad)
  | inr (desde, good) ↦ grind (arith, good)
]

a_similares-same :
    (firmar : Text → Option Text) (s : Fichas) (id : ℕ) (fs : List Fila) (vs : List SimilarVista)
    → a_similares firmar (map (copia s) fs) ≡ some vs
    → All (λ f. (f.id == id) ≡ false) fs
    → (length vs ≡ length fs) × All (λ w. (w.id == id) ≡ false) vs
a_similares-same firmar s id [] vs e h = let q : [] ≡ vs = grind (arith, e) in rw (sym q) (refl, tt)
a_similares-same firmar s id (f ∷ fs) vs e h = elim (Option-cases (a_similar firmar (copia s f))) [
  | inl bad ↦ absurd (grind (arith, bad, e))
  | inr (w, good) ↦ elim (Option-cases (a_similares firmar (map (copia s) fs))) [
    | inl bad ↦ absurd (grind (arith, good, bad, e))
    | inr (ws, rest) ↦
        let more = a_similares-same firmar s id fs ws rest h.1 in
        let same : w.id ≡ f.id = grind (arith, good, a_similar-id firmar (copia s f)) in
        let q : w ∷ ws ≡ vs = grind (arith, good, rest, e) in
        rw (sym q) (omega (arith, more.0), (ground (arith, same, h.0), more.1))
  ]
]

similares-otras :
    (to_lower_case : Text → Text) (firmar : Text → Option Text) (f : Fila) (s : Fichas)
    (vs : List SimilarVista)
    → a_similares firmar (similares to_lower_case f max_similares s) ≡ some vs
    → (length vs ≤ max_similares) × All (λ w. (w.id == f.id) ≡ false) vs
unfolding similares
similares-otras to_lower_case firmar f s vs e =
    let q : Fila → Bool = λ g.
      es_publicado g.status
      && text_eq (to_lower_case g.datos.category) (to_lower_case f.datos.category) in
    let todas = ordenar_por_alta (filter (λ g. not (g.id == f.id) && q g) s.fichas) in
    let fuera : All (λ g. (g.id == f.id) ≡ false) (take max_similares todas) =
      All-take (λ g. (g.id == f.id) ≡ false) max_similares todas
        (All-ordenar (λ g. (g.id == f.id) ≡ false)
          (filter (λ g. not (g.id == f.id) && q g) s.fichas) (filter-otras q f.id s.fichas)) in
    let same = a_similares-same firmar s f.id (take max_similares todas) vs e fuera in
    (omega (arith, same.0, length-take max_similares todas), same.1)

abbrev id_y_estado : ℕ × EstadoDeFicha → Option FichaVista → ℕ × EstadoDeFicha
id_y_estado d none = d
id_y_estado d (some v) = (v.id, v.status)

a_vista-same :
    (firmar : Text → Option Text) (c : FichaDeProveedor) (n : ℕ)
    → id_y_estado (c.fila.id, c.fila.status) (a_vista firmar c n) ≡ (c.fila.id, c.fila.status)
unfolding a_vista
a_vista-same firmar c n = elim (Option-cases (precio_desde (precios c.fila))) [
  | inl bad ↦ grind (arith, bad)
  | inr (desde, good) ↦ grind (arith, good)
]

-- Whatever other requests do, a public reading that answers shows the profile of that id, which was
-- published when it was read, and beside it at most four others.
pub leer_publica-Publica :
    {A : Type 0} (storage : ObjectStorage A) (entorno : ℕ → MundoDeFichas A → MundoDeFichas A)
    (to_lower_case : Text → Text) (id : ℕ) (m : MundoDeFichas A) (v : FichaVista)
    (vs : List SimilarVista)
    → (leer_publica storage entorno to_lower_case id m).0 ≡ ok (v, vs)
    → Publica id (entorno 0 m).fichas v vs
unfolding leer_publica vista buscar_publicada
leer_publica-Publica storage entorno to_lower_case id m v vs h =
    let m1 = entorno 0 m in
    let m3 = entorno 2 (entorno 1 m1) in
    elim (Option-cases (find? (λ f. f.id == id && es_publicado f.status) m1.fichas.fichas)) [
      | inl missing ↦ absurd (grind (arith, missing, h))
      | inr (f, found) ↦
          let sound : (f.id == id && es_publicado f.status) ≡ true =
            find?-sound (λ f. f.id == id && es_publicado f.status) m1.fichas.fichas f found in
          let c = copia m1.fichas f in
          let n = contar_bodas f.id m3.fichas in
          elim (Option-cases (a_vista storage.firmar_lectura c n)) [
            | inl bad ↦ absurd (grind (arith, found, bad, h))
            | inr (w, good) ↦
                elim (Option-cases (
                  a_similares storage.firmar_lectura
                    (similares to_lower_case f max_similares m3.fichas))) [
                      | inl bad ↦ absurd (grind (arith, found, good, bad, h))
                      | inr (ws, rest) ↦
                          let eq1 : w ≡ v = grind (arith, found, good, rest, h) in
                          let eq2 : ws ≡ vs = grind (arith, found, good, rest, h) in
                          let otras =
                            similares-otras to_lower_case storage.firmar_lectura f m3.fichas ws
                              rest in
                          let par : ℕ × EstadoDeFicha = (w.id, w.status) in
                          let par' : ℕ × EstadoDeFicha = (f.id, f.status) in
                          let same : par ≡ par' =
                            grind (arith, good, a_vista-same storage.firmar_lectura c n) in
                          let id_is : f.id ≡ id = ground (arith, sound) in
                          record {
                            fila = f;
                            guardada = found;
                            del_id = grind (arith, eq1, ap (λ p. p.0) same, id_is);
                            visible = grind (arith, eq1, ap (λ p. p.1) same, sound);
                            pocas = subst (λ z. length z ≤ max_similares) eq2 otras.0;
                            otras =
                                subst (λ z. All (λ q. (q.id == id) ≡ false) z) eq2
                                  (subst (λ i. All (λ q. (q.id == i) ≡ false) ws) id_is otras.1);
                          }
                    ]
          ]
    ]
