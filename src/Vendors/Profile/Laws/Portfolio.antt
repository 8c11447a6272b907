-- ===== src/Vendors/Profile/Laws/Portfolio.antt =====
-- What the writes of the repository keep.
use wedding_planner_backend.Prelude.Pairs.{Dispares-snoc, Dispares-modify_first}
use wedding_planner_backend.Vendors.Contracts.{draft, EstadoDeFicha, EstadoDeFicha}
use wedding_planner_backend.Vendors.Profile.{
  foto_con_id, prefijo_de_portfolio, en_ficha, sembrar, reemplazar_paquetes, agregar_foto,
  reordenar_fotos, DatosDeFicha, en_ese_orden, es_foto, Fila, es_ficha, Fichas, fijar_estado,
  NuevoPaquete, numerados, borrar_foto, max_fotos_portfolio, cambiar_alt, FotoDePortfolio,
  guardar_datos, es_de, foto_de,
}
use wedding_planner_backend.Prelude.Rows.{length-filter, All-modify_any}
use wedding_planner_backend.Prelude.{
  ℕ, Bool, Option-cases, ◌≤◌, true, List, any, find?, false, leb, find?-sound, All-filter,
  Bool-cases, inr, ◌∷◌, length-append, ◌++◌, All-append, [], not, arith, filter, refl, suc, ◌≡◌,
  some, sym, inl, All, modify_first, length,
}
use wedding_planner_backend.Vendors.Profile.Laws.{
  FilaSana, Sanas, en_ficha-Sanas, en_ficha_de-Sanas, mismo_id, found-FilaSana, es_propia,
}
use wedding_planner_backend.Storage.{con_barra}
use wedding_planner_backend.Shared.Text.{starts_with, text_eq→eq, Text}

pub guardar_datos-Sanas :
    (uuid : ℕ) (user_id : Text) (datos : DatosDeFicha) (s : Fichas)
    → any (es_ficha uuid) s.fichas ≡ false
    → Sanas s
    → Sanas (guardar_datos uuid user_id datos s).1
unfolding guardar_datos sembrar
guardar_datos-Sanas uuid user_id datos s fresh h =
    elim (Option-cases (find? (es_de user_id) s.fichas)) [
      | inl missing ↦
          let t = (sembrar uuid user_id datos draft s).1 in
          let nueva : Fila = record {
            datos = datos;
            id = uuid;
            user_id = user_id;
            status = draft;
            packages = [];
            portfolio = [];
            created_at = s.reloj;
          } in
          let kept : Sanas (record s { fichas = s.fichas ++ nueva ∷ []; reloj = suc s.reloj }) =
            record {
              filas =
                  All-append FilaSana s.fichas (nueva ∷ []) h.filas
                    (record { limite = omega arith; propias = tt }, tt);
              ids = Dispares-snoc mismo_id s.fichas nueva fresh h.ids;
            } in
          grind (arith, missing, kept)
      | inr (f, found) ↦
          let kept : Sanas (record s {
            fichas = modify_first (es_de user_id) (λ g. record g { datos = datos }) s.fichas;
          }) =
            record {
              filas =
                  All-modify_any FilaSana (es_de user_id) (λ g. record g { datos = datos }) s.fichas
                    (λ g k. record { limite = k.limite; propias = k.propias }) h.filas;
              ids =
                  Dispares-modify_first mismo_id (es_de user_id) (λ g. record g { datos = datos })
                    s.fichas (λ a b. refl) (λ a b. refl) h.ids;
            } in
          grind (arith, found, kept)
    ]

-- A photo more, where there is room and the key is the owner's.
pub agregar_foto-Sanas :
    (uuid : ℕ) (user_id key alt : Text) (f : Fila) (s : Fichas)
    → find? (es_de user_id) s.fichas ≡ some f
    → leb max_fotos_portfolio (length f.portfolio) ≡ false
    → starts_with key (con_barra (prefijo_de_portfolio user_id) []) ≡ true
    → Sanas s
    → Sanas (agregar_foto uuid f.id key alt s).1
unfolding agregar_foto
agregar_foto-Sanas uuid user_id key alt f s e room own h =
    let nueva : FotoDePortfolio = record { id = uuid; storage_key = key; alt = alt } in
    let old : FilaSana f = found-FilaSana user_id s f h e in
    let owner : f.user_id ≡ user_id =
      text_eq→eq f.user_id user_id (find?-sound (es_de user_id) s.fichas f e) in
    let row : FilaSana (record f { portfolio = f.portfolio ++ nueva ∷ [] }) = record {
      limite = ground (arith, length-append f.portfolio (nueva ∷ []));
      propias =
          All-append (λ p. es_propia f.user_id p ≡ true) f.portfolio (nueva ∷ []) old.propias
            (rw owner own, tt);
    } in
    let kept : Sanas (en_ficha f.id (λ g. record g { portfolio = g.portfolio ++ nueva ∷ [] }) s) =
      en_ficha_de-Sanas user_id f (λ g. record g { portfolio = g.portfolio ++ nueva ∷ [] }) s e row
        (λ g. refl) h in
    elim (Bool-cases (any (es_ficha f.id) s.fichas)) [
      | inl there ↦ grind (arith, there, kept)
      | inr gone ↦ grind (arith, gone, h)
    ]

length-modify_first :
    {A : Type 0} (p : A → Bool) (f : A → A) (xs : List A) → length (modify_first p f xs) ≡ length xs
length-modify_first p f [] = refl
length-modify_first p f (x ∷ xs) = ground (arith, length-modify_first p f xs)

pub cambiar_alt-Sanas :
    (ficha_id foto_id : ℕ) (alt : Text) (s : Fichas)
    → Sanas s
    → Sanas (cambiar_alt ficha_id foto_id alt s).1
unfolding cambiar_alt
cambiar_alt-Sanas ficha_id foto_id alt s h =
    en_ficha-Sanas ficha_id
      (λ f. record f {
        portfolio = modify_first (es_foto foto_id) (λ p. record p { alt = alt }) f.portfolio;
      })
      s
      (λ f k. record {
        limite = ground (
          arith,
          length-modify_first (es_foto foto_id) (λ (p : FotoDePortfolio). record p { alt = alt })
              f.portfolio,
          k.limite,
        );
        propias =
            All-modify_any (λ p. es_propia f.user_id p ≡ true) (es_foto foto_id)
              (λ p. record p { alt = alt }) f.portfolio (λ p q. q) k.propias;
      })
      (λ f. refl) h

pub borrar_foto-Sanas :
    (ficha_id foto_id : ℕ) (s : Fichas) → Sanas s → Sanas (borrar_foto ficha_id foto_id s).1
unfolding borrar_foto
borrar_foto-Sanas ficha_id foto_id s h =
    let kept : Sanas (
        en_ficha ficha_id
          (λ f. record f { portfolio = filter (λ p. not (es_foto foto_id p)) f.portfolio }) s) =
      en_ficha-Sanas ficha_id
        (λ f. record f { portfolio = filter (λ p. not (es_foto foto_id p)) f.portfolio }) s
        (λ f k. record {
          limite = ground (
            arith,
            length-filter (λ (p : FotoDePortfolio). not (es_foto foto_id p)) f.portfolio,
            k.limite,
          );
          propias =
              All-filter (λ p. es_propia f.user_id p ≡ true) (λ p. not (es_foto foto_id p))
                f.portfolio k.propias;
        })
        (λ f. refl) h in
    elim (Option-cases (foto_de ficha_id foto_id s)) [
      | inl missing ↦ grind (arith, missing, h)
      | inr (p, found) ↦ grind (arith, found, kept)
    ]

All-foto_con_id :
    (P : FotoDePortfolio → Type 0) (id : ℕ) (ps : List FotoDePortfolio) (p : FotoDePortfolio)
    → All P ps
    → foto_con_id id ps ≡ some p
    → P p
All-foto_con_id P id [] p h e = absurd cc
All-foto_con_id P id (q ∷ qs) p h e = elim (Option-cases (foto_con_id id qs)) [
  | inl missing ↦ let same : q ≡ p = grind (arith, missing, e) in rw (sym same) h.0
  | inr (r, found) ↦ All-foto_con_id P id qs p h.1 (grind (arith, found, e))
]

en_ese_orden-keeps :
    (P : FotoDePortfolio → Type 0) (ps : List FotoDePortfolio) (ids : List ℕ)
    → All P ps
    → All P (en_ese_orden ps ids) × (length (en_ese_orden ps ids) ≤ length ids)
en_ese_orden-keeps P ps [] h = (tt, omega arith)
en_ese_orden-keeps P ps (id ∷ ids) h =
    let rest = en_ese_orden-keeps P ps ids h in
    elim (Option-cases (foto_con_id id ps)) [
      | inl missing ↦
          let q : en_ese_orden ps (id ∷ ids) ≡ en_ese_orden ps ids = grind (arith, missing) in
          rw q (rest.0, omega (arith, rest.1))
      | inr (p, found) ↦
          let q : en_ese_orden ps (id ∷ ids) ≡ p ∷ en_ese_orden ps ids = grind (arith, found) in
          rw q ((All-foto_con_id P id ps p h found, rest.0), omega (arith, rest.1))
    ]

-- As many ids as there were photos.
pub reordenar_fotos-Sanas :
    (user_id : Text) (f : Fila) (ids : List ℕ) (s : Fichas)
    → find? (es_de user_id) s.fichas ≡ some f
    → length ids ≤ length f.portfolio
    → Sanas s
    → Sanas (reordenar_fotos f.id ids s)
unfolding reordenar_fotos
reordenar_fotos-Sanas user_id f ids s e n h =
    let old : FilaSana f = found-FilaSana user_id s f h e in
    let new = en_ese_orden-keeps (λ p. es_propia f.user_id p ≡ true) f.portfolio ids old.propias in
    en_ficha_de-Sanas user_id f (λ g. record g { portfolio = en_ese_orden g.portfolio ids }) s e
      (record { limite = omega (arith, new.1, n, old.limite); propias = new.0 }) (λ g. refl) h

pub fijar_estado-Sanas :
    (ficha_id : ℕ) (estado : EstadoDeFicha) (s : Fichas)
    → Sanas s
    → Sanas (fijar_estado ficha_id estado s)
unfolding fijar_estado
fijar_estado-Sanas ficha_id estado s h =
    en_ficha-Sanas ficha_id (λ f. record f { status = estado }) s
      (λ f k. record { limite = k.limite; propias = k.propias }) (λ f. refl) h

pub reemplazar_paquetes-Sanas :
    (uuid : ℕ → ℕ) (ficha_id : ℕ) (ps : List NuevoPaquete) (s : Fichas)
    → Sanas s
    → Sanas (reemplazar_paquetes uuid ficha_id ps s)
unfolding reemplazar_paquetes
reemplazar_paquetes-Sanas uuid ficha_id ps s h =
    en_ficha-Sanas ficha_id (λ f. record f { packages = numerados uuid 0 ps }) s
      (λ f k. record { limite = k.limite; propias = k.propias }) (λ f. refl) h
