-- ===== src/Shared/Cursor/Pages.antt =====
-- Pages by a cursor over rows in a strict order: `candidatas.slice(0, limite)` of the rows after the
-- cursor, with the last item's cursor where rows are left.
use wedding_planner_backend.Shared.Cursor.{CursorValue, CursorPage}
use mathlib.Core.List.{append_assoc, append-nil}
use wedding_planner_backend.Prelude.{
  ℕ, if◌then◌else◌, get_last?, true, take, ◌∷◌, some, Option, List, length, [], refl, arith, ap,
  ◌++◌, inl, inr, All, Bool, ltb, zero, none, filter, Bool-cases, ◌≡◌, ◌<◌, suc, ◌+◌, ◌≤◌, ◌∙◌,
  false, sym,
}
use wedding_planner_backend.Shared.Cursor.Order.{EsOrden, Estricto}

module _ {T : Type 0} (despues : CursorValue → CursorValue → Bool) (clave : T → CursorValue) where
  abbrev pub posterior_a : Option CursorValue → T → Bool
  posterior_a none x = true
  posterior_a (some c) x = despues (clave x) c

  unfoldable pub siguiente : ℕ → List T → Option CursorValue
  siguiente limite candidatas =
      if ltb limite (length candidatas)
      then elim (get_last? (take limite candidatas)) [ none ↦ none | some x ↦ some (clave x) ]
      else none

  unfoldable pub pagina : List T → Option CursorValue → ℕ → CursorPage T
  pagina rows cursor limite =
      let candidatas = filter (posterior_a cursor) rows in
      record { items = take limite candidatas; next_cursor = siguiente limite candidatas }

  -- A client that follows the cursors for so many pages at most.
  unfoldable pub recorrer : ℕ → List T → Option CursorValue → ℕ → List T
  recorrer zero rows cursor limite = []
  recorrer (suc pages) rows cursor limite =
      let p = pagina rows cursor limite in
      p.items ++ (elim p.next_cursor [ none ↦ [] | some c ↦ recorrer pages rows (some c) limite ])

  -- The rows after the one that a cursor names.
  filter-after :
      (y : T) (ys : List T)
      → All (λ z. despues (clave z) (clave y) ≡ true) ys
      → filter (posterior_a (some (clave y))) ys ≡ ys
  filter-after y [] h = refl
  filter-after y (z ∷ zs) h = ground (arith, filter-after y zs h.1)

  All-at : (P : T → Type 0) (xs : List T) (y : T) (ys : List T) → All P (xs ++ y ∷ ys) → P y
  All-at P [] y ys h = h.0
  All-at P (x ∷ xs) y ys h = All-at P xs y ys h.1

  filter-cut :
      (xs : List T) (y : T) (ys : List T)
      → EsOrden despues
      → Estricto despues clave (xs ++ y ∷ ys)
      → filter (posterior_a (some (clave y))) (xs ++ y ∷ ys) ≡ ys
  filter-cut [] y ys o h = elim (Bool-cases (despues (clave y) (clave y))) [
    | inl self ↦ ground (arith, o.asim (clave y) (clave y) self)
    | inr other ↦ ground (arith, filter-after y ys h.0)
  ]
  filter-cut (x ∷ xs) y ys o h =
      let after : despues (clave y) (clave x) ≡ true =
        All-at (λ z. despues (clave z) (clave x) ≡ true) xs y ys h.0 in
      ground (arith, o.asim (clave y) (clave x) after, filter-cut xs y ys o h.1)

-- A list of more than `suc k` elements, cut behind its first `suc k`.
pub record Corte {T : Type 0} (k : ℕ) (ys : List T) : Type 0 where
  pub antes : List T
  pub ultimo : T
  pub resto : List T
  pub entero : ys ≡ antes ++ ultimo ∷ resto
  pub pagina_es : take (suc k) ys ≡ antes ++ ultimo ∷ []
  pub ultimo_es : get_last? (take (suc k) ys) ≡ some ultimo
  pub quedan : length resto + suc k ≡ length ys

get_last?-append : {T : Type 0} (xs : List T) (y : T) → get_last? (xs ++ y ∷ []) ≡ some y
get_last?-append [] y = refl
get_last?-append (x ∷ []) y = refl
get_last?-append (x ∷ z ∷ xs) y = get_last?-append (z ∷ xs) y

cortar : {T : Type 0} (k : ℕ) (ys : List T) → suc k < length ys → Corte k ys
cortar k [] h = absurd (omega arith)
cortar zero (y ∷ ys) h = record {
  antes = [];
  ultimo = y;
  resto = ys;
  entero = refl;
  pagina_es = ground arith;
  ultimo_es = ground arith;
  quedan = omega arith;
}
cortar (suc k) (y ∷ ys) h =
    let c : Corte k ys = cortar k ys (omega arith) in
    let corta : take (suc (suc k)) (y ∷ ys) ≡ (y ∷ c.antes) ++ c.ultimo ∷ [] =
      ap (λ (zs : List _). y ∷ zs) c.pagina_es in
    record {
      antes = y ∷ c.antes;
      ultimo = c.ultimo;
      resto = c.resto;
      entero = ap (λ (zs : List _). y ∷ zs) c.entero;
      pagina_es = corta;
      ultimo_es = ap get_last? corta ∙ get_last?-append (y ∷ c.antes) c.ultimo;
      quedan = omega (arith, c.quedan);
    }

filter-none : {T : Type 0} (xs : List T) → filter (λ x. true) xs ≡ xs
filter-none [] = refl
filter-none (x ∷ xs) = ap (λ (ys : List _). x ∷ ys) (filter-none xs)

take-all : {T : Type 0} (k : ℕ) (ys : List T) → length ys ≤ k → take k ys ≡ ys
take-all zero [] h = refl
take-all zero (y ∷ ys) h = absurd (omega arith)
take-all (suc k) [] h = refl
take-all (suc k) (y ∷ ys) h = ground (arith, take-all k ys)

module _ {T : Type 0} (despues : CursorValue → CursorValue → Bool) (clave : T → CursorValue) where
  siguiente-more :
      (limite : ℕ) (ys : List T) (z : T)
      → ltb limite (length ys) ≡ true
      → get_last? (take limite ys) ≡ some z
      → siguiente despues clave limite ys ≡ some (clave z)
  unfolding siguiente
  siguiente-more limite ys z h e = rw (h, e) refl

  siguiente-done :
      (limite : ℕ) (ys : List T)
      → ltb limite (length ys) ≡ false
      → siguiente despues clave limite ys ≡ none
  unfolding siguiente
  siguiente-done limite ys h = rw h refl

  recorrer-step :
      (pages limite : ℕ) (rows ys : List T) (cursor : Option CursorValue)
      → filter (posterior_a despues clave cursor) rows ≡ ys
      → recorrer despues clave (suc pages) rows cursor limite
        ≡ take limite ys ++ (elim (siguiente despues clave limite ys) [
          | none ↦ []
          | some c ↦ recorrer despues clave pages rows (some c) limite
        ])
  unfolding recorrer pagina
  recorrer-step pages limite rows ys cursor f = rw f refl

  -- From a cursor behind `xs`, the pages give what is left.
  recorrer-rest :
      (pages k : ℕ) (rows xs ys : List T) (cursor : Option CursorValue)
      → EsOrden despues
      → Estricto despues clave rows
      → rows ≡ xs ++ ys
      → filter (posterior_a despues clave cursor) rows ≡ ys
      → length ys < pages
      → recorrer despues clave pages rows cursor (suc k) ≡ ys
  recorrer-rest zero k rows xs ys cursor o h e f fuel = absurd (omega arith)
  recorrer-rest (suc pages) k rows xs ys cursor o h e f fuel =
      elim (Bool-cases (ltb (suc k) (length ys))) [
        | inl more ↦
            let c : Corte k ys = cortar k ys (ground arith) in
            let e' : rows ≡ (xs ++ c.antes) ++ c.ultimo ∷ c.resto =
              e
              ∙ ap (λ (zs : List T). xs ++ zs) c.entero
              ∙ sym (append_assoc xs c.antes (c.ultimo ∷ c.resto)) in
            let next : filter (posterior_a despues clave (some (clave c.ultimo))) rows ≡ c.resto =
              rw e' (filter-cut despues clave (xs ++ c.antes) c.ultimo c.resto o (rw (sym e') h)) in
            let later : recorrer despues clave pages rows (some (clave c.ultimo)) (suc k)
                ≡ c.resto =
              recorrer-rest pages k rows ((xs ++ c.antes) ++ c.ultimo ∷ []) c.resto
                (some (clave c.ultimo)) o h
                (e' ∙ sym (append_assoc (xs ++ c.antes) (c.ultimo ∷ []) c.resto)) next
                (omega (arith, c.quedan)) in
            recorrer-step pages (suc k) rows ys cursor f
            ∙ rw (siguiente-more (suc k) ys c.ultimo more c.ultimo_es, later, c.pagina_es)
                (append_assoc c.antes (c.ultimo ∷ []) c.resto ∙ sym c.entero)
        | inr done ↦
            recorrer-step pages (suc k) rows ys cursor f
            ∙ rw (siguiente-done (suc k) ys done, take-all (suc k) ys (ground arith))
                (append-nil ys)
      ]

  -- A client that follows the cursors from the first page, with a page of one row at least, gets all
  -- rows, each once and in their order, and the last page comes before one page more than rows.
  pub recorrer_all :
      (pages k : ℕ) (rows : List T)
      → EsOrden despues
      → Estricto despues clave rows
      → length rows < pages
      → recorrer despues clave pages rows none (suc k) ≡ rows
  recorrer_all pages k rows o h fuel =
      recorrer-rest pages k rows [] rows none o h refl (filter-none rows) fuel
