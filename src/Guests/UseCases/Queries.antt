-- ===== src/Guests/UseCases/Queries.antt =====
-- The list of guests, page by page, and the summary.
use wedding_planner_backend.Guests.UseCases.{Boda, resumen_de_invitados}
use wedding_planner_backend.Guests.Table.{
  listar, sumar_acompanantes_confirmados, GuestFilters, contar_por_estado, clave, coincide,
  ordenadas,
}
use wedding_planner_backend.Guests.Guest.{
  confirmed, pending, declined, rsvp_eq, Guest, resumir_por_estado, GuestSummary, RsvpStatus,
}
use wedding_planner_backend.Prelude.{
  ℕ, List, Bool, ◌≡◌, ◌&&◌, Option-cases, inr, suc, ◌+◌, ◌<◌, any, inl, All, none, length, ◌∙◌, [],
  ap, Option, ◌==◌, refl, ◌≤◌, ◌++◌, false, filter, if◌then◌else◌, arith, zero, ◌∷◌, count,
  All-filter, some, get_or, ◌⊎◌, Bool-cases,
}
use wedding_planner_backend.Prelude.Pairs.{Dispares}
use wedding_planner_backend.Shared.Text.{Text}
use wedding_planner_backend.Shared.Cursor.{CursorValue}
use wedding_planner_backend.Shared.Cursor.Pages.{recorrer, recorrer_all, pagina}
use wedding_planner_backend.Shared.Cursor.Order.{
  Estricto, Distintos, ordenar_por-Estricto, Estricto-filter, ascendente-EsOrden, ascendente,
  count-ordenar_por,
}
use wedding_planner_backend.Guests.Table.Invariant.{mismo_id, CupoRespetado}

otros_ids :
    (g : Guest) (xs : List Guest)
    → any (mismo_id g) xs ≡ false
    → All (λ h. ((clave g).id == (clave h).id) ≡ false) xs
otros_ids g [] h = tt
otros_ids g (x ∷ xs) h = ground (arith, otros_ids g xs)

Distintos-mismo_id : (xs : List Guest) → Dispares mismo_id xs → Distintos ascendente clave xs
Distintos-mismo_id [] d = tt
Distintos-mismo_id (x ∷ xs) d = (otros_ids x xs d.0, Distintos-mismo_id xs d.1)

Distintos-filter :
    (p : Guest → Bool) (xs : List Guest)
    → Distintos ascendente clave xs
    → Distintos ascendente clave (filter p xs)
Distintos-filter p [] d = tt
Distintos-filter p (x ∷ xs) d = ground (
  arith,
  All-filter (λ h. ((clave x).id == (clave h).id) ≡ false) p xs d.0,
  Distintos-filter p xs d.1,
)

count-filter :
    (p q : Guest → Bool) (xs : List Guest) → count q (filter p xs) ≡ count (λ g. p g && q g) xs
count-filter p q [] = refl
count-filter p q (x ∷ xs) = ground (arith, count-filter p q xs)

module _ (to_lower_case : Text → Text) where
  -- A client that asks for page after page of a list, each with the cursor that came with the last.
  unfoldable pub recorrer_listado :
      ℕ → ℕ → GuestFilters → Option CursorValue → ℕ → List Guest → List Guest
  recorrer_listado zero event_id filtros cursor limite filas = []
  recorrer_listado (suc pages) event_id filtros cursor limite filas =
      let p = listar to_lower_case event_id filtros cursor limite filas in
      p.items ++ (elim p.next_cursor [
        | none ↦ []
        | some c ↦ recorrer_listado pages event_id filtros (some c) limite filas
      ])

  recorrer_listado-recorrer :
      (pages event_id : ℕ) (f : GuestFilters) (cursor : Option CursorValue) (limite : ℕ)
      (filas : List Guest)
      → recorrer_listado pages event_id f cursor limite filas
        ≡ recorrer ascendente clave pages
            (filter (coincide to_lower_case f) (ordenadas event_id filas))
            cursor
            limite
  unfolding recorrer_listado recorrer listar
  recorrer_listado-recorrer zero event_id f cursor limite filas = refl
  recorrer_listado-recorrer (suc pages) event_id f cursor limite filas =
      let rows : List Guest = filter (coincide to_lower_case f) (ordenadas event_id filas) in
      elim (Option-cases (pagina ascendente clave rows cursor limite).next_cursor) [
        | inl last ↦ rw last refl
        | inr (c, more) ↦
            rw (more, recorrer_listado-recorrer pages event_id f (some c) limite filas) refl
      ]

  -- A client that follows the cursors from the first page, one row at least to a page, and may ask
  -- for more pages than the list has rows, gets the whole list while the table stays as it is: in
  -- strict order, and each as often as the table has it, exactly the guests of the event that pass
  -- the filters.
  pub recorrer_listado_all :
      (pages k event_id : ℕ) (f : GuestFilters) (filas : List Guest) (p : Guest → Bool)
      → Dispares mismo_id filas
      → length (filter (coincide to_lower_case f) (ordenadas event_id filas)) < pages
      → Estricto ascendente clave (recorrer_listado pages event_id f none (suc k) filas)
        × (count p (recorrer_listado pages event_id f none (suc k) filas)
            ≡ count (λ g. g.event_id == event_id && (coincide to_lower_case f g && p g)) filas)
  unfolding ordenadas
  recorrer_listado_all pages k event_id f filas p d fuel =
      let pasa : Guest → Bool = coincide to_lower_case f in
      let suyas : List Guest = filter (λ g. g.event_id == event_id) filas in
      let en_orden : Estricto ascendente clave (filter pasa (ordenadas event_id filas)) =
        Estricto-filter ascendente clave pasa (ordenadas event_id filas) (
          ordenar_por-Estricto ascendente clave suyas ascendente-EsOrden
            (Distintos-filter (λ g. g.event_id == event_id) filas (Distintos-mismo_id filas d))) in
      let e : recorrer_listado pages event_id f none (suc k) filas
          ≡ filter pasa (ordenadas event_id filas) =
        recorrer_listado-recorrer pages event_id f none (suc k) filas
        ∙ recorrer_all ascendente clave pages k (filter pasa (ordenadas event_id filas))
            ascendente-EsOrden en_orden fuel in
      (
        rw e en_orden,
        ap (count p) e
            ∙ count-filter pasa p (ordenadas event_id filas)
            ∙ count-ordenar_por ascendente clave (λ g. pasa g && p g) suyas
            ∙ count-filter (λ g. g.event_id == event_id) (λ g. pasa g && p g) filas,
      )

-- The companions that an event allows.
abbrev pub cupos_de : ℕ → List Guest → ℕ
cupos_de event_id [] = 0
cupos_de event_id (g ∷ gs) =
    let resto = cupos_de event_id gs in
    if g.event_id == event_id then g.companions_allowed + resto else resto

total_of :
    (event_id : ℕ) (filas : List Guest)
    → count (λ g. g.event_id == event_id && rsvp_eq g.rsvp confirmed) filas
        + count (λ g. g.event_id == event_id && rsvp_eq g.rsvp pending) filas
        + count (λ g. g.event_id == event_id && rsvp_eq g.rsvp declined) filas
      ≡ count (λ g. g.event_id == event_id) filas
total_of event_id [] = refl
total_of event_id (g ∷ gs) = ground (arith, total_of event_id gs)

suma_bound :
    (event_id : ℕ) (filas : List Guest)
    → All CupoRespetado filas
    → sumar_acompanantes_confirmados event_id filas ≤ cupos_de event_id filas
unfolding sumar_acompanantes_confirmados
suma_bound event_id [] h = omega arith
suma_bound event_id (g ∷ gs) h = elim (Option-cases g.companions_confirmed) [
  | inl absent ↦ grind (arith, absent, suma_bound event_id gs h.1)
  | inr (n, given) ↦ grind (arith, given, suma_bound event_id gs h.1)
]

-- What a guest of the event adds to the summary: one to the total and one to those of its answer, and,
-- if it comes, itself and its companions to the people that attend.
abbrev pub anotado : Guest → GuestSummary → GuestSummary
anotado g r = elim g.rsvp [
  | confirmed ↦ record r {
    total = 1 + r.total;
    confirmed = 1 + r.confirmed;
    attending = 1 + get_or g.companions_confirmed 0 + r.attending;
  }
  | pending ↦ record r { total = 1 + r.total; pending = 1 + r.pending }
  | declined ↦ record r { total = 1 + r.total; declined = 1 + r.declined }
]

abbrev pub recuento : ℕ → List Guest → GuestSummary
recuento event_id [] = record { total = 0; confirmed = 0; pending = 0; declined = 0; attending = 0 }
recuento event_id (g ∷ gs) =
    let resto = recuento event_id gs in if g.event_id == event_id then anotado g resto else resto

abbrev resumen_de : ℕ → List Guest → GuestSummary
resumen_de event_id gs =
    resumir_por_estado (contar_por_estado event_id gs) (sumar_acompanantes_confirmados event_id gs)

rsvp-cases : (r : RsvpStatus) → (r ≡ confirmed) ⊎ ((r ≡ pending) ⊎ (r ≡ declined))
rsvp-cases confirmed = inl refl
rsvp-cases pending = inr (inl refl)
rsvp-cases declined = inr (inr refl)

GuestSummary-eq :
    (r t : GuestSummary)
    → r.total ≡ t.total
    → r.confirmed ≡ t.confirmed
    → r.pending ≡ t.pending
    → r.declined ≡ t.declined
    → r.attending ≡ t.attending
    → r ≡ t
GuestSummary-eq r t a b c d e = cc

resumen_de-recuento :
    (event_id : ℕ) (gs : List Guest) → resumen_de event_id gs ≡ recuento event_id gs
unfolding resumir_por_estado contar_por_estado sumar_acompanantes_confirmados
resumen_de-recuento event_id [] = refl
resumen_de-recuento event_id (g ∷ gs) =
    let rest = resumen_de-recuento event_id gs in
    let t = ap (λ (r : GuestSummary). r.total) rest in
    let a = ap (λ (r : GuestSummary). r.attending) rest in
    let b = ap (λ (r : GuestSummary). r.confirmed) rest in
    let c = ap (λ (r : GuestSummary). r.pending) rest in
    let d = ap (λ (r : GuestSummary). r.declined) rest in
    elim (Bool-cases (g.event_id == event_id)) [
      | inr other ↦
          GuestSummary-eq (resumen_de event_id (g ∷ gs)) (recuento event_id (g ∷ gs))
            (grind (arith, other, t)) (grind (arith, other, b)) (grind (arith, other, c))
            (grind (arith, other, d)) (grind (arith, other, a))
      | inl mine ↦ elim (rsvp-cases g.rsvp) [
        | inl s ↦
            GuestSummary-eq (resumen_de event_id (g ∷ gs)) (recuento event_id (g ∷ gs))
              (grind (arith, mine, s, t)) (grind (arith, mine, s, b)) (grind (arith, mine, s, c))
              (grind (arith, mine, s, d)) (grind (arith, mine, s, a))
        | inr (inl s) ↦
            GuestSummary-eq (resumen_de event_id (g ∷ gs)) (recuento event_id (g ∷ gs))
              (grind (arith, mine, s, t)) (grind (arith, mine, s, b)) (grind (arith, mine, s, c))
              (grind (arith, mine, s, d)) (grind (arith, mine, s, a))
        | inr (inr s) ↦
            GuestSummary-eq (resumen_de event_id (g ∷ gs)) (recuento event_id (g ∷ gs))
              (grind (arith, mine, s, t)) (grind (arith, mine, s, b)) (grind (arith, mine, s, c))
              (grind (arith, mine, s, d)) (grind (arith, mine, s, a))
      ]
    ]

-- The summary of an event is what one reads off its guests one after another: each counts once in the
-- total and once under its own answer, and the people that attend are the guests that confirmed, each
-- with the companions it confirmed.
pub resumen_de_invitados-recuento :
    {Q : Type 0} (event_id : ℕ) (s : Boda Q)
    → resumen_de_invitados event_id s ≡ recuento event_id s.guests
unfolding resumen_de_invitados
resumen_de_invitados-recuento event_id s = resumen_de-recuento event_id s.guests

-- The summary of an event counts each guest of the event once, whatever the answers are, and where
-- nobody's confirmed companions exceed those allowed, the people that attend are at most the guests
-- that confirmed and the companions that the event allows.
pub resumen_de_invitados_bounds :
    {Q : Type 0} (event_id : ℕ) (s : Boda Q)
    → All CupoRespetado s.guests
    → ((resumen_de_invitados event_id s).total
        ≡ count (λ (g : Guest). g.event_id == event_id) s.guests)
      × ((resumen_de_invitados event_id s).attending
          ≤ (resumen_de_invitados event_id s).confirmed + cupos_de event_id s.guests)
unfolding resumen_de_invitados resumir_por_estado contar_por_estado
resumen_de_invitados_bounds event_id s h =
    (total_of event_id s.guests, omega (arith, suma_bound event_id s.guests h))
