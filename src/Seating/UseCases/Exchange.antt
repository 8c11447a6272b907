-- ===== src/Seating/UseCases/Exchange.antt =====
-- An assignment to a good seat meets no unique constraint, and puts everybody where they belong.
use wedding_planner_backend.Prelude.{
  ℕ, inl, false, map, ◌==◌, any, ◌&&◌, inr, [], find?, filter, some, List, Bool-cases, ◌≡◌, All,
  Bool, ◌∷◌, arith, true, Option, find_index?, none, refl, not, ◌⊎◌, ==_refl, sym, ◌∙◌, ap,
}
use wedding_planner_backend.Seating.Domain.{Asignacion, es_persona, es_asiento, Ocupante}
use wedding_planner_backend.Seating.Store.{choca, AsignacionGuardada}
use wedding_planner_backend.Seating.UseCases.Invariant.{SinChoques}
use wedding_planner_backend.Seating.UseCases.{mismo_lugar, presentes}

-- The rows of an event that pass a test.
abbrev pub en_evento : ℕ → (Asignacion → Bool) → AsignacionGuardada → Bool
en_evento event_id q a = a.event_id == event_id && q a.asignacion

no_clash :
    (q : Asignacion → Bool) (event_id : ℕ) (o : Asignacion) (rows : List AsignacionGuardada)
    → ((a : Asignacion) → q a ≡ true → choca o a ≡ true)
    → any (λ y. choca o y.asignacion) rows ≡ false
    → All (λ a. en_evento event_id q a ≡ false) rows
no_clash q event_id o [] hq h = tt
no_clash q event_id o (a ∷ rows) hq h =
    ground (arith, hq a.asignacion, no_clash q event_id o rows hq)

-- Every row that passes the test is the one that the look-up finds.
abbrev pub Hallada : ℕ → (Asignacion → Bool) → Option Asignacion → AsignacionGuardada → Type 0
Hallada event_id q found a = en_evento event_id q a ≡ true → found ≡ some a.asignacion

All-Hallada :
    (event_id : ℕ) (q : Asignacion → Bool) (found : Option Asignacion)
    (rows : List AsignacionGuardada)
    → All (λ a. en_evento event_id q a ≡ false) rows
    → All (Hallada event_id q found) rows
All-Hallada event_id q found [] h = tt
All-Hallada event_id q found (a ∷ rows) h =
    (λ yes. ground (arith, h.0), All-Hallada event_id q found rows h.1)

abbrev pub lista : ℕ → List AsignacionGuardada → List Asignacion
lista event_id rows = map (λ a. a.asignacion) (filter (λ a. a.event_id == event_id) rows)

pub find?-Hallada :
    (q : Asignacion → Bool) (event_id : ℕ) (found : Option Asignacion)
    (rows : List AsignacionGuardada)
    → ((a b : Asignacion) → q a ≡ true → q b ≡ true → choca a b ≡ true)
    → SinChoques rows
    → find? q (lista event_id rows) ≡ found
    → All (Hallada event_id q found) rows
find?-Hallada q event_id found [] hq h f = tt
find?-Hallada q event_id found (a ∷ rows) hq h f = elim (Bool-cases (en_evento event_id q a)) [
  | inl here ↦
      let mine : q a.asignacion ≡ true = ground arith in
      (
        λ pass. ground arith,
        All-Hallada event_id q found rows
            (no_clash q event_id a.asignacion rows (λ b. hq a.asignacion b mine) h.0),
      )
  | inr later ↦ (λ pass. ground arith, find?-Hallada q event_id found rows hq h.1 (ground arith))
]

-- What was found by another test, and passes this one.
pub found-Hallada :
    (p q : Asignacion → Bool) (event_id : ℕ) (found : Option Asignacion) (o : Asignacion)
    (rows : List AsignacionGuardada)
    → find? p (lista event_id rows) ≡ some o
    → q o ≡ true
    → All (Hallada event_id q found) rows
    → found ≡ some o
found-Hallada p q event_id found o [] f passes h = cc
found-Hallada p q event_id found o (a ∷ rows) f passes h =
    elim (Bool-cases (en_evento event_id p a)) [
      | inl here ↦
          let it : a.asignacion ≡ o = ground arith in
          let pass : q a.asignacion ≡ true = rw it passes in ground (arith, h.0, it, pass)
      | inr later ↦ ground (arith, found-Hallada p q event_id found o rows)
    ]

pub mismo_lugar-find :
    (p q : Asignacion → Bool) (o : Asignacion) (xs : List Asignacion)
    → p o ≡ true
    → q o ≡ true
    → find? p xs ≡ some o
    → find? q xs ≡ some o
    → mismo_lugar (find_index? p xs) (find_index? q xs) ≡ true
mismo_lugar-find p q o [] hp hq f g = cc
mismo_lugar-find p q o (x ∷ xs) hp hq f g = elim (Bool-cases (p x)) [
  | inl here ↦ let it : x ≡ o = ground arith in let pass : q x ≡ true = rw it hq in ground arith
  | inr later ↦ elim (Bool-cases (q x)) [
    | inl here ↦ let it : x ≡ o = ground arith in let pass : p x ≡ true = rw it hp in ground arith
    | inr both ↦ ground (arith, mismo_lugar-find p q o xs hp hq)
  ]
]

-- What is asked of a row that the exchange takes away: it is of one of the two people.
abbrev pub quitada : ℕ → Option Asignacion → Option Asignacion → AsignacionGuardada → Bool
quitada event_id origen previo a =
    a.event_id == event_id && any (λ o. es_persona o a.asignacion) (presentes origen previo)

origen-quitada :
    (event_id : ℕ) (origen previo : Option Asignacion) (a : AsignacionGuardada)
    → a.event_id ≡ event_id
    → (origen ≡ some a.asignacion) ⊎ (previo ≡ some a.asignacion)
    → quitada event_id origen previo a ≡ true
origen-quitada event_id none none a h (inl e) = cc
origen-quitada event_id none none a h (inr e) = cc
origen-quitada event_id (some o) none a h (inl e) = ground (
  arith,
  ==_refl a.event_id,
  ==_refl a.asignacion.ocupante.guest_id,
  ==_refl a.asignacion.ocupante.companion_index,
)
origen-quitada event_id (some o) none a h (inr e) = cc
origen-quitada event_id none (some r) a h (inl e) = cc
origen-quitada event_id none (some r) a h (inr e) = ground (
  arith,
  ==_refl a.event_id,
  ==_refl a.asignacion.ocupante.guest_id,
  ==_refl a.asignacion.ocupante.companion_index,
)
origen-quitada event_id (some o) (some r) a h (inl e) = ground (
  arith,
  ==_refl a.event_id,
  ==_refl a.asignacion.ocupante.guest_id,
  ==_refl a.asignacion.ocupante.companion_index,
)
origen-quitada event_id (some o) (some r) a h (inr e) = ground (
  arith,
  ==_refl a.event_id,
  ==_refl a.asignacion.ocupante.guest_id,
  ==_refl a.asignacion.ocupante.companion_index,
)

-- If every row that clashes is taken away, none of the rest does.
pub no_clash-left :
    (d : Asignacion) (r : AsignacionGuardada → Bool) (rows : List AsignacionGuardada)
    → All (λ a. choca d a.asignacion ≡ true → r a ≡ true) rows
    → any (λ x. choca d x.asignacion) (filter (λ a. not (r a)) rows) ≡ false
no_clash-left d r [] h = refl
no_clash-left d r (a ∷ rows) h = ground (arith, h.0, no_clash-left d r rows h.1)

pub persons_clash :
    (o : Ocupante) (a b : Asignacion)
    → es_persona o a ≡ true
    → es_persona o b ≡ true
    → choca a b ≡ true
persons_clash o a b h k = ground arith

pub seats_clash :
    (table_id seat_index : ℕ) (a b : Asignacion)
    → es_asiento table_id seat_index a ≡ true
    → es_asiento table_id seat_index b ≡ true
    → choca a b ≡ true
seats_clash table_id seat_index a b h k = ground arith

module _ (mesa_de invitado_de : ℕ → ℕ) (event_id : ℕ) where
  -- The row is of the event of its table and of its guest.
  abbrev pub Propia : AsignacionGuardada → Type 0
  Propia a =
      (a.event_id ≡ mesa_de a.asignacion.table_id)
      × (a.event_id ≡ invitado_de a.asignacion.ocupante.guest_id)

  pub clash-quitada :
      (d : Asignacion) (origen previo : Option Asignacion) (rows : List AsignacionGuardada)
      → mesa_de d.table_id ≡ event_id
      → invitado_de d.ocupante.guest_id ≡ event_id
      → All Propia rows
      → All (Hallada event_id (es_persona d.ocupante) origen) rows
      → All (Hallada event_id (es_asiento d.table_id d.seat_index) previo) rows
      → All (λ a. choca d a.asignacion ≡ true → quitada event_id origen previo a ≡ true) rows
  clash-quitada d origen previo [] ht hg co ho hp = tt
  clash-quitada d origen previo (a ∷ rows) ht hg co ho hp = (
    λ clash. elim (Bool-cases (es_asiento d.table_id d.seat_index a.asignacion)) [
      | inl seat ↦
          let same : a.asignacion.table_id ≡ d.table_id = ground arith in
          let here : a.event_id ≡ event_id = co.0.0 ∙ ap mesa_de same ∙ ht in
          origen-quitada event_id origen previo a here (inr (hp.0 (ground (arith, here, seat))))
      | inr other ↦
          let person : es_persona d.ocupante a.asignacion ≡ true = ground arith in
          let same : a.asignacion.ocupante.guest_id ≡ d.ocupante.guest_id = ground arith in
          let here : a.event_id ≡ event_id = co.0.1 ∙ ap invitado_de same ∙ hg in
          origen-quitada event_id origen previo a here (inl (ho.0 (ground (arith, here, person))))
    ],
    clash-quitada d origen previo rows ht hg co.1 ho.1 hp.1,
  )

  pub found-Propia :
      (q : Asignacion → Bool) (o : Asignacion) (rows : List AsignacionGuardada)
      → find? q (lista event_id rows) ≡ some o
      → All Propia rows
      → (mesa_de o.table_id ≡ event_id) × (invitado_de o.ocupante.guest_id ≡ event_id)
  found-Propia q o [] f co = cc
  found-Propia q o (a ∷ rows) f co = elim (Bool-cases (en_evento event_id q a)) [
    | inl here ↦
        let it : a.asignacion ≡ o = ground arith in
        let now : a.event_id ≡ event_id = ground arith in
        (
          ap (λ x. mesa_de x.table_id) (sym it) ∙ sym co.0.0 ∙ now,
          ap (λ x. invitado_de x.ocupante.guest_id) (sym it) ∙ sym co.0.1 ∙ now,
        )
    | inr later ↦ ground (arith, found-Propia q o rows)
  ]

  -- The first insertion of an assignment finds no clash.
  pub first-free :
      (d : Asignacion) (rows : List AsignacionGuardada)
      → mesa_de d.table_id ≡ event_id
      → invitado_de d.ocupante.guest_id ≡ event_id
      → All Propia rows
      → SinChoques rows
      → let origen = find? (es_persona d.ocupante) (lista event_id rows) in
        let previo = find? (es_asiento d.table_id d.seat_index) (lista event_id rows) in
        any (λ x. choca d x.asignacion) (filter (λ a. not (quitada event_id origen previo a)) rows)
        ≡ false
  first-free d rows ht hg co h =
      let origen = find? (es_persona d.ocupante) (lista event_id rows) in
      let previo = find? (es_asiento d.table_id d.seat_index) (lista event_id rows) in
      no_clash-left d (quitada event_id origen previo) rows (
        clash-quitada d origen previo rows ht hg co
          (find?-Hallada (es_persona d.ocupante) event_id origen rows
            (λ a b. persons_clash d.ocupante a b) h refl)
          (find?-Hallada (es_asiento d.table_id d.seat_index) event_id previo rows
            (λ a b. seats_clash d.table_id d.seat_index a b) h refl))
