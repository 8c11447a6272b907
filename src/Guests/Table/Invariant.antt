-- ===== src/Guests/Table/Invariant.antt =====
-- What holds of the guests' table through every operation of its repository.
use wedding_planner_backend.Guests.Table.{
  email_ocupado, correo_ocupado, crear, insertar, fila_de, hay_choque, visto, DatosCrearInvitado,
  insertar_todos, es_salvo, es_email, borrar, ocupa, es_guest, crear_varios,
}
use wedding_planner_backend.Prelude.{
  ℕ, List, Bool, ◌≡◌, true, some, arith, ◌∷◌, ◌&&◌, refl, false, [], any, not, Option, Option-cases,
  ◌==◌, inl, inr, All, none, Bool-cases, ◌||◌, All-append, ◌∙◌, any-append,
}
use wedding_planner_backend.Prelude.Pairs.{
  Dispares, Dispares-snoc, Dispares-remove_first, All-remove_first,
}
use wedding_planner_backend.Shared.Text.{Text, text_eq}
use wedding_planner_backend.Guests.Guest.{cupo_cubre_confirmados, Guest}

-- Two rows of one event with one e-mail, and two rows with one id.
abbrev pub email_choca : Option Text → Option Text → Bool
email_choca none o = false
email_choca (some e) none = false
email_choca (some e) (some d) = text_eq d e

abbrev pub mismo_correo : Guest → Guest → Bool
mismo_correo g h = h.event_id == g.event_id && email_choca g.email h.email

abbrev pub mismo_id : Guest → Guest → Bool
mismo_id g h = h.id == g.id

abbrev pub CupoRespetado : Guest → Type 0
CupoRespetado g = cupo_cubre_confirmados g.companions_allowed g.companions_confirmed ≡ true

pub record Sana (filas : List Guest) : Type 0 where
  pub correos : Dispares mismo_correo filas
  pub ids : Dispares mismo_id filas
  pub cupos : All CupoRespetado filas

-- An id that no row has.
abbrev pub fresco : ℕ → List Guest → Bool
fresco uuid filas = not (any (λ (g : Guest). g.id == uuid) filas)

pub text_eq_sym : (s t : Text) → text_eq s t ≡ text_eq t s
unfolding text_eq
text_eq_sym [] [] = refl
text_eq_sym [] (d ∷ t) = refl
text_eq_sym (c ∷ s) [] = refl
text_eq_sym (c ∷ s) (d ∷ t) = ground (arith, text_eq_sym s t)

-- A row that is put behind the others.
sin_choque :
    (g : Guest) (filas : List Guest)
    → email_ocupado g.event_id g.email none filas ≡ false
    → any (λ x. mismo_correo x g) filas ≡ false
unfolding correo_ocupado
sin_choque g [] h = refl
sin_choque g (x ∷ xs) h = elim (Option-cases g.email) [
  | inl without ↦ elim (Option-cases x.email) [
    | inl missing ↦ grind (arith, without, missing, sin_choque g xs)
    | inr (d, there) ↦ grind (arith, without, there, sin_choque g xs)
  ]
  | inr (e, has) ↦ elim (Option-cases x.email) [
    | inl missing ↦ grind (arith, has, missing, sin_choque g xs)
    | inr (d, there) ↦ grind (arith, has, there, text_eq_sym e d, sin_choque g xs)
  ]
]

otro_id :
    (uuid : ℕ) (filas : List Guest)
    → fresco uuid filas ≡ true
    → any (λ (x : Guest). uuid == x.id) filas ≡ false
otro_id uuid [] f = refl
otro_id uuid (x ∷ xs) f = ground (arith, otro_id uuid xs)

insertar-Sana :
    (base uuid : ℕ) (d : DatosCrearInvitado) (filas : List Guest)
    → fresco uuid filas ≡ true
    → email_ocupado d.event_id d.email none filas ≡ false
    → Sana filas
    → Sana (insertar base uuid d filas)
unfolding insertar
insertar-Sana base uuid d filas f h s =
    let nueva : Guest = fila_de base uuid d filas in
    record {
      correos = Dispares-snoc mismo_correo filas nueva (sin_choque nueva filas h) s.correos;
      ids = Dispares-snoc mismo_id filas nueva (otro_id uuid filas f) s.ids;
      cupos = All-append CupoRespetado filas (nueva ∷ []) s.cupos (refl, tt);
    }

pub crear-Sana :
    (base uuid : ℕ) (d : DatosCrearInvitado) (filas : List Guest)
    → fresco uuid filas ≡ true
    → Sana filas
    → Sana (crear base uuid d filas).1
unfolding crear
crear-Sana base uuid d filas f s = elim (Bool-cases (email_ocupado d.event_id d.email none filas)) [
  | inl taken ↦ rw taken s
  | inr free ↦ rw free (insertar-Sana base uuid d filas f free s)
]

-- What tells whether the loop of `crearVarios` throws is which e-mails are seen or taken.
hay_choque_same :
    (ds : List DatosCrearInvitado) (v w : List (ℕ × Text)) (xs ys : List Guest)
    → ((event_id : ℕ) (email : Text)
        → (visto event_id email v || correo_ocupado event_id email none xs)
          ≡ (visto event_id email w || correo_ocupado event_id email none ys))
    → hay_choque ds v xs ≡ hay_choque ds w ys
unfolding hay_choque
hay_choque_same [] v w xs ys k = refl
hay_choque_same (d ∷ ds) v w xs ys k = elim (Option-cases d.email) [
  | inl without ↦ grind (arith, without, hay_choque_same ds v w xs ys k)
  | inr (e, has) ↦ grind (
    arith,
    has,
    k d.event_id e,
    hay_choque_same ds ((d.event_id, e) ∷ v) ((d.event_id, e) ∷ w) xs ys
        (λ event_id email. ground (arith, k event_id email)),
  )
]

ocupado-insertar :
    (base uuid : ℕ) (d : DatosCrearInvitado) (filas : List Guest) (event_id : ℕ) (email : Text)
    → correo_ocupado event_id email none (insertar base uuid d filas) ≡ (
        correo_ocupado event_id email none filas
        || (d.event_id == event_id && es_email d.email email))
unfolding correo_ocupado insertar
ocupado-insertar base uuid d filas event_id email = ground (
  arith,
  any-append (λ (g : Guest). ocupa event_id email g && not (es_salvo none g.id)) filas
      (fila_de base uuid d filas ∷ []),
)

insertar_todos-Sana :
    (base : ℕ) (uuid : List Guest → ℕ) (ds : List DatosCrearInvitado) (filas : List Guest)
    → ((xs : List Guest) → fresco (uuid xs) xs ≡ true)
    → hay_choque ds [] filas ≡ false
    → Sana filas
    → Sana (insertar_todos base uuid ds filas)
unfolding insertar_todos hay_choque
insertar_todos-Sana base uuid [] filas f h s = s
insertar_todos-Sana base uuid (d ∷ ds) filas f h s =
    let mas : List Guest = insertar base (uuid filas) d filas in
    elim (Option-cases d.email) [
      | inl without ↦
          let free : email_ocupado d.event_id d.email none filas ≡ false = grind (arith, without) in
          insertar_todos-Sana base uuid ds mas f
            (hay_choque_same ds [] [] mas filas (λ event_id email.
                grind (arith, without, ocupado-insertar base (uuid filas) d filas event_id email))
              ∙ grind (arith, without))
            (insertar-Sana base (uuid filas) d filas (f filas) free s)
      | inr (e, has) ↦
          let free : email_ocupado d.event_id d.email none filas ≡ false = grind (arith, has) in
          insertar_todos-Sana base uuid ds mas f
            (hay_choque_same ds [] ((d.event_id, e) ∷ []) mas filas (λ event_id email.
                grind (arith, has, ocupado-insertar base (uuid filas) d filas event_id email))
              ∙ grind (arith, has))
            (insertar-Sana base (uuid filas) d filas (f filas) free s)
    ]

pub crear_varios-Sana :
    (base : ℕ) (uuid : List Guest → ℕ) (ds : List DatosCrearInvitado) (filas : List Guest)
    → ((xs : List Guest) → fresco (uuid xs) xs ≡ true)
    → Sana filas
    → Sana (crear_varios base uuid ds filas).1
unfolding crear_varios
crear_varios-Sana base uuid ds filas f s = elim (Bool-cases (hay_choque ds [] filas)) [
  | inl clash ↦ rw clash s
  | inr free ↦ rw free (insertar_todos-Sana base uuid ds filas f free s)
]

pub borrar-Sana :
    (event_id guest_id : ℕ) (filas : List Guest)
    → Sana filas
    → Sana (borrar event_id guest_id filas)
unfolding borrar
borrar-Sana event_id guest_id filas s = record {
  correos = Dispares-remove_first mismo_correo (es_guest event_id guest_id) filas s.correos;
  ids = Dispares-remove_first mismo_id (es_guest event_id guest_id) filas s.ids;
  cupos = All-remove_first CupoRespetado (es_guest event_id guest_id) filas s.cupos;
}
