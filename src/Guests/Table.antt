-- ===== src/Guests/Table.antt =====
-- src/modules/guests/application/guest.repository.ts by its in-memory implementation
-- (src/modules/guests/infrastructure/guest.repository.fake.ts). `toLowerCase` is a parameter.
pub mod Invariant
pub mod Update
use wedding_planner_backend.Guests.Guest.{
  confirmed, pending, declined, GuestError, email_duplicado, Guest, rsvp_eq, Conteo,
  fila_inexistente, RsvpStatus,
}
use wedding_planner_backend.Prelude.{
  ℕ, remove_first, ◌∷◌, ◌==◌, any, count, true, Option, not, modify_first, ◌&&◌, length, ◌++◌,
  false, find?, [], List, if◌then◌else◌, none, ◌+◌, get_or, ◌||◌, some, Bool, filter,
}
use wedding_planner_backend.Shared.Text.{Text, text_eq, includes}
use wedding_planner_backend.Shared.Cursor.{CursorValue, CursorPage}
use wedding_planner_backend.Shared.Cursor.Pages.{pagina}
use wedding_planner_backend.Shared.Cursor.Order.{ascendente, ordenar_por}
use wedding_planner_backend.Prelude.Monad.{
  throw_if, pure, modify, ◌>>=◌, or_throw, Action, gets, ◌>>◌,
}

pub record GuestFilters : Type 0 where
  pub rsvp : Option RsvpStatus
  pub group : Option Text
  pub q : Option Text

pub record DatosCrearInvitado : Type 0 where
  pub event_id : ℕ
  pub name : Text
  pub email : Option Text
  pub group : Text
  pub dietary : Option Text
  pub companions_allowed : ℕ

-- `undefined` is the outer `none` of a field.
pub record CambiosInvitado : Type 0 where
  pub name : Option Text
  pub email : Option (Option Text)
  pub group : Option Text
  pub rsvp : Option RsvpStatus
  pub dietary : Option (Option Text)
  pub companions_allowed : Option ℕ
  pub companions_confirmed : Option (Option ℕ)

-- `g.email === email`
abbrev pub es_email : Option Text → Text → Bool
es_email none email = false
es_email (some e) email = text_eq e email

abbrev pub es_guest : ℕ → ℕ → Guest → Bool
es_guest event_id guest_id g = g.id == guest_id && g.event_id == event_id

abbrev pub ocupa : ℕ → Text → Guest → Bool
ocupa event_id email g = g.event_id == event_id && es_email g.email email

-- `correoOcupado`; `salvo` is the id of the row that does not count.
abbrev pub es_salvo : Option ℕ → ℕ → Bool
es_salvo none id = false
es_salvo (some salvo) id = id == salvo

unfoldable pub correo_ocupado : ℕ → Text → Option ℕ → List Guest → Bool
correo_ocupado event_id email salvo filas =
    any (λ g. ocupa event_id email g && not (es_salvo salvo g.id)) filas

-- The instants of new rows grow with the table; `base` is the file's fixed first instant.
abbrev pub fila_de : ℕ → ℕ → DatosCrearInvitado → List Guest → Guest
fila_de base uuid datos filas = record {
  id = uuid;
  event_id = datos.event_id;
  name = datos.name;
  email = datos.email;
  group = datos.group;
  rsvp = pending;
  dietary = datos.dietary;
  companions_allowed = datos.companions_allowed;
  companions_confirmed = none;
  created_at = base + length filas;
}

unfoldable pub insertar : ℕ → ℕ → DatosCrearInvitado → List Guest → List Guest
insertar base uuid datos filas = filas ++ fila_de base uuid datos filas ∷ []

-- Whether an e-mail that may be missing is taken.
abbrev pub email_ocupado : ℕ → Option Text → Option ℕ → List Guest → Bool
email_ocupado event_id none salvo filas = false
email_ocupado event_id (some email) salvo filas = correo_ocupado event_id email salvo filas

unfoldable pub crear : ℕ → ℕ → DatosCrearInvitado → Action (List Guest) GuestError Guest
crear base uuid datos = do
  ocupado ← gets (email_ocupado datos.event_id datos.email none)
  throw_if ocupado email_duplicado
  nueva ← gets (fila_de base uuid datos)
  modify (insertar base uuid datos)
  pure nueva

-- `vistos.has(clave)`, with the events and e-mails seen before.
abbrev pub visto : ℕ → Text → List (ℕ × Text) → Bool
visto event_id email vistos = any (λ v. v.0 == event_id && text_eq v.1 email) vistos

-- The first loop of `crearVarios`: whether some e-mail is seen twice or taken.
unfoldable pub hay_choque : List DatosCrearInvitado → List (ℕ × Text) → List Guest → Bool
hay_choque [] vistos filas = false
hay_choque (d ∷ ds) vistos filas = elim d.email [
  | none ↦ hay_choque ds vistos filas
  | some email ↦
      visto d.event_id email vistos
      || correo_ocupado d.event_id email none filas
      || hay_choque ds ((d.event_id, email) ∷ vistos) filas
]

-- The second loop; `uuid` is what `randomUUID()` gives where the table is so.
unfoldable pub insertar_todos :
    ℕ → (List Guest → ℕ) → List DatosCrearInvitado → List Guest → List Guest
insertar_todos base uuid [] filas = filas
insertar_todos base uuid (d ∷ ds) filas =
    insertar_todos base uuid ds (insertar base (uuid filas) d filas)

unfoldable pub crear_varios :
    ℕ → (List Guest → ℕ) → List DatosCrearInvitado → Action (List Guest) GuestError ℕ
crear_varios base uuid datos = do
  choque ← gets (hay_choque datos [])
  throw_if choque email_duplicado
  modify (insertar_todos base uuid datos)
  pure (length datos)

unfoldable pub buscar : ℕ → ℕ → List Guest → Option Guest
buscar event_id guest_id filas = find? (es_guest event_id guest_id) filas

abbrev pub aplicar : CambiosInvitado → Guest → Guest
aplicar c g = record g {
  name = get_or c.name g.name;
  email = get_or c.email g.email;
  group = get_or c.group g.group;
  rsvp = get_or c.rsvp g.rsvp;
  dietary = get_or c.dietary g.dietary;
  companions_allowed = get_or c.companions_allowed g.companions_allowed;
  companions_confirmed = get_or c.companions_confirmed g.companions_confirmed;
}

unfoldable pub actualizar : ℕ → ℕ → CambiosInvitado → Action (List Guest) GuestError Guest
actualizar event_id guest_id c = do
  hallada ← gets (buscar event_id guest_id)
  fila ← or_throw hallada fila_inexistente
  ocupado ← gets (email_ocupado event_id (get_or c.email none) (some guest_id))
  throw_if ocupado email_duplicado
  modify (modify_first (es_guest event_id guest_id) (aplicar c))
  pure (aplicar c fila)

unfoldable pub borrar : ℕ → ℕ → List Guest → List Guest
borrar event_id guest_id = remove_first (es_guest event_id guest_id)

abbrev pub clave : Guest → CursorValue
clave g = record { created_at = g.created_at; id = g.id }

unfoldable pub ordenadas : ℕ → List Guest → List Guest
ordenadas event_id filas = ordenar_por ascendente clave (filter (λ g. g.event_id == event_id) filas)

unfoldable pub contar_por_estado : ℕ → List Guest → Conteo
contar_por_estado event_id filas = record {
  confirmed = count (λ g. g.event_id == event_id && rsvp_eq g.rsvp confirmed) filas;
  pending = count (λ g. g.event_id == event_id && rsvp_eq g.rsvp pending) filas;
  declined = count (λ g. g.event_id == event_id && rsvp_eq g.rsvp declined) filas;
}

unfoldable pub sumar_acompanantes_confirmados : ℕ → List Guest → ℕ
sumar_acompanantes_confirmados event_id [] = 0
sumar_acompanantes_confirmados event_id (g ∷ gs) =
    let resto = sumar_acompanantes_confirmados event_id gs in
    if g.event_id == event_id && rsvp_eq g.rsvp confirmed
    then get_or g.companions_confirmed 0 + resto
    else resto

module _ (to_lower_case : Text → Text) where
  abbrev pub coincide : GuestFilters → Guest → Bool
  coincide f g =
      (elim f.rsvp [ none ↦ true | some r ↦ rsvp_eq g.rsvp r ])
      && ((elim f.group [ none ↦ true | some t ↦ text_eq g.group t ]) && (elim f.q [
        | none ↦ true
        | some q ↦ includes (to_lower_case g.name) (to_lower_case q) || (elim g.email [
          | none ↦ false
          | some e ↦ includes (to_lower_case e) (to_lower_case q)
        ])
      ]))

  unfoldable pub listar : ℕ → GuestFilters → Option CursorValue → ℕ → List Guest → CursorPage Guest
  listar event_id filtros cursor limite filas =
      pagina ascendente clave (filter (coincide filtros) (ordenadas event_id filas)) cursor limite

  -- `emailsExistentes`, asked for one e-mail: whether the set that it answers with has it.
  unfoldable pub email_existe : ℕ → List Text → Text → List Guest → Bool
  email_existe event_id emails correo filas =
      any (λ e. text_eq (to_lower_case e) correo) emails
      && any
          (λ g.
            g.event_id == event_id
            && (elim g.email [ none ↦ false | some e ↦ text_eq (to_lower_case e) correo ]))
          filas
