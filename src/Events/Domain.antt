-- ===== src/Events/Domain.antt =====
-- src/modules/events/domain: event.ts and publicacion.ts. Instants are milliseconds since the epoch,
-- ids are numbers (they are only compared), and coordinates are in millionths of a degree, as the
-- columns store them.
use wedding_planner_backend.Prelude.{
  ℕ, [], Option, is_none, ◌&&◌, is_some, Bool, List, if◌then◌else◌, ltb, ◌∷◌, ◌||◌,
}
use wedding_planner_backend.Prelude.Int.{ℤ}
use wedding_planner_backend.Shared.Text.{Text, trim, is_empty}

pub data EventStatus : Type 0 where
  draft active : EventStatus

pub record Ubicacion : Type 0 where
  pub name : Option Text
  pub address : Text
  pub lat : ℤ
  pub lng : ℤ
  pub mapbox_id : Option Text

pub record ConteosEvento : Type 0 where
  pub schedule_items : ℕ
  pub vendors : ℕ

pub record Event : Type 0 where
  pub id : ℕ
  pub name : Text
  pub status : EventStatus
  pub wedding_date : Option ℕ
  pub timezone : Text
  pub currency : Text
  pub total_budget : Option Text
  pub venue : Option Ubicacion
  pub rsvp_deadline_days : ℕ
  pub owner_id : ℕ
  pub conteos : ConteosEvento
  pub created_at : ℕ

abbrev pub dias_de_cierre_por_defecto : ℕ
dias_de_cierre_por_defecto = 14

pub data CampoPublicable : Type 0 where
  name wedding_date timezone currency total_budget venue : CampoPublicable

pub record DatosPublicables : Type 0 where
  pub name : Text
  pub wedding_date : Option ℕ
  pub timezone : Text
  pub currency : Text
  pub total_budget : Option Text
  pub venue : Option Ubicacion

-- `if (falta) faltantes.push(campo)`
abbrev pub si_falta : Bool → CampoPublicable → List CampoPublicable → List CampoPublicable
si_falta falta campo resto = if falta then campo ∷ resto else resto

unfoldable pub campos_faltantes_para_publicar : DatosPublicables → List CampoPublicable
campos_faltantes_para_publicar e = si_falta (is_empty (trim e.name)) CampoPublicable.name (
    si_falta (is_none e.wedding_date) CampoPublicable.wedding_date (
      si_falta (is_empty (trim e.timezone)) CampoPublicable.timezone (
        si_falta (is_empty (trim e.currency)) CampoPublicable.currency (
          si_falta (is_none e.total_budget) CampoPublicable.total_budget
            (si_falta (is_none e.venue) CampoPublicable.venue [])))))

-- The fields of an event that publication looks at.
abbrev pub publicables : Event → DatosPublicables
publicables e = record {
  name = e.name;
  wedding_date = e.wedding_date;
  timezone = e.timezone;
  currency = e.currency;
  total_budget = e.total_budget;
  venue = e.venue;
}

pub data EstadoPaso : Type 0 where
  completo parcial vacio : EstadoPaso

pub record Completitud : Type 0 where
  pub general : EstadoPaso
  pub venue : EstadoPaso
  pub schedule : EstadoPaso
  pub budget : EstadoPaso

unfoldable pub completitud : Event → Completitud
completitud e =
    let tiene_total = is_some e.total_budget in
    let tiene_vendors = ltb 0 e.conteos.vendors in
    record {
      general = if is_none e.wedding_date then parcial else completo;
      venue = if is_none e.venue then vacio else completo;
      schedule = if ltb 0 e.conteos.schedule_items then completo else vacio;
      budget =
          if tiene_total && tiene_vendors
          then completo
          else if tiene_total || tiene_vendors
          then parcial
          else vacio;
    }
