-- ===== src/Vendors/Ref.antt =====
-- src/modules/vendors/domain/vendor-ref.ts, the columns that the row has for a reference
-- (prisma-event-vendor.repository.ts) and the check of the table on them.
use wedding_planner_backend.Prelude.{
  Bool, ◌≡◌, Option, if◌then◌else◌, not, is_some, none, is_none, ◌↔◌, ◌||◌, [], some, ◌&&◌, ap,
  arith, ◌∷◌, true, sym, refl,
}
use wedding_planner_backend.Shared.Text.{trim, Text, is_empty}
use wedding_planner_backend.Prelude.Monad.{err, ok, Result}

pub data VendorRef : Type 0 where
  linked : (vendor_profile_id : Text) → VendorRef
  external : (name : Text) (email phone : Option Text) → VendorRef

pub data VendorRefError : Type 0 where
  vendor_ref_ambigua vendor_ref_vacia : VendorRefError

-- An absent key is `none`.
pub record EntradaVendorRef : Type 0 where
  pub vendor_profile_id : Option Text
  pub external_name : Option Text
  pub external_email : Option Text
  pub external_phone : Option Text

-- `campo?.trim() ?? ''`
abbrev pub recortado : Option Text → Text
recortado campo = elim campo [ none ↦ [] | some t ↦ trim t ]

-- `t === '' ? null : t`
abbrev pub no_vacio : Text → Option Text
no_vacio t = if is_empty t then none else some t

-- The decision on the four texts, which are trimmed.
unfoldable pub vendor_ref_de : Text → Text → Text → Text → Result VendorRefError VendorRef
vendor_ref_de enlazado nombre email telefono =
    if not (is_empty enlazado)
      && (not (is_empty nombre) || not (is_empty email) || not (is_empty telefono))
    then err vendor_ref_ambigua
    else if is_empty enlazado && is_empty nombre
    then err vendor_ref_vacia
    else if not (is_empty enlazado)
    then ok (linked enlazado)
    else ok (external nombre (no_vacio email) (no_vacio telefono))

unfoldable pub parse_vendor_ref : EntradaVendorRef → Result VendorRefError VendorRef
parse_vendor_ref entrada =
    vendor_ref_de (recortado entrada.vendor_profile_id) (recortado entrada.external_name)
      (recortado entrada.external_email) (recortado entrada.external_phone)

pub record Columnas : Type 0 where
  pub vendor_profile_id : Option Text
  pub external_name : Option Text
  pub external_email : Option Text
  pub external_phone : Option Text

abbrev pub columnas_de : VendorRef → Columnas
columnas_de (linked id) = record {
  vendor_profile_id = some id;
  external_name = none;
  external_email = none;
  external_phone = none;
}
columnas_de (external name email phone) = record {
  vendor_profile_id = none;
  external_name = some name;
  external_email = email;
  external_phone = phone;
}

-- The check `event_vendors_origen_exclusivo`.
abbrev pub origen_exclusivo : Columnas → Bool
origen_exclusivo c =
    (is_some c.vendor_profile_id && is_none c.external_name)
    || (is_none c.vendor_profile_id && is_some c.external_name)

-- What the client sent, trimmed, with null for what is empty.
abbrev pub limpias : EntradaVendorRef → Columnas
limpias e = record {
  vendor_profile_id = no_vacio (recortado e.vendor_profile_id);
  external_name = no_vacio (recortado e.external_name);
  external_email = no_vacio (recortado e.external_email);
  external_phone = no_vacio (recortado e.external_phone);
}

module _ (a b c d : Text) where
  abbrev cuatro : Columnas
  cuatro = record {
    vendor_profile_id = no_vacio a;
    external_name = no_vacio b;
    external_email = no_vacio c;
    external_phone = no_vacio d;
  }

valor_o : VendorRef → Result VendorRefError VendorRef → VendorRef
valor_o d (ok v) = v
valor_o d (err e) = d

columnas_of :
    (v w : VendorRef)
    → ◌≡◌ {A = Result VendorRefError VendorRef} (ok v) (ok w)
    → columnas_de w ≡ columnas_de v
unfolding valor_o
columnas_of v w h = ap (λ q. columnas_de (valor_o v q)) (sym h)

vendor_ref_de-columnas :
    (a b c d : Text) (r : VendorRef)
    → (vendor_ref_de a b c d ≡ ok r) ↔ (columnas_de r ≡ cuatro a b c d)
unfolding vendor_ref_de
vendor_ref_de-columnas [] [] c d (linked v) =
    (λ h. absurd (cc), λ h. absurd (grind (arith, ap (λ x. x.vendor_profile_id) h)))
vendor_ref_de-columnas [] [] c d (external n e p) =
    (λ h. absurd (cc), λ h. absurd (grind (arith, ap (λ x. x.external_name) h)))
vendor_ref_de-columnas [] (x ∷ b) c d (linked v) =
    (λ h. absurd (cc), λ h. absurd (grind (arith, ap (λ x. x.vendor_profile_id) h)))
vendor_ref_de-columnas [] (x ∷ b) c d (external n e p) = (
  λ h. columnas_of (external (x ∷ b) (no_vacio c) (no_vacio d)) (external n e p) h,
  λ h. grind (
    arith,
    ap (λ q. q.external_name) h,
    ap (λ q. q.external_email) h,
    ap (λ q. q.external_phone) h,
  ),
)
vendor_ref_de-columnas (x ∷ a) [] [] [] (linked v) = (
  λ h. columnas_of (linked (x ∷ a)) (linked v) h,
  λ h. grind (arith, ap (λ q. q.vendor_profile_id) h),
)
vendor_ref_de-columnas (x ∷ a) [] [] [] (external n e p) =
    (λ h. absurd (cc), λ h. absurd (grind (arith, ap (λ x. x.vendor_profile_id) h)))
vendor_ref_de-columnas (x ∷ a) (y ∷ b) c d (linked v) =
    (λ h. absurd cc, λ h. absurd (grind (arith, ap (λ q. q.external_name) h)))
vendor_ref_de-columnas (x ∷ a) (y ∷ b) c d (external n e p) =
    (λ h. absurd cc, λ h. absurd (grind (arith, ap (λ q. q.vendor_profile_id) h)))
vendor_ref_de-columnas (x ∷ a) [] (y ∷ c) d (linked v) =
    (λ h. absurd cc, λ h. absurd (grind (arith, ap (λ q. q.external_email) h)))
vendor_ref_de-columnas (x ∷ a) [] (y ∷ c) d (external n e p) =
    (λ h. absurd cc, λ h. absurd (grind (arith, ap (λ q. q.vendor_profile_id) h)))
vendor_ref_de-columnas (x ∷ a) [] [] (y ∷ d) (linked v) =
    (λ h. absurd cc, λ h. absurd (grind (arith, ap (λ q. q.external_phone) h)))
vendor_ref_de-columnas (x ∷ a) [] [] (y ∷ d) (external n e p) =
    (λ h. absurd cc, λ h. absurd (grind (arith, ap (λ q. q.vendor_profile_id) h)))

columnas_exclusive : (r : VendorRef) → origen_exclusivo (columnas_de r) ≡ true
columnas_exclusive (linked v) = refl
columnas_exclusive (external n e p) = refl

-- A reference is accepted exactly where the columns that it gives the row are all that the client
-- sent, trimmed and with null for what is empty: nothing is dropped. These columns pass the table's
-- check.
pub parse_vendor_ref_iff :
    (e : EntradaVendorRef) (r : VendorRef)
    → ((parse_vendor_ref e ≡ ok r) ↔ (columnas_de r ≡ limpias e))
      × (origen_exclusivo (columnas_de r) ≡ true)
unfolding parse_vendor_ref
parse_vendor_ref_iff e r = (
  vendor_ref_de-columnas (recortado e.vendor_profile_id) (recortado e.external_name)
      (recortado e.external_email) (recortado e.external_phone) r,
  columnas_exclusive r,
)
