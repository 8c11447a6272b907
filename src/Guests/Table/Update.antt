-- ===== src/Guests/Table/Update.antt =====
-- A change of a guest keeps the table's invariant.
use wedding_planner_backend.Guests.Table.{
  aplicar, ocupa, es_guest, email_ocupado, CambiosInvitado, correo_ocupado, actualizar, buscar,
}
use wedding_planner_backend.Guests.Table.Invariant.{
  text_eq_sym, email_choca, mismo_correo, mismo_id, CupoRespetado, Sana,
}
use wedding_planner_backend.Prelude.{
  ℕ, List, Bool, ◌≡◌, none, arith, true, ◌==◌, inl, inr, Bool-cases, any, ◌∷◌, false, [], Option,
  Option-cases, not, modify_first, some, ◌&&◌, refl, get_or, find?,
}
use wedding_planner_backend.Prelude.Pairs.{Dispares, Dispares-modify_first, All-modify_first}
use wedding_planner_backend.Shared.Text.{Text}
use wedding_planner_backend.Guests.Guest.{Guest}

-- An e-mail that may be missing is taken by the row.
abbrev pub ocupa_email : ℕ → Option Text → Guest → Bool
ocupa_email event_id none g = false
ocupa_email event_id (some email) g = ocupa event_id email g

clash_swapped :
    (event_id : ℕ) (o : Option Text) (x : Guest)
    → (x.event_id == event_id && email_choca x.email o) ≡ ocupa_email event_id o x
clash_swapped event_id o x = elim (Option-cases o) [
  | inl without ↦ elim (Option-cases x.email) [
    | inl missing ↦ grind (arith, without, missing)
    | inr (d, there) ↦ grind (arith, without, there)
  ]
  | inr (e, has) ↦ elim (Option-cases x.email) [
    | inl missing ↦ grind (arith, has, missing)
    | inr (d, there) ↦ grind (arith, has, there, text_eq_sym d e)
  ]
]

clash_kept :
    (event_id : ℕ) (o : Option Text) (x : Guest)
    → (x.event_id == event_id && email_choca o x.email) ≡ ocupa_email event_id o x
clash_kept event_id o x = elim (Option-cases o) [
  | inl without ↦ grind (arith, without)
  | inr (e, has) ↦ elim (Option-cases x.email) [
    | inl missing ↦ grind (arith, has, missing)
    | inr (d, there) ↦ grind (arith, has, there)
  ]
]

-- Nobody but the row itself has the e-mail.
abbrev pub libre : ℕ → ℕ → Option Text → List Guest → Bool
libre event_id guest_id o filas =
    not (any (λ g. ocupa_email event_id o g && not (g.id == guest_id)) filas)

libre_of :
    (event_id guest_id : ℕ) (o : Option Text) (filas : List Guest)
    → email_ocupado event_id o (some guest_id) filas ≡ false
    → libre event_id guest_id o filas ≡ true
unfolding correo_ocupado
libre_of event_id guest_id o [] h = refl
libre_of event_id guest_id o (x ∷ xs) h = elim (Option-cases o) [
  | inl without ↦ grind (arith, without, libre_of event_id guest_id o xs)
  | inr (e, has) ↦ grind (arith, has, libre_of event_id guest_id o xs)
]

module _ (event_id guest_id : ℕ) (c : CambiosInvitado) (o : Option Text)
    (e : c.email ≡ some o) where
  changed_first :
      (x : Guest) (xs : List Guest)
      → es_guest event_id guest_id x ≡ true
      → any (mismo_id x) xs ≡ false
      → libre event_id guest_id o xs ≡ true
      → any (mismo_correo (aplicar c x)) xs ≡ false
  changed_first x [] p d l = refl
  changed_first x (y ∷ ys) p d l = grind (arith, e, clash_kept event_id o y, changed_first x ys p)

  changed_later :
      (x : Guest) (xs : List Guest)
      → ocupa_email event_id o x ≡ false
      → any (mismo_correo x) xs ≡ false
      → any (mismo_correo x) (modify_first (es_guest event_id guest_id) (aplicar c) xs) ≡ false
  changed_later x [] l h = refl
  changed_later x (y ∷ ys) l h = grind (arith, e, clash_swapped event_id o x, changed_later x ys)

  changed-Dispares :
      (xs : List Guest)
      → Dispares mismo_id xs
      → libre event_id guest_id o xs ≡ true
      → Dispares mismo_correo xs
      → Dispares mismo_correo (modify_first (es_guest event_id guest_id) (aplicar c) xs)
  changed-Dispares [] d l h = tt
  changed-Dispares (x ∷ xs) d l h = elim (Bool-cases (es_guest event_id guest_id x)) [
    | inl here ↦ ground (arith, changed_first x xs here d.0)
    | inr other ↦ ground (arith, changed_later x xs, changed-Dispares xs d.1)
  ]

correos_after :
    (event_id guest_id : ℕ) (c : CambiosInvitado) (filas : List Guest)
    → email_ocupado event_id (get_or c.email none) (some guest_id) filas ≡ false
    → Sana filas
    → Dispares mismo_correo (modify_first (es_guest event_id guest_id) (aplicar c) filas)
correos_after event_id guest_id c filas h s = elim (Option-cases c.email) [
  | inl kept ↦
      Dispares-modify_first mismo_correo (es_guest event_id guest_id) (aplicar c) filas
        (λ a b. grind (arith, kept)) (λ a b. grind (arith, kept)) s.correos
  | inr (o, has) ↦
      let h' : email_ocupado event_id o (some guest_id) filas ≡ false = grind (arith, has, h) in
      changed-Dispares event_id guest_id c o has filas s.ids (libre_of event_id guest_id o filas h')
        s.correos
]

-- The row that is found has room for its companions after the change.
pub actualizar-Sana :
    (event_id guest_id : ℕ) (c : CambiosInvitado) (filas : List Guest)
    → ((g : Guest) → buscar event_id guest_id filas ≡ some g → CupoRespetado (aplicar c g))
    → Sana filas
    → Sana (actualizar event_id guest_id c filas).1
unfolding actualizar buscar
actualizar-Sana event_id guest_id c filas k s =
    elim (Option-cases (find? (es_guest event_id guest_id) filas)) [
      | inl missing ↦ rw missing s
      | inr (g, found) ↦
          elim (Bool-cases (email_ocupado event_id (get_or c.email none) (some guest_id) filas)) [
            | inl taken ↦ rw (found, taken) s
            | inr free ↦
                rw (found, free)
                  (record {
                    correos = correos_after event_id guest_id c filas free s;
                    ids =
                        Dispares-modify_first mismo_id (es_guest event_id guest_id) (aplicar c)
                          filas (λ a b. refl) (λ a b. refl) s.ids;
                    cupos =
                        All-modify_first CupoRespetado (es_guest event_id guest_id) (aplicar c)
                          filas g s.cupos found (k g found);
                  })
          ]
    ]
