-- ===== src/Shared/Cursor/Order.antt =====
-- The order of the lists that are paged: rows by the instant of creation and then by the id, forwards
-- or backwards, and `sort` by it.
use wedding_planner_backend.Shared.Cursor.{CursorValue}
use wedding_planner_backend.Prelude.{
  if◌then◌else◌, ◌||◌, true, ◌==◌, All-filter, ◌∷◌, List, [], refl, arith, count, inl, inr, All,
  Bool, ltb, filter, ◌&&◌, false, Bool-cases, ◌≡◌, suc,
}

-- `a` comes after `b`: (createdAt, id) in ascending order, and in descending order.
abbrev pub ascendente : CursorValue → CursorValue → Bool
ascendente a b = ltb b.created_at a.created_at || (a.created_at == b.created_at && ltb b.id a.id)

abbrev pub descendente : CursorValue → CursorValue → Bool
descendente a b = ascendente b a

-- What the pages need of an order.
pub record EsOrden (despues : CursorValue → CursorValue → Bool) : Type 0 where
  pub asim : (a b : CursorValue) → despues a b ≡ true → despues b a ≡ false
  pub trans : (a b c : CursorValue) → despues a b ≡ true → despues b c ≡ true → despues a c ≡ true
  pub total : (a b : CursorValue) → (a.id == b.id) ≡ false → (despues a b || despues b a) ≡ true

ascendente_asim : (a b : CursorValue) → ascendente a b ≡ true → ascendente b a ≡ false
ascendente_asim a b h = ground arith

ascendente_trans :
    (a b c : CursorValue) → ascendente a b ≡ true → ascendente b c ≡ true → ascendente a c ≡ true
ascendente_trans a b c h k = ground arith

ascendente_total :
    (a b : CursorValue) → (a.id == b.id) ≡ false → (ascendente a b || ascendente b a) ≡ true
ascendente_total a b h = ground arith

pub ascendente-EsOrden : EsOrden ascendente
ascendente-EsOrden = record {
  asim = ascendente_asim;
  trans = ascendente_trans;
  total = ascendente_total;
}

descendente_total :
    (a b : CursorValue) → (a.id == b.id) ≡ false → (descendente a b || descendente b a) ≡ true
descendente_total a b h = ground (arith, ascendente_total a b h)

pub descendente-EsOrden : EsOrden descendente
descendente-EsOrden = record {
  asim = λ a b. ascendente_asim b a;
  trans = λ a b c h k. ascendente_trans c b a k h;
  total = descendente_total;
}

module _ {T : Type 0} (despues : CursorValue → CursorValue → Bool) (clave : T → CursorValue) where
  abbrev pub insertar_en_orden : T → List T → List T
  insertar_en_orden x [] = x ∷ []
  insertar_en_orden x (y ∷ ys) =
      let resto = insertar_en_orden x ys in
      if despues (clave x) (clave y) then y ∷ resto else x ∷ y ∷ ys

  -- `sort` by the order.
  unfoldable pub ordenar_por : List T → List T
  ordenar_por [] = []
  ordenar_por (x ∷ xs) = insertar_en_orden x (ordenar_por xs)

  -- Each row comes after every row before it.
  abbrev pub Estricto : List T → Type 0
  Estricto [] = Unit
  Estricto (x ∷ xs) = All (λ y. despues (clave y) (clave x) ≡ true) xs × Estricto xs

  -- The ids are distinct, as a primary key has it.
  abbrev pub Distintos : List T → Type 0
  Distintos [] = Unit
  Distintos (x ∷ xs) = All (λ y. ((clave x).id == (clave y).id) ≡ false) xs × Distintos xs

  All-insertar :
      (P : T → Type 0) (x : T) (ys : List T) → P x → All P ys → All P (insertar_en_orden x ys)
  All-insertar P x [] p h = (p, tt)
  All-insertar P x (y ∷ ys) p h = ground (arith, All-insertar P x ys p h.1)

  pub All-ordenar : (P : T → Type 0) (xs : List T) → All P xs → All P (ordenar_por xs)
  unfolding ordenar_por
  All-ordenar P [] h = tt
  All-ordenar P (x ∷ xs) h = All-insertar P x (ordenar_por xs) h.0 (All-ordenar P xs h.1)

  pub Estricto-filter : (p : T → Bool) (xs : List T) → Estricto xs → Estricto (filter p xs)
  Estricto-filter p [] h = tt
  Estricto-filter p (x ∷ xs) h = ground (
    arith,
    All-filter (λ y. despues (clave y) (clave x) ≡ true) p xs h.0,
    Estricto-filter p xs h.1,
  )

  All-after :
      (x y : T) (ys : List T)
      → EsOrden despues
      → despues (clave y) (clave x) ≡ true
      → All (λ z. despues (clave z) (clave y) ≡ true) ys
      → All (λ z. despues (clave z) (clave x) ≡ true) ys
  All-after x y [] o h k = tt
  All-after x y (z ∷ zs) o h k =
      (o.trans (clave z) (clave y) (clave x) k.0 h, All-after x y zs o h k.1)

  insertar-Estricto :
      (x : T) (ys : List T)
      → EsOrden despues
      → All (λ y. ((clave x).id == (clave y).id) ≡ false) ys
      → Estricto ys
      → Estricto (insertar_en_orden x ys)
  insertar-Estricto x [] o d h = (tt, tt)
  insertar-Estricto x (y ∷ ys) o d h = elim (Bool-cases (despues (clave x) (clave y))) [
    | inl later ↦ ground (
      arith,
      All-insertar (λ z. despues (clave z) (clave y) ≡ true) x ys later h.0,
      insertar-Estricto x ys o d.1 h.1,
    )
    | inr first ↦
        let before : despues (clave y) (clave x) ≡ true =
          ground (arith, o.total (clave x) (clave y) d.0) in
        ground (arith, All-after x y ys o before h.0, h)
  ]

  pub ordenar_por-Estricto :
      (xs : List T) → EsOrden despues → Distintos xs → Estricto (ordenar_por xs)
  unfolding ordenar_por
  ordenar_por-Estricto [] o d = tt
  ordenar_por-Estricto (x ∷ xs) o d =
      insertar-Estricto x (ordenar_por xs) o
        (All-ordenar (λ y. ((clave x).id == (clave y).id) ≡ false) xs d.0)
        (ordenar_por-Estricto xs o d.1)

  count-insertar :
      (p : T → Bool) (x : T) (ys : List T)
      → count p (insertar_en_orden x ys) ≡ (if p x then suc (count p ys) else count p ys)
  count-insertar p x [] = ground arith
  count-insertar p x (y ∷ ys) = ground (arith, count-insertar p x ys)

  pub count-ordenar_por : (p : T → Bool) (xs : List T) → count p (ordenar_por xs) ≡ count p xs
  unfolding ordenar_por
  count-ordenar_por p [] = refl
  count-ordenar_por p (x ∷ xs) =
      ground (arith, count-insertar p x (ordenar_por xs), count-ordenar_por p xs)
