-- ===== src/Shared/Text.antt =====
-- JavaScript strings as lists of UTF-16 code units, and the string methods that the domain calls.
use Prim.Native.Char.{code}
use Prim.Native.String.{String}
use wedding_planner_backend.Prelude.{
  ℕ, ◌≡◌, refl, Bool, true, false, ◌&&◌, ◌||◌, List, [], ◌∷◌, ◌++◌, Option, none, some, arith, leb,
  ◌==◌, if◌then◌else◌, length, suc, zero, ◌-◌,
}

abbrev pub Text : Type 0
Text = List ℕ

-- The code units of an ASCII literal.
abbrev pub codes : String → Text
codes String.[] = []
codes (String.◌∷◌ c s) = code c ∷ codes s

-- `a === b`
unfoldable pub text_eq : Text → Text → Bool
text_eq [] [] = true
text_eq (c ∷ s) (d ∷ t) = c == d && text_eq s t
text_eq _ _ = false

pub text_eq→eq : (s t : Text) → text_eq s t ≡ true → s ≡ t
unfolding text_eq
text_eq→eq [] [] h = refl
text_eq→eq (c ∷ s) (d ∷ t) h = ground (arith, text_eq→eq s t)
text_eq→eq _ _ h = cc

pub text_eq_refl : (s : Text) → text_eq s s ≡ true
unfolding text_eq
text_eq_refl [] = refl
text_eq_refl (c ∷ s) = ground (arith, text_eq_refl s)

-- What `String.prototype.trim` takes for white space: its WhiteSpace and LineTerminator.
unfoldable pub is_space : ℕ → Bool
is_space c =
    (leb 9 c && leb c 13)
    || c == 32
    || c == 160
    || c == 0x1680
    || (leb 0x2000 c && leb c 0x200a)
    || c == 0x2028
    || c == 0x2029
    || c == 0x202f
    || c == 0x205f
    || c == 0x3000
    || c == 0xfeff

unfoldable pub trim_start : Text → Text
unfolding is_space
trim_start [] = []
trim_start (c ∷ s) = if is_space c then trim_start s else c ∷ s

-- Drops a trailing run: a space stays exactly when something that is no space follows.
unfoldable pub trim_end : Text → Text
unfolding is_space
trim_end [] = []
trim_end (c ∷ s) =
    let rest = trim_end s in
    elim rest [ [] ↦ if is_space c then [] else c ∷ [] | d ∷ r ↦ c ∷ d ∷ r ]

unfoldable pub trim : Text → Text
unfolding trim_start trim_end
trim s = trim_end (trim_start s)

abbrev pub is_empty {ℓ} : {A : Type ℓ} → List A → Bool
is_empty [] = true
is_empty (_ ∷ _) = false

-- `s.padEnd(n, '0')` and `s.padStart(n, '0')`
abbrev pub zeros : ℕ → Text
zeros zero = []
zeros (suc n) = b'0' ∷ zeros n

abbrev pub pad_end : ℕ → Text → Text
pad_end n s = s ++ zeros (n - length s)

abbrev pub pad_start : ℕ → Text → Text
pad_start n s = zeros (n - length s) ++ s

-- Cuts a text at its first dot; `none` where it has none.
abbrev pub cut_dot : Text → Text × Option Text
cut_dot [] = ([], none)
cut_dot (c ∷ s) =
    let (before, after) = cut_dot s in if c == b'.' then ([], some s) else (c ∷ before, after)

-- `s.startsWith(t)` and `s.includes(t)`
abbrev pub starts_with : Text → Text → Bool
starts_with s [] = true
starts_with [] (d ∷ t) = false
starts_with (c ∷ s) (d ∷ t) = c == d && starts_with s t

abbrev pub includes : Text → Text → Bool
includes [] t = starts_with [] t
includes (c ∷ s) t = starts_with (c ∷ s) t || includes s t
