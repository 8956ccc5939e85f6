-- ===== src/Prelude/Texts.antt =====
-- strings.Split and strings.Join at commas, and strings.TrimSpace.
use Prim.Native.Char.{Char, code}
use Prim.Native.Nat.{ℕ}
use Prim.Native.String.{String, ◌++◌ as str_append}
use text.Mathlib.TextLemmas.{nil-append, cons-append}
use mathlib.Core.Path.{◌≡◌, refl, ap, ◌∙◌}
use mathlib.Core.Logic.{inl, inr}
use mathlib.Core.Bool.{Bool, true, false, not, ◌&&◌, ◌||◌}
use mathlib.Core.List.{List, [], ◌∷◌}
use native.Mathlib.Omega.{arith}
use iicpc_sh.Prelude.Tests.{leb, ◌==◌, if◌then◌else◌, Bool-cases}
use iicpc_sh.Prelude.Lists.{All}

abbrev pub cons_first : Char → List String → List String
cons_first c [] = String.◌∷◌ c "" ∷ []
cons_first c (s ∷ ss) = String.◌∷◌ c s ∷ ss

-- strings.Split(s, ",")
unfoldable pub split_commas : String → List String
split_commas String.[] = "" ∷ []
split_commas (String.◌∷◌ c s) =
    let rest = split_commas s in if code c == b',' then "" ∷ rest else cons_first c rest

-- strings.Join(ss, ",")
unfoldable pub join_commas : List String → String
join_commas [] = ""
join_commas (s ∷ []) = s
join_commas (s ∷ t ∷ ts) = str_append s (String.◌∷◌ "," (join_commas (t ∷ ts)))

-- unicode.IsSpace
unfoldable pub is_space : ℕ → Bool
is_space c =
    leb 9 c && leb c 13
    || c == 32
    || c == 133
    || c == 160
    || c == 5760
    || leb 8192 c && leb c 8202
    || c == 8232
    || c == 8233
    || c == 8239
    || c == 8287
    || c == 12288

abbrev pub is_empty : String → Bool
is_empty String.[] = true
is_empty (String.◌∷◌ c s) = false

unfoldable pub trim_left : String → String
trim_left String.[] = ""
trim_left (String.◌∷◌ c s) = let t = trim_left s in if is_space (code c) then t else String.◌∷◌ c s

unfoldable pub trim_right : String → String
trim_right String.[] = ""
trim_right (String.◌∷◌ c s) =
    let t = trim_right s in if is_space (code c) && is_empty t then "" else String.◌∷◌ c t

-- strings.TrimSpace
unfoldable pub trim_space : String → String
trim_space s = trim_right (trim_left s)

unfoldable pub has_no_comma : String → Bool
has_no_comma String.[] = true
has_no_comma (String.◌∷◌ c s) = not (code c == b',') && has_no_comma s

-- A text that does not begin with a space.
unfoldable pub starts_well : String → Bool
starts_well String.[] = true
starts_well (String.◌∷◌ c s) = not (is_space (code c))

trim_left-starts_well : (s : String) → starts_well (trim_left s) ≡ true
unfolding trim_left starts_well
trim_left-starts_well String.[] = refl
trim_left-starts_well (String.◌∷◌ c s) = elim (Bool-cases (is_space (code c))) [
  | inl e ↦ rw e (trim_left-starts_well s)
  | inr e ↦ rw e (rw e refl)
]

trim_left_id : (s : String) → starts_well s ≡ true → trim_left s ≡ s
unfolding trim_left starts_well
trim_left_id String.[] h = refl
trim_left_id (String.◌∷◌ c s) h = elim (Bool-cases (is_space (code c))) [
  | inl e ↦ absurd (ground arith)
  | inr e ↦ rw e refl
]

trim_right-starts_well : (s : String) → starts_well s ≡ true → starts_well (trim_right s) ≡ true
unfolding trim_right starts_well
trim_right-starts_well String.[] h = refl
trim_right-starts_well (String.◌∷◌ c s) h = elim (Bool-cases (is_space (code c))) [
  | inl e ↦ absurd (ground arith)
  | inr e ↦ rw e (rw e refl)
]

trim_right_twice : (s : String) → trim_right (trim_right s) ≡ trim_right s
unfolding trim_right
trim_right_twice String.[] = refl
trim_right_twice (String.◌∷◌ c s) =
    elim (Bool-cases (is_space (code c) && is_empty (trim_right s))) [
      | inl e ↦ rw e refl
      | inr e ↦ rw e (rw (trim_right_twice s) (rw e refl))
    ]

-- A trimmed text is trimmed.
pub trim_space_twice : (s : String) → trim_space (trim_space s) ≡ trim_space s
unfolding trim_space
trim_space_twice s =
    let t = trim_left s in
    ap trim_right (trim_left_id (trim_right t) (trim_right-starts_well t (trim_left-starts_well s)))
    ∙ trim_right_twice t

trim_left-no_comma : (s : String) → has_no_comma s ≡ true → has_no_comma (trim_left s) ≡ true
unfolding trim_left has_no_comma
trim_left-no_comma String.[] h = refl
trim_left-no_comma (String.◌∷◌ c s) h = elim (Bool-cases (is_space (code c))) [
  | inl e ↦ rw e (trim_left-no_comma s (ground arith))
  | inr e ↦ rw e h
]

trim_right-no_comma : (s : String) → has_no_comma s ≡ true → has_no_comma (trim_right s) ≡ true
unfolding trim_right has_no_comma
trim_right-no_comma String.[] h = refl
trim_right-no_comma (String.◌∷◌ c s) h =
    elim (Bool-cases (is_space (code c) && is_empty (trim_right s))) [
      | inl e ↦ rw e refl
      | inr e ↦ rw e (ground (arith, trim_right-no_comma s))
    ]

pub trim_space-no_comma : (s : String) → has_no_comma s ≡ true → has_no_comma (trim_space s) ≡ true
unfolding trim_space
trim_space-no_comma s h = trim_right-no_comma (trim_left s) (trim_left-no_comma s h)

abbrev pub NoComma : String → Type 0
NoComma s = has_no_comma s ≡ true

cons_first-All :
    (c : Char) (ss : List String)
    → (code c == b',') ≡ false
    → All NoComma ss
    → All NoComma (cons_first c ss)
unfolding has_no_comma
cons_first-All c [] e h = (rw e refl, tt)
cons_first-All c (s ∷ ss) e h = (rw e h.0, h.1)

pub split_commas-All : (s : String) → All NoComma (split_commas s)
unfolding split_commas
split_commas-All String.[] = (unfold has_no_comma in refl, tt)
split_commas-All (String.◌∷◌ c s) = elim (Bool-cases (code c == b',')) [
  | inl e ↦ rw e (unfold has_no_comma in refl, split_commas-All s)
  | inr e ↦ rw e (cons_first-All c (split_commas s) e (split_commas-All s))
]

split_commas_one : (s : String) → NoComma s → split_commas s ≡ s ∷ []
unfolding split_commas has_no_comma
split_commas_one String.[] h = refl
split_commas_one (String.◌∷◌ c s) h =
    let e : (code c == b',') ≡ false = ground arith in
    rw e (ap (cons_first c) (split_commas_one s (ground arith)))

split_commas-append :
    (s t : String) → NoComma s → split_commas (str_append s (String.◌∷◌ "," t)) ≡ s ∷ split_commas t
unfolding split_commas has_no_comma
split_commas-append String.[] t h = rw (nil-append (String.◌∷◌ "," t)) refl
split_commas-append (String.◌∷◌ c s) t h =
    let e : (code c == b',') ≡ false = ground arith in
    rw (cons-append c s (String.◌∷◌ "," t))
      (rw e (ap (cons_first c) (split_commas-append s t (ground arith))))

-- Texts without commas, joined at commas, split into themselves.
pub split_commas-join_commas :
    (s : String) (ss : List String)
    → All NoComma (s ∷ ss)
    → split_commas (join_commas (s ∷ ss)) ≡ s ∷ ss
unfolding join_commas
split_commas-join_commas s [] h = split_commas_one s h.0
split_commas-join_commas s (t ∷ ts) h =
    split_commas-append s (join_commas (t ∷ ts)) h.0
    ∙ ap (λ rest. s ∷ rest) (split_commas-join_commas t ts h.1)
