-- ===== src/Prelude/Decimal.antt =====
-- Numbers as Go writes and reads them: `%d` of fmt, and strconv.Atoi.
use Prim.Native.Char.{Char, code}
use Prim.Native.Nat.{ℕ, zero, suc, ◌+◌, ◌-◌, ◌*◌, ◌/◌, ◌%◌, ◌<◌, ◌≤◌}
use Prim.Native.String.{String}
use mathlib.Core.Path.{◌≡◌, refl, ap, ◌∙◌}
use mathlib.Core.Logic.{inl, inr}
use mathlib.Core.Bool.{Bool, true, false, ◌&&◌}
use mathlib.Core.Option.{Option, none, some}
use native.Mathlib.Omega.{arith}
use iicpc_sh.Prelude.Tests.{ltb, leb, ◌==◌, if◌then◌else◌, Bool-cases}
use iicpc_sh.Prelude.Int.{ℤ, pos, negsuc}

-- The character of a digit; 9 for any other number.
unfoldable pub digit : ℕ → Char
digit d =
    if d == 0
    then "0"
    else if d == 1
    then "1"
    else if d == 2
    then "2"
    else if d == 3
    then "3"
    else if d == 4
    then "4"
    else if d == 5
    then "5"
    else if d == 6
    then "6"
    else if d == 7
    then "7"
    else if d == 8
    then "8"
    else "9"

-- The digits of a number, in front of a text; the number itself is fuel enough.
unfoldable pub show_loop : ℕ → ℕ → String → String
unfolding digit
show_loop zero n t = t
show_loop (suc fuel) n t =
    let t' = String.◌∷◌ (digit (n % 10)) t in
    let more = show_loop fuel (n / 10) t' in if ltb n 10 then t' else more

unfoldable pub show_nat : ℕ → String
show_nat n = show_loop (suc n) n ""

-- `%d`
unfoldable pub show_int : ℤ → String
show_int (pos n) = show_nat n
show_int (negsuc n) = String.◌∷◌ "-" (show_nat (suc n))

abbrev pub is_digit : ℕ → Bool
is_digit c = leb b'0' c && leb c b'9'

unfoldable pub read_digits : ℕ → String → Option ℕ
read_digits a String.[] = some a
read_digits a (String.◌∷◌ c s) =
    let more = read_digits (a * 10 + (code c - b'0')) s in if is_digit (code c) then more else none

abbrev pub negate : ℕ → ℤ
negate zero = pos 0
negate (suc n) = negsuc n

-- An int has 64 bits.
unfoldable pub in_range : ℤ → Bool
in_range (pos n) = ltb n 9223372036854775808
in_range (negsuc n) = ltb n 9223372036854775808

abbrev pub checked : (ℕ → ℤ) → Option ℕ → Option ℤ
checked f none = none
checked f (some n) = if in_range (f n) then some (f n) else none

unfoldable pub read_unsigned : String → Option ℕ
unfolding read_digits
read_unsigned String.[] = none
read_unsigned (String.◌∷◌ c s) = read_digits 0 (String.◌∷◌ c s)

-- strconv.Atoi; `none` is an error.
unfoldable pub atoi : String → Option ℤ
atoi String.[] = none
atoi (String.◌∷◌ c s) =
    if code c == b'-'
    then checked negate (read_unsigned s)
    else if code c == b'+'
    then checked pos (read_unsigned s)
    else checked pos (read_unsigned (String.◌∷◌ c s))

pub digit-code : (d : ℕ) → d < 10 → code (digit d) ≡ d + b'0'
unfolding digit
digit-code zero h = refl
digit-code (suc zero) h = refl
digit-code (suc (suc zero)) h = refl
digit-code (suc (suc (suc zero))) h = refl
digit-code (suc (suc (suc (suc zero)))) h = refl
digit-code (suc (suc (suc (suc (suc zero))))) h = refl
digit-code (suc (suc (suc (suc (suc (suc zero)))))) h = refl
digit-code (suc (suc (suc (suc (suc (suc (suc zero))))))) h = refl
digit-code (suc (suc (suc (suc (suc (suc (suc (suc zero)))))))) h = refl
digit-code (suc (suc (suc (suc (suc (suc (suc (suc (suc zero))))))))) h = refl
digit-code (suc (suc (suc (suc (suc (suc (suc (suc (suc (suc d)))))))))) h = absurd (omega arith)

read_digits-digit :
    (a d : ℕ) (t : String)
    → d < 10
    → read_digits a (String.◌∷◌ (digit d) t) ≡ read_digits (a * 10 + d) t
unfolding read_digits
read_digits-digit a d t h =
    let c = digit-code d h in
    let yes : is_digit (code (digit d)) ≡ true = ground (arith, c) in
    let value : a * 10 + (code (digit d) - b'0') ≡ a * 10 + d = omega (arith, c) in
    rw yes (ap (λ n. read_digits n t) value)

show_loop-read :
    (fuel n : ℕ) (t : String) → n < fuel → read_digits 0 (show_loop fuel n t) ≡ read_digits n t
unfolding show_loop
show_loop-read zero n t h = absurd (omega arith)
show_loop-read (suc fuel) n t h = elim (Bool-cases (ltb n 10)) [
  | inl last ↦
      let small : n < 10 = ground arith in
      rw last
        (read_digits-digit 0 (n % 10) t (omega arith) ∙ ap (λ k. read_digits k t) (omega arith))
  | inr more ↦
      let big : 10 ≤ n = ground arith in
      rw more (
        show_loop-read fuel (n / 10) _ (omega arith)
        ∙ read_digits-digit (n / 10) (n % 10) t (omega arith)
        ∙ ap (λ k. read_digits k t) (omega arith))
]

-- A text that begins with a digit.
record Begins (s : String) : Type 0 where
  head : Char
  rest : String
  same : s ≡ String.◌∷◌ head rest
  is_one : is_digit (code head) ≡ true

digit-Begins : (d : ℕ) (t : String) → d < 10 → Begins (String.◌∷◌ (digit d) t)
digit-Begins d t h = record {
  head = digit d;
  rest = t;
  same = refl;
  is_one = ground (arith, digit-code d h);
}

show_loop-Begins : (fuel n : ℕ) (t : String) → Begins t → Begins (show_loop fuel n t)
unfolding show_loop
show_loop-Begins zero n t b = b
show_loop-Begins (suc fuel) n t b =
    let here = digit-Begins (n % 10) t (omega arith) in
    elim (Bool-cases (ltb n 10)) [
      | inl last ↦ rw last here
      | inr more ↦ rw more (show_loop-Begins fuel (n / 10) _ here)
    ]

show_nat-Begins : (n : ℕ) → Begins (show_nat n)
unfolding show_nat show_loop
show_nat-Begins n =
    let here = digit-Begins (n % 10) "" (omega arith) in
    elim (Bool-cases (ltb n 10)) [
      | inl last ↦ rw last here
      | inr more ↦ rw more (show_loop-Begins n (n / 10) _ here)
    ]

read_unsigned-Begins : (s : String) → Begins s → read_unsigned s ≡ read_digits 0 s
unfolding read_unsigned
read_unsigned-Begins s b = rw b.same refl

read_digits-end : (n : ℕ) → read_digits n "" ≡ some n
unfolding read_digits
read_digits-end n = refl

read_unsigned-show_nat : (n : ℕ) → read_unsigned (show_nat n) ≡ some n
unfolding show_nat
read_unsigned-show_nat n =
    read_unsigned-Begins _ (show_nat-Begins n)
    ∙ show_loop-read (suc n) n "" (omega arith)
    ∙ read_digits-end n

atoi-Begins : (s : String) → Begins s → atoi s ≡ checked pos (read_unsigned s)
unfolding atoi
atoi-Begins s b = rw b.same (ground (arith, b.is_one))

atoi-minus : (s : String) → atoi (String.◌∷◌ "-" s) ≡ checked negate (read_unsigned s)
unfolding atoi
atoi-minus s = refl

-- strconv.Atoi reads back what `%d` writes of an int.
pub atoi-show_int : (z : ℤ) → in_range z ≡ true → atoi (show_int z) ≡ some z
unfolding show_int
atoi-show_int (pos n) h =
    atoi-Begins _ (show_nat-Begins n) ∙ ap (checked pos) (read_unsigned-show_nat n) ∙ rw h refl
atoi-show_int (negsuc n) h =
    atoi-minus (show_nat (suc n)) ∙ ap (checked negate) (read_unsigned-show_nat (suc n)) ∙ rw h refl

checked-in_range : (f : ℕ → ℤ) (o : Option ℕ) (z : ℤ) → checked f o ≡ some z → in_range z ≡ true
checked-in_range f none z e = absurd (ground arith)
checked-in_range f (some n) z e = elim (Bool-cases (in_range (f n))) [
  | inl ok ↦ ground arith
  | inr bad ↦ absurd (ground arith)
]

either :
    (b : Bool) (x y : Option ℤ) (z : ℤ)
    → (x ≡ some z → in_range z ≡ true)
    → (y ≡ some z → in_range z ≡ true)
    → (if b then x else y) ≡ some z
    → in_range z ≡ true
either true x y z f g e = f e
either false x y z f g e = g e

-- What strconv.Atoi reads is an int.
pub atoi-in_range : (s : String) (z : ℤ) → atoi s ≡ some z → in_range z ≡ true
unfolding atoi
atoi-in_range String.[] z e = absurd (ground arith)
atoi-in_range (String.◌∷◌ c s) z e =
    either (code c == b'-') _ _ z (checked-in_range negate (read_unsigned s) z)
      (either (code c == b'+') _ _ z (checked-in_range pos (read_unsigned s) z)
        (checked-in_range pos (read_unsigned (String.◌∷◌ c s)) z))
      e
