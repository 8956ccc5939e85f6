-- ===== src/BotRunner/Bot/OrderId.antt =====
-- services/bot-runner/sequence.go: orderID, and the numbers and the tag read back from it.
use Prim.Native.Char.{Char, code}
use text.Mathlib.TextLemmas.{nil-append, cons-append}
use iicpc_sh.Prelude.{
  ℕ, zero, suc, ◌+◌, ◌-◌, ◌*◌, ◌/◌, ◌%◌, ◌<◌, ◌≤◌, ◌≡◌, refl, ap, ◌∙◌, sym, arith, inl, inr, true,
  String, str_append, ltb, if◌then◌else◌, Bool-cases,
}
use iicpc_sh.Prelude.Decimal.{digit, digit-code, is_digit, show_loop, show_nat}

-- `fmt.Sprintf("b%d-i%d-%s", botID, iteration, tag)`
unfoldable pub order_id : ℕ → ℕ → String → String
order_id bot_id iteration tag = str_append "b" (
    str_append (show_nat bot_id)
      (str_append "-i" (str_append (show_nat iteration) (str_append "-" tag))))

-- The number at the beginning of a text, and what follows it.
unfoldable pub take_nat : ℕ → String → ℕ × String
take_nat a String.[] = (a, "")
take_nat a (String.◌∷◌ c s) =
    let more = take_nat (a * 10 + (code c - b'0')) s in
    if is_digit (code c) then more else (a, String.◌∷◌ c s)

abbrev pub tail : String → String
tail String.[] = ""
tail (String.◌∷◌ c s) = s

-- The bot, the iteration and the tag of an id.
unfoldable pub read_order_id : String → ℕ × (ℕ × String)
unfolding take_nat
read_order_id s =
    let (bot_id, r) = take_nat 0 (tail s) in
    let (iteration, r') = take_nat 0 (tail (tail r)) in (bot_id, (iteration, tail r'))

show_loop-append :
    (fuel n : ℕ) (t u : String)
    → str_append (show_loop fuel n t) u ≡ show_loop fuel n (str_append t u)
unfolding show_loop
show_loop-append zero n t u = refl
show_loop-append (suc fuel) n t u = elim (Bool-cases (ltb n 10)) [
  | inl last ↦ rw last (cons-append (digit (n % 10)) t u)
  | inr more ↦ rw more (
      show_loop-append fuel (n / 10) _ u
      ∙ ap (show_loop fuel (n / 10)) (cons-append (digit (n % 10)) t u))
]

take_nat-digit :
    (a d : ℕ) (t : String) → d < 10 → take_nat a (String.◌∷◌ (digit d) t) ≡ take_nat (a * 10 + d) t
unfolding take_nat
take_nat-digit a d t h =
    let c = digit-code d h in
    let yes : is_digit (code (digit d)) ≡ true = ground (arith, c) in
    let value : a * 10 + (code (digit d) - b'0') ≡ a * 10 + d = omega (arith, c) in
    rw yes (ap (λ n. take_nat n t) value)

show_loop-take :
    (fuel n : ℕ) (t : String) → n < fuel → take_nat 0 (show_loop fuel n t) ≡ take_nat n t
unfolding show_loop
show_loop-take zero n t h = absurd (omega arith)
show_loop-take (suc fuel) n t h = elim (Bool-cases (ltb n 10)) [
  | inl last ↦
      let small : n < 10 = ground arith in
      rw last (take_nat-digit 0 (n % 10) t (omega arith) ∙ ap (λ k. take_nat k t) (omega arith))
  | inr more ↦
      let big : 10 ≤ n = ground arith in
      rw more (
        show_loop-take fuel (n / 10) _ (omega arith)
        ∙ take_nat-digit (n / 10) (n % 10) t (omega arith)
        ∙ ap (λ k. take_nat k t) (omega arith))
]

one-append : (c : Char) (u : String) → str_append (String.◌∷◌ c "") u ≡ String.◌∷◌ c u
one-append c u = cons-append c "" u ∙ ap (String.◌∷◌ c) (nil-append u)

take_nat_dash : (n : ℕ) (t : String) → take_nat n (String.◌∷◌ "-" t) ≡ (n, String.◌∷◌ "-" t)
unfolding take_nat
take_nat_dash n t = refl

-- A number in front of a dash is read back.
take_nat-show_nat :
    (n : ℕ) (t : String)
    → take_nat 0 (str_append (show_nat n) (String.◌∷◌ "-" t)) ≡ (n, String.◌∷◌ "-" t)
unfolding show_nat
take_nat-show_nat n t =
    ap (take_nat 0) (
      show_loop-append (suc n) n "" (String.◌∷◌ "-" t)
      ∙ ap (show_loop (suc n) n) (nil-append (String.◌∷◌ "-" t)))
    ∙ show_loop-take (suc n) n (String.◌∷◌ "-" t) (omega arith)
    ∙ take_nat_dash n t

order_id_text :
    (bot_id iteration : ℕ) (tag : String)
    → order_id bot_id iteration tag
      ≡ String.◌∷◌ "b" (
          str_append (show_nat bot_id) (
            String.◌∷◌ "-" (String.◌∷◌ "i" (str_append (show_nat iteration) (String.◌∷◌ "-" tag)))))
unfolding order_id
order_id_text bot_id iteration tag =
    let inner = str_append (show_nat iteration) (str_append "-" tag) in
    one-append "b" _
    ∙ ap (λ s. String.◌∷◌ "b" (str_append (show_nat bot_id) s))
        (cons-append "-" "i" inner
          ∙ ap (String.◌∷◌ "-") (one-append "i" inner)
          ∙ ap (λ s. String.◌∷◌ "-" (String.◌∷◌ "i" (str_append (show_nat iteration) s)))
              (one-append "-" tag))

abbrev after : ℕ → String → String
after iteration tag = String.◌∷◌ "i" (str_append (show_nat iteration) (String.◌∷◌ "-" tag))

-- The bot, the iteration and the tag are read back from an order's id, so two ids are the same only if
-- all three are.
read_order_id-order_id :
    (bot_id iteration : ℕ) (tag : String)
    → read_order_id (order_id bot_id iteration tag) ≡ (bot_id, (iteration, tag))
unfolding read_order_id
read_order_id-order_id bot_id iteration tag =
    ap read_order_id (order_id_text bot_id iteration tag)
    ∙ rw (take_nat-show_nat bot_id (after iteration tag))
        (rw (take_nat-show_nat iteration tag) refl)

-- The ids of a bot are fresh: those of different iterations, or with different tags, differ.
pub order_id_inj :
    (b b' i i' : ℕ) (tag tag' : String)
    → order_id b i tag ≡ order_id b' i' tag'
    → (b ≡ b') × (i ≡ i') × (tag ≡ tag')
order_id_inj b b' i i' tag tag' e =
    let same : (b, (i, tag)) ≡ (b', (i', tag')) =
      sym (read_order_id-order_id b i tag)
      ∙ ap read_order_id e
      ∙ read_order_id-order_id b' i' tag' in
    (
      ap (λ (x : ℕ × (ℕ × String)). x.0) same,
      ap (λ (x : ℕ × (ℕ × String)). x.1.0) same,
      ap (λ (x : ℕ × (ℕ × String)). x.1.1) same,
    )
