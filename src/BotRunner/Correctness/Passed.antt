-- ===== src/BotRunner/Correctness/Passed.antt =====
-- The count of passed assertions against the expectations that the sequences hold.
use iicpc_sh.Prelude.{
  ℕ, suc, ◌+◌, ◌≡◌, ◌<◌, ◌≤◌, ◌↔◌, inl, inr, Bool, true, false, Option, none, some, List, [], ◌∷◌,
  String, arith, refl, if◌then◌else◌, length, length-append, Bool-cases, Option-cases, ℤ, pos,
  eqb_ℤ, ◌==◌, ◌||◌,
}
use iicpc_sh.BotRunner.Sequence.{Step, Sequence, correctness_sequences}
use iicpc_sh.BotRunner.Correctness.{
  Io, Got, Outcome, Failure, is_cancel, is_some, then_check, nothing_checked, pass, fail,
  check_cancel, check_price, check_qty, check_fill, check_reject, check_levels, check_book,
  check_step, send_step, read_replies, got_nothing, next_tags, untagged, run_steps, run_sequence,
  Network, run_all, run, far,
}

abbrev count : Bool → ℕ
count true = 1
count false = 0

-- The assertions that a step asks for.
abbrev pub step_assertions : Step → ℕ
step_assertions s =
    count (is_cancel s.kind)
    + ((if s.expect_fill
          then 1 + (count (is_some s.expect_fill_price) + count (is_some s.expect_fill_qty))
          else 0)
        + (count s.expect_reject
            + (count (is_some s.expect_book_bids) + count (is_some s.expect_book_asks))))

unfoldable pub steps_assertions : List Step → ℕ
steps_assertions [] = 0
steps_assertions (s ∷ ss) = step_assertions s + steps_assertions ss

-- All of `n` assertions passed and nothing failed, or something failed and fewer passed.
pub data Tally (n : ℕ) (out : Outcome) : Type 0 where
  perfect : out.passed ≡ n → length out.failures ≡ 0 → Tally n out
  flawed : out.passed < n → 0 < length out.failures → Tally n out

then_check-Tally :
    (n m : ℕ) (a b : Outcome) → Tally n a → Tally m b → Tally (n + m) (then_check a b)
then_check-Tally n m a b (perfect p f) (perfect q g) =
    perfect (omega arith) (omega (arith, length-append a.failures b.failures))
then_check-Tally n m a b (perfect p f) (flawed q g) =
    flawed (omega arith) (omega (arith, length-append a.failures b.failures))
then_check-Tally n m a b (flawed p f) (perfect q g) =
    flawed (omega arith) (omega (arith, length-append a.failures b.failures))
then_check-Tally n m a b (flawed p f) (flawed q g) =
    flawed (omega arith) (omega (arith, length-append a.failures b.failures))

fail-Tally : (n : ℕ) (f : Failure) → 0 < n → Tally n (fail f)
fail-Tally n f p = flawed p (omega arith)

nothing-Tally : Tally 0 nothing_checked
nothing-Tally = perfect refl refl

pass-Tally : Tally 1 pass
pass-Tally = perfect refl refl

test-Tally : (b : Bool) (f : Failure) → Tally 1 (if b then pass else fail f)
test-Tally true f = pass-Tally
test-Tally false f = fail-Tally 1 f (omega arith)

check_cancel-Tally :
    (i : ℕ) (s : Step) (g : Got) → Tally (count (is_cancel s.kind)) (check_cancel i s g)
unfolding check_cancel
check_cancel-Tally i s g = elim (Bool-cases (is_cancel s.kind)) [
  | inl e ↦ rw e (test-Tally g.cancel_acked _)
  | inr e ↦ rw e nothing-Tally
]

check_price-Tally :
    (i : ℕ) (wanted : Option ℕ) (got : ℕ)
    → Tally (count (is_some wanted)) (check_price i wanted got)
unfolding check_price
check_price-Tally i none got = nothing-Tally
check_price-Tally i (some w) got = elim (Bool-cases (far got w)) [
  | inl e ↦ rw e (fail-Tally 1 _ (omega arith))
  | inr e ↦ rw e pass-Tally
]

check_qty-Tally :
    (i : ℕ) (wanted : Option ℕ) (got : ℤ) → Tally (count (is_some wanted)) (check_qty i wanted got)
unfolding check_qty
check_qty-Tally i none got = nothing-Tally
check_qty-Tally i (some w) got = test-Tally (eqb_ℤ got (pos w)) _

check_fill-Tally :
    (i : ℕ) (s : Step) (g : Got)
    → Tally
        (if s.expect_fill
          then 1 + (count (is_some s.expect_fill_price) + count (is_some s.expect_fill_qty))
          else 0)
        (check_fill i s g)
unfolding check_fill
check_fill-Tally i s g = elim (Bool-cases s.expect_fill) [
  | inr e ↦ rw e nothing-Tally
  | inl e ↦ rw e (elim (Bool-cases g.filled) [
    | inl f ↦ rw f (
        then_check-Tally _ _ _ _ pass-Tally (
          then_check-Tally _ _ _ _ (check_price-Tally i s.expect_fill_price g.fill_price)
            (check_qty-Tally i s.expect_fill_qty g.fill_qty)))
    | inr f ↦ rw f (fail-Tally _ _ (omega arith))
  ])
]

check_reject-Tally :
    (i : ℕ) (s : Step) (g : Got) → Tally (count s.expect_reject) (check_reject i s g)
unfolding check_reject
check_reject-Tally i s g = elim (Bool-cases s.expect_reject) [
  | inl e ↦ rw e (test-Tally g.rejected _)
  | inr e ↦ rw e nothing-Tally
]

check_levels-Tally :
    (wanted : Option ℕ) (got : ℕ) (wrong : ℕ → ℕ → Failure)
    → Tally (count (is_some wanted)) (check_levels wanted got wrong)
unfolding check_levels
check_levels-Tally none got wrong = nothing-Tally
check_levels-Tally (some w) got wrong = test-Tally (got == w) _

-- A query that fails is one failure, however many numbers of levels it was to check.
no_book-Tally :
    (a b : Bool) (f : Failure)
    → Tally (count a + count b) (if a || b then fail f else nothing_checked)
no_book-Tally true true f = fail-Tally 2 f (omega arith)
no_book-Tally true false f = fail-Tally 1 f (omega arith)
no_book-Tally false true f = fail-Tally 1 f (omega arith)
no_book-Tally false false f = nothing-Tally

check_book-Tally :
    (i : ℕ) (s : Step) (book : Option (ℕ × ℕ))
    → Tally
        (count (is_some s.expect_book_bids) + count (is_some s.expect_book_asks))
        (check_book i s book)
unfolding check_book
check_book-Tally i s none =
    no_book-Tally (is_some s.expect_book_bids) (is_some s.expect_book_asks) _
check_book-Tally i s (some (bids, asks)) =
    then_check-Tally _ _ _ _ (check_levels-Tally s.expect_book_bids bids _)
      (check_levels-Tally s.expect_book_asks asks _)

check_step-Tally :
    (i : ℕ) (s : Step) (g : Got) (book : Option (ℕ × ℕ))
    → Tally (step_assertions s) (check_step i s g book)
unfolding check_step
check_step-Tally i s g book = then_check-Tally _ _ _ _ (check_cancel-Tally i s g) (
    then_check-Tally _ _ _ _ (check_fill-Tally i s g)
      (then_check-Tally _ _ _ _ (check_reject-Tally i s g) (check_book-Tally i s book)))

send_step-Tally :
    (i m : ℕ) (s : Step) (io : Io) (rest : Outcome)
    → 0 < step_assertions s
    → Tally m rest
    → Tally (step_assertions s + m) (send_step i s io rest)
unfolding send_step
send_step-Tally i m s io rest some_one t = elim (Bool-cases io.written) [
  | inr e ↦ rw e (fail-Tally _ _ (omega arith))
  | inl e ↦ rw e (elim (Option-cases (read_replies s got_nothing io.reads)) [
    | inl r ↦ rw r (fail-Tally _ _ (omega arith))
    | inr (g, r) ↦ rw r (then_check-Tally _ _ _ _ (check_step-Tally i s g io.book) t)
  ])
]

-- Every step checks something.
unfoldable pub IsChecked : List Step → Type 0
IsChecked [] = 0 < 1
IsChecked (s ∷ ss) = (0 < step_assertions s) × IsChecked ss

run_steps-Tally :
    (i : ℕ) (tags : List (String × (ℕ × String))) (ss : List Step) (io : ℕ → Io)
    → IsChecked ss
    → Tally (steps_assertions ss) (run_steps i tags ss io)
unfolding run_steps steps_assertions IsChecked
run_steps-Tally i tags [] io h = nothing-Tally
run_steps-Tally i tags (s ∷ ss) io (h, hs) =
    let rest = run_steps-Tally (suc i) (next_tags i s tags) ss io hs in
    elim (Bool-cases (untagged s tags)) [
      | inl e ↦ rw e (then_check-Tally _ _ _ _ (fail-Tally _ _ h) rest)
      | inr e ↦ rw e (send_step-Tally i _ s (io i) _ h rest)
    ]

run_sequence-Tally :
    (seq : Sequence) (connected : Bool) (io : ℕ → Io)
    → 0 < steps_assertions seq.steps
    → IsChecked seq.steps
    → Tally (steps_assertions seq.steps) (run_sequence seq connected io)
unfolding run_sequence
run_sequence-Tally seq true io p h = run_steps-Tally 0 [] seq.steps io h
run_sequence-Tally seq false io p h = fail-Tally _ _ p

unfoldable pub AreChecked : List Sequence → Type 0
AreChecked [] = 0 < 1
AreChecked (seq ∷ seqs) = ((0 < steps_assertions seq.steps) × IsChecked seq.steps) × AreChecked seqs

unfoldable pub all_assertions : List Sequence → ℕ
all_assertions [] = 0
all_assertions (seq ∷ seqs) = steps_assertions seq.steps + all_assertions seqs

run_all-Tally :
    (seqs : List Sequence) (net : Network)
    → AreChecked seqs
    → Tally (all_assertions seqs) (run_all seqs net)
unfolding run_all all_assertions AreChecked
run_all-Tally [] net h = nothing-Tally
run_all-Tally (seq ∷ seqs) net ((p, h), hs) =
    then_check-Tally _ _ _ _ (run_sequence-Tally seq (net seq.name).0 (net seq.name).1 p h)
      (run_all-Tally seqs net hs)

Tally-iff :
    (n : ℕ) (out : Outcome)
    → Tally n out
    → (out.passed ≤ n) × (length out.failures ≡ 0 ↔ out.passed ≡ n)
Tally-iff n out (perfect p f) = (omega arith, (λ _. p, λ _. f))
Tally-iff n out (flawed p f) = (omega arith, (λ e. absurd (omega arith), λ e. absurd (omega arith)))

sequences-AreChecked : AreChecked correctness_sequences
unfolding AreChecked IsChecked steps_assertions
sequences-AreChecked = ground arith

-- Whatever the stub replies, at most the 33 assertions of the sequences pass; all 33 pass if and
-- only if no failure is recorded.
pub run-passed :
    (net : Network) → ((run net).passed ≤ 33) × ((run net).failed ≡ 0 ↔ (run net).passed ≡ 33)
unfolding run all_assertions steps_assertions
run-passed net =
    Tally-iff 33 (run_all correctness_sequences net)
      (run_all-Tally correctness_sequences net sequences-AreChecked)
