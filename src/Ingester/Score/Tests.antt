-- ===== src/Ingester/Score/Tests.antt =====
-- Scores in hundredths, rounded down: an instance of the laws, and two runs.
use iicpc_sh.Prelude.{
  ℕ, ◌+◌, ◌-◌, ◌*◌, ◌/◌, ◌≤◌, ◌≡◌, ℤ, ◌≤ℤ◌, pos, negsuc, refl, arith, true, leb, leb→le, pos_part,
  min, ltb, if◌then◌else◌,
}
use native.Mathlib.Nat.{mul-le-mul_right}
use iicpc_sh.Ingester.Score.{Float, ◌≼◌, IsScale, IsOrdered, Metrics, composite, compute_score}
use iicpc_sh.Ingester.Score.Bounds.{IsMeasured, IsFaster, compute_score-bounded, compute_score_mono}

abbrev max_of : ℕ → ℕ → ℕ
max_of a b = if ltb a b then b else a

instance abbrev hundredths : Float ℕ
hundredths = record {
  le = leb;
  add = λ a b. a + b;
  sub = λ a b. a - b;
  mul = λ a b. a * b / 100;
  div = λ a b. a * 100 / b;
  max = max_of;
  min = min;
  of_int = pos_part;
  nought = 0;
  one = 100;
  fifth = 20;
  three_tenths = 30;
  half = 50;
  thirty_five = 35;
}

le_true : (a b : ℕ) → a ≤ b → leb a b ≡ true
le_true a b h = ground arith

mul_mono_hundredths : (x y c : ℕ) → leb x y ≡ true → leb (x * c / 100) (y * c / 100) ≡ true
mul_mono_hundredths x y c h = le_true _ _ (omega (arith, mul-le-mul_right c (leb→le x y h)))

pos_part_mono : (a b : ℤ) → a ≤ℤ b → leb (pos_part a) (pos_part b) ≡ true
pos_part_mono (pos a) (pos b) h = le_true a b (omega arith)
pos_part_mono (pos a) (negsuc b) h = absurd (omega arith)
pos_part_mono (negsuc a) (pos b) h = le_true 0 b (omega arith)
pos_part_mono (negsuc a) (negsuc b) h = refl

hundredths-IsOrdered : IsOrdered ℕ
hundredths-IsOrdered = record {
  refl_of_le = λ x y h. (ground arith, ground arith);
  le_trans = λ x y z h k. ground arith;
  nought_le_one = refl;
  fifth_weight = record { positive = refl; at_most_one = refl };
  three_tenths_weight = record { positive = refl; at_most_one = refl };
  half_weight = record { positive = refl; at_most_one = refl };
  thirty_five_weight = record { positive = refl; at_most_one = refl };
  of_int_mono = pos_part_mono;
  of_int_zero = refl;
  add_nonneg = λ a b h k. le_true _ _ (omega arith);
  add_mono = λ a b c d p h q k. le_true _ _ (omega (arith, leb→le a b h, leb→le c d k));
  sub_anti = λ x y h. le_true _ _ (omega (arith, leb→le x y h));
  mul_nonneg = λ x c w h. le_true _ _ (omega arith);
  mul_mono = λ x y c w h. mul_mono_hundredths x y c h;
  min_mono = λ a x y h k. le_true _ _ (omega (arith, leb→le x y k));
  min_le = λ a x h k. le_true _ _ (omega arith);
  max_mono = λ a x y h k. ground arith;
  le_max = λ a x h k. ground arith;
  max_least = λ a x c h k. ground arith;
}

-- The ceilings: 10000 microseconds and 5000 orders a second.
latency-IsScale : IsScale {F = ℕ} 10000
latency-IsScale = record { div_mono = λ x y h. le_true _ _ (omega (arith, leb→le x y h)) }

tps-IsScale : IsScale {F = ℕ} 5000
tps-IsScale = record { div_mono = λ x y h. le_true _ _ (omega (arith, leb→le x y h)) }

abbrev fast : Metrics ℕ
fast = record {
  ack_p50_us = pos 100;
  ack_p90_us = pos 200;
  ack_p99_us = pos 900;
  tps = 4000;
  correctness_score = 100;
}

abbrev slow : Metrics ℕ
slow = record {
  ack_p50_us = pos 300;
  ack_p90_us = pos 900;
  ack_p99_us = pos 20000;
  tps = 1000;
  correctness_score = 90;
}

fast-IsMeasured : IsMeasured hundredths-IsOrdered fast
fast-IsMeasured = record {
  p50 = omega arith;
  p90 = omega arith;
  p99 = omega arith;
  tps = refl;
  correctness = refl;
}

slow-IsMeasured : IsMeasured hundredths-IsOrdered slow
slow-IsMeasured = record {
  p50 = omega arith;
  p90 = omega arith;
  p99 = omega arith;
  tps = refl;
  correctness = refl;
}

compute_score-bounded_example :
    (0 ≼ compute_score 10000 5000 fast) × (compute_score 10000 5000 fast ≼ composite 100 100 100)
compute_score-bounded_example =
    compute_score-bounded hundredths-IsOrdered 10000 5000 latency-IsScale tps-IsScale fast
      fast-IsMeasured

fast-IsFaster : IsFaster hundredths-IsOrdered fast slow
fast-IsFaster = record { p50 = omega arith; p90 = omega arith; p99 = omega arith }

compute_score_mono_example : compute_score 10000 5000 slow ≼ compute_score 10000 5000 fast
compute_score_mono_example =
    compute_score_mono hundredths-IsOrdered 10000 5000 latency-IsScale tps-IsScale fast slow
      fast-IsMeasured slow-IsMeasured fast-IsFaster refl refl
