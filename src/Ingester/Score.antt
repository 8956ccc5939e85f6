-- ===== src/Ingester/Score.antt =====
-- services/telemetry-ingester/ingester.go: computeScore.
--
-- A float64 is an argument: `Float` has the operations and the constants of the code, and `IsOrdered`
-- the laws of IEEE arithmetic that it relies on. A value that is not `<=` itself is NaN.
pub mod Bounds
mod Tests
use iicpc_sh.Prelude.{ℤ, pos, ◌≡◌, ◌≤ℤ◌, Bool, true, false}

pub record Float (F : Type 0) : Type 0 where
  pub le : F → F → Bool
  pub add : F → F → F
  pub sub : F → F → F
  pub mul : F → F → F
  pub div : F → F → F
  pub max : F → F → F
  pub min : F → F → F
  pub of_int : ℤ → F
  pub nought : F
  pub one : F
  -- 0.2, 0.3, 0.5 and 0.35; the code's 0.30 is 0.3
  pub fifth : F
  pub three_tenths : F
  pub half : F
  pub thirty_five : F

infix 4 ◌≼◌
abbrev pub ◌≼◌ : {F : Type 0} ⦃f : Float F⦄ → F → F → Type 0
◌≼◌ ⦃f⦄ x y = f.le x y ≡ true

-- A factor between 0 and 1, not 0.
pub record IsWeight {F : Type 0} ⦃f : Float F⦄ (c : F) : Type 0 where
  pub positive : f.le c f.nought ≡ false
  pub at_most_one : c ≼ f.one

-- A divisor under which the order is kept, as it is under each finite number above 0.
pub record IsScale {F : Type 0} ⦃f : Float F⦄ (c : F) : Type 0 where
  pub div_mono : (x y : F) → x ≼ y → f.div x c ≼ f.div y c

pub record IsOrdered (F : Type 0) ⦃f : Float F⦄ : Type 0 where
  pub refl_of_le : (x y : F) → x ≼ y → (x ≼ x) × (y ≼ y)
  pub le_trans : (x y z : F) → x ≼ y → y ≼ z → x ≼ z
  pub nought_le_one : f.nought ≼ f.one
  pub fifth_weight : IsWeight f.fifth
  pub three_tenths_weight : IsWeight f.three_tenths
  pub half_weight : IsWeight f.half
  pub thirty_five_weight : IsWeight f.thirty_five
  pub of_int_mono : (a b : ℤ) → a ≤ℤ b → f.of_int a ≼ f.of_int b
  pub of_int_zero : f.nought ≼ f.of_int (pos 0)
  pub add_nonneg : (a b : F) → f.nought ≼ a → f.nought ≼ b → f.nought ≼ f.add a b
  pub add_mono : (a b c d : F) → f.nought ≼ a → a ≼ b → f.nought ≼ c → c ≼ d → f.add a c ≼ f.add b d
  pub sub_anti : (x y : F) → x ≼ y → f.sub f.one y ≼ f.sub f.one x
  pub mul_nonneg : (x c : F) → IsWeight c → f.nought ≼ x → f.nought ≼ f.mul x c
  pub mul_mono : (x y c : F) → IsWeight c → x ≼ y → f.mul x c ≼ f.mul y c
  pub min_mono : (a x y : F) → a ≼ a → x ≼ y → f.min a x ≼ f.min a y
  pub min_le : (a x : F) → a ≼ a → x ≼ x → f.min a x ≼ a
  pub max_mono : (a x y : F) → a ≼ a → x ≼ y → f.max a x ≼ f.max a y
  pub le_max : (a x : F) → a ≼ a → x ≼ x → a ≼ f.max a x
  pub max_least : (a x c : F) → a ≼ c → x ≼ c → f.max a x ≼ c

-- The fields of a BotMetricsEvent that the score depends on.
pub record Metrics (F : Type 0) : Type 0 where
  pub ack_p50_us : ℤ
  pub ack_p90_us : ℤ
  pub ack_p99_us : ℤ
  pub tps : F
  pub correctness_score : F

module _ {F : Type 0} ⦃f : Float F⦄ where
  -- `math.Max(0, math.Min(1, x))`
  unfoldable pub clamp : F → F
  clamp x = f.max f.nought (f.min f.one x)

  unfoldable pub weighted_latency : Metrics F → F
  weighted_latency m =
      f.add
        (f.add (f.mul (f.of_int m.ack_p50_us) f.fifth)
          (f.mul (f.of_int m.ack_p90_us) f.three_tenths))
        (f.mul (f.of_int m.ack_p99_us) f.half)

  -- The sum of the three scores with their weights.
  unfoldable pub composite : F → F → F → F
  composite latency throughput correctness =
      f.add (f.add (f.mul latency f.thirty_five) (f.mul throughput f.thirty_five))
        (f.mul correctness f.three_tenths)

  -- (*Ingester).computeScore
  unfoldable pub compute_score : F → F → Metrics F → F
  unfolding clamp weighted_latency composite
  compute_score max_latency_us max_tps m =
      composite (clamp (f.sub f.one (f.div (weighted_latency m) max_latency_us)))
        (clamp (f.div m.tps max_tps)) (clamp m.correctness_score)
