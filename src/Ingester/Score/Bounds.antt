-- ===== src/Ingester/Score/Bounds.antt =====
-- The score lies between 0 and that of a perfect run, and a better run does not score less.
use iicpc_sh.Prelude.{ℤ, pos, ◌≤ℤ◌, arith}
use iicpc_sh.Ingester.Score.{
  Float, ◌≼◌, IsWeight, IsScale, IsOrdered, Metrics, clamp, weighted_latency, composite,
  compute_score,
}

module _ {F : Type 0} ⦃f : Float F⦄ (laws : IsOrdered F) where
  one_refl : f.one ≼ f.one
  one_refl = (laws.refl_of_le f.nought f.one laws.nought_le_one).1

  nought_refl : f.nought ≼ f.nought
  nought_refl = (laws.refl_of_le f.nought f.one laws.nought_le_one).0

  min_refl : (x : F) → x ≼ x → f.min f.one x ≼ f.min f.one x
  min_refl x h = laws.min_mono f.one x x one_refl h

  clamp_nonneg : (x : F) → x ≼ x → f.nought ≼ clamp x
  unfolding clamp
  clamp_nonneg x h = laws.le_max f.nought (f.min f.one x) nought_refl (min_refl x h)

  clamp_le_one : (x : F) → x ≼ x → clamp x ≼ f.one
  unfolding clamp
  clamp_le_one x h =
      laws.max_least f.nought (f.min f.one x) f.one laws.nought_le_one
        (laws.min_le f.one x one_refl h)

  clamp_mono : (x y : F) → x ≼ y → clamp x ≼ clamp y
  unfolding clamp
  clamp_mono x y h = laws.max_mono f.nought _ _ nought_refl (laws.min_mono f.one x y one_refl h)

  -- One of the three terms of the sum.
  term_nonneg : (x c : F) → IsWeight c → x ≼ x → f.nought ≼ f.mul (clamp x) c
  term_nonneg x c w h = laws.mul_nonneg (clamp x) c w (clamp_nonneg x h)

  composite_mono :
      (a a' b b' c c' : F)
      → a ≼ a'
      → b ≼ b'
      → c ≼ c'
      → f.nought ≼ a
      → f.nought ≼ b
      → f.nought ≼ c
      → composite a b c ≼ composite a' b' c'
  unfolding composite
  composite_mono a a' b b' c c' p q r p0 q0 r0 =
      let w = laws.thirty_five_weight in
      let v = laws.three_tenths_weight in
      let a0 = laws.mul_nonneg a f.thirty_five w p0 in
      let b0 = laws.mul_nonneg b f.thirty_five w q0 in
      laws.add_mono _ _ _ _ (laws.add_nonneg _ _ a0 b0)
        (laws.add_mono _ _ _ _ a0 (laws.mul_mono a a' f.thirty_five w p) b0
          (laws.mul_mono b b' f.thirty_five w q))
        (laws.mul_nonneg c f.three_tenths v r0) (laws.mul_mono c c' f.three_tenths v r)

  composite_nonneg :
      (a b c : F) → f.nought ≼ a → f.nought ≼ b → f.nought ≼ c → f.nought ≼ composite a b c
  unfolding composite
  composite_nonneg a b c p q r =
      laws.add_nonneg _ _
        (laws.add_nonneg _ _ (laws.mul_nonneg a f.thirty_five laws.thirty_five_weight p)
          (laws.mul_nonneg b f.thirty_five laws.thirty_five_weight q))
        (laws.mul_nonneg c f.three_tenths laws.three_tenths_weight r)

  -- Latencies that are not negative, and numbers that are numbers.
  pub record IsMeasured (m : Metrics F) : Type 0 where
    pub p50 : pos 0 ≤ℤ m.ack_p50_us
    pub p90 : pos 0 ≤ℤ m.ack_p90_us
    pub p99 : pos 0 ≤ℤ m.ack_p99_us
    pub tps : m.tps ≼ m.tps
    pub correctness : m.correctness_score ≼ m.correctness_score

  of_int_nonneg : (n : ℤ) → pos 0 ≤ℤ n → f.nought ≼ f.of_int n
  of_int_nonneg n h = laws.le_trans _ _ _ laws.of_int_zero (laws.of_int_mono (pos 0) n h)

  -- The first run is no slower than the second at any of the three quantiles.
  pub record IsFaster (a b : Metrics F) : Type 0 where
    pub p50 : a.ack_p50_us ≤ℤ b.ack_p50_us
    pub p90 : a.ack_p90_us ≤ℤ b.ack_p90_us
    pub p99 : a.ack_p99_us ≤ℤ b.ack_p99_us

  weighted_latency_mono :
      (a b : Metrics F) → IsMeasured a → IsFaster a b → weighted_latency a ≼ weighted_latency b
  unfolding weighted_latency
  weighted_latency_mono a b h fast =
      let scaled = λ (m n : ℤ) (c : F) (w : IsWeight c) (le : m ≤ℤ n).
        laws.mul_mono (f.of_int m) (f.of_int n) c w (laws.of_int_mono m n le) in
      let zero50 = laws.mul_nonneg _ f.fifth laws.fifth_weight (of_int_nonneg a.ack_p50_us h.p50) in
      let zero90 =
        laws.mul_nonneg _ f.three_tenths laws.three_tenths_weight
          (of_int_nonneg a.ack_p90_us h.p90) in
      laws.add_mono _ _ _ _ (laws.add_nonneg _ _ zero50 zero90)
        (laws.add_mono _ _ _ _ zero50 (scaled _ _ _ laws.fifth_weight fast.p50) zero90
          (scaled _ _ _ laws.three_tenths_weight fast.p90))
        (laws.mul_nonneg _ f.half laws.half_weight (of_int_nonneg a.ack_p99_us h.p99))
        (scaled _ _ _ laws.half_weight fast.p99)

  module _ (max_latency_us max_tps : F) (latency-IsScale : IsScale max_latency_us)
      (tps-IsScale : IsScale max_tps) where
    latency_mono :
        (a b : Metrics F)
        → IsMeasured a
        → IsFaster a b
        → f.sub f.one (f.div (weighted_latency b) max_latency_us)
          ≼ f.sub f.one (f.div (weighted_latency a) max_latency_us)
    latency_mono a b h fast =
        laws.sub_anti _ _ (latency-IsScale.div_mono _ _ (weighted_latency_mono a b h fast))

    IsFaster-refl : (a : Metrics F) → IsFaster a a
    IsFaster-refl a = record { p50 = omega arith; p90 = omega arith; p99 = omega arith }

    -- Under the laws of the floats, and with positive ceilings, the score of measured numbers is neither
    -- less than 0 nor more than the sum of the three weights, the score of a perfect run.
    pub compute_score-bounded :
        (m : Metrics F)
        → IsMeasured m
        → (f.nought ≼ compute_score max_latency_us max_tps m)
          × (compute_score max_latency_us max_tps m ≼ composite f.one f.one f.one)
    unfolding compute_score
    compute_score-bounded m h =
        let l = latency_mono m m h (IsFaster-refl m) in
        let t = tps-IsScale.div_mono _ _ h.tps in
        let l0 = clamp_nonneg _ l in
        let t0 = clamp_nonneg _ t in
        let c0 = clamp_nonneg _ h.correctness in
        (
          composite_nonneg _ _ _ l0 t0 c0,
          composite_mono _ _ _ _ _ _ (clamp_le_one _ l) (clamp_le_one _ t)
              (clamp_le_one _ h.correctness) l0 t0 c0,
        )

    -- Under the laws of the floats, and with positive ceilings, a measured run that is no slower at any of
    -- the three quantiles, has no fewer orders a second and is no less correct does not score less.
    pub compute_score_mono :
        (a b : Metrics F)
        → IsMeasured a
        → IsMeasured b
        → IsFaster a b
        → b.tps ≼ a.tps
        → b.correctness_score ≼ a.correctness_score
        → compute_score max_latency_us max_tps b ≼ compute_score max_latency_us max_tps a
    unfolding compute_score
    compute_score_mono a b h k fast more right =
        let l = latency_mono b b k (IsFaster-refl b) in
        let t = tps-IsScale.div_mono _ _ k.tps in
        composite_mono _ _ _ _ _ _ (clamp_mono _ _ (latency_mono a b h fast))
          (clamp_mono _ _ (tps-IsScale.div_mono _ _ more)) (clamp_mono _ _ right) (clamp_nonneg _ l)
          (clamp_nonneg _ t) (clamp_nonneg _ k.correctness)
