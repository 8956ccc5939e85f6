-- ===== src/BuildService/Truncate.antt =====
-- services/build-service/publisher.go: truncate, which cuts the reason of a failed build.
--
-- `valid` is utf8.ValidString, of Go's standard library, on bytes. The loop drops a byte each time,
-- so the limit is fuel enough.
use iicpc_sh.Prelude.{
  ℕ, zero, suc, ◌-◌, ◌≡◌, ◌≤◌, ◌<◌, refl, arith, ap, inl, inr, Bool, true, false, not, ◌&&◌, List,
  [], ◌∷◌, ltb, leb, if◌then◌else◌, length, length-take, take, Bool-cases,
}

-- `for len(s) > 0 && !utf8.ValidString(s)`
unfoldable pub drop_invalid : (List ℕ → Bool) → ℕ → List ℕ → List ℕ
drop_invalid valid zero s = s
drop_invalid valid (suc fuel) s =
    let shorter = drop_invalid valid fuel (take (length s - 1) s) in
    if ltb 0 (length s) && not (valid s) then shorter else s

unfoldable pub truncate : (List ℕ → Bool) → List ℕ → ℕ → List ℕ
truncate valid s max =
    let cut = drop_invalid valid max (take max s) in if leb (length s) max then s else cut

-- The longest of the first `max` prefixes of `s` that is valid, of length `n`.
pub record IsLongest (valid : List ℕ → Bool) (s : List ℕ) (max : ℕ) (r : List ℕ) : Type 0 where
  pub n : ℕ
  pub prefix : r ≡ take n s
  pub within : n ≤ max
  pub is_valid : valid r ≡ true
  pub longest : (k : ℕ) → n < k → k ≤ max → valid (take k s) ≡ false

take-take : (n : ℕ) (s : List ℕ) → n < length s → take n (take (suc n) s) ≡ take n s
take-take n [] h = absurd (omega arith)
take-take zero (x ∷ s) h = refl
take-take (suc n) (x ∷ s) h = ap (λ t. x ∷ t) (take-take n s (omega arith))

module _ (valid : List ℕ → Bool) (empty : valid [] ≡ true) (s : List ℕ) where
  drop_invalid-IsLongest :
      (n : ℕ) → n ≤ length s → IsLongest valid s n (drop_invalid valid n (take n s))
  unfolding drop_invalid
  drop_invalid-IsLongest zero h = record {
    n = 0;
    prefix = refl;
    within = omega arith;
    is_valid = empty;
    longest = λ k p q. absurd (omega arith);
  }
  drop_invalid-IsLongest (suc n) h =
      let l = length-take (suc n) s in
      let some_left : ltb 0 (length (take (suc n) s)) ≡ true = ground arith in
      let shorter : length (take (suc n) s) - 1 ≡ n = omega arith in
      elim (Bool-cases (valid (take (suc n) s))) [
        | inl good ↦ rw some_left (
            rw good (record {
              n = suc n;
              prefix = refl;
              within = omega arith;
              is_valid = good;
              longest = λ k p q. absurd (omega arith);
            }))
        | inr bad ↦
            let rest = drop_invalid-IsLongest n (omega arith) in
            rw some_left (
              rw bad (
                rw shorter (
                  rw (take-take n s (omega arith)) (record {
                    n = rest.n;
                    prefix = rest.prefix;
                    within = let w = rest.within in omega arith;
                    is_valid = rest.is_valid;
                    longest = λ k p q. elim (Bool-cases (leb k n)) [
                      | inl low ↦ rest.longest k p (ground arith)
                      | inr high ↦ let e : k ≡ suc n = ground arith in rw e bad
                    ];
                  }))))
      ]

  -- A reason that is longer than the limit is cut to the longest prefix within the limit that is
  -- valid UTF-8; the empty string is valid.
  pub truncate-IsLongest : (max : ℕ) → max < length s → IsLongest valid s max (truncate valid s max)
  unfolding truncate
  truncate-IsLongest max h =
      let long : leb (length s) max ≡ false = ground arith in
      rw long (drop_invalid-IsLongest max (omega arith))
