-- ===== src/BuildService/Logs/Bounded.antt =====
-- What the limited copy of a log keeps, and when it is an error.
use iicpc_sh.Prelude.{
  ℕ, zero, suc, ◌+◌, ◌-◌, ◌≡◌, ◌≤◌, ◌<◌, refl, arith, inl, inr, Bool, true, false, not, ◌&&◌, ◌||◌,
  List, [], ◌∷◌, ◌++◌, ltb, leb, ◌==◌, length, length-append, length-take, take, none, some,
  Bool-cases, sym, ap, ◌∙◌, leb→le,
}
use mathlib.Core.List.{append-nil, append_assoc}
use iicpc_sh.BuildService.Logs.{
  LimitWriter, clip, write, copy, ends_open, trim_loop, read_log, new_writer,
}

-- `n` counts the bytes of the buffer, which fit.
pub record IsCounted (w : LimitWriter) : Type 0 where
  pub counted : w.n ≡ length w.w
  pub bounded : w.n ≤ w.limit

take-all : (n : ℕ) (xs : List ℕ) → length xs ≤ n → take n xs ≡ xs
take-all zero [] h = refl
take-all zero (x ∷ xs) h = absurd (omega arith)
take-all (suc n) [] h = refl
take-all (suc n) (x ∷ xs) h = ap (λ ys. x ∷ ys) (take-all n xs (omega arith))

take-zero : (n : ℕ) (xs : List ℕ) → n ≡ 0 → take n xs ≡ []
take-zero n xs h = rw h refl

take-none : (n : ℕ) → take {A = ℕ} n [] ≡ []
take-none zero = refl
take-none (suc n) = refl

take-append : (n : ℕ) (xs ys : List ℕ) → take n (xs ++ ys) ≡ take n xs ++ take (n - length xs) ys
take-append n [] ys = rw (take-none n) (ap (λ k. take k ys) (omega arith))
take-append zero (x ∷ xs) ys = sym (take-zero _ ys (omega arith))
take-append (suc n) (x ∷ xs) ys =
    ap (λ zs. x ∷ zs) (take-append n xs ys ∙ ap (λ k. take n xs ++ take k ys) (omega arith))

unfoldable pub concat : List (List ℕ) → List ℕ
concat [] = []
concat (p ∷ ps) = p ++ concat ps

-- A chunk begins below the limit and ends above it.
unfoldable pub straddles : ℕ → ℕ → List (List ℕ) → Bool
straddles limit n [] = false
straddles limit n (p ∷ ps) =
    let later = straddles limit (n + length p) ps in
    ltb n limit && ltb limit (n + length p) || later

clip-take : (w : LimitWriter) (p : List ℕ) → w.n < w.limit → clip w p ≡ take (w.limit - w.n) p
unfolding clip
clip-take w p room = elim (Bool-cases (ltb w.limit (w.n + length p))) [
  | inl e ↦ rw e refl
  | inr e ↦ rw e (sym (take-all _ p (ground arith)))
]

write-full : (w : LimitWriter) (p : List ℕ) → leb w.limit w.n ≡ true → write w p ≡ (length p, w)
unfolding write
write-full w p full = rw full refl

-- The writer after a Write that has room.
abbrev wrote : LimitWriter → List ℕ → LimitWriter
wrote w p = record w {
  w = w.w ++ take (w.limit - w.n) p;
  n = w.n + length (take (w.limit - w.n) p);
}

write-room :
    (w : LimitWriter) (p : List ℕ)
    → leb w.limit w.n ≡ false
    → write w p ≡ (length (take (w.limit - w.n) p), wrote w p)
unfolding write
write-room w p room = rw room (rw (clip-take w p (ground arith)) refl)

wrote-IsCounted : (w : LimitWriter) (p : List ℕ) → IsCounted w → IsCounted (wrote w p)
wrote-IsCounted w p h =
    let c = h.counted in
    let b = h.bounded in
    let l = length-take (w.limit - w.n) p in
    record {
      counted = omega (arith, length-append w.w (take (w.limit - w.n) p));
      bounded = omega arith;
    }

-- Bytes after the limit change nothing.
straddles-full : (limit n : ℕ) (ps : List (List ℕ)) → limit ≤ n → straddles limit n ps ≡ false
unfolding straddles
straddles-full limit n [] h = refl
straddles-full limit n (p ∷ ps) h =
    let later = straddles-full limit (n + length p) ps (omega arith) in ground arith

-- What the copy does from a writer, and when it is an error.
abbrev Copied : LimitWriter → List (List ℕ) → Type 0
Copied w ps =
    ((copy w ps).1.w ≡ w.w ++ take (w.limit - w.n) (concat ps))
    × ((copy w ps).0 ≡ not (straddles w.limit w.n ps))

module _ (w : LimitWriter) (p : List ℕ) (ps : List (List ℕ)) (h : IsCounted w) where
  copy-full : leb w.limit w.n ≡ true → Copied w ps → Copied w (p ∷ ps)
  unfolding copy concat
  copy-full full (bytes, ok) =
      let f = leb→le _ _ full in
      let none_left : w.limit - w.n ≡ 0 = omega arith in
      let eq : (length p == length p) ≡ true = ground arith in
      rw (write-full w p full) (
        rw eq (
          bytes ∙ rw none_left refl,
          ok
              ∙ ap not
                  (straddles-full w.limit w.n ps f ∙ sym (straddles-full w.limit w.n (p ∷ ps) f)),
        ))

  copy-over : leb w.limit w.n ≡ false → ltb w.limit (w.n + length p) ≡ true → Copied w (p ∷ ps)
  unfolding copy concat straddles
  copy-over room over =
      let l = length-take (w.limit - w.n) p in
      let short : (length (take (w.limit - w.n) p) == length p) ≡ false = ground arith in
      let low : ltb w.n w.limit ≡ true = ground arith in
      rw (write-room w p room) (
        rw short (
          ap (λ q. w.w ++ q)
              (sym (
                take-append (w.limit - w.n) p (concat ps)
                ∙ ap (λ q. take (w.limit - w.n) p ++ q) (take-zero _ (concat ps) (ground arith))
                ∙ append-nil _)),
          rw low (rw over refl),
        ))

  copy-fits :
      leb w.limit w.n ≡ false
      → ltb w.limit (w.n + length p) ≡ false
      → Copied (wrote w p) ps
      → Copied w (p ∷ ps)
  unfolding copy concat straddles
  copy-fits room fits (bytes, ok) =
      let all = take-all (w.limit - w.n) p (ground arith) in
      let same : (length (take (w.limit - w.n) p) == length p) ≡ true = rw all (ground arith) in
      rw (write-room w p room) (
        rw same (
          bytes
              ∙ append_assoc w.w (take (w.limit - w.n) p) _
              ∙ ap (λ q. w.w ++ q)
                  (sym (
                    take-append (w.limit - w.n) p (concat ps)
                    ∙ ap (λ k. take (w.limit - w.n) p ++ take k (concat ps))
                        (rw all (omega arith)))),
          ok ∙ rw fits (rw all (ground arith)),
        ))

-- The buffer takes the bytes of the stream in order, up to the limit; the copy is an error if and
-- only if a chunk of the stream goes over the limit.
copy-Bounded :
    (w : LimitWriter) (ps : List (List ℕ))
    → IsCounted w
    → ((copy w ps).1.w ≡ w.w ++ take (w.limit - w.n) (concat ps))
      × ((copy w ps).0 ≡ not (straddles w.limit w.n ps))
unfolding copy concat straddles
copy-Bounded w [] h = (rw (take-none (w.limit - w.n)) (sym (append-nil w.w)), refl)
copy-Bounded w (p ∷ ps) h = elim (Bool-cases (leb w.limit w.n)) [
  | inl full ↦ copy-full w p ps h full (copy-Bounded w ps h)
  | inr room ↦ elim (Bool-cases (ltb w.limit (w.n + length p))) [
    | inl over ↦ copy-over w p ps h room over
    | inr fits ↦ copy-fits w p ps h room fits (copy-Bounded (wrote w p) ps (wrote-IsCounted w p h))
  ]
]

length-trim_loop :
    (valid : List ℕ → Bool) (fuel : ℕ) (s : List ℕ) → length (trim_loop valid fuel s) ≤ length s
unfolding trim_loop
length-trim_loop valid zero s = omega arith
length-trim_loop valid (suc fuel) s =
    let shorter = length-trim_loop valid fuel (take (length s - 1) s) in
    let l = length-take (length s - 1) s in
    elim (Bool-cases (ends_open s && not (valid s))) [
      | inl e ↦ rw e (omega arith)
      | inr e ↦ rw e (omega arith)
    ]

-- A log is read if and only if no chunk of it goes over the limit: a log that is too long in the
-- middle of a chunk is an error and not a shorter reason. What is read is at most the limit.
pub read_log-Bounded :
    (valid : List ℕ → Bool) (limit : ℕ) (ps : List (List ℕ))
    → (straddles limit 0 ps ≡ true → read_log valid limit ps ≡ none)
      × (straddles limit 0 ps ≡ false
          → (s : List ℕ) × ((read_log valid limit ps ≡ some s) × (length s ≤ limit)))
unfolding read_log
read_log-Bounded valid limit ps =
    let (bytes, ok) =
      copy-Bounded (new_writer limit) ps (record { counted = refl; bounded = omega arith }) in
    (
      λ over. rw (ok ∙ ap not over) refl,
      λ fits. (
        trim_loop valid (length (copy (new_writer limit) ps).1.w) (copy (new_writer limit) ps).1.w,
        (
          rw (ok ∙ ap not fits) refl,
          let t =
                length-trim_loop valid (length (copy (new_writer limit) ps).1.w)
                  (copy (new_writer limit) ps).1.w in
              let l = length-take (limit - 0) (concat ps) in
              let b : length (copy (new_writer limit) ps).1.w
                  ≡ length (take (limit - 0) (concat ps)) =
                ap length bytes in
              omega arith,
        ),
      ),
    )
