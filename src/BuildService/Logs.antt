-- ===== src/BuildService/Logs.antt =====
-- services/build-service/builder.go: limitWriter, and the copy of a pod's log into it.
--
-- A byte is a number and the writer below a limitWriter is the bytes.Buffer of readPodLogs, which
-- takes every byte. `copy` is the loop of io.Copy, of Go's standard library, over the chunks that the
-- stream is read in: it stops with io.ErrShortWrite when a Write reports fewer bytes than it was given.
pub mod Bounded
use iicpc_sh.Prelude.{
  ℕ, zero, suc, ◌+◌, ◌-◌, Bool, true, false, ◌||◌, List, [], ◌∷◌, ◌++◌, ltb, leb, ◌==◌,
  if◌then◌else◌, length, take, Option, none, some, not, ◌&&◌,
}

pub record LimitWriter : Type 0 where
  pub w : List ℕ
  pub limit : ℕ
  pub n : ℕ

-- `p[:w.limit-w.n]` if the rest of the chunk does not fit.
unfoldable pub clip : LimitWriter → List ℕ → List ℕ
clip w p = if ltb w.limit (w.n + length p) then take (w.limit - w.n) p else p

-- (*limitWriter).Write: the number of bytes that it reports, and the writer after it.
unfoldable pub write : LimitWriter → List ℕ → ℕ × LimitWriter
unfolding clip
write w p =
    let kept = clip w p in
    let wrote : ℕ × LimitWriter =
      (length kept, record w { w = w.w ++ kept; n = w.n + length kept }) in
    if leb w.limit w.n then (length p, w) else wrote

-- io.Copy; `false` is an error.
unfoldable pub copy : LimitWriter → List (List ℕ) → Bool × LimitWriter
unfolding write
copy w [] = (true, w)
copy w (p ∷ ps) =
    let (m, w') = write w p in let rest = copy w' ps in if m == length p then rest else (false, w')

-- utf8.FullRuneInString on a string of one byte, of Go's standard library: the byte is not the first
-- of a longer rune.
unfoldable pub full_rune : ℕ → Bool
full_rune b = ltb b 194 || ltb 244 b

-- The last byte is the first of a longer rune.
unfoldable pub ends_open : List ℕ → Bool
unfolding full_rune
ends_open [] = false
ends_open (b ∷ []) = not (full_rune b)
ends_open (b ∷ c ∷ s) = ends_open (c ∷ s)

-- The loop of readPodLogs after the copy, with utf8.ValidString as `valid`. It runs at most once for
-- each byte, so the length of the log is fuel enough.
unfoldable pub trim_loop : (List ℕ → Bool) → ℕ → List ℕ → List ℕ
unfolding ends_open
trim_loop valid zero s = s
trim_loop valid (suc fuel) s =
    let shorter = trim_loop valid fuel (take (length s - 1) s) in
    if ends_open s && not (valid s) then shorter else s

abbrev pub new_writer : ℕ → LimitWriter
new_writer limit = record { w = []; limit = limit; n = 0 }

-- readPodLogs once the stream is open: the reason, or an error.
unfoldable pub read_log : (List ℕ → Bool) → ℕ → List (List ℕ) → Option (List ℕ)
read_log valid max_log_bytes chunks =
    let (ok, w) = copy (new_writer max_log_bytes) chunks in
    if ok then some (trim_loop valid (length w.w) w.w) else none
