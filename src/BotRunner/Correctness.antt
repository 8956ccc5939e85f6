-- ===== src/BotRunner/Correctness.antt =====
-- services/bot-runner/correctness_bot.go: Run and runSequence.
--
-- The connection and the stub behind it are an argument: `Io` says how each step's write, reads and
-- query of the book end. A read after the step's deadline does not happen, so a list of reads that
-- ends is a deadline that passes. An order id `cx-s<i>-<tag>` is the pair (i, tag), and a fill price
-- is counted in hundredths. The lines of the log are left out.
pub mod Passed
pub mod AgainstStub
use iicpc_sh.Prelude.{
  ℕ, suc, ◌+◌, ◌≡◌, Bool, true, false, not, ◌&&◌, ◌||◌, Option, none, some, List, [], ◌∷◌, ◌++◌,
  map, String, ltb, leb, ◌==◌, str_eq, if◌then◌else◌, ℤ, pos, eqb_ℤ, length,
}
use iicpc_sh.Prelude.Assoc.{lookup, insert}
use iicpc_sh.BotRunner.Sequence.{
  Step, StepKind, step_order, step_cancel, Sequence, Side, OrderType, correctness_sequences,
}

-- The fields of IncomingMessage that the correctness bot reads.
pub record Reply : Type 0 where
  pub type : String
  pub filled_qty : ℤ
  pub fill_price : ℕ

-- One call of conn.Read: an error after the whole run was cancelled, another error, bytes that are
-- not a message, or a message.
pub data Read : Type 0 where
  cancelled failed unreadable : Read
  received : Reply → Read

pub record Io : Type 0 where
  pub written : Bool
  pub reads : List Read
  pub book : Option (ℕ × ℕ)

-- The variables of a step's read loop.
pub record Got : Type 0 where
  pub filled : Bool
  pub fill_price : ℕ
  pub fill_qty : ℤ
  pub rejected : Bool
  pub acked : Bool
  pub cancel_acked : Bool

abbrev pub got_nothing : Got
got_nothing = record {
  filled = false;
  fill_price = 0;
  fill_qty = pos 0;
  rejected = false;
  acked = false;
  cancel_acked = false;
}

pub data Failure : Type 0 where
  not_connected : Failure
  no_such_tag : ℕ → String → Failure
  not_written was_cancelled no_cancel_ack no_fill no_reject no_book : ℕ → Failure
  wrong_price : ℕ → ℕ → ℕ → Failure
  wrong_qty : ℕ → ℕ → ℤ → Failure
  wrong_bids wrong_asks : ℕ → ℕ → ℕ → Failure

-- The two results of runSequence.
pub record Outcome : Type 0 where
  pub passed : ℕ
  pub failures : List Failure

abbrev pub nothing_checked : Outcome
nothing_checked = record { passed = 0; failures = [] }

abbrev pub pass : Outcome
pass = record { passed = 1; failures = [] }

abbrev pub fail : Failure → Outcome
fail f = record { passed = 0; failures = f ∷ [] }

-- `a then_check b`: what is checked later is counted and listed later.
abbrev pub then_check : Outcome → Outcome → Outcome
then_check a b = record { passed = a.passed + b.passed; failures = a.failures ++ b.failures }

abbrev pub is_cancel : StepKind → Bool
is_cancel step_cancel = true
is_cancel step_order = false

-- The `switch` on msg.Type.
unfoldable pub note : Got → Reply → Got
note g m =
    if str_eq m.type "ack"
    then record g { acked = true }
    else if str_eq m.type "fill"
    then record g { filled = true; fill_price = m.fill_price; fill_qty = m.filled_qty }
    else if str_eq m.type "reject"
    then record g { rejected = true }
    else if str_eq m.type "cancel_ack"
    then record g { cancel_acked = true }
    else g

-- The four tests that leave the read loop.
unfoldable pub enough : Step → Got → Bool
enough s g =
    is_cancel s.kind && g.cancel_acked
    || s.expect_reject && g.rejected
    || s.expect_fill && (g.acked && g.filled)
    || not s.expect_fill && (not s.expect_reject && g.acked)

-- The read loop; `none` is the return on a cancelled run.
unfoldable pub read_replies : Step → Got → List Read → Option Got
read_replies s g [] = some g
read_replies s g (cancelled ∷ rs) = none
read_replies s g (failed ∷ rs) = some g
read_replies s g (unreadable ∷ rs) = read_replies s g rs
read_replies s g (received m ∷ rs) =
    let g' = note g m in let more = read_replies s g' rs in if enough s g' then some g' else more

-- `math.Abs(a-b) > 0.01`
abbrev pub far : ℕ → ℕ → Bool
far a b = ltb (b + 1) a || ltb (a + 1) b

unfoldable pub check_cancel : ℕ → Step → Got → Outcome
check_cancel i s g =
    if is_cancel s.kind
    then (if g.cancel_acked then pass else fail (no_cancel_ack i))
    else nothing_checked

unfoldable pub check_price : ℕ → Option ℕ → ℕ → Outcome
check_price i none got = nothing_checked
check_price i (some wanted) got = if far got wanted then fail (wrong_price i wanted got) else pass

unfoldable pub check_qty : ℕ → Option ℕ → ℤ → Outcome
check_qty i none got = nothing_checked
check_qty i (some wanted) got =
    if eqb_ℤ got (pos wanted) then pass else fail (wrong_qty i wanted got)

unfoldable pub check_fill : ℕ → Step → Got → Outcome
check_fill i s g =
    if s.expect_fill
    then (if g.filled
        then then_check pass (
            then_check (check_price i s.expect_fill_price g.fill_price)
              (check_qty i s.expect_fill_qty g.fill_qty))
        else fail (no_fill i))
    else nothing_checked

unfoldable pub check_reject : ℕ → Step → Got → Outcome
check_reject i s g =
    if s.expect_reject then (if g.rejected then pass else fail (no_reject i)) else nothing_checked

unfoldable pub check_levels : Option ℕ → ℕ → (ℕ → ℕ → Failure) → Outcome
check_levels none got wrong = nothing_checked
check_levels (some wanted) got wrong = if got == wanted then pass else fail (wrong wanted got)

abbrev pub is_some : Option ℕ → Bool
is_some none = false
is_some (some n) = true

unfoldable pub check_book : ℕ → Step → Option (ℕ × ℕ) → Outcome
check_book i s none =
    if is_some s.expect_book_bids || is_some s.expect_book_asks
    then fail (no_book i)
    else nothing_checked
check_book i s (some (bids, asks)) =
    then_check (check_levels s.expect_book_bids bids (wrong_bids i))
      (check_levels s.expect_book_asks asks (wrong_asks i))

-- The assertions of a step, in their order.
unfoldable pub check_step : ℕ → Step → Got → Option (ℕ × ℕ) → Outcome
check_step i s g book =
    then_check (check_cancel i s g)
      (then_check (check_fill i s g) (then_check (check_reject i s g) (check_book i s book)))

-- The step after its tag was found: send, read, check. `rest` is the outcome of the later steps.
unfoldable pub send_step : ℕ → Step → Io → Outcome → Outcome
send_step i s io rest =
    if io.written
    then elim (read_replies s got_nothing io.reads) [
      | none ↦ fail (was_cancelled i)
      | some g ↦ then_check (check_step i s g io.book) rest
    ]
    else fail (not_written i)

-- tagToID after a step.
unfoldable pub next_tags : ℕ → Step → List (String × (ℕ × String)) → List (String × (ℕ × String))
next_tags i s tags = if is_cancel s.kind then tags else insert s.tag (i, s.tag) tags

-- A cancel step finds no order to cancel.
unfoldable pub untagged : Step → List (String × (ℕ × String)) → Bool
untagged s tags =
    let missing : Bool = elim (lookup s.cancel_tag tags) [ none ↦ true | some _ ↦ false ] in
    is_cancel s.kind && missing

-- The loop over the steps.
unfoldable pub run_steps : ℕ → List (String × (ℕ × String)) → List Step → (ℕ → Io) → Outcome
run_steps i tags [] io = nothing_checked
run_steps i tags (s ∷ ss) io =
    let rest = run_steps (suc i) (next_tags i s tags) ss io in
    if untagged s tags
    then then_check (fail (no_such_tag i s.cancel_tag)) rest
    else send_step i s (io i) rest

-- (*CorrectnessBot).runSequence; `connected` is the end of websocket.Dial.
unfoldable pub run_sequence : Sequence → Bool → (ℕ → Io) → Outcome
run_sequence seq connected io =
    let ran = run_steps 0 [] seq.steps io in if connected then ran else fail not_connected

-- The network of one run: for each sequence, the dial and the steps.
abbrev pub Network : Type 0
Network = String → Bool × (ℕ → Io)

unfoldable pub run_all : List Sequence → Network → Outcome
run_all [] net = nothing_checked
run_all (seq ∷ seqs) net =
    then_check (run_sequence seq (net seq.name).0 (net seq.name).1) (run_all seqs net)

-- CorrectnessResult, its score as a fraction.
pub record CorrectnessResult : Type 0 where
  pub score : ℕ × ℕ
  pub passed : ℕ
  pub failed : ℕ
  pub total_assertions : ℕ
  pub failure_details : List Failure

-- (*CorrectnessBot).Run
unfoldable pub run : Network → CorrectnessResult
run net =
    let out = run_all correctness_sequences net in
    let total : ℕ = out.passed + length out.failures in
    record {
      score = if total == 0 then (1, 1) else (out.passed, total);
      passed = out.passed;
      failed = length out.failures;
      total_assertions = total;
      failure_details = out.failures;
    }
