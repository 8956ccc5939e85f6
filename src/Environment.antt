-- ===== src/Environment.antt =====
-- envStr, envInt and the list of brokers of services/bot-runner/main.go and
-- services/bot-orchestrator/main.go, which have the same text. The environment is an argument, with
-- the empty text for a variable that is not set.
use iicpc_sh.Prelude.{
  ◌≡◌, refl, ap, ◌∙◌, true, false, Option, none, some, List, [], ◌∷◌, String, str_eq, str_eq_iff,
  if◌then◌else◌, ℤ, All, Bool-cases, inl, inr, arith,
}
use iicpc_sh.Prelude.Decimal.{atoi, in_range, show_int, atoi-in_range, atoi-show_int}
use iicpc_sh.Prelude.Texts.{
  split_commas, join_commas, trim_space, NoComma, split_commas-All, trim_space-no_comma,
  trim_space_twice, split_commas-join_commas, trim_left, trim_right,
}

abbrev pub Environment : Type 0
Environment = String → String

unfoldable pub env_str : Environment → String → String → String
env_str getenv key default = if str_eq (getenv key) "" then default else getenv key

abbrev pub or_default : ℤ → Option ℤ → ℤ
or_default default none = default
or_default default (some n) = n

unfoldable pub env_int : Environment → String → ℤ → ℤ
env_int getenv key default =
    if str_eq (getenv key) "" then default else or_default default (atoi (getenv key))

-- The loop over the parts.
unfoldable pub keep_brokers : List String → List String
keep_brokers [] = []
keep_brokers (b ∷ bs) =
    let rest = keep_brokers bs in
    let trimmed = trim_space b in if str_eq trimmed "" then rest else trimmed ∷ rest

unfoldable pub brokers_of : String → List String
brokers_of raw = keep_brokers (split_commas raw)

-- A broker as the loop keeps it.
pub record IsKept (b : String) : Type 0 where
  pub trimmed : trim_space b ≡ b
  pub named : str_eq b "" ≡ false
  pub no_comma : NoComma b

keep_brokers-All : (bs : List String) → All NoComma bs → All IsKept (keep_brokers bs)
unfolding keep_brokers
keep_brokers-All [] h = tt
keep_brokers-All (b ∷ bs) h = elim (Bool-cases (str_eq (trim_space b) "")) [
  | inl e ↦ rw e (keep_brokers-All bs h.1)
  | inr e ↦ rw e (
    record { trimmed = trim_space_twice b; named = e; no_comma = trim_space-no_comma b h.0 },
    keep_brokers-All bs h.1,
  )
]

keep_brokers_id : (bs : List String) → All IsKept bs → keep_brokers bs ≡ bs
unfolding keep_brokers
keep_brokers_id [] h = refl
keep_brokers_id (b ∷ bs) h =
    rw h.0.trimmed (rw h.0.named (ap (λ rest. b ∷ rest) (keep_brokers_id bs h.1)))

All-NoComma : (bs : List String) → All IsKept bs → All NoComma bs
All-NoComma [] h = tt
All-NoComma (b ∷ bs) h = (h.0.no_comma, All-NoComma bs h.1)

brokers_of-join : (bs : List String) → All IsKept bs → brokers_of (join_commas bs) ≡ bs
unfolding brokers_of
brokers_of-join [] h =
    unfold join_commas split_commas keep_brokers trim_space trim_left trim_right in refl
brokers_of-join (b ∷ bs) h =
    ap keep_brokers (split_commas-join_commas b bs (All-NoComma (b ∷ bs) h))
    ∙ keep_brokers_id (b ∷ bs) h

-- A list of brokers that is read, joined and read again is the list that was read first.
pub brokers_of-join_commas :
    (raw : String) → brokers_of (join_commas (brokers_of raw)) ≡ brokers_of raw
brokers_of-join_commas raw =
    brokers_of-join (brokers_of raw)
      (unfold brokers_of in keep_brokers-All (split_commas raw) (split_commas-All raw))

in_range-or_default :
    (default : ℤ) (o : Option ℤ)
    → in_range default ≡ true
    → ((z : ℤ) → o ≡ some z → in_range z ≡ true)
    → in_range (or_default default o) ≡ true
in_range-or_default default none d h = d
in_range-or_default default (some z) d h = h z refl

-- A setting is an int.
pub env_int-in_range :
    (getenv : Environment) (key : String) (default : ℤ)
    → in_range default ≡ true
    → in_range (env_int getenv key default) ≡ true
unfolding env_int
env_int-in_range getenv key default d = elim (Bool-cases (str_eq (getenv key) "")) [
  | inl e ↦ rw e d
  | inr e ↦ rw e (in_range-or_default default _ d (atoi-in_range (getenv key)))
]

empty_unread : atoi "" ≡ none
unfolding atoi
empty_unread = refl

-- A variable that holds an int as `%d` writes it sets that int.
pub env_int-show_int :
    (getenv : Environment) (key : String) (default z : ℤ)
    → getenv key ≡ show_int z
    → in_range z ≡ true
    → env_int getenv key default ≡ z
unfolding env_int
env_int-show_int getenv key default z e ok =
    let read : atoi (getenv key) ≡ some z = ap atoi e ∙ atoi-show_int z ok in
    elim (Bool-cases (str_eq (getenv key) "")) [
      | inl none_set ↦
          absurd
            (ground (arith, read, ap atoi ((str_eq_iff (getenv key) "").0 none_set) ∙ empty_unread))
      | inr set ↦ rw set (ap (or_default default) read)
    ]
