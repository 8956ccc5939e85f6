-- ===== src/BotRunner/Bot/Writer/Tags.antt =====
-- The tags of a writer's templates: those of each sequence of the load bots are distinct.
use iicpc_sh.Prelude.{
  subst, zero, get_or, ℕ, suc, ◌≡◌, ◌≢◌, refl, arith, inl, inr, List, [], ◌∷◌, String, str_eq,
  str_eq_iff, if◌then◌else◌, Bool-cases, false, true, All,
}
use iicpc_sh.BotRunner.Sequence.{Sequence, sequences}
use iicpc_sh.BotRunner.Bot.Writer.{Template, templates_of}

-- The tags of the templates that send an order.
unfoldable pub order_tags : List Template → List String
order_tags [] = []
order_tags (t ∷ ts) = let more = order_tags ts in if t.is_cancel then more else t.tag ∷ more

pub order_tags_cancel :
    (t : Template) (ts : List Template) → t.is_cancel ≡ true → order_tags (t ∷ ts) ≡ order_tags ts
unfolding order_tags
order_tags_cancel t ts e = rw e refl

pub order_tags_order :
    (t : Template) (ts : List Template)
    → t.is_cancel ≡ false
    → order_tags (t ∷ ts) ≡ t.tag ∷ order_tags ts
unfolding order_tags
order_tags_order t ts e = rw e refl

unfoldable pub AreDistinct : List String → Type 0
AreDistinct [] = Unit {0}
AreDistinct (t ∷ ts) = All (λ u. t ≢ u) ts × AreDistinct ts

pub tail-AreDistinct :
    (t : Template) (ts : List Template)
    → AreDistinct (order_tags (t ∷ ts))
    → AreDistinct (order_tags ts)
unfolding order_tags AreDistinct
tail-AreDistinct t ts d = elim (Bool-cases t.is_cancel) [
  | inl e ↦ subst AreDistinct (order_tags_cancel t ts e) d
  | inr e ↦ (subst AreDistinct (order_tags_order t ts e) d).1
]

abbrev sequence_at : ℕ → ℕ → Sequence
sequence_at i r = get_or (sequences i) r (record { name = ""; steps = [] })

differs : {s t : String} → str_eq s t ≡ false → s ≢ t
differs {s} {t} h e = ground (arith, str_eq_iff s t)

pub sequence_at-AreDistinct : (i r : ℕ) → AreDistinct (order_tags (templates_of (sequence_at i r)))
unfolding AreDistinct order_tags
sequence_at-AreDistinct i zero = ((differs refl, tt), (tt, tt))
sequence_at-AreDistinct i (suc zero) = (
  (differs refl, (differs refl, (differs refl, tt))),
  ((differs refl, (differs refl, tt)), ((differs refl, tt), (tt, tt))),
)
sequence_at-AreDistinct i (suc (suc zero)) = ((differs refl, tt), (tt, tt))
sequence_at-AreDistinct i (suc (suc (suc r))) = tt
