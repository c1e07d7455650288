-- ===== src/Stripe/PostingLaws.antt =====
-- A hot posting list against the set of its ordinals.
use shard_log.Prelude.{
  ℕ, ◌+◌, ◌≤◌, ◌<◌, ◌≡◌, refl, Bool, false, ◌&&◌, ◌||◌, List, [], ◌∷◌, any, leb, nat_eq, arith,
}
use shard_log.Stripe.Postings.{OrdinalRun, push_run}

-- The runs stand in order, and none of them is empty or reaches `bound`.
abbrev pub RunsFrom : ℕ → ℕ → List OrdinalRun → Type 0
RunsFrom low bound [] = Unit
RunsFrom low bound (run ∷ runs) =
    (low ≤ run.first)
    × (run.first ≤ run.last)
    × (run.last < bound)
    × RunsFrom (run.last + 1) bound runs

abbrev pub in_run : ℕ → OrdinalRun → Bool
in_run ordinal run = leb run.first ordinal && leb ordinal run.last

-- The ordinals of a posting list.
unfoldable pub posted : ℕ → List OrdinalRun → Bool
posted ordinal runs = any (in_run ordinal) runs

pub posted_low :
    (low bound o : ℕ) (runs : List OrdinalRun)
    → RunsFrom low bound runs
    → o < low
    → posted o runs ≡ false
unfolding posted any
posted_low low bound o [] w h = refl
posted_low low bound o (run ∷ runs) w h = ground (arith, posted_low (run.last + 1) bound o runs w.3)

pub posted_high :
    (low bound o : ℕ) (runs : List OrdinalRun)
    → RunsFrom low bound runs
    → bound ≤ o
    → posted o runs ≡ false
unfolding posted any
posted_high low bound o [] w h = refl
posted_high low bound o (run ∷ runs) w h =
    ground (arith, posted_high (run.last + 1) bound o runs w.3)

-- A range behind all runs keeps them in order, and adds its ordinals.
pub push_run-RunsFrom :
    (low bound first final : ℕ) (runs : List OrdinalRun)
    → RunsFrom low bound runs
    → low ≤ first
    → bound ≤ first
    → first ≤ final
    → RunsFrom low (final + 1) (push_run runs first final)
unfolding push_run
push_run-RunsFrom low bound first final [] w l b h = omega arith
push_run-RunsFrom low bound first final (run ∷ []) w l b h = ground arith
push_run-RunsFrom low bound first final (run ∷ next ∷ runs) w l b h = (
  w.0,
  w.1,
  omega arith,
  push_run-RunsFrom (run.last + 1) bound first final (next ∷ runs) w.3 (omega arith) b h,
)

pub posted-push_run :
    (low bound first final o : ℕ) (runs : List OrdinalRun)
    → RunsFrom low bound runs
    → bound ≤ first
    → first ≤ final
    → posted o (push_run runs first final) ≡ (posted o runs || (leb first o && leb o final))
unfolding push_run posted any
posted-push_run low bound first final o [] w b h = ground arith
posted-push_run low bound first final o (run ∷ []) w b h = ground arith
posted-push_run low bound first final o (run ∷ next ∷ runs) w b h =
    ground (arith, posted-push_run (run.last + 1) bound first final o (next ∷ runs))
