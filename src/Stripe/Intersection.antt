-- ===== src/Stripe/Intersection.antt =====
-- `intersect_ordinal_runs` keeps the candidates that the runs hold.
use shard_log.Prelude.{
  ℕ, ◌+◌, ◌≤◌, ◌<◌, ◌≡◌, refl, sym, ap, ◌∙◌, Bool, true, false, List, [], ◌∷◌, any, All, ltb, leb,
  arith, Bool-cases, inl, inr, ltb→lt,
}
use shard_log.Prelude.Sorting.{retain, retain_none, retain_keep, retain_skip, retain-congr, All-imp}
use shard_log.Stripe.Postings.{OrdinalRun, skip_runs, intersect_loop, intersect_ordinal_runs}
use shard_log.Stripe.PostingLaws.{RunsFrom, posted, posted_low}

-- Ordinals in increasing order, from `low` up to `end`.
abbrev pub Rising : ℕ → ℕ → List ℕ → Type 0
Rising low end [] = Unit
Rising low end (o ∷ os) = (low ≤ o) × (o < end) × Rising (o + 1) end os

pub Rising-All :
    (low end : ℕ) (os : List ℕ) → Rising low end os → All (λ o. (low ≤ o) × (o < end)) os
Rising-All low end [] h = tt
Rising-All low end (o ∷ os) h =
    ((h.0, h.1), All-imp _ _ (λ x k. (omega arith, k.1)) os (Rising-All (o + 1) end os h.2))

pub Rising-le :
    (low low' end : ℕ) (os : List ℕ) → low' ≤ low → Rising low end os → Rising low' end os
Rising-le low low' end [] h r = tt
Rising-le low low' end (o ∷ os) h r = (omega arith, r.1, r.2)

pub Rising-retain :
    (p : ℕ → Bool) (low end : ℕ) (os : List ℕ) → Rising low end os → Rising low end (retain p os)
unfolding retain
Rising-retain p low end [] r = tt
Rising-retain p low end (o ∷ os) r = elim (Bool-cases (p o)) [
  | inl kept ↦ rw kept (r.0, r.1, Rising-retain p (o + 1) end os r.2)
  | inr gone ↦ rw gone (Rising-retain p low end os (Rising-le (o + 1) low end os (omega arith) r.2))
]

-- A run that all candidates are behind holds none of them.
retain_passed :
    (run : OrdinalRun) (runs : List OrdinalRun) (os : List ℕ)
    → All (λ o. run.last < o) os
    → retain (λ o. posted o (run ∷ runs)) os ≡ retain (λ o. posted o runs) os
unfolding posted any
retain_passed run runs os h =
    retain-congr _ _ os (All-imp _ _ (λ o (k : run.last < o). passed o k) os h)
  where
    passed : (o : ℕ) → run.last < o → posted o (run ∷ runs) ≡ posted o runs
    passed o k = ground arith

retain_ahead :
    (low bound first : ℕ) (runs : List OrdinalRun) (os : List ℕ)
    → RunsFrom first bound runs
    → All (λ o. o < first) os
    → retain (λ o. posted o runs) os ≡ []
retain_ahead low bound first runs os w h =
    retain_none _ os (All-imp _ _ (λ o k. posted_low first bound o runs w k) os h)

abbrev held : List OrdinalRun → ℕ → Bool
held runs o = posted o runs

posted_inside :
    (run : OrdinalRun) (runs : List OrdinalRun) (o : ℕ)
    → ltb o run.first ≡ false
    → ltb run.last o ≡ false
    → posted o (run ∷ runs) ≡ true
unfolding posted any
posted_inside run runs o h k = ground arith

within_window : (end o : ℕ) → o < end → leb end o ≡ false
within_window end o h = ground arith

intersect_loop-retain :
    (end low bound from : ℕ) (os : List ℕ) (runs : List OrdinalRun)
    → Rising from end os
    → RunsFrom low bound runs
    → intersect_loop end os runs ≡ retain (λ o. posted o runs) os
unfolding intersect_loop
intersect_loop-retain end low bound from [] [] r w = sym (retain_none _ [] tt)
intersect_loop-retain end low bound from [] (run ∷ runs) r w = sym (retain_none _ [] tt)
intersect_loop-retain end low bound from (o ∷ os) [] r w = sym (
    retain_ahead 0 0 end [] (o ∷ os) tt
      (All-imp _ _ (λ x k. k.1) (o ∷ os) (Rising-All from end (o ∷ os) r)))
intersect_loop-retain end low bound from (o ∷ os) (run ∷ runs) r w =
    let here = within_window end o r.1 in
    let own : RunsFrom run.first bound (run ∷ runs) = (omega arith, w.1, w.2, w.3) in
    elim (Bool-cases (leb end run.first)) [
      | inl ahead ↦
          rw (intersect_loop, here, ahead)
            (sym (
              retain_ahead low bound run.first (run ∷ runs) (o ∷ os) own (
                All-imp _ _ (λ x k. below_first x k.1 ahead) (o ∷ os)
                  (Rising-All from end (o ∷ os) r))))
      | inr reached ↦ elim (Bool-cases (ltb o run.first)) [
        | inl before ↦
            rw (intersect_loop, here, reached, before)
              (intersect_loop-retain end low bound (o + 1) os (run ∷ runs) r.2 w
                ∙ sym (
                    retain_skip (held (run ∷ runs)) o os
                      (posted_low run.first bound o (run ∷ runs) own (ltb→lt _ _ before))))
        | inr from_first ↦ elim (Bool-cases (ltb run.last o)) [
          | inl behind ↦
              rw (intersect_loop, here, reached, from_first, behind)
                (intersect_loop-retain end (run.last + 1) bound from (o ∷ os) runs r w.3
                  ∙ sym (
                      retain_passed run runs (o ∷ os) (
                        All-imp _ _ (λ x k. behind_run x k.0 behind) (o ∷ os)
                          (Rising-All o end (o ∷ os) (omega arith, r.1, r.2)))))
          | inr inside ↦
              rw (intersect_loop, here, reached, from_first, inside)
                (ap (◌∷◌ o) (intersect_loop-retain end low bound (o + 1) os (run ∷ runs) r.2 w)
                  ∙ sym (
                      retain_keep (held (run ∷ runs)) o os
                        (posted_inside run runs o from_first inside)))
        ]
      ]
    ]
  where
    below_first : (x : ℕ) → x < end → leb end run.first ≡ true → x < run.first
    below_first x h k = ground arith

    behind_run : (x : ℕ) → o ≤ x → ltb run.last o ≡ true → run.last < x
    behind_run x h k = ground arith

skip_runs-RunsFrom :
    (start low bound : ℕ) (runs : List OrdinalRun)
    → RunsFrom low bound runs
    → RunsFrom low bound (skip_runs start runs)
unfolding skip_runs
skip_runs-RunsFrom start low bound [] w = tt
skip_runs-RunsFrom start low bound (run ∷ runs) w = elim (Bool-cases (ltb run.last start)) [
  | inl before ↦ rw before (
      RunsFrom-le (run.last + 1) low bound _ (omega arith)
        (skip_runs-RunsFrom start (run.last + 1) bound runs w.3))
  | inr reaches ↦ rw reaches w
]
  where
    RunsFrom-le :
        (low low' bound : ℕ) (rs : List OrdinalRun)
        → low' ≤ low
        → RunsFrom low bound rs
        → RunsFrom low' bound rs
    RunsFrom-le low low' bound [] h k = tt
    RunsFrom-le low low' bound (x ∷ rs) h k = (omega arith, k.1, k.2, k.3)

retain-skip_runs :
    (start low bound end : ℕ) (runs : List OrdinalRun) (os : List ℕ)
    → RunsFrom low bound runs
    → Rising start end os
    → retain (held (skip_runs start runs)) os ≡ retain (held runs) os
unfolding skip_runs
retain-skip_runs start low bound end [] os w r = refl
retain-skip_runs start low bound end (run ∷ runs) os w r = elim (Bool-cases (ltb run.last start)) [
  | inl before ↦ rw before (
      retain-skip_runs start (run.last + 1) bound end runs os w.3 r
      ∙ sym (
          retain_passed run runs os
            (All-imp _ _ (λ x k. passed x before k.0) os (Rising-All start end os r))))
  | inr reaches ↦ rw reaches
]
  where
    passed : (x : ℕ) → ltb run.last start ≡ true → start ≤ x → run.last < x
    passed x h k = ground arith

-- Ordinals in increasing order of a window `start..end` are intersected with runs in order to those that
-- the runs hold.
pub intersect_ordinal_runs_lem :
    (start end bound : ℕ) (os : List ℕ) (runs : List OrdinalRun)
    → Rising start end os
    → RunsFrom 0 bound runs
    → intersect_ordinal_runs os runs start end ≡ retain (λ o. posted o runs) os
unfolding intersect_ordinal_runs
intersect_ordinal_runs_lem start end bound os runs r w =
    intersect_loop-retain end 0 bound start os (skip_runs start runs) r
      (skip_runs-RunsFrom start 0 bound runs w)
    ∙ retain-skip_runs start 0 bound end runs os w r
