-- ===== src/Stripe/Walks.antt =====
-- The walks of `collect_in` over the runs, in either direction.
use shard_log.Prelude.{
  ℕ, ◌+◌, ◌-◌, ◌≤◌, ◌<◌, ◌≡◌, refl, sym, ◌∙◌, true, List, [], ◌∷◌, ◌++◌, length, take, All,
  All-append, ltb, leb, arith, append-nil, append_assoc, Bool-cases, lt→ltb, ltb→lt, inl, inr,
  nat_eq, ◌==◌,
}
use shard_log.Prelude.Sorting.{All-imp}
use shard_log.Stripe.Postings.{OrdinalRun, reverse, clip, collect_oldest, collect_newest}
use shard_log.Stripe.PostingLaws.{RunsFrom}
use shard_log.Stripe.Windows.{piece, pieces, pieces_past}
use shard_log.Stripe.Filling.{fill_more, length_fill, take_none, add_nothing, reverse-append}

pub collect_oldest-pieces :
    (start end t low bound : ℕ) (runs : List OrdinalRun) (acc : List ℕ)
    → RunsFrom low bound runs
    → length acc ≤ t
    → collect_oldest start end t runs acc ≡ acc ++ take (t - length acc) (pieces start end runs)
unfolding collect_oldest pieces
collect_oldest-pieces start end t low bound [] acc w h = add_nothing (t - length acc) acc
collect_oldest-pieces start end t low bound (run ∷ runs) acc w h =
    elim (Bool-cases (ltb run.last start)) [
      | inl before ↦
          rw before (collect_oldest-pieces start end t (run.last + 1) bound runs acc w.3 h)
      | inr reaches ↦ elim (Bool-cases (leb end run.first)) [
        | inl behind ↦
            rw (reaches, behind, pieces_past start end (run.last + 1) bound runs w.3 (ground arith))
              (add_nothing (t - length acc) acc)
        | inr overlaps ↦ elim (Bool-cases (length acc == t)) [
          | inl full ↦
              rw (reaches, overlaps, full)
                (take_none t acc (clip start end run ++ pieces start end runs) (ground arith))
          | inr room ↦
              rw (reaches, overlaps, room)
                (collect_oldest-pieces start end t (run.last + 1) bound runs
                    (acc ++ take (t - length acc) (clip start end run)) w.3
                    (length_fill t acc (clip start end run) h)
                  ∙ fill_more t acc (clip start end run) (pieces start end runs))
        ]
      ]
    ]

-- The runs from the last to the first.
abbrev Falling : List OrdinalRun → Type 0
Falling [] = Unit
Falling (run ∷ runs) =
    All (λ (r : OrdinalRun). r.last < run.first) runs × (run.first ≤ run.last) × Falling runs

pub pieces_back : ℕ → ℕ → List OrdinalRun → List ℕ
pieces_back start end [] = []
pieces_back start end (run ∷ runs) = reverse (piece start end run) ++ pieces_back start end runs

pieces_back_before :
    (start end : ℕ) (runs : List OrdinalRun)
    → All (λ (r : OrdinalRun). r.last < start) runs
    → pieces_back start end runs ≡ []
unfolding pieces_back reverse
pieces_back_before start end [] h = refl
pieces_back_before start end (run ∷ runs) h =
    rw (lt→ltb _ _ h.0) (pieces_back_before start end runs h.1)

pieces_back-append :
    (start end : ℕ) (xs ys : List OrdinalRun)
    → pieces_back start end (xs ++ ys) ≡ pieces_back start end xs ++ pieces_back start end ys
unfolding pieces_back
pieces_back-append start end [] ys = refl
pieces_back-append start end (x ∷ xs) ys = rw (pieces_back-append start end xs ys) (
    sym (
      append_assoc (reverse (piece start end x)) (pieces_back start end xs)
        (pieces_back start end ys)))

pub pieces_back-reverse :
    (start end : ℕ) (runs : List OrdinalRun)
    → pieces_back start end (reverse runs) ≡ reverse (pieces start end runs)
unfolding reverse pieces pieces_back
pieces_back-reverse start end [] = refl
pieces_back-reverse start end (run ∷ runs) =
    pieces_back-append start end (reverse runs) (run ∷ [])
    ∙ rw (pieces_back-reverse start end runs, append-nil (reverse (piece start end run)))
        (sym (reverse-append (piece start end run) (pieces start end runs)))

Falling-last :
    (xs : List OrdinalRun) (run : OrdinalRun)
    → Falling xs
    → All (λ (r : OrdinalRun). run.last < r.first) xs
    → run.first ≤ run.last
    → Falling (xs ++ run ∷ [])
Falling-last [] run f a h = (tt, h, tt)
Falling-last (x ∷ xs) run f a h =
    (All-append _ xs (run ∷ []) f.0 (a.0, tt), f.1, Falling-last xs run f.2 a.1 h)

RunsFrom-All :
    (low bound : ℕ) (runs : List OrdinalRun)
    → RunsFrom low bound runs
    → All (λ (r : OrdinalRun). low ≤ r.first) runs
RunsFrom-All low bound [] w = tt
RunsFrom-All low bound (run ∷ runs) w =
    (w.0, All-imp _ _ (λ r h. omega arith) runs (RunsFrom-All (run.last + 1) bound runs w.3))

All-reverse {κ} : (P : OrdinalRun → Type κ) (xs : List OrdinalRun) → All P xs → All P (reverse xs)
unfolding reverse
All-reverse P [] h = h
All-reverse P (x ∷ xs) h = All-append P (reverse xs) (x ∷ []) (All-reverse P xs h.1) (h.0, tt)

pub reverse-Falling :
    (low bound : ℕ) (runs : List OrdinalRun) → RunsFrom low bound runs → Falling (reverse runs)
unfolding reverse
reverse-Falling low bound [] w = tt
reverse-Falling low bound (run ∷ runs) w =
    Falling-last (reverse runs) run (reverse-Falling (run.last + 1) bound runs w.3)
      (All-reverse _ runs
        (All-imp _ _ (λ r h. omega arith) runs (RunsFrom-All (run.last + 1) bound runs w.3)))
      w.1

piece_behind :
    (start end : ℕ) (run : OrdinalRun) → leb end run.first ≡ true → piece start end run ≡ []
piece_behind start end run h = elim (Bool-cases (ltb run.last start)) [
  | inl before ↦ rw before
  | inr reaches ↦ rw (reaches, h)
]

pub collect_newest-pieces :
    (start end t : ℕ) (runs : List OrdinalRun) (acc : List ℕ)
    → Falling runs
    → length acc ≤ t
    → collect_newest start end t runs acc
      ≡ acc ++ take (t - length acc) (pieces_back start end runs)
unfolding collect_newest pieces_back reverse
collect_newest-pieces start end t [] acc w h = add_nothing (t - length acc) acc
collect_newest-pieces start end t (run ∷ runs) acc w h = elim (Bool-cases (leb end run.first)) [
  | inl behind ↦
      rw (piece_behind start end run behind)
        (rw behind (collect_newest-pieces start end t runs acc w.2 h))
  | inr reached ↦ elim (Bool-cases (ltb run.last start)) [
    | inl before ↦
        rw
          (
            reached,
            before,
            pieces_back_before start end runs
                (All-imp _ _ (λ r k. falls run r k w.1 (ltb→lt _ _ before)) runs w.0),
          )
          (add_nothing (t - length acc) acc)
    | inr inside ↦ elim (Bool-cases (length acc == t)) [
      | inl full ↦
          rw (reached, inside, full)
            (take_none t acc (reverse (clip start end run) ++ pieces_back start end runs)
              (ground arith))
      | inr room ↦
          rw (reached, inside, room)
            (collect_newest-pieces start end t runs
                (acc ++ take (t - length acc) (reverse (clip start end run))) w.2
                (length_fill t acc (reverse (clip start end run)) h)
              ∙ fill_more t acc (reverse (clip start end run)) (pieces_back start end runs))
    ]
  ]
]
  where
    falls :
        (run r : OrdinalRun)
        → r.last < run.first
        → run.first ≤ run.last
        → run.last < start
        → r.last < start
    falls run r a b c = omega arith
