-- ===== src/Stripe/Windows.antt =====
-- `is_empty_in` and `collect_in` of a posting list against its ordinals in a window.
use native.Mathlib.Nat.{zero-add, add-zero, suc-add}
use shard_log.Prelude.{
  ℕ, zero, suc, ◌+◌, ◌-◌, ◌≤◌, ◌<◌, min, max, ◌≡◌, inl, inr, refl, sym, ap, ◌∙◌, Bool, List, [],
  ◌∷◌, ◌++◌, any, All, ltb, leb, nat_eq, if◌then◌else◌, arith, Bool-cases,
}
use shard_log.Prelude.Sorting.{retain, retain-append, retain_none, retain-All, retain-congr}
use shard_log.Stripe.Postings.{OrdinalRun, count_up, through, clip}
use shard_log.Stripe.PostingLaws.{RunsFrom, posted, posted_low}

-- The ordinals from `start` up to `end`.
abbrev pub window : ℕ → ℕ → List ℕ
window start end = count_up start (end - start)

pub All-count_up {κ} :
    (P : ℕ → Type κ) (first n : ℕ)
    → ((o : ℕ) → first ≤ o → o < first + n → P o)
    → All P (count_up first n)
unfolding count_up
All-count_up P first zero h = tt
All-count_up P first (suc n) h = (
  h first (omega arith) (omega arith),
  All-count_up P (first + 1) n (λ o l k. h o (omega arith) (omega arith)),
)

pub count_up-add :
    (first m n : ℕ) → count_up first (m + n) ≡ count_up first m ++ count_up (first + m) n
unfolding count_up
count_up-add first zero n = rw (zero-add, add-zero)
count_up-add first (suc m) n = rw suc-add (
    ap (◌∷◌ first) (
      count_up-add (first + 1) m n
      ∙ ap (λ k. count_up (first + 1) m ++ count_up k n) (shift first m)))
  where
    shift : (a b : ℕ) → a + 1 + b ≡ a + suc b
    shift a b = omega arith

pub window-cut : (s a end : ℕ) → s ≤ a → a ≤ end → window s end ≡ window s a ++ window a end
window-cut s a end h k = rw (lengths s a end h k) (
    count_up-add s (a - s) (end - a)
    ∙ ap (λ t. count_up s (a - s) ++ count_up t (end - a)) (back s a h))
  where
    lengths : (s a end : ℕ) → s ≤ a → a ≤ end → end - s ≡ (a - s) + (end - a)
    lengths s a end h k = omega arith

    back : (s a : ℕ) → s ≤ a → s + (a - s) ≡ a
    back s a h = omega arith

-- What one run gives of the window.
abbrev pub piece : ℕ → ℕ → OrdinalRun → List ℕ
piece start end run =
    if ltb run.last start then [] else if leb end run.first then [] else clip start end run

unfoldable pub pieces : ℕ → ℕ → List OrdinalRun → List ℕ
pieces start end [] = []
pieces start end (run ∷ runs) = piece start end run ++ pieces start end runs

pub pieces_past :
    (start end low bound : ℕ) (runs : List OrdinalRun)
    → RunsFrom low bound runs
    → end ≤ low
    → pieces start end runs ≡ []
unfolding pieces
pieces_past start end low bound [] w h = refl
pieces_past start end low bound (run ∷ runs) w h =
    ground (arith, pieces_past start end (run.last + 1) bound runs w.3)

retain-window :
    (runs : List OrdinalRun) (run : OrdinalRun) (s end : ℕ)
    → run.last < s
    → retain (λ o. posted o (run ∷ runs)) (window s end)
      ≡ retain (λ o. posted o runs) (window s end)
unfolding posted any
retain-window runs run s end h =
    retain-congr _ _ (window s end) (All-count_up _ s (end - s) (λ o l k. ground arith))

window-empty : (s end : ℕ) → end ≤ s → window s end ≡ []
unfolding count_up
window-empty s end h = rw (gone s end h)
  where
    gone : (s end : ℕ) → end ≤ s → end - s ≡ 0
    gone s end h = omega arith

-- Behind a run the window is that of the other runs.
retain_tail :
    (run : OrdinalRun) (runs : List OrdinalRun) (end : ℕ)
    → 0 < end
    → retain (λ o. posted o (run ∷ runs)) (window (min run.last (end - 1) + 1) end)
      ≡ retain (λ o. posted o runs) (window (run.last + 1) end)
retain_tail run runs end pos = elim (Bool-cases (ltb run.last end)) [
  | inl inside ↦
      rw (least run.last end (ground arith))
        (retain-window runs run (run.last + 1) end (omega arith))
  | inr outside ↦
      rw
        (
          window-empty (min run.last (end - 1) + 1) end (ground arith),
          window-empty (run.last + 1) end (ground arith),
        )
        (retain_nil _ ∙ sym (retain_nil _))
]
  where
    least : (l e : ℕ) → l < e → min l (e - 1) ≡ l
    least l e h = ground arith

    retain_nil : (p : ℕ → Bool) → retain p [] ≡ []
    retain_nil p = retain_none p [] tt

module _ (start end s low bound : ℕ) (run : OrdinalRun) (runs : List OrdinalRun)
    (w : RunsFrom low bound (run ∷ runs)) (h : start ≤ s) (k : start < s → s ≤ low) where
  retain_head : retain (λ o. posted o (run ∷ runs)) (window s (max run.first start)) ≡ []
  retain_head = retain_none _ _ (
      All-count_up _ s (max run.first start - s) (λ o l m.
        posted_low run.first bound o (run ∷ runs) (omega arith, w.1, w.2, w.3) (ground arith)))

  retain_own :
      start ≤ run.last
      → run.first < end
      → retain (λ o. posted o (run ∷ runs)) (clip start end run) ≡ clip start end run
  unfolding clip through posted any
  retain_own reaches starts = retain-All _ _ (
      All-count_up _ (max run.first start) (min run.last (end - 1) + 1 - max run.first start)
        (λ o l m. ground arith))

  -- A window that a run reaches into: nothing before the run, its part, and what is behind.
  retain_overlap :
      start ≤ end
      → start ≤ run.last
      → run.first < end
      → retain (λ o. posted o (run ∷ runs)) (window s end)
        ≡ clip start end run ++ retain (λ o. posted o runs) (window (run.last + 1) end)
  unfolding clip through
  retain_overlap room reaches starts =
      let a = max run.first start in
      let e = min run.last (end - 1) + 1 in
      let p : ℕ → Bool = λ o. posted o (run ∷ runs) in
      let sa : s ≤ a = ground arith in
      let ae : a ≤ e = ground arith in
      let ee : e ≤ end = ground arith in
      ap (retain p)
        (window-cut s a end sa (omega arith) ∙ ap (λ t. window s a ++ t) (window-cut a e end ae ee))
      ∙ (retain-append p (window s a) (window a e ++ window e end)
          ∙ (ap (λ t. t ++ retain p (window a e ++ window e end)) retain_head
              ∙ (retain-append p (window a e) (window e end)
                  ∙ (ap (λ t. t ++ retain p (window e end)) (retain_own reaches starts)
                      ∙ ap (λ t. clip start end run ++ t)
                          (retain_tail run runs end (omega arith))))))

pub pieces-window :
    (start end s low bound : ℕ) (runs : List OrdinalRun)
    → RunsFrom low bound runs
    → start ≤ end
    → start ≤ s
    → (start < s → s ≤ low)
    → pieces start end runs ≡ retain (λ o. posted o runs) (window s end)
unfolding pieces posted any
pieces-window start end s low bound [] w room h k =
    sym (retain_none _ (window s end) (All-count_up _ s (end - s) (λ o l m. refl)))
pieces-window start end s low bound (run ∷ runs) w room h k =
    elim (Bool-cases (ltb run.last start)) [
      | inl before ↦ rw before (
          pieces-window start end s (run.last + 1) bound runs w.3 room h (ground arith)
          ∙ sym (retain-window runs run s end (ground arith)))
      | inr reaches ↦ elim (Bool-cases (leb end run.first)) [
        | inl behind ↦
            rw (reaches, behind, pieces_past start end (run.last + 1) bound runs w.3 (ground arith))
              (sym (
                retain_none _ (window s end) (
                  All-count_up _ s (end - s) (λ o l m.
                    posted_low run.first bound o (run ∷ runs) (omega arith, w.1, w.2, w.3)
                      (ground arith)))))
        | inr overlaps ↦
            rw (reaches, overlaps)
              (ap (λ t. clip start end run ++ t)
                  (pieces-window start end (run.last + 1) (run.last + 1) bound runs w.3 room
                    (ground arith) (λ _. omega arith))
                ∙ sym (
                    retain_overlap start end s low bound run runs w h k room (ground arith)
                      (ground arith)))
      ]
    ]
