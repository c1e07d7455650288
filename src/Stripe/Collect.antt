-- ===== src/Stripe/Collect.antt =====
-- `collect_in` and `is_empty_in` of a posting list against the ordinals that it holds of a window.
use shard_log.Prelude.{
  ℕ, zero, suc, ◌+◌, ◌-◌, ◌≤◌, ◌≡◌, refl, sym, ap, ◌∙◌, Bool, true, false, Option, none, some, List,
  [], ◌∷◌, length, take, arith, nat_eq,
}
use native.Mathlib.Nat.{sub-zero}
use shard_log.Prelude.Sorting.{retain}
use shard_log.Query.Types.{QueryOrder, oldest_first, newest_first}
use shard_log.Query.Matches.{limited}
use shard_log.Stripe.Postings.{
  OrdinalRun, HotPostingList, found_by, is_empty_in, count_up, reverse, compare_window, unwrap_or,
  collect_in, usize_max,
}
use shard_log.Stripe.PostingLaws.{RunsFrom, posted}
use shard_log.Stripe.Windows.{window, pieces, pieces-window}
use shard_log.Stripe.Filling.{take_all, length-reverse}
use shard_log.Stripe.Walks.{
  collect_oldest-pieces, pieces_back-reverse, reverse-Falling, collect_newest-pieces,
}

-- A list in the order of a lookup, and cut to its limit.
abbrev pub ordered {ℓ} : {A : Type ℓ} → QueryOrder → List A → List A
ordered oldest_first xs = xs
ordered newest_first xs = reverse xs

pub length-retain {ℓ} : {A : Type ℓ} (p : A → Bool) (xs : List A) → length (retain p xs) ≤ length xs
unfolding retain
length-retain p [] = omega arith
length-retain p (x ∷ xs) = ground (arith, length-retain p xs)

pub length-count_up : (first n : ℕ) → length (count_up first n) ≡ n
unfolding count_up
length-count_up first zero = refl
length-count_up first (suc n) = ap suc (length-count_up (first + 1) n)

take-limited :
    {A : Type 0} (limit : Option ℕ) (xs : List A)
    → length xs ≤ usize_max
    → take (unwrap_or limit usize_max) xs ≡ limited limit xs
take-limited none xs h = take_all usize_max xs h
take-limited (some n) xs h = refl

length-ordered :
    {A : Type 0} (order : QueryOrder) (xs : List A) → length (ordered order xs) ≡ length xs
length-ordered oldest_first xs = refl
length-ordered newest_first xs = length-reverse xs

cut_to :
    (order : QueryOrder) (start end : ℕ) (limit : Option ℕ) (runs : List OrdinalRun) (xs : List ℕ)
    → xs ≡ ordered order (retain (λ o. posted o runs) (window start end))
    → end ≤ usize_max
    → take (unwrap_or limit usize_max - 0) xs
      ≡ limited limit (ordered order (retain (λ o. posted o runs) (window start end)))
cut_to order start end limit runs xs e small =
    rw (sub-zero, e) (take-limited limit (ordered order found) short)
  where
    found : List ℕ
    found = retain (λ o. posted o runs) (window start end)

    short : length (ordered order found) ≤ usize_max
    short = omega (
      arith,
      length-ordered order found,
      length-retain (λ (o : ℕ). posted o runs) (window start end),
      length-count_up start (end - start),
    )

-- A posting list whose runs stand in order collects its ordinals of a window `start..end` in the order of
-- the lookup, as many as the limit allows. The window does not end before it starts, and ends in the range
-- of a usize.
pub collect_in_lem :
    (start end bound : ℕ) (order : QueryOrder) (limit : Option ℕ) (p : HotPostingList)
    → RunsFrom 0 bound p.runs
    → start ≤ end
    → end ≤ usize_max
    → collect_in start end order limit p
      ≡ limited limit (ordered order (retain (λ o. posted o p.runs) (window start end)))
unfolding collect_in
collect_in_lem start end bound oldest_first limit p w h small =
    collect_oldest-pieces start end (unwrap_or limit usize_max) 0 bound p.runs [] w (omega arith)
    ∙ cut_to oldest_first start end limit p.runs _
        (pieces-window start end start 0 bound p.runs w h (omega arith) (λ k. absurd (omega arith)))
        small
collect_in_lem start end bound newest_first limit p w h small =
    collect_newest-pieces start end (unwrap_or limit usize_max) (reverse p.runs) []
      (reverse-Falling 0 bound p.runs w) (omega arith)
    ∙ cut_to newest_first start end limit p.runs _
        (pieces_back-reverse start end p.runs
          ∙ ap reverse (
              pieces-window start end start 0 bound p.runs w h (omega arith)
                (λ k. absurd (omega arith))))
        small

found_by-pieces :
    (start end low bound : ℕ) (runs : List OrdinalRun)
    → RunsFrom low bound runs
    → found_by (compare_window start end) runs ≡ false
    → pieces start end runs ≡ []
unfolding found_by pieces
found_by-pieces start end low bound [] w h = refl
found_by-pieces start end low bound (run ∷ runs) w h =
    ground (arith, found_by-pieces start end (run.last + 1) bound runs w.3)

-- A posting list that `is_empty_in` reports as empty holds no ordinal of the window.
pub is_empty_in-retain :
    (start end bound : ℕ) (p : HotPostingList)
    → RunsFrom 0 bound p.runs
    → start ≤ end
    → is_empty_in start end p ≡ true
    → retain (λ o. posted o p.runs) (window start end) ≡ []
unfolding is_empty_in
is_empty_in-retain start end bound p w h e =
    sym (pieces-window start end start 0 bound p.runs w h (omega arith) (λ k. absurd (omega arith)))
    ∙ found_by-pieces start end 0 bound p.runs w (ground arith)
