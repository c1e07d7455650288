-- ===== src/Stripe/Postings.antt =====
-- `HotPostingList` of src/stripe.rs, and the intersections of posting lists. A binary search by which the
-- code tells whether an element compares equal is the search of the first such element.
use Prim.Native.Nat.{Ordering}
use shard_log.Prelude.{
  ℕ, zero, suc, ◌+◌, ◌-◌, ◌^◌, min, max, Bool, true, false, not, ◌&&◌, ◌||◌, Option, none, some,
  List, [], ◌∷◌, ◌++◌, length, take, ltb, leb, nat_eq, ◌==◌, if◌then◌else◌,
}
use shard_log.Query.Types.{QueryOrder, oldest_first, newest_first}

pub record OrdinalRun : Type 0 where
  pub first : ℕ
  pub last : ℕ

pub record HotPostingList : Type 0 where
  pub runs : List OrdinalRun
  pub cardinality : ℕ

abbrev pub no_postings : HotPostingList
no_postings = record { runs = []; cardinality = 0 }

-- `last.checked_add(1) == Some(first)`, of 32-bit integers.
abbrev pub adjoins : OrdinalRun → ℕ → Bool
adjoins run first = ltb run.last (2 ^ 32 - 1) && run.last + 1 == first

-- The last run grows, or a run is added behind it.
unfoldable pub push_run : List OrdinalRun → ℕ → ℕ → List OrdinalRun
push_run [] first final = (record { first = first; last = final }) ∷ []
push_run (run ∷ []) first final =
    if adjoins run first
    then (record run { last = final }) ∷ []
    else run ∷ (record { first = first; last = final }) ∷ []
push_run (run ∷ next ∷ runs) first final = run ∷ push_run (next ∷ runs) first final

unfoldable pub push_range : ℕ → ℕ → HotPostingList → HotPostingList
unfolding push_run
push_range first final p = record {
  runs = push_run p.runs first final;
  cardinality = p.cardinality + (final - first + 1);
}

unfoldable pub push : ℕ → HotPostingList → HotPostingList
unfolding push_range
push ordinal p = push_range ordinal ordinal p

-- The comparison of `is_empty_in`, with the window's ends.
abbrev pub compare_window : ℕ → ℕ → OrdinalRun → Ordering
compare_window start end run =
    if ltb run.last start
    then Ordering.lt
    else if leb end run.first
    then Ordering.gt
    else Ordering.eq

abbrev pub is_equal : Ordering → Bool
is_equal Ordering.eq = true
is_equal _ = false

-- `binary_search_by(..).is_ok()`
unfoldable pub found_by {ℓ} : {A : Type ℓ} → (A → Ordering) → List A → Bool
found_by cmp [] = false
found_by cmp (x ∷ xs) = is_equal (cmp x) || found_by cmp xs

unfoldable pub is_empty_in : ℕ → ℕ → HotPostingList → Bool
unfolding found_by
is_empty_in start end p = not (found_by (compare_window start end) p.runs)

-- `count` numbers from `first` on, and `first..=last`.
unfoldable pub count_up : ℕ → ℕ → List ℕ
count_up first zero = []
count_up first (suc count) = first ∷ count_up (first + 1) count

unfoldable pub through : ℕ → ℕ → List ℕ
unfolding count_up
through first last = count_up first (last + 1 - first)

unfoldable pub reverse {ℓ} : {A : Type ℓ} → List A → List A
reverse [] = []
reverse (x ∷ xs) = reverse xs ++ x ∷ []

-- The ordinals of a run in a window.
unfoldable pub clip : ℕ → ℕ → OrdinalRun → List ℕ
unfolding through
clip start end run = through (max run.first start) (min run.last (end - 1))

-- The loops of `collect_in`: a run before the window is passed, and one behind it, or a full result,
-- ends the loop.
unfoldable pub collect_oldest : ℕ → ℕ → ℕ → List OrdinalRun → List ℕ → List ℕ
unfolding clip
collect_oldest start end count [] ordinals = ordinals
collect_oldest start end count (run ∷ runs) ordinals =
    let before = ltb run.last start in
    let clipped = take (count - length ordinals) (clip start end run) in
    let rest =
      collect_oldest start end count runs (if before then ordinals else ordinals ++ clipped) in
    if not before && (leb end run.first || length ordinals == count) then ordinals else rest

unfoldable pub collect_newest : ℕ → ℕ → ℕ → List OrdinalRun → List ℕ → List ℕ
unfolding clip reverse
collect_newest start end count [] ordinals = ordinals
collect_newest start end count (run ∷ runs) ordinals =
    let behind = leb end run.first in
    let clipped = take (count - length ordinals) (reverse (clip start end run)) in
    let rest =
      collect_newest start end count runs (if behind then ordinals else ordinals ++ clipped) in
    if not behind && (ltb run.last start || length ordinals == count) then ordinals else rest

abbrev pub usize_max : ℕ
usize_max = 2 ^ 64 - 1

abbrev pub unwrap_or : Option ℕ → ℕ → ℕ
unwrap_or none default = default
unwrap_or (some n) default = n

unfoldable pub collect_in : ℕ → ℕ → QueryOrder → Option ℕ → HotPostingList → List ℕ
unfolding collect_oldest collect_newest reverse
collect_in start end oldest_first limit p =
    collect_oldest start end (unwrap_or limit usize_max) p.runs []
collect_in start end newest_first limit p =
    collect_newest start end (unwrap_or limit usize_max) (reverse p.runs) []

-- `intersect_ordinal_runs`: the loop over both lists, from the first run that reaches the window.
unfoldable pub skip_runs : ℕ → List OrdinalRun → List OrdinalRun
skip_runs start [] = []
skip_runs start (run ∷ runs) = if ltb run.last start then skip_runs start runs else run ∷ runs

unfoldable pub intersect_loop : ℕ → List ℕ → List OrdinalRun → List ℕ
intersect_loop end (candidate ∷ candidates) (run ∷ runs) =
    elim (leb end candidate || leb end run.first) [
      | true ↦ []
      | false ↦ elim (ltb candidate run.first) [
        | true ↦ intersect_loop end candidates (run ∷ runs)
        | false ↦ elim (ltb run.last candidate) [
          | true ↦ intersect_loop end (candidate ∷ candidates) runs
          | false ↦ candidate ∷ intersect_loop end candidates (run ∷ runs)
        ]
      ]
    ]
intersect_loop end candidates runs = []

unfoldable pub intersect_ordinal_runs : List ℕ → List OrdinalRun → ℕ → ℕ → List ℕ
unfolding skip_runs intersect_loop
intersect_ordinal_runs candidates runs start end =
    intersect_loop end candidates (skip_runs start runs)
