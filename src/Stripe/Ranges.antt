-- ===== src/Stripe/Ranges.antt =====
-- Windows of ordinals, and the entries that they number.
use shard_log.Prelude.{
  ℕ, zero, suc, ◌+◌, ◌-◌, ◌≤◌, min, ◌≡◌, refl, sym, ap, ◌∙◌, Bool, Option, none, some, List, [],
  ◌∷◌, map, length, leb, leb→le, take, All, arith, Bool-cases, inl, inr, if◌then◌else◌,
}
use shard_log.Prelude.Sorting.{retain, retain-congr, All-imp, IsOrder}
use shard_log.NativeProtocol.Wire.{text_eq}
use shard_log.Query.Types.{DurableLogRecord, QueryOrder, oldest_first, newest_first}
use shard_log.Query.Matches.{limited}
use shard_log.Stripe.Postings.{HotPostingList, is_empty_in, count_up, reverse}
use shard_log.Stripe.Windows.{window}
use shard_log.Stripe.Filling.{take_all, length-reverse}
use shard_log.Stripe.Collect.{ordered}
use shard_log.Stripe.Intersection.{Rising}
use shard_log.Stripe.Interner.{get_elem?}
use shard_log.Stripe.Index.{pair_eq}
use shard_log.Stripe.Lookup.{
  gather_postings, ordinal_of, compare_cardinality, collect_ordered_range,
}
use shard_log.Stripe.Ordinals.{Fetched, record_of, retain-map}

-- A selection of ordinals is the selection of the entries that they number.
pub retain-ordinals :
    (records : List DurableLogRecord) (g : ℕ → Bool) (f : DurableLogRecord → Bool)
    (es : List (ℕ × DurableLogRecord))
    → Fetched records es
    → ((o : ℕ) (r : DurableLogRecord) → get_elem? records o ≡ some r → g o ≡ f r)
    → retain g (map ordinal_of es) ≡ map ordinal_of (retain (λ e. f (record_of e)) es)
retain-ordinals records g f es h k =
    retain-map ordinal_of g es
    ∙ ap (map ordinal_of)
        (retain-congr _ _ es (All-imp _ _ (λ e at. k (ordinal_of e) (record_of e) at) es h))

pub gather-map :
    {K L : Type 0} (find : L → Option ℕ) (f : K → L) (ps : List HotPostingList) (start end : ℕ)
    (ks : List K)
    → gather_postings (λ k. find (f k)) ps start end ks
      ≡ gather_postings find ps start end (map f ks)
unfolding gather_postings
gather-map find f ps start end [] = refl
gather-map find f ps start end (k ∷ ks) =
    ap
      (λ (rest : Option (List HotPostingList)). elim (find (f k)) [
        | none ↦ none
        | some id ↦ elim (get_elem? ps id) [
          | none ↦ none
          | some p ↦
              if is_empty_in start end p
              then none
              else elim rest [ none ↦ none | some qs ↦ some (p ∷ qs) ]
        ]
      ])
      (gather-map find f ps start end ks)

Rising-count_up : (first n end : ℕ) → first + n ≤ end → Rising first end (count_up first n)
unfolding count_up
Rising-count_up first zero end h = tt
Rising-count_up first (suc n) end h =
    (omega arith, omega arith, Rising-count_up (first + 1) n end (omega arith))

pub Rising-window : (start end : ℕ) → start ≤ end → Rising start end (window start end)
Rising-window start end h = Rising-count_up start (end - start) end (omega arith)

pub everywhere :
    (P : ℕ × DurableLogRecord → Type 0) (es : List (ℕ × DurableLogRecord))
    → ((e : ℕ × DurableLogRecord) → P e)
    → All P es
everywhere P [] h = tt
everywhere P (e ∷ es) h = (h e, everywhere P es h)

pub All-ordinals : {P : ℕ → Type 0} (os : List ℕ) → ((o : ℕ) → P o) → All P os
All-ordinals [] h = tt
All-ordinals (o ∷ os) h = (h o, All-ordinals os h)

take-min : (n : ℕ) (xs : List ℕ) → take (min n (length xs)) xs ≡ take n xs
take-min n xs = elim (Bool-cases (leb n (length xs))) [
  | inl short ↦ ap (λ k. take k xs) (min_left n (length xs) (leb→le _ _ short))
  | inr long ↦
      ap (λ k. take k xs) (min_right n (length xs) (ground arith))
      ∙ (take_all (length xs) xs (omega arith) ∙ sym (take_all n xs (ground arith)))
]
  where
    min_left : (a b : ℕ) → a ≤ b → min a b ≡ a
    min_left a b h = omega arith

    min_right : (a b : ℕ) → b ≤ a → min a b ≡ b
    min_right a b h = omega arith

pub collect_ordered_range_lem :
    (start end : ℕ) (order : QueryOrder) (limit : Option ℕ)
    → collect_ordered_range start end order limit ≡ limited limit (ordered order (window start end))
unfolding collect_ordered_range
collect_ordered_range_lem start end oldest_first none = take_all _ (window start end) (omega arith)
collect_ordered_range_lem start end oldest_first (some n) = take-min n (window start end)
collect_ordered_range_lem start end newest_first none =
    take_all _ (reverse (window start end)) (omega (arith, length-reverse (window start end)))
collect_ordered_range_lem start end newest_first (some n) =
    ap (λ k. take (min n k) (reverse (window start end))) (sym (length-reverse (window start end)))
    ∙ take-min n (reverse (window start end))

pub cardinality-IsOrder : IsOrder compare_cardinality
cardinality-IsOrder = record { flip = λ a b. ground arith; trans = λ a b c h k. ground arith }
