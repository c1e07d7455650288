-- ===== src/Stripe/Ordinals.antt =====
-- Ordinals and the records that they number.
use Prim.Native.Nat.{Ordering}
use shard_log.Prelude.{
  ℕ, zero, suc, ◌+◌, ◌-◌, ◌≤◌, ◌<◌, min, ◌≡◌, refl, sym, ap, subst, append-nil, ◌∙◌, Bool, false,
  ◌&&◌, Option, none, some, List, [], ◌∷◌, ◌++◌, map, length, take, All, All-append, ltb, leb,
  arith, Bool-cases, inl, inr,
}
use native.Mathlib.Nat.{add-zero, zero-add}
use mathlib.Core.List.{map-append}
use shard_log.Prelude.Sorting.{
  reverse_ordering, retain, retain-append, retain-All, retain_none, sort_by, insert_by, is_gt,
  Ascending, All-imp,
}
use shard_log.Query.Types.{DurableLogRecord, LogQuery}
use shard_log.Query.Matches.{offset_matches, from_start, before_end, limited}
use shard_log.Query.Paging.{compare_offsets}
use shard_log.Stripe.Postings.{count_up, reverse}
use shard_log.Stripe.Windows.{window, window-cut, All-count_up}
use shard_log.Stripe.Interner.{get_elem?}
use shard_log.Stripe.Lookup.{
  partition_point, ordinals_before, end_index, start_index, fetch, ordinal_of,
}

-- In records by offset, those with an offset below a bound are those with an ordinal below a bound.
ordinals_before_lem :
    (offset : ℕ) (records : List DurableLogRecord)
    → Ascending compare_offsets records
    → (o : ℕ) (r : DurableLogRecord) → get_elem? records o ≡ some r
    → ltb r.record_ref.offset offset ≡ ltb o (ordinals_before offset records)
unfolding ordinals_before partition_point
ordinals_before_lem offset [] a o r h = cc
ordinals_before_lem offset (x ∷ xs) a zero r h = ground arith
ordinals_before_lem offset (x ∷ xs) a (suc o) r h =
    elim (Bool-cases (ltb x.record_ref.offset offset)) [
      | inl below ↦ ground (arith, ordinals_before_lem offset xs a.1 o r h)
      | inr past ↦ ground (arith, later xs a.0 o h)
    ]
  where
    same_record : (y : DurableLogRecord) → some y ≡ some r → y ≡ r
    same_record y e = cc

    later :
        (ys : List DurableLogRecord)
        → All (λ y. compare_offsets x y ≡ Ordering.lt) ys
        → (i : ℕ) → get_elem? ys i ≡ some r
        → compare_offsets x r ≡ Ordering.lt
    later [] b i e = cc
    later (y ∷ ys) b zero e = subst (λ z. compare_offsets x z ≡ Ordering.lt) (same_record y e) b.0
    later (y ∷ ys) b (suc i) e = later ys b.1 i e

ordinals_before-le :
    (offset : ℕ) (records : List DurableLogRecord) → ordinals_before offset records ≤ length records
unfolding ordinals_before partition_point
ordinals_before-le offset [] = omega arith
ordinals_before-le offset (x ∷ xs) = ground (arith, ordinals_before-le offset xs)

pub end_index-le :
    (records : List DurableLogRecord) (end : Option ℕ) → end_index records end ≤ length records
end_index-le records none = omega arith
end_index-le records (some end) = ordinals_before-le end records

abbrev pub in_window : ℕ → ℕ → ℕ → Bool
in_window start end o = leb start o && ltb o end

get_elem?-le : {A : Type 0} (xs : List A) (o : ℕ) (x : A) → get_elem? xs o ≡ some x → o < length xs
get_elem?-le [] o x h = cc
get_elem?-le (y ∷ xs) zero x h = omega arith
get_elem?-le (y ∷ xs) (suc o) x h = omega (arith, get_elem?-le xs o x h)

module _ (records : List DurableLogRecord) (sorted : Ascending compare_offsets records) (o : ℕ)
    (r : DurableLogRecord) (at : get_elem? records o ≡ some r) where
  before_end-index :
      (end : Option ℕ) → before_end end r.record_ref.offset ≡ ltb o (end_index records end)
  before_end-index none = ground (arith, get_elem?-le records o r at)
  before_end-index (some end) = ordinals_before_lem end records sorted o r at

  from_start-index :
      (start : Option ℕ) → from_start start r.record_ref.offset ≡ leb (start_index records start) o
  from_start-index none = ground arith
  from_start-index (some start) = ground (arith, ordinals_before_lem start records sorted o r at)

  -- A record's offset is in the range of a lookup when its ordinal is in the window.
  pub offset_matches-window :
      (q : LogQuery)
      → offset_matches q r.record_ref.offset
        ≡ in_window
            (min (start_index records q.start_offset) (end_index records q.end_offset))
            (end_index records q.end_offset)
            o
  unfolding offset_matches
  offset_matches-window q =
      ground (arith, before_end-index q.end_offset, from_start-index q.start_offset)

-- A window as the ordinals in it of all.
pub retain-in_window :
    (n start end : ℕ)
    → start ≤ end
    → end ≤ n
    → retain (in_window start end) (window 0 n) ≡ window start end
retain-in_window n start end h k =
    ap (retain (in_window start end)) (
      window-cut 0 start n (omega arith) (omega arith)
      ∙ ap (λ t. window 0 start ++ t) (window-cut start end n h k))
    ∙ (retain-append (in_window start end) (window 0 start) (window start end ++ window end n)
        ∙ (ap (λ t. t ++ retain (in_window start end) (window start end ++ window end n))
              (retain_none _ (window 0 start)
                (All-count_up _ 0 (start - 0) (λ o l m. ground arith)))
            ∙ (retain-append (in_window start end) (window start end) (window end n)
                ∙ (ap (λ t. t ++ retain (in_window start end) (window end n))
                      (retain-All _ (window start end)
                        (All-count_up _ start (end - start) (λ o l m. ground arith)))
                    ∙ (ap (λ t. window start end ++ t)
                          (retain_none _ (window end n)
                            (All-count_up _ end (n - end) (λ o l m. ground arith)))
                        ∙ append-nil (window start end))))))

-- The records with their ordinals.
unfoldable pub enumerate : ℕ → List DurableLogRecord → List (ℕ × DurableLogRecord)
enumerate first [] = []
enumerate first (r ∷ rs) = (first, r) ∷ enumerate (first + 1) rs

abbrev pub record_of : ℕ × DurableLogRecord → DurableLogRecord
record_of (o, r) = r

-- Each record stands at its ordinal.
abbrev pub Fetched : List DurableLogRecord → List (ℕ × DurableLogRecord) → Type 0
Fetched records =
    All (λ (e : ℕ × DurableLogRecord). get_elem? records (ordinal_of e) ≡ some (record_of e))

module _ (all : List DurableLogRecord) where
  enumerate-Fetched_from :
      (first : ℕ) (rs : List DurableLogRecord)
      → ((i : ℕ) → get_elem? all (first + i) ≡ get_elem? rs i)
      → Fetched all (enumerate first rs)
  unfolding enumerate
  enumerate-Fetched_from first [] h = tt
  enumerate-Fetched_from first (r ∷ rs) h = (
    ap (get_elem? all) (sym (add-zero first)) ∙ h 0,
    enumerate-Fetched_from (first + 1) rs (λ i. ap (get_elem? all) (shift i) ∙ h (suc i)),
  )
    where
      shift : (i : ℕ) → first + 1 + i ≡ first + suc i
      shift i = omega arith

pub enumerate-Fetched : (rs : List DurableLogRecord) → Fetched rs (enumerate 0 rs)
enumerate-Fetched rs = enumerate-Fetched_from rs 0 rs (λ i. ap (get_elem? rs) (zero-add i))

pub ordinals_enumerate :
    (first : ℕ) (rs : List DurableLogRecord)
    → map ordinal_of (enumerate first rs) ≡ count_up first (length rs)
unfolding enumerate count_up
ordinals_enumerate first [] = refl
ordinals_enumerate first (r ∷ rs) = ap (◌∷◌ first) (ordinals_enumerate (first + 1) rs)

pub records_enumerate :
    (first : ℕ) (rs : List DurableLogRecord) → map record_of (enumerate first rs) ≡ rs
unfolding enumerate
records_enumerate first [] = refl
records_enumerate first (r ∷ rs) = ap (◌∷◌ r) (records_enumerate (first + 1) rs)

pub fetch_lem :
    (records : List DurableLogRecord) (es : List (ℕ × DurableLogRecord))
    → Fetched records es
    → fetch records (map ordinal_of es) ≡ some es
unfolding fetch
fetch_lem records [] h = refl
fetch_lem records ((o, r) ∷ es) h = rw (fetch, h.0, fetch_lem records es h.1)

-- What holds of the records holds at the ordinals.
unfoldable pub at_ordinal : List DurableLogRecord → (DurableLogRecord → Bool) → ℕ → Bool
at_ordinal records f o = elim (get_elem? records o) [ none ↦ false | some r ↦ f r ]

module _ {ℓ κ} {A : Type ℓ} {B : Type κ} (f : A → B) where
  pub retain-map :
      (p : B → Bool) (xs : List A) → retain p (map f xs) ≡ map f (retain (λ x. p (f x)) xs)
  unfolding retain
  retain-map p [] = refl
  retain-map p (x ∷ xs) = elim (Bool-cases (p (f x))) [
    | inl kept ↦ rw kept (ap (◌∷◌ (f x)) (retain-map p xs))
    | inr gone ↦ rw gone (retain-map p xs)
  ]

  insert_by-map :
      (c : A → A → Ordering) (d : B → B → Ordering)
      → ((x y : A) → c x y ≡ d (f x) (f y))
      → (x : A) (xs : List A) → map f (insert_by c x xs) ≡ insert_by d (f x) (map f xs)
  unfolding insert_by
  insert_by-map c d h x [] = refl
  insert_by-map c d h x (y ∷ ys) = elim (Bool-cases (is_gt (d (f x) (f y)))) [
    | inl after ↦ rw (h x y, after) (ap (◌∷◌ (f y)) (insert_by-map c d h x ys))
    | inr before ↦ rw (h x y, before)
  ]

  pub sort_by-map :
      (c : A → A → Ordering) (d : B → B → Ordering)
      → ((x y : A) → c x y ≡ d (f x) (f y))
      → (xs : List A) → map f (sort_by c xs) ≡ sort_by d (map f xs)
  unfolding sort_by
  sort_by-map c d h [] = refl
  sort_by-map c d h (x ∷ xs) =
      insert_by-map c d h x (sort_by c xs) ∙ ap (insert_by d (f x)) (sort_by-map c d h xs)

  pub reverse-map : (xs : List A) → map f (reverse xs) ≡ reverse (map f xs)
  unfolding reverse
  reverse-map [] = refl
  reverse-map (x ∷ xs) =
      map-append f (reverse xs) (x ∷ []) ∙ ap (λ t. t ++ f x ∷ []) (reverse-map xs)

  take-map : (n : ℕ) (xs : List A) → map f (take n xs) ≡ take n (map f xs)
  take-map zero xs = refl
  take-map (suc n) [] = refl
  take-map (suc n) (x ∷ xs) = ap (◌∷◌ (f x)) (take-map n xs)

  pub limited-map :
      (limit : Option ℕ) (xs : List A) → map f (limited limit xs) ≡ limited limit (map f xs)
  limited-map none xs = refl
  limited-map (some n) xs = take-map n xs

module _ {ℓ} {A : Type ℓ} where
  pub All-reverse {κ} : (P : A → Type κ) (xs : List A) → All P xs → All P (reverse xs)
  unfolding reverse
  All-reverse P [] h = h
  All-reverse P (x ∷ xs) h = All-append P (reverse xs) (x ∷ []) (All-reverse P xs h.1) (h.0, tt)

-- A list that falls is sorted by turning it round.
module _ {ℓ} {A : Type ℓ} (cmp : A → A → Ordering) where
  insert_by_end :
      (x : A) (ys : List A)
      → All (λ y. cmp x y ≡ Ordering.gt) ys
      → insert_by cmp x ys ≡ ys ++ x ∷ []
  unfolding insert_by
  insert_by_end x [] h = refl
  insert_by_end x (y ∷ ys) h = rw h.0 (ap (◌∷◌ y) (insert_by_end x ys h.1))

  pub sort_by_falling :
      (xs : List A) → Ascending (λ a b. reverse_ordering (cmp a b)) xs → sort_by cmp xs ≡ reverse xs
  unfolding sort_by reverse
  sort_by_falling [] h = refl
  sort_by_falling (x ∷ xs) h =
      ap (insert_by cmp x) (sort_by_falling xs h.1)
      ∙ insert_by_end x (reverse xs) (All-reverse _ xs (All-imp _ _ (λ y e. turned y e) xs h.0))
    where
      turned : (y : A) → reverse_ordering (cmp x y) ≡ Ordering.lt → cmp x y ≡ Ordering.gt
      turned y e = ground arith
