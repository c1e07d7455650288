-- ===== src/Stripe/Candidates.antt =====
-- The candidates of a lookup that hold in the postings, against the records that match.
use shard_log.Prelude.{
  ℕ, ◌≤◌, ◌≡◌, refl, sym, ap, ◌∙◌, Bool, true, false, ◌&&◌, Option, some, List, [], ◌∷◌, map,
  length, arith, Bool-cases, inl, inr, if◌then◌else◌,
}
use shard_log.Prelude.Sorting.{retain, retain-retain, retain-congr, retain_none, retain-All}
use shard_log.NativeProtocol.Wire.{text_eq}
use shard_log.Query.Types.{DurableLogRecord, LogQuery}
use shard_log.Query.Text.{Unicode, message_has_term}
use shard_log.Query.Matches.{matches, all_of, offset_matches, matches_index_candidate}
use shard_log.Query.Constraints.{
  RequiredIndexConstraints, required_index_constraints, needs_record_filter,
}
use shard_log.Query.Selection.{has_field, meets, matches_by_candidate, matches_by_index}
use shard_log.Stripe.Postings.{HotPostingList}
use shard_log.Stripe.Windows.{window}
use shard_log.Stripe.Interner.{get_elem?}
use shard_log.Stripe.InternerLaws.{PostingsTo}
use shard_log.Stripe.Index.{PartitionIndex, pair_eq}
use shard_log.Stripe.Lookup.{finish_ordinals, passes_filter, ordinal_of}
use shard_log.Stripe.Ordinals.{record_of}
use shard_log.Stripe.IndexState.{IsIndexed}
use shard_log.Stripe.PostingLaws.{posted}
use shard_log.Stripe.Gathering.{holds}
use shard_log.Stripe.Arrangement.{matched}
use shard_log.Stripe.Ranges.{retain-ordinals, everywhere, All-ordinals}
use shard_log.Stripe.Finishing.{
  first_ordinal, end_ordinal, all_entries, ranged, Fetched-retain, ranged-Fetched, window-ranged,
  Answers, finish-Answers, nothing-Answers,
}

module _ (u : Unicode) (q : LogQuery) (p : PartitionIndex) (ok : IsIndexed u p) where
  -- The entries in the range that meet the constraints, which the lists hold.
  abbrev pub constraints : RequiredIndexConstraints
  constraints = required_index_constraints q

  abbrev pub meeting : List (ℕ × DurableLogRecord)
  meeting = retain (λ e. meets u (record_of e) constraints) (ranged u q p ok)

  abbrev pub Holding : List HotPostingList → Type 0
  Holding lists =
      PostingsTo (length p.records) lists
      × ((o : ℕ) (r : DurableLogRecord)
          → get_elem? p.records o ≡ some r
          → holds lists o ≡ meets u r constraints)

  pub window-meeting :
      (lists : List HotPostingList)
      → Holding lists
      → retain (holds lists) (window (first_ordinal u q p ok) (end_ordinal u q p ok))
        ≡ map ordinal_of meeting
  window-meeting lists h =
      ap (retain (holds lists)) (window-ranged u q p ok)
      ∙ retain-ordinals p.records (holds lists) (λ r. meets u r constraints) (ranged u q p ok)
          (ranged-Fetched u q p ok) h.1

  pub meeting-matched : needs_record_filter q ≡ false → meeting ≡ matched u q p.records
  meeting-matched n =
      sym (
        retain-retain (λ e. meets u (record_of e) constraints)
          (λ e. offset_matches q (record_of e).record_ref.offset) (all_entries u q p ok))
      ∙ retain-congr _ _ (all_entries u q p ok) (
          everywhere _ (all_entries u q p ok)
            (λ e. ground (arith, matches_by_index u (record_of e) q)))

  passing-matched :
      retain (λ e. matches_index_candidate u q (record_of e)) meeting ≡ matched u q p.records
  unfolding matches_index_candidate
  passing-matched =
      sym (
        retain-retain (λ e. matches_index_candidate u q (record_of e))
          (λ e. meets u (record_of e) constraints) (ranged u q p ok))
      ∙ (sym (
            retain-retain
              (λ e. matches_index_candidate u q (record_of e) && meets u (record_of e) constraints)
              (λ e. offset_matches q (record_of e).record_ref.offset) (all_entries u q p ok))
          ∙ retain-congr _ _ (all_entries u q p ok)
              (everywhere _ (all_entries u q p ok) (λ e. passing e)))
    where
      passing :
          (e : ℕ × DurableLogRecord)
          → ((matches_index_candidate u q (record_of e) && meets u (record_of e) constraints)
              && offset_matches q (record_of e).record_ref.offset)
            ≡ matches u q (record_of e)
      passing e = ground (arith, matches_by_candidate u (record_of e) q)

  passes_filter_lem :
      (o : ℕ) (r : DurableLogRecord)
      → get_elem? p.records o ≡ some r
      → passes_filter u q p o ≡ matches_index_candidate u q r
  unfolding passes_filter
  passes_filter_lem o r at = rw (passes_filter, at)

  -- Candidates that are the entries in range that meet the constraints.
  pub candidates-Answers :
      (os : List ℕ) → os ≡ map ordinal_of meeting → (Answers u q p ok) (finish_ordinals u q p os)
  candidates-Answers os h =
      (finish-Answers u q p ok) os (elim (Bool-cases (needs_record_filter q)) [
        | inl needs ↦
            rw (needs, h)
              (retain-ordinals p.records (passes_filter u q p) (matches_index_candidate u q) meeting
                  ((Fetched-retain u q p ok) _ (ranged u q p ok) (ranged-Fetched u q p ok))
                  passes_filter_lem
                ∙ ap (map ordinal_of) passing-matched)
        | inr direct ↦ rw (direct, h) (ap (map ordinal_of) (meeting-matched direct))
      ])

  pub start-le-end : (first_ordinal u q p ok) ≤ (end_ordinal u q p ok)
  start-le-end = omega arith

  pub whole_window :
      Holding [] → window (first_ordinal u q p ok) (end_ordinal u q p ok) ≡ map ordinal_of meeting
  unfolding all_of
  whole_window h =
      sym (
        retain-All (holds []) (window (first_ordinal u q p ok) (end_ordinal u q p ok))
          (All-ordinals (window (first_ordinal u q p ok) (end_ordinal u q p ok)) (λ o. refl)))
      ∙ window-meeting [] h

  pub single_window :
      (list : HotPostingList)
      → Holding (list ∷ [])
      → retain (λ o. posted o list.runs) (window (first_ordinal u q p ok) (end_ordinal u q p ok))
        ≡ map ordinal_of meeting
  unfolding all_of
  single_window list h =
      retain-congr _ _ (window (first_ordinal u q p ok) (end_ordinal u q p ok))
        (All-ordinals (window (first_ordinal u q p ok) (end_ordinal u q p ok)) (λ o. alone o))
      ∙ window-meeting (list ∷ []) h
    where
      alone : (o : ℕ) → posted o list.runs ≡ holds (list ∷ []) o
      alone o = ground arith

  pub by_test :
      (b : Bool) (x y : Option (List ℕ))
      → (b ≡ true → (Answers u q p ok) x)
      → (b ≡ false → (Answers u q p ok) y)
      → (Answers u q p ok) (if b then x else y)
  by_test true x y h k = h refl
  by_test false x y h k = k refl

  matches_in_range :
      (r : DurableLogRecord) → matches u q r ≡ true → offset_matches q r.record_ref.offset ≡ true
  unfolding matches
  matches_in_range r h = ground arith

  pub matches_meets :
      (r : DurableLogRecord)
      → matches u q r ≡ true
      → (constraints.impossible ≡ false)
        × (all_of (message_has_term u r.message) constraints.terms ≡ true)
        × (all_of (has_field r) constraints.fields ≡ true)
  unfolding meets
  matches_meets r h = parts r (ground (arith, matches_by_candidate u r q))
    where
      parts :
          (r : DurableLogRecord)
          → meets u r constraints ≡ true
          → (constraints.impossible ≡ false)
            × (all_of (message_has_term u r.message) constraints.terms ≡ true)
            × (all_of (has_field r) constraints.fields ≡ true)
      parts r k = (ground arith, ground arith, ground arith)

  pub nothing_matches :
      ((r : DurableLogRecord) → matches u q r ≡ false) → (Answers u q p ok) (some [])
  nothing_matches h = (nothing-Answers u q p ok) (
      retain_none _ (all_entries u q p ok)
        (everywhere _ (all_entries u q p ok) (λ e. h (record_of e))))

  map-nil : {A B : Type 0} (f : A → B) (xs : List A) → map f xs ≡ [] → xs ≡ []
  map-nil f [] h = refl
  map-nil f (x ∷ xs) h = cc

  -- Nothing matches where no entry in the range passes a test that every match passes.
  pub none_in_range :
      (g : ℕ → Bool) (f : DurableLogRecord → Bool)
      → ((o : ℕ) (r : DurableLogRecord) → get_elem? p.records o ≡ some r → g o ≡ f r)
      → ((r : DurableLogRecord) → matches u q r ≡ true → f r ≡ true)
      → retain g (window (first_ordinal u q p ok) (end_ordinal u q p ok)) ≡ []
      → (Answers u q p ok) (some [])
  none_in_range g f h implied none_found = (nothing-Answers u q p ok) (
      retain-congr _ _ (all_entries u q p ok) (everywhere _ (all_entries u q p ok) (λ e. passed e))
      ∙ (retain-retain (λ e. matches u q (record_of e))
            (λ e. f (record_of e) && offset_matches q (record_of e).record_ref.offset)
            (all_entries u q p ok)
          ∙ (ap (retain (λ e. matches u q (record_of e))) (
                retain-retain (λ e. f (record_of e))
                  (λ e. offset_matches q (record_of e).record_ref.offset) (all_entries u q p ok)
                ∙ empty_range)
              ∙ retain_none _ [] tt)))
    where
      empty_range : retain (λ e. f (record_of e)) (ranged u q p ok) ≡ []
      empty_range = map-nil ordinal_of _ (
          sym (
            ap (retain g) (window-ranged u q p ok)
            ∙ retain-ordinals p.records g f (ranged u q p ok) (ranged-Fetched u q p ok) h)
          ∙ none_found)

      passed :
          (e : ℕ × DurableLogRecord)
          → matches u q (record_of e) ≡ (
              matches u q (record_of e)
              && (f (record_of e) && offset_matches q (record_of e).record_ref.offset))
      passed e = ground (arith, implied (record_of e), matches_in_range (record_of e))
