-- ===== src/Query/Selection.antt =====
-- Index selection of src/query.rs against exact evaluation: what an index must find is implied by a match,
-- and is all that a match asks for where no record has to be read.
use shard_log.Prelude.{
  ◌≡◌, refl, sym, ap, ◌∙◌, Bool, true, false, not, ◌&&◌, ◌||◌, List, [], ◌∷◌, ◌++◌, map, any,
  nat_eq, ◌==◌, arith,
}
use shard_log.NativeProtocol.Wire.{Text, text_eq}
use shard_log.NativeProtocol.Events.{MetadataField}
use shard_log.Query.Types.{
  CaseSensitivity, TextMatchKind, sensitive, insensitive, exact, contains, prefix, suffix,
  TextMatcher, DurableLogRecord, LogPredicate, match_all, match_none, term, message, message_regex,
  field_exists, field, field_in, field_regex, field_numeric, and, or, negate, LogPredicates, nil,
  cons, LogQuery,
}
use shard_log.Query.Text.{Unicode, text_matches, text_equal, message_has_term}
use shard_log.Query.Matches.{
  field_equals, all_of, predicate_matches, all_match, matches, offset_matches, timestamp_matches,
  has_invalid_range, matches_index_candidate, cursor_matches, legacy_terms_match,
  legacy_fields_match,
}
use shard_log.Query.Literals.{HasLiterals, required-HasLiterals}
use shard_log.Query.Constraints.{
  RequiredIndexConstraints, is_indexed, is_exact, is_sensitive, push_field,
  collect_required_constraints, collect_all, required_index_constraints,
  predicate_is_index_only_conjunction, all_index_only, needs_record_filter,
}

abbrev pub has_field : DurableLogRecord → Text × Text → Bool
has_field r (key, value) = field_equals r (record { key = key; value = value })

all_of-append {ℓ} :
    {A : Type ℓ} (p : A → Bool) (xs ys : List A)
    → all_of p (xs ++ ys) ≡ (all_of p xs && all_of p ys)
unfolding all_of
all_of-append p [] ys = refl
all_of-append p (x ∷ xs) ys = ground (arith, all_of-append p xs ys)

all_of_last {ℓ} :
    {A : Type ℓ} (p : A → Bool) (xs : List A) (y : A)
    → all_of p (xs ++ y ∷ []) ≡ (all_of p xs && p y)
unfolding all_of
all_of_last p xs y = ground (arith, all_of-append p xs (y ∷ []))

any-congr {ℓ} :
    {A : Type ℓ} (p q : A → Bool) (xs : List A) → ((x : A) → p x ≡ q x) → any p xs ≡ any q xs
unfolding any
any-congr p q [] h = refl
any-congr p q (x ∷ xs) h = rw (h x, any-congr p q xs h)

module _ (u : Unicode) (r : DurableLogRecord) where
  -- What the postings of an index can tell of a record.
  unfoldable pub meets : RequiredIndexConstraints → Bool
  meets c =
      not c.impossible
      && (all_of (message_has_term u r.message) c.terms && all_of (has_field r) c.fields)

  text_matches_exact :
      (kind : TextMatchKind) (case_sensitivity : CaseSensitivity) (value observed : Text)
      → (is_exact kind && is_sensitive case_sensitivity) ≡ true
      → text_matches u observed
          (record { value = value; kind = kind; case_sensitivity = case_sensitivity })
        ≡ (observed == value)
  unfolding text_matches
  text_matches_exact exact sensitive value observed h = refl
  text_matches_exact exact insensitive value observed h = cc
  text_matches_exact contains c value observed h = cc
  text_matches_exact prefix c value observed h = cc
  text_matches_exact suffix c value observed h = cc

  indexed_field :
      (key : Text) (m : TextMatcher)
      → is_indexed m ≡ true
      → predicate_matches u (field key m) r ≡ has_field r (key, m.value)
  unfolding predicate_matches field_equals text_matches text_equal
  indexed_field key m h = any-congr _ _ r.fields (λ f.
      ap (λ b. f.key == key && b) (text_matches_exact m.kind m.case_sensitivity m.value f.value h))

  meets-push_field :
      (b : Bool) (key value : Text) (c : RequiredIndexConstraints)
      → meets (push_field b key value c) ≡ (meets c && (not b || has_field r (key, value)))
  unfolding meets push_field
  meets-push_field true key value c =
      ground (arith, all_of_last (has_field r) c.fields (key, value))
  meets-push_field false key value c = ground arith

  meets_term :
      (text : Text) (c : RequiredIndexConstraints)
      → meets (record c { terms = c.terms ++ text ∷ [] })
        ≡ (meets c && message_has_term u r.message text)
  unfolding meets
  meets_term text c = ground (arith, all_of_last (message_has_term u r.message) c.terms text)

  meets_literal :
      (text : Text) (c : RequiredIndexConstraints)
      → meets (record c { message_literals = c.message_literals ++ text ∷ [] }) ≡ meets c
  unfolding meets
  meets_literal text c = refl

  mutual
    unfolding collect_required_constraints predicate_matches

    meets-collect :
        (p : LogPredicate) (c : RequiredIndexConstraints)
        → meets c ≡ true
        → predicate_matches u p r ≡ true
        → meets (collect_required_constraints p c) ≡ true
    meets-collect match_all c h k = h
    meets-collect match_none c h k = ground arith
    meets-collect (term text) c h k = ground (arith, meets_term text c)
    meets-collect (field key m) c h k =
        ground (arith, meets-push_field (is_indexed m) key m.value c, indexed_field key m)
    meets-collect (and ps) c h k = meets-collect_all ps c h k
    meets-collect (message m) c h k = meets_literal m.value c ∙ h
    meets-collect (message_regex x) c h k = h
    meets-collect (field_exists key) c h k = h
    meets-collect (field_in key vs) c h k = h
    meets-collect (field_regex key x) c h k = h
    meets-collect (field_numeric key n v) c h k = h
    meets-collect (or ps) c h k = h
    meets-collect (negate p) c h k = h

    meets-collect_all :
        (ps : LogPredicates) (c : RequiredIndexConstraints)
        → meets c ≡ true
        → all_match u ps r ≡ true
        → meets (collect_all ps c) ≡ true
    meets-collect_all nil c h k = h
    meets-collect_all (cons p ps) c h k =
        ground (arith, meets-collect p c, meets-collect_all ps (collect_required_constraints p c))

  meets_impossible :
      (c : RequiredIndexConstraints) → meets (record c { impossible = true }) ≡ (meets c && false)
  unfolding meets
  meets_impossible c = ground arith

  mutual
    unfolding collect_required_constraints predicate_is_index_only_conjunction predicate_matches

    meets-collect_eq :
        (p : LogPredicate) (c : RequiredIndexConstraints)
        → predicate_is_index_only_conjunction p ≡ true
        → meets (collect_required_constraints p c) ≡ (meets c && predicate_matches u p r)
    meets-collect_eq match_all c h = ground arith
    meets-collect_eq match_none c h = meets_impossible c
    meets-collect_eq (term text) c h = meets_term text c
    meets-collect_eq (field key m) c h =
        ground (arith, meets-push_field (is_indexed m) key m.value c, indexed_field key m)
    meets-collect_eq (and ps) c h = meets-collect_all_eq ps c h
    meets-collect_eq (message m) c h = cc
    meets-collect_eq (message_regex x) c h = cc
    meets-collect_eq (field_exists key) c h = cc
    meets-collect_eq (field_in key vs) c h = cc
    meets-collect_eq (field_regex key x) c h = cc
    meets-collect_eq (field_numeric key n v) c h = cc
    meets-collect_eq (or ps) c h = cc
    meets-collect_eq (negate p) c h = cc

    meets-collect_all_eq :
        (ps : LogPredicates) (c : RequiredIndexConstraints)
        → all_index_only ps ≡ true
        → meets (collect_all ps c) ≡ (meets c && all_match u ps r)
    meets-collect_all_eq nil c h = ground arith
    meets-collect_all_eq (cons p ps) c h =
        ground
          (arith, meets-collect_eq p c, meets-collect_all_eq ps (collect_required_constraints p c))

  all_of-pairs :
      (fs : List MetadataField)
      → all_of (has_field r) (map (λ (f : MetadataField). (f.key, f.value)) fs)
        ≡ all_of (field_equals r) fs
  unfolding all_of
  all_of-pairs [] = refl
  all_of-pairs (f ∷ fs) = ap (λ b. field_equals r f && b) (all_of-pairs fs)

  abbrev legacy : LogQuery → RequiredIndexConstraints
  legacy q = record {
    terms = q.terms;
    fields = map (λ (f : MetadataField). (f.key, f.value)) q.exact_fields;
    message_literals = [];
    impossible = false;
  }

  meets-legacy :
      (q : LogQuery) → meets (legacy q) ≡ (legacy_terms_match u q r && legacy_fields_match u q r)
  unfolding meets legacy_terms_match legacy_fields_match
  meets-legacy q = rw (all_of-pairs q.exact_fields)

  meets-push_field_start :
      (b : Bool) (key value : Text) (c : RequiredIndexConstraints)
      → meets (push_field b key value c) ≡ true
      → meets c ≡ true
  meets-push_field_start b key value c h = ground (arith, meets-push_field b key value c)

  mutual
    unfolding collect_required_constraints

    meets-collect_start :
        (p : LogPredicate) (c : RequiredIndexConstraints)
        → meets (collect_required_constraints p c) ≡ true
        → meets c ≡ true
    meets-collect_start match_all c h = h
    meets-collect_start match_none c h = ground (arith, meets_impossible c)
    meets-collect_start (term text) c h = ground (arith, meets_term text c)
    meets-collect_start (field key m) c h = meets-push_field_start (is_indexed m) key m.value c h
    meets-collect_start (and ps) c h = meets-collect_all_start ps c h
    meets-collect_start (message m) c h = sym (meets_literal m.value c) ∙ h
    meets-collect_start (message_regex x) c h = h
    meets-collect_start (field_exists key) c h = h
    meets-collect_start (field_in key vs) c h = h
    meets-collect_start (field_regex key x) c h = h
    meets-collect_start (field_numeric key n v) c h = h
    meets-collect_start (or ps) c h = h
    meets-collect_start (negate p) c h = h

    meets-collect_all_start :
        (ps : LogPredicates) (c : RequiredIndexConstraints)
        → meets (collect_all ps c) ≡ true
        → meets c ≡ true
    meets-collect_all_start nil c h = h
    meets-collect_all_start (cons p ps) c h =
        meets-collect_start p c (meets-collect_all_start ps (collect_required_constraints p c) h)

  -- What an index must find of terms and fields is implied by a match.
  pub meets-matches :
      (q : LogQuery) → matches u q r ≡ true → meets (required_index_constraints q) ≡ true
  unfolding matches required_index_constraints
  meets-matches q h =
      meets-collect q.predicate (legacy q) (ground (arith, meets-legacy q)) (ground arith)

  -- A record that a lookup matches meets all that the lookup requires of an index: the constraints are
  -- not impossible, every required term is a term of its message, every required field is one of its
  -- fields, and its message contains every required literal, with or without regard to case.
  pub required_index_constraints-matches :
      (q : LogQuery)
      → matches u q r ≡ true
      → (meets (required_index_constraints q) ≡ true)
        × HasLiterals u r (required_index_constraints q)
  required_index_constraints-matches q h = (meets-matches q h, required-HasLiterals u r q h)

  meets_start :
      (q : LogQuery) → meets (required_index_constraints q) ≡ true → meets (legacy q) ≡ true
  unfolding required_index_constraints
  meets_start q h = meets-collect_start q.predicate (legacy q) h

  -- Where no record has to be read, a lookup matches exactly the records in its range of offsets that
  -- meet what it requires of an index.
  pub matches_by_index :
      (q : LogQuery)
      → needs_record_filter q ≡ false
      → matches u q r
        ≡ (offset_matches q r.record_ref.offset && meets (required_index_constraints q))
  unfolding matches required_index_constraints needs_record_filter timestamp_matches cursor_matches
  matches_by_index q h = ground (arith, meets-legacy q, meets-collect_eq q.predicate (legacy q))

  -- What a record that meets the constraints is still tested for.
  pub matches_by_candidate :
      (q : LogQuery)
      → matches u q r ≡ (meets (required_index_constraints q) && matches_index_candidate u q r)
  unfolding matches matches_index_candidate
  matches_by_candidate q = ground (arith, meets-matches q, meets_start q, meets-legacy q)

  -- A lookup whose range of offsets or of timestamps is empty matches nothing.
  pub matches-has_invalid_range :
      (q : LogQuery) → has_invalid_range q ≡ true → matches u q r ≡ false
  unfolding matches has_invalid_range offset_matches timestamp_matches
  matches-has_invalid_range q h = ground arith
