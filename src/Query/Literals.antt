-- ===== src/Query/Literals.antt =====
-- A text that matches contains the literal of the matcher, and so a record that a lookup matches contains
-- the literals that the lookup requires of its message.
use shard_log.Prelude.{
  ℕ, zero, suc, ◌-◌, ◌≡◌, refl, sym, ap, subst, ◌∙◌, Bool, true, false, ◌&&◌, ◌||◌, List, [], ◌∷◌,
  length, take, drop, any, leb, list_beq, list_beq_iff, nat_eq, All, All-append, arith, inl, inr,
  Bool-cases, append-nil, take-length_append,
}
use shard_log.NativeProtocol.Wire.{Text, text_eq}
use shard_log.Query.Types.{
  CaseSensitivity, TextMatchKind, sensitive, insensitive, exact, contains, prefix, suffix,
  TextMatcher, DurableLogRecord, LogPredicate, match_all, match_none, term, message, message_regex,
  field_exists, field, field_in, field_regex, field_numeric, and, or, negate, LogPredicates, nil,
  cons, LogQuery,
}
use shard_log.Query.Text.{
  Unicode, is_ascii, eq_ignore_ascii_case, starts_with, contains_text, ends_with, windows,
  text_contains, text_matches, text_equal, text_prefix, text_suffix,
}
use shard_log.Query.Matches.{predicate_matches, all_match, matches}
use shard_log.Query.Constraints.{
  RequiredIndexConstraints, is_indexed, push_field, collect_required_constraints, collect_all,
  required_index_constraints,
}

starts_with_self : (t : Text) → starts_with t t ≡ true
unfolding starts_with
starts_with_self [] = refl
starts_with_self (b ∷ bytes) = ground (arith, starts_with_self bytes)

contains_text-prefix : (t p : Text) → starts_with t p ≡ true → contains_text t p ≡ true
unfolding starts_with contains_text
contains_text-prefix [] [] h = refl
contains_text-prefix [] (p ∷ ps) h = cc
contains_text-prefix (b ∷ bytes) p h = ground arith

contains_text-drop :
    (k : ℕ) (t n : Text) → contains_text (drop k t) n ≡ true → contains_text t n ≡ true
unfolding contains_text
contains_text-drop zero t n h = h
contains_text-drop (suc k) [] n h = h
contains_text-drop (suc k) (b ∷ bytes) n h = ground (arith, contains_text-drop k bytes n)

contains_text_self : (t n : Text) → list_beq t n ≡ true → contains_text t n ≡ true
contains_text_self t n h =
    subst (λ x. contains_text t x ≡ true) ((list_beq_iff t n).0 h)
      (contains_text-prefix t t (starts_with_self t))

contains_text-suffix : (t s : Text) → ends_with t s ≡ true → contains_text t s ≡ true
unfolding ends_with
contains_text-suffix t s h =
    contains_text-drop (length t - length s) t s
      (contains_text_self (drop (length t - length s) t) s (ground arith))

module _ (P : Text → Bool) where
  any-windows_start :
      (w : ℕ) (b : ℕ) (bytes : Text)
      → leb w (length (b ∷ bytes)) ≡ true
      → P (take w (b ∷ bytes)) ≡ true
      → any P (windows w (b ∷ bytes)) ≡ true
  unfolding any windows
  any-windows_start w b bytes fits h = rw fits (ground arith)

  windows_fit :
      (w b : ℕ) (bytes : Text)
      → any P (windows w (b ∷ bytes)) ≡ true
      → leb w (length (b ∷ bytes)) ≡ true
  unfolding any windows
  windows_fit w b bytes h = ground arith

  windows_step :
      (w b : ℕ) (bytes : Text)
      → leb w (length (b ∷ bytes)) ≡ true
      → windows w (b ∷ bytes) ≡ take w (b ∷ bytes) ∷ windows w bytes
  unfolding windows
  windows_step w b bytes fits = rw fits

  later_window : (x : Text) (xs : List Text) → any P xs ≡ true → any P (x ∷ xs) ≡ true
  unfolding any
  later_window x xs h = ground arith

  any-windows_rest :
      (w b : ℕ) (bytes : Text)
      → any P (windows w bytes) ≡ true
      → any P (windows w (b ∷ bytes)) ≡ true
  any-windows_rest w b [] h = absurd (unfold windows any in cc)
  any-windows_rest w b (c ∷ bytes) h =
      let fits = windows_fit w c bytes h in
      rw (windows_step w b (c ∷ bytes) (ground arith))
        (later_window (take w (b ∷ c ∷ bytes)) (windows w (c ∷ bytes)) h)

  any-windows-drop :
      (w k : ℕ) (t : Text) → any P (windows w (drop k t)) ≡ true → any P (windows w t) ≡ true
  any-windows-drop w zero t h = h
  any-windows-drop w (suc k) [] h = h
  any-windows-drop w (suc k) (b ∷ bytes) h =
      any-windows_rest w b bytes (any-windows-drop w k bytes h)

length-eq_ignore_ascii_case : (a b : Text) → eq_ignore_ascii_case a b ≡ true → length a ≡ length b
unfolding eq_ignore_ascii_case list_beq
length-eq_ignore_ascii_case [] [] h = refl
length-eq_ignore_ascii_case [] (y ∷ b) h = cc
length-eq_ignore_ascii_case (x ∷ a) [] h = cc
length-eq_ignore_ascii_case (x ∷ a) (y ∷ b) h =
    ap suc (length-eq_ignore_ascii_case a b (ground arith))

-- A window of a text that starts with a literal, without regard to ASCII case.
window_start :
    (t : Text) (n : ℕ) (needle : Text)
    → leb (length (n ∷ needle)) (length t) ≡ true
    → eq_ignore_ascii_case (take (length (n ∷ needle)) t) (n ∷ needle) ≡ true
    → any (λ window. eq_ignore_ascii_case window (n ∷ needle)) (windows (length (n ∷ needle)) t)
      ≡ true
window_start [] n needle fits h = absurd (ground arith)
window_start (b ∷ bytes) n needle fits h =
    any-windows_start (λ window. eq_ignore_ascii_case window (n ∷ needle)) (length (n ∷ needle)) b
      bytes fits h

window_self :
    (t : Text) (n : ℕ) (needle : Text)
    → eq_ignore_ascii_case t (n ∷ needle) ≡ true
    → any (λ window. eq_ignore_ascii_case window (n ∷ needle)) (windows (length (n ∷ needle)) t)
      ≡ true
window_self t n needle h =
    let same = length-eq_ignore_ascii_case t (n ∷ needle) h in
    let whole : take (length (n ∷ needle)) t ≡ t =
      ap (λ k. take k t) (sym same)
      ∙ (ap (take (length t)) (sym (append-nil t)) ∙ take-length_append t []) in
    window_start t n needle (ground arith)
      (subst (λ x. eq_ignore_ascii_case x (n ∷ needle) ≡ true) (sym whole) h)

module _ (u : Unicode) where
  -- A text contains a literal, with or without regard to case.
  unfoldable pub has_literal : Text → Text → Bool
  has_literal observed literal =
      text_contains u observed literal sensitive || text_contains u observed literal insensitive

  contains-sensitive :
      (observed literal : Text)
      → contains_text observed literal ≡ true
      → text_contains u observed literal sensitive ≡ true
  unfolding text_contains
  contains-sensitive observed [] h = refl
  contains-sensitive observed (n ∷ needle) h = h

  matched_sensitive :
      (kind : TextMatchKind) (value observed : Text)
      → text_matches u observed
          (record { value = value; kind = kind; case_sensitivity = sensitive })
        ≡ true
      → text_contains u observed value sensitive ≡ true
  unfolding text_matches text_equal text_prefix text_suffix
  matched_sensitive exact value observed h =
      contains-sensitive observed value (contains_text_self observed value h)
  matched_sensitive contains value observed h = h
  matched_sensitive prefix value observed h =
      contains-sensitive observed value (contains_text-prefix observed value h)
  matched_sensitive suffix value observed h =
      contains-sensitive observed value (contains_text-suffix observed value h)

  matched_insensitive :
      (kind : TextMatchKind) (n : ℕ) (needle observed : Text)
      → text_matches u observed
          (record { value = n ∷ needle; kind = kind; case_sensitivity = insensitive })
        ≡ true
      → text_contains u observed (n ∷ needle) insensitive ≡ true
  unfolding text_matches text_equal text_prefix text_suffix text_contains
  matched_insensitive contains n needle observed h = h
  matched_insensitive exact n needle observed h =
      elim (Bool-cases (is_ascii observed && is_ascii (n ∷ needle))) [
        | inl ascii ↦ rw ascii (window_self observed n needle (rw ascii at h))
        | inr other ↦ rw other (
            contains_text_self (u.to_lowercase observed) (u.to_lowercase (n ∷ needle))
              (rw other at h))
      ]
  matched_insensitive prefix n needle observed h =
      elim (Bool-cases (is_ascii observed && is_ascii (n ∷ needle))) [
        | inl ascii ↦
            let h' = (rw ascii at h) in
            rw ascii (window_start observed n needle (ground arith) (ground arith))
        | inr other ↦ rw other (
            contains_text-prefix (u.to_lowercase observed) (u.to_lowercase (n ∷ needle))
              (rw other at h))
      ]
  matched_insensitive suffix n needle observed h =
      elim (Bool-cases (is_ascii observed && is_ascii (n ∷ needle))) [
        | inl ascii ↦
            let h' = (rw ascii at h) in
            rw ascii (
              any-windows-drop (λ window. eq_ignore_ascii_case window (n ∷ needle))
                (length (n ∷ needle)) (length observed - length (n ∷ needle)) observed
                (window_self (drop (length observed - length (n ∷ needle)) observed) n needle
                  (ground arith)))
        | inr other ↦ rw other (
            contains_text-suffix (u.to_lowercase observed) (u.to_lowercase (n ∷ needle))
              (rw other at h))
      ]

  has_literal-matched :
      (m : TextMatcher) (observed : Text)
      → text_matches u observed m ≡ true
      → has_literal observed m.value ≡ true
  unfolding has_literal
  has_literal-matched m observed h = by_case m.kind m.case_sensitivity m.value h
    where
      by_case :
          (kind : TextMatchKind) (case_sensitivity : CaseSensitivity) (value : Text)
          → text_matches u observed
              (record { value = value; kind = kind; case_sensitivity = case_sensitivity })
            ≡ true
          → (text_contains u observed value sensitive || text_contains u observed value insensitive)
            ≡ true
      by_case kind sensitive value k = ground (arith, matched_sensitive kind value observed k)
      by_case kind insensitive [] k = no_bytes
        where
          no_bytes :
              (text_contains u observed [] sensitive || text_contains u observed [] insensitive)
              ≡ true
          no_bytes = unfold text_contains in refl
      by_case kind insensitive (n ∷ needle) k =
          ground (arith, matched_insensitive kind n needle observed k)

module _ (u : Unicode) (r : DurableLogRecord) where
  abbrev pub HasLiterals : RequiredIndexConstraints → Type 0
  HasLiterals c = All (λ literal. has_literal u r.message literal ≡ true) c.message_literals

  push_field-HasLiterals :
      (b : Bool) (key value : Text) (c : RequiredIndexConstraints)
      → HasLiterals c
      → HasLiterals (push_field b key value c)
  unfolding push_field
  push_field-HasLiterals true key value c h = h
  push_field-HasLiterals false key value c h = h

  mutual
    unfolding collect_required_constraints predicate_matches

    collect-HasLiterals :
        (p : LogPredicate) (c : RequiredIndexConstraints)
        → HasLiterals c
        → predicate_matches u p r ≡ true
        → HasLiterals (collect_required_constraints p c)
    collect-HasLiterals match_all c h k = h
    collect-HasLiterals match_none c h k = h
    collect-HasLiterals (term text) c h k = h
    collect-HasLiterals (field key m) c h k = push_field-HasLiterals (is_indexed m) key m.value c h
    collect-HasLiterals (and ps) c h k = collect_all-HasLiterals ps c h k
    collect-HasLiterals (message m) c h k =
        All-append (λ literal. has_literal u r.message literal ≡ true) c.message_literals
          (m.value ∷ []) h (has_literal-matched u m r.message k, tt)
    collect-HasLiterals (message_regex x) c h k = h
    collect-HasLiterals (field_exists key) c h k = h
    collect-HasLiterals (field_in key vs) c h k = h
    collect-HasLiterals (field_regex key x) c h k = h
    collect-HasLiterals (field_numeric key n v) c h k = h
    collect-HasLiterals (or ps) c h k = h
    collect-HasLiterals (negate p) c h k = h

    collect_all-HasLiterals :
        (ps : LogPredicates) (c : RequiredIndexConstraints)
        → HasLiterals c
        → all_match u ps r ≡ true
        → HasLiterals (collect_all ps c)
    collect_all-HasLiterals nil c h k = h
    collect_all-HasLiterals (cons p ps) c h k =
        collect_all-HasLiterals ps (collect_required_constraints p c)
          (collect-HasLiterals p c h (ground arith)) (ground arith)

  pub required-HasLiterals :
      (q : LogQuery) → matches u q r ≡ true → HasLiterals (required_index_constraints q)
  unfolding required_index_constraints matches
  required-HasLiterals q h = collect-HasLiterals q.predicate _ tt (ground arith)
