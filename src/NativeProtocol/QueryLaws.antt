-- ===== src/NativeProtocol/QueryLaws.antt =====
-- What a native query's bytes say and do not say.
use shard_log.Prelude.{ℕ, ◌≡◌, refl, List, [], ◌∷◌, ◌++◌, arith, length, inl, inr, nat_eq}
use shard_log.Bytes.{le_bytes}
use shard_log.Outcome.{ok, Result-cases}
use shard_log.NativeProtocol.Wire.{Text}
use shard_log.NativeProtocol.Query.{
  NativeQuery, validate_tenant, validate_string16, validate_labels, validate_terms, validate_query,
  put_u16, put_string16, put_labels, put_terms, encode_native_query,
}

put_labels-valid :
    (labels : List (Text × Text))
    → validate_labels labels ≡ ok tt
    → (bytes : List ℕ) × (put_labels labels ≡ ok bytes)
unfolding validate_labels put_labels validate_string16 put_string16 put_u16
put_labels-valid [] h = ([], refl)
put_labels-valid ((key, value) ∷ labels) h =
    let rest = put_labels-valid labels (ground arith) in
    (
      le_bytes 2 (length key) ++ key ++ ((le_bytes 2 (length value) ++ value) ++ rest.0),
      ground (arith, rest.1),
    )

put_terms-valid :
    (terms : List Text)
    → validate_terms terms ≡ ok tt
    → (bytes : List ℕ) × (put_terms terms ≡ ok bytes)
unfolding validate_terms put_terms validate_string16 put_string16 put_u16
put_terms-valid [] h = ([], refl)
put_terms-valid (term ∷ terms) h =
    let rest = put_terms-valid terms (ground arith) in
    (le_bytes 2 (length term) ++ term ++ rest.0, ground (arith, rest.1))

-- Every query that `validate_query` accepts is encoded.
pub encode_native_query-valid :
    (q : NativeQuery)
    → validate_query q ≡ ok tt
    → (bytes : List ℕ) × (encode_native_query q ≡ ok bytes)
unfolding validate_query encode_native_query validate_tenant put_u16
encode_native_query-valid q h =
    let labels = put_labels-valid q.labels (ground arith) in
    let terms = put_terms-valid q.terms (ground arith) in
    elim (Result-cases (encode_native_query q)) [
      | inl encoded ↦ encoded
      | inr (e, refused) ↦ absurd (ground (arith, labels.1, terms.1))
    ]
