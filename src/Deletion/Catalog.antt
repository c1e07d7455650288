-- ===== src/Deletion/Catalog.antt =====
-- `DeleteCatalog` of src/deletion.rs: `create`, `list` and `cancel`. Texts are their bytes. A time is an
-- i64, kept as its distance from the least one. What `persist` returns is a parameter: it writes a file,
-- or nothing for a catalog in memory. The lock is not poisoned.
use shard_log.Prelude.{
  ℕ, zero, suc, ◌+◌, ◌/◌, ◌%◌, ◌^◌, Bool, true, false, not, Option, none, some, String, List, [],
  ◌∷◌, ◌++◌, length, is_empty, ltb, nat_eq, ◌==◌, if◌then◌else◌,
}
use shard_log.Outcome.{Result, ok, err}
use shard_log.Map.{Map, lookup, insert, remove}
use shard_log.NativeProtocol.Wire.{Text, text_eq}

-- The kinds of `LokiApiError` that the catalog builds, with their messages; that of `persist` is its own.
pub data LokiApiError : Type 0 where
  bad_request internal : String → LokiApiError
  persist_failed : ℕ → LokiApiError

pub record DeleteRequest : Type 0 where
  pub request_id : Text
  pub start_time : ℕ
  pub end_time : ℕ
  pub query : Text
  pub status : Text
  pub created_at : ℕ

pub record DeleteState : Type 0 where
  pub next_request_id : ℕ
  pub tenants : Map Text (List DeleteRequest)

abbrev pub default_state : DeleteState
default_state = record { next_request_id = 1; tenants = [] }

abbrev pub hex_digit : ℕ → ℕ
hex_digit d = if ltb d 10 then b'0' + d else 87 + d

-- `{:0widthx}`, of a number that has no more digits.
unfoldable pub hex : ℕ → ℕ → Text
hex zero n = []
hex (suc width) n = hex width (n / 16) ++ (hex_digit (n % 16) ∷ [])

-- "received"
abbrev pub received : Text
received = b'r' ∷ b'e' ∷ b'c' ∷ b'e' ∷ b'i' ∷ b'v' ∷ b'e' ∷ b'd' ∷ []

abbrev pub requests_of : Option (List DeleteRequest) → List DeleteRequest
requests_of none = []
requests_of (some requests) = requests

unfoldable pub list : DeleteState → Text → List DeleteRequest
list s tenant = requests_of (lookup tenant s.tenants)

-- `retain(|request| request.request_id != request_id)`
unfoldable pub retain : Text → List DeleteRequest → List DeleteRequest
retain id [] = []
retain id (r ∷ requests) =
    let rest = retain id requests in if r.request_id == id then rest else r ∷ rest

module _ (persist : DeleteState → Result LokiApiError (Unit {0})) where
  -- `persist(&next)?; *current = next`
  unfoldable pub replace :
      {A : Type 0} → DeleteState → DeleteState → A → DeleteState × Result LokiApiError A
  replace s next result = elim (persist next) [ ok u ↦ (next, ok result) | err e ↦ (s, err e) ]

  unfoldable pub create :
      DeleteState → Text → ℕ → ℕ → Text → ℕ → DeleteState × Result LokiApiError Text
  unfolding replace
  create s tenant start_time end_time query created_at =
      if ltb end_time start_time
      then (s, err (bad_request "delete start timestamp must not exceed end timestamp"))
      else if not (ltb (s.next_request_id + 1) (2 ^ 64))
      then (s, err (internal "delete request ID space exhausted"))
      else (let request : DeleteRequest = record {
        request_id = hex 16 s.next_request_id;
        start_time = start_time;
        end_time = end_time;
        query = query;
        status = received;
        created_at = created_at;
      } in
          replace s
            (record {
              next_request_id = s.next_request_id + 1;
              tenants =
                  insert tenant (requests_of (lookup tenant s.tenants) ++ (request ∷ [])) s.tenants;
            })
            (hex 16 s.next_request_id))

  unfoldable pub cancel : DeleteState → Text → Text → DeleteState × Result LokiApiError Bool
  unfolding replace
  cancel s tenant id = elim (lookup tenant s.tenants) [
    | none ↦ (s, ok false)
    | some requests ↦
        let kept = retain id requests in
        if length kept == length requests
        then (s, ok false)
        else replace s
            (record s {
              tenants =
                  if is_empty kept then remove tenant s.tenants else insert tenant kept s.tenants;
            })
            true
  ]
