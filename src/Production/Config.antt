-- ===== src/Production/Config.antt =====
-- `SingleTenantConfig` of src/production.rs. Durations are nanoseconds, texts are their bytes. The
-- fixed-work comparison of a bearer token is the comparison of two hashes, byte by byte.
use Prim.Native.Nat.{bit_or, bit_xor}
use shard_log.Prelude.{
  ℕ, Bool, ◌&&◌, ◌||◌, String, List, [], ◌∷◌, length, is_empty, ltb, nat_eq, ◌==◌,
}
use shard_log.Outcome.{Result, ok, ◌>>◌, reject}
use shard_log.SinkJournal.Journal.{Blake3}

pub record SingleTenantConfig : Type 0 where
  pub tenant : List ℕ
  pub bearer_token : List ℕ
  pub max_http_in_flight : ℕ
  pub max_ingest_in_flight : ℕ
  pub max_query_in_flight : ℕ
  pub ingest_bytes_per_second : ℕ
  pub ingest_burst_bytes : ℕ
  pub max_tail_subscribers : ℕ
  pub max_native_connections : ℕ
  pub query_timeout : ℕ
  pub native_auth_timeout : ℕ

unfoldable pub validate : SingleTenantConfig → Result String (Unit {0})
validate c = do
  reject (is_empty c.tenant) "single-tenant identity must not be empty"
  reject (ltb (length c.bearer_token) 16) "production bearer token must contain at least 16 bytes"
  reject (ltb 4096 (length c.bearer_token)) "production bearer token must not exceed 4096 bytes"
  reject
      (c.max_http_in_flight == 0
        || c.max_ingest_in_flight == 0
        || c.max_query_in_flight == 0
        || c.max_tail_subscribers == 0
        || c.max_native_connections == 0)
      "production concurrency limits must be nonzero"
  reject
      (ltb c.max_http_in_flight c.max_ingest_in_flight
        || ltb c.max_http_in_flight c.max_query_in_flight)
      "ingest and query concurrency cannot exceed the HTTP limit"
  reject (ltb 0 c.ingest_bytes_per_second && c.ingest_burst_bytes == 0)
      "an enabled ingest rate requires a nonzero burst"
  reject (c.query_timeout == 0) "production query timeout must be nonzero"
  reject (c.native_auth_timeout == 0) "native authentication timeout must be nonzero"
  ok tt

-- `zip` and `fold`.
unfoldable pub difference : ℕ → List ℕ → List ℕ → ℕ
difference acc [] right = acc
difference acc (x ∷ left) [] = acc
difference acc (x ∷ left) (y ∷ right) = difference (bit_or acc (bit_xor x y)) left right

unfoldable pub authenticates : Blake3 → SingleTenantConfig → List ℕ → Bool
authenticates b c observed = difference 0 (b.hash observed) (b.hash c.bearer_token) == 0
