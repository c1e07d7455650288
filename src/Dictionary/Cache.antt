-- ===== src/Dictionary/Cache.antt =====
-- `DictionaryCache`: the least-recently-used cache of a stripe, bounded in bytes. Byte counts stay
-- below 2^64, as the bytes are in memory.
use shard_log.Prelude.{
  ℕ, zero, suc, ◌+◌, ◌-◌, ◌%◌, ◌^◌, Bool, true, false, Option, none, some, List, [], ◌∷◌, ◌++◌,
  length, is_empty, ltb, ◌==◌, nat_eq, if◌then◌else◌,
}
use shard_log.Outcome.{ok, ◌>>◌, reject}
use shard_log.Map.{Map, lookup, insert, remove, update, contains_key}
use shard_log.Errors.{
  LogDbResult, invalid_config, empty_dictionary, dictionary_too_large, dictionary_id_conflict,
}
use shard_log.Dictionary.Catalog.{conflicts}

pub record CachedDictionary : Type 0 where
  pub payload : List ℕ
  pub last_used : ℕ

pub record DictionaryCache : Type 0 where
  pub capacity_bytes : ℕ
  pub stored_bytes : ℕ
  pub clock : ℕ
  pub entries : Map ℕ CachedDictionary

unfoldable pub new_cache : ℕ → LogDbResult DictionaryCache
new_cache capacity_bytes = do
  reject (capacity_bytes == 0) (invalid_config "dictionary_cache_bytes must be nonzero")
  ok (record { capacity_bytes = capacity_bytes; stored_bytes = 0; clock = 0; entries = [] })

abbrev pub tick : ℕ → ℕ
tick clock = (clock + 1) % 2 ^ 64

abbrev pub older :
    ℕ × CachedDictionary → Option (ℕ × CachedDictionary) → Option (ℕ × CachedDictionary)
older e none = some e
older e (some f) = if ltb f.1.last_used e.1.last_used then some f else some e

-- `entries.iter().min_by_key(|(_, entry)| entry.last_used)`: the first of the least.
unfoldable pub oldest : Map ℕ CachedDictionary → Option (ℕ × CachedDictionary)
oldest [] = none
oldest ((k, e) ∷ m) = older (k, e) (oldest m)

unfoldable pub remove_entry : DictionaryCache → ℕ → CachedDictionary → DictionaryCache
remove_entry c id entry = record c {
  stored_bytes = c.stored_bytes - length entry.payload;
  entries = remove id c.entries;
}

-- The `while` loop of `insert`. `none`: an `expect` fails, or the fuel is used up.
unfoldable pub evict : ℕ → DictionaryCache → List ℕ → Option (DictionaryCache × List ℕ)
evict zero c evicted = if ltb c.capacity_bytes c.stored_bytes then none else some (c, evicted)
evict (suc fuel) c evicted = elim (ltb c.capacity_bytes c.stored_bytes) [
  | false ↦ some (c, evicted)
  | true ↦ elim (oldest c.entries) [
    | none ↦ none
    | some (id, entry) ↦ evict fuel (remove_entry c id entry) (evicted ++ (id ∷ []))
  ]
]

abbrev pub payload_of : Option CachedDictionary → Option (List ℕ)
payload_of none = none
payload_of (some entry) = some entry.payload

-- `if let Some(previous) = self.entries.remove(&dictionary_id)`
abbrev pub drop_previous : DictionaryCache → ℕ → Option CachedDictionary → DictionaryCache
drop_previous c id none = c
drop_previous c id (some previous) = remove_entry c id previous

-- The cache with the dictionary, before the loop.
unfoldable pub store : DictionaryCache → ℕ → List ℕ → DictionaryCache
store c id payload =
    let c' = drop_previous c id (lookup id c.entries) in
    record c' {
      stored_bytes = c'.stored_bytes + length payload;
      clock = tick c'.clock;
      entries = insert id (record { payload = payload; last_used = tick c'.clock }) c'.entries;
    }

-- A round for each entry. The second component is `evicted`, in order.
unfoldable pub insert_dictionary :
    DictionaryCache → ℕ → List ℕ → LogDbResult (Option (DictionaryCache × List ℕ))
insert_dictionary c id payload = do
  reject (is_empty payload) empty_dictionary
  reject (ltb c.capacity_bytes (length payload))
      (dictionary_too_large (length payload) c.capacity_bytes)
  reject (conflicts (payload_of (lookup id c.entries)) payload) (dictionary_id_conflict id)
  ok (evict (length (store c id payload).entries) (store c id payload) [])

abbrev pub touch : ℕ → CachedDictionary → CachedDictionary
touch now e = record e { last_used = now }

-- The clock moves on a miss too.
unfoldable pub get : DictionaryCache → ℕ → DictionaryCache × Option (List ℕ)
get c id = (
  record c { clock = tick c.clock; entries = update id (touch (tick c.clock)) c.entries },
  payload_of (lookup id c.entries),
)

unfoldable pub contains : DictionaryCache → ℕ → Bool
contains c id = contains_key id c.entries
