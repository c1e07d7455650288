-- ===== src/Dictionary/CacheLaws.antt =====
-- What `DictionaryCache::insert` and `get` promise of a valid cache.
use shard_log.Prelude.{
  ℕ, ◌+◌, ◌^◌, ◌≤◌, ◌<◌, ◌≡◌, ◌≢◌, ◌⊎◌, list_beq_iff, list_beq, refl, sym, ap, ◌∙◌, Option, none,
  some, List, [], arith, length, ltb, ◌==◌, nat_eq, beq_refl, if◌then◌else◌, Option-cases,
  Bool-cases, inl, inr, is_empty,
}
use shard_log.Outcome.{ok, err}
use shard_log.Map.{lookup, insert}
use shard_log.Map.Laws.{
  lookup-remove, lookup-insert, lookup-update, insert-Unique, update-Unique, total, total-update,
  remove-eq_of_none,
}
use shard_log.Errors.{empty_dictionary, dictionary_too_large, dictionary_id_conflict}
use mathlib.Core.Option
use shard_log.Dictionary.Catalog.{conflicts}
use shard_log.Dictionary.Cache.{
  CachedDictionary, DictionaryCache, remove_entry, evict, tick, drop_previous, store,
  insert_dictionary, touch, get, payload_of,
}
use shard_log.Dictionary.Eviction.{weight, IsCounted, remove_entry-IsCounted, evict_lem}
use shard_log.Dictionary.Recency.{evict-Trace, Trace-kept, Trace-oldest, Trace-newest}

-- The bytes are counted, in capacity, and no entry was used after the clock.
pub record IsValid (c : DictionaryCache) : Type 0 where
  pub counted : IsCounted c
  pub in_capacity : c.stored_bytes ≤ c.capacity_bytes
  pub recent : (j : ℕ) (e : CachedDictionary) → lookup j c.entries ≡ some e → e.last_used ≤ c.clock

drop_previous-IsCounted :
    (c : DictionaryCache) (id : ℕ)
    → IsCounted c
    → IsCounted (drop_previous c id (lookup id c.entries))
drop_previous-IsCounted c id v = elim (Option-cases (lookup id c.entries)) [
  | inl e ↦ rw e v
  | inr (f, e) ↦ rw e (remove_entry-IsCounted c id f v e)
]

module _ (c : DictionaryCache) (id : ℕ) where
  abbrev before : DictionaryCache
  before = drop_previous c id (lookup id c.entries)

  lookup-before : (j : ℕ) → id ≢ j → lookup j before.entries ≡ lookup j c.entries
  lookup-before j ne = elim (Option-cases (lookup id c.entries)) [
    | inl e ↦ rw e
    | inr (f, e) ↦ rw e (unfold remove_entry in ground (arith, lookup-remove id j c.entries))
  ]

  before-none : lookup id before.entries ≡ none
  before-none = elim (Option-cases (lookup id c.entries)) [
    | inl e ↦ rw e e
    | inr (f, e) ↦ rw e (unfold remove_entry in ground (arith, lookup-remove id id c.entries))
  ]

  before_same : (before.clock ≡ c.clock) × (before.capacity_bytes ≡ c.capacity_bytes)
  before_same = elim (Option-cases (lookup id c.entries)) [
    | inl e ↦ rw e (refl, refl)
    | inr (f, e) ↦ rw e (unfold remove_entry in (refl, refl))
  ]

module _ (c : DictionaryCache) (id : ℕ) (payload : List ℕ) where
  abbrev fresh : CachedDictionary
  fresh = record { payload = payload; last_used = tick c.clock }

  store-IsCounted : IsCounted c → IsCounted (store c id payload)
  unfolding store insert
  store-IsCounted v =
      let b = drop_previous-IsCounted c id v in
      record {
        unique =
            insert-Unique id (record { payload = payload; last_used = tick (before c id).clock })
              (before c id).entries b.unique;
        counted = omega (
          arith,
          b.counted,
          ap (total weight) (remove-eq_of_none id (before c id).entries (before-none c id)),
        );
      }

  lookup-store :
      (j : ℕ)
      → lookup j (store c id payload).entries ≡ (if id == j then some fresh else lookup j c.entries)
  unfolding store
  lookup-store j =
      rw (lookup-insert, ap tick (before_same c id).0)
        (elim (Bool-cases (id == j)) [
          | inl same ↦ rw same
          | inr other ↦ rw other (lookup-before c id j (ground arith))
        ])

  store_same :
      ((store c id payload).clock ≡ tick c.clock)
      × ((store c id payload).capacity_bytes ≡ c.capacity_bytes)
  unfolding store
  store_same = let (a, b) = before_same c id in (ap tick a, b)

  store_recent :
      IsValid c
      → c.clock + 1 < 2 ^ 64
      → (j : ℕ) (f : CachedDictionary) → id ≢ j
      → lookup j (store c id payload).entries ≡ some f
      → f.last_used < fresh.last_used
  store_recent v room j f ne h =
      let there : lookup j c.entries ≡ some f = ground (arith, lookup-store j) in
      omega (arith, v.recent j f there)

  store_self : lookup id (store c id payload).entries ≡ some fresh
  store_self = rw (lookup-store id, beq_refl id)

  store_other : (j : ℕ) → id ≢ j → lookup j (store c id payload).entries ≡ lookup j c.entries
  store_other j ne = ground (arith, lookup-store j)

  store_clock :
      IsValid c
      → c.clock + 1 < 2 ^ 64
      → (j : ℕ) (f : CachedDictionary) → lookup j (store c id payload).entries ≡ some f
      → f.last_used ≤ tick c.clock
  store_clock v room j f h = ground (arith, lookup-store j, v.recent j f)

  passed :
      {outcome : Option (DictionaryCache × List ℕ)}
      → insert_dictionary c id payload ≡ ok outcome
      → (evict (length (store c id payload).entries) (store c id payload) [] ≡ outcome)
        × (length payload ≤ c.capacity_bytes)
  unfolding insert_dictionary
  passed h = ground arith

  -- In a valid cache whose clock does not wrap, an insertion that passes its guards ends without a
  -- failed `expect`. Then the cache is valid, the
  -- dictionary is in it, stamped last, and every other entry is one of the cache before. What was
  -- dropped was used no later than any entry that stays.
  pub insert_dictionary_lem :
      IsValid c
      → c.clock + 1 < 2 ^ 64
      → {outcome : Option (DictionaryCache × List ℕ)} → insert_dictionary c id payload ≡ ok outcome
      → (r : DictionaryCache × List ℕ) × (outcome ≡ some r)
        × IsValid r.0
        × (lookup id r.0.entries ≡ some fresh)
        × ((j : ℕ) (f : CachedDictionary)
            → id ≢ j
            → lookup j r.0.entries ≡ some f
            → lookup j c.entries ≡ some f)
        × ((j k : ℕ) (e f : CachedDictionary)
            → id ≢ j
            → lookup j c.entries ≡ some e
            → lookup j r.0.entries ≡ none
            → lookup k r.0.entries ≡ some f
            → e.last_used ≤ f.last_used)
  insert_dictionary_lem v room {outcome} h =
      let (r, done, good) =
        evict_lem (length (store c id payload).entries) (store c id payload) []
          (store-IsCounted v.counted) (omega arith) in
      let trace =
        evict-Trace (length (store c id payload).entries) (store c id payload) [] r done in
      let (same, small) = passed h in
      (
        r,
        sym same ∙ done,
        record {
          counted = good.counted;
          in_capacity = good.in_capacity;
          recent = λ j f l.
              rw (good.clock ∙ store_same.0) (store_clock v room j f (Trace-kept trace j f l));
        },
        Trace-newest trace (store-IsCounted v.counted) id fresh store_self (rw store_same.1 small)
            (store_recent v room),
        λ j f ne l. sym (store_other j ne) ∙ Trace-kept trace j f l,
        λ j k e f ne was gone stays.
            Trace-oldest trace (store-IsCounted v.counted) j k e f (store_other j ne ∙ was) gone
              stays,
      )

-- How an insertion ends: refused for one of three reasons, or accepted where none of them holds.
abbrev pub Insertion : DictionaryCache → ℕ → List ℕ → Type 0
Insertion c id payload =
    ((payload ≡ []) × (insert_dictionary c id payload ≡ err empty_dictionary))
    ⊎ ((payload ≢ [])
        × (c.capacity_bytes < length payload)
        × (insert_dictionary c id payload
            ≡ err (dictionary_too_large (length payload) c.capacity_bytes)))
    ⊎ ((payload ≢ [])
        × (length payload ≤ c.capacity_bytes)
        × (bytes : List ℕ) × (payload_of (lookup id c.entries) ≡ some bytes)
        × (bytes ≢ payload)
        × (insert_dictionary c id payload ≡ err (dictionary_id_conflict id)))
    ⊎ ((payload ≢ [])
        × (length payload ≤ c.capacity_bytes)
        × ((payload_of (lookup id c.entries) ≡ none)
            ⊎ (payload_of (lookup id c.entries) ≡ some payload))
        × (r : DictionaryCache × List ℕ) × (insert_dictionary c id payload ≡ ok (some r)))

module _ (c : DictionaryCache) (id : ℕ) (payload : List ℕ) (v : IsValid c) where
  evicted :
      (r : DictionaryCache × List ℕ) × (evict
          (length (store c id payload).entries)
          (store c id payload)
          []
        ≡ some r)
  evicted =
      let (r, done, good) =
        evict_lem (length (store c id payload).entries) (store c id payload) []
          (store-IsCounted c id payload v.counted) (omega arith) in
      (r, done)

  -- Of a valid cache, an insertion of an empty dictionary is refused. So is one of a dictionary larger than the whole
  -- cache, and then one with other bytes than the cache has under its id. Every other insertion
  -- succeeds, without a failed `expect`.
  pub insert_dictionary_outcome : Insertion c id payload
  unfolding insert_dictionary conflicts
  insert_dictionary_outcome = elim (Bool-cases (is_empty payload)) [
    | inl none_left ↦ inl (ground arith, ground arith)
    | inr some_left ↦
        let bytes : payload ≢ [] = λ q. ground arith in
        elim (Bool-cases (ltb c.capacity_bytes (length payload))) [
          | inl large ↦ inr (inl (bytes, ground arith, rw (some_left, large)))
          | inr small ↦ elim (Option-cases (payload_of (lookup id c.entries))) [
            | inl e ↦ inr (
                inr (
                  inr (
                    bytes,
                    ground arith,
                    inl e,
                    evicted.0,
                    rw (some_left, small, e) (rw evicted.1),
                  )))
            | inr (known, e) ↦ elim (Bool-cases (list_beq known payload)) [
              | inl same ↦ inr (
                  inr (
                    inr (
                      bytes,
                      ground arith,
                      inr (e ∙ ap some ((list_beq_iff known payload).0 same)),
                      evicted.0,
                      rw (some_left, small, e) (rw same (rw evicted.1)),
                    )))
              | inr other ↦ inr (
                  inr (
                    inl (
                      bytes,
                      ground arith,
                      known,
                      e,
                      λ q. ground (arith, list_beq_iff known payload),
                      rw (some_left, small, e) (rw other),
                    )))
            ]
          ]
        ]
  ]

-- In a valid cache whose clock does not wrap, `get` returns the bytes under the id, moves the clock on,
-- stamps their entry with it, and changes no other entry, no byte count and not the capacity. The cache
-- stays valid.
pub get_lem :
    (c : DictionaryCache) (id : ℕ)
    → IsValid c
    → c.clock + 1 < 2 ^ 64
    → ((get c id).1 ≡ payload_of (lookup id c.entries))
      × IsValid (get c id).0
      × ((get c id).0.capacity_bytes ≡ c.capacity_bytes)
      × ((get c id).0.stored_bytes ≡ c.stored_bytes)
      × ((get c id).0.clock ≡ c.clock + 1)
      × ((j : ℕ)
          → lookup j (get c id).0.entries ≡ (
              if id == j
              then Option.map (touch (c.clock + 1)) (lookup j c.entries)
              else lookup j c.entries))
unfolding get
get_lem c id v room =
    let same : tick c.clock ≡ c.clock + 1 = omega arith in
    (
      refl,
      record {
        counted = record {
          unique = update-Unique id (touch (tick c.clock)) c.entries v.counted.unique;
          counted =
              v.counted.counted
              ∙ sym (total-update weight id (touch (tick c.clock)) c.entries (λ e. refl));
        };
        in_capacity = v.in_capacity;
        recent = λ j e h.
            ground (arith, lookup-update id j (touch (tick c.clock)) c.entries, v.recent j e);
      },
      refl,
      refl,
      same,
      λ j. rw (lookup-update id j (touch (tick c.clock)) c.entries, same),
    )
