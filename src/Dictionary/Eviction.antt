-- ===== src/Dictionary/Eviction.antt =====
-- The `while` loop of `DictionaryCache::insert`: it ends, with the bytes counted and in capacity, and it
-- drops the entries that were used longest ago.
use shard_log.Prelude.{
  ℕ, zero, suc, ◌+◌, ◌≤◌, ◌≡◌, ◌≢◌, refl, ap, ◌∙◌, true, false, none, some, List, [], ◌∷◌, ◌++◌,
  arith, length, ltb, nat_eq, nat_beq_iff, Option-cases, Bool-cases, inl, inr, ltb→lt,
}
use shard_log.Map.{Map, lookup, remove, Unique}
use shard_log.Map.Laws.{lookup-remove, remove-Unique, total, total-remove, length-remove}
use shard_log.Dictionary.Cache.{CachedDictionary, DictionaryCache, oldest, remove_entry, evict}

abbrev pub weight : CachedDictionary → ℕ
weight e = length e.payload

pub record IsCounted (c : DictionaryCache) : Type 0 where
  pub unique : Unique c.entries
  pub counted : c.stored_bytes ≡ total weight c.entries

oldest-none : (m : Map ℕ CachedDictionary) → oldest m ≡ none → m ≡ []
unfolding oldest
oldest-none [] h = refl
oldest-none ((j, f) ∷ m) h = ground arith

pub oldest-lookup :
    (m : Map ℕ CachedDictionary) (k : ℕ) (e : CachedDictionary)
    → Unique m
    → oldest m ≡ some (k, e)
    → lookup k m ≡ some e
unfolding oldest lookup
oldest-lookup [] k e u h = cc
oldest-lookup ((j, f) ∷ m) k e (fresh, u) h = elim (Option-cases (oldest m)) [
  | inl empty ↦ ground arith
  | inr ((i, g), later) ↦ ground (arith, oldest-lookup m i g u later, nat_beq_iff j i)
]

pub oldest-le :
    (m : Map ℕ CachedDictionary) (k : ℕ) (e : CachedDictionary) (j : ℕ) (f : CachedDictionary)
    → oldest m ≡ some (k, e)
    → lookup j m ≡ some f
    → e.last_used ≤ f.last_used
unfolding oldest lookup
oldest-le [] k e j f h l = cc
oldest-le ((i, g) ∷ m) k e j f h l = elim (Option-cases (oldest m)) [
  | inl empty ↦ ground (arith, ap (lookup j) (oldest-none m empty))
  | inr ((i', g'), later) ↦ ground (arith, oldest-le m i' g' j f later)
]

pub remove_entry-IsCounted :
    (c : DictionaryCache) (id : ℕ) (e : CachedDictionary)
    → IsCounted c
    → lookup id c.entries ≡ some e
    → IsCounted (remove_entry c id e)
unfolding remove_entry
remove_entry-IsCounted c id e v h = record {
  unique = remove-Unique id c.entries v.unique;
  counted = omega (arith, v.counted, total-remove weight id e c.entries v.unique h);
}

-- What the loop makes of a cache: it ended without a failed `expect`.
pub record Evicts (c : DictionaryCache) (r : DictionaryCache × List ℕ) : Type 0 where
  pub counted : IsCounted r.0
  pub in_capacity : r.0.stored_bytes ≤ r.0.capacity_bytes
  pub capacity : r.0.capacity_bytes ≡ c.capacity_bytes
  pub clock : r.0.clock ≡ c.clock
  pub kept :
      (j : ℕ) (e : CachedDictionary) → lookup j r.0.entries ≡ some e → lookup j c.entries ≡ some e

pub evict-stop :
    (fuel : ℕ) (c : DictionaryCache) (out : List ℕ)
    → ltb c.capacity_bytes c.stored_bytes ≡ false
    → evict fuel c out ≡ some (c, out)
unfolding evict
evict-stop zero c out h = rw h
evict-stop (suc fuel) c out h = rw (h, evict)

pub evict-round :
    (fuel : ℕ) (c : DictionaryCache) (out : List ℕ) (id : ℕ) (e : CachedDictionary)
    → ltb c.capacity_bytes c.stored_bytes ≡ true
    → oldest c.entries ≡ some (id, e)
    → evict (suc fuel) c out ≡ evict fuel (remove_entry c id e) (out ++ (id ∷ []))
unfolding evict
evict-round fuel c out id e h o = rw (h, o, evict)

-- Over capacity there is an entry to drop.
pub oldest_of_excess :
    (c : DictionaryCache)
    → IsCounted c
    → ltb c.capacity_bytes c.stored_bytes ≡ true
    → oldest c.entries ≢ none
oldest_of_excess c v h o = omega (
  arith,
  ltb→lt c.capacity_bytes c.stored_bytes h,
  v.counted,
  ap (total weight) (oldest-none c.entries o),
)

pub lookup-remove-some :
    (id j : ℕ) (m : Map ℕ CachedDictionary) (e : CachedDictionary)
    → lookup j (remove id m) ≡ some e
    → (lookup j m ≡ some e) × (id ≢ j)
lookup-remove-some id j m e h = ground (arith, lookup-remove id j m)

Evicts-round :
    (c : DictionaryCache) (id : ℕ) (e : CachedDictionary) (r : DictionaryCache × List ℕ)
    → Evicts (remove_entry c id e) r
    → Evicts c r
unfolding remove_entry
Evicts-round c id e r v = record {
  counted = v.counted;
  in_capacity = v.in_capacity;
  capacity = v.capacity;
  clock = v.clock;
  kept = λ j f h. (lookup-remove-some id j c.entries f (v.kept j f h)).0;
}

Evicts-stop :
    (c : DictionaryCache) (out : List ℕ)
    → IsCounted c
    → ltb c.capacity_bytes c.stored_bytes ≡ false
    → Evicts c (c, out)
Evicts-stop c out v h = record {
  counted = v;
  in_capacity = ground arith;
  capacity = refl;
  clock = refl;
  kept = λ j e l. l;
}

length-remove_entry :
    (c : DictionaryCache) (id : ℕ) (e : CachedDictionary)
    → IsCounted c
    → oldest c.entries ≡ some (id, e)
    → length c.entries ≡ length (remove_entry c id e).entries + 1
unfolding remove_entry
length-remove_entry c id e v o =
    length-remove id e c.entries v.unique (oldest-lookup c.entries id e v.unique o)

-- With a round for each entry the loop ends, and no `expect` in it fails.
pub evict_lem :
    (fuel : ℕ) (c : DictionaryCache) (out : List ℕ)
    → IsCounted c
    → length c.entries ≤ fuel
    → (r : DictionaryCache × List ℕ) × (evict fuel c out ≡ some r) × Evicts c r
evict_lem zero c out v enough = elim (Bool-cases (ltb c.capacity_bytes c.stored_bytes)) [
  | inl over ↦ elim (Option-cases (oldest c.entries)) [
    | inl e ↦ absurd (oldest_of_excess c v over e)
    | inr ((id, e), o) ↦ absurd (omega (arith, length-remove_entry c id e v o))
  ]
  | inr fits ↦ ((c, out), evict-stop zero c out fits, Evicts-stop c out v fits)
]
evict_lem (suc fuel) c out v enough = elim (Bool-cases (ltb c.capacity_bytes c.stored_bytes)) [
  | inl over ↦ elim (Option-cases (oldest c.entries)) [
    | inl e ↦ absurd (oldest_of_excess c v over e)
    | inr ((id, e), o) ↦
        let found = oldest-lookup c.entries id e v.unique o in
        let (r, done, good) =
          evict_lem fuel (remove_entry c id e) (out ++ (id ∷ []))
            (remove_entry-IsCounted c id e v found)
            (omega (arith, length-remove_entry c id e v o)) in
        (r, evict-round fuel c out id e over o ∙ done, Evicts-round c id e r good)
  ]
  | inr fits ↦ ((c, out), evict-stop (suc fuel) c out fits, Evicts-stop c out v fits)
]
