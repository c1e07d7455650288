-- ===== src/Dictionary/Recency.antt =====
-- What the loop of `DictionaryCache::insert` drops: the entries that were used longest ago, and never the
-- one that was just inserted.
use shard_log.Prelude.{
  ℕ, zero, suc, ◌≤◌, ◌<◌, ◌≡◌, ◌≢◌, refl, sym, ap, subst, ◌∙◌, false, none, some, List, [], ◌∷◌,
  ◌++◌, arith, length, ltb, ◌==◌, nat_eq, nat_beq_iff, Option-cases, Bool-cases, inl, inr, ltb→lt,
}
use shard_log.Map.{Map, lookup, remove, Unique}
use shard_log.Map.Laws.{lookup-remove, total, total-remove}
use shard_log.Dictionary.Cache.{CachedDictionary, DictionaryCache, oldest, remove_entry, evict}
use shard_log.Dictionary.Eviction.{
  weight, IsCounted, evict-stop, evict-round, oldest-lookup, oldest-le, remove_entry-IsCounted,
  lookup-remove-some,
}

-- `Trace c r`: the loop leads from `c` to `r`.
pub data Trace : DictionaryCache → DictionaryCache → Type 0 where
  stop : (c : DictionaryCache) → c.stored_bytes ≤ c.capacity_bytes → Trace c c
  drop :
      (c c' : DictionaryCache) (id : ℕ) (e : CachedDictionary)
      → c.capacity_bytes < c.stored_bytes
      → oldest c.entries ≡ some (id, e)
      → Trace (remove_entry c id e) c'
      → Trace c c'

stopped :
    (fuel : ℕ) (c : DictionaryCache) (out : List ℕ) (r : DictionaryCache × List ℕ)
    → ltb c.capacity_bytes c.stored_bytes ≡ false
    → evict fuel c out ≡ some r
    → Trace c r.0
stopped fuel c out r fits h =
    let e : c ≡ r.0 = cc (evict-stop fuel c out fits) in
    subst (λ d. Trace c d) e (stop c (ground arith))

pub evict-Trace :
    (fuel : ℕ) (c : DictionaryCache) (out : List ℕ) (r : DictionaryCache × List ℕ)
    → evict fuel c out ≡ some r
    → Trace c r.0
evict-Trace zero c out r h = elim (Bool-cases (ltb c.capacity_bytes c.stored_bytes)) [
  | inl over ↦ absurd (unfold evict in cc (rw over at h))
  | inr fits ↦ stopped zero c out r fits h
]
evict-Trace (suc fuel) c out r h = elim (Bool-cases (ltb c.capacity_bytes c.stored_bytes)) [
  | inl over ↦ elim (Option-cases (oldest c.entries)) [
    | inl e ↦ absurd (unfold evict in cc (rw (over, e, evict) at h))
    | inr ((id, e), o) ↦ drop c r.0 id e (ltb→lt _ _ over) o (
        evict-Trace fuel (remove_entry c id e) (out ++ (id ∷ [])) r
          (sym (evict-round fuel c out id e over o) ∙ h))
  ]
  | inr fits ↦ stopped (suc fuel) c out r fits h
]

pub Trace-kept :
    {c c' : DictionaryCache}
    → Trace c c'
    → (j : ℕ) (e : CachedDictionary) → lookup j c'.entries ≡ some e
    → lookup j c.entries ≡ some e
unfolding remove_entry
Trace-kept (stop c fits) j e h = h
Trace-kept (drop c c' id f over o t) j e h =
    (lookup-remove-some id j c.entries e (Trace-kept t j e h)).0

-- What was dropped was used no later than what stays.
pub Trace-oldest :
    {c c' : DictionaryCache}
    → Trace c c'
    → IsCounted c
    → (j k : ℕ) (e f : CachedDictionary) → lookup j c.entries ≡ some e
    → lookup j c'.entries ≡ none
    → lookup k c'.entries ≡ some f
    → e.last_used ≤ f.last_used
Trace-oldest (stop c fits) v j k e f was gone stays = cc (was, gone)
Trace-oldest (drop c c' id g over o t) v j k e f was gone stays =
    let found = oldest-lookup c.entries id g v.unique o in
    let there = Trace-kept (drop c c' id g over o t) k f stays in
    elim (Bool-cases (id == j)) [
      | inl same ↦ ground (arith, nat_beq_iff id j, oldest-le c.entries id g k f o there)
      | inr other ↦
          Trace-oldest t (remove_entry-IsCounted c id g v found) j k e f
            (unfold remove_entry in rw (lookup-remove id j c.entries, other) was) gone stays
    ]

nil_of_lookup : (m : Map ℕ CachedDictionary) → ((j : ℕ) → lookup j m ≡ none) → m ≡ []
unfolding lookup
nil_of_lookup [] h = refl
nil_of_lookup ((k, e) ∷ m) h = ground (arith, h k)

-- The only entry left is not dropped: `alone` says that no other key is there.
total-alone :
    (id : ℕ) (e : CachedDictionary) (m : Map ℕ CachedDictionary)
    → Unique m
    → lookup id m ≡ some e
    → ((j : ℕ) → id ≢ j → lookup j m ≡ none)
    → total weight m ≡ weight e
total-alone id e m u h alone =
    let empty = nil_of_lookup (remove id m) (λ j. removed j) in
    omega (arith, total-remove weight id e m u h, ap (total weight) empty)
  where
    removed : (j : ℕ) → lookup j (remove id m) ≡ none
    removed j = elim (Bool-cases (id == j)) [
      | inl same ↦ rw (lookup-remove id j m, same)
      | inr other ↦ rw (lookup-remove id j m, other) (alone j (ground arith))
    ]

-- Where the newest entry is the one to be dropped, it is alone.
newest-alone :
    (m : Map ℕ CachedDictionary) (id : ℕ) (e g : CachedDictionary)
    → oldest m ≡ some (id, g)
    → lookup id m ≡ some g
    → lookup id m ≡ some e
    → ((j : ℕ) (f : CachedDictionary) → id ≢ j → lookup j m ≡ some f → f.last_used < e.last_used)
    → (j : ℕ) → id ≢ j
    → lookup j m ≡ none
newest-alone m id e g o found h newest j ne = elim (Option-cases (lookup j m)) [
  | inl gone ↦ gone
  | inr (f, l) ↦ absurd (ground (arith, newest j f ne l, oldest-le m id g j f o l))
]

-- The entry that was used last, and fits by itself, stays.
pub Trace-newest :
    {c c' : DictionaryCache}
    → Trace c c'
    → IsCounted c
    → (id : ℕ) (e : CachedDictionary) → lookup id c.entries ≡ some e
    → length e.payload ≤ c.capacity_bytes
    → ((j : ℕ) (f : CachedDictionary)
        → id ≢ j
        → lookup j c.entries ≡ some f
        → f.last_used < e.last_used)
    → lookup id c'.entries ≡ some e
Trace-newest (stop c fits) v id e h small newest = h
Trace-newest (drop c c' k g over o t) v id e h small newest =
    let found = oldest-lookup c.entries k g v.unique o in
    elim (Bool-cases (k == id)) [
      | inl same ↦
          let at : k ≡ id = (nat_beq_iff k id).0 same in
          let o' : oldest c.entries ≡ some (id, g) =
            subst (λ i. oldest c.entries ≡ some (i, g)) at o in
          let found' : lookup id c.entries ≡ some g =
            subst (λ i. lookup i c.entries ≡ some g) at found in
          absurd (
            omega (
              arith,
              total-alone id e c.entries v.unique h
                  (newest-alone c.entries id e g o' found' h newest),
              v.counted,
            ))
      | inr other ↦
          Trace-newest t (remove_entry-IsCounted c k g v found) id e
            (unfold remove_entry in rw (lookup-remove k id c.entries, other) h)
            (unfold remove_entry in small)
            (unfold remove_entry in
              λ j f ne l. newest j f ne (lookup-remove-some k j c.entries f l).0)
    ]
