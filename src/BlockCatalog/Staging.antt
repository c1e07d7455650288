-- ===== src/BlockCatalog/Staging.antt =====
-- Every sealed block keeps its descriptor, and its payload is staged until it is offloaded.
use shard_log.Prelude.{
  ℕ, ◌+◌, ◌^◌, ◌<◌, ◌≡◌, ◌≢◌, ◌⊎◌, inl, inr, refl, none, some, List, arith, Option-cases, nat_eq,
  nat_beq, nat_beq_iff, if◌then◌else◌,
}
use mathlib.Core.Option
use shard_log.Outcome.{ok, err}
use shard_log.Map.{lookup, remove, update}
use shard_log.Map.Laws.{lookup-insert, lookup-remove, lookup-update}
use shard_log.Errors.{unknown_block}
use shard_log.BlockCatalog.Catalog.{
  BlockDescriptor, BlockCatalog, get, staged_payload, seal, offload, mark_offloaded_range,
}

-- Ids below the next one, each under its own id; a block has a staged payload exactly if it has no
-- object.
pub record IsValid (c : BlockCatalog) : Type 0 where
  pub below :
      (j : ℕ) (b : BlockDescriptor) → get c j ≡ some b → (j < c.next_block_id) × (b.block_id ≡ j)
  pub staged :
      (j : ℕ) (b : BlockDescriptor)
      → get c j ≡ some b
      → b.object_key ≡ none
      → staged_payload c j ≢ none
  pub offloaded :
      (j : ℕ) (b : BlockDescriptor) (key : List ℕ)
      → get c j ≡ some b
      → b.object_key ≡ some key
      → staged_payload c j ≡ none
  pub known : (j : ℕ) → get c j ≡ none → staged_payload c j ≡ none

module _ (c : BlockCatalog) (block : BlockDescriptor) (payload : List ℕ) (v : IsValid c)
    (fresh : block.object_key ≡ none) (room : c.next_block_id + 1 < 2 ^ 64) where
  get-seal :
      (j : ℕ)
      → get (seal c block payload).0 j
        ≡ (if nat_beq c.next_block_id j then some (seal c block payload).1 else get c j)
  unfolding get seal
  get-seal j = lookup-insert c.next_block_id j _ c.blocks

  staged_payload-seal :
      (j : ℕ)
      → staged_payload (seal c block payload).0 j
        ≡ (if nat_beq c.next_block_id j then some payload else staged_payload c j)
  unfolding staged_payload seal
  staged_payload-seal j = lookup-insert c.next_block_id j payload c.staged_payloads

  sealed_lem :
      ((seal c block payload).1.block_id ≡ c.next_block_id)
      × ((seal c block payload).1.object_key ≡ none)
      × ((seal c block payload).0.next_block_id ≡ c.next_block_id + 1)
  unfolding seal
  sealed_lem = (refl, fresh, omega arith)

  sealed_block : (seal c block payload).1 ≡ record block { block_id = c.next_block_id }
  unfolding seal
  sealed_block = refl

  unused : get c c.next_block_id ≡ none
  unused = elim (Option-cases (get c c.next_block_id)) [
    | inl e ↦ e
    | inr (b, e) ↦ absurd (omega (arith, (v.below c.next_block_id b e).0))
  ]

  seal-IsValid : IsValid (seal c block payload).0
  seal-IsValid = record {
    below =
        λ j b h. ground (arith, get-seal j, sealed_lem, v.below j b, nat_beq_iff c.next_block_id j);
    staged = λ j b h n. ground (arith, get-seal j, staged_payload-seal j, v.staged j b);
    offloaded = λ j b key h n.
        ground (arith, get-seal j, staged_payload-seal j, sealed_lem, v.offloaded j b key);
    known = λ j h. ground (arith, get-seal j, staged_payload-seal j, v.known j);
  }

  -- In a valid catalog that has ids left, sealing a block that is not offloaded gives it the next id,
  -- which no block has, and changes nothing else of its descriptor. The block and its payload are found
  -- under that id, no other block and no other payload changes, and the catalog stays valid.
  pub seal_lem :
      ((seal c block payload).1 ≡ record block { block_id = c.next_block_id })
      × ((seal c block payload).0.next_block_id ≡ c.next_block_id + 1)
      × (get c (seal c block payload).1.block_id ≡ none)
      × (get (seal c block payload).0 (seal c block payload).1.block_id
          ≡ some (seal c block payload).1)
      × (staged_payload (seal c block payload).0 (seal c block payload).1.block_id ≡ some payload)
      × ((j : ℕ)
          → j ≢ (seal c block payload).1.block_id
          → (get (seal c block payload).0 j ≡ get c j)
            × (staged_payload (seal c block payload).0 j ≡ staged_payload c j))
      × IsValid (seal c block payload).0
  seal_lem = rw sealed_lem.0 (
    sealed_block,
    sealed_lem.2,
    unused,
    ground (arith, get-seal c.next_block_id),
    ground (arith, staged_payload-seal c.next_block_id),
    λ j other. ground (arith, get-seal j, staged_payload-seal j, nat_beq_iff c.next_block_id j),
    seal-IsValid,
  )

module _ (c : BlockCatalog) (block_id : ℕ) (key : List ℕ) (offset : ℕ) (v : IsValid c) where
  -- In a valid catalog, an offload of an unknown block is refused. Of a known block it records the
  -- object's key and offset, and nothing else in its descriptor, and drops the staged payload. It changes
  -- no other block and no other payload, and leaves a valid catalog.
  pub mark_offloaded_range_outcome :
      ((get c block_id ≡ none)
        × (mark_offloaded_range c block_id key offset ≡ err (unknown_block block_id)))
      ⊎ ((b : BlockDescriptor) × (c' : BlockCatalog) × (get c block_id ≡ some b)
          × (mark_offloaded_range c block_id key offset ≡ ok c')
          × (get c' block_id
              ≡ some (record b { object_key = some key; object_offset = some offset }))
          × (staged_payload c' block_id ≡ none)
          × ((j : ℕ)
              → j ≢ block_id
              → (get c' j ≡ get c j) × (staged_payload c' j ≡ staged_payload c j))
          × IsValid c')
  unfolding mark_offloaded_range get staged_payload
  mark_offloaded_range_outcome = elim (Option-cases (lookup block_id c.blocks)) [
    | inl e ↦ inl (e, rw (e, mark_offloaded_range))
    | inr (b, e) ↦
        let c' : BlockCatalog = record c {
          blocks = update block_id (offload key offset) c.blocks;
          staged_payloads = remove block_id c.staged_payloads;
        } in
        let blocks : (j : ℕ)
            → lookup j c'.blocks ≡ (
                if nat_beq block_id j
                then Option.map (offload key offset) (lookup j c.blocks)
                else lookup j c.blocks) =
          λ j. lookup-update block_id j (offload key offset) c.blocks in
        let staged : (j : ℕ)
            → lookup j c'.staged_payloads
              ≡ (if nat_beq block_id j then none else lookup j c.staged_payloads) =
          λ j. lookup-remove block_id j c.staged_payloads in
        inr (
          b,
          c',
          e,
          rw (e, mark_offloaded_range),
          ground (arith, blocks block_id),
          ground (arith, staged block_id),
          λ j other. ground (arith, blocks j, staged j, nat_beq_iff block_id j),
          record {
            below = λ j d h.
                ground (arith, blocks j, v.below j d, v.below block_id b e, nat_beq_iff block_id j);
            staged = λ j d h n.
                ground (arith, blocks j, staged j, v.staged j d, e, nat_beq_iff block_id j);
            offloaded = λ j d k h n. ground (arith, blocks j, staged j, v.offloaded j d k);
            known = λ j h. ground (arith, blocks j, staged j, v.known j);
          },
        )
  ]
