-- ===== src/Stripe/PushLaws.antt =====
-- A range of ordinals pushed on the posting lists of some ids.
use shard_log.Prelude.{
  ℕ, zero, suc, ◌+◌, ◌<◌, ◌≤◌, ◌≡◌, inl, inr, refl, subst, ap, ◌∙◌, Bool, true, false, ◌&&◌, ◌||◌,
  some, List, [], ◌∷◌, length, any, leb, nat_eq, ◌==◌, if◌then◌else◌, arith, All, Bool-cases,
}
use shard_log.Prelude.Sorting.{All-imp}
use shard_log.Stripe.Postings.{OrdinalRun, HotPostingList, push_range}
use shard_log.Stripe.PostingLaws.{RunsFrom, push_run-RunsFrom, posted-push_run}
use shard_log.Stripe.Interner.{get_elem?, push_at, push_each, mem}
use shard_log.Stripe.InternerLaws.{PostingsTo, posted_id}
use shard_log.Stripe.Publication.{Unrepeated}

get_elem?-lt {ℓ} :
    {A : Type ℓ} (xs : List A) (i : ℕ) → i < length xs → (x : A) × (get_elem? xs i ≡ some x)
get_elem?-lt [] i h = absurd (omega arith)
get_elem?-lt (x ∷ xs) zero h = (x, refl)
get_elem?-lt (x ∷ xs) (suc i) h = get_elem?-lt xs i (omega arith)

module _ (first last : ℕ) (ordered : first ≤ last) where
  push_at_lem :
      (ps : List HotPostingList) (id : ℕ) (p : HotPostingList)
      → get_elem? ps id ≡ some p
      → (ps' : List HotPostingList) × (push_at first last id ps ≡ some ps')
        × (length ps' ≡ length ps)
        × ((i : ℕ)
            → get_elem? ps' i
              ≡ (if id == i then some (push_range first last p) else get_elem? ps i))
  unfolding push_at
  push_at_lem [] id p h = cc
  push_at_lem (q ∷ ps) zero p h = (push_range first last q ∷ ps, refl, refl, λ i. at_head i)
    where
      at_head :
          (i : ℕ)
          → get_elem? (push_range first last q ∷ ps) i
            ≡ (if 0 == i then some (push_range first last p) else get_elem? (q ∷ ps) i)
      at_head zero = cc
      at_head (suc i) = ground arith
  push_at_lem (q ∷ ps) (suc id) p h =
      let (ps', e, l, g) = push_at_lem ps id p h in (q ∷ ps', rw e, ap suc l, λ i. behind ps' g i)
    where
      behind :
          (ps' : List HotPostingList)
          → ((i : ℕ)
              → get_elem? ps' i
                ≡ (if id == i then some (push_range first last p) else get_elem? ps i))
          → (i : ℕ)
          → get_elem? (q ∷ ps') i
            ≡ (if suc id == i then some (push_range first last p) else get_elem? (q ∷ ps) i)
      behind ps' g zero = ground arith
      behind ps' g (suc i) = ground (arith, g i)

  -- The lists of the ids that are done reach to `last`, and the others end before `first`.
  abbrev bound_of : Bool → ℕ
  bound_of done = if done then last + 1 else first

  abbrev OrderedAt : (ℕ → Bool) → List HotPostingList → Type 0
  OrderedAt done ps =
      (i : ℕ) (p : HotPostingList) → get_elem? ps i ≡ some p → RunsFrom 0 (bound_of (done i)) p.runs

  abbrev in_range : ℕ → Bool
  in_range o = leb first o && leb o last

  OrderedAt-congr :
      (d e : ℕ → Bool) (ps : List HotPostingList)
      → ((i : ℕ) → d i ≡ e i)
      → OrderedAt d ps
      → OrderedAt e ps
  OrderedAt-congr d e ps h w i p at = subst (λ b. RunsFrom 0 (bound_of b) p.runs) (h i) (w i p at)

  -- One list that has grown.
  module _ (ps ps' : List HotPostingList) (id : ℕ) (p : HotPostingList) (done : ℕ → Bool)
      (at : get_elem? ps id ≡ some p)
      (g : (i : ℕ)
        → get_elem? ps' i ≡ (if id == i then some (push_range first last p) else get_elem? ps i))
      (w : OrderedAt done ps) (open_ : done id ≡ false) where
    before_push : RunsFrom 0 first p.runs
    before_push = subst (λ b. RunsFrom 0 (bound_of b) p.runs) open_ (w id p at)

    grown-OrderedAt : OrderedAt (λ i. done i || id == i) ps'
    unfolding push_range
    grown-OrderedAt i q h = elim (Bool-cases (id == i)) [
      | inl same ↦
          let e : push_range first last p ≡ q = ground (arith, g i) in
          subst (λ b. RunsFrom 0 (bound_of b) q.runs) (reached i same)
            (subst (λ (r : HotPostingList). RunsFrom 0 (last + 1) r.runs) e
              (push_run-RunsFrom 0 first first last p.runs before_push (omega arith) (omega arith)
                ordered))
      | inr other ↦
          subst (λ b. RunsFrom 0 (bound_of b) q.runs) (not_reached i other)
            (w i q (ground (arith, g i)))
    ]
      where
        reached : (i : ℕ) → (id == i) ≡ true → true ≡ (done i || id == i)
        reached i e = ground arith

        not_reached : (i : ℕ) → (id == i) ≡ false → done i ≡ (done i || id == i)
        not_reached i e = ground arith

    posted_grown : (i o : ℕ) → posted_id ps' i o ≡ (posted_id ps i o || (id == i && in_range o))
    unfolding posted_id push_range
    posted_grown i o = elim (Bool-cases (id == i)) [
      | inl same ↦ ground (arith, g i, at, posted-push_run 0 first first last o p.runs before_push)
      | inr other ↦ ground (arith, g i)
    ]

  mem_cons : (id i : ℕ) (ids : List ℕ) → mem i (id ∷ ids) ≡ (id == i || mem i ids)
  unfolding any
  mem_cons id i ids = refl

  mem_nil : (i : ℕ) → mem i [] ≡ false
  unfolding any
  mem_nil i = refl

  not_again :
      (id : ℕ) (ids : List ℕ) (done : ℕ → Bool)
      → mem id ids ≡ false
      → All (λ i. done i ≡ false) ids
      → All (λ i. (done i || id == i) ≡ false) ids
  unfolding any
  not_again id [] done m d = tt
  not_again id (i ∷ ids) done m d = (ground arith, not_again id ids done (ground arith) d.1)

  pub push_each_lem :
      (ids : List ℕ) (ps : List HotPostingList) (done : ℕ → Bool)
      → All (λ id. id < length ps) ids
      → Unrepeated ids
      → All (λ id. done id ≡ false) ids
      → OrderedAt done ps
      → (ps' : List HotPostingList) × (push_each first last ids ps ≡ some ps')
        × (length ps' ≡ length ps)
        × OrderedAt (λ i. done i || mem i ids) ps'
        × ((i o : ℕ) → posted_id ps' i o ≡ (posted_id ps i o || (mem i ids && in_range o)))
  unfolding push_each
  push_each_lem [] ps done s u d w =
      (ps, refl, refl, OrderedAt-congr done _ ps (λ i. no_id i) w, λ i o. no_post i o)
    where
      no_id : (i : ℕ) → done i ≡ (done i || mem i [])
      no_id i = ground (arith, mem_nil i)

      no_post : (i o : ℕ) → posted_id ps i o ≡ (posted_id ps i o || (mem i [] && in_range o))
      no_post i o = ground (arith, mem_nil i)
  push_each_lem (id ∷ ids) ps done s u d w =
      let (p, at) = get_elem?-lt ps id s.0 in
      let (ps1, e, l, g) = push_at_lem ps id p at in
      let w1 = grown-OrderedAt ps ps1 id p done at g w d.0 in
      let (ps2, e2, l2, w2, c2) =
        push_each_lem ids ps1 (λ i. done i || id == i)
          (All-imp _ _ (λ i h. same_length l i h) ids s.1) u.1 (not_again id ids done u.0 d.1) w1 in
      (
        ps2,
        rw (push_each, e) e2,
        l2 ∙ l,
        OrderedAt-congr _ _ ps2 (λ i. regroup i) w2,
        λ i o. both ps1 ps2 i o (c2 i o) (posted_grown ps ps1 id p done at g w d.0 i o),
      )
    where
      same_length : {n m : ℕ} → n ≡ m → (i : ℕ) → i < m → i < n
      same_length e i h = omega arith

      regroup : (i : ℕ) → ((done i || id == i) || mem i ids) ≡ (done i || mem i (id ∷ ids))
      regroup i = ground (arith, mem_cons id i ids)

      both :
          (ps1 ps2 : List HotPostingList) (i o : ℕ)
          → posted_id ps2 i o ≡ (posted_id ps1 i o || (mem i ids && in_range o))
          → posted_id ps1 i o ≡ (posted_id ps i o || (id == i && in_range o))
          → posted_id ps2 i o ≡ (posted_id ps i o || (mem i (id ∷ ids) && in_range o))
      both ps1 ps2 i o h k = ground (arith, mem_cons id i ids)

RunsFrom-wider :
    (low bound bound' : ℕ) (runs : List OrdinalRun)
    → bound ≤ bound'
    → RunsFrom low bound runs
    → RunsFrom low bound' runs
RunsFrom-wider low bound bound' [] h w = tt
RunsFrom-wider low bound bound' (run ∷ runs) h w =
    (w.0, w.1, omega arith, RunsFrom-wider (run.last + 1) bound bound' runs h w.3)

pub All-get_elem? {ℓ κ} :
    {A : Type ℓ} (P : A → Type κ) (xs : List A)
    → All P xs
    → (i : ℕ) (x : A) → get_elem? xs i ≡ some x
    → P x
All-get_elem? P [] h i x e = cc
All-get_elem? P (y ∷ xs) h zero x e = subst P (cc) h.0
All-get_elem? P (y ∷ xs) h (suc i) x e = All-get_elem? P xs h.1 i x e

pub get_elem?-All {ℓ κ} :
    {A : Type ℓ} (P : A → Type κ) (xs : List A)
    → ((i : ℕ) (x : A) → get_elem? xs i ≡ some x → P x)
    → All P xs
get_elem?-All P [] h = tt
get_elem?-All P (x ∷ xs) h = (h 0 x refl, get_elem?-All P xs (λ i. h (suc i)))

-- A range of ordinals behind all others is pushed on the lists of ids that have slots, each once: no push
-- fails, the lists stay in order, and those lists gain the range.
pub push_each_range :
    (first last : ℕ) (ids : List ℕ) (ps : List HotPostingList)
    → first ≤ last
    → All (λ id. id < length ps) ids
    → Unrepeated ids
    → PostingsTo first ps
    → (ps' : List HotPostingList) × (push_each first last ids ps ≡ some ps')
      × (length ps' ≡ length ps)
      × PostingsTo (last + 1) ps'
      × ((i o : ℕ)
          → posted_id ps' i o ≡ (posted_id ps i o || (mem i ids && (leb first o && leb o last))))
push_each_range first last ids ps h s u w =
    let (ps', e, l, w', c) =
      push_each_lem first last h ids ps (λ i. false) s u (none_done ids)
        (All-get_elem? (λ (p : HotPostingList). RunsFrom 0 first p.runs) ps w) in
    (
      ps',
      e,
      l,
      get_elem?-All _ ps'
          (λ i p at. RunsFrom-wider 0 _ (last + 1) p.runs (short (mem i ids)) (w' i p at)),
      c,
    )
  where
    none_done : (is : List ℕ) → All (λ i. false ≡ false) is
    none_done [] = tt
    none_done (i ∷ is) = (refl, none_done is)

    short : (b : Bool) → (if false || b then last + 1 else first) ≤ last + 1
    short b = ground arith
