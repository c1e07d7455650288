-- ===== src/NativeProtocol/Lockstep.antt =====
-- Two decoders that run in step: both fail, or both succeed with related results.
use shard_log.Prelude.{◌≡◌, refl, Bool, true, false, subst}
use shard_log.Outcome.{ok, err, ◌>>=◌, ◌>>◌, reject}
use shard_log.NativeProtocol.Agreement.{accepted}
use shard_log.NativeProtocol.Wire.{NativeProtocolError, Checked}

abbrev pub Agree : {A B : Type 0} → (A → B → Type 0) → Checked A → Checked B → Type 0
Agree R (ok a) (ok b) = R a b
Agree R (ok a) (err e) = ⊥
Agree R (err e) (ok b) = ⊥
Agree R (err e) (err e') = Unit {0}

pub Agree-bind :
    {A B C D : Type 0} (R : A → B → Type 0) (S : C → D → Type 0) (m : Checked A) (m' : Checked B)
    (f : A → Checked C) (g : B → Checked D)
    → Agree R m m'
    → ((a : A) (b : B) → R a b → Agree S (f a) (g b))
    → Agree S (m >>= f) (m' >>= g)
Agree-bind R S (ok a) (ok b) f g both next = next a b both
Agree-bind R S (ok a) (err e) f g both next = absurd both
Agree-bind R S (err e) (ok b) f g both next = absurd both
Agree-bind R S (err e) (err e') f g both next = tt

-- The same read on both sides.
pub Agree-read :
    {A C D : Type 0} (S : C → D → Type 0) (m : Checked A) (f : A → Checked C) (g : A → Checked D)
    → ((a : A) → Agree S (f a) (g a))
    → Agree S (m >>= f) (m >>= g)
Agree-read S (ok a) f g next = next a
Agree-read S (err e) f g next = tt

-- The same guard on both sides, that says what it says.
pub Agree-guard :
    {C D : Type 0} (S : C → D → Type 0) (refused : Bool) (e e' : NativeProtocolError)
    (m : Checked C) (m' : Checked D)
    → (refused ≡ false → Agree S m m')
    → Agree S (reject refused e >> m) (reject refused e' >> m')
Agree-guard S true e e' m m' next = tt
Agree-guard S false e e' m m' next = next refl

pub Agree-map :
    {A B D : Type 0} (R : A → B → Type 0) (S : A → D → Type 0) (m : Checked A) (m' : Checked B)
    (g : B → Checked D)
    → Agree R m m'
    → ((a : A) (b : B) → R a b → Agree S (ok a) (g b))
    → Agree S m (m' >>= g)
Agree-map R S (ok a) (ok b) g both next = next a b both
Agree-map R S (ok a) (err e) g both next = absurd both
Agree-map R S (err e) (ok b) g both next = absurd both
Agree-map R S (err e) (err e') g both next = tt

-- A decoder may be replaced by one that accepts the same.
pub Agree-accepted :
    {A B : Type 0} (R : A → B → Type 0) (m n : Checked A) (m' : Checked B)
    → accepted m ≡ accepted n
    → Agree R n m'
    → Agree R m m'
Agree-accepted R (ok a) (ok b) m' same both = subst (λ x. Agree R (ok x) m') (cc same) both
Agree-accepted R (ok a) (err e) m' same both = cc
Agree-accepted R (err e) (ok b) m' same both = cc
Agree-accepted R (err e) (err e') (ok b) same both = both
Agree-accepted R (err e) (err e') (err d) same both = tt
