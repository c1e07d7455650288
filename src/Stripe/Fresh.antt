-- ===== src/Stripe/Fresh.antt =====
-- A stripe without records is well formed.
use shard_log.Prelude.{ℕ, refl}
use shard_log.Map.{lookup}
use shard_log.Query.Text.{Unicode}
use shard_log.Stripe.InternerLaws.{posted_key}
use shard_log.Stripe.Index.{find_field}
use shard_log.Stripe.IndexState.{IsIndexed}
use shard_log.Stripe.Ordinals.{at_ordinal}
use shard_log.Stripe.Apply.{new_stripe, empty_index, partition_of}
use shard_log.Stripe.StripeState.{IsStripe}

empty_index-IsIndexed : (u : Unicode) → IsIndexed u empty_index
unfolding empty_index lookup find_field posted_key at_ordinal
empty_index-IsIndexed u = record {
  by_offset = tt;
  terms = record {
    interned = record { bounded = λ k id h. cc; injective = λ j k id h g. cc };
    in_order = tt;
    exact = λ k o. refl;
  };
  fields = record {
    interned = record { bounded = λ k id h. cc; injective = λ j k id h g. cc };
    in_order = tt;
    exact = λ k o. refl;
  };
}

pub new_stripe-IsStripe : (u : Unicode) (id : ℕ) → IsStripe u (new_stripe id)
unfolding new_stripe partition_of lookup
new_stripe-IsStripe u id = record {
  indexed = λ tp. empty_index-IsIndexed u;
  terms_cached = λ slot cached e. cc;
  fields_cached = λ slot cached e. cc;
}
