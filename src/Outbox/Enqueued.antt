-- ===== src/Outbox/Enqueued.antt =====
-- A committed event keeps the invariant of the outbox of backend/internal/outbox/relay.go.
use live_auction.Common.{
  ℕ, suc, ◌≤◌, ◌<◌, refl, ap, update, update_self, All-weaken, All-both, arith,
}
use live_auction.Outbox.Data.{Delivery, Flight, idle, held, sent_out, Outbox}
use live_auction.Outbox.{new_delivery, enqueue}
use live_auction.Outbox.Keys.{NoGap-cons}
use live_auction.Outbox.Orderly.{Airborne, Flies, IsOrderly}

le_update : (f : ℕ → ℕ) (a b n : ℕ) → n ≤ f b → n ≤ update f a (suc (f a)) b
le_update f a b n h = ground (arith, h)

module _ (shard_of : ℕ → ℕ) (auction now : ℕ) (o : Outbox) where
  Airborne-enqueue : (d : Delivery) → Airborne o d → Airborne (enqueue shard_of auction now o) d
  unfolding enqueue
  Airborne-enqueue d v = record {
    priors = (λ same less. absurd (omega (arith, v.low, ap o.seq same, less)), v.priors);
    low = le_update o.seq auction d.auction_id d.auction_seq v.low;
    own = (λ e. absurd (omega (arith, e, v.old)), v.own);
    old = omega (arith, v.old);
  }

  Flies-enqueue : (f : Flight) → Flies o f → Flies (enqueue shard_of auction now o) f
  unfolding enqueue
  Flies-enqueue idle v = tt
  Flies-enqueue (held d) v = Airborne-enqueue d v
  Flies-enqueue (sent_out d) v = (Airborne-enqueue d v.0, v.1)

  pub enqueue-IsOrderly : IsOrderly shard_of o → IsOrderly shard_of (enqueue shard_of auction now o)
  unfolding enqueue
  enqueue-IsOrderly v = record {
    sharded = (refl, v.sharded);
    numbered = (
      ground (arith, update_self o.seq auction (suc (o.seq auction))),
      All-weaken (λ d. d.auction_seq ≤ o.seq d.auction_id) _
          (λ d h. le_update o.seq auction d.auction_id d.auction_seq h) o.deliveries v.numbered,
    );
    keyed = (
      (
        λ e. (refl, refl),
        All-weaken (λ d. d.outbox_id < o.next_id) _ (λ d h e. absurd (omega (arith, h, e)))
            o.deliveries v.below,
      ),
      All-both _ _ o.deliveries
          (All-weaken (λ d. d.outbox_id < o.next_id) _ (λ d h e. absurd (omega (arith, h, e)))
            o.deliveries v.below)
          v.keyed,
    );
    below = (
      omega arith,
      All-weaken (λ d. d.outbox_id < o.next_id) _ (λ d h. omega (arith, h)) o.deliveries v.below,
    );
    finished = (λ u. cc, v.finished);
    flying = λ w. Flies-enqueue (o.flights w) (v.flying w);
    ordered =
        NoGap-cons o.letters (new_delivery shard_of auction now o) o.deliveries o.sent
          (All-weaken (λ e. e.seq ≤ o.seq e.auction_id) _
            (λ e h same. omega (arith, h, ap o.seq same)) o.sent v.logged)
          v.ordered;
    logged =
        All-weaken (λ e. e.seq ≤ o.seq e.auction_id) _
          (λ e h. le_update o.seq auction e.auction_id e.seq h) o.sent v.logged;
  }
