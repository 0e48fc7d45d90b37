-- ===== src/Outbox/Orderly.antt =====
-- The invariant of the outbox of backend/internal/outbox/relay.go, and the changes that keep it.
use live_auction.Common.{
  ℕ, ◌≤◌, ◌<◌, ◌≡◌, sym, ◌∙◌, true, false, List, ◌∷◌, map, ◌==◌, update, inl, inr, Bool-cases, All,
  All-map, All-weaken, arith,
}
use live_auction.Outbox.Data.{Delivery, Lease, Flight, idle, held, sent_out, Sent, Outbox}
use live_auction.Outbox.Rows.{is_unfinished}
use live_auction.Outbox.Keys.{
  has_sent, IsHandled, Prior, NoGap, SameKey, Prior-SameKey, handled-more, handled-letter,
  NoGap-map, NoGap-letter,
}

-- What holds of an event in the hands of a worker: everything before it was handled, and its id is its
-- own.
pub record Airborne (o : Outbox) (d : Delivery) : Type 0 where
  pub priors : All (Prior o.sent o.letters d.auction_id d.auction_seq) o.deliveries
  pub low : d.auction_seq ≤ o.seq d.auction_id
  pub own :
      All
        (λ p.
          p.outbox_id ≡ d.outbox_id
          → (p.auction_id ≡ d.auction_id) × (p.auction_seq ≡ d.auction_seq))
        o.deliveries
  pub old : d.outbox_id < o.next_id

abbrev pub Flies : Outbox → Flight → Type 0
Flies o idle = Unit
Flies o (held d) = Airborne o d
Flies o (sent_out d) = Airborne o d × (has_sent o.sent d.auction_id d.auction_seq ≡ true)

abbrev pub IsDone : Outbox → Delivery → Type 0
IsDone o d = is_unfinished d.status ≡ false → IsHandled o.sent o.letters d

-- A row with the same id is for the same event.
abbrev pub Owns : ℕ → ℕ → ℕ → Delivery → Type 0
Owns id a n p = p.outbox_id ≡ id → (p.auction_id ≡ a) × (p.auction_seq ≡ n)

pub record IsOrderly (shard_of : ℕ → ℕ) (o : Outbox) : Type 0 where
  pub sharded : All (λ d. d.shard_id ≡ shard_of d.auction_id) o.deliveries
  pub numbered : All (λ d. d.auction_seq ≤ o.seq d.auction_id) o.deliveries
  pub keyed : All (λ d. All (Owns d.outbox_id d.auction_id d.auction_seq) o.deliveries) o.deliveries
  pub below : All (λ d. d.outbox_id < o.next_id) o.deliveries
  pub finished : All (IsDone o) o.deliveries
  pub flying : (w : ℕ) → Flies o (o.flights w)
  pub ordered : NoGap o.letters o.deliveries o.sent
  pub logged : All (λ e. e.seq ≤ o.seq e.auction_id) o.sent

-- An update of rows that leaves their keys.
abbrev pub rekeyed : (Delivery → Delivery) → Outbox → Outbox
rekeyed g o = record o { deliveries = map g o.deliveries }

module _ (g : Delivery → Delivery) (k : (d : Delivery) → SameKey d (g d)) (o : Outbox) where
  pub Airborne-rekeyed : (d : Delivery) → Airborne o d → Airborne (rekeyed g o) d
  Airborne-rekeyed d v = record {
    priors =
        All-map _ _ g
          (λ p h. Prior-SameKey o.sent o.letters d.auction_id d.auction_seq p (g p) (k p) h)
          o.deliveries v.priors;
    low = v.low;
    own =
        All-map _ _ g
          (λ p h e. let (a, n) = h (sym (k p).id ∙ e) in ((k p).auction ∙ a, (k p).number ∙ n))
          o.deliveries v.own;
    old = v.old;
  }

  pub Flies-rekeyed : (f : Flight) → Flies o f → Flies (rekeyed g o) f
  Flies-rekeyed idle v = tt
  Flies-rekeyed (held d) v = Airborne-rekeyed d v
  Flies-rekeyed (sent_out d) v = (Airborne-rekeyed d v.0, v.1)

  pub rekeyed-IsOrderly :
      (shard_of : ℕ → ℕ)
      → All (IsDone o) (map g o.deliveries)
      → IsOrderly shard_of o
      → IsOrderly shard_of (rekeyed g o)
  rekeyed-IsOrderly shard_of done v = record {
    sharded = All-map _ _ g (λ d h. rw ((k d).shard, (k d).auction) h) o.deliveries v.sharded;
    numbered = All-map _ _ g (λ d h. rw ((k d).number, (k d).auction) h) o.deliveries v.numbered;
    keyed =
        All-map _ _ g
          (λ d h.
            All-map (Owns d.outbox_id d.auction_id d.auction_seq) _ g
              (λ p r e.
                let (a, n) = r (sym (k p).id ∙ e ∙ (k d).id) in
                ((k p).auction ∙ a ∙ sym (k d).auction, (k p).number ∙ n ∙ sym (k d).number))
              o.deliveries h)
          o.deliveries v.keyed;
    below = All-map _ _ g (λ d h. rw (k d).id h) o.deliveries v.below;
    finished = done;
    flying = λ w. Flies-rekeyed (o.flights w) (v.flying w);
    ordered = NoGap-map g k o.letters o.deliveries o.sent v.ordered;
    logged = v.logged;
  }

Flies-flights :
    (all : ℕ → Flight) (o : Outbox) (f : Flight) → Flies o f → Flies (record o { flights = all }) f
Flies-flights all o idle v = tt
Flies-flights all o (held d) v = record { priors = v.priors; low = v.low; own = v.own; old = v.old }
Flies-flights all o (sent_out d) v =
    (record { priors = v.0.priors; low = v.0.low; own = v.0.own; old = v.0.old }, v.1)

-- A worker takes or gives up an event.
pub flight-IsOrderly :
    (shard_of : ℕ → ℕ) (w : ℕ) (f : Flight) (o : Outbox)
    → Flies o f
    → IsOrderly shard_of o
    → IsOrderly shard_of (record o { flights = update o.flights w f })
flight-IsOrderly shard_of w f o fl v = record {
  sharded = v.sharded;
  numbered = v.numbered;
  keyed = v.keyed;
  below = v.below;
  finished = v.finished;
  flying = λ u.
      Flies-flights _ o _
        (elim (Bool-cases (u == w)) [ inl hit ↦ rw hit fl | inr miss ↦ rw miss (v.flying u) ]);
  ordered = v.ordered;
  logged = v.logged;
}

-- Leases change nothing.
pub leases-IsOrderly :
    (shard_of : ℕ → ℕ) (leases : List Lease) (o : Outbox)
    → IsOrderly shard_of o
    → IsOrderly shard_of (record o { leases = leases })
leases-IsOrderly shard_of leases o v = record {
  sharded = v.sharded;
  numbered = v.numbered;
  keyed = v.keyed;
  below = v.below;
  finished = v.finished;
  flying = λ u. Flies-leases (o.flights u) (v.flying u);
  ordered = v.ordered;
  logged = v.logged;
}
  where
    Flies-leases : (f : Flight) → Flies o f → Flies (record o { leases = leases }) f
    Flies-leases idle w = tt
    Flies-leases (held d) w = record { priors = w.priors; low = w.low; own = w.own; old = w.old }
    Flies-leases (sent_out d) w =
        (record { priors = w.0.priors; low = w.0.low; own = w.0.own; old = w.0.old }, w.1)

-- The history and the letters after one more entry.
module _ (i : ℕ) (o : Outbox) where
  abbrev lettered : Outbox
  lettered = record o { letters = i ∷ o.letters }

  pub Airborne-letter : (d : Delivery) → Airborne o d → Airborne lettered d
  Airborne-letter d v = record {
    priors =
        All-weaken (Prior o.sent o.letters d.auction_id d.auction_seq) _
          (λ p h same less.
            handled-letter i o.sent o.letters p.outbox_id p.auction_id p.auction_seq (h same less))
          o.deliveries v.priors;
    low = v.low;
    own = v.own;
    old = v.old;
  }

  Flies-letter : (f : Flight) → Flies o f → Flies lettered f
  Flies-letter idle v = tt
  Flies-letter (held d) v = Airborne-letter d v
  Flies-letter (sent_out d) v = (Airborne-letter d v.0, v.1)

  pub letter-IsOrderly : (shard_of : ℕ → ℕ) → IsOrderly shard_of o → IsOrderly shard_of lettered
  letter-IsOrderly shard_of v = record {
    sharded = v.sharded;
    numbered = v.numbered;
    keyed = v.keyed;
    below = v.below;
    finished =
        All-weaken (IsDone o) _
          (λ p h u. handled-letter i o.sent o.letters p.outbox_id p.auction_id p.auction_seq (h u))
          o.deliveries v.finished;
    flying = λ w. Flies-letter (o.flights w) (v.flying w);
    ordered = NoGap-letter i o.letters o.deliveries o.sent v.ordered;
    logged = v.logged;
  }

module _ (d : Delivery) (o : Outbox) where
  abbrev entry : Sent
  entry = record { auction_id = d.auction_id; seq = d.auction_seq }

  abbrev pushed : Outbox
  pushed = record o { sent = entry ∷ o.sent }

  Airborne-push : (c : Delivery) → Airborne o c → Airborne pushed c
  Airborne-push c v = record {
    priors =
        All-weaken (Prior o.sent o.letters c.auction_id c.auction_seq) _
          (λ p h same less.
            handled-more entry o.sent o.letters p.outbox_id p.auction_id p.auction_seq
              (h same less))
          o.deliveries v.priors;
    low = v.low;
    own = v.own;
    old = v.old;
  }

  Flies-push : (f : Flight) → Flies o f → Flies pushed f
  unfolding has_sent
  Flies-push idle v = tt
  Flies-push (held c) v = Airborne-push c v
  Flies-push (sent_out c) v = (Airborne-push c v.0, ground (arith, v.1))

  pub push-IsOrderly :
      (shard_of : ℕ → ℕ) → Airborne o d → IsOrderly shard_of o → IsOrderly shard_of pushed
  push-IsOrderly shard_of a v = record {
    sharded = v.sharded;
    numbered = v.numbered;
    keyed = v.keyed;
    below = v.below;
    finished =
        All-weaken (IsDone o) _
          (λ p h u.
            handled-more entry o.sent o.letters p.outbox_id p.auction_id p.auction_seq (h u))
          o.deliveries v.finished;
    flying = λ w. Flies-push (o.flights w) (v.flying w);
    ordered = (a.priors, v.ordered);
    logged = (a.low, v.logged);
  }

  pub Flies-pushed : Airborne o d → Flies pushed (sent_out d)
  unfolding has_sent
  Flies-pushed a = (Airborne-push d a, ground arith)
