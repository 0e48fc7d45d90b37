-- ===== src/Outbox/Steps.antt =====
-- Every step of the relay of backend/internal/outbox/relay.go keeps the invariant of the outbox.
use live_auction.Common.{
  ℕ, ◌≤◌, ◌<◌, ◌≡◌, refl, sym, ap, subst, ◌∙◌, Bool, true, false, Option, none, some, List, [], ◌∷◌,
  map, ◌==◌, inl, inr, Bool-cases, Option-cases, All, All-map, All-map₂, All-weaken, if◌then◌else◌,
  arith,
}
use live_auction.Outbox.Data.{Delivery, Flight, idle, held, sent_out, Outbox}
use live_auction.Outbox.Rows.{
  has_prior, is_claimable, is_older, older, first_claimable, set_row, claimed, claim_one,
  published_row,
}
use live_auction.Outbox.{push_flight, finish_flight}
use live_auction.Outbox.Keys.{has_sent, IsHandled, Prior, SameKey, set_row-SameKey}
use live_auction.Outbox.Orderly.{
  Airborne, Airborne-rekeyed, Flies, IsDone, Owns, IsOrderly, rekeyed-IsOrderly, flight-IsOrderly,
  push-IsOrderly, Flies-pushed,
}

pick :
    (P : Delivery → Type 0) (c d : Delivery) (t : Bool) (later : Option Delivery)
    → (if t then some (older c later) else later) ≡ some d
    → (t ≡ true → P c)
    → ((x : Delivery) → later ≡ some x → P x)
    → P d
pick P c d true none e head rest = subst P (cc) (head refl)
pick P c d true (some x) e head rest = elim (Bool-cases (is_older c x)) [
  | inl first ↦ let e' : some c ≡ some d = rw first at e in subst P (cc) (head refl)
  | inr second ↦ let e' : some x ≡ some d = rw second at e in subst P (cc) (rest x refl)
]
pick P c d false later e head rest = rest d e

-- The claimable row that is taken has what every claimable row has.
first_claimable_each :
    (P : Delivery → Type 0) (w now : ℕ) (o : Outbox) (rows : List Delivery) (d : Delivery)
    → All (λ c. is_claimable w now o c ≡ true → P c) rows
    → first_claimable w now o rows ≡ some d
    → P d
unfolding first_claimable
first_claimable_each P w now o [] d v e = absurd (ground (arith, e))
first_claimable_each P w now o (c ∷ rows) d v e =
    pick P c d (is_claimable w now o c) (first_claimable w now o rows) e v.0
      (λ x q. first_claimable_each P w now o rows x v.1 q)

-- No unfinished row before it: all rows before it were handled.
nothing_before :
    (shard_of : ℕ → ℕ) (o : Outbox) (d : Delivery) (rows : List Delivery)
    → d.shard_id ≡ shard_of d.auction_id
    → All (λ p. p.shard_id ≡ shard_of p.auction_id) rows
    → All (IsDone o) rows
    → has_prior d rows ≡ false
    → All (Prior o.sent o.letters d.auction_id d.auction_seq) rows
unfolding has_prior
nothing_before shard_of o d [] s v f e = tt
nothing_before shard_of o d (p ∷ rows) s v f e = (
  (λ same less. f.0 (ground (arith, e, same, less, s ∙ sym (v.0 ∙ ap shard_of same)))),
  nothing_before shard_of o d rows s v.1 f.1 (ground (arith, e)),
)

claimable_free :
    (w now : ℕ) (o : Outbox) (c : Delivery)
    → is_claimable w now o c ≡ true
    → has_prior c o.deliveries ≡ false
unfolding is_claimable
claimable_free w now o c t = ground (arith, t)

claim-Airborne :
    (shard_of : ℕ → ℕ) (w now : ℕ) (o : Outbox) (d : Delivery)
    → IsOrderly shard_of o
    → first_claimable w now o o.deliveries ≡ some d
    → Airborne o d
claim-Airborne shard_of w now o d v e =
    let taken = λ (P : Delivery → Type 0) (all : All P o.deliveries).
      first_claimable_each P w now o o.deliveries d (All-weaken P _ (λ c h t. h) o.deliveries all)
        e in
    let free =
      first_claimable_each (λ c. has_prior c o.deliveries ≡ false) w now o o.deliveries d
        (All-weaken (λ c. c.outbox_id < o.next_id) _ (λ c h t. claimable_free w now o c t)
          o.deliveries v.below)
        e in
    record {
      priors =
          nothing_before shard_of o d o.deliveries
            (taken (λ c. c.shard_id ≡ shard_of c.auction_id) v.sharded) v.sharded v.finished free;
      low = taken (λ c. c.auction_seq ≤ o.seq c.auction_id) v.numbered;
      own = taken (λ c. All (Owns c.outbox_id c.auction_id c.auction_seq) o.deliveries) v.keyed;
      old = taken (λ c. c.outbox_id < o.next_id) v.below;
    }

claimed-SameKey : (w now : ℕ) (d : Delivery) → SameKey d (claimed w now d)
claimed-SameKey w now d = record { id = refl; auction = refl; number = refl; shard = refl }

claimed_open : true ≡ false → ⊥
claimed_open e = cc

-- A row that an update makes unfinished, or leaves alone.
pub open_rows :
    (id : ℕ) (f : Delivery → Delivery) (o : Outbox)
    → ((d : Delivery) → IsDone o d → IsDone o (f d))
    → All (IsDone o) o.deliveries
    → All (IsDone o) (map (set_row id f) o.deliveries)
open_rows id f o k =
    All-map (IsDone o) (IsDone o) (set_row id f)
      (λ d h. elim (Bool-cases (d.outbox_id == id)) [
        | inl hit ↦ rw hit (k d h)
        | inr miss ↦ rw miss h
      ])
      o.deliveries

pub claim_one-IsOrderly :
    (shard_of : ℕ → ℕ) (w now : ℕ) (o : Outbox)
    → IsOrderly shard_of o
    → IsOrderly shard_of (claim_one w now o)
unfolding claim_one
claim_one-IsOrderly shard_of w now o v =
    elim (Option-cases (first_claimable w now o o.deliveries)) [
      | inl nothing ↦ rw (nothing, claim_one) v
      | inr (d, found) ↦
          let g = set_row d.outbox_id (claimed w now) in
          let k = set_row-SameKey d.outbox_id (claimed w now) (claimed-SameKey w now) in
          rw (found, claim_one)
            (flight-IsOrderly shard_of w (held d) _
              (Airborne-rekeyed g k o d (claim-Airborne shard_of w now o d v found))
              (rekeyed-IsOrderly g k o shard_of
                (open_rows d.outbox_id (claimed w now) o (λ c h u. absurd (claimed_open u))
                  v.finished)
                v))
    ]

pub push_flight-IsOrderly :
    (shard_of : ℕ → ℕ) (w : ℕ) (f : Flight) (o : Outbox)
    → Flies o f
    → IsOrderly shard_of o
    → IsOrderly shard_of (push_flight w f o)
unfolding push_flight
push_flight-IsOrderly shard_of w (held d) o a v =
    flight-IsOrderly shard_of w (sent_out d) _ (Flies-pushed d o a)
      (push-IsOrderly d o shard_of a v)
push_flight-IsOrderly shard_of w idle o a v = v
push_flight-IsOrderly shard_of w (sent_out d) o a v = v

published-SameKey : (now : ℕ) (d : Delivery) → SameKey d (published_row now d)
published-SameKey now d = record { id = refl; auction = refl; number = refl; shard = refl }

-- A row of the event is handled once the event is in the history.
own-IsHandled :
    (o : Outbox) (d p : Delivery)
    → has_sent o.sent d.auction_id d.auction_seq ≡ true
    → Owns d.outbox_id d.auction_id d.auction_seq p
    → p.outbox_id ≡ d.outbox_id
    → IsHandled o.sent o.letters p
own-IsHandled o d p sent own same = let (a, n) = own same in rw (a, n) (ground (arith, sent))

pub finish_flight-IsOrderly :
    (shard_of : ℕ → ℕ) (w now : ℕ) (f : Flight) (o : Outbox)
    → Flies o f
    → IsOrderly shard_of o
    → IsOrderly shard_of (finish_flight w now f o)
unfolding finish_flight
finish_flight-IsOrderly shard_of w now idle o a v = v
finish_flight-IsOrderly shard_of w now (held d) o a v = v
finish_flight-IsOrderly shard_of w now (sent_out d) o a v =
    let g = set_row d.outbox_id (published_row now) in
    let k = set_row-SameKey d.outbox_id (published_row now) (published-SameKey now) in
    flight-IsOrderly shard_of w idle _ tt (
      rekeyed-IsOrderly g k o shard_of
        (All-map₂ (IsDone o) (Owns d.outbox_id d.auction_id d.auction_seq) (IsDone o) g
          (λ p h own. elim (Bool-cases (p.outbox_id == d.outbox_id)) [
            | inl hit ↦ rw hit (λ u. own-IsHandled o d p a.1 own (ground (arith, hit)))
            | inr miss ↦ rw miss h
          ])
          o.deliveries v.finished a.0.own)
        v)
