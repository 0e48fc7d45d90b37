-- ===== src/Closing/Sealed.antt =====
-- An auction that the scheduler of backend/internal/scheduler/scheduler.go ends goes to the leader that Redis
-- has, and stays so.
use Prim.Native.String.{String}
use live_auction.Common.{
  ℕ, ◌≤◌, ◌≡◌, refl, sym, ◌∙◌, subst, Bool, true, false, not, Option, none, some, List, All, ltb,
  inl, inr, Bool-cases, is_none, arith,
}
use live_auction.Engine.Data.{StateHash, Keyspace}
use live_auction.Engine.State.{Live, read_hash, is_active}
use live_auction.Engine.Run.{Op, run}
use live_auction.Settle.Data.{Auction}
use live_auction.Closing.Data.{EndDb, EndEnv}
use live_auction.Closing.{
  Fence, fence_passed, fence_retry, set_pause, same_winner, check_fence, fenced_keys,
  fence_auction_for_scheduler, fence_hash, fence_auction, after_fence, process_end_auction,
  end_auction,
}
use live_auction.Closing.Still.{IsStill, IsShut, run-IsStill, All-IsShut}

-- The hash has the price and the leader of the row, and an end that is not after the row's.
pub record Agrees (row : Auction) (s : Live) : Type 0 where
  pub price : s.current_price ≡ row.current_price_cents
  pub winner : s.current_winner ≡ row.current_winner_id
  pub end : s.end_at_ms ≤ row.end_at_ms

same_winner→≡ : (u v : Option ℕ) → same_winner u v ≡ true → u ≡ v
same_winner→≡ none none h = refl
same_winner→≡ none (some b) h = absurd (cc)
same_winner→≡ (some a) none h = absurd (cc)
same_winner→≡ (some a) (some b) h = ground arith

check_fence-Agrees :
    (e : EndEnv) (row : Auction) (s : Live) (ks : Keyspace)
    → (check_fence e row s ks).0 ≡ fence_passed
    → Agrees row s × ((check_fence e row s ks).1 ≡ ks)
unfolding check_fence
check_fence-Agrees e row s ks ok = (
  record {
    price = ground (arith, ok);
    winner = same_winner→≡ s.current_winner row.current_winner_id (ground (arith, ok));
    end = ground (arith, ok);
  },
  ground (arith, ok),
)

Agrees-IsStill : (row : Auction) (s s' : Live) → IsStill s s' → Agrees row s → Agrees row s'
Agrees-IsStill row s s' m a = record {
  price = m.price ∙ a.price;
  winner = m.winner ∙ a.winner;
  end = omega (arith, m.end, a.end);
}

-- The calls on a paused hash that agrees.
abbrev Held : Auction → Keyspace → Type 0
Held row ks =
    (h : StateHash) × (ks.state ≡ some h) × ((read_hash h).paused ≡ true) × Agrees row (read_hash h)

run-Held : (row : Auction) (os : List Op) (ks : Keyspace) → Held row ks → Held row (run os ks)
run-Held row os ks (h, s, p, a) =
    let (h', s', m) = run-IsStill os h ks s (All-IsShut (read_hash h) os p) in
    (h', s', m.paused ∙ p, Agrees-IsStill row (read_hash h) (read_hash h') m a)

set_pause-Held :
    (row : Auction) (h : StateHash) (reason : String) (ks : Keyspace)
    → ks.state ≡ some h
    → Agrees row (read_hash h)
    → Held row (set_pause true reason ks)
unfolding read_hash
set_pause-Held row h reason ks s a = (
  record h { paused = some true; pause_reason = some reason },
  rw s refl,
  refl,
  record { price = a.price; winner = a.winner; end = a.end },
)

fence_hash-Held :
    (row : Auction) (is_sold : Bool) (h : StateHash)
    → (read_hash h).paused ≡ true
    → Agrees row (read_hash h)
    → ((read_hash (fence_hash is_sold h)).paused ≡ true)
      × Agrees row (read_hash (fence_hash is_sold h))
unfolding read_hash
fence_hash-Held row is_sold h p a = elim (Bool-cases (is_none h.engine_seq)) [
  | inl gone ↦ rw gone (p, a)
  | inr there ↦ rw there (refl, record { price = a.price; winner = a.winner; end = a.end })
]

fence_auction-Held :
    (row : Auction) (is_sold : Bool) (ks : Keyspace)
    → Held row ks
    → Held row (fence_auction is_sold ks)
unfolding fence_auction
fence_auction-Held row is_sold ks (h, s, p, a) =
    let (p', a') = fence_hash-Held row is_sold h p a in (fence_hash is_sold h, rw s refl, p', a')

-- A fence that does not pass leaves the auction active.
retry_active :
    (e : EndEnv) (db : EndDb) (at : ℕ) (moves : Bool) (ks : Keyspace)
    → (after_fence e db (fence_retry at moves, ks)).0.auction.status ≡ db.auction.status
unfolding after_fence
retry_active e db at moves ks = ground arith

passed-Held :
    (e : EndEnv) (db : EndDb) (h : StateHash) (ks : Keyspace)
    → ks.state ≡ some h
    → All (IsShut (read_hash h)) e.after_read
    → (check_fence e db.auction (read_hash h) (fenced_keys e ks)).0 ≡ fence_passed
    → Held db.auction (check_fence e db.auction (read_hash h) (fenced_keys e ks)).1
passed-Held e db h ks s shut ok =
    let (a, same) = check_fence-Agrees e db.auction (read_hash h) (fenced_keys e ks) ok in
    let (h1, s1, m) = run-IsStill e.after_read h ks s shut in
    let held =
      set_pause-Held db.auction h1 "SCHEDULER_ENDING" (run e.after_read ks) s1
        (Agrees-IsStill db.auction (read_hash h) (read_hash h1) m a) in
    subst (λ k. Held db.auction k) (sym same) (run-Held db.auction e.after_pause _ held)

fenced-Held :
    (e : EndEnv) (db : EndDb) (f : Fence) (ks : Keyspace)
    → is_active db.auction.status ≡ true
    → is_active (after_fence e db (f, ks)).0.auction.status ≡ false
    → (f ≡ fence_passed → Held db.auction ks)
    → ((after_fence e db (f, ks)).0 ≡ end_auction e db)
      × Held db.auction (after_fence e db (f, ks)).1
unfolding after_fence
fenced-Held e db fence_passed ks on off held = (
  refl,
  fence_auction-Held db.auction (not (is_none db.auction.current_winner_id)) (run e.after_check ks)
      (run-Held db.auction e.after_check ks (held refl)),
)
fenced-Held e db (fence_retry at moves) ks on off held =
    absurd (cc (off, subst (λ t. is_active t ≡ true) (sym (retry_active e db at moves ks)) on))

-- If `processEndAuction` ends an auction, with a hash in Redis and no call for a time up to the end of
-- the hash between the reading and the pause of the hash: the end of the row was reached, the hash has the
-- price and the leader of the row, from which the transition makes the order, and an end that is not later;
-- this stays so whatever bids and confirmations come, during the transaction and after it.
pub process_end_auction-Agrees :
    (e : EndEnv) (db : EndDb) (h : StateHash) (ks : Keyspace) (later : List Op)
    → ks.state ≡ some h
    → All (IsShut (read_hash h)) e.after_read
    → is_active db.auction.status ≡ true
    → is_active (process_end_auction e db ks).0.auction.status ≡ false
    → ((process_end_auction e db ks).0 ≡ end_auction e db)
      × (db.auction.end_at_ms ≤ e.now)
      × (h' : StateHash) × ((run later (process_end_auction e db ks).1).state ≡ some h')
      × ((read_hash h').paused ≡ true)
      × Agrees db.auction (read_hash h')
unfolding process_end_auction
process_end_auction-Agrees e db h ks later s shut on off =
    elim (Bool-cases (ltb e.now db.auction.end_at_ms)) [
      | inl early ↦ absurd (cc (on, rw (on, early, process_end_auction) at off))
      | inr due ↦
          let checked = check_fence e db.auction (read_hash h) (fenced_keys e ks) in
          let (transition, held) =
            fenced-Held e db checked.0 checked.1 on
              (rw (on, due, s, process_end_auction, fence_auction_for_scheduler) at off)
              (passed-Held e db h ks s shut) in
          let (h', s', p, a) = run-Held db.auction later (after_fence e db checked).1 held in
          rw (on, due, s, process_end_auction, fence_auction_for_scheduler)
            (transition, ground (arith, due), h', s', p, a)
    ]
