-- ===== src/Relay/Live.antt =====
-- Passes of relayAuctionLogBatch in redisengine/engine.go that do not fail relay the whole log.
use live_auction.Common.{
  ℕ, suc, zero, ◌+◌, ◌-◌, ◌*◌, ◌≤◌, min, ◌≡◌, refl, ap, ◌∙◌, inl, inr, true, false, none, List, [],
  ◌∷◌, ◌++◌, length, leb, ◌==◌, update, update_self, Bool-cases, arith,
}
use live_auction.Engine.Data.{LogEntry}
use live_auction.Relay.Data.{
  at_rest, has_cursor, has_read, Relay, produced, RelayOp, get_cursor, read_stream, produce,
  mark_acks, advance,
}
use live_auction.Relay.{
  oldest, entries_above, payloads, batch_after, read_batch, has_mismatch, produce_batch, mark_batch,
  on_get_cursor, on_read_stream, on_produce, on_mark, on_advance, step_relay, run_relay,
}
use live_auction.Relay.Oldest.{length-entries_above, oldest-all}
use live_auction.Relay.Prefix.{arrived}
use live_auction.Relay.Fits.{IsRelayed, mark_each-same}
use live_auction.Relay.Ledger.{run_relay-IsRelayed}

-- A pass without a failure, at this time.
abbrev pub pass_ops : ℕ → ℕ → List RelayOp
pass_ops w now =
    get_cursor w
    ∷ read_stream w
    ∷ produce w (produced [])
    ∷ mark_acks w now none
    ∷ advance w true
    ∷ []

abbrev pub passes_ops : ℕ → ℕ → ℕ → List RelayOp
passes_ops zero w now = []
passes_ops (suc k) w now = pass_ops w now ++ passes_ops k w now

length-oldest_cut : (k : ℕ) (es : List LogEntry) → length (oldest k es) ≡ min k (length es)
length-oldest_cut k [] = omega arith
length-oldest_cut k (e ∷ es) = ground (arith, length-oldest_cut k es)

oldest-matching :
    (a k : ℕ) (es : List LogEntry)
    → has_mismatch a es ≡ false
    → has_mismatch a (oldest k es) ≡ false
oldest-matching a k [] h = refl
oldest-matching a k (e ∷ es) h = elim (Bool-cases (leb (suc (length es)) k)) [
  | inl y ↦ rw y h
  | inr n ↦ rw n (oldest-matching a k es (ground (arith, h)))
]

entries_above-matching :
    (a c : ℕ) (es : List LogEntry)
    → has_mismatch a es ≡ false
    → has_mismatch a (entries_above c es) ≡ false
entries_above-matching a c [] h = refl
entries_above-matching a c (e ∷ es) h = elim (Bool-cases (leb (suc (length es)) c)) [
  | inl y ↦ rw y refl
  | inr n ↦ rw n (ground (arith, h, entries_above-matching a c es (ground (arith, h))))
]

-- Where a pass without a failure leads: the log stays, the worker is at rest again, and the cursor has moved by a
-- batch or stands at the end of the log.
record Passed (w : ℕ) (s s' : Relay) : Type 0 where
  pub log : s'.keys.log ≡ s.keys.log
  pub auction : s'.auction_id ≡ s.auction_id
  pub rest : s'.pass w ≡ at_rest
  pub cursor : min (length s.keys.log) (s.cursor + 512) ≤ s'.cursor

-- The rest of a pass after the batch is read.
after_read :
    (w now c : ℕ) (b : List LogEntry) (s : Relay)
    → s.pass w ≡ read_batch s.auction_id c b
    → has_mismatch s.auction_id b ≡ false
    → c ≡ s.cursor
    → length b ≡ min (c + 512) (length s.keys.log) - c
    → Passed w s
        (run_relay (produce w (produced []) ∷ mark_acks w now none ∷ advance w true ∷ []) s)
unfolding run_relay step_relay on_produce on_mark on_advance produce_batch mark_batch
after_read w now c [] s p ok at len =
    rw (p, on_produce, on_mark, on_advance)
      (rw (p, on_mark, on_advance)
        (rw (p, on_advance)
          (record { log = refl; auction = refl; rest = p; cursor = omega (arith, at, len) })))
after_read w now c (e ∷ es) s p ok at len =
    let self : w == w ≡ true = ground arith in
    let here : s.pass w ≡ has_read (e ∷ es) (c + length (e ∷ es)) = rw ok at p in
    rw here (
      rw self (
        rw self (record {
          log = (mark_each-same now (e ∷ es) s.keys).1;
          auction = refl;
          rest = rw self refl;
          cursor = omega (arith, at, len);
        })))

pass-Passed :
    (w now : ℕ) (s : Relay)
    → s.pass w ≡ at_rest
    → has_mismatch s.auction_id s.keys.log ≡ false
    → Passed w s (run_relay (pass_ops w now) s)
unfolding run_relay step_relay on_get_cursor on_read_stream
pass-Passed w now s rest ok =
    let self : w == w ≡ true = ground arith in
    let b : List LogEntry = batch_after s.cursor s.keys.log in
    let read : Relay = record s {
      pass = update (update s.pass w (has_cursor s.cursor)) w (read_batch s.auction_id s.cursor b);
    } in
    let q =
      after_read w now s.cursor b read (update_self (update s.pass w (has_cursor s.cursor)) w _)
        (entries_above-matching s.auction_id s.cursor _
          (oldest-matching s.auction_id (s.cursor + 512) s.keys.log ok))
        refl
        (length-entries_above s.cursor (oldest (s.cursor + 512) s.keys.log)
          ∙ ap (λ n. n - s.cursor) (length-oldest_cut (s.cursor + 512) s.keys.log)) in
    rw rest
      (rw self (record { log = q.log; auction = q.auction; rest = q.rest; cursor = q.cursor }))

run_relay-append :
    (os ps : List RelayOp) (s : Relay) → run_relay (os ++ ps) s ≡ run_relay ps (run_relay os s)
unfolding run_relay
run_relay-append [] ps s = refl
run_relay-append (o ∷ os) ps s = run_relay-append os ps (step_relay o s)

passes-cursor :
    (k w now : ℕ) (s : Relay)
    → s.pass w ≡ at_rest
    → has_mismatch s.auction_id s.keys.log ≡ false
    → ((run_relay (passes_ops k w now) s).keys.log ≡ s.keys.log)
      × (min (length s.keys.log) (s.cursor + 512 * k) ≤ (run_relay (passes_ops k w now) s).cursor)
unfolding run_relay
passes-cursor zero w now s rest ok = (refl, omega arith)
passes-cursor (suc k) w now s rest ok =
    let p = pass-Passed w now s rest ok in
    let next = run_relay (pass_ops w now) s in
    let (log, cursor) = passes-cursor k w now next p.rest (rw (p.log, p.auction) ok) in
    rw (run_relay-append (pass_ops w now) (passes_ops k w now) s)
      (log ∙ p.log, omega (arith, cursor, p.cursor, ap length p.log))

-- One worker relays the whole log: from any state that a run can reach, with the worker at rest and the entries
-- of the log for the auction, as many passes without a failure as there are batches of 512 behind the cursor leave
-- every decision of the log in Kafka, each taken where it has the next number.
pub passes-arrived :
    (base n k w now : ℕ) (s : Relay)
    → IsRelayed base n s
    → s.pass w ≡ at_rest
    → has_mismatch s.auction_id s.keys.log ≡ false
    → length s.keys.log ≤ s.cursor + 512 * k
    → arrived base (run_relay (passes_ops k w now) s).kafka ≡ payloads s.keys.log
passes-arrived base n k w now s v rest ok enough =
    let (m, up, v') = run_relay-IsRelayed base n (passes_ops k w now) s v in
    let (log, cursor) = passes-cursor k w now s rest ok in
    let all : m ≡ length s.keys.log =
      omega (arith, cursor, v'.cursor, v'.ledger.bound, ap length log, enough) in
    v'.ledger.same
    ∙ ap payloads (ap (oldest m) log ∙ ap (λ x. oldest x s.keys.log) all ∙ oldest-all s.keys.log)
