-- ===== src/Relay/Commands.antt =====
-- One command of relayAuctionLogBatch in redisengine/engine.go: Kafka has at least as many decisions after it.
use live_auction.Common.{
  ℕ, ◌+◌, ◌≤◌, ◌≡◌, refl, sym, ap, ◌∙◌, subst, inl, Bool, true, false, Option, none, some, List, [],
  ◌∷◌, length, update, if◌then◌else◌, arith,
}
use live_auction.Engine.Data.{EngineResult, LogEntry}
use live_auction.Relay.Data.{
  Pass, at_rest, has_cursor, has_read, has_produced, has_marked, Relay, Produced, produced,
  produce_failed, produce_cancelled,
}
use live_auction.Relay.{
  oldest, entries_above, payloads, write_parts, batch_after, read_batch, has_mismatch, mark_each,
  produce_batch, mark_batch, on_get_cursor, on_read_stream, on_produce, on_mark, on_advance,
}
use live_auction.Relay.Oldest.{oldest-length, length-oldest_le, length-entries_above}
use live_auction.Relay.Prefix.{HasOldest}
use live_auction.Relay.Requests.{write_parts-HasOldest, write_acked-HasOldest}
use live_auction.Relay.Fits.{PassFits, IsRelayed, PassFits-grow, passes-update, mark_each-same}

-- The next state has arrived at least as far.
abbrev pub Onward : ℕ → ℕ → Relay → Type 0
Onward base n s = (m : ℕ) × (n ≤ m) × IsRelayed base m s

-- A pass is elsewhere, and nothing else changes.
pub pass-Onward :
    (base n w : ℕ) (p : Pass) (s : Relay)
    → IsRelayed base n s
    → PassFits n s.keys.log p
    → Onward base n (record s { pass = update s.pass w p })
pass-Onward base n w p s v f = (
  n,
  omega arith,
  record {
    counted = v.counted;
    ledger = v.ledger;
    cursor = v.cursor;
    passes = passes-update n s.keys.log s.pass w p v.passes f;
  },
)

batch-PassFits :
    (base n c : ℕ) (auction : ℕ) (log : List LogEntry) (kafka : List EngineResult)
    → HasOldest base n log kafka
    → c ≤ n
    → PassFits n log (read_batch auction c (batch_after c log))
batch-PassFits base n c auction log kafka v le = go (batch_after c log) refl
  where
    t : ℕ
    t = length (oldest (c + 512) log)

    fits :
        (b : Bool) (e : LogEntry) (es : List LogEntry)
        → e ∷ es ≡ batch_after c log
        → PassFits n log (if b then at_rest else has_read (e ∷ es) (c + length (e ∷ es)))
    fits true e es same = tt
    fits false e es same = (
      c,
      t,
      le,
      length-oldest_le (c + 512) log,
      same ∙ ap (entries_above c) (sym (oldest-length (c + 512) log)),
      omega (arith, le, ap length same, length-entries_above c (oldest (c + 512) log)),
    )

    go : (b : List LogEntry) → b ≡ batch_after c log → PassFits n log (read_batch auction c b)
    go [] same = tt
    go (e ∷ es) same = fits (has_mismatch auction (e ∷ es)) e es same

pub on_get_cursor-Onward :
    (base n w : ℕ) (p : Pass) (s : Relay) → IsRelayed base n s → Onward base n (on_get_cursor w p s)
unfolding on_get_cursor
on_get_cursor-Onward base n w at_rest s v = pass-Onward base n w (has_cursor s.cursor) s v v.cursor
on_get_cursor-Onward base n w (has_cursor c) s v = (n, omega arith, v)
on_get_cursor-Onward base n w (has_read b l) s v = (n, omega arith, v)
on_get_cursor-Onward base n w (has_produced b l) s v = (n, omega arith, v)
on_get_cursor-Onward base n w (has_marked l) s v = (n, omega arith, v)

pub on_read_stream-Onward :
    (base n w : ℕ) (p : Pass) (s : Relay)
    → IsRelayed base n s
    → PassFits n s.keys.log p
    → Onward base n (on_read_stream w p s)
unfolding on_read_stream
on_read_stream-Onward base n w (has_cursor c) s v f =
    pass-Onward base n w _ s v (batch-PassFits base n c s.auction_id s.keys.log s.kafka v.ledger f)
on_read_stream-Onward base n w at_rest s v f = (n, omega arith, v)
on_read_stream-Onward base n w (has_read b l) s v f = (n, omega arith, v)
on_read_stream-Onward base n w (has_produced b l) s v f = (n, omega arith, v)
on_read_stream-Onward base n w (has_marked l) s v f = (n, omega arith, v)

-- More has arrived in Kafka, and a pass goes on.
arrived-IsRelayed :
    (base n m w : ℕ) (p : Pass) (s s' : Relay)
    → IsRelayed base n s
    → n ≤ m
    → (s'.keys ≡ s.keys) × (s'.cursor ≡ s.cursor) × (s'.pass ≡ update s.pass w p)
    → HasOldest base m s.keys.log s'.kafka
    → PassFits m s.keys.log p
    → IsRelayed base m s'
arrived-IsRelayed base n m w p s s' v up (keys, cursor, pass) has f = record {
  counted = rw keys v.counted;
  ledger = rw keys has;
  cursor = rw cursor (omega (arith, v.cursor, up));
  passes =
      rw (keys, pass)
        (passes-update m s.keys.log s.pass w p
          (λ u. PassFits-grow n m s.keys.log s.keys.log (s.pass u) up (inl refl) (v.passes u)) f);
}

produce_batch-Onward :
    (base n w : ℕ) (r : Produced) (batch : List LogEntry) (last : ℕ) (s : Relay)
    → IsRelayed base n s
    → PassFits n s.keys.log (has_read batch last)
    → Onward base n (produce_batch w r batch last s)
unfolding produce_batch
produce_batch-Onward base n w r batch last s v (c, t, le, fits, same, l) =
    subst (λ b. Onward base n (produce_batch w r b last s)) (sym same) (go r)
  where
    whole : List EngineResult
    whole = payloads (entries_above c (oldest t s.keys.log))

    parts :
        (ks : List (ℕ × ℕ))
        → (m : ℕ) × (n ≤ m) × HasOldest base m s.keys.log (write_parts ks whole s.kafka)
    parts ks =
        write_parts-HasOldest base n c t ks s.keys.log s.kafka v.counted.numbered v.ledger fits

    go :
        (r : Produced)
        → Onward base n (produce_batch w r (entries_above c (oldest t s.keys.log)) last s)
    go (produced ks) =
        let (m, up, all, has) =
          write_acked-HasOldest base n c t ks s.keys.log s.kafka v.counted.numbered v.ledger
            (omega (arith, le)) fits in
        (
          m,
          up,
          arrived-IsRelayed base n m w _ s _ v up (refl, refl, refl) has
              (omega (arith, l, up, all)),
        )
    go (produce_failed ks) =
        let (m, up, has) = parts ks in
        (m, up, arrived-IsRelayed base n m w at_rest s _ v up (refl, refl, refl) has tt)
    go (produce_cancelled ks) =
        let (m, up, has) = parts ks in
        (m, up, arrived-IsRelayed base n m w at_rest s _ v up (refl, refl, refl) has tt)

pub on_produce-Onward :
    (base n w : ℕ) (r : Produced) (p : Pass) (s : Relay)
    → IsRelayed base n s
    → PassFits n s.keys.log p
    → Onward base n (on_produce w r p s)
unfolding on_produce
on_produce-Onward base n w r (has_read b l) s v f = produce_batch-Onward base n w r b l s v f
on_produce-Onward base n w r at_rest s v f = (n, omega arith, v)
on_produce-Onward base n w r (has_cursor c) s v f = (n, omega arith, v)
on_produce-Onward base n w r (has_produced b l) s v f = (n, omega arith, v)
on_produce-Onward base n w r (has_marked l) s v f = (n, omega arith, v)

-- The marks leave the hash and the log.
marked-Onward :
    (base n w last now : ℕ) (b : List LogEntry) (s s' : Relay)
    → IsRelayed base n s
    → last ≤ n
    → (s'.keys ≡ mark_each now b s.keys)
      × (s'.kafka ≡ s.kafka)
      × (s'.cursor ≡ s.cursor)
      × (s'.pass ≡ update s.pass w (has_marked last))
    → Onward base n s'
marked-Onward base n w last now b s s' v le (keys, kafka, cursor, pass) =
    let (state, log) = mark_each-same now b s.keys in
    let (h, here, count) = v.counted.hash in
    (
      n,
      omega arith,
      record {
        counted = rw keys (record {
          hash = (h, state ∙ here, rw log count);
          numbered = rw log v.counted.numbered;
        });
        ledger = rw (keys, log, kafka) v.ledger;
        cursor = rw cursor v.cursor;
        passes = rw (keys, log, pass) (passes-update n s.keys.log s.pass w _ v.passes le);
      },
    )

pub on_mark-Onward :
    (base n w now : ℕ) (k : Option ℕ) (p : Pass) (s : Relay)
    → IsRelayed base n s
    → PassFits n s.keys.log p
    → Onward base n (on_mark w now k p s)
unfolding on_mark mark_batch
on_mark-Onward base n w now none (has_produced b l) s v f =
    marked-Onward base n w l now b s _ v f (refl, refl, refl, refl)
on_mark-Onward base n w now (some k) (has_produced b l) s v f =
    marked-Onward base n w l now (oldest k b) s _ v f (refl, refl, refl, refl)
on_mark-Onward base n w now k at_rest s v f = (n, omega arith, v)
on_mark-Onward base n w now k (has_cursor c) s v f = (n, omega arith, v)
on_mark-Onward base n w now k (has_read b l) s v f = (n, omega arith, v)
on_mark-Onward base n w now k (has_marked l) s v f = (n, omega arith, v)

pub on_advance-Onward :
    (base n w : ℕ) (ok : Bool) (p : Pass) (s : Relay)
    → IsRelayed base n s
    → PassFits n s.keys.log p
    → Onward base n (on_advance w ok p s)
unfolding on_advance
on_advance-Onward base n w ok (has_marked l) s v f =
    pass-Onward base n w at_rest (record s { cursor = if ok then l else s.cursor })
      (record {
        counted = v.counted;
        ledger = v.ledger;
        cursor = ground (arith, f, v.cursor);
        passes = v.passes;
      })
      tt
on_advance-Onward base n w ok at_rest s v f = (n, omega arith, v)
on_advance-Onward base n w ok (has_cursor c) s v f = (n, omega arith, v)
on_advance-Onward base n w ok (has_read b l) s v f = (n, omega arith, v)
on_advance-Onward base n w ok (has_produced b l) s v f = (n, omega arith, v)
