-- ===== src/Proxy/Tests/Resolver.antt =====
-- `resolveHotMaxBids` of redisengine/engine.go at the small auction with three proxies.
use mathlib.Core.Option
use live_auction.Common.{
  ℕ, ◌+◌, ◌%◌, ◌-◌, ◌≤◌, ◌≡◌, refl, true, false, Option, none, some, List, [], ◌∷◌, All, arith,
}
use live_auction.Engine.Data.{active, StateHash}
use live_auction.Engine.State.{read_hash, seed_hash, is_incomplete}
use live_auction.Engine.Store.{base_price}
use live_auction.Engine.Place.{place}
use live_auction.Engine.Run.{run}
use live_auction.Engine.Rebuild.{scan_row}
use live_auction.Engine.Tests.{a_hash, fresh}
use live_auction.Proxy.{HotProxyIntent, wins, choose_step}
use live_auction.Proxy.Intents.{
  intent_active, IntentRow, active_only, ranked, load_hot_proxy_intents, mark_exhausted_each,
  mark_hot_proxy_intent_applied, is_active_intent,
}
use live_auction.Proxy.Resolve.{
  redis_proxy_resolver_bounded_iteration_exceeded, Hot, Env, Round, resolve_hot_max_bids,
}
use live_auction.Proxy.Ranked.{IsKeyed}
use live_auction.Proxy.Chosen.{Fits, next_price}
use live_auction.Proxy.Auto.{EndsInSeq, IsReady}
use live_auction.Proxy.Ending.{Ends}
use live_auction.Proxy.Settled.{resolve_hot_max_bids-Ends}
use live_auction.Proxy.Busy.{resolve_hot_max_bids-busy}
use live_auction.Proxy.Tests.{of_6, of_7, of_8}

-- The three proxies on the auction where nobody has bid yet.
abbrev row_of : HotProxyIntent → IntentRow
row_of i = record {
  intent = i;
  status = intent_active;
  exhausted_at = none;
  last_applied_seq = none;
  version = 0;
}

abbrev three_rows : List IntentRow
three_rows = row_of of_6 ∷ row_of of_8 ∷ row_of of_7 ∷ []

abbrev opened : Hot
opened = record { ks = fresh; intents = three_rows; pause = none }

-- User 9 has opened the bidding at 15.00.
abbrev challenged_hash : StateHash
challenged_hash = record a_hash {
  current_price_cents = some 1500;
  current_winner_id = some (some 9);
  accepted_bid_count = some 1;
  engine_seq = some 1;
}

abbrev challenged : Hot
challenged = record opened { ks = record fresh { state = some challenged_hash } }

abbrev an_env : Env
an_env = record {
  auction_id = 1;
  trace_id = 3;
  auto_id = λ i t n. n + 1000;
  request_hash = λ u c a. u + a;
}

abbrev free_round : Round
free_round = record { now_ms = 100; bid_id = 40; before = []; between = []; is_free = true }

-- User 8 challenges at 20.00 and answers user 7 at 35.00.
two_bids :
    Option.map {B = Option ℕ × Option (Option ℕ) × Option ℕ}
      (λ (h : StateHash). (h.current_price_cents, h.current_winner_id, h.engine_seq))
      (resolve_hot_max_bids an_env (λ k. free_round) 1 challenged).hot.ks.state
    ≡ some (some 3500, some (some 8), some 3)
unfolding resolve_hot_max_bids place run read_hash seed_hash scan_row choose_step base_price
    load_hot_proxy_intents mark_exhausted_each mark_hot_proxy_intent_applied is_active_intent
two_bids = refl

ends_in_seq : EndsInSeq an_env
ends_in_seq i t n j u m e = omega (arith, e)

ready : IsReady an_env challenged.ks challenged_hash
unfolding read_hash is_incomplete seed_hash scan_row
ready = record {
  there = refl;
  complete = refl;
  running = refl;
  fast = refl;
  steps = omega arith;
  unused = λ i t n le. refl;
}

keyed : IsKeyed (active_only three_rows)
unfolding active_only
keyed = ground arith

fitting :
    (i : HotProxyIntent)
    → (i.max_amount_cents - 1500) % 500 ≡ 0
    → i.max_amount_cents ≤ 10000
    → Fits (read_hash challenged_hash) i
unfolding read_hash base_price seed_hash scan_row
fitting i g c = record { aligned = λ le. g; under_cap = λ p. c }

three_fit : All (Fits (read_hash challenged_hash)) (active_only three_rows)
unfolding active_only
three_fit = (
  fitting of_6 refl (omega arith),
  (fitting of_8 refl (omega arith), (fitting of_7 refl (omega arith), tt)),
)

live : (read_hash challenged_hash).status ≡ active
unfolding read_hash seed_hash scan_row
live = refl

in_time : (k : ℕ) → 100 ≤ (read_hash challenged_hash).end_at_ms
unfolding read_hash seed_hash scan_row
in_time k = omega arith

resolve_hot_max_bids-Ends_example :
    Ends
      (ranked (active_only three_rows))
      2
      (read_hash challenged_hash)
      challenged
      (resolve_hot_max_bids an_env (λ k. free_round) 1 challenged)
resolve_hot_max_bids-Ends_example =
    resolve_hot_max_bids-Ends an_env (λ k. free_round) ends_in_seq
      (λ k. record { before = refl; between = refl; free = refl }) 1 challenged challenged_hash
      ready live in_time keyed three_fit

abbrev busy_round : Round
busy_round = record free_round { is_free = false }

in_order : ranked (active_only three_rows) ≡ of_8 ∷ of_7 ∷ of_6 ∷ []
unfolding ranked active_only
in_order = refl

of_8_follows : wins (read_hash challenged_hash).current_winner of_8 ≡ false
unfolding read_hash
of_8_follows = refl

of_8_can_pay : next_price (read_hash challenged_hash) ≤ of_8.max_amount_cents
unfolding read_hash base_price seed_hash scan_row
of_8_can_pay = omega arith

resolve_hot_max_bids-busy_example :
    let r = resolve_hot_max_bids an_env (λ k. busy_round) 1 challenged in
    (r.last ≡ none)
    × (r.hot.pause ≡ some redis_proxy_resolver_bounded_iteration_exceeded)
    × ((h' : StateHash) × (r.hot.ks.state ≡ some h')
        × ((read_hash h').paused ≡ true)
        × ((read_hash h').current_price ≡ (read_hash challenged_hash).current_price))
resolve_hot_max_bids-busy_example =
    resolve_hot_max_bids-busy an_env challenged challenged_hash of_8 (of_7 ∷ of_6 ∷ []) ready live
      in_order keyed of_8_follows of_8_can_pay (λ k. busy_round)
      (λ k. record { before = refl; held = refl }) 1
