-- ===== src/Proxy/Resolve.antt =====
-- `resolveHotMaxBids` of redisengine/engine.go: proxy bids answer an accepted bid, one round after
-- the other, through the bid script. What others do meanwhile is a part of each round.
use Prim.Native.String.{String}
use live_auction.Common.{
  ℕ, zero, suc, Bool, true, false, ◌&&◌, ◌||◌, not, Option, none, some, List, is_none,
  if◌then◌else◌,
}
use live_auction.Engine.Data.{
  ResultCode, engine_accepted, engine_sold, auto_max_bid, append_failed, AppendStatus,
  engine_paused, StateHash, EngineResult, IdemHash, Keyspace, BidArgs, Reply, replay, ok, error,
}
use live_auction.Engine.State.{is_active, Live, read_hash}
use live_auction.Engine.Place.{replay_of, place}
use live_auction.Engine.Run.{Op, run}
use live_auction.Proxy.{HotProxyIntent, choose_step}
use live_auction.Proxy.Intents.{
  IntentRow, load_hot_proxy_intents, mark_exhausted_each, mark_hot_proxy_intent_applied,
  mark_hot_proxy_intents_terminal, is_active_intent,
}

-- The reasons for which the resolver pauses the engine.
pub data ProxyPause : Type 0 where
  redis_idempotency_replay_failed : ProxyPause
  redis_proxy_resolver_bounded_iteration_exceeded : ProxyPause

-- The keys and rows of one auction; `pause` is `engine_pause_reason` where the resolver has set it.
pub record Hot : Type 0 where
  pub ks : Keyspace
  pub intents : List IntentRow
  pub pause : Option ProxyPause

-- What stays the same over the rounds. `auto_id` is the text "auto:<intent>:<trigger>:<seq>", and
-- `request_hash` the hash of user, client bid id and amount.
pub record Env : Type 0 where
  pub auction_id : ℕ
  pub trace_id : ℕ
  pub auto_id : ℕ → ℕ → ℕ → ℕ
  pub request_hash : ℕ → ℕ → ℕ → ℕ

-- What a round meets: the clock, the new bid id, the calls of others before the state is read and
-- before the bid is placed, and whether the advisory lock of the intent is free.
pub record Round : Type 0 where
  pub now_ms : ℕ
  pub bid_id : ℕ
  pub before : List Op
  pub between : List Op
  pub is_free : Bool

abbrev engine_state_ttl_ms : ℕ
engine_state_ttl_ms = 86400000

abbrev idempotency_ttl_ms : ℕ
idempotency_ttl_ms = 86400000

-- The arguments of the bid script for an automatic bid: without ACL key and without snapshot.
unfoldable pub auto_args : Env → Round → HotProxyIntent → ℕ → ℕ → ℕ → BidArgs
auto_args e r i amount trigger seq = record {
  call = record {
    now_ms = r.now_ms;
    auction_id = e.auction_id;
    user_id = i.user_id;
    client_bid_id = e.auto_id i.id trigger seq;
    amount = amount;
    request_hash = e.request_hash i.user_id (e.auto_id i.id trigger seq) amount;
    trace_id = e.trace_id;
    bid_id = r.bid_id;
    state_ttl_ms = engine_state_ttl_ms;
    idem_ttl_ms = idempotency_ttl_ms;
  };
  state_json = none;
  bid_source = auto_max_bid;
  has_acl = false;
}

abbrev pub is_taken : ResultCode → Bool
is_taken engine_accepted = true
is_taken engine_sold = true
is_taken _ = false

abbrev pub is_sold : ResultCode → Bool
is_sold engine_sold = true
is_sold _ = false

abbrev has_failed : Option AppendStatus → Bool
has_failed (some append_failed) = true
has_failed _ = false

abbrev taken_result : EngineResult → Option EngineResult
taken_result result = if is_taken result.code then some result else none

-- The result of an automatic bid that counts for the resolver; an error is `none`.
unfoldable pub auto_result : IdemHash → Reply → Option EngineResult
auto_result record_of (replay result) =
    if has_failed record_of.kafka_append_status then none else taken_result result
auto_result record_of (ok result) = taken_result result
auto_result record_of (error _ _) = none

abbrev is_broken : Option Reply → Bool
is_broken (some (error engine_paused _)) = true
is_broken _ = false

-- `setRedisPauseFieldsIfComplete` on the hash.
unfoldable pub pause_hash : String → StateHash → StateHash
pause_hash reason h =
    if is_none h.engine_seq then h else record h { paused = some true; pause_reason = some reason }

abbrev reason_text : ProxyPause → String
reason_text redis_idempotency_replay_failed = "REDIS_IDEMPOTENCY_REPLAY_FAILED"
reason_text redis_proxy_resolver_bounded_iteration_exceeded =
    "REDIS_PROXY_RESOLVER_BOUNDED_ITERATION_EXCEEDED"

-- `pause`, where the transaction commits.
unfoldable pub pause_hot : ProxyPause → Hot → Hot
unfolding pause_hash
pause_hot reason w = record w {
  pause = some reason;
  ks = record w.ks {
    state = elim w.ks.state [ none ↦ none | some h ↦ some (pause_hash (reason_text reason) h) ];
  };
}

-- `placeBidWithSource` for an automatic bid on a hash that is there. A replay record without a
-- result pauses the engine.
unfoldable pub place_auto : BidArgs → Hot → Option EngineResult × Hot
unfolding auto_result pause_hot
place_auto a w =
    let (reply, ks) = place a w.ks in
    (
      auto_result (ks.idem a.client_bid_id) reply,
      if is_broken (replay_of (w.ks.idem a.client_bid_id) a.request_hash)
          then pause_hot redis_idempotency_replay_failed (record w { ks = ks })
          else record w { ks = ks },
    )

-- How a round ends: the resolver returns, continues without a bid, or has placed one.
pub data Turn : Type 0 where
  stop : Hot → Turn
  skip : Hot → Turn
  placed : EngineResult → Hot → Turn

unfoldable pub after_bid : HotProxyIntent → Option EngineResult → Hot → Turn
after_bid i none w = stop w
after_bid i (some result) w =
    let applied = mark_hot_proxy_intent_applied i.id result.engine_seq w.intents in
    placed result (record w {
      intents = if is_sold result.code then mark_hot_proxy_intents_terminal applied else applied;
    })

-- A round from the chosen step on.
unfoldable pub take_step : Env → Round → ℕ → Live → Option (HotProxyIntent × ℕ) → Hot → Turn
unfolding auto_args place_auto after_bid
take_step e r trigger s none w = stop w
take_step e r trigger s (some (i, amount)) w =
    if r.is_free && is_active_intent i w.intents
    then (let (result, w') =
          place_auto (auto_args e r i amount trigger s.engine_seq)
            (record w { ks = run r.between w.ks }) in
        after_bid i result w')
    else skip w

unfoldable pub round_on : Env → Round → ℕ → Live → Hot → Turn
unfolding take_step
round_on e r trigger s w =
    if not (is_active s.status) || s.paused
    then stop w
    else let c = choose_step s (load_hot_proxy_intents w.intents) in
      take_step e r trigger s c.step
        (record w { intents = mark_exhausted_each r.now_ms c.exhausted w.intents })

unfoldable pub resolve_round : Env → Round → ℕ → Hot → Turn
unfolding round_on
resolve_round e r trigger w =
    let ks = run r.before w.ks in
    elim ks.state [
      | none ↦ stop (record w { ks = ks })
      | some h ↦ round_on e r trigger (read_hash h) (record w { ks = ks })
    ]

-- The last bid that was applied, and what is left.
pub record Resolved : Type 0 where
  pub last : Option EngineResult
  pub hot : Hot

unfoldable pub resolve_each : Env → (ℕ → Round) → ℕ → ℕ → ℕ → Option EngineResult → Hot → Resolved
unfolding resolve_round
resolve_each e rounds zero k trigger last w = record {
  last = last;
  hot = pause_hot redis_proxy_resolver_bounded_iteration_exceeded w;
}
resolve_each e rounds (suc n) k trigger last w = elim (resolve_round e (rounds k) trigger w) [
  | stop w' ↦ record { last = last; hot = w' }
  | skip w' ↦ resolve_each e rounds n (suc k) trigger last w'
  | placed result w' ↦ resolve_each e rounds n (suc k) result.engine_seq (some result) w'
]

-- At most 100 rounds; `trigger` is the number of the decision that is answered.
unfoldable pub resolve_hot_max_bids : Env → (ℕ → Round) → ℕ → Hot → Resolved
unfolding resolve_each
resolve_hot_max_bids e rounds trigger w = resolve_each e rounds 100 0 trigger none w
