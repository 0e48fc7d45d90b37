-- ===== src/Proxy/Auto.antt =====
-- An automatic bid of redisengine/engine.go that the resolver places on a live auction.
use live_auction.Common.{
  ℕ, suc, ◌-◌, ◌%◌, ◌≤◌, ◌<◌, ◌≡◌, refl, Bool, true, false, none, some, ◌⊎◌, update_ne, arith,
}
use live_auction.Engine.Data.{
  active, sold, auto_max_bid, EngineResult, StateHash, Keyspace, Call, BidArgs,
}
use live_auction.Engine.State.{Live, read_hash, is_incomplete, is_empty}
use live_auction.Engine.Store.{
  base_price, outcome, accepted_result, accepted_hash, store_decision, idem_record,
}
use live_auction.Engine.Place.{
  take, replay_of, place_verdict, amount_verdict, place_basis, accept_bid, decide_bid, place_on,
  place,
}
use live_auction.Engine.Effect.{place_new-eq-place_on}
use live_auction.Proxy.{HotProxyIntent}
use live_auction.Proxy.Chosen.{next_price}
use live_auction.Proxy.Resolve.{Hot, Env, Round, auto_args, place_auto, is_taken, is_sold}

-- The text of an automatic client bid id ends with the number of the decision before it.
abbrev pub EndsInSeq : Env → Type 0
EndsInSeq e = (i t n j u m : ℕ) → e.auto_id i t n ≡ e.auto_id j u m → n ≡ m

-- The engine runs on a complete hash, and no automatic bid after the current number is recorded.
pub record IsReady (e : Env) (ks : Keyspace) (h : StateHash) : Type 0 where
  pub there : ks.state ≡ some h
  pub complete : is_incomplete h ≡ false
  pub running : (read_hash h).paused ≡ false
  pub fast : is_empty (read_hash h).requires_postgres ≡ true
  pub steps : 0 < (read_hash h).increment
  pub unused :
      (i t n : ℕ) → (read_hash h).engine_seq ≤ n → (ks.idem (e.auto_id i t n)).request_hash ≡ none

-- An amount that the bid script takes.
pub record IsGood (s : Live) (amount : ℕ) : Type 0 where
  pub enough : next_price s ≤ amount
  pub on_grid : (amount - base_price s) % s.increment ≡ 0
  pub under_cap : 0 < s.cap → amount ≤ s.cap

-- The state after an automatic bid.
pub record Bids (s s' : Live) (user amount : ℕ) : Type 0 where
  pub price : base_price s' ≡ amount
  pub winner : s'.current_winner ≡ some user
  pub increment : s'.increment ≡ s.increment
  pub cap : s'.cap ≡ s.cap
  pub end : s'.end_at_ms ≡ s.end_at_ms
  pub seq : s'.engine_seq ≡ suc s.engine_seq
  pub status : (s'.status ≡ active) ⊎ (s'.status ≡ sold)

auto_verdict :
    (e : Env) (r : Round) (i : HotProxyIntent) (amount t : ℕ) (s : Live) (member : Bool)
    → s.status ≡ active
    → s.paused ≡ false
    → is_empty s.requires_postgres ≡ true
    → 0 < s.increment
    → r.now_ms ≤ s.end_at_ms
    → IsGood s amount
    → place_verdict s (auto_args e r i amount t s.engine_seq) member ≡ take
unfolding place_verdict amount_verdict auto_args
auto_verdict e r i amount t s member a p f pos time g =
    ground (arith, a, p, f, pos, time, g.enough, g.on_grid, g.under_cap)

fresh-place :
    (a : BidArgs) (h : StateHash) (ks : Keyspace)
    → ks.state ≡ some h
    → is_incomplete h ≡ false
    → (ks.idem a.client_bid_id).request_hash ≡ none
    → place_verdict (read_hash h) a (ks.members a.user_id) ≡ take
    → place a ks ≡ accept_bid a h (read_hash h) ks
unfolding place
fresh-place a h ks there complete unused v =
    let new : replay_of (ks.idem a.client_bid_id) a.request_hash ≡ none =
      unfold replay_of in rw (unused, replay_of) refl in
    rw (new, place)
      (rw (place_new-eq-place_on a h ks there)
        (unfold place_on decide_bid in rw (complete, place_on) (rw v refl)))

outcome-status :
    (c : Call) (s : Live)
    → ((outcome c s false).status ≡ active) ⊎ ((outcome c s false).status ≡ sold)
unfolding outcome
outcome-status c s = ground arith

accepted-Bids :
    (c : Call) (h : StateHash)
    → Bids
        (read_hash h)
        (read_hash (accepted_hash c h (read_hash h) (outcome c (read_hash h) false)))
        c.user_id
        c.amount
unfolding read_hash accepted_hash base_price outcome
accepted-Bids c h = record {
  price = ground arith;
  winner = refl;
  increment = refl;
  cap = refl;
  end = ground arith;
  seq = refl;
  status = outcome-status c (read_hash h);
}

accepted_complete :
    (c : Call) (h : StateHash) (s : Live)
    → is_incomplete h ≡ false
    → is_incomplete (accepted_hash c h s (outcome c s false)) ≡ false
unfolding is_incomplete accepted_hash outcome
accepted_complete c h s v = ground (arith, v)

-- What an automatic bid that is taken leaves.
pub record Took (e : Env) (a : BidArgs) (user amount : ℕ) (w : Hot) (h : StateHash) : Type 0 where
  pub result : EngineResult
  pub after : Hot
  pub hash : StateHash
  pub answers : place_auto a w ≡ (some result, after)
  pub ready : IsReady e after.ks hash
  pub bids : Bids (read_hash h) (read_hash hash) user amount
  pub rows : after.intents ≡ w.intents
  pub pause : after.pause ≡ w.pause
  pub sells : is_sold result.code ≡ true → (read_hash hash).status ≡ sold

outcome-is_taken : (c : Call) (s : Live) → is_taken (outcome c s false).code ≡ true
unfolding outcome
outcome-is_taken c s = ground arith

outcome-sells :
    (c : Call) (s : Live)
    → is_sold (outcome c s false).code ≡ true
    → (outcome c s false).status ≡ sold
unfolding outcome
outcome-sells c s h = ground arith

-- The result and the keys of an automatic bid that is taken.
abbrev auto_accepted : BidArgs → StateHash → EngineResult
auto_accepted a h =
    accepted_result a.call (read_hash h) (outcome a.call (read_hash h) false) (some auto_max_bid)
      (some (place_basis (read_hash h)))

abbrev auto_hash : BidArgs → StateHash → StateHash
auto_hash a h = accepted_hash a.call h (read_hash h) (outcome a.call (read_hash h) false)

abbrev auto_keys : BidArgs → StateHash → Keyspace → Keyspace
auto_keys a h ks =
    store_decision a.call (auto_accepted a h)
      (record ks { state = some (auto_hash a h); state_ttl_ms = a.state_ttl_ms })

module _ (e : Env) (r : Round) (i : HotProxyIntent) (amount t : ℕ) where
  abbrev args : StateHash → BidArgs
  args h = auto_args e r i amount t (read_hash h).engine_seq

  auto_answer :
      (h : StateHash) (w : Hot)
      → place (args h) w.ks ≡ accept_bid (args h) h (read_hash h) w.ks
      → replay_of (w.ks.idem (args h).client_bid_id) (args h).request_hash ≡ none
      → place_auto (args h) w
        ≡ (some (auto_accepted (args h) h), record w { ks = auto_keys (args h) h w.ks })
  unfolding place_auto accept_bid auto_args accepted_result
  auto_answer h w p new = rw p (rw new (rw (outcome-is_taken (args h).call (read_hash h)) refl))

  auto_ready :
      (h : StateHash) (ks : Keyspace)
      → EndsInSeq e
      → IsReady e ks h
      → IsReady e (auto_keys (args h) h ks) (auto_hash (args h) h)
  unfolding store_decision auto_args
  auto_ready h ks ends v = record {
    there = refl;
    complete = accepted_complete (args h).call h (read_hash h) v.complete;
    running = unfold read_hash accepted_hash in refl;
    fast = unfold read_hash accepted_hash in v.fast;
    steps = unfold read_hash accepted_hash in v.steps;
    unused = λ j u n le.
        let later : suc (read_hash h).engine_seq ≤ n =
          omega (arith, (accepted-Bids (args h).call h).seq, le) in
        let key = e.auto_id i.id t (read_hash h).engine_seq in
        rw
          (update_ne ks.idem key (e.auto_id j u n)
            (idem_record (args h).call (auto_accepted (args h) h))
            (λ q. omega (arith, ends j u n i.id t (read_hash h).engine_seq q, later)))
          (v.unused j u n (omega (arith, later)));
  }

  -- On a live auction, in time and for a good amount, the bid is taken.
  pub place_auto-Took :
      (h : StateHash) (w : Hot)
      → EndsInSeq e
      → IsReady e w.ks h
      → (read_hash h).status ≡ active
      → r.now_ms ≤ (read_hash h).end_at_ms
      → IsGood (read_hash h) amount
      → Took e (args h) i.user_id amount w h
  place_auto-Took h w ends v live time good =
      let unused : (w.ks.idem (args h).client_bid_id).request_hash ≡ none =
        unfold auto_args in v.unused i.id t (read_hash h).engine_seq (omega arith) in
      let verdict =
        auto_verdict e r i amount t (read_hash h) (w.ks.members (args h).user_id) live v.running
          v.fast v.steps time good in
      record {
        result = auto_accepted (args h) h;
        after = record w { ks = auto_keys (args h) h w.ks };
        hash = auto_hash (args h) h;
        answers =
            auto_answer h w (fresh-place (args h) h w.ks v.there v.complete unused verdict)
              (unfold replay_of in rw (unused, replay_of) refl);
        ready = auto_ready h w.ks ends v;
        bids = unfold auto_args in accepted-Bids (args h).call h;
        rows = refl;
        pause = refl;
        sells =
            unfold accepted_result read_hash accepted_hash in
            outcome-sells (args h).call (read_hash h);
      }
