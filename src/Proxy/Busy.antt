-- ===== src/Proxy/Busy.antt =====
-- `resolveHotMaxBids` of redisengine/engine.go while the lock of the intent that it chose is held.
use live_auction.Common.{
  ℕ, zero, suc, ◌≤◌, ◌≡◌, refl, true, false, Option, none, some, List, [], ◌∷◌, ◌∙◌, ap, is_none,
  All-take, take, arith,
}
use live_auction.Engine.Data.{active, EngineResult, StateHash}
use live_auction.Engine.State.{read_hash, is_incomplete}
use live_auction.Engine.Run.{run}
use live_auction.Proxy.{HotProxyIntent, Choice, wins, choose_step}
use live_auction.Proxy.Intents.{active_only, ranked, load_hot_proxy_intents, mark_exhausted_each}
use live_auction.Proxy.Resolve.{
  redis_proxy_resolver_bounded_iteration_exceeded, Hot, Env, Round, skip, pause_hash, pause_hot,
  take_step, round_on, resolve_round, resolve_each, resolve_hot_max_bids,
}
use live_auction.Proxy.Ranked.{Beats, IsKeyed, IsRanked, ranked-IsRanked}
use live_auction.Proxy.Chosen.{next_price, choose_step-head}
use live_auction.Proxy.Auto.{IsReady}

-- Nobody calls the engine before the round, and the lock is held.
pub record IsBusy (r : Round) : Type 0 where
  pub before : r.before ≡ []
  pub held : r.is_free ≡ false

paused_keys :
    (w : Hot) (h : StateHash)
    → w.ks.state ≡ some h
    → (pause_hot redis_proxy_resolver_bounded_iteration_exceeded w).ks.state
      ≡ some (pause_hash "REDIS_PROXY_RESOLVER_BOUNDED_ITERATION_EXCEEDED" h)
unfolding pause_hot
paused_keys w h there = ground (arith, there)

has_seq : (h : StateHash) → is_incomplete h ≡ false → is_none h.engine_seq ≡ false
unfolding is_incomplete
has_seq h c = ground (arith, c)

paused_by :
    (h : StateHash)
    → is_incomplete h ≡ false
    → let h' = pause_hash "REDIS_PROXY_RESOLVER_BOUNDED_ITERATION_EXCEEDED" h in
      ((read_hash h').paused ≡ true) × ((read_hash h').current_price ≡ (read_hash h).current_price)
unfolding pause_hash read_hash
paused_by h c = ground (arith, has_seq h c)

module _ (e : Env) (w : Hot) (h : StateHash) (x : HotProxyIntent) (xs : List HotProxyIntent)
    (v : IsReady e w.ks h) (live : (read_hash h).status ≡ active)
    (q : ranked (active_only w.intents) ≡ x ∷ xs) (d : IsKeyed (active_only w.intents))
    (other : wins (read_hash h).current_winner x ≡ false)
    (high : next_price (read_hash h) ≤ x.max_amount_cents) where
  chosen :
      choose_step (read_hash h) (load_hot_proxy_intents w.intents)
      ≡ record { step = some (x, next_price (read_hash h)); exhausted = [] }
  chosen =
      let loaded : load_hot_proxy_intents w.intents ≡ x ∷ take 99 xs =
        unfold load_hot_proxy_intents in rw q refl in
      let r : IsRanked (x ∷ xs) = rw q at (ranked-IsRanked (active_only w.intents) d) in
      rw loaded (
        choose_step-head (read_hash h) x (take 99 xs) v.steps other high
          (All-take (Beats x) 99 xs r.0))

  take_step-busy :
      (r : Round) (t : ℕ)
      → r.is_free ≡ false
      → take_step e r t (read_hash h) (some (x, next_price (read_hash h))) w ≡ skip w
  unfolding take_step
  take_step-busy r t held = ground (arith, held)

  round_on-busy :
      (r : Round) (t : ℕ)
      → r.is_free ≡ false
      → round_on e r t (read_hash h) w
        ≡ take_step e r t (read_hash h) (some (x, next_price (read_hash h))) w
  unfolding round_on mark_exhausted_each
  round_on-busy r t held = ground (
    arith,
    live,
    v.running,
    ap
        (λ (c : Choice).
          take_step e r t (read_hash h) c.step
            (record w { intents = mark_exhausted_each r.now_ms c.exhausted w.intents }))
        chosen,
  )

  resolve_round-busy :
      (r : Round) (t : ℕ) → IsBusy r → resolve_round e r t w ≡ round_on e r t (read_hash h) w
  unfolding resolve_round run
  resolve_round-busy r t b = ground (arith, b.before, v.there)

  resolve_each-busy :
      (rounds : ℕ → Round)
      → ((k : ℕ) → IsBusy (rounds k))
      → (n k t : ℕ) (last : Option EngineResult)
      → resolve_each e rounds n k t last w
        ≡ record { last = last; hot = pause_hot redis_proxy_resolver_bounded_iteration_exceeded w }
  unfolding resolve_each
  resolve_each-busy rounds busy zero k t last = refl
  resolve_each-busy rounds busy (suc n) k t last = ground (
    arith,
    resolve_round-busy (rounds k) t (busy k)
        ∙ round_on-busy (rounds k) t (busy k).held
        ∙ take_step-busy (rounds k) t (busy k).held,
    resolve_each-busy rounds busy n (suc k) t last,
  )

  -- In an active auction whose strongest intent does not lead and could pay the next price: while the
  -- lock of this intent is held by someone else and nobody calls the engine, the resolver tries it again
  -- at once until its limit, places nothing, and pauses the engine in the row and in the hash.
  pub resolve_hot_max_bids-busy :
      (rounds : ℕ → Round)
      → ((k : ℕ) → IsBusy (rounds k))
      → (trigger : ℕ)
      → let r = resolve_hot_max_bids e rounds trigger w in
        (r.last ≡ none)
        × (r.hot.pause ≡ some redis_proxy_resolver_bounded_iteration_exceeded)
        × ((h' : StateHash) × (r.hot.ks.state ≡ some h')
            × ((read_hash h').paused ≡ true)
            × ((read_hash h').current_price ≡ (read_hash h).current_price))
  unfolding resolve_hot_max_bids pause_hot
  resolve_hot_max_bids-busy rounds busy trigger =
      rw (resolve_each-busy rounds busy 100 0 trigger none) (
        refl,
        refl,
        (
          pause_hash "REDIS_PROXY_RESOLVER_BOUNDED_ITERATION_EXCEEDED" h,
          paused_keys w h v.there,
          (paused_by h v.complete).0,
          (paused_by h v.complete).1,
        ),
      )
