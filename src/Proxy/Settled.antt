-- ===== src/Proxy/Settled.antt =====
-- `resolveHotMaxBids` of redisengine/engine.go comes to an end: while nobody else calls the engine,
-- two bids at most settle the proxies against each other.
use live_auction.Common.{
  ℕ, suc, ◌≤◌, ◌≡◌, refl, ap, ◌∙◌, true, false, Option, none, some, List, [], ◌∷◌, ◌⊎◌, inl, inr,
  ltb, Bool-cases, All, All-take, All-weaken, take, ltb→lt, arith,
}
use live_auction.Engine.Data.{active, sold, EngineResult, StateHash}
use live_auction.Engine.State.{read_hash}
use live_auction.Engine.Store.{base_price}
use live_auction.Proxy.{HotProxyIntent, wins}
use live_auction.Proxy.Intents.{active_only, ranked, load_hot_proxy_intents, mark_exhausted_each}
use live_auction.Proxy.Resolve.{Hot, Env, Round, resolve_each, resolve_hot_max_bids}
use live_auction.Proxy.Ranked.{
  Beats, IsRanked, Differs, IsKeyed, All-ranked, ranked-IsRanked, ranked-IsKeyed,
}
use live_auction.Proxy.Chosen.{next_price, IsCalm, Fits, choose_step-head}
use live_auction.Proxy.Auto.{EndsInSeq, IsReady, IsGood}
use live_auction.Proxy.Rounds.{IsAlone, rows_after, resolve_round-Answered}
use live_auction.Proxy.Ending.{
  Ends, Ends-Bids, Ends-suc, Fits-Bids, head-IsStrongest, ltb-false, one_step, ranked-Open,
  sold_or_same, weaker-IsCalm, wins-leader,
}
use live_auction.Proxy.Answer.{resolve_each-placed, finish, head_is_active, defend_list, InTime}

module _ (e : Env) (rounds : ℕ → Round) (ends : EndsInSeq e)
    (alone : (k : ℕ) → IsAlone (rounds k)) where
  -- The same on an auction that may be sold.
  settle_after :
      (n k t : ℕ) (last : Option EngineResult) (w : Hot) (h : StateHash) (x : HotProxyIntent)
      (xs : List HotProxyIntent)
      → IsReady e w.ks h
      → ((read_hash h).status ≡ sold)
        ⊎ (((read_hash h).status ≡ active) × (ranked (active_only w.intents) ≡ x ∷ xs))
      → InTime e rounds ends alone (read_hash h)
      → IsRanked (x ∷ xs)
      → All (Differs x) xs
      → All (Fits (read_hash h)) (x ∷ xs)
      → wins (read_hash h).current_winner x ≡ true
      → Ends (x ∷ xs) 1 (read_hash h) w (resolve_each e rounds (suc (suc n)) k t last w)
  settle_after n k t last w h x xs v (inl over) time r d f lead =
      finish e rounds ends alone (x ∷ xs) 1 (suc n) k t last w h v (inl over)
  settle_after n k t last w h x xs v (inr (live, q)) time r d f lead =
      defend_list e rounds ends alone n k t last w h x xs v live time q r d f lead

  challenge :
      (n k t : ℕ) (last : Option EngineResult) (w : Hot) (h : StateHash) (x : HotProxyIntent)
      (xs : List HotProxyIntent)
      → IsReady e w.ks h
      → (read_hash h).status ≡ active
      → InTime e rounds ends alone (read_hash h)
      → ranked (active_only w.intents) ≡ x ∷ xs
      → IsRanked (x ∷ xs)
      → All (Differs x) xs
      → All (Fits (read_hash h)) (x ∷ xs)
      → wins (read_hash h).current_winner x ≡ false
      → next_price (read_hash h) ≤ x.max_amount_cents
      → Ends (x ∷ xs) 2 (read_hash h) w (resolve_each e rounds (suc (suc (suc n))) k t last w)
  challenge n k t last w h x xs v live time q r d f other high =
      let s = read_hash h in
      let loaded : load_hot_proxy_intents w.intents ≡ x ∷ take 99 xs =
        unfold load_hot_proxy_intents in rw q refl in
      let chosen =
        choose_step-head s x (take 99 xs) v.steps other high (All-take (Beats x) 99 xs r.0) in
      let good : IsGood s (next_price s) = record {
        enough = omega arith;
        on_grid = one_step (base_price s) s.increment;
        under_cap = λ p. omega (arith, high, f.0.under_cap p);
      } in
      let a =
        resolve_round-Answered e (rounds k) t w h x (next_price s) [] (alone k) ends v live (time k)
          (rw loaded chosen) good
          (unfold mark_exhausted_each in head_is_active e rounds ends alone w.intents x xs q) in
      rw (resolve_each-placed e rounds ends alone (suc (suc n)) k t last w a.after a.result a.turn)
        (Ends-Bids x (head-IsStrongest x xs r.0) a.bids a.pause (
          settle_after n (suc k) a.result.engine_seq (some a.result) a.after a.hash x xs a.ready
            (sold_or_same w.intents x xs a.bids a.result a.sells q
              (a.rows_left ∙ ap (rows_after x a.result) (unfold mark_exhausted_each in refl)))
            (λ j. omega (arith, time j, a.bids.end)) r d
            (All-weaken (Fits s) (Fits (read_hash a.hash))
              (λ i. Fits-Bids s (read_hash a.hash) x.user_id (next_price s) i a.bids good) (x ∷ xs)
              f)
            (wins-leader (read_hash a.hash) x a.bids.winner)))

  settle_list :
      (n k t : ℕ) (last : Option EngineResult) (w : Hot) (h : StateHash) (xs : List HotProxyIntent)
      → IsReady e w.ks h
      → (read_hash h).status ≡ active
      → InTime e rounds ends alone (read_hash h)
      → ranked (active_only w.intents) ≡ xs
      → IsRanked xs
      → IsKeyed xs
      → All (Fits (read_hash h)) xs
      → Ends (xs) 2 (read_hash h) w (resolve_each e rounds (suc (suc (suc n))) k t last w)
  settle_list n k t last w h [] v live time q r d f =
      finish e rounds ends alone _ 2 (suc (suc n)) k t last w h v
        (inr (live, ranked-Open (IsCalm (read_hash h)) w.intents (rw q tt)))
  settle_list n k t last w h (x ∷ xs) v live time q r d f =
      let s = read_hash h in
      elim (Bool-cases (wins s.current_winner x)) [
        | inl lead ↦
            Ends-suc
              (defend_list e rounds ends alone (suc n) k t last w h x xs v live time q r d.0 f lead)
        | inr other ↦ elim (Bool-cases (ltb x.max_amount_cents (next_price s))) [
          | inl low ↦
              let low' = ltb→lt x.max_amount_cents (next_price s) low in
              finish e rounds ends alone _ 2 (suc (suc n)) k t last w h v (
                inr (
                  live,
                  ranked-Open (IsCalm s) w.intents (rw q (inr low', weaker-IsCalm s x xs low' r.0)),
                ))
          | inr high ↦
              challenge n k t last w h x xs v live time q r d.0 f other
                (ltb-false x.max_amount_cents (next_price s) high)
        ]
      ]

  -- An active auction with a hash that does not require the PostgreSQL path, whose active intents have
  -- distinct users and maxima on the grid: while nobody else calls the engine, every lock is free, the
  -- rounds come before the end and the calls have distinct keys, the resolver does not reach its limit
  -- and does not pause the engine. After at most two bids the auction is sold, or every active intent
  -- leads or cannot pay the next price. Who leads then has led before, or has the strongest intent; the
  -- end of the auction has not moved.
  pub resolve_hot_max_bids-Ends :
      (trigger : ℕ) (w : Hot) (h : StateHash)
      → IsReady e w.ks h
      → (read_hash h).status ≡ active
      → InTime e rounds ends alone (read_hash h)
      → IsKeyed (active_only w.intents)
      → All (Fits (read_hash h)) (active_only w.intents)
      → Ends
          (ranked (active_only w.intents))
          2
          (read_hash h)
          w
          (resolve_hot_max_bids e rounds trigger w)
  unfolding resolve_hot_max_bids
  resolve_hot_max_bids-Ends trigger w h v live time d f =
      settle_list 97 0 trigger none w h (ranked (active_only w.intents)) v live time refl
        (ranked-IsRanked _ d) (ranked-IsKeyed _ d) (All-ranked (Fits (read_hash h)) _ f)
