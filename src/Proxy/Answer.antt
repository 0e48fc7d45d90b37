-- ===== src/Proxy/Answer.antt =====
-- The leading proxy of redisengine/engine.go answers the second one, while nobody else calls the engine.
use live_auction.Common.{
  ℕ, suc, ◌≤◌, ◌≡◌, refl, subst, ◌∙◌, true, Option, some, List, [], ◌∷◌, ◌⊎◌, inl, inr, ltb,
  Bool-cases, All, All-take, take, ltb→lt, arith,
}
use live_auction.Engine.Data.{active, sold, EngineResult, StateHash}
use live_auction.Engine.State.{Live, read_hash}
use live_auction.Proxy.{HotProxyIntent, wins, hot_proxy_defending_amount}
use live_auction.Proxy.Intents.{
  IntentRow, active_only, ranked, load_hot_proxy_intents, mark_exhausted_each, is_active_intent,
}
use live_auction.Proxy.Resolve.{Hot, Env, Round, stop, placed, resolve_round, resolve_each}
use live_auction.Proxy.Ranked.{IsRanked, Differs, All-ranked}
use live_auction.Proxy.Chosen.{
  next_price, IsCalm, Fits, choose_step-calm, choose_step-second, defending_amount_lem,
  defending_amount_grid,
}
use live_auction.Proxy.Auto.{EndsInSeq, IsReady, IsGood}
use live_auction.Proxy.Marks.{
  Open, active_only-Open, exhausted_each-Open, active_only-is_active, exhausted-is_active,
}
use live_auction.Proxy.Rounds.{
  IsAlone, resolve_round-over, resolve_round-calm, resolve_round-Answered,
}
use live_auction.Proxy.Ending.{
  Ends, Ends-Bids, answered-IsCalm, head-IsStrongest, ltb-false, other_user, over_or_calm,
  ranked-Open, rows_after-Open, weaker-IsCalm, wins-leader,
}

module _ (e : Env) (rounds : ℕ → Round) (ends : EndsInSeq e)
    (alone : (k : ℕ) → IsAlone (rounds k)) where
  pub resolve_each-stop :
      (n k t : ℕ) (last : Option EngineResult) (w w' : Hot)
      → resolve_round e (rounds k) t w ≡ stop w'
      → resolve_each e rounds (suc n) k t last w ≡ record { last = last; hot = w' }
  unfolding resolve_each
  resolve_each-stop n k t last w w' q = ground (arith, q)

  pub resolve_each-placed :
      (n k t : ℕ) (last : Option EngineResult) (w w' : Hot) (result : EngineResult)
      → resolve_round e (rounds k) t w ≡ placed result w'
      → resolve_each e rounds (suc n) k t last w
        ≡ resolve_each e rounds n (suc k) result.engine_seq (some result) w'
  unfolding resolve_each
  resolve_each-placed n k t last w w' result q = ground (arith, q)

  pub finish :
      (ys : List HotProxyIntent) (b n k t : ℕ) (last : Option EngineResult) (w : Hot)
      (h : StateHash)
      → IsReady e w.ks h
      → ((read_hash h).status ≡ sold)
        ⊎ (((read_hash h).status ≡ active) × All (Open (IsCalm (read_hash h))) w.intents)
      → Ends ys b (read_hash h) w (resolve_each e rounds (suc n) k t last w)
  finish ys b n k t last w h v (inl over) =
      rw
        (resolve_each-stop n k t last w w
          (resolve_round-over e (rounds k) t w h (alone k) v.there over))
        (record {
          hash = h;
          there = v.there;
          pause = refl;
          settled = inl over;
          bids = omega arith;
          end = refl;
          leader = inl refl;
        })
  finish ys b n k t last w h v (inr (live, calm)) =
      let loaded =
        All-take (IsCalm (read_hash h)) 100 _
          (All-ranked (IsCalm (read_hash h)) _ (active_only-Open _ w.intents calm)) in
      rw
        (resolve_each-stop n k t last w _ (
          resolve_round-calm e (rounds k) t w h (alone k) v live (
            choose_step-calm (read_hash h) (load_hot_proxy_intents w.intents)
              (unfold load_hot_proxy_intents in loaded))))
        (record {
          hash = h;
          there = v.there;
          pause = refl;
          settled = inr (exhausted_each-Open _ _ _ w.intents calm);
          bids = omega arith;
          end = refl;
          leader = inl refl;
        })

  abbrev pub InTime : Live → Type 0
  InTime s = (k : ℕ) → (rounds k).now_ms ≤ s.end_at_ms

  abbrev IsOn : Live → Type 0
  IsOn s = (s.status ≡ active) ⊎ (s.status ≡ sold)

  pub head_is_active :
      (rows : List IntentRow) (x : HotProxyIntent) (xs : List HotProxyIntent)
      → ranked (active_only rows) ≡ x ∷ xs
      → is_active_intent x rows ≡ true
  head_is_active rows x xs q =
      let all = All-ranked (λ i. is_active_intent i rows ≡ true) _ (active_only-is_active rows) in
      (subst (λ l. All (λ i. is_active_intent i rows ≡ true) l) q all).0

  pub answer_second :
      (n k t : ℕ) (last : Option EngineResult) (w : Hot) (h : StateHash) (x y : HotProxyIntent)
      (ys : List HotProxyIntent)
      → IsReady e w.ks h
      → (read_hash h).status ≡ active
      → InTime (read_hash h)
      → ranked (active_only w.intents) ≡ x ∷ y ∷ ys
      → IsRanked (x ∷ y ∷ ys)
      → All (Differs x) (y ∷ ys)
      → All (Fits (read_hash h)) (x ∷ y ∷ ys)
      → wins (read_hash h).current_winner x ≡ true
      → next_price (read_hash h) ≤ y.max_amount_cents
      → Ends (x ∷ y ∷ ys) 1 (read_hash h) w (resolve_each e rounds (suc (suc n)) k t last w)
  answer_second n k t last w h x y ys v live time q r d f lead high =
      let s = read_hash h in
      let amount = hot_proxy_defending_amount x y s.increment s.cap in
      let cost = defending_amount_lem s x y r.0.0 f.0 in
      let loaded : load_hot_proxy_intents w.intents ≡ x ∷ y ∷ take 98 ys =
        unfold load_hot_proxy_intents in rw q refl in
      let chosen =
        choose_step-second s x y (take 98 ys) v.steps lead
          (other_user s.current_winner x y d.0 lead) high r.0.0 f.0 in
      let good : IsGood s amount = record {
        enough = omega (arith, cost, high);
        on_grid = defending_amount_grid s x y r.0.0 f.0 f.1.0 (omega (arith, high));
        under_cap = λ p. omega (arith, cost, f.0.under_cap p);
      } in
      let act : is_active_intent x (mark_exhausted_each (rounds k).now_ms (y.id ∷ []) w.intents)
          ≡ true =
        unfold mark_exhausted_each in
        (exhausted-is_active (rounds k).now_ms y.id x w.intents d.0.0
          ∙ head_is_active w.intents x (y ∷ ys) q) in
      let a =
        resolve_round-Answered e (rounds k) t w h x amount (y.id ∷ []) (alone k) ends v live
          (time k) (rw loaded chosen) good act in
      let calm : All (IsCalm (read_hash a.hash)) (x ∷ y ∷ ys) = (
        inl (wins-leader (read_hash a.hash) x a.bids.winner),
        answered-IsCalm y ys a.bids v.steps cost.0 r.1.0,
      ) in
      rw (resolve_each-placed (suc n) k t last w a.after a.result a.turn) (
        Ends-Bids x (head-IsStrongest x (y ∷ ys) r.0) a.bids a.pause (
          finish (x ∷ y ∷ ys) 0 n (suc k) a.result.engine_seq (some a.result) a.after a.hash a.ready
            (over_or_calm a.bids (
              rw a.rows_left (
                rows_after-Open (IsCalm (read_hash a.hash)) x a.result _ (
                  exhausted_each-Open (IsCalm (read_hash a.hash)) (rounds k).now_ms (y.id ∷ [])
                    w.intents (ranked-Open (IsCalm (read_hash a.hash)) w.intents (rw q calm))))))))

  -- The leading intent has the list behind it: it answers the second one, and that settles it.
  pub defend_list :
      (n k t : ℕ) (last : Option EngineResult) (w : Hot) (h : StateHash) (x : HotProxyIntent)
      (xs : List HotProxyIntent)
      → IsReady e w.ks h
      → (read_hash h).status ≡ active
      → InTime (read_hash h)
      → ranked (active_only w.intents) ≡ x ∷ xs
      → IsRanked (x ∷ xs)
      → All (Differs x) xs
      → All (Fits (read_hash h)) (x ∷ xs)
      → wins (read_hash h).current_winner x ≡ true
      → Ends (x ∷ xs) 1 (read_hash h) w (resolve_each e rounds (suc (suc n)) k t last w)
  defend_list n k t last w h x [] v live time q r d f lead =
      finish _ 1 (suc n) k t last w h v
        (inr (live, ranked-Open (IsCalm (read_hash h)) w.intents (rw q (inl lead, tt))))
  defend_list n k t last w h x (y ∷ ys) v live time q r d f lead =
      let s = read_hash h in
      elim (Bool-cases (ltb y.max_amount_cents (next_price s))) [
        | inl low ↦
            let low' = ltb→lt y.max_amount_cents (next_price s) low in
            finish _ 1 (suc n) k t last w h v (
              inr (
                live,
                ranked-Open (IsCalm s) w.intents
                    (rw q (inl lead, (inr low', weaker-IsCalm s y ys low' r.1.0))),
              ))
        | inr high ↦
            answer_second n k t last w h x y ys v live time q r d f lead
              (ltb-false y.max_amount_cents (next_price s) high)
      ]
