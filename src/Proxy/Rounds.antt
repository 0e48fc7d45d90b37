-- ===== src/Proxy/Rounds.antt =====
-- One round of `resolveHotMaxBids` of redisengine/engine.go, while nobody else calls the engine.
use live_auction.Common.{
  ℕ, ◌≤◌, ◌≡◌, ap, ◌∙◌, true, false, none, some, List, [], if◌then◌else◌, arith,
}
use live_auction.Engine.Data.{active, sold, EngineResult, StateHash}
use live_auction.Engine.State.{read_hash}
use live_auction.Engine.Run.{run}
use live_auction.Proxy.{HotProxyIntent, Choice, choose_step}
use live_auction.Proxy.Intents.{
  IntentRow, load_hot_proxy_intents, mark_exhausted_each, mark_hot_proxy_intent_applied,
  mark_hot_proxy_intents_terminal, is_active_intent,
}
use live_auction.Proxy.Resolve.{
  Hot, Env, Round, auto_args, stop, placed, is_sold, take_step, round_on, resolve_round,
}
use live_auction.Proxy.Auto.{EndsInSeq, IsReady, IsGood, Bids, Took, place_auto-Took}

-- Nobody else calls the engine during the round, and the lock is free.
pub record IsAlone (r : Round) : Type 0 where
  pub before : r.before ≡ []
  pub between : r.between ≡ []
  pub free : r.is_free ≡ true

-- The rows after a bid for the intent, which is the last of the round's marks.
abbrev pub rows_after : HotProxyIntent → EngineResult → List IntentRow → List IntentRow
rows_after i result rows =
    let applied = mark_hot_proxy_intent_applied i.id result.engine_seq rows in
    if is_sold result.code then mark_hot_proxy_intents_terminal applied else applied

module _ (e : Env) (r : Round) (t : ℕ) (w : Hot) (h : StateHash) where
  pub resolve_round-round_on :
      IsAlone r → w.ks.state ≡ some h → resolve_round e r t w ≡ round_on e r t (read_hash h) w
  unfolding resolve_round run
  resolve_round-round_on alone there = ground (arith, alone.before, there)

  -- A round on an auction that is over returns.
  pub resolve_round-over :
      IsAlone r → w.ks.state ≡ some h → (read_hash h).status ≡ sold → resolve_round e r t w ≡ stop w
  resolve_round-over alone there over =
      rw (resolve_round-round_on alone there) (unfold round_on in ground (arith, over))

  -- The rows after the marks of a round.
  abbrev pub marked : List IntentRow
  marked =
      mark_exhausted_each r.now_ms
        (choose_step (read_hash h) (load_hot_proxy_intents w.intents)).exhausted w.intents

  -- A round that chooses nothing returns.
  pub resolve_round-calm :
      IsAlone r
      → IsReady e w.ks h
      → (read_hash h).status ≡ active
      → (choose_step (read_hash h) (load_hot_proxy_intents w.intents)).step ≡ none
      → resolve_round e r t w ≡ stop (record w { intents = marked })
  resolve_round-calm alone v live nothing = rw (resolve_round-round_on alone v.there) (
      unfold round_on in
      ground (
        arith,
        live,
        v.running,
        ap (λ o. take_step e r t (read_hash h) o (record w { intents = marked })) nothing,
      ))

  -- What a round that bids leaves.
  pub record Answered (i : HotProxyIntent) (amount : ℕ) (rows : List IntentRow) : Type 0 where
    pub result : EngineResult
    pub after : Hot
    pub hash : StateHash
    pub turn : resolve_round e r t w ≡ placed result after
    pub ready : IsReady e after.ks hash
    pub bids : Bids (read_hash h) (read_hash hash) i.user_id amount
    pub pause : after.pause ≡ w.pause
    pub sells : is_sold result.code ≡ true → (read_hash hash).status ≡ sold
    pub rows_left : after.intents ≡ rows_after i result rows

  take_step-bid :
      (i : HotProxyIntent) (amount : ℕ) (w' : Hot)
      → IsAlone r
      → is_active_intent i w'.intents ≡ true
      → (k : Took e (auto_args e r i amount t (read_hash h).engine_seq) i.user_id amount w' h)
      → take_step e r t (read_hash h) (some (i, amount)) w'
        ≡ placed k.result (record k.after { intents = rows_after i k.result k.after.intents })
  unfolding take_step run
  take_step-bid i amount w' alone act k = ground (arith, alone.between, alone.free, act, k.answers)

  pub round_on-choice :
      (i : HotProxyIntent) (amount : ℕ) (ids : List ℕ)
      → (read_hash h).status ≡ active
      → (read_hash h).paused ≡ false
      → choose_step (read_hash h) (load_hot_proxy_intents w.intents)
        ≡ record { step = some (i, amount); exhausted = ids }
      → round_on e r t (read_hash h) w
        ≡ take_step e r t
            (read_hash h)
            (some (i, amount))
            (record w { intents = mark_exhausted_each r.now_ms ids w.intents })
  unfolding round_on
  round_on-choice i amount ids live running c = ground (
    arith,
    live,
    running,
    ap
        (λ (d : Choice).
          take_step e r t (read_hash h) d.step
            (record w { intents = mark_exhausted_each r.now_ms d.exhausted w.intents }))
        c,
  )

  -- A round that chooses a bid the script takes has placed it.
  pub resolve_round-Answered :
      (i : HotProxyIntent) (amount : ℕ) (ids : List ℕ)
      → IsAlone r
      → EndsInSeq e
      → IsReady e w.ks h
      → (read_hash h).status ≡ active
      → r.now_ms ≤ (read_hash h).end_at_ms
      → choose_step (read_hash h) (load_hot_proxy_intents w.intents)
        ≡ record { step = some (i, amount); exhausted = ids }
      → IsGood (read_hash h) amount
      → is_active_intent i (mark_exhausted_each r.now_ms ids w.intents) ≡ true
      → Answered i amount (mark_exhausted_each r.now_ms ids w.intents)
  resolve_round-Answered i amount ids alone ends v live time c good act =
      let w' : Hot = record w { intents = mark_exhausted_each r.now_ms ids w.intents } in
      let k : Took e (auto_args e r i amount t (read_hash h).engine_seq) i.user_id amount w' h =
        place_auto-Took e r i amount t h w' ends v live time good in
      record {
        result = k.result;
        after = record k.after { intents = rows_after i k.result k.after.intents };
        hash = k.hash;
        turn =
            resolve_round-round_on alone v.there
            ∙ round_on-choice i amount ids live v.running c
            ∙ take_step-bid i amount w' alone act k;
        ready = k.ready;
        bids = k.bids;
        pause = k.pause;
        sells = k.sells;
        rows_left = ap (rows_after i k.result) k.rows;
      }
