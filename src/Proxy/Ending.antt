-- ===== src/Proxy/Ending.antt =====
-- How `resolveHotMaxBids` of redisengine/engine.go may end, and the facts about a single bid that this
-- rests on.
use native.Mathlib.Nat.{add-mod, mod-mod, add-zero}
use live_auction.Common.{
  ℕ, suc, ◌+◌, ◌-◌, ◌%◌, ◌≤◌, ◌<◌, ◌≡◌, refl, ap, ◌∙◌, true, false, Option, none, some, List, ◌∷◌,
  ◌⊎◌, inl, inr, ltb, Bool-cases, All, All-weaken, arith,
}
use live_auction.Engine.Data.{active, sold, EngineResult, StateHash}
use live_auction.Engine.State.{Live, read_hash}
use live_auction.Engine.Store.{base_price}
use live_auction.Proxy.{HotProxyIntent, wins}
use live_auction.Proxy.Intents.{IntentRow, active_only, ranked, mark_hot_proxy_intent_applied}
use live_auction.Proxy.Resolve.{Hot, Resolved, is_sold}
use live_auction.Proxy.Ranked.{Beats, Beats-max, Differs, of_All-ranked}
use live_auction.Proxy.Chosen.{next_price, IsCalm, Fits}
use live_auction.Proxy.Auto.{IsGood, Bids}
use live_auction.Proxy.Marks.{
  Open, Open-active_only, applied-Open, terminal-Open, active_only-applied,
}
use live_auction.Proxy.Rounds.{rows_after}

-- The intent that beats every other one of the list.
abbrev pub IsStrongest : HotProxyIntent → List HotProxyIntent → Type 0
IsStrongest i = All (λ j. (j ≡ i) ⊎ Beats i j)

-- The auction is sold, or every active intent leads or cannot pay the next price.
abbrev pub IsSettled : Live → List IntentRow → Type 0
IsSettled s rows = (s.status ≡ sold) ⊎ All (Open (IsCalm s)) rows

-- What the resolver leaves of a state `s` after at most `b` bids: it has not paused the engine.
pub record Ends (xs : List HotProxyIntent) (b : ℕ) (s : Live) (w : Hot) (r : Resolved)
    : Type 0 where
  pub hash : StateHash
  pub there : r.hot.ks.state ≡ some hash
  pub pause : r.hot.pause ≡ w.pause
  pub settled : IsSettled (read_hash hash) r.hot.intents
  pub bids : (read_hash hash).engine_seq ≤ s.engine_seq + b
  pub end : (read_hash hash).end_at_ms ≡ s.end_at_ms
  pub leader :
      ((read_hash hash).current_winner ≡ s.current_winner)
      ⊎ ((i : HotProxyIntent) × ((read_hash hash).current_winner ≡ some i.user_id)
          × IsStrongest i xs)

pub mod-cancel_zero : (x y m : ℕ) → (x + y) % m ≡ 0 → y % m ≡ 0 → x % m ≡ 0
mod-cancel_zero x y m e f =
    let e' : (x % m + y % m) % m ≡ 0 = rw (add-mod x y m) at e in
    let e'' : (x % m + 0) % m ≡ 0 = rw f at e' in rw (add-zero (x % m), mod-mod x m) at e''

pub mod-between_zero :
    (a b c m : ℕ) → c ≤ b → b ≤ a → (a - c) % m ≡ 0 → (b - c) % m ≡ 0 → (a - b) % m ≡ 0
mod-between_zero a b c m h k e f =
    let split : a - c ≡ a - b + (b - c) = omega arith in
    mod-cancel_zero (a - b) (b - c) m (rw split at e) f

pub Fits-Bids :
    (s s' : Live) (user amount : ℕ) (i : HotProxyIntent)
    → Bids s s' user amount
    → IsGood s amount
    → Fits s i
    → Fits s' i
Fits-Bids s s' user amount i b g f = record {
  aligned = λ le.
      rw (b.price, b.increment)
        (mod-between_zero i.max_amount_cents amount (base_price s) s.increment (omega arith)
          (omega arith) (f.aligned (omega arith)) g.on_grid);
  under_cap = λ p. omega (arith, f.under_cap (omega arith), b.cap);
}

-- The marks after a bid keep what holds of every active intent.
pub rows_after-Open :
    (P : HotProxyIntent → Type 0) (i : HotProxyIntent) (result : EngineResult)
    (rows : List IntentRow)
    → All (Open P) rows
    → All (Open P) (rows_after i result rows)
rows_after-Open P i result rows v =
    let applied = applied-Open P i.id result.engine_seq rows v in
    elim (Bool-cases (is_sold result.code)) [
      | inl over ↦ rw over (terminal-Open P _ applied)
      | inr on ↦ rw on applied
    ]

pub ranked-Open :
    (P : HotProxyIntent → Type 0) (rows : List IntentRow)
    → All P (ranked (active_only rows))
    → All (Open P) rows
ranked-Open P rows v = Open-active_only P rows (of_All-ranked P (active_only rows) v)

-- A bid before counts for one more.
pub Ends-Bids :
    {xs : List HotProxyIntent} {s s' : Live} {amount b : ℕ} {w w' : Hot} {r : Resolved}
    (x : HotProxyIntent)
    → IsStrongest x xs
    → Bids s s' x.user_id amount
    → w'.pause ≡ w.pause
    → Ends xs b s' w' r
    → Ends xs (suc b) s w r
Ends-Bids x strong d p v = record {
  hash = v.hash;
  there = v.there;
  pause = v.pause ∙ p;
  settled = v.settled;
  bids = omega (arith, v.bids, d.seq);
  end = v.end ∙ d.end;
  leader = elim v.leader [ inl same ↦ inr (x, same ∙ d.winner, strong) | inr other ↦ inr other ];
}

-- More bids allowed.
pub Ends-suc :
    {xs : List HotProxyIntent} {s : Live} {b : ℕ} {w : Hot} {r : Resolved}
    → Ends xs b s w r
    → Ends xs (suc b) s w r
Ends-suc v = record {
  hash = v.hash;
  there = v.there;
  pause = v.pause;
  settled = v.settled;
  bids = omega (arith, v.bids);
  end = v.end;
  leader = v.leader;
}

-- The head of a ranked list.
pub head-IsStrongest :
    (x : HotProxyIntent) (xs : List HotProxyIntent) → All (Beats x) xs → IsStrongest x (x ∷ xs)
head-IsStrongest x xs v = (inl refl, All-weaken (Beats x) _ (λ j b. inr b) xs v)

-- Below an intent that cannot pay the next price nobody can.
pub weaker-IsCalm :
    (s : Live) (y : HotProxyIntent) (ys : List HotProxyIntent)
    → y.max_amount_cents < next_price s
    → All (Beats y) ys
    → All (IsCalm s) ys
weaker-IsCalm s y ys low =
    All-weaken (Beats y) (IsCalm s) (λ z b. inr (omega (arith, low, Beats-max y z b))) ys

-- After a bid that reaches the maximum of an intent, all weaker ones are out.
pub answered-IsCalm :
    {s s' : Live} {user amount : ℕ} (y : HotProxyIntent) (ys : List HotProxyIntent)
    → Bids s s' user amount
    → 0 < s.increment
    → y.max_amount_cents ≤ amount
    → All (Beats y) ys
    → All (IsCalm s') (y ∷ ys)
answered-IsCalm {s' = s'} y ys d pos le v =
    let low : y.max_amount_cents < next_price s' = omega (arith, d.price, d.increment, pos, le) in
    (inr low, weaker-IsCalm s' y ys low v)

pub one_step : (b m : ℕ) → (b + m - b) % m ≡ 0
one_step b m = grind arith

pub wins-leader :
    (s : Live) (x : HotProxyIntent)
    → s.current_winner ≡ some x.user_id
    → wins s.current_winner x ≡ true
wins-leader s x e = ground (arith, e)

pub ltb-false : (a b : ℕ) → ltb a b ≡ false → b ≤ a
ltb-false a b h = ground arith

pub over_or_calm :
    {s s' : Live} {user amount : ℕ} {A : Type 0}
    → Bids s s' user amount
    → A
    → (s'.status ≡ sold) ⊎ ((s'.status ≡ active) × A)
over_or_calm d a = elim d.status [ inl on ↦ inr (on, a) | inr over ↦ inl over ]

pub other_user :
    (w : Option ℕ) (x y : HotProxyIntent) → Differs x y → wins w x ≡ true → wins w y ≡ false
other_user none x y d h = ground arith
other_user (some u) x y d h = ground (arith, d.1, h)

-- After a bid that does not sell, the same intents are active.
pub sold_or_same :
    {s s' : Live} {user amount : ℕ} {rows' : List IntentRow} (rows : List IntentRow)
    (x : HotProxyIntent) (xs : List HotProxyIntent)
    → Bids s s' user amount
    → (result : EngineResult) → (is_sold result.code ≡ true → s'.status ≡ sold)
    → ranked (active_only rows) ≡ x ∷ xs
    → rows' ≡ rows_after x result rows
    → (s'.status ≡ sold) ⊎ ((s'.status ≡ active) × (ranked (active_only rows') ≡ x ∷ xs))
sold_or_same rows x xs d result sells q left = elim (Bool-cases (is_sold result.code)) [
  | inl over ↦ inl (sells over)
  | inr on ↦
      let same : rows_after x result rows
          ≡ mark_hot_proxy_intent_applied x.id result.engine_seq rows =
        rw on refl in
      over_or_calm d (
        ap (λ (l : List IntentRow). ranked (active_only l)) (left ∙ same)
        ∙ ap ranked (active_only-applied x.id result.engine_seq rows)
        ∙ q)
]
