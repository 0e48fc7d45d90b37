-- ===== src/Proxy/Marks.antt =====
-- What the marks that redisengine/engine.go sets on max_bid_intents leave as it was.
use live_auction.Common.{
  ℕ, ◌≡◌, ◌≢◌, refl, true, List, [], ◌∷◌, ◌&&◌, ◌==◌, inl, inr, Bool-cases, All, All-weaken,
  All-map, arith,
}
use live_auction.Proxy.{HotProxyIntent}
use live_auction.Proxy.Intents.{
  IntentRow, is_open, active_only, mark_hot_proxy_intent_exhausted, mark_exhausted_each,
  mark_hot_proxy_intent_applied, mark_hot_proxy_intents_terminal, is_active_intent,
}

module _ {κ} (P : HotProxyIntent → Type κ) where
  -- Every active intent satisfies the predicate.
  abbrev pub Open : IntentRow → Type κ
  Open r = is_open r.status ≡ true → P r.intent

  active_only-cons :
      (r : IntentRow) (rows : List IntentRow)
      → Open r
      → All P (active_only rows)
      → All P (active_only (r ∷ rows))
  unfolding active_only
  active_only-cons r rows p v = elim (Bool-cases (is_open r.status)) [
    | inl yes_open ↦ rw yes_open (p yes_open, v)
    | inr shut ↦ rw shut v
  ]

  pub active_only-Open : (rows : List IntentRow) → All Open rows → All P (active_only rows)
  unfolding active_only
  active_only-Open [] v = tt
  active_only-Open (r ∷ rows) v = active_only-cons r rows v.0 (active_only-Open rows v.1)

  pub Open-active_only : (rows : List IntentRow) → All P (active_only rows) → All Open rows
  unfolding active_only
  Open-active_only [] v = tt
  Open-active_only (r ∷ rows) v = elim (Bool-cases (is_open r.status)) [
    | inl yes_open ↦
        let v' : P r.intent × All P (active_only rows) = rw yes_open at v in
        (λ _. v'.0, Open-active_only rows v'.1)
    | inr shut ↦ ((λ e. cc), Open-active_only rows (rw shut at v))
  ]

  exhausted-Open :
      (now id : ℕ) (rows : List IntentRow)
      → All Open rows
      → All Open (mark_hot_proxy_intent_exhausted now id rows)
  unfolding mark_hot_proxy_intent_exhausted
  exhausted-Open now id = All-map Open Open _ (λ r v.
      elim (Bool-cases (is_open r.status && r.intent.id == id)) [
        | inl hit ↦ rw hit (λ e. cc)
        | inr miss ↦ rw miss v
      ])

  pub exhausted_each-Open :
      (now : ℕ) (ids : List ℕ) (rows : List IntentRow)
      → All Open rows
      → All Open (mark_exhausted_each now ids rows)
  unfolding mark_exhausted_each
  exhausted_each-Open now [] rows v = v
  exhausted_each-Open now (id ∷ ids) rows v =
      exhausted_each-Open now ids _ (exhausted-Open now id rows v)

  pub applied-Open :
      (id seq : ℕ) (rows : List IntentRow)
      → All Open rows
      → All Open (mark_hot_proxy_intent_applied id seq rows)
  unfolding mark_hot_proxy_intent_applied
  applied-Open id seq = All-map Open Open _ (λ r v.
      elim (Bool-cases (is_open r.status && r.intent.id == id)) [
        | inl hit ↦ rw hit v
        | inr miss ↦ rw miss v
      ])

  pub terminal-Open :
      (rows : List IntentRow) → All Open rows → All Open (mark_hot_proxy_intents_terminal rows)
  unfolding mark_hot_proxy_intents_terminal
  terminal-Open = All-map Open Open _ (λ r v. elim (Bool-cases (is_open r.status)) [
    | inl hit ↦ rw hit (λ e. cc)
    | inr miss ↦ rw miss v
  ])

-- The mark of an applied bid changes no active intent.
pub active_only-applied :
    (id seq : ℕ) (rows : List IntentRow)
    → active_only (mark_hot_proxy_intent_applied id seq rows) ≡ active_only rows
unfolding active_only mark_hot_proxy_intent_applied
active_only-applied id seq [] = refl
active_only-applied id seq (r ∷ rows) = ground (arith, active_only-applied id seq rows)

pub active_only-is_active :
    (rows : List IntentRow) → All (λ i. is_active_intent i rows ≡ true) (active_only rows)
unfolding active_only is_active_intent
active_only-is_active [] = tt
active_only-is_active (r ∷ rows) =
    active_only-cons _ r rows (λ e. ground (arith, e))
      (All-weaken _ (λ i. is_active_intent i (r ∷ rows) ≡ true) (λ i e. ground (arith, e))
        (active_only rows) (active_only-is_active rows))

-- An intent with another id stays active.
pub exhausted-is_active :
    (now id : ℕ) (i : HotProxyIntent) (rows : List IntentRow)
    → i.id ≢ id
    → is_active_intent i (mark_hot_proxy_intent_exhausted now id rows) ≡ is_active_intent i rows
unfolding is_active_intent mark_hot_proxy_intent_exhausted
exhausted-is_active now id i [] n = refl
exhausted-is_active now id i (r ∷ rows) n = ground (arith, n, exhausted-is_active now id i rows n)
