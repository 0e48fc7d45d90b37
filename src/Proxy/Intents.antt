-- ===== src/Proxy/Intents.antt =====
-- The rows of max_bid_intents as redisengine/engine.go reads and marks them. The column updated_at
-- is left out.
use live_auction.Common.{
  ℕ, ◌+◌, Bool, true, false, ◌&&◌, ◌||◌, Option, some, List, [], ◌∷◌, map, max, take, ◌==◌,
  or_default, if◌then◌else◌,
}
use live_auction.Proxy.{HotProxyIntent, hot_proxy_defender_beats_or_ties}

pub data IntentStatus : Type 0 where
  intent_active intent_cancelled intent_exhausted intent_terminal : IntentStatus

pub record IntentRow : Type 0 where
  pub intent : HotProxyIntent
  pub status : IntentStatus
  pub exhausted_at : Option ℕ
  pub last_applied_seq : Option ℕ
  pub version : ℕ

abbrev pub is_open : IntentStatus → Bool
is_open intent_active = true
is_open _ = false

-- `WHERE status = 'ACTIVE'`.
unfoldable pub active_only : List IntentRow → List HotProxyIntent
active_only [] = []
active_only (r ∷ rows) =
    let rest = active_only rows in if is_open r.status then r.intent ∷ rest else rest

-- `ORDER BY max_amount_cents DESC, created_at ASC, id ASC`, which is the order of
-- `hotProxyDefenderBeatsOrTies`.
unfoldable pub insert_ranked : HotProxyIntent → List HotProxyIntent → List HotProxyIntent
insert_ranked i [] = i ∷ []
insert_ranked i (j ∷ rest) =
    let later = insert_ranked i rest in
    if hot_proxy_defender_beats_or_ties i j then i ∷ j ∷ rest else j ∷ later

unfoldable pub ranked : List HotProxyIntent → List HotProxyIntent
unfolding insert_ranked hot_proxy_defender_beats_or_ties
ranked [] = []
ranked (i ∷ rest) = insert_ranked i (ranked rest)

unfoldable pub load_hot_proxy_intents : List IntentRow → List HotProxyIntent
unfolding active_only ranked
load_hot_proxy_intents rows = take 100 (ranked (active_only rows))

-- An update `WHERE id = $1 AND status = 'ACTIVE'`.
abbrev pub mark_open : ℕ → (IntentRow → IntentRow) → IntentRow → IntentRow
mark_open id f r = if is_open r.status && r.intent.id == id then f r else r

unfoldable pub mark_hot_proxy_intent_exhausted : ℕ → ℕ → List IntentRow → List IntentRow
mark_hot_proxy_intent_exhausted now id = map (
    mark_open id (λ (r : IntentRow). record r {
      status = intent_exhausted;
      exhausted_at = some (or_default r.exhausted_at now);
      version = r.version + 1;
    }))

unfoldable pub mark_exhausted_each : ℕ → List ℕ → List IntentRow → List IntentRow
unfolding mark_hot_proxy_intent_exhausted
mark_exhausted_each now [] rows = rows
mark_exhausted_each now (id ∷ ids) rows =
    mark_exhausted_each now ids (mark_hot_proxy_intent_exhausted now id rows)

unfoldable pub mark_hot_proxy_intent_applied : ℕ → ℕ → List IntentRow → List IntentRow
mark_hot_proxy_intent_applied id seq = map (
    mark_open id (λ (r : IntentRow). record r {
      last_applied_seq = some (max (or_default r.last_applied_seq 0) seq);
      version = r.version + 1;
    }))

abbrev end_row : IntentRow → IntentRow
end_row r =
    if is_open r.status then record r { status = intent_terminal; version = r.version + 1 } else r

unfoldable pub mark_hot_proxy_intents_terminal : List IntentRow → List IntentRow
mark_hot_proxy_intents_terminal = map end_row

-- Whether the intent is still there and active, as `lockActiveHotProxyIntent` asks.
unfoldable pub is_active_intent : HotProxyIntent → List IntentRow → Bool
is_active_intent i [] = false
is_active_intent i (r ∷ rows) =
    let later = is_active_intent i rows in
    (is_open r.status && r.intent.id == i.id && r.intent.user_id == i.user_id) || later
