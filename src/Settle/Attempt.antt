-- ===== src/Settle/Attempt.antt =====
-- The table `redis_engine_settlements` of redisengine/engine.go: `recordSettlementAttempt`, what it does
-- on a duplicate, and the marks of the worker. `digest` is `sha256Hex` of the payload's JSON.
use live_auction.Common.{
  ℕ, suc, ◌+◌, Bool, true, false, ◌&&◌, Option, none, some, List, [], ◌∷◌, leb, ◌==◌, is_some,
  if◌then◌else◌,
}
use live_auction.Engine.Data.{EngineResult}
use live_auction.Settle.Data.{
  settlement_identity_conflict, AttemptStatus, processing, settled, skipped, failed, Attempt, Db,
  Message, Env, SettleError, identity_conflict, transient,
}
use live_auction.Settle.Rows.{pause_tx}

abbrev pub find : (Attempt → Bool) → List Attempt → Option Attempt
find p [] = none
find p (a ∷ rest) = if p a then some a else find p rest

-- `UPDATE ... WHERE stream_id = $2`.
abbrev pub change : ℕ → (Attempt → Attempt) → List Attempt → List Attempt
change stream f [] = []
change stream f (a ∷ rest) = (if a.stream_id == stream then f a else a) ∷ change stream f rest

abbrev pub mark : Env → ℕ → AttemptStatus → Db → Db
mark env stream status db = record db {
  attempts =
      change stream (λ a. record a { status = status; updated_at_ms = env.now_ms }) db.attempts;
}

abbrev pub is_finished : AttemptStatus → Bool
is_finished settled = true
is_finished skipped = true
is_finished _ = false

abbrev pub is_processing : AttemptStatus → Bool
is_processing processing = true
is_processing _ = false

-- The attempt's count and status, or why there is none.
pub data Recorded : Type 0 where
  attempted : ℕ → AttemptStatus → Recorded
  not_attempted : SettleError → Recorded

-- `markSettlementIdentityConflict`: the old row fails and the engine is paused.
unfoldable pub mark_identity_conflict : Env → Attempt → Db → Recorded × Db
unfolding pause_tx
mark_identity_conflict env old db = (
  not_attempted identity_conflict,
  pause_tx settlement_identity_conflict (mark env old.stream_id failed db),
)

abbrev pub same_offset : Option ℕ → Attempt → Bool
same_offset none a = false
same_offset (some o) a = elim a.offset [ none ↦ false | some o' ↦ o' == o ]

abbrev pub same_number : EngineResult → Attempt → Bool
same_number r a = a.engine_epoch == r.engine_epoch && a.engine_seq == r.engine_seq

abbrev settlement_terminal_grace_ms : ℕ
settlement_terminal_grace_ms = 10000

abbrev is_stale : Env → Attempt → Bool
is_stale env a = leb (a.updated_at_ms + settlement_terminal_grace_ms) env.now_ms

abbrev claim : Env → Message → Attempt → Attempt
claim env m a = record a {
  stream_id = m.id;
  offset = if is_some m.offset then m.offset else a.offset;
  attempts = suc a.attempts;
  updated_at_ms = env.now_ms;
}

-- The UPDATE that claims a stale attempt of the same number and payload.
unfoldable pub claim_stale :
    (EngineResult → ℕ) → Env → Message → EngineResult → Db → Option (ℕ × Db)
claim_stale digest env m r db =
    elim (find
      (λ a.
        same_number r a && a.payload_sha256 == digest r && is_processing a.status && is_stale env a)
      db.attempts) [
        | none ↦ none
        | some a ↦
            some (
              suc a.attempts,
              record db { attempts = change a.stream_id (claim env m) db.attempts },
            )
      ]

-- `existingSettlementAttempt` on the row that has the offset or the number already.
unfoldable pub existing_attempt :
    (EngineResult → ℕ) → Env → Message → EngineResult → Attempt → Db → Recorded × Db
unfolding claim_stale mark_identity_conflict
existing_attempt digest env m r old db =
    if old.payload_sha256 == digest r
    then (if is_finished old.status
        then (attempted old.attempts old.status, db)
        else if is_processing old.status && is_stale env old
        then (elim (claim_stale digest env m r db) [
          | none ↦ (not_attempted transient, db)
          | some (attempts, claimed) ↦ (attempted attempts processing, claimed)
        ])
        else (not_attempted transient, db))
    else mark_identity_conflict env old db

-- A row for a message that has none, unless its offset or its number has one.
unfoldable pub insert_attempt :
    (EngineResult → ℕ) → Env → Message → EngineResult → Db → Recorded × Db
unfolding existing_attempt
insert_attempt digest env m r db = elim (find (same_offset m.offset) db.attempts) [
  | some old ↦ existing_attempt digest env m r old db
  | none ↦ elim (find (same_number r) db.attempts) [
    | some old ↦ existing_attempt digest env m r old db
    | none ↦ (
      attempted 1 processing,
      record db {
        attempts =
            record {
              stream_id = m.id;
              offset = m.offset;
              engine_epoch = r.engine_epoch;
              engine_seq = r.engine_seq;
              payload_sha256 = digest r;
              attempts = 1;
              status = processing;
              updated_at_ms = env.now_ms;
            }
            ∷ db.attempts;
      },
    )
  ]
]

abbrev pub again : Env → Attempt → Attempt
again env a =
    if is_finished a.status
    then record a { updated_at_ms = env.now_ms }
    else record a { attempts = suc a.attempts; status = processing; updated_at_ms = env.now_ms }

abbrev pub for_stream : ℕ → Attempt → Bool
for_stream stream a = a.stream_id == stream

-- `recordSettlementAttempt`.
unfoldable pub record_attempt :
    (EngineResult → ℕ) → Env → Message → EngineResult → Db → Recorded × Db
unfolding insert_attempt mark_identity_conflict
record_attempt digest env m r db = elim (find (for_stream m.id) db.attempts) [
  | none ↦ insert_attempt digest env m r db
  | some old ↦
      if old.payload_sha256 == digest r
      then ((
        attempted (again env old).attempts (again env old).status,
        record db { attempts = change m.id (again env) db.attempts },
      ))
      else mark_identity_conflict env old db
]
