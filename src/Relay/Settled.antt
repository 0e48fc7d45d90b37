-- ===== src/Relay/Settled.antt =====
-- From the scripts of redisengine/engine.go through the log, the relay and Kafka to the settlement.
use live_auction.Common.{
  ℕ, ◌+◌, ◌*◌, ◌≤◌, ◌≡◌, refl, sym, ap, ◌∙◌, inl, inr, false, some, List, [], ◌∷◌, length,
}
use live_auction.Engine.Data.{StateHash, EngineResult, Keyspace, Reply, replay, ok, error, Call}
use live_auction.Engine.State.{read_hash}
use live_auction.Engine.Store.{rejected_result, accepted_result, outcome}
use live_auction.Engine.Effect.{Decided, IsQuiet, Effect, quiet, refused, taken}
use live_auction.Engine.Confirm.{is_held}
use live_auction.Engine.Run.{Op, call_of, step, run, step-Effect}
use live_auction.Settle.Data.{Db, Env}
use live_auction.Settle.Decision.{outcome_code}
use live_auction.Settle.Log.{add_decided, decisions, settle_all}
use live_auction.Settle.Log.World.{World}
use live_auction.Settle.Log.Replayed.{settle_all-World}
use live_auction.Relay.Data.{at_rest, Relay}
use live_auction.Relay.{payloads, has_mismatch, run_relay}
use live_auction.Relay.Prefix.{arrived}
use live_auction.Relay.Fits.{IsRelayed}
use live_auction.Relay.Live.{passes_ops, passes-arrived}

-- A list in the other order, before another.
abbrev pub turn_onto : List EngineResult → List EngineResult → List EngineResult
turn_onto [] acc = acc
turn_onto (r ∷ rs) acc = turn_onto rs (r ∷ acc)

turn_onto-turn_onto :
    (rs acc : List EngineResult) → turn_onto (turn_onto rs acc) [] ≡ turn_onto acc rs
turn_onto-turn_onto [] acc = refl
turn_onto-turn_onto (r ∷ rs) acc = turn_onto-turn_onto rs (r ∷ acc)

quiet-decided :
    (c : Call) (ks' : Keyspace) (r : Reply) (rest : List EngineResult)
    → IsQuiet c ks' r
    → add_decided r rest ≡ rest
quiet-decided c ks' (replay x) rest q = refl
quiet-decided c ks' (error e d) rest q = refl
quiet-decided c ks' (ok x) rest q = rw q.0 refl

decided :
    (c : Call) (ks : Keyspace) (h' : StateHash) (result : EngineResult) (r : Reply) (ks' : Keyspace)
    (rest : List EngineResult)
    → Decided c ks h' result r ks'
    → is_held result.code ≡ false
    → turn_onto (add_decided r rest) (payloads ks.log) ≡ turn_onto rest (payloads ks'.log)
decided c ks h' result r ks' rest d free = rw (d.answered, d.logged) (rw free refl)

-- What a call adds to the log is what its reply adds to the decisions.
Effect-decided :
    (c : Call) (ks : Keyspace) (h : StateHash) (r : Reply) (ks' : Keyspace)
    (rest : List EngineResult)
    → Effect c ks h r ks'
    → (h' : StateHash) × (ks'.state ≡ some h')
      × (turn_onto (add_decided r rest) (payloads ks.log) ≡ turn_onto rest (payloads ks'.log))
Effect-decided c ks h r ks' rest (quiet s l p k q) = (
  h,
  s,
  ap (λ ds. turn_onto ds (payloads ks.log)) (quiet-decided c ks' r rest q)
      ∙ ap (λ es. turn_onto rest (payloads es)) (sym l),
)
Effect-decided c ks h r ks' rest (refused reason d) =
    (_, d.stored, decided c ks _ _ r ks' rest d (unfold rejected_result in refl))
Effect-decided c ks h r ks' rest (taken ext src basis can d) =
    (_, d.stored, decided c ks _ _ r ks' rest d (unfold accepted_result in free))
  where
    free : is_held (outcome c (read_hash h) ext).code ≡ false
    free = elim (outcome_code c (read_hash h) ext) [ inl e ↦ rw e refl | inr e ↦ rw e refl ]

-- The log after a run is the decisions of the run on the log before it.
run-decisions :
    (os : List Op) (h : StateHash) (ks : Keyspace)
    → ks.state ≡ some h
    → turn_onto (decisions os ks) (payloads ks.log) ≡ payloads (run os ks).log
unfolding decisions run
run-decisions [] h ks e = refl
run-decisions (o ∷ os) h ks e =
    let (h', e', same) =
      Effect-decided (call_of o) ks h (step o ks).0 (step o ks).1 (decisions os (step o ks).1)
        (step-Effect o h ks e) in
    same ∙ run-decisions os h' (step o ks).1 e'

-- The scripts run any bids and confirmations from an empty log. A relay has the log that they wrote, and has read,
-- written, marked, crashed or moved its cursor as its invariant allows; its worker is at rest, and it now makes
-- enough passes without a failure. The messages of the partition are then settled in their order, each once. Then
-- the tables match the run: the row of the auction mirrors the hash that the scripts have left.
pub passes-World :
    (digest : EngineResult → ℕ) (env : EngineResult → Env) (os : List Op) (h : StateHash)
    (ks : Keyspace) (db : Db) (base n k w now : ℕ) (s : Relay)
    → World ks h db
    → ks.log ≡ []
    → s.keys.log ≡ (run os ks).log
    → IsRelayed base n s
    → s.pass w ≡ at_rest
    → has_mismatch s.auction_id s.keys.log ≡ false
    → length s.keys.log ≤ s.cursor + 512 * k
    → (h' : StateHash) × World (run os ks) h' (
        settle_all digest env
          (turn_onto (arrived base (run_relay (passes_ops k w now) s).kafka) [])
          db)
passes-World digest env os h ks db base n k w now s world empty same v rest own enough =
    let order : turn_onto (arrived base (run_relay (passes_ops k w now) s).kafka) []
        ≡ decisions os ks =
      ap (λ ms. turn_onto ms [])
        (passes-arrived base n k w now s v rest own enough
          ∙ ap payloads same
          ∙ sym (run-decisions os h ks world.here)
          ∙ ap (λ es. turn_onto (decisions os ks) (payloads es)) empty)
      ∙ turn_onto-turn_onto (decisions os ks) [] in
    rw order (settle_all-World digest env os h ks db world)
