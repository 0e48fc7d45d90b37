-- ===== src/Engine/Run/Deadline.antt =====
-- The soft close of redisengine/engine.go over any run: how far extensions can push the end.
use native.Mathlib.Nat.{add-mul}
use live_auction.Common.{◌+◌, ◌-◌, ◌*◌, ◌∙◌, ◌≤◌, ◌<◌, ◌≡◌, Bool, some, List, [], ◌∷◌, arith}
use live_auction.Engine.Data.{StateHash, Keyspace, Call, Reply}
use live_auction.Engine.State.{Live, read_hash}
use live_auction.Engine.Store.{accepted_hash, outcome}
use live_auction.Engine.Effect.{Effect, quiet, refused, taken}
use live_auction.Engine.Run.{Op, call_of, step, run, step-Effect}

-- The later state ends no earlier, no later than the ceiling, and no more extended than the rule
-- allows, and its ceiling and rule are those of the earlier one.
pub record IsExtension (s s' : Live) : Type 0 where
  pub no_earlier : s.end_at_ms ≤ s'.end_at_ms
  pub under_ceiling :
      0 < s.absolute_end_ms → s.end_at_ms ≤ s.absolute_end_ms → s'.end_at_ms ≤ s.absolute_end_ms
  pub counted : s.extend_count ≤ s'.extend_count
  pub few : s.extend_count ≤ s.max_extend_count → s'.extend_count ≤ s.max_extend_count
  pub same_ceiling : s'.absolute_end_ms ≡ s.absolute_end_ms
  pub same_max : s'.max_extend_count ≡ s.max_extend_count
  pub bounded : s'.end_at_ms ≤ s.end_at_ms + (s'.extend_count - s.extend_count) * s.extend_by_ms
  pub same_by : s'.extend_by_ms ≡ s.extend_by_ms
  pub same_end : s'.extend_count ≡ s.extend_count → s'.end_at_ms ≡ s.end_at_ms

IsExtension-refl : (s : Live) → IsExtension s s
IsExtension-refl s = grind arith

IsExtension-trans : (s t u : Live) → IsExtension s t → IsExtension t u → IsExtension s u
IsExtension-trans s t u p q = record {
  no_earlier = omega arith;
  under_ceiling = ground (arith, p.under_ceiling, q.under_ceiling);
  counted = omega arith;
  few = ground (arith, p.few, q.few);
  same_ceiling = q.same_ceiling ∙ p.same_ceiling;
  same_max = q.same_max ∙ p.same_max;
  bounded =
      let split : u.extend_count - s.extend_count
          ≡ (t.extend_count - s.extend_count) + (u.extend_count - t.extend_count) =
        omega arith in
      let later : u.end_at_ms ≤ t.end_at_ms + (u.extend_count - t.extend_count) * s.extend_by_ms =
        rw (← p.same_by) q.bounded in
      rw
        (
          split,
          add-mul (t.extend_count - s.extend_count) (u.extend_count - t.extend_count)
              s.extend_by_ms,
        )
        (omega (arith, p.bounded, later));
  same_by = q.same_by ∙ p.same_by;
  same_end = ground (arith, p.same_end, q.same_end);
}

outcome-IsExtension :
    (c : Call) (h : StateHash) (extends : Bool)
    → IsExtension
        (read_hash h)
        (read_hash (accepted_hash c h (read_hash h) (outcome c (read_hash h) extends)))
unfolding read_hash accepted_hash outcome
outcome-IsExtension c h extends = ground arith

Effect-IsExtension :
    (c : Call) (ks : Keyspace) (h : StateHash) (r : Reply) (ks' : Keyspace)
    → Effect c ks h r ks'
    → (h' : StateHash) × (ks'.state ≡ some h') × IsExtension (read_hash h) (read_hash h')
Effect-IsExtension c ks h r ks' (quiet s l p k q) = (h, s, IsExtension-refl (read_hash h))
Effect-IsExtension c ks h r ks' (refused reason d) = (_, d.stored, unfold read_hash in grind arith)
Effect-IsExtension c ks h r ks' (taken ext src basis can d) =
    (_, d.stored, outcome-IsExtension c h ext)

-- Over any run the end never moves back, moves only with the extension count and by at most `extend_by`
-- for each, and passes neither the ceiling (where it is set and the end starts under it) nor the
-- number of extensions allowed.
pub run-IsExtension :
    (os : List Op) (h : StateHash) (ks : Keyspace)
    → ks.state ≡ some h
    → (h' : StateHash) × ((run os ks).state ≡ some h') × IsExtension (read_hash h) (read_hash h')
unfolding run
run-IsExtension [] h ks e = (h, e, IsExtension-refl (read_hash h))
run-IsExtension (o ∷ os) h ks e =
    let (h', e', first) =
      Effect-IsExtension (call_of o) ks h (step o ks).0 (step o ks).1 (step-Effect o h ks e) in
    let (h'', e'', rest) = run-IsExtension os h' (step o ks).1 e' in
    (h'', e'', IsExtension-trans (read_hash h) (read_hash h') (read_hash h'') first rest)
