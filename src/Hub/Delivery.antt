-- ===== src/Hub/Delivery.antt =====
-- What `Publish` of backend/internal/realtime/hub.go does for every subscription of the room.
use live_auction.Common.{
  ℕ, suc, ◌+◌, ◌≡◌, ◌≢◌, ◌⊎◌, ◌∙◌, refl, sym, subst, true, false, List, [], ◌∷◌, ◌++◌, update,
  update_self, update_ne, length, All, arith,
}
use live_auction.Hub.{Hub, PublishStats, count_send, after_send, publish_each, publish, no_stats}
use live_auction.Hub.Queue.{Subscription, Send, try_send, close_slow}

-- The subscription has the payload as its last message, or it is closed.
abbrev pub Reached : List ℕ → Subscription → Subscription → Type 0
Reached payload s s' = (s'.closed ≡ true) ⊎ ((s'.closed ≡ false) × (s'.ch ≡ s.ch ++ payload ∷ []))

send-Reached :
    (messages bytes : ℕ) (payload : List ℕ) (s : Subscription)
    → Reached payload s
        (after_send (try_send messages payload bytes s).0 (try_send messages payload bytes s).1)
unfolding try_send after_send close_slow
send-Reached messages bytes payload s = ground arith

-- No pointer is twice in the list.
abbrev pub Distinct : List ℕ → Type 0
Distinct [] = Unit
Distinct (i ∷ is) = All (λ j. i ≢ j) is × Distinct is

publish_each-other :
    (messages bytes : ℕ) (payload : List ℕ) (ids : List ℕ) (stats : PublishStats)
    (heap : ℕ → Subscription) (i : ℕ)
    → All (λ j. i ≢ j) ids
    → (publish_each messages bytes payload ids (stats, heap)).1 i ≡ heap i
unfolding publish_each
publish_each-other messages bytes payload [] stats heap i n = refl
publish_each-other messages bytes payload (j ∷ rest) stats heap i n =
    publish_each-other messages bytes payload rest _ _ i n.1 ∙ update_ne heap j i _ n.0

publish_each-Reached :
    (messages bytes : ℕ) (payload : List ℕ) (ids : List ℕ) (stats : PublishStats)
    (heap base : ℕ → Subscription)
    → Distinct ids
    → All (λ i. heap i ≡ base i) ids
    → All
        (λ i.
          Reached payload (base i) ((publish_each messages bytes payload ids (stats, heap)).1 i))
        ids
unfolding publish_each
publish_each-Reached messages bytes payload [] stats heap base d e = tt
publish_each-Reached messages bytes payload (i ∷ rest) stats heap base d e =
    let now =
      after_send (try_send messages payload bytes (heap i)).0
        (try_send messages payload bytes (heap i)).1 in
    (
      subst (Reached payload (base i))
          (sym (publish_each-other messages bytes payload rest _ _ i d.0 ∙ update_self heap i now))
          (subst (λ s. Reached payload s now) e.0 (send-Reached messages bytes payload (heap i))),
      publish_each-Reached messages bytes payload rest _ _ base d.1 (keep rest d.0 e.1),
    )
  where
    keep :
        (js : List ℕ)
        → All (λ j. i ≢ j) js
        → All (λ j. heap j ≡ base j) js
        → All
            (λ j.
              update heap i
                (after_send
                  (try_send messages payload bytes (heap i)).0
                  (try_send messages payload bytes (heap i)).1)
                j
              ≡ base j)
            js
    keep [] n same = tt
    keep (j ∷ js) n same = (update_ne heap i j _ (λ c. n.0 (sym c)) ∙ same.0, keep js n.1 same.1)

count_send-sum :
    (s : Send) (stats : PublishStats)
    → ((count_send s stats).enqueued + (count_send s stats).slow_closed
        ≡ suc (stats.enqueued + stats.slow_closed))
      × ((count_send s stats).subscribers ≡ stats.subscribers)
unfolding count_send
count_send-sum s stats = ground arith

publish_each-sum :
    (messages bytes : ℕ) (payload : List ℕ) (ids : List ℕ) (stats : PublishStats)
    (heap : ℕ → Subscription)
    → let s = (publish_each messages bytes payload ids (stats, heap)).0 in
      (s.enqueued + s.slow_closed ≡ stats.enqueued + stats.slow_closed + length ids)
      × (s.subscribers ≡ stats.subscribers)
unfolding publish_each
publish_each-sum messages bytes payload [] stats heap = (omega arith, refl)
publish_each-sum messages bytes payload (i ∷ rest) stats heap =
    let result = (try_send messages payload bytes (heap i)).0 in
    let (sum, same) = count_send-sum result stats in
    let (sum', same') = publish_each-sum messages bytes payload rest (count_send result stats) _ in
    (omega (arith, sum, sum'), same' ∙ same)

-- After a publish, every subscription of the room either has the payload as its last message or is
-- closed, and the statistics count each of them once, as enqueued or as closed for being slow.
pub publish-Reached :
    (auction : ℕ) (payload : List ℕ) (h : Hub)
    → Distinct (h.rooms auction)
    → All (λ i. Reached payload (h.heap i) ((publish auction payload h).1.heap i)) (h.rooms auction)
      × ((publish auction payload h).0.enqueued + (publish auction payload h).0.slow_closed
          ≡ (publish auction payload h).0.subscribers)
unfolding publish
publish-Reached auction payload h d =
    let ids = h.rooms auction in
    let stats = no_stats (length ids) (length payload) in
    let (sum, same) = publish_each-sum h.queue_messages h.queue_bytes payload ids stats h.heap in
    (
      publish_each-Reached h.queue_messages h.queue_bytes payload ids stats h.heap h.heap d
          (here ids),
      omega (arith, sum, same),
    )
  where
    here : (js : List ℕ) → All (λ j. h.heap j ≡ h.heap j) js
    here [] = tt
    here (j ∷ js) = (refl, here js)
