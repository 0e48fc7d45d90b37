-- ===== src/Hub/Tests.antt =====
-- Runs of backend/internal/realtime/hub.go, and its theorems at a room of two clients.
use live_auction.Common.{◌+◌, ◌≡◌, refl, [], ◌∷◌, All, arith}
use live_auction.Common.Int.{pos}
use live_auction.Hub.{
  Hub, new_hub_with_options, subscribe, ack, consume, publish, publish_each, count_send, after_send,
}
use live_auction.Hub.Queue.{try_send, close_slow}
use live_auction.Hub.Bounds.{
  do_subscribe, do_publish, do_consume, do_ack, hub_step, run_hub, HubBounded, run_hub-HubBounded,
}
use live_auction.Hub.Delivery.{Reached, publish-Reached}

-- Two clients of auction 7, whose queues hold one message.
abbrev two_clients : Hub
two_clients = run_hub (do_subscribe 7 ∷ do_subscribe 7 ∷ []) (new_hub_with_options (pos 1) (pos 10))

-- The first client consumes a message, the second does not, so that the next one closes it.
abbrev one_slow : Hub
one_slow = run_hub (do_publish 7 (1 ∷ 2 ∷ []) ∷ do_consume 0 ∷ do_ack 0 2 ∷ []) two_clients

slow_closed_once : (publish 7 (3 ∷ []) one_slow).0.slow_closed ≡ 1
unfolding publish publish_each count_send after_send try_send close_slow run_hub hub_step subscribe
    new_hub_with_options ack consume
slow_closed_once = refl

run_hub-HubBounded_example :
    HubBounded (
      run_hub (do_subscribe 7 ∷ do_publish 7 (1 ∷ []) ∷ []) (new_hub_with_options (pos 1) (pos 10)))
run_hub-HubBounded_example =
    run_hub-HubBounded (pos 1) (pos 10) (do_subscribe 7 ∷ do_publish 7 (1 ∷ []) ∷ [])

-- Two clients as they are after their subscriptions.
abbrev a_room : Hub
a_room = record (new_hub_with_options (pos 1) (pos 10)) { rooms = λ _. 1 ∷ 0 ∷ []; next = 2 }

publish-Reached_example :
    All (λ i. Reached (1 ∷ []) (a_room.heap i) ((publish 7 (1 ∷ []) a_room).1.heap i)) (1 ∷ 0 ∷ [])
    × ((publish 7 (1 ∷ []) a_room).0.enqueued + (publish 7 (1 ∷ []) a_room).0.slow_closed
        ≡ (publish 7 (1 ∷ []) a_room).0.subscribers)
publish-Reached_example = publish-Reached 7 (1 ∷ []) a_room ((λ e. omega (arith, e), tt), (tt, tt))
