-- ===== src/Proxy/Tests.antt =====
-- The proxy bids of redisengine/engine.go at the small auction.
mod Resolver
use live_auction.Common.{◌+◌, ◌≡◌, ◌≢◌, refl, true, not, some, [], ◌∷◌, arith}
use live_auction.Engine.State.{Live, read_hash, seed_hash}
use live_auction.Engine.Store.{base_price}
use live_auction.Engine.Rebuild.{scan_row}
use live_auction.Engine.Tests.{a_hash}
use live_auction.Proxy.{
  HotProxyIntent, hot_proxy_defender_beats_or_ties, hot_proxy_defending_amount, find_defender,
  defend, choose_each, choose_step,
}
use live_auction.Proxy.Within.{Within, choose_step-Within}
use live_auction.Proxy.Rank.{beats_total, beats_trans}

-- User 8 leads at 15.00 with a proxy up to 50.00; the proxies of user 7 and of user 6 go to 30.00, that of
-- user 7 is the earlier one.
abbrev leading : Live
leading = record (read_hash a_hash) {
  current_price = 1500;
  current_winner = some 8;
  accepted_bid_count = 1;
}

abbrev pub of_8 : HotProxyIntent
of_8 = record { id = 1; user_id = 8; max_amount_cents = 5000; created_at = 10 }

abbrev pub of_7 : HotProxyIntent
of_7 = record { id = 2; user_id = 7; max_amount_cents = 3000; created_at = 11 }

abbrev pub of_6 : HotProxyIntent
of_6 = record { id = 3; user_id = 6; max_amount_cents = 3000; created_at = 12 }

defended : (choose_step leading (of_8 ∷ of_7 ∷ of_6 ∷ [])).step ≡ some (of_8, 3500)
unfolding choose_step choose_each find_defender defend hot_proxy_defending_amount
    hot_proxy_defender_beats_or_ties base_price read_hash seed_hash scan_row
defended = refl

choose_step-Within_example :
    Within (base_price leading + leading.increment) (choose_step leading (of_8 ∷ of_7 ∷ [])).step
choose_step-Within_example = choose_step-Within leading (of_8 ∷ of_7 ∷ [])
