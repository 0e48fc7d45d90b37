-- ===== src/Proxy/Rank.antt =====
-- The order in which proxy intents of redisengine/engine.go beat each other.
use live_auction.Common.{◌≡◌, ◌≢◌, true, not, arith}
use live_auction.Proxy.{HotProxyIntent, hot_proxy_defender_beats_or_ties}

-- Of two different intents exactly one beats the other.
pub beats_total :
    (a b : HotProxyIntent)
    → a.id ≢ b.id
    → hot_proxy_defender_beats_or_ties a b ≡ not (hot_proxy_defender_beats_or_ties b a)
unfolding hot_proxy_defender_beats_or_ties
beats_total a b n = ground (arith, n)

-- Beating is transitive: with more to spend, or earlier, or with the smaller id.
pub beats_trans :
    (a b c : HotProxyIntent)
    → hot_proxy_defender_beats_or_ties a b ≡ true
    → hot_proxy_defender_beats_or_ties b c ≡ true
    → hot_proxy_defender_beats_or_ties a c ≡ true
unfolding hot_proxy_defender_beats_or_ties
beats_trans a b c e f = ground (arith, e, f)
