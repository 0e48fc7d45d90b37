-- ===== src/Proxy/Ranked.antt =====
-- The list of intents that a round of redisengine/engine.go loads: every active row, the strongest
-- intent first.
use live_auction.Common.{
  ◌≤◌, ◌≡◌, ◌≢◌, sym, true, false, List, [], ◌∷◌, inl, inr, Bool-cases, All, All-weaken, arith,
}
use live_auction.Proxy.{HotProxyIntent, hot_proxy_defender_beats_or_ties}
use live_auction.Proxy.Rank.{beats_total, beats_trans}
use live_auction.Proxy.Intents.{insert_ranked, ranked}

abbrev pub Beats : HotProxyIntent → HotProxyIntent → Type 0
Beats i j = hot_proxy_defender_beats_or_ties i j ≡ true

abbrev pub IsRanked : List HotProxyIntent → Type 0
IsRanked [] = Unit
IsRanked (i ∷ rest) = All (Beats i) rest × IsRanked rest

-- Ids and users are keys of the table.
abbrev pub Differs : HotProxyIntent → HotProxyIntent → Type 0
Differs i j = (i.id ≢ j.id) × (i.user_id ≢ j.user_id)

abbrev pub IsKeyed : List HotProxyIntent → Type 0
IsKeyed [] = Unit
IsKeyed (i ∷ rest) = All (Differs i) rest × IsKeyed rest

pub Beats-max : (i j : HotProxyIntent) → Beats i j → j.max_amount_cents ≤ i.max_amount_cents
unfolding hot_proxy_defender_beats_or_ties
Beats-max i j b = ground (arith, b)

pub Beats-asym : (i j : HotProxyIntent) → Beats i j → hot_proxy_defender_beats_or_ties j i ≡ false
unfolding hot_proxy_defender_beats_or_ties
Beats-asym i j b = ground (arith, b)

module _ {κ} (P : HotProxyIntent → Type κ) where
  All-insert_ranked :
      (i : HotProxyIntent) (xs : List HotProxyIntent) → P i → All P xs → All P (insert_ranked i xs)
  unfolding insert_ranked
  All-insert_ranked i [] p v = (p, tt)
  All-insert_ranked i (j ∷ rest) p v = elim (Bool-cases (hot_proxy_defender_beats_or_ties i j)) [
    | inl first ↦ rw first (p, v)
    | inr later ↦ rw later (v.0, All-insert_ranked i rest p v.1)
  ]

  pub All-ranked : (xs : List HotProxyIntent) → All P xs → All P (ranked xs)
  unfolding ranked
  All-ranked [] v = tt
  All-ranked (i ∷ rest) v = All-insert_ranked i (ranked rest) v.0 (All-ranked rest v.1)

  of_insert_ranked :
      (i : HotProxyIntent) (xs : List HotProxyIntent) → All P (insert_ranked i xs) → P i × All P xs
  unfolding insert_ranked
  of_insert_ranked i [] v = v
  of_insert_ranked i (j ∷ rest) v = elim (Bool-cases (hot_proxy_defender_beats_or_ties i j)) [
    | inl first ↦ (rw first at v)
    | inr later ↦
        let v' : P j × All P (insert_ranked i rest) = rw later at v in
        ((of_insert_ranked i rest v'.1).0, (v'.0, (of_insert_ranked i rest v'.1).1))
  ]

  pub of_All-ranked : (xs : List HotProxyIntent) → All P (ranked xs) → All P xs
  unfolding ranked
  of_All-ranked [] v = tt
  of_All-ranked (i ∷ rest) v =
      let parts = of_insert_ranked i (ranked rest) v in (parts.0, of_All-ranked rest parts.1)

insert_ranked-IsRanked :
    (i : HotProxyIntent) (xs : List HotProxyIntent)
    → All (Differs i) xs
    → IsRanked xs
    → IsRanked (insert_ranked i xs)
unfolding insert_ranked
insert_ranked-IsRanked i [] d s = (tt, tt)
insert_ranked-IsRanked i (j ∷ rest) d s = elim (Bool-cases (hot_proxy_defender_beats_or_ties i j)) [
  | inl first ↦ rw first ((first, All-weaken _ _ (λ k b. beats_trans i j k first b) rest s.0), s)
  | inr later ↦
      let behind : Beats j i = ground (arith, later, beats_total i j d.0.0) in
      rw later
        (All-insert_ranked (Beats j) i rest behind s.0, insert_ranked-IsRanked i rest d.1 s.1)
]

pub ranked-IsRanked : (xs : List HotProxyIntent) → IsKeyed xs → IsRanked (ranked xs)
unfolding ranked
ranked-IsRanked [] k = tt
ranked-IsRanked (i ∷ rest) k =
    insert_ranked-IsRanked i (ranked rest) (All-ranked (Differs i) rest k.0)
      (ranked-IsRanked rest k.1)

Differs-sym : (i j : HotProxyIntent) → Differs i j → Differs j i
Differs-sym i j d = (λ e. d.0 (sym e), λ e. d.1 (sym e))

insert_ranked-IsKeyed :
    (i : HotProxyIntent) (xs : List HotProxyIntent)
    → All (Differs i) xs
    → IsKeyed xs
    → IsKeyed (insert_ranked i xs)
unfolding insert_ranked
insert_ranked-IsKeyed i [] d k = (tt, tt)
insert_ranked-IsKeyed i (j ∷ rest) d k = elim (Bool-cases (hot_proxy_defender_beats_or_ties i j)) [
  | inl first ↦ rw first (d, k)
  | inr later ↦ rw later (
    All-insert_ranked (Differs j) i rest (Differs-sym i j d.0) k.0,
    insert_ranked-IsKeyed i rest d.1 k.1,
  )
]

pub ranked-IsKeyed : (xs : List HotProxyIntent) → IsKeyed xs → IsKeyed (ranked xs)
unfolding ranked
ranked-IsKeyed [] k = tt
ranked-IsKeyed (i ∷ rest) k =
    insert_ranked-IsKeyed i (ranked rest) (All-ranked (Differs i) rest k.0)
      (ranked-IsKeyed rest k.1)
