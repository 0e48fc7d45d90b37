-- ===== src/Outbox/Keys.antt =====
-- What holds of the rows of the outbox by their keys, and survives the updates of
-- backend/internal/outbox/relay.go.
use live_auction.Common.{
  ℕ, ◌<◌, ◌≡◌, refl, sym, subst, ◌∙◌, Bool, true, false, ◌&&◌, ◌||◌, List, [], ◌∷◌, map, ◌==◌, inl,
  inr, Bool-cases, All, All-map, All-weaken, arith,
}
use live_auction.Outbox.Data.{Delivery, Sent}
use live_auction.Outbox.Rows.{set_row}

-- Number `n` of the auction `a` is in the history.
unfoldable pub has_sent : List Sent → ℕ → ℕ → Bool
has_sent [] a n = false
has_sent (e ∷ sent) a n =
    let later = has_sent sent a n in (e.auction_id == a && e.seq == n) || later

unfoldable pub has_letter : List ℕ → ℕ → Bool
has_letter [] id = false
has_letter (i ∷ letters) id = let later = has_letter letters id in i == id || later

-- The event was pushed, or given up with a dead letter.
abbrev pub handled : List Sent → List ℕ → ℕ → ℕ → ℕ → Bool
handled sent letters id a n = has_sent sent a n || has_letter letters id

abbrev pub IsHandled : List Sent → List ℕ → Delivery → Type 0
IsHandled sent letters d = handled sent letters d.outbox_id d.auction_id d.auction_seq ≡ true

-- If the row comes before number `n` of the auction, it was handled.
abbrev pub Prior : List Sent → List ℕ → ℕ → ℕ → Delivery → Type 0
Prior sent letters a n p = p.auction_id ≡ a → p.auction_seq < n → IsHandled sent letters p

-- Whatever is in the history, everything before it in the auction was handled before.
abbrev pub NoGap : List ℕ → List Delivery → List Sent → Type 0
NoGap letters rows [] = Unit
NoGap letters rows (e ∷ sent) =
    All (Prior sent letters e.auction_id e.seq) rows × NoGap letters rows sent

-- The keys of a row, which no update changes.
pub record SameKey (d d' : Delivery) : Type 0 where
  pub id : d'.outbox_id ≡ d.outbox_id
  pub auction : d'.auction_id ≡ d.auction_id
  pub number : d'.auction_seq ≡ d.auction_seq
  pub shard : d'.shard_id ≡ d.shard_id

pub set_row-SameKey :
    (id : ℕ) (f : Delivery → Delivery)
    → ((d : Delivery) → SameKey d (f d))
    → (d : Delivery) → SameKey d (set_row id f d)
set_row-SameKey id f k d = elim (Bool-cases (d.outbox_id == id)) [
  | inl hit ↦ rw hit (k d)
  | inr miss ↦ rw miss (record { id = refl; auction = refl; number = refl; shard = refl })
]

pub IsHandled-SameKey :
    (sent : List Sent) (letters : List ℕ) (d d' : Delivery)
    → SameKey d d'
    → IsHandled sent letters d
    → IsHandled sent letters d'
IsHandled-SameKey sent letters d d' k h =
    subst (λ (t : ℕ). handled sent letters t d'.auction_id d'.auction_seq ≡ true) (sym k.id)
      (subst (λ (t : ℕ). handled sent letters d.outbox_id t d'.auction_seq ≡ true) (sym k.auction)
        (subst (λ (t : ℕ). handled sent letters d.outbox_id d.auction_id t ≡ true) (sym k.number)
          h))

pub Prior-SameKey :
    (sent : List Sent) (letters : List ℕ) (a n : ℕ) (d d' : Delivery)
    → SameKey d d'
    → Prior sent letters a n d
    → Prior sent letters a n d'
Prior-SameKey sent letters a n d d' k h same less =
    IsHandled-SameKey sent letters d d' k (h (sym k.auction ∙ same) (omega (arith, k.number)))

-- More events and more letters handle no less.
pub handled-more :
    (e : Sent) (sent : List Sent) (letters : List ℕ) (id a n : ℕ)
    → handled sent letters id a n ≡ true
    → handled (e ∷ sent) letters id a n ≡ true
unfolding has_sent
handled-more e sent letters id a n h = ground (arith, h)

pub handled-letter :
    (i : ℕ) (sent : List Sent) (letters : List ℕ) (id a n : ℕ)
    → handled sent letters id a n ≡ true
    → handled sent (i ∷ letters) id a n ≡ true
unfolding has_letter
handled-letter i sent letters id a n h = ground (arith, h)

module _ (g : Delivery → Delivery) (k : (d : Delivery) → SameKey d (g d)) where
  pub NoGap-map :
      (letters : List ℕ) (rows : List Delivery) (sent : List Sent)
      → NoGap letters rows sent
      → NoGap letters (map g rows) sent
  NoGap-map letters rows [] v = tt
  NoGap-map letters rows (e ∷ sent) v = (
    All-map _ _ g (λ d p. Prior-SameKey sent letters e.auction_id e.seq d (g d) (k d) p) rows v.0,
    NoGap-map letters rows sent v.1,
  )

pub NoGap-letter :
    (i : ℕ) (letters : List ℕ) (rows : List Delivery) (sent : List Sent)
    → NoGap letters rows sent
    → NoGap (i ∷ letters) rows sent
NoGap-letter i letters rows [] v = tt
NoGap-letter i letters rows (e ∷ sent) v = (
  All-weaken (Prior sent letters e.auction_id e.seq) _
      (λ d p same less.
        handled-letter i sent letters d.outbox_id d.auction_id d.auction_seq (p same less))
      rows v.0,
  NoGap-letter i letters rows sent v.1,
)

-- A new row has a number above everything in the history of its auction.
pub NoGap-cons :
    (letters : List ℕ) (d : Delivery) (rows : List Delivery) (sent : List Sent)
    → All (λ e. e.auction_id ≡ d.auction_id → e.seq < d.auction_seq) sent
    → NoGap letters rows sent
    → NoGap letters (d ∷ rows) sent
NoGap-cons letters d rows [] b v = tt
NoGap-cons letters d rows (e ∷ sent) b v = (
  (λ same less. absurd (omega (arith, b.0 (sym same), less)), v.0),
  NoGap-cons letters d rows sent b.1 v.1,
)
