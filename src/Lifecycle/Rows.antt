-- ===== src/Lifecycle/Rows.antt =====
-- The table of auctions of auction/repository.go: what a transaction stores, and a predicate on every row.
use live_auction.Common.{
  ℕ, ◌≡◌, ◌≢◌, refl, subst, ◌⊎◌, inl, inr, Bool, true, false, Option, none, some, List, [], ◌∷◌,
  ◌==◌, if◌then◌else◌, Bool-cases, All, All-map, arith,
}
use live_auction.Lifecycle.Data.{Lot}
use live_auction.Lifecycle.{
  Written, refused, written, find_lot, store, has_other, finish_tx, in_tx, transact,
}

-- The row that a transaction writes satisfies the predicate.
abbrev pub Ensures {κ} : (Lot → Type κ) → Written → Type κ
Ensures P (refused e) = Unit
Ensures P (written l) = P l

abbrev pub Ensures-weaken {κ μ} :
    (P : Lot → Type κ) (Q : Lot → Type μ)
    → ((l : Lot) → P l → Q l)
    → (w : Written) → Ensures P w
    → Ensures Q w
Ensures-weaken P Q f (refused e) v = tt
Ensures-weaken P Q f (written l) v = f l v

pub find_lot-id : (j : ℕ) (ls : List Lot) (x : Lot) → find_lot j ls ≡ some x → x.id ≡ j
find_lot-id j [] x h = absurd (cc)
find_lot-id j (l ∷ ls) x h = elim (Bool-cases (l.id == j)) [
  | inl e ↦ ground (arith, rw e at h)
  | inr n ↦ find_lot-id j ls x (rw n at h)
]

pub find_lot-All {κ} :
    (P : Lot → Type κ) (j : ℕ) (ls : List Lot) (x : Lot) → find_lot j ls ≡ some x → All P ls → P x
find_lot-All P j [] x h v = absurd (cc)
find_lot-All P j (l ∷ ls) x h v = elim (Bool-cases (l.id == j)) [
  | inl e ↦ let same : l ≡ x = cc (rw e at h) in subst P same v.0
  | inr n ↦ find_lot-All P j ls x (rw n at h) v.1
]

-- After a row is stored, its id finds it, and every other id what it found before.
pub find_lot-store :
    (l : Lot) (j : ℕ) (ls : List Lot) (x : Lot)
    → find_lot j (store l ls) ≡ some x
    → ((j ≡ l.id) × (x ≡ l)) ⊎ ((j ≢ l.id) × (find_lot j ls ≡ some x))
find_lot-store l j [] x h = absurd (cc)
find_lot-store l j (y ∷ ys) x h = elim (Bool-cases (y.id == l.id)) [
  | inl e ↦ elim (Bool-cases (l.id == j)) [
    | inl f ↦ inl (ground arith, cc (rw (e, f) at h))
    | inr n ↦
        let other : y.id == j ≡ false = ground arith in
        rw other (find_lot-store l j ys x (rw (e, n) at h))
  ]
  | inr n ↦ elim (Bool-cases (y.id == j)) [
    | inl f ↦ rw f (inr (ground arith, rw (n, f) at h))
    | inr f ↦ rw f (find_lot-store l j ys x (rw (n, f) at h))
  ]
]

-- No other row with the property in the room.
pub has_other-none :
    (p : Lot → Bool) (l : Lot) (ls : List Lot) (j : ℕ) (y : Lot)
    → has_other p l ls ≡ false
    → find_lot j ls ≡ some y
    → p y ≡ true
    → y.room_id ≡ l.room_id
    → j ≡ l.id
has_other-none p l [] j y h f t r = absurd (cc)
has_other-none p l (x ∷ xs) j y h f t r = elim (Bool-cases (x.id == j)) [
  | inl e ↦
      let same : x ≡ y = cc (rw e at f) in
      let here : p x ≡ true = rw same t in
      let room : x.room_id ≡ l.room_id = rw same r in ground arith
  | inr n ↦ has_other-none p l xs j y (ground arith) (rw n at f) t r
]

-- A predicate that the transaction ensures holds on every row after it.
pub transact-All {κ} :
    (P : Lot → Type κ) (id : ℕ) (f : Lot → Written) (ls : List Lot)
    → ((l : Lot) → find_lot id ls ≡ some l → P l → Ensures P (f l))
    → All P ls
    → All P (transact id f ls).1
transact-All P id f ls h v = found (find_lot id ls) refl
  where
    stored : (w : Written) → Ensures P w → All P (finish_tx ls w).1
    stored (refused e) u = v
    stored (written l) u =
        All-map P P (λ x. if x.id == l.id then l else x) (λ x px. split x px (x.id == l.id)) ls v
      where
        split : (x : Lot) → P x → (b : Bool) → P (if b then l else x)
        split x px true = u
        split x px false = px

    found : (o : Option Lot) → find_lot id ls ≡ o → All P (in_tx f ls o).1
    found none e = v
    found (some l) e = stored (f l) (h l e (find_lot-All P id ls l e v))
