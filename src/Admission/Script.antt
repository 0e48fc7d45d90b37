-- ===== src/Admission/Script.antt =====
-- What the GCRA script of backend/internal/gateway/bid_admission.go does to its key, as if the key did not
-- expire.
use native.Mathlib.Nat.{suc-mul, mul_comm}
use live_auction.Common.{
  ℕ, zero, suc, ◌+◌, ◌*◌, ◌-◌, ◌≤◌, ◌<◌, ◌≡◌, refl, sym, subst, Bool, Option, none, some, max, ltb,
  inl, inr, Bool-cases, arith,
}
use live_auction.Admission.Data.{Tat}
use live_auction.Admission.Limits.{read_tat, bid_admission_gcra}

-- The value of a key, expired or not.
abbrev pub tat_of : Option Tat → ℕ
tat_of none = 0
tat_of (some t) = t.value

-- A key lasts for a window longer than its value.
abbrev pub Lasts : ℕ → Option Tat → Type 0
Lasts window none = Unit
Lasts window (some t) = t.value + window ≤ t.expires_at

-- A bid that passes moves the value up by one emission at least, to at most a burst above now.
pub record Charge (now emission burst tat tat' : ℕ) : Type 0 where
  pub level : ℕ
  pub paid : max tat now + emission ≤ level
  pub room : level ≤ now + burst * emission
  pub reached : level ≤ tat'

-- The script sees the value of the key, or 0 where that makes no difference.
read_tat_lem :
    (window now at : ℕ) (key : Option Tat)
    → at ≤ now + window
    → Lasts window key
    → (max (read_tat at key) now ≡ max (tat_of key) now)
      × (now < read_tat at key → read_tat at key ≡ tat_of key)
read_tat_lem window now at none late v = (refl, λ h. refl)
read_tat_lem window now at (some t) late v = (ground (arith, late, v), λ h. ground (arith, h))

burst_lem : (burst emission : ℕ) → 0 < burst → (burst - 1) * emission + emission ≡ burst * emission
burst_lem zero emission h = absurd (omega (arith, h))
burst_lem (suc n) emission h =
    subst (λ (k : ℕ). k * emission + emission ≡ suc n * emission) (omega arith)
      (sym (suc-mul n emission))

module _ (window now at emission burst : ℕ) (key : Option Tat) where
  abbrev refuses : Bool
  refuses = ltb (now + (burst - 1) * emission) (read_tat at key)

  abbrev pub after : ℕ × Option Tat
  after = bid_admission_gcra at now emission burst (window + emission * burst) key

  pub bid_admission_gcra-grows : at ≤ now + window → Lasts window key → tat_of key ≤ tat_of after.1
  unfolding bid_admission_gcra
  bid_admission_gcra-grows late v = elim (Bool-cases refuses) [
    | inl above ↦ rw (above, bid_admission_gcra) (omega arith)
    | inr below ↦
        rw (below, bid_admission_gcra)
          (let (same, _) = read_tat_lem window now at key late v in omega (arith, same))
  ]

  pub bid_admission_gcra-Lasts :
      0 < burst → now ≤ at → at ≤ now + window → Lasts window key → Lasts window after.1
  unfolding bid_admission_gcra
  bid_admission_gcra-Lasts pos early late v = elim (Bool-cases refuses) [
    | inl above ↦ rw (above, bid_admission_gcra) v
    | inr below ↦
        rw (below, bid_admission_gcra)
          (let b = burst_lem burst emission pos in
            let c = mul_comm burst emission in ground (arith, b, c, below, early))
  ]

  pub bid_admission_gcra-Charge :
      0 < burst
      → at ≤ now + window
      → Lasts window key
      → after.0 ≡ 0
      → Charge now emission burst (tat_of key) (tat_of after.1)
  unfolding bid_admission_gcra
  bid_admission_gcra-Charge pos late v ok = elim (Bool-cases refuses) [
    | inl above ↦ absurd (ground (arith, above, rw (above, bid_admission_gcra) at ok))
    | inr below ↦
        rw (below, bid_admission_gcra)
          (let (same, _) = read_tat_lem window now at key late v in
            let b = burst_lem burst emission pos in
            record {
              level = max (read_tat at key) now + emission;
              paid = omega (arith, same);
              room = ground (arith, b, below);
              reached = omega arith;
            })
  ]
