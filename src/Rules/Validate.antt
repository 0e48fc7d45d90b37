-- ===== src/Rules/Validate.antt =====
-- `ValidateRule` of backend/internal/auction/rules.go: what a rule without violations promises, and
-- that the suggested caps are valid.
use native.Mathlib.Nat.{
  div-add-mod, mod-le, mul-zero, mul_comm, mul-mod_left, mul-mod_right, mul-suc, mod-lt,
}
use live_auction.Common.{
  ℕ, suc, ◌+◌, ◌-◌, ◌*◌, ◌/◌, ◌%◌, ◌^◌, ◌≤◌, ◌<◌, ◌≡◌, refl, sym, subst, ◌∙◌, zero, ◌↔◌, not, ltb,
  ◌==◌, if◌then◌else◌, some, All, Bool-cases, inl, inr, List, [], ◌∷◌, ◌++◌, arith,
}
use live_auction.Common.Int.{ℤ, pos, negsuc, pos_part, ◌≤ℤ◌, ◌<ℤ◌, +ℤ_pos, -ℤ_pos, rem_ℤ_pos}
use live_auction.Rules.{
  RuleInput, RuleViolation, cap_unreachable, cap_off_grid, when, check_cap, validate_rule,
}

-- The cap is the price after one or more bids of one increment each.
abbrev pub IsReachable : ℕ → ℕ → ℕ → Type 0
IsReachable start increment cap = (k : ℕ) × (cap ≡ start + suc k * increment)

-- The check of a cap over numbers that stay in the range of `int64`.
abbrev cap_violations : ℕ → ℕ → ℕ → List RuleViolation
cap_violations start increment cap =
    if ltb cap (start + increment)
    then cap_unreachable (pos (start + increment)) (pos (start + increment + increment)) ∷ []
    else when (not ((cap - start) % increment == 0)) (
        cap_off_grid (pos (cap - (cap - start) % increment))
          (pos (cap - (cap - start) % increment + increment)))

multiple_of-mod : (d m : ℕ) → m ≤ d → 0 < m → d % m ≡ 0 → (k : ℕ) × (d ≡ suc k * m)
multiple_of-mod d m h p e = go (d / m) (div-add-mod d m)
  where
    go : (q : ℕ) → m * q + d % m ≡ d → (k : ℕ) × (d ≡ suc k * m)
    go zero f = absurd (omega (arith, e, f, mul-zero m))
    go (suc k) f = (k, omega (arith, e, f, mul_comm m (suc k)))

append-eq-nil {ℓ} : {A : Type ℓ} (xs ys : List A) → xs ++ ys ≡ [] → (xs ≡ []) × (ys ≡ [])
append-eq-nil [] ys h = (refl, h)
append-eq-nil (x ∷ xs) ys h = absurd (cc)

module _ (start increment cap : ℕ) (p : 0 < increment)
    (fits : start + increment + increment < 2 ^ 63) (fits' : cap + increment < 2 ^ 63) where
  check_cap-eq :
      check_cap (pos start) (pos increment) (some (pos cap)) ≡ cap_violations start increment cap
  unfolding check_cap
  check_cap-eq = ground (
    arith,
    +ℤ_pos start increment,
    +ℤ_pos (start + increment) increment,
    -ℤ_pos cap start,
    rem_ℤ_pos (cap - start) increment,
    mod-le (cap - start) increment,
    -ℤ_pos cap ((cap - start) % increment),
    +ℤ_pos (cap - (cap - start) % increment) increment,
  )

  -- A cap passes the check exactly when some positive number of increments above the start reaches it.
  pub check_cap_iff :
      (check_cap (pos start) (pos increment) (some (pos cap)) ≡ [])
      ↔ IsReachable start increment cap
  check_cap_iff = (
    λ none_found.
        let ok : cap_violations start increment cap ≡ [] = sym check_cap-eq ∙ none_found in
        let (k, e) =
          multiple_of-mod (cap - start) increment (ground (arith, ok)) p (ground (arith, ok)) in
        (k, ground (arith, ok, e)),
    λ (k, e).
        check_cap-eq
        ∙ (let gap : cap - start ≡ suc k * increment = omega (arith, e) in
            let even : (cap - start) % increment ≡ 0 = rw gap (mul-mod_left (suc k) increment) in
            let high : start + increment ≤ cap = omega (arith, e) in ground (arith, even, high)),
  )

abbrev pub suggested_caps : List RuleViolation → List ℤ
suggested_caps [] = []
suggested_caps (cap_unreachable a b ∷ vs) = a ∷ b ∷ suggested_caps vs
suggested_caps (cap_off_grid a b ∷ vs) = a ∷ b ∷ suggested_caps vs
suggested_caps (_ ∷ vs) = suggested_caps vs

-- What is left of `d` without its remainder is a positive multiple.
lower-multiple : (d m : ℕ) → 0 < m → m ≤ d → (k : ℕ) × (d - d % m ≡ suc k * m)
lower-multiple d m p h =
    multiple_of-mod (d - d % m) m (omega (arith, first)) p (rw split (mul-mod_right m (d / m)))
  where
    split : d - d % m ≡ m * (d / m)
    split = omega (arith, div-add-mod d m)

    -- `d / m` is not 0, since `m ≤ d`.
    first : m ≤ d - d % m
    first = ground (arith, div-add-mod d m, mod-lt d p, go (d / m) split)
      where
        go : (q : ℕ) → d - d % m ≡ m * q → m ≤ d - d % m
        go zero f = omega (arith, f, mul-zero m, mod-lt d p)
        go (suc k) f = rw f (omega (arith, mul-suc m k))

module _ (start increment cap : ℕ) (p : 0 < increment) (small_start : start < 2 ^ 61)
    (small_increment : increment < 2 ^ 61) (small_cap : cap < 2 ^ 61) where
  abbrev Passes : ℤ → Type 0
  Passes c = check_cap (pos start) (pos increment) (some c) ≡ []

  reachable-Passes :
      (c k : ℕ) → c + increment < 2 ^ 63 → c ≡ start + suc k * increment → Passes (pos c)
  reachable-Passes c k small e =
      (check_cap_iff start increment c p (omega arith) (omega arith)).1 (k, e)

  off_grid-Passes :
      start + increment ≤ cap
      → Passes (pos (cap - (cap - start) % increment))
        × Passes (pos (cap - (cap - start) % increment + increment))
  off_grid-Passes high =
      let (k, e) = lower-multiple (cap - start) increment p (omega arith) in
      let le : (cap - start) % increment ≤ cap - start = mod-le (cap - start) increment in
      (
        reachable-Passes _ k (omega arith) (omega (arith, e, le)),
        reachable-Passes _ (suc k) (omega arith) (omega (arith, e, le)),
      )

  -- Every cap that is suggested in place of a refused one passes the check itself.
  suggested_caps-valid :
      All Passes (suggested_caps (check_cap (pos start) (pos increment) (some (pos cap))))
  suggested_caps-valid =
      rw (check_cap-eq start increment cap p (omega arith) (omega arith))
        (elim (Bool-cases (ltb cap (start + increment))) [
          | inl low ↦ rw low (
            reachable-Passes (start + increment) 0 (omega arith) (omega arith),
            (reachable-Passes (start + increment + increment) 1 (omega arith) (omega arith), tt),
          )
          | inr high ↦ rw high (elim (Bool-cases ((cap - start) % increment == 0)) [
            | inl even ↦ rw even tt
            | inr odd ↦
                let (lower, upper) = off_grid-Passes (ground arith) in rw odd (lower, (upper, tt))
          ])
        ])

-- What a rule promises: every field in its range, a fat-finger threshold above the increment, and a
-- cap that some positive number of bids reaches.
pub record IsValidRule (r : RuleInput) : Type 0 where
  pub start : pos 0 ≤ℤ r.start_price_cents
  pub increment : pos 0 <ℤ r.increment_cents
  pub duration : (pos 30 ≤ℤ r.duration_seconds) × (r.duration_seconds ≤ℤ pos 86400)
  pub window : (pos 10 ≤ℤ r.extend_window_seconds) × (r.extend_window_seconds ≤ℤ pos 30)
  pub by : (pos 10 ≤ℤ r.extend_by_seconds) × (r.extend_by_seconds ≤ℤ pos 30)
  pub count : (pos 1 ≤ℤ r.max_extend_count) × (r.max_extend_count ≤ℤ pos 10)
  pub fat_finger : (t : ℤ) → r.fat_finger_threshold_cents ≡ some t → r.increment_cents <ℤ t
  pub reachable :
      (c : ℕ)
      → r.cap_price_cents ≡ some (pos c)
      → IsReachable (pos_part r.start_price_cents) (pos_part r.increment_cents) c

check_cap-IsReachable :
    (a b : ℤ) (c : ℕ)
    → pos 0 ≤ℤ a
    → pos 0 <ℤ b
    → pos_part a < 2 ^ 61
    → pos_part b < 2 ^ 61
    → c < 2 ^ 61
    → check_cap a b (some (pos c)) ≡ []
    → IsReachable (pos_part a) (pos_part b) c
check_cap-IsReachable (pos a) (pos b) c ha hb sa sb sc h =
    (check_cap_iff a b c (omega arith) (omega arith) (omega arith)).0 h
check_cap-IsReachable (pos a) (negsuc b) c ha hb sa sb sc h = absurd (omega arith)
check_cap-IsReachable (negsuc a) b c ha hb sa sb sc h = absurd (omega arith)

-- For prices that stay clear of the ends of `int64`: a rule is found without a violation only if
-- every field is in its range, the optional fields that depend on each other fit, and its cap can be
-- reached from the start price in steps of the increment.
pub validate_rule-IsValidRule :
    (r : RuleInput)
    → pos_part r.start_price_cents < 2 ^ 61
    → pos_part r.increment_cents < 2 ^ 61
    → ((c : ℕ) → r.cap_price_cents ≡ some (pos c) → c < 2 ^ 61)
    → validate_rule r ≡ []
    → IsValidRule r
unfolding validate_rule
validate_rule-IsValidRule r s i c h = record {
  start = ground arith;
  increment = ground arith;
  duration = ground arith;
  window = ground arith;
  by = ground arith;
  count = ground arith;
  fat_finger = λ t e. ground arith;
  reachable = λ k e.
      check_cap-IsReachable r.start_price_cents r.increment_cents k (ground arith) (ground arith) s
        i (c k e)
        (subst (λ o. check_cap r.start_price_cents r.increment_cents o ≡ []) e
          (append-eq-nil _ (check_cap r.start_price_cents r.increment_cents r.cap_price_cents)
            h).1);
}
