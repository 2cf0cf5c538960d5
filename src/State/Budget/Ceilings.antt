-- ===== src/State/Budget/Ceilings.antt =====
-- The ceilings of a budget, and how many calls they leave.
use native.Mathlib.Nat.{mul-le-mul_right, div-mul-le_self}
use stack_migrate.Base.{
  ℕ, zero, suc, ◌+◌, ◌*◌, ◌/◌, ◌≤◌, ◌<◌, ◌≡◌, ◌⊎◌, inl, inr, ◌↔◌, true, false, some, arith,
  Bool-cases, ◌==◌, min, max,
}
use stack_migrate.State.Budget.{
  BudgetState, second, wall_clock_exceeded, exhausted_reason, is_exhausted, remaining_usd,
  call_reserve, affordable_calls,
}

-- A ceiling of the budget is reached at this reading of the clock.
abbrev pub AtCeiling : BudgetState → ℕ → Type 0
AtCeiling b now =
    (b.max_usd ≤ b.spent_usd)
    ⊎ (b.max_llm_calls ≤ b.llm_calls_made)
    ⊎ (b.started_at + b.max_wall_clock_seconds * second ≤ now)

-- What a wave of this many calls may be, of those wanted.
pub record IsAffordable (b : BudgetState) (now wanted n : ℕ) : Type 0 where
  pub within : n ≤ wanted
  pub none_left : AtCeiling b now → n ≡ 0
  pub some_left : is_exhausted b now ≡ false → 1 ≤ wanted → 1 ≤ n
  pub reserved : 1 < n → n * call_reserve b ≤ remaining_usd b + 1

pub exhausted_of_ceiling : (b : BudgetState) (now : ℕ) → AtCeiling b now → is_exhausted b now ≡ true
unfolding is_exhausted exhausted_reason wall_clock_exceeded
exhausted_of_ceiling b now h = ground arith

-- The budget is exhausted exactly when its cost, its calls or its time reach their ceiling.
pub is_exhausted-AtCeiling :
    (b : BudgetState) (now : ℕ) → (is_exhausted b now ≡ true) ↔ AtCeiling b now
unfolding is_exhausted exhausted_reason wall_clock_exceeded
is_exhausted-AtCeiling b now = ground arith

-- A quotient by no reserve is 0.
quotient_le : (money reserve n : ℕ) → n ≤ money / reserve → n * reserve ≤ money
quotient_le money zero n h = omega arith
quotient_le money (suc r) n h =
    let a = mul-le-mul_right (suc r) h in
    let b = div-mul-le_self money (suc r) in omega (arith, a, b)

-- The arithmetic of the calls that a sum of money reserves.
wave_size :
    (wanted money reserve n : ℕ)
    → 1 ≤ wanted
    → n ≡ max 1 (min wanted (money / reserve))
    → (n ≤ wanted) × (1 ≤ n) × (1 < n → n * reserve ≤ money)
wave_size wanted money reserve n h e = (omega arith, omega arith, λ l. reserved l)
  where
    reserved : 1 < n → n * reserve ≤ money
    reserved l = quotient_le money reserve n (omega arith)

-- Whenever `affordable_calls` answers, it allows no more calls than wanted, none at a ceiling, at
-- least one where no ceiling is reached and one is wanted, and more than one only where the
-- remaining money (and the epsilon) reserves each of them.
pub affordable_calls-IsAffordable :
    (b : BudgetState) (now wanted n : ℕ)
    → affordable_calls b now wanted ≡ some n
    → IsAffordable b now wanted n
unfolding affordable_calls
affordable_calls-IsAffordable b now wanted n e = elim (Bool-cases (is_exhausted b now)) [
  | inl x ↦ record {
    within = ground arith;
    none_left = λ c. ground arith;
    some_left = λ o. absurd (cc);
    reserved = ground arith;
  }
  | inr x ↦ elim (Bool-cases (wanted == 0)) [
    | inl z ↦ record {
      within = ground arith;
      none_left = λ c. ground arith;
      some_left = λ o w. absurd (ground arith);
      reserved = λ l. absurd (ground arith);
    }
    | inr z ↦
        let (within, one, reserved) =
          wave_size wanted (remaining_usd b + 1) (call_reserve b) n (ground arith) (ground arith) in
        record {
          within = within;
          none_left = λ c. absurd (cc (x, exhausted_of_ceiling b now c));
          some_left = λ _ _. one;
          reserved = reserved;
        }
  ]
]
