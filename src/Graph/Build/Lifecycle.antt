-- ===== src/Graph/Build/Lifecycle.antt =====
-- The life of a run, as a reviewer sees it: an abstract machine with no tasks, costs or files.
use stack_migrate.Base.{ℕ, ◌+◌, ◌≤◌, ◌≡◌, refl, Bool, true, false, arith}

pub data Stage : Type 0 where
  working packaging deciding publishing over : Stage

-- The stage, whether a human must approve, and how often the publisher was called.
pub record View : Type 0 where
  pub stage : Stage
  pub needs_approval : Bool
  pub calls : ℕ

abbrev pub in_stage : Stage → Bool → ℕ → View
in_stage stage needs calls = record { stage = stage; needs_approval = needs; calls = calls }

-- What may happen next. Work may go on, or end the run; what has passed is packaged; a package waits
-- for a decision or goes out, as the configuration says, or is dropped; and publishing, with one
-- call or none, ends the run.
pub data Moves : View → View → Type 0 where
  stays : {v : View} → Moves v v
  stops : {b : Bool} {n : ℕ} → Moves (in_stage working b n) (in_stage over b n)
  passes : {b : Bool} {n : ℕ} → Moves (in_stage working b n) (in_stage packaging b n)
  asks : {n : ℕ} → Moves (in_stage packaging true n) (in_stage deciding true n)
  goes_out : {n : ℕ} → Moves (in_stage packaging false n) (in_stage publishing false n)
  drops : {b : Bool} {n : ℕ} → Moves (in_stage packaging b n) (in_stage over b n)
  approves : {b : Bool} {n : ℕ} → Moves (in_stage deciding b n) (in_stage publishing b n)
  rejects : {b : Bool} {n : ℕ} → Moves (in_stage deciding b n) (in_stage over b n)
  publishes :
      {b : Bool} {n k : ℕ} → k ≤ 1 → Moves (in_stage publishing b n) (in_stage over b (n + k))

pub data MovesTo (v : View) : View → Type 0 where
  done : MovesTo v v
  next : {w x : View} → MovesTo v w → Moves w x → MovesTo v x

-- How many calls a life adds to those made before it: none before its end, and one at most with it.
unfoldable pub call_bound : Stage → ℕ
call_bound over = 1
call_bound _ = 0

abbrev pub IsBounded : ℕ → View → Type 0
IsBounded before v = v.calls ≤ before + call_bound v.stage

Moves-IsBounded : (before : ℕ) {v w : View} → Moves v w → IsBounded before v → IsBounded before w
unfolding call_bound
Moves-IsBounded before stays h = h
Moves-IsBounded before stops h = omega arith
Moves-IsBounded before passes h = h
Moves-IsBounded before asks h = h
Moves-IsBounded before goes_out h = h
Moves-IsBounded before drops h = omega arith
Moves-IsBounded before approves h = h
Moves-IsBounded before rejects h = omega arith
Moves-IsBounded before (publishes l) h = omega arith

pub MovesTo-IsBounded :
    (before : ℕ) {v w : View} → MovesTo v w → IsBounded before v → IsBounded before w
MovesTo-IsBounded before done h = h
MovesTo-IsBounded before (next w m) h = Moves-IsBounded before m (MovesTo-IsBounded before w h)

pub call_bound-le : (s : Stage) → call_bound s ≤ 1
unfolding call_bound
call_bound-le over = omega arith
call_bound-le working = omega arith
call_bound-le packaging = omega arith
call_bound-le deciding = omega arith
call_bound-le publishing = omega arith

-- Only a run that needs an approval waits for one.
abbrev pub AskedIn : Stage → Bool → Type 0
AskedIn deciding b = b ≡ true
AskedIn _ b = Unit

abbrev pub IsAsked : View → Type 0
IsAsked v = AskedIn v.stage v.needs_approval

Moves-IsAsked : {v w : View} → Moves v w → IsAsked v → IsAsked w
Moves-IsAsked stays h = h
Moves-IsAsked stops h = tt
Moves-IsAsked passes h = tt
Moves-IsAsked asks h = refl
Moves-IsAsked goes_out h = tt
Moves-IsAsked drops h = tt
Moves-IsAsked approves h = tt
Moves-IsAsked rejects h = tt
Moves-IsAsked (publishes l) h = tt

pub MovesTo-IsAsked : {v w : View} → MovesTo v w → IsAsked v → IsAsked w
MovesTo-IsAsked done h = h
MovesTo-IsAsked (next w m) h = Moves-IsAsked m (MovesTo-IsAsked w h)
