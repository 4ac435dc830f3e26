-- ===== src/App/Multinode.antt =====
-- apps/multinode/app_main.cpp: one ping and one message, three seconds after the first round of the loop.
-- Times of the monotonic clock are in nanoseconds; the rounding of the elapsed seconds is left out.
use bm_sbc.Prelude.{
  ℕ, ◌+◌, ◌≡◌, refl, Bool, true, false, Option, none, some, List, [], ◌∷◌, ◌++◌, ltb, if◌then◌else◌,
  arith,
}

-- The static variables; `start_time` is there once it is recorded.
pub record Multinode : Type 0 where
  pub start_time : Option ℕ
  pub actions_done : Bool

pub data Action : Type 0 where
  send_ping publish : Action

-- `k_delay_sec`.
abbrev pub delay : ℕ
delay = 3000000000

-- `loop`, with what `clock_gettime` gives.
pub loop : ℕ → Multinode → Multinode × List Action
loop now s = if s.actions_done then (s, []) else elim s.start_time [
  | none ↦ (record s { start_time = some now }, [])
  | some start ↦
      if ltb now (start + delay)
      then (s, [])
      else (record s { actions_done = true }, send_ping ∷ publish ∷ [])
]

-- Rounds of the loop, at these times.
pub rounds : List ℕ → Multinode → Multinode × List Action
rounds [] s = (s, [])
rounds (now ∷ times) s =
    let (s', actions) = loop now s in let (s'', later) = rounds times s' in (s'', actions ++ later)

abbrev pub multinode : Multinode
multinode = record { start_time = none; actions_done = false }

-- Whether one of the times is as late as the delay wants.
pub some_late : ℕ → List ℕ → Bool
some_late start [] = false
some_late start (now ∷ times) = if ltb now (start + delay) then some_late start times else true

after_done : (times : List ℕ) (s : Multinode) → s.actions_done ≡ true → (rounds times s).1 ≡ []
unfolding rounds loop
after_done [] s done = refl
after_done (now ∷ times) s done = ground (arith, after_done times s)

after_start :
    (times : List ℕ) (start : ℕ)
    → (rounds times (record { start_time = some start; actions_done = false })).1
      ≡ (if some_late start times then send_ping ∷ publish ∷ [] else [])
unfolding rounds loop some_late
after_start [] start = refl
after_start (now ∷ times) start = ground (
  arith,
  after_start times start,
  after_done times (record { start_time = some start; actions_done = true }),
)

-- Whatever the times of the rounds: the node sends one ping and then publishes one message if a round
-- after the first comes three seconds or more after it, and else does neither; it never does so twice.
pub rounds_lem :
    (first : ℕ) (times : List ℕ)
    → (rounds (first ∷ times) multinode).1
      ≡ (if some_late first times then send_ping ∷ publish ∷ [] else [])
unfolding rounds loop
rounds_lem first times = after_start times first
