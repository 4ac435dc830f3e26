-- ===== src/App/Gps/Counts.antt =====
-- What others see of the callbacks of apps/gateway/app_main.cpp, counted.
use bm_sbc.Prelude.{
  ℕ, suc, ◌+◌, ◌≡◌, refl, Option, none, some, List, [], ◌∷◌, ◌++◌, map, length, arith,
}
use bm_sbc.App.SbcCommand.{AppEvent}
use bm_sbc.App.SbcCommand.Once.{runs}
use bm_sbc.App.Gps.{GpsEvent, set_clock, command, send, datagram}

-- How often the command is run, the clock is set, and a datagram is sent.
unfoldable pub commands : List GpsEvent → ℕ
commands [] = 0
commands (set_clock s n ok ∷ events) = commands events
commands (command e ∷ events) = suc (commands events)
commands (send bytes ∷ events) = commands events

unfoldable pub clock_sets : List GpsEvent → ℕ
clock_sets [] = 0
clock_sets (set_clock s n ok ∷ events) = runs ok + clock_sets events
clock_sets (command e ∷ events) = clock_sets events
clock_sets (send bytes ∷ events) = clock_sets events

unfoldable pub sends : List GpsEvent → ℕ
sends [] = 0
sends (set_clock s n ok ∷ events) = sends events
sends (command e ∷ events) = sends events
sends (send bytes ∷ events) = suc (sends events)

pub counts-append :
    (xs ys : List GpsEvent)
    → (commands (xs ++ ys) ≡ commands xs + commands ys)
      × (clock_sets (xs ++ ys) ≡ clock_sets xs + clock_sets ys)
      × (sends (xs ++ ys) ≡ sends xs + sends ys)
unfolding commands clock_sets sends
counts-append [] ys = omega arith
counts-append (set_clock s n ok ∷ xs) ys = omega (arith, counts-append xs ys)
counts-append (command e ∷ xs) ys = omega (arith, counts-append xs ys)
counts-append (send bytes ∷ xs) ys = omega (arith, counts-append xs ys)

pub counts-command :
    (es : List AppEvent) (bytes : Option (List ℕ))
    → (commands (map command es ++ datagram bytes) ≡ length es)
      × (clock_sets (map command es ++ datagram bytes) ≡ 0)
unfolding commands clock_sets
counts-command [] none = omega arith
counts-command [] (some b) = omega arith
counts-command (e ∷ es) bytes = omega (arith, counts-command es bytes)

pub sends-command : (es : List AppEvent) → sends (map command es ++ []) ≡ 0
unfolding sends
sends-command [] = refl
sends-command (e ∷ es) = sends-command es
