-- ===== src/Tests/Rings.antt =====
-- Runs of a ring with two slots.
use orderbooks.Ring.Order.{schedule-delivers, schedule-races_nowhere}
use orderbooks.Prelude.{◌^◌, ◌≤◌, length, ◌++◌, ℕ, arith, refl, [], ◌∷◌, List, inl, ◌≡◌, ◌<◌, ◌≢◌}
use orderbooks.Ring.{new_ring, index}
use orderbooks.Ring.Steps.{
  guard_push, consumer_step, producer_step, Move, produce, consume, schedule, new_machine, cleared,
  ready,
}
use orderbooks.Ring.Claim.{run_refines, run_queue, run, Op, push, pop, claim}

narrow : 1 < 64
narrow = omega arith

abbrev calls : List (Op ℕ)
calls = push 5 ∷ push 6 ∷ push 7 ∷ pop ∷ claim 3 ∷ pop ∷ []

run_refines_example : run 1 narrow calls (new_ring 0) ≡ run_queue 1 narrow calls []
run_refines_example = run_refines 1 narrow calls 0

-- A whole push, the guard of the next, and the guard of a pop.
abbrev moves : List (Move ℕ)
moves = produce 5 ∷ produce 5 ∷ produce 5 ∷ produce 5 ∷ produce 6 ∷ consume ∷ []

schedule-delivers_example :
    let m = schedule 1 moves (new_machine 0) in
    (xs : List ℕ) × (m.pushed ≡ m.popped ++ xs) × (length xs ≤ 2 ^ 1)
schedule-delivers_example = schedule-delivers 1 narrow moves 0

moves_lem :
    let m = schedule 1 moves (new_machine 0) in (m.producer ≡ cleared 6) × (m.consumer ≡ ready)
unfolding schedule producer_step consumer_step guard_push
moves_lem = (refl, refl)

schedule-races_nowhere_example :
    let m = schedule 1 moves (new_machine 0) in index 1 m.ring.head ≢ index 1 m.ring.tail
schedule-races_nowhere_example =
    schedule-races_nowhere 1 narrow moves 0 6 (inl moves_lem.0) moves_lem.1
