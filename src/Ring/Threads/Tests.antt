-- ===== src/Ring/Threads/Tests.antt =====
-- Two threads on a ring of three places.
use jacktrip.Base.{List, [], arith, ℕ, ◌∷◌}
use jacktrip.Ring.Threads.{Turn, producer_next, consumer_next, interleaving}
use jacktrip.Ring.Threads.Fifo.{start, InOrder, interleaving-InOrder}

abbrev turns : List (Turn ℕ)
turns =
    producer_next 5
    ∷ consumer_next 0
    ∷ producer_next 0
    ∷ producer_next 0
    ∷ consumer_next 0
    ∷ producer_next 6
    ∷ consumer_next 0
    ∷ producer_next 0
    ∷ consumer_next 0
    ∷ consumer_next 0
    ∷ []

interleaving-InOrder_example : InOrder 3 (interleaving 3 turns (start 3 0))
interleaving-InOrder_example = interleaving-InOrder 3 0 turns (omega arith)
