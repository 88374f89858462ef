-- ===== src/Ring/Tests.antt =====
-- A ring of four places, at concrete calls.
use jacktrip.Base.{List, [], arith, ℕ, ◌∷◌, ◌≡◌}
use jacktrip.Ring.{new}
use jacktrip.Ring.Refine.{
  Call, call_push, call_pop, call_size, call_overruns, run, ring_step, queue_step, run-new,
}

abbrev calls : List (Call ℕ)
calls =
    call_push 5
    ∷ call_push 6
    ∷ call_push 7
    ∷ call_push 8
    ∷ call_overruns
    ∷ call_pop 0
    ∷ call_push 9
    ∷ call_pop 0
    ∷ call_size
    ∷ []

run-new_example :
    run (ring_step 4) calls (new 4 0)
    ≡ run (queue_step 4) calls (record { entries = []; misses = 0; drops = 0 })
run-new_example = run-new 4 0 calls (omega arith)
