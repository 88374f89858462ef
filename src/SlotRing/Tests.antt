-- ===== src/SlotRing/Tests.antt =====
-- A ring of two slots of one byte, at concrete calls; levels are counted in hundredths.
use jacktrip.SlotRing.Blocking.Delivery.{IsFair, start_threads, slot_rounds-start_threads}
use jacktrip.SlotRing.Blocking.Turns.{IsRunning}
use jacktrip.SlotRing.Blocking.{Turn, writer_next, reader_next, slot_rounds}
use jacktrip.SlotRing.Queue.Accounts.{
  KeepsStats, inserts, losses, reads, total, after_calls, Balanced, after_calls-Balanced,
}
use jacktrip.SlotRing.{Doubles, ring_buffer_of}
use jacktrip.SlotRing.Queue.{
  SlotCall, call_insert, call_read, call_stats, Fits, slot_ring_step, slot_queue_step, new_queue,
  run_slots,
}
use jacktrip.SlotRing.Queue.Refine.{run_slots-ring_buffer_of}
use jacktrip.Base.{
  All, List, [], arith, false, ltb, max, refl, replicate, ℕ, ◌*◌, ◌++◌, ◌+◌, ◌-◌, ◌/◌, ◌∷◌, ◌≡◌,
}

abbrev hundredths : Doubles
hundredths = record {
  Double = ℕ;
  from_int = λ n. 100 * n;
  minus = λ a b. a - b;
  less = ltb;
  greatest = max;
  down_rate = 1;
  ceil = λ n. (n + 99) / 100;
}

abbrev calls : List SlotCall
calls =
    call_insert (5 ∷ []) 1 0
    ∷ call_insert (6 ∷ []) 1 0
    ∷ call_insert (7 ∷ []) 2 0
    ∷ call_read
    ∷ call_read
    ∷ call_insert (8 ∷ []) 1 1
    ∷ call_stats false
    ∷ []

calls-Fit : All (Fits 1 2) calls
unfolding Fits
calls-Fit = (refl, (refl, (refl, (tt, (tt, (refl, (tt, tt)))))))

run_slots-ring_buffer_of_example :
    run_slots (slot_ring_step hundredths 1 2) calls (ring_buffer_of hundredths 1 2 0 0)
    ≡ run_slots (slot_queue_step 1 2) calls (new_queue 1 2 0)
run_slots-ring_buffer_of_example =
    run_slots-ring_buffer_of hundredths 1 2 calls 0 0 (omega arith) (omega arith) calls-Fit

abbrev fills : List SlotCall
fills = call_insert (5 ∷ []) 1 0 ∷ call_insert (6 ∷ []) 1 3 ∷ call_read ∷ []

fills-KeepsStats : All KeepsStats fills
unfolding KeepsStats
fills-KeepsStats = (tt, (tt, (tt, tt)))

after_calls-Balanced_example :
    Balanced hundredths 1 2
      (ring_buffer_of hundredths 1 2 0 0)
      (after_calls hundredths 1 2 fills (ring_buffer_of hundredths 1 2 0 0))
      (total (inserts 1) fills)
      (total (losses 1) fills)
      (total (reads 1) fills)
after_calls-Balanced_example =
    after_calls-Balanced hundredths 1 2 fills (ring_buffer_of hundredths 1 2 0 0) fills-KeepsStats

abbrev written : List (List ℕ)
written = (5 ∷ []) ∷ (6 ∷ []) ∷ []

abbrev round : List Turn
round = writer_next ∷ reader_next false ∷ []

abbrev rounds : List (List Turn)
rounds = replicate 5 round

round-IsFair : IsFair round
unfolding IsRunning
round-IsFair = record { running = (tt, (refl, tt)); writes = refl; reads = refl }

slot_rounds-start_threads_example :
    (slot_rounds hundredths 1 2 rounds (start_threads hundredths 1 2 0 0 written)).got
    ≡ replicate 1 (replicate 1 0) ++ written
slot_rounds-start_threads_example =
    slot_rounds-start_threads hundredths 1 2 0 0 written rounds (omega arith) (omega arith)
      (refl, (refl, tt))
      (round-IsFair, (round-IsFair, (round-IsFair, (round-IsFair, (round-IsFair, tt)))))
      (omega arith)
