-- ===== src/Ring/Refine.antt =====
-- The ring is a queue of at most `size - 1` items: a run of its functions shows what a run of the
-- queue shows.
use jacktrip.Base.{
  Bool, Bool-cases, List, [], ap, ap₂, arith, false, get_or_of_get_elem?, if◌then◌else◌, inl, inr,
  length, length-append, refl, suc, true, ℕ, ◌%◌, ◌++◌, ◌+◌, ◌<◌, ◌==◌, ◌^◌, ◌∙◌, ◌∷◌, ◌≡◌,
}
use jacktrip.Ring.{RingBuffer, new, distance, push, pop, clear_stats, clear, count, empty}
use jacktrip.Ring.Contents.{
  Holds, new-Holds, count-Holds, empty-Holds, full-Holds, bare-Holds, push-Holds, pop-Holds,
  clear-Holds, counters-Holds,
}

-- A call of a public function.
pub data Call {ℓ} (A : Type ℓ) : Type ℓ where
  call_push : A → Call A
  call_pop : A → Call A
  call_size : Call A
  call_empty : Call A
  call_underruns : Call A
  call_overruns : Call A
  call_clear_stats : Call A
  call_clear : Call A

-- What the caller sees: a number, a truth value, a value popped or left as it was, or nothing.
pub data Reply {ℓ} (A : Type ℓ) : Type ℓ where
  number : ℕ → Reply A
  truth : Bool → Reply A
  popped : Bool → A → Reply A
  no_reply : Reply A

-- The queue with its two counters.
pub record Queue {ℓ} (A : Type ℓ) : Type ℓ where
  pub entries : List A
  pub misses : ℕ
  pub drops : ℕ

module _ {ℓ} {A : Type ℓ} where
  pop_queue : A → Queue A → List A → Reply A × Queue A
  pop_queue v q [] = (popped false v, record q { misses = (q.misses + 1) % 2 ^ 64 })
  pop_queue v q (x ∷ xs) = (popped true x, record q { entries = xs })

module _ {ℓ} {A : Type ℓ} (size : ℕ) where
  pub queue_step : Call A → Queue A → Reply A × Queue A
  unfolding pop_queue
  queue_step (call_push v) q =
      if length q.entries + 1 == size
      then (number 0, record q { drops = (q.drops + 1) % 2 ^ 64 })
      else (number (length q.entries + 1), record q { entries = q.entries ++ (v ∷ []) })
  queue_step (call_pop v) q = pop_queue v q q.entries
  queue_step call_size q = (number (length q.entries), q)
  queue_step call_empty q = (truth (length q.entries == 0), q)
  queue_step call_underruns q = (number q.misses, q)
  queue_step call_overruns q = (number q.drops, q)
  queue_step call_clear_stats q = (no_reply, record q { misses = 0; drops = 0 })
  queue_step call_clear q = (no_reply, record { entries = []; misses = 0; drops = 0 })

  -- The functions of the class, `getUnderruns` and `getOverruns` included.
  pub ring_step : Call A → RingBuffer A → Reply A × RingBuffer A
  unfolding push pop
  ring_step (call_push v) s = let r = push size v s in (number r.0, r.1)
  ring_step (call_pop v) s = let r = pop size v s in (popped r.0 r.1, r.2)
  ring_step call_size s = (number (count size s), s)
  ring_step call_empty s = (truth (empty size s), s)
  ring_step call_underruns s = (number s.underruns, s)
  ring_step call_overruns s = (number s.overruns, s)
  ring_step call_clear_stats s = (no_reply, clear_stats size s)
  ring_step call_clear s = (no_reply, clear size s)

module _ {ℓ κ} {A : Type ℓ} {S : Type κ} where
  -- The replies to a sequence of calls.
  pub run : (Call A → S → Reply A × S) → List (Call A) → S → List (Reply A)
  run step [] s = []
  run step (c ∷ cs) s = let r = step c s in r.0 ∷ run step cs r.1

module _ {ℓ} {A : Type ℓ} (size : ℕ) where
  -- The ring implements the queue.
  pub record Implements (s : RingBuffer A) (q : Queue A) : Type ℓ where
    pub holds : Holds size s q.entries
    pub same_misses : s.underruns ≡ q.misses
    pub same_drops : s.overruns ≡ q.drops

  -- A step of both shows the same and keeps them related.
  pub Agrees : Reply A × RingBuffer A → Reply A × Queue A → Type ℓ
  Agrees r q = (r.0 ≡ q.0) × Implements r.1 q.1

  step_push :
      (v : A) (s : RingBuffer A) (q : Queue A)
      → Implements s q
      → Agrees (ring_step size (call_push v) s) (queue_step size (call_push v) q)
  unfolding Agrees ring_step queue_step push count distance
  step_push v s q i = elim (Bool-cases (length q.entries + 1 == size)) [
    | inl e ↦
        rw (full-Holds size s q.entries i.holds, e)
          (
            refl,
            record {
              holds = counters-Holds size s q.entries s.underruns _ i.holds;
              same_misses = i.same_misses;
              same_drops = ap (λ n. (n + 1) % 2 ^ 64) i.same_drops;
            },
          )
    | inr e ↦
        let lt : length q.entries + 1 < size = ground (arith, i.holds.room) in
        let h = push-Holds size s q.entries v i.holds lt in
        rw (full-Holds size s q.entries i.holds, e)
          (
            ap number (count-Holds size _ _ h ∙ omega (arith, length-append q.entries (v ∷ []))),
            record { holds = h; same_misses = i.same_misses; same_drops = i.same_drops },
          )
  ]

  step_pop_at :
      (v : A) (s : RingBuffer A) (q : Queue A) (xs : List A)
      → Implements s q
      → Holds size s xs
      → Agrees (ring_step size (call_pop v) s) (pop_queue v q xs)
  unfolding Agrees ring_step pop pop_queue
  step_pop_at v s q [] i h = rw (bare-Holds size s [] h) (
    refl,
    record {
      holds = counters-Holds size s q.entries _ s.overruns i.holds;
      same_misses = ap (λ n. (n + 1) % 2 ^ 64) i.same_misses;
      same_drops = i.same_drops;
    },
  )
  step_pop_at v s q (x ∷ xs) i h =
      let after = pop-Holds size s x xs h in
      let full : (suc (length xs) == 0) ≡ false = ground arith in
      rw (bare-Holds size s (x ∷ xs) h ∙ full) (
        ap (popped true) (get_or_of_get_elem? s.ring s.tail x v after.1),
        record { holds = after.0; same_misses = i.same_misses; same_drops = i.same_drops },
      )

  step-Agrees :
      (c : Call A) (s : RingBuffer A) (q : Queue A)
      → Implements s q
      → Agrees (ring_step size c s) (queue_step size c q)
  unfolding Agrees ring_step queue_step clear_stats clear
  step-Agrees (call_push v) s q i = step_push v s q i
  step-Agrees (call_pop v) s q i = step_pop_at v s q q.entries i i.holds
  step-Agrees call_size s q i = (ap number (count-Holds size s q.entries i.holds), i)
  step-Agrees call_empty s q i = (ap truth (empty-Holds size s q.entries i.holds), i)
  step-Agrees call_underruns s q i = (ap number i.same_misses, i)
  step-Agrees call_overruns s q i = (ap number i.same_drops, i)
  step-Agrees call_clear_stats s q i = (
    refl,
    record {
      holds = counters-Holds size s q.entries 0 0 i.holds;
      same_misses = refl;
      same_drops = refl;
    },
  )
  step-Agrees call_clear s q i = (
    refl,
    record { holds = clear-Holds size s q.entries i.holds; same_misses = refl; same_drops = refl },
  )

  run_agrees :
      (cs : List (Call A)) (s : RingBuffer A) (q : Queue A)
      → Implements s q
      → run (ring_step size) cs s ≡ run (queue_step size) cs q
  unfolding run Agrees
  run_agrees [] s q i = refl
  run_agrees (c ∷ cs) s q i =
      let a = step-Agrees c s q i in
      ap₂ (λ r rs. r ∷ rs) a.0 (run_agrees cs (ring_step size c s).1 (queue_step size c q).1 a.1)

  -- Any sequence of calls on a new ring, whatever its items were initialised to, gives the replies
  -- that a queue with a capacity of `size - 1` items gives: a value pushed into a full ring is
  -- dropped and counted, values come out once each in the order they were pushed, and a pop from an
  -- empty ring leaves the caller's value and is counted.
  pub run-new :
      (blank : A) (cs : List (Call A))
      → 0 < size
      → run (ring_step size) cs (new size blank)
        ≡ run (queue_step size) cs (record { entries = []; misses = 0; drops = 0 })
  unfolding new
  run-new blank cs h =
      run_agrees cs (new size blank) (record { entries = []; misses = 0; drops = 0 })
        (record { holds = new-Holds size blank h; same_misses = refl; same_drops = refl })
