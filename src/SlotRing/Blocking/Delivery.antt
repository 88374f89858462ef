-- ===== src/SlotRing/Blocking/Delivery.antt =====
-- With fair turns every slot that is written arrives, in order: no thread waits for ever.
use mathlib.Core.Bool.{false≢true}
use jacktrip.SlotRing.{Doubles, ring_buffer_of}
use jacktrip.SlotRing.Changes.{ring_buffer_of-Holds}
use jacktrip.SlotRing.Blocking.{outside, Threads, Turn, slot_turns, slot_rounds}
use jacktrip.SlotRing.Blocking.Turns.{
  IsRunning, is_writer, Delivers, work, Held, Advance, turn-Advance, outside-ne-asleep,
}
use jacktrip.Base.{
  All, Bool, List, [], ap, append-nil, ap₂, arith, false, inl, inr, length, length-replicate, not,
  refl, replicate, suc, sym, true, ℕ, ◌++◌, ◌+◌, ◌/◌, ◌<◌, ◌||◌, ◌∙◌, ◌∷◌, ◌≡◌, ◌≤◌, ◌⊎◌,
}

abbrev pub any : (Turn → Bool) → List Turn → Bool
any test [] = false
any test (t ∷ ts) = test t || any test ts

-- In a fair round both threads have a turn.
pub record IsFair (ts : List Turn) : Type 0 where
  pub running : All IsRunning ts
  pub writes : any is_writer ts ≡ true
  pub reads : any (λ t. not (is_writer t)) ts ≡ true

nothing_left {ℓ} : {A : Type ℓ} (xs : List A) → length xs ≡ 0 → xs ≡ []
nothing_left [] e = refl
nothing_left (x ∷ xs) e = absurd (omega (arith, e))

-- What holds in either of two cases.
either {ℓ} : {P : Type ℓ} (a b : Bool) → (a ≡ true → P) → (b ≡ true → P) → (a || b) ≡ true → P
either true b f g e = f refl
either false b f g e = g e

module _ (D : Doubles) (slot_size num_slots : ℕ) (all : List (List ℕ)) where
  both :
      (w r w' r' : Bool) (s : Threads D) (q : List (List ℕ)) (t : Threads D) (q' : List (List ℕ))
      (u : Threads D) (q'' : List (List ℕ))
      → (work D slot_size num_slots all t q' < work D slot_size num_slots all s q)
        ⊎ Held D slot_size num_slots all w r s q t q'
      → (work D slot_size num_slots all u q'' < work D slot_size num_slots all t q')
        ⊎ Held D slot_size num_slots all w' r' t q' u q''
      → (work D slot_size num_slots all u q'' < work D slot_size num_slots all s q)
        ⊎ Held D slot_size num_slots all (w || w') (r || r') s q u q''
  both w r w' r' s q t q' u q'' (inl a) (inl b) = inl (omega (arith, a, b))
  both w r w' r' s q t q' u q'' (inl a) (inr b) = inl (omega (arith, a, b.same_left, b.same_held))
  both w r w' r' s q t q' u q'' (inr a) (inl b) = inl (omega (arith, b, a.same_left, a.same_held))
  both w r w' r' s q t q' u q'' (inr a) (inr b) = inr (record {
    same_left = b.same_left ∙ a.same_left;
    same_held = b.same_held ∙ a.same_held;
    writer_held =
        either w w' a.writer_held (λ x. ground (arith, b.writer_held x, a.same_left, a.same_held));
    reader_held = either r r' a.reader_held (λ x. sym a.same_held ∙ b.reader_held x);
  })

  turns-Advance :
      (ts : List Turn) (s : Threads D) (q : List (List ℕ))
      → 0 < slot_size
      → 0 < num_slots
      → All IsRunning ts
      → Delivers D slot_size num_slots all s q
      → Advance D slot_size num_slots all
          (any is_writer ts)
          (any (λ t. not (is_writer t)) ts)
          s
          q
          (slot_turns D slot_size num_slots ts s)
  unfolding slot_turns
  turns-Advance [] s q pos some_slots run d = record {
    now = q;
    delivers = d;
    moves = inr (record {
      same_left = refl;
      same_held = refl;
      writer_held = λ x. absurd (false≢true x);
      reader_held = λ x. absurd (false≢true x);
    });
  }
  turns-Advance (t ∷ ts) s q pos some_slots run d =
      let a = turn-Advance D slot_size num_slots all t s q pos some_slots run.0 d in
      let b = turns-Advance ts _ a.now pos some_slots run.1 a.delivers in
      record {
        now = b.now;
        delivers = b.delivers;
        moves = both _ _ _ _ s q _ a.now _ b.now a.moves b.moves;
      }

  fewer :
      {w r : Bool} (s : Threads D) (q : List (List ℕ)) (t : Threads D) (q' : List (List ℕ)) (n : ℕ)
      → 0 < num_slots
      → (work D slot_size num_slots all t q' < work D slot_size num_slots all s q)
        ⊎ Held D slot_size num_slots all w r s q t q'
      → w ≡ true
      → r ≡ true
      → work D slot_size num_slots all s q ≤ suc n
      → work D slot_size num_slots all t q' ≤ n
  fewer s q t q' n some_slots (inl lt) we re le = omega (arith, lt, le)
  fewer s q t q' n some_slots (inr h) we re le = elim (h.writer_held we) [
    | inl none_left ↦ omega (arith, none_left, h.reader_held re, h.same_left, h.same_held)
    | inr full ↦ absurd (omega (arith, full, h.reader_held re, some_slots))
  ]

  -- Nothing is left to do once there were as many fair rounds.
  rounds-Delivers :
      (rounds : List (List Turn)) (s : Threads D) (q : List (List ℕ))
      → 0 < slot_size
      → 0 < num_slots
      → All IsFair rounds
      → Delivers D slot_size num_slots all s q
      → work D slot_size num_slots all s q ≤ length rounds
      → (slot_rounds D slot_size num_slots rounds s).got ≡ all
  unfolding slot_rounds
  rounds-Delivers [] s q pos some_slots fair d le =
      sym (append-nil s.got)
      ∙ ap (λ r. s.got ++ r)
          (sym (
            ap₂ (λ x y. x ++ y) (nothing_left q (omega (arith, le)))
              (nothing_left s.to_write (omega (arith, le)))))
      ∙ d.order
  rounds-Delivers (ts ∷ rounds) s q pos some_slots fair d le =
      let a = turns-Advance ts s q pos some_slots fair.0.running d in
      rounds-Delivers rounds _ a.now pos some_slots fair.1 a.delivers
        (fewer s q _ a.now (length rounds) some_slots a.moves fair.0.writes fair.0.reads le)

module _ (D : Doubles) (slot_size num_slots : ℕ) where
  -- The threads on a new ring, before their first calls.
  pub start_threads : ℕ → ℕ → List (List ℕ) → Threads D
  start_threads reads misses xs = record {
    ring = ring_buffer_of D slot_size num_slots reads misses;
    to_write = xs;
    writer = outside;
    reader_waits = false;
    got = [];
  }

  -- On a new ring of slots that are not empty, while audio is not stopped: once there were two rounds
  -- for every slot to be written and one for every second place of the ring, in each of which both
  -- threads had a turn, in any order and any number, the reader has got the silence of the new ring
  -- and then exactly the slots of the writer, byte for byte and in order. So neither thread waits for
  -- ever, no wake-up is lost, and no slot is overwritten before it was read.
  pub slot_rounds-start_threads :
      (reads misses : ℕ) (xs : List (List ℕ)) (rounds : List (List Turn))
      → 0 < slot_size
      → 0 < num_slots
      → All (λ v. length v ≡ slot_size) xs
      → All IsFair rounds
      → length xs + length xs + num_slots / 2 ≤ length rounds
      → (slot_rounds D slot_size num_slots rounds (start_threads reads misses xs)).got
        ≡ replicate (num_slots / 2) (replicate slot_size 0) ++ xs
  unfolding start_threads
  slot_rounds-start_threads reads misses xs rounds pos some_slots w fair le =
      rounds-Delivers D slot_size num_slots _ rounds _
        (replicate (num_slots / 2) (replicate slot_size 0)) pos some_slots fair
        (record {
          holds = ring_buffer_of-Holds D slot_size num_slots reads misses pos some_slots;
          order = refl;
          widths = w;
          sleeps = λ x. absurd (outside-ne-asleep x);
        })
        (omega (arith, le, length-replicate (num_slots / 2) (replicate {A = ℕ} slot_size 0)))
