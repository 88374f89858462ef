-- ===== src/SlotRing/Blocking/Turns.antt =====
-- A turn of one of the two threads keeps the order of the slots, and moves one unless the thread is held
-- up.
use native.Mathlib.Nat.{mul-pos}
use mathlib.Core.Bool.{false≢true}
use mathlib.Core.Path.{subst}
use jacktrip.SlotRing.{Doubles, SlotRing, update_read_stats, count_read}
use jacktrip.SlotRing.Contents.{Holds, SameSlots, SameSlots-Holds, put_slot-Holds}
use jacktrip.SlotRing.Changes.{take_slot-Holds}
use jacktrip.SlotRing.Blocking.{
  Waiting, outside, asleep, woken, Threads, wake_all, write_or_wait, insert_slot_blocking,
  read_or_wait, read_slot_blocking, Turn, writer_next, reader_next, slot_turn,
}
use jacktrip.Base.{
  ==_iff, All, Bool, Bool-cases, List, [], ap, append_assoc, arith, false, inl, inr, length,
  length-append, not, refl, suc, sym, true, ℕ, ◌*◌, ◌++◌, ◌+◌, ◌<◌, ◌==◌, ◌∙◌, ◌∷◌, ◌≡◌, ◌≢◌, ◌⊎◌,
}

-- Audio is not stopped.
unfoldable pub IsRunning : Turn → Type 0
IsRunning writer_next = Unit
IsRunning (reader_next stopped) = stopped ≡ false

abbrev pub is_writer : Turn → Bool
is_writer writer_next = true
is_writer (reader_next stopped) = false

is_asleep : Waiting → Bool
is_asleep outside = false
is_asleep asleep = true
is_asleep woken = false

pub outside-ne-asleep : outside ≢ asleep
unfolding is_asleep
outside-ne-asleep e = false≢true (ap is_asleep e)

wake_all-ne-asleep : (w : Waiting) → wake_all w ≢ asleep
unfolding is_asleep wake_all
wake_all-ne-asleep outside e = false≢true (ap is_asleep e)
wake_all-ne-asleep asleep e = false≢true (ap is_asleep e)
wake_all-ne-asleep woken e = false≢true (ap is_asleep e)

module _ (D : Doubles) (slot_size num_slots : ℕ) (all : List (List ℕ)) where
  -- The slots `all` are those read, those held, and those to be written, in this order.
  pub record Delivers (s : Threads D) (q : List (List ℕ)) : Type 0 where
    pub holds : Holds D slot_size num_slots s.ring q
    pub order : s.got ++ (q ++ s.to_write) ≡ all
    pub widths : All (λ v. length v ≡ slot_size) s.to_write
    -- A writer sleeps only while the ring is full.
    pub sleeps : s.writer ≡ asleep → length q ≡ num_slots

  -- The calls that the slots not yet read still need.
  abbrev pub work : Threads D → List (List ℕ) → ℕ
  work s q = length s.to_write + length s.to_write + length q

  -- From `s` to `t` there is less to do, or nothing has moved and the threads that had a turn were
  -- held up.
  pub record Held (wrote read : Bool) (s : Threads D) (q : List (List ℕ)) (t : Threads D)
      (q' : List (List ℕ)) : Type 0 where
    pub same_left : length t.to_write ≡ length s.to_write
    pub same_held : length q' ≡ length q
    pub writer_held : wrote ≡ true → (length s.to_write ≡ 0) ⊎ (length q ≡ num_slots)
    pub reader_held : read ≡ true → length q ≡ 0

  pub record Advance (wrote read : Bool) (s : Threads D) (q : List (List ℕ)) (t : Threads D)
      : Type 0 where
    pub now : List (List ℕ)
    pub delivers : Delivers t now
    pub moves : (work t now < work s q) ⊎ Held wrote read s q t now

  -- A turn of the writer in which nothing happens.
  stays :
      (s : Threads D) (q : List (List ℕ))
      → Delivers s q
      → (length s.to_write ≡ 0) ⊎ (length q ≡ num_slots)
      → Advance true false s q s
  stays s q d why = record {
    now = q;
    delivers = d;
    moves = inr (record {
      same_left = refl;
      same_held = refl;
      writer_held = λ x. why;
      reader_held = λ x. absurd (false≢true x);
    });
  }

  write_or_wait-Advance :
      (s : Threads D) (q : List (List ℕ)) (slot : List ℕ) (rest : List (List ℕ)) (ring : SlotRing D)
      → 0 < slot_size
      → Delivers s q
      → s.to_write ≡ slot ∷ rest
      → Holds D slot_size num_slots ring q
      → Advance true false s q (write_or_wait D slot_size num_slots s slot rest ring)
  unfolding write_or_wait
  write_or_wait-Advance s q slot rest ring pos d e h =
      let full = ap (λ n. n == num_slots) h.full in
      let left : length s.to_write ≡ suc (length rest) = ap length e in
      let w = subst (All (λ v. length v ≡ slot_size)) e d.widths in
      elim (Bool-cases (length q == num_slots)) [
        | inl f ↦
            let filled : length q ≡ num_slots = (==_iff (length q) num_slots).0 f in
            rw (full ∙ f) (record {
              now = q;
              delivers = record {
                holds = h;
                order = d.order;
                widths = d.widths;
                sleeps = λ x. filled;
              };
              moves = inr (record {
                same_left = refl;
                same_held = refl;
                writer_held = λ x. inr filled;
                reader_held = λ x. absurd (false≢true x);
              });
            })
        | inr f ↦
            let lt : length q < num_slots = ground (arith, h.room) in
            rw (full ∙ f) (record {
              now = q ++ (slot ∷ []);
              delivers = record {
                holds = put_slot-Holds D slot_size num_slots ring q slot pos w.0 lt h;
                order =
                    ap (λ r. s.got ++ r)
                      (append_assoc q (slot ∷ []) rest ∙ ap (λ r. q ++ r) (sym e))
                    ∙ d.order;
                widths = w.1;
                sleeps = λ x. absurd (outside-ne-asleep x);
              };
              moves = inl (omega (arith, left, length-append q (slot ∷ [])));
            })
      ]

  read_or_wait-Advance :
      (s : Threads D) (q : List (List ℕ)) (ring : SlotRing D)
      → 0 < slot_size
      → 0 < num_slots
      → Delivers s q
      → Holds D slot_size num_slots ring q
      → Advance false true s q (read_or_wait D slot_size num_slots s ring)
  unfolding read_or_wait
  read_or_wait-Advance s [] ring pos some_slots d h = rw (ap (λ n. n == 0) h.full) (record {
    now = [];
    delivers = record { holds = h; order = d.order; widths = d.widths; sleeps = d.sleeps };
    moves = inr (record {
      same_left = refl;
      same_held = refl;
      writer_held = λ x. absurd (false≢true x);
      reader_held = λ x. refl;
    });
  })
  read_or_wait-Advance s (v ∷ q) ring pos some_slots d h =
      let some_left : (length (v ∷ q) == 0) ≡ false = ground arith in
      let sized : (0 == slot_size * num_slots) ≡ false = ground (arith, mul-pos pos some_slots) in
      let taken = take_slot-Holds D slot_size num_slots ring v q pos h in
      rw (ap (λ n. n == 0) h.full ∙ some_left, sized)
        (record {
          now = q;
          delivers = record {
            holds = taken.0;
            order =
                append_assoc s.got _ (q ++ s.to_write)
                ∙ ap (λ r. s.got ++ (r ∷ (q ++ s.to_write))) taken.1
                ∙ d.order;
            widths = d.widths;
            sleeps = λ x. absurd (wake_all-ne-asleep s.writer x);
          };
          moves = inl (omega arith);
        })

  -- Statistics that a turn counts first leave the slots.
  count_same :
      (s t : SlotRing D) (q : List (List ℕ))
      → SameSlots D slot_size num_slots s t
      → Holds D slot_size num_slots s q
      → Holds D slot_size num_slots t q
  count_same s t q e h = SameSlots-Holds D slot_size num_slots s t q e h

  writer_turn-Advance :
      (s : Threads D) (q : List (List ℕ)) (xs : List (List ℕ)) (w : Waiting)
      → 0 < slot_size
      → Delivers s q
      → s.to_write ≡ xs
      → s.writer ≡ w
      → Advance true false s q (insert_slot_blocking D slot_size num_slots s xs w)
  unfolding insert_slot_blocking update_read_stats
  writer_turn-Advance s q [] w pos d e f = stays s q d (inl (ap length e))
  writer_turn-Advance s q (slot ∷ rest) outside pos d e f =
      write_or_wait-Advance s q slot rest _ pos d e (
        count_same s.ring _ q
          (record { same_buffer = refl; same_read = refl; same_write = refl; same_full = refl })
          d.holds)
  writer_turn-Advance s q (slot ∷ rest) asleep pos d e f = stays s q d (inr (d.sleeps f))
  writer_turn-Advance s q (slot ∷ rest) woken pos d e f =
      write_or_wait-Advance s q slot rest s.ring pos d e d.holds

  reader_turn-Advance :
      (s : Threads D) (q : List (List ℕ)) (waits : Bool)
      → 0 < slot_size
      → 0 < num_slots
      → Delivers s q
      → Advance false true s q (read_slot_blocking D slot_size num_slots false s waits)
  unfolding read_slot_blocking count_read
  reader_turn-Advance s q false pos some_slots d = read_or_wait-Advance s q _ pos some_slots d (
      count_same s.ring _ q
        (record { same_buffer = refl; same_read = refl; same_write = refl; same_full = refl })
        d.holds)
  reader_turn-Advance s q true pos some_slots d =
      read_or_wait-Advance s q s.ring pos some_slots d d.holds

  pub turn-Advance :
      (t : Turn) (s : Threads D) (q : List (List ℕ))
      → 0 < slot_size
      → 0 < num_slots
      → IsRunning t
      → Delivers s q
      → Advance (is_writer t) (not (is_writer t)) s q (slot_turn D slot_size num_slots t s)
  unfolding slot_turn IsRunning
  turn-Advance writer_next s q pos some_slots run d =
      writer_turn-Advance s q s.to_write s.writer pos d refl refl
  turn-Advance (reader_next stopped) s q pos some_slots run d =
      rw run (reader_turn-Advance s q s.reader_waits pos some_slots d)
