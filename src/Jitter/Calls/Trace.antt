-- ===== src/Jitter/Calls/Trace.antt =====
-- src/JitterBuffer.cpp: the stream of bytes that any calls make, and what the next read takes from it.
use mathlib.Core.Path.{subst}
use jacktrip.Jitter.{JitterDoubles, JitterSettings, JitterBuffer}
use jacktrip.Jitter.Calls.{
  insert_bytes, read_bytes, read_ready, adapt_queue, track_queue, track_read, before_write,
  write_slot, before_read,
}
use jacktrip.Jitter.Calls.Inserts.{both_results, Streams, before_write-Filled, write_slot-Streams}
use jacktrip.Base.{
  Bool-cases, List, [], arith, false, if◌then◌else◌, inl, inr, length, length-append,
  length-replicate, ltb, ltb→lt, refl, replicate, sym, true, ℕ, ◌++◌, ◌+◌, ◌<◌, ◌==◌, ◌^◌, ◌∙◌, ◌∷◌,
  ◌≡◌, ◌≤◌,
}

-- A call of `insertSlotNonBlocking` with a slot, its length and the length of the loss before it, or
-- one of `readSlotNonBlocking`.
pub data JitterCall : Type 0 where
  insert_call : List ℕ → ℕ → ℕ → JitterCall
  read_call : JitterCall

not_longer : (n total : ℕ) → ltb total n ≡ false → n ≤ total
not_longer n total q = ground (arith, q)

module _ (D : JitterDoubles) (p : JitterSettings D) where
  -- The length of a slot; 0 stands for the usual one.
  abbrev pub slot_length : ℕ → ℕ
  slot_length len = if len == 0 then p.slot_size else len

  unfoldable pub jitter_call : JitterCall → JitterBuffer D → JitterBuffer D
  unfolding insert_bytes read_bytes
  jitter_call (insert_call slot len lost_len) s = (insert_bytes D p slot len lost_len s).1
  jitter_call read_call s = (read_bytes D p s).1

  unfoldable pub jitter_calls : List JitterCall → JitterBuffer D → JitterBuffer D
  unfolding jitter_call
  jitter_calls [] s = s
  jitter_calls (c ∷ calls) s = jitter_calls calls (jitter_call c s)

  -- Every slot has the length that is passed.
  unfoldable pub HasLengths : List JitterCall → Type 0
  HasLengths [] = Unit
  HasLengths (read_call ∷ calls) = HasLengths calls
  HasLengths (insert_call slot len lost_len ∷ calls) =
      (length slot ≡ slot_length len) × HasLengths calls

  -- As many bytes as the calls can add.
  unfoldable pub most_bytes : List JitterCall → ℕ
  most_bytes [] = 0
  most_bytes (read_call ∷ calls) = most_bytes calls
  most_bytes (insert_call slot len lost_len ∷ calls) = slot_length len + lost_len + most_bytes calls

  -- The stream after the calls: every slot that is not longer than the ring is added, after silence up
  -- to as long as the loss.
  pub data GoesOn : List ℕ → List JitterCall → List ℕ → Type 0 where
    ended : (stream : List ℕ) → GoesOn stream [] stream
    read_by :
        (stream end : List ℕ) (calls : List JitterCall)
        → GoesOn stream calls end
        → GoesOn stream (read_call ∷ calls) end
    refused :
        (stream end slot : List ℕ) (len lost_len : ℕ) (calls : List JitterCall)
        → p.total_size < slot_length len
        → GoesOn stream calls end
        → GoesOn stream (insert_call slot len lost_len ∷ calls) end
    added :
        (stream end slot : List ℕ) (len lost_len silence : ℕ) (calls : List JitterCall)
        → slot_length len ≤ p.total_size
        → silence ≤ lost_len
        → GoesOn ((stream ++ replicate silence 0) ++ slot) calls end
        → GoesOn stream (insert_call slot len lost_len ∷ calls) end

  pub record Reached (stream : List ℕ) (calls : List JitterCall) (s : JitterBuffer D) : Type 0 where
    pub end : List ℕ
    pub goes_on : GoesOn stream calls end
    pub streams : Streams D p s end
    pub end_le : length end ≤ length stream + most_bytes calls

  -- Before the bytes are read, the ring and the positions are as they were.
  pub record Unmoved (s t : JitterBuffer D) : Type 0 where
    pub same_ring : t.ring_buffer ≡ s.ring_buffer
    pub same_write : t.write_position ≡ s.write_position
    pub same_read : t.read_position ≡ s.read_position

  pub before_read-Unmoved : (s : JitterBuffer D) → Unmoved s (before_read D p s)
  unfolding before_read track_read track_queue adapt_queue
  before_read-Unmoved s = elim (Bool-cases (s.auto_queue == 0)) [
    | inl q ↦ rw q (record { same_ring = refl; same_write = refl; same_read = refl })
    | inr q ↦ rw q (record { same_ring = refl; same_write = refl; same_read = refl })
  ]

  read_bytes-Streams :
      (s : JitterBuffer D) (stream : List ℕ)
      → Streams D p s stream
      → Streams D p (read_bytes D p s).1 stream
  unfolding read_bytes read_ready
  read_bytes-Streams s stream h =
      let k = before_read-Unmoved s in
      both_results (λ (r : List ℕ × JitterBuffer D). Streams D p r.1 stream) s.active
        (read_ready D p (before_read D p s)) (replicate p.slot_size 0, s)
        (record {
          tail = rw k.same_ring h.tail;
          written = k.same_write ∙ h.written;
          read_lt = omega arith;
        })
        h

  insert_refused :
      (slot : List ℕ) (len lost_len : ℕ) (s : JitterBuffer D)
      → ltb p.total_size (slot_length len) ≡ true
      → (insert_bytes D p slot len lost_len s).1 ≡ s
  unfolding insert_bytes
  insert_refused slot len lost_len s e = rw e refl

  insert_accepted :
      (slot : List ℕ) (len lost_len : ℕ) (s : JitterBuffer D)
      → ltb p.total_size (slot_length len) ≡ false
      → (insert_bytes D p slot len lost_len s).1
        ≡ write_slot D p slot (slot_length len) (before_write D p (slot_length len) lost_len s)
  unfolding insert_bytes
  insert_accepted slot len lost_len s e = rw e refl

  module _ (pos : 0 < p.total_size) where
    pub jitter_calls-Reached :
        (calls : List JitterCall) (s : JitterBuffer D) (stream : List ℕ)
        → HasLengths calls
        → length stream + most_bytes calls < 2 ^ 32
        → Streams D p s stream
        → Reached stream calls (jitter_calls calls s)
    unfolding jitter_calls jitter_call HasLengths most_bytes
    jitter_calls-Reached [] s stream v l h = record {
      end = stream;
      goes_on = ended stream;
      streams = h;
      end_le = omega arith;
    }
    jitter_calls-Reached (read_call ∷ calls) s stream v l h =
        let r =
          jitter_calls-Reached calls (read_bytes D p s).1 stream v l
            (read_bytes-Streams s stream h) in
        record {
          end = r.end;
          goes_on = read_by stream r.end calls r.goes_on;
          streams = r.streams;
          end_le = omega (arith, r.end_le);
        }
    jitter_calls-Reached (insert_call slot len lost_len ∷ calls) s stream v l h =
        let n = slot_length len in
        let next = (insert_bytes D p slot len lost_len s).1 in
        elim (Bool-cases (ltb p.total_size n)) [
          | inl q ↦
              let r = jitter_calls-Reached calls next stream v.1 (omega (arith, l)) (
                subst (λ x. Streams D p x stream) (sym (insert_refused slot len lost_len s q)) h) in
              record {
                end = r.end;
                goes_on =
                    refused stream r.end slot len lost_len calls (ltb→lt p.total_size n q)
                      r.goes_on;
                streams = r.streams;
                end_le = omega (arith, r.end_le);
              }
          | inr q ↦
              let fits : n ≤ p.total_size = not_longer n p.total_size q in
              let f = before_write-Filled D p pos n lost_len s stream (omega (arith, l)) h in
              let longer = stream ++ replicate f.silence 0 in
              let size = length-append stream (replicate {A = ℕ} f.silence 0) in
              let silent = length-replicate {A = ℕ} f.silence 0 in
              let written =
                write_slot-Streams D p pos slot n (before_write D p n lost_len s) longer v.0 fits
                  (omega (arith, l, size, silent, f.silence_le)) f.goes_on in
              let r =
                jitter_calls-Reached calls next (longer ++ slot) v.1
                  (omega (arith, l, size, silent, f.silence_le, length-append longer slot, v.0))
                  (subst (λ x. Streams D p x (longer ++ slot))
                    (sym (insert_accepted slot len lost_len s q)) written) in
              record {
                end = r.end;
                goes_on =
                    added stream r.end slot len lost_len f.silence calls fits f.silence_le
                      r.goes_on;
                streams = r.streams;
                end_le =
                    omega
                      (arith, r.end_le, size, silent, f.silence_le, length-append longer slot, v.0);
              }
        ]
