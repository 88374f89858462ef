-- ===== src/Jitter/Calls/Inserts.antt =====
-- src/JitterBuffer.cpp: the ring and the write position through the parts of `insertSlotNonBlocking`.
use jacktrip.SlotRing.{minus32}
use jacktrip.Jitter.{
  JitterDoubles, JitterSettings, JitterBuffer, process_packet_loss, shorten_loss, shortened,
  fill_loss, may_shorten, available, less32,
}
use jacktrip.Jitter.Calls.{
  before_write, start_insert, count_insert, correction, move_read, write_slot, is_low, is_very_low,
}
use jacktrip.Jitter.Stream.{Tail, write_wrapped-Tail, silence-Tail}
use jacktrip.Base.{
  Bool, Bool-cases, List, append-nil, arith, false, if◌then◌else◌, inl, inr, leb, leb→le, length,
  length-append, length-replicate, ltb, min, refl, replicate, true, u32, ℕ, ◌&&◌, ◌*◌, ◌++◌, ◌+◌,
  ◌<◌, ◌==◌, ◌^◌, ◌∙◌, ◌≡◌, ◌≤◌,
}

-- A property of both results of a test.
pub both_results {ℓ κ} :
    {A : Type ℓ} (P : A → Type κ) (b : Bool) (x y : A) → P x → P y → P (if b then x else y)
both_results P true x y h k = h
both_results P false x y h k = k

below : (n total : ℕ) → leb total n ≡ false → n ≤ total
below n total q = ground (arith, q)

module _ (D : JitterDoubles) (p : JitterSettings D) where
  -- The ring and the write position are those of `s`, and the read position stays a word of 32 bits.
  record SameRing (s t : JitterBuffer D) : Type 0 where
    same_ring : t.ring_buffer ≡ s.ring_buffer
    same_write : t.write_position ≡ s.write_position
    read_lt : s.read_position < 2 ^ 32 → t.read_position < 2 ^ 32

  SameRing-trans : (s t u : JitterBuffer D) → SameRing s t → SameRing t u → SameRing s u
  SameRing-trans s t u h k = record {
    same_ring = k.same_ring ∙ h.same_ring;
    same_write = k.same_write ∙ h.same_write;
    read_lt = λ l. k.read_lt (h.read_lt l);
  }

  correction-SameRing : (len : ℕ) (s : JitterBuffer D) → SameRing s (correction D p len s).1
  unfolding correction
  correction-SameRing len s =
      elim (Bool-cases (less32 (available D p s) (minus32 0 (10 * s.max_latency)))) [
        | inl a ↦ rw a (record { same_ring = refl; same_write = refl; read_lt = λ h. h })
        | inr a ↦ elim (Bool-cases (less32 s.max_latency (u32 (available D p s + len)))) [
          | inl b ↦ rw (a, b) (record { same_ring = refl; same_write = refl; read_lt = λ h. h })
          | inr b ↦ elim (Bool-cases (less32 (available D p s) 0 && is_low D p s)) [
            | inl c ↦
                rw (a, b, c) (record { same_ring = refl; same_write = refl; read_lt = λ h. h })
            | inr c ↦ elim (Bool-cases (is_very_low D p s)) [
              | inl d ↦
                  rw (a, b, c, d) (record { same_ring = refl; same_write = refl; read_lt = λ h. h })
              | inr d ↦
                  rw (a, b, c, d) (record { same_ring = refl; same_write = refl; read_lt = λ h. h })
            ]
          ]
        ]
      ]

  move_read-SameRing : (r : ℕ × JitterBuffer D) → SameRing r.1 (move_read D p r)
  unfolding move_read
  move_read-SameRing r = elim (Bool-cases (r.0 == 0)) [
    | inl q ↦ rw q (record { same_ring = refl; same_write = refl; read_lt = λ h. h })
    | inr q ↦ rw q (record { same_ring = refl; same_write = refl; read_lt = λ h. omega arith })
  ]

  -- What a loss leaves to fill is not longer than it.
  record Shortened (lost_len : ℕ) (s : JitterBuffer D) (r : ℕ × JitterBuffer D) : Type 0 where
    left_le : r.0 ≤ lost_len
    same : SameRing s r.1

  shortened-Shortened :
      (lost_len delta : ℕ) (s t : JitterBuffer D)
      → SameRing s t
      → Shortened lost_len s (shortened D p lost_len delta t)
  unfolding shortened
  shortened-Shortened lost_len delta s t h = record {
    left_le = omega arith;
    same = record { same_ring = h.same_ring; same_write = h.same_write; read_lt = h.read_lt };
  }

  shorten_loss-Shortened :
      (lost_len : ℕ) (s : JitterBuffer D) → Shortened lost_len s (shorten_loss D p lost_len s)
  unfolding shorten_loss
  shorten_loss-Shortened lost_len s =
      let over = minus32 (u32 (available D p s + s.in_slot_size + lost_len)) s.max_latency in
      let delta = if less32 over lost_len then over else lost_len in
      let kept : SameRing s s = record { same_ring = refl; same_write = refl; read_lt = λ h. h } in
      elim (Bool-cases (less32 0 delta)) [
        | inl a ↦ rw a (
            shortened-Shortened lost_len delta s (record s { level_cur = D.from_int s.max_latency })
              (record { same_ring = refl; same_write = refl; read_lt = λ h. h }))
        | inr a ↦ elim (Bool-cases (may_shorten D p lost_len s)) [
          | inl b ↦
              rw (a, b)
                (shortened-Shortened lost_len (min lost_len p.slot_size) s
                  (record s {
                    level_cur = D.minus s.level_cur (D.from_int (min lost_len p.slot_size));
                  })
                  (record { same_ring = refl; same_write = refl; read_lt = λ h. h }))
          | inr b ↦ rw (a, b) (record { left_le = omega arith; same = kept })
        ]
      ]

  -- The ring holds the end of the stream, which ends at the write position; the read position is a word.
  pub record Streams (s : JitterBuffer D) (stream : List ℕ) : Type 0 where
    pub tail : Tail p.total_size s.ring_buffer stream
    pub written : s.write_position ≡ length stream
    pub read_lt : s.read_position < 2 ^ 32

  SameRing-Streams :
      (s t : JitterBuffer D) (stream : List ℕ) → SameRing s t → Streams s stream → Streams t stream
  SameRing-Streams s t stream k h = record {
    tail = rw k.same_ring h.tail;
    written = k.same_write ∙ h.written;
    read_lt = k.read_lt h.read_lt;
  }

  module _ (pos : 0 < p.total_size) where
    fill_loss-Streams :
        (missing n : ℕ) (s : JitterBuffer D) (stream : List ℕ)
        → length stream + n < 2 ^ 32
        → Streams s stream
        → Streams (fill_loss D p missing n s) (stream ++ replicate n 0)
    unfolding fill_loss
    fill_loss-Streams missing n s stream l h = record {
      tail = elim (Bool-cases (leb p.total_size n)) [
        | inl q ↦ rw q (silence-Tail p.total_size pos n stream (leb→le p.total_size n q))
        | inr q ↦
            rw (q, h.written)
              (write_wrapped-Tail p.total_size pos n (replicate n 0) s.ring_buffer stream
                (below n p.total_size q) (length-replicate n 0) h.tail)
      ];
      written = omega (
        arith,
        h.written,
        l,
        length-append stream (replicate {A = ℕ} n 0),
        length-replicate {A = ℕ} n 0,
      );
      read_lt = h.read_lt;
    }

    pub write_slot-Streams :
        (slot : List ℕ) (len : ℕ) (s : JitterBuffer D) (stream : List ℕ)
        → length slot ≡ len
        → len ≤ p.total_size
        → length stream + len < 2 ^ 32
        → Streams s stream
        → Streams (write_slot D p slot len s) (stream ++ slot)
    unfolding write_slot
    write_slot-Streams slot len s stream e l k h = record {
      tail =
          rw h.written
            (write_wrapped-Tail p.total_size pos len slot s.ring_buffer stream l e h.tail);
      written = omega (arith, h.written, k, e, length-append stream slot);
      read_lt = h.read_lt;
    }

    -- The stream goes on with silence, up to as long as the loss.
    pub record Filled (lost_len : ℕ) (stream : List ℕ) (t : JitterBuffer D) : Type 0 where
      pub silence : ℕ
      pub silence_le : silence ≤ lost_len
      pub goes_on : Streams t (stream ++ replicate silence 0)

    process_packet_loss-Filled :
        (lost_len : ℕ) (s : JitterBuffer D) (stream : List ℕ)
        → length stream + lost_len < 2 ^ 32
        → Streams s stream
        → Filled lost_len stream (process_packet_loss D p lost_len s)
    unfolding process_packet_loss
    process_packet_loss-Filled lost_len s stream l h =
        let s' = record s { skew_raw = minus32 s.skew_raw lost_len } in
        let r = shorten_loss D p lost_len s' in
        let k = shorten_loss-Shortened lost_len s' in
        let started =
          SameRing-Streams s s' stream
            (record { same_ring = refl; same_write = refl; read_lt = λ h. h }) h in
        record {
          silence = r.0;
          silence_le = k.left_le;
          goes_on =
              fill_loss-Streams _ r.0 r.1 stream (omega (arith, k.left_le, l))
                (SameRing-Streams s' r.1 stream k.same started);
        }

    pub before_write-Filled :
        (len lost_len : ℕ) (s : JitterBuffer D) (stream : List ℕ)
        → length stream + lost_len < 2 ^ 32
        → Streams s stream
        → Filled lost_len stream (before_write D p len lost_len s)
    unfolding before_write start_insert count_insert
    before_write-Filled len lost_len s stream l h =
        let s1 = start_insert D p len s in
        let started =
          SameRing-Streams s s1 stream
            (record { same_ring = refl; same_write = refl; read_lt = λ h. h }) h in
        let filled : Filled lost_len stream
            (if ltb 0 lost_len then process_packet_loss D p lost_len s1 else s1) =
          both_results (Filled lost_len stream) (ltb 0 lost_len)
            (process_packet_loss D p lost_len s1) s1
            (process_packet_loss-Filled lost_len s1 stream l started)
            (record {
              silence = 0;
              silence_le = omega arith;
              goes_on = rw (append-nil stream) started;
            }) in
        let s2 = if ltb 0 lost_len then process_packet_loss D p lost_len s1 else s1 in
        let s3 = count_insert D p len s2 in
        let r = correction D p len s3 in
        record {
          silence = filled.silence;
          silence_le = filled.silence_le;
          goes_on =
              SameRing-Streams s2 (move_read D p r) _
                (SameRing-trans s2 s3 _
                  (record { same_ring = refl; same_write = refl; read_lt = λ h. h })
                  (SameRing-trans s3 r.1 _ (correction-SameRing len s3) (move_read-SameRing r)))
                filled.goes_on;
        }
