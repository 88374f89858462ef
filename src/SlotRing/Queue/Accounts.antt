-- ===== src/SlotRing/Queue/Accounts.antt =====
-- The statistics add up: every slot that went in is held, was read or is counted as lost.
use native.Mathlib.Nat.{zero-div}
use jacktrip.SlotRing.{
  Doubles, SlotRing, update_read_stats, put_slot, take_slot, overflow_reset, count_lost,
  insert_slot_non_blocking, count_read, track_level, underrun_reset, read_slot_non_blocking,
  reset_stats, get_slot_stats, add_or_reset,
}
use jacktrip.SlotRing.Queue.{SlotCall, call_insert, call_read, call_stats, slot_ring_step}
use jacktrip.Base.{
  ==_iff, All, Bool-cases, List, [], arith, false, if◌then◌else◌, inl, inr, leb, leb→le, ltb, not,
  ℕ, ◌%◌, ◌&&◌, ◌+◌, ◌/◌, ◌<◌, ◌==◌, ◌^◌, ◌∷◌, ◌≡◌,
}

-- The calls do not reset the statistics.
unfoldable pub KeepsStats : SlotCall → Type 0
KeepsStats (call_insert slot len lost_len) = Unit
KeepsStats call_read = Unit
KeepsStats (call_stats reset) = reset ≡ false

module _ (slot_size : ℕ) where
  -- The number of slots that a call inserts, that it reports lost, and that it reads.
  pub inserts : SlotCall → ℕ
  inserts (call_insert slot len lost_len) =
      if not (len == slot_size) && not (0 == len) then 0 else 1
  inserts call_read = 0
  inserts (call_stats reset) = 0

  pub losses : SlotCall → ℕ
  losses (call_insert slot len lost_len) =
      if not (len == slot_size) && not (0 == len) then 0 else lost_len / slot_size
  losses call_read = 0
  losses (call_stats reset) = 0

  pub reads : SlotCall → ℕ
  reads (call_insert slot len lost_len) = 0
  reads call_read = 1
  reads (call_stats reset) = 0

pub total : (SlotCall → ℕ) → List SlotCall → ℕ
total f [] = 0
total f (c ∷ cs) = f c + total f cs

module _ (D : Doubles) (slot_size num_slots : ℕ) where
  -- The state after a sequence of calls.
  pub after_calls : List SlotCall → SlotRing D → SlotRing D
  after_calls [] s = s
  after_calls (c ∷ cs) s = after_calls cs (slot_ring_step D slot_size num_slots c s).1

  -- `k` slots went in, `l` were reported lost and `r` reads were made since `s`.
  pub record Balanced (s t : SlotRing D) (k l r : ℕ) : Type 0 where
    pub slots :
        (s.full_slots + k + (s.overflows + t.underruns + t.underruns_new)) % 2 ^ 32
        ≡ (t.full_slots + r + (t.overflows + s.underruns + s.underruns_new)) % 2 ^ 32
    pub skew_raw :
        (t.skew_raw + t.reads_new + k + l) % 2 ^ 32 ≡ (s.skew_raw + s.reads_new + r) % 2 ^ 32

  -- An underrun, or a slot read.
  read-Balanced :
      (s : SlotRing D) → Balanced s (slot_ring_step D slot_size num_slots call_read s).1 0 0 1
  unfolding slot_ring_step read_slot_non_blocking count_read track_level underrun_reset take_slot
  read-Balanced s = elim (Bool-cases (leb s.full_slots 0)) [
    | inl e ↦
        rw e (record { slots = omega (arith, leb→le s.full_slots 0 e); skew_raw = omega arith })
    | inr e ↦
        let low : 0 < s.full_slots = ground arith in
        rw e (record { slots = omega (arith, low); skew_raw = omega arith })
  ]

  lost_slots : (lost_len : ℕ) → (lost_len ≡ 0) → lost_len / slot_size ≡ 0
  lost_slots lost_len e = rw e (zero-div slot_size)

  count_lost-Balanced :
      (lost_len : ℕ) (s : SlotRing D)
      → Balanced s (count_lost D slot_size num_slots lost_len s) 0 (lost_len / slot_size) 0
  unfolding count_lost
  count_lost-Balanced lost_len s = elim (Bool-cases (ltb 0 lost_len)) [
    | inl e ↦ rw e (record { slots = omega arith; skew_raw = omega arith })
    | inr e ↦ rw e (record {
      slots = omega arith;
      skew_raw = omega (arith, lost_slots lost_len (ground arith));
    })
  ]

  Balanced-trans :
      (s t u : SlotRing D) (k l r k' l' r' : ℕ)
      → Balanced s t k l r
      → Balanced t u k' l' r'
      → Balanced s u (k + k') (l + l') (r + r')
  Balanced-trans s t u k l r k' l' r' a b = record {
    slots = omega (arith, a.slots, b.slots);
    skew_raw = omega (arith, a.skew_raw, b.skew_raw);
  }

  -- An insertion that is accepted, after the bytes lost were counted.
  add-Balanced :
      (slot : List ℕ) (s : SlotRing D)
      → Balanced s
          (add_or_reset D slot_size num_slots slot (update_read_stats D slot_size num_slots s)).1
          1
          0
          0
  unfolding add_or_reset update_read_stats put_slot overflow_reset
  add-Balanced slot s = elim (Bool-cases (s.full_slots == num_slots)) [
    | inl e ↦
        let full : s.full_slots ≡ num_slots = (==_iff s.full_slots num_slots).0 e in
        rw e (record { slots = omega (arith, full); skew_raw = omega arith })
    | inr e ↦ rw e (record { slots = omega arith; skew_raw = omega arith })
  ]

  same-Balanced : (s : SlotRing D) → Balanced s s 0 0 0
  same-Balanced s = record { slots = omega arith; skew_raw = omega arith }

  step-Balanced :
      (c : SlotCall) (s : SlotRing D)
      → KeepsStats c
      → Balanced s
          (slot_ring_step D slot_size num_slots c s).1
          (inserts slot_size c)
          (losses slot_size c)
          (reads slot_size c)
  unfolding slot_ring_step insert_slot_non_blocking get_slot_stats reset_stats inserts losses reads
      KeepsStats
  step-Balanced (call_insert slot len lost_len) s keep =
      elim (Bool-cases (not (len == slot_size) && not (0 == len))) [
        | inl e ↦ rw e (same-Balanced s)
        | inr e ↦
            let t =
              Balanced-trans s _ _ 0 (lost_len / slot_size) 0 1 0 0 (count_lost-Balanced lost_len s)
                (add-Balanced slot _) in
            rw e (record { slots = t.slots; skew_raw = omega (arith, t.skew_raw) })
      ]
  step-Balanced call_read s keep = read-Balanced s
  step-Balanced (call_stats reset) s keep = rw keep (same-Balanced s)

  -- After any calls that do not reset the statistics, from any state: modulo 2^32, the slots held at
  -- first and those inserted since are the slots held now, those read and those counted as overflows,
  -- where a read that was an underrun, counted already or not, read none; and the raw skew, with the
  -- reads it has not counted yet, has grown by the reads, less the slots inserted and those reported
  -- lost.
  pub after_calls-Balanced :
      (cs : List SlotCall) (s : SlotRing D)
      → All KeepsStats cs
      → Balanced s
          (after_calls cs s)
          (total (inserts slot_size) cs)
          (total (losses slot_size) cs)
          (total (reads slot_size) cs)
  unfolding after_calls total
  after_calls-Balanced [] s keep = same-Balanced s
  after_calls-Balanced (c ∷ cs) s keep =
      Balanced-trans s _ _ (inserts slot_size c) (losses slot_size c) (reads slot_size c)
        (total (inserts slot_size) cs) (total (losses slot_size) cs) (total (reads slot_size) cs)
        (step-Balanced c s keep.0) (after_calls-Balanced cs _ keep.1)
