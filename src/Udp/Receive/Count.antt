-- ===== src/Udp/Receive/Count.antt =====
-- Which datagrams `receivePacketRedundancy` accepts, and when it starts afresh.
use jacktrip.Base.{
  Bool-cases, arith, dec_le, dec_lt, false, if◌then◌else◌, inl, inr, ltb, refl, true, u16, u32, ℕ,
  ◌+◌, ◌<◌, ◌^◌, ◌∙◌, ◌≡◌, ◌≤◌, ◌⊎◌,
}
use jacktrip.Udp.Receive.{
  Receiver, ignored, accepted, lost_packets, is_out_of_order, ignore, accept, judge, Verdict,
}

-- The first datagram, or the first one after a restart: accepted with no packet lost before it, and not
-- counted.
pub record IsFirst (s : Receiver) (v : Verdict) : Type 0 where
  pub after : Receiver
  pub verdict : v ≡ accepted 0 after
  pub started : after.initial_state ≡ false
  pub none_in_a_row : after.last_out_of_order_count ≡ 0
  pub same_lost : after.lost_count ≡ s.lost_count
  pub same_total : after.tot_count ≡ s.tot_count
  pub same_out_of_order : after.out_of_order_count ≡ s.out_of_order_count

-- Accepted with `k` packets lost before it, which are counted as lost and with it in the total.
pub record IsNext (s : Receiver) (k : ℕ) (v : Verdict) : Type 0 where
  pub after : Receiver
  pub verdict : v ≡ accepted k after
  pub started : after.initial_state ≡ false
  pub none_in_a_row : after.last_out_of_order_count ≡ 0
  pub lost : after.lost_count ≡ u32 (s.lost_count + k)
  pub total : after.tot_count ≡ u32 (s.tot_count + k + 1)
  pub same_out_of_order : after.out_of_order_count ≡ s.out_of_order_count

-- Ignored, and counted as out of order; the sixth one in a row makes the receiver start afresh.
pub record IsOutOfOrder (s : Receiver) (v : Verdict) : Type 0 where
  pub after : Receiver
  pub verdict : v ≡ ignored after
  pub out_of_order : after.out_of_order_count ≡ u32 (s.out_of_order_count + 1)
  pub in_a_row : after.last_out_of_order_count ≡ s.last_out_of_order_count + 1
  pub same_lost : after.lost_count ≡ s.lost_count
  pub same_last : after.last_seq_num ≡ s.last_seq_num
  pub restart :
      ((s.last_out_of_order_count < 5)
        × (after.initial_state ≡ false)
        × (after.tot_count ≡ s.tot_count)
        × (after.stat_count ≡ s.stat_count))
      ⊎ ((5 ≤ s.last_out_of_order_count)
          × (after.initial_state ≡ true)
          × (after.tot_count ≡ 0)
          × (after.stat_count ≡ 0))

judge-IsFirst : (newer : ℕ) (s : Receiver) → s.initial_state ≡ true → IsFirst s (judge newer s)
unfolding judge
judge-IsFirst newer s e = record {
  after = record s { last_out_of_order_count = 0; initial_state = false };
  verdict = rw e refl;
  started = refl;
  none_in_a_row = refl;
  same_lost = refl;
  same_total = refl;
  same_out_of_order = refl;
}

judge_started :
    (newer : ℕ) (s : Receiver)
    → s.initial_state ≡ false
    → judge newer s ≡ (
        if is_out_of_order (lost_packets newer s.last_seq_num)
        then ignored (ignore s)
        else accepted
            (lost_packets newer s.last_seq_num)
            (accept (lost_packets newer s.last_seq_num) s))
unfolding judge
judge_started newer s e = rw e refl

accept-IsNext :
    (s : Receiver) (k : ℕ) → s.lost_count < 2 ^ 32 → IsNext s k (accepted k (accept k s))
unfolding accept
accept-IsNext s k small = record {
  after = accept k s;
  verdict = refl;
  started = refl;
  none_in_a_row = refl;
  lost = ground (arith, small);
  total = omega arith;
  same_out_of_order = refl;
}

ignore-IsOutOfOrder : (s : Receiver) → s.initial_state ≡ false → IsOutOfOrder s (ignored (ignore s))
unfolding ignore
ignore-IsOutOfOrder s e = elim (dec_lt s.last_out_of_order_count 5) [
  | yes p ↦
      let test : ltb 5 (s.last_out_of_order_count + 1) ≡ false = ground (arith, p) in
      rw test (record {
        after = record s {
          out_of_order_count = u32 (s.out_of_order_count + 1);
          last_out_of_order_count = s.last_out_of_order_count + 1;
        };
        verdict = refl;
        out_of_order = refl;
        in_a_row = refl;
        same_lost = refl;
        same_last = refl;
        restart = inl (p, e, refl, refl);
      })
  | no p ↦
      let test : ltb 5 (s.last_out_of_order_count + 1) ≡ true = ground (arith, p) in
      rw test (record {
        after = record s {
          out_of_order_count = u32 (s.out_of_order_count + 1);
          last_out_of_order_count = s.last_out_of_order_count + 1;
          initial_state = true;
          stat_count = 0;
          tot_count = 0;
        };
        verdict = refl;
        out_of_order = refl;
        in_a_row = refl;
        same_lost = refl;
        same_last = refl;
        restart = inr (omega (arith, p), refl, refl, refl);
      })
]

-- What becomes of a datagram whose first number is `k` more than the one expected, modulo 2 ^ 16. If
-- the receiver has not started it is accepted as the first one, whatever `k` is, with nothing lost and
-- nothing counted. If it has: with `k` up to 1000 it is accepted, `k` packets are counted as lost, and
-- they and it in the total; with any other `k` it is ignored and counted as out of order, and the sixth
-- such datagram in a row makes the receiver start afresh, with a total of 0. The counters are words of
-- 32 bits.
pub judge_lem :
    (s : Receiver) (k : ℕ)
    → s.last_seq_num < 2 ^ 16
    → s.lost_count < 2 ^ 32
    → k < 2 ^ 16
    → ((s.initial_state ≡ true) × IsFirst s (judge (u16 (s.last_seq_num + 1 + k)) s))
      ⊎ ((s.initial_state ≡ false)
          × (k ≤ 1000)
          × IsNext s k (judge (u16 (s.last_seq_num + 1 + k)) s))
      ⊎ ((s.initial_state ≡ false)
          × (1000 < k)
          × IsOutOfOrder s (judge (u16 (s.last_seq_num + 1 + k)) s))
judge_lem s k last_lt lost_lt k_lt =
    let newer = u16 (s.last_seq_num + 1 + k) in
    let lost : lost_packets newer s.last_seq_num ≡ k = unfold lost_packets in omega arith in
    elim (Bool-cases s.initial_state) [
      | inl e ↦ inl (e, judge-IsFirst newer s e)
      | inr e ↦ elim (dec_le k 1000) [
        | yes p ↦
            let test : is_out_of_order k ≡ false = unfold is_out_of_order in ground arith in
            let same : judge newer s ≡ accepted k (accept k s) =
              judge_started newer s e ∙ rw (lost, test) refl in
            inr (inl (e, p, rw same (accept-IsNext s k lost_lt)))
        | no p ↦
            let test : is_out_of_order k ≡ true = unfold is_out_of_order in ground arith in
            let same : judge newer s ≡ ignored (ignore s) =
              judge_started newer s e ∙ rw (lost, test) refl in
            inr (inr (e, omega arith, rw same (ignore-IsOutOfOrder s e)))
      ]
    ]
