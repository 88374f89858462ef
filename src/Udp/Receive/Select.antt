-- ===== src/Udp/Receive/Select.antt =====
-- Which packet of a datagram the search of `receivePacketRedundancy` ends at.
use jacktrip.Base.{
  ==_refl, arith, false, if◌then◌else◌, min, suc, true, u16, zero, ℕ, ℕ_discrete, ◌+◌, ◌-◌, ◌<◌,
  ◌==◌, ◌^◌, ◌∙◌, ◌≡◌, ◌≤◌,
}
use jacktrip.Udp.Receive.{lost_packets, redun_loop, redun_last_index}

-- The packets of a datagram have descending numbers, modulo 2 ^ 16.
abbrev pub Descends : (ℕ → ℕ) → ℕ → ℕ → Type 0
Descends seq_at newer factor = (i : ℕ) → i < factor → seq_at i ≡ u16 (newer + (2 ^ 16 - i))

module _ (seq_at : ℕ → ℕ) (newer last factor : ℕ) (descends : Descends seq_at newer factor)
    (newer_lt : newer < 2 ^ 16) (factor_lt : factor < 2 ^ 15)
    (few : lost_packets newer last ≤ 1000) where
  loop_below :
      (rounds j : ℕ)
      → last < 2 ^ 16 - 1
      → j + rounds + 1 ≡ factor
      → j ≤ lost_packets newer last
      → redun_loop seq_at last rounds (j + 1) j (seq_at j)
        ≡ min (lost_packets newer last) (factor - 1)
  unfolding redun_loop lost_packets
  loop_below zero j h e le = omega arith
  loop_below (suc rounds) j h e le = elim (ℕ_discrete j (lost_packets newer last)) [
    | yes p ↦
        let at : seq_at j ≡ last + 1 = descends j (omega arith) ∙ omega arith in
        rw (at, ==_refl (last + 1)) (omega arith)
    | no p ↦
        let off : (seq_at j == last + 1) ≡ false = rw (descends j (omega arith)) (ground arith) in
        rw off (loop_below rounds (j + 1) h (omega arith) (omega arith))
  ]

  loop_at_end :
      (rounds j : ℕ)
      → last ≡ 2 ^ 16 - 1
      → j + rounds + 1 ≡ factor
      → redun_loop seq_at last rounds (j + 1) j (seq_at j) ≡ factor - 1
  unfolding redun_loop
  loop_at_end zero j h e = omega arith
  loop_at_end (suc rounds) j h e =
      let off : (seq_at j == last + 1) ≡ false = rw (descends j (omega arith)) (ground arith) in
      rw off (loop_at_end rounds (j + 1) h (omega arith))

  -- In a datagram of packets with descending numbers the search ends at the packet that comes after
  -- the last one read, as many places back as packets are lost, or at the oldest packet if that is
  -- not there; but if the number of the last one read is 65535 it always ends at the oldest packet.
  pub redun_last_index_lem :
      0 < factor
      → last < 2 ^ 16
      → redun_last_index seq_at last factor
        ≡ (if last == 2 ^ 16 - 1 then factor - 1 else min (lost_packets newer last) (factor - 1))
  unfolding redun_last_index
  redun_last_index_lem pos h = elim (ℕ_discrete last (2 ^ 16 - 1)) [
    | yes e ↦
        let on : (last == 2 ^ 16 - 1) ≡ true = ground arith in
        rw on (loop_at_end (factor - 1) 0 e (omega arith))
    | no n ↦
        let off : (last == 2 ^ 16 - 1) ≡ false = ground arith in
        rw off (loop_below (factor - 1) 0 (omega arith) (omega arith) (omega arith))
  ]
