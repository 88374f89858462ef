-- ===== src/Web/Counts.antt =====
-- src/webrtc/WebRtcDataProtocol.cpp and src/webtransport/WebTransportDataProtocol.cpp: the counters of the
-- receiver over many datagrams, and its timer.
use mathlib.Core.Option.{none-ne-some, some-injective}
use mathlib.Core.Path.{subst}
use jacktrip.Header.{DefaultHeaderStruct, Mismatch, get_number, get_peer_sequence_number}
use jacktrip.Udp.Receive.{Settings, lost_packets, is_out_of_order}
use jacktrip.Web.{
  WebProtocol, web_rtc, web_transport, WebReceiver, AudioWrite, track, is_whole, write_packet,
  after_track, process_received_packet, process_control_packet, reset_timer, on_datagram_received,
  is_exit,
}
use jacktrip.Web.Receive.{on_datagram_cases}
use jacktrip.Base.{
  All, Bool, Bool-cases, IsByte, List, Option, [], arith, drop, false, inl, inr, none, not, refl,
  some, suc, true, u16, u32, zero, ℕ, ◌&&◌, ◌+◌, ◌-◌, ◌<◌, ◌^◌, ◌∙◌, ◌∷◌, ◌≡◌,
}

-- Datagrams in the order in which they arrive.
pub receive_all :
    (AudioWrite → Bool)
    → WebProtocol
    → Settings
    → Bool
    → DefaultHeaderStruct
    → List (List ℕ)
    → WebReceiver
    → WebReceiver
receive_all write protocol p same own [] s = s
receive_all write protocol p same own (packet ∷ packets) s =
    receive_all write protocol p same own packets
      (on_datagram_received write protocol p same own packet s).0

-- How far the total is ahead of the last number, modulo 2^16.
abbrev pub ahead : WebReceiver → ℕ
ahead s = u16 (s.tot_count + (2 ^ 16 - s.last_seq_num))

-- A receiver that was started, `lead` ahead.
pub record Counts (lead : ℕ) (s : WebReceiver) : Type 0 where
  pub started : s.initial_state ≡ false
  pub last_lt : s.last_seq_num < 2 ^ 16
  pub lead_same : ahead s ≡ lead

drop-All : (n : ℕ) (xs : List ℕ) → All IsByte xs → All IsByte (drop n xs)
drop-All zero xs h = h
drop-All (suc n) [] h = tt
drop-All (suc n) (x ∷ xs) h = drop-All n xs h.1

two_bytes : (xs : List ℕ) → All IsByte xs → get_number 2 xs < 2 ^ 16
unfolding get_number
two_bytes [] h = omega arith
two_bytes (x ∷ []) h = omega (arith, h.0)
two_bytes (x ∷ y ∷ xs) h = omega (arith, h.0, h.1.0)

sequence_number_lt :
    (packet : List ℕ) → All IsByte packet → get_peer_sequence_number packet < 2 ^ 16
unfolding get_peer_sequence_number
sequence_number_lt packet h = two_bytes (drop 8 packet) (drop-All 8 packet h)

lead_lem :
    (tot last current : ℕ)
    → last < 2 ^ 16
    → current < 2 ^ 16
    → u16 (u32 (tot + (1 + u16 (current + (2 ^ 16 - 1 - last)))) + (2 ^ 16 - current))
      ≡ u16 (tot + (2 ^ 16 - last))
lead_lem tot last current l c = omega (arith, l, c)

same-Counts :
    (lead : ℕ) (s t : WebReceiver)
    → t.initial_state ≡ s.initial_state
    → t.tot_count ≡ s.tot_count
    → t.last_seq_num ≡ s.last_seq_num
    → Counts lead s
    → Counts lead t
same-Counts lead s t i n l h = record {
  started = i ∙ h.started;
  last_lt = omega (arith, l, h.last_lt);
  lead_same = rw (n, l) h.lead_same;
}

module _ (lead : ℕ) where
  reset_timer-Counts :
      (protocol : WebProtocol) (b : Bool) (s : WebReceiver)
      → Counts lead s
      → Counts lead (reset_timer protocol b s)
  unfolding reset_timer
  reset_timer-Counts web_rtc b s h = same-Counts lead s _ refl refl refl h
  reset_timer-Counts web_transport true s h = h
  reset_timer-Counts web_transport false s h = same-Counts lead s _ refl refl refl h

  process_control_packet-Counts :
      (protocol : WebProtocol) (packet : List ℕ) (s : WebReceiver)
      → Counts lead s
      → Counts lead (process_control_packet protocol packet s).0
  unfolding process_control_packet
  process_control_packet-Counts web_rtc packet s h =
      elim (Bool-cases (is_exit packet && not s.stop_signal_sent)) [
        | inl q ↦
            simp q (same-Counts lead s (record s { stop_signal_sent = true }) refl refl refl h)
        | inr q ↦ simp q h
      ]
  process_control_packet-Counts web_transport packet s h = same-Counts lead s _ refl refl refl h

  write_packet-Counts :
      (write : AudioWrite → Bool) (p : Settings) (packet : List ℕ) (lost : ℕ)
      (report : List Mismatch) (s : WebReceiver)
      → Counts lead s
      → Counts lead (write_packet write p packet lost report s).0
  unfolding write_packet
  write_packet-Counts write p packet lost report s h = elim (Bool-cases (is_whole p packet)) [
    | inl q ↦ rw q (same-Counts lead s _ refl refl refl h)
    | inr q ↦ rw q h
  ]

  track-Counts :
      (current : ℕ) (s : WebReceiver)
      → current < 2 ^ 16
      → Counts lead s
      → (r : ℕ × WebReceiver) → track current s ≡ some r
      → Counts lead r.1
  unfolding track lost_packets
  track-Counts current s c h r =
      let lost = lost_packets current s.last_seq_num in
      elim (Bool-cases (is_out_of_order lost)) [
        | inl o ↦ rw (h.started, o) (λ e. absurd (none-ne-some r e))
        | inr o ↦
            rw (h.started, o)
              (λ e.
                subst (λ x. Counts lead x.1) (some-injective _ r e)
                  record {
                    started = refl;
                    last_lt = c;
                    lead_same =
                        lead_lem s.tot_count s.last_seq_num current h.last_lt c ∙ h.lead_same;
                  })
      ]

  module _ (write : AudioWrite → Bool) (protocol : WebProtocol) (p : Settings) (same : Bool)
      (own : DefaultHeaderStruct) where
    after_track-Counts :
        (packet : List ℕ) (s : WebReceiver) (o : Option (ℕ × WebReceiver))
        → ((r : ℕ × WebReceiver) → o ≡ some r → Counts lead r.1)
        → Counts lead s
        → Counts lead (after_track write protocol p same own packet s o).0
    unfolding after_track
    after_track-Counts packet s none k h = same-Counts lead s _ refl refl refl h
    after_track-Counts packet s (some r) k h =
        write_packet-Counts write p packet r.0 _ r.1 (k r refl)

    on_datagram_received-Counts :
        (packet : List ℕ) (s : WebReceiver)
        → All IsByte packet
        → Counts lead s
        → Counts lead (on_datagram_received write protocol p same own packet s).0
    unfolding process_received_packet
    on_datagram_received-Counts packet s b h =
        on_datagram_cases write protocol p same own packet (λ r. Counts lead r.0) s (λ x. h)
          (λ t x.
            process_control_packet-Counts protocol packet (reset_timer protocol t s)
              (reset_timer-Counts protocol t s h))
          (λ t x. reset_timer-Counts protocol t s h)
          (λ x y z.
            let next = reset_timer protocol false s in
            let kept = reset_timer-Counts protocol false s h in
            after_track-Counts packet next (track (get_peer_sequence_number packet) next)
              (track-Counts (get_peer_sequence_number packet) next (sequence_number_lt packet b)
                kept)
              kept)

receive_all-keeps :
    (lead : ℕ) (write : AudioWrite → Bool) (protocol : WebProtocol) (p : Settings) (same : Bool)
    (own : DefaultHeaderStruct) (packets : List (List ℕ)) (s : WebReceiver)
    → All (All IsByte) packets
    → Counts lead s
    → Counts lead (receive_all write protocol p same own packets s)
unfolding receive_all
receive_all-keeps lead write protocol p same own [] s b h = h
receive_all-keeps lead write protocol p same own (packet ∷ packets) s b h =
    receive_all-keeps lead write protocol p same own packets
      (on_datagram_received write protocol p same own packet s).0 b.1
      (on_datagram_received-Counts lead write protocol p same own packet s b.0 h)

-- Whatever datagrams arrive at a receiver that was started, with the last number in its range: it
-- stays started, and the total of received and lost packets and the last number advance by the
-- same, modulo 2 ^ 16.
pub receive_all-Counts :
    (write : AudioWrite → Bool) (protocol : WebProtocol) (p : Settings) (same : Bool)
    (own : DefaultHeaderStruct) (packets : List (List ℕ)) (s : WebReceiver)
    → All (All IsByte) packets
    → s.initial_state ≡ false
    → s.last_seq_num < 2 ^ 16
    → Counts (ahead s) (receive_all write protocol p same own packets s)
receive_all-Counts write protocol p same own packets s b i l =
    receive_all-keeps (ahead s) write protocol p same own packets s b
      (record { started = i; last_lt = l; lead_same = refl })
