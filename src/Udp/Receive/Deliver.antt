-- ===== src/Udp/Receive/Deliver.antt =====
-- What `receivePacketRedundancy` hands on when every missing packet is in the datagram.
use native.Mathlib.Nat.{mul-le-mul_right, add-mul, le-div_iff_mul-le}
use mathlib.Core.Path.{subst}
use jacktrip.Base.{
  Bool, List, [], ap, append_assoc, arith, drop, false, leb-false, le→leb, ltb-false, min, refl,
  suc, sym, take, true, u32, zero, ℕ, ◌*◌, ◌++◌, ◌+◌, ◌-◌, ◌/◌, ◌<◌, ◌==◌, ◌^◌, ◌∙◌, ◌∷◌, ◌≡◌, ◌≤◌,
}
use jacktrip.Header.{get_peer_sequence_number, get_peer_buffer_size, header_size}
use jacktrip.Udp.Gap.{ℤ, pos, ◌-ℤ◌}
use jacktrip.Udp.Receive.{
  Receiver, lost_packets, is_out_of_order, accept, judge, redun_last_index, Settings, audio_at,
  grow, stride_bytes, seq_at, deliver, hand_over, after_verdict, receive_packet_redundancy,
}
use jacktrip.Udp.Receive.Select.{Descends, redun_last_index_lem}

-- What `writeAudioBuffer` is called with: the audio, the gap before it and the sequence number.
abbrev pub Entry : Type 0
Entry = List ℕ × ℤ × ℕ

-- A sink that takes everything.
abbrev pub write_log : List ℕ → ℤ → ℕ → List Entry → Bool × List Entry
write_log audio gap seq log = (true, log ++ ((audio, gap, seq) ∷ []))

-- The packets `i` to 0, none with a gap before it.
unfoldable pub entries : (ℕ → List ℕ) → ℕ → ℕ → List Entry
entries audio seq zero = (audio 0, pos 0, seq) ∷ []
entries audio seq (suc i) = (audio (suc i), pos 0, seq) ∷ entries audio seq i

-- The audio of the packet `i` of a datagram, for one channel.
abbrev pub packet_audio : Settings → List ℕ → ℕ → List ℕ
packet_audio p datagram i =
    take (get_peer_buffer_size datagram * p.chans * p.smpl_size)
      (drop (i * p.full_packet_size + header_size) datagram)

deliver-log :
    (f : ℕ → List ℕ) (i : ℕ) (s : Receiver) (log : List Entry)
    → (deliver write_log (λ j b. (f j, b)) i (pos 0) s log).1 ≡ log ++ entries f s.last_seq_num i
unfolding deliver entries
deliver-log f zero s log = refl
deliver-log f (suc i) s log =
    deliver-log f i s (log ++ ((f (suc i), pos 0, s.last_seq_num) ∷ []))
    ∙ append_assoc log _ (entries f s.last_seq_num i)

audio_at_mono :
    (p : Settings) (datagram : List ℕ)
    → p.chans ≡ 1
    → (i : ℕ) (b : List ℕ) → audio_at p datagram i b ≡ (packet_audio p datagram i, b)
unfolding audio_at
audio_at_mono p datagram e i b = let one : (p.chans == 1) ≡ true = ground arith in rw one refl

-- Writing changes no number of the receiver.
deliver-keeps :
    (f : ℕ → List ℕ) (i : ℕ) (gap : ℤ) (s : Receiver) (log : List Entry)
    → ((deliver write_log (λ j b. (f j, b)) i gap s log).0.last_seq_num ≡ s.last_seq_num)
      × ((deliver write_log (λ j b. (f j, b)) i gap s log).0.revived_count ≡ s.revived_count)
unfolding deliver
deliver-keeps f zero gap s log = (refl, refl)
deliver-keeps f (suc i) gap s log = deliver-keeps f i (pos 0) s _

no_gap : (n : ℕ) → n -ℤ n ≡ pos 0
no_gap n = rw (le→leb n n (omega arith)) (ap pos (omega arith))

-- The clamp leaves an index within the datagram as it is.
clamp_lem :
    (lost factor stride size : ℕ)
    → lost < factor
    → 0 < stride
    → stride ≤ size
    → min lost ((factor * size - stride) / size) ≡ lost
clamp_lem lost factor stride size h k le =
    let fits : lost * size ≤ factor * size - stride = omega (
      arith,
      mul-le-mul_right {m = lost + 1} {n = factor} size (omega arith),
      add-mul lost 1 size,
    ) in
    let q : lost ≤ (factor * size - stride) / size =
      (le-div_iff_mul-le {k = size} {x = lost} {y = factor * size - stride} (omega arith)).1 fits in
    omega arith

module _ (p : Settings) (datagram : List ℕ) (mono : p.chans ≡ 1) where
  deliver_mono :
      (i : ℕ) (gap : ℤ) (s : Receiver) (log : List Entry)
      → deliver write_log (audio_at p datagram) i gap s log
        ≡ deliver write_log (λ j b. (packet_audio p datagram j, b)) i gap s log
  deliver_mono i gap s log =
      ap (λ audio. deliver write_log audio i gap s log)
        (λ k j b. audio_at_mono p datagram mono j b k)

-- What the receiver holds after a datagram, and what was written.
abbrev pub Recovered : Settings → List ℕ → ℕ → ℕ → List Entry → Receiver × List Entry → Type 0
Recovered p datagram lost revived log r =
    (r.1 ≡ log ++ entries (packet_audio p datagram) (get_peer_sequence_number datagram) lost)
    × (r.0.last_seq_num ≡ get_peer_sequence_number datagram)
    × (r.0.revived_count ≡ u32 (revived + lost))

-- The state in which the delivery starts.
abbrev ready : Settings → List ℕ → Receiver → Receiver
ready p datagram s = record s {
  last_seq_num = get_peer_sequence_number datagram;
  buffer = grow (get_peer_buffer_size datagram * p.chans * p.smpl_size) s.buffer;
}

hand_over-deliver :
    (p : Settings) (datagram : List ℕ) (lost : ℕ) (s : Receiver) (log : List Entry)
    → lost < p.redundancy_factor
    → header_size < stride_bytes p datagram
    → stride_bytes p datagram ≤ p.full_packet_size
    → p.full_redundant_packet_size ≡ p.redundancy_factor * p.full_packet_size
    → hand_over write_log p datagram lost lost s log
      ≡ deliver write_log (audio_at p datagram) lost (pos 0) (ready p datagram s) log
unfolding hand_over
hand_over-deliver p datagram lost s log lt low high size =
    let stride = stride_bytes p datagram in
    let host = get_peer_buffer_size datagram * p.chans * p.smpl_size in
    let whole : p.full_packet_size ≤ p.redundancy_factor * p.full_packet_size = omega (
      arith,
      mul-le-mul_right {m = 1} {n = p.redundancy_factor} p.full_packet_size (omega arith),
    ) in
    rw
      (
        leb-false stride header_size (omega arith),
        ltb-false p.full_redundant_packet_size stride (omega arith),
        size,
        clamp_lem lost p.redundancy_factor stride p.full_packet_size lt (omega arith) high,
        no_gap (lost * host),
      )
      refl

hand_over-Recovered :
    (p : Settings) (datagram : List ℕ) (lost : ℕ) (s : Receiver) (log : List Entry) (revived : ℕ)
    → p.chans ≡ 1
    → lost < p.redundancy_factor
    → header_size < stride_bytes p datagram
    → stride_bytes p datagram ≤ p.full_packet_size
    → p.full_redundant_packet_size ≡ p.redundancy_factor * p.full_packet_size
    → s.revived_count ≡ u32 (revived + lost)
    → Recovered p datagram lost revived log (hand_over write_log p datagram lost lost s log)
hand_over-Recovered p datagram lost s log revived mono lt low high size r =
    let kept = deliver-keeps (packet_audio p datagram) lost (pos 0) (ready p datagram s) log in
    subst (Recovered p datagram lost revived log)
      (sym (
        hand_over-deliver p datagram lost s log lt low high size
        ∙ deliver_mono p datagram mono lost (pos 0) (ready p datagram s) log))
      (deliver-log (packet_audio p datagram) lost (ready p datagram s) log, kept.0, kept.1 ∙ r)

-- Where each of up to 1000 missing packets is in a whole datagram of packets with descending numbers,
-- for one channel, and the number of the last one read is not 65535: the audio of every missing
-- packet and then of the new one is written, each once, in the order of their numbers, with no gap;
-- the new number becomes the last one read and the packets recovered are counted.
pub receive_packet_redundancy-Recovered :
    (p : Settings) (datagram : List ℕ) (s : Receiver) (log : List Entry)
    → p.chans ≡ 1
    → s.initial_state ≡ false
    → s.last_seq_num < 2 ^ 16 - 1
    → get_peer_sequence_number datagram < 2 ^ 16
    → p.redundancy_factor < 2 ^ 15
    → Descends (seq_at p datagram) (get_peer_sequence_number datagram) p.redundancy_factor
    → lost_packets (get_peer_sequence_number datagram) s.last_seq_num ≤ 1000
    → lost_packets (get_peer_sequence_number datagram) s.last_seq_num < p.redundancy_factor
    → header_size < stride_bytes p datagram
    → stride_bytes p datagram ≤ p.full_packet_size
    → p.full_redundant_packet_size ≡ p.redundancy_factor * p.full_packet_size
    → Recovered p datagram
        (lost_packets (get_peer_sequence_number datagram) s.last_seq_num)
        s.revived_count
        log
        (receive_packet_redundancy write_log p false datagram s log)
unfolding receive_packet_redundancy judge after_verdict accept is_out_of_order
receive_packet_redundancy-Recovered p datagram s log mono started last_lt new_lt factor_lt descends
      few there low high size =
    let newer = get_peer_sequence_number datagram in
    let lost = lost_packets newer s.last_seq_num in
    let in_order : is_out_of_order lost ≡ false = ground arith in
    let on : (s.last_seq_num == 2 ^ 16 - 1) ≡ false = ground arith in
    let found : redun_last_index (seq_at p datagram) s.last_seq_num p.redundancy_factor ≡ lost =
      redun_last_index_lem (seq_at p datagram) newer s.last_seq_num p.redundancy_factor descends
        new_lt factor_lt few (omega arith) (omega arith)
      ∙ rw on (omega arith) in
    rw (started, in_order, found)
      (hand_over-Recovered p datagram lost _ log s.revived_count mono there low high size refl)
