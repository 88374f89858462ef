-- ===== src/Udp/Receive/Tests.antt =====
-- A receiver of three packets per datagram, at concrete datagrams.
use jacktrip.Base.{
  List, [], arith, false, if◌then◌else◌, min, refl, suc, true, u16, zero, ℕ, ◌++◌, ◌+◌, ◌-◌, ◌<◌,
  ◌==◌, ◌^◌, ◌∷◌, ◌≡◌, ◌≤◌, ◌⊎◌,
}
use jacktrip.Header.{
  get_number, get_peer_sequence_number, get_peer_buffer_size, get_peer_num_outgoing_channels,
  get_peer_num_incoming_channels, peer_header, decode_num_outgoing_channels,
}
use jacktrip.Udp.Receive.{
  Receiver, judge, lost_packets, redun_last_index, Settings, seq_at, stride_bytes,
  receive_packet_redundancy,
}
use jacktrip.Udp.Receive.Select.{Descends, redun_last_index_lem}
use jacktrip.Udp.Receive.Count.{IsFirst, IsNext, IsOutOfOrder, judge_lem}
use jacktrip.Udp.Receive.Deliver.{Recovered, write_log, receive_packet_redundancy-Recovered}

abbrev mono_8 : Settings
mono_8 = record {
  chans = 1;
  smpl_size = 1;
  redundancy_factor = 3;
  full_packet_size = 18;
  full_redundant_packet_size = 54;
}

-- A packet of two samples of one channel of 8 bits.
abbrev packet : ℕ → List ℕ
packet n =
    0 ∷ 0 ∷ 0 ∷ 0 ∷ 0 ∷ 0 ∷ 0 ∷ 0 ∷ n ∷ 0 ∷ 2 ∷ 0 ∷ 3 ∷ 8 ∷ 1 ∷ 0 ∷ (100 + n) ∷ (200 + n) ∷ []

abbrev datagram : List ℕ
datagram = packet 12 ++ (packet 11 ++ packet 10)

abbrev started : Receiver
started = record {
  initial_state = false;
  last_out_of_order_count = 0;
  tot_count = 9;
  lost_count = 0;
  out_of_order_count = 0;
  revived_count = 4;
  stat_count = 0;
  last_seq_num = 9;
  buffer = [];
  stopped = false;
}

newest : get_peer_sequence_number datagram ≡ 12
unfolding get_peer_sequence_number get_number
newest = refl

missing : lost_packets (get_peer_sequence_number datagram) 9 ≡ 2
unfolding lost_packets get_peer_sequence_number get_number
missing = refl

stride : stride_bytes mono_8 datagram ≡ 18
unfolding stride_bytes get_peer_buffer_size get_peer_num_outgoing_channels get_number peer_header
    get_peer_num_incoming_channels decode_num_outgoing_channels
stride = refl

descends : Descends (seq_at mono_8 datagram) (get_peer_sequence_number datagram) 3
unfolding seq_at get_peer_sequence_number get_number
descends zero h = refl
descends (suc zero) h = refl
descends (suc (suc zero)) h = refl
descends (suc (suc (suc i))) h = absurd (omega arith)

receive_packet_redundancy-Recovered_example :
    Recovered mono_8 datagram
      (lost_packets (get_peer_sequence_number datagram) 9)
      4
      []
      (receive_packet_redundancy write_log mono_8 false datagram started [])
receive_packet_redundancy-Recovered_example =
    receive_packet_redundancy-Recovered mono_8 datagram started [] refl refl (omega arith)
      (omega (arith, newest)) (omega arith) descends (omega (arith, missing))
      (omega (arith, missing)) (omega (arith, stride)) (omega (arith, stride)) refl

redun_last_index_lem_example :
    redun_last_index (λ i. u16 (5 + (2 ^ 16 - i))) 2 4
    ≡ (if 2 == 2 ^ 16 - 1 then 4 - 1 else min (lost_packets 5 2) (4 - 1))
redun_last_index_lem_example =
    redun_last_index_lem (λ i. u16 (5 + (2 ^ 16 - i))) 5 2 4 (λ i h. refl) (omega arith)
      (omega arith) (unfold lost_packets in omega arith) (omega arith) (omega arith)

judge_lem_example :
    ((started.initial_state ≡ true)
      × IsFirst started (judge (u16 (started.last_seq_num + 1 + 2)) started))
    ⊎ ((started.initial_state ≡ false)
        × (2 ≤ 1000)
        × IsNext started 2 (judge (u16 (started.last_seq_num + 1 + 2)) started))
    ⊎ ((started.initial_state ≡ false)
        × (1000 < 2)
        × IsOutOfOrder started (judge (u16 (started.last_seq_num + 1 + 2)) started))
judge_lem_example = judge_lem started 2 (omega arith) (omega arith) (omega arith)
