-- ===== src/Web/RoundTrip.antt =====
-- src/webrtc/WebRtcDataProtocol.cpp and src/webtransport/WebTransportDataProtocol.cpp: the audio that is
-- sent is the audio that is written at the peer.

use jacktrip.Header.{
  DefaultHeaderStruct, Audio, put_header_in_packet, fill_header_common_from_audio,
}
use jacktrip.Udp.Receive.{Settings}
use jacktrip.Web.{WebProtocol, WebReceiver, AudioWrite, on_datagram_received, control_packet_size}
use jacktrip.Web.Send.{
  WebRtcSender, send_round, WebSender, send_packet_size, send_packet_direct, buffer_pool_size,
}
use jacktrip.Web.Send.Sent.{
  send_packet_direct_lem, fill_buffer_lem, round_part, round_part_mono, round_part_more,
  send_round_lem,
}
use jacktrip.Web.Packet.{Sendable, Carries, take_whole, sent_header, sent_packet, length_back}
use jacktrip.Web.Written.{built_wire, deinterleaved_size, built-Carries, carried, received_packet}
use jacktrip.Base.{
  Bool, List, [], ap, arith, false, get_or, length, some, take, u16, ℕ, ℕ_discrete, ◌*◌, ◌++◌, ◌+◌,
  ◌<◌, ◌^◌, ◌∙◌, ◌≡◌, ◌≢◌, ◌≤◌,
}

-- A receiver that is running gets the packet after the `k` that follow the last one.
pub record Follows (k seq : ℕ) (s : WebReceiver) : Type 0 where
  pub running : s.stopped ≡ false
  pub started : s.initial_state ≡ false
  pub last_lt : s.last_seq_num < 2 ^ 16
  pub lost_le : k ≤ 1000
  pub number : seq ≡ u16 (s.last_seq_num + 1 + k)

module _ (write : AudioWrite → Bool) (protocol : WebProtocol) (p : Settings) (same : Bool)
    (own : DefaultHeaderStruct) (a : Audio) (audio : List ℕ) (k : ℕ) (s : WebReceiver) where
  received_wire :
      (h : DefaultHeaderStruct) (wire : List ℕ)
      → Sendable p a audio
      → Follows k h.seq_number s
      → send_packet_size p a ≢ control_packet_size
      → Carries p a.buffer_size_in_samples audio wire
      → (on_datagram_received write protocol p same own
          (put_header_in_packet (fill_header_common_from_audio a h) ++ wire)
          s).1.write
        ≡ some (record {
          audio = audio;
          len = a.buffer_size_in_samples * p.chans * p.smpl_size;
          lost_len = k * (a.buffer_size_in_samples * p.chans * p.smpl_size);
          seq = h.seq_number;
        })
  unfolding sent_packet sent_header carried
  received_wire h wire f g d c =
      received_packet write protocol p same own a h audio wire k s f c
        (λ e. d (omega (arith, e, c.size, length_back p a h audio wire (omega (arith, g.number)))))
        g.running g.started g.last_lt g.lost_le g.number

  -- The audio of up to 255 channels that `sendPacketDirect` has sent, from a pool whose buffers are
  -- large enough, is written at a receiver with as many channels as it was, with the number of the
  -- packet and a gap of as many packets as were lost, up to 1000; unless the packet has the 63
  -- bytes of a control packet.
  pub on_datagram_received-send_packet_direct :
      (connected : Bool) (send : List ℕ → Bool) (x : WebSender) (r : ℕ × List ℕ)
      → Sendable p a audio
      → Follows k x.header.seq_number s
      → ((i : ℕ) → i < buffer_pool_size → send_packet_size p a ≤ length (get_or x.buffers i []))
      → send_packet_size p a ≢ control_packet_size
      → (send_packet_direct connected send p a audio x).1 ≡ some r
      → (on_datagram_received write protocol p same own r.1 s).1.write
        ≡ some (record {
          audio = audio;
          len = a.buffer_size_in_samples * p.chans * p.smpl_size;
          lost_len = k * (a.buffer_size_in_samples * p.chans * p.smpl_size);
          seq = x.header.seq_number;
        })
  unfolding built_wire
  on_datagram_received-send_packet_direct connected send x r f g room d e =
      let sent = send_packet_direct_lem send p a audio x connected r e in
      let buffer = get_or x.buffers sent.0 [] in
      let h = fill_header_common_from_audio a x.header in
      ap (λ packet. (on_datagram_received write protocol p same own packet s).1.write)
        (sent.2 ∙ fill_buffer_lem p a audio buffer h)
      ∙ received_wire x.header (built_wire p a audio buffer) f g d
          (built-Carries p a audio buffer f (room sent.0 sent.1))

  round-Carries :
      (buffer : List ℕ)
      → Sendable p a audio
      → a.buffer_size_in_samples * p.chans * p.smpl_size ≤ length buffer
      → Carries p a.buffer_size_in_samples audio
          (take (a.buffer_size_in_samples * p.chans * p.smpl_size) (round_part p a audio buffer))
  round-Carries buffer f room =
      let samples = a.buffer_size_in_samples in
      let size = samples * p.chans * p.smpl_size in
      record {
        size = elim (ℕ_discrete p.chans 1) [
          | yes e ↦
              ap (λ r. length (take size r)) (round_part_mono p a audio buffer e)
              ∙ ap length (take_whole size audio f.whole)
              ∙ f.whole
          | no d ↦
              ap (λ r. length (take size r))
                (round_part_more p a audio buffer (omega (arith, d, f.chans_pos)))
              ∙ deinterleaved_size p samples audio buffer f.whole room
        ];
        mono = λ e.
            ap (take size) (round_part_mono p a audio buffer e) ∙ take_whole size audio f.whole;
        more = λ d. (
          buffer,
          room,
          ap (take size) (round_part_more p a audio buffer (omega (arith, d, f.chans_pos))),
        );
      }

  -- The audio of up to 255 channels that a round of `runSender` of WebRTC sends, with `mBuffer`
  -- large enough and `full_packet_size` the size of the packet, is written at a receiver with as
  -- many channels as it was, with the number of the packet and a gap of as many packets as were
  -- lost, up to 1000; unless the packet has the 63 bytes of a control packet.
  pub on_datagram_received-send_round :
      (x : WebRtcSender)
      → Sendable p a audio
      → Follows k x.header.seq_number s
      → a.buffer_size_in_samples * p.chans * p.smpl_size ≤ length x.buffer
      → p.full_packet_size ≡ send_packet_size p a
      → send_packet_size p a ≢ control_packet_size
      → (on_datagram_received write protocol p same own (send_round p a audio x).1 s).1.write
        ≡ some (record {
          audio = audio;
          len = a.buffer_size_in_samples * p.chans * p.smpl_size;
          lost_len = k * (a.buffer_size_in_samples * p.chans * p.smpl_size);
          seq = x.header.seq_number;
        })
  on_datagram_received-send_round x f g room full d =
      let c = round-Carries x.buffer f room in
      ap (λ packet. (on_datagram_received write protocol p same own packet s).1.write)
        (send_round_lem p a audio x full c.size)
      ∙ received_wire x.header
          (take (a.buffer_size_in_samples * p.chans * p.smpl_size) (round_part p a audio x.buffer))
          f g d c
