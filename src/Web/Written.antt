-- ===== src/Web/Written.antt =====
-- src/webrtc/WebRtcDataProtocol.cpp and src/webtransport/WebTransportDataProtocol.cpp: the audio of a
-- packet is written at the receiver.
use native.Mathlib.Nat.{mul_comm}
use mathlib.Core.Bool.{false≢true}
use jacktrip.Header.{DefaultHeaderStruct, Audio, get_peer_sequence_number, header_size}
use jacktrip.Udp.Receive.{Settings, copy_bytes, lost_packets, is_out_of_order}
use jacktrip.Udp.Send.{deinterleave}
use jacktrip.Interleave.Layouts.{length-deinterleave}
use jacktrip.Web.{
  WebProtocol, web_rtc, web_transport, WebReceiver, AudioWrite, is_whole, track,
  on_datagram_received, process_received_packet, after_track, reset_timer, control_packet_size,
}
use jacktrip.Web.Receive.{write_packet_lem, audio_write, on_datagram_cases}
use jacktrip.Web.Send.{send_packet_size}
use jacktrip.Web.Send.Sent.{audio_part, audio_part_mono, audio_part_more}
use jacktrip.Web.Packet.{
  Sendable, Carries, take_whole, sent_packet, samples_back, number_back, length_back, is_whole_back,
  host_audio_back,
}
use jacktrip.Base.{
  ==_iff, Bool, List, ap, arith, drop, false, if◌then◌else◌, length, length-drop, length-take, ltb,
  none, refl, some, sym, take, take-append_length, true, u16, u32, ℕ, ℕ_discrete, ◌*◌, ◌+◌, ◌<◌,
  ◌==◌, ◌^◌, ◌||◌, ◌∙◌, ◌≡◌, ◌≢◌, ◌≤◌,
}

copied :
    (size : ℕ) (audio dest : List ℕ)
    → length audio ≡ size
    → take size (copy_bytes size 0 audio dest) ≡ audio
unfolding copy_bytes
copied size audio dest e =
    take-append_length size (take size audio) (drop (0 + size) dest)
      (ap length (take_whole size audio e) ∙ e)
    ∙ take_whole size audio e

-- The packet that `sendPacketDirect` builds, without the spare bytes of its buffer.
unfoldable pub built_wire : Settings → Audio → List ℕ → List ℕ → List ℕ
built_wire p a audio buffer =
    take (a.buffer_size_in_samples * p.chans * p.smpl_size) (audio_part p a audio buffer)

pub deinterleaved_size :
    (p : Settings) (samples : ℕ) (audio dest : List ℕ)
    → length audio ≡ samples * p.chans * p.smpl_size
    → samples * p.chans * p.smpl_size ≤ length dest
    → length (take (samples * p.chans * p.smpl_size) (deinterleave p samples audio 0 samples dest))
      ≡ samples * p.chans * p.smpl_size
deinterleaved_size p samples audio dest whole enough =
    let size = samples * p.chans * p.smpl_size in
    omega (
      arith,
      enough,
      length-take size (deinterleave p samples audio 0 samples dest),
      length-deinterleave p samples audio dest
          (omega (arith, enough, ap (λ k. k * p.smpl_size) (mul_comm p.chans samples)))
          (omega (arith, whole)),
    )

pub built-Carries :
    (p : Settings) (a : Audio) (audio buffer : List ℕ)
    → Sendable p a audio
    → send_packet_size p a ≤ length buffer
    → Carries p a.buffer_size_in_samples audio (built_wire p a audio buffer)
unfolding built_wire
built-Carries p a audio buffer s room =
    let samples = a.buffer_size_in_samples in
    let size = samples * p.chans * p.smpl_size in
    let dest = drop header_size buffer in
    let enough : size ≤ length dest = omega (arith, room, length-drop header_size buffer) in
    record {
      size = elim (ℕ_discrete p.chans 1) [
        | yes e ↦
            ap (λ r. length (take size r)) (audio_part_mono p a audio buffer e)
            ∙ ap length (copied size audio dest s.whole)
            ∙ s.whole
        | no d ↦
            ap (λ r. length (take size r))
              (audio_part_more p a audio buffer (omega (arith, d, s.chans_pos)))
            ∙ deinterleaved_size p samples audio dest s.whole enough
      ];
      mono =
          λ e. ap (take size) (audio_part_mono p a audio buffer e) ∙ copied size audio dest s.whole;
      more = λ d. (
        dest,
        enough,
        ap (take size) (audio_part_more p a audio buffer (omega (arith, d, s.chans_pos))),
      );
    }

-- A receiver that was started takes the packet that comes `k` packets after the next one.
track_next :
    (current k : ℕ) (s : WebReceiver)
    → s.initial_state ≡ false
    → s.last_seq_num < 2 ^ 16
    → k ≤ 1000
    → current ≡ u16 (s.last_seq_num + 1 + k)
    → track current s
      ≡ some (
        k,
        record s {
          lost_count = if k == 0 then s.lost_count else u32 (s.lost_count + k);
          tot_count = u32 (s.tot_count + (1 + k));
          last_seq_num = current;
        },
      )
unfolding track
track_next current k s i l m e =
    let lost : lost_packets current s.last_seq_num ≡ k =
      unfold lost_packets in omega (arith, l, m, e) in
    let test : is_out_of_order k ≡ false = unfold is_out_of_order in ground (arith, m) in
    rw (i, lost, test) refl

short_packet :
    (chans size rest : ℕ)
    → 0 < chans
    → size ≡ header_size + rest
    → (ltb size header_size || chans == 0) ≡ true
    → ⊥
short_packet chans size rest l e x = ground (arith, l, e, x)

kept_initial :
    (protocol : WebProtocol) (s : WebReceiver)
    → (reset_timer protocol false s).initial_state ≡ s.initial_state
unfolding reset_timer
kept_initial web_rtc s = refl
kept_initial web_transport s = refl

kept_last :
    (protocol : WebProtocol) (s : WebReceiver)
    → (reset_timer protocol false s).last_seq_num ≡ s.last_seq_num
unfolding reset_timer
kept_last web_rtc s = refl
kept_last web_transport s = refl

-- The packet with the number of `h` that carries the audio is written at the receiver.
module _ (write : AudioWrite → Bool) (protocol : WebProtocol) (p : Settings) (same : Bool)
    (own : DefaultHeaderStruct) (a : Audio) (h : DefaultHeaderStruct) (audio wire : List ℕ) (k : ℕ)
    (s : WebReceiver) where
  unfoldable pub carried : AudioWrite
  carried = record {
    audio = audio;
    len = a.buffer_size_in_samples * p.chans * p.smpl_size;
    lost_len = k * (a.buffer_size_in_samples * p.chans * p.smpl_size);
    seq = h.seq_number;
  }

  carried_lem :
      (buffer : List ℕ)
      → h.seq_number < 2 ^ 16
      → Sendable p a audio
      → Carries p a.buffer_size_in_samples audio wire
      → (if is_whole p (sent_packet p a h audio wire)
          then some (audio_write write protocol p same own (sent_packet p a h audio wire) k buffer)
          else none)
        ≡ some carried
  unfolding audio_write carried
  carried_lem buffer number f c =
      rw
        (
          is_whole_back p a h audio wire number f c,
          host_audio_back p a h audio wire buffer number f c,
          samples_back p a h audio wire number f.samples_lt,
          number_back p a h audio wire number,
        )
        refl

  written_packet :
      Sendable p a audio
      → Carries p a.buffer_size_in_samples audio wire
      → (t : WebReceiver) → t.initial_state ≡ false
      → t.last_seq_num < 2 ^ 16
      → k ≤ 1000
      → h.seq_number ≡ u16 (t.last_seq_num + 1 + k)
      → (process_received_packet write protocol p same own (sent_packet p a h audio wire) t).1.write
        ≡ some carried
  unfolding process_received_packet after_track
  written_packet f c t i l m e =
      let packet = sent_packet p a h audio wire in
      let number : h.seq_number < 2 ^ 16 = omega (arith, e) in
      let next =
        track_next (get_peer_sequence_number packet) k t i l m
          (number_back p a h audio wire number ∙ e) in
      rw next
        (write_packet_lem write protocol p same own packet k _ _ ∙ carried_lem t.buffer number f c)

  -- The whole call.
  pub received_packet :
      Sendable p a audio
      → Carries p a.buffer_size_in_samples audio wire
      → length (sent_packet p a h audio wire) ≢ control_packet_size
      → s.stopped ≡ false
      → s.initial_state ≡ false
      → s.last_seq_num < 2 ^ 16
      → k ≤ 1000
      → h.seq_number ≡ u16 (s.last_seq_num + 1 + k)
      → (on_datagram_received write protocol p same own (sent_packet p a h audio wire) s).1.write
        ≡ some carried
  received_packet f c d st i l m e =
      let packet = sent_packet p a h audio wire in
      let number : h.seq_number < 2 ^ 16 = omega (arith, e) in
      on_datagram_cases write protocol p same own packet (λ r. r.1.write ≡ some carried) s
        (λ x. absurd (false≢true (sym st ∙ x)))
        (λ b x. absurd (d ((==_iff (length packet) control_packet_size).0 x)))
        (λ b x. absurd (
          short_packet p.chans (length packet) (length wire) f.chans_pos
            (length_back p a h audio wire number) x))
        (λ x y z.
          written_packet f c (reset_timer protocol false s) (kept_initial protocol s ∙ i)
            (omega (arith, kept_last protocol s, l)) m (omega (arith, kept_last protocol s, e)))
