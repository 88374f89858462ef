-- ===== src/Web/Receive.antt =====
-- src/webrtc/WebRtcDataProtocol.cpp and src/webtransport/WebTransportDataProtocol.cpp: where the samples
-- that are written come from.

use mathlib.Core.Option.{none-ne-some, some-injective}
use mathlib.Core.Path.{subst}
use jacktrip.Header.{
  Mismatch, DefaultHeaderStruct, get_peer_sequence_number, get_peer_buffer_size, header_size,
}
use jacktrip.Udp.Receive.{Settings, lost_packets, is_out_of_order}
use jacktrip.Interleave.Layouts.{block_le, channel_lt}
use jacktrip.Web.{
  WebProtocol, web_rtc, web_transport, WebReceiver, AudioWrite, Handed, nothing_handed,
  control_packet_size, track, host_audio, is_whole, write_packet, after_track,
  process_received_packet, process_control_packet, reset_timer, on_datagram_received, is_exit,
}
use jacktrip.Web.HostAudio.{peer_chans, common_le, length-host_audio, host_audio_sample}
use jacktrip.Base.{
  Bool, Bool-cases, List, Option, ap, arith, false, get_elem?, if◌then◌else◌, inl, inr, length,
  length-drop, ltb, min, none, not, refl, some, sym, true, ℕ, ◌&&◌, ◌*◌, ◌+◌, ◌<◌, ◌==◌, ◌||◌, ◌∙◌,
  ◌≡◌,
}

-- A write of the audio of the packet.
pub record FromPacket (p : Settings) (packet buffer : List ℕ) (w : AudioWrite) : Type 0 where
  pub whole : is_whole p packet ≡ true
  pub audio : w.audio ≡ (host_audio p packet buffer).0
  pub len : w.len ≡ get_peer_buffer_size packet * p.chans * p.smpl_size
  pub seq : w.seq ≡ get_peer_sequence_number packet

track-buffer :
    (current : ℕ) (s : WebReceiver) (r : ℕ × WebReceiver)
    → track current s ≡ some r
    → r.1.buffer ≡ s.buffer
unfolding track
track-buffer current s r =
    let lost = lost_packets current s.last_seq_num in
    elim (Bool-cases s.initial_state) [
      | inl q ↦ rw q (λ e. ap (λ x. x.1.buffer) (sym (some-injective _ r e)))
      | inr q ↦ elim (Bool-cases (is_out_of_order lost)) [
        | inl o ↦ rw (q, o) (λ e. absurd (none-ne-some r e))
        | inr o ↦ rw (q, o) (λ e. ap (λ x. x.1.buffer) (sym (some-injective _ r e)))
      ]
    ]

process_control_packet_silent :
    (protocol : WebProtocol) (packet : List ℕ) (s : WebReceiver)
    → (process_control_packet protocol packet s).1.write ≡ none
unfolding process_control_packet
process_control_packet_silent web_rtc packet s =
    elim (Bool-cases (is_exit packet && not s.stop_signal_sent)) [
      | inl q ↦ rw q refl
      | inr q ↦ rw q refl
    ]
process_control_packet_silent web_transport packet s = refl

reset_timer-buffer :
    (protocol : WebProtocol) (is_control : Bool) (s : WebReceiver)
    → (reset_timer protocol is_control s).buffer ≡ s.buffer
unfolding reset_timer
reset_timer-buffer web_rtc is_control s = refl
reset_timer-buffer web_transport true s = refl
reset_timer-buffer web_transport false s = refl

three_tests {ℓ κ} :
    {A : Type ℓ} (P : A → Type κ) (stop second third : Bool) (x : A) (y z u : Bool → A)
    → (stop ≡ true → P x)
    → (second ≡ true → P (y true))
    → (third ≡ true → P (z false))
    → (stop ≡ false → second ≡ false → third ≡ false → P (u false))
    → P (if stop then x else if second then y second else if third then z second else u second)
three_tests P true second third x y z u hx hy hz hu = hx refl
three_tests P false true third x y z u hx hy hz hu = hy refl
three_tests P false false true x y z u hx hy hz hu = hz refl
three_tests P false false false x y z u hx hy hz hu = hu refl refl refl

-- Only the last step of a call writes.
if_some :
    {A : Type 0} (b : Bool) (x w : A) → (if b then some x else none) ≡ some w → (b ≡ true) × (x ≡ w)
if_some true x w e = (refl, some-injective x w e)
if_some false x w e = absurd (none-ne-some w e)

module _ (write : AudioWrite → Bool) (protocol : WebProtocol) (p : Settings) (same : Bool)
    (own : DefaultHeaderStruct) (packet : List ℕ) where
  unfoldable pub audio_write : ℕ → List ℕ → AudioWrite
  audio_write lost buffer = record {
    audio = (host_audio p packet buffer).0;
    len = get_peer_buffer_size packet * p.chans * p.smpl_size;
    lost_len = lost * (get_peer_buffer_size packet * p.chans * p.smpl_size);
    seq = get_peer_sequence_number packet;
  }

  pub write_packet_lem :
      (lost : ℕ) (report : List Mismatch) (s : WebReceiver)
      → (write_packet write p packet lost report s).1.write
        ≡ (if is_whole p packet then some (audio_write lost s.buffer) else none)
  unfolding write_packet audio_write
  write_packet_lem lost report s = elim (Bool-cases (is_whole p packet)) [
    | inl q ↦ rw q refl
    | inr q ↦ rw q refl
  ]

  from_audio_write :
      (lost : ℕ) (buffer : List ℕ) (w : AudioWrite)
      → is_whole p packet ≡ true
      → audio_write lost buffer ≡ w
      → FromPacket p packet buffer w
  unfolding audio_write
  from_audio_write lost buffer w q e =
      subst (FromPacket p packet buffer) e
        record { whole = q; audio = refl; len = refl; seq = refl }

  after_track-FromPacket :
      (s : WebReceiver) (w : AudioWrite) (o : Option (ℕ × WebReceiver))
      → track (get_peer_sequence_number packet) s ≡ o
      → (after_track write protocol p same own packet s o).1.write ≡ some w
      → FromPacket p packet s.buffer w
  unfolding after_track
  after_track-FromPacket s w none t e = absurd (none-ne-some w e)
  after_track-FromPacket s w (some r) t e =
      let k = if_some (is_whole p packet) _ w (sym (write_packet_lem r.0 _ r.1) ∙ e) in
      from_audio_write r.0 s.buffer w k.0
        (ap (audio_write r.0) (sym (track-buffer (get_peer_sequence_number packet) s r t)) ∙ k.1)

  -- What a call does: nothing once stopped; else a control packet, a datagram that is too short, or
  -- the audio.
  pub on_datagram_cases {ℓ} :
      (P : WebReceiver × Handed → Type ℓ) (s : WebReceiver)
      → (s.stopped ≡ true → P (s, nothing_handed))
      → ((b : Bool)
          → (length packet == control_packet_size) ≡ true
          → P (process_control_packet protocol packet (reset_timer protocol b s)))
      → ((b : Bool)
          → (ltb (length packet) header_size || p.chans == 0) ≡ true
          → P (reset_timer protocol b s, nothing_handed))
      → (s.stopped ≡ false
          → (length packet == control_packet_size) ≡ false
          → (ltb (length packet) header_size || p.chans == 0) ≡ false
          → P (
              process_received_packet write protocol p same own packet
                (reset_timer protocol false s)))
      → P (on_datagram_received write protocol p same own packet s)
  unfolding on_datagram_received
  on_datagram_cases P s stopped control short audio =
      three_tests P s.stopped (length packet == control_packet_size)
        (ltb (length packet) header_size || p.chans == 0) (s, nothing_handed)
        (λ b. process_control_packet protocol packet (reset_timer protocol b s))
        (λ b. (reset_timer protocol b s, nothing_handed))
        (λ b. process_received_packet write protocol p same own packet (reset_timer protocol b s))
        stopped (control true) (short false) audio

  on_datagram_received-FromPacket :
      (s : WebReceiver) (w : AudioWrite)
      → (on_datagram_received write protocol p same own packet s).1.write ≡ some w
      → FromPacket p packet s.buffer w
  unfolding on_datagram_received process_received_packet
  on_datagram_received-FromPacket s w =
      on_datagram_cases (λ r. r.1.write ≡ some w → FromPacket p packet s.buffer w) s
        (λ x e. absurd (none-ne-some w e))
        (λ b x e. absurd (
          none-ne-some w
            (sym (process_control_packet_silent protocol packet (reset_timer protocol b s)) ∙ e)))
        (λ b x e. absurd (none-ne-some w e))
        (λ a b c e.
          subst (λ b. FromPacket p packet b w) (reset_timer-buffer protocol false s)
            (after_track-FromPacket (reset_timer protocol false s) w
              (track (get_peer_sequence_number packet) (reset_timer protocol false s)) refl e))

-- What the audio of a write is, in terms of the datagram.
pub record Samples (p : Settings) (packet : List ℕ) (w : AudioWrite) : Type 0 where
  pub whole : length w.audio ≡ w.len
  pub size : w.len ≡ get_peer_buffer_size packet * p.chans * p.smpl_size
  pub sample :
      (n c b : ℕ)
      → n < get_peer_buffer_size packet
      → c < min p.chans (peer_chans packet)
      → b < p.smpl_size
      → (get_elem? w.audio ((n * p.chans + c) * p.smpl_size + b)
          ≡ get_elem? packet
              (header_size + ((n + c * get_peer_buffer_size packet) * p.smpl_size + b)))
        × (header_size + ((n + c * get_peer_buffer_size packet) * p.smpl_size + b) < length packet)

-- Whatever bytes a datagram has and whatever state the receiver is in, if audio is written and the
-- header of the datagram does not declare 0 channels: the audio has the length that is passed,
-- which is that of the samples of all own channels, and the sample of each channel that both sides
-- have is the one of the datagram, at a place within it.
pub on_datagram_received-Samples :
    (write : AudioWrite → Bool) (protocol : WebProtocol) (p : Settings) (same : Bool)
    (own : DefaultHeaderStruct) (packet : List ℕ) (s : WebReceiver) (w : AudioWrite)
    → 0 < peer_chans packet
    → (on_datagram_received write protocol p same own packet s).1.write ≡ some w
    → Samples p packet w
on_datagram_received-Samples write protocol p same own packet s w some_chans e =
    let f = on_datagram_received-FromPacket write protocol p same own packet s w e in
    let samples = get_peer_buffer_size packet in
    record {
      whole =
          ap length f.audio ∙ length-host_audio p packet f.whole s.buffer some_chans ∙ sym f.len;
      size = f.len;
      sample = λ n c b ln lc lb. (
        ap (λ r. get_elem? r ((n * p.chans + c) * p.smpl_size + b)) f.audio
            ∙ host_audio_sample p packet f.whole s.buffer some_chans n c b ln lc lb,
        omega (
          arith,
          lb,
          common_le p packet f.whole (peer_chans packet) (omega arith),
          length-drop header_size packet,
          block_le (n + c * samples) (peer_chans packet * samples) p.smpl_size
              (channel_lt (peer_chans packet) samples n c ln (omega (arith, lc))),
        ),
      );
    }
