-- ===== src/Web/HostAudio.antt =====
-- src/webrtc/WebRtcDataProtocol.cpp and src/webtransport/WebTransportDataProtocol.cpp: the samples that
-- are written, in terms of the packet.
use native.Mathlib.Nat.{mul-le-mul_right, mul_comm}
use jacktrip.Header.{peer_header, get_peer_buffer_size, decode_num_outgoing_channels, header_size}
use jacktrip.Udp.Receive.{Settings, interleave, grow}
use jacktrip.Interleave.Bytes.{get_elem?-take}
use jacktrip.Interleave.Layouts.{block_le, frame_lt, length-interleave, interleave_sample}
use jacktrip.Web.{host_audio, is_whole}
use jacktrip.Base.{
  List, ap, arith, drop, false, get_elem?, get_elem?-drop, leb→le, length, length-append,
  length-drop, length-replicate, length-take, min, refl, replicate, take, true, ℕ, ℕ_discrete, ◌*◌,
  ◌+◌, ◌-◌, ◌<◌, ◌==◌, ◌∙◌, ◌≡◌, ◌≢◌, ◌≤◌,
}

abbrev pub peer_chans : List ℕ → ℕ
peer_chans packet = decode_num_outgoing_channels (peer_header packet)

pub length-grow : (size : ℕ) (buffer : List ℕ) → size ≤ length (grow size buffer)
unfolding grow
length-grow size buffer = omega (
  arith,
  length-append buffer (replicate (size - length buffer) 0),
  length-replicate {A = ℕ} (size - length buffer) 0,
)

-- The audio of one channel is the one of the packet, of more channels what was interleaved.
module _ (p : Settings) (packet buffer : List ℕ) where
  pub host_audio_mono :
      p.chans ≡ 1
      → (host_audio p packet buffer).0
        ≡ take (get_peer_buffer_size packet * p.chans * p.smpl_size) (drop header_size packet)
  unfolding host_audio
  host_audio_mono e = let test : (p.chans == 1) ≡ true = ground (arith, e) in rw test refl

  pub host_audio_interleaved :
      p.chans ≢ 1
      → (host_audio p packet buffer).0
        ≡ take (get_peer_buffer_size packet * p.chans * p.smpl_size) (
            interleave p
              (get_peer_buffer_size packet)
              (min p.chans (peer_chans packet))
              (drop header_size packet)
              0
              (get_peer_buffer_size packet)
              (grow (get_peer_buffer_size packet * p.chans * p.smpl_size) buffer))
  unfolding host_audio
  host_audio_interleaved d = let test : (p.chans == 1) ≡ false = ground (arith, d) in rw test refl

-- The samples of a packet are in it.
module _ (p : Settings) (packet : List ℕ) (whole : is_whole p packet ≡ true) where
  whole_le :
      header_size + get_peer_buffer_size packet * peer_chans packet * p.smpl_size ≤ length packet
  unfolding is_whole
  whole_le = leb→le _ (length packet) whole

  pub common_le :
      (width : ℕ)
      → width ≤ peer_chans packet
      → width * get_peer_buffer_size packet * p.smpl_size ≤ length (drop header_size packet)
  common_le width l =
      let samples = get_peer_buffer_size packet in
      omega (
        arith,
        whole_le,
        length-drop header_size packet,
        ap (λ k. k * p.smpl_size) (mul_comm samples (peer_chans packet)),
        mul-le-mul_right {m = width * samples} {n = peer_chans packet * samples} p.smpl_size
            (mul-le-mul_right {m = width} {n = peer_chans packet} samples l),
      )

  module _ (buffer : List ℕ) (some_chans : 0 < peer_chans packet) where
    mono_le :
        p.chans ≡ 1
        → get_peer_buffer_size packet * p.chans * p.smpl_size ≤ length (drop header_size packet)
    mono_le e =
        let other : get_peer_buffer_size packet * p.chans * p.smpl_size
            ≡ p.chans * get_peer_buffer_size packet * p.smpl_size =
          ap (λ k. k * p.smpl_size) (mul_comm (get_peer_buffer_size packet) p.chans) in
        omega (arith, other, common_le p.chans (omega (arith, e, some_chans)))

    pub length-host_audio :
        length (host_audio p packet buffer).0 ≡ get_peer_buffer_size packet * p.chans * p.smpl_size
    length-host_audio =
        let samples = get_peer_buffer_size packet in
        let size = samples * p.chans * p.smpl_size in
        let grown = grow size buffer in
        let src = drop header_size packet in
        let width = min p.chans (peer_chans packet) in
        let room = length-grow size buffer in
        elim (ℕ_discrete p.chans 1) [
          | yes e ↦
              ap length (host_audio_mono p packet buffer e)
              ∙ omega (arith, length-take size src, mono_le e)
          | no d ↦
              let whole_buffer =
                length-interleave p samples src grown width (omega arith) room
                  (common_le width (omega arith)) in
              ap length (host_audio_interleaved p packet buffer d)
              ∙ omega (
                arith,
                length-take size (interleave p samples width src 0 samples grown),
                whole_buffer,
                room,
              )
        ]

    pub host_audio_sample :
        (n c b : ℕ)
        → n < get_peer_buffer_size packet
        → c < min p.chans (peer_chans packet)
        → b < p.smpl_size
        → get_elem? (host_audio p packet buffer).0 ((n * p.chans + c) * p.smpl_size + b)
          ≡ get_elem? packet
              (header_size + ((n + c * get_peer_buffer_size packet) * p.smpl_size + b))
    host_audio_sample n c b ln lc lb =
        let samples = get_peer_buffer_size packet in
        let size = samples * p.chans * p.smpl_size in
        let grown = grow size buffer in
        let src = drop header_size packet in
        let width = min p.chans (peer_chans packet) in
        let k = (n * p.chans + c) * p.smpl_size + b in
        let j = (n + c * samples) * p.smpl_size + b in
        let k_lt : k < size = omega (
          arith,
          lb,
          block_le (n * p.chans + c) (samples * p.chans) p.smpl_size
              (frame_lt p.chans samples n c ln (omega (arith, lc))),
        ) in
        elim (ℕ_discrete p.chans 1) [
          | yes e ↦
              let first : c ≡ 0 = omega (arith, lc, e) in
              let same : k ≡ j = rw (e, first) (omega arith) in
              ap (λ r. get_elem? r k) (host_audio_mono p packet buffer e)
              ∙ get_elem?-take size src k k_lt
              ∙ ap (get_elem? src) same
              ∙ get_elem?-drop header_size packet j
          | no d ↦
              ap (λ r. get_elem? r k) (host_audio_interleaved p packet buffer d)
              ∙ get_elem?-take size (interleave p samples width src 0 samples grown) k k_lt
              ∙ interleave_sample p samples src grown width n c b (omega arith)
                  (length-grow size buffer) (common_le width (omega arith)) ln lc lb
              ∙ get_elem?-drop header_size packet j
        ]
