-- ===== src/Web/Send/Sent.antt =====
-- src/webtransport/WebTransportDataProtocol.cpp: the datagram that `sendPacketDirect` sends.
use mathlib.Core.Option.{none-ne-some, some-injective}
use jacktrip.Header.{
  DefaultHeaderStruct, Audio, put_header_in_packet, put_number, fill_header_common_from_audio,
  header_size,
}
use jacktrip.Udp.Receive.{Settings, copy_bytes}
use jacktrip.Udp.Send.{deinterleave, put_header_in_outgoing_packet}
use jacktrip.Web.Send.{
  WebSender, acquire_pool_buffer, acquired, acquire_from, fill_buffer, send_packet_size,
  send_in_buffer, send_packet_direct, buffer_pool_size, WebRtcSender, send_round,
}
use jacktrip.Web.Send.Pool.{acquire_from_free}
use jacktrip.Base.{
  Bool, List, Option, [], ap, arith, drop, false, get_or, if◌then◌else◌, length, length-append, ltb,
  lt→ltb, none, refl, some, sym, take, take-append_add, take-append_length, true, ℕ, ◌*◌, ◌++◌, ◌+◌,
  ◌<◌, ◌∙◌, ◌≡◌,
}

-- The audio in a buffer, and what follows it.
pub audio_part : Settings → Audio → List ℕ → List ℕ → List ℕ
audio_part p a audio buffer =
    if ltb 1 p.chans
    then deinterleave p a.buffer_size_in_samples audio 0 a.buffer_size_in_samples
        (drop header_size buffer)
    else copy_bytes (a.buffer_size_in_samples * p.chans * p.smpl_size) 0 audio
        (drop header_size buffer)

module _ (p : Settings) (a : Audio) (audio buffer : List ℕ) where
  pub audio_part_mono :
      p.chans ≡ 1
      → audio_part p a audio buffer
        ≡ copy_bytes
            (a.buffer_size_in_samples * p.chans * p.smpl_size)
            0
            audio
            (drop header_size buffer)
  unfolding audio_part
  audio_part_mono e = let test : ltb 1 p.chans ≡ false = ground (arith, e) in rw test refl

  pub audio_part_more :
      1 < p.chans
      → audio_part p a audio buffer
        ≡ deinterleave p a.buffer_size_in_samples audio 0 a.buffer_size_in_samples
            (drop header_size buffer)
  unfolding audio_part
  audio_part_more l = rw (lt→ltb 1 p.chans l) refl

  pub fill_buffer_lem :
      (h : DefaultHeaderStruct)
      → take (send_packet_size p a) (fill_buffer p a h audio buffer)
        ≡ put_header_in_packet h
          ++ take (a.buffer_size_in_samples * p.chans * p.smpl_size) (audio_part p a audio buffer)
  unfolding fill_buffer audio_part put_header_in_packet put_number
  fill_buffer_lem h =
      take-append_add (put_header_in_packet h) (audio_part p a audio buffer)
        (a.buffer_size_in_samples * p.chans * p.smpl_size)

-- What `sendPacketDirect` has sent.
abbrev second : {A B : Type 0} → A × Option B → Option B
second r = r.1

sent_if :
    {A B : Type 0} (b : Bool) (x y : A) (u v : B)
    → second (if b then (x, some u) else (y, none)) ≡ some v
    → u ≡ v
sent_if true x y u v e = some-injective u v e
sent_if false x y u v e = absurd (none-ne-some v e)

module _ (send : List ℕ → Bool) (p : Settings) (a : Audio) (audio : List ℕ) (x : WebSender) where
  send_in_buffer_lem :
      (o : Option ℕ) (r : ℕ × List ℕ)
      → acquire_from 16 0 x.next_buffer_index x.in_use ≡ o
      → (send_in_buffer send p a audio x (acquired x o)).1 ≡ some r
      → (i : ℕ) × (i < buffer_pool_size)
        × (r.1
            ≡ take (send_packet_size p a) (
                fill_buffer p a
                  (fill_header_common_from_audio a x.header)
                  audio
                  (get_or x.buffers i [])))
  unfolding send_in_buffer acquired
  send_in_buffer_lem none r f e = absurd (none-ne-some r e)
  send_in_buffer_lem (some index) r f e = (
    index,
    (acquire_from_free 16 0 x.next_buffer_index x.in_use index f).0,
    ap (λ v. v.1) (sym (sent_if _ _ _ _ r e)),
  )

  pub send_packet_direct_lem :
      (connected : Bool) (r : ℕ × List ℕ)
      → (send_packet_direct connected send p a audio x).1 ≡ some r
      → (i : ℕ) × (i < buffer_pool_size)
        × (r.1
            ≡ take (send_packet_size p a) (
                fill_buffer p a
                  (fill_header_common_from_audio a x.header)
                  audio
                  (get_or x.buffers i [])))
  unfolding send_packet_direct acquire_pool_buffer
  send_packet_direct_lem false r e = absurd (none-ne-some r e)
  send_packet_direct_lem true r e =
      send_in_buffer_lem (acquire_from 16 0 x.next_buffer_index x.in_use) r refl e

header_length : (h : DefaultHeaderStruct) → length (put_header_in_packet h) ≡ header_size
unfolding put_header_in_packet put_number
header_length h = refl

-- A round of the WebRTC sender, where `full_packet_size` is the size of the packet.
pub round_part : Settings → Audio → List ℕ → List ℕ → List ℕ
round_part p a audio buffer =
    if ltb 1 p.chans
    then deinterleave p a.buffer_size_in_samples audio 0 a.buffer_size_in_samples buffer
    else audio

pub round_part_mono :
    (p : Settings) (a : Audio) (audio buffer : List ℕ)
    → p.chans ≡ 1
    → round_part p a audio buffer ≡ audio
unfolding round_part
round_part_mono p a audio buffer e =
    let test : ltb 1 p.chans ≡ false = ground (arith, e) in rw test refl

pub round_part_more :
    (p : Settings) (a : Audio) (audio buffer : List ℕ)
    → 1 < p.chans
    → round_part p a audio buffer
      ≡ deinterleave p a.buffer_size_in_samples audio 0 a.buffer_size_in_samples buffer
unfolding round_part
round_part_more p a audio buffer l = rw (lt→ltb 1 p.chans l) refl

nested_test :
    {A : Type 0} (b : Bool) (x y z : A)
    → (if b then if b then x else y else z) ≡ (if b then x else z)
nested_test true x y z = refl
nested_test false x y z = refl

pub send_round_lem :
    (p : Settings) (a : Audio) (audio : List ℕ) (x : WebRtcSender)
    → p.full_packet_size ≡ send_packet_size p a
    → length
        (take (a.buffer_size_in_samples * p.chans * p.smpl_size) (round_part p a audio x.buffer))
      ≡ a.buffer_size_in_samples * p.chans * p.smpl_size
    → (send_round p a audio x).1
      ≡ put_header_in_packet (fill_header_common_from_audio a x.header)
        ++ take (a.buffer_size_in_samples * p.chans * p.smpl_size) (round_part p a audio x.buffer)
unfolding send_round put_header_in_outgoing_packet round_part
send_round_lem p a audio x e l =
    let size = a.buffer_size_in_samples * p.chans * p.smpl_size in
    let packet =
      put_header_in_packet (fill_header_common_from_audio a x.header)
      ++ take size (round_part p a audio x.buffer) in
    let whole : length packet ≡ p.full_packet_size = omega (
      arith,
      e,
      l,
      length-append (put_header_in_packet (fill_header_common_from_audio a x.header))
          (take size (round_part p a audio x.buffer)),
      header_length (fill_header_common_from_audio a x.header),
    ) in
    let samples = a.buffer_size_in_samples in
    let converted = deinterleave p samples audio 0 samples x.buffer in
    ap
      (λ src. take p.full_packet_size (
        put_header_in_packet (fill_header_common_from_audio a x.header)
        ++ take size src
        ++ drop (header_size + size) x.full_packet))
      (nested_test (ltb 1 p.chans) converted x.buffer audio)
    ∙ take-append_length p.full_packet_size packet (drop (header_size + size) x.full_packet) whole
