-- ===== src/Web/Send/Tests.antt =====
-- A packet of `sendPacketDirect` at the receiver.
use jacktrip.Header.{put_header_in_packet, put_number, fill_header_common_from_audio}
use jacktrip.Udp.Receive.{copy_bytes}
use jacktrip.Udp.Send.{deinterleave, copy_out}
use jacktrip.Web.{web_transport, on_datagram_received}
use jacktrip.Web.Send.{
  new_web_sender, send_packet_direct, fill_buffer, send_in_buffer, acquire_pool_buffer, acquired,
  acquire_from,
}
use jacktrip.Web.RoundTrip.{on_datagram_received-send_packet_direct}
use jacktrip.Web.Tests.{
  stereo, header, settings, frames, frames-Sendable, receiver, receiver-Follows, datagram, written,
}
use jacktrip.Base.{
  [], arith, get_elem?-replicate, get_or, get_or_of_get_elem?, length, refl, replicate, some, true,
  ℕ, ◌<◌, ◌≡◌, ◌≤◌,
}

room : (i : ℕ) → i < 16 → 24 ≤ length (get_or (new_web_sender 24 header).buffers i [])
unfolding new_web_sender
room i l =
    rw
      (get_or_of_get_elem? (replicate 16 (replicate {A = ℕ} 32 0)) i (replicate {A = ℕ} 32 0) []
        (get_elem?-replicate 16 (replicate {A = ℕ} 32 0) i l))
      (omega arith)

on_datagram_received-send_packet_direct_example :
    (on_datagram_received (λ w. true) web_transport stereo true header datagram receiver).1.write
    ≡ some written
unfolding send_packet_direct send_in_buffer acquire_pool_buffer acquired acquire_from fill_buffer
    deinterleave copy_out copy_bytes put_header_in_packet put_number fill_header_common_from_audio
    new_web_sender
on_datagram_received-send_packet_direct_example =
    on_datagram_received-send_packet_direct (λ w. true) web_transport stereo true header settings
      frames 2 receiver true (λ d. true) (new_web_sender 24 header) (0, datagram) frames-Sendable
      receiver-Follows room (λ e. absurd (omega (arith, e))) refl
