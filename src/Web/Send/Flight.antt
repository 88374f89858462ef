-- ===== src/Web/Send/Flight.antt =====
-- src/webtransport/WebTransportDataProtocol.cpp: the buffers that MsQuic holds are the ones in use, in any
-- order of calls of `sendPacketDirect` and of completions of what was sent.

use jacktrip.Header.{DefaultHeaderStruct, Audio}
use jacktrip.Udp.Receive.{Settings}
use jacktrip.Web.Send.{
  WebSender, new_web_sender, buffer_pool_size, acquire_from, acquired, acquire_pool_buffer,
  send_in_buffer, send_packet_direct,
}
use jacktrip.Web.Send.Pool.{acquire_from_free, acquire_from-none}
use jacktrip.Web.Send.Held.{has, Flight, PoolEvent, pool_events, Agrees, pool_events-Agrees}
use jacktrip.Base.{
  List, Option, [], false, get_elem?-replicate, get_or_of_get_elem?, none, refl, replicate, some,
  sym, true, ℕ, ◌<◌, ◌∙◌, ◌≡◌,
}

abbrev pub new_flight : ℕ → DefaultHeaderStruct → Flight
new_flight size header = record { sender = new_web_sender size header; held = [] }

-- A call sends from a buffer that is not held, or finds that all are.
abbrev pub Exclusive : List ℕ → Option (ℕ × List ℕ) → Type 0
Exclusive held none = (i : ℕ) → i < buffer_pool_size → has i held ≡ true
Exclusive held (some r) = (r.0 < buffer_pool_size) × (has r.0 held ≡ false)

new-Agrees :
    (size : ℕ) (header : DefaultHeaderStruct) → Agrees (new_web_sender size header).in_use []
unfolding new_web_sender has
new-Agrees size header = record {
  sixteen = refl;
  same = λ i l.
      get_or_of_get_elem? (replicate 16 false) i false true (get_elem?-replicate 16 false i l);
}

next-Exclusive :
    (p : Settings) (a : Audio) (audio : List ℕ) (s : WebSender) (held : List ℕ) (o : Option ℕ)
    → acquire_from buffer_pool_size 0 s.next_buffer_index s.in_use ≡ o
    → Agrees s.in_use held
    → Exclusive held (send_in_buffer (λ d. true) p a audio s (acquired s o)).1
unfolding send_in_buffer acquired
next-Exclusive p a audio s held none e h =
    λ i l. sym (h.same i l) ∙ acquire_from-none s.next_buffer_index s.in_use i e l
next-Exclusive p a audio s held (some index) e h =
    let k = acquire_from_free 16 0 s.next_buffer_index s.in_use index e in
    (k.0, sym (h.same index k.0) ∙ k.1)

-- After any calls of `sendPacketDirect`, with the session connected or not and taking the datagram
-- or not, and any completions, in any order: the next packet is put in a buffer that MsQuic does
-- not hold, and none is sent only if it holds all 16.
pub pool_events-Exclusive :
    (p : Settings) (size : ℕ) (header : DefaultHeaderStruct) (es : List PoolEvent) (a : Audio)
    (audio : List ℕ)
    → Exclusive
        (pool_events p es (new_flight size header)).held
        (send_packet_direct true
          (λ d. true)
          p
          a
          audio
          (pool_events p es (new_flight size header)).sender).1
unfolding send_packet_direct acquire_pool_buffer
pool_events-Exclusive p size header es a audio =
    let f = pool_events p es (new_flight size header) in
    next-Exclusive p a audio f.sender f.held
      (acquire_from buffer_pool_size 0 f.sender.next_buffer_index f.sender.in_use) refl
      (pool_events-Agrees p es (new_flight size header) (new-Agrees size header))
