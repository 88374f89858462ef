-- ===== src/Web/Timer.antt =====
-- src/webrtc/WebRtcDataProtocol.cpp and src/webtransport/WebTransportDataProtocol.cpp: the timer of the
-- receiver.

use jacktrip.Web.{
  WebReceiver, receiver_tick, waited_too_long, udp_wait_timeout, client_gone_timeout_ms,
}
use jacktrip.Base.{arith, leb, suc, true, zero, ℕ, ◌%◌, ◌&&◌, ◌*◌, ◌+◌, ◌==◌, ◌↔◌, ◌≡◌, ◌≤◌}

-- The round `n + 1` of the loop since the timer was reset.
pub rounds_later : ℕ → WebReceiver → WebReceiver
rounds_later zero s = s
rounds_later (suc n) s = (receiver_tick (rounds_later n s)).1

time-rounds_later :
    (n : ℕ) (s : WebReceiver)
    → s.time_since_last_packet ≡ 0
    → (rounds_later n s).time_since_last_packet ≡ 10 * n
unfolding rounds_later receiver_tick
time-rounds_later zero s e = e
time-rounds_later (suc n) s e = omega (arith, time-rounds_later n s e)

signal_lem :
    (n waited : ℕ)
    → waited ≡ 10 * n
    → (((waited + 10) % udp_wait_timeout == 0) ≡ true) ↔ ((n + 1) % 256 ≡ 0)
signal_lem n waited e = ground (arith, e)

close_lem :
    (n waited : ℕ)
    → waited ≡ 10 * n
    → (((waited + 10) % udp_wait_timeout == 0) && leb client_gone_timeout_ms (waited + 10) ≡ true)
      ↔ (((n + 1) % 256 ≡ 0) × (1024 ≤ n + 1))
close_lem n waited e = ground (arith, e)

-- Without packets since the timer was at 0, a round of `runReceiver` signals that it waits too long
-- exactly if it is a multiple of 256, and the channel is closed exactly at such a round from the
-- 1024th on.
pub rounds_later_lem :
    (n : ℕ) (s : WebReceiver)
    → s.time_since_last_packet ≡ 0
    → (((receiver_tick (rounds_later n s)).0 ≡ true) ↔ ((n + 1) % 256 ≡ 0))
      × (((receiver_tick (rounds_later n s)).0
              && waited_too_long (receiver_tick (rounds_later n s)).1.time_since_last_packet
            ≡ true)
          ↔ (((n + 1) % 256 ≡ 0) × (1024 ≤ n + 1)))
unfolding receiver_tick waited_too_long
rounds_later_lem n s e =
    let t = time-rounds_later n s e in
    (
      signal_lem n (rounds_later n s).time_since_last_packet t,
      close_lem n (rounds_later n s).time_since_last_packet t,
    )
