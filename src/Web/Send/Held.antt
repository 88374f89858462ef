-- ===== src/Web/Send/Held.antt =====
-- src/webtransport/WebTransportDataProtocol.cpp: any calls of `sendPacketDirect` and completions of what
-- was sent, and the buffers that MsQuic holds.
use jacktrip.Header.{Audio}
use jacktrip.Udp.Receive.{Settings}
use jacktrip.Web.Send.{
  WebSender, buffer_pool_size, acquire_from, acquired, acquire_pool_buffer, release_pool_buffer,
  release_send_context, send_in_buffer, send_packet_direct,
}
use jacktrip.Web.Send.Pool.{acquire_from_free}
use jacktrip.Base.{
  ==_refl, Bool, Bool-cases, List, Option, [], arith, dec_lt, false, get_or, get_or-set_ne,
  get_or-set_self, if◌then◌else◌, inl, inr, leb-false, length, length-set, le→leb, none, refl, set,
  some, sym, true, ℕ, ℕ_discrete, ◌<◌, ◌==◌, ◌||◌, ◌∙◌, ◌∷◌, ◌≡◌, ◌≢◌,
}

unfoldable pub has : ℕ → List ℕ → Bool
has i [] = false
has i (x ∷ xs) = i == x || has i xs

pub without : ℕ → List ℕ → List ℕ
without i [] = []
without i (x ∷ xs) = let rest = without i xs in if i == x then rest else x ∷ rest

-- The sender, and the buffers that MsQuic has taken and not completed.
pub record Flight : Type 0 where
  pub sender : WebSender
  pub held : List ℕ

-- `sendPacketDirect`, with whether the session is connected and takes the datagram; and MsQuic has
-- completed a buffer.
pub data PoolEvent : Type 0 where
  send_event : Bool → Bool → Audio → List ℕ → PoolEvent
  done_event : ℕ → PoolEvent

pub now_held : Option (ℕ × List ℕ) → List ℕ → List ℕ
now_held none held = held
now_held (some r) held = r.0 ∷ held

pub pool_event : Settings → PoolEvent → Flight → Flight
unfolding now_held has without
pool_event p (send_event connected accepted a audio) f =
    let r = send_packet_direct connected (λ d. accepted) p a audio f.sender in
    record { sender = r.0; held = now_held r.1 f.held }
pool_event p (done_event i) f =
    if has i f.held
    then record { sender = release_send_context i f.sender; held = without i f.held }
    else f

pub pool_events : Settings → List PoolEvent → Flight → Flight
unfolding pool_event
pool_events p [] f = f
pool_events p (e ∷ es) f = pool_events p es (pool_event p e f)

pub record Agrees (in_use : List Bool) (held : List ℕ) : Type 0 where
  pub sixteen : length in_use ≡ buffer_pool_size
  pub same : (i : ℕ) → i < buffer_pool_size → get_or in_use i true ≡ has i held

has-without : (i j : ℕ) (held : List ℕ) → i ≢ j → has j (without i held) ≡ has j held
unfolding has without
has-without i j [] d = refl
has-without i j (x ∷ held) d = ground (arith, has-without i j held d, d)

has-without_self : (i : ℕ) (held : List ℕ) → has i (without i held) ≡ false
unfolding has without
has-without_self i [] = refl
has-without_self i (x ∷ held) = ground (arith, has-without_self i held)

same_place : (i j : ℕ) → i ≡ j → (i == j) ≡ true
same_place i j e = ground (arith, e)

other_place : (i j : ℕ) → i ≢ j → (j == i) ≡ false
other_place i j d = ground (arith, d)

acquire-Agrees :
    (index : ℕ) (in_use : List Bool) (held : List ℕ)
    → index < buffer_pool_size
    → Agrees in_use held
    → Agrees (set in_use index true) (index ∷ held)
unfolding has
acquire-Agrees index in_use held l h = record {
  sixteen = length-set in_use index true ∙ h.sixteen;
  same = λ i li. elim (ℕ_discrete index i) [
    | yes e ↦
        rw (sym e, ==_refl index)
          (get_or-set_self in_use index true true (omega (arith, l, h.sixteen)))
    | no d ↦ rw (other_place index i d) (get_or-set_ne in_use index i true true d ∙ h.same i li)
  ];
}

release-Agrees :
    (index : ℕ) (in_use : List Bool) (held : List ℕ)
    → index < buffer_pool_size
    → Agrees in_use held
    → Agrees (set in_use index false) (without index held)
release-Agrees index in_use held l h = record {
  sixteen = length-set in_use index false ∙ h.sixteen;
  same = λ i li. elim (ℕ_discrete index i) [
    | yes e ↦ rw (sym e) (
        get_or-set_self in_use index false true (omega (arith, l, h.sixteen))
        ∙ sym (has-without_self index held))
    | no d ↦
        get_or-set_ne in_use index i false true d ∙ h.same i li ∙ sym (has-without index i held d)
  ];
}

-- A buffer that was acquired and is given back.
refused-Agrees :
    (index : ℕ) (in_use : List Bool) (held : List ℕ)
    → index < buffer_pool_size
    → get_or in_use index true ≡ false
    → Agrees in_use held
    → Agrees (set (set in_use index true) index false) held
refused-Agrees index in_use held l free h = record {
  sixteen =
      length-set (set in_use index true) index false ∙ length-set in_use index true ∙ h.sixteen;
  same = λ i li. elim (ℕ_discrete index i) [
    | yes e ↦ rw (sym e) (
        get_or-set_self (set in_use index true) index false true
          (omega (arith, l, h.sixteen, length-set in_use index true))
        ∙ sym free
        ∙ h.same index l)
    | no d ↦
        get_or-set_ne (set in_use index true) index i false true d
        ∙ get_or-set_ne in_use index i true true d
        ∙ h.same i li
  ];
}

sent-Agrees :
    (accepted : Bool) (p : Settings) (a : Audio) (audio : List ℕ) (s : WebSender) (held : List ℕ)
    (o : Option ℕ)
    → acquire_from buffer_pool_size 0 s.next_buffer_index s.in_use ≡ o
    → Agrees s.in_use held
    → Agrees
        (send_in_buffer (λ d. accepted) p a audio s (acquired s o)).0.in_use
        (now_held (send_in_buffer (λ d. accepted) p a audio s (acquired s o)).1 held)
unfolding send_in_buffer acquired release_pool_buffer now_held
sent-Agrees accepted p a audio s held none e h = h
sent-Agrees true p a audio s held (some index) e h =
    acquire-Agrees index s.in_use held
      (acquire_from_free 16 0 s.next_buffer_index s.in_use index e).0 h
sent-Agrees false p a audio s held (some index) e h =
    let k = acquire_from_free 16 0 s.next_buffer_index s.in_use index e in
    rw (leb-false 16 index k.0) (refused-Agrees index s.in_use held k.0 k.1 h)

completed-Agrees :
    (i : ℕ) (s : WebSender) (held : List ℕ)
    → Agrees s.in_use held
    → Agrees (release_send_context i s).in_use (without i held)
unfolding release_send_context release_pool_buffer
completed-Agrees i s held h = elim (dec_lt i buffer_pool_size) [
  | yes l ↦ rw (leb-false 16 i l) (release-Agrees i s.in_use held l h)
  | no l ↦ rw (le→leb 16 i (omega (arith, l))) record {
    sixteen = h.sixteen;
    same = λ j lj. h.same j lj ∙ sym (has-without i j held (λ e. l (omega (arith, e, lj))));
  }
]

pool_event-Agrees :
    (p : Settings) (e : PoolEvent) (f : Flight)
    → Agrees f.sender.in_use f.held
    → Agrees (pool_event p e f).sender.in_use (pool_event p e f).held
unfolding pool_event send_packet_direct acquire_pool_buffer now_held
pool_event-Agrees p (send_event false accepted a audio) f h = h
pool_event-Agrees p (send_event true accepted a audio) f h =
    sent-Agrees accepted p a audio f.sender f.held
      (acquire_from buffer_pool_size 0 f.sender.next_buffer_index f.sender.in_use) refl h
pool_event-Agrees p (done_event i) f h = elim (Bool-cases (has i f.held)) [
  | inl q ↦ rw q (completed-Agrees i f.sender f.held h)
  | inr q ↦ rw q h
]

pub pool_events-Agrees :
    (p : Settings) (es : List PoolEvent) (f : Flight)
    → Agrees f.sender.in_use f.held
    → Agrees (pool_events p es f).sender.in_use (pool_events p es f).held
unfolding pool_events
pool_events-Agrees p [] f h = h
pool_events-Agrees p (e ∷ es) f h =
    pool_events-Agrees p es (pool_event p e f) (pool_event-Agrees p e f h)
