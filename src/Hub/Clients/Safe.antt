-- ===== src/Hub/Clients/Safe.antt =====
-- Whatever happens, the hub counts its workers and no client has two of them.
use jacktrip.Header.{header_size}
use mathlib.Core.Path.{subst}
use jacktrip.Hub.{
  Worker, Hub, max_threads, new_hub, create_worker, on_worker, release_duplicate_threads,
  set_buffer_queue_length, queue_buffer_changed, stop_thread, stop_all_threads,
}
use jacktrip.Hub.Slots.{occupied}
use jacktrip.Hub.Serving.{Serves, Apart}
use jacktrip.Hub.Clients.{
  PeerSettings, refused, channels, give_up, start_process, apply_settings,
  received_first_packet_udp, received_first_packet_web, udp_timer_tick, jacktrip_stopped,
  create_web_worker, session_established, session_closed, not_sent, admit_client,
  process_peer_settings, HubCall, admit, first_packet, timer_tick, processes_stopped, queue_changed,
  stop_all, admit_web, established, first_web_packet, closed, hub_call, hub_calls, check_timeout,
  welcome, stop_spawning, stop_running, add_sleep_time, establish, time_out_multi_threaded_server,
  sleep_time,
}
use jacktrip.Base.{
  Bool, List, Option, [], false, get_or, leb, length, length-replicate, ltb, none, not, refl,
  replicate, some, suc, sym, true, u16, zero, ℕ, ◌+◌, ◌>>=◌, ◌||◌, ◌∷◌, ◌≡◌,
}
use jacktrip.Hub.Clients.Parts.{
  Safe, SafeOption, bind-SafeOption, then-SafeOption, chain-SafeOption, if-SafeOption,
  on_worker-Safe, release_thread-Safe, create_worker-Safe, release_duplicate_threads-Safe,
  on_all-Safe, stop_thread-Keeps, set_buffer_queue_length-Keeps, set_jack_trip-Keeps,
  establish-Keeps, stop_spawning-Keeps, stop_running-Keeps, add_sleep_time-Keeps,
  start_process-Keeps,
}

give_up-Safe : (slot : ℕ) (w : Worker) (h : Hub) → Safe h → SafeOption (give_up slot w h)
unfolding give_up
give_up-Safe slot w h s =
    then-SafeOption _ _ (on_worker-Safe stop_spawning slot h stop_spawning-Keeps s)
      (λ g t. release_thread-Safe w.worker_id g t)

apply_settings-Safe :
    (slot : ℕ) (w : Worker) (settings : PeerSettings) (h : Hub)
    → Safe h
    → SafeOption (apply_settings slot w settings h)
unfolding apply_settings
apply_settings-Safe slot w refused h s = give_up-Safe slot w h s
apply_settings-Safe slot w (channels incoming outgoing) h s =
    on_worker-Safe start_process slot h start_process-Keeps s

check_timeout-Safe :
    (slot : ℕ) (w : Worker) (h : Hub) → Safe h → SafeOption (check_timeout slot w h)
unfolding check_timeout SafeOption
check_timeout-Safe slot w h s =
    if-SafeOption (leb time_out_multi_threaded_server (w.elapsed_time + sleep_time))
      (give_up slot w h) (some h) (give_up-Safe slot w h s) s

not_sent-Safe : (sent : Bool) (id : ℕ) (h : Hub) → Safe h → SafeOption (not_sent sent id h)
unfolding not_sent SafeOption
not_sent-Safe true id h s = s
not_sent-Safe false id h s = release_thread-Safe id h s

welcome-Safe :
    (address : List ℕ) (sent : Bool) (h : Hub) (o : Option ℕ) (k : Option ℕ × Hub → Option Hub)
    → Safe h
    → ((r : Option ℕ × Hub) → Safe r.1 → SafeOption (k r))
    → SafeOption (welcome address sent h o >>= k)
unfolding welcome
welcome-Safe address sent h none k s f = f (none, h) s
welcome-Safe address sent h (some id) k s f =
    chain-SafeOption _ _ k
      (on_worker-Safe _ id h (set_jack_trip-Keeps id address (u16 (h.base_port + id))) s)
      (λ g t.
        chain-SafeOption (not_sent sent id g) _ k (not_sent-Safe sent id g t) (λ g' t'. f _ t'))

received_first_packet_udp-Safe :
    (slot port : ℕ) (packet : List ℕ) (h : Hub)
    → Safe h
    → SafeOption (received_first_packet_udp slot port packet h)
unfolding received_first_packet_udp SafeOption
received_first_packet_udp-Safe slot port packet h s =
    bind-SafeOption (get_or h.workers slot none) _ (λ w e.
      if-SafeOption (not w.spawning) (some h) _ s (
        if-SafeOption (ltb (length packet) header_size) (give_up slot w h) _
          (give_up-Safe slot w h s)
          (then-SafeOption (release_duplicate_threads slot port h) _
            (release_duplicate_threads-Safe slot port h s)
            (λ g t. apply_settings-Safe slot w (process_peer_settings packet) g t))))

received_first_packet_web-Safe :
    (slot : ℕ) (packet : List ℕ) (h : Hub)
    → Safe h
    → SafeOption (received_first_packet_web slot packet h)
unfolding received_first_packet_web SafeOption
received_first_packet_web-Safe slot packet h s =
    bind-SafeOption (get_or h.workers slot none) _ (λ w e.
      if-SafeOption (not w.spawning) (some h) _ s (
        if-SafeOption (ltb (length packet) header_size) none _ tt
          (apply_settings-Safe slot w (process_peer_settings packet) h s)))

udp_timer_tick-Safe : (slot : ℕ) (h : Hub) → Safe h → SafeOption (udp_timer_tick slot h)
unfolding udp_timer_tick SafeOption
udp_timer_tick-Safe slot h s = bind-SafeOption (get_or h.workers slot none) _ (λ w e.
    if-SafeOption (not w.spawning) (some h) _ s (
      then-SafeOption (on_worker add_sleep_time slot h) _
        (on_worker-Safe add_sleep_time slot h add_sleep_time-Keeps s)
        (λ g t. check_timeout-Safe slot w g t)))

jacktrip_stopped-Safe : (slot : ℕ) (h : Hub) → Safe h → SafeOption (jacktrip_stopped slot h)
unfolding jacktrip_stopped SafeOption
jacktrip_stopped-Safe slot h s = bind-SafeOption (get_or h.workers slot none) _ (λ w e.
    if-SafeOption (w.spawning || not w.running) (some h) _ s (
      then-SafeOption (on_worker stop_running slot h) _
        (on_worker-Safe stop_running slot h stop_running-Keeps s)
        (λ g t. release_thread-Safe w.worker_id g t)))

session_closed-Safe : (slot : ℕ) (h : Hub) → Safe h → SafeOption (session_closed slot h)
unfolding session_closed
session_closed-Safe slot h s = bind-SafeOption (get_or h.workers slot none) _ (λ w e.
    then-SafeOption (on_worker stop_thread slot h) _
      (on_worker-Safe stop_thread slot h stop_thread-Keeps s)
      (λ g t. release_thread-Safe w.worker_id g t))

hub_call-Safe : (c : HubCall) (h : Hub) → Safe h → SafeOption (hub_call c h)
unfolding hub_call SafeOption admit_client create_web_worker session_established
    queue_buffer_changed stop_all_threads
hub_call-Safe (admit server client name address sent) h s =
    welcome-Safe address sent (create_worker server client name h).2
      (create_worker server client name h).0 (λ r. some r.1)
      (create_worker-Safe server client name h s) (λ r t. t)
hub_call-Safe (first_packet slot port packet) h s =
    received_first_packet_udp-Safe slot port packet h s
hub_call-Safe (timer_tick slot) h s = udp_timer_tick-Safe slot h s
hub_call-Safe (processes_stopped slot) h s = jacktrip_stopped-Safe slot h s
hub_call-Safe (queue_changed queue) h s =
    on_all-Safe (set_buffer_queue_length queue) queue h (set_buffer_queue_length-Keeps queue) s
hub_call-Safe stop_all h s = on_all-Safe stop_thread h.buffer_queue_length h stop_thread-Keeps s
hub_call-Safe (admit_web server client) h s = create_worker-Safe server client [] h s
hub_call-Safe (established slot address name) h s =
    on_worker-Safe (establish h address name) slot h (establish-Keeps h address name) s
hub_call-Safe (first_web_packet slot packet) h s = received_first_packet_web-Safe slot packet h s
hub_call-Safe (closed slot) h s = session_closed-Safe slot h s

hub_calls-SafeOption : (cs : List HubCall) (h : Hub) → Safe h → SafeOption (hub_calls cs h)
unfolding hub_calls SafeOption
hub_calls-SafeOption [] h s = s
hub_calls-SafeOption (c ∷ cs) h s =
    then-SafeOption (hub_call c h) _ (hub_call-Safe c h s) (λ g t. hub_calls-SafeOption cs g t)

empty_slots : (n : ℕ) → occupied (replicate n none) ≡ 0
unfolding occupied
empty_slots zero = refl
empty_slots (suc n) = empty_slots n

empty-Serves :
    (address : List ℕ) (port n i : ℕ) → ¬ (Serves address port (get_or (replicate n none) i none))
unfolding Serves
empty-Serves address port zero i x = x
empty-Serves address port (suc n) zero x = x
empty-Serves address port (suc n) (suc i) x = empty-Serves address port n i x

pub new_hub-Safe : (append : Bool) (base queue : ℕ) → Safe (new_hub append base queue)
unfolding new_hub Apart
new_hub-Safe append base queue = record {
  sized = length-replicate {A = Option Worker} max_threads none;
  counted = sym (empty_slots max_threads);
  apart = λ a p i j pos x y. absurd (empty-Serves a p max_threads i x);
}

-- Whatever happens to a new hub, as long as no handler is called for a worker that has no slot and no
-- first packet of a browser, for a worker that waits for it, is shorter than the 16 bytes of a header: the
-- hub keeps its 1024 slots, `mTotalRunningThreads` is the number of the workers in them, and of the
-- workers that were set up and know the port of their client, no two have the same address and port.
pub hub_calls-Safe :
    (cs : List HubCall) (append : Bool) (base queue : ℕ) (h : Hub)
    → hub_calls cs (new_hub append base queue) ≡ some h
    → Safe h
unfolding SafeOption
hub_calls-Safe cs append base queue h e =
    subst SafeOption e (hub_calls-SafeOption cs _ (new_hub-Safe append base queue))
