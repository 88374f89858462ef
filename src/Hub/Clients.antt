-- ===== src/Hub/Clients.antt =====
-- src/JackTripWorker.cpp and src/UdpHubListener.cpp: what happens to the workers of a hub. A worker is
-- named by the slot it stands in; where it names itself, it uses the number it was given (mID).
pub mod Parts
pub mod Safe
pub mod Settings
pub mod Created
mod Tests
use jacktrip.Header.{
  peer_header, header_size, decode_num_outgoing_channels, max_buffer_size_in_samples,
  max_audio_channels,
}
use jacktrip.Hub.{
  Worker, Hub, create_worker, set_jack_trip, on_worker, release_thread, release_duplicate_threads,
  queue_buffer_changed, stop_all_threads, stop_thread,
}
use jacktrip.Base.{
  Bool, List, Option, [], false, get_or, if◌then◌else◌, leb, length, ltb, none, not, some, true,
  u16, ℕ, ◌&&◌, ◌+◌, ◌==◌, ◌>>=◌, ◌||◌, ◌∷◌,
}

-- The channels of audio in and out, unless the settings of the peer are refused.
pub data PeerSettings : Type 0 where
  refused : PeerSettings
  channels : ℕ → ℕ → PeerSettings

-- The two numbers are unsigned, so that the source's last test for negative ones never holds.
pub settings_for : ℕ → ℕ → ℕ → PeerSettings
settings_for buffer_size incoming outgoing =
    if buffer_size == 0 || ltb max_buffer_size_in_samples buffer_size
    then refused
    else if ltb incoming 1 || ltb max_audio_channels incoming
    then refused
    else if not (outgoing == 0) && not (outgoing == 255) && ltb max_audio_channels outgoing
    then refused
    else if 0 == outgoing
    then channels incoming incoming
    else if 255 == outgoing
    then channels incoming 0
    else channels incoming outgoing

pub process_peer_settings : List ℕ → PeerSettings
unfolding settings_for
process_peer_settings packet =
    let h = peer_header packet in
    settings_for h.buffer_size h.num_incoming_channels_from_net (decode_num_outgoing_channels h)

-- gTimeOutMultiThreadedServer and mSleepTime, in milliseconds.
abbrev pub time_out_multi_threaded_server : ℕ
time_out_multi_threaded_server = 10000

abbrev pub sleep_time : ℕ
sleep_time = 100

pub stop_spawning : Worker → Worker
stop_spawning w = record w { spawning = false }

pub stop_running : Worker → Worker
stop_running w = record w { running = false }

pub add_sleep_time : Worker → Worker
add_sleep_time w = record w { elapsed_time = w.elapsed_time + sleep_time }

-- The worker stops waiting for its client and has its slot released.
pub give_up : ℕ → Worker → Hub → Option Hub
unfolding stop_spawning
give_up slot w h = do stopped ← on_worker stop_spawning slot h; release_thread w.worker_id stopped

pub start_process : Worker → Worker
start_process w = record w { running = true; spawning = false }

-- The end of `receivedFirstPacketUDP` and of the handlers for the first packet of a browser. A worker
-- that were its own duplicate would lock its mutex twice: a fault.
pub apply_settings : ℕ → Worker → PeerSettings → Hub → Option Hub
unfolding give_up start_process
apply_settings slot w refused h = give_up slot w h
apply_settings slot w (channels incoming outgoing) h = on_worker start_process slot h

pub received_first_packet_udp : ℕ → ℕ → List ℕ → Hub → Option Hub
unfolding give_up apply_settings process_peer_settings
received_first_packet_udp slot port packet h = do
  w ← get_or h.workers slot none
  if not w.spawning
      then some h
      else if ltb (length packet) header_size
      then give_up slot w h
      else release_duplicate_threads slot port h
        >>= apply_settings slot w (process_peer_settings packet)

-- `receivedFirstPacketWebRtc` and `receivedFirstPacketWebTransport`, which read the header from a
-- packet of any length: a fault if it is too short.
pub received_first_packet_web : ℕ → List ℕ → Hub → Option Hub
unfolding apply_settings process_peer_settings
received_first_packet_web slot packet h = do
  w ← get_or h.workers slot none
  if not w.spawning
      then some h
      else if ltb (length packet) header_size
      then none
      else apply_settings slot w (process_peer_settings packet) h

pub check_timeout : ℕ → Worker → Hub → Option Hub
unfolding give_up
check_timeout slot w h =
    if leb time_out_multi_threaded_server (w.elapsed_time + sleep_time)
    then give_up slot w h
    else some h

pub udp_timer_tick : ℕ → Hub → Option Hub
unfolding check_timeout add_sleep_time
udp_timer_tick slot h = do
  w ← get_or h.workers slot none
  if not w.spawning then some h else on_worker add_sleep_time slot h >>= check_timeout slot w

pub jacktrip_stopped : ℕ → Hub → Option Hub
unfolding stop_running
jacktrip_stopped slot h = do
  w ← get_or h.workers slot none
  if w.spawning || not w.running
      then some h
      else on_worker stop_running slot h >>= release_thread w.worker_id

-- `createWebRtcWorker` and `createWebTransportWorker`.
pub create_web_worker : ℕ → ℕ → Hub → Option ℕ × Hub
unfolding create_worker
create_web_worker server client h = let c = create_worker server client [] h in (c.0, c.2)

-- `onWebRtcDataChannelOpen` and `onWebTransportSessionEstablished`.
pub establish : Hub → List ℕ → List ℕ → Worker → Worker
unfolding set_jack_trip
establish h address name w =
    set_jack_trip w.worker_id address (u16 (h.base_port + w.worker_id)) 0
      (record w { client_name = name })

pub session_established : ℕ → List ℕ → List ℕ → Hub → Option Hub
unfolding establish
session_established slot address name h = on_worker (establish h address name) slot h

-- `onWebRtcDataChannelClosed` and the like, and `handleWorkerRemoval`.
pub session_closed : ℕ → Hub → Option Hub
unfolding stop_thread
session_closed slot h = do
  w ← get_or h.workers slot none
  stopped ← on_worker stop_thread slot h
  release_thread w.worker_id stopped

-- The slot is released if the port could not be sent.
pub not_sent : Bool → ℕ → Hub → Option Hub
not_sent true id h = some h
not_sent false id h = release_thread id h

-- The worker in the slot that was found is set up, and the client is sent its port.
pub welcome : List ℕ → Bool → Hub → Option ℕ → Option (Option ℕ × Hub)
unfolding set_jack_trip not_sent
welcome address sent h none = some (none, h)
welcome address sent h (some id) = do
  ready ← on_worker (set_jack_trip id address (u16 (h.base_port + id)) 0) id h
  after ← not_sent sent id ready
  some (some (u16 (h.base_port + id)), after)

-- The end of `readyRead`: the port that the client is sent, none if there is no slot, and the state;
-- `sent` is whether the port could be sent. The thread that JackTripWorker::start begins, and the error
-- that it throws if a port cannot be bound, are not part of it.
pub admit_client : ℕ → ℕ → List ℕ → List ℕ → Bool → Hub → Option (Option ℕ × Hub)
unfolding create_worker welcome
admit_client server client client_name address sent h =
    let c = create_worker server client client_name h in welcome address sent c.2 c.0

-- Everything that may happen.
pub data HubCall : Type 0 where
  admit : ℕ → ℕ → List ℕ → List ℕ → Bool → HubCall
  first_packet : ℕ → ℕ → List ℕ → HubCall
  timer_tick : ℕ → HubCall
  processes_stopped : ℕ → HubCall
  queue_changed : ℕ → HubCall
  stop_all : HubCall
  admit_web : ℕ → ℕ → HubCall
  established : ℕ → List ℕ → List ℕ → HubCall
  first_web_packet : ℕ → List ℕ → HubCall
  closed : ℕ → HubCall

pub hub_call : HubCall → Hub → Option Hub
unfolding admit_client received_first_packet_udp udp_timer_tick jacktrip_stopped create_web_worker
    session_established received_first_packet_web session_closed
hub_call (admit server client name address sent) h = do
  r ← admit_client server client name address sent h
  some r.1
hub_call (first_packet slot port packet) h = received_first_packet_udp slot port packet h
hub_call (timer_tick slot) h = udp_timer_tick slot h
hub_call (processes_stopped slot) h = jacktrip_stopped slot h
hub_call (queue_changed queue) h = some (queue_buffer_changed queue h)
hub_call stop_all h = some (stop_all_threads h)
hub_call (admit_web server client) h = some (create_web_worker server client h).1
hub_call (established slot address name) h = session_established slot address name h
hub_call (first_web_packet slot packet) h = received_first_packet_web slot packet h
hub_call (closed slot) h = session_closed slot h

pub hub_calls : List HubCall → Hub → Option Hub
unfolding hub_call
hub_calls [] h = some h
hub_calls (c ∷ cs) h = do next ← hub_call c h; hub_calls cs next
