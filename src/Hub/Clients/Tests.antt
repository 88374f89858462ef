-- ===== src/Hub/Clients/Tests.antt =====
-- Clients of a hub at concrete calls.
use jacktrip.Header.{
  DefaultHeaderStruct, Audio, put_header_in_packet, fill_header_common_from_audio,
}
use jacktrip.Hub.{
  Worker, Hub, max_threads, new_hub, first_empty, place_worker, new_worker, create_worker,
  set_jack_trip, on_worker,
}
use jacktrip.Hub.Clients.{
  channels, process_peer_settings, HubCall, admit, timer_tick, hub_call, hub_calls, admit_client,
  welcome, not_sent, udp_timer_tick, add_sleep_time, check_timeout,
}
use jacktrip.Hub.Clients.Parts.{Safe}
use jacktrip.Hub.Clients.Safe.{new_hub-Safe, hub_calls-Safe}
use jacktrip.Hub.Clients.Created.{Created, create_worker_lem}
use jacktrip.Hub.Clients.Settings.{
  InRange, process_peer_settings-InRange, fill-process_peer_settings,
}
use jacktrip.Base.{
  List, [], arith, false, none, refl, replicate, some, true, ℕ, ◌++◌, ◌↔◌, ◌∷◌, ◌≡◌,
}

abbrev hub : Hub
hub = new_hub false 61002 4

create_worker_lem_example :
    (((create_worker 0 0 [] hub).0 ≡ none) ↔ (hub.total_running_threads ≡ max_threads))
    × ((create_worker 0 0 [] hub).0 ≡ none → (create_worker 0 0 [] hub).2 ≡ hub)
    × ((id : ℕ)
        → (create_worker 0 0 [] hub).0 ≡ some id
        → Created 0 0 [] hub (create_worker 0 0 [] hub).1 (create_worker 0 0 [] hub).2 id)
create_worker_lem_example = create_worker_lem 0 0 [] hub (new_hub-Safe false 61002 4)

-- The client 10.0.0.7, 100 ms after it was admitted.
abbrev calls : List HubCall
calls = admit 0 0 (65 ∷ []) (10 ∷ 0 ∷ 0 ∷ 7 ∷ []) true ∷ timer_tick 0 ∷ []

abbrev worker : Worker
worker = record {
  worker_id = 0;
  client_address = 10 ∷ 0 ∷ 0 ∷ 7 ∷ [];
  server_port = 61002;
  client_port = 0;
  client_name = 65 ∷ [];
  worker_queue_length = 4;
  has_jack_trip = true;
  spawning = true;
  running = false;
  elapsed_time = 100;
}

abbrev hub_after : Hub
hub_after = record {
  workers = some worker ∷ replicate 1023 none;
  total_running_threads = 1;
  append_thread_id = false;
  base_port = 61002;
  buffer_queue_length = 4;
}

calls_run : hub_calls calls hub ≡ some hub_after
unfolding hub_calls hub_call admit_client create_worker place_worker first_empty new_worker welcome
    set_jack_trip on_worker not_sent udp_timer_tick add_sleep_time check_timeout new_hub
calls_run = refl

hub_calls-Safe_example : Safe hub_after
hub_calls-Safe_example = hub_calls-Safe calls false 61002 4 hub_after calls_run

abbrev packet : List ℕ
packet = replicate 10 0 ++ (128 ∷ 0 ∷ 3 ∷ 16 ∷ 2 ∷ 255 ∷ [])

process_peer_settings-InRange_example : InRange (process_peer_settings packet)
process_peer_settings-InRange_example = process_peer_settings-InRange packet

abbrev listener : Audio
listener = record {
  usec_time = 5;
  buffer_size_in_samples = 128;
  sample_rate_type = 3;
  audio_bit_resolution = 16;
  num_input_channels = 0;
  num_output_channels = 2;
}

abbrev header : DefaultHeaderStruct
header = record {
  time_stamp = 0;
  seq_number = 0;
  buffer_size = 0;
  sampling_rate = 0;
  bit_resolution = 0;
  num_incoming_channels_from_net = 0;
  num_outgoing_channels_to_net = 0;
}

fill-process_peer_settings_example :
    process_peer_settings
      (put_header_in_packet (fill_header_common_from_audio listener header) ++ [])
    ≡ channels 2 0
fill-process_peer_settings_example =
    fill-process_peer_settings listener header [] (omega arith) (omega arith) (omega arith)
      (omega arith) (omega arith) (omega arith)
