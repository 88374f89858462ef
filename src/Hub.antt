-- ===== src/Hub.antt =====
-- src/UdpHubListener.cpp and src/JackTripWorker.cpp: the workers of a hub server, one for a client,
-- which stand in the slots of `mJTWorkers`. Strings are lists of code units. The functions run under
-- the mutex of the listener. Hub/Clients has what happens to a worker, Hub/Handshake what the client
-- and the server send each other.
pub mod Slots
pub mod Serving
pub mod Clients
pub mod Handshake
use Prim.Native.Char.{code}
use jacktrip.WebTransport.Response.{to_string}
use jacktrip.Base.{
  Bool, List, Option, [], false, get_or, if◌then◌else◌, none, not, replicate, same_string, set,
  some, true, ℕ, ◌&&◌, ◌++◌, ◌+◌, ◌-◌, ◌==◌, ◌>>=◌, ◌||◌, ◌∷◌,
}

-- A JackTripWorker.
pub record Worker : Type 0 where
  pub worker_id : ℕ
  pub client_address : List ℕ
  pub server_port : ℕ
  pub client_port : ℕ
  pub client_name : List ℕ
  pub worker_queue_length : ℕ
  pub has_jack_trip : Bool
  pub spawning : Bool
  pub running : Bool
  pub elapsed_time : ℕ

pub record Hub : Type 0 where
  pub workers : List (Option Worker)
  pub total_running_threads : ℕ
  pub append_thread_id : Bool
  pub base_port : ℕ
  pub buffer_queue_length : ℕ

-- gMaxThreads
abbrev pub max_threads : ℕ
max_threads = 1024

pub new_hub : Bool → ℕ → ℕ → Hub
new_hub append base queue = record {
  workers = replicate max_threads none;
  total_running_threads = 0;
  append_thread_id = append;
  base_port = base;
  buffer_queue_length = queue;
}

-- The first slot from `i` on that is empty.
pub first_empty : ℕ → List (Option Worker) → Option ℕ
first_empty i [] = none
first_empty i (none ∷ ws) = some i
first_empty i (some w ∷ ws) = first_empty (i + 1) ws

-- The constructor, which leaves the ports as they are in memory.
pub new_worker : ℕ → ℕ → ℕ → List ℕ → Worker
new_worker server client queue name = record {
  worker_id = 0;
  client_address = [];
  server_port = server;
  client_port = client;
  client_name = name;
  worker_queue_length = queue;
  has_jack_trip = false;
  spawning = false;
  running = false;
  elapsed_time = 0;
}

-- The new worker in the slot that was found: the slot, the name the worker was given, and the state.
pub place_worker : ℕ → ℕ → List ℕ → Hub → Option ℕ → Option ℕ × List ℕ × Hub
unfolding new_worker
place_worker server client client_name h none = (none, client_name, h)
place_worker server client client_name h (some id) =
    let name =
      if h.append_thread_id then client_name ++ (95 ∷ to_string (id + 1)) else client_name in
    (
      some id,
      name,
      record h {
        workers = set h.workers id (some (new_worker server client h.buffer_queue_length name));
        total_running_threads = h.total_running_threads + 1;
      },
    )

pub create_worker : ℕ → ℕ → List ℕ → Hub → Option ℕ × List ℕ × Hub
unfolding first_empty place_worker
create_worker server client client_name h =
    place_worker server client client_name h (first_empty 0 h.workers)

pub set_jack_trip : ℕ → List ℕ → ℕ → ℕ → Worker → Worker
set_jack_trip id address server client w = record w {
  worker_id = id;
  client_address = address;
  server_port = server;
  client_port = client;
  has_jack_trip = true;
  spawning = true;
  running = false;
}

-- A call on the worker in a slot; it is a fault if there is none.
pub on_worker : (Worker → Worker) → ℕ → Hub → Option Hub
on_worker f id h = do
  w ← get_or h.workers id none
  some (record h { workers = set h.workers id (some (f w)) })

pub release_thread : ℕ → Hub → Option Hub
release_thread id h = do
  w ← get_or h.workers id none
  some (record h {
    total_running_threads = h.total_running_threads - 1;
    workers = set h.workers id none;
  })

-- The slot of the worker for an address and a port of the server.
pub get_pool_id_from : ℕ → List ℕ → ℕ → List (Option Worker) → Option ℕ
get_pool_id_from i address port [] = none
get_pool_id_from i address port (none ∷ ws) = get_pool_id_from (i + 1) address port ws
get_pool_id_from i address port (some w ∷ ws) =
    let later = get_pool_id_from (i + 1) address port ws in
    if same_string address w.client_address && port == w.server_port then some i else later

pub get_pool_id : List ℕ → ℕ → Hub → Option ℕ
unfolding get_pool_id_from
get_pool_id address port h = get_pool_id_from 0 address port h.workers

-- The slots without the workers for an address and a port of the client, and how many there were.
pub remove_duplicates : List ℕ → ℕ → List (Option Worker) → List (Option Worker) × ℕ
remove_duplicates address port [] = ([], 0)
remove_duplicates address port (none ∷ ws) =
    let r = remove_duplicates address port ws in (none ∷ r.0, r.1)
remove_duplicates address port (some w ∷ ws) =
    let r = remove_duplicates address port ws in
    if same_string address w.client_address && port == w.client_port
    then (none ∷ r.0, r.1 + 1)
    else (some w ∷ r.0, r.1)

-- `setClientPort` on the object, which may no longer have a slot.
pub set_client_port : ℕ → ℕ → Hub → Option Worker → Hub
set_client_port port id h none = h
set_client_port port id h (some w) = record h {
  workers = set h.workers id (some (record w { client_port = port }));
}

-- Called by the worker in the slot `id`.
pub release_duplicate_threads : ℕ → ℕ → Hub → Option Hub
unfolding remove_duplicates set_client_port
release_duplicate_threads id actual_peer_port h = do
  w ← get_or h.workers id none
  let r = remove_duplicates w.client_address actual_peer_port h.workers
  some (
      set_client_port actual_peer_port id
        (record h { workers = r.0; total_running_threads = h.total_running_threads - r.1 })
        (get_or r.0 id none))

pub set_buffer_queue_length : ℕ → Worker → Worker
set_buffer_queue_length queue w =
    if not w.has_jack_trip || w.worker_queue_length == queue
    then w
    else record w { worker_queue_length = queue }

pub on_all : (Worker → Worker) → List (Option Worker) → List (Option Worker)
on_all f [] = []
on_all f (none ∷ ws) = none ∷ on_all f ws
on_all f (some w ∷ ws) = some (f w) ∷ on_all f ws

pub queue_buffer_changed : ℕ → Hub → Hub
unfolding set_buffer_queue_length on_all
queue_buffer_changed queue h = record h {
  buffer_queue_length = queue;
  workers = on_all (set_buffer_queue_length queue) h.workers;
}

pub stop_thread : Worker → Worker
stop_thread w =
    if w.running
    then record w { running = false }
    else if w.spawning
    then record w { spawning = false }
    else w

pub stop_all_threads : Hub → Hub
unfolding stop_thread on_all
stop_all_threads h = record h { workers = on_all stop_thread h.workers }
