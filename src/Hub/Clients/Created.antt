-- ===== src/Hub/Clients/Created.antt =====
-- Which slot a new client gets.
use jacktrip.WebTransport.Response.{to_string}
use mathlib.Core.Path.{subst}
use mathlib.Core.Option.{none-ne-some, some-injective}
use jacktrip.Hub.{Worker, Hub, max_threads, first_empty, place_worker, create_worker, new_worker}
use jacktrip.Hub.Slots.{occupied, first_empty-FirstEmpty, first_empty_full}
use jacktrip.Hub.Clients.Parts.{Safe}
use jacktrip.Base.{
  List, Option, [], arith, false, get_elem?, get_elem?-set_ne, get_elem?-set_self, if◌then◌else◌,
  length, length-set, none, refl, some, suc, sym, take, zero, ℕ, ◌++◌, ◌+◌, ◌<◌, ◌↔◌, ◌∙◌, ◌∷◌, ◌≡◌,
  ◌≢◌, ◌≤◌,
}

-- A worker with `given` as its name and the ports that are passed, not yet set up, was put into the slot
-- `id`, the first that was empty, and nothing else was changed. The name has the number of the slot
-- behind it if the hub appends it.
pub record Created (server client : ℕ) (name : List ℕ) (h : Hub) (given : List ℕ) (after : Hub)
    (id : ℕ) : Type 0 where
  pub id_lt : id < max_threads
  pub was_empty : get_elem? h.workers id ≡ some none
  pub lower_taken : occupied (take id h.workers) ≡ id
  pub stored :
      get_elem? after.workers id
      ≡ some (
          some (record {
            worker_id = 0;
            client_address = [];
            server_port = server;
            client_port = client;
            client_name = given;
            worker_queue_length = h.buffer_queue_length;
            has_jack_trip = false;
            spawning = false;
            running = false;
            elapsed_time = 0;
          }))
  pub named : given ≡ (if h.append_thread_id then name ++ (95 ∷ to_string (id + 1)) else name)
  pub one_more : after.total_running_threads ≡ h.total_running_threads + 1
  pub others_kept : (j : ℕ) → j ≢ id → get_elem? after.workers j ≡ get_elem? h.workers j
  pub as_many : length after.workers ≡ length h.workers
  pub same_queue : after.buffer_queue_length ≡ h.buffer_queue_length
  pub same_base : after.base_port ≡ h.base_port
  pub same_append : after.append_thread_id ≡ h.append_thread_id

occupied_le : (ws : List (Option Worker)) → occupied ws ≤ length ws
unfolding occupied
occupied_le [] = omega arith
occupied_le (none ∷ ws) = omega (arith, occupied_le ws)
occupied_le (some w ∷ ws) = omega (arith, occupied_le ws)

occupied_lt :
    (ws : List (Option Worker)) (i : ℕ) → get_elem? ws i ≡ some none → occupied ws < length ws
unfolding occupied
occupied_lt [] i e = absurd (none-ne-some none e)
occupied_lt (none ∷ ws) zero e = omega (arith, occupied_le ws)
occupied_lt (some w ∷ ws) zero e = absurd (none-ne-some w (sym (some-injective (some w) none e)))
occupied_lt (none ∷ ws) (suc i) e = omega (arith, occupied_lt ws i e)
occupied_lt (some w ∷ ws) (suc i) e = omega (arith, occupied_lt ws i e)

placed :
    (server client : ℕ) (name : List ℕ) (h : Hub) (o : Option ℕ)
    → Safe h
    → first_empty 0 h.workers ≡ o
    → (((place_worker server client name h o).0 ≡ none) ↔ (h.total_running_threads ≡ max_threads))
      × ((place_worker server client name h o).0 ≡ none
          → (place_worker server client name h o).2 ≡ h)
      × ((id : ℕ)
          → (place_worker server client name h o).0 ≡ some id
          → Created server client name h
              (place_worker server client name h o).1
              (place_worker server client name h o).2
              id)
unfolding place_worker new_worker
placed server client name h none s e = (
  (λ x. s.counted ∙ first_empty_full 0 h.workers e ∙ s.sized, λ x. refl),
  λ x. refl,
  λ id x. absurd (none-ne-some id x),
)
placed server client name h (some id) s e =
    let f = first_empty-FirstEmpty h.workers id e in
    let fewer = occupied_lt h.workers id f.empty in
    (
      (
        λ x. absurd (none-ne-some id (sym x)),
        λ x. absurd (omega (arith, x, fewer, s.counted, s.sized)),
      ),
      λ x. absurd (none-ne-some id (sym x)),
      λ k x. subst (Created server client name h _ _) (some-injective id k x) (record {
        id_lt = omega (arith, f.within, s.sized);
        was_empty = f.empty;
        lower_taken = f.before;
        stored = get_elem?-set_self h.workers id _ f.within;
        named = refl;
        one_more = refl;
        as_many = length-set h.workers id _;
        others_kept = λ j d. get_elem?-set_ne h.workers id j _ (λ p. d (sym p));
        same_queue = refl;
        same_base = refl;
        same_append = refl;
      }),
    )

-- A hub that counts its workers refuses a client exactly if it has 1024 of them, and then nothing
-- changes. Else the first slot that is empty holds a new worker with the ports and the queue length
-- it was given, and with the name of the client, followed by an underscore and the number of the slot
-- from 1 on if the hub appends it; that name is given back, and nothing else changes.
pub create_worker_lem :
    (server client : ℕ) (name : List ℕ) (h : Hub)
    → Safe h
    → (((create_worker server client name h).0 ≡ none) ↔ (h.total_running_threads ≡ max_threads))
      × ((create_worker server client name h).0 ≡ none → (create_worker server client name h).2 ≡ h)
      × ((id : ℕ)
          → (create_worker server client name h).0 ≡ some id
          → Created server client name h
              (create_worker server client name h).1
              (create_worker server client name h).2
              id)
unfolding create_worker
create_worker_lem server client name h s = placed server client name h _ s refl
