-- ===== src/Hub/Clients/Parts.antt =====
-- The parts of the handlers keep the hub counting its workers, with at most one for a client.

use mathlib.Core.Path.{subst}
use mathlib.Core.Bool.{false≢true}
use mathlib.Core.Option.{some-injective}
use jacktrip.Hub.{
  Worker, Hub, max_threads, first_empty, new_worker, create_worker, set_jack_trip, on_worker,
  release_thread, set_client_port, release_duplicate_threads, set_buffer_queue_length, on_all,
  stop_thread, place_worker,
}
use jacktrip.Hub.Slots.{
  occupied, first_empty-FirstEmpty, occupied_fill, occupied_change, occupied_clear,
  occupied-remove_duplicates, occupied-on_all,
}
use jacktrip.Hub.Serving.{
  Serves, Apart, Fewer-Apart, set-Fewer, remove_duplicates-Fewer, remove_duplicates_gone,
  on_all-Fewer, set-Apart, remove_duplicates_same,
}
use jacktrip.Hub.Clients.{start_process, stop_spawning, stop_running, add_sleep_time, establish}
use jacktrip.Base.{
  Bool, Bool-cases, List, Option, ap, arith, false, get_or, if◌then◌else◌, inl, inr, length,
  length-set, none, not, refl, some, sym, true, ℕ, ◌+◌, ◌<◌, ◌==◌, ◌>>=◌, ◌||◌, ◌∙◌, ◌≡◌,
}

pub record Safe (h : Hub) : Type 0 where
  pub sized : length h.workers ≡ max_threads
  pub counted : h.total_running_threads ≡ occupied h.workers
  pub apart : Apart h.workers

unfoldable pub SafeOption : Option Hub → Type 0
SafeOption none = Unit
SafeOption (some h) = Safe h

pub bind-SafeOption {ℓ} :
    {A : Type ℓ} (o : Option A) (k : A → Option Hub)
    → ((a : A) → o ≡ some a → SafeOption (k a))
    → SafeOption (o >>= k)
unfolding SafeOption
bind-SafeOption none k f = tt
bind-SafeOption (some a) k f = f a refl

pub then-SafeOption :
    (o : Option Hub) (k : Hub → Option Hub)
    → SafeOption o
    → ((h : Hub) → Safe h → SafeOption (k h))
    → SafeOption (o >>= k)
unfolding SafeOption
then-SafeOption none k x f = tt
then-SafeOption (some h) k x f = f h x

pub chain-SafeOption {ℓ} :
    {A : Type ℓ} (o : Option Hub) (f : Hub → Option A) (k : A → Option Hub)
    → SafeOption o
    → ((h : Hub) → Safe h → SafeOption (f h >>= k))
    → SafeOption (o >>= f >>= k)
unfolding SafeOption
chain-SafeOption none f k x g = tt
chain-SafeOption (some h) f k x g = g h x

pub if-SafeOption :
    (b : Bool) (o o' : Option Hub) → SafeOption o → SafeOption o' → SafeOption (if b then o else o')
if-SafeOption true o o' x y = x
if-SafeOption false o o' x y = y

-- A change of a worker that lets it serve nobody new.
unfoldable pub Keeps : (Worker → Worker) → Type 0
Keeps f =
    (w : Worker) (address : List ℕ) (port : ℕ)
    → 0 < port
    → Serves address port (some (f w))
    → Serves address port (some w)

pub on_worker-Safe :
    (f : Worker → Worker) (slot : ℕ) (h : Hub) → Keeps f → Safe h → SafeOption (on_worker f slot h)
unfolding on_worker SafeOption Keeps
on_worker-Safe f slot h k s = bind-SafeOption (get_or h.workers slot none) _ (λ w e. record {
  sized = length-set h.workers slot _ ∙ s.sized;
  counted = s.counted ∙ sym (occupied_change h.workers slot w (f w) e);
  apart =
      Fewer-Apart _ h.workers
        (set-Fewer h.workers slot (some (f w)) (λ a p pos x. rw e (k w a p pos x))) s.apart;
})

pub release_thread-Safe : (id : ℕ) (h : Hub) → Safe h → SafeOption (release_thread id h)
unfolding release_thread SafeOption Serves
release_thread-Safe id h s = bind-SafeOption (get_or h.workers id none) _ (λ w e. record {
  sized = length-set h.workers id none ∙ s.sized;
  counted = omega (arith, s.counted, occupied_clear h.workers id w e);
  apart = Fewer-Apart _ h.workers (set-Fewer h.workers id none (λ a p pos x. absurd x)) s.apart;
})

place_worker-Safe :
    (server client : ℕ) (name : List ℕ) (h : Hub) (o : Option ℕ)
    → Safe h
    → first_empty 0 h.workers ≡ o
    → Safe (place_worker server client name h o).2
unfolding place_worker new_worker Serves
place_worker-Safe server client name h none s e = s
place_worker-Safe server client name h (some id) s e =
    let f = first_empty-FirstEmpty h.workers id e in
    record {
      sized = length-set h.workers id _ ∙ s.sized;
      counted = ap (λ n. n + 1) s.counted ∙ sym (occupied_fill h.workers id _ f.empty);
      apart =
          Fewer-Apart _ h.workers (set-Fewer h.workers id _ (λ a p pos x. absurd (false≢true x.0)))
            s.apart;
    }

pub create_worker-Safe :
    (server client : ℕ) (name : List ℕ) (h : Hub)
    → Safe h
    → Safe (create_worker server client name h).2
unfolding create_worker
create_worker-Safe server client name h s = place_worker-Safe server client name h _ s refl

-- A worker that no other is like may be told the port of its client.
set_client_port-Safe :
    (port id : ℕ) (address : List ℕ) (h : Hub) (o : Option Worker)
    → Safe h
    → get_or h.workers id none ≡ o
    → ((w : Worker) → o ≡ some w → w.client_address ≡ address)
    → ((j : ℕ) → ¬ (Serves address port (get_or h.workers j none)))
    → Safe (set_client_port port id h o)
unfolding set_client_port
set_client_port-Safe port id address h none s e a alone = s
set_client_port-Safe port id address h (some w) s e a alone = record {
  sized = length-set h.workers id _ ∙ s.sized;
  counted = s.counted ∙ sym (occupied_change h.workers id w _ e);
  apart =
      set-Apart h.workers id (record w { client_port = port })
        (λ j x. alone j (subst (λ b. Serves b port (get_or h.workers j none)) (a w refl) x))
        s.apart;
}

pub release_duplicate_threads-Safe :
    (id port : ℕ) (h : Hub) → Safe h → SafeOption (release_duplicate_threads id port h)
unfolding release_duplicate_threads SafeOption
release_duplicate_threads-Safe id port h s = bind-SafeOption (get_or h.workers id none) _ (λ w e.
    let c = occupied-remove_duplicates w.client_address port h.workers in
    set_client_port-Safe port id w.client_address _ _
      (record {
        sized = c.1 ∙ s.sized;
        counted = omega (arith, s.counted, c.0);
        apart =
            Fewer-Apart _ h.workers (remove_duplicates-Fewer w.client_address port h.workers)
              s.apart;
      })
      refl
      (λ v x.
        ap (λ u. u.client_address)
          (some-injective _ _ (sym (remove_duplicates_same _ port h.workers id v x) ∙ e)))
      (remove_duplicates_gone w.client_address port h.workers))

pub on_all-Safe :
    (f : Worker → Worker) (queue : ℕ) (h : Hub)
    → Keeps f
    → Safe h
    → Safe (record h { buffer_queue_length = queue; workers = on_all f h.workers })
unfolding Keeps
on_all-Safe f queue h k s =
    let c = occupied-on_all f h.workers in
    record {
      sized = c.1 ∙ s.sized;
      counted = s.counted ∙ sym c.0;
      apart = Fewer-Apart _ h.workers (on_all-Fewer f h.workers k) s.apart;
    }

pub stop_thread-Keeps : Keeps stop_thread
unfolding Keeps stop_thread Serves
stop_thread-Keeps w address port pos = elim (Bool-cases w.running) [
  | inl e ↦ rw e (λ k. k)
  | inr e ↦ elim (Bool-cases w.spawning) [ inl f ↦ rw (e, f) (λ k. k) | inr f ↦ rw (e, f) (λ k. k) ]
]

pub set_buffer_queue_length-Keeps : (queue : ℕ) → Keeps (set_buffer_queue_length queue)
unfolding Keeps set_buffer_queue_length Serves
set_buffer_queue_length-Keeps queue w address port pos =
    elim (Bool-cases (not w.has_jack_trip || w.worker_queue_length == queue)) [
      | inl e ↦ rw e (λ k. k)
      | inr e ↦ rw e (λ k. k)
    ]

pub set_jack_trip-Keeps :
    (id : ℕ) (address : List ℕ) (server : ℕ) → Keeps (set_jack_trip id address server 0)
unfolding Keeps Serves set_jack_trip
set_jack_trip-Keeps id address server w a port pos k = absurd (omega (arith, pos, k.2))

pub establish-Keeps : (h : Hub) (address name : List ℕ) → Keeps (establish h address name)
unfolding Keeps Serves set_jack_trip establish
establish-Keeps h address name w a port pos k = absurd (omega (arith, pos, k.2))

pub stop_spawning-Keeps : Keeps stop_spawning
unfolding Keeps Serves stop_spawning
stop_spawning-Keeps v a p pos k = k

pub stop_running-Keeps : Keeps stop_running
unfolding Keeps Serves stop_running
stop_running-Keeps v a p pos k = k

pub add_sleep_time-Keeps : Keeps add_sleep_time
unfolding Keeps Serves add_sleep_time
add_sleep_time-Keeps v a p pos k = k

pub start_process-Keeps : Keeps start_process
unfolding Keeps Serves start_process
start_process-Keeps v a p pos k = k
