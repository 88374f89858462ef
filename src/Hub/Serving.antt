-- ===== src/Hub/Serving.antt =====
-- Whom the workers serve: a client is an address with a port, and has one worker at most.
use mathlib.Core.Path.{subst}
use mathlib.Core.Option.{none-ne-some}
use jacktrip.Hub.{Worker, remove_duplicates, on_all}
use jacktrip.Base.{
  Bool-cases, List, Option, [], ap, arith, false, get_or, get_or-set_ne, inl, inr, none,
  same_string, same_string_refl, set, some, suc, sym, true, zero, ℕ, ℕ_discrete, ◌&&◌, ◌<◌, ◌==◌,
  ◌∙◌, ◌∷◌, ◌≡◌, ◌≢◌,
}

-- The worker in a slot serves the client.
unfoldable pub Serves : List ℕ → ℕ → Option Worker → Type 0
Serves address port none = ⊥
Serves address port (some w) =
    (w.has_jack_trip ≡ true) × (w.client_address ≡ address) × (w.client_port ≡ port)

-- A port of 0 stands for a client that has not yet sent a packet.
unfoldable pub Apart : List (Option Worker) → Type 0
Apart ws =
    (address : List ℕ) (port i j : ℕ)
    → 0 < port
    → Serves address port (get_or ws i none)
    → Serves address port (get_or ws j none)
    → i ≡ j

-- Slot for slot, a client is served in the first only where it is in the second.
abbrev pub Fewer : List (Option Worker) → List (Option Worker) → Type 0
Fewer vs ws =
    (address : List ℕ) (port j : ℕ)
    → 0 < port
    → Serves address port (get_or vs j none)
    → Serves address port (get_or ws j none)

pub Fewer-Apart : (vs ws : List (Option Worker)) → Fewer vs ws → Apart ws → Apart vs
unfolding Apart
Fewer-Apart vs ws f a address port i j pos x y =
    a address port i j pos (f address port i pos x) (f address port j pos y)

pub set-Fewer :
    (ws : List (Option Worker)) (i : ℕ) (o : Option Worker)
    → ((address : List ℕ) (port : ℕ)
        → 0 < port
        → Serves address port o
        → Serves address port (get_or ws i none))
    → Fewer (set ws i o) ws
set-Fewer [] i o f address port j pos x = x
set-Fewer (w ∷ ws) zero o f address port zero pos x = f address port pos x
set-Fewer (w ∷ ws) zero o f address port (suc j) pos x = x
set-Fewer (w ∷ ws) (suc i) o f address port zero pos x = x
set-Fewer (w ∷ ws) (suc i) o f address port (suc j) pos x = set-Fewer ws i o f address port j pos x

pub remove_duplicates-Fewer :
    (a : List ℕ) (p : ℕ) (ws : List (Option Worker)) → Fewer (remove_duplicates a p ws).0 ws
unfolding remove_duplicates Serves
remove_duplicates-Fewer a p [] address port j pos = λ x. x
remove_duplicates-Fewer a p (none ∷ ws) address port zero pos = λ x. x
remove_duplicates-Fewer a p (none ∷ ws) address port (suc j) pos =
    remove_duplicates-Fewer a p ws address port j pos
remove_duplicates-Fewer a p (some w ∷ ws) address port zero pos =
    elim (Bool-cases (same_string a w.client_address && p == w.client_port)) [
      | inl e ↦ rw e (λ x. absurd x)
      | inr e ↦ rw e (λ x. x)
    ]
remove_duplicates-Fewer a p (some w ∷ ws) address port (suc j) pos =
    let later = remove_duplicates-Fewer a p ws address port j pos in
    elim (Bool-cases (same_string a w.client_address && p == w.client_port)) [
      | inl e ↦ rw e later
      | inr e ↦ rw e later
    ]

pub remove_duplicates_same :
    (a : List ℕ) (p : ℕ) (ws : List (Option Worker)) (j : ℕ) (v : Worker)
    → get_or (remove_duplicates a p ws).0 j none ≡ some v
    → get_or ws j none ≡ some v
unfolding remove_duplicates
remove_duplicates_same a p [] j v = λ x. x
remove_duplicates_same a p (none ∷ ws) zero v = λ x. x
remove_duplicates_same a p (none ∷ ws) (suc j) v = remove_duplicates_same a p ws j v
remove_duplicates_same a p (some w ∷ ws) zero v =
    elim (Bool-cases (same_string a w.client_address && p == w.client_port)) [
      | inl e ↦ rw e (λ x. absurd (none-ne-some v x))
      | inr e ↦ rw e (λ x. x)
    ]
remove_duplicates_same a p (some w ∷ ws) (suc j) v =
    let later = remove_duplicates_same a p ws j v in
    elim (Bool-cases (same_string a w.client_address && p == w.client_port)) [
      | inl e ↦ rw e later
      | inr e ↦ rw e later
    ]

-- No worker is left that serves the client.
pub remove_duplicates_gone :
    (a : List ℕ) (p : ℕ) (ws : List (Option Worker)) (j : ℕ)
    → ¬ (Serves a p (get_or (remove_duplicates a p ws).0 j none))
unfolding remove_duplicates Serves
remove_duplicates_gone a p [] j = λ x. x
remove_duplicates_gone a p (none ∷ ws) zero = λ x. x
remove_duplicates_gone a p (none ∷ ws) (suc j) = remove_duplicates_gone a p ws j
remove_duplicates_gone a p (some w ∷ ws) zero =
    elim (Bool-cases (same_string a w.client_address && p == w.client_port)) [
      | inl e ↦ rw e (λ x. x)
      | inr e ↦ rw e (λ x. differs w e x.1 x.2)
    ]
  where
    differs :
        (w : Worker)
        → (same_string a w.client_address && p == w.client_port) ≡ false
        → w.client_address ≡ a
        → w.client_port ≡ p
        → ⊥
    differs w e x y =
        let same : same_string a w.client_address ≡ true =
          ap (same_string a) x ∙ same_string_refl a in
        ground (arith, e, same, y)
remove_duplicates_gone a p (some w ∷ ws) (suc j) =
    let later = remove_duplicates_gone a p ws j in
    elim (Bool-cases (same_string a w.client_address && p == w.client_port)) [
      | inl e ↦ rw e later
      | inr e ↦ rw e later
    ]

pub on_all-Fewer :
    (f : Worker → Worker) (ws : List (Option Worker))
    → ((w : Worker) (address : List ℕ) (port : ℕ)
        → 0 < port
        → Serves address port (some (f w))
        → Serves address port (some w))
    → Fewer (on_all f ws) ws
unfolding on_all
on_all-Fewer f [] k address port j pos x = x
on_all-Fewer f (none ∷ ws) k address port zero pos x = x
on_all-Fewer f (none ∷ ws) k address port (suc j) pos x = on_all-Fewer f ws k address port j pos x
on_all-Fewer f (some w ∷ ws) k address port zero pos x = k w address port pos x
on_all-Fewer f (some w ∷ ws) k address port (suc j) pos x = on_all-Fewer f ws k address port j pos x

set_same_slot :
    (ws : List (Option Worker)) (i : ℕ) (w : Worker) (address : List ℕ) (port : ℕ)
    → Serves address port (get_or (set ws i (some w)) i none)
    → (w.client_address ≡ address) × (w.client_port ≡ port)
unfolding Serves
set_same_slot [] i w address port x = absurd x
set_same_slot (v ∷ ws) zero w address port x = (x.1, x.2)
set_same_slot (v ∷ ws) (suc i) w address port x = set_same_slot ws i w address port x

-- A worker may come to serve a client whom no other serves.
pub set-Apart :
    (ws : List (Option Worker)) (i : ℕ) (w : Worker)
    → ((j : ℕ) → ¬ (Serves w.client_address w.client_port (get_or ws j none)))
    → Apart ws
    → Apart (set ws i (some w))
unfolding Apart
set-Apart ws i w alone a address port j k pos x y = elim (ℕ_discrete j i) [
  | yes p ↦ elim (ℕ_discrete k i) [ yes q ↦ p ∙ sym q | no q ↦ absurd (clash j k p q x y) ]
  | no p ↦ elim (ℕ_discrete k i) [
    | yes q ↦ absurd (clash k j q p y x)
    | no q ↦ a address port j k pos (other j p x) (other k q y)
  ]
]
  where
    other :
        (j : ℕ)
        → j ≢ i
        → Serves address port (get_or (set ws i (some w)) j none)
        → Serves address port (get_or ws j none)
    other j p x =
        subst (Serves address port) (get_or-set_ne ws i j (some w) none (λ e. p (sym e))) x

    clash :
        (j k : ℕ)
        → j ≡ i
        → k ≢ i
        → Serves address port (get_or (set ws i (some w)) j none)
        → Serves address port (get_or (set ws i (some w)) k none)
        → ⊥
    clash j k p q x y =
        let it =
          set_same_slot ws i w address port
            (subst (λ n. Serves address port (get_or (set ws i (some w)) n none)) p x) in
        alone k (
          subst (λ b. Serves w.client_address b (get_or ws k none)) (sym it.1)
            (subst (λ b. Serves b port (get_or ws k none)) (sym it.0) (other k q y)))
