-- ===== src/Hub/Slots.antt =====
-- The slots of the workers: how many are taken, and whom their workers serve.
use mathlib.Core.Path.{subst}
use mathlib.Core.Option.{none-ne-some, some-injective}
use jacktrip.Hub.{Worker, first_empty, remove_duplicates, on_all}
use jacktrip.Base.{
  Bool-cases, List, Option, [], ap, arith, get_elem?, get_or, inl, inr, length, none, refl,
  same_string, set, some, suc, sym, take, zero, ℕ, ◌&&◌, ◌+◌, ◌-◌, ◌<◌, ◌==◌, ◌∷◌, ◌≡◌, ◌≤◌,
}

unfoldable pub occupied : List (Option Worker) → ℕ
occupied [] = 0
occupied (none ∷ ws) = occupied ws
occupied (some w ∷ ws) = 1 + occupied ws

-- The slot `k` is the first that is empty.
pub record FirstEmpty (ws : List (Option Worker)) (k : ℕ) : Type 0 where
  pub within : k < length ws
  pub empty : get_elem? ws k ≡ some none
  pub before : occupied (take k ws) ≡ k

first_empty_found :
    (i : ℕ) (ws : List (Option Worker)) (id : ℕ)
    → first_empty i ws ≡ some id
    → (i ≤ id) × FirstEmpty ws (id - i)
unfolding first_empty occupied
first_empty_found i [] id e = absurd (none-ne-some id e)
first_empty_found i (none ∷ ws) id e =
    let same : i ≡ id = some-injective i id e in
    let start : id - i ≡ 0 = omega (arith, same) in
    (omega (arith, same), rw start (record { within = omega arith; empty = refl; before = refl }))
first_empty_found i (some w ∷ ws) id e =
    let later = first_empty_found (i + 1) ws id e in
    let next : id - i ≡ suc (id - (i + 1)) = omega (arith, later.0) in
    (
      omega (arith, later.0),
      rw next (record {
        within = omega (arith, later.1.within);
        empty = later.1.empty;
        before = omega (arith, later.1.before);
      }),
    )

pub first_empty-FirstEmpty :
    (ws : List (Option Worker)) (id : ℕ) → first_empty 0 ws ≡ some id → FirstEmpty ws id
first_empty-FirstEmpty ws id e =
    let start : id - 0 ≡ id = omega arith in
    subst (FirstEmpty ws) start (first_empty_found 0 ws id e).1

pub first_empty_full :
    (i : ℕ) (ws : List (Option Worker)) → first_empty i ws ≡ none → occupied ws ≡ length ws
unfolding first_empty occupied
first_empty_full i [] e = refl
first_empty_full i (none ∷ ws) e = absurd (none-ne-some i (sym e))
first_empty_full i (some w ∷ ws) e = omega (arith, first_empty_full (i + 1) ws e)

-- What a write to a slot does to the number of workers.
pub occupied_fill :
    (ws : List (Option Worker)) (i : ℕ) (w : Worker)
    → get_elem? ws i ≡ some none
    → occupied (set ws i (some w)) ≡ occupied ws + 1
unfolding occupied
occupied_fill [] i w e = absurd (none-ne-some none e)
occupied_fill (none ∷ ws) zero w e = omega arith
occupied_fill (some v ∷ ws) zero w e =
    absurd (none-ne-some v (sym (some-injective (some v) none e)))
occupied_fill (none ∷ ws) (suc i) w e = occupied_fill ws i w e
occupied_fill (some v ∷ ws) (suc i) w e = omega (arith, occupied_fill ws i w e)

pub occupied_change :
    (ws : List (Option Worker)) (i : ℕ) (v w : Worker)
    → get_or ws i none ≡ some v
    → occupied (set ws i (some w)) ≡ occupied ws
unfolding occupied
occupied_change [] i v w e = absurd (none-ne-some v e)
occupied_change (none ∷ ws) zero v w e = absurd (none-ne-some v e)
occupied_change (some u ∷ ws) zero v w e = refl
occupied_change (none ∷ ws) (suc i) v w e = occupied_change ws i v w e
occupied_change (some u ∷ ws) (suc i) v w e = omega (arith, occupied_change ws i v w e)

pub occupied_clear :
    (ws : List (Option Worker)) (i : ℕ) (v : Worker)
    → get_or ws i none ≡ some v
    → occupied (set ws i none) + 1 ≡ occupied ws
unfolding occupied
occupied_clear [] i v e = absurd (none-ne-some v e)
occupied_clear (none ∷ ws) zero v e = absurd (none-ne-some v e)
occupied_clear (some u ∷ ws) zero v e = omega arith
occupied_clear (none ∷ ws) (suc i) v e = occupied_clear ws i v e
occupied_clear (some u ∷ ws) (suc i) v e = omega (arith, occupied_clear ws i v e)

pub occupied-remove_duplicates :
    (address : List ℕ) (port : ℕ) (ws : List (Option Worker))
    → (occupied (remove_duplicates address port ws).0 + (remove_duplicates address port ws).1
        ≡ occupied ws)
      × (length (remove_duplicates address port ws).0 ≡ length ws)
unfolding occupied remove_duplicates
occupied-remove_duplicates address port [] = (refl, refl)
occupied-remove_duplicates address port (none ∷ ws) =
    let r = occupied-remove_duplicates address port ws in (r.0, ap suc r.1)
occupied-remove_duplicates address port (some w ∷ ws) =
    let r = occupied-remove_duplicates address port ws in
    elim (Bool-cases (same_string address w.client_address && port == w.client_port)) [
      | inl e ↦ rw e (omega (arith, r.0), ap suc r.1)
      | inr e ↦ rw e (omega (arith, r.0), ap suc r.1)
    ]

pub occupied-on_all :
    (f : Worker → Worker) (ws : List (Option Worker))
    → (occupied (on_all f ws) ≡ occupied ws) × (length (on_all f ws) ≡ length ws)
unfolding occupied on_all
occupied-on_all f [] = (refl, refl)
occupied-on_all f (none ∷ ws) = let r = occupied-on_all f ws in (r.0, ap suc r.1)
occupied-on_all f (some w ∷ ws) = let r = occupied-on_all f ws in (ap (λ n. 1 + n) r.0, ap suc r.1)
