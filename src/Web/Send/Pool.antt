-- ===== src/Web/Send/Pool.antt =====
-- src/webtransport/WebTransportDataProtocol.cpp: `acquirePoolBuffer` finds a free buffer if there is one.
use mathlib.Core.Option.{none-ne-some, some-injective}
use mathlib.Core.Path.{subst}
use jacktrip.Web.Send.{buffer_pool_size, acquire_from}
use jacktrip.Base.{
  Bool, Bool-cases, List, arith, false, get_or, if◌then◌else◌, inl, inr, none, some, suc, sym, true,
  zero, ℕ, ℕ_discrete, ◌%◌, ◌+◌, ◌-◌, ◌<◌, ◌≡◌, ◌≤◌,
}

pub acquire_from_free :
    (rounds i start : ℕ) (in_use : List Bool) (index : ℕ)
    → acquire_from rounds i start in_use ≡ some index
    → (index < buffer_pool_size) × (get_or in_use index true ≡ false)
unfolding acquire_from
acquire_from_free zero i start in_use index e = absurd (none-ne-some index e)
acquire_from_free (suc rounds) i start in_use index e =
    elim (Bool-cases (get_or in_use ((start + i) % buffer_pool_size) true)) [
      | inl p ↦ acquire_from_free rounds (i + 1) start in_use index (
          subst
            (λ b.
              (if b
                then acquire_from rounds (i + 1) start in_use
                else some ((start + i) % buffer_pool_size))
              ≡ some index)
            p e)
      | inr p ↦
          let q = some-injective ((start + i) % buffer_pool_size) index (
            subst
              (λ b.
                (if b
                  then acquire_from rounds (i + 1) start in_use
                  else some ((start + i) % buffer_pool_size))
                ≡ some index)
              p e) in
          (omega (arith, q), rw (sym q) p)
    ]

acquire_from_full :
    (rounds i start : ℕ) (in_use : List Bool) (j : ℕ)
    → acquire_from rounds i start in_use ≡ none
    → i ≤ j
    → j < i + rounds
    → get_or in_use ((start + j) % buffer_pool_size) true ≡ true
unfolding acquire_from
acquire_from_full zero i start in_use j e l h = absurd (omega (arith, l, h))
acquire_from_full (suc rounds) i start in_use j e l h =
    elim (Bool-cases (get_or in_use ((start + i) % buffer_pool_size) true)) [
      | inl p ↦ elim (ℕ_discrete i j) [
        | yes q ↦ rw (sym q) p
        | no q ↦
            acquire_from_full rounds (i + 1) start in_use j
              (subst
                (λ b.
                  (if b
                    then acquire_from rounds (i + 1) start in_use
                    else some ((start + i) % buffer_pool_size))
                  ≡ none)
                p e)
              (omega (arith, l, q)) (omega (arith, h))
      ]
      | inr p ↦ absurd (
          none-ne-some ((start + i) % buffer_pool_size) (
            sym (
              subst
                (λ b.
                  (if b
                    then acquire_from rounds (i + 1) start in_use
                    else some ((start + i) % buffer_pool_size))
                  ≡ none)
                p e)))
    ]

-- No buffer is found only if all are in use.
pub acquire_from-none :
    (start : ℕ) (in_use : List Bool) (k : ℕ)
    → acquire_from buffer_pool_size 0 start in_use ≡ none
    → k < buffer_pool_size
    → get_or in_use k true ≡ true
acquire_from-none start in_use k e l =
    let j = (k + (buffer_pool_size - start % buffer_pool_size)) % buffer_pool_size in
    let place : (start + j) % buffer_pool_size ≡ k = omega (arith, l) in
    rw (sym place)
      (acquire_from_full buffer_pool_size 0 start in_use j e (omega arith) (omega arith))
