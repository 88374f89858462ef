-- ===== src/Header/Settings.antt =====
-- When `checkPeerSettings` finds the settings of two peers to agree.
use jacktrip.Base.{Bool, [], arith, refl, true, ℕ, ◌==◌, ◌↔◌, ◌≡◌}
use jacktrip.Header.{DefaultHeaderStruct, check_peer_settings}

test_sym : (a b : ℕ) → (a == b) ≡ (b == a)
test_sym a b = ground arith

-- The check finds nothing exactly if the sampling rates and the resolutions are equal and, where the
-- buffer sizes must be, they are too; and two peers that make the same demand find the same
-- differences, whichever of them checks.
check_peer_settings_iff :
    (same : Bool) (own peer : DefaultHeaderStruct)
    → ((check_peer_settings same own peer ≡ []) ↔ (
        (own.sampling_rate ≡ peer.sampling_rate)
        × (own.bit_resolution ≡ peer.bit_resolution)
        × (same ≡ true → own.buffer_size ≡ peer.buffer_size)))
      × (check_peer_settings same own peer ≡ check_peer_settings same peer own)
unfolding check_peer_settings
check_peer_settings_iff same own peer = (
  ((λ e. ground arith), (λ k. ground arith)),
  rw
      (
        test_sym own.buffer_size peer.buffer_size,
        test_sym own.sampling_rate peer.sampling_rate,
        test_sym own.bit_resolution peer.bit_resolution,
      )
      refl,
)
