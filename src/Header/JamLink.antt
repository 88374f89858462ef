-- ===== src/Header/JamLink.antt =====
-- What `JamLinkHeader::fillHeaderCommonFromAudio` puts in the header and complains about.
use jacktrip.Base.{[], arith, refl, ℕ, ◌%◌, ◌/◌, ◌^◌, ◌↔◌, ◌≡◌}
use jacktrip.Audio.{SamplingRateT, sr22, sr32, sr44, sr48, sr88, sr96, sr192, undef}
use jacktrip.Header.{Audio, jam_link_rate, not_sr48, jam_link_fill}

-- The code of a rate in the bits 9 to 11 of the field: 48, 44, 32, 24, 22, 16, 11 and 8 kHz are
-- numbered from 0.
abbrev pub rate_code : SamplingRateT → ℕ
rate_code sr44 = 1
rate_code sr32 = 2
rate_code sr22 = 4
rate_code t = 0

fields :
    (t : SamplingRateT)
    → ((jam_link_rate t).0 / 2 ^ 9 % 8 ≡ rate_code t)
      × ((jam_link_rate t).0 % 2 ^ 9 ≡ 64)
      × ((jam_link_rate t).0 / 2 ^ 12 ≡ 4)
unfolding jam_link_rate
fields sr22 = (refl, refl, refl)
fields sr32 = (refl, refl, refl)
fields sr44 = (refl, refl, refl)
fields sr48 = (refl, refl, refl)
fields sr88 = (refl, refl, refl)
fields sr96 = (refl, refl, refl)
fields sr192 = (refl, refl, refl)
fields undef = (refl, refl, refl)

-- Nothing to complain about.
silent :
    (a : Audio) (t : SamplingRateT)
    → (jam_link_fill a t).1 ≡ []
    → (a.num_input_channels ≡ 1) × (t ≡ sr48) × (a.buffer_size_in_samples ≡ 64)
unfolding jam_link_fill not_sr48 jam_link_rate
silent a sr48 e = (ground arith, refl, ground arith)
silent a sr22 e = absurd (ground arith)
silent a sr32 e = absurd (ground arith)
silent a sr44 e = absurd (ground arith)
silent a sr88 e = absurd (ground arith)
silent a sr96 e = absurd (ground arith)
silent a sr192 e = absurd (ground arith)
silent a undef e = absurd (ground arith)

agreed :
    (a : Audio) (t : SamplingRateT)
    → (a.num_input_channels ≡ 1) × (t ≡ sr48) × (a.buffer_size_in_samples ≡ 64)
    → (jam_link_fill a t).1 ≡ []
unfolding jam_link_fill not_sr48 jam_link_rate
agreed a t (one, rate, size) = rw (one, rate, size) refl

-- The field has 64 in its low 9 bits, the code of the rate in the next 3 and the bits of a mono
-- stream of 16 bits with an extended header above; no error is signalled exactly for one input at
-- 48 kHz with a buffer of 64 samples.
jam_link_fill_iff :
    (a : Audio) (t : SamplingRateT)
    → ((jam_link_fill a t).0 / 2 ^ 9 % 8 ≡ rate_code t)
      × ((jam_link_fill a t).0 % 2 ^ 9 ≡ 64)
      × ((jam_link_fill a t).0 / 2 ^ 12 ≡ 4)
      × (((jam_link_fill a t).1 ≡ [])
          ↔ ((a.num_input_channels ≡ 1) × (t ≡ sr48) × (a.buffer_size_in_samples ≡ 64)))
jam_link_fill_iff a t =
    let f = fields t in
    (
      unfold jam_link_fill in f.0,
      unfold jam_link_fill in f.1,
      unfold jam_link_fill in f.2,
      (silent a t, agreed a t),
    )
