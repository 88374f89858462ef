-- ===== src/Audio/Rates.antt =====
-- How the codes of sampling rates and the rates correspond.
use jacktrip.Base.{arith, refl, ℕ, ◌<◌, ◌≡◌, ◌⊎◌}
use jacktrip.Audio.{
  SamplingRateT, sr22, sr32, sr44, sr48, sr88, sr96, sr192, undef, get_sample_rate_type,
  get_sample_rate_from_type,
}

-- What is left of a code that is turned into a rate and back.
abbrev pub kept : SamplingRateT → SamplingRateT
kept sr192 = undef
kept t = t

-- The rate of a code has that code again, except for `SR192`, whose rate of 192000 has the code
-- `UNDEF`; and a rate below 10000 or above 96099 has the code `UNDEF`, whatever it is.
get_sample_rate_type-from_type :
    (t : SamplingRateT) (rate : ℕ)
    → (rate < 10000) ⊎ (96099 < rate)
    → (get_sample_rate_type (get_sample_rate_from_type t) ≡ kept t)
      × (get_sample_rate_type rate ≡ undef)
unfolding get_sample_rate_type get_sample_rate_from_type
get_sample_rate_type-from_type t rate h = (round_trip t, ground arith)
  where
    round_trip : (u : SamplingRateT) → get_sample_rate_type (get_sample_rate_from_type u) ≡ kept u
    round_trip sr22 = refl
    round_trip sr32 = refl
    round_trip sr44 = refl
    round_trip sr48 = refl
    round_trip sr88 = refl
    round_trip sr96 = refl
    round_trip sr192 = refl
    round_trip undef = refl
