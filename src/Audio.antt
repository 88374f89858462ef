-- ===== src/Audio.antt =====
-- src/AudioInterface.cpp: the codes of sampling rates that headers carry, `getSampleRateType` and
-- `getSampleRateFromType`. Rates are not negative.
pub mod Rates
use jacktrip.Base.{Bool, if◌then◌else◌, leb, ltb, ℕ, ◌-◌}

-- samplingRateT
pub data SamplingRateT : Type 0 where
  sr22 : SamplingRateT
  sr32 : SamplingRateT
  sr44 : SamplingRateT
  sr48 : SamplingRateT
  sr88 : SamplingRateT
  sr96 : SamplingRateT
  sr192 : SamplingRateT
  undef : SamplingRateT

-- `100 > qAbs(rate - target)`
abbrev pub near : ℕ → ℕ → Bool
near rate target = ltb (if leb target rate then rate - target else target - rate) 100

pub get_sample_rate_type : ℕ → SamplingRateT
get_sample_rate_type rate =
    if near rate 22050
    then sr22
    else if near rate 32000
    then sr32
    else if near rate 44100
    then sr44
    else if near rate 48000
    then sr48
    else if near rate 88200
    then sr88
    else if near rate 96000
    then sr96
    else if near rate 19200
    then sr192
    else undef

pub get_sample_rate_from_type : SamplingRateT → ℕ
get_sample_rate_from_type sr22 = 22050
get_sample_rate_from_type sr32 = 32000
get_sample_rate_from_type sr44 = 44100
get_sample_rate_from_type sr48 = 48000
get_sample_rate_from_type sr88 = 88200
get_sample_rate_from_type sr96 = 96000
get_sample_rate_from_type sr192 = 192000
get_sample_rate_from_type undef = 0
