-- ===== src/Component/Profile.antt =====
-- framework/include/framework/component/component.hpp, and `register_metric` and
-- `apply_unit_profile` of unit.cpp: the profile that a sync carries down a line.
use strange_io.Common.{Bool, false, not, ◌&&◌, ◌||◌, if◌then◌else◌}
use strange_io.Component.LineState
use strange_io.Common.Int.{ℤ, pos, ◌+ℤ◌, ltb_ℤ, ◌==ℤ◌}

-- `float`, which is not modelled: the operations that the code uses.
pub record FloatOps (F : Type 0) : Type 0 where
  pub zero : F
  pub add : F → F → F
  pub mul : F → F → F
  pub negate : F → F
  pub nonzero : F → Bool
  pub positive : F → Bool
  pub negative : F → Bool
  pub percent : ℤ → F
  pub of_int : ℤ → F
  pub to_int : F → ℤ

pub data UnitType : Type 0 where
  mainline step combine split dispatch : UnitType

pub data ComponentState : Type 0 where
  inactive active : ComponentState

pub data CycleType : Type 0 where
  warmup sync ac : CycleType

pub data CycleState : Type 0 where
  complete partial error empty : CycleState

pub data Metric : Type 0 where
  latency channels period fs drift state bpm fill : Metric

-- `sync_flag`: the bits that `sync_flags` names.
pub record Flags : Type 0 where
  pub source : Bool
  pub sync_duration : Bool
  pub glob_sync : Bool
  pub upstream : Bool
  pub downstream : Bool

abbrev pub no_flags : Flags
no_flags = record {
  source = false;
  sync_duration = false;
  glob_sync = false;
  upstream = false;
  downstream = false;
}

-- `if(flags)`
abbrev pub any_flag : Flags → Bool
any_flag f = f.source || f.sync_duration || f.glob_sync || f.upstream || f.downstream

abbrev pub union_flags : Flags → Flags → Flags
union_flags f g = record {
  source = f.source || g.source;
  sync_duration = f.sync_duration || g.sync_duration;
  glob_sync = f.glob_sync || g.glob_sync;
  upstream = f.upstream || g.upstream;
  downstream = f.downstream || g.downstream;
}

pub record SyncProfile (F : Type 0) : Type 0 where
  pub latency : ℤ
  pub channels : ℤ
  pub period : ℤ
  pub fs : ℤ
  pub bpm : ℤ
  pub drift : F
  pub jumps : ℤ
  pub state : ℤ
  pub fill : ℤ

-- `x > 0`
abbrev pub positive : ℤ → Bool
positive n = ltb_ℤ (pos 0) n

module _ {F : Type 0} (ops : FloatOps F) where
  -- `sync_profile` of zeros.
  abbrev pub zero_profile : SyncProfile F
  zero_profile = record {
    latency = pos 0;
    channels = pos 0;
    period = pos 0;
    fs = pos 0;
    bpm = pos 0;
    drift = ops.zero;
    jumps = pos 0;
    state = pos 0;
    fill = pos 0;
  }

  -- `register_metric(profile_metric, int)`: the case of `bpm` has no `break`.
  unfoldable pub register_metric : Metric → ℤ → SyncProfile F → SyncProfile F
  register_metric latency n p = record p { latency = n }
  register_metric channels n p = record p { channels = n }
  register_metric period n p = record p { period = n }
  register_metric fs n p = record p { fs = n }
  register_metric drift n p = record p { drift = ops.percent n }
  register_metric state n p = record p { state = n }
  register_metric bpm n p = record p { bpm = n; fill = n }
  register_metric fill n p = record p { fill = n }

  -- `register_metric(profile_metric, float)`
  unfoldable pub register_metric_float : Metric → F → SyncProfile F → SyncProfile F
  register_metric_float latency x p = record p { latency = ops.to_int x }
  register_metric_float channels x p = record p { channels = ops.to_int x }
  register_metric_float period x p = record p { period = ops.to_int x }
  register_metric_float fs x p = record p { fs = ops.to_int x }
  register_metric_float drift x p = record p { drift = x }
  register_metric_float state x p = record p { state = ops.to_int x }
  register_metric_float bpm x p = record p { bpm = ops.to_int x }
  register_metric_float fill x p = record p { fill = ops.to_int x }

  -- The drift percentage: `own` is the unit's, `line` the profile's.
  unfoldable pub accumulate_drift : F → F → F
  accumulate_drift own line =
      if not (ops.nonzero own)
      then line
      else if ops.positive line
      then ops.add line (ops.mul line own)
      else if ops.negative line
      then ops.add line (ops.mul (ops.negate line) own)
      else own

  -- `apply_unit_profile`: `unit` is `m_unit_profile`.
  unfoldable pub apply_unit_profile : SyncProfile F → SyncProfile F → SyncProfile F
  apply_unit_profile unit profile = record {
    channels = if positive unit.channels then unit.channels else profile.channels;
    period =
        if positive unit.period && ltb_ℤ profile.period unit.period
        then unit.period
        else profile.period;
    fs = if positive unit.fs then unit.fs else profile.fs;
    bpm = if positive unit.bpm then unit.bpm else profile.bpm;
    fill = if positive unit.fill && ltb_ℤ profile.fill unit.fill then unit.fill else profile.fill;
    state = if unit.state ==ℤ LineState.flushing then unit.state else profile.state;
    jumps = profile.jumps +ℤ pos 1;
    drift = accumulate_drift unit.drift profile.drift;
    latency = profile.latency +ℤ unit.latency;
  }
