-- ===== src/Thread/Scheduled.antt =====
-- `scheduled` of framework/threads/scheduled.cpp: a thread with a scheduling policy. The object and
-- its thread are one state, since the thread writes `m_active` and `m_tid` of the object that
-- started it. `none` is a call of `std::terminate`.
pub mod Life
mod Tests
use Prim.Native.String.{String}
use strange_io.Common.{ℕ, ◌≡◌, Bool, true, false, not, Option, none, some, if◌then◌else◌}
use strange_io.Common.Int.{ℤ, pos, negsuc, ltb_ℤ}

pub record SchedDesc : Type 0 where
  pub policy : ℤ
  pub priority : ℤ
  pub cpu_affinity : ℤ

-- What `sched_getparam` gives: a priority, the error EINVAL, or another error.
pub data GetParam : Type 0 where
  param : ℤ → GetParam
  einval other_error : GetParam

-- The calls of the operating system on a thread; `K` is its state. `true` is success. The size of
-- the set of processors comes before the processor.
pub record SchedOs (K : Type 0) : Type 0 where
  pub sched_setaffinity : ℤ → ℕ → ℤ → K → Bool × K
  pub sched_setscheduler : ℤ → ℤ → ℤ → K → Bool × K
  pub sched_getparam : ℤ → K → GetParam
  pub sched_getscheduler : ℤ → K → ℤ

-- The thread that an object has started: none yet, or none since the last `join`; on its way to the
-- function; in it; at its end.
pub data ThreadPoint : Type 0 where
  absent starting running ended : ThreadPoint

pub record Scheduled : Type 0 where
  pub active : Bool
  pub joinable : Bool
  pub desc : SchedDesc
  pub system : String
  pub tid : ℤ
  pub point : ThreadPoint

unfoldable pub new_scheduled : SchedDesc → String → Scheduled
new_scheduled desc system = record {
  active = false;
  joinable = false;
  desc = desc;
  system = system;
  tid = negsuc 0;
  point = absent;
}

unfoldable pub local_policy : Scheduled → SchedDesc
local_policy s = s.desc

unfoldable pub set_system : String → Scheduled → Scheduled
set_system name s = record s { system = name }

-- A thread that is assigned over must not be joinable.
unfoldable pub start_scheduled : Scheduled → Option Scheduled
start_scheduled s =
    if s.active
    then some s
    else if s.joinable
    then none
    else some (record s { joinable = true; point = starting })

-- The thread up to its function, and after it.
unfoldable pub begin_thread : ℤ → Scheduled → Scheduled
begin_thread id s = record s { tid = id; active = true; point = running }

unfoldable pub finish_thread : Scheduled → Scheduled
finish_thread s = record s { active = false; point = ended }

-- `join`, past its wait; a thread that cannot be joined throws.
unfoldable pub join_thread : Scheduled → Option Scheduled
join_thread s = if s.joinable then some (record s { joinable = false; point = absent }) else none

-- `operator=(scheduled&&)`: the object assigned to and what is left of `that`; the handles change
-- places, and the flag of `that` stays. A thread under way still writes to `that`.
unfoldable pub assign_scheduled : Scheduled → Scheduled → Scheduled × Scheduled
assign_scheduled this that = (
  record this {
    joinable = that.joinable;
    desc = that.desc;
    active = that.active;
    system = that.system;
  },
  record that { joinable = this.joinable },
)

-- The destructor, with that of its handle: what leaves it by an exception ends the program, and so
-- does a thread that is joinable. `true`: it joins its thread.
unfoldable pub end_scheduled : Scheduled → Option Bool
end_scheduled s =
    if s.active
    then (if s.joinable then some true else none)
    else (if s.joinable then none else some false)

abbrev pub no_policy : SchedDesc
no_policy = record { policy = negsuc 0; priority = pos 0; cpu_affinity = pos 0 }

-- The end of `assigned_policy`.
unfoldable pub with_policy : ℤ → ℤ → SchedDesc
with_policy policy priority =
    if ltb_ℤ policy (pos 0)
    then no_policy
    else record no_policy { policy = policy; priority = priority }

module _ {K : Type 0} (os : SchedOs K) where
  -- `schedule`; `CPU_COUNT` of a set with one processor is 1.
  unfoldable pub schedule : Scheduled → K → K
  schedule s k =
      let k' =
        if ltb_ℤ s.desc.cpu_affinity (pos 0)
        then k
        else (os.sched_setaffinity s.tid 1 s.desc.cpu_affinity k).1 in
      (os.sched_setscheduler s.tid s.desc.policy s.desc.priority k').1

  -- `assigned_policy`; `stray` is what `param` holds where nothing has been read into it.
  unfoldable pub assigned_policy : ℤ → Scheduled → K → SchedDesc
  unfolding with_policy
  assigned_policy stray s k = elim (os.sched_getparam s.tid k) [
    | param priority ↦ with_policy (os.sched_getscheduler s.tid k) priority
    | einval ↦ with_policy (os.sched_getscheduler s.tid k) stray
    | other_error ↦ no_policy
  ]

-- What an object and its thread do.
pub data ScheduledStep (s : Scheduled) : Scheduled → Type 0 where
  starts : (s' : Scheduled) → start_scheduled s ≡ some s' → ScheduledStep s s'
  begins : (id : ℤ) → s.point ≡ starting → ScheduledStep s (begin_thread id s)
  finishes : s.point ≡ running → ScheduledStep s (finish_thread s)
  joins : (s' : Scheduled) → s.point ≡ ended → join_thread s ≡ some s' → ScheduledStep s s'
