-- ===== src/Thread/Scheduled/Life.antt =====
-- How an object of `scheduled` (framework/threads/scheduled.cpp) ends.
use Prim.Native.String.{String}
use strange_io.Common.{
  ◌≡◌, ◌⊎◌, inl, inr, refl, ap, ◌∙◌, subst, Bool, true, false, Option, none, some, if◌then◌else◌,
  some_inj,
}
use strange_io.Thread.Scheduled.{
  SchedDesc, ThreadPoint, absent, starting, running, ended, Scheduled, new_scheduled,
  start_scheduled, begin_thread, finish_thread, join_thread, assign_scheduled, end_scheduled,
  ScheduledStep, starts, begins, finishes, joins,
}

-- The flags that go with a point.
abbrev flag_at : ThreadPoint → Bool
flag_at absent = false
flag_at starting = false
flag_at running = true
flag_at ended = false

abbrev handle_at : ThreadPoint → Bool
handle_at absent = false
handle_at starting = true
handle_at running = true
handle_at ended = true

pub record Flagged (s : Scheduled) : Type 0 where
  pub says : s.active ≡ flag_at s.point
  pub has : s.joinable ≡ handle_at s.point

pub data ScheduledReached (desc : SchedDesc) (system : String) : Scheduled → Type 0 where
  made : ScheduledReached desc system (new_scheduled desc system)
  went :
      (s s' : Scheduled)
      → ScheduledReached desc system s
      → ScheduledStep s s'
      → ScheduledReached desc system s'

start_cases :
    (a j : Bool) (s t s' : Scheduled)
    → (if a then some s else if j then none else some t) ≡ some s'
    → (s ≡ s') ⊎ ((a ≡ false) × (t ≡ s'))
start_cases true j s t s' e = inl (some_inj e)
start_cases false true s t s' e = cc
start_cases false false s t s' e = inr (refl, some_inj e)

join_case : (j : Bool) (t s' : Scheduled) → (if j then some t else none) ≡ some s' → t ≡ s'
join_case true t s' e = some_inj e
join_case false t s' e = cc

start_scheduled-Flagged : (s s' : Scheduled) → Flagged s → start_scheduled s ≡ some s' → Flagged s'
unfolding start_scheduled
start_scheduled-Flagged s s' f e = elim (start_cases s.active s.joinable s _ s' e) [
  | inl same ↦ subst Flagged same f
  | inr (off, same) ↦ subst Flagged same (record { says = off; has = refl })
]

join_thread-Flagged :
    (s s' : Scheduled) → Flagged s → s.point ≡ ended → join_thread s ≡ some s' → Flagged s'
unfolding join_thread
join_thread-Flagged s s' f at e =
    subst Flagged (join_case s.joinable _ s' e)
      (record { says = f.says ∙ ap flag_at at; has = refl })

ScheduledStep-Flagged : (s s' : Scheduled) → Flagged s → ScheduledStep s s' → Flagged s'
unfolding begin_thread finish_thread
ScheduledStep-Flagged s s' f (starts s'' e) = start_scheduled-Flagged s s'' f e
ScheduledStep-Flagged s s' f (begins id at) = record { says = refl; has = f.has ∙ ap handle_at at }
ScheduledStep-Flagged s s' f (finishes at) = record { says = refl; has = f.has ∙ ap handle_at at }
ScheduledStep-Flagged s s' f (joins s'' at e) = join_thread-Flagged s s'' f at e

ScheduledReached-Flagged :
    (desc : SchedDesc) (system : String) (s : Scheduled)
    → ScheduledReached desc system s
    → Flagged s
unfolding new_scheduled
ScheduledReached-Flagged desc system s made = record { says = refl; has = refl }
ScheduledReached-Flagged desc system s (went p q r step) =
    ScheduledStep-Flagged p q (ScheduledReached-Flagged desc system p r) step

-- How an object ends whose thread is at a point, and how one ends that was assigned to another.
abbrev pub ending : ThreadPoint → Option Bool
ending absent = some false
ending starting = none
ending running = some true
ending ended = none

abbrev pub ending_moved : ThreadPoint → Option Bool
ending_moved absent = some false
ending_moved starting = some false
ending_moved running = none
ending_moved ended = some false

end_flags : Bool → Bool → Option Bool
end_flags active joinable =
    if active
    then (if joinable then some true else none)
    else (if joinable then none else some false)

ending_lem : (pt : ThreadPoint) → end_flags (flag_at pt) (handle_at pt) ≡ ending pt
unfolding end_flags
ending_lem absent = refl
ending_lem starting = refl
ending_lem running = refl
ending_lem ended = refl

ending_moved_lem : (pt : ThreadPoint) → end_flags (flag_at pt) false ≡ ending_moved pt
unfolding end_flags
ending_moved_lem absent = refl
ending_moved_lem starting = refl
ending_moved_lem running = refl
ending_moved_lem ended = refl

-- An object that starts, runs and joins its thread in any order ends without harm only where it has
-- no thread or the thread is in its function, which is then joined: before the function begins and
-- after it has ended the end of the object terminates the program. Where it was assigned to a new
-- object while the thread was in its function, what is left of it terminates the program when it
-- ends, and at every other point it does not.
pub end_scheduled-ending :
    (desc desc' : SchedDesc) (system system' : String) (s : Scheduled)
    → ScheduledReached desc system s
    → (end_scheduled s ≡ ending s.point)
      × (end_scheduled (assign_scheduled (new_scheduled desc' system') s).1 ≡ ending_moved s.point)
unfolding end_scheduled assign_scheduled new_scheduled end_flags
end_scheduled-ending desc desc' system system' s reached =
    let f = ScheduledReached-Flagged desc system s reached in
    (
      (λ i. end_flags (f.says i) (f.has i)) ∙ ending_lem s.point,
      ap (λ b. end_flags b false) f.says ∙ ending_moved_lem s.point,
    )
