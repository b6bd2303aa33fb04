-- ===== src/Midi/Device/Rounds.antt =====
-- The thread of a device (framework/midi/device.cpp) against its messages.
use strange_io.Common.{
  ◌≡◌, refl, not, none, some, List, [], ◌∷◌, ◌==◌, if◌then◌else◌, Bool-cases, inl, inr,
}
use strange_io.Common.Int.{pos}
use strange_io.Midi.Device.{Msg, Device, Round, find_code, call_bound, cycle_device}

-- The messages before the first one whose function is 0.
abbrev pub heard : List Msg → List Msg
heard [] = []
heard (m ∷ ms) = let rest = heard ms in if m.f == 0 then [] else m ∷ rest

-- The messages of the rounds before `m_running` is seen to be false.
abbrev pub unstopped : List Round → List Msg
unstopped [] = []
unstopped (r ∷ rounds) =
    let rest = unstopped rounds in
    if not r.running then [] else if not r.running_after then [] else r.code ∷ rest

module _ {C : Type 0} where
  -- What a list of messages calls.
  abbrev pub calls_of : Device C → List Msg → List (C × Msg)
  calls_of d [] = []
  calls_of d (m ∷ ms) = elim (find_code (pos m.n) d.bindings) [
    | none ↦ calls_of d ms
    | some func ↦ (func, m) ∷ calls_of d ms
  ]

  -- A device calls what its messages are bound to, in order: the messages of the rounds before it
  -- is stopped, up to the first one whose function is 0. `flush` gives such a message for a read
  -- error and where there is nothing to read, and the thread ends with it.
  pub cycle_device-heard :
      (d : Device C) (rounds : List Round)
      → cycle_device d rounds ≡ calls_of d (heard (unstopped rounds))
  unfolding cycle_device call_bound
  cycle_device-heard d [] = refl
  cycle_device-heard d (r ∷ rounds) = elim (Bool-cases r.running) [
    | inr off ↦ rw off
    | inl on ↦ elim (Bool-cases r.running_after) [
      | inr off ↦ rw (on, off)
      | inl still ↦ elim (Bool-cases (r.code.f == 0)) [
        | inl e ↦ rw (on, still, e)
        | inr e ↦ rw (on, still, e, cycle_device-heard d rounds)
      ]
    ]
  ]
