-- ===== src/Component/Linkable/Tests.antt =====
-- Two units, the first with an output and the second with an input.
use strange_io.Common.{
  ℕ, ◌≤◌, ◌<◌, ◌≡◌, ◌⊎◌, refl, Bool, true, false, Option, none, some, [], ◌∷◌, get_elem?,
}
use strange_io.Component.Linkable.{LinkIn, LinkOut, Ports, Links, connect, disconnect, route_out}
use strange_io.Component.Linkable.Routes.{route_out-connect, disconnect-cases}

abbrev out_port : Bool → Option (ℕ × ℕ) → LinkOut
out_port connected to = record { label = "audio"; id = 0; to = to; connected = connected }

abbrev in_port : Bool → LinkIn
in_port connected = record { label = "in"; id = 0; connected = connected }

abbrev wired : Bool → Option (ℕ × ℕ) → Links
wired connected to =
    record { inputs = []; num_inputs = 0; outputs = out_port connected to ∷ []; num_outputs = 1 }
    ∷ record { inputs = in_port connected ∷ []; num_inputs = 1; outputs = []; num_outputs = 0 }
    ∷ []

connect_first : connect 0 0 (some (1, 0)) (wired false none) ≡ some (true, wired true (some (1, 0)))
unfolding connect
connect_first = refl

-- A unit without inputs cannot disconnect its outputs.
disconnect_first : disconnect 0 0 (wired true (some (1, 0))) ≡ some (wired true (some (1, 0)))
unfolding disconnect
disconnect_first = refl

route_out-connect_example :
    (p : Ports) × (get_elem? (wired true (some (1, 0))) 0 ≡ some p)
    × (route_out 0 p ≡ some (some (1, 0)))
route_out-connect_example =
    route_out-connect 0 0 (1, 0) (wired false none) (wired true (some (1, 0))) connect_first

disconnect-cases_example :
    ((0 ≤ 0) × (wired true (some (1, 0)) ≡ wired true (some (1, 0))))
    ⊎ ((0 < 0)
        × (p' : Ports) × (get_elem? (wired true (some (1, 0))) 0 ≡ some p')
        × (route_out 0 p' ≡ some none))
disconnect-cases_example =
    disconnect-cases 0 0 (wired true (some (1, 0))) (wired true (some (1, 0))) _ refl
      disconnect_first
