-- ===== src/Component/LineState.antt =====
-- `line_state` of component.hpp, as the `int` that profiles carry.
use strange_io.Common.Int.{ℤ, pos}

abbrev pub inactive : ℤ
inactive = pos 0

abbrev pub active : ℤ
active = pos 1

abbrev pub flushing : ℤ
flushing = pos 2
