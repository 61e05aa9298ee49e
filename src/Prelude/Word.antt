-- ===== src/Prelude/Word.antt =====
-- Go's `int` and `int64`: a 64-bit pattern, written as the number below 2 ^ 64 that it is. The
-- pattern stands for a negative number from 2 ^ 63 on.
use Prim.Native.Nat.{ℕ, ◌+◌, ◌%◌, ◌^◌}
use mathlib.Core.Bool.{Bool, ◌&&◌}
use kite_mcp_eventsourcing.Prelude.Tests.{ltb}

abbrev pub Int64 : Type 0
Int64 = ℕ

-- `a + b`, with the wrap-around of the machine
abbrev pub add : Int64 → Int64 → Int64
add a b = (a + b) % 2 ^ 64

-- `0 < a`, of the signed number
abbrev pub is_positive : Int64 → Bool
is_positive a = ltb 0 a && ltb a (2 ^ 63)

-- `a < b`, of the signed numbers
abbrev pub signed_ltb : Int64 → Int64 → Bool
signed_ltb a b = ltb ((a + 2 ^ 63) % 2 ^ 64) ((b + 2 ^ 63) % 2 ^ 64)
