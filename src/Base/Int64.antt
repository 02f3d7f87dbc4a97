-- ===== src/Base/Int64.antt =====
-- The numbers of Go's int64.
use Prim.Native.Nat.{ℕ}
use mathlib.Core.Bool.{Bool, true}
use mathlib.Core.Path.{◌≡◌}
use cloud_nvr.Base.Tests.{ltb}
use cloud_nvr.Config.{ℤ, pos, negsuc}

abbrev pub two_63 : ℕ
two_63 = 0x8000_0000_0000_0000

unfoldable pub in_int64 : ℤ → Bool
in_int64 (pos n) = ltb n two_63
in_int64 (negsuc n) = ltb n two_63

abbrev pub IsInt64 : ℤ → Type 0
IsInt64 z = in_int64 z ≡ true
