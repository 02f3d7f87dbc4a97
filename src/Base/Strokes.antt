-- ===== src/Base/Strokes.antt =====
-- Numbers written as strokes: a concrete format with its parser, for the examples.
use Prim.Native.Char.{char}
use Prim.Native.Nat.{ℕ, zero, suc, ◌<◌}
use Prim.Native.String.{String}
use mathlib.Core.Bool.{Bool, true, false}
use mathlib.Core.Logic.{inl, inr}
use cloud_nvr.Base.Tests.{if◌then◌else◌, Bool-cases}
use cloud_nvr.Base.Int64.{in_int64, IsInt64}
use mathlib.Core.Option.{Option, none, some}
use mathlib.Core.Path.{◌≡◌, refl, ap, subst}
use native.Mathlib.Omega.{arith}
use cloud_nvr.Base.Prefix.{has_prefix, without_prefix, Without}
use cloud_nvr.Config.{ℤ, pos, negsuc}

unfoldable pub strokes : ℕ → String
strokes zero = String.[]
strokes (suc n) = String.◌∷◌ (char b'i' tt) (strokes n)

count : String → ℕ
count String.[] = zero
count (String.◌∷◌ _ s) = suc (count s)

unfoldable pub format : ℤ → String
unfolding strokes
format (pos n) = String.◌∷◌ (char b'p' tt) (strokes n)
format (negsuc n) = String.◌∷◌ (char b'n' tt) (strokes n)

abbrev ranged : ℤ → Option ℤ
ranged z = if in_int64 z then some z else none

abbrev read : Bool → String → Option ℤ
read true s = ranged (pos (count s))
read false s = ranged (negsuc (count s))

unfoldable pub parse : String → Option ℤ
unfolding count without_prefix
parse String.[] = none
parse (String.◌∷◌ c s) = read (has_prefix (String.◌∷◌ c s) "p") s

count-strokes : (n : ℕ) → count (strokes n) ≡ n
unfolding count strokes
count-strokes zero = refl
count-strokes (suc n) = ap suc (count-strokes n)

ranged-Int64 : (y z : ℤ) → ranged y ≡ some z → IsInt64 z
ranged-Int64 y z h = elim (Bool-cases (in_int64 y)) [
  | inl e ↦ let same : y ≡ z = ground (arith, h, e) in subst IsInt64 same e
  | inr e ↦ absurd (ground (arith, h, e))
]

pub parse-format : (z : ℤ) → IsInt64 z → parse (format z) ≡ some z
unfolding parse format without_prefix
parse-format (pos n) r = rw (count-strokes n, r) refl
parse-format (negsuc n) r = rw (count-strokes n, r) refl

-- What is read is a number of 64 bits.
pub parse-Int64 : (s : String) (z : ℤ) → parse s ≡ some z → IsInt64 z
unfolding parse
parse-Int64 String.[] z h = absurd (ground (arith, h))
parse-Int64 (String.◌∷◌ c s) z h = elim (Bool-cases (has_prefix (String.◌∷◌ c s) "p")) [
  | inl e ↦ ranged-Int64 (pos (count s)) z (subst (λ b. read b s ≡ some z) e h)
  | inr e ↦ ranged-Int64 (negsuc (count s)) z (subst (λ b. read b s ≡ some z) e h)
]

strokes-Without : (sep n : ℕ) → sep < 100 → Without sep (strokes n)
unfolding strokes
strokes-Without sep zero h = tt
strokes-Without sep (suc n) h = ((λ e. omega (arith, e, h)), strokes-Without sep n h)

pub format-Without : (sep : ℕ) (z : ℤ) → sep < 100 → Without sep (format z)
unfolding format
format-Without sep (pos n) h = ((λ e. omega (arith, e, h)), strokes-Without sep n h)
format-Without sep (negsuc n) h = ((λ e. omega (arith, e, h)), strokes-Without sep n h)
