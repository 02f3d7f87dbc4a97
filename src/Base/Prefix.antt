-- ===== src/Base/Prefix.antt =====
-- What the program uses of Go's `strings` on whole texts: HasPrefix, TrimPrefix and Split.
use Prim.Native.Nat.{ℕ}
use Prim.Native.Char.{code}
use Prim.Native.String.{String, ◌++◌ as ◌<>◌}
use mathlib.Core.Bool.{Bool, true, false}
use mathlib.Core.Option.{Option, none, some}
use mathlib.Core.List.{List, [], ◌∷◌}
use mathlib.Core.Path.{◌≡◌, refl}
use mathlib.Core.Logic.{◌≢◌, inl, inr}
use native.Mathlib.Omega.{arith}
use text.Mathlib.TextEquality.{Char-path}
use text.Mathlib.TextLemmas.{nil-append, cons-append}
use cloud_nvr.Base.Tests.{nat_beq, nat_beq_iff, if◌then◌else◌, Bool-cases}

-- What is left of a text after a prefix, if it has that prefix.
unfoldable pub without_prefix : String → String → Option String
without_prefix s String.[] = some s
without_prefix String.[] (String.◌∷◌ c p) = none
without_prefix (String.◌∷◌ d s) (String.◌∷◌ c p) =
    let rest = without_prefix s p in if nat_beq (code d) (code c) then rest else none

abbrev pub is_some {ℓ} : {A : Type ℓ} → Option A → Bool
is_some none = false
is_some (some _) = true

abbrev pub get_or {ℓ} : {A : Type ℓ} → A → Option A → A
get_or a none = a
get_or a (some b) = b

-- strings.HasPrefix
abbrev pub has_prefix : String → String → Bool
has_prefix s p = is_some (without_prefix s p)

-- strings.TrimPrefix
abbrev pub trim_prefix : String → String → String
trim_prefix s p = get_or s (without_prefix s p)

pub without_prefix-append : (p s : String) → without_prefix (p <> s) p ≡ some s
unfolding without_prefix
without_prefix-append String.[] s = rw (nil-append s) refl
without_prefix-append (String.◌∷◌ c p) s =
    rw (cons-append c p s) (ground (arith, without_prefix-append p s))

pub without_prefix-eq : (s p : String) {t : String} → without_prefix s p ≡ some t → s ≡ p <> t
unfolding without_prefix
without_prefix-eq s String.[] {t} h = ground (arith, h, nil-append t)
without_prefix-eq String.[] (String.◌∷◌ c p) h = cc
without_prefix-eq (String.◌∷◌ d s) (String.◌∷◌ c p) {t} h =
    elim (Bool-cases (nat_beq (code d) (code c))) [
      | inl e ↦
          let same = Char-path d c ((nat_beq_iff (code d) (code c)).0 e) in
          let tail = without_prefix-eq s p {t = t} (ground (arith, h, e)) in
          rw (cons-append c p t, same, tail) refl
      | inr e ↦ ground (arith, h, e)
    ]

-- strings.Split at one character.
cons_to : Prim.Native.Char.Char → List String → List String
cons_to c [] = String.◌∷◌ c String.[] ∷ []
cons_to c (p ∷ ps) = String.◌∷◌ c p ∷ ps

unfoldable pub split_on : ℕ → String → List String
unfolding cons_to
split_on sep String.[] = String.[] ∷ []
split_on sep (String.◌∷◌ c s) =
    let rest = split_on sep s in if nat_beq (code c) sep then String.[] ∷ rest else cons_to c rest

-- The character is not in the text.
abbrev pub Without : ℕ → String → Type 0
Without sep String.[] = Unit
Without sep (String.◌∷◌ c s) = (code c ≢ sep) × Without sep s

pub split_on-Without : (sep : ℕ) (s : String) → Without sep s → split_on sep s ≡ s ∷ []
unfolding split_on
split_on-Without sep String.[] h = refl
split_on-Without sep (String.◌∷◌ c s) h = ground (arith, split_on-Without sep s h.1)

pub split_on-append :
    (sep : Prim.Native.Char.Char) (s t : String)
    → Without (code sep) s
    → split_on (code sep) (s <> String.◌∷◌ sep t) ≡ s ∷ split_on (code sep) t
unfolding split_on
split_on-append sep String.[] t h = rw (nil-append (String.◌∷◌ sep t)) (ground arith)
split_on-append sep (String.◌∷◌ c s) t h =
    rw (cons-append c s (String.◌∷◌ sep t)) (ground (arith, split_on-append sep s t h.1))
