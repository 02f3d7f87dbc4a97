-- ===== src/Base/Text.antt =====
-- What the program uses of Go's `strings`: on texts, and on texts as lists of code points.
use Prim.Native.Nat.{ℕ, ◌+◌}
use Prim.Native.String.{String}
use mathlib.Core.Bool.{Bool, false, ◌&&◌, ◌||◌}
use mathlib.Core.List.{List, [], ◌∷◌, ◌++◌}
use mathlib.Core.Path.{◌≡◌, refl, sym, ap, ◌∙◌}
use mathlib.Core.Logic.{inl, inr}
use native.Mathlib.Omega.{arith}
use cloud_nvr.Base.Tests.{◌==◌, nat_eq, string_eq, leb, ltb, if◌then◌else◌, Bool-cases}
use cloud_nvr.Base.Lists.{All}

-- strings.HasSuffix
unfoldable pub ends_with : String → String → Bool
ends_with String.[] t = String.[] == t
ends_with (String.◌∷◌ c s) t = let rest = ends_with s t in (String.◌∷◌ c s) == t || rest

-- Is the extension `.mp4`, in any case of the letters?
unfoldable pub is_mp4 : String → Bool
unfolding ends_with
is_mp4 name =
    ends_with name ".mp4" || ends_with name ".MP4" || ends_with name ".Mp4" || ends_with name ".mP4"

-- unicode.IsSpace
unfoldable pub is_space : ℕ → Bool
is_space c =
    leb 0x09 c && leb c 0x0d
    || c == 0x20
    || c == 0x85
    || c == 0xa0
    || c == 0x1680
    || leb 0x2000 c && leb c 0x200a
    || c == 0x2028
    || c == 0x2029
    || c == 0x202f
    || c == 0x205f
    || c == 0x3000

unfoldable pub trim_left : List ℕ → List ℕ
trim_left [] = []
trim_left (c ∷ s) = let rest = trim_left s in if is_space c then rest else c ∷ s

trim_cons : ℕ → List ℕ → List ℕ
trim_cons c [] = if is_space c then [] else c ∷ []
trim_cons c (d ∷ s) = c ∷ d ∷ s

unfoldable pub trim_right : List ℕ → List ℕ
unfolding trim_cons
trim_right [] = []
trim_right (c ∷ s) = trim_cons c (trim_right s)

-- strings.TrimSpace
unfoldable pub trim_space : List ℕ → List ℕ
unfolding trim_left trim_right
trim_space s = trim_right (trim_left s)

-- len of the text in UTF-8.
unfoldable pub byte_len : List ℕ → ℕ
byte_len [] = 0
byte_len (c ∷ s) =
    (if ltb c 0x80 then 1 else if ltb c 0x800 then 2 else if ltb c 0x10000 then 3 else 4)
    + byte_len s

-- No character of the text is a space.
abbrev pub NoSpace : List ℕ → Type 0
NoSpace = All (λ c. is_space c ≡ false)

keep_left : (c : ℕ) (s : List ℕ) → is_space c ≡ false → trim_left (c ∷ s) ≡ c ∷ s
unfolding trim_left
keep_left c s h = rw h

trim_cons-NoSpace : (c : ℕ) (s : List ℕ) → is_space c ≡ false → trim_cons c s ≡ c ∷ s
unfolding trim_cons
trim_cons-NoSpace c [] h = rw h
trim_cons-NoSpace c (d ∷ s) h = refl

idem_cons : (c : ℕ) (s : List ℕ) → trim_right s ≡ s → trim_right (trim_cons c s) ≡ trim_cons c s
unfolding trim_cons trim_right
idem_cons c [] h = ground arith
idem_cons c (d ∷ s) h = rw h

trim_right-newline : (s : List ℕ) → trim_right (s ++ 0x0a ∷ []) ≡ trim_right s
unfolding trim_right
trim_right-newline [] = unfold is_space in refl
trim_right-newline (c ∷ s) = rw (trim_right-newline s)

trim_right_idem : (s : List ℕ) → trim_right (trim_right s) ≡ trim_right s
unfolding trim_right
trim_right_idem [] = refl
trim_right_idem (c ∷ s) = idem_cons c (trim_right s) (trim_right_idem s)

trim_right-NoSpace : (s : List ℕ) → NoSpace s → trim_right s ≡ s
unfolding trim_right
trim_right-NoSpace [] h = refl
trim_right-NoSpace (c ∷ s) h = rw (trim_right-NoSpace s h.1) (trim_cons-NoSpace c s h.0)

-- A text with no space in it is not changed.
pub trim_space-NoSpace : (s : List ℕ) → NoSpace s → trim_space s ≡ s
unfolding trim_space
trim_space-NoSpace [] h = refl
trim_space-NoSpace (c ∷ s) h = rw (keep_left c s h.0) (trim_right-NoSpace (c ∷ s) h)

data Trimmed : List ℕ → Type 0 where
  nil : Trimmed []
  word : {c : ℕ} {s : List ℕ} → is_space c ≡ false → Trimmed (c ∷ s)

trim_left-Trimmed : (s : List ℕ) → Trimmed (trim_left s)
unfolding trim_left
trim_left-Trimmed [] = nil
trim_left-Trimmed (c ∷ s) = elim (Bool-cases (is_space c)) [
  | inl e ↦ rw e (trim_left-Trimmed s)
  | inr e ↦ rw e (word e)
]

newline_after : (u : List ℕ) → Trimmed u → trim_space (trim_right u ++ 0x0a ∷ []) ≡ trim_right u
unfolding trim_space
newline_after [] t = unfold is_space trim_left trim_right in refl
newline_after (c ∷ s) (word h) =
    let head : trim_right (c ∷ s) ≡ c ∷ trim_right s =
      unfold trim_right in trim_cons-NoSpace c (trim_right s) h in
    rw (head, keep_left c (trim_right s ++ 0x0a ∷ []) h)
      (trim_right-newline (c ∷ trim_right s)
        ∙ ap trim_right (sym head)
        ∙ trim_right_idem (c ∷ s)
        ∙ head)

-- A trimmed text comes back when it is read with the line end that was written after it.
pub trim_space-newline : (s : List ℕ) → trim_space (trim_space s ++ 0x0a ∷ []) ≡ trim_space s
trim_space-newline s = unfold trim_space in newline_after (trim_left s) (trim_left-Trimmed s)
