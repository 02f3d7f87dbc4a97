-- ===== src/Base/Sort.antt =====
-- Sorting by a numeric key. `sort.Slice` with a strict order on the keys promises an ordered
-- permutation; insertion is one such, and it keeps the order of equal keys.
use Prim.Native.Nat.{ℕ, ◌≤◌}
use mathlib.Core.Logic.{inl, inr}
use mathlib.Core.Bool.{Bool, true, false}
use mathlib.Core.Path.{◌≡◌, sym, subst}
use mathlib.Core.List.{List, [], ◌∷◌, Perm}
use mathlib.Core.List.Perm
use native.Mathlib.Omega.{arith}
use cloud_nvr.Base.Tests.{leb, leb→le, if◌then◌else◌, Bool-cases}
use cloud_nvr.Base.Lists.{All, All-weaken}

module _ {ℓ} {A : Type ℓ} (key : A → ℕ) where
  unfoldable pub insert_by : A → List A → List A
  insert_by a [] = a ∷ []
  insert_by a (x ∷ xs) = if leb (key a) (key x) then a ∷ x ∷ xs else x ∷ insert_by a xs

  unfoldable pub sort_by : List A → List A
  unfolding insert_by
  sort_by [] = []
  sort_by (x ∷ xs) = insert_by x (sort_by xs)

  -- Each element's key is at most that of every later one.
  abbrev pub IsSortedBy : List A → Type 0
  IsSortedBy [] = Unit
  IsSortedBy (x ∷ xs) = All (λ y. key x ≤ key y) xs × IsSortedBy xs

  pub insert_by-perm : (a : A) (xs : List A) → Perm (insert_by a xs) (a ∷ xs)
  unfolding insert_by
  insert_by-perm a [] = Perm.refl (a ∷ [])
  insert_by-perm a (x ∷ xs) = elim (Bool-cases (leb (key a) (key x))) [
    | inl e ↦ rw e (Perm.refl (a ∷ x ∷ xs))
    | inr e ↦ rw e (Perm.trans (Perm.cons x (insert_by-perm a xs)) (Perm.swap a x xs))
  ]

  pub sort_by-perm : (xs : List A) → Perm (sort_by xs) xs
  unfolding sort_by
  sort_by-perm [] = Perm.refl []
  sort_by-perm (x ∷ xs) = Perm.trans (insert_by-perm x (sort_by xs)) (Perm.cons x (sort_by-perm xs))

  All-insert_by {κ} :
      (P : A → Type κ) (a : A) (xs : List A) → P a → All P xs → All P (insert_by a xs)
  unfolding insert_by
  All-insert_by P a [] h hs = (h, tt)
  All-insert_by P a (x ∷ xs) h hs = elim (Bool-cases (leb (key a) (key x))) [
    | inl e ↦ rw e (h, hs)
    | inr e ↦ rw e (hs.0, All-insert_by P a xs h hs.1)
  ]

  pub All-sort_by {κ} : (P : A → Type κ) (xs : List A) → All P xs → All P (sort_by xs)
  unfolding sort_by
  All-sort_by P [] h = tt
  All-sort_by P (x ∷ xs) h = All-insert_by P x (sort_by xs) h.0 (All-sort_by P xs h.1)

  insert_by-IsSortedBy : (a : A) (xs : List A) → IsSortedBy xs → IsSortedBy (insert_by a xs)
  unfolding insert_by
  insert_by-IsSortedBy a [] h = (tt, tt)
  insert_by-IsSortedBy a (x ∷ xs) h = elim (Bool-cases (leb (key a) (key x))) [
    | inl e ↦
        let first = leb→le (key a) (key x) e in
        rw e (
          (
            (
              first,
              All-weaken (λ y. key x ≤ key y) (λ y. key a ≤ key y) xs (λ y l. omega arith) h.0,
            ),
            h,
          ))
    | inr e ↦
        rw e (
          All-insert_by (λ y. key x ≤ key y) a xs (ground arith) h.0,
          insert_by-IsSortedBy a xs h.1,
        )
  ]

  pub sort_by-IsSortedBy : (xs : List A) → IsSortedBy (sort_by xs)
  unfolding sort_by
  sort_by-IsSortedBy [] = tt
  sort_by-IsSortedBy (x ∷ xs) = insert_by-IsSortedBy x (sort_by xs) (sort_by-IsSortedBy xs)

  All-of_insert_by {κ} :
      (P : A → Type κ) (a : A) (xs : List A) → All P (insert_by a xs) → P a × All P xs
  unfolding insert_by
  All-of_insert_by P a [] h = h
  All-of_insert_by P a (x ∷ xs) h = split (All-of_insert_by P a xs) (leb (key a) (key x)) h
    where
      split :
          (All P (insert_by a xs) → P a × All P xs)
          → (b : Bool) → All P (if b then a ∷ x ∷ xs else x ∷ insert_by a xs)
          → P a × (P x × All P xs)
      split ih true k = (k.0, (k.1.0, k.1.1))
      split ih false k = let (pa, pxs) = ih k.1 in (pa, (k.0, pxs))

  pub All-of_sort_by {κ} : (P : A → Type κ) (xs : List A) → All P (sort_by xs) → All P xs
  unfolding sort_by
  All-of_sort_by P [] h = tt
  All-of_sort_by P (x ∷ xs) h =
      let (px, rest) = All-of_insert_by P x (sort_by xs) h in (px, All-of_sort_by P xs rest)

  -- The head of a sorted list has the least key.
  pub sort_by_head_least :
      (xs : List A) (h : A) (t : List A) → sort_by xs ≡ h ∷ t → All (λ y. key h ≤ key y) xs
  sort_by_head_least xs h t e =
      All-of_sort_by (λ y. key h ≤ key y) xs
        (subst (All (λ y. key h ≤ key y)) (sym e)
          (omega arith, (subst IsSortedBy e (sort_by-IsSortedBy xs)).0))
