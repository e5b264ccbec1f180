-- ===== src/Base/Sorting.antt =====
-- Python's stable `sorted(xs, key=…)`, as insertion sort over a test "goes before or ties": it
-- permutes its input, and by a numeric key its output does not fall.
use Prim.Native.Nat.{ℕ, ◌+◌, ◌≤◌}
use mathlib.Core.Path.{◌≡◌, refl}
use mathlib.Core.Bool.{Bool}
use mathlib.Core.Logic.{inl, inr}
use mathlib.Core.List.Perm
use mathlib.Core.List.{List, [], ◌∷◌, Perm}
use native.Mathlib.Omega.{arith}
use terminal_status_panel.Base.Tests.{if◌then◌else◌, leb, leb→le, leb→lt, Bool-cases}
use terminal_status_panel.Base.Lists.{All, sum_of, Elem, All-Elem, All-of_Elem}

module _ {ℓ} {A : Type ℓ} where
  -- The sorted list with `x` put before the first element that does not go before it.
  abbrev pub insert : (A → A → Bool) → A → List A → List A
  insert before x [] = x ∷ []
  insert before x (y ∷ ys) = if before x y then x ∷ y ∷ ys else y ∷ insert before x ys

  abbrev pub sort : (A → A → Bool) → List A → List A
  sort before [] = []
  sort before (x ∷ xs) = insert before x (sort before xs)

  pub insert-perm :
      (before : A → A → Bool) (x : A) (xs : List A) → Perm (insert before x xs) (x ∷ xs)
  insert-perm before x [] = Perm.refl (x ∷ [])
  insert-perm before x (y ∷ ys) = elim (Bool-cases (before x y)) [
    | inl e ↦ rw e (Perm.refl (x ∷ y ∷ ys))
    | inr e ↦ rw e (Perm.trans (Perm.cons y (insert-perm before x ys)) (Perm.swap x y ys))
  ]

  pub sort-perm : (before : A → A → Bool) (xs : List A) → Perm (sort before xs) xs
  sort-perm before [] = Perm.refl []
  sort-perm before (x ∷ xs) =
      Perm.trans (insert-perm before x (sort before xs)) (Perm.cons x (sort-perm before xs))

  -- The numbers of a list by `key` do not fall.
  abbrev pub IsSorted : (A → ℕ) → List A → Type 0
  IsSorted key [] = Unit
  IsSorted key (x ∷ xs) = All (λ y. key x ≤ key y) xs × IsSorted key xs

  pub All-insert {κ} :
      (P : A → Type κ) (before : A → A → Bool) (x : A) (xs : List A)
      → P x
      → All P xs
      → All P (insert before x xs)
  All-insert P before x [] p h = (p, tt)
  All-insert P before x (y ∷ ys) p h = elim (Bool-cases (before x y)) [
    | inl e ↦ rw e (p, h)
    | inr e ↦ rw e (h.0, All-insert P before x ys p h.1)
  ]

  pub All-sort {κ} :
      (P : A → Type κ) (before : A → A → Bool) (xs : List A) → All P xs → All P (sort before xs)
  All-sort P before [] h = tt
  All-sort P before (x ∷ xs) h = All-insert P before x _ h.0 (All-sort P before xs h.1)

  All-le_trans :
      (key : A → ℕ) (m n : ℕ) (xs : List A)
      → m ≤ n
      → All (λ y. n ≤ key y) xs
      → All (λ y. m ≤ key y) xs
  All-le_trans key m n [] h a = tt
  All-le_trans key m n (x ∷ xs) h a = (omega arith, All-le_trans key m n xs h a.1)

  insert-IsSorted :
      (key : A → ℕ) (x : A) (xs : List A)
      → IsSorted key xs
      → IsSorted key (insert (λ a b. leb (key a) (key b)) x xs)
  insert-IsSorted key x [] s = (tt, tt)
  insert-IsSorted key x (y ∷ ys) s = elim (Bool-cases (leb (key x) (key y))) [
    | inl e ↦ rw e ((leb→le _ _ e, All-le_trans key (key x) (key y) ys (leb→le _ _ e) s.0), s)
    | inr e ↦ rw e (
      All-insert (λ z. key y ≤ key z) (λ a b. leb (key a) (key b)) x ys
          (omega (arith, leb→lt (key x) (key y) e)) s.0,
      insert-IsSorted key x ys s.1,
    )
  ]

  pub sort-IsSorted :
      (key : A → ℕ) (xs : List A) → IsSorted key (sort (λ a b. leb (key a) (key b)) xs)
  sort-IsSorted key [] = tt
  sort-IsSorted key (x ∷ xs) = insert-IsSorted key x _ (sort-IsSorted key xs)

  pub sum_of-insert :
      (f : A → ℕ) (before : A → A → Bool) (x : A) (xs : List A)
      → sum_of f (insert before x xs) ≡ f x + sum_of f xs
  sum_of-insert f before x [] = refl
  sum_of-insert f before x (y ∷ ys) = elim (Bool-cases (before x y)) [
    | inl e ↦ rw e
    | inr e ↦ rw e (omega (arith, sum_of-insert f before x ys))
  ]

  pub sum_of-sort :
      (f : A → ℕ) (before : A → A → Bool) (xs : List A) → sum_of f (sort before xs) ≡ sum_of f xs
  sum_of-sort f before [] = refl
  sum_of-sort f before (x ∷ xs) =
      omega (arith, sum_of-insert f before x (sort before xs), sum_of-sort f before xs)

module _ {A : Type 0} where
  Elem-insert :
      (before : A → A → Bool) (x y : A) (xs : List A)
      → Elem y (x ∷ xs)
      → Elem y (insert before x xs)
  Elem-insert before x y [] m = m
  Elem-insert before x y (z ∷ zs) (inl first) = elim (Bool-cases (before x z)) [
    | inl e ↦ rw e (inl first)
    | inr e ↦ rw e (inr (Elem-insert before x y zs (inl first)))
  ]
  Elem-insert before x y (z ∷ zs) (inr (inl second)) = elim (Bool-cases (before x z)) [
    | inl e ↦ rw e (inr (inl second))
    | inr e ↦ rw e (inl second)
  ]
  Elem-insert before x y (z ∷ zs) (inr (inr later)) = elim (Bool-cases (before x z)) [
    | inl e ↦ rw e (inr (inr later))
    | inr e ↦ rw e (inr (Elem-insert before x y zs (inr later)))
  ]

  pub Elem-sort :
      (before : A → A → Bool) (x : A) (xs : List A) → Elem x xs → Elem x (sort before xs)
  Elem-sort before x [] m = m
  Elem-sort before x (y ∷ ys) (inl e) = Elem-insert before y x (sort before ys) (inl e)
  Elem-sort before x (y ∷ ys) (inr m) =
      Elem-insert before y x (sort before ys) (inr (Elem-sort before x ys m))

  pub Elem-of_sort :
      (before : A → A → Bool) (x : A) (xs : List A) → Elem x (sort before xs) → Elem x xs
  Elem-of_sort before x xs m =
      All-Elem (λ y. Elem y xs) (sort before xs) x
        (All-sort (λ y. Elem y xs) before xs (All-of_Elem (λ y. Elem y xs) xs (λ y h. h))) m
