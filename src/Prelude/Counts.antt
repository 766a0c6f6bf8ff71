-- ===== src/Prelude/Counts.antt =====
-- How many rows of a table pass a test, before and after a statement.
use Prim.Native.Nat.{◌+◌, ◌≤◌}
use mathlib.Core.Logic.{inl, inr}
use mathlib.Core.Path.{◌≡◌, refl, ap}
use mathlib.Core.Bool.{Bool, true, false, ◌&&◌}
use mathlib.Core.Option.{some, some-injective}
use mathlib.Core.List.{List, [], ◌∷◌}
use native.Mathlib.Omega.{arith}
use rulefolio_server.Prelude.Tests.{Bool-cases}
use rulefolio_server.Prelude.Rows.{
  scalar, update, rowcount, delete, select, All, All-map, rowcount_unmet, update-none,
}

module _ {ℓ} {A : Type ℓ} where
  -- the rows that pass both tests
  abbrev pub both : (A → Bool) → (A → Bool) → A → Bool
  both p q x = p x && q x

  pub rowcount-select :
      (q p : A → Bool) (xs : List A) → rowcount q (select p xs) ≡ rowcount (both p q) xs
  unfolding rowcount select
  rowcount-select q p [] = refl
  rowcount-select q p (x ∷ xs) = ground (arith, rowcount-select q p xs)

  pub scalar-select : (q p : A → Bool) (xs : List A) → scalar q (select p xs) ≡ scalar (both p q) xs
  unfolding scalar select
  scalar-select q p [] = refl
  scalar-select q p (x ∷ xs) = ground (arith, scalar-select q p xs)

  pub rowcount-delete :
      (q p : A → Bool) (xs : List A)
      → rowcount q xs ≡ rowcount q (delete p xs) + rowcount (both p q) xs
  unfolding rowcount delete
  rowcount-delete q p [] = refl
  rowcount-delete q p (x ∷ xs) = ground (arith, rowcount-delete q p xs)

  -- an update loses at most the rows that it reaches
  pub rowcount-update_lost :
      (q p : A → Bool) (f : A → A) (xs : List A)
      → rowcount q xs ≤ rowcount q (update p f xs) + rowcount (both p q) xs
  unfolding rowcount update
  rowcount-update_lost q p f [] = omega arith
  rowcount-update_lost q p f (x ∷ xs) = ground (arith, rowcount-update_lost q p f xs)

  -- an update that keeps a test where it holds loses no row of it
  pub rowcount-update_kept :
      (q p : A → Bool) (f : A → A) (xs : List A)
      → ((x : A) → q x ≡ true → q (f x) ≡ true)
      → rowcount q xs ≤ rowcount q (update p f xs)
  unfolding rowcount update
  rowcount-update_kept q p f [] keep = omega arith
  rowcount-update_kept q p f (x ∷ xs) keep =
      ground (arith, keep x, rowcount-update_kept q p f xs keep)

  pub rowcount_unless : (p : A → Bool) (xs : List A) → ((x : A) → p x ≡ false) → rowcount p xs ≡ 0
  unfolding rowcount
  rowcount_unless p [] h = refl
  rowcount_unless p (x ∷ xs) h = ground (arith, h x, rowcount_unless p xs h)

  pub rowcount_same :
      (p q : A → Bool) (xs : List A) → ((x : A) → p x ≡ q x) → rowcount p xs ≡ rowcount q xs
  unfolding rowcount
  rowcount_same p q [] h = refl
  rowcount_same p q (x ∷ xs) h = rw (h x, rowcount_same p q xs h) refl

  pub scalar_same :
      (p q : A → Bool) (xs : List A) → ((x : A) → p x ≡ q x) → scalar p xs ≡ scalar q xs
  unfolding scalar
  scalar_same p q [] h = refl
  scalar_same p q (x ∷ xs) h = rw (h x, scalar_same p q xs h) refl

  -- the only row with a key decides for all rows with the key
  pub unique_row_misses :
      (p q : A → Bool) (xs : List A) {x : A}
      → rowcount p xs ≤ 1
      → scalar p xs ≡ some x
      → q x ≡ false
      → rowcount (both p q) xs ≡ 0
  unfolding rowcount scalar
  unique_row_misses p q [] one found miss = refl
  unique_row_misses p q (y ∷ xs) {x} one found miss = elim (Bool-cases (p y)) [
    | inl hit ↦ ground (arith, later_misses p q xs)
    | inr out ↦ ground (arith, unique_row_misses p q xs {x = x})
  ]
    where
      later_misses : (p q : A → Bool) (xs : List A) → rowcount (both p q) xs ≤ rowcount p xs
      later_misses p q [] = omega arith
      later_misses p q (z ∷ zs) = ground (arith, later_misses p q zs)

  -- on a row with a key that no other row has, a statement that only looks at such rows does what
  -- the statement for the key does
  pub unique-update :
      (p q : A → Bool) (f g : A → A) (xs : List A) {x : A}
      → ((y : A) → p y ≡ true → q y ≡ true)
      → rowcount q xs ≤ 1
      → scalar q xs ≡ some x
      → p x ≡ true
      → f x ≡ g x
      → update p f xs ≡ update q g xs
  unfolding rowcount scalar update
  unique-update p q f g [] only one found hit same = refl
  unique-update p q f g (y ∷ xs) {x} only one found hit same = elim (Bool-cases (q y)) [
    | inl keyed ↦
        let y_is : y ≡ x = some-injective y x (rw keyed at found) in
        let none_q : All (λ z. q z ≡ false) xs = rowcount_unmet q xs (ground (arith, one, keyed)) in
        let none_p : All (λ z. p z ≡ false) xs =
          All-map (λ z. q z ≡ false) (λ z. p z ≡ false) xs (λ z out. ground (arith, only z, out))
            none_q in
        rw (update-none p f xs none_p, update-none q g xs none_q, y_is)
          (ground (arith, hit, keyed, y_is, same))
    | inr other ↦
        let out : p y ≡ false = ground (arith, only y, other) in
        rw (other, out)
          (ap (λ zs. y ∷ zs)
            (unique-update p q f g xs {x = x} only (ground (arith, one, other)) (rw other at found)
              hit same))
  ]
