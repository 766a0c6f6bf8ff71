-- ===== src/Prelude/Rows.antt =====
-- A table as the list of its rows, and what the SQL statements of the services do with it.
use Prim.Native.Nat.{ℕ, ◌+◌, ◌≤◌}
use mathlib.Core.Logic.{inl, inr}
use mathlib.Core.Path.{◌≡◌, refl, subst}
use mathlib.Core.Bool.{Bool, true, false}
use mathlib.Core.Option
use mathlib.Core.Option.{Option, none, some, some-injective, none-ne-some}
use mathlib.Core.List.{List, [], ◌∷◌, ◌++◌}
use native.Mathlib.Omega.{arith}
use rulefolio_server.Prelude.Tests.{leb, if◌then◌else◌, Bool-cases, Option-cases}

module _ {ℓ} {A : Type ℓ} where
  -- `SELECT … WHERE p LIMIT 1`
  unfoldable pub scalar : (A → Bool) → List A → Option A
  scalar p [] = none
  scalar p (x ∷ xs) = if p x then some x else scalar p xs

  -- `UPDATE … WHERE p`
  unfoldable pub update : (A → Bool) → (A → A) → List A → List A
  update p f [] = []
  update p f (x ∷ xs) = (if p x then f x else x) ∷ update p f xs

  -- the `rowcount` of a statement with `WHERE p`
  unfoldable pub rowcount : (A → Bool) → List A → ℕ
  rowcount p [] = 0
  rowcount p (x ∷ xs) = (if p x then 1 else 0) + rowcount p xs

  -- `DELETE … WHERE p`
  unfoldable pub delete : (A → Bool) → List A → List A
  delete p [] = []
  delete p (x ∷ xs) = let rest = delete p xs in if p x then rest else x ∷ rest

  -- `SELECT … WHERE p`
  unfoldable pub select : (A → Bool) → List A → List A
  select p [] = []
  select p (x ∷ xs) = let rest = select p xs in if p x then x ∷ rest else rest

  preferred : (A → A → Bool) → A → Option A → A
  preferred first x none = x
  preferred first x (some y) = if first x y then x else y

  -- `SELECT … WHERE p ORDER BY … LIMIT 1`, where `first x y` tells that `x` stands before `y`
  unfoldable pub pick : (A → A → Bool) → (A → Bool) → List A → Option A
  unfolding preferred
  pick first p [] = none
  pick first p (x ∷ xs) =
      let rest = pick first p xs in if p x then some (preferred first x rest) else rest

  -- `ORDER BY key LIMIT 1`
  abbrev pub earliest : (A → ℕ) → (A → Bool) → List A → Option A
  earliest key = pick (λ x y. leb (key x) (key y))

  abbrev pub All {κ} : (A → Type κ) → List A → Type κ
  All P [] = Unit
  All P (x ∷ xs) = P x × All P xs

  pub All-update {κ μ} :
      (P : A → Type κ) (Q : A → Type μ) (p : A → Bool) (f : A → A) (xs : List A)
      → ((x : A) → P x → p x ≡ true → Q (f x))
      → ((x : A) → P x → p x ≡ false → Q x)
      → All P xs
      → All Q (update p f xs)
  unfolding update
  All-update P Q p f [] hit miss h = tt
  All-update P Q p f (x ∷ xs) hit miss h = elim (Bool-cases (p x)) [
    | inl e ↦ rw e (hit x h.0 e, All-update P Q p f xs hit miss h.1)
    | inr e ↦ rw e (miss x h.0 e, All-update P Q p f xs hit miss h.1)
  ]

  pub All-delete {κ} :
      (P : A → Type κ) (p : A → Bool) (xs : List A) → All P xs → All P (delete p xs)
  unfolding delete
  All-delete P p [] h = tt
  All-delete P p (x ∷ xs) h = elim (Bool-cases (p x)) [
    | inl e ↦ rw e (All-delete P p xs h.1)
    | inr e ↦ rw e (h.0, All-delete P p xs h.1)
  ]

  pub All-map {κ μ} :
      (P : A → Type κ) (Q : A → Type μ) (xs : List A) → ((x : A) → P x → Q x) → All P xs → All Q xs
  All-map P Q [] g h = tt
  All-map P Q (x ∷ xs) g h = (g x h.0, All-map P Q xs g h.1)

  pub All-both {κ μ} :
      (P : A → Type κ) (Q : A → Type μ) (xs : List A)
      → All P xs
      → All Q xs
      → All (λ x. P x × Q x) xs
  All-both P Q [] h k = tt
  All-both P Q (x ∷ xs) h k = ((h.0, k.0), All-both P Q xs h.1 k.1)

  pub All-pure {κ} : (P : A → Type κ) (xs : List A) → ((x : A) → P x) → All P xs
  All-pure P [] g = tt
  All-pure P (x ∷ xs) g = (g x, All-pure P xs g)

  pub All-append {κ} : (P : A → Type κ) (xs ys : List A) → All P xs → All P ys → All P (xs ++ ys)
  All-append P [] ys h k = k
  All-append P (x ∷ xs) ys h k = (h.0, All-append P xs ys h.1 k)

  pub scalar-hit : (p : A → Bool) (xs : List A) {x : A} → scalar p xs ≡ some x → p x ≡ true
  unfolding scalar
  scalar-hit p [] h = cc
  scalar-hit p (y ∷ xs) {x} h = ground (arith, scalar-hit p xs {x = x})

  pub All-scalar {κ} :
      (P : A → Type κ) (p : A → Bool) (xs : List A) {x : A} → All P xs → scalar p xs ≡ some x → P x
  unfolding scalar
  All-scalar P p [] h e = absurd (none-ne-some _ e)
  All-scalar P p (y ∷ xs) h e = elim (Bool-cases (p y)) [
    | inl hit ↦ subst P (some-injective y _ (rw hit at e)) h.0
    | inr miss ↦ All-scalar P p xs h.1 (rw miss at e)
  ]

  pub scalar-none : (p : A → Bool) (xs : List A) → scalar p xs ≡ none → All (λ x. p x ≡ false) xs
  unfolding scalar
  scalar-none p [] h = tt
  scalar-none p (x ∷ xs) h = elim (Bool-cases (p x)) [
    | inl e ↦ ground arith
    | inr e ↦ (e, scalar-none p xs (rw e at h))
  ]

  pub scalar_unmet : (p : A → Bool) (xs : List A) → All (λ x. p x ≡ false) xs → scalar p xs ≡ none
  unfolding scalar
  scalar_unmet p [] h = refl
  scalar_unmet p (x ∷ xs) h = rw h.0 (scalar_unmet p xs h.1)

  -- An update that keeps a test finds the same row, changed where the update reaches it.
  pub scalar-update :
      (q p : A → Bool) (f : A → A) (xs : List A)
      → ((x : A) → q (f x) ≡ q x)
      → scalar q (update p f xs) ≡ Option.map (λ x. if p x then f x else x) (scalar q xs)
  unfolding scalar update
  scalar-update q p f [] keep = refl
  scalar-update q p f (x ∷ xs) keep = ground (arith, keep x, scalar-update q p f xs keep)

  pub pick-hit :
      (first : A → A → Bool) (p : A → Bool) (xs : List A) {x : A}
      → pick first p xs ≡ some x
      → p x ≡ true
  unfolding pick
  pick-hit first p [] h = cc
  pick-hit first p (y ∷ xs) {x} h = ground (arith, pick-hit first p xs {x = x})

  pub All-pick {κ} :
      (P : A → Type κ) (first : A → A → Bool) (p : A → Bool) (xs : List A) {x : A}
      → All P xs
      → pick first p xs ≡ some x
      → P x
  unfolding pick
  All-pick P first p [] h e = absurd (none-ne-some _ e)
  All-pick P first p (y ∷ xs) h e = elim (Bool-cases (p y)) [
    | inr miss ↦ All-pick P first p xs h.1 (rw miss at e)
    | inl hit ↦ elim (Option-cases (pick first p xs)) [
      | inl last ↦ subst P (some-injective y _ (rw (hit, last) at e)) h.0
      | inr (z, found) ↦ elim (Bool-cases (first y z)) [
        | inl le ↦ subst P (some-injective y _ (rw (hit, found, le) at e)) h.0
        | inr gt ↦
            subst P (some-injective z _ (rw (hit, found, gt) at e))
              (All-pick P first p xs h.1 found)
      ]
    ]
  ]

  pub pick-none :
      (first : A → A → Bool) (p : A → Bool) (xs : List A)
      → pick first p xs ≡ none
      → All (λ x. p x ≡ false) xs
  unfolding pick
  pick-none first p [] h = tt
  pick-none first p (x ∷ xs) h = elim (Bool-cases (p x)) [
    | inl e ↦ ground arith
    | inr e ↦ (e, pick-none first p xs (rw e at h))
  ]

  -- the row that stands first has the least key, where `first` agrees with the key
  pub pick-least :
      (first : A → A → Bool) (key : A → ℕ) (p : A → Bool) (xs : List A) {x : A}
      → ((u v : A) → first u v ≡ true → key u ≤ key v)
      → ((u v : A) → first u v ≡ false → key v ≤ key u)
      → pick first p xs ≡ some x
      → All (λ y. p y ≡ true → key x ≤ key y) xs
  unfolding pick
  pick-least first key p [] le ge h = tt
  pick-least first key p (y ∷ xs) {x} le ge h = elim (Option-cases (pick first p xs)) [
    | inl last ↦ (
      λ hit. ground arith,
      All-map (λ z. p z ≡ false) (λ z. p z ≡ true → key x ≤ key z) xs (λ z out into. ground arith)
          (pick-none first p xs last),
    )
    | inr (w, found) ↦ (
      λ hit. ground (arith, le y w, ge y w),
      All-map (λ z. p z ≡ true → key w ≤ key z) (λ z. p z ≡ true → key x ≤ key z) xs
          (λ z least hit. ground (arith, least hit, le y w, ge y w))
          (pick-least first key p xs le ge found),
    )
  ]

  pub earliest-least :
      (key : A → ℕ) (p : A → Bool) (xs : List A) {x : A}
      → earliest key p xs ≡ some x
      → All (λ y. p y ≡ true → key x ≤ key y) xs
  earliest-least key p xs h =
      pick-least (λ u v. leb (key u) (key v)) key p xs (λ u v le. ground arith)
        (λ u v gt. ground arith) h

  pub rowcount-zero : (p : A → Bool) (xs : List A) → All (λ x. p x ≡ false) xs → rowcount p xs ≡ 0
  unfolding rowcount
  rowcount-zero p [] h = refl
  rowcount-zero p (x ∷ xs) h = ground (arith, rowcount-zero p xs h.1)

  pub rowcount_unmet : (p : A → Bool) (xs : List A) → rowcount p xs ≡ 0 → All (λ x. p x ≡ false) xs
  unfolding rowcount
  rowcount_unmet p [] h = tt
  rowcount_unmet p (x ∷ xs) h = elim (Bool-cases (p x)) [
    | inl e ↦ ground arith
    | inr e ↦ (e, rowcount_unmet p xs (ground arith))
  ]

  -- A statement that meets no row changes nothing.
  pub update-none :
      (p : A → Bool) (f : A → A) (xs : List A) → All (λ x. p x ≡ false) xs → update p f xs ≡ xs
  unfolding update
  update-none p f [] h = refl
  update-none p f (x ∷ xs) h = rw (h.0, update-none p f xs h.1)

  pub rowcount_mono :
      (p q : A → Bool) (xs : List A)
      → ((x : A) → p x ≡ true → q x ≡ true)
      → rowcount p xs ≤ rowcount q xs
  unfolding rowcount
  rowcount_mono p q [] h = omega arith
  rowcount_mono p q (x ∷ xs) h = ground (arith, h x, rowcount_mono p q xs h)

  pub rowcount-found :
      (p q : A → Bool) (xs : List A) {x : A} → scalar q xs ≡ some x → p x ≡ true → 1 ≤ rowcount p xs
  unfolding rowcount scalar
  rowcount-found p q [] e hit = cc
  rowcount-found p q (y ∷ xs) {x} e hit = ground (arith, rowcount-found p q xs {x = x})

  -- one row has the key, and passes the test: the test counts one row
  pub rowcount-one :
      (p q : A → Bool) (xs : List A) {x : A}
      → ((y : A) → p y ≡ true → q y ≡ true)
      → rowcount q xs ≡ 1
      → scalar q xs ≡ some x
      → p x ≡ true
      → rowcount p xs ≡ 1
  rowcount-one p q xs h one e hit =
      omega (arith, rowcount_mono p q xs h, rowcount-found p q xs e hit)

  pub rowcount-update :
      (q p : A → Bool) (f : A → A) (xs : List A)
      → ((x : A) → q (f x) ≡ q x)
      → rowcount q (update p f xs) ≡ rowcount q xs
  unfolding rowcount update
  rowcount-update q p f [] keep = refl
  rowcount-update q p f (x ∷ xs) keep = ground (arith, keep x, rowcount-update q p f xs keep)

  -- an update leaves the rows that it does not meet
  pub delete-update :
      (p : A → Bool) (f : A → A) (xs : List A)
      → ((x : A) → p (f x) ≡ p x)
      → delete p (update p f xs) ≡ delete p xs
  unfolding delete update
  delete-update p f [] keep = refl
  delete-update p f (x ∷ xs) keep = elim (Bool-cases (p x)) [
    | inl e ↦ ground (arith, e, keep x, delete-update p f xs keep)
    | inr e ↦ ground (arith, e, delete-update p f xs keep)
  ]

  pub scalar-delete : (p : A → Bool) (xs : List A) → scalar p (delete p xs) ≡ none
  unfolding scalar delete
  scalar-delete p [] = refl
  scalar-delete p (x ∷ xs) = ground (arith, scalar-delete p xs)
