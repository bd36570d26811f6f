-- ===== src/Base/Counts.antt =====
-- How many rows of a table pass a test, and what their amounts add up to: `count(*)` and `sum(…)
-- FILTER (WHERE …)`, and how an INSERT or an UPDATE changes them.
use Prim.Native.Nat.{ℕ, ◌+◌, ◌≤◌}
use mathlib.Core.Path.{◌≡◌, refl, sym, subst, ◌∙◌}
use mathlib.Core.Logic.{◌≢◌, inl, inr}
use mathlib.Core.Bool.{Bool, true, false}
use mathlib.Core.List.{List, [], ◌∷◌, ◌++◌}
use native.Mathlib.Omega.{arith}
use hostlet_app.Base.Tests.{if◌then◌else◌, Bool-cases}
use hostlet_app.Base.Lists.{All, All-map}
use hostlet_app.Base.Table.{update_rows, In, All-In}
use hostlet_app.Base.Growth.{Unique}

module _ {ℓ} {A : Type ℓ} where
  -- The amounts of the rows that pass a test.
  unfoldable pub sum_of : (A → ℕ) → (A → Bool) → List A → ℕ
  sum_of amount p [] = 0
  sum_of amount p (x ∷ xs) = (if p x then amount x else 0) + sum_of amount p xs

  -- How many rows pass a test.
  unfoldable pub number_of : (A → Bool) → List A → ℕ
  number_of p [] = 0
  number_of p (x ∷ xs) = (if p x then 1 else 0) + number_of p xs

  pub number_of-sum_of : (p : A → Bool) (xs : List A) → number_of p xs ≡ sum_of (λ x. 1) p xs
  unfolding number_of sum_of
  number_of-sum_of p [] = refl
  number_of-sum_of p (x ∷ xs) = rw (number_of-sum_of p xs) refl

module _ {A : Type 0} where
  pub number_of-none : (p : A → Bool) (xs : List A) → All (λ x. p x ≡ false) xs → number_of p xs ≡ 0
  unfolding number_of
  number_of-none p [] hs = refl
  number_of-none p (x ∷ xs) hs = rw (hs.0, number_of-none p xs hs.1) refl

  pub sum_of-append :
      (amount : A → ℕ) (p : A → Bool) (xs : List A) (y : A)
      → sum_of amount p (xs ++ y ∷ []) ≡ sum_of amount p xs + (if p y then amount y else 0)
  unfolding sum_of
  sum_of-append amount p [] y = omega arith
  sum_of-append amount p (x ∷ xs) y = omega (arith, sum_of-append amount p xs y)

  pub number_of-append :
      (p : A → Bool) (xs : List A) (y : A)
      → number_of p (xs ++ y ∷ []) ≡ number_of p xs + (if p y then 1 else 0)
  unfolding number_of
  number_of-append p [] y = omega arith
  number_of-append p (x ∷ xs) y = omega (arith, number_of-append p xs y)

  -- Tests that agree on every row count the same.
  pub sum_of-ext :
      (amount : A → ℕ) (p q : A → Bool) (xs : List A)
      → All (λ x. p x ≡ q x) xs
      → sum_of amount p xs ≡ sum_of amount q xs
  unfolding sum_of
  sum_of-ext amount p q [] same = refl
  sum_of-ext amount p q (x ∷ xs) same = rw (same.0, sum_of-ext amount p q xs same.1) refl

  -- An UPDATE that makes no row pass counts no more than before.
  pub number_of-update_rows :
      (p q : A → Bool) (f : A → A) (xs : List A)
      → All (λ x. q x ≡ true → p (f x) ≡ true → p x ≡ true) xs
      → number_of p (update_rows q f xs) ≤ number_of p xs
  unfolding number_of update_rows
  number_of-update_rows p q f [] less = omega arith
  number_of-update_rows p q f (x ∷ xs) less =
      ground (arith, less.0, number_of-update_rows p q f xs less.1)

  -- Rows that the test of one key does not meet are left as they are.
  pub update_rows-others :
      (key : A → ℕ) (q : A → Bool) (f : A → A) (k : ℕ) (xs : List A)
      → ((y : A) → q y ≡ true → key y ≡ k)
      → All (λ y. key y ≢ k) xs
      → update_rows q f xs ≡ xs
  unfolding update_rows
  update_rows-others key q f k [] fits away = refl
  update_rows-others key q f k (y ∷ ys) fits away = elim (Bool-cases (q y)) [
    | inl hit ↦ absurd (away.0 (fits y hit))
    | inr miss ↦ rw (miss, update_rows-others key q f k ys fits away.1) refl
  ]

  -- An UPDATE by primary key of a row that was read moves that row alone in or out of the count.
  pub update_rows-number_of :
      (key : A → ℕ) (p q : A → Bool) (f : A → A) (x : A) (xs : List A)
      → Unique key xs
      → In x xs
      → ((y : A) → q y ≡ true → key y ≡ key x)
      → q x ≡ true
      → number_of p (update_rows q f xs) + (if p x then 1 else 0)
        ≡ number_of p xs + (if p (f x) then 1 else 0)
  unfolding number_of update_rows
  update_rows-number_of key p q f x [] u there fits hit = absurd there
  update_rows-number_of key p q f x (y ∷ ys) u (inl same) fits hit =
      subst
        (λ z.
          (if p (if q y then f y else y) then 1 else 0)
            + number_of p (update_rows q f ys)
            + (if p z then 1 else 0)
          ≡ (if p y then 1 else 0) + number_of p ys + (if p (f z) then 1 else 0))
        same
        (rw
          (
            subst (λ z. q z ≡ true) (sym same) hit,
            update_rows-others key q f (key y) ys
                (λ z h. fits z h ∙ sym (subst (λ w. key y ≡ key w) same refl)) u.0,
          )
          (omega arith))
  update_rows-number_of key p q f x (y ∷ ys) u (inr there) fits hit =
      let apart = All-In (λ z. key z ≢ key y) ys x u.0 there in
      let rest = update_rows-number_of key p q f x ys u.1 there fits hit in
      elim (Bool-cases (q y)) [
        | inl also ↦ absurd (apart (sym (fits y also)))
        | inr miss ↦ rw miss (omega (arith, rest))
      ]

  -- A row that passes is among those that are counted.
  pub number_of-In :
      (p : A → Bool) (xs : List A) (x : A) → In x xs → p x ≡ true → 1 ≤ number_of p xs
  unfolding number_of
  number_of-In p [] x there hit = absurd there
  number_of-In p (y ∷ ys) x (inl e) hit = rw (subst (λ z. p z ≡ true) (sym e) hit) (omega arith)
  number_of-In p (y ∷ ys) x (inr there) hit = omega (arith, number_of-In p ys x there hit)

  -- A test that stops at one row alone leaves its amount out.
  pub sum_of-without :
      (key amount : A → ℕ) (p q : A → Bool) (x : A) (xs : List A)
      → Unique key xs
      → In x xs
      → ((y : A) → key y ≢ key x → q y ≡ p y)
      → q x ≡ false
      → sum_of amount q xs + (if p x then amount x else 0) ≡ sum_of amount p xs
  unfolding sum_of
  sum_of-without key amount p q x [] u there same stops = absurd there
  sum_of-without key amount p q x (y ∷ ys) u (inl e) same stops =
      subst
        (λ z.
          (if q y then amount y else 0) + sum_of amount q ys + (if p z then amount z else 0)
          ≡ (if p y then amount y else 0) + sum_of amount p ys)
        e
        (rw
          (
            subst (λ z. q z ≡ false) (sym e) stops,
            sum_of-ext amount q p ys (
                All-map (λ z. key z ≢ key y) _ ys
                  (λ z away. same z (subst (λ w. key z ≢ key w) e away)) u.0),
          )
          (omega arith))
  sum_of-without key amount p q x (y ∷ ys) u (inr there) same stops =
      let apart = All-In (λ z. key z ≢ key y) ys x u.0 there in
      let rest = sum_of-without key amount p q x ys u.1 there same stops in
      rw (same y (λ e. apart (sym e))) (omega (arith, rest))
