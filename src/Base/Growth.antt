-- ===== src/Base/Growth.antt =====
-- How a table changes: its rows keep their places, and its primary key stays one.
use Prim.Native.Nat.{ℕ}
use mathlib.Core.Path.{ap, ◌∙◌, ◌≡◌, refl, sym, subst}
use mathlib.Core.Logic.{◌≢◌, inl, inr}
use mathlib.Core.Bool.{Bool, true, false}
use mathlib.Core.List.{List, [], ◌∷◌, ◌++◌}
use native.Mathlib.Omega.{arith}
use hostlet_app.Base.Tests.{◌==◌, ==_iff, Bool-cases}
use hostlet_app.Base.Lists.{All, any, All-append}
use hostlet_app.Base.Table.{update_rows, All-update_rows, In, All-In}

module _ {A : Type 0} where
  -- A primary key: no two rows agree on it.
  abbrev pub Unique : (A → ℕ) → List A → Type 0
  Unique key [] = Unit
  Unique key (x ∷ xs) = All (λ y. key y ≢ key x) xs × Unique key xs

  -- The new table has the old rows in their places, each related to what it was, and behind them
  -- further rows of a kind.
  abbrev pub Grows : (A → A → Type 0) → (A → Type 0) → List A → List A → Type 0
  Grows R N [] ys = All N ys
  Grows R N (_ ∷ _) [] = ⊥
  Grows R N (x ∷ xs) (y ∷ ys) = R x y × Grows R N xs ys

  pub Grows-refl :
      (R : A → A → Type 0) (N : A → Type 0) (xs : List A) → ((x : A) → R x x) → Grows R N xs xs
  Grows-refl R N [] r = tt
  Grows-refl R N (x ∷ xs) r = (r x, Grows-refl R N xs r)

  Grows-All :
      (R : A → A → Type 0) (N : A → Type 0) (ys zs : List A)
      → ((x y : A) → N x → R x y → N y)
      → All N ys
      → Grows R N ys zs
      → All N zs
  Grows-All R N [] zs closed h g = g
  Grows-All R N (y ∷ ys) [] closed h g = absurd g
  Grows-All R N (y ∷ ys) (z ∷ zs) closed h g =
      (closed y z h.0 g.0, Grows-All R N ys zs closed h.1 g.1)

  pub Grows-trans :
      (R : A → A → Type 0) (N : A → Type 0) (xs ys zs : List A)
      → ((x y : A) → N x → R x y → N y)
      → ((x y z : A) → R x y → R y z → R x z)
      → Grows R N xs ys
      → Grows R N ys zs
      → Grows R N xs zs
  Grows-trans R N [] ys zs closed trans g h = Grows-All R N ys zs closed g h
  Grows-trans R N (x ∷ xs) [] zs closed trans g h = absurd g
  Grows-trans R N (x ∷ xs) (y ∷ ys) [] closed trans g h = absurd h
  Grows-trans R N (x ∷ xs) (y ∷ ys) (z ∷ zs) closed trans g h =
      (trans x y z g.0 h.0, Grows-trans R N xs ys zs closed trans g.1 h.1)

  pub Grows-append :
      (R : A → A → Type 0) (N : A → Type 0) (xs : List A) (y : A)
      → ((x : A) → R x x)
      → N y
      → Grows R N xs (xs ++ y ∷ [])
  Grows-append R N [] y r n = (n, tt)
  Grows-append R N (x ∷ xs) y r n = (r x, Grows-append R N xs y r n)

  -- The row that a key finds afterwards is related to the one that it found before.
  pub Grows-In :
      (R : A → A → Type 0) (N : A → Type 0) (xs ys : List A) (x : A)
      → Grows R N xs ys
      → In x xs
      → (y : A) × In y ys × R x y
  Grows-In R N [] ys x g h = absurd h
  Grows-In R N (z ∷ xs) [] x g h = absurd g
  Grows-In R N (z ∷ xs) (y ∷ ys) x g (inl e) = (y, inl refl, subst (λ w. R w y) e g.0)
  Grows-In R N (z ∷ xs) (y ∷ ys) x g (inr h) =
      let (w, there, r) = Grows-In R N xs ys x g.1 h in (w, inr there, r)

  pub update_rows-Unique :
      (key : A → ℕ) (q : A → Bool) (f : A → A) (xs : List A)
      → ((y : A) → key (f y) ≡ key y)
      → Unique key xs
      → Unique key (update_rows q f xs)
  unfolding update_rows
  update_rows-Unique key q f [] same u = tt
  update_rows-Unique key q f (x ∷ xs) same u = elim (Bool-cases (q x)) [
    | inl hit ↦ rw hit (rw (same x) (apart, update_rows-Unique key q f xs same u.1))
    | inr miss ↦ rw miss (apart, update_rows-Unique key q f xs same u.1)
  ]
    where
      apart : All (λ y. key y ≢ key x) (update_rows q f xs)
      apart =
          All-update_rows (λ y. key y ≢ key x) q f xs (λ y _ away e. away (sym (same y) ∙ e)) u.0

  update_rows_absent :
      (key : A → ℕ) (q : A → Bool) (f : A → A) (xs : List A) (k : ℕ)
      → All (λ y. key y ≢ k) xs
      → ((y : A) → q y ≡ true → key y ≡ k)
      → update_rows q f xs ≡ xs
  unfolding update_rows
  update_rows_absent key q f [] k away fits = refl
  update_rows_absent key q f (y ∷ ys) k away fits = elim (Bool-cases (q y)) [
    | inl hit ↦ absurd (away.0 (fits y hit))
    | inr miss ↦ rw (miss, update_rows_absent key q f ys k away.1 fits)
  ]

  -- An UPDATE by the primary key of a row that was read touches that row alone.
  pub update_rows-Grows :
      (R : A → A → Type 0) (N : A → Type 0) (key : A → ℕ) (q : A → Bool) (f : A → A) (xs : List A)
      (x : A)
      → Unique key xs
      → In x xs
      → ((y : A) → q y ≡ true → key y ≡ key x)
      → ((y : A) → R y y)
      → R x (f x)
      → Grows R N xs (update_rows q f xs)
  unfolding update_rows
  update_rows-Grows R N key q f [] x u h fits same step = absurd h
  update_rows-Grows R N key q f (y ∷ ys) x u (inl e) fits same step = (
    elim (Bool-cases (q y)) [ inl hit ↦ rw (hit, e) step | inr miss ↦ rw miss (same y) ],
    rw (update_rows_absent key q f ys (key x) (subst (λ z. All (λ w. key w ≢ key z) ys) e u.0) fits)
        (Grows-refl R N ys same),
  )
  update_rows-Grows R N key q f (y ∷ ys) x u (inr h) fits same step = (
    elim (Bool-cases (q y)) [
      | inl hit ↦ absurd (All-In (λ z. key z ≢ key y) ys x u.0 h (sym (fits y hit)))
      | inr miss ↦ rw miss (same y)
    ],
    update_rows-Grows R N key q f ys x u.1 h fits same step,
  )

module _ {A : Type 0} where
  -- An INSERT under a primary key keeps it.
  pub append-Unique :
      (key : A → ℕ) (xs : List A) (y : A)
      → Unique key xs
      → any (λ x. key x == key y) xs ≡ false
      → Unique key (xs ++ y ∷ [])
  append-Unique key [] y u h = (tt, tt)
  append-Unique key (x ∷ xs) y u h = (
    All-append (λ z. key z ≢ key x) xs (y ∷ []) u.0
        ((λ e. absurd (ground (arith, ==_iff (key x) (key y)))), tt),
    append-Unique key xs y u.1 (ground arith),
  )

module _ {A : Type 0} where
  -- A primary key picks out one row.
  pub Unique-In :
      (key : A → ℕ) (xs : List A) (x y : A)
      → Unique key xs
      → In x xs
      → In y xs
      → key y ≡ key x
      → y ≡ x
  Unique-In key [] x y u h g e = absurd h
  Unique-In key (z ∷ zs) x y u (inl p) (inl q) e = sym q ∙ p
  Unique-In key (z ∷ zs) x y u (inl p) (inr g) e =
      absurd (All-In (λ w. key w ≢ key z) zs y u.0 g (e ∙ sym (ap key p)))
  Unique-In key (z ∷ zs) x y u (inr h) (inl q) e =
      absurd (All-In (λ w. key w ≢ key z) zs x u.0 h (sym e ∙ sym (ap key q)))
  Unique-In key (z ∷ zs) x y u (inr h) (inr g) e = Unique-In key zs x y u.1 h g e
