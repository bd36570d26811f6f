-- ===== src/Base/Table.antt =====
-- Tables of rows, as the SQL statements of the handlers use them.
use mathlib.Core.Path.{◌≡◌, ◌∙◌, refl, sym, subst}
use mathlib.Core.Logic.{◌≢◌, ◌⊎◌, inl, inr}
use mathlib.Core.Bool.{Bool, true, false}
use mathlib.Core.Option.{Option, none, some, some-injective}
use mathlib.Core.List.{List, [], ◌∷◌, ◌++◌}
use native.Mathlib.Omega.{arith}
use hostlet_app.Base.Tests.{if◌then◌else◌, Bool-cases}
use hostlet_app.Base.Lists.{All, All-map, any}

pub false-true : false ≢ true
false-true h = cc

module _ {ℓ} {A : Type ℓ} where
  pub none-some : (x : A) → ◌≢◌ {A = Option A} none (some x)
  none-some x h = cc

  -- SELECT … WHERE, of the first row that passes.
  unfoldable pub select : (A → Bool) → List A → Option A
  select p [] = none
  select p (x ∷ xs) = if p x then some x else select p xs

  -- SELECT … WHERE, of every row that passes.
  unfoldable pub select_all : (A → Bool) → List A → List A
  select_all p [] = []
  select_all p (x ∷ xs) = let rest = select_all p xs in if p x then x ∷ rest else rest

  -- UPDATE … SET … WHERE.
  unfoldable pub update_rows : (A → Bool) → (A → A) → List A → List A
  update_rows p f [] = []
  update_rows p f (x ∷ xs) = (if p x then f x else x) ∷ update_rows p f xs

  -- What `select_first` makes of the first row, once the rest has been searched.
  unfoldable pub first_of_two : (A → A → Bool) → (A → Bool) → A → Option A → Option A
  first_of_two before p x none = if p x then some x else none
  first_of_two before p x (some y) = if p x then (if before y x then some y else some x) else some y

  -- SELECT … WHERE … ORDER BY … LIMIT 1, where `before x y` says that `x` comes first. Of rows
  -- that the order does not tell apart the earlier one is taken.
  unfoldable pub select_first : (A → A → Bool) → (A → Bool) → List A → Option A
  unfolding first_of_two
  select_first before p [] = none
  select_first before p (x ∷ xs) = first_of_two before p x (select_first before p xs)

  pub select-some : (p : A → Bool) (xs : List A) (x : A) → select p xs ≡ some x → p x ≡ true
  unfolding select
  select-some p [] x h = cc
  select-some p (y ∷ ys) x h = ground (arith, select-some p ys x)

  -- A row that is found is one of those that pass.
  pub select-any : (p : A → Bool) (xs : List A) (x : A) → select p xs ≡ some x → any p xs ≡ true
  unfolding select
  select-any p [] x h = absurd (none-some x h)
  select-any p (y ∷ ys) x h = elim (Bool-cases (p y)) [
    | inl hit ↦ rw hit refl
    | inr miss ↦ rw miss (select-any p ys x (rw miss at h))
  ]

  -- The row that an INSERT has added is found, where none passed before.
  pub select-append :
      (p : A → Bool) (xs : List A) (x : A)
      → any p xs ≡ false
      → p x ≡ true
      → select p (xs ++ x ∷ []) ≡ some x
  unfolding select
  select-append p [] x h k = rw k refl
  select-append p (y ∷ ys) x h k = ground (arith, select-append p ys x)

  -- A row that is found stays in front of those that come later.
  pub select-before :
      (p : A → Bool) (xs ys : List A) (x : A) → select p xs ≡ some x → select p (xs ++ ys) ≡ some x
  unfolding select
  select-before p [] ys x h = cc
  select-before p (z ∷ zs) ys x h = ground (arith, select-before p zs ys x)

  -- What a SELECT finds after an INSERT was there, or is the new row.
  pub select-append_cases :
      (p : A → Bool) (xs : List A) (y x : A)
      → select p (xs ++ y ∷ []) ≡ some x
      → (select p xs ≡ some x) ⊎ ((p y ≡ true) × (y ≡ x))
  unfolding select
  select-append_cases p [] y x h = elim (Bool-cases (p y)) [
    | inl hit ↦ inr (hit, some-injective y x (rw hit at h))
    | inr miss ↦ absurd (none-some x (rw miss at h))
  ]
  select-append_cases p (z ∷ zs) y x h = elim (Bool-cases (p z)) [
    | inl hit ↦ inl (rw hit (rw hit at h))
    | inr miss ↦ rw miss (select-append_cases p zs y x (rw miss at h))
  ]

  -- What a SELECT finds after an UPDATE that keeps what it asks for was found before.
  pub select-update_rows :
      (p q : A → Bool) (f : A → A) (xs : List A) (y : A)
      → ((x : A) → q x ≡ true → p (f x) ≡ p x)
      → select p (update_rows q f xs) ≡ some y
      → (x : A) × (select p xs ≡ some x) × (((q x ≡ true) × (f x ≡ y)) ⊎ ((q x ≡ false) × (x ≡ y)))
  unfolding select update_rows
  select-update_rows p q f [] y same h = absurd (none-some y h)
  select-update_rows p q f (z ∷ zs) y same h = elim (Bool-cases (q z)) [
    | inl hit ↦ elim (Bool-cases (p z)) [
      | inl passes ↦
          (z, rw passes refl, inl (hit, some-injective (f z) y (rw (hit, same z hit, passes) at h)))
      | inr fails ↦ rw fails (select-update_rows p q f zs y same (rw (hit, same z hit, fails) at h))
    ]
    | inr miss ↦ elim (Bool-cases (p z)) [
      | inl passes ↦ (z, rw passes refl, inr (miss, some-injective z y (rw (miss, passes) at h)))
      | inr fails ↦ rw fails (select-update_rows p q f zs y same (rw (miss, fails) at h))
    ]
  ]

  -- What an UPDATE makes of the row that a SELECT finds.
  pub select-updated :
      (p q : A → Bool) (f : A → A) (xs : List A) (x : A)
      → ((y : A) → q y ≡ true → p (f y) ≡ p y)
      → select p xs ≡ some x
      → select p (update_rows q f xs) ≡ some (if q x then f x else x)
  unfolding select update_rows
  select-updated p q f [] x same h = absurd (none-some x h)
  select-updated p q f (z ∷ zs) x same h = elim (Bool-cases (p z)) [
    | inl passes ↦ elim (Bool-cases (q z)) [
      | inl hit ↦ rw (hit, same z hit, passes, sym (some-injective z x (rw passes at h)), hit) refl
      | inr miss ↦ rw (miss, passes, sym (some-injective z x (rw passes at h)), miss) refl
    ]
    | inr fails ↦ elim (Bool-cases (q z)) [
      | inl hit ↦ rw (hit, same z hit, fails) (select-updated p q f zs x same (rw fails at h))
      | inr miss ↦ rw (miss, fails) (select-updated p q f zs x same (rw fails at h))
    ]
  ]

  -- A further condition that the first row meets finds that row.
  pub select-narrow :
      (p q : A → Bool) (xs : List A) (x : A)
      → ((y : A) → q y ≡ true → p y ≡ true)
      → q x ≡ true
      → select p xs ≡ some x
      → select q xs ≡ some x
  unfolding select
  select-narrow p q [] x narrower hit h = absurd (none-some x h)
  select-narrow p q (z ∷ zs) x narrower hit h = elim (Bool-cases (p z)) [
    | inl passes ↦
        let same = some-injective z x (rw passes at h) in
        rw (subst (λ y. q y ≡ true) (sym same) hit, same) refl
    | inr fails ↦ elim (Bool-cases (q z)) [
      | inl also ↦ absurd (false-true (sym fails ∙ narrower z also))
      | inr miss ↦ rw miss (select-narrow p q zs x narrower hit (rw fails at h))
    ]
  ]

  pub All-select {κ} :
      (P : A → Type κ) (p : A → Bool) (xs : List A) {x : A} → All P xs → select p xs ≡ some x → P x
  unfolding select
  All-select P p [] hs h = cc
  All-select P p (y ∷ ys) {x} hs h = elim (Bool-cases (p y)) [
    | inl hit ↦ subst P (some-injective y x (rw (hit) at h)) hs.0
    | inr miss ↦ All-select P p ys hs.1 (rw (miss) at h)
  ]

  pub All-update_rows {κ} :
      (P : A → Type κ) (p : A → Bool) (f : A → A) (xs : List A)
      → ((x : A) → p x ≡ true → P x → P (f x))
      → All P xs
      → All P (update_rows p f xs)
  unfolding update_rows
  All-update_rows P p f [] step hs = tt
  All-update_rows P p f (x ∷ xs) step hs = (
    elim (Bool-cases (p x)) [ inl hit ↦ rw hit (step x hit hs.0) | inr miss ↦ rw miss hs.0 ],
    All-update_rows P p f xs step hs.1,
  )

module _ {ℓ} {A : Type ℓ} where
  pub All-select_all {κ} :
      (P : A → Type κ) (p : A → Bool) (xs : List A)
      → All P xs
      → All (λ x. P x × (p x ≡ true)) (select_all p xs)
  unfolding select_all
  All-select_all P p [] hs = tt
  All-select_all P p (x ∷ xs) hs = elim (Bool-cases (p x)) [
    | inl hit ↦ rw hit ((hs.0, hit), All-select_all P p xs hs.1)
    | inr miss ↦ rw miss (All-select_all P p xs hs.1)
  ]

module _ {A : Type 0} where
  -- A row stands in a table.
  abbrev pub In : A → List A → Type 0
  In x [] = ⊥
  In x (y ∷ ys) = (y ≡ x) ⊎ In x ys

  pub All-In : (P : A → Type 0) (xs : List A) (x : A) → All P xs → In x xs → P x
  All-In P [] x hs h = absurd h
  All-In P (y ∷ ys) x hs (inl e) = subst P e hs.0
  All-In P (y ∷ ys) x hs (inr h) = All-In P ys x hs.1 h

  pub All-self : (xs : List A) → All (λ x. In x xs) xs
  All-self [] = tt
  All-self (x ∷ xs) = (inl refl, All-map (λ y. In y xs) _ xs (λ y. inr) (All-self xs))

  pub select-In : (p : A → Bool) (xs : List A) (x : A) → select p xs ≡ some x → In x xs
  unfolding select
  select-In p [] x h = cc
  select-In p (y ∷ ys) x h = elim (Bool-cases (p y)) [
    | inl hit ↦ inl (some-injective y x (rw hit at h))
    | inr miss ↦ inr (select-In p ys x (rw miss at h))
  ]

  first_of_two_cases :
      (before : A → A → Bool) (p : A → Bool) (y : A) (r : Option A) (x : A)
      → first_of_two before p y r ≡ some x
      → ((y ≡ x) × (p y ≡ true)) ⊎ (r ≡ some x)
  unfolding first_of_two
  first_of_two_cases before p y none x h = ground arith
  first_of_two_cases before p y (some z) x h = ground arith

  pub select_first-In :
      (before : A → A → Bool) (p : A → Bool) (xs : List A) (x : A)
      → select_first before p xs ≡ some x
      → In x xs × (p x ≡ true)
  unfolding select_first
  select_first-In before p [] x h = cc
  select_first-In before p (y ∷ ys) x h =
      elim (first_of_two_cases before p y (select_first before p ys) x h) [
        | inl (e, hit) ↦ (inl e, subst (λ z. p z ≡ true) e hit)
        | inr e ↦ let (here, hit) = select_first-In before p ys x e in (inr here, hit)
      ]

  first_of_two-none :
      (before : A → A → Bool) (p : A → Bool) (y : A) (r : Option A)
      → first_of_two before p y r ≡ none
      → (p y ≡ false) × (r ≡ none)
  unfolding first_of_two
  first_of_two-none before p y none h = ground arith
  first_of_two-none before p y (some z) h = ground arith

  pub select_first-none :
      (before : A → A → Bool) (p : A → Bool) (xs : List A)
      → select_first before p xs ≡ none
      → All (λ k. p k ≡ false) xs
  unfolding select_first
  select_first-none before p [] h = tt
  select_first-none before p (y ∷ ys) h =
      let (fails, rest) = first_of_two-none before p y (select_first before p ys) h in
      (fails, select_first-none before p ys rest)

  -- How the first of a row and of what was found in the rest is chosen.
  first_of_two-least :
      (before : A → A → Bool) (p : A → Bool) (y z x : A)
      → ((a b : A) → before a b ≡ true → before b a ≡ false)
      → first_of_two before p y (some z) ≡ some x
      → ((z ≡ x) × ((p y ≡ false) ⊎ (before y z ≡ false))) ⊎ ((y ≡ x) × (before z y ≡ false))
  unfolding first_of_two
  first_of_two-least before p y z x asym h = ground (arith, asym z y)

  -- Of the rows that pass, none comes before the one that `select_first` takes.
  pub select_first-least :
      (before : A → A → Bool) (p : A → Bool) (xs : List A)
      → ((a : A) → before a a ≡ false)
      → ((a b : A) → before a b ≡ true → before b a ≡ false)
      → ((a b c : A) → before a b ≡ false → before b c ≡ false → before a c ≡ false)
      → (x : A) → select_first before p xs ≡ some x
      → All (λ k. (p k ≡ false) ⊎ (before k x ≡ false)) xs
  unfolding select_first
  select_first-least before p [] irrefl asym negtrans x h = tt
  select_first-least before p (y ∷ ys) irrefl asym negtrans x h =
      go (select_first before p ys) refl
        (λ z e. select_first-least before p ys irrefl asym negtrans z e) h
    where
      go :
          (r : Option A)
          → select_first before p ys ≡ r
          → ((z : A)
              → select_first before p ys ≡ some z
              → All (λ k. (p k ≡ false) ⊎ (before k z ≡ false)) ys)
          → first_of_two before p y r ≡ some x
          → All (λ k. (p k ≡ false) ⊎ (before k x ≡ false)) (y ∷ ys)
      go none e rest g = elim (first_of_two_cases before p y none x g) [
        | inl (same, hit) ↦ (
          inr (subst (λ z. before y z ≡ false) same (irrefl y)),
          All-map (λ k. p k ≡ false) _ ys (λ k. inl) (select_first-none before p ys e),
        )
        | inr never ↦ cc
      ]
      go (some z) e rest g =
          let least = rest z e in
          elim (first_of_two-least before p y z x asym g) [
            | inl (same, front) ↦
                subst (λ w. All (λ k. (p k ≡ false) ⊎ (before k w ≡ false)) (y ∷ ys)) same
                  (front, least)
            | inr (same, later) ↦
                subst (λ w. All (λ k. (p k ≡ false) ⊎ (before k w ≡ false)) (y ∷ ys)) same
                  (
                    inr (irrefl y),
                    All-map _ _ ys
                        (λ k d. elim d [
                          | inl fails ↦ inl fails
                          | inr front ↦ inr (negtrans k z y front later)
                        ])
                        least,
                  )
          ]
