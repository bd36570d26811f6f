-- ===== src/Api/Transactions.antt =====
-- Transactions of the handlers of crates/control: from a state of the database to a state and an
-- answer. An error rolls back to the state that the transaction began with, unless the handler
-- commits first.
use hostlet_app.Base.{
  ◌≡◌, ◌≢◌, refl, ap, subst, Bool, true, false, Option, none, some, if◌then◌else◌,
}
use hostlet_app.Api.{ApiError, Result, ok, err}

-- `e?` inside a transaction: an error rolls back to `db`.
abbrev pub try_ok : {D X Y : Type 0} → Result X → D → (X → D × Result Y) → D × Result Y
try_ok (err e) db k = (db, err e)
try_ok (ok x) db k = k x

-- `let Some(x) = o else { rollback; return Err(e) }`.
abbrev pub found_or : {D X Y : Type 0} → Option X → ApiError → D → (X → D × Result Y) → D × Result Y
found_or none e db k = (db, err e)
found_or (some x) e db k = k x

-- A property of a transaction from those of its ways.
module _ {ℓ} {D X : Type 0} (P : D × Result X → Type ℓ) where
  pub if-either : (c : Bool) (t u : D × Result X) → P t → P u → P (if c then t else u)
  if-either true t u first second = first
  if-either false t u first second = second

  pub found_or-either :
      {Y : Type 0} (o : Option Y) (e : ApiError) (db : D) (k : Y → D × Result X)
      → P (db, err e)
      → ((y : Y) → P (k y))
      → P (found_or o e db k)
  found_or-either none e db k first second = first
  found_or-either (some y) e db k first second = second y

-- A property of the state that a transaction ends with.
pub record Ends {D X : Type 0} (Q : D → Type 0) (t : D × Result X) : Type 0 where
  pub ends : Q t.0

module _ {D X : Type 0} (Q : D → Type 0) where
  pub Ends-at : (db : D) (r : Result X) → Q db → Ends Q (db, r)
  Ends-at db r q = record { ends = q }

  pub Ends-if :
      (c : Bool) (t u : D × Result X)
      → (c ≡ true → Ends Q t)
      → (c ≡ false → Ends Q u)
      → Ends Q (if c then t else u)
  Ends-if true t u first second = first refl
  Ends-if false t u first second = second refl

  pub Ends-found :
      {Y : Type 0} (o : Option Y) (e : ApiError) (db : D) (k : Y → D × Result X)
      → Q db
      → ((y : Y) → o ≡ some y → Ends Q (k y))
      → Ends Q (found_or o e db k)
  Ends-found none e db k q good = record { ends = q }
  Ends-found (some y) e db k q good = good y refl

  pub Ends-try :
      {Y : Type 0} (r : Result Y) (db : D) (k : Y → D × Result X)
      → Q db
      → ((y : Y) → r ≡ ok y → Ends Q (k y))
      → Ends Q (try_ok r db k)
  Ends-try (err e) db k q good = record { ends = q }
  Ends-try (ok y) db k q good = good y refl

-- A property of the state that a transaction ends with and of its error, if it fails.
pub record Fails {D X : Type 0} (P : D → ApiError → Type 0) (t : D × Result X) : Type 0 where
  pub fails : (db : D) (e : ApiError) → ◌≡◌ {A = D × Result X} t (db, err e) → P db e

module _ {X : Type 0} where
  ok-err : (x : X) (e : ApiError) → ◌≢◌ {A = Result X} (ok x) (err e)
  ok-err x e h = cc

  same_error : (d e : ApiError) → ◌≡◌ {A = Result X} (err d) (err e) → d ≡ e
  same_error d e h = cc

module _ {D X : Type 0} (P : D → ApiError → Type 0) where
  pub Fails-ok : (db : D) (x : X) → Fails P (db, ok x)
  Fails-ok db x = record { fails = λ after e h. absurd (ok-err x e (ap (λ t. t.1) h)) }

  pub Fails-err : (db : D) (e : ApiError) → P db e → Fails {X = X} P (db, err e)
  Fails-err db e p = record {
    fails = λ after d h.
        subst (λ b. P b d) (ap (λ t. t.0) h)
          (subst (λ c. P db c) (same_error {X = X} e d (ap (λ t. t.1) h)) p);
  }

  pub Fails-if :
      (c : Bool) (t u : D × Result X)
      → (c ≡ true → Fails P t)
      → (c ≡ false → Fails P u)
      → Fails P (if c then t else u)
  Fails-if true t u first second = first refl
  Fails-if false t u first second = second refl

  pub Fails-found :
      {Y : Type 0} (o : Option Y) (e : ApiError) (db : D) (k : Y → D × Result X)
      → P db e
      → ((y : Y) → o ≡ some y → Fails P (k y))
      → Fails P (found_or o e db k)
  Fails-found none e db k p good = Fails-err db e p
  Fails-found (some y) e db k p good = good y refl

  pub Fails-try :
      {Y : Type 0} (r : Result Y) (db : D) (k : Y → D × Result X)
      → ((e : ApiError) → P db e)
      → ((y : Y) → r ≡ ok y → Fails P (k y))
      → Fails P (try_ok r db k)
  Fails-try (err e) db k p good = Fails-err db e (p e)
  Fails-try (ok y) db k p good = good y refl
