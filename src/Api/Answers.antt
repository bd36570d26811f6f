-- ===== src/Api/Answers.antt =====
-- What holds whenever a handler of crates/control answers, and how it follows through the
-- handler's checks.
use hostlet_app.Base.{
  ◌≡◌, ◌≢◌, refl, ap, subst, Bool, true, false, Option, none, some, if◌then◌else◌,
}
use hostlet_app.Api.{ApiError, Result, ok, err}
use hostlet_app.Api.Transactions.{try_ok, found_or}

-- A property of the database and the answer that a transaction ends with, if it is no error.
pub record Answers {D X : Type 0} (Q : D → X → Type 0) (t : D × Result X) : Type 0 where
  pub answers : (db' : D) (x : X) → ◌≡◌ {A = D × Result X} t (db', ok x) → Q db' x

module _ {X : Type 0} where
  err-ok : (e : ApiError) (x : X) → ◌≢◌ {A = Result X} (err e) (ok x)
  err-ok e x h = cc

  pub ok_answer : (x y : X) → ◌≡◌ {A = Result X} (ok x) (ok y) → x ≡ y
  ok_answer x y h = cc

module _ {D X : Type 0} where
  pub Answers-err : (Q : D → X → Type 0) (db : D) (e : ApiError) → Answers Q (db, err e)
  Answers-err Q db e = record { answers = λ db' x h. absurd (err-ok e x (ap (λ t. t.1) h)) }

  pub Answers-ok : (Q : D → X → Type 0) (db : D) (x : X) → Q db x → Answers Q (db, ok x)
  Answers-ok Q db x q = record {
    answers = λ db' y h.
        subst (λ z. Q db' z) (ok_answer x y (ap (λ t. t.1) h))
          (subst (λ d. Q d x) (ap (λ t. t.0) h) q);
  }

  pub Answers-if :
      (Q : D → X → Type 0) (c : Bool) (t u : D × Result X)
      → (c ≡ true → Answers Q t)
      → (c ≡ false → Answers Q u)
      → Answers Q (if c then t else u)
  Answers-if Q true t u first second = first refl
  Answers-if Q false t u first second = second refl

  pub Answers-found :
      {Y : Type 0} (Q : D → X → Type 0) (o : Option Y) (e : ApiError) (db : D)
      (k : Y → D × Result X)
      → ((y : Y) → o ≡ some y → Answers Q (k y))
      → Answers Q (found_or o e db k)
  Answers-found Q none e db k good = Answers-err Q db e
  Answers-found Q (some y) e db k good = good y refl

  pub Answers-try :
      {Y : Type 0} (Q : D → X → Type 0) (r : Result Y) (db : D) (k : Y → D × Result X)
      → ((y : Y) → r ≡ ok y → Answers Q (k y))
      → Answers Q (try_ok r db k)
  Answers-try Q (err e) db k good = Answers-err Q db e
  Answers-try Q (ok y) db k good = good y refl

  pub Answers-map :
      (Q R : D → X → Type 0) (t : D × Result X)
      → ((db : D) (x : X) → Q db x → R db x)
      → Answers Q t
      → Answers R t
  Answers-map Q R t implies a = record { answers = λ db' x h. implies db' x (a.answers db' x h) }
