-- ===== src/Jobs/Advance.antt =====
-- How the table of jobs changes under the statements of crates/control/src/jobs.rs: the frame of
-- the refinement of the handlers to the transitions.
use hostlet_app.Base.{
  ℕ, ◌≡◌, refl, Bool, true, false, Option, none, some, List, ◌∷◌, [], ◌++◌, any, ◌==◌, arith,
  if◌then◌else◌,
}
use hostlet_app.Base.Table.{In, update_rows}
use hostlet_app.Base.Growth.{
  Unique, Grows, Grows-refl, Grows-trans, Grows-append, update_rows-Unique, update_rows-Grows,
  append-Unique,
}
use hostlet_app.Jobs.Model.{JobRow, Database}
use hostlet_app.Api.{ApiError, Result, ok, err}
use hostlet_app.Api.Transactions.{found_or, try_ok}
use hostlet_app.Jobs.Checks.{Tx}
use hostlet_app.Jobs.Store.{is_job}
use hostlet_app.Jobs.Steps.{
  JobStep, JobSteps, here, next, JobSteps-trans, IsNew, Born, born, Born-closed,
}

-- The primary key of `jobs`.
abbrev pub UniqueIds : List JobRow → Type 0
UniqueIds js = Unique (λ j. j.id) js

-- Every job has gone on by transitions of its own, no job is lost, and each new one comes from an
-- INSERT; identifiers stay distinct.
abbrev pub Advance : List JobRow → List JobRow → Type 0
Advance js ks = UniqueIds js → UniqueIds ks × Grows JobSteps Born js ks

pub Advance-refl : (js : List JobRow) → Advance js js
Advance-refl js u = (u, Grows-refl JobSteps Born js (λ j. here))

pub Advance-trans : (js ks ls : List JobRow) → Advance js ks → Advance ks ls → Advance js ls
Advance-trans js ks ls f g u =
    let (v, first) = f u in
    let (w, second) = g v in
    (w, Grows-trans JobSteps Born js ks ls Born-closed (λ _ _ _. JobSteps-trans) first second)

-- An UPDATE of the row that was read.
pub update-Advance :
    (q : JobRow → Bool) (f : JobRow → JobRow) (js : List JobRow) (j : JobRow)
    → In j js
    → ((k : JobRow) → q k ≡ true → k.id ≡ j.id)
    → ((k : JobRow) → (f k).id ≡ k.id)
    → JobStep j (f j)
    → Advance js (update_rows q f js)
update-Advance q f js j found fits same step u = (
  update_rows-Unique (λ k. k.id) q f js same u,
  update_rows-Grows JobSteps Born (λ k. k.id) q f js j u found fits (λ k. here) (next here step),
)

pub is_job-id :
    (id account project : ℕ) (k : JobRow) → is_job id account project k ≡ true → k.id ≡ id
is_job-id id account project k h = ground arith

-- An INSERT of a new job.
pub insert-Advance :
    (js : List JobRow) (j : JobRow)
    → IsNew j
    → any (λ k. k.id == j.id) js ≡ false
    → Advance js (js ++ j ∷ [])
insert-Advance js j new fresh u = (
  append-Unique (λ k. k.id) js j u fresh,
  Grows-append JobSteps Born js j (λ k. here) (born j new here),
)

-- What a handler answers does not matter for the table of jobs.
pub record Moves {X : Type 0} (db : Database) (t : Tx X) : Type 0 where
  pub moves : Advance db.jobs t.0.jobs

module _ {X : Type 0} where
  pub Moves-stay : (db : Database) (t : Tx X) → t.0.jobs ≡ db.jobs → Moves db t
  Moves-stay db t e = record { moves = rw e (Advance-refl db.jobs) }

  pub Moves-if :
      (db : Database) (c : Bool) (x y : Tx X)
      → (c ≡ true → Moves db x)
      → (c ≡ false → Moves db y)
      → Moves db (if c then x else y)
  Moves-if db true x y first second = first refl
  Moves-if db false x y first second = second refl

  -- `if c { return Err(e) }`.
  pub Moves-refuse :
      (db : Database) (c : Bool) (e : ApiError) (y : Tx X)
      → (c ≡ false → Moves db y)
      → Moves db (if c then (db, err e) else y)
  Moves-refuse db c e y good =
      Moves-if db c (db, err e) y (λ _. Moves-stay db (db, err e) refl) good

  pub Moves-found :
      {Y : Type 0} (db : Database) (o : Option Y) (e : ApiError) (k : Y → Tx X)
      → ((y : Y) → o ≡ some y → Moves db (k y))
      → Moves db (found_or o e db k)
  Moves-found db none e k good = Moves-stay db _ refl
  Moves-found db (some y) e k good = good y refl

  pub Moves-try :
      {Y : Type 0} (db : Database) (r : Result Y) (k : Y → Tx X)
      → ((y : Y) → r ≡ ok y → Moves db (k y))
      → Moves db (try_ok r db k)
  Moves-try db (err e) k good = Moves-stay db _ refl
  Moves-try db (ok y) k good = good y refl
