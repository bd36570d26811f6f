-- ===== src/Project/TallyLaws.antt =====
-- What the counters of `validate_services` in crates/protocol/src/project.rs count, and what is left
-- when `tally_issues` finds nothing.
use hostlet_app.Base.{
  ℕ, ◌+◌, ◌≤◌, ◌<◌, ◌≡◌, refl, ◌⊎◌, Bool, false, ◌||◌, List, [], ◌∷◌, any, if◌then◌else◌, arith,
}
use hostlet_app.Project.Spec.{
  ServiceSpec, ServiceKind, static_frontend, application, postgres, worker, scheduled_job,
  additional_backend, same, ServiceKind-discrete,
}
use hostlet_app.Project.Services.{Tally, tally, count_limit, tally_issues}

-- How many services are of a kind.
unfoldable pub kind_count : ServiceKind → List ServiceSpec → ℕ
unfolding ServiceKind-discrete
kind_count kind [] = 0
kind_count kind (s ∷ ss) =
    (if same ServiceKind-discrete s.kind kind then 1 else 0) + kind_count kind ss

abbrev pub durable : ServiceSpec → Bool
durable s = s.uses_durable_data

-- The loop's variables at its end.
unfoldable pub tallied : Tally → List ServiceSpec → Tally
unfolding tally
tallied t [] = t
tallied t (s ∷ ss) = tallied (tally t s) ss

-- What one turn of the loop adds to the counts.
pub record Adds (t : Tally) (kind : ServiceKind) (u : Tally) : Type 0 where
  pub statics :
      u.static_count
      ≡ t.static_count + (if same ServiceKind-discrete kind static_frontend then 1 else 0)
  pub applications :
      u.application_count
      ≡ t.application_count + (if same ServiceKind-discrete kind application then 1 else 0)
  pub databases :
      u.database_count
      ≡ t.database_count + (if same ServiceKind-discrete kind postgres then 1 else 0)

pub tally-Adds : (t : Tally) (s : ServiceSpec) → Adds t s.kind (tally t s)
unfolding tally ServiceKind-discrete
tally-Adds t s = go s.kind
  where
    go : (kind : ServiceKind) → Adds t kind (tally t (record s { kind = kind }))
    go static_frontend = record {
      statics = refl;
      applications = omega arith;
      databases = omega arith;
    }
    go application = record { statics = omega arith; applications = refl; databases = omega arith }
    go postgres = record { statics = omega arith; applications = omega arith; databases = refl }
    go worker = record {
      statics = omega arith;
      applications = omega arith;
      databases = omega arith;
    }
    go scheduled_job = record {
      statics = omega arith;
      applications = omega arith;
      databases = omega arith;
    }
    go additional_backend = record {
      statics = omega arith;
      applications = omega arith;
      databases = omega arith;
    }

pub tallied-static :
    (t : Tally) (ss : List ServiceSpec)
    → (tallied t ss).static_count ≡ t.static_count + kind_count static_frontend ss
unfolding tallied kind_count
tallied-static t [] = omega arith
tallied-static t (s ∷ ss) = omega (arith, tallied-static (tally t s) ss, (tally-Adds t s).statics)

pub tallied-application :
    (t : Tally) (ss : List ServiceSpec)
    → (tallied t ss).application_count ≡ t.application_count + kind_count application ss
unfolding tallied kind_count
tallied-application t [] = omega arith
tallied-application t (s ∷ ss) =
    omega (arith, tallied-application (tally t s) ss, (tally-Adds t s).applications)

pub tallied-database :
    (t : Tally) (ss : List ServiceSpec)
    → (tallied t ss).database_count ≡ t.database_count + kind_count postgres ss
unfolding tallied kind_count
tallied-database t [] = omega arith
tallied-database t (s ∷ ss) =
    omega (arith, tallied-database (tally t s) ss, (tally-Adds t s).databases)

pub tally-needs :
    (t : Tally) (s : ServiceSpec) → (tally t s).needs_database ≡ (t.needs_database || durable s)
unfolding tally
tally-needs t s = go s.kind
  where
    go :
        (kind : ServiceKind)
        → (tally t (record s { kind = kind })).needs_database ≡ (t.needs_database || durable s)
    go static_frontend = refl
    go application = refl
    go postgres = refl
    go worker = refl
    go scheduled_job = refl
    go additional_backend = refl

pub tally-names :
    (t : Tally) (s : ServiceSpec) → (tally t s).service_names ≡ s.name ∷ t.service_names
unfolding tally
tally-names t s = go s.kind
  where
    go :
        (kind : ServiceKind)
        → (tally t (record s { kind = kind })).service_names ≡ s.name ∷ t.service_names
    go static_frontend = refl
    go application = refl
    go postgres = refl
    go worker = refl
    go scheduled_job = refl
    go additional_backend = refl

pub tallied-durable :
    (t : Tally) (ss : List ServiceSpec)
    → (tallied t ss).needs_database ≡ (t.needs_database || any durable ss)
unfolding tallied
tallied-durable t [] = ground arith
tallied-durable t (s ∷ ss) = ground (arith, tallied-durable (tally t s) ss, tally-needs t s)

-- What an empty `tally_issues` says of the counts.
pub record Counted (s a d : ℕ) (needs : Bool) : Type 0 where
  pub one_static : s ≤ 1
  pub one_application : a ≤ 1
  pub one_database : d ≤ 1
  pub runnable : 0 < s + a
  pub database_used : d ≤ a
  pub durable_kept : (needs ≡ false) ⊎ (d ≡ 1)

pub tally-Counted :
    (t : Tally)
    → tally_issues t ≡ []
    → Counted t.static_count t.application_count t.database_count t.needs_database
unfolding tally_issues count_limit
tally-Counted t h = record {
  one_static = ground arith;
  one_application = ground arith;
  one_database = ground arith;
  runnable = ground arith;
  database_used = ground arith;
  durable_kept = ground arith;
}
