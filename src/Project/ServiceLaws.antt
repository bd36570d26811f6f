-- ===== src/Project/ServiceLaws.antt =====
-- The services that `validate_services` of crates/protocol/src/project.rs accepts, taken together:
-- how many there are of each kind, and their names.
use hostlet_app.Base.{
  ℕ, ◌+◌, ◌≤◌, ◌<◌, ◌≡◌, ◌≢◌, refl, sym, ◌∙◌, subst, ◌⊎◌, inl, inr, true, false, List, [], ◌∷◌, any,
  if◌then◌else◌, length, All, arith,
}
use hostlet_app.Base.Text.{Text, text_eq, text_eq_refl}
use hostlet_app.Project.Spec.{
  ServiceSpec, ServiceKind, static_frontend, application, postgres, worker, scheduled_job,
  additional_backend, same, ServiceKind-discrete,
}
use hostlet_app.Project.IssueLaws.{none_left, none_right, true≢false}
use hostlet_app.Project.Services.{
  Tally, no_services, tally, tally_issues, common_issues, kind_issues, services_from,
  validate_services,
}
use hostlet_app.Project.TallyLaws.{
  kind_count, durable, tallied, tally-names, tallied-static, tallied-application, tallied-database,
  tallied-durable, tally-Counted,
}

-- What a turn of the loop has established when nothing was pushed, then and later.
pub services-turn :
    (i : ℕ) (t : Tally) (s : ServiceSpec) (ss : List ServiceSpec)
    → services_from i t (s ∷ ss) ≡ []
    → (common_issues i t.service_names s ≡ [])
      × (kind_issues s.kind i s ≡ [])
      × (services_from (i + 1) (tally t s) ss ≡ [])
unfolding services_from
services-turn i t s ss h =
    (none_left _ _ h, none_left _ _ (none_right _ _ h), none_right _ _ (none_right _ _ h))

pub services-tally :
    (i : ℕ) (t : Tally) (ss : List ServiceSpec)
    → services_from i t ss ≡ []
    → tally_issues (tallied t ss) ≡ []
unfolding tallied services_from
services-tally i t [] h = h
services-tally i t (s ∷ ss) h = services-tally (i + 1) (tally t s) ss (services-turn i t s ss h).2

kind-counted :
    (kind : ServiceKind) (i : ℕ) (s : ServiceSpec)
    → kind_issues kind i s ≡ []
    → (if same ServiceKind-discrete kind static_frontend then 1 else 0)
        + ((if same ServiceKind-discrete kind application then 1 else 0)
            + (if same ServiceKind-discrete kind postgres then 1 else 0))
      ≡ 1
unfolding kind_issues ServiceKind-discrete
kind-counted static_frontend i s h = refl
kind-counted application i s h = refl
kind-counted postgres i s h = refl
kind-counted worker i s h = cc
kind-counted scheduled_job i s h = cc
kind-counted additional_backend i s h = cc

-- The number of services against those of the three kinds.
pub services-kinds :
    (i : ℕ) (t : Tally) (ss : List ServiceSpec)
    → services_from i t ss ≡ []
    → length ss
      ≡ kind_count static_frontend ss + (kind_count application ss + kind_count postgres ss)
unfolding kind_count
services-kinds i t [] h = refl
services-kinds i t (s ∷ ss) h =
    let turn = services-turn i t s ss h in
    omega (arith, kind-counted s.kind i s turn.1, services-kinds (i + 1) (tally t s) ss turn.2)

common-fresh :
    (i : ℕ) (seen : List Text) (s : ServiceSpec)
    → common_issues i seen s ≡ []
    → any (λ n. text_eq n s.name) seen ≡ false
unfolding common_issues
common-fresh i seen s h = ground arith

-- A name that was seen against the later ones.
seen-fresh :
    (i : ℕ) (t : Tally) (ss : List ServiceSpec) (name : Text)
    → services_from i t ss ≡ []
    → any (λ m. text_eq m name) t.service_names ≡ true
    → All (λ r. r.name ≢ name) ss
seen-fresh i t [] name h k = tt
seen-fresh i t (s ∷ ss) name h k =
    let turn = services-turn i t s ss h in
    (
      λ e. true≢false (
          sym k
          ∙ subst (λ n. any (λ m. text_eq m n) t.service_names ≡ false) e
              (common-fresh i t.service_names s turn.0)),
      seen-fresh (i + 1) (tally t s) ss name turn.2 (rw (tally-names t s) (ground arith)),
    )

-- Names differ from one another.
unfoldable pub DistinctNames : List ServiceSpec → Type 0
DistinctNames [] = Unit
DistinctNames (s ∷ ss) = All (λ r. r.name ≢ s.name) ss × DistinctNames ss

pub services-names :
    (i : ℕ) (t : Tally) (ss : List ServiceSpec) → services_from i t ss ≡ [] → DistinctNames ss
unfolding DistinctNames
services-names i t [] h = tt
services-names i t (s ∷ ss) h =
    let turn = services-turn i t s ss h in
    (
      seen-fresh (i + 1) (tally t s) ss s.name turn.2
          (rw (tally-names t s) (ground (arith, text_eq_refl s.name))),
      services-names (i + 1) (tally t s) ss turn.2,
    )

-- What the initial contract allows the services of a project to be.
pub record IsStandard (ss : List ServiceSpec) : Type 0 where
  pub kinds :
      length ss
      ≡ kind_count static_frontend ss + (kind_count application ss + kind_count postgres ss)
  pub one_static : kind_count static_frontend ss ≤ 1
  pub one_application : kind_count application ss ≤ 1
  pub one_database : kind_count postgres ss ≤ 1
  pub runnable : 0 < kind_count static_frontend ss + kind_count application ss
  pub database_used : kind_count postgres ss ≤ kind_count application ss
  pub durable_kept : (any durable ss ≡ false) ⊎ (kind_count postgres ss ≡ 1)
  pub names : DistinctNames ss

-- Services in which `validate_services` finds no issue are static frontends, applications and
-- databases, at most one of each; one of the first two is there; a database stands beside an
-- application only, and there is one where a service has durable data; no two names are the same.
pub validate_services-IsStandard :
    (ss : List ServiceSpec) → validate_services ss ≡ [] → IsStandard ss
unfolding validate_services
validate_services-IsStandard ss h =
    let counted = tally-Counted (tallied no_services ss) (services-tally 0 no_services ss h) in
    let statics = tallied-static no_services ss in
    let applications = tallied-application no_services ss in
    let databases = tallied-database no_services ss in
    let needs = tallied-durable no_services ss in
    record {
      kinds = services-kinds 0 no_services ss h;
      one_static = omega (arith, statics, counted.one_static);
      one_application = omega (arith, applications, counted.one_application);
      one_database = omega (arith, databases, counted.one_database);
      runnable = omega (arith, statics, applications, counted.runnable);
      database_used = omega (arith, applications, databases, counted.database_used);
      durable_kept = elim counted.durable_kept [
        | inl unneeded ↦ inl (sym needs ∙ unneeded)
        | inr one ↦ inr (omega (arith, databases, one))
      ];
      names = services-names 0 no_services ss h;
    }
