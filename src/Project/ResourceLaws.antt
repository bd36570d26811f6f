-- ===== src/Project/ResourceLaws.antt =====
-- The limits that `validate_resources` of crates/protocol/src/project.rs accepts, read against the
-- benchmark of each kind of resource.
use hostlet_app.Base.{
  ℕ, ◌+◌, ◌≡◌, refl, sym, ◌∙◌, subst, inl, inr, Bool, true, false, Option, none, some, List, [],
  ◌∷◌, Bool-cases, arith,
}
use mathlib.Core.Option.{some-injective}
use hostlet_app.Project.Spec.{
  ResourceKind, BenchmarkLimit, benchmark_candidate, same, same→eq, ResourceKind-discrete,
  ResourceUnit-discrete, ResourceScope-discrete, EnforcementBehavior-discrete, LimitStatus-discrete,
}
use hostlet_app.Base.Table.{select_all}
use hostlet_app.Project.Benchmarks.{benchmark, expected-benchmark, benchmark-resource}
use hostlet_app.Project.IssueLaws.{none_left, none_right, none_unless, true≢false}
use hostlet_app.Project.Resources.{
  ExpectedLimit, expected_limits, find_limit, expected_limit, amount_issues, limit_issues, known,
  checked_limit, missing_limits, limits_from, validate_resources,
}

-- The limit that adopts a benchmark.
abbrev pub adopt : ExpectedLimit → BenchmarkLimit
adopt e = record {
  resource = e.resource;
  amount = some e.amount;
  unit = e.unit;
  scope = e.scope;
  enforcement = e.enforcement;
  status = benchmark_candidate;
}

find_limit-kind :
    (kind : ResourceKind) (es : List ExpectedLimit) (e : ExpectedLimit)
    → find_limit kind es ≡ some e
    → e.resource ≡ kind
unfolding find_limit
find_limit-kind kind [] e h = cc
find_limit-kind kind (b ∷ es) e h = elim (Bool-cases (same ResourceKind-discrete b.resource kind)) [
  | inl hit ↦
      subst (λ x. x.resource ≡ kind) (some-injective b e (rw (hit) at h))
        (same→eq ResourceKind-discrete b.resource kind hit)
  | inr miss ↦ find_limit-kind kind es e (rw (miss) at h)
]

amount-adopted :
    (i : ℕ) (amount : Option ℕ) (e : ExpectedLimit)
    → amount_issues i amount e ≡ []
    → amount ≡ some e.amount
unfolding amount_issues
amount-adopted i none e h = cc
amount-adopted i (some n) e h = ground arith

BenchmarkLimit-ext :
    (l m : BenchmarkLimit)
    → l.resource ≡ m.resource
    → l.amount ≡ m.amount
    → l.unit ≡ m.unit
    → l.scope ≡ m.scope
    → l.enforcement ≡ m.enforcement
    → l.status ≡ m.status
    → l ≡ m
BenchmarkLimit-ext l m a b c d e f = cc

limit-adopted :
    (i : ℕ) (l : BenchmarkLimit) (e : ExpectedLimit)
    → l.resource ≡ e.resource
    → limit_issues i l e ≡ []
    → l ≡ adopt e
unfolding limit_issues
limit-adopted i l e kind h =
    let units = none_right _ _ h in
    let scopes = none_right _ _ units in
    let enforcements = none_right _ _ scopes in
    BenchmarkLimit-ext l (adopt e) kind (amount-adopted i l.amount e (none_left _ _ h))
      (same→eq ResourceUnit-discrete l.unit e.unit (none_unless _ _ _ (none_left _ _ units)))
      (same→eq ResourceScope-discrete l.scope e.scope (none_unless _ _ _ (none_left _ _ scopes)))
      (same→eq EnforcementBehavior-discrete l.enforcement e.enforcement
        (none_unless _ _ _ (none_left _ _ enforcements)))
      (same→eq LimitStatus-discrete l.status benchmark_candidate
        (none_unless _ _ _ (none_right _ _ enforcements)))

abbrev pub of_kind : ResourceKind → BenchmarkLimit → Bool
of_kind kind l = same ResourceKind-discrete l.resource kind

missing-known :
    (kind : ResourceKind) (seen : List ResourceKind) (es : List ExpectedLimit) (e : ExpectedLimit)
    → find_limit kind es ≡ some e
    → missing_limits seen es ≡ []
    → known kind seen ≡ true
unfolding find_limit missing_limits
missing-known kind seen [] e f h = cc
missing-known kind seen (b ∷ es) e f h =
    elim (Bool-cases (same ResourceKind-discrete b.resource kind)) [
      | inl hit ↦
          subst (λ k. known k seen ≡ true) (same→eq ResourceKind-discrete b.resource kind hit)
            (none_unless _ _ _ (none_left _ _ h))
      | inr miss ↦ missing-known kind seen es e (rw (miss) at f) (none_right _ _ h)
    ]

checked-adopted :
    (i : ℕ) (l : BenchmarkLimit)
    → checked_limit i l (expected_limit l.resource) ≡ []
    → l ≡ adopt (benchmark l.resource)
unfolding checked_limit
checked-adopted i l h =
    limit-adopted i l (benchmark l.resource) (sym (benchmark-resource l.resource))
      (rw (expected-benchmark l.resource) at h)

-- What the loop's turn has established when nothing was pushed.
limits-turn :
    (i : ℕ) (seen : List ResourceKind) (l : BenchmarkLimit) (ls : List BenchmarkLimit)
    → limits_from i seen (l ∷ ls) ≡ []
    → (known l.resource seen ≡ false)
      × (l ≡ adopt (benchmark l.resource))
      × (limits_from (i + 1) (l.resource ∷ seen) ls ≡ [])
unfolding limits_from
limits-turn i seen l ls h = elim (Bool-cases (known l.resource seen)) [
  | inl repeated ↦ let pushed = rw (repeated) at h in cc
  | inr fresh ↦
      let passed = rw (fresh) at h in
      (fresh, checked-adopted i l (none_left _ _ passed), none_right _ _ passed)
]

limits-known :
    (i : ℕ) (seen : List ResourceKind) (ls : List BenchmarkLimit) (kind : ResourceKind)
    → limits_from i seen ls ≡ []
    → known kind seen ≡ true
    → select_all (of_kind kind) ls ≡ []
unfolding select_all
limits-known i seen [] kind h k = refl
limits-known i seen (l ∷ ls) kind h k =
    let turn = limits-turn i seen l ls h in
    elim (Bool-cases (of_kind kind l)) [
      | inl hit ↦ absurd (
          true≢false (
            sym k
            ∙ subst (λ x. known x seen ≡ false) (same→eq ResourceKind-discrete l.resource kind hit)
                turn.0))
      | inr miss ↦ rw miss (limits-known (i + 1) (l.resource ∷ seen) ls kind turn.2 (rw miss k))
    ]

limits-once :
    (i : ℕ) (seen : List ResourceKind) (ls : List BenchmarkLimit) (kind : ResourceKind)
    → limits_from i seen ls ≡ []
    → known kind seen ≡ false
    → select_all (of_kind kind) ls ≡ adopt (benchmark kind) ∷ []
unfolding limits_from select_all expected_limit
limits-once i seen [] kind h k = absurd (
    true≢false (
      sym (missing-known kind seen expected_limits (benchmark kind) (expected-benchmark kind) h)
      ∙ k))
limits-once i seen (l ∷ ls) kind h k =
    let turn = limits-turn i seen l ls h in
    elim (Bool-cases (of_kind kind l)) [
      | inl hit ↦
          let at_kind =
            subst (λ x. l ≡ adopt (benchmark x)) (same→eq ResourceKind-discrete l.resource kind hit)
              turn.1 in
          let no_other = limits-known (i + 1) (l.resource ∷ seen) ls kind turn.2 (rw hit refl) in
          rw hit (cc)
      | inr miss ↦ rw miss (limits-once (i + 1) (l.resource ∷ seen) ls kind turn.2 (rw miss k))
    ]

-- When `validate_resources` finds no issue, then for every kind of resource the entries of that kind
-- are one: the adopted benchmark, with its amount, unit, scope and enforcement, as a candidate.
pub validate_resources-exact :
    (ls : List BenchmarkLimit) (kind : ResourceKind)
    → validate_resources ls ≡ []
    → select_all (of_kind kind) ls ≡ adopt (benchmark kind) ∷ []
unfolding validate_resources
validate_resources-exact ls kind h = limits-once 0 [] ls kind h refl
