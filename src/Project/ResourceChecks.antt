-- ===== src/Project/ResourceChecks.antt =====
-- Limits that `validate_resources` of crates/protocol/src/project.rs cannot object to.
use hostlet_app.Base.{
  ℕ, ◌+◌, ◌≡◌, inl, inr, refl, sym, subst, true, false, List, [], ◌∷◌, ◌==◌, Bool-cases, arith,
}
use hostlet_app.Base.Table.{select_all}
use hostlet_app.Project.Spec.{
  ResourceKind, BenchmarkLimit, same_refl, same→eq, ResourceKind-discrete, ResourceUnit-discrete,
  ResourceScope-discrete, EnforcementBehavior-discrete, LimitStatus-discrete, benchmark_candidate,
}
use hostlet_app.Project.IssueLaws.{none_both, true≢false}
use hostlet_app.Project.Resources.{
  ExpectedLimit, expected_limits, amount_issues, limit_issues, expected_limit, known, checked_limit,
  missing_limits, limits_from, validate_resources,
}
use hostlet_app.Project.Benchmarks.{benchmark, expected-benchmark, benchmark-IsPositive}
use hostlet_app.Project.ResourceLaws.{adopt, of_kind}

adopted-unobjectionable :
    (i : ℕ) (e : ExpectedLimit) → (e.amount == 0) ≡ false → limit_issues i (adopt e) e ≡ []
unfolding limit_issues amount_issues
adopted-unobjectionable i e positive =
    rw
      (
        positive,
        same_refl ResourceUnit-discrete e.unit,
        same_refl ResourceScope-discrete e.scope,
        same_refl EnforcementBehavior-discrete e.enforcement,
        same_refl LimitStatus-discrete benchmark_candidate,
      )
      (ground arith)

checked_limit-unobjectionable :
    (i : ℕ) (kind : ResourceKind)
    → checked_limit i (adopt (benchmark kind)) (expected_limit kind) ≡ []
unfolding checked_limit
checked_limit-unobjectionable i kind =
    rw (expected-benchmark kind)
      (adopted-unobjectionable i (benchmark kind) (benchmark-IsPositive kind))

nothing_missing :
    (seen : List ResourceKind) (es : List ExpectedLimit)
    → ((kind : ResourceKind) → known kind seen ≡ true)
    → missing_limits seen es ≡ []
unfolding missing_limits
nothing_missing seen [] all_known = refl
nothing_missing seen (e ∷ es) all_known =
    rw (all_known e.resource, nothing_missing seen es all_known) refl

-- What is left of each kind once some kinds have been seen.
record LeftOf (seen : List ResourceKind) (ls : List BenchmarkLimit) : Type 0 where
  pub gone : (kind : ResourceKind) → known kind seen ≡ true → select_all (of_kind kind) ls ≡ []
  pub due :
      (kind : ResourceKind)
      → known kind seen ≡ false
      → select_all (of_kind kind) ls ≡ adopt (benchmark kind) ∷ []

left_all_known :
    (seen : List ResourceKind) → LeftOf seen [] → (kind : ResourceKind) → known kind seen ≡ true
unfolding select_all
left_all_known seen left kind = elim (Bool-cases (known kind seen)) [
  | inl there ↦ there
  | inr absent ↦ let missing = left.due kind absent in cc
]

-- The first entry is the one that is due of its kind.
first_due :
    (seen : List ResourceKind) (l : BenchmarkLimit) (ls : List BenchmarkLimit)
    → LeftOf seen (l ∷ ls)
    → (known l.resource seen ≡ false)
      × (l ∷ select_all (of_kind l.resource) ls ≡ adopt (benchmark l.resource) ∷ [])
unfolding select_all
first_due seen l ls left =
    let own = same_refl ResourceKind-discrete l.resource in
    elim (Bool-cases (known l.resource seen)) [
      | inl there ↦ let surplus = rw (own) at (left.gone l.resource there) in cc
      | inr fresh ↦ (fresh, rw (own) at (left.due l.resource fresh))
    ]

rest_LeftOf :
    (seen : List ResourceKind) (l : BenchmarkLimit) (ls : List BenchmarkLimit)
    → LeftOf seen (l ∷ ls)
    → select_all (of_kind l.resource) ls ≡ []
    → LeftOf (l.resource ∷ seen) ls
unfolding select_all
rest_LeftOf seen l ls left none_left = record {
  gone = λ kind k. elim (Bool-cases (of_kind kind l)) [
    | inl hit ↦
        subst (λ x. select_all (of_kind x) ls ≡ [])
          (same→eq ResourceKind-discrete l.resource kind hit) none_left
    | inr miss ↦ rw (miss) at (left.gone kind (rw (miss) at k))
  ];
  due = λ kind k. elim (Bool-cases (of_kind kind l)) [
    | inl hit ↦ absurd (true≢false (rw (hit) at k))
    | inr miss ↦ rw (miss) at (left.due kind (rw (miss) at k))
  ];
}

LeftOf-turn :
    (seen : List ResourceKind) (l : BenchmarkLimit) (ls : List BenchmarkLimit)
    → LeftOf seen (l ∷ ls)
    → (known l.resource seen ≡ false)
      × (l ≡ adopt (benchmark l.resource))
      × LeftOf (l.resource ∷ seen) ls
LeftOf-turn seen l ls left =
    let (fresh, due) = first_due seen l ls left in (fresh, cc, rest_LeftOf seen l ls left cc)

limits_from-LeftOf :
    (i : ℕ) (seen : List ResourceKind) (ls : List BenchmarkLimit)
    → LeftOf seen ls
    → limits_from i seen ls ≡ []
unfolding limits_from
limits_from-LeftOf i seen [] left = nothing_missing seen expected_limits (left_all_known seen left)
limits_from-LeftOf i seen (l ∷ ls) left =
    let (fresh, adopted, rest) = LeftOf-turn seen l ls left in
    rw (fresh) (
      none_both _ _
        (subst (λ m. checked_limit i m (expected_limit l.resource) ≡ []) (sym adopted)
          (checked_limit-unobjectionable i l.resource))
        (limits_from-LeftOf (i + 1) (l.resource ∷ seen) ls rest))

-- When for every kind of resource the entries of that kind are one, the adopted benchmark as a
-- candidate, then `validate_resources` finds no issue, in whatever order the limits stand.
pub validate_resources_complete :
    (ls : List BenchmarkLimit)
    → ((kind : ResourceKind) → select_all (of_kind kind) ls ≡ adopt (benchmark kind) ∷ [])
    → validate_resources ls ≡ []
unfolding validate_resources
validate_resources_complete ls each =
    limits_from-LeftOf 0 [] ls
      (record { gone = λ kind k. absurd (true≢false (sym k)); due = λ kind k. each kind })
