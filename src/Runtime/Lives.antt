-- ===== src/Runtime/Lives.antt =====
-- How allocations of crates/control/src/runtime_policy.rs live, through any observations.
use hostlet_app.Base.{
  ℕ, ◌≤◌, ◌≡◌, refl, sym, ap, ◌∙◌, subst, true, some, List, [], ◌∷◌, ◌==◌, inl, inr, Bool-cases,
  arith,
}
use mathlib.Core.Option.{some-injective}
use hostlet_app.Base.Table.{select, select-some, select-updated}
use hostlet_app.Runtime.Receipt.{AllocationState}
use hostlet_app.Runtime.Observe.{
  AllocationRow, Runtimes, RecordObservationRequest, transition_allowed,
}
use hostlet_app.Runtime.Store.{RuntimeEnv}
use hostlet_app.Runtime.Record.{is_allocation, set_state, add_observation, record_observation}
use hostlet_app.Runtime.Steps.{Observed, observes, stays, record_observation-Observed}

pub record ObservationCall : Type 0 where
  pub request : RecordObservationRequest
  pub now : ℕ
  pub new_id : ℕ

-- The handler on one request after the other.
unfoldable pub run_observations : RuntimeEnv → List ObservationCall → Runtimes → Runtimes
unfolding record_observation
run_observations env [] db = db
run_observations env (c ∷ calls) db =
    run_observations env calls (record_observation env c.request c.now c.new_id db).0

-- How far an allocation has come.
unfoldable pub phase : AllocationState → ℕ
phase AllocationState.allocated = 0
phase AllocationState.running = 1
phase AllocationState.healthy = 1
phase AllocationState.backoff = 1
phase AllocationState.stopped = 2
phase AllocationState.cleaned = 3

transition_allowed-phase :
    (s t : AllocationState) → transition_allowed s t ≡ true → phase s ≤ phase t
unfolding transition_allowed phase
transition_allowed-phase s t h = ground arith

-- A row that is the first one but for its state and reason, and no less far.
pub record ComesFrom (a b : AllocationRow) : Type 0 where
  pub further : phase a.state ≤ phase b.state
  pub same : b ≡ record a { state = b.state; reason_code = b.reason_code }

ComesFrom-refl : (a : AllocationRow) → ComesFrom a a
ComesFrom-refl a = record { further = omega arith; same = refl }

ComesFrom-trans : (a b c : AllocationRow) → ComesFrom a b → ComesFrom b c → ComesFrom a c
ComesFrom-trans a b c h k = record {
  further = omega (arith, h.further, k.further);
  same = k.same ∙ ap at_c h.same;
}
  where
    at_c : AllocationRow → AllocationRow
    at_c r = record r { state = c.state; reason_code = c.reason_code }

pub same_number : (i j : ℕ) → (i == j) ≡ true → i ≡ j
same_number i j e = ground arith

pub Observed-ComesFrom :
    (db after : Runtimes) (id : ℕ) (a : AllocationRow)
    → Observed db after
    → select (is_allocation id) db.allocations ≡ some a
    → (b : AllocationRow) × (select (is_allocation id) after.allocations ≡ some b) × ComesFrom a b
unfolding add_observation
Observed-ComesFrom db after id a (stays same) found =
    (a, rw (ap (λ d. d.allocations) same) found, ComesFrom-refl a)
Observed-ComesFrom db after id a (observes b o there allowed _ _ same) found =
    let updated =
      select-updated (is_allocation id) (is_allocation o.allocation_id)
        (set_state o.state o.reason_code) db.allocations a (λ _ _. refl) found in
    elim (Bool-cases (a.id == o.allocation_id)) [
      | inl hit ↦
          let one = same_number a.id id (select-some (is_allocation id) db.allocations a found) in
          let is_b = some-injective b a (
            sym there
            ∙ ap (λ i. select (is_allocation i) db.allocations)
                (sym (same_number a.id o.allocation_id hit) ∙ one)
            ∙ found) in
          (
            set_state o.state o.reason_code a,
            rw (ap (λ d. d.allocations) same) (rw hit at updated),
            record {
              further =
                  transition_allowed-phase a.state o.state
                    (subst (λ r. transition_allowed r.state o.state ≡ true) is_b allowed);
              same = refl;
            },
          )
      | inr other ↦ (a, rw (ap (λ d. d.allocations) same) (rw other at updated), ComesFrom-refl a)
    ]

-- Through any requests, no allocation is lost, none goes back to an earlier phase of its life
-- (allocated; running, healthy or waiting to restart; stopped; cleaned), and nothing of it but its
-- state and reason changes.
pub run_observations-ComesFrom :
    (env : RuntimeEnv) (calls : List ObservationCall) (db : Runtimes) (id : ℕ) (a : AllocationRow)
    → select (is_allocation id) db.allocations ≡ some a
    → (b : AllocationRow) × (select (is_allocation id) (run_observations env calls db).allocations
        ≡ some b)
      × ComesFrom a b
unfolding run_observations
run_observations-ComesFrom env [] db id a found = (a, found, ComesFrom-refl a)
run_observations-ComesFrom env (c ∷ calls) db id a found =
    let after = (record_observation env c.request c.now c.new_id db).0 in
    let (b, there, first) =
      Observed-ComesFrom db after id a (record_observation-Observed env c.request c.now c.new_id db)
        found in
    let (d, last, rest) = run_observations-ComesFrom env calls after id b there in
    (d, last, ComesFrom-trans a b d first rest)
