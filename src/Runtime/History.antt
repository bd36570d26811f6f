-- ===== src/Runtime/History.antt =====
-- The observations of crates/control/src/runtime_policy.rs as the history of its allocations.
use hostlet_app.Base.{
  suc, length, ℕ, ◌+◌, ◌<◌, ◌≡◌, refl, sym, ap, ◌∙◌, subst, true, false, some, List, [], ◌∷◌, ◌++◌,
  ltb, ◌==◌, ◌⊎◌, inl, inr, if◌then◌else◌, Bool-cases, arith,
}
use hostlet_app.Base.Table.{select, select-some, select-update_rows}
use hostlet_app.Base.Counts.{number_of, number_of-append}
use hostlet_app.Runtime.Receipt.{AllocationState}
use hostlet_app.Runtime.Observe.{AllocationRow, RuntimeObservationRow, Runtimes}
use hostlet_app.Runtime.Store.{RuntimeEnv}
use hostlet_app.Runtime.Record.{
  is_allocation, of_allocation, last_sequence, set_state, add_observation, record_observation,
}
use hostlet_app.Runtime.Steps.{Observed, observes, stays, record_observation-Observed}
use hostlet_app.Runtime.Lives.{ObservationCall, run_observations, same_number}

-- The state that the last observation of an allocation reports, and `s` if it has none.
unfoldable pub last_state : AllocationState → ℕ → List RuntimeObservationRow → AllocationState
last_state s id [] = s
last_state s id (o ∷ rest) = last_state (if of_allocation id o then o.state else s) id rest

-- The numbers of an allocation's observations, in the order in which they were recorded.
unfoldable pub sequences : ℕ → List RuntimeObservationRow → List ℕ
sequences id [] = []
sequences id (o ∷ rest) =
    let later = sequences id rest in if of_allocation id o then o.sequence ∷ later else later

-- n, n + 1, n + 2 and so on.
abbrev pub CountsFrom : ℕ → List ℕ → Type 0
CountsFrom n [] = Unit
CountsFrom n (m ∷ ms) = (m ≡ n) × CountsFrom (suc n) ms

-- An allocation is in the state that was last observed, and its observations are numbered from 1
-- without a gap, in the order in which they were recorded; the largest number is how many there are.
pub record IsHistory (db : Runtimes) : Type 0 where
  pub in_last_state :
      (id : ℕ) (a : AllocationRow)
      → select (is_allocation id) db.allocations ≡ some a
      → a.state ≡ last_state AllocationState.allocated id db.observations
  pub numbered : (id : ℕ) → CountsFrom 1 (sequences id db.observations)
  pub counted :
      (id : ℕ) → last_sequence id db.observations ≡ number_of (of_allocation id) db.observations

last_state-append :
    (s : AllocationState) (id : ℕ) (rows : List RuntimeObservationRow) (o : RuntimeObservationRow)
    → last_state s id (rows ++ o ∷ [])
      ≡ (if of_allocation id o then o.state else last_state s id rows)
unfolding last_state
last_state-append s id [] o = refl
last_state-append s id (p ∷ rows) o =
    last_state-append (if of_allocation id p then p.state else s) id rows o

sequences-append :
    (id : ℕ) (rows : List RuntimeObservationRow) (o : RuntimeObservationRow)
    → sequences id (rows ++ o ∷ [])
      ≡ sequences id rows ++ (if of_allocation id o then o.sequence ∷ [] else [])
unfolding sequences
sequences-append id [] o = ground arith
sequences-append id (p ∷ rows) o = elim (Bool-cases (of_allocation id p)) [
  | inl own ↦ rw own (ap (λ ns. p.sequence ∷ ns) (sequences-append id rows o))
  | inr other ↦ rw other (sequences-append id rows o)
]

length-sequences :
    (id : ℕ) (rows : List RuntimeObservationRow)
    → length (sequences id rows) ≡ number_of (of_allocation id) rows
unfolding sequences number_of
length-sequences id [] = refl
length-sequences id (p ∷ rows) = elim (Bool-cases (of_allocation id p)) [
  | inl own ↦ rw own (omega (arith, length-sequences id rows))
  | inr other ↦ rw other (omega (arith, length-sequences id rows))
]

CountsFrom-append :
    (n : ℕ) (ms : List ℕ) (m : ℕ)
    → CountsFrom n ms
    → m ≡ n + length ms
    → CountsFrom n (ms ++ m ∷ [])
CountsFrom-append n [] m h next = (omega (arith, next), tt)
CountsFrom-append n (k ∷ ms) m h next =
    (h.0, CountsFrom-append (suc n) ms m h.1 (omega (arith, next)))

CountsFrom-none : (n : ℕ) (ms : List ℕ) → CountsFrom n ms → CountsFrom n (ms ++ [])
CountsFrom-none n [] h = tt
CountsFrom-none n (k ∷ ms) h = (h.0, CountsFrom-none (suc n) ms h.1)

last_sequence-others :
    (id : ℕ) (rows : List RuntimeObservationRow) (o : RuntimeObservationRow)
    → of_allocation id o ≡ false
    → last_sequence id (rows ++ o ∷ []) ≡ last_sequence id rows
unfolding last_sequence
last_sequence-others id [] o other = rw other refl
last_sequence-others id (p ∷ rows) o other = rw (last_sequence-others id rows o other) refl

both_below : (l s n : ℕ) → (if ltb l s then s else l) < n → (l < n) × (s < n)
both_below l s n h = ground arith

larger : (n s : ℕ) → s < n → (if ltb n s then s else n) ≡ n
larger n s h = ground arith

last_sequence-append :
    (id : ℕ) (rows : List RuntimeObservationRow) (o : RuntimeObservationRow)
    → of_allocation id o ≡ true
    → last_sequence id rows < o.sequence
    → last_sequence id (rows ++ o ∷ []) ≡ o.sequence
unfolding last_sequence
last_sequence-append id [] o hit above = rw hit (ground (arith, above))
last_sequence-append id (p ∷ rows) o hit above = elim (Bool-cases (of_allocation id p)) [
  | inl also ↦
      let small =
        both_below (last_sequence id rows) p.sequence o.sequence
          (rw (last_sequence, also) at above) in
      rw (also, last_sequence-append id rows o hit small.0) (larger o.sequence p.sequence small.1)
  | inr other ↦ rw other (last_sequence-append id rows o hit (rw (last_sequence, other) at above))
]

no_more : (n : ℕ) → n + 0 ≡ n
no_more n = omega arith

one_more : (n : ℕ) → n < n + 1
one_more n = omega arith

-- The row of the moved allocation, or another one.
moved_row :
    (db : Runtimes) (o : RuntimeObservationRow) (id : ℕ) (b : AllocationRow)
    → select (is_allocation id) (add_observation o db).allocations ≡ some b
    → (a : AllocationRow) × (select (is_allocation id) db.allocations ≡ some a)
      × (b.state ≡ (if of_allocation id o then o.state else a.state))
unfolding add_observation
moved_row db o id b h =
    let (a, found, how) =
      select-update_rows (is_allocation id) (is_allocation o.allocation_id)
        (set_state o.state o.reason_code) db.allocations b (λ _ _. refl) h in
    let one = same_number a.id id (select-some (is_allocation id) db.allocations a found) in
    elim how [
      | inl (hit, same) ↦ (
        a,
        found,
        rw (same_test o.allocation_id id (sym (same_number a.id o.allocation_id hit) ∙ one))
            (ap (λ r. r.state) (sym same)),
      )
      | inr (miss, same) ↦ (
        a,
        found,
        rw (other_test a.id o.allocation_id id miss one) (ap (λ r. r.state) (sym same)),
      )
    ]
  where
    same_test : (i j : ℕ) → i ≡ j → (i == j) ≡ true
    same_test i j e = ground (arith, e)

    other_test : (k i j : ℕ) → (k == i) ≡ false → k ≡ j → (i == j) ≡ false
    other_test k i j e f = ground (arith, e, f)

Observed-IsHistory : (db after : Runtimes) → Observed db after → IsHistory db → IsHistory after
unfolding add_observation
Observed-IsHistory db after (stays same) h = subst IsHistory (sym same) h
Observed-IsHistory db after (observes a o there allowed next unused same) h =
    subst IsHistory (sym same) (record {
      in_last_state = λ id b found.
          let (c, before, is_state) = moved_row db o id b found in
          is_state
          ∙ ap (λ s. if of_allocation id o then o.state else s) (h.in_last_state id c before)
          ∙ sym (last_state-append AllocationState.allocated id db.observations o);
      numbered = λ id. number id (Bool-cases (of_allocation id o));
      counted = λ id. count id (Bool-cases (of_allocation id o));
    })
  where
    number :
        (id : ℕ)
        → (of_allocation id o ≡ true) ⊎ (of_allocation id o ≡ false)
        → CountsFrom 1 (sequences id (db.observations ++ o ∷ []))
    number id (inl hit) =
        let own = same_number o.allocation_id id hit in
        let numbered = next ∙ ap (λ i. last_sequence i db.observations + 1) own in
        rw (sequences-append id db.observations o, hit)
          (CountsFrom-append 1 (sequences id db.observations) o.sequence (h.numbered id)
            (omega (arith, numbered, h.counted id, length-sequences id db.observations)))
    number id (inr other) =
        rw (sequences-append id db.observations o, other)
          (CountsFrom-none 1 (sequences id db.observations) (h.numbered id))

    count :
        (id : ℕ)
        → (of_allocation id o ≡ true) ⊎ (of_allocation id o ≡ false)
        → last_sequence id (db.observations ++ o ∷ [])
          ≡ number_of (of_allocation id) (db.observations ++ o ∷ [])
    count id (inl hit) =
        let own = same_number o.allocation_id id hit in
        let numbered = next ∙ ap (λ i. last_sequence i db.observations + 1) own in
        last_sequence-append id db.observations o hit
          (subst (λ n. last_sequence id db.observations < n) (sym numbered) (one_more _))
        ∙ numbered
        ∙ ap (λ n. n + 1) (h.counted id)
        ∙ sym (
            number_of-append (of_allocation id) db.observations o
            ∙ ap (λ c. number_of (of_allocation id) db.observations + (if c then 1 else 0)) hit)
    count id (inr other) =
        last_sequence-others id db.observations o other
        ∙ h.counted id
        ∙ sym (
            number_of-append (of_allocation id) db.observations o
            ∙ ap (λ c. number_of (of_allocation id) db.observations + (if c then 1 else 0)) other
            ∙ no_more _)

-- Through any requests, from tables of which this holds already: every allocation is in the state that
-- was observed of it last (allocated, if nothing was), and its observations are numbered 1, 2, 3 and so
-- on in the order in which they were recorded.
pub run_observations-IsHistory :
    (env : RuntimeEnv) (calls : List ObservationCall) (db : Runtimes)
    → IsHistory db
    → IsHistory (run_observations env calls db)
unfolding run_observations
run_observations-IsHistory env [] db h = h
run_observations-IsHistory env (c ∷ calls) db h =
    let after = (record_observation env c.request c.now c.new_id db).0 in
    run_observations-IsHistory env calls after
      (Observed-IsHistory db after (record_observation-Observed env c.request c.now c.new_id db) h)
