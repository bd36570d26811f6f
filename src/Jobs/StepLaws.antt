-- ===== src/Jobs/StepLaws.antt =====
-- Invariants of the transitions of a job, and of every sequence of them.
use hostlet_app.Base.{ℕ, ◌<◌, true, false, ◌≡◌, refl, sym, ◌∙◌, subst, ltb, arith}
use hostlet_app.Base.Text.{text_eq_refl}
use hostlet_app.Jobs.Checks.{job_kind}
use hostlet_app.Jobs.Lease.{is_claimable}
use hostlet_app.Jobs.Model.{JobRow}
use hostlet_app.Jobs.Store.{is_terminal, is_waiting}
use hostlet_app.Jobs.Steps.{
  JobStep, claims, JobSteps, here, next, IsNew, IsCommit, Born, born, SameJob, NoLess, IsCounted,
  IsSound,
}

IsNew-IsCounted : (j : JobRow) → IsNew j → IsCounted j
IsNew-IsCounted j n = ground arith

pub JobStep-SameJob : (j k : JobRow) → JobStep j k → SameJob j k
JobStep-SameJob j k (claims attempt until now w r e) = ground arith
JobStep-SameJob j k s = ground arith

pub JobStep-NoLess : (j k : JobRow) → JobStep j k → NoLess j k
JobStep-NoLess j k (claims attempt until now w r e) = ground arith
JobStep-NoLess j k s = ground arith

JobStep-IsCounted : (j k : JobRow) → IsCounted j → JobStep j k → IsCounted k
JobStep-IsCounted j k v (claims attempt until now w r e) = ground arith
JobStep-IsCounted j k v s = ground arith

pub JobStep-not_terminal : (j k : JobRow) → JobStep j k → is_terminal j.state ≡ false
JobStep-not_terminal j k (claims attempt until now w r e) = ground arith
JobStep-not_terminal j k s = ground arith

-- Through any transitions a job keeps its identity, its scope, its source and its limit.
pub JobSteps-SameJob : (j k : JobRow) → JobSteps j k → SameJob j k
JobSteps-SameJob j k here = ground arith
JobSteps-SameJob j k (next {k = m} p s) =
    ground (arith, JobSteps-SameJob j m p, JobStep-SameJob m k s)

-- Through any transitions its revision, attempts and fence only go up, and every new attempt has a
-- new fence.
pub JobSteps-NoLess : (j k : JobRow) → JobSteps j k → NoLess j k
JobSteps-NoLess j k here = ground arith
JobSteps-NoLess j k (next {k = m} p s) = omega (arith, JobSteps-NoLess j m p, JobStep-NoLess m k s)

JobSteps-IsCounted : (j k : JobRow) → IsCounted j → JobSteps j k → IsCounted k
JobSteps-IsCounted j k v here = v
JobSteps-IsCounted j k v (next {k = m} p s) = JobStep-IsCounted m k (JobSteps-IsCounted j m v p) s

-- A terminal job never changes again.
pub JobSteps-terminal : (j k : JobRow) → is_terminal j.state ≡ true → JobSteps j k → k ≡ j
JobSteps-terminal j k t here = refl
JobSteps-terminal j k t (next {k = m} p s) =
    let e = JobSteps-terminal j m t p in ground (arith, JobStep-not_terminal m k s)

-- A job that waits with an attempt left, of the kind that is queued here, can be claimed.
claimable :
    (k : JobRow)
    → IsCounted k
    → k.kind ≡ job_kind
    → is_waiting k.state ≡ true
    → is_claimable k ≡ true
claimable k counted kind waits =
    rw (kind, waits, below k.attempt_count k.max_attempts (counted.attempts_left waits))
      (text_eq_refl job_kind)
  where
    below : (n m : ℕ) → n < m → ltb n m ≡ true
    below n m h = ground arith

pub Born-IsSound : (k : JobRow) → Born k → IsSound k
Born-IsSound k (born j new p) =
    let counted = JobSteps-IsCounted j k (IsNew-IsCounted j new) p in
    let same = JobSteps-SameJob j k p in
    let kind = same.kind ∙ new.bookkeeping in
    record {
      counted = counted;
      bookkeeping = kind;
      building = same.operation ∙ new.building;
      commit = subst IsCommit (sym same.source_commit) new.commit;
      waiting_claimable = claimable k counted kind;
    }
