-- ===== src/Jobs/EffectLaws.antt =====
-- The effects of jobs, `job_effects`, while the handlers of crates/control/src/jobs.rs go on.
use hostlet_app.Base.{
  ℕ, ◌≡◌, inl, inr, refl, sym, subst, false, ◌||◌, ◌&&◌, some, List, [], ◌∷◌, ◌++◌, any, leb, ◌==◌,
  Bool-cases, Option-cases, arith,
}
use hostlet_app.Base.Table.{In, select}
use hostlet_app.Base.Growth.{Unique, append-Unique}
use mathlib.Core.Option.{some-injective}
use hostlet_app.Jobs.Model.{JobRow, EffectRow, Database}
use hostlet_app.Jobs.Messages.{Env}
use hostlet_app.Jobs.Reap.{
  insert_effect, insert_effect_once, exhausted_effect, reap_audit, Reap, idle, reaped, failed,
  reap_job,
}

-- No job has two effects.
abbrev pub UniqueEffects : List EffectRow → Type 0
UniqueEffects es = Unique (λ e. e.job_id) es

-- Effects are only added, and never a second one for a job.
pub record EffectsGrow (es fs : List EffectRow) : Type 0 where
  pub kept : (e : EffectRow) → In e es → In e fs
  pub unique : UniqueEffects es → UniqueEffects fs

pub EffectsGrow-same : (es fs : List EffectRow) → fs ≡ es → EffectsGrow es fs
EffectsGrow-same es fs same = record { kept = λ e h. rw same h; unique = λ u. rw same u }

pub EffectsGrow-trans :
    (es fs gs : List EffectRow) → EffectsGrow es fs → EffectsGrow fs gs → EffectsGrow es gs
EffectsGrow-trans es fs gs f g = record {
  kept = λ e h. g.kept e (f.kept e h);
  unique = λ u. g.unique (f.unique u);
}

In-append : (es fs : List EffectRow) (e : EffectRow) → In e es → In e (es ++ fs)
In-append [] fs e h = absurd h
In-append (d ∷ es) fs e (inl same) = inl same
In-append (d ∷ es) fs e (inr h) = inr (In-append es fs e h)

append-EffectsGrow :
    (es : List EffectRow) (e : EffectRow)
    → any (λ f. f.job_id == e.job_id) es ≡ false
    → EffectsGrow es (es ++ e ∷ [])
append-EffectsGrow es e new = record {
  kept = In-append es (e ∷ []);
  unique = λ u. append-Unique (λ f. f.job_id) es e u new;
}

any-or :
    (e : EffectRow) (es : List EffectRow)
    → any (λ f. f.id == e.id || f.job_id == e.job_id) es ≡ false
    → any (λ f. f.job_id == e.job_id) es ≡ false
any-or e [] h = refl
any-or e (f ∷ es) h = ground (arith, any-or e es)

pub insert_effect-EffectsGrow :
    (e : EffectRow) (es fs : List EffectRow) → insert_effect e es ≡ some fs → EffectsGrow es fs
unfolding insert_effect
insert_effect-EffectsGrow e es fs h =
    elim (Bool-cases (any (λ f. f.id == e.id || f.job_id == e.job_id) es)) [
      | inl taken ↦ let denied = rw (taken) at h in cc
      | inr new ↦
          subst (EffectsGrow es) (some-injective _ fs (rw (new) at h))
            (append-EffectsGrow es e (any-or e es new))
    ]

insert_effect_once-EffectsGrow :
    (e : EffectRow) (es fs : List EffectRow) → insert_effect_once e es ≡ some fs → EffectsGrow es fs
unfolding insert_effect_once
insert_effect_once-EffectsGrow e es fs h = elim (Bool-cases (any (λ f. f.job_id == e.job_id) es)) [
  | inl there ↦ EffectsGrow-same es fs (sym (some-injective es fs (rw (there) at h)))
  | inr new ↦ elim (Bool-cases (any (λ f. f.id == e.id) es)) [
    | inl taken ↦ let denied = rw (new, taken) at h in cc
    | inr free ↦
        subst (EffectsGrow es) (some-injective _ fs (rw (new, free) at h))
          (append-EffectsGrow es e new)
  ]
]

-- A round of the reaper.
abbrev pub ReapGrows : Database → Reap → Type 0
ReapGrows db idle = Unit
ReapGrows db (reaped db') = EffectsGrow db.effects db'.effects
ReapGrows db (failed e) = Unit

reap_audit-ReapGrows :
    (j : JobRow) (attempt : ℕ) (db db' : Database)
    → EffectsGrow db.effects db'.effects
    → ReapGrows db (reap_audit j attempt db')
unfolding reap_audit
reap_audit-ReapGrows j attempt db db' g =
    elim (Option-cases (
      select (λ a. a.job_id == j.id && (a.id == attempt && a.fence == j.current_fence))
        db'.attempts)) [
          | inl never ↦ rw (reap_audit, never) tt
          | inr (a, found) ↦ rw (reap_audit, found) g
        ]

pub reap_job-ReapGrows :
    (env : Env) (clock : ℕ → ℕ) (effect : ℕ) (j : JobRow) (attempt : ℕ) (db : Database)
    → ReapGrows db (reap_job env clock effect j attempt db)
unfolding reap_job
reap_job-ReapGrows env clock effect j attempt db = elim (Bool-cases (leb 3 j.attempt_count)) [
  | inl last ↦
      elim (Option-cases (insert_effect_once (exhausted_effect env effect j attempt) db.effects)) [
        | inl clash ↦ rw (reap_job, last, clash) tt
        | inr (effects, e) ↦
            rw (reap_job, last, e)
              (reap_audit-ReapGrows j attempt db _
                (insert_effect_once-EffectsGrow _ db.effects effects e))
      ]
  | inr more ↦
      rw (reap_job, more) (reap_audit-ReapGrows j attempt db _ (EffectsGrow-same db.effects _ refl))
]
