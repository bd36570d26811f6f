-- ===== src/Archive/ExpireLaws.antt =====
-- What `expire` of crates/database/src/archive.rs removes from the repository.
use hostlet_app.Base.{
  ℕ, ◌≡◌, inl, inr, refl, sym, ap, subst, ◌∙◌, ◌&&◌, Bool, true, false, none, List, [], ◌∷◌, any,
  ◌==◌, Bool-cases, arith,
}
use hostlet_app.Base.Text.{Text, text_eq, text_eq→eq}
use hostlet_app.Base.Table.{false-true}
use hostlet_app.Archive.Format.{
  Bytes, ArchiveResult, done, fails, panics, unfinished, safe_component,
}
use hostlet_app.Archive.Seal.{Manifest, ExpectedArchive, ArchiveEnv}
use hostlet_app.Archive.Repository.{
  Object, Repository, is_object, object_at, without_object, namespace, authenticate, expire,
}
use hostlet_app.Archive.RoundTrip.{fails-done, and_then-done}

both : (a b : Bool) → (a && b) ≡ true → (a ≡ true) × (b ≡ true)
both a b h = ground arith

same_ids : (k i j : ℕ) → (k == i) ≡ true → (k == j) ≡ true → (j == i) ≡ true
same_ids k i j h e = ground arith

module _ {A : Type 0} where
  panics-done : {a : A} → ◌≡◌ {A = ArchiveResult A} panics (done a) → ⊥
  panics-done h = cc

  unfinished-done : {a : A} → ◌≡◌ {A = ArchiveResult A} unfinished (done a) → ⊥
  unfinished-done h = cc

module _ (name : Text) (archive_id : ℕ) where
  object_at-without_object :
      (objects : List Object)
      → object_at name archive_id (without_object name archive_id objects) ≡ none
  unfolding object_at without_object
  object_at-without_object [] = refl
  object_at-without_object (o ∷ rest) = elim (Bool-cases (is_object name archive_id o)) [
    | inl hit ↦ rw hit (object_at-without_object rest)
    | inr miss ↦ rw (miss, miss) (object_at-without_object rest)
  ]

  -- No object is of two names.
  other_object :
      (other : Text) (other_id : ℕ) (o : Object)
      → (text_eq other name && other_id == archive_id) ≡ false
      → is_object name archive_id o ≡ true
      → is_object other other_id o ≡ false
  other_object other other_id o apart hit = elim (Bool-cases (is_object other other_id o)) [
    | inl also ↦
        let mine = both (text_eq o.namespace name) (o.archive_id == archive_id) hit in
        let theirs = both (text_eq o.namespace other) (o.archive_id == other_id) also in
        let names =
          subst (λ t. text_eq t name ≡ true) (text_eq→eq o.namespace other theirs.0) mine.0 in
        absurd (
          false-true
            (sym apart ∙ rw names (same_ids o.archive_id archive_id other_id mine.1 theirs.1)))
    | inr miss ↦ miss
  ]

  object_at-others :
      (other : Text) (other_id : ℕ) (objects : List Object)
      → (text_eq other name && other_id == archive_id) ≡ false
      → object_at other other_id (without_object name archive_id objects)
        ≡ object_at other other_id objects
  unfolding object_at without_object
  object_at-others other other_id [] apart = refl
  object_at-others other other_id (o ∷ rest) apart =
      elim (Bool-cases (is_object name archive_id o)) [
        | inl hit ↦
            rw (hit, other_object other other_id o apart hit)
              (object_at-others other other_id rest apart)
        | inr miss ↦ rw (miss, object_at-others other other_id rest apart) refl
      ]

namespace_same :
    (name : Text) (r changed : Repository) (made : Repository)
    → changed.directories ≡ r.directories
    → namespace name false r ≡ done made
    → namespace name false changed ≡ done changed
unfolding namespace
namespace_same name r changed made same h = elim (Bool-cases (safe_component name)) [
  | inl safe ↦ elim (Bool-cases (any (text_eq name) r.directories)) [
    | inl here ↦ rw (namespace, safe, same, here) refl
    | inr absent ↦ absurd (fails-done (rw (namespace, safe, absent) at h))
  ]
  | inr unsafe ↦ absurd (fails-done (rw (namespace, unsafe) at h))
]

-- What an expiry leaves: the archive could be opened, is found no more, and every other one is as it
-- was.
pub record HasExpired (env : ArchiveEnv) (name : Text) (expected : ExpectedArchive)
    (before after : Repository) : Type 0 where
  pub read : Manifest × Bytes
  pub was_opened : authenticate env name expected before ≡ done read
  pub is_gone : authenticate env name expected after ≡ fails "archive_unavailable"
  pub others :
      (other : Text) (other_id : ℕ)
      → (text_eq other name && other_id == expected.archive_id) ≡ false
      → object_at other other_id after.objects ≡ object_at other other_id before.objects

removed-HasExpired :
    (env : ArchiveEnv) (name : Text) (expected : ExpectedArchive) (r : Repository)
    (read : Manifest × Bytes)
    → authenticate env name expected r ≡ done read
    → HasExpired env name expected r
        (record r { objects = without_object name expected.archive_id r.objects })
unfolding authenticate
removed-HasExpired env name expected r read was =
    let removed = record r { objects = without_object name expected.archive_id r.objects } in
    let (made, there, _) = and_then-done (namespace name false r) _ read was in
    record {
      read = read;
      was_opened = was;
      is_gone =
          rw
            (
              authenticate,
              namespace_same name r removed made refl there,
              object_at-without_object name expected.archive_id r.objects,
            )
            refl;
      others = λ other other_id apart.
          object_at-others name expected.archive_id other other_id r.objects apart;
    }

-- An expiry that is done was of an archive that could be opened; afterwards it is found no more, and
-- every other archive is as it was.
pub expire-HasExpired :
    (env : ArchiveEnv) (name : Text) (expected : ExpectedArchive) (r after : Repository)
    → expire env name expected r ≡ (done tt, after)
    → HasExpired env name expected r after
unfolding expire
expire-HasExpired env name expected r after h = of_opened (authenticate env name expected r) refl h
  where
    removed : Repository
    removed = record r { objects = without_object name expected.archive_id r.objects }

    of_opened :
        (opened : ArchiveResult (Manifest × Bytes))
        → authenticate env name expected r ≡ opened
        → (elim opened as (λ _. ArchiveResult Unit × Repository) [
          | done _ ↦ (done tt, removed)
          | fails e ↦ (fails e, r)
          | panics ↦ (panics, r)
          | unfinished ↦ (unfinished, r)
        ])
          ≡ (done tt, after)
        → HasExpired env name expected r after
    of_opened (done read) was e =
        subst (HasExpired env name expected r) (ap (λ t. t.1) e)
          (removed-HasExpired env name expected r read was)
    of_opened (fails x) was e = absurd (fails-done (ap (λ t. t.0) e))
    of_opened panics was e = absurd (panics-done (ap (λ t. t.0) e))
    of_opened unfinished was e = absurd (unfinished-done (ap (λ t. t.0) e))
