-- ===== src/Jobs/SecretLaws.antt =====
-- Which secrets `resolve_credentials` of crates/control/src/jobs.rs gives to a worker.
use hostlet_app.Base.{
  ℕ, ◌≡◌, inl, inr, refl, sym, subst, true, Option, none, some, List, [], ◌∷◌, map, any, ◌==◌, All,
  All-map, All-append, Option-cases, arith, &&_left, ==_iff,
}
use hostlet_app.Base.Text.{Text, text_eq, text_eq→eq}
use hostlet_app.Base.Table.{
  In, select, select_all, select-In, select-some, All-select, All-select_all, All-self,
}
use hostlet_app.Jobs.Model.{JobRow, SecretRow, SecretRefRow, Database}
use hostlet_app.Jobs.Messages.{ResolvedCredential, Env}
use hostlet_app.Jobs.Checks.{job_operation}
use hostlet_app.Jobs.Create.{build_credential}
use hostlet_app.Jobs.Credentials.{
  ResolveRow, Resolved, resolved, refused, scope_denied, ref_in_scope, secret_of_ref,
  version_of_ref, requested_ref, join_ref, join_refs, resolve_rows, resolve_row, add_resolved,
  decrypt_rows, in_request_order, order_resolved, resolve_scope,
}

-- A row of the join, with the reference by which the job binds it.
pub record IsBound (db : Database) (j : JobRow) (r : ResolveRow) : Type 0 where
  pub ref : SecretRefRow
  pub ref_stored : In ref db.secret_refs
  pub ref_of_job : ref_in_scope j ref ≡ true
  pub secret_stored : In r.secret db.secrets
  pub secret_active : secret_of_ref ref r.secret ≡ true
  pub version_stored : In r.version db.secret_versions
  pub version_named : version_of_ref ref r.version ≡ true

-- A credential that was decrypted from such a row, for a build.
pub record IsReleased (env : Env) (db : Database) (j : JobRow) (c : ResolvedCredential)
    : Type 0 where
  pub row : ResolveRow
  pub bound : IsBound db j row
  pub build_only : build_credential row.secret.credential_kind ≡ true
  pub build_job : j.operation ≡ job_operation
  pub same_version : c.secret_version_id ≡ row.version.id
  pub same_name : c.name ≡ row.secret.name
  pub decrypted : env.decrypt row.secret row.version ≡ some c.value

join_ref-IsBound :
    (db : Database) (j : JobRow) (r : SecretRefRow)
    → In r db.secret_refs
    → ref_in_scope j r ≡ true
    → All (IsBound db j) (join_ref db r)
unfolding join_ref
join_ref-IsBound db j r stored scoped = go (select (secret_of_ref r) db.secrets) refl
  where
    go :
        (o : Option SecretRow)
        → select (secret_of_ref r) db.secrets ≡ o
        → All (IsBound db j) (join_ref db r)
    go none e = rw (join_ref, e) tt
    go (some s) e = elim (Option-cases (select (version_of_ref r) db.secret_versions)) [
      | inl never ↦ rw (join_ref, e, never) tt
      | inr (v, f) ↦
          rw (join_ref, e, f)
            (
              record {
                ref = r;
                ref_stored = stored;
                ref_of_job = scoped;
                secret_stored = select-In (secret_of_ref r) db.secrets s e;
                secret_active = select-some (secret_of_ref r) db.secrets s e;
                version_stored = select-In (version_of_ref r) db.secret_versions v f;
                version_named = select-some (version_of_ref r) db.secret_versions v f;
              },
              tt,
            )
    ]

join_refs-IsBound :
    (db : Database) (j : JobRow) (rs : List SecretRefRow)
    → All (λ r. In r db.secret_refs × (ref_in_scope j r ≡ true)) rs
    → All (IsBound db j) (join_refs db rs)
unfolding join_refs
join_refs-IsBound db j [] hs = tt
join_refs-IsBound db j (r ∷ rs) hs =
    All-append (IsBound db j) (join_ref db r) (join_refs db rs)
      (join_ref-IsBound db j r hs.0.0 hs.0.1) (join_refs-IsBound db j rs hs.1)

resolve_rows-IsBound :
    (db : Database) (j : JobRow) (ids : List ℕ) → All (IsBound db j) (resolve_rows db j ids)
unfolding resolve_rows
resolve_rows-IsBound db j ids =
    join_refs-IsBound db j (select_all (requested_ref j ids) db.secret_refs) (
      All-map _ _ (select_all (requested_ref j ids) db.secret_refs)
        (λ r h. (h.0, &&_left (ref_in_scope j r) (any (λ id. id == r.secret_version_id) ids) h.1))
        (All-select_all (λ r. In r db.secret_refs) (requested_ref j ids) db.secret_refs
          (All-self db.secret_refs)))

-- What the turn of the loop has checked.
resolve_row-checked :
    (env : Env) (key : Text) (j : JobRow) (r : ResolveRow) (c : ResolvedCredential)
    → resolve_row env key j r ≡ resolved c
    → (build_credential r.secret.credential_kind ≡ true)
      × (text_eq j.operation job_operation ≡ true)
      × (c.secret_version_id ≡ r.version.id)
      × (c.name ≡ r.secret.name)
      × (env.decrypt r.secret r.version ≡ some c.value)
unfolding resolve_row
resolve_row-checked env key j r c h = ground arith

resolve_row-IsReleased :
    (env : Env) (key : Text) (db : Database) (j : JobRow) (r : ResolveRow) (c : ResolvedCredential)
    → IsBound db j r
    → resolve_row env key j r ≡ resolved c
    → IsReleased env db j c
resolve_row-IsReleased env key db j r c bound h =
    let facts = resolve_row-checked env key j r c h in
    record {
      row = r;
      bound = bound;
      build_only = facts.0;
      build_job = text_eq→eq j.operation job_operation facts.1;
      same_version = facts.2;
      same_name = facts.3;
      decrypted = facts.4;
    }

-- A list of results that all succeed.
add_resolved-parts :
    (x : Resolved ResolvedCredential) (y : Resolved (List ResolvedCredential))
    (ds : List ResolvedCredential)
    → add_resolved x y ≡ resolved ds
    → (c : ResolvedCredential) × (cs : List ResolvedCredential) × (x ≡ resolved c)
      × (y ≡ resolved cs)
      × (ds ≡ c ∷ cs)
unfolding add_resolved
add_resolved-parts (refused e) y ds h = cc
add_resolved-parts (resolved c) (refused e) ds h = cc
add_resolved-parts (resolved c) (resolved cs) ds h = (c, cs, refl, refl, cc)

pub resolved_value : {X : Type 0} (x y : X) → resolved x ≡ resolved y → x ≡ y
resolved_value x y h = cc

decrypt_rows-IsReleased :
    (env : Env) (key : Text) (db : Database) (j : JobRow) (rs : List ResolveRow)
    (cs : List ResolvedCredential)
    → All (IsBound db j) rs
    → decrypt_rows env key j rs ≡ resolved cs
    → All (IsReleased env db j) cs
unfolding decrypt_rows
decrypt_rows-IsReleased env key db j [] cs bs h =
    subst (All (IsReleased env db j)) (resolved_value [] cs h) tt
decrypt_rows-IsReleased env key db j (r ∷ rs) cs bs h =
    let (c, ds, first, rest, e) =
      add_resolved-parts (resolve_row env key j r) (decrypt_rows env key j rs) cs h in
    subst (All (IsReleased env db j)) (sym e) (
      resolve_row-IsReleased env key db j r c bs.0 first,
      decrypt_rows-IsReleased env key db j rs ds bs.1 rest,
    )

-- What the job's worker is given: what it asked for, in that order, each of it released.
pub record IsGiven (env : Env) (db : Database) (j : JobRow) (ids : List ℕ)
    (cs : List ResolvedCredential) : Type 0 where
  pub requested : map (λ c. c.secret_version_id) cs ≡ ids
  pub released : All (IsReleased env db j) cs

taken-IsReleased :
    (env : Env) (db : Database) (j : JobRow) (cs : List ResolvedCredential) (id : ℕ)
    (c : ResolvedCredential)
    → All (IsReleased env db j) cs
    → (elim (select (λ d. d.secret_version_id == id) cs) as (λ _. Resolved ResolvedCredential) [
      | none ↦ refused scope_denied
      | some d ↦ resolved d
    ])
      ≡ resolved c
    → IsReleased env db j c × (c.secret_version_id ≡ id)
taken-IsReleased env db j cs id c hs h =
    elim (Option-cases (select (λ d. d.secret_version_id == id) cs)) [
      | inl never ↦ let denied = rw (never) at h in cc
      | inr (d, found) ↦
          let same = resolved_value d c (rw (found) at h) in
          (
            subst (IsReleased env db j) same (All-select (IsReleased env db j) _ cs hs found),
            subst (λ x. x.secret_version_id ≡ id) same
                ((==_iff d.secret_version_id id).0 (select-some _ cs d found)),
          )
    ]

in_request_order-IsGiven :
    (env : Env) (db : Database) (j : JobRow) (cs : List ResolvedCredential) (ids : List ℕ)
    (ds : List ResolvedCredential)
    → All (IsReleased env db j) cs
    → in_request_order cs ids ≡ resolved ds
    → IsGiven env db j ids ds
unfolding in_request_order
in_request_order-IsGiven env db j cs [] ds hs h =
    subst (IsGiven env db j []) (resolved_value [] ds h)
      (record { requested = refl; released = tt })
in_request_order-IsGiven env db j cs (id ∷ ids) ds hs h =
    let (c, rest, first, others, e) = add_resolved-parts _ (in_request_order cs ids) ds h in
    let (released, same) = taken-IsReleased env db j cs id c hs first in
    let given = in_request_order-IsGiven env db j cs ids rest hs others in
    let same_rest = given.requested in
    subst (IsGiven env db j (id ∷ ids)) (sym e)
      (record { requested = cc; released = (released, given.released) })

order_resolved-IsGiven :
    (env : Env) (key : Text) (db : Database) (j : JobRow) (ids : List ℕ) (rs : List ResolveRow)
    (o : Resolved (List ResolvedCredential)) (cs : List ResolvedCredential)
    → All (IsBound db j) rs
    → decrypt_rows env key j rs ≡ o
    → order_resolved o ids ≡ resolved cs
    → IsGiven env db j ids cs
order_resolved-IsGiven env key db j ids rs (refused e) cs bs d h = cc
order_resolved-IsGiven env key db j ids rs (resolved ds) cs bs d h =
    in_request_order-IsGiven env db j ds ids cs (decrypt_rows-IsReleased env key db j rs ds bs d) h

-- The rows are as many as were requested.
resolve_scope-ordered :
    (env : Env) (key : Text) (db : Database) (j : JobRow) (id : ℕ) (ids : List ℕ)
    (cs : List ResolvedCredential)
    → resolve_scope env key db j (id ∷ ids) ≡ resolved cs
    → order_resolved (decrypt_rows env key j (resolve_rows db j (id ∷ ids))) (id ∷ ids)
      ≡ resolved cs
unfolding resolve_scope
resolve_scope-ordered env key db j id ids cs h = ground arith

pub resolve_scope-IsGiven :
    (env : Env) (key : Text) (db : Database) (j : JobRow) (ids : List ℕ)
    (cs : List ResolvedCredential)
    → resolve_scope env key db j ids ≡ resolved cs
    → IsGiven env db j ids cs
unfolding resolve_scope
resolve_scope-IsGiven env key db j [] cs h =
    subst (IsGiven env db j []) (resolved_value [] cs h)
      (record { requested = refl; released = tt })
resolve_scope-IsGiven env key db j (id ∷ ids) cs h =
    order_resolved-IsGiven env key db j (id ∷ ids) (resolve_rows db j (id ∷ ids)) _ cs
      (resolve_rows-IsBound db j (id ∷ ids)) refl (resolve_scope-ordered env key db j id ids cs h)
