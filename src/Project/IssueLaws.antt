-- ===== src/Project/IssueLaws.antt =====
-- When a list of issues is empty: the checks of crates/protocol/src/project.rs push nothing.
use hostlet_app.Base.{◌≡◌, ◌≢◌, refl, Bool, true, false, not, List, [], ◌∷◌, ◌++◌}
use hostlet_app.Project.Issues.{IssueCode, Place, issue_if}

pub none_left {ℓ} : {A : Type ℓ} (xs ys : List A) → xs ++ ys ≡ [] → xs ≡ []
none_left [] ys h = refl
none_left (x ∷ xs) ys h = cc

pub none_right {ℓ} : {A : Type ℓ} (xs ys : List A) → xs ++ ys ≡ [] → ys ≡ []
none_right [] ys h = h
none_right (x ∷ xs) ys h = cc

pub none_both {ℓ} : {A : Type ℓ} (xs ys : List A) → xs ≡ [] → ys ≡ [] → xs ++ ys ≡ []
none_both xs ys h k = rw h k

pub none_if : (b : Bool) (code : IssueCode) (path : Place) → issue_if b code path ≡ [] → b ≡ false
none_if true code path h = cc
none_if false code path h = refl

pub none_unless :
    (b : Bool) (code : IssueCode) (path : Place) → issue_if (not b) code path ≡ [] → b ≡ true
none_unless true code path h = refl
none_unless false code path h = cc

pub cons-IsNonempty {ℓ} : {A : Type ℓ} {x : A} {xs : List A} → x ∷ xs ≢ []
cons-IsNonempty h = cc

pub true≢false : true ≢ false
true≢false h = cc
