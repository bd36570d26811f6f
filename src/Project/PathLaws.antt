-- ===== src/Project/PathLaws.antt =====
-- `safe_relative_path` of crates/protocol/src/project.rs against a description of how a path is
-- followed.
use hostlet_app.Base.{
  ℕ, zero, suc, ◌+◌, ◌≡◌, ◌≢◌, refl, subst, sym, ◌++◌, inl, inr, true, false, ◌||◌, Option, none,
  some, List, [], ◌∷◌, ◌==◌, if◌then◌else◌, all, length, arith, Bool-cases, ap, ◌∙◌, &&_left,
  &&_right,
}
use hostlet_app.Base.Text.{Text, codes, text_eq, text_eq→eq, split, is_empty, starts_with, contains}
use hostlet_app.Project.Paths.{plain_segment, safe_relative_path}

-- How a path is followed, segment by segment, from a directory so many levels below the root:
-- `.` and an empty segment stay, `..` climbs, anything else descends. `none` has left the root.
unfoldable pub follow : ℕ → List Text → Option ℕ
unfolding text_eq
follow depth [] = some depth
follow depth (s ∷ ss) =
    let up = elim depth as (λ _. Option ℕ) [ zero ↦ none | suc above ↦ follow above ss ] in
    let same = follow depth ss in
    let down = follow (suc depth) ss in
    if text_eq s (codes "..")
    then up
    else if is_empty s || text_eq s (codes ".")
    then same
    else down

pub plain-descends :
    (depth : ℕ) (s : Text) (ss : List Text)
    → plain_segment s ≡ true
    → follow depth (s ∷ ss) ≡ follow (suc depth) ss
unfolding plain_segment follow
plain-descends depth s ss h = ground arith

pub all_plain-follow :
    (depth : ℕ) (ss : List Text)
    → all plain_segment ss ≡ true
    → follow depth ss ≡ some (depth + length ss)
unfolding follow
all_plain-follow depth [] h = ap some (omega arith)
all_plain-follow depth (s ∷ ss) h =
    plain-descends depth s ss (&&_left (plain_segment s) (all plain_segment ss) h)
    ∙ (all_plain-follow (suc depth) ss (&&_right (plain_segment s) (all plain_segment ss) h)
        ∙ ap some (omega arith))

-- A relative path that leads from every directory to one that lies no higher.
pub record StaysInside (path : Text) : Type 0 where
  pub relative : starts_with b'/' path ≡ false
  pub followed :
      (depth : ℕ) → (climbed : ℕ) × (follow depth (split b'/' path) ≡ some (depth + climbed))
  pub one_separator : contains b'\\' path ≡ false

dot-StaysInside : StaysInside (codes ".")
unfolding follow split text_eq
dot-StaysInside = record {
  relative = refl;
  followed = λ depth. (0, ap some (omega arith));
  one_separator = refl;
}

-- The tests of a path other than `.`, each of them passed.
segments-plain :
    (path : Text)
    → text_eq path (codes ".") ≡ false
    → safe_relative_path path ≡ true
    → (starts_with b'/' path ≡ false)
      × (contains b'\\' path ≡ false)
      × (all plain_segment (split b'/' path) ≡ true)
unfolding safe_relative_path
segments-plain path h k = ground arith

-- A path that `safe_relative_path` accepts is relative, has no backslash, and from a directory at any
-- depth below the root its segments lead to the same depth or deeper, with no climb above the root.
pub safe_relative_path-StaysInside :
    (path : Text) → safe_relative_path path ≡ true → StaysInside path
safe_relative_path-StaysInside path h = elim (Bool-cases (text_eq path (codes "."))) [
  | inl dot ↦ subst StaysInside (sym (text_eq→eq path (codes ".") dot)) dot-StaysInside
  | inr other ↦
      let passed = segments-plain path other h in
      record {
        relative = passed.0;
        followed =
            λ depth. (length (split b'/' path), all_plain-follow depth (split b'/' path) passed.2);
        one_separator = passed.1;
      }
]

-- Pieces put back together with a separator between them.
unfoldable pub join : ℕ → List Text → Text
join sep [] = []
join sep (piece ∷ rest) = elim rest as (λ _. Text) [
  | [] ↦ piece
  | _ ∷ _ ↦ piece ++ (sep ∷ join sep rest)
]

split-IsNonempty : (sep : ℕ) (s : Text) → split sep s ≢ []
unfolding split
split-IsNonempty sep [] h = cc
split-IsNonempty sep (c ∷ s) h = ground arith

pub join-split : (sep : ℕ) (s : Text) → join sep (split sep s) ≡ s
unfolding join split
join-split sep [] = refl
join-split sep (c ∷ s) = go (split sep s) (split-IsNonempty sep s) (join-split sep s)
  where
    go :
        (pieces : List Text)
        → pieces ≢ []
        → join sep pieces ≡ s
        → join sep (elim pieces [
          | [] ↦ [] ∷ []
          | piece ∷ rest ↦ if c == sep then [] ∷ piece ∷ rest else (c ∷ piece) ∷ rest
        ])
          ≡ c ∷ s
    go [] n h = absurd (n refl)
    go (piece ∷ []) n h = ground arith
    go (piece ∷ other ∷ rest) n h = ground arith
