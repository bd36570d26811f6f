-- ===== src/Project/Paths.antt =====
-- The path and text checks of crates/protocol/src/project.rs.
use hostlet_app.Base.{
  ℕ, Bool, true, false, not, ◌&&◌, ◌||◌, Option, none, some, List, [], ◌∷◌, all, ltb, if◌then◌else◌,
}
use hostlet_app.Base.Text.{
  Text, codes, text_eq, len, split, is_empty, is_blank, starts_with, contains, last_piece,
}
use hostlet_app.Project.Issues.{
  ProjectValidationIssue, IssueCode, Place, text_field_too_long, issue_if,
}

-- A segment of a path that neither stands still nor climbs.
unfoldable pub plain_segment : Text → Bool
unfolding text_eq
plain_segment segment =
    not (is_empty segment)
    && (not (text_eq segment (codes ".")) && not (text_eq segment (codes "..")))

unfoldable pub safe_relative_path : Text → Bool
unfolding text_eq plain_segment split
safe_relative_path path =
    if text_eq path (codes ".")
    then true
    else if is_empty path
        || (starts_with b'/' path
            || (starts_with b'\\' path
                || (contains b'\\' path || (contains 0 path || contains b':' path))))
    then false
    else all plain_segment (split b'/' path)

abbrev starts_with_two_slashes : Text → Bool
starts_with_two_slashes [] = false
starts_with_two_slashes (c ∷ s) = starts_with b'/' (c ∷ s) && starts_with b'/' s

unfoldable pub safe_http_path : Text → Bool
safe_http_path path =
    starts_with b'/' path
    && (not (starts_with_two_slashes path) && not (contains 13 path || contains 10 path))

-- `path.rsplit('/').next()`.
unfoldable pub file_name : Text → Text
unfolding split
file_name path = last_piece (split b'/' path)

unfoldable pub bounded_text : Option Text → ℕ → Place → List ProjectValidationIssue
unfolding len
bounded_text none maximum path = []
bounded_text (some value) maximum path = issue_if (ltb maximum (len value)) text_field_too_long path

unfoldable pub require_text : Option Text → IssueCode → Place → List ProjectValidationIssue
require_text none code path = issue_if true code path
require_text (some value) code path = issue_if (is_blank value) code path

unfoldable pub require_safe_path : Option Text → IssueCode → Place → List ProjectValidationIssue
unfolding safe_relative_path
require_safe_path none code path = issue_if true code path
require_safe_path (some value) code path = issue_if (not (safe_relative_path value)) code path
