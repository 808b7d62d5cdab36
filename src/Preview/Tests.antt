-- ===== src/Preview/Tests.antt =====
-- Branch names and the names of their environments.
use luncur.Common.{ℕ, ◌+◌, ◌≡◌, refl, true, ◌&&◌, some, leb, if◌then◌else◌, Bytes, codes}
use luncur.Preview.Branch.{
  has_double, replace_doubles, collapse, strip_left, strip_right, sanitize_branch, valid_name,
}
use luncur.Preview.Naming.{sanitize_branch-valid}

-- Lower case of ASCII letters.
abbrev lower : ℕ → ℕ
lower r = if leb 65 r && leb r 90 then r + 32 else r

sanitize_branch-valid_example :
    (name : Bytes) × (sanitize_branch lower (codes "Feature//X_1!") ≡ some name)
    × (valid_name name ≡ true)
sanitize_branch-valid_example = sanitize_branch-valid lower (codes "Feature//X_1!")

feature : sanitize_branch lower (codes "Feature//X_1!") ≡ some (codes "feature-x-1")
unfolding sanitize_branch collapse has_double replace_doubles strip_left strip_right
feature = refl

no_letters : sanitize_branch lower (codes "___") ≡ some (codes "branch")
unfolding sanitize_branch collapse has_double replace_doubles strip_left strip_right
no_letters = refl
