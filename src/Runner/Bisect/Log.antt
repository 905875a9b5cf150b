-- ===== src/Runner/Bisect/Log.antt =====
-- The commits that `cmd_bisect` of cli/src/main.rs reads from the output of `git log`.
use Prim.Native.Char.{code}
use Prim.Native.String.{◌++◌ as append}
use Prim.Native.String.append
use halley.Common.{
  ℕ, ◌≡◌, refl, ap, ◌∙◌, false, String, List, [], ◌∷◌, All, str_eq, if◌then◌else◌, unwrap_or,
}
use halley.Common.Text.{split_once, lines, trim, is_whitespace}
use halley.Common.Text.Cuts.{HasNo, split_once-append}
use halley.Common.Text.Lines.{trim-nonempty, lines-cons}
use halley.Runner.Bisect.{Commit}

abbrev commit_of : String → Commit
commit_of line = unwrap_or (split_once b' ' line) (line, "")

-- The commits of the lines that are not blank.
commits_of_lines : List String → List Commit
unfolding split_once trim
commits_of_lines [] = []
commits_of_lines (line ∷ rest) =
    let commits = commits_of_lines rest in
    if str_eq (trim line) "" then commits else commit_of line ∷ commits

unfoldable pub commits_of : (log_text : String) → List Commit
unfolding commits_of_lines lines
commits_of log_text = commits_of_lines (lines log_text)

-- What `git log --format=%H %s` prints.
abbrev pub line_of : Commit → String
line_of (hash, subject) = append hash (String.◌∷◌ " " subject)

unfoldable pub log_of : List Commit → String
log_of [] = ""
log_of (c ∷ commits) = append (line_of c) (String.◌∷◌ "\n" (log_of commits))

-- A hash begins with a visible character and has no space in it, and neither it nor the subject has a
-- line break in it.
abbrev StartsVisible : String → Type 0
StartsVisible String.[] = ⊥
StartsVisible (String.◌∷◌ c s) = is_whitespace (code c) ≡ false

abbrev pub IsPrintable : Commit → Type 0
IsPrintable (hash, subject) =
    StartsVisible hash
    × HasNo b' ' hash
    × (HasNo b'\n' hash × HasNo b'\r' hash)
    × (HasNo b'\n' subject × HasNo b'\r' subject)

HasNo-append : (c : ℕ) (s t : String) → HasNo c s → HasNo c t → HasNo c (append s t)
HasNo-append c String.[] t h k = rw (append.nil t) k
HasNo-append c (String.◌∷◌ d s) t (ne, h) k = rw (append.cons d s t) (ne, HasNo-append c s t h k)

line_visible :
    (hash subject : String)
    → StartsVisible hash
    → str_eq (trim (line_of (hash, subject))) "" ≡ false
line_visible String.[] subject v = absurd v
line_visible (String.◌∷◌ c s) subject v =
    rw (append.cons c s (String.◌∷◌ " " subject)) (trim-nonempty c _ v)

commits_cons :
    (c : Commit) (rest : List String)
    → str_eq (trim (line_of c)) "" ≡ false
    → commit_of (line_of c) ≡ c
    → commits_of_lines (line_of c ∷ rest) ≡ c ∷ commits_of_lines rest
unfolding commits_of_lines
commits_cons c rest v e = rw (v, e) refl

-- The commits are read as they were: of a log of commits with such hashes and subjects, each line gives
-- back its hash and its subject, in their order, an empty subject included.
pub commits_of-log_of :
    (commits : List Commit) → All IsPrintable commits → commits_of (log_of commits) ≡ commits
unfolding commits_of commits_of_lines log_of
commits_of-log_of [] a = refl
commits_of-log_of ((hash, subject) ∷ commits) ((v, sp, (n, r), (m, q)), a) =
    ap commits_of_lines (
      lines-cons (line_of (hash, subject)) (log_of commits) (HasNo-append b'\n' hash _ n (refl, m))
        (HasNo-append b'\r' hash _ r (refl, q)))
    ∙ commits_cons (hash, subject) (lines (log_of commits)) (line_visible hash subject v)
        (ap (λ o. unwrap_or o (line_of (hash, subject), ""))
          (split_once-append b' ' " " hash subject refl sp))
    ∙ ap (λ l. (hash, subject) ∷ l) (commits_of-log_of commits a)
