-- ===== src/Permission/Summary.antt =====
-- The summary of a call that waits for an approval: `summarizeParams` of packages/daemon/src/permission.ts.
use revdev.Base.{
  Text, txt, text_eq, trim, is_white, ℕ, Bool, true, false, ◌||◌, Option, none, some, List, [], ◌∷◌,
  ◌++◌, length, take, leb, if◌then◌else◌,
}
use revdev.Base.Param.{Param, string}
use revdev.Permission.Paths.{CallParams, non_empty, text_of}

abbrev pub summary_max : ℕ
summary_max = 240

abbrev space : ℕ
space = 32

unfoldable pub clip_summary : Text → Text
clip_summary text = if leb (length text) summary_max then text else take summary_max text

-- `s.replace(/\s+/g, ' ')`; `after` tells whether the unit before was white space.
unfoldable pub collapse : Bool → Text → Text
collapse after [] = []
collapse after (c ∷ s) =
    let white = collapse true s in
    let other = collapse false s in
    if is_white c then (if after then white else space ∷ white) else c ∷ other

-- The strings of an array, and `join(' ')`.
unfoldable pub texts_of : List Param → List Text
texts_of [] = []
texts_of (string s ∷ ps) = s ∷ texts_of ps
texts_of (p ∷ ps) = texts_of ps

unfoldable pub join_spaces : Text → List Text → Text
join_spaces t [] = t
join_spaces t (u ∷ us) = t ++ space ∷ join_spaces u us

-- The first of the fields that holds a text that is not empty.
unfoldable pub first_non_empty : List Param → Option Text
unfolding non_empty
first_non_empty [] = none
first_non_empty (p ∷ ps) =
    let rest = first_non_empty ps in elim (non_empty p) [ some t ↦ some t | none ↦ rest ]

abbrev bit : ℕ → Option Text → List Text
bit n none = []
bit n (some t) = take n t ∷ []

-- The summary of a call before it is clipped, which the source does in each branch.
unfoldable pub summary_text : Text → CallParams → Text
unfolding txt text_eq trim collapse texts_of join_spaces first_non_empty
summary_text method p =
    let head = λ (t : Text). method ++ space ∷ t in
    if text_eq method (txt "file.write") || text_eq method (txt "file.delete")
    then trim (head (text_of p.file_path))
    else if text_eq method (txt "git.push")
    then trim (collapse false (head (text_of p.remote ++ space ∷ text_of p.branch)))
    else if text_eq method (txt "agent.spawn")
    then trim (head (join_spaces (text_of p.command) (take 8 (texts_of p.args))))
    else join_spaces method (
        bit 120 (first_non_empty (p.file_path ∷ p.repo_path ∷ p.command ∷ []))
        ++ bit 64 (first_non_empty (p.branch ∷ p.name ∷ [])))

unfoldable pub summarize_params : Text → Option CallParams → Text
unfolding clip_summary summary_text
summarize_params method none = method
summarize_params method (some p) = clip_summary (summary_text method p)
