-- ===== src/Guard/Words.antt =====
-- The words and the characters of packages/db-inspector/src/guard.ts, and its reasons.
use revdev.Base.{
  Text, txt, text_eq, to_lower, ℕ, ◌-◌, ◌==◌, Bool, ◌&&◌, ◌||◌, List, [], ◌∷◌, ◌++◌, map, any, leb,
  if◌then◌else◌,
}

abbrev pub banned_words : List Text
unfolding txt
banned_words =
    txt "abort"
    ∷ txt "alter"
    ∷ txt "analyse"
    ∷ txt "analyze"
    ∷ txt "attach"
    ∷ txt "begin"
    ∷ txt "call"
    ∷ txt "checkpoint"
    ∷ txt "cluster"
    ∷ txt "comment"
    ∷ txt "commit"
    ∷ txt "copy"
    ∷ txt "create"
    ∷ txt "deallocate"
    ∷ txt "declare"
    ∷ txt "delete"
    ∷ txt "detach"
    ∷ txt "discard"
    ∷ txt "do"
    ∷ txt "drop"
    ∷ txt "execute"
    ∷ txt "explain"
    ∷ txt "fetch"
    ∷ txt "grant"
    ∷ txt "import"
    ∷ txt "insert"
    ∷ txt "into"
    ∷ txt "listen"
    ∷ txt "load"
    ∷ txt "lock"
    ∷ txt "merge"
    ∷ txt "move"
    ∷ txt "notify"
    ∷ txt "prepare"
    ∷ txt "reassign"
    ∷ txt "refresh"
    ∷ txt "reindex"
    ∷ txt "reset"
    ∷ txt "revoke"
    ∷ txt "rollback"
    ∷ txt "savepoint"
    ∷ txt "security"
    ∷ txt "set"
    ∷ txt "set_config"
    ∷ txt "show"
    ∷ txt "transaction"
    ∷ txt "truncate"
    ∷ txt "unlisten"
    ∷ txt "update"
    ∷ txt "vacuum"
    ∷ []

abbrev pub ddl_words : List Text
unfolding txt
ddl_words =
    txt "alter"
    ∷ txt "analyse"
    ∷ txt "analyze"
    ∷ txt "cluster"
    ∷ txt "comment"
    ∷ txt "create"
    ∷ txt "drop"
    ∷ txt "grant"
    ∷ txt "refresh"
    ∷ txt "reindex"
    ∷ txt "revoke"
    ∷ txt "truncate"
    ∷ txt "vacuum"
    ∷ []

abbrev row_words : List Text
unfolding txt
row_words = txt "insert" ∷ txt "update" ∷ txt "delete" ∷ txt "merge" ∷ []

-- `words.has(word)`
unfoldable pub has_word : List Text → Text → Bool
unfolding text_eq
has_word words w = any (λ x. text_eq x w) words

unfoldable pub is_banned : Text → Bool
unfolding has_word txt
is_banned = has_word banned_words

-- Each reason that the guard gives; the last two carry the word in upper case.
pub data Reason : Type 0 where
  unterminated_string unterminated_identifier unterminated_dollar_quote : Reason
  unsupported_dollar unterminated_block_comment non_ascii : Reason
  comment_hides_a_write multiple_statements empty_query bound_parameters : Reason
  unbalanced only_select with_must_end_in_select select_into : Reason
  word_not_allowed ddl_not_allowed : Text → Reason
  -- Of the model only: a loop had too little fuel.
  out_of_fuel : Reason

unfoldable upper_unit : ℕ → ℕ
upper_unit c = if leb b'a' c && leb c b'z' then c - 32 else c

-- `word.toUpperCase()` on an ASCII word
unfoldable pub to_upper : Text → Text
unfolding upper_unit
to_upper = map upper_unit

unfoldable pub reason_for_banned : Text → Reason
unfolding has_word to_upper txt text_eq
reason_for_banned w =
    if text_eq w (txt "into")
    then select_into
    else if has_word row_words w
    then word_not_allowed (to_upper w)
    else if has_word ddl_words w
    then ddl_not_allowed (to_upper w)
    else word_not_allowed (to_upper w)

unfoldable pub is_ws : ℕ → Bool
is_ws c = c == 32 || c == 9 || c == 10 || c == 13 || c == 12

unfoldable pub is_digit : ℕ → Bool
is_digit c = leb 48 c && leb c 57

unfoldable pub is_ident_start : ℕ → Bool
is_ident_start c = leb 65 c && leb c 90 || leb 97 c && leb c 122 || c == b'_'

unfoldable pub is_ident_cont : ℕ → Bool
unfolding is_ident_start is_digit
is_ident_cont c = is_ident_start c || is_digit c || c == b'_'

-- The loop of `commentHidesWrite`, with the word read so far.
unfoldable pub hides_from : Text → Text → Bool
unfolding is_banned is_ident_cont to_lower
hides_from word [] = is_banned (to_lower word)
hides_from word (c ∷ s) =
    let next = if is_ident_cont c then word ++ c ∷ [] else [] in
    let rest = hides_from next s in
    if is_ident_cont c then rest else is_banned (to_lower word) || rest

unfoldable pub comment_hides_write : Text → Bool
unfolding hides_from
comment_hides_write body = any (λ c. c == b';') body || hides_from [] body
