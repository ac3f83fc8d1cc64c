-- ===== src/Guard/Tokens.antt =====
-- The tokens of packages/db-inspector/src/guard.ts.
use revdev.Base.{Text, Bool, true, false, [], ◌∷◌}

pub data CommentStyle : Type 0 where
  line block : CommentStyle

pub data Token : Type 0 where
  ws : Text → Token
  comment : CommentStyle → Text → Text → Token
  word : Text → Text → Token
  ident string number param op : Text → Token
  semi lparen rparen lbracket rbracket comma : Token

-- What `renderStatement` writes for one token.
unfoldable pub render_token : Token → Text
render_token (ws raw) = raw
render_token (comment style body raw) = 32 ∷ []
render_token (word value raw) = raw
render_token (ident raw) = raw
render_token (string raw) = raw
render_token (number raw) = raw
render_token (param raw) = raw
render_token (op raw) = raw
render_token semi = b';' ∷ []
render_token lparen = b'(' ∷ []
render_token rparen = b')' ∷ []
render_token lbracket = b'[' ∷ []
render_token rbracket = b']' ∷ []
render_token comma = b',' ∷ []

-- Neither white space nor a comment.
unfoldable pub is_significant : Token → Bool
is_significant (ws raw) = false
is_significant (comment style body raw) = false
is_significant _ = true

unfoldable pub is_semi : Token → Bool
is_semi semi = true
is_semi _ = false
