-- ===== src/Guard/Comments.antt =====
-- What `commentHidesWrite` of packages/db-inspector/src/guard.ts lets pass, told by the words of the comment.
use mathlib.Core.List.{append_assoc, append-nil}
use revdev.Base.{
  Text, to_lower, ℕ, ◌==◌, ◌≡◌, refl, sym, ◌∙◌, subst, Bool, true, false, ◌||◌, Bool-cases, inl,
  inr, not, List, [], ◌∷◌, ◌++◌, any, All,
}
use revdev.Base.Result.{negated}
use revdev.Guard.Words.{is_banned, is_ident_cont, hides_from, comment_hides_write}
use revdev.Guard.Tokens.{Token, line, block, comment}
use revdev.Guard.Statement.{hides_write}

-- The text does not go on with a letter, a digit or another unit of a word.
abbrev pub ends_word : Text → Bool
ends_word [] = true
ends_word (c ∷ s) = not (is_ident_cont c)

-- No semicolon, and no banned word in any case, at the start of the text or after a unit of no word.
pub record NoWrite (body : Text) : Type 0 where
  pub no_semicolon : any (λ c. c == b';') body ≡ false
  pub first_word :
      (w after : Text)
      → body ≡ w ++ after
      → All (λ c. is_ident_cont c ≡ true) w
      → ends_word after ≡ true
      → is_banned (to_lower w) ≡ false
  pub later_word :
      (before : Text) (c : ℕ) (w after : Text)
      → body ≡ before ++ c ∷ w ++ after
      → is_ident_cont c ≡ false
      → All (λ c. is_ident_cont c ≡ true) w
      → ends_word after ≡ true
      → is_banned (to_lower w) ≡ false

-- A token that is no comment, or a block comment without a write.
abbrev pub IsQuiet : Token → Type 0
IsQuiet (comment line body raw) = ⊥
IsQuiet (comment block body raw) = NoWrite body
IsQuiet _ = Unit {0}

neither : (a b : Bool) → a || b ≡ false → (a ≡ false) × (b ≡ false)
neither true b h = cc
neither false b h = (refl, h)

-- One unit of the loop, in a word and after it.
within :
    (word : Text) (c : ℕ) (s : Text)
    → is_ident_cont c ≡ true
    → hides_from word (c ∷ s) ≡ hides_from (word ++ c ∷ []) s
unfolding hides_from
within word c s e = rw e refl

beyond :
    (word : Text) (c : ℕ) (s : Text)
    → is_ident_cont c ≡ false
    → hides_from word (c ∷ s) ≡ (is_banned (to_lower word) || hides_from [] s)
unfolding hides_from
beyond word c s e = rw e refl

hides_first :
    (w after word : Text)
    → hides_from word (w ++ after) ≡ false
    → All (λ c. is_ident_cont c ≡ true) w
    → ends_word after ≡ true
    → is_banned (to_lower (word ++ w)) ≡ false
unfolding hides_from
hides_first [] after word h all ends =
    subst (λ x. is_banned (to_lower x) ≡ false) (sym (append-nil word)) (at_end after h ends)
  where
    at_end :
        (after : Text)
        → hides_from word after ≡ false
        → ends_word after ≡ true
        → is_banned (to_lower word) ≡ false
    at_end [] h ends = h
    at_end (c ∷ s) h ends = (neither _ _ (sym (beyond word c s (negated _ ends)) ∙ h)).0
hides_first (c ∷ w) after word h (is_cont, all) ends =
    subst (λ x. is_banned (to_lower x) ≡ false) (append_assoc word (c ∷ []) w)
      (hides_first w after (word ++ c ∷ []) (sym (within word c (w ++ after) is_cont) ∙ h) all ends)

hides_later :
    (before : Text) (c : ℕ) (w after word : Text)
    → hides_from word (before ++ c ∷ w ++ after) ≡ false
    → is_ident_cont c ≡ false
    → All (λ c. is_ident_cont c ≡ true) w
    → ends_word after ≡ true
    → is_banned (to_lower w) ≡ false
hides_later [] c w after word h outside all ends =
    hides_first w after [] ((neither _ _ (sym (beyond word c (w ++ after) outside) ∙ h)).1) all ends
hides_later (b ∷ before) c w after word h outside all ends = elim (Bool-cases (is_ident_cont b)) [
  | inl on ↦
      hides_later before c w after (word ++ b ∷ []) (sym (within word b _ on) ∙ h) outside all ends
  | inr off ↦
      hides_later before c w after [] ((neither _ _ (sym (beyond word b _ off) ∙ h)).1) outside all
        ends
]

comment_hides_write-NoWrite : (body : Text) → comment_hides_write body ≡ false → NoWrite body
unfolding comment_hides_write
comment_hides_write-NoWrite body h =
    let (no_semi, quiet) = neither _ _ h in
    record {
      no_semicolon = no_semi;
      first_word = λ w after e all ends.
          hides_first w after [] (subst (λ x. hides_from [] x ≡ false) e quiet) all ends;
      later_word = λ before c w after e outside all ends.
          hides_later before c w after [] (subst (λ x. hides_from [] x ≡ false) e quiet) outside all
            ends;
    }

hides_write-IsQuiet : (t : Token) → hides_write t ≡ false → IsQuiet t
unfolding hides_write
hides_write-IsQuiet (comment line body raw) h = cc
hides_write-IsQuiet (comment block body raw) h = comment_hides_write-NoWrite body h
hides_write-IsQuiet _ h = tt

pub no_comment_writes : (tokens : List Token) → any hides_write tokens ≡ false → All IsQuiet tokens
no_comment_writes [] h = tt
no_comment_writes (t ∷ ts) h =
    let (quiet, rest) = neither _ _ h in (hides_write-IsQuiet t quiet, no_comment_writes ts rest)
