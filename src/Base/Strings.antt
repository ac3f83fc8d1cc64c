-- ===== src/Base/Strings.antt =====
-- The program's strings: sequences of 16-bit code units, as in JavaScript.
use Prim.Native.Nat.{ℕ, ◌+◌}
use Prim.Native.Char.{code}
use Prim.Native.String.{String}
use mathlib.Core.Path.{◌≡◌, refl, subst}
use mathlib.Core.Logic.{◌↔◌, inl, inr}
use mathlib.Core.Bool.{Bool, true, false, ◌&&◌, ◌||◌}
use mathlib.Core.List.{List, [], ◌∷◌, reverse, map, Mem, mem-cons_self, mem-cons_of_mem}
use native.Mathlib.Omega.{arith}
use native.Mathlib.Decide.{ℕ_discrete}
use revdev.Base.Tests.{◌==◌, leb, if◌then◌else◌, Bool-cases}
use revdev.Base.Lists.{any}

abbrev pub Text : Type 0
Text = List ℕ

-- A literal of the source: its code points, which are its code units, since all are ASCII.
unfoldable pub txt : String → Text
txt String.[] = []
txt (String.◌∷◌ c s) = code c ∷ txt s

-- `a === b` on strings
unfoldable pub text_eq : Text → Text → Bool
text_eq [] [] = true
text_eq [] (y ∷ ys) = false
text_eq (x ∷ xs) [] = false
text_eq (x ∷ xs) (y ∷ ys) = (x == y) && text_eq xs ys

pub text_eq_refl : (s : Text) → text_eq s s ≡ true
unfolding text_eq
text_eq_refl [] = refl
text_eq_refl (x ∷ xs) = ground (arith, text_eq_refl xs)

eq_of_text_eq : (s t : Text) → text_eq s t ≡ true → s ≡ t
unfolding text_eq
eq_of_text_eq [] [] h = refl
eq_of_text_eq [] (y ∷ ys) h = cc
eq_of_text_eq (x ∷ xs) [] h = cc
eq_of_text_eq (x ∷ xs) (y ∷ ys) h = ground (arith, eq_of_text_eq xs ys)

pub text_eq_iff : (s t : Text) → (text_eq s t ≡ true) ↔ (s ≡ t)
text_eq_iff s t = (eq_of_text_eq s t, λ e. rw e (text_eq_refl t))

-- Where some member is equal to the text, the text is a member.
pub any-Mem : (t : Text) (entries : List Text) → any (text_eq t) entries ≡ true → Mem t entries
any-Mem t [] h = cc
any-Mem t (e ∷ entries) h = elim (Bool-cases (text_eq t e)) [
  | inl hit ↦ subst (λ x. Mem t (x ∷ entries)) ((text_eq_iff t e).0 hit) mem-cons_self
  | inr miss ↦ mem-cons_of_mem e (any-Mem t entries (ground arith))
]

pub Text-set : IsSet Text
Text-set = hlevel ℕ_discrete

-- The white space that `trim` removes: WhiteSpace and LineTerminator of ECMAScript.
unfoldable pub is_white : ℕ → Bool
is_white c =
    leb 9 c && leb c 13
    || c == 32
    || c == 0xa0
    || c == 0x1680
    || leb 0x2000 c && leb c 0x200a
    || c == 0x2028
    || c == 0x2029
    || c == 0x202f
    || c == 0x205f
    || c == 0x3000
    || c == 0xfeff

unfoldable pub trim_start : Text → Text
unfolding is_white
trim_start [] = []
trim_start (c ∷ s) = let rest = trim_start s in if is_white c then rest else c ∷ s

-- `s.trim()`
unfoldable pub trim : Text → Text
unfolding trim_start
trim s = reverse (trim_start (reverse (trim_start s)))

-- `toLowerCase` on one unit: A to Z, and the Kelvin sign, whose lower case is an ASCII letter. The
-- program only compares the result with ASCII words, so other letters may stay as they are.
unfoldable pub lower_unit : ℕ → ℕ
lower_unit c = if leb b'A' c && leb c b'Z' then c + 32 else if c == 0x212a then b'k' else c

unfoldable pub to_lower : Text → Text
unfolding lower_unit
to_lower = map lower_unit
