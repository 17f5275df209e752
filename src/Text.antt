-- ===== src/Text.antt =====
-- Python's `str` as the list of its code points, with the string methods that the source calls:
-- equality, `strip`, `rstrip`, `startswith`, and slices.
use Prim.Native.Char.{code}
use yg_license_server.Base.{
  ℕ, ◌-◌, String, ◌≡◌, refl, ap, ◌↔◌, Bool, true, false, ◌&&◌, ◌||◌, Option, none, some, List, [],
  ◌∷◌, reverse, arith, ◌==◌, leb, if◌then◌else◌, length, drop, option_eq,
}

abbrev pub Text : Type 0
Text = List ℕ

-- A literal.
abbrev pub codes : String → Text
codes String.[] = []
codes (String.◌∷◌ c s) = code c ∷ codes s

unfoldable pub text_eq : Text → Text → Bool
text_eq [] [] = true
text_eq (a ∷ s) (b ∷ t) = a == b && text_eq s t
text_eq [] (b ∷ t) = false
text_eq (a ∷ s) [] = false

pub text_eq_refl : (s : Text) → text_eq s s ≡ true
unfolding text_eq
text_eq_refl [] = refl
text_eq_refl (a ∷ s) = ground (arith, text_eq_refl s)

pub eq_of_text_eq : (s t : Text) → text_eq s t ≡ true → s ≡ t
unfolding text_eq
eq_of_text_eq [] [] h = refl
eq_of_text_eq (a ∷ s) (b ∷ t) h = ground (arith, eq_of_text_eq s t)
eq_of_text_eq [] (b ∷ t) h = cc
eq_of_text_eq (a ∷ s) [] h = cc

pub text_eq_iff : (s t : Text) → (text_eq s t ≡ true) ↔ (s ≡ t)
text_eq_iff s t = (eq_of_text_eq s t, λ e. rw e (text_eq_refl t))

-- `bool(s)` of a text, and of one that may be None.
abbrev pub nonempty : Text → Bool
nonempty [] = false
nonempty (c ∷ s) = true

abbrev pub truthy : Option Text → Bool
truthy none = false
truthy (some s) = nonempty s

-- `s or None`
abbrev pub or_none : Text → Option Text
or_none [] = none
or_none (c ∷ s) = some (c ∷ s)

-- `a == b` where both may be None
abbrev pub text_opt_eq : Option Text → Option Text → Bool
text_opt_eq = option_eq text_eq

pub eq_of_text_opt_eq : (a b : Option Text) → text_opt_eq a b ≡ true → a ≡ b
eq_of_text_opt_eq none none h = refl
eq_of_text_opt_eq (some s) (some t) h = ap some (eq_of_text_eq s t h)
eq_of_text_opt_eq none (some t) h = cc
eq_of_text_opt_eq (some s) none h = cc

-- `s.startswith(prefix)`
unfoldable pub starts_with : Text → Text → Bool
starts_with s [] = true
starts_with [] (p ∷ prefix) = false
starts_with (c ∷ s) (p ∷ prefix) = c == p && starts_with s prefix

-- `s.endswith(suffix)`
unfoldable pub ends_with : Text → Text → Bool
unfolding starts_with
ends_with s suffix = starts_with (reverse s) (reverse suffix)

-- `str.isspace` of one character
abbrev pub is_space : ℕ → Bool
is_space c =
    (leb 9 c && leb c 13)
    || (leb 28 c && leb c 32)
    || c == 0x85
    || c == 0xa0
    || c == 0x1680
    || (leb 0x2000 c && leb c 0x200a)
    || c == 0x2028
    || c == 0x2029
    || c == 0x202f
    || c == 0x205f
    || c == 0x3000

unfoldable pub drop_while : (ℕ → Bool) → Text → Text
drop_while p [] = []
drop_while p (c ∷ s) = if p c then drop_while p s else c ∷ s

-- `s.rstrip(chars)`, for the characters of a test
unfoldable pub strip_right : (ℕ → Bool) → Text → Text
unfolding drop_while
strip_right p s = reverse (drop_while p (reverse s))

-- `s.strip()`
unfoldable pub strip : Text → Text
unfolding strip_right
strip s = strip_right is_space (drop_while is_space s)

-- `s[-n:]`, for 0 < n
abbrev pub last_chars : ℕ → Text → Text
last_chars n s = drop (length s - n) s

strip_both : strip (codes "  a b ") ≡ codes "a b"
unfolding strip
strip_both = refl

-- the text that a `$` at the end of a regular expression sees: a final newline is left out
unfoldable pub chop_newline : Text → Text
chop_newline [] = []
chop_newline (c ∷ []) = if c == 10 then [] else c ∷ []
chop_newline (c ∷ d ∷ t) = c ∷ chop_newline (d ∷ t)
