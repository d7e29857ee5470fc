-- ===== src/Base/Text.antt =====
-- Python's `str` as the list of its code points: equality, the order of `<=` on texts (which is also
-- SQLite's on ASCII), and the methods that the services call.
use Prim.Native.Nat.{ℕ, zero, suc, ◌-◌}
use Prim.Native.Char.{code}
use Prim.Native.String.{String}
use mathlib.Core.Path.{◌≡◌, refl}
use mathlib.Core.Logic.{◌⊎◌, inl, inr}
use mathlib.Core.Bool.{Bool, true, false, ◌&&◌, ◌||◌}
use mathlib.Core.List.{List, [], ◌∷◌, ◌++◌}
use native.Mathlib.Omega.{arith}
use smart_trucks.Base.Lists.{length}
use smart_trucks.Base.Tests.{ltb, leb, ◌==◌, if◌then◌else◌}

abbrev pub Text : Type 0
Text = List ℕ

-- The code points of a literal.
abbrev pub codes : String → Text
codes String.[] = []
codes (String.◌∷◌ c s) = code c ∷ codes s

abbrev pub text_eq : Text → Text → Bool
text_eq [] [] = true
text_eq [] (y ∷ t) = false
text_eq (x ∷ s) [] = false
text_eq (x ∷ s) (y ∷ t) = x == y && text_eq s t

pub text_eq_sound : (s t : Text) → text_eq s t ≡ true → s ≡ t
text_eq_sound [] [] h = refl
text_eq_sound [] (y ∷ t) h = cc
text_eq_sound (x ∷ s) [] h = cc
text_eq_sound (x ∷ s) (y ∷ t) h = ground (arith, text_eq_sound s t)

pub text_eq_refl : (s : Text) → text_eq s s ≡ true
text_eq_refl [] = refl
text_eq_refl (x ∷ s) = ground (arith, text_eq_refl s)

-- `s <= t`, by code points.
abbrev pub text_le : Text → Text → Bool
text_le [] t = true
text_le (x ∷ s) [] = false
text_le (x ∷ s) (y ∷ t) = ltb x y || (x == y && text_le s t)

pub text_le_total : (s t : Text) → (text_le s t ≡ true) ⊎ (text_le t s ≡ true)
text_le_total [] t = inl refl
text_le_total (x ∷ s) [] = inr refl
text_le_total (x ∷ s) (y ∷ t) = ground (arith, text_le_total s t)

pub text_le_trans : (s t u : Text) → text_le s t ≡ true → text_le t u ≡ true → text_le s u ≡ true
text_le_trans [] t u h k = refl
text_le_trans (x ∷ s) [] u h k = cc
text_le_trans (x ∷ s) (y ∷ t) [] h k = cc
text_le_trans (x ∷ s) (y ∷ t) (z ∷ u) h k = ground (arith, text_le_trans s t u)

text_le_antisym : (s t : Text) → text_le s t ≡ true → text_le t s ≡ true → s ≡ t
text_le_antisym [] [] h k = refl
text_le_antisym [] (y ∷ t) h k = cc
text_le_antisym (x ∷ s) [] h k = cc
text_le_antisym (x ∷ s) (y ∷ t) h k = ground (arith, text_le_antisym s t)

-- `s.startswith(p)`
abbrev pub starts_with : Text → Text → Bool
starts_with s [] = true
starts_with [] (p ∷ ps) = false
starts_with (x ∷ s) (p ∷ ps) = x == p && starts_with s ps

-- `s[n:]` for n ≥ 0
abbrev pub drop : ℕ → Text → Text
drop zero s = s
drop (suc n) [] = []
drop (suc n) (x ∷ s) = drop n s

-- `all(p(ch) for ch in s)`
abbrev pub all_chars : (ℕ → Bool) → Text → Bool
all_chars p [] = true
all_chars p (x ∷ s) = p x && all_chars p s

-- `s.split(sep)` for a separator of one character; never empty.
cons_head : ℕ → List Text → List Text
cons_head x [] = (x ∷ []) ∷ []
cons_head x (part ∷ parts) = (x ∷ part) ∷ parts

unfoldable pub split : ℕ → Text → List Text
unfolding cons_head
split sep [] = [] ∷ []
split sep (x ∷ s) = let parts = split sep s in if x == sep then [] ∷ parts else cons_head x parts

-- `str.isspace` on one character, Python's whole table.
unfoldable pub is_space : ℕ → Bool
is_space c =
    leb 9 c && leb c 13
    || leb 28 c && leb c 32
    || c == 0x85
    || c == 0xa0
    || c == 0x1680
    || leb 0x2000 c && leb c 0x200a
    || c == 0x2028
    || c == 0x2029
    || c == 0x202f
    || c == 0x205f
    || c == 0x3000

unfoldable pub lstrip : Text → Text
unfolding is_space
lstrip [] = []
lstrip (x ∷ s) = let rest = lstrip s in if is_space x then rest else x ∷ s

-- Without the trailing spaces.
unfoldable pub rstrip : Text → Text
unfolding is_space
rstrip [] = []
rstrip (x ∷ s) = elim (rstrip s) [ [] ↦ if is_space x then [] else x ∷ [] | y ∷ t ↦ x ∷ y ∷ t ]

-- `s.strip()`
unfoldable pub strip : Text → Text
unfolding lstrip rstrip
strip s = lstrip (rstrip s)

-- No character of the text is `sep`.
abbrev pub free_of : ℕ → Text → Bool
free_of sep s = all_chars (λ c. if c == sep then false else true) s

pub split_free : (sep : ℕ) (s : Text) → free_of sep s ≡ true → split sep s ≡ s ∷ []
unfolding split
split_free sep [] h = refl
split_free sep (x ∷ s) h = ground (arith, split_free sep s)

pub split-append :
    (sep : ℕ) (s t : Text) → free_of sep s ≡ true → split sep (s ++ sep ∷ t) ≡ s ∷ split sep t
unfolding split
split-append sep [] t h = ground arith
split-append sep (x ∷ s) t h = ground (arith, split-append sep s t)

-- A line boundary of `str.splitlines`.
unfoldable pub is_line_break : ℕ → Bool
is_line_break c =
    leb 10 c && leb c 13 || leb 28 c && leb c 30 || c == 0x85 || c == 0x2028 || c == 0x2029

-- The lines of a text from a line begun with `buf`; a carriage return and a line feed are one boundary.
unfoldable pub lines_from : Text → Text → List Text
unfolding is_line_break
lines_from [] [] = []
lines_from (b ∷ buf) [] = (b ∷ buf) ∷ []
lines_from buf (c ∷ []) = if is_line_break c then buf ∷ [] else (buf ++ c ∷ []) ∷ []
lines_from buf (c ∷ d ∷ s) =
    let both = buf ∷ lines_from [] s in
    let next = buf ∷ lines_from [] (d ∷ s) in
    let more = lines_from (buf ++ c ∷ []) (d ∷ s) in
    if c == 13 && d == 10 then both else if is_line_break c then next else more

-- `s.splitlines()`
unfoldable pub splitlines : Text → List Text
unfolding lines_from
splitlines s = lines_from [] s

-- `s.replace(old, new)` for a nonempty `old`, with so many characters of a match still to pass over.
unfoldable pub replace_from : ℕ → Text → Text → Text → Text
replace_from skip old new [] = []
replace_from zero old new (c ∷ s) =
    let passed = replace_from (length old - 1) old new s in
    let next = replace_from zero old new s in
    if starts_with (c ∷ s) old then new ++ passed else c ∷ next
replace_from (suc skip) old new (c ∷ s) = replace_from skip old new s

unfoldable pub replace : Text → Text → Text → Text
unfolding replace_from
replace s old new = replace_from 0 old new s

-- `"".join(parts)`
abbrev pub join : List Text → Text
join [] = []
join (part ∷ parts) = part ++ join parts

-- `s or default`
abbrev pub text_or : Text → Text → Text
text_or [] default = default
text_or (c ∷ s) default = c ∷ s

-- `p in s`
abbrev pub contains : Text → Text → Bool
contains [] p = starts_with [] p
contains (c ∷ s) p = starts_with (c ∷ s) p || contains s p
