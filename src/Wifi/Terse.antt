-- ===== src/Wifi/Terse.antt =====
-- wifi-provisioner/nm.py: `_split_terse`, against what `nmcli -t` prints: fields separated by a colon, with a
-- backslash before each colon and backslash inside a field.
use smart_trucks.Base.{
  ℕ, false, ◌||◌, ◌==◌, if◌then◌else◌, List, [], ◌∷◌, ◌++◌, ◌≡◌, refl, ◌∙◌, ap, sym, arith,
  Bool-cases, inl, inr,
}
use smart_trucks.Base.Text.{Text}

-- The loop, with `buf`; the fields go out as they are done.
unfoldable pub split_from : Text → Text → List Text
split_from buf [] = buf ∷ []
split_from buf (c ∷ []) = if c == b':' then buf ∷ [] ∷ [] else (buf ++ c ∷ []) ∷ []
split_from buf (c ∷ d ∷ s) =
    let escaped = split_from (buf ++ d ∷ []) s in
    let next = buf ∷ split_from [] (d ∷ s) in
    let more = split_from (buf ++ c ∷ []) (d ∷ s) in
    if c == b'\\' then escaped else if c == b':' then next else more

-- `_split_terse`
unfoldable pub split_terse : Text → List Text
unfolding split_from
split_terse line = split_from [] line

-- A field as nmcli prints it, and a line.
abbrev pub escape : Text → Text
escape [] = []
escape (c ∷ s) =
    let rest = escape s in if c == b'\\' || c == b':' then b'\\' ∷ c ∷ rest else c ∷ rest

abbrev pub print_terse : Text → List Text → Text
print_terse f [] = escape f
print_terse f (g ∷ gs) = escape f ++ b':' ∷ print_terse g gs

split_plain :
    (buf : Text) (c : ℕ) (t : Text)
    → (c == b'\\') ≡ false
    → (c == b':') ≡ false
    → split_from buf (c ∷ t) ≡ split_from (buf ++ c ∷ []) t
unfolding split_from
split_plain buf c [] e f = rw f refl
split_plain buf c (d ∷ s) e f = rw (e, f) refl

split_colon : (buf t : Text) → split_from buf (b':' ∷ t) ≡ buf ∷ split_from [] t
unfolding split_from
split_colon buf [] = refl
split_colon buf (d ∷ s) = refl

split_escaped :
    (buf : Text) (c : ℕ) (t : Text) → split_from buf (b'\\' ∷ c ∷ t) ≡ split_from (buf ++ c ∷ []) t
unfolding split_from
split_escaped buf c t = refl

buffer_assoc : (buf : Text) (c : ℕ) (f : Text) → (buf ++ c ∷ []) ++ f ≡ buf ++ c ∷ f
buffer_assoc [] c f = refl
buffer_assoc (b ∷ buf) c f = ap (λ t. b ∷ t) (buffer_assoc buf c f)

buffer_nil : (buf : Text) → buf ++ [] ≡ buf
buffer_nil [] = refl
buffer_nil (b ∷ buf) = ap (λ t. b ∷ t) (buffer_nil buf)

special :
    (c : ℕ) → (c == b'\\' || c == b':') ≡ false → ((c == b'\\') ≡ false) × ((c == b':') ≡ false)
special c h = ground arith

-- A printed field is read into the buffer, whatever follows it.
split-escape : (buf f t : Text) → split_from buf (escape f ++ t) ≡ split_from (buf ++ f) t
split-escape buf [] t = ap (λ b. split_from b t) (sym (buffer_nil buf))
split-escape buf (c ∷ f) t = elim (Bool-cases (c == b'\\' || c == b':')) [
  | inl marked ↦ rw marked (
      split_escaped buf c (escape f ++ t)
      ∙ split-escape (buf ++ c ∷ []) f t
      ∙ ap (λ b. split_from b t) (buffer_assoc buf c f))
  | inr plain ↦ rw plain (
      split_plain buf c (escape f ++ t) (special c plain).0 (special c plain).1
      ∙ split-escape (buf ++ c ∷ []) f t
      ∙ ap (λ b. split_from b t) (buffer_assoc buf c f))
]

split_last : (f : Text) → split_from [] (escape f) ≡ f ∷ []
unfolding split_from
split_last f = ap (split_from []) (sym (buffer_nil (escape f))) ∙ split-escape [] f []

-- What nmcli prints for any fields, at least one, with colons and backslashes or not, is split into the same
-- fields.
pub split_terse-print_terse : (f : Text) (fs : List Text) → split_terse (print_terse f fs) ≡ f ∷ fs
unfolding split_terse
split_terse-print_terse f [] = split_last f
split_terse-print_terse f (g ∷ gs) =
    split-escape [] f (b':' ∷ print_terse g gs)
    ∙ split_colon f (print_terse g gs)
    ∙ ap (λ l. f ∷ l) (unfold split_terse in split_terse-print_terse g gs)
