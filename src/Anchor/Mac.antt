-- ===== src/Anchor/Mac.antt =====
-- ble-sensor/main.py: `_canonicalize_mac_address`. Python's tables of alphanumeric and upper-case
-- characters beyond ASCII are the two parameters.
use smart_trucks.Base.{
  ℕ, ◌+◌, ◌-◌, Bool, true, false, ◌&&◌, ◌||◌, leb, ltb, if◌then◌else◌, [], ◌∷◌, ◌++◌, keep_if,
  length, ◌==◌, ◌≡◌, refl, arith, Bool-cases, inl, inr, ap, sym, ◌∙◌, length-append, zero, suc, ◌*◌,
}
use smart_trucks.Base.Text.{Text, all_chars}

abbrev pub is_digit : ℕ → Bool
is_digit c = leb b'0' c && leb c b'9'

abbrev pub is_lower : ℕ → Bool
is_lower c = leb b'a' c && leb c b'z'

abbrev pub is_upper : ℕ → Bool
is_upper c = leb b'A' c && leb c b'Z'

-- `ch in "0123456789abcdefABCDEF"`
unfoldable pub is_hex : ℕ → Bool
is_hex c = is_digit c || leb b'a' c && leb c b'f' || leb b'A' c && leb c b'F'

module _ (alnum_beyond : ℕ → Bool) (upper_beyond : ℕ → Text) where
  -- `ch.isalnum()`
  unfoldable pub is_alnum : ℕ → Bool
  is_alnum c = if ltb c 128 then is_digit c || is_lower c || is_upper c else alnum_beyond c

  -- `ch.upper()`
  unfoldable pub upper_char : ℕ → Text
  upper_char c =
      if ltb c 128 then (if is_lower c then (c - 32) ∷ [] else c ∷ []) else upper_beyond c

  unfoldable pub upper : Text → Text
  unfolding upper_char
  upper [] = []
  upper (c ∷ s) = upper_char c ++ upper s

  -- `":".join(octets)` over the twelve digits.
  unfoldable pub join_octets : Text → Text
  unfolding upper_char
  join_octets [] = []
  join_octets (a ∷ []) = upper_char a
  join_octets (a ∷ b ∷ []) = upper_char a ++ upper_char b
  join_octets (a ∷ b ∷ c ∷ s) = upper_char a ++ (upper_char b ++ b':' ∷ join_octets (c ∷ s))

  unfoldable pub canonicalize_mac : Text → Text
  unfolding is_alnum is_hex upper join_octets
  canonicalize_mac mac =
      let stripped = keep_if is_alnum mac in
      if length stripped == 12 && all_chars is_hex stripped then join_octets stripped else upper mac

  -- What the callers take for an address.
  unfoldable pub accepted_mac : Text → Bool
  unfolding canonicalize_mac
  accepted_mac mac = length (canonicalize_mac mac) == 17

  abbrev pub is_ascii : Text → Bool
  is_ascii mac = all_chars (λ c. ltb c 128) mac

  -- Twelve hex digits among separators.
  unfoldable pub has_twelve_hex : Text → Bool
  unfolding is_alnum is_hex
  has_twelve_hex mac =
      length (keep_if is_alnum mac) == 12 && all_chars is_hex (keep_if is_alnum mac)

  length-upper_char : (c : ℕ) → ltb c 128 ≡ true → length (upper_char c) ≡ 1
  unfolding upper_char
  length-upper_char c h = ground arith

  hex_ascii : (c : ℕ) → is_hex c ≡ true → ltb c 128 ≡ true
  unfolding is_hex
  hex_ascii c h = ground arith

  length-hex_char : (c : ℕ) → is_hex c ≡ true → length (upper_char c) ≡ 1
  length-hex_char c h = length-upper_char c (hex_ascii c h)

  length-upper : (s : Text) → is_ascii s ≡ true → length (upper s) ≡ length s
  unfolding upper
  length-upper [] h = refl
  length-upper (c ∷ s) h =
      ground (arith, length-append (upper_char c) (upper s), length-upper_char c, length-upper s)

  length-join_octets :
      (k : ℕ) (s : Text)
      → length s ≡ 2 * k + 2
      → all_chars is_hex s ≡ true
      → length (join_octets s) ≡ 3 * k + 2
  unfolding join_octets
  length-join_octets k [] h a = absurd (omega arith)
  length-join_octets k (a ∷ []) h x = absurd (omega arith)
  length-join_octets zero (a ∷ b ∷ []) h x =
      ground
        (arith, length-append (upper_char a) (upper_char b), length-hex_char a, length-hex_char b)
  length-join_octets (suc k) (a ∷ b ∷ []) h x = absurd (omega arith)
  length-join_octets zero (a ∷ b ∷ c ∷ s) h x = absurd (omega arith)
  length-join_octets (suc k) (a ∷ b ∷ c ∷ s) h x = ground (
    arith,
    length-append (upper_char a) (upper_char b ++ b':' ∷ join_octets (c ∷ s)),
    length-append (upper_char b) (b':' ∷ join_octets (c ∷ s)),
    length-hex_char a,
    length-hex_char b,
    length-join_octets k (c ∷ s),
  )

  canonicalize_hex :
      (mac : Text)
      → has_twelve_hex mac ≡ true
      → canonicalize_mac mac ≡ join_octets (keep_if is_alnum mac)
  unfolding canonicalize_mac has_twelve_hex
  canonicalize_hex mac h = rw h refl

  twelve :
      (s : Text)
      → (length s == 12 && all_chars is_hex s) ≡ true
      → (length s ≡ 2 * 5 + 2) × (all_chars is_hex s ≡ true)
  twelve s h = ground arith

  length_of_twelve : (mac : Text) → has_twelve_hex mac ≡ true → length (canonicalize_mac mac) ≡ 17
  length_of_twelve mac h =
      ap length (canonicalize_hex mac h)
      ∙ length-join_octets 5 (keep_if is_alnum mac)
          (unfold has_twelve_hex in (twelve (keep_if is_alnum mac) h).0)
          (unfold has_twelve_hex in (twelve (keep_if is_alnum mac) h).1)

  length_of_other :
      (mac : Text)
      → is_ascii mac ≡ true
      → has_twelve_hex mac ≡ false
      → length (canonicalize_mac mac) ≡ length mac
  unfolding canonicalize_mac has_twelve_hex
  length_of_other mac a h = ground (arith, length-upper mac a)

  -- On an ASCII text the test `len(mac) == 17` behind the canonicaliser passes exactly if the text has
  -- twelve hex digits as its only alphanumerics, or if it has seventeen characters, whatever they are.
  pub accepted_mac_lem :
      (mac : Text)
      → is_ascii mac ≡ true
      → accepted_mac mac ≡ (has_twelve_hex mac || length mac == 17)
  unfolding accepted_mac
  accepted_mac_lem mac a = elim (Bool-cases (has_twelve_hex mac)) [
    | inl twelve ↦ rw (twelve, length_of_twelve mac twelve) refl
    | inr other ↦ rw (other, length_of_other mac a other) refl
  ]

  hex_same :
      (mac other : Text)
      → keep_if is_alnum mac ≡ keep_if is_alnum other
      → has_twelve_hex mac ≡ true
      → has_twelve_hex other ≡ true
  unfolding has_twelve_hex
  hex_same mac other e h = rw e at h

  -- Separators and the like make no difference: two spellings with the same alphanumerics, of which
  -- twelve hex digits, have one canonical form, of seventeen characters.
  canonicalize_mac_separators :
      (mac other : Text)
      → has_twelve_hex mac ≡ true
      → keep_if is_alnum mac ≡ keep_if is_alnum other
      → (canonicalize_mac mac ≡ canonicalize_mac other) × (length (canonicalize_mac other) ≡ 17)
  canonicalize_mac_separators mac other h e =
      let other_hex = hex_same mac other e h in
      (
        canonicalize_hex mac h ∙ ap join_octets e ∙ sym (canonicalize_hex other other_hex),
        length_of_twelve other other_hex,
      )
