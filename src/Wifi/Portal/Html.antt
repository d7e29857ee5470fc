-- ===== src/Wifi/Portal/Html.antt =====
-- wifi-provisioner/main.py: `_render_portal`. The template file is not code; its text is a parameter.
use smart_trucks.Base.{
  ℕ, true, false, not, ◌==◌, if◌then◌else◌, List, [], ◌∷◌, ◌++◌, map, keep_if, ◌≡◌, refl, arith,
  Bool-cases, inl, inr,
}
use smart_trucks.Base.Text.{Text, text_or, codes, replace_from, replace, join, free_of}
use smart_trucks.Base.Result.{Result, ok, raise}
use smart_trucks.Wifi.Networks.{
  NetworkManager, KnownNetwork, ScanResult, is_blank, list_known_networks, scan_visible_networks,
}
use smart_trucks.Wifi.Supervisor.{Host}

-- `_esc`
unfoldable pub esc : Text → Text
esc s =
    replace
      (replace (replace (replace s (codes "&") (codes "&amp;")) (codes "<") (codes "&lt;"))
        (codes ">") (codes "&gt;"))
      (b'"' ∷ []) (codes "&quot;")

-- A literal with double quotes, written as single ones here.
abbrev html : Text → Text
html [] = []
html (c ∷ s) = (if c == b'\'' then b'"' else c) ∷ html s

-- What a page says at its top.
pub data Banner : Type 0 where
  message : Text → Banner
  error : Text → Banner
  no_banner : Banner

unfoldable pub banner_html : Banner → Text
unfolding esc
banner_html no_banner = []
banner_html (message []) = []
banner_html (message (c ∷ t)) =
    html (codes "<div class='banner ok'>") ++ esc (c ∷ t) ++ codes "</div>"
banner_html (error []) = []
banner_html (error (c ∷ t)) =
    html (codes "<div class='banner err'>") ++ esc (c ∷ t) ++ codes "</div>"

abbrev pub listed : {A : Type 0} → Result (List A) → List A
listed (ok l) = l
listed (raise e) = []

module _ (nm : NetworkManager) where
  -- An item of `known_rows`.
  unfoldable pub known_html : KnownNetwork → Text
  unfolding esc
  known_html n = join (
      html (codes "<li><span class='ssid'>")
      ∷ esc n.ssid
      ∷ html (codes "</span><span class='prio'>priority ")
      ∷ nm.str_int n.priority
      ∷ html (codes "</span><form method='post' action='/api/networks/delete' class='inline'>")
      ∷ html (codes "<input type='hidden' name='name' value='")
      ∷ esc n.name
      ∷ html (codes "'><input type='password' name='pin' placeholder='PIN' required>")
      ∷ html (codes "<button type='submit'>Forget</button></form></li>")
      ∷ [])

  -- An item of `scan_options`.
  unfoldable pub scan_html : ScanResult → Text
  unfolding esc
  scan_html s = join (
      html (codes "<option value='")
      ∷ esc s.ssid
      ∷ html (codes "'>")
      ∷ esc s.ssid
      ∷ codes " ("
      ∷ nm.str_int s.signal
      ∷ codes "%, "
      ∷ esc (text_or s.security (codes "open"))
      ∷ codes ")</option>"
      ∷ [])

  unfoldable pub page : Text → Text → List KnownNetwork → List ScanResult → Banner → Text
  unfolding esc known_html scan_html banner_html
  page template vehicle_id known scan banner =
      let rows =
        text_or (join (map known_html known))
          (html (codes "<li class='empty'>No saved networks yet.</li>")) in
      let options =
        text_or (join (map scan_html (keep_if (λ s. not (is_blank s.ssid)) scan)))
          (html (codes "<option value='' disabled>No nearby networks detected</option>")) in
      replace
        (replace
          (replace (replace template (codes "{{VEHICLE_ID}}") (esc vehicle_id))
            (codes "{{KNOWN_ROWS}}") rows)
          (codes "{{SCAN_OPTIONS}}") options)
        (codes "{{BANNER}}") (banner_html banner)

  -- `_render_portal`: what it lists, and the page.
  unfoldable pub render_portal : Text → Text → Banner → Host nm → Host nm × Text
  unfolding page
  render_portal template vehicle_id banner s =
      let known = list_known_networks nm s.network_manager in
      let scan = scan_visible_networks nm known.0 in
      (
        record s { network_manager = scan.0 },
        page template vehicle_id (listed known.1) (listed scan.1) banner,
      )

-- Replacing one character leaves none of it, if the new text has none, and adds none of another.
free-append :
    (d : ℕ) (s t : Text) → free_of d s ≡ true → free_of d t ≡ true → free_of d (s ++ t) ≡ true
free-append d [] t h k = k
free-append d (c ∷ s) t h k = ground (arith, free-append d s t)

replaced-gone :
    (c : ℕ) (new s : Text) → free_of c new ≡ true → free_of c (replace_from 0 (c ∷ []) new s) ≡ true
unfolding replace_from
replaced-gone c new [] h = refl
replaced-gone c new (x ∷ s) h = elim (Bool-cases (x == c)) [
  | inl e ↦ rw e (free-append c new (replace_from 0 (c ∷ []) new s) h (replaced-gone c new s h))
  | inr e ↦ rw (e, e) (replaced-gone c new s h)
]

replaced-free :
    (d c : ℕ) (new s : Text)
    → free_of d new ≡ true
    → free_of d s ≡ true
    → free_of d (replace_from 0 (c ∷ []) new s) ≡ true
unfolding replace_from
replaced-free d c new [] h k = refl
replaced-free d c new (x ∷ s) h k = elim (Bool-cases (x == c)) [
  | inl e ↦
      rw e
        (free-append d new (replace_from 0 (c ∷ []) new s) h (replaced-free d c new s h (rest k)))
  | inr e ↦ rw (e, head k) (replaced-free d c new s h (rest k))
]
  where
    rest : free_of d (x ∷ s) ≡ true → free_of d s ≡ true
    rest k = ground arith

    head : free_of d (x ∷ s) ≡ true → (x == d) ≡ false
    head k = ground arith

-- Whatever an SSID, a name or a message holds, the text that the page shows for it has no angle bracket
-- and no double quote, so it neither opens a tag nor ends an attribute.
esc-free_of :
    (s : Text)
    → (free_of b'<' (esc s) ≡ true) × (free_of b'>' (esc s) ≡ true) × (free_of b'"' (esc s) ≡ true)
unfolding esc replace
esc-free_of s =
    let amp = replace_from 0 (codes "&") (codes "&amp;") s in
    let lt = replace_from 0 (codes "<") (codes "&lt;") amp in
    let gt = replace_from 0 (codes ">") (codes "&gt;") lt in
    let quot = codes "&quot;" in
    (
      replaced-free b'<' b'"' quot gt refl (
          replaced-free b'<' b'>' (codes "&gt;") lt refl
            (replaced-gone b'<' (codes "&lt;") amp refl)),
      replaced-free b'>' b'"' quot gt refl (replaced-gone b'>' (codes "&gt;") lt refl),
      replaced-gone b'"' quot gt refl,
    )
