-- ===== src/Ble/Observers/Groups.antt =====
-- ble-sensor/main.py: the readings that `_rank_observers` groups by observer, against the candidates.
use smart_trucks.Base.{
  ◌≤◌, true, false, ◌||◌, leb, Option, none, some, if◌then◌else◌, List, [], ◌∷◌, ◌++◌, All, any_of,
  length, length-append, append-nil, append_assoc, ◌≡◌, refl, sym, ◌∙◌, ap, subst, arith,
  Bool-cases, inl, inr, if_either,
}
use smart_trucks.Base.Text.{Text, text_eq, text_eq_sound}
use smart_trucks.Base.Int.{ℤ}
use smart_trucks.Ble.Observers.{Candidate, Readings, no_text, append_reading, read_one, by_observer}

abbrev heard_once : Text → Text → Option ℤ → List ℤ
heard_once o k none = []
heard_once o k (some r) = if no_text k then [] else if text_eq o k then r ∷ [] else []

-- The readings of an observer, where it has a name.
abbrev pub heard : {F : Type 0} → Text → List (Candidate F) → List ℤ
heard o [] = []
heard o (c ∷ cs) = heard_once o c.observer_id c.rssi ++ heard o cs

abbrev pub readings_of : Text → Readings → List ℤ
readings_of o [] = []
readings_of o ((k, rs) ∷ more) = let rest = readings_of o more in if text_eq o k then rs else rest

abbrev pub names : Readings → List Text
names [] = []
names ((k, rs) ∷ more) = k ∷ names more

abbrev pub AllDistinct : List Text → Type 0
AllDistinct [] = Unit
AllDistinct (k ∷ ks) = (any_of (text_eq k) ks ≡ false) × AllDistinct ks

-- Each observer has one group, with a reading in it.
abbrev pub Grouped : Readings → Type 0
Grouped seen = AllDistinct (names seen) × All (λ g. 1 ≤ length g.1) seen

text_eq_comm : (a b : Text) → text_eq a b ≡ text_eq b a
text_eq_comm [] [] = refl
text_eq_comm [] (y ∷ b) = refl
text_eq_comm (x ∷ a) [] = refl
text_eq_comm (x ∷ a) (y ∷ b) = ground (arith, text_eq_comm a b)

text_eq_same : (o a b : Text) → text_eq a b ≡ true → text_eq o a ≡ text_eq o b
text_eq_same o a b h = ap (text_eq o) (text_eq_sound a b h)

readings_of-append :
    (o k : Text) (r : ℤ) (seen : Readings)
    → readings_of o (append_reading k r seen)
      ≡ readings_of o seen ++ (if text_eq o k then r ∷ [] else [])
unfolding append_reading
readings_of-append o k r [] = refl
readings_of-append o k r ((j, rs) ∷ more) = ground (
  arith,
  text_eq_same o k j,
  text_eq_same k o j,
  text_eq_comm k o,
  append-nil rs,
  append-nil (readings_of o more),
  readings_of-append o k r more,
)

names-append :
    (o k : Text) (r : ℤ) (seen : Readings)
    → any_of (text_eq o) (names (append_reading k r seen))
      ≡ (text_eq o k || any_of (text_eq o) (names seen))
unfolding append_reading
names-append o k r [] = refl
names-append o k r ((j, rs) ∷ more) = ground (arith, text_eq_same o k j, names-append o k r more)

append_reading-Grouped :
    (k : Text) (r : ℤ) (seen : Readings) → Grouped seen → Grouped (append_reading k r seen)
unfolding append_reading
append_reading-Grouped k r [] g = ((refl, tt), (omega arith, tt))
append_reading-Grouped k r ((j, rs) ∷ more) ((f, d), (l, ls)) =
    if_either Grouped (text_eq k j) (λ e. ((f, d), (omega (arith, length-append rs (r ∷ [])), ls)))
      (λ e.
        let (d2, ls2) = append_reading-Grouped k r more (d, ls) in
        ((names-append j k r more ∙ ground (arith, text_eq_comm j k), d2), (l, ls2)))

read_one-Grouped :
    (k : Text) (r : Option ℤ) (seen : Readings) → Grouped seen → Grouped (read_one k r seen)
read_one-Grouped k none seen g = g
read_one-Grouped k (some r) seen g =
    if_either Grouped (no_text k) (λ _. g) (λ _. append_reading-Grouped k r seen g)

readings_of-read_one :
    (o k : Text) (r : Option ℤ) (seen : Readings)
    → readings_of o (read_one k r seen) ≡ readings_of o seen ++ heard_once o k r
readings_of-read_one o k none seen = sym (append-nil (readings_of o seen))
readings_of-read_one o k (some r) seen =
    ground (arith, append-nil (readings_of o seen), readings_of-append o k r seen)

by_observer-Grouped :
    {F : Type 0} (seen : Readings) (cs : List (Candidate F))
    → Grouped seen
    → Grouped (by_observer seen cs)
unfolding by_observer
by_observer-Grouped seen [] g = g
by_observer-Grouped seen (c ∷ cs) g =
    by_observer-Grouped (read_one c.observer_id c.rssi seen) cs
      (read_one-Grouped c.observer_id c.rssi seen g)

by_observer-more :
    {F : Type 0} (o : Text) (seen : Readings) (cs : List (Candidate F))
    → readings_of o (by_observer seen cs) ≡ readings_of o seen ++ heard o cs
unfolding by_observer
by_observer-more o seen [] = sym (append-nil (readings_of o seen))
by_observer-more o seen (c ∷ cs) =
    by_observer-more o (read_one c.observer_id c.rssi seen) cs
    ∙ ap (λ l. l ++ heard o cs) (readings_of-read_one o c.observer_id c.rssi seen)
    ∙ append_assoc (readings_of o seen) (heard_once o c.observer_id c.rssi) (heard o cs)

-- The groups of some candidates: one for each observer heard, with all its readings in their order.
pub grouped : {F : Type 0} (cs : List (Candidate F)) → Grouped (by_observer [] cs)
grouped cs = by_observer-Grouped [] cs (tt, tt)

pub readings_of-heard :
    {F : Type 0} (o : Text) (cs : List (Candidate F))
    → readings_of o (by_observer [] cs) ≡ heard o cs
readings_of-heard o cs = by_observer-more o [] cs

pub names-readings_of :
    (o : Text) (seen : Readings)
    → Grouped seen
    → any_of (text_eq o) (names seen) ≡ leb 1 (length (readings_of o seen))
names-readings_of o [] g = refl
names-readings_of o ((k, rs) ∷ more) ((f, d), (l, ls)) =
    ground (arith, names-readings_of o more (d, ls))

pub length-names : (seen : Readings) → length (names seen) ≡ length seen
length-names [] = refl
length-names ((k, rs) ∷ more) = omega (arith, length-names more)

-- What holds of all groups holds of that of a name.
pub All-readings_of :
    (P : Text × List ℤ → Type 0) (o : Text) (seen : Readings)
    → All P seen
    → any_of (text_eq o) (names seen) ≡ true
    → P (o, readings_of o seen)
All-readings_of P o [] h m = absurd (cc)
All-readings_of P o ((k, rs) ∷ more) (h, hs) m = elim (Bool-cases (text_eq o k)) [
  | inl e ↦ rw e (subst (λ q. P (q, rs)) (sym (text_eq_sound o k e)) h)
  | inr e ↦ rw e (All-readings_of P o more hs (rw e at m))
]
