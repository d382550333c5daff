-- ===== src/Bcheck/Slot.antt =====
-- One slot of a page of the bounds table (lib/bcheck.c: __bound_find_region, add_region,
-- delete_region). A slot is a BoundEntry of the page with the entries behind its `next`. An
-- `unsigned long` has 32 bits, as the table's constants ask.
pub mod Laws
use inherpreter.Prelude.{
  ℕ, ◌+◌, ◌-◌, ◌%◌, ◌^◌, Bool, true, false, Option, none, some, List, [], ◌∷◌, leb, ◌==◌,
  if◌then◌else◌,
}

abbrev pub word : ℕ
word = 2 ^ 32

abbrev pub empty_size : ℕ
empty_size = 0xffff_ffff

abbrev pub invalid_size : ℕ
invalid_size = 0

-- `a - b` and `a + b` on `unsigned long`
abbrev pub sub_word : ℕ → ℕ → ℕ
sub_word a b = (a + word - b) % word

abbrev pub add_word : ℕ → ℕ → ℕ
add_word a b = (a + b) % word

pub record Region : Type 0 where
  pub start : ℕ
  pub size : ℕ

pub record Slot : Type 0 where
  pub head : Region
  pub next : List Region
  pub is_invalid : Bool

abbrev pub empty_slot : Slot
empty_slot = record {
  head = record { start = 0; size = empty_size };
  next = [];
  is_invalid = false;
}

abbrev pub invalid_slot : Slot
invalid_slot = record {
  head = record { start = 0; size = invalid_size };
  next = [];
  is_invalid = true;
}

-- `addr = p - e->start; addr <= e->size`
unfoldable pub covers : Region → ℕ → Bool
covers r p = leb (sub_word p r.start) r.size

-- The first of the entries that covers `p`, and the entries with `first` put in its place.
abbrev before : Region → Option (Region × List Region) → Option (Region × List Region)
before r none = none
before r (some (found, rs)) = some (found, r ∷ rs)

unfoldable pub swap_out : Region → List Region → ℕ → Option (Region × List Region)
unfolding covers
swap_out first [] p = none
swap_out first (r ∷ rs) p =
    if covers r p then some (r, first ∷ rs) else before r (swap_out first rs p)

-- The entry that is returned: its region, and whether it is marked invalid.
pub record Entry : Type 0 where
  pub region : Region
  pub is_invalid : Bool

abbrev found_or_default : Slot → Option (Region × List Region) → Slot × Entry
found_or_default e1 none =
    let slot = if e1.is_invalid then invalid_slot else empty_slot in
    (e1, record { region = slot.head; is_invalid = slot.is_invalid })
found_or_default e1 (some (found, rest)) =
    (record e1 { head = found; next = rest }, record { region = found; is_invalid = e1.is_invalid })

-- The slot with the region that covers `p` at its head, and that entry; or the first entry of the
-- empty page or of the invalid page.
unfoldable pub find_region : Slot → ℕ → Slot × Entry
unfolding swap_out covers
find_region e1 p =
    if covers e1.head p
    then (e1, record { region = e1.head; is_invalid = e1.is_invalid })
    else found_or_default e1 (swap_out e1.head e1.next p)

-- The look-up of the checking functions: the head is tried first.
unfoldable pub lookup_region : Slot → ℕ → Slot × Entry
unfolding covers find_region
lookup_region e p =
    if covers e.head p
    then (e, record { region = e.head; is_invalid = e.is_invalid })
    else find_region e p

unfoldable pub add_region : Slot → (start size : ℕ) → Slot
add_region e start size =
    let region : Region = record { start = start; size = size } in
    if e.head.start == 0
    then record e { head = region }
    else record e { head = region; next = e.head ∷ e.next }

-- The entries without the first one that covers `p`.
unfoldable pub remove_region : List Region → ℕ → List Region
unfolding covers
remove_region [] p = []
remove_region (r ∷ rs) p = if covers r p then rs else r ∷ remove_region rs p

-- The next entry is copied into the head; where there is none, the slot is marked empty.
abbrev drop_head : Slot → ℕ → List Region → Slot
drop_head e size [] = record e { head = record { start = 0; size = size } }
drop_head e size (r ∷ rs) = record e { head = r; next = rs }

unfoldable pub delete_region : Slot → (p size : ℕ) → Slot
unfolding covers remove_region
delete_region e p size =
    if covers e.head p then drop_head e size e.next else record e { next = remove_region e.next p }
