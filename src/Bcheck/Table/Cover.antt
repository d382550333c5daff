-- ===== src/Bcheck/Table/Cover.antt =====
-- What the range of slots of a region becomes.
use inherpreter.Prelude.{
  ℕ, ◌+◌, ◌-◌, ◌*◌, ◌/◌, ◌≤◌, ◌<◌, ◌≡◌, ◌∙◌, ◌≢◌, inl, inr, false, ◌||◌, arith, ◌==◌, if◌then◌else◌,
  ==_iff, ==_refl, Bool-cases,
}
use inherpreter.Bcheck.Slot.{Slot}
use inherpreter.Bcheck.Table.{
  t2_size, t3_size, Table, page_slots, t1_index, t2_index, own_slots, change_page, fill_pages,
  one_page, first_page, change_range,
}
use inherpreter.Bcheck.Table.Ranges.{
  fill_pages_lem, fill_pages_other, one_page_lem, first_page_lem, last_page_lem,
}

-- The slots from the first to the last one of a range, by page and number; only the first page may
-- be reached in another way than by get_page.
module _ (first : Table → ℕ → ((ℕ → Slot) → ℕ → Slot) → Table) (t : Table)
    (edge inner : Slot → Slot) (start end : ℕ) (order : start ≤ end)
    (here : (f : (ℕ → Slot) → ℕ → Slot) (s : ℕ)
      → page_slots (first t (t1_index start) f (t1_index start)) s
        ≡ f (own_slots (t (t1_index start))) s)
    (else_ : (f : (ℕ → Slot) → ℕ → Slot) (k : ℕ)
      → k ≢ t1_index start
      → first t (t1_index start) f k ≡ t k) where
  -- The number of the slot `s` of page `k` among all slots.
  abbrev slot_number : (k s : ℕ) → ℕ
  slot_number k s = k * t2_size + s

  -- A slot in the range, after the change.
  abbrev changed : (k s : ℕ) → Slot
  changed k s =
      if slot_number k s == start / t3_size || slot_number k s == end / t3_size
      then edge (own_slots (t k) s)
      else inner (own_slots (t k) s)

  module _ (k s : ℕ) (small : s < t2_size) (lo : start / t3_size ≤ slot_number k s)
      (hi : slot_number k s ≤ end / t3_size) where
    change_range_one :
        t1_index end ≡ t1_index start
        → page_slots (change_range first edge inner start end t k) s ≡ changed k s
    unfolding change_range
    change_range_one e =
        let k_eq : k ≡ t1_index start = omega arith in
        rw (e, ==_refl (t1_index start), k_eq)
          (here (one_page edge inner (t2_index start) (t2_index end)) s
            ∙ ground (
              arith,
              one_page_lem edge inner (own_slots (t (t1_index start))) s (t2_index start)
                  (t2_index end),
            ))

    -- The table after the first page, and after the whole pages.
    abbrev ta : Table
    ta = first t (t1_index start) (first_page edge inner (t2_index start))

    abbrev tb : Table
    tb = fill_pages (t1_index end - (t1_index start + 1)) (t1_index start + 1) inner ta

    abbrev whole : ℕ
    whole = t1_index end - (t1_index start + 1)

    tb_end : t1_index end ≢ t1_index start → tb (t1_index end) ≡ t (t1_index end)
    tb_end e =
        fill_pages_other whole (t1_index start + 1) inner ta (t1_index end) (ground arith)
        ∙ else_ (first_page edge inner (t2_index start)) (t1_index end) e

    tb_before : t1_index end ≢ t1_index start → k ≢ t1_index end → page_slots (tb k) s ≡ changed k s
    tb_before e not_last =
        fill_pages_lem whole (t1_index start + 1) inner ta k s small
        ∙ elim (Bool-cases (k == t1_index start)) [
          | inl k_first ↦
              let at_start : k ≡ t1_index start = (==_iff k _).0 k_first in
              rw at_start (
                ground (
                  arith,
                  here (first_page edge inner (t2_index start)) s,
                  first_page_lem edge inner (own_slots (t (t1_index start))) s (t2_index start)
                      small,
                ))
          | inr between ↦
              rw (else_ (first_page edge inner (t2_index start)) k (ground arith)) (ground arith)
        ]

    change_range_many :
        t1_index end ≢ t1_index start
        → page_slots (change_range first edge inner start end t k) s ≡ changed k s
    unfolding change_range change_page
    change_range_many e =
        let test : (t1_index end == t1_index start) ≡ false = ground arith in
        rw test (elim (Bool-cases (k == t1_index end)) [
          | inl last ↦
              let at_end : k ≡ t1_index end = (==_iff k _).0 last in
              rw (last, tb_end e, at_end)
                (ground
                  (arith, last_page_lem edge inner (own_slots (t (t1_index end))) s (t2_index end)))
          | inr rest ↦ rw rest (tb_before e (ground arith))
        ])

    pub change_range_lem : page_slots (change_range first edge inner start end t k) s ≡ changed k s
    change_range_lem = elim (Bool-cases (t1_index end == t1_index start)) [
      | inl e ↦ change_range_one ((==_iff _ _).0 e)
      | inr e ↦ change_range_many (ground arith)
    ]
