-- ===== src/Elf/Resolve/Visibility.antt =====
-- The merging of visibilities.
use inherpreter.Prelude.{ℕ, ◌-◌, ◌<◌, ◌≡◌, arith, ltb, ◌==◌, if◌then◌else◌}
use inherpreter.Elf.Resolve.{stv_default, new_visibility}

-- How much a visibility constrains: STV_DEFAULT, STV_PROTECTED, STV_HIDDEN, STV_INTERNAL.
unfoldable pub constraint : ℕ → ℕ
constraint vis = if vis == stv_default then 0 else 4 - vis

-- The visibility that add_elf_sym keeps, of two visibilities below 4, is the more constraining one.
pub constraint-new_visibility :
    (a b : ℕ)
    → a < 4
    → b < 4
    → constraint (new_visibility a b)
      ≡ (if ltb (constraint a) (constraint b) then constraint b else constraint a)
unfolding constraint new_visibility
constraint-new_visibility a b ha hb = ground arith

-- The order in which symbols of one name are met, and whether one is met twice, does not change the
-- visibility that is kept; visibilities are below 4.
new_visibility_order :
    (a b c : ℕ)
    → a < 4
    → b < 4
    → c < 4
    → (new_visibility a b ≡ new_visibility b a)
      × (new_visibility (new_visibility a b) c ≡ new_visibility a (new_visibility b c))
      × (new_visibility a a ≡ a)
unfolding new_visibility
new_visibility_order a b c ha hb hc = (ground arith, ground arith, ground arith)

pub new_visibility-lt : (a b : ℕ) → a < 4 → b < 4 → new_visibility a b < 4
unfolding new_visibility
new_visibility-lt a b ha hb = ground arith
