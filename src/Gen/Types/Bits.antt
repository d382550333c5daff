-- ===== src/Gen/Types/Bits.antt =====
-- Which bits of a type compare_types compares (tccgen.c).
use inherpreter.Prelude.Bits.{bit_and_halves, bit_and-zero}
use inherpreter.Prelude.{
  ℕ, ◌+◌, ◌*◌, ◌/◌, ◌%◌, bit_and, ◌≡◌, refl, sym, ap, ◌∙◌, Bool, true, false, not, ◌&&◌, List, [],
  ◌∷◌, ◌++◌, arith, to_nat, replicate,
}
use inherpreter.Gen.Types.{btype, compared}

-- The bits of a mask, from the lowest on.
abbrev mask : List Bool → ℕ
mask [] = 0
mask (b ∷ bs) = mask bs * 2 + to_nat b

abbrev keep : List Bool → ℕ → ℕ
keep [] x = 0
keep (true ∷ bs) x = keep bs (x / 2) * 2 + x % 2
keep (false ∷ bs) x = keep bs (x / 2) * 2

bit_and-mask : (bs : List Bool) (x : ℕ) → bit_and x (mask bs) ≡ keep bs x
bit_and-mask [] x = bit_and-zero x
bit_and-mask (true ∷ bs) x =
    let half : (mask bs * 2 + 1) / 2 ≡ mask bs = omega arith in
    let low : (mask bs * 2 + 1) % 2 ≡ 1 = omega arith in
    bit_and_halves x (mask bs * 2 + 1) ∙ rw (half, low, bit_and-mask bs (x / 2)) (omega arith)
bit_and-mask (false ∷ bs) x =
    let half : (mask bs * 2 + 0) / 2 ≡ mask bs = omega arith in
    let low : (mask bs * 2 + 0) % 2 ≡ 0 = omega arith in
    bit_and_halves x (mask bs * 2 + 0) ∙ rw (half, low, bit_and-mask bs (x / 2)) (omega arith)

abbrev pub both : List Bool → List Bool → List Bool
both (b ∷ bs) (c ∷ cs) = (b && c) ∷ both bs cs
both _ _ = []

keep-zero : (bs : List Bool) → keep bs 0 ≡ 0
keep-zero [] = refl
keep-zero (true ∷ bs) = rw (keep-zero bs) refl
keep-zero (false ∷ bs) = rw (keep-zero bs) refl

keep-keep : (bs cs : List Bool) (x : ℕ) → keep bs (keep cs x) ≡ keep (both bs cs) x
keep-keep [] cs x = refl
keep-keep (b ∷ bs) [] x = keep-zero (b ∷ bs)
keep-keep (true ∷ bs) (true ∷ cs) x =
    let half : (keep cs (x / 2) * 2 + x % 2) / 2 ≡ keep cs (x / 2) = omega arith in
    rw half (omega (arith, keep-keep bs cs (x / 2)))
keep-keep (true ∷ bs) (false ∷ cs) x =
    let half : keep cs (x / 2) * 2 / 2 ≡ keep cs (x / 2) = omega arith in
    rw half (omega (arith, keep-keep bs cs (x / 2)))
keep-keep (false ∷ bs) (true ∷ cs) x =
    let half : (keep cs (x / 2) * 2 + x % 2) / 2 ≡ keep cs (x / 2) = omega arith in
    rw half (omega (arith, keep-keep bs cs (x / 2)))
keep-keep (false ∷ bs) (false ∷ cs) x =
    let half : keep cs (x / 2) * 2 / 2 ≡ keep cs (x / 2) = omega arith in
    rw half (omega (arith, keep-keep bs cs (x / 2)))

-- The bits that are listed agree.
abbrev pub SameBits : List Bool → (x y : ℕ) → Type 0
SameBits [] x y = Unit
SameBits (true ∷ bs) x y = (x % 2 ≡ y % 2) × SameBits bs (x / 2) (y / 2)
SameBits (false ∷ bs) x y = SameBits bs (x / 2) (y / 2)

keep-SameBits : (bs : List Bool) (x y : ℕ) → keep bs x ≡ keep bs y → SameBits bs x y
keep-SameBits [] x y h = tt
keep-SameBits (true ∷ bs) x y h = (omega arith, keep-SameBits bs (x / 2) (y / 2) (omega arith))
keep-SameBits (false ∷ bs) x y h = keep-SameBits bs (x / 2) (y / 2) (omega arith)

SameBits-keep : (bs : List Bool) (x y : ℕ) → SameBits bs x y → keep bs x ≡ keep bs y
SameBits-keep [] x y h = refl
SameBits-keep (true ∷ bs) x y (e, h) = omega (arith, SameBits-keep bs (x / 2) (y / 2) h)
SameBits-keep (false ∷ bs) x y h = omega (arith, SameBits-keep bs (x / 2) (y / 2) h)

pub SameBits-both : (bs cs : List Bool) (x y : ℕ) → SameBits cs x y → SameBits (both bs cs) x y
SameBits-both [] cs x y h = tt
SameBits-both (b ∷ bs) [] x y h = tt
SameBits-both (true ∷ bs) (true ∷ cs) x y (e, h) = (e, SameBits-both bs cs (x / 2) (y / 2) h)
SameBits-both (false ∷ bs) (true ∷ cs) x y (e, h) = SameBits-both bs cs (x / 2) (y / 2) h
SameBits-both (true ∷ bs) (false ∷ cs) x y h = SameBits-both bs cs (x / 2) (y / 2) h
SameBits-both (false ∷ bs) (false ∷ cs) x y h = SameBits-both bs cs (x / 2) (y / 2) h

-- The bits of a type that count: not VT_EXTERN to VT_INLINE (bits 7 to 10), VT_IMPORT, VT_EXPORT
-- and VT_WEAK (bits 14 to 16), and without qualifiers not VT_CONSTANT and VT_VOLATILE (11 and 12).
abbrev pub kept_bits : (unqualified : Bool) → List Bool
kept_bits unqualified =
    replicate 7 true
    ++ replicate 4 false
    ++ replicate 2 (not unqualified)
    ++ replicate 1 true
    ++ replicate 3 false
    ++ replicate 15 true

-- All of the 32 bits but those of the qualifiers.
abbrev pub qualifier_mask : List Bool
qualifier_mask = replicate 11 true ++ replicate 2 false ++ replicate 19 true

compared-keep :
    (unqualified : Bool) (t : ℕ) → compared unqualified t ≡ keep (kept_bits unqualified) t
unfolding compared
compared-keep false t = bit_and-mask (kept_bits false) t
compared-keep true t =
    ap (λ x. bit_and x (mask qualifier_mask)) (bit_and-mask (kept_bits false) t)
    ∙ bit_and-mask qualifier_mask (keep (kept_bits false) t)
    ∙ keep-keep qualifier_mask (kept_bits false) t

pub compared-SameBits :
    (u : Bool) (x y : ℕ)
    → (compared u x ≡ compared u y → SameBits (kept_bits u) x y)
      × (SameBits (kept_bits u) x y → compared u x ≡ compared u y)
compared-SameBits u x y = (
  λ h. keep-SameBits (kept_bits u) x y (sym (compared-keep u x) ∙ h ∙ compared-keep u y),
  λ h. compared-keep u x ∙ SameBits-keep (kept_bits u) x y h ∙ sym (compared-keep u y),
)

four : (x : ℕ) → keep (replicate 4 true) x ≡ x % 16
four x = omega arith

pub btype-compared : (u : Bool) (t : ℕ) → btype (compared u t) ≡ t % 16
unfolding btype
btype-compared u t =
    ap (λ x. bit_and x 15) (compared-keep u t)
    ∙ bit_and-mask (replicate 4 true) (keep (kept_bits u) t)
    ∙ keep-keep (replicate 4 true) (kept_bits u) t
    ∙ four t
