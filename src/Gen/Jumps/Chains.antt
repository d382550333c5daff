-- ===== src/Gen/Jumps/Chains.antt =====
-- Chains of jumps, and what becomes of them.
use inherpreter.Prelude.{
  ℕ, zero, suc, ◌+◌, ◌-◌, ◌%◌, ◌^◌, ◌≤◌, ◌<◌, ◌≡◌, refl, sym, ◌∙◌, subst, ◌⊎◌, inl, inr, false,
  List, [], ◌∷◌, arith, ◌==◌, length, update,
}
use inherpreter.Gen.Jumps.{Code, read32, write32, gjmp, patch, gsym}
use inherpreter.Gen.Jumps.Bytes.{
  read32-write32, write32_other, Agrees, read32-Agrees, Agrees-write32, read32_from,
}

-- The 4 bytes at each of the addresses end before `e`.
abbrev pub AllBefore : ℕ → List ℕ → Type 0
AllBefore e [] = Unit
AllBefore e (s ∷ ts) = (s + 4 ≤ e) × AllBefore e ts

-- The jumps of a label that is not known yet, the last one first: each holds the address of
-- the next one.
abbrev pub IsChain : (ℕ → ℕ) → ℕ → List ℕ → Type 0
IsChain bytes t [] = t ≡ 0
IsChain bytes t (s ∷ ts) = (t ≡ s) × (0 < t) × AllBefore s ts × IsChain bytes (read32 bytes t) ts

-- Each jump goes to `a`: its 4 bytes hold the distance from their end.
abbrev pub AllJumpTo : (ℕ → ℕ) → ℕ → List ℕ → Type 0
AllJumpTo bytes a [] = Unit
AllJumpTo bytes a (s ∷ ts) = ((s + 4 + read32 bytes s) % 2 ^ 32 ≡ a) × AllJumpTo bytes a ts

abbrev pub Outside : ℕ → List ℕ → Type 0
Outside j [] = Unit
Outside j (s ∷ ts) = ((j < s) ⊎ (s + 4 ≤ j)) × Outside j ts

pub AllBefore-le : (e f : ℕ) (ts : List ℕ) → e ≤ f → AllBefore e ts → AllBefore f ts
AllBefore-le e f [] le h = tt
AllBefore-le e f (s ∷ ts) le (h, hs) = (omega arith, AllBefore-le e f ts le hs)

pub Outside-AllBefore : (e j : ℕ) (ts : List ℕ) → e ≤ j → AllBefore e ts → Outside j ts
Outside-AllBefore e j [] le h = tt
Outside-AllBefore e j (s ∷ ts) le (h, hs) = (inr (omega arith), Outside-AllBefore e j ts le hs)

pub IsChain-Agrees :
    (e t : ℕ) (b b' : ℕ → ℕ) (ts : List ℕ)
    → Agrees e b b'
    → AllBefore e ts
    → IsChain b t ts
    → IsChain b' t ts
IsChain-Agrees e t b b' [] same before h = h
IsChain-Agrees e t b b' (s ∷ ts) same (h, hs) (here, pos, all, chain) = (
  here,
  pos,
  all,
  rw (read32-Agrees e b b' t same (rw here h))
      (IsChain-Agrees e (read32 b t) b b' ts same hs chain),
)

-- A chain has fewer jumps than its first address.
pub length-IsChain : (b : ℕ → ℕ) (t : ℕ) (ts : List ℕ) → IsChain b t ts → length ts ≤ t
length-IsChain b t [] h = omega arith
length-IsChain b t (s ∷ []) (here, pos, all, chain) = omega arith
length-IsChain b t (s ∷ u ∷ ts) (here, pos, (h, hs), chain) =
    omega (arith, here, h, chain.0, length-IsChain b (read32 b t) (u ∷ ts) chain)

abbrev target : (t a : ℕ) → ℕ
target t a = (a + 2 ^ 32 - t - 4) % 2 ^ 32

patch_step :
    (fuel : ℕ) (b : ℕ → ℕ) (t a : ℕ)
    → 0 < t
    → patch (suc fuel) b t a ≡ patch fuel (write32 b t (target t a)) (read32 b t) a
unfolding patch
patch_step fuel b t a pos = let more : (t == 0) ≡ false = ground arith in rw more refl

-- The jumps go to `a`, and the other bytes stay.
abbrev pub Patched : (b b' : ℕ → ℕ) → (a : ℕ) → List ℕ → Type 0
Patched b b' a ts = AllJumpTo b' a ts × ((j : ℕ) → Outside j ts → b' j ≡ b j)

target_lem : (t a r : ℕ) → t + 4 ≤ 2 ^ 32 → a < 2 ^ 32 → r ≡ target t a → (t + 4 + r) % 2 ^ 32 ≡ a
target_lem t a r ht ha e = omega arith

patch_lem :
    (fuel : ℕ) (b : ℕ → ℕ) (t a : ℕ) (ts : List ℕ)
    → length ts ≤ fuel
    → AllBefore (2 ^ 32) ts
    → a < 2 ^ 32
    → IsChain b t ts
    → Patched b (patch fuel b t a) a ts
unfolding patch
patch_lem zero b t a [] le before ha e = (tt, λ j out. refl)
patch_lem zero b t a (s ∷ ts) le before ha h = absurd (omega arith)
patch_lem (suc fuel) b t a [] le before ha e = rw e (tt, λ j out. refl)
patch_lem (suc fuel) b t a (s ∷ ts) le (hs, before) ha (here, pos, all, chain) =
    let b1 = write32 b t (target t a) in
    let same : Agrees s b b1 = rw (← here) (Agrees-write32 b t (target t a)) in
    let next = IsChain-Agrees s (read32 b t) b b1 ts same all chain in
    let patched = patch_lem fuel b1 (read32 b t) a ts (omega arith) before ha next in
    let b2 = patch fuel b1 (read32 b t) a in
    let kept = read32_from b1 b2 s (λ j from. patched.1 j (Outside-AllBefore s j ts from all)) in
    let written : read32 b1 s ≡ target s a =
      rw (← here) (read32-write32 b t (target t a) (omega arith)) in
    subst (λ b'. Patched b b' a (s ∷ ts)) (sym (patch_step fuel b t a pos))
      (
        (target_lem s a (read32 b2 s) hs ha (kept ∙ written), patched.0),
        λ j out. patched.1 j out.1 ∙ write32_other b t (target t a) j (rw here out.0),
      )

pub chain_start : (b : ℕ → ℕ) (t e : ℕ) (ts : List ℕ) → IsChain b t ts → AllBefore e ts → t ≤ e
chain_start b t e [] chain before = omega arith
chain_start b t e (s ∷ ts) (here, pos, all, chain) (h, hs) = omega arith

pub fuel_enough :
    (s : Code) (t : ℕ) (ts : List ℕ)
    → IsChain s.bytes t ts
    → AllBefore s.ind ts
    → length ts ≤ s.ind + 1
fuel_enough s t ts chain before =
    omega (arith, length-IsChain s.bytes t ts chain, chain_start s.bytes t s.ind ts chain before)

-- Where gsym is called with a chain of jumps in front of `ind`, every jump of the chain goes to
-- `ind`, and no other byte changes.
pub gsym_lem :
    (s : Code) (t : ℕ) (ts : List ℕ)
    → IsChain s.bytes t ts
    → AllBefore s.ind ts
    → s.ind < 2 ^ 32
    → Patched s.bytes (gsym s t).bytes s.ind ts
unfolding gsym
gsym_lem s t ts chain before h =
    patch_lem (s.ind + 1) s.bytes t s.ind ts (fuel_enough s t ts chain before)
      (AllBefore-le s.ind (2 ^ 32) ts (omega arith) before) h chain

pub gjmp-Agrees : (s : Code) (t : ℕ) → Agrees s.ind s.bytes (gjmp s t).0.bytes
unfolding gjmp
gjmp-Agrees s t j lt =
    write32_other (update s.bytes s.ind 0xe9) (s.ind + 1) t j (inl (omega arith)) ∙ ground arith

-- A new jump becomes the first of the chain.
pub gjmp-IsChain :
    (s : Code) (t : ℕ) (ts : List ℕ)
    → IsChain s.bytes t ts
    → AllBefore s.ind ts
    → s.ind < 2 ^ 32
    → let r = gjmp s t in
      IsChain r.0.bytes r.1 (r.1 ∷ ts) × AllBefore r.0.ind (r.1 ∷ ts) × (r.0.ind ≡ s.ind + 5)
unfolding gjmp
gjmp-IsChain s t ts chain before h =
    let b1 = update s.bytes s.ind 0xe9 in
    let b2 = write32 b1 (s.ind + 1) t in
    let small = chain_start s.bytes t s.ind ts chain before in
    let same : Agrees s.ind s.bytes b2 = gjmp-Agrees s t in
    let stored : read32 b2 (s.ind + 1) ≡ t = read32-write32 b1 (s.ind + 1) t (omega arith) in
    (
      (
        refl,
        omega arith,
        AllBefore-le s.ind (s.ind + 1) ts (omega arith) before,
        rw stored (IsChain-Agrees s.ind t s.bytes b2 ts same before chain),
      ),
      (omega arith, AllBefore-le s.ind (s.ind + 1 + 4) ts (omega arith) before),
      omega arith,
    )
