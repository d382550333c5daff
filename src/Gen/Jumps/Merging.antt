-- ===== src/Gen/Jumps/Merging.antt =====
-- Two chains made one (x86_64-gen.c: gtst).
use inherpreter.Prelude.{
  ℕ, zero, suc, ◌+◌, ◌^◌, ◌≤◌, ◌<◌, ◌≡◌, refl, sym, ◌∙◌, subst, inr, Bool, true, false, List, [],
  ◌∷◌, ◌++◌, arith, ◌==◌, length,
}
use inherpreter.Gen.Jumps.{Code, read32, write32, gjmp, gsym, last_jump, gtst_jumps}
use inherpreter.Gen.Jumps.Bytes.{read32-write32, write32_other, Agrees, Agrees-write32, read32_from}
use inherpreter.Gen.Jumps.Words.{AllBehind, read32-Patched, AllApart-AllBefore, IsChain-Patched}
use inherpreter.Gen.Jumps.Chains.{
  AllBefore, IsChain, AllJumpTo, AllBefore-le, IsChain-Agrees, chain_start, fuel_enough, gsym_lem,
  gjmp-Agrees, gjmp-IsChain,
}

AllBefore-append :
    (e : ℕ) (cs ts : List ℕ) → AllBefore e cs → AllBefore e ts → AllBefore e (cs ++ ts)
AllBefore-append e [] ts hc ht = ht
AllBefore-append e (s ∷ cs) ts (h, hs) ht = (h, AllBefore-append e cs ts hs ht)

last_here : (fuel : ℕ) (b : ℕ → ℕ) (c : ℕ) → read32 b c ≡ 0 → last_jump fuel b c ≡ c
unfolding last_jump
last_here zero b c e = refl
last_here (suc fuel) b c e = rw e refl

last_next :
    (fuel : ℕ) (b : ℕ → ℕ) (c : ℕ)
    → 0 < read32 b c
    → last_jump (suc fuel) b c ≡ last_jump fuel b (read32 b c)
unfolding last_jump
last_next fuel b c pos = let more : (read32 b c == 0) ≡ false = ground arith in rw more refl

last_jump_le :
    (fuel : ℕ) (b : ℕ → ℕ) (c s : ℕ) (cs : List ℕ) → IsChain b c (s ∷ cs) → last_jump fuel b c ≤ c
unfolding last_jump
last_jump_le zero b c s cs h = omega arith
last_jump_le (suc fuel) b c s [] (here, pos, all, chain) =
    omega (arith, last_here (suc fuel) b c chain)
last_jump_le (suc fuel) b c s (u ∷ cs) (here, pos, (h, hs), chain) = omega (
  arith,
  here,
  h,
  chain.0,
  last_next fuel b c chain.1,
  last_jump_le fuel b (read32 b c) u cs chain,
)

IsChain-behind_one :
    (b : ℕ → ℕ) (c s t : ℕ) (ts : List ℕ)
    → c ≡ s
    → 0 < c
    → IsChain b t ts
    → AllBefore s ts
    → t < 2 ^ 32
    → IsChain (write32 b c t) c (s ∷ ts)
IsChain-behind_one b c s t ts here pos second h small =
    let same : Agrees s b (write32 b c t) = rw here (Agrees-write32 b s t) in
    (
      here,
      pos,
      h,
      rw (read32-write32 b c t small) (IsChain-Agrees s t b (write32 b c t) ts same h second),
    )

-- The last jump of the first chain gets the second chain.
pub IsChain-append :
    (fuel : ℕ) (b : ℕ → ℕ) (c t s : ℕ) (cs ts : List ℕ)
    → length cs ≤ fuel
    → IsChain b c (s ∷ cs)
    → IsChain b t ts
    → AllBehind (s ∷ cs) ts
    → t < 2 ^ 32
    → IsChain (write32 b (last_jump fuel b c) t) c (s ∷ (cs ++ ts))
IsChain-append fuel b c t s [] ts le (here, pos, all, chain) second (h, hs) small =
    subst (λ l. IsChain (write32 b l t) c (s ∷ ts)) (sym (last_here fuel b c chain))
      (IsChain-behind_one b c s t ts here pos second h small)
IsChain-append zero b c t s (u ∷ cs) ts le chain second behind small = absurd (omega arith)
IsChain-append (suc fuel) b c t s (u ∷ cs) ts le (here, pos, (h, before), chain) second (hs, behind)
      small =
    let l = last_jump fuel b (read32 b c) in
    let below : l + 4 ≤ c =
      omega (arith, here, h, chain.0, last_jump_le fuel b (read32 b c) u cs chain) in
    let kept : read32 (write32 b l t) c ≡ read32 b c =
      read32_from b (write32 b l t) c (λ j from. write32_other b l t j (inr (omega arith))) in
    let rest =
      IsChain-append fuel b (read32 b c) t u cs ts (omega arith) chain second behind small in
    subst (λ l. IsChain (write32 b l t) c (s ∷ (u ∷ cs ++ ts))) (sym (last_next fuel b c chain.1))
      (here, pos, (h, AllBefore-append s cs ts before hs), rw kept rest)

abbrev pub Merges : (s : Code) → (same : Bool) → Code × ℕ → (cs ts : List ℕ) → Type 0
Merges s true r cs ts = IsChain r.0.bytes r.1 (cs ++ ts) × (r.0.ind ≡ s.ind)
Merges s false r cs ts =
    IsChain r.0.bytes r.1 (r.1 ∷ ts) × AllJumpTo r.0.bytes r.0.ind cs × (r.0.ind ≡ s.ind + 5)

gtst_jumps-append :
    (s : Code) (c t : ℕ)
    → 0 < c
    → gtst_jumps s true c t
      ≡ (record { bytes = write32 s.bytes (last_jump (s.ind + 1) s.bytes c) t; ind = s.ind }, c)
unfolding gtst_jumps
gtst_jumps-append s c t pos = let more : (c == 0) ≡ false = ground arith in rw more refl

gtst_jumps-empty : (s : Code) (t : ℕ) → gtst_jumps s true 0 t ≡ (s, t)
unfolding gtst_jumps
gtst_jumps-empty s t = refl

gtst_jumps-other :
    (s : Code) (c t : ℕ) → gtst_jumps s false c t ≡ (gsym (gjmp s t).0 c, (gjmp s t).1)
unfolding gtst_jumps
gtst_jumps-other s c t = refl

gjmp_start : (s : Code) (t : ℕ) → (gjmp s t).1 ≡ s.ind + 1
unfolding gjmp
gjmp_start s t = refl

gsym_ind : (s : Code) (t : ℕ) → (gsym s t).ind ≡ s.ind
unfolding gsym
gsym_ind s t = refl

-- gtst, where the value is the chain `cs` of jumps already, and `ts` are the jumps of the label so far,
-- which come before those: where the sense agrees, all of them are jumps of the label; where it
-- does not, the jumps of the value go behind a new jump, which is added to those of the label.
pub gtst_jumps_lem :
    (s : Code) (same : Bool) (c t : ℕ) (cs ts : List ℕ)
    → IsChain s.bytes c cs
    → IsChain s.bytes t ts
    → AllBehind cs ts
    → AllBefore s.ind cs
    → AllBefore s.ind ts
    → s.ind + 5 < 2 ^ 32
    → Merges s same (gtst_jumps s same c t) cs ts
gtst_jumps_lem s true c t [] ts first second behind hc ht small =
    rw (first, gtst_jumps-empty s t) (second, refl)
gtst_jumps_lem s true c t (u ∷ cs) ts first second behind hc ht small =
    let size = fuel_enough s c (u ∷ cs) first hc in
    let start = chain_start s.bytes t s.ind ts second ht in
    subst (λ r. Merges s true r (u ∷ cs) ts) (sym (gtst_jumps-append s c t first.1))
      (
        IsChain-append (s.ind + 1) s.bytes c t u cs ts (omega (arith, size)) first second behind
            (omega (arith, start)),
        refl,
      )
gtst_jumps_lem s false c t cs ts first second behind hc ht small =
    let r = gjmp s t in
    let (jumped, before, size) = gjmp-IsChain s t ts second ht (omega arith) in
    let kept = IsChain-Agrees s.ind c s.bytes r.0.bytes cs (gjmp-Agrees s t) hc first in
    let patched =
      gsym_lem r.0 c cs kept (AllBefore-le s.ind r.0.ind cs (omega (arith, size)) hc)
        (omega (arith, size)) in
    let apart = AllApart-AllBefore r.1 s.ind cs (omega (arith, gjmp_start s t)) hc in
    let stays = read32-Patched r.0.bytes (gsym r.0 c).bytes r.0.ind r.1 cs patched apart in
    let (here, pos, all, chain) = jumped in
    subst (λ r. Merges s false r cs ts) (sym (gtst_jumps-other s c t))
      (
        (
          here,
          pos,
          all,
          rw stays (
              IsChain-Patched r.0.bytes (gsym r.0 c).bytes r.0.ind (read32 r.0.bytes r.1) cs ts
                patched behind chain),
        ),
        rw (gsym_ind r.0 c) patched.0,
        gsym_ind r.0 c ∙ size,
      )
