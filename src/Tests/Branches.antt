-- ===== src/Tests/Branches.antt =====
-- Jumps of x86_64 code and branches of ARM code.
use Prim.{tt}
use inherpreter.Prelude.{ℕ, ◌+◌, ◌%◌, ◌^◌, ◌≡◌, refl, ◌≢◌, inr, false, some, [], ◌∷◌, arith}
use inherpreter.Gen.Jumps.{Code, gjmp, gsym, gtst_jumps}
use inherpreter.Gen.Jumps.Chains.{AllBefore, IsChain, Patched, gsym_lem, gjmp-IsChain}
use inherpreter.Gen.Jumps.Merging.{Merges, gtst_jumps_lem}
use inherpreter.Gen.Branch.{encbranch, decbranch, decbranch-encbranch, encbranch_wrapped}

abbrev no_code : Code
no_code = record { bytes = λ j. 0; ind = 16 }

first_jump :
    let r = gjmp no_code 0 in
    IsChain r.0.bytes r.1 (r.1 ∷ []) × AllBefore r.0.ind (r.1 ∷ []) × (r.0.ind ≡ 21)
first_jump = gjmp-IsChain no_code 0 [] refl tt (omega arith)

gsym_lem_example :
    let r = gjmp no_code 0 in Patched r.0.bytes (gsym r.0 r.1).bytes r.0.ind (r.1 ∷ [])
gsym_lem_example =
    let r = gjmp no_code 0 in
    gsym_lem r.0 r.1 (r.1 ∷ []) first_jump.0 first_jump.1 (omega (arith, first_jump.2))

gtst_jumps_lem_example :
    let r = gjmp no_code 0 in Merges r.0 false (gtst_jumps r.0 false r.1 0) (r.1 ∷ []) []
gtst_jumps_lem_example =
    let r = gjmp no_code 0 in
    gtst_jumps_lem r.0 false r.1 0 (r.1 ∷ []) [] first_jump.0 refl (tt, tt) first_jump.1 tt
      (omega (arith, first_jump.2))

decbranch-encbranch_example :
    (x : ℕ) × (encbranch 0x1000 0x800 ≡ some x) × (decbranch 0x1000 x ≡ 0x800)
decbranch-encbranch_example =
    decbranch-encbranch 0x1000 0x800 (omega arith)
      (inr (514, omega arith, omega arith, omega arith))

-- A branch 32 MB ahead.
encbranch_wrapped_example :
    (x : ℕ) × (encbranch 0x1000 0x2001008 ≡ some x)
    × ((decbranch 0x1000 x + 0x4000000) % 2 ^ 32 ≡ 0x2001008)
    × (decbranch 0x1000 x ≢ 0x2001008)
encbranch_wrapped_example =
    encbranch_wrapped 0x1000 0x2001008 0x800000 (omega arith) (omega arith) (omega arith)
      (omega arith)
