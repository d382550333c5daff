-- ===== src/Gen/Jumps/Words.antt =====
-- Chains beside jumps that are patched.
use inherpreter.Prelude.{ℕ, ◌+◌, ◌≤◌, ◌<◌, ◌≡◌, ◌⊎◌, inl, inr, List, [], ◌∷◌, arith}
use inherpreter.Gen.Jumps.{read32}
use inherpreter.Gen.Jumps.Chains.{AllBefore, IsChain, Outside, Patched}

-- The jumps of the second list come before those of the first one.
abbrev pub AllBehind : (cs ts : List ℕ) → Type 0
AllBehind [] ts = Unit
AllBehind (s ∷ cs) ts = AllBefore s ts × AllBehind cs ts

-- A word that is apart from each word of a list.
abbrev pub AllApart : ℕ → List ℕ → Type 0
AllApart u [] = Unit
AllApart u (s ∷ cs) = ((u + 4 ≤ s) ⊎ (s + 4 ≤ u)) × AllApart u cs

Outside-AllApart : (u j : ℕ) (cs : List ℕ) → AllApart u cs → u ≤ j → j < u + 4 → Outside j cs
Outside-AllApart u j [] h from to = tt
Outside-AllApart u j (s ∷ cs) (inl h, hs) from to =
    (inl (omega arith), Outside-AllApart u j cs hs from to)
Outside-AllApart u j (s ∷ cs) (inr h, hs) from to =
    (inr (omega arith), Outside-AllApart u j cs hs from to)

pub read32-Patched :
    (b b' : ℕ → ℕ) (a u : ℕ) (cs : List ℕ)
    → Patched b b' a cs
    → AllApart u cs
    → read32 b' u ≡ read32 b u
unfolding read32
read32-Patched b b' a u cs patched apart =
    let same = λ (j : ℕ) (from : u ≤ j) (to : j < u + 4).
      patched.1 j (Outside-AllApart u j cs apart from to) in
    omega (
      arith,
      same u (omega arith) (omega arith),
      same (u + 1) (omega arith) (omega arith),
      same (u + 2) (omega arith) (omega arith),
      same (u + 3) (omega arith) (omega arith),
    )

AllApart-AllBehind :
    (cs : List ℕ) (u : ℕ) (ts : List ℕ) → AllBehind cs (u ∷ ts) → AllApart u cs × AllBehind cs ts
AllApart-AllBehind [] u ts h = (tt, tt)
AllApart-AllBehind (s ∷ cs) u ts ((h, before), hs) =
    let (apart, behind) = AllApart-AllBehind cs u ts hs in ((inl h, apart), (before, behind))

pub AllApart-AllBefore : (u e : ℕ) (cs : List ℕ) → e ≤ u → AllBefore e cs → AllApart u cs
AllApart-AllBefore u e [] le h = tt
AllApart-AllBefore u e (s ∷ cs) le (h, hs) = (inr (omega arith), AllApart-AllBefore u e cs le hs)

pub IsChain-Patched :
    (b b' : ℕ → ℕ) (a t : ℕ) (cs ts : List ℕ)
    → Patched b b' a cs
    → AllBehind cs ts
    → IsChain b t ts
    → IsChain b' t ts
IsChain-Patched b b' a t cs [] patched behind chain = chain
IsChain-Patched b b' a t cs (u ∷ ts) patched behind (here, pos, all, chain) =
    let (apart, rest) = AllApart-AllBehind cs u ts behind in
    let same : read32 b' t ≡ read32 b t = rw here (read32-Patched b b' a u cs patched apart) in
    (here, pos, all, rw same (IsChain-Patched b b' a (read32 b t) cs ts patched rest chain))
