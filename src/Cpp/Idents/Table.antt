-- ===== src/Cpp/Idents/Table.antt =====
-- Tokens and names determine one another.
use inherpreter.Prelude.{
  ℕ, ◌+◌, ◌-◌, ◌≤◌, ◌<◌, ◌≡◌, refl, sym, ap, ◌∙◌, subst, inl, inr, true, false, Option, none, some,
  List, [], ◌∷◌, ◌++◌, append-nil, arith, ltb, leb, ◌==◌, ==_iff, ==_refl, Bool-cases, Option-cases,
  length, get_or, length-append, get_or-append_left, get_or-append_right, update,
}
use inherpreter.Cpp.Idents.{
  tok_ident_base, sym_first_anom, Idents, tok_hash, same_bytes, find_ident, tok_alloc_new,
  tok_alloc,
}

same_bytes-eq : (a b : List ℕ) → same_bytes a b ≡ true → a ≡ b
unfolding same_bytes
same_bytes-eq [] [] h = refl
same_bytes-eq [] (b ∷ bs) h = cc
same_bytes-eq (a ∷ xs) [] h = cc
same_bytes-eq (a ∷ xs) (b ∷ bs) h = ground (arith, same_bytes-eq xs bs)

same_bytes_refl : (a : List ℕ) → same_bytes a a ≡ true
unfolding same_bytes
same_bytes_refl [] = refl
same_bytes_refl (a ∷ xs) = ground (arith, same_bytes_refl xs)

abbrev pub Below : ℕ → List ℕ → Type 0
Below n [] = Unit {0}
Below n (i ∷ chain) = (i < n) × Below n chain

abbrev pub name_at : Idents → ℕ → List ℕ
name_at s i = get_or s.table_ident i []

-- The chains hold indices of the table, and each name is found at its own index, which no other name
-- has then.
pub record IsValid (s : Idents) : Type 0 where
  pub chained : (h : ℕ) → Below (length s.table_ident) (s.hash_ident h)
  pub found :
      (i : ℕ)
      → i < length s.table_ident
      → find_ident s.table_ident (name_at s i) (s.hash_ident (tok_hash (name_at s i))) ≡ some i

abbrev or_else : Option ℕ → Option ℕ → Option ℕ
or_else (some i) o = some i
or_else none o = o

find_ident-append :
    (table : List (List ℕ)) (new str : List ℕ) (chain more : List ℕ)
    → Below (length table) chain
    → find_ident (table ++ new ∷ []) str (chain ++ more)
      ≡ or_else (find_ident table str chain) (find_ident (table ++ new ∷ []) str more)
unfolding find_ident
find_ident-append table new str [] more b = refl
find_ident-append table new str (i ∷ chain) more (lt, b) =
    rw (get_or-append_left table (new ∷ []) i [] lt)
      (ground (arith, find_ident-append table new str chain more b))

Below-le : (n m : ℕ) (chain : List ℕ) → n ≤ m → Below n chain → Below m chain
Below-le n m [] h b = tt
Below-le n m (i ∷ chain) h (lt, b) = (omega arith, Below-le n m chain h b)

Below-append : (n : ℕ) (chain : List ℕ) (i : ℕ) → Below n chain → i < n → Below n (chain ++ i ∷ [])
Below-append n [] i b h = (h, tt)
Below-append n (j ∷ chain) i (lt, b) h = (lt, Below-append n chain i b h)

none-ne-some : {i : ℕ} → ◌≡◌ {A = Option ℕ} none (some i) → ⊥
none-ne-some e = cc

-- A name that is found has the index that is returned.
find_ident-name :
    (table : List (List ℕ)) (str chain : List ℕ) {i : ℕ}
    → Below (length table) chain
    → find_ident table str chain ≡ some i
    → (get_or table i [] ≡ str) × (i < length table)
unfolding find_ident
find_ident-name table str [] b e = absurd (none-ne-some e)
find_ident-name table str (j ∷ chain) {i} (lt, b) e =
    elim (Bool-cases (same_bytes (get_or table j []) str)) [
      | inl same ↦
          let ji : j ≡ i = ground arith in
          subst (λ k. (get_or table k [] ≡ str) × (k < length table)) ji
            (same_bytes-eq _ str same, lt)
      | inr other ↦ find_ident-name table str chain b (ground arith)
    ]

module _ (s : Idents) (str : List ℕ) (v : IsValid s) where
  abbrev n : ℕ
  n = length s.table_ident

  abbrev h : ℕ
  h = tok_hash str

  abbrev pub added : Idents
  added = record {
    table_ident = s.table_ident ++ str ∷ [];
    hash_ident = update s.hash_ident h (s.hash_ident h ++ n ∷ []);
  }

  name_at-new : name_at added n ≡ str
  name_at-new = get_or-append_right s.table_ident (str ∷ []) 0 n [] (omega arith)

  find_new :
      find_ident s.table_ident str (s.hash_ident h) ≡ none
      → find_ident added.table_ident str (added.hash_ident h) ≡ some n
  find_new e =
      rw
        (
          ==_refl h,
          find_ident-append s.table_ident str str (s.hash_ident h) (n ∷ []) (v.chained h),
          e,
        )
        (unfold find_ident in rw (name_at-new, same_bytes_refl str))

  find_old :
      (q : List ℕ) {i : ℕ}
      → find_ident s.table_ident q (s.hash_ident (tok_hash q)) ≡ some i
      → find_ident added.table_ident q (added.hash_ident (tok_hash q)) ≡ some i
  find_old q e = elim (Bool-cases (h == tok_hash q)) [
    | inl same ↦
        let eq : h ≡ tok_hash q = (==_iff h _).0 same in
        let e' = rw (← eq) at e in
        rw (same, find_ident-append s.table_ident str q (s.hash_ident h) (n ∷ []) (v.chained h), e')
    | inr other ↦
        let chain = s.hash_ident (tok_hash q) in
        let more = find_ident-append s.table_ident str q chain [] (v.chained (tok_hash q)) in
        rw other ((rw append-nil at more) ∙ rw e)
  ]

  length-added : length added.table_ident ≡ n + 1
  length-added = length-append s.table_ident (str ∷ [])

  chained_new : (k : ℕ) → Below (length added.table_ident) (added.hash_ident k)
  chained_new k = rw length-added (elim (Bool-cases (h == k)) [
    | inl same ↦ rw same (
        Below-append (n + 1) (s.hash_ident h) n (Below-le n (n + 1) _ (omega arith) (v.chained h))
          (omega arith))
    | inr other ↦ rw other (Below-le n (n + 1) _ (omega arith) (v.chained k))
  ])

  name_at-old : (i : ℕ) → i < n → name_at added i ≡ name_at s i
  name_at-old i lt = get_or-append_left s.table_ident (str ∷ []) i [] lt

  found_new :
      find_ident s.table_ident str (s.hash_ident h) ≡ none
      → (i : ℕ) → i < length added.table_ident
      → find_ident added.table_ident
          (name_at added i)
          (added.hash_ident (tok_hash (name_at added i)))
        ≡ some i
  found_new e i lt = elim (Bool-cases (ltb i n)) [
    | inl old ↦
        rw (name_at-old i (ground arith)) (find_old (name_at s i) (v.found i (ground arith)))
    | inr new ↦
        let i_eq : i ≡ n = ground (arith, length-added) in rw (i_eq, name_at-new) (find_new e)
  ]

  added-IsValid : find_ident s.table_ident str (s.hash_ident h) ≡ none → IsValid added
  added-IsValid e = record { chained = chained_new; found = found_new e }

-- What tok_alloc returns: the table is valid, the token has the name, and every token that there was
-- keeps its name.
pub record Allocates (s : Idents) (str : List ℕ) (r : Idents × ℕ) : Type 0 where
  pub valid : IsValid r.0
  pub is_token : tok_ident_base ≤ r.1
  pub names : name_at r.0 (r.1 - tok_ident_base) ≡ str
  pub keeps : (i : ℕ) → i < length s.table_ident → name_at r.0 i ≡ name_at s i
  pub in_table : r.1 < tok_ident_base + length r.0.table_ident
  pub grows : length r.0.table_ident ≤ length s.table_ident + 1
  pub again : tok_alloc r.0 str ≡ some r

-- On a valid table, tok_alloc succeeds while there is room for a token. It returns a token of the
-- name, and keeps the names of the other tokens; asked again for the name, it returns the same
-- token and changes nothing.
pub tok_alloc-Allocates :
    (s : Idents) (str : List ℕ)
    → IsValid s
    → tok_ident_base + length s.table_ident < sym_first_anom
    → (r : Idents × ℕ) × (tok_alloc s str ≡ some r) × Allocates s str r
unfolding tok_alloc tok_alloc_new
tok_alloc-Allocates s str v room =
    elim (Option-cases (find_ident s.table_ident str (s.hash_ident (tok_hash str)))) [
      | inr (i, e) ↦
          let (name, lt) = find_ident-name s.table_ident str _ (v.chained (tok_hash str)) e in
          (
            (s, tok_ident_base + i),
            rw e,
            record {
              valid = v;
              is_token = omega arith;
              names = ap (name_at s) (omega arith) ∙ name;
              keeps = λ j h. refl;
              in_table = omega arith;
              grows = omega arith;
              again = rw e;
            },
          )
      | inl e ↦
          let t = added s str v in
          let full : leb sym_first_anom (tok_ident_base + length s.table_ident) ≡ false =
            ground arith in
          (
            (t, tok_ident_base + length s.table_ident),
            rw (e, full),
            record {
              valid = added-IsValid s str v e;
              is_token = omega arith;
              names = ap (name_at t) (omega arith) ∙ name_at-new s str v;
              keeps = name_at-old s str v;
              in_table = omega (arith, length-added s str v);
              grows = omega (arith, length-added s str v);
              again = rw (find_new s str v e);
            },
          )
    ]

tok_alloc_result :
    (s : Idents) (str : List ℕ) (r : Idents × ℕ)
    → IsValid s
    → tok_ident_base + length s.table_ident < sym_first_anom
    → tok_alloc s str ≡ some r
    → Allocates s str r
tok_alloc_result s str r v room e =
    let (r', e', a) = tok_alloc-Allocates s str v room in
    let same : r' ≡ r = cc in subst (Allocates s str) same a

-- On a valid table with room, names that are given the same token, one after the other, are equal.
pub tok_alloc_injective :
    (s : Idents) (r q : Idents × ℕ) (a b : List ℕ)
    → IsValid s
    → tok_ident_base + length s.table_ident + 1 < sym_first_anom
    → tok_alloc s a ≡ some r
    → tok_alloc r.0 b ≡ some q
    → r.1 ≡ q.1
    → a ≡ b
tok_alloc_injective s r q a b v room ea eb e =
    let ra = tok_alloc_result s a r v (omega arith) ea in
    let rb = tok_alloc_result r.0 b q ra.valid (omega (arith, ra.grows)) eb in
    sym ra.names
    ∙ sym (rb.keeps (r.1 - tok_ident_base) (omega (arith, ra.in_table, ra.is_token)))
    ∙ ap (λ k. name_at q.0 (k - tok_ident_base)) e
    ∙ rb.names
