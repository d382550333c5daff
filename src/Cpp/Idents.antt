-- ===== src/Cpp/Idents.antt =====
-- The table of identifiers (tccpp.c: tok_alloc, tok_alloc_new). A pointer to a TokenSym is its index
-- in `table_ident`, from which `tok` differs by TOK_IDENT.
pub mod Table
use inherpreter.Prelude.{
  ℕ, ◌+◌, ◌*◌, ◌%◌, ◌^◌, Bool, true, false, ◌&&◌, Option, none, some, List, [], ◌∷◌, ◌++◌, leb,
  ◌==◌, if◌then◌else◌, length, get_or, update,
}

abbrev pub tok_ident_base : ℕ
tok_ident_base = 256

abbrev pub tok_hash_size : ℕ
tok_hash_size = 8192

abbrev pub sym_first_anom : ℕ
sym_first_anom = 0x1000_0000

-- The names in `table_ident`, in order of their tokens, and the chains that begin in `hash_ident`,
-- as lists of indices.
pub record Idents : Type 0 where
  pub table_ident : List (List ℕ)
  pub hash_ident : ℕ → List ℕ

abbrev pub no_idents : Idents
no_idents = record { table_ident = []; hash_ident = λ h. [] }

-- TOK_HASH_FUNC over the bytes of the name, on an unsigned int.
unfoldable pub tok_hash_from : (h : ℕ) → List ℕ → ℕ
tok_hash_from h [] = h
tok_hash_from h (c ∷ str) = tok_hash_from ((h * 263 + c) % 2 ^ 32) str

-- `h &= (TOK_HASH_SIZE - 1)`
unfoldable pub tok_hash : List ℕ → ℕ
unfolding tok_hash_from
tok_hash str = tok_hash_from 1 str % tok_hash_size

-- `ts->len == len && !memcmp(ts->str, str, len)`
unfoldable pub same_bytes : List ℕ → List ℕ → Bool
same_bytes [] [] = true
same_bytes [] (b ∷ bs) = false
same_bytes (a ∷ as_) [] = false
same_bytes (a ∷ as_) (b ∷ bs) = a == b && same_bytes as_ bs

-- The walk along a chain.
unfoldable pub find_ident : List (List ℕ) → List ℕ → List ℕ → Option ℕ
unfolding same_bytes
find_ident table str [] = none
find_ident table str (i ∷ chain) =
    if same_bytes (get_or table i []) str then some i else find_ident table str chain

-- `none` is the error "memory full".
unfoldable pub tok_alloc_new : Idents → (h : ℕ) → List ℕ → Option (Idents × ℕ)
tok_alloc_new s h str =
    let i = length s.table_ident in
    if leb sym_first_anom (tok_ident_base + i)
    then none
    else some (
      record {
        table_ident = s.table_ident ++ str ∷ [];
        hash_ident = update s.hash_ident h (s.hash_ident h ++ i ∷ []);
      },
      tok_ident_base + i,
    )

abbrev or_new : Option ℕ → Idents → (h : ℕ) → List ℕ → Option (Idents × ℕ)
or_new (some i) s h str = some (s, tok_ident_base + i)
or_new none s h str = tok_alloc_new s h str

-- The token of a name, which is added if it is not in the table.
unfoldable pub tok_alloc : Idents → List ℕ → Option (Idents × ℕ)
unfolding tok_hash find_ident tok_alloc_new
tok_alloc s str =
    let h = tok_hash str in or_new (find_ident s.table_ident str (s.hash_ident h)) s h str
