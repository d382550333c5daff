-- ===== src/Tests/Names.antt =====
-- Names of identifiers.
use Prim.{tt}
use inherpreter.Prelude.{ℕ, ◌≡◌, some, List, [], ◌∷◌, arith}
use inherpreter.Cpp.Idents.{Idents, no_idents, tok_alloc}
use inherpreter.Cpp.Idents.Table.{IsValid, Allocates, tok_alloc-Allocates}

abbrev if_name : List ℕ
if_name = 105 ∷ 102 ∷ []

no_idents-IsValid : IsValid no_idents
no_idents-IsValid = record { chained = λ h. tt; found = λ i h. absurd (omega arith) }

tok_alloc-Allocates_example :
    (r : Idents × ℕ) × (tok_alloc no_idents if_name ≡ some r) × Allocates no_idents if_name r
tok_alloc-Allocates_example = tok_alloc-Allocates no_idents if_name no_idents-IsValid (omega arith)
