-- ===== src/Tests/Packing.antt =====
-- A scope of #pragma pack behind another alignment.
use Prim.{tt}
use inherpreter.Prelude.{ℕ, ◌<◌, ◌≡◌, refl, arith}
use inherpreter.Cpp.Pack.{Pack, current, ok, parse_all}
use inherpreter.Cpp.Pack.Scoped.{Pragmas, done, align, scope, emit, alignment, parse_all-emit}

abbrev unpacked : Pack
unpacked = record { pack_stack = λ i. 0; pack_stack_ptr = 0 }

abbrev pragmas : Pragmas
pragmas = align 4 (scope 1 (align 2 done) done)

parse_all-emit_example :
    (after : Pack) × (parse_all (emit pragmas) unpacked ≡ ok after)
    × (after.pack_stack_ptr ≡ 0)
    × (current after ≡ alignment 0 pragmas)
    × ((i : ℕ) → i < 0 → after.pack_stack i ≡ 0)
parse_all-emit_example =
    parse_all-emit pragmas 1 unpacked (refl, (refl, (refl, tt), tt)) (omega arith)

alignment_run : alignment 0 pragmas ≡ 4
unfolding alignment
alignment_run = refl
