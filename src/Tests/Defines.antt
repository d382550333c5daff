-- ===== src/Tests/Defines.antt =====
-- A table of macros with two names, and the tokens of a #define.
use inherpreter.Prelude.{◌≡◌, refl, true, false, none, some, List, [], ◌∷◌}
use inherpreter.Cpp.Macros.{Token, plain_token, tok_twosharps, Macro}
use inherpreter.Cpp.Defines.{Defines, no_macro, define_push, define_find_sym, free_defines}
use inherpreter.Cpp.Defines.Bindings.{define, free, Reach, here, next, IsSound, Reach-IsSound}
use inherpreter.Cpp.Defines.Lookup.{free_defines-define_push}
use inherpreter.Cpp.Defines.Tidy.{parse_body-tidy}
use inherpreter.Cpp.Defines.Body.{parse_body, start, is_tidy, line, ink}

abbrev empty : Defines
empty = record { define_stack = []; next_id = 1; sym_define = λ v. none; tok_ident = 1000 }

abbrev one_macro : Macro
one_macro = record { is_func = false; d = plain_token 405 ∷ []; params = [] }

abbrev with_400 : Defines
with_400 = define_push empty 400 one_macro

with_400-Reach : Reach empty with_400
with_400-Reach = next here (define 400 one_macro refl)

Reach-IsSound_example : IsSound (free_defines with_400 none)
Reach-IsSound_example = Reach-IsSound refl (λ v. refl) (next with_400-Reach (free none))

-- The name is bound below, and no longer once its redefinition is freed.
free_defines-define_push_example :
    define_find_sym (free_defines (define_push with_400 400 no_macro) (some 1)) 400 ≡ none
unfolding define_push
free_defines-define_push_example =
    free_defines-define_push with_400 (record { id = 1; v = 400; macro = one_macro }) [] 400 400
      no_macro (Reach-IsSound refl (λ v. refl) with_400-Reach) refl refl

bound_run : define_find_sym with_400 400 ≡ some (record { id = 1; v = 400; macro = one_macro })
unfolding define_find_sym define_push
bound_run = refl

abbrev line_tokens : List Token
line_tokens =
    plain_token 32
    ∷ plain_token 400
    ∷ plain_token 32
    ∷ plain_token tok_twosharps
    ∷ plain_token 32
    ∷ plain_token 401
    ∷ plain_token 10
    ∷ []

parse_body-tidy_example :
    (is_tidy start (parse_body [] 2 line_tokens) ≡ true)
    × (ink (parse_body [] 2 line_tokens) ≡ ink (line line_tokens))
parse_body-tidy_example = parse_body-tidy line_tokens
