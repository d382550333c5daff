-- ===== src/Cpp/Macros/Calls.antt =====
-- The arguments of a call that is written with its commas and parentheses.
use inherpreter.Prelude.{
  ℕ, suc, ◌+◌, ◌-◌, ◌≤◌, ◌<◌, ◌≡◌, refl, ap, ◌∙◌, ◌≢◌, ◌⊎◌, inl, inr, Bool, true, false, List, [],
  ◌∷◌, ◌++◌, append_assoc, append-nil, arith, ltb, ◌==◌, Bool-cases, length, length-append,
}
use inherpreter.Cpp.Tokens.{tok_linenum}
use inherpreter.Cpp.Macros.{
  Token, plain_token, tok_linefeed, minus_one, is_space, Param, Spaced, ok, Cursor, read_token,
  read_nonspace, next_nomacro,
}
use inherpreter.Cpp.Macros.Arguments.{nesting, in_arg, read_arg, Arg, read_args}

-- An argument: tokens and groups in parentheses.
pub data Items : Type 0 where
  done : Items
  word : Token → Items → Items
  group : (inner rest : Items) → Items

abbrev pub mark : ℕ → Token
mark t = plain_token t

unfoldable pub emit : Items → List Token
emit done = []
emit (word tk is) = tk ∷ emit is
emit (group inner rest) = mark b'(' ∷ (emit inner ++ (mark b')' ∷ emit rest))

-- No space, no end of a line and no TOK_LINENUM; no parenthesis and no end of the file.
abbrev pub IsInk : ℕ → Type 0
IsInk t = (t ≢ tok_linefeed) × (t ≢ tok_linenum) × (is_space t ≡ false)

abbrev pub IsWord : ℕ → Type 0
IsWord t = IsInk t × (t ≢ b'(') × (t ≢ b')') × (t ≢ minus_one)

-- A comma stands in a group, or in an argument for the rest of a call.
abbrev pub IsArg : (commas : Bool) → Items → Type 0
IsArg commas done = Unit
IsArg commas (word tk is) = IsWord tk.t × (commas ≡ false → tk.t ≢ b',') × IsArg commas is
IsArg commas (group inner rest) = IsArg true inner × IsArg commas rest

abbrev cursor : ℕ → List Token → Cursor
cursor e ts = read_token e ts

abbrev written : List Token → Spaced
written str = record { str = str; spc = false }

-- One token of an argument is read.
read_arg-token :
    (f : ℕ) (va : Bool) (parlevel parlevel1 : ℕ) (str : List Token) (e : ℕ) (tk : Token)
    (ts : List Token)
    → IsInk tk.t
    → in_arg va parlevel tk.t ≡ true
    → nesting parlevel tk.t ≡ parlevel1
    → read_arg (suc f) va parlevel (written str) (cursor e (tk ∷ ts))
      ≡ read_arg f va parlevel1 (written (str ++ tk ∷ [])) (cursor e ts)
unfolding read_arg read_token
read_arg-token f va parlevel parlevel1 str e tk ts (no_line, no_number, space) more level =
    let numbered : (tk.t == tok_linenum) ≡ false = ground arith in
    let line : (tk.t == tok_linefeed) ≡ false = ground arith in
    rw (numbered, more, level, line, space) refl

-- Where a comma belongs to the argument.
abbrev Within : (va : Bool) (parlevel : ℕ) → Type 0
Within va parlevel = (va ≡ true) ⊎ (0 < parlevel)

in_arg-word :
    (va : Bool) (parlevel t : ℕ)
    → IsWord t
    → (t ≢ b',') ⊎ Within va parlevel
    → in_arg va parlevel t ≡ true
in_arg-word va parlevel t (ink, no_open, no_close, no_end) h =
    let close : (t == b')') ≡ false = ground arith in
    let ended : (t == minus_one) ≡ false = ground arith in
    elim h [
      | inl no_comma ↦
          let separator : (t == b',') ≡ false = ground arith in
          elim (Bool-cases (ltb 0 parlevel)) [
            | inl e ↦ rw (e, ended) refl
            | inr e ↦ rw (e, close, separator, ended) refl
          ]
      | inr (inl e) ↦ elim (Bool-cases (ltb 0 parlevel)) [
        | inl l ↦ rw (l, ended) refl
        | inr l ↦ elim (Bool-cases (t == b',')) [
          | inl s ↦ rw (e, l, close, s, ended) refl
          | inr s ↦ rw (e, l, close, s, ended) refl
        ]
      ]
      | inr (inr lt) ↦ let inner : ltb 0 parlevel ≡ true = ground arith in rw (inner, ended) refl
    ]

in_arg-open : (va : Bool) (parlevel : ℕ) → in_arg va parlevel b'(' ≡ true
in_arg-open va parlevel = elim (Bool-cases (ltb 0 parlevel)) [
  | inl e ↦ rw e refl
  | inr e ↦ rw e refl
]

in_arg-close : (va : Bool) (parlevel : ℕ) → in_arg va (parlevel + 1) b')' ≡ true
in_arg-close va parlevel = let inner : ltb 0 (parlevel + 1) ≡ true = ground arith in rw inner refl

nesting-word : (parlevel t : ℕ) → IsWord t → nesting parlevel t ≡ parlevel
nesting-word parlevel t (ink, no_open, no_close, no_end) =
    let open_ : (t == b'(') ≡ false = ground arith in
    let close : (t == b')') ≡ false = ground arith in rw (open_, close) refl

-- The fuel for an argument, over that for what follows.
fuel_over : Items → ℕ → ℕ
fuel_over done f = f
fuel_over (word tk is) f = suc (fuel_over is f)
fuel_over (group inner rest) f = suc (fuel_over inner (suc (fuel_over rest f)))

IsInk-open : IsInk b'('
IsInk-open = (omega arith, omega arith, refl)

IsInk-close : IsInk b')'
IsInk-close = (omega arith, omega arith, refl)

read_arg-items :
    (is : Items) (commas va : Bool) (parlevel : ℕ) (str : List Token) (e f : ℕ) (ts : List Token)
    → IsArg commas is
    → (commas ≡ true → Within va parlevel)
    → read_arg (fuel_over is f) va parlevel (written str) (cursor e (emit is ++ ts))
      ≡ read_arg f va parlevel (written (str ++ emit is)) (cursor e ts)
unfolding emit fuel_over
read_arg-items done commas va parlevel str e f ts h w = rw (append-nil str) refl
read_arg-items (word tk is) commas va parlevel str e f ts (is_word, comma_free, h) w =
    let here =
      read_arg-token (fuel_over is f) va parlevel parlevel str e tk (emit is ++ ts) is_word.0
        (in_arg-word va parlevel tk.t is_word
          (elim (Bool-cases commas) [ inl c ↦ inr (w c) | inr c ↦ inl (comma_free c) ]))
        (nesting-word parlevel tk.t is_word) in
    here
    ∙ rw (← append_assoc str (tk ∷ []) (emit is))
        (read_arg-items is commas va parlevel (str ++ tk ∷ []) e f ts h w)
read_arg-items (group inner rest) commas va parlevel str e f ts (h_in, h_rest) w =
    let tail = mark b')' ∷ (emit rest ++ ts) in
    let str1 = str ++ mark b'(' ∷ [] in
    let str2 = str1 ++ emit inner in
    let opened =
      read_arg-token (fuel_over inner (suc (fuel_over rest f))) va parlevel (parlevel + 1) str e
        (mark b'(') (emit inner ++ tail) IsInk-open (in_arg-open va parlevel) refl in
    let middle =
      read_arg-items inner true va (parlevel + 1) str1 e (suc (fuel_over rest f)) tail h_in
        (λ c. inr (omega arith)) in
    let closed =
      read_arg-token (fuel_over rest f) va (parlevel + 1) parlevel str2 e (mark b')')
        (emit rest ++ ts) IsInk-close (in_arg-close va parlevel) (omega arith) in
    let behind = read_arg-items rest commas va parlevel (str2 ++ mark b')' ∷ []) e f ts h_rest w in
    let joined : (str2 ++ mark b')' ∷ []) ++ emit rest
        ≡ str ++ mark b'(' ∷ (emit inner ++ mark b')' ∷ emit rest) =
      simp append_assoc refl in
    rw (append_assoc (emit inner) (mark b')' ∷ emit rest) ts, ← joined)
      (opened ∙ middle ∙ closed ∙ behind)

fuel_over-length : (is : Items) (f : ℕ) → fuel_over is f ≡ length (emit is) + f
unfolding fuel_over emit
fuel_over-length done f = omega arith
fuel_over-length (word tk is) f = let ih = fuel_over-length is f in omega arith
fuel_over-length (group inner rest) f =
    let ih1 = fuel_over-length inner (suc (fuel_over rest f)) in
    let ih2 = fuel_over-length rest f in
    let sizes : length (emit inner ++ (mark b')' ∷ emit rest))
        ≡ length (emit inner) + suc (length (emit rest)) =
      length-append (emit inner) (mark b')' ∷ emit rest) in
    omega arith

-- A token that ends an argument.
IsStop : Bool → ℕ → Type 0
IsStop va t = (t ≡ b')') ⊎ ((t ≡ b',') × (va ≡ false))

stop_ink : (va : Bool) (t : ℕ) → IsStop va t → ((t == tok_linenum) ≡ false) × (is_space t ≡ false)
unfolding IsStop
stop_ink va t (inl e) = rw e (refl, refl)
stop_ink va t (inr (e, v)) = rw e (refl, refl)

in_arg-stop : (va : Bool) (t : ℕ) → IsStop va t → in_arg va 0 t ≡ false
unfolding IsStop
in_arg-stop va t (inl e) = rw e refl
in_arg-stop va t (inr (e, v)) = rw (e, v) refl

abbrev pub behind_token : ℕ → Token → List Token → Cursor
behind_token e tk ts = record { tok = tk; input = record { ended_by = e; rest = ts } }

-- An argument is read up to the comma or parenthesis that ends it.
read_arg-ended :
    (f : ℕ) (is : Items) (va : Bool) (e : ℕ) (stop : Token) (ts : List Token)
    → length (emit is) < f
    → IsArg va is
    → IsStop va stop.t
    → read_arg f va 0 (written []) (cursor e (emit is ++ (stop ∷ ts)))
      ≡ ok (written (emit is), behind_token e stop ts)
unfolding read_arg read_token
read_arg-ended f is va e stop ts lt h ends =
    let rest = f - suc (length (emit is)) in
    let split : f ≡ fuel_over is (suc rest) =
      let l = fuel_over-length is (suc rest) in omega arith in
    let ended : read_arg (suc rest) va 0 (written (emit is)) (cursor e (stop ∷ ts))
        ≡ ok (written (emit is), behind_token e stop ts) =
      rw ((stop_ink va stop.t ends).0, in_arg-stop va stop.t ends) refl in
    ap (λ (g : ℕ). read_arg g va 0 (written []) (cursor e (emit is ++ (stop ∷ ts)))) split
    ∙ read_arg-items is va va 0 [] e (suc rest) (stop ∷ ts) h inl
    ∙ ended

-- The first token of an argument, or the one that ends it, is no space.
read_nonspace-arg :
    (is : Items) (commas va : Bool) (e : ℕ) (stop : Token) (ts : List Token)
    → IsArg commas is
    → IsStop va stop.t
    → read_nonspace e (emit is ++ (stop ∷ ts)) ≡ cursor e (emit is ++ (stop ∷ ts))
unfolding read_nonspace read_token emit
read_nonspace-arg done commas va e stop ts h ends =
    let (numbered, space) = stop_ink va stop.t ends in rw (numbered, space) refl
read_nonspace-arg (word tk is) commas va e stop ts h ends =
    let numbered : (tk.t == tok_linenum) ≡ false = ground arith in rw (numbered, h.0.0.2) refl
read_nonspace-arg (group inner rest) commas va e stop ts h ends = refl

-- The arguments of a call behind its `(`.
unfoldable pub emit_args : List Items → List Token
unfolding emit
emit_args [] = mark b')' ∷ []
emit_args (a ∷ []) = emit a ++ (mark b')' ∷ [])
emit_args (a ∷ b ∷ bs) = emit a ++ (mark b',' ∷ emit_args (b ∷ bs))

-- Each parameter has its argument, and only the last may take the rest of a call.
abbrev pub Fits : List Param → List Items → Type 0
Fits [] [] = Unit
Fits (p ∷ []) (a ∷ []) = IsArg p.va a
Fits (p ∷ q ∷ ps) (a ∷ b ∷ bs) = (p.va ≡ false) × IsArg false a × Fits (q ∷ ps) (b ∷ bs)
Fits _ _ = ⊥

-- The arguments under the names of their parameters, the last one first.
unfoldable pub bound : List Param → List Items → List Arg → List Arg
unfolding emit
bound (p ∷ ps) (a ∷ bs) args = bound ps bs (record { v = p.v; va = p.va; d = emit a } ∷ args)
bound _ _ args = args

read_args-some :
    (gnu_ext : Bool) (f : ℕ) (p : Param) (ps : List Param) (a : Items) (bs : List Items)
    (args : List Arg) (e : ℕ) (ts : List Token)
    → Fits (p ∷ ps) (a ∷ bs)
    → length (emit_args (a ∷ bs)) ≤ f
    → read_args gnu_ext f
        (p ∷ ps)
        args
        (next_nomacro (record { ended_by = e; rest = emit_args (a ∷ bs) ++ ts }))
      ≡ ok (bound (p ∷ ps) (a ∷ bs) args, behind_token e (mark b')') ts)
unfolding read_args emit_args bound
read_args-some gnu_ext f p [] a [] args e ts h le =
    let size = length-append (emit a) (mark b')' ∷ []) in
    let start = read_nonspace-arg a p.va p.va e (mark b')') ts h (unfold IsStop in inl refl) in
    let read =
      read_arg-ended f a p.va e (mark b')') ts (omega arith) h (unfold IsStop in inl refl) in
    rw (append_assoc (emit a) (mark b')' ∷ []) ts, start, read) refl
read_args-some gnu_ext f p [] a (b ∷ bs) args e ts h le = elim h [ ]
read_args-some gnu_ext f p (q ∷ ps) a [] args e ts h le = elim h [ ]
read_args-some gnu_ext f p (q ∷ ps) a (b ∷ bs) args e ts (no_rest, h, more) le =
    let size = length-append (emit a) (mark b',' ∷ emit_args (b ∷ bs)) in
    let stop : IsStop p.va b',' = unfold IsStop in inr (refl, no_rest) in
    let h' : IsArg p.va a = rw no_rest h in
    let start = read_nonspace-arg a p.va p.va e (mark b',') (emit_args (b ∷ bs) ++ ts) h' stop in
    let read =
      read_arg-ended f a p.va e (mark b',') (emit_args (b ∷ bs) ++ ts) (omega arith) h' stop in
    let ih =
      read_args-some gnu_ext f q ps b bs (record { v = p.v; va = p.va; d = emit a } ∷ args) e ts
        more (omega arith) in
    rw (append_assoc (emit a) (mark b',' ∷ emit_args (b ∷ bs)) ts, start, read) ih

-- The arguments that are written behind a `(`, with commas between them and `)` behind them, are read
-- back under the names of the macro's parameters, the last first, if there are as many of them, they
-- hold no spaces, and only the last parameter takes commas; what follows the `)` is left. The fuel is
-- the number of tokens.
pub read_args-emit_args :
    (gnu_ext : Bool) (f : ℕ) (ps : List Param) (bs : List Items) (e : ℕ) (ts : List Token)
    → Fits ps bs
    → length (emit_args bs) ≤ f
    → read_args gnu_ext f ps [] (next_nomacro (record { ended_by = e; rest = emit_args bs ++ ts }))
      ≡ ok (bound ps bs [], behind_token e (mark b')') ts)
unfolding read_args emit_args bound read_nonspace
read_args-emit_args gnu_ext f [] [] e ts h le = refl
read_args-emit_args gnu_ext f [] (b ∷ bs) e ts h le = elim h [ ]
read_args-emit_args gnu_ext f (p ∷ []) [] e ts h le = elim h [ ]
read_args-emit_args gnu_ext f (p ∷ q ∷ ps) [] e ts h le = elim h [ ]
read_args-emit_args gnu_ext f (p ∷ ps) (b ∷ bs) e ts h le =
    read_args-some gnu_ext f p ps b bs [] e ts h le
