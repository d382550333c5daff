-- ===== src/Cpp/Tokens/Encoding.antt =====
-- What is stored is read back, and the stored ints stay inside the allocated block.
use inherpreter.Prelude.{
  ℕ, zero, suc, ◌+◌, ◌/◌, ◌≤◌, ◌≡◌, refl, sym, ap, ◌∙◌, ◌≢◌, ◌⊎◌, inr, some, List, [], ◌∷◌, ◌++◌,
  append_assoc, arith, length, get_or, drop, take, length-append, take-append,
}
use inherpreter.Cpp.Strings.Escapes.{AreBytes}
use inherpreter.Cpp.Tokens.{
  Kind, plain, words, text, tok_cldouble, kind, CValue, tab, cstr, TokenString, tok_str_realloc,
  realloc_until, pack, stored_text, text_words, take_words, text_of, reserve, put_value,
  tok_str_add2, unpack, get_value, tok_get,
}

-- The value is one that a token of the kind carries.
abbrev pub FitsKind : Kind → CValue → Type 0
FitsKind plain cv = cv ≡ tab []
FitsKind (words n) cv = (ws : List ℕ) × (cv ≡ tab ws) × (length ws ≡ n)
FitsKind text cv = (bs : List ℕ) × (cv ≡ cstr bs) × AreBytes bs

-- The ints that are stored for a token.
abbrev code : Kind → ℕ → CValue → List ℕ
code plain t cv = t ∷ []
code (words n) t cv = t ∷ take_words n cv
code text t cv = t ∷ stored_text (text_of cv)

realloc_until-str :
    (fuel : ℕ) (s : TokenString) (needed : ℕ) → (realloc_until fuel s needed).str ≡ s.str
unfolding realloc_until tok_str_realloc
realloc_until-str zero s needed = refl
realloc_until-str (suc fuel) s needed =
    ground (arith, realloc_until-str fuel (tok_str_realloc s) needed)

put_value-code :
    (k : Kind) (s : TokenString) (t : ℕ) (cv : CValue)
    → (put_value k s t cv).str ≡ s.str ++ code k t cv
put_value-code plain s t cv = refl
put_value-code (words n) s t cv = refl
put_value-code text s t cv = refl

reserve-str : (s : TokenString) → (reserve s).str ≡ s.str
unfolding tok_str_realloc
reserve-str s = ground arith

pub tok_str_add2-code :
    (s : TokenString) (t : ℕ) (cv : CValue)
    → (tok_str_add2 s t cv).str ≡ s.str ++ code (kind t) t cv
unfolding tok_str_add2
tok_str_add2-code s t cv = put_value-code (kind t) (reserve s) t cv ∙ rw (reserve-str s)

unpack-pack : (bs more : List ℕ) → AreBytes bs → take (length bs) (unpack (pack bs ++ more)) ≡ bs
unfolding pack unpack
unpack-pack [] more h = refl
unpack-pack (a ∷ []) more (ha, h) = ground arith
unpack-pack (a ∷ b ∷ []) more (ha, (hb, h)) = ground arith
unpack-pack (a ∷ b ∷ c ∷ []) more (ha, (hb, (hc, h))) = ground arith
unpack-pack (a ∷ b ∷ c ∷ d ∷ bs) more (ha, (hb, (hc, (hd, h)))) =
    ground (arith, unpack-pack bs more h)

length-pack : (bs : List ℕ) → length (pack bs) ≡ (length bs + 3) / 4
unfolding pack
length-pack [] = omega arith
length-pack (a ∷ []) = omega arith
length-pack (a ∷ b ∷ []) = omega arith
length-pack (a ∷ b ∷ c ∷ []) = omega arith
length-pack (a ∷ b ∷ c ∷ d ∷ bs) = omega (arith, length-pack bs)

drop-append : (xs ys : List ℕ) (n : ℕ) → n ≡ length xs → drop n (xs ++ ys) ≡ ys
drop-append [] ys zero h = refl
drop-append [] ys (suc n) h = absurd (omega arith)
drop-append (x ∷ xs) ys zero h = absurd (omega arith)
drop-append (x ∷ xs) ys (suc n) h = drop-append xs ys n (omega arith)

take_all : (xs : List ℕ) (n : ℕ) → length xs ≡ n → take n xs ≡ xs
take_all [] zero h = refl
take_all [] (suc n) h = refl
take_all (x ∷ xs) zero h = absurd (omega arith)
take_all (x ∷ xs) (suc n) h = ap (◌∷◌ x) (take_all xs n (omega arith))

length-stored_text : (bs : List ℕ) → length (stored_text bs) ≡ text_words (length bs)
unfolding stored_text
length-stored_text bs = omega (arith, length-pack bs)

stored_size : (bs rest : List ℕ) → get_or (stored_text bs ++ rest) 0 0 ≡ length bs
unfolding stored_text
stored_size bs rest = refl

stored_bytes : (bs rest : List ℕ) → drop 8 (stored_text bs ++ rest) ≡ pack bs ++ rest
unfolding stored_text
stored_bytes bs rest = refl

get_value-code :
    (k : Kind) (t : ℕ) (cv : CValue) (rest : List ℕ)
    → FitsKind k cv
    → get_value k (drop 1 (code k t cv ++ rest)) ≡ (cv, rest)
unfolding get_value
get_value-code plain t cv rest e = rw e
get_value-code (words n) t cv rest (ws, e, len) =
    rw (e, take_all ws n len, take-append ws rest n (sym len), drop-append ws rest n (sym len))
get_value-code text t cv rest (bs, e, h) = rw (
  e,
  stored_size bs rest,
  drop-append (stored_text bs) rest (text_words (length bs)) (sym (length-stored_text bs)),
  stored_bytes bs rest,
  unpack-pack bs rest h,
)

tok_get-code :
    (k : Kind) (t : ℕ) (cv : CValue) (rest : List ℕ)
    → k ≡ kind t
    → FitsKind k cv
    → tok_get (code k t cv ++ rest) ≡ some (t, cv, rest)
unfolding tok_get
tok_get-code plain t cv rest e h =
    rw (← e) (ap (λ (r : CValue × List ℕ). some (t, r.0, r.1)) (get_value-code plain t cv rest h))
tok_get-code (words n) t cv rest e h =
    rw (← e)
      (ap (λ (r : CValue × List ℕ). some (t, r.0, r.1)) (get_value-code (words n) t cv rest h))
tok_get-code text t cv rest e h =
    rw (← e) (ap (λ (r : CValue × List ℕ). some (t, r.0, r.1)) (get_value-code text t cv rest h))

-- A token that is added to a token string is read back from where the string ended, with its value,
-- whatever is added behind it, if the value is one of the token's kind.
pub tok_get-tok_str_add2 :
    (s : TokenString) (t : ℕ) (cv : CValue) (rest : List ℕ)
    → FitsKind (kind t) cv
    → tok_get (drop (length s.str) ((tok_str_add2 s t cv).str ++ rest)) ≡ some (t, cv, rest)
unfolding tok_get
tok_get-tok_str_add2 s t cv rest h =
    rw
      (
        tok_str_add2-code s t cv,
        append_assoc s.str (code (kind t) t cv) rest,
        drop-append s.str (code (kind t) t cv ++ rest) (length s.str) refl,
      )
      (tok_get-code (kind t) t cv rest refl h)

-- The block has room for the ints that are in use, and is empty or holds eight ints or more.
pub record IsValid (s : TokenString) : Type 0 where
  pub fits : length s.str ≤ s.allocated_len
  pub not_small : (s.allocated_len ≡ 0) ⊎ (8 ≤ s.allocated_len)

realloc_until-room :
    (fuel : ℕ) (s : TokenString) (needed : ℕ)
    → 8 ≤ s.allocated_len
    → needed ≤ s.allocated_len + fuel
    → (needed ≤ (realloc_until fuel s needed).allocated_len)
      × (8 ≤ (realloc_until fuel s needed).allocated_len)
unfolding realloc_until tok_str_realloc
realloc_until-room zero s needed big h = (omega arith, big)
realloc_until-room (suc fuel) s needed big h =
    ground (arith, realloc_until-room fuel (tok_str_realloc s) needed)

reserve-room :
    (s : TokenString)
    → IsValid s
    → (length s.str + 4 ≤ (reserve s).allocated_len) × (8 ≤ (reserve s).allocated_len)
unfolding tok_str_realloc
reserve-room s v = (ground arith, ground arith)

-- The kinds for which four ints, TOK_MAX_SIZE, are enough, or that reserve what they need.
abbrev IsShort : Kind → Type 0
IsShort (words n) = n ≤ 3
IsShort _ = Unit {0}

put_value-IsValid :
    (k : Kind) (s : TokenString) (t : ℕ) (cv : CValue)
    → FitsKind k cv
    → IsShort k
    → length s.str + 4 ≤ s.allocated_len
    → 8 ≤ s.allocated_len
    → IsValid (put_value k s t cv)
put_value-IsValid plain s t cv h short room big = record {
  fits = omega (arith, length-append s.str (t ∷ []));
  not_small = inr big;
}
put_value-IsValid (words n) s t cv (ws, e, len) short room big = record {
  fits = rw (e, take_all ws n len) (omega (arith, length-append s.str (t ∷ ws)));
  not_small = inr big;
}
put_value-IsValid text s t cv (bs, e, h) short room big =
    let needed = length s.str + 1 + text_words (length bs) in
    let (enough, eight) = realloc_until-room needed s needed big (omega arith) in
    rw e (record {
      fits = omega (arith, length-append s.str (t ∷ stored_text bs), length-stored_text bs, enough);
      not_small = inr eight;
    })

kind-IsShort : (t : ℕ) → t ≢ tok_cldouble → IsShort (kind t)
unfolding kind
kind-IsShort t h = ground arith

-- Adding a token other than a long double, with a value of its kind, keeps the ints of a token
-- string inside its block.
pub tok_str_add2-IsValid :
    (s : TokenString) (t : ℕ) (cv : CValue)
    → IsValid s
    → FitsKind (kind t) cv
    → t ≢ tok_cldouble
    → IsValid (tok_str_add2 s t cv)
unfolding tok_str_add2
tok_str_add2-IsValid s t cv v h d =
    let (room, big) = reserve-room s v in
    put_value-IsValid (kind t) (reserve s) t cv h (kind-IsShort t d) (rw (reserve-str s) room) big

-- A long double takes five ints, and room is made for four: where a block has room for exactly
-- four, the last int is written behind its end.
pub tok_str_add2-overrun :
    (s : TokenString) (ws : List ℕ)
    → s.allocated_len ≡ length s.str + 4
    → length ws ≡ 4
    → let r = tok_str_add2 s tok_cldouble (tab ws) in (length r.str ≡ r.allocated_len + 1)
unfolding tok_str_add2 kind
tok_str_add2-overrun s ws full len =
    rw (take_all ws 4 len) (ground (arith, length-append s.str (tok_cldouble ∷ ws)))
