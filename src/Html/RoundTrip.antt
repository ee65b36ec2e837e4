-- ===== src/Html/RoundTrip.antt =====
-- source/utility.h, namespace html: decoding undoes encoding.
use migang_bot_cpp.Base.{
  ℕ, zero, suc, ◌<◌, ◌^◌, ◌≡◌, refl, ap, ◌∙◌, some, [], ◌∷◌, ◌++◌, Bytes, Option, arith, length,
  Result, ok, ◌>>=◌, nat_beq, nat_beq_iff, false,
}
use migang_bot_cpp.Strings.{find_index}
use migang_bot_cpp.Html.{
  entity, encode, entity_char, prepend, int_size, int_min, decode_from, or_nothing,
  unreliable_decode,
}

-- The count for a piece of text, before the count for the rest.
steps : Bytes → ℕ → ℕ
steps [] left = left
steps (x ∷ xs) left = suc (steps xs left)

length-steps : (xs ys : Bytes) → length (xs ++ ys) ≡ steps xs (length ys)
unfolding steps
length-steps [] ys = refl
length-steps (x ∷ xs) ys = ap suc (length-steps xs ys)

-- An entity with at least as many bytes to go as it has gives its character.
decode_from-entity :
    (n c left : ℕ) (rest : Bytes)
    → nat_beq n int_min ≡ false
    → decode_from n (steps (entity c) left) zero (entity c ++ rest)
      ≡ prepend (c ∷ []) (decode_from n left zero rest)
unfolding decode_from entity entity_char find_index steps
decode_from-entity n c left rest small = ground (arith, small)

decode_from-encode :
    (n : ℕ) (text : Bytes)
    → nat_beq n int_min ≡ false
    → decode_from n (length (encode text)) zero (encode text) ≡ ok (some text)
unfolding encode decode_from
decode_from-encode n [] small = refl
decode_from-encode n (c ∷ text) small =
    ap (λ l. decode_from n l zero (entity c ++ encode text)) (length-steps (entity c) (encode text))
    ∙ decode_from-entity n c (length (encode text)) (encode text) small
    ∙ ap (prepend (c ∷ [])) (decode_from-encode n text small)

exact_size : (n : ℕ) → n < 2 ^ 31 → int_size n ≡ n
unfolding int_size
exact_size n short = ground (arith, short)

-- Decoding an encoded text gives the text back, whatever bytes it holds, if the encoded text is below
-- 2 GB.
pub unreliable_decode-encode :
    (text : Bytes) → length (encode text) < 2 ^ 31 → unreliable_decode (encode text) ≡ ok text
unfolding unreliable_decode
unreliable_decode-encode text short =
    let n = length (encode text) in
    let exact : int_size n ≡ n = exact_size n short in
    let finish : Result (Option Bytes) → Result Bytes = λ r. r >>= λ ret. ok (or_nothing ret) in
    ap (λ k. finish (decode_from k k zero (encode text))) exact
    ∙ ap finish (decode_from-encode n text (ground (arith, nat_beq_iff n int_min, short)))
