-- ===== src/Html.antt =====
-- source/utility.h, namespace html: the escapes of HTML, and `unreliable_decode`, which undoes them.
-- The `int` that holds the size keeps its low 32 bits, and counts as a `std::size_t` where it is
-- compared with the index.
pub mod RoundTrip
mod Tests
use migang_bot_cpp.Base.{
  ℕ, zero, suc, ◌+◌, ◌-◌, ◌%◌, ◌^◌, Option, none, some, List, [], ◌∷◌, ◌++◌, Bytes, codes, nat_beq,
  ltb, length, if◌then◌else◌, Result, ok, fault, Fault, ◌>>=◌,
}
use migang_bot_cpp.Strings.{find_index}

-- The switch of `encode`
unfoldable pub entity : ℕ → Bytes
entity c =
    if nat_beq c b'&'
    then codes "&amp;"
    else if nat_beq c 34
    then codes "&quot;"
    else if nat_beq c 39
    then codes "&apos;"
    else if nat_beq c b'<'
    then codes "&lt;"
    else if nat_beq c b'>'
    then codes "&gt;"
    else c ∷ []

unfoldable pub encode : Bytes → Bytes
unfolding entity
encode [] = []
encode (c ∷ text) = entity c ++ encode text

-- The switch of `unreliable_decode` on the byte behind the ampersand; `semicolon` is `end - i`.
unfoldable pub entity_char : ℕ → ℕ → Bytes
entity_char c semicolon =
    if nat_beq c b'a'
    then (if nat_beq semicolon 4 then b'&' else 39) ∷ []
    else if nat_beq c b'q'
    then 34 ∷ []
    else if nat_beq c b'l'
    then b'<' ∷ []
    else if nat_beq c b'g'
    then b'>' ∷ []
    else []

abbrev pub prepend : Bytes → Result (Option Bytes) → Result (Option Bytes)
prepend s (fault e) = fault e
prepend s (ok none) = ok none
prepend s (ok (some t)) = ok (some (s ++ t))

abbrev pub first_or : ℕ → Bytes → ℕ
first_or c [] = c
first_or c (x ∷ xs) = x

-- `int n = data.size()`, converted to `std::size_t`.
unfoldable pub int_size : ℕ → ℕ
int_size size = let low = size % 2 ^ 32 in if ltb low (2 ^ 31) then low else low + (2 ^ 64 - 2 ^ 32)

-- The smallest `int`, converted; `n - 1` overflows for it.
abbrev pub int_min : ℕ
int_min = 2 ^ 64 - 2 ^ 31

-- The loop: `left` is `n - i`, and `skip` counts the bytes up to `end` that are still to be passed.
-- `none` is the early return of the empty text. Past the end of the text, the loop of a negative size
-- reads outside.
unfoldable pub decode_from : ℕ → ℕ → ℕ → Bytes → Result (Option Bytes)
unfolding entity_char find_index
decode_from n zero skip xs = ok (some [])
decode_from n (suc left) skip [] = fault Fault.undefined
decode_from n (suc left) (suc skip) (x ∷ xs) = decode_from n left skip xs
decode_from n (suc left) zero (x ∷ xs) =
    if nat_beq x b'&'
    then (if nat_beq n int_min
        then fault Fault.undefined
        else if nat_beq left 0
        then ok none
        else elim (find_index (λ y. nat_beq y b';') xs) [
          | none ↦ ok none
          | some j ↦
              prepend (entity_char (first_or b'&' xs) (j + 1)) (decode_from n left (j + 1) xs)
        ])
    else prepend (x ∷ []) (decode_from n left zero xs)

abbrev pub or_nothing : Option Bytes → Bytes
or_nothing none = []
or_nothing (some ret) = ret

unfoldable pub unreliable_decode : Bytes → Result Bytes
unfolding decode_from int_size
unreliable_decode text = do
  ret ← decode_from (int_size (length text)) (int_size (length text)) zero text
  ok (or_nothing ret)
