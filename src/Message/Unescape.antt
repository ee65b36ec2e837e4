-- ===== src/Message/Unescape.antt =====
-- source/message/utility.h, `Unescape`: it inverts the escaping of CQ codes.
use migang_bot_cpp.Base.{ℕ, ◌≡◌, true, [], ◌∷◌, ◌++◌, Bytes, codes, arith, nat_beq, if◌then◌else◌}
use migang_bot_cpp.Strings.{replace_from}
use migang_bot_cpp.Strings.Replace.{
  expand, expand-single, replace_from-expand, lacks, replace_from-lacks,
}
use migang_bot_cpp.Message.{replace_all, unescape}

-- The escapes of a CQ code: of the ampersand, of the brackets besides, and of the comma too.
abbrev amp : ℕ → Bytes
amp c = if nat_beq c b'&' then codes "&amp;" else c ∷ []

abbrev amp_close : ℕ → Bytes
amp_close c = if nat_beq c b']' then codes "&#93;" else amp c

abbrev amp_brackets : ℕ → Bytes
amp_brackets c = if nat_beq c b'[' then codes "&#91;" else amp_close c

abbrev pub cq_escape : ℕ → Bytes
cq_escape c = if nat_beq c b',' then codes "&#44;" else amp_brackets c

pass_comma :
    (c : ℕ) (rest : Bytes)
    → replace_all (codes "&#44;") (codes ",") (cq_escape c ++ rest)
      ≡ amp_brackets c ++ replace_all (codes "&#44;") (codes ",") rest
unfolding replace_from
pass_comma c rest = ground arith

pass_open :
    (c : ℕ) (rest : Bytes)
    → replace_all (codes "&#91;") (codes "[") (amp_brackets c ++ rest)
      ≡ amp_close c ++ replace_all (codes "&#91;") (codes "[") rest
unfolding replace_from
pass_open c rest = ground arith

pass_close :
    (c : ℕ) (rest : Bytes)
    → replace_all (codes "&#93;") (codes "]") (amp_close c ++ rest)
      ≡ amp c ++ replace_all (codes "&#93;") (codes "]") rest
unfolding replace_from
pass_close c rest = ground arith

pass_amp :
    (c : ℕ) (rest : Bytes)
    → replace_all (codes "&amp;") (codes "&") (amp c ++ rest)
      ≡ (c ∷ []) ++ replace_all (codes "&amp;") (codes "&") rest
unfolding replace_from
pass_amp c rest = ground arith

-- Unescaping a text in which every ampersand, bracket and comma was replaced by its CQ escape gives
-- the text back.
pub unescape-expand : (s : Bytes) → unescape (expand cq_escape s) ≡ s
unfolding unescape
unescape-expand s =
    rw
      (
        replace_from-expand (codes "&#44;") (codes ",") cq_escape amp_brackets pass_comma s,
        replace_from-expand (codes "&#91;") (codes "[") amp_brackets amp_close pass_open s,
        replace_from-expand (codes "&#93;") (codes "]") amp_close amp pass_close s,
        replace_from-expand (codes "&amp;") (codes "&") amp (λ c. c ∷ []) pass_amp s,
      )
      (expand-single s)

-- A beginning without an ampersand is not changed.
pub unescape-lacks :
    (s rest : Bytes) → lacks b'&' s ≡ true → unescape (s ++ rest) ≡ s ++ unescape rest
unfolding unescape
unescape-lacks s rest h = rw (
  replace_from-lacks b'&' (codes "#44;") (codes ",") s rest h,
  replace_from-lacks b'&' (codes "#91;") (codes "[") s _ h,
  replace_from-lacks b'&' (codes "#93;") (codes "]") s _ h,
  replace_from-lacks b'&' (codes "amp;") (codes "&") s _ h,
)
