-- ===== src/Message/Tests.antt =====
-- source/message/utility.h: the functions on concrete texts.
use migang_bot_cpp.Base.{
  ℕ, ◌-◌, ◌≡◌, refl, ◌≢◌, true, List, [], ◌∷◌, Bytes, codes, arith, all, length, take, ok,
}
use migang_bot_cpp.Json.Example.{Value, text, number, object_of}
use migang_bot_cpp.Strings.{find_sub, starts_with, substr}
use migang_bot_cpp.Strings.Trim.{trim_end, IsTrimOf}
use migang_bot_cpp.Strings.Replace.{expand, lacks}
use migang_bot_cpp.Message.{unescape, split, split_from, find_from, strip, rstrip_view}
use migang_bot_cpp.Message.Strip.{strip_lem, rstrip_view_lem}
use migang_bot_cpp.Message.Unescape.{cq_escape, unescape-expand}
use migang_bot_cpp.Message.Split.{join, split_lem}

split_run : split (codes "a bc ") (codes " ") ≡ ok (codes "a" ∷ codes "bc" ∷ [] ∷ [])
unfolding split split_from find_from find_sub starts_with substr
split_run = refl

strip_lem_example :
    (t : Bytes) × (strip b' ' (codes " hi  ") ≡ ok t) × IsTrimOf b' ' (codes " hi  ") t
strip_lem_example = strip_lem b' ' (codes " hi  ") (omega arith)

kept : trim_end b' ' (codes "hi ") ≢ []
unfolding trim_end
kept e = cc

rstrip_view_lem_example :
    rstrip_view b' ' (codes "hi ")
    ≡ ok (take (length (trim_end b' ' (codes "hi ")) - 1) (trim_end b' ' (codes "hi ")))
rstrip_view_lem_example = rstrip_view_lem b' ' (codes "hi ") (omega arith) kept

unescape-expand_example : unescape (expand cq_escape (codes "[a,&b]")) ≡ codes "[a,&b]"
unescape-expand_example = unescape-expand (codes "[a,&b]")

split_lem_example :
    (pieces : List Bytes) × (split (codes "a bc ") (codes " ") ≡ ok pieces)
    × (join b' ' pieces ≡ codes "a bc ")
    × (all (lacks b' ') pieces ≡ true)
split_lem_example = split_lem b' ' (codes "a bc ") (omega arith)

abbrev command : Bytes
command = codes ".echo a&amp;b"

abbrev sized : ℕ → Value
sized n = object_of (("__command_size__", number n) ∷ ("message", text command) ∷ [])
