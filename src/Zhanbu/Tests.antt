-- ===== src/Zhanbu/Tests.antt =====
-- source/modules/module/eorzea_zhanbu: a fortune on a concrete day.
use migang_bot_cpp.Base.{
  ℕ, ◌<◌, ◌≤◌, ◌≡◌, refl, ◌⊎◌, inl, true, false, none, some, List, [], ◌∷◌, ◌++◌, Bytes, nat_beq,
  ltb, if◌then◌else◌, ◌&&◌, codes, utf8, utf8_of, utf8_all, bytes_beq, nat_eq, length, lookup,
  insert, ok, arith,
}
use migang_bot_cpp.Strings.{to_string, digits_from}
use migang_bot_cpp.Zhanbu.{
  EorzeaZhanbu, Drawing, Row, Chance, select_randomly, pick_ji, settle, append_message,
  get_zhanbu_result, get_basemap, record_zhanbu, get_zhanbu_record, get_eorzea_zhanbu, keep_drawing,
  new_zhanbu, zhanbu_with,
}
use migang_bot_cpp.Zhanbu.Slices.{decrement}
use migang_bot_cpp.Zhanbu.Columns.{IsColumns, decrement_lem}
use migang_bot_cpp.Zhanbu.Days.{swapped, get_eorzea_zhanbu-again}
use migang_bot_cpp.Zhanbu.Picks.{pick_ji-ends, get_zhanbu_result-single}

-- The texts of the signs, as numbers of their UTF-16 units.
abbrev sentence : List ℕ
sentence = codes "a good day"

decrement_run : decrement sentence ≡ codes "a goo    " ∷ codes "    d day" ∷ []
unfolding decrement migang_bot_cpp.Zhanbu.Slices.number_of_slices
    migang_bot_cpp.Zhanbu.Slices.two_columns migang_bot_cpp.Zhanbu.Slices.spaces
decrement_run = refl

decrement_lem_example :
    ((length sentence ≤ 36) × IsColumns sentence (decrement sentence))
    ⊎ ((36 < length sentence) × (decrement sentence ≡ []))
decrement_lem_example = decrement_lem sentence

abbrev z : EorzeaZhanbu
z = record {
  occupations = codes "bard" ∷ [];
  dye = codes "snow" ∷ [];
  events = codes "fish" ∷ codes "cook" ∷ [];
  luck_yi_reply = [];
  luck_ji_reply = [];
  exception_msg = [];
  occupation_basemaps = (codes "bard", codes "1.png" ∷ []) ∷ [];
}

-- Every pick is the first but the one of the loop's second round.
abbrev pick : ℕ → ℕ → ℕ
pick i n = if nat_beq i 5 && ltb 1 n then 1 else 0

abbrev chance : Chance
chance = record { luck = 97; pick = pick; pick_reply = λ i n. 0; coin = 0; hitokoto = [] }

abbrev drawn : Drawing
drawn = record {
  luck = codes "97%";
  yi = utf8 "宜 " ++ codes "fish";
  ji = utf8 "忌 " ++ codes "cook";
  dye = codes "snow";
  append_msg = utf8 "是欧皇哦~";
  basemap = codes "bard/1.png";
}

abbrev row : Row
row = record {
  luck = drawn.luck;
  yi = drawn.yi;
  ji = drawn.ji;
  dye = drawn.dye;
  append_msg = drawn.append_msg;
  basemap = drawn.basemap;
  expire_time = 900;
}

first_day :
    get_eorzea_zhanbu 9 z chance (λ i n. 0) true 500 900 7 [] ≡ ok (some ((7, row) ∷ [], drawn))
unfolding get_eorzea_zhanbu zhanbu_with new_zhanbu keep_drawing get_zhanbu_result get_basemap
    record_zhanbu get_zhanbu_record select_randomly pick_ji settle append_message lookup insert
    bytes_beq to_string digits_from utf8 utf8_all utf8_of
first_day = refl

get_eorzea_zhanbu-again_example :
    get_eorzea_zhanbu 0 z (record chance { luck = 3 }) (λ i n. 1) false 600 901 7 ((7, row) ∷ [])
    ≡ ok (some ((7, row) ∷ [], swapped drawn))
unfolding lookup
get_eorzea_zhanbu-again_example =
    get_eorzea_zhanbu-again 9 0 500 600 900 901 7 z chance (record chance { luck = 3 }) (λ i n. 0)
      (λ i n. 1) false [] ((7, row) ∷ []) drawn (inl refl) first_day (omega arith)

pick_fair : (i n : ℕ) → 0 < n → pick i n < n
pick_fair i n some_of = ground arith

pick_ji-ends_example :
    (left : Bytes) × (pick_ji 3 pick 4 z.events (codes "fish") (codes "fish") ≡ ok (some left))
    × (bytes_beq (codes "fish") left ≡ false)
unfolding bytes_beq
pick_ji-ends_example =
    pick_ji-ends 1 4 pick z.events (codes "fish") (codes "fish") (codes "cook") pick_fair refl refl

get_zhanbu_result-single_example :
    get_zhanbu_result 1000 (record z { events = codes "fish" ∷ [] }) chance ≡ ok none
get_zhanbu_result-single_example =
    get_zhanbu_result-single 1000 (record z { events = codes "fish" ∷ [] }) chance (codes "fish")
      pick_fair (omega arith) (omega arith) refl
