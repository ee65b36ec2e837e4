-- ===== src/Zhanbu/Slices.antt =====
-- source/modules/module/eorzea_zhanbu/zhanbu_utils.h, `Decrement` and the columns of `Draw`: a text is
-- drawn in columns of nine signs at most. A text is its UTF-16 units here.
use migang_bot_cpp.Base.{
  ℕ, zero, suc, ◌+◌, ◌-◌, ◌*◌, ◌/◌, ◌%◌, ◌^◌, List, [], ◌∷◌, ◌++◌, nat_beq, ltb, length, take, drop,
  if◌then◌else◌,
}

-- `std::u16string(n, ' ')`
unfoldable pub spaces : ℕ → List ℕ
spaces zero = []
spaces (suc n) = b' ' ∷ spaces n

-- The loop over the slices from the i-th.
unfoldable pub slices_from : ℕ → ℕ → List ℕ → List (List ℕ)
slices_from zero i text = []
slices_from (suc left) i text = take 9 (drop (i * 9) text) ∷ slices_from left (i + 1) text

unfoldable pub number_of_slices : ℕ → ℕ
number_of_slices length = if nat_beq (length % 9) 0 then length / 9 else length / 9 + 1

-- The two columns of a text that has two slices, for its half, rounded up.
unfoldable pub two_columns : ℕ → List ℕ → List (List ℕ)
unfolding spaces
two_columns half text =
    let fill_space = spaces (9 - half) in
    if nat_beq (length text % 2) 1
    then (take half text ++ fill_space) ∷ (fill_space ++ spaces 1 ++ drop half text) ∷ []
    else (take half text ++ fill_space) ∷ (fill_space ++ drop half text) ∷ []

-- `Decrement`
unfoldable pub decrement : List ℕ → List (List ℕ)
unfolding number_of_slices two_columns slices_from
decrement text =
    let n = number_of_slices (length text) in
    if ltb (4 * 9) (length text)
    then []
    else if nat_beq n 2
    then two_columns ((length text + length text % 2) / 2) text
    else slices_from n 0 text

-- `ori_x` of the i-th of `slice_num` columns around `center`, on `std::size_t`, as `cv::Point` takes
-- it: the low 32 bits.
unfoldable pub column_x : ℕ → ℕ → ℕ → ℕ
column_x center slice_num i =
    let middle = ((slice_num + 2 ^ 64 - 2) * 25) % 2 ^ 64 / 2 in
    (center + middle + (slice_num - 1) * 4 + 2 ^ 64 - i * 29) % 2 ^ 64 % 2 ^ 32
