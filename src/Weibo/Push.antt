-- ===== src/Weibo/Push.antt =====
-- source/modules/module/weibo/weibo_push.h: the texts that are pushed for the new posts of a user.
-- `time_now` is the time of the poll, and `works` says whether the statements of the database work.
use migang_bot_cpp.Base.{
  ℕ, zero, suc, ◌+◌, Bool, List, [], ◌∷◌, ◌++◌, map, Bytes, codes, utf8, nat_beq, length, is_empty,
  if◌then◌else◌, Result, ok, Fault, or_fault, ◌>>=◌,
}
use migang_bot_cpp.Json.{JsonLib, string_at, touch}
use migang_bot_cpp.Strings.{format}

-- A row of `Weibos`: the id, the time and the text.
abbrev pub Rows : Type 0
Rows = List (Bytes × Bytes × Bytes)

-- `message_segment::image`
abbrev image : Bytes → Bytes
image view = format (codes "[CQ:image,file=" ∷ view ∷ codes "]" ∷ [])

-- `RecordWeibo`
unfoldable pub record_weibo : Bool → Bytes → Bytes → Bytes → Rows → Rows
record_weibo works id push_time content rows =
    if works then rows ++ (id, push_time, content) ∷ [] else rows

module _ (lib : JsonLib) where
  open lib use {Json, contains, at, size, elem}

  -- The pictures from the i-th
  unfoldable pub images_from : ℕ → ℕ → Json → Result Bytes
  images_from zero i pics = ok []
  images_from (suc left) i pics = do
    url ← or_fault (lib.get_string (elem pics i)) Fault.type_error
    rest ← images_from left (i + 1) pics
    ok (image url ++ rest)

  -- What `weibo_to_text` leaves of a post: of one that forwards another, the other.
  unfoldable pub left_of : Json → Json
  left_of wb = touch lib (if contains wb "retweet" then at wb "retweet" else wb) "pics"

  -- The text and the id that `weibo_to_text` gives.
  unfoldable pub weibo_to_text : Json → Result (Bytes × Bytes)
  unfolding images_from left_of
  weibo_to_text wb = do
    screen_name ← string_at lib wb "screen_name"
    id_cache ← string_at lib wb "id"
    forwards ←
        if contains wb "retweet"
        then (do
          own ← string_at lib wb "text"
          ok (codes "\n" ++ own ++ utf8 "\n=======转发微博======="))
        else ok []
    text ← string_at lib (left_of wb) "text"
    let pics = at (left_of wb) "pics"
    images ←
        if nat_beq (size pics) 0
        then ok []
        else (do urls ← images_from (size pics) 0 pics; ok (codes "\n" ++ urls))
    poster ← string_at lib (left_of wb) "video_poster"
    ok (
      format (
          screen_name
          ∷ codes "'s Weibo:\n====================="
          ∷ forwards
          ∷ codes "\n"
          ∷ text
          ∷ images
          ∷ (if is_empty poster then [] else utf8 "\n[视频封面]\n" ++ image poster)
          ∷ codes "\nURL:https://m.weibo.cn/detail/"
          ∷ id_cache
          ∷ []),
      id_cache,
    )

  -- `std::transform` over the posts: the texts in their order.
  unfoldable pub transform : Bool → Bytes → List Json → Rows → Result (List Bytes × Rows)
  unfolding weibo_to_text record_weibo
  transform works time_now [] rows = ok ([], rows)
  transform works time_now (wb ∷ wbs) rows = do
    (text, id) ← weibo_to_text wb
    (texts, rows') ← transform works time_now wbs (record_weibo works id time_now text rows)
    ok (text ∷ texts, rows')

  -- The loop around it, which has one round for each post: each round has what the one before left.
  unfoldable pub rounds :
      Bool → Bytes → ℕ → List Json → List Bytes → Rows → Result (List Bytes × Rows)
  unfolding transform left_of
  rounds works time_now zero wbs weibos rows = ok (weibos, rows)
  rounds works time_now (suc left) wbs weibos rows = do
    (texts, rows') ← transform works time_now wbs rows
    rounds works time_now left (map left_of wbs) (weibos ++ texts) rows'

  -- The part of `WeiboPuller` for the new posts of one user.
  unfoldable pub pull_spider :
      Bool → Bytes → List Json → List Bytes → Rows → Result (List Bytes × Rows)
  unfolding rounds
  pull_spider works time_now lastest_wb weibos rows =
      rounds works time_now (length lastest_wb) lastest_wb weibos rows
