-- ===== src/Weibo/Parse.antt =====
-- source/modules/module/weibo/utils.h: a post from the answer of the web service. `get_text` (an HTML
-- parser), `parse_time` (`std::get_time`) and `parse` (`Json::parse`, `none` when it throws) are
-- arguments, and so are the pages that the requests for a long post give, `none` for a failed one.
use migang_bot_cpp.Base.{
  ℕ, zero, suc, ◌+◌, ◌%◌, ◌^◌, Bool, true, false, ◌&&◌, Option, none, some, List, [], ◌∷◌, Bytes,
  codes, bytes_beq, nat_beq, take, if◌then◌else◌, Result, ok, fault, Fault, or_fault, ◌>>=◌,
}
use migang_bot_cpp.Json.{JsonLib, string_at, bool_at}
use migang_bot_cpp.Strings.{find_sub, find_first_of, substr, remove_prefix, sub_size, starts_with}
use migang_bot_cpp.Utility.{replace_all}

-- `view.rfind(pattern)`: the last place at which the pattern starts.
abbrev later_or : Bool → Option ℕ → Option ℕ
later_or here (some i) = some (suc i)
later_or true none = some 0
later_or false none = none

unfoldable pub rfind : Bytes → Bytes → Option ℕ
unfolding starts_with
rfind pattern [] = if starts_with pattern [] then some 0 else none
rfind pattern (x ∷ s) = later_or (starts_with pattern (x ∷ s)) (rfind pattern s)

-- `ReplaceAll(str, from, to)`
abbrev replaced : Bytes → Bytes → Bytes → Result Bytes
replaced from to str = or_fault (replace_all str from to) Fault.undefined

-- The replacements of `ParseWeibo`, the first of the zero-width space.
unfoldable pub clean_text : Bytes → Result Bytes
clean_text text_body = do
  t1 ← replaced (226 ∷ 128 ∷ 139 ∷ []) [] text_body
  t2 ← replaced (codes "<br/>") (codes "\n") t1
  t3 ← replaced (codes "<br />") (codes "\n") t2
  replaced (codes "&") (codes "&amp;") t3

module _ (lib : JsonLib) (get_text : Bytes → Bytes) (parse_time : Bytes → ℕ)
    (parse : Bytes → Option lib.Json) where
  open lib use {Json, null, of_string, of_number, contains, at, put, size, elem, push_back}

  -- The loop of `GetPics` over the pictures from the i-th.
  unfoldable pub pics_from : ℕ → ℕ → Json → Json → Result Json
  pics_from zero i pics ret = ok ret
  pics_from (suc left) i pics ret = do
    url ← string_at lib (at (elem pics i) "large") "url"
    pics_from left (i + 1) pics (push_back ret (of_string url))

  -- `weibo_info.contains("page_info") && weibo_info["page_info"]["type"] == type`
  abbrev is_page : Bytes → Json → Result Bool
  is_page type weibo_info =
      if contains weibo_info "page_info"
      then (do found ← string_at lib (at weibo_info "page_info") "type"; ok (bytes_beq found type))
      else ok false

  abbrev page_pic : Json → Result Bytes
  page_pic weibo_info = string_at lib (at (at weibo_info "page_info") "page_pic") "url"

  -- `GetPics`
  unfoldable pub get_pics : Json → Result Json
  unfolding pics_from
  get_pics weibo_info = do
    ret ←
        if contains weibo_info "pics"
        then pics_from (size (at weibo_info "pics")) 0 (at weibo_info "pics") null
        else ok null
    article ← is_page (codes "article") weibo_info
    if article then (do url ← page_pic weibo_info; ok (push_back ret (of_string url))) else ok ret

  -- `GetVideoInfo`
  unfoldable pub get_video_info : Json → Result Bytes
  get_video_info weibo_info = do
    video ← is_page (codes "video") weibo_info
    if video then page_pic weibo_info else ok []

  -- `ParseWeibo`
  unfoldable pub parse_weibo : Json → Result Json
  unfolding clean_text get_pics get_video_info
  parse_weibo weibo_info = do
    named ←
        if contains weibo_info "user"
        then (do
          screen_name ← string_at lib (at weibo_info "user") "screen_name"
          ok (put null "screen_name" (of_string screen_name)))
        else ok null
    id ← string_at lib weibo_info "id"
    text_body ← string_at lib weibo_info "text"
    cleaned ← clean_text text_body
    pics ← get_pics weibo_info
    video ← get_video_info weibo_info
    created_at ← string_at lib weibo_info "created_at"
    let with_text = put (put named "id" (of_string id)) "text" (of_string (get_text cleaned))
    let with_media = put (put with_text "pics" pics) "video_poster" (of_string video)
    ok (put with_media "created_at" (of_number (parse_time created_at)))

  -- The part of a page that `GetLongWeibo` parses: from the brace behind the mark to the last `},`.
  unfoldable pub status_of : ℕ → ℕ → Bytes → Result Bytes
  unfolding substr remove_prefix find_first_of
  status_of pos_start pos_end html = do
    view ← substr html pos_start ((sub_size pos_end pos_start + 1) % 2 ^ 64)
    remove_prefix (find_first_of b'{' view) view

  -- A try of `GetLongWeibo` on a page; `none` is a further try.
  unfoldable pub read_page : Bytes → Result (Option Json)
  unfolding rfind status_of parse_weibo
  read_page html = elim (find_sub (codes "\"status\":") html) [
    | none ↦ ok none
    | some pos_start ↦ elim (rfind (codes "},") html) [
      | none ↦ ok none
      | some pos_end ↦ elim (status_of pos_start pos_end html) [
        | ok view ↦ elim (parse view) [
          | none ↦ ok none
          | some weibo_info ↦ elim (parse_weibo weibo_info) [
            | ok weibo ↦ ok (some weibo)
            | fault e ↦ ok none
          ]
        ]
        | fault e ↦ fault e
      ]
    ]
  ]

  -- The loop of `GetLongWeibo` over the pages of its tries.
  unfoldable pub long_from : List (Option Bytes) → Result Json
  unfolding read_page
  long_from [] = ok null
  long_from (none ∷ pages) = long_from pages
  long_from (some html ∷ pages) = do
    weibo ← read_page html
    let rest = long_from pages
    elim weibo [ some w ↦ ok w | none ↦ rest ]

  -- `GetLongWeibo`: five tries.
  unfoldable pub get_long_weibo : List (Option Bytes) → Result Json
  unfolding long_from
  get_long_weibo pages = long_from (take 5 pages)

  -- The post itself, or the one that it forwards.
  unfoldable pub full_weibo : List (Option Bytes) → Json → Result Json
  unfolding get_long_weibo parse_weibo
  full_weibo pages weibo_info = do
    is_long ← bool_at lib weibo_info "isLongText"
    if is_long
        then (do
          weibo ← get_long_weibo pages
          if nat_beq (size weibo) 0 then parse_weibo weibo_info else ok weibo)
        else parse_weibo weibo_info

  -- `GetOneWeibo`; the two lists are the pages for the post and for the one that it forwards.
  unfoldable pub get_one_weibo : List (Option Bytes) → List (Option Bytes) → Json → Result Json
  unfolding full_weibo
  get_one_weibo pages forwarded info = do
    let weibo_info = at info "mblog"
    id ← string_at lib weibo_info "id"
    weibo ← full_weibo pages weibo_info
    if contains weibo_info "retweeted_status" && contains (at weibo_info "retweeted_status") "id"
        then (do
          retweet_id ← string_at lib (at weibo_info "retweeted_status") "id"
          retweet ← full_weibo forwarded (at weibo_info "retweeted_status")
          ok (put weibo "retweet" retweet))
        else ok weibo
