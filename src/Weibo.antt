-- ===== src/Weibo.antt =====
-- source/modules/module/weibo/weibo_spider.h: which posts of a user are new. The posts are the values
-- that `GetOneWeibo` gives for the cards of type 9, those that are empty left out; `now` is the time
-- of the poll, and times are nonnegative.
pub mod Buffer
pub mod Posts
pub mod Parse
pub mod Push
pub mod Pulls
mod Tests
mod PullTests
use migang_bot_cpp.Base.{
  ℕ, ◌+◌, ◌-◌, ◌%◌, ◌^◌, Bool, true, false, ◌&&◌, ◌||◌, not, Option, none, some, List, [], ◌∷◌,
  ◌++◌, Bytes, bytes_eq, ltb, length, member, emplace, remove, is_some, if◌then◌else◌, Result, ok,
  ◌>>=◌,
}
use migang_bot_cpp.Json.{JsonLib, string_at, number_at}
use migang_bot_cpp.Strings.{find_sub}

pub record WeiboSpider : Type 0 where
  pub received_weibo_ids : List Bytes
  pub received_weibo_list : List Bytes
  pub filter_words : List Bytes
  pub filter : Bool

-- An id enters the set and the list.
unfoldable pub receive : Bytes → WeiboSpider → WeiboSpider
receive id s = record s {
  received_weibo_ids = emplace id s.received_weibo_ids;
  received_weibo_list = s.received_weibo_list ++ id ∷ [];
}

module _ (lib : JsonLib) where
  open lib use {Json, contains, at}

  -- The word occurs in the text of the post, or in that of the post that it forwards.
  unfoldable pub has_word : Bytes → Json → Result Bool
  has_word word wb = do
    text ← string_at lib wb "text"
    if is_some (find_sub word text)
        then ok true
        else if contains wb "retweet"
        then (do
          forwarded ← string_at lib (at wb "retweet") "text"
          ok (is_some (find_sub word forwarded)))
        else ok false

  -- The loop over the filter words: a post is received once for each word that it holds. The id is
  -- read whether or not the word is found: it is read after the loop in any case.
  unfoldable pub receive_filtered : List Bytes → Json → WeiboSpider → Result WeiboSpider
  unfolding has_word receive
  receive_filtered [] wb s = ok s
  receive_filtered (word ∷ words) wb s = do
    found ← has_word word wb
    id ← string_at lib wb "id"
    receive_filtered words wb (if found then receive id s else s)

  -- `cur_time() - created_at > 7200` on `time_t`, whose 64 bits the numbers are.
  abbrev is_old : ℕ → ℕ → Bool
  is_old now created_at =
      let age = (now + 2 ^ 64 - created_at) % 2 ^ 64 in ltb 7200 age && ltb age (2 ^ 63)

  -- One post, and whether it is to be pushed.
  unfoldable pub take_post : ℕ → Json → WeiboSpider → Result (WeiboSpider × Bool)
  unfolding receive_filtered receive
  take_post now wb s = do
    s' ← receive_filtered s.filter_words wb s
    id ← string_at lib wb "id"
    if member id s'.received_weibo_ids then ok (s', false) else (do
      created_at ← number_at lib wb "created_at"
      if is_old now created_at
          then ok (s', false)
          else if not s'.filter || not (contains wb "retweet")
          then ok (receive id s', true)
          else ok (s', false))

  -- `GetLastestWeibos`
  unfoldable pub get_lastest_weibos : ℕ → List Json → WeiboSpider → Result (WeiboSpider × List Json)
  unfolding take_post
  get_lastest_weibos now [] s = ok (s, [])
  get_lastest_weibos now (wb ∷ wbs) s = do
    (s', is_new) ← take_post now wb s
    (s'', rest) ← get_lastest_weibos now wbs s'
    ok (s'', if is_new then wb ∷ rest else rest)

-- The loop of `CleanBuffer`, on the list and the set
unfoldable pub clean_from : List Bytes → List Bytes → List Bytes × List Bytes
clean_from [] ids = ([], ids)
clean_from (front ∷ rest) ids =
    let cleaned = clean_from rest (remove front ids) in
    if ltb 10 (length (front ∷ rest)) then cleaned else (front ∷ rest, ids)

-- `CleanBuffer`
unfoldable pub clean_buffer : WeiboSpider → WeiboSpider
unfolding clean_from
clean_buffer s =
    let (received, ids) = clean_from s.received_weibo_list s.received_weibo_ids in
    record s { received_weibo_list = received; received_weibo_ids = ids }
