-- ===== src/Weibo/Tests.antt =====
-- source/modules/module/weibo/weibo_spider.h: a poll of two posts, and a full buffer.
use migang_bot_cpp.Base.{
  ◌-◌, ◌≡◌, refl, ◌&&◌, true, not, [], ◌∷◌, Bytes, bytes_beq, bytes_eq, codes, All, length, take,
  drop, member, emplace, ok,
}
use migang_bot_cpp.Json.Example.{Value, text, number, object_of, example_lib}
use migang_bot_cpp.Strings.{find_sub, starts_with}
use migang_bot_cpp.Weibo.{
  WeiboSpider, has_word, receive, receive_filtered, take_post, get_lastest_weibos, clean_buffer,
}
use migang_bot_cpp.Weibo.Buffer.{clean_buffer_lem}
use migang_bot_cpp.Weibo.Posts.{IsNew, get_lastest_weibos_lem}

abbrev full : WeiboSpider
full = record {
  received_weibo_ids = codes "b" ∷ codes "a" ∷ [];
  received_weibo_list =
      codes "a"
      ∷ codes "b"
      ∷ codes "b"
      ∷ codes "b"
      ∷ codes "b"
      ∷ codes "b"
      ∷ codes "b"
      ∷ codes "b"
      ∷ codes "b"
      ∷ codes "b"
      ∷ codes "b"
      ∷ [];
  filter_words = codes "ad" ∷ [];
  filter = true;
}

clean_buffer_lem_example :
    let n = length full.received_weibo_list - 10 in
    let s' = clean_buffer full in
    (s'.received_weibo_list ≡ drop n full.received_weibo_list)
    × ((id : Bytes)
        → member id s'.received_weibo_ids ≡ (
            member id full.received_weibo_ids && not (member id (take n full.received_weibo_list))))
clean_buffer_lem_example = clean_buffer_lem full

abbrev fresh : WeiboSpider
fresh = record {
  received_weibo_ids = [];
  received_weibo_list = [];
  filter_words = codes "ad" ∷ [];
  filter = true;
}

abbrev post : Value
post =
    object_of
      (("id", text (codes "a")) ∷ ("text", text (codes "hi")) ∷ ("created_at", number 100) ∷ [])

abbrev after : WeiboSpider
after = record {
  received_weibo_ids = codes "a" ∷ [];
  received_weibo_list = codes "a" ∷ [];
  filter_words = codes "ad" ∷ [];
  filter = true;
}

-- The second time the post is known.
polled : get_lastest_weibos example_lib 200 (post ∷ post ∷ []) fresh ≡ ok (after, post ∷ [])
unfolding get_lastest_weibos take_post receive_filtered has_word find_sub starts_with receive member
    emplace bytes_beq
polled = refl

get_lastest_weibos_lem_example :
    ((id : Bytes)
      → member id fresh.received_weibo_ids ≡ true
      → member id after.received_weibo_ids ≡ true)
    × All (IsNew example_lib fresh.received_weibo_ids after.received_weibo_ids) (post ∷ [])
get_lastest_weibos_lem_example =
    get_lastest_weibos_lem example_lib 200 (post ∷ post ∷ []) (post ∷ []) fresh after polled
