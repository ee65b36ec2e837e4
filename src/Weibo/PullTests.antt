-- ===== src/Weibo/PullTests.antt =====
-- source/modules/module/weibo: two new posts of a user, and the cleaning of a text.
use migang_bot_cpp.Base.{◌*◌, ◌≡◌, refl, false, List, [], ◌∷◌, ◌++◌, Bytes, codes, length, ok}
use migang_bot_cpp.Json.Example.{Value, null, text, object_of, example_lib}
use migang_bot_cpp.Strings.{starts_with, find_sub}
use migang_bot_cpp.Message.{find_from}
use migang_bot_cpp.Utility.{replace_all, replace_all_from, replace_at}
use migang_bot_cpp.Weibo.Parse.{clean_text}
use migang_bot_cpp.Weibo.Push.{
  Rows, weibo_to_text, images_from, left_of, record_weibo, transform, pull_spider,
}
use migang_bot_cpp.Weibo.Pulls.{repeated, pull_spider_lem}

abbrev post : Bytes → Value
post id = object_of (
    ("screen_name", text (codes "ff14"))
    ∷ ("id", text id)
    ∷ ("text", text (codes "news"))
    ∷ ("pics", null)
    ∷ ("video_poster", text [])
    ∷ [])

abbrev posts : List Value
posts = post (codes "12") ∷ post (codes "13") ∷ []

abbrev said : List Bytes
said =
    codes "ff14's Weibo:\n=====================\nnews\nURL:https://m.weibo.cn/detail/12"
    ∷ codes "ff14's Weibo:\n=====================\nnews\nURL:https://m.weibo.cn/detail/13"
    ∷ []

transformed : transform example_lib false (codes "now") posts [] ≡ ok (said, [])
unfolding transform weibo_to_text images_from left_of record_weibo migang_bot_cpp.Strings.format
transformed = refl

pull_spider_lem_example :
    (left : Rows) × (pull_spider example_lib false (codes "now") posts [] []
      ≡ ok ([] ++ repeated (length posts) said, left))
    × (length (repeated (length posts) said) ≡ length posts * length posts)
pull_spider_lem_example =
    pull_spider_lem example_lib false (codes "now") posts [] said [] []
      ((refl, refl), ((refl, refl), tt)) transformed

cleaned : clean_text (codes "a<br/>b & c") ≡ ok (codes "a\nb &amp; c")
unfolding clean_text replace_all replace_all_from replace_at find_from find_sub starts_with
cleaned = refl
