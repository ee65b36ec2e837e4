-- ===== src/Weibo/Posts.antt =====
-- source/modules/module/weibo/weibo_spider.h, `GetLastestWeibos`: no post is given twice.
use migang_bot_cpp.Base.{
  ℕ, ◌≡◌, refl, ap, ◌∙◌, sym, subst, Bool, true, false, some, List, [], ◌∷◌, Bytes, bytes_eq,
  bytes_beq_iff, arith, All, ◌⊎◌, member, member-emplace, if◌then◌else◌, ok, >>=-eq-ok, inl, inr,
  Bool-cases, ok_inj,
}
use migang_bot_cpp.Json.{JsonLib, string_at}
use migang_bot_cpp.Weibo.{
  WeiboSpider, receive, has_word, receive_filtered, take_post, get_lastest_weibos,
}

member-receive :
    (j id : Bytes) (s : WeiboSpider)
    → member id s.received_weibo_ids ≡ true
    → member id (receive j s).received_weibo_ids ≡ true
unfolding receive
member-receive j id s old = ground (arith, member-emplace j id s.received_weibo_ids)

member-receive_self :
    (id : Bytes) (s : WeiboSpider) → member id (receive id s).received_weibo_ids ≡ true
unfolding receive
member-receive_self id s =
    ground (arith, member-emplace id id s.received_weibo_ids, bytes_beq_iff id id)

module _ (lib : JsonLib) where
  open lib use {Json, at, get_string}

  member-receive_filtered :
      (words : List Bytes) (wb : Json) (id : Bytes) (s s' : WeiboSpider)
      → receive_filtered lib words wb s ≡ ok s'
      → member id s.received_weibo_ids ≡ true
      → member id s'.received_weibo_ids ≡ true
  unfolding receive_filtered
  member-receive_filtered [] wb id s s' done old = ground arith
  member-receive_filtered (word ∷ words) wb id s s' done old =
      let (found, f, done') = >>=-eq-ok (has_word lib word wb) _ done in
      let (j, i, done'') = >>=-eq-ok (string_at lib wb "id") _ done' in
      elim (Bool-cases found) [
        | inl holds ↦
            member-receive_filtered words wb id (receive j s) s'
              (ap (λ t. receive_filtered lib words wb (if t then receive j s else s)) (sym holds)
                ∙ done'')
              (member-receive j id s old)
        | inr lacking ↦
            member-receive_filtered words wb id s s'
              (ap (λ t. receive_filtered lib words wb (if t then receive j s else s)) (sym lacking)
                ∙ done'')
              old
      ]

  -- The post has an id, which is not in the first set and is in the second.
  abbrev pub IsNew : List Bytes → List Bytes → Json → Type 0
  IsNew before after wb =
      (id : Bytes) × (get_string (at wb "id") ≡ some id)
      × (member id before ≡ false)
      × (member id after ≡ true)

  abbrev Grows : List Bytes → List Bytes → Type 0
  Grows before after = (id : Bytes) → member id before ≡ true → member id after ≡ true

  take_post-cases :
      (now : ℕ) (wb : Json) (s s' : WeiboSpider) (is_new : Bool)
      → take_post lib now wb s ≡ ok (s', is_new)
      → (t : WeiboSpider) × (id : Bytes) × (receive_filtered lib s.filter_words wb s ≡ ok t)
        × (get_string (at wb "id") ≡ some id)
        × (((s' ≡ t) × (is_new ≡ false))
            ⊎ ((s' ≡ receive id t) × (is_new ≡ true) × (member id t.received_weibo_ids ≡ false)))
  unfolding take_post
  take_post-cases now wb s s' is_new done =
      let (t, filtered, done') = >>=-eq-ok (receive_filtered lib s.filter_words wb s) _ done in
      let (id, i, done'') = >>=-eq-ok (string_at lib wb "id") _ done' in
      (t, id, filtered, ground arith, ground arith)

  not_before :
      (words : List Bytes) (wb : Json) (id : Bytes) (s t : WeiboSpider)
      → receive_filtered lib words wb s ≡ ok t
      → member id t.received_weibo_ids ≡ false
      → member id s.received_weibo_ids ≡ false
  not_before words wb id s t filtered absent = elim (Bool-cases (member id s.received_weibo_ids)) [
    | inl old ↦ let still = member-receive_filtered words wb id s t filtered old in cc
    | inr new ↦ new
  ]

  take_post_lem :
      (now : ℕ) (wb : Json) (s s' : WeiboSpider) (is_new : Bool)
      → take_post lib now wb s ≡ ok (s', is_new)
      → Grows s.received_weibo_ids s'.received_weibo_ids
        × (is_new ≡ true → IsNew s.received_weibo_ids s'.received_weibo_ids wb)
  take_post_lem now wb s s' is_new done =
      let (t, id, filtered, known, after) = take_post-cases now wb s s' is_new done in
      let grown : Grows s.received_weibo_ids t.received_weibo_ids =
        λ j old. member-receive_filtered s.filter_words wb j s t filtered old in
      elim after [
        | inl (same, seen) ↦ (
          λ j old. ap (λ (x : WeiboSpider). member j x.received_weibo_ids) same ∙ grown j old,
          λ new. cc,
        )
        | inr (same, new, absent) ↦ (
          λ j old.
              ap (λ (x : WeiboSpider). member j x.received_weibo_ids) same
              ∙ member-receive id j t (grown j old),
          λ new'. (
            id,
            known,
            not_before s.filter_words wb id s t filtered absent,
            ap (λ (x : WeiboSpider). member id x.received_weibo_ids) same
                ∙ member-receive_self id t,
          ),
        )
      ]

  absent_before :
      (before after : List Bytes) (id : Bytes)
      → Grows before after
      → member id after ≡ false
      → member id before ≡ false
  absent_before before after id grows absent = elim (Bool-cases (member id before)) [
    | inl old ↦ let still = grows id old in cc
    | inr new ↦ new
  ]

  All-IsNew :
      (first before after : List Bytes) (news : List Json)
      → Grows first before
      → All (IsNew before after) news
      → All (IsNew first after) news
  All-IsNew first before after [] grows new = tt
  All-IsNew first before after (wb ∷ news) grows ((id, known, absent, there), new) = (
    (id, known, absent_before first before id grows absent, there),
    All-IsNew first before after news grows new,
  )

  abbrev Polled : List Bytes → WeiboSpider × List Json → Type 0
  Polled before (s, news) =
      Grows before s.received_weibo_ids × All (IsNew before s.received_weibo_ids) news

  Polled-cons :
      (first before : List Bytes) (wb : Json) (is_new : Bool) (r : WeiboSpider × List Json)
      → Grows first before
      → (is_new ≡ true → IsNew first before wb)
      → Polled before r
      → Polled first (r.0, if is_new then wb ∷ r.1 else r.1)
  Polled-cons first before wb false (s, news) grows fresh (grows', new) = (
    λ id old. grows' id (grows id old),
    All-IsNew first before s.received_weibo_ids news grows new,
  )
  Polled-cons first before wb true (s, news) grows fresh (grows', new) =
      let (id, known, absent, there) = fresh refl in
      (
        λ id' old. grows' id' (grows id' old),
        (
          (id, known, absent, grows' id there),
          All-IsNew first before s.received_weibo_ids news grows new,
        ),
      )

  -- A poll that succeeds forgets no id, and each post that it gives has an id that was not received
  -- before the poll and is received after it: no later poll gives a post with that id, as long as
  -- the id is not cleaned away.
  pub get_lastest_weibos_lem :
      (now : ℕ) (wbs news : List Json) (s s' : WeiboSpider)
      → get_lastest_weibos lib now wbs s ≡ ok (s', news)
      → ((id : Bytes)
          → member id s.received_weibo_ids ≡ true
          → member id s'.received_weibo_ids ≡ true)
        × All (IsNew s.received_weibo_ids s'.received_weibo_ids) news
  unfolding get_lastest_weibos
  get_lastest_weibos_lem now [] news s s' done =
      subst (Polled s.received_weibo_ids) (ok_inj done) (λ id old. old, tt)
  get_lastest_weibos_lem now (wb ∷ wbs) news s s' done =
      let ((t, is_new), took, done') = >>=-eq-ok (take_post lib now wb s) _ done in
      let ((u, rest), others, done'') = >>=-eq-ok (get_lastest_weibos lib now wbs t) _ done' in
      let (grows, fresh) = take_post_lem now wb s t is_new took in
      subst (Polled s.received_weibo_ids) (ok_inj done'') (
        Polled-cons s.received_weibo_ids t.received_weibo_ids wb is_new (u, rest) grows fresh
          (get_lastest_weibos_lem now wbs rest t u others))
