-- ===== src/Weibo/Buffer.antt =====
-- source/modules/module/weibo/weibo_spider.h, `CleanBuffer`: what is forgotten.
use migang_bot_cpp.Base.{
  ℕ, zero, suc, ◌-◌, ◌≡◌, refl, true, false, ◌&&◌, not, List, [], ◌∷◌, Bytes, bytes_eq, arith,
  length, take, drop, ltb, member, remove, member-remove,
}
use migang_bot_cpp.Weibo.{WeiboSpider, clean_from, clean_buffer}

clean_from-cut :
    (received ids : List Bytes) (n : ℕ)
    → n ≡ length received - 10
    → ((clean_from received ids).0 ≡ drop n received)
      × ((id : Bytes)
          → member id (clean_from received ids).1
            ≡ (member id ids && not (member id (take n received))))
unfolding clean_from member
clean_from-cut [] ids zero e = (refl, λ id. ground arith)
clean_from-cut [] ids (suc n) e = absurd (omega arith)
clean_from-cut (x ∷ xs) ids zero e =
    let few : ltb 10 (suc (length xs)) ≡ false = ground arith in rw few (refl, λ id. ground arith)
clean_from-cut (x ∷ xs) ids (suc n) e =
    let many : ltb 10 (suc (length xs)) ≡ true = ground arith in
    let (kept, sets) = clean_from-cut xs (remove x ids) n (omega arith) in
    rw many (kept, λ id. ground (arith, sets id, member-remove x id ids))

-- Cleaning keeps the last ten entries of the list, all of them if there are fewer, and forgets
-- exactly the ids of the entries before them, also when such an id occurs again among the last ten.
pub clean_buffer_lem :
    (s : WeiboSpider)
    → let n = length s.received_weibo_list - 10 in
      let s' = clean_buffer s in
      (s'.received_weibo_list ≡ drop n s.received_weibo_list)
      × ((id : Bytes)
          → member id s'.received_weibo_ids
            ≡ (member id s.received_weibo_ids && not (member id (take n s.received_weibo_list))))
unfolding clean_buffer
clean_buffer_lem s = clean_from-cut s.received_weibo_list s.received_weibo_ids _ refl
