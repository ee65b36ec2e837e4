-- ===== src/Weibo/Pulls.antt =====
-- source/modules/module/weibo/weibo_push.h, `WeiboPuller`: how often a new post is pushed.
use native.Mathlib.Nat.{suc-mul}
use migang_bot_cpp.Base.{
  ℕ, zero, suc, ◌+◌, ◌*◌, ◌≡◌, refl, sym, ap, ◌∙◌, Bool, true, false, List, [], ◌∷◌, ◌++◌, map,
  append_assoc, append-nil, Bytes, length, length-append, All, ok, ok_inj, >>=-eq-ok, arith,
}
use migang_bot_cpp.Json.{JsonLib}
use migang_bot_cpp.Weibo.Push.{
  Rows, record_weibo, left_of, weibo_to_text, transform, rounds, pull_spider,
}

-- Some texts, as often as that.
unfoldable pub repeated : ℕ → List Bytes → List Bytes
repeated zero texts = []
repeated (suc n) texts = texts ++ repeated n texts

times_suc : (n k : ℕ) → k + n * k ≡ suc n * k
times_suc n k = omega (arith, suc-mul n k)

length-repeated : (n : ℕ) (texts : List Bytes) → length (repeated n texts) ≡ n * length texts
unfolding repeated
length-repeated zero texts = omega arith
length-repeated (suc n) texts =
    length-append texts (repeated n texts)
    ∙ ap (λ k. length texts + k) (length-repeated n texts)
    ∙ times_suc n (length texts)

module _ (lib : JsonLib) where
  open lib use {Json, contains}

  -- A post that forwards no other, with its list of pictures, as `ParseWeibo` gives it.
  abbrev pub IsOwn : Json → Type 0
  IsOwn wb = (contains wb "retweet" ≡ false) × (contains wb "pics" ≡ true)

  own_left : (wb : Json) → IsOwn wb → left_of lib wb ≡ wb
  unfolding left_of
  own_left wb (own, pictured) = rw own (rw pictured refl)

  All-left_of : (wbs : List Json) → All IsOwn wbs → map (left_of lib) wbs ≡ wbs
  All-left_of [] own = refl
  All-left_of (wb ∷ wbs) (here, later) =
      ap (λ w. w ∷ map (left_of lib) wbs) (own_left wb here)
      ∙ ap (λ ws. wb ∷ ws) (All-left_of wbs later)

  -- The texts do not depend on the table.
  any_rows :
      (works : Bool) (time_now : Bytes) (wbs : List Json) (rows rows' rows2 : Rows)
      (texts : List Bytes)
      → transform lib works time_now wbs rows ≡ ok (texts, rows')
      → (left : Rows) × (transform lib works time_now wbs rows2 ≡ ok (texts, left))
  unfolding transform
  any_rows works time_now [] rows rows' rows2 texts made =
      (rows2, ap (λ p. ok (p.0, rows2)) (ok_inj made))
  any_rows works time_now (wb ∷ wbs) rows rows' rows2 texts made =
      let ((text, id), said, rest) = >>=-eq-ok (weibo_to_text lib wb) _ made in
      let ((texts1, rows1), others, done) =
        >>=-eq-ok (transform lib works time_now wbs (record_weibo works id time_now text rows)) _
          rest in
      let (left, same) =
        any_rows works time_now wbs _ rows1 (record_weibo works id time_now text rows2) texts1
          others in
      (left, rw said (rw same (ap (λ p. ok (p.0, left)) (ok_inj done))))

  length-transform :
      (works : Bool) (time_now : Bytes) (wbs : List Json) (rows rows' : Rows) (texts : List Bytes)
      → transform lib works time_now wbs rows ≡ ok (texts, rows')
      → length texts ≡ length wbs
  unfolding transform
  length-transform works time_now [] rows rows' texts made =
      ap (λ p. length p.0) (sym (ok_inj made))
  length-transform works time_now (wb ∷ wbs) rows rows' texts made =
      let ((text, id), said, rest) = >>=-eq-ok (weibo_to_text lib wb) _ made in
      let ((texts1, rows1), others, done) =
        >>=-eq-ok (transform lib works time_now wbs (record_weibo works id time_now text rows)) _
          rest in
      ap (λ p. length p.0) (sym (ok_inj done))
      ∙ ap suc (length-transform works time_now wbs _ rows1 texts1 others)

  rounds-repeated :
      (n : ℕ) (works : Bool) (time_now : Bytes) (wbs : List Json) (weibos texts : List Bytes)
      (rows rows' rows2 : Rows)
      → All IsOwn wbs
      → transform lib works time_now wbs rows ≡ ok (texts, rows')
      → (left : Rows) × (rounds lib works time_now n wbs weibos rows2
          ≡ ok (weibos ++ repeated n texts, left))
  unfolding rounds repeated
  rounds-repeated zero works time_now wbs weibos texts rows rows' rows2 own made =
      (rows2, ap (λ ws. ok (ws, rows2)) (sym (append-nil weibos)))
  rounds-repeated (suc n) works time_now wbs weibos texts rows rows' rows2 own made =
      let (left, again) = any_rows works time_now wbs rows rows' rows2 texts made in
      let (last, rest) =
        rounds-repeated n works time_now wbs (weibos ++ texts) texts rows rows' left own made in
      (
        last,
        rw again (
            rw (All-left_of wbs own)
              (rest ∙ ap (λ ws. ok (ws, last)) (append_assoc weibos texts (repeated n texts)))),
      )

  -- Of n new posts of a user that forward no others, `WeiboPuller` pushes every text n times: the
  -- texts of all posts, again for each of them, so n * n in all.
  pub pull_spider_lem :
      (works : Bool) (time_now : Bytes) (lastest_wb : List Json) (weibos texts : List Bytes)
      (rows rows' : Rows)
      → All IsOwn lastest_wb
      → transform lib works time_now lastest_wb rows ≡ ok (texts, rows')
      → (left : Rows) × (pull_spider lib works time_now lastest_wb weibos rows
          ≡ ok (weibos ++ repeated (length lastest_wb) texts, left))
        × (length (repeated (length lastest_wb) texts) ≡ length lastest_wb * length lastest_wb)
  unfolding pull_spider
  pull_spider_lem works time_now lastest_wb weibos texts rows rows' own made =
      let n = length lastest_wb in
      let (left, pulled) =
        rounds-repeated n works time_now lastest_wb weibos texts rows rows' rows own made in
      (
        left,
        pulled,
        length-repeated n texts
            ∙ ap (λ k. n * k) (length-transform works time_now lastest_wb rows rows' texts made),
      )
