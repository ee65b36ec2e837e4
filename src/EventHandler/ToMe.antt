-- ===== src/EventHandler/ToMe.antt =====
-- source/event/event_handler.h, `Handle`: how a message that addresses the bot is cut.
use migang_bot_cpp.Base.{
  ℕ, zero, suc, ◌+◌, ◌%◌, ◌/◌, ◌^◌, ◌≤◌, ◌<◌, min, ◌≡◌, refl, ap, ◌∙◌, inl, inr, true, false, some,
  [], ◌∷◌, ◌++◌, append_assoc, Bytes, codes, arith, nat_beq, bytes_beq, bytes_beq_iff, ltb, lt→ltb,
  length, length-append, length-drop, drop, take_all, all, take-append, drop-append, is_empty,
  if◌then◌else◌, ok, fault, Fault,
}
use migang_bot_cpp.Json.{JsonLib}
use migang_bot_cpp.Permission.{BotConfig, first_char, get_user_permission}
use migang_bot_cpp.Strings.{
  npos, to_size, sub_size, find_index, find_first_of, find_first_not_of, starts_with, substr,
  to_string, digits_from,
}
use migang_bot_cpp.Strings.Trim.{trim_start, find_index-trim_start}
use migang_bot_cpp.Strings.Replace.{lacks}
use migang_bot_cpp.EventHandler.{RegexLib, EventHandler, Heap}
use migang_bot_cpp.EventHandler.Dispatch.{log_message, handle_message}
use migang_bot_cpp.EventHandler.Preprocess.{address, at_id, behind_at, preprocess}

digits_from-lacks :
    (fuel n : ℕ) (tail : Bytes)
    → lacks b']' tail ≡ true
    → lacks b']' (digits_from fuel n tail) ≡ true
unfolding digits_from
digits_from-lacks zero n tail h = h
digits_from-lacks (suc fuel) n tail h =
    let digit : n % 10 < 10 = omega arith in
    ground (arith, digits_from-lacks fuel (n / 10) ((b'0' + n % 10) ∷ tail))

to_string-lacks : (n : ℕ) → lacks b']' (to_string n) ≡ true
unfolding to_string
to_string-lacks n = digits_from-lacks 20 n [] refl

find_index-lacks :
    (c : ℕ) (s rest : Bytes)
    → lacks c s ≡ true
    → find_index (λ x. nat_beq x c) (s ++ c ∷ rest) ≡ some (length s)
unfolding find_index
find_index-lacks c [] rest h = ground arith
find_index-lacks c (x ∷ s) rest h = ground (arith, find_index-lacks c s rest)

-- The message that begins by mentioning the user of that name.
abbrev pub mention : Bytes → Bytes → Bytes
mention id rest = codes "[CQ:at,qq=" ++ (id ++ b']' ∷ rest)

bracket_of_mention :
    (id rest : Bytes) → lacks b']' id ≡ true → find_first_of b']' (mention id rest) ≡ length id + 10
unfolding find_first_of
bracket_of_mention id rest h =
    ap to_size (find_index-lacks b']' (codes "[CQ:at,qq=" ++ id) rest h) ∙ omega arith

at_id-mention :
    (id rest : Bytes)
    → lacks b']' id ≡ true
    → length (mention id rest) < npos
    → at_id (mention id rest) ≡ ok id
unfolding at_id substr
at_id-mention id rest h small =
    let tail = length-append id (b']' ∷ rest) in
    let start : min 10 (length (mention id rest)) ≡ 10 = omega arith in
    let end : min (length id + 10) (length (mention id rest)) ≡ length id + 10 =
      omega (arith, tail) in
    let count : sub_size (length id + 10) 10 ≡ length id = omega (arith, tail) in
    rw (bracket_of_mention id rest h, start, end, count)
      (ground (arith, take-append id (b']' ∷ rest)))

drop-mention : (id rest : Bytes) → drop (length id + 11) (mention id rest) ≡ rest
drop-mention id rest =
    let head = codes "[CQ:at,qq=" ++ (id ++ b']' ∷ []) in
    let whole : head ++ rest ≡ mention id rest =
      ap (λ s. codes "[CQ:at,qq=" ++ s) (append_assoc id (b']' ∷ []) rest) in
    let long : length head ≡ length id + 11 = omega (arith, length-append id (b']' ∷ [])) in
    rw (← whole, ← long) (drop-append head rest)

substr_all :
    (s t : Bytes) (n m : ℕ)
    → n ≡ m
    → m ≤ length s
    → length s < npos
    → drop m s ≡ t
    → substr s n npos ≡ ok t
unfolding substr
substr_all s t n m e within small d =
    let inside : ltb (length s) n ≡ false = ground arith in
    rw (inside, e, d) (ap ok (take_all npos t (omega (arith, ap length d, length-drop m s))))

-- Behind a mention come the text after the blanks, or a fault if there is none.
behind_at-mention :
    (id rest : Bytes)
    → lacks b']' id ≡ true
    → length (mention id rest) < npos
    → behind_at (mention id rest) ≡ (
        if is_empty (trim_start b' ' rest)
        then fault Fault.out_of_range
        else ok (trim_start b' ' rest))
unfolding behind_at find_first_not_of substr
behind_at-mention id rest h small =
    let long = length-append id (b']' ∷ rest) in
    let first =
      substr_all (mention id rest) rest ((length id + 10 + 1) % 2 ^ 64) (length id + 11)
        (omega (arith, long)) (omega (arith, long)) small (drop-mention id rest) in
    rw (bracket_of_mention id rest h, first)
      (elim (find_index-trim_start b' ' rest) [
        | inl (e, t) ↦
            let beyond : ltb (length rest) npos ≡ true =
              lt→ltb (length rest) npos (omega (arith, long)) in
            rw (e, t, substr) (rw beyond)
        | inr (i, e, lt, t) ↦
            let kept : is_empty (trim_start b' ' rest) ≡ false =
              nonempty i rest (trim_start b' ' rest) lt t in
            rw (e, kept) (substr_all rest _ i i refl (omega arith) (omega (arith, long)) t)
      ])
  where
    nonempty : (i : ℕ) (s t : Bytes) → i < length s → drop i s ≡ t → is_empty t ≡ false
    nonempty i s [] lt d = absurd (omega (arith, ap length d, length-drop i s))
    nonempty i s (x ∷ t) lt d = refl

module _ (lib : JsonLib) (config : BotConfig) (stale : Bytes → Bytes) where
  open lib use {Json, at, get_number}

  -- A message that begins by mentioning somebody is left alone unless it is the bot. If it is, and
  -- something but blanks follows, that text is the new message of the event, which is marked; the
  -- text that is then matched is read from the buffer that the assignment has freed. If nothing
  -- but blanks follows, `substr` throws, which ends the process.
  pub preprocess-mention :
      (id rest : Bytes) (event : Json) (self_id : ℕ)
      → get_number (at event "self_id") ≡ some self_id
      → lacks b']' id ≡ true
      → length (mention id rest) < npos
      → let text = trim_start b' ' rest in
        preprocess lib config stale (mention id rest) event ≡ (
          if bytes_beq id (to_string self_id)
          then (if is_empty text
              then fault Fault.out_of_range
              else ok (stale text, address lib text event))
          else ok (mention id rest, event))
  unfolding preprocess starts_with
  preprocess-mention id rest event self_id known h small =
      rw (at_id-mention id rest h small, known)
        (rw (behind_at-mention id rest h small) (ground arith))

trim_start-blank :
    (rest : Bytes) → all (λ x. nat_beq x b' ') rest ≡ true → trim_start b' ' rest ≡ []
unfolding trim_start
trim_start-blank [] h = refl
trim_start-blank (x ∷ rest) h = ground (arith, trim_start-blank rest)

module _ (lib : JsonLib) (config : BotConfig) (engine : RegexLib) (stale : Bytes → Bytes)
    (heap : Heap) (h : EventHandler engine) where
  open lib use {Json, at, get_number, get_string}

  -- A message that mentions the bot and holds nothing else but blanks ends the process: whatever is
  -- registered, handling it throws out of a `noexcept` function once its permission is computed and
  -- its arrival is logged.
  pub handle_message-bare_mention :
      (event logged : Json) (self_id permission : ℕ) (message_type blanks : Bytes)
      → get_string (at event "message") ≡ some (mention (to_string self_id) blanks)
      → all (λ x. nat_beq x b' ') blanks ≡ true
      → length (mention (to_string self_id) blanks) < npos
      → get_string (at event "message_type") ≡ some message_type
      → get_user_permission lib config event ≡ ok permission
      → log_message lib (first_char message_type) event ≡ ok logged
      → get_number (at logged "self_id") ≡ some self_id
      → handle_message lib config engine stale heap h event ≡ fault Fault.out_of_range
  unfolding handle_message
  handle_message-bare_mention event logged self_id permission message_type blanks m b small t p l
        known =
      let cut =
        preprocess-mention lib config stale (to_string self_id) blanks logged self_id known
          (to_string-lacks self_id) small in
      let same = (bytes_beq_iff (to_string self_id) (to_string self_id)).1 refl in
      let nothing = trim_start-blank blanks b in rw (m, t, p, l) (rw (cut, same, nothing) refl)
