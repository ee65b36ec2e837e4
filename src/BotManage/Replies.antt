-- ===== src/BotManage/Replies.antt =====
-- source/modules/module/botmanage/feedback.h and feedback_recorder.h: the number of a feedback, and
-- where the reply to it goes.
use migang_bot_cpp.Base.{
  ℕ, ◌+◌, ◌<◌, ◌^◌, ◌≡◌, refl, ap, ◌∙◌, true, false, Option, some, List, [], ◌∷◌, ◌++◌, Bytes, All,
  All-append, ok, arith, nat_beq_iff, length, is_empty, lt→ltb,
}
use migang_bot_cpp.Json.{JsonLib, number_at}
use migang_bot_cpp.Strings.{npos, substr, to_string}
use migang_bot_cpp.Strings.Numbers.{stoll, stoull-to_string, stoll-to_string, to_string-nonzero}
use migang_bot_cpp.Message.{strip}
use migang_bot_cpp.Permission.{BotConfig}
use migang_bot_cpp.ApiBot.{GroupInfo}
use migang_bot_cpp.Action.{Action, tell}
use migang_bot_cpp.BotManage.Commands.{plain_text, say_to}
use migang_bot_cpp.BotManage.Feedback.{
  Row, Feedbacks, get_last_id, max_id, record_feedback, select_row, get_feedback, fields_of,
  nickname_of, notice_in, sent_to, told_in, feedback_send, reply_to,
}

-- The numbers of the rows are below the next one.
abbrev pub IsTable : Feedbacks → Type 0
IsTable f = All (λ r. r.id < f.next_id) f.rows

select_row-new :
    (rows : List Row) (next : ℕ) (r : Row)
    → All (λ x. x.id < next) rows
    → r.id ≡ next
    → select_row next (rows ++ r ∷ []) ≡ some r
unfolding select_row
select_row-new [] next r below is = ground (arith, nat_beq_iff r.id next)
select_row-new (x ∷ rows) next r (here, later) is =
    ground (arith, nat_beq_iff x.id next, select_row-new rows next r later is)

All-later :
    (rows : List Row) (next : ℕ) → All (λ x. x.id < next) rows → All (λ x. x.id < next + 1) rows
All-later [] next below = tt
All-later (x ∷ rows) next (here, later) = (omega arith, All-later rows next later)

max_id-new :
    (rows : List Row) (next : ℕ) (r : Row)
    → All (λ x. x.id < next) rows
    → r.id ≡ next
    → max_id (rows ++ r ∷ []) ≡ next
max_id-new [] next r below is = ground (arith, is)
max_id-new (x ∷ rows) next r (here, later) is =
    rw (max_id-new rows next r later is) (rw (lt→ltb x.id next here) refl)

-- An INT column keeps the numbers in its range.
abbrev pub IsIntColumn : (ℕ → Option ℕ) → Type 0
IsIntColumn store = (n : ℕ) → n < 2 ^ 31 → store n ≡ some n

-- The table with one row more, of the next number.
abbrev with_row : Bytes → ℕ → ℕ → Bytes → Feedbacks → Feedbacks
with_row time uid gid content f = record {
  rows =
      f.rows
      ++ record { id = f.next_id; time = time; uid = uid; gid = gid; content = content } ∷ [];
  next_id = f.next_id + 1;
}

-- The new row leaves the numbers below the next, and its number is the one that `GetLastID` answers
-- and finds the row.
with_row_lem :
    (time : Bytes) (uid gid : ℕ) (content : Bytes) (f : Feedbacks)
    → IsTable f
    → let f' = with_row time uid gid content f in
      IsTable f'
      × (get_last_id f' ≡ f.next_id)
      × (select_row f.next_id f'.rows
          ≡ some (record { id = f.next_id; time = time; uid = uid; gid = gid; content = content }))
unfolding get_last_id
with_row_lem time uid gid content f below = (
  All-append _ f.rows _ (All-later f.rows f.next_id below) (omega arith, tt),
  max_id-new f.rows f.next_id _ below refl,
  select_row-new f.rows f.next_id _ below refl,
)

record_feedback-with_row :
    (store : ℕ → Option ℕ) (time : Bytes) (uid gid : ℕ) (content : Bytes) (f : Feedbacks)
    → store uid ≡ some uid
    → store gid ≡ some gid
    → (record_feedback true store time uid gid content f).0 ≡ with_row time uid gid content f
unfolding record_feedback
record_feedback-with_row store time uid gid content f user group = rw user (rw group refl)

get_feedback-found :
    (empty r : Row) (n : ℕ) (f : Feedbacks)
    → select_row n f.rows ≡ some r
    → get_feedback empty n f ≡ fields_of r
unfolding get_feedback
get_feedback-found empty r n f found = rw (found, get_feedback) refl

module _ (lib : JsonLib) where
  open lib use {Json, contains}

  reply_to_row :
      (empty r : Row) (msg first id behind text : Bytes) (n : ℕ) (f : Feedbacks)
      → stoll id ≡ ok n
      → select_row n f.rows ≡ some r
      → substr msg (length first) npos ≡ ok behind
      → strip b' ' behind ≡ ok text
      → 0 < r.uid
      → r.uid < 2 ^ 64
      → (message : Bytes) × (done : Bytes) × (reply_to lib empty msg first id f
          ≡ ok (Action.send_group_msg r.uid message ∷ Action.send done true false ∷ []))
  unfolding reply_to
  reply_to_row empty r msg first id behind text n f known found cut stripped positive small =
      rw known (
        rw (get_feedback-found empty r n f found) (
          rw cut (
            rw stripped (
              rw (to_string-nonzero r.uid small positive)
                (rw (stoull-to_string r.uid small) (_, _, refl))))))

  feedback_send-told_in :
      (config : BotConfig) (store : ℕ → Option ℕ) (time nickname said : Bytes)
      (group_info : GroupInfo) (event : Json) (user group : ℕ) (f : Feedbacks)
      → nickname_of lib event ≡ ok nickname
      → number_at lib event "user_id" ≡ ok user
      → plain_text lib event ≡ ok said
      → is_empty said ≡ false
      → contains event "group_id" ≡ true
      → number_at lib event "group_id" ≡ ok group
      → let f' = (record_feedback true store time user group said f).0 in
        feedback_send lib config time group_info true store event f
        ≡ ok (
          f',
          told_in lib config (to_string (get_last_id f')) time nickname user group_info group said,
        )
  unfolding feedback_send
  feedback_send-told_in config store time nickname said group_info event user group f name by says
        some_text in_group from =
      rw name (rw by (rw says (rw (some_text, in_group) (rw from refl))))

  -- A user of a group sends a feedback, with numbers that the columns hold, and the database works:
  -- the superusers and the user are told the number of the new row, and a reply to that number goes
  -- as a group message to the group whose number is the number of the user, whatever group the
  -- feedback came from.
  pub send_then_reply :
      (config : BotConfig) (store : ℕ → Option ℕ) (time nickname said : Bytes)
      (group_info : GroupInfo) (event : Json) (user group : ℕ) (f : Feedbacks) (empty : Row)
      (msg first behind text : Bytes)
      → IsIntColumn store
      → IsTable f
      → f.next_id < 2 ^ 31
      → nickname_of lib event ≡ ok nickname
      → number_at lib event "user_id" ≡ ok user
      → 0 < user
      → user < 2 ^ 31
      → plain_text lib event ≡ ok said
      → is_empty said ≡ false
      → contains event "group_id" ≡ true
      → number_at lib event "group_id" ≡ ok group
      → group < 2 ^ 31
      → substr msg (length first) npos ≡ ok behind
      → strip b' ' behind ≡ ok text
      → (f' : Feedbacks) × (message : Bytes) × (done : Bytes) × (feedback_send lib config time
            group_info true store event f
          ≡ ok (
            f',
            Action.get_group_info group
                  ∷ tell config.superusers (λ white.
                    notice_in lib (to_string f.next_id) time nickname user group_info group said)
                ++ say_to (sent_to lib (to_string f.next_id) said) ∷ [],
          ))
        × (select_row f.next_id f'.rows
            ≡ some
                (record { id = f.next_id; time = time; uid = user; gid = group; content = said }))
        × (reply_to lib empty msg first (to_string f.next_id) f'
            ≡ ok (Action.send_group_msg user message ∷ Action.send done true false ∷ []))
  send_then_reply config store time nickname said group_info event user group f empty msg first
        behind text column below few name by positive small says some_text in_group from small_group
        cut stripped =
      let f' = with_row time user group said f in
      let (kept, last, found) = with_row_lem time user group said f below in
      let told : ℕ → List Action =
        λ n. told_in lib config (to_string n) time nickname user group_info group said in
      let (message, done, replied) =
        reply_to_row empty _ msg first (to_string f.next_id) behind text f.next_id f'
          (stoll-to_string f.next_id (omega (arith, few))) found cut stripped positive
          (omega (arith, small)) in
      (
        f',
        message,
        done,
        feedback_send-told_in config store time nickname said group_info event user group f name by
              says some_text in_group from
            ∙ ap (λ r. ok (r, told (get_last_id r)))
                (record_feedback-with_row store time user group said f (column user small)
                  (column group small_group))
            ∙ ap (λ n. ok (f', told n)) last,
        found,
        replied,
      )
