-- ===== src/EventHandler/Preprocess.antt =====
-- source/event/event_handler.h, `Handle`: the "pre_propose" part on a message, which recognises that
-- the bot is addressed. It assigns `event["message"]` while `msg` is a view of that very string;
-- `stale` is what a later read through `msg` finds in the freed buffer.
use migang_bot_cpp.Base.{
  ◌+◌, ◌%◌, ◌^◌, min, true, Bytes, codes, bytes_beq, length, if◌then◌else◌, Result, ok, ◌>>=◌,
}
use migang_bot_cpp.Json.{JsonLib, number_at}
use migang_bot_cpp.Permission.{BotConfig}
use migang_bot_cpp.Strings.{
  npos, sub_size, find_first_of, find_first_not_of, starts_with, substr, remove_prefix, to_string,
}

-- `event["__to_me__"] = true; event["message"] = msg;`
module _ (lib : JsonLib) where
  open lib use {Json, of_bool, of_string, put}

  unfoldable pub address : Bytes → Json → Json
  address msg event = put (put event "__to_me__" (of_bool true)) "message" (of_string msg)

-- `at_id`, the text between the tenth byte and the first bracket.
unfoldable pub at_id : Bytes → Result Bytes
at_id msg =
    let start = min 10 (length msg) in
    let end = min (find_first_of b']' msg) (length msg) in substr msg start (sub_size end start)

-- The message behind the bracket and the blanks.
unfoldable pub behind_at : Bytes → Result Bytes
behind_at msg = do
  rest ← substr msg ((find_first_of b']' msg + 1) % 2 ^ 64) npos
  substr rest (find_first_not_of b' ' rest) npos

module _ (lib : JsonLib) (config : BotConfig) (stale : Bytes → Bytes) where
  open lib use {Json}

  -- The text that is matched, and the event that the services get.
  unfoldable pub preprocess : Bytes → Json → Result (Bytes × Json)
  unfolding at_id behind_at address
  preprocess msg event =
      if starts_with (codes "[CQ:at") msg
      then (do
        id ← at_id msg
        self_id ← number_at lib event "self_id"
        if bytes_beq id (to_string self_id)
            then (do rest ← behind_at msg; ok (stale rest, address lib rest event))
            else ok (msg, event))
      else if starts_with config.bot_name msg
      then (do
        rest ← remove_prefix (length config.bot_name) msg
        ok (stale rest, address lib rest event))
      else ok (msg, event)
