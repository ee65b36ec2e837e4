-- ===== src/ApiBot/Races.antt =====
-- source/bot/bot.h and source/bot/onebot_11/api_bot.h: two frames at once, each in a coroutine of its
-- own (source/server.h): the test of a queue in `EventProcess` takes no lock.
use migang_bot_cpp.Base.{ℕ, ◌≡◌, true, ◌&&◌, not, Bytes, all, ltb, ok, fault, Fault}
use migang_bot_cpp.Json.{JsonLib}
use migang_bot_cpp.ApiBot.{ApiBot}
use migang_bot_cpp.ApiBot.Sessions.{group_queue, wait_in, is_need_message, feed_message}
use migang_bot_cpp.ApiBot.Delivery.{feed_message-waiting}
use migang_bot_cpp.ApiBot.Life.{no_queue}

module _ (lib : JsonLib) where
  -- A coroutine waits for the next message of a member for whom nobody else waits any more in the
  -- group. If two frames with messages of the member both test for a queue before either is fed, both
  -- find it; the first one fed ends the session, and `FeedMessage` throws out_of_range on the second.
  pub feed_message-twice :
      (group user : ℕ) (first second : Bytes) (b : ApiBot lib)
      → all (λ q. not (b.alive q) && ltb q b.next) (group_queue group user b.someone_group_message)
        ≡ true
      → (b' : ApiBot lib) × (is_need_message lib group user (wait_in lib group user b).0 ≡ true)
        × (feed_message lib group user first (wait_in lib group user b).0 ≡ ok b')
        × (feed_message lib group user second b' ≡ fault Fault.out_of_range)
  feed_message-twice group user first second b gone =
      let (b', need, fed, got, over, same) = feed_message-waiting lib group user first b gone in
      (b', need, fed, no_queue lib group user second b' over)
