-- ===== src/Lib.antt =====
-- MigangBot, a chat bot for OneBot 11 in C++ (source/): the events that it receives, the services
-- that they start, and the texts that the services read.
--
-- An event is a JSON value. `EventHandler::Handle` filters it, tells messages from notices,
-- requests and meta events, computes the permission of the user, recognises that the bot is
-- addressed, and starts the services whose commands match. Commands at the beginning or the end of a
-- message are found by tries, which leave the size of the command in the event for
-- `message::ExtraPlainText`. A service has a switch for each group, which a JSON file keeps; the
-- service manager turns the switches by the name of a service.
-- Before the handler, `Bot::EventProcess` gives the answers of the API and awaited messages to the
-- coroutines that wait for them. Modules register their services through source/event/Registrar.h.
--
-- Files:
-- Base (Base/Tests, Lists, Maps, Results): shared helpers: Boolean tests, texts as lists of
--   bytes, lists, `std::unordered_map` and `std::unordered_set` as association lists and lists,
--   and faults (a thrown exception, or an operation that is undefined in C++) as results.
-- Json: nlohmann::json, a parameter with its documented laws; Json/Example has a value type that
--   meets them, for the tests.
-- Trie: source/event/trie.h: `InsertImpl` is insert_impl, `LongestSearchImpl` is longest_search,
--   `ShortestSearchImpl` is shortest_search. Entries gives a trie as a map from paths to commands,
--   Search the searches over that map, Registry the tries as the handler fills them.
-- Permission: source/permission/permission.h; Levels has its theorem.
-- Service: source/service/service.h and triggered_service.h: `GroupEnable` is group_enable,
--   `LoadConfig` is load_config, the constructors are make_service. The file of a service is the
--   value of its name in an association list. Switch and Restart have the theorems.
-- ServiceManager: source/service/service_manager.h: the shared services stand in a heap,
--   `std::multimap` is a sorted list. Switches and Listing have the theorems.
-- Strings: what the program uses of std::string and std::string_view; Trim and Replace have
--   lemmas on cuts and replacements.
-- Message: source/message/utility.h: Strip, Unescape, Split and PlainText have the theorems.
-- EventHandler: source/event/event_handler.h, event_filter.h and regex_matcher.h: Register has
--   the registrations, Preprocess the part that recognises that the bot is addressed, Dispatch
--   `Filter` and `Handle`; Guards, Notices, ToMe and EndToEnd have the theorems.
-- Api (Api/Call, Messages, Groups, Queries): source/api/onebot_11/api_impl.h: one function for
--   each call, under its name.
-- ApiBot: source/bot/onebot_11/api_bot.h and what it uses, and source/bot/bot.h: Values has
--   `DesiredValue` and `DefaultValue`, Calls the calls, Sessions the queues of waiting coroutines,
--   Process `EventProcess`; Delivery, Answers, Life and Races have the theorems, Life on every
--   sequence of steps and Races on two frames at once, with Queues and Waiting for the tables of
--   the queues.
-- Registrar: source/event/Registrar.h: the functions `On…`, with the suffix _general where they
--   take no bundle.
-- Html: source/utility.h, namespace html; RoundTrip has the theorem.
-- Weather: source/modules/module/weather/eorzean_weather.h; Forecast has the theorems.
-- Schedule: source/service/schedule_service.h; Broadcast has the theorem.
-- Weibo (Weibo/Parse, Push): source/modules/module/weibo: `GetLastestWeibos` and `CleanBuffer`
--   of weibo_spider.h; Parse has utils.h, Push the texts of weibo_push.h and the rows of
--   weibo_recorder.h. Posts, Buffer and Pulls have the theorems.
-- Action (Action/Frames): what the handler of a module does with its `ApiBot`, as a list of
--   calls, and its meaning by the functions of ApiBot/Calls; Frames says what the calls send.
-- BotManage (BotManage/Invite, Commands, Options, Feedback, Sv):
--   source/modules/module/botmanage: the black lists and flags of config.cpp, and the handlers of
--   the other files under their names. Restart, Refusals, Kicked, Cleaning, Replies and Switching
--   have the theorems.
-- Utility: source/utility.h, `Replace` and `ReplaceAll`; ReplaceAll has the theorem.
--   Strings/Numbers has `IsDigitStr` with the functions of the library that read a number.
-- Zhanbu (Zhanbu/Slices): source/modules/module/eorzea_zhanbu: `GetZhanbuResult` is
--   get_zhanbu_result, `Decrement` is decrement. Days, Picks and Columns have the theorems.
-- ConnPool: source/db/db_conn/conn_pool.h and orm_pool.h; Holders has the theorem, on threads
--   that take and give back in any order.
--
-- Bounds: `std::size_t` arithmetic is written with % 2 ^ 64 and a command size in a short with
-- % 2 ^ 16; the theorems state the lengths that they need. The loop of `Split` has fuel for two
-- rounds more than there are bytes, that of `ReplaceAll` for one more, and a decimal number fuel for
-- its 20 digits: the theorems show that the first two are enough, and a 64-bit number has no more
-- digits. The fuel of the loop that picks the events of a fortune is an argument: it is enough once a
-- different event is drawn. The theorem on `unreliable_decode` is for texts below 2 GB, whose size fits
-- an `int`, that on `NextWeatherTime` for times that fit one, and that on feedback for numbers that an
-- INT column holds.
--
-- Not modelled: logging but for the arguments that may throw, locks (a call under a mutex is one
-- step, and two steps never run at the same moment), the order in which started coroutines run, the network, the clients of the databases,
-- drawing, and the modules that only format the answers of web services.
pub mod Base
pub mod Trie
pub mod Json
pub mod Permission
pub mod Service
pub mod ServiceManager
pub mod Strings
pub mod Message
pub mod EventHandler
pub mod Api
pub mod ApiBot
pub mod Registrar
pub mod Html
pub mod Weather
pub mod Schedule
pub mod Weibo
pub mod Action
pub mod BotManage
pub mod Utility
pub mod Zhanbu
pub mod ConnPool
