-- ===== src/Action.antt =====
-- What the handler of a module does with its `ApiBot`, as a value: the calls that it makes, in order,
-- and `co::sleep`. `perform` makes a call with the functions of ApiBot.Calls. A coroutine that takes
-- an answer (`.get()`) is given it as an argument. A call that throws ends the handler: the calls
-- behind it are not made.
pub mod Frames
use migang_bot_cpp.Base.{
  ℕ, ◌+◌, ◌≡◌, refl, Bool, false, List, [], ◌∷◌, ◌++◌, map, Bytes, Result, ok, ◌>>=◌, >>=-eq-ok,
}
use migang_bot_cpp.Json.{JsonLib}
use migang_bot_cpp.ApiBot.{ApiBot}
use migang_bot_cpp.ApiBot.Calls as Calls

pub data Action : Type 0 where
  -- the text, `at_sender`, `auto_escape`
  send : Bytes → Bool → Bool → Action
  send_private_msg : ℕ → Bytes → Action
  send_group_msg : ℕ → Bytes → Action
  reject : Bytes → Action
  approve : Action
  set_group_leave : ℕ → Action
  get_stranger_info : ℕ → Action
  get_group_info : ℕ → Action
  get_group_list : Action
  get_group_member_info : ℕ → ℕ → Action
  sleep : ℕ → Action

-- The loop `for (auto white : config::SUPERUSERS) bot.send_private_msg(white, message);`, where the
-- message may hold the time at which it is made.
unfoldable pub tell : List ℕ → (ℕ → Bytes) → List Action
tell whites message = map (λ user. Action.send_private_msg user (message user)) whites

module _ (lib : JsonLib) (event : lib.Json) where
  -- One call, with the code of its answer.
  unfoldable pub perform : Action → ℕ → ApiBot lib → Result (ApiBot lib)
  perform (Action.send message at_sender auto_escape) code b =
      Calls.send lib code event message at_sender auto_escape b >>= λ r. ok r.0
  perform (Action.send_private_msg user message) code b =
      ok (Calls.send_private_msg lib code user message false b).0
  perform (Action.send_group_msg group message) code b =
      ok (Calls.send_group_msg lib code group message false b).0
  perform (Action.reject reason) code b = Calls.reject lib event reason b
  perform Action.approve code b = Calls.approve lib event b
  perform (Action.set_group_leave group) code b = ok (Calls.set_group_leave lib group false b)
  perform (Action.get_stranger_info user) code b =
      ok (Calls.get_stranger_info lib code user false b).0
  perform (Action.get_group_info group) code b = ok (Calls.get_group_info lib code group false b).0
  perform Action.get_group_list code b = ok (Calls.get_group_list lib code false b).0
  perform (Action.get_group_member_info group user) code b =
      ok (Calls.get_group_member_info lib code group user false b).0
  perform (Action.sleep ms) code b = ok b

  -- All calls of a handler, with the code of the call at each place.
  unfoldable pub perform_all : (ℕ → ℕ) → ℕ → List Action → ApiBot lib → Result (ApiBot lib)
  unfolding perform
  perform_all codes i [] b = ok b
  perform_all codes i (a ∷ rest) b = do
    b' ← perform a (codes i) b
    perform_all codes (i + 1) rest b'
