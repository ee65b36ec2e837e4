-- ===== src/BotManage/Refusals.antt =====
-- source/modules/module/botmanage: when an invitation is answered, and how.
use migang_bot_cpp.Base.{
  ℕ, ◌+◌, ◌≡◌, refl, ◌∙◌, ◌⊎◌, inl, inr, Bool, true, false, ◌&&◌, not, ◌||◌, some, List, [], ◌∷◌,
  ◌++◌, append_assoc, Bytes, codes, bytes_beq, All, ok, all, Bool-cases,
}
use migang_bot_cpp.Json.{JsonLib}
use migang_bot_cpp.Permission.{BotConfig}
use migang_bot_cpp.Api.Groups as Groups
use migang_bot_cpp.ApiBot.{ApiBot, UserInfo}
use migang_bot_cpp.ApiBot.Calls as Calls
use migang_bot_cpp.Action.{Action, perform, perform_all}
use migang_bot_cpp.Action.Frames.{
  is_plain, is_request_answer, SendsNoAnswer, perform_all-plain, tell-plain,
}
use migang_bot_cpp.BotManage.{Manage, is_black}
use migang_bot_cpp.BotManage.Invite.{GroupInvite, handle_group_invite, handle_friend_invite}

-- What the group invitation is answered with: approval only with the flag set and neither the
-- user nor the group on a black list.
abbrev pub accepts : Manage → ℕ → ℕ → Bool
accepts m user group =
    m.add_group_flag && not (is_black user m.qid_blacklist || is_black group m.gid_blacklist)

module _ (lib : JsonLib) where
  open lib use {Json, at, get_string, get_number}

  -- An event that asks the bot to join `group`, sent by `user`; `flag` is the request's own mark.
  pub record IsGroupInvite (event : Json) (user group : ℕ) (flag : Bytes) : Type 0 where
    pub from_user : get_number (at event "user_id") ≡ some user
    pub to_group : get_number (at event "group_id") ≡ some group
    pub marked : get_string (at event "flag") ≡ some flag
    pub is_group : get_string (at event "request_type") ≡ some (codes "group")
    pub is_invite : get_string (at event "sub_type") ≡ some (codes "invite")

  -- The frames of a handler that answers the request once, first of all.
  abbrev pub AnswersWith : Json → ApiBot lib → ApiBot lib → Type 0
  AnswersWith answer b b' =
      (frames : List Json) × (b'.sent ≡ b.sent ++ answer ∷ frames)
      × (All (λ f. is_request_answer lib f ≡ false) frames)

  -- A call that answers, and calls that do not.
  answer_then_plain :
      (event : Json) (number : ℕ → ℕ) (answer : Json) (first : Action) (actions : List Action)
      (b : ApiBot lib)
      → perform lib event first (number 0) b ≡ ok (Calls.send_raw lib answer b)
      → all is_plain actions ≡ true
      → (b' : ApiBot lib) × (perform_all lib event number 0 (first ∷ actions) b ≡ ok b')
        × AnswersWith answer b b'
  unfolding perform_all Calls.send_raw
  answer_then_plain event number answer first actions b now plain =
      let (b', later, (frames, sent, others)) =
        perform_all-plain lib event number (0 + 1) actions (Calls.send_raw lib answer b) plain in
      (b', rw now later, (frames, sent ∙ append_assoc b.sent _ frames, others))

  perform-reject :
      (event : Json) (user group : ℕ) (flag reason : Bytes) (code : ℕ) (b : ApiBot lib)
      → IsGroupInvite event user group flag
      → perform lib event (Action.reject reason) code b
        ≡ ok (
            Calls.send_raw lib
              (Groups.set_group_add_request lib flag (codes "invite") reason false)
              b)
  unfolding perform Calls.reject Calls.handle_add_request bytes_beq
  perform-reject event user group flag reason code b e =
      rw e.marked (rw e.is_group (rw e.is_invite refl))

  perform-approve :
      (event : Json) (user group : ℕ) (flag : Bytes) (code : ℕ) (b : ApiBot lib)
      → IsGroupInvite event user group flag
      → perform lib event Action.approve code b
        ≡ ok (Calls.send_raw lib (Groups.set_group_add_request lib flag (codes "invite") [] true) b)
  unfolding perform Calls.approve Calls.handle_add_request bytes_beq
  perform-approve event user group flag code b e = rw e.marked (rw e.is_group (rw e.is_invite refl))

  -- A group invitation that `Handle_group_invite` handles is answered by exactly one frame, its
  -- first, and no later frame answers a request; the answer approves exactly if inviting is allowed
  -- and neither the inviter nor the group is on a black list.
  pub handle_group_invite_lem :
      (now : ℕ → Bytes) (config : BotConfig) (self : GroupInvite) (m : Manage) (info : UserInfo)
      (event : Json) (user group : ℕ) (flag : Bytes) (number : ℕ → ℕ) (b : ApiBot lib)
      → IsGroupInvite event user group flag
      → (reason : Bytes) × (actions : List Action) × (b' : ApiBot lib) × (handle_group_invite lib
            now config self m info event
          ≡ ok actions)
        × (perform_all lib event number 0 actions b ≡ ok b')
        × AnswersWith
            (Groups.set_group_add_request lib flag (codes "invite") reason (accepts m user group))
            b
            b'
  unfolding handle_group_invite
  handle_group_invite_lem now config self m info event user group flag number b e = rw e.from_user (
      rw e.to_group (elim (Bool-cases m.add_group_flag) [
        | inr off ↦
            (let (b', done, answered) =
                answer_then_plain event number _ _ _ b
                  (perform-reject event user group flag self.reason (number 0) b e)
                  (tell-plain config.superusers _) in
              rw off (self.reason, _, b', refl, done, answered))
        | inl on ↦
            elim (Bool-cases (is_black user m.qid_blacklist || is_black group m.gid_blacklist)) [
              | inl bad ↦
                  (let (b', done, answered) =
                      answer_then_plain event number _ _ _ b
                        (perform-reject event user group flag _ (number 0) b e)
                        (tell-plain config.superusers _) in
                    rw (on, bad) (_, _, b', refl, done, answered))
              | inr good ↦
                  (let (b', done, answered) =
                      answer_then_plain event number _ _ _ b
                        (perform-approve event user group flag (number 0) b e)
                        (tell-plain config.superusers _) in
                    rw (on, good) ([], _, b', refl, done, answered))
            ]
      ]))

  -- An event that asks the bot to be a friend of `user`.
  pub record IsFriendInvite (event : Json) (user : ℕ) (flag : Bytes) : Type 0 where
    pub from_user : get_number (at event "user_id") ≡ some user
    pub marked : get_string (at event "flag") ≡ some flag
    pub is_friend : get_string (at event "request_type") ≡ some (codes "friend")

  perform-reject_friend :
      (event : Json) (user : ℕ) (flag reason : Bytes) (code : ℕ) (b : ApiBot lib)
      → IsFriendInvite event user flag
      → perform lib event (Action.reject reason) code b
        ≡ ok (Calls.send_raw lib (Groups.set_friend_add_request lib flag false) b)
  unfolding perform Calls.reject Calls.handle_add_request bytes_beq
  perform-reject_friend event user flag reason code b e = rw e.marked (rw e.is_friend refl)

  perform-approve_friend :
      (event : Json) (user : ℕ) (flag : Bytes) (code : ℕ) (b : ApiBot lib)
      → IsFriendInvite event user flag
      → perform lib event Action.approve code b
        ≡ ok (Calls.send_raw lib (Groups.set_friend_add_request lib flag true) b)
  unfolding perform Calls.approve Calls.handle_add_request bytes_beq
  perform-approve_friend event user flag code b e = rw e.marked (rw e.is_friend refl)

  -- What becomes of the request of a friend.
  abbrev pub FriendOutcome : Manage → ℕ → Bytes → ApiBot lib → ApiBot lib → Type 0
  FriendOutcome m user flag b b' =
      ((m.add_friend_flag ≡ false)
        × AnswersWith (Groups.set_friend_add_request lib flag false) b b')
      ⊎ ((m.add_friend_flag ≡ true)
          × (is_black user m.qid_blacklist ≡ false)
          × AnswersWith (Groups.set_friend_add_request lib flag true) b b')
      ⊎ ((m.add_friend_flag ≡ true)
          × (is_black user m.qid_blacklist ≡ true)
          × SendsNoAnswer lib b b')

  -- `Handle_friend_invite` answers a request by its first frame: it refuses if friends are not
  -- accepted, and approves if they are and the user is not on the black list. A user on the black
  -- list, while friends are accepted, gets no answer: no frame of the handler answers a request.
  pub handle_friend_invite_lem :
      (now : ℕ → Bytes) (config : BotConfig) (m : Manage) (info : UserInfo) (event : Json)
      (user : ℕ) (flag : Bytes) (number : ℕ → ℕ) (b : ApiBot lib)
      → IsFriendInvite event user flag
      → (actions : List Action) × (b' : ApiBot lib) × (handle_friend_invite lib now config m info
            event
          ≡ ok actions)
        × (perform_all lib event number 0 actions b ≡ ok b')
        × FriendOutcome m user flag b b'
  unfolding handle_friend_invite
  handle_friend_invite_lem now config m info event user flag number b e =
      rw e.from_user (elim (Bool-cases m.add_friend_flag) [
        | inr off ↦
            (let (b', done, answered) =
                answer_then_plain event number _ _ _ b
                  (perform-reject_friend event user flag _ (number 0) b e)
                  (tell-plain config.superusers _) in
              rw off (_, b', refl, done, inl (refl, answered)))
        | inl on ↦ elim (Bool-cases (is_black user m.qid_blacklist)) [
          | inl bad ↦
              (let (b', done, answered) =
                  perform_all-plain lib event number 0 _ b (tell-plain config.superusers _) in
                rw (on, bad) (_, b', refl, done, inr (inr (refl, refl, answered))))
          | inr good ↦
              (let (b', done, answered) =
                  answer_then_plain event number _ _ _ b
                    (perform-approve_friend event user flag (number 0) b e)
                    (tell-plain config.superusers _) in
                rw (on, good) (_, b', refl, done, inr (inl (refl, refl, answered))))
        ]
      ])
