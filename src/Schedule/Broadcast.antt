-- ===== src/Schedule/Broadcast.antt =====
-- source/service/schedule_service.h, `GetEnableGroup`: to which groups a message is sent.
use migang_bot_cpp.Base.{
  ℕ, ◌≡◌, refl, Bool, ◌&&◌, ◌||◌, not, List, [], ◌∷◌, arith, nat_beq, nat_beq_iff, nat_eq, any,
  member,
}
use migang_bot_cpp.Service.{Service, group_status}
use migang_bot_cpp.ApiBot.{GroupInfo}
use migang_bot_cpp.Schedule.{transform_if, get_enable_group}

-- The bot is in the group.
abbrev pub is_known : ℕ → List GroupInfo → Bool
is_known g infos = any (λ info. nat_beq info.group_id g) infos

member-transform_if :
    (g : ℕ) (groups : List ℕ) (infos : List GroupInfo)
    → member g (transform_if groups infos) ≡ (is_known g infos && not (member g groups))
unfolding transform_if member
member-transform_if g groups [] = refl
member-transform_if g groups (info ∷ infos) =
    ground (arith, member-transform_if g groups infos, nat_beq_iff info.group_id g)

-- A message goes exactly to the groups whose switch is on; of these, if the switch is on by default,
-- to those that the bot's list of groups names.
pub member-get_enable_group :
    (g : ℕ) (infos : List GroupInfo) (s : Service)
    → member g (get_enable_group infos s)
      ≡ (group_status g s && (not s.enable_on_default || is_known g infos))
unfolding get_enable_group group_status
member-get_enable_group g infos s = ground (arith, member-transform_if g s.groups infos)
