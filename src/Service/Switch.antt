-- ===== src/Service/Switch.antt =====
-- source/service/service.h, `GroupEnable` and `GroupDisable`: what they do to the switches.
use migang_bot_cpp.Base.{
  ℕ, ◌<◌, ◌≤◌, ◌≡◌, refl, ◌⊎◌, Bool, true, false, not, arith, nat_beq, nat_eq, member,
  member-remove,
}
use migang_bot_cpp.Service.{
  Service, Disk, forget_group, note_group, group_enable, group_disable, group_status,
}

-- What a permitted call leaves: the group's switch is `on`, every other is as it was, and no other
-- field than the set and its saved copy has changed.
pub record IsSwitched (on : Bool) (group : ℕ) (s s' : Service) : Type 0 where
  pub switched : group_status group s' ≡ on
  pub others : (g : ℕ) → nat_beq group g ≡ false → group_status g s' ≡ group_status g s
  pub same_name : s'.service_name ≡ s.service_name
  pub same_default : s'.enable_on_default ≡ s.enable_on_default
  pub same_manage : s'.manage_permission ≡ s.manage_permission
  pub same_use : s'.use_permission ≡ s.use_permission
  pub same_to_me : s'.only_to_me ≡ s.only_to_me

forget_group-IsSwitched :
    (on : Bool) (group : ℕ) (s : Service) (disk : Disk)
    → s.enable_on_default ≡ on
    → IsSwitched on group s (forget_group group s disk).0
unfolding forget_group group_status
forget_group-IsSwitched on group s disk e = record {
  switched = ground (arith, member-remove group group s.groups);
  others = λ g ne. ground (arith, member-remove group g s.groups);
  same_name = refl;
  same_default = refl;
  same_manage = refl;
  same_use = refl;
  same_to_me = refl;
}

note_group-IsSwitched :
    (on : Bool) (group : ℕ) (s : Service) (disk : Disk)
    → not s.enable_on_default ≡ on
    → IsSwitched on group s (note_group group s disk).0
unfolding note_group group_status member
note_group-IsSwitched on group s disk e = record {
  switched = ground arith;
  others = λ g ne. ground arith;
  same_name = ground arith;
  same_default = ground arith;
  same_manage = ground arith;
  same_use = ground arith;
  same_to_me = ground arith;
}

-- The outcome of either call.
abbrev pub Outcome : Bool → ℕ → ℕ → Service → Disk → Service × Disk × Bool → Type 0
Outcome on group permission s disk r =
    ((permission < s.manage_permission) × (r ≡ (s, disk, false)))
    ⊎ ((s.manage_permission ≤ permission) × (r.2 ≡ true) × IsSwitched on group s r.0)

-- `GroupEnable` is refused, with nothing changed, exactly when the permission is below the one for
-- managing the service; otherwise it answers true, the group's switch is on, every other group's
-- switch is as it was, and only the set of groups and its saved copy have changed.
pub group_enable-Outcome :
    (group permission : ℕ) (s : Service) (disk : Disk)
    → Outcome true group permission s disk (group_enable group permission s disk)
unfolding group_enable
group_enable-Outcome group permission s disk =
    ground
      (arith, forget_group-IsSwitched true group s disk, note_group-IsSwitched true group s disk)

-- `GroupDisable` is refused, with nothing changed, exactly when the permission is below the one for
-- managing the service; otherwise it answers true, the group's switch is off, every other group's
-- switch is as it was, and only the set of groups and its saved copy have changed.
pub group_disable-Outcome :
    (group permission : ℕ) (s : Service) (disk : Disk)
    → Outcome false group permission s disk (group_disable group permission s disk)
unfolding group_disable
group_disable-Outcome group permission s disk =
    ground
      (arith, forget_group-IsSwitched false group s disk, note_group-IsSwitched false group s disk)
