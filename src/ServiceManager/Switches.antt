-- ===== src/ServiceManager/Switches.antt =====
-- source/service/service_manager.h, `GroupEnable` and `GroupDisable`: their effect on every service.
use mathlib.Core.Path.{ap₂, fun_ext}
use migang_bot_cpp.Base.{
  ℕ, ◌≡◌, refl, sym, ◌∙◌, subst, ap, inl, inr, Bool, true, false, ◌&&◌, ◌||◌, List, [], ◌∷◌, Bytes,
  arith, nat_beq, nat_beq_iff, nat_eq, leb, all, member, Bool-cases,
}
use migang_bot_cpp.Trie.{Ref}
use migang_bot_cpp.Service.{Service, Disk, group_enable, group_disable}
use migang_bot_cpp.Service.Switch.{IsSwitched, Outcome, group_enable-Outcome, group_disable-Outcome}
use migang_bot_cpp.ServiceManager.{
  World, ServiceManager, update, equal_range, switch_all, group_enable_named, group_disable_named,
}

-- A service that is named and that the user may manage has been switched; any other is the same.
abbrev pub Effect : Bool → ℕ → Bool → Bool → Service → Service → Type 0
Effect on group named permitted s s' = elim (named && permitted) [
  | true ↦ IsSwitched on group s s'
  | false ↦ s' ≡ s
]

IsSwitched-trans :
    (on : Bool) (group : ℕ) (s t u : Service)
    → IsSwitched on group s t
    → IsSwitched on group t u
    → IsSwitched on group s u
IsSwitched-trans on group s t u p q = record {
  switched = q.switched;
  others = λ g ne. q.others g ne ∙ p.others g ne;
  same_name = q.same_name ∙ p.same_name;
  same_default = q.same_default ∙ p.same_default;
  same_manage = q.same_manage ∙ p.same_manage;
  same_use = q.same_use ∙ p.same_use;
  same_to_me = q.same_to_me ∙ p.same_to_me;
}

Effect-trans :
    (on : Bool) (group : ℕ) (first later permitted : Bool) (s t u : Service)
    → Effect on group first permitted s t
    → Effect on group later permitted t u
    → Effect on group (first || later) permitted s u
Effect-trans on group false false permitted s t u p q = q ∙ p
Effect-trans on group false true false s t u p q = q ∙ p
Effect-trans on group false true true s t u p q = subst (λ x. IsSwitched on group x u) p q
Effect-trans on group true false false s t u p q = q ∙ p
Effect-trans on group true false true s t u p q = subst (λ x. IsSwitched on group s x) (sym q) p
Effect-trans on group true true false s t u p q = q ∙ p
Effect-trans on group true true true s t u p q = IsSwitched-trans on group s t u p q

pub Effect-manage :
    (on : Bool) (group : ℕ) (named permitted : Bool) (s t : Service)
    → Effect on group named permitted s t
    → t.manage_permission ≡ s.manage_permission
Effect-manage on group true true s t p = p.same_manage
Effect-manage on group true false s t p = ap (λ x. x.manage_permission) p
Effect-manage on group false permitted s t p = ap (λ x. x.manage_permission) p

-- What the loops need of a call.
abbrev IsCall : Bool → (ℕ → ℕ → Service → Disk → Service × Disk × Bool) → Type 0
IsCall on call =
    (group permission : ℕ) (s : Service) (disk : Disk)
    → Outcome on group permission s disk (call group permission s disk)

module _ (on : Bool) (call : ℕ → ℕ → Service → Disk → Service × Disk × Bool)
    (is_call : IsCall on call) (group permission : ℕ) where
  abbrev permits : Service → Bool
  permits s = leb s.manage_permission permission

  call-Effect :
      (s : Service) (disk : Disk)
      → Effect on group true (permits s) s (call group permission s disk).0
        × ((call group permission s disk).2 ≡ permits s)
  call-Effect s disk = elim (is_call group permission s disk) [
    | inl (low, e) ↦ let refused : permits s ≡ false = ground arith in rw (refused, e) (refl, refl)
    | inr (high, returned, switched) ↦
        let allowed : permits s ≡ true = ground arith in rw allowed (switched, returned)
  ]

  update-Effect :
      (w : World) (r x : Ref)
      → Effect on group
          (nat_beq r x)
          (permits (w.heap x))
          (w.heap x)
          (update w.heap r (call group permission (w.heap r) w.disk).0 x)
  update-Effect w r x = elim (Bool-cases (nat_beq r x)) [
    | inl same ↦ rw same (
        subst
          (λ y.
            Effect on group true (permits (w.heap y)) (w.heap y)
              (call group permission (w.heap r) w.disk).0)
          ((nat_beq_iff r x).0 same) (call-Effect (w.heap r) w.disk).0)
    | inr other ↦ rw other refl
  ]

  abbrev after : World → Ref → World
  after w r = record {
    heap = update w.heap r (call group permission (w.heap r) w.disk).0;
    disk = (call group permission (w.heap r) w.disk).1;
  }

  permits-after : (w : World) (r x : Ref) → permits ((after w r).heap x) ≡ permits (w.heap x)
  permits-after w r x =
      ap (λ n. leb n permission)
        (Effect-manage on group (nat_beq r x) (permits (w.heap x)) (w.heap x) ((after w r).heap x)
          (update-Effect w r x))

  switch_all-Effect :
      (rs : List Ref) (w : World) (x : Ref)
      → Effect on group
          (member x rs)
          (permits (w.heap x))
          (w.heap x)
          ((switch_all call group permission rs w).0.heap x)
  unfolding switch_all member
  switch_all-Effect [] w x = refl
  switch_all-Effect (r ∷ rs) w x =
      let u = (switch_all call group permission rs (after w r)).0.heap x in
      Effect-trans on group (nat_beq r x) (member x rs) (permits (w.heap x)) (w.heap x)
        ((after w r).heap x) u (update-Effect w r x)
        (subst (λ b. Effect on group (member x rs) b ((after w r).heap x) u) (permits-after w r x)
          (switch_all-Effect rs (after w r) x))

  switch_all-ret :
      (rs : List Ref) (w : World)
      → (switch_all call group permission rs w).1 ≡ all (λ r. permits (w.heap r)) rs
  unfolding switch_all
  switch_all-ret [] w = refl
  switch_all-ret (r ∷ rs) w = ap₂ ◌&&◌ (call-Effect (w.heap r) w.disk).1 (
      switch_all-ret rs (after w r)
      ∙ ap (λ (p : Ref → Bool). all p rs) (fun_ext (permits-after w r)))

-- Whatever the user's permission, enabling a name turns the group's switch on in exactly the
-- services of that name that the user may manage and leaves every other service as it was; the
-- answer is true exactly if the user may manage all of them.
pub group_enable_named-Effect :
    (name : Bytes) (group permission : ℕ) (m : ServiceManager) (w : World)
    → let rs = equal_range name m.service_name_map in
      let (w', ret) = group_enable_named name group permission m w in
      ((x : Ref)
        → Effect true group
            (member x rs)
            (leb (w.heap x).manage_permission permission)
            (w.heap x)
            (w'.heap x))
      × (ret ≡ all (λ r. leb (w.heap r).manage_permission permission) rs)
unfolding group_enable_named
group_enable_named-Effect name group permission m w = (
  switch_all-Effect true group_enable group_enable-Outcome group permission _ w,
  switch_all-ret true group_enable group_enable-Outcome group permission _ w,
)

-- Likewise, disabling a name turns the group's switch off in exactly the services of that name that
-- the user may manage and leaves every other service as it was; the answer is true exactly if the
-- user may manage all of them.
pub group_disable_named-Effect :
    (name : Bytes) (group permission : ℕ) (m : ServiceManager) (w : World)
    → let rs = equal_range name m.service_name_map in
      let (w', ret) = group_disable_named name group permission m w in
      ((x : Ref)
        → Effect false group
            (member x rs)
            (leb (w.heap x).manage_permission permission)
            (w.heap x)
            (w'.heap x))
      × (ret ≡ all (λ r. leb (w.heap r).manage_permission permission) rs)
unfolding group_disable_named
group_disable_named-Effect name group permission m w = (
  switch_all-Effect false group_disable group_disable-Outcome group permission _ w,
  switch_all-ret false group_disable group_disable-Outcome group permission _ w,
)
