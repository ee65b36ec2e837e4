-- ===== src/EventHandler/Notices.antt =====
-- source/event/event_handler.h: notices and requests, from registration to dispatch.
use migang_bot_cpp.Base.{
  ℕ, ◌≡◌, refl, ap, sym, append-nil, Bool, true, false, ◌&&◌, some, List, [], ◌∷◌, ◌++◌, map,
  String, Bytes, bytes_eq, bytes_beq, bytes_beq_iff, arith, retain, is_empty, lookup, insert,
  lookup-insert, if◌then◌else◌, Bool-cases, inl, inr, ok,
}
use migang_bot_cpp.Json.{JsonLib, value_string}
use migang_bot_cpp.Service.{Service, check_is_enable}
use migang_bot_cpp.Trie.{Ref}
use migang_bot_cpp.EventHandler.{RegexLib, EventHandler, Handlers, Heap, Run}
use migang_bot_cpp.EventHandler.Register.{push_handler, or_new}
use migang_bot_cpp.EventHandler.Dispatch.{handlers_for, gated_runs, handle_notice, handle_request}

-- A registration adds the service behind those of its type and sub type, and changes no other list.
pub handlers_for-push_handler :
    (lib : JsonLib) (engine : RegexLib) (type sub_type other_type other_sub : Bytes) (service : Ref)
    (m : Handlers engine)
    → handlers_for lib engine other_type other_sub (push_handler engine type sub_type service m) ≡ (
        if bytes_beq type other_type && bytes_beq sub_type other_sub
        then handlers_for lib engine other_type other_sub m ++ service ∷ []
        else handlers_for lib engine other_type other_sub m)
unfolding handlers_for push_handler lookup
handlers_for-push_handler lib engine type sub_type other_type other_sub service m =
    let subs = or_new (lookup type m) in
    let services = or_new (lookup sub_type subs) ++ service ∷ [] in
    ground (
      arith,
      lookup-insert type other_type (insert sub_type services subs) m,
      lookup-insert sub_type other_sub services subs,
      bytes_beq_iff type other_type,
      bytes_beq_iff sub_type other_sub,
    )

module _ (lib : JsonLib) (engine : RegexLib) (heap : Heap) where
  open lib use {Json, contains, is_object, at, get_number, get_string}

  -- The services start in their order, those that are disabled for the event's group left out.
  abbrev pub started : (Service → Bool) → Json → List Ref → List (Run lib)
  started enabled event services = map (λ s. (s, event)) (retain (λ s. enabled (heap s)) services)

  -- The test of an event: the group's switch, or none outside groups.
  pub record IsGate (event : Json) (enabled : Service → Bool) : Type 0 where
    pub in_group :
        contains event "group_id" ≡ true
        → (group : ℕ) × (get_number (at event "group_id") ≡ some group)
          × ((s : Service) → enabled s ≡ check_is_enable group s)
    pub outside : contains event "group_id" ≡ false → (s : Service) → enabled s ≡ true

  gated_runs_lem :
      (event : Json) (enabled : Service → Bool) (services : List Ref)
      → IsGate event enabled
      → gated_runs lib engine heap event services ≡ ok (started enabled event services)
  unfolding gated_runs
  gated_runs_lem event enabled [] gate = refl
  gated_runs_lem event enabled (s ∷ ss) gate = elim (Bool-cases (contains event "group_id")) [
    | inl has ↦
        let (group, known, same) = gate.in_group has in
        ground (arith, same (heap s), gated_runs_lem event enabled ss gate)
    | inr out ↦ ground (arith, gate.outside out (heap s), gated_runs_lem event enabled ss gate)
  ]

  -- `event.value(key, "")` reads this text.
  abbrev pub HasValue : Json → String → Bytes → Type 0
  HasValue event key text = value_string lib event key [] ≡ ok text

  -- A notice starts, in order, the enabled services registered for its type and sub type, and then,
  -- if it has a sub type, those registered for its type and the empty sub type.
  pub handle_notice_lem :
      (h : EventHandler engine) (event : Json) (type sub_type : Bytes) (self_id : ℕ)
      (enabled : Service → Bool)
      → HasValue event "notice_type" type
      → HasValue event "sub_type" sub_type
      → get_number (at event "self_id") ≡ some self_id
      → IsGate event enabled
      → let exact = handlers_for lib engine type sub_type h.notice_handler in
        let general = handlers_for lib engine type [] h.notice_handler in
        handle_notice lib engine heap h event
        ≡ ok (
            started enabled event exact
            ++ (if is_empty sub_type then [] else started enabled event general))
  unfolding handle_notice
  handle_notice_lem h event type sub_type self_id enabled t u known gate =
      let exact = handlers_for lib engine type sub_type h.notice_handler in
      let general = handlers_for lib engine type [] h.notice_handler in
      rw (t, u, known)
        (rw (gated_runs_lem event enabled exact gate, gated_runs_lem event enabled general gate)
          (elim (Bool-cases (is_empty sub_type)) [
            | inl no_sub ↦ rw no_sub (ap ok (sym (append-nil (started enabled event exact))))
            | inr given ↦ rw given refl
          ]))

  -- A request starts, in order, the enabled services registered for its type and sub type, and no
  -- others: unlike a notice it has no general handlers.
  pub handle_request_lem :
      (h : EventHandler engine) (event : Json) (type sub_type : Bytes) (self_id : ℕ)
      (enabled : Service → Bool)
      → HasValue event "request_type" type
      → HasValue event "sub_type" sub_type
      → get_number (at event "self_id") ≡ some self_id
      → IsGate event enabled
      → handle_request lib engine heap h event
        ≡ ok (started enabled event (handlers_for lib engine type sub_type h.request_handler))
  unfolding handle_request
  handle_request_lem h event type sub_type self_id enabled t u known gate =
      rw (t, u, known)
        (gated_runs_lem event enabled (handlers_for lib engine type sub_type h.request_handler)
          gate)
