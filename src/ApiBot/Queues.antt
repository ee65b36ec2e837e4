-- ===== src/ApiBot/Queues.antt =====
-- source/bot/onebot_11/api_bot.h: who has a queue in the tables of the sessions, and who a mutex.
use migang_bot_cpp.Base.{
  ℕ, ◌≡◌, refl, sym, ◌∙◌, Bool, true, false, ◌&&◌, ◌||◌, List, nat_eq, nat_beq, nat_beq_iff, lookup,
  insert, erase, member, emplace, is_some, is_empty, lookup-insert, lookup-erase, member-emplace,
  Bool-cases, inl, inr, arith, subst,
}
use migang_bot_cpp.ApiBot.{GroupQueues}
use migang_bot_cpp.ApiBot.Sessions.{or_empty, put_group, put_left}

-- Who has a queue, and who a mutex.
abbrev pub has_queue : ℕ → ℕ → GroupQueues → Bool
has_queue group user m = is_some (lookup user (or_empty (lookup group m)))

abbrev pub has_mutex : ℕ → ℕ → List (ℕ × List ℕ) → Bool
has_mutex group user m = member user (or_empty (lookup group m))

abbrev pub is_pair : ℕ → ℕ → ℕ → ℕ → Bool
is_pair group user g u = nat_beq group g && nat_beq user u

pub has_queue-put :
    (group user g u : ℕ) (queue : List ℕ) (m : GroupQueues)
    → has_queue g u (put_group group user queue m) ≡ (is_pair group user g u || has_queue g u m)
has_queue-put group user g u queue m = ground (
  arith,
  nat_beq_iff group g,
  lookup-insert group g (insert user queue (or_empty (lookup group m))) m,
  lookup-insert user u queue (or_empty (lookup group m)),
)

pub has_mutex-put :
    (group user g u : ℕ) (m : List (ℕ × List ℕ))
    → has_mutex g u (insert group (emplace user (or_empty (lookup group m))) m)
      ≡ (is_pair group user g u || has_mutex g u m)
has_mutex-put group user g u m = ground (
  arith,
  nat_beq_iff group g,
  lookup-insert group g (emplace user (or_empty (lookup group m))) m,
  member-emplace user u (or_empty (lookup group m)),
)

has_queue-erase_group :
    (group g u : ℕ) (m : GroupQueues)
    → has_queue g u (erase group m) ≡ true
    → has_queue g u m ≡ true
unfolding lookup
has_queue-erase_group group g u m queued = ground (arith, lookup-erase group g m, queued)

has_queue-erase_user :
    (group user g u : ℕ) (m : GroupQueues)
    → has_queue g u (insert group (erase user (or_empty (lookup group m))) m) ≡ true
    → has_queue g u m ≡ true
has_queue-erase_user group user g u m queued = ground (
  arith,
  nat_beq_iff group g,
  lookup-insert group g (erase user (or_empty (lookup group m))) m,
  lookup-erase user u (or_empty (lookup group m)),
  queued,
)

pub or_right : (p : Bool) {q : Bool} → q ≡ true → p || q ≡ true
or_right true right = refl
or_right false right = right

-- Taking from a queue makes none for anybody else.
pub has_queue-left :
    (group user g u : ℕ) (left : List ℕ) (m : GroupQueues)
    → has_queue g u (put_left group user left m) ≡ true
    → is_pair group user g u || has_queue g u m ≡ true
unfolding put_left
has_queue-left group user g u left m queued = elim (Bool-cases (is_empty left)) [
  | inr more ↦
      sym (has_queue-put group user g u left m)
      ∙ subst (λ q. has_queue g u q ≡ true) (rw more refl) queued
  | inl none_left ↦ elim (Bool-cases (is_empty (erase user (or_empty (lookup group m))))) [
    | inl nobody ↦ or_right _ (
        has_queue-erase_group group g u m
          (subst (λ q. has_queue g u q ≡ true) (rw none_left (rw nobody refl)) queued))
    | inr others ↦ or_right _ (
        has_queue-erase_user group user g u m
          (subst (λ q. has_queue g u q ≡ true) (rw none_left (rw others refl)) queued))
  ]
]

pub is_some-insert :
    (k u : ℕ) (queue : List ℕ) (m : List (ℕ × List ℕ))
    → is_some (lookup u (insert k queue m)) ≡ (nat_beq k u || is_some (lookup u m))
is_some-insert k u queue m = ground (arith, lookup-insert k u queue m)

-- A new queue of somebody comes with the mutex.
pub with_mutex :
    (pair queued queued' mutex mutex' : Bool)
    → queued' ≡ (pair || queued)
    → mutex' ≡ (pair || mutex)
    → (queued ≡ true → mutex ≡ true)
    → queued' ≡ true
    → mutex' ≡ true
with_mutex true queued queued' mutex mutex' q m safe now = m
with_mutex false queued queued' mutex mutex' q m safe now = m ∙ safe (sym q ∙ now)

same_pair : (group user g u : ℕ) → is_pair group user g u ≡ true → (group ≡ g) × (user ≡ u)
same_pair group user g u same = (
  ground (arith, nat_beq_iff group g, same),
  ground (arith, nat_beq_iff user u, nat_beq_iff group g, same),
)

pub covered_by :
    (group user g u : ℕ) (queues : GroupQueues) (mutexes : List (ℕ × List ℕ))
    → has_mutex group user mutexes ≡ true
    → (has_queue g u queues ≡ true → has_mutex g u mutexes ≡ true)
    → is_pair group user g u || has_queue g u queues ≡ true
    → has_mutex g u mutexes ≡ true
covered_by group user g u queues mutexes known safe queued =
    elim (Bool-cases (is_pair group user g u)) [
      | inl same ↦
          (let (of_group, of_user) = same_pair group user g u same in
            subst (λ x. has_mutex g x mutexes ≡ true) of_user
              (subst (λ x. has_mutex x user mutexes ≡ true) of_group known))
      | inr other ↦ safe (subst (λ x. x || has_queue g u queues ≡ true) other queued)
    ]
