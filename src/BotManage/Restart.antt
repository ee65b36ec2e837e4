-- ===== src/BotManage/Restart.antt =====
-- source/modules/module/botmanage/config.cpp: a black list over the life of a process, and the one
-- that `Init` reads in the next.
use migang_bot_cpp.Base.{
  ℕ, ◌≡◌, sym, ◌∙◌, ap, ◌⊎◌, inl, inr, Bool, true, false, ◌==◌, none, some, List, [], ◌∷◌, ◌++◌,
  Bytes, nat_beq, nat_beq_iff, nat_eq, lookup, lookup-insert, lookup-erase, lookup-insert_self,
  is_some, All, Bool-cases, Option-cases, arith, if◌then◌else◌,
}
use migang_bot_cpp.BotManage.{
  BlackList, map_emplace, load_from_table, update_rows, add_to_table, del_from_table,
  add_to_black_list, del_from_black_list, is_black, init,
}

-- A change of a black list, with the flag for its statements.
pub data Change : Type 0 where
  add : Bool → ℕ → Bytes → Change
  del : Bool → ℕ → Change

unfoldable pub change : Change → BlackList → BlackList
unfolding add_to_black_list del_from_black_list
change (Change.add works id reason) l = add_to_black_list works id reason l
change (Change.del works id) l = (del_from_black_list works id l).0

unfoldable pub change_all : List Change → BlackList → BlackList
unfolding change
change_all [] l = l
change_all (c ∷ cs) l = change_all cs (change c l)

-- The statements of a change of `x` succeed.
abbrev pub WorksFor : ℕ → Change → Type 0
WorksFor x (Change.add works id reason) = (works ≡ true) ⊎ (nat_beq id x ≡ false)
WorksFor x (Change.del works id) = (works ≡ true) ⊎ (nat_beq id x ≡ false)

-- Memory and table say the same of `x`.
abbrev pub AgreesOn : ℕ → BlackList → Type 0
AgreesOn x l = lookup x l.memory ≡ lookup x l.table

lookup-append_new :
    (x id : ℕ) (reason : Bytes) (rows : List (ℕ × Bytes))
    → lookup id rows ≡ none
    → lookup x (rows ++ (id, reason) ∷ []) ≡ (if id == x then some reason else lookup x rows)
unfolding lookup
lookup-append_new x id reason [] new = ground arith
lookup-append_new x id reason ((j, r) ∷ rows) new =
    ground (
      arith,
      nat_beq_iff j id,
      nat_beq_iff j x,
      nat_beq_iff id x,
      lookup-append_new x id reason rows,
    )

lookup-add_to_table :
    (x id : ℕ) (reason : Bytes) (rows : List (ℕ × Bytes))
    → lookup x (add_to_table true id reason rows).0
      ≡ (if id == x then some reason else lookup x rows)
unfolding add_to_table update_rows
lookup-add_to_table x id reason rows = elim (Option-cases (lookup id rows)) [
  | inl new ↦ rw new (lookup-append_new x id reason rows new)
  | inr (r, old) ↦ rw old (lookup-insert id x reason rows)
]

lookup-map_emplace :
    (x id : ℕ) (reason : Bytes) (m : List (ℕ × Bytes))
    → lookup x (map_emplace id reason m)
      ≡ (if is_some (lookup x m) then lookup x m else if id == x then some reason else none)
lookup-map_emplace x id reason m = elim (Option-cases (lookup id m)) [
  | inl new ↦
      rw new
        (ground (arith, lookup-insert id x reason m, nat_beq_iff id x, Option-cases (lookup x m)))
  | inr (r, old) ↦ rw old (ground (arith, nat_beq_iff id x, Option-cases (lookup x m)))
]

-- The rows of the table are added behind what the list has.
lookup-load_from_table :
    (x : ℕ) (rows m : List (ℕ × Bytes))
    → lookup x (load_from_table rows m)
      ≡ (if is_some (lookup x m) then lookup x m else lookup x rows)
unfolding load_from_table lookup
lookup-load_from_table x [] m = ground (arith, Option-cases (lookup x m))
lookup-load_from_table x ((id, reason) ∷ rows) m = ground (
  arith,
  lookup-load_from_table x rows (map_emplace id reason m),
  lookup-map_emplace x id reason m,
  Option-cases (lookup x m),
)

add-AgreesOn :
    (x id : ℕ) (works : Bool) (reason : Bytes) (l : BlackList)
    → (works ≡ true) ⊎ (nat_beq id x ≡ false)
    → AgreesOn x l
    → AgreesOn x (add_to_black_list works id reason l)
unfolding add_to_black_list
add-AgreesOn x id true reason l fine agrees =
    ground (arith, lookup-insert id x reason l.memory, lookup-add_to_table x id reason l.table)
add-AgreesOn x id false reason l fine agrees = ground (arith, lookup-insert id x reason l.memory)

del-AgreesOn :
    (x id : ℕ) (works : Bool) (l : BlackList)
    → (works ≡ true) ⊎ (nat_beq id x ≡ false)
    → AgreesOn x l
    → AgreesOn x (del_from_black_list works id l).0
unfolding del_from_black_list del_from_table
del-AgreesOn x id works l fine agrees = elim (Bool-cases works) [
  | inl good ↦ rw good (ground (arith, lookup-erase id x l.memory, lookup-erase id x l.table))
  | inr bad ↦ rw bad (ground (arith, lookup-erase id x l.memory))
]

change-AgreesOn :
    (x : ℕ) (c : Change) (l : BlackList) → WorksFor x c → AgreesOn x l → AgreesOn x (change c l)
unfolding change
change-AgreesOn x (Change.add works id reason) l fine agrees =
    add-AgreesOn x id works reason l fine agrees
change-AgreesOn x (Change.del works id) l fine agrees = del-AgreesOn x id works l fine agrees

change_all-AgreesOn :
    (x : ℕ) (cs : List Change) (l : BlackList)
    → All (WorksFor x) cs
    → AgreesOn x l
    → AgreesOn x (change_all cs l)
unfolding change_all
change_all-AgreesOn x [] l fine agrees = agrees
change_all-AgreesOn x (c ∷ cs) l (now, later) agrees =
    change_all-AgreesOn x cs (change c l) later (change-AgreesOn x c l now agrees)

-- A process that starts with `Init` and then makes any additions and removals, of which those of the
-- id `x` reach the table: the next process, after its `Init`, has the same entry for `x`, or has none
-- as well, and so the same answer of `IsBlackUser` or `IsBlackGroup`.
pub restart_keeps_black :
    (x : ℕ) (cs : List Change) (stored : BlackList)
    → All (WorksFor x) cs
    → let ended = change_all cs (init stored) in
      (lookup x (init ended).memory ≡ lookup x ended.memory)
      × (is_black x (init ended) ≡ is_black x ended)
unfolding init is_black lookup
restart_keeps_black x cs stored fine =
    let ended = change_all cs (init stored) in
    let first = lookup-load_from_table x stored.table [] in
    let agrees = change_all-AgreesOn x cs (init stored) fine first in
    let next = lookup-load_from_table x ended.table [] in
    (next ∙ sym agrees, ap is_some (next ∙ sym agrees))

-- An addition whose statements fail is answered as any other, and is forgotten by the next process
-- unless the table has the id from before.
pub add_to_black_list-forgotten :
    (x : ℕ) (reason : Bytes) (l : BlackList)
    → lookup x l.table ≡ none
    → (is_black x (add_to_black_list false x reason l) ≡ true)
      × (is_black x (init (add_to_black_list false x reason l)) ≡ false)
unfolding add_to_black_list add_to_table init is_black lookup
add_to_black_list-forgotten x reason l new = (
  ground (arith, lookup-insert_self x reason l.memory),
  ground (arith, lookup-load_from_table x l.table []),
)
