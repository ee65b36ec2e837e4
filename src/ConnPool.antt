-- ===== src/ConnPool.antt =====
-- source/db/db_conn/conn_pool.h and orm_pool.h: a pool of connections that threads take and give back.
-- A connection is its place in `pool_`, where `reserve` keeps it. The queue of tbb is a list: `pop`
-- blocks while it is empty.
pub mod Holders
mod Tests
use migang_bot_cpp.Base.{
  ℕ, zero, suc, ◌+◌, Bool, true, false, Option, none, some, List, [], ◌∷◌, ◌++◌, nat_eq, lookup,
  insert, is_some, if◌then◌else◌,
}

pub record ConnPool : Type 0 where
  pub pool : ℕ
  pub conn_id_queue : List ℕ
  pub conn_to_id : List (ℕ × ℕ)

-- `Get`; `none` while it blocks.
unfoldable pub get : ConnPool → Option (ConnPool × ℕ)
get p = elim p.conn_id_queue [ [] ↦ none | id ∷ ids ↦ some (record p { conn_id_queue = ids }, id) ]

-- `Free`: `conn_to_id_[&conn]` makes an entry with the number 0 where there is none.
unfoldable pub free : ℕ → ConnPool → ConnPool
free conn p = elim (lookup conn p.conn_to_id) [
  | some id ↦ record p { conn_id_queue = p.conn_id_queue ++ id ∷ [] }
  | none ↦ record p {
    conn_id_queue = p.conn_id_queue ++ 0 ∷ [];
    conn_to_id = insert conn 0 p.conn_to_id;
  }
]

-- The i-th connection of `OrmPool::Init`.
unfoldable pub add_connection : ℕ → ConnPool → ConnPool
add_connection i p = record {
  pool = p.pool + 1;
  conn_id_queue = p.conn_id_queue ++ i ∷ [];
  conn_to_id = if is_some (lookup i p.conn_to_id) then p.conn_to_id else insert i i p.conn_to_id;
}

-- The loop of `OrmPool::Init` from i; `connects` says which connections are made. The process ends,
-- `none`, with one that is not.
unfoldable pub init_from : (ℕ → Bool) → ℕ → ℕ → ConnPool → Option ConnPool
unfolding add_connection
init_from connects zero i p = some p
init_from connects (suc left) i p =
    let rest = init_from connects left (i + 1) (add_connection i p) in
    if connects i then rest else none

-- `OrmPool::Init` on the new pool.
unfoldable pub init : (ℕ → Bool) → ℕ → Option ConnPool
unfolding init_from
init connects connection_num =
    init_from connects connection_num 0 (record { pool = 0; conn_id_queue = []; conn_to_id = [] })
