-- ===== src/ConnPool/Tests.antt =====
-- source/db/db_conn: a pool of two connections, of which both were taken and one given back.
use migang_bot_cpp.Base.{
  ℕ, ◌<◌, ◌≡◌, refl, ◌⊎◌, true, none, some, List, [], ◌∷◌, length, nat_eq, arith, lookup, insert,
}
use migang_bot_cpp.ConnPool.{ConnPool, get, free, init}
use migang_bot_cpp.ConnPool.Holders.{count, remove, Reachable, starts, takes, gives_back, get_lem}

abbrev entries : List (ℕ × ℕ)
entries = (0, 0) ∷ (1, 1) ∷ []

abbrev pool_of : List ℕ → ConnPool
pool_of queue = record { pool = 2; conn_id_queue = queue; conn_to_id = entries }

given_back : Reachable (λ i. true) 2 (pool_of (0 ∷ [])) (1 ∷ [])
unfolding init get free lookup insert count remove
given_back =
    gives_back (pool_of []) 0 (1 ∷ 0 ∷ [])
      (takes (pool_of (1 ∷ [])) (pool_of []) 1 (0 ∷ [])
        (takes (pool_of (0 ∷ 1 ∷ [])) (pool_of (1 ∷ [])) 0 [] (starts (pool_of (0 ∷ 1 ∷ [])) refl)
          refl)
        refl)
      (omega arith)

get_lem_example :
    ((length {A = ℕ} (1 ∷ []) ≡ 2) × (get (pool_of (0 ∷ [])) ≡ none))
    ⊎ ((p' : ConnPool) × (conn : ℕ) × (get (pool_of (0 ∷ [])) ≡ some (p', conn))
        × (conn < 2)
        × (count conn (1 ∷ []) ≡ 0))
get_lem_example = get_lem (λ i. true) 2 (pool_of (0 ∷ [])) (1 ∷ []) given_back
