-- ===== src/ConnPool/Holders.antt =====
-- source/db/db_conn/conn_pool.h: threads that take connections and give them back, in any order.
use migang_bot_cpp.Base.{
  ℕ, zero, suc, ◌+◌, ◌<◌, ◌≡◌, refl, ◌∙◌, ◌⊎◌, inl, inr, Bool, true, false, Option, none, some,
  List, [], ◌∷◌, ◌++◌, nat_eq, nat_beq, nat_beq_iff, ltb, lookup, lookup-insert, if◌then◌else◌,
  subst, arith, length, Bool-cases,
}
use migang_bot_cpp.ConnPool.{ConnPool, get, free, add_connection, init_from, init}

abbrev bit : Bool → ℕ
bit true = 1
bit false = 0

-- How often a number stands in a list.
unfoldable pub count : ℕ → List ℕ → ℕ
count x [] = 0
count x (y ∷ ys) = bit (nat_beq x y) + count x ys

-- The list without the first x.
unfoldable pub remove : ℕ → List ℕ → List ℕ
remove x [] = []
remove x (y ∷ ys) = let rest = remove x ys in if nat_beq x y then ys else y ∷ rest

-- The states of the pool with the connections that are held: threads begin with what `Init` makes,
-- take, and give back what they have.
pub data Reachable (connects : ℕ → Bool) (n : ℕ) : ConnPool → List ℕ → Type 0 where
  starts : (p : ConnPool) → init connects n ≡ some p → Reachable connects n p []
  takes :
      (p p' : ConnPool) (conn : ℕ) (held : List ℕ)
      → Reachable connects n p held
      → get p ≡ some (p', conn)
      → Reachable connects n p' (conn ∷ held)
  gives_back :
      (p : ConnPool) (conn : ℕ) (held : List ℕ)
      → Reachable connects n p held
      → 0 < count conn held
      → Reachable connects n (free conn p) (remove conn held)

count-append : (x : ℕ) (xs ys : List ℕ) → count x (xs ++ ys) ≡ count x xs + count x ys
unfolding count
count-append x [] ys = omega arith
count-append x (z ∷ zs) ys = omega (arith, count-append x zs ys)

length-push : (xs : List ℕ) (y : ℕ) → length (xs ++ y ∷ []) ≡ length xs + 1
length-push [] y = refl
length-push (x ∷ xs) y = omega (arith, length-push xs y)

count-push : (x : ℕ) (xs : List ℕ) (y : ℕ) → count x (xs ++ y ∷ []) ≡ count x xs + bit (nat_beq x y)
unfolding count
count-push x xs y = omega (arith, count-append x xs (y ∷ []))

later : (x z : ℕ) (zs : List ℕ) → nat_beq x z ≡ false → 0 < count x (z ∷ zs) → 0 < count x zs
unfolding count
later x z zs other there = ground (arith, other, there)

count-remove :
    (x y : ℕ) (ys : List ℕ)
    → 0 < count x ys
    → count y (remove x ys) + bit (nat_beq y x) ≡ count y ys
unfolding count remove
count-remove x y [] there = ground arith
count-remove x y (z ∷ zs) there = elim (Bool-cases (nat_beq x z)) [
  | inl same ↦ rw same (ground (arith, nat_beq_iff x z, nat_beq_iff y x, nat_beq_iff y z, same))
  | inr other ↦ rw other (omega (arith, count-remove x y zs (later x z zs other there)))
]

length-remove : (x : ℕ) (ys : List ℕ) → 0 < count x ys → length (remove x ys) + 1 ≡ length ys
unfolding count remove
length-remove x [] there = ground arith
length-remove x (z ∷ zs) there = elim (Bool-cases (nat_beq x z)) [
  | inl same ↦ rw same (omega arith)
  | inr other ↦ rw other (omega (arith, length-remove x zs (later x z zs other there)))
]

-- Each connection is in the queue or held, once.
record IsShared (n : ℕ) (p : ConnPool) (held : List ℕ) : Type 0 where
  ids : (i : ℕ) → lookup i p.conn_to_id ≡ (if ltb i n then some i else none)
  once : (i : ℕ) → count i p.conn_id_queue + count i held ≡ bit (ltb i n)
  all_there : length p.conn_id_queue + length held ≡ n

add_connection-IsShared :
    (i : ℕ) (p : ConnPool) → IsShared i p [] → IsShared (i + 1) (add_connection i p) []
unfolding add_connection count
add_connection-IsShared i p shared = record {
  ids = λ j.
      ground (arith, shared.ids i, shared.ids j, lookup-insert i j i p.conn_to_id, nat_beq_iff i j);
  once = λ j. ground (arith, shared.once j, count-push j p.conn_id_queue i, nat_beq_iff j i);
  all_there = omega (arith, shared.all_there, length-push p.conn_id_queue i);
}

same_pool : {p p' : ConnPool} → ◌≡◌ {A = Option ConnPool} (some p) (some p') → p ≡ p'
same_pool same = cc

init_from-IsShared :
    (connects : ℕ → Bool) (left i : ℕ) (p p' : ConnPool)
    → IsShared i p []
    → init_from connects left i p ≡ some p'
    → IsShared (i + left) p' []
unfolding init_from
init_from-IsShared connects zero i p p' shared made =
    subst (λ q. IsShared (i + 0) q []) (same_pool made)
      (subst (λ k. IsShared k p []) (omega arith) shared)
init_from-IsShared connects (suc left) i p p' shared made = elim (Bool-cases (connects i)) [
  | inr fails ↦ ground (arith, fails, made)
  | inl connected ↦
      subst (λ k. IsShared k p' []) (omega arith)
        (init_from-IsShared connects left (i + 1) (add_connection i p) p'
          (add_connection-IsShared i p shared)
          (subst
            (λ x.
              (if x then init_from connects left (i + 1) (add_connection i p) else none) ≡ some p')
            connected made))
]

same_taken : {x y : ConnPool × ℕ} → ◌≡◌ {A = Option (ConnPool × ℕ)} (some x) (some y) → x ≡ y
same_taken same = cc

take_from :
    (n pool : ℕ) (queue : List ℕ) (ids : List (ℕ × ℕ)) (p' : ConnPool) (conn : ℕ) (held : List ℕ)
    → IsShared n (record { pool = pool; conn_id_queue = queue; conn_to_id = ids }) held
    → get (record { pool = pool; conn_id_queue = queue; conn_to_id = ids }) ≡ some (p', conn)
    → IsShared n p' (conn ∷ held)
unfolding get count
take_from n pool [] ids p' conn held shared taken = ground (arith, taken)
take_from n pool (id ∷ queue) ids p' conn held shared taken =
    subst (λ x. IsShared n x.0 (x.1 ∷ held)) (same_taken taken)
      (record {
        ids = shared.ids;
        once = λ i. omega (arith, shared.once i);
        all_there = omega (arith, shared.all_there);
      })

take-IsShared :
    (n : ℕ) (p p' : ConnPool) (conn : ℕ) (held : List ℕ)
    → IsShared n p held
    → get p ≡ some (p', conn)
    → IsShared n p' (conn ∷ held)
take-IsShared n p p' conn held shared taken =
    take_from n p.pool p.conn_id_queue p.conn_to_id p' conn held shared taken

free-IsShared :
    (n : ℕ) (p : ConnPool) (conn : ℕ) (held : List ℕ)
    → IsShared n p held
    → 0 < count conn held
    → IsShared n (free conn p) (remove conn held)
unfolding free
free-IsShared n p conn held shared has =
    let inside : ltb conn n ≡ true = ground (arith, shared.once conn, has) in
    let known : lookup conn p.conn_to_id ≡ some conn = shared.ids conn ∙ rw inside refl in
    rw (known, free)
      (record {
        ids = shared.ids;
        once = λ i.
            omega (
              arith,
              shared.once i,
              count-push i p.conn_id_queue conn,
              count-remove conn i held has,
            );
        all_there = omega (
          arith,
          shared.all_there,
          length-push p.conn_id_queue conn,
          length-remove conn held has,
        );
      })

Reachable-IsShared :
    (connects : ℕ → Bool) (n : ℕ) (p : ConnPool) (held : List ℕ)
    → Reachable connects n p held
    → IsShared n p held
unfolding init lookup count
Reachable-IsShared connects n p held (starts _ made) =
    subst (λ k. IsShared k p []) (omega arith)
      (init_from-IsShared connects n 0 _ p
        (record { ids = λ i. ground arith; once = λ i. ground arith; all_there = omega arith })
        made)
Reachable-IsShared connects n p held (takes before _ conn held' come taken) =
    take-IsShared n before p conn held' (Reachable-IsShared connects n before held' come) taken
Reachable-IsShared connects n p held (gives_back before conn held' come has) =
    free-IsShared n before conn held' (Reachable-IsShared connects n before held' come) has

get_from :
    (n pool : ℕ) (queue : List ℕ) (ids : List (ℕ × ℕ)) (held : List ℕ)
    → IsShared n (record { pool = pool; conn_id_queue = queue; conn_to_id = ids }) held
    → (((length held ≡ n)
          × (get (record { pool = pool; conn_id_queue = queue; conn_to_id = ids }) ≡ none))
        ⊎ ((p' : ConnPool) × (conn : ℕ) × (get
                (record { pool = pool; conn_id_queue = queue; conn_to_id = ids })
              ≡ some (p', conn))
            × (conn < n)
            × (count conn held ≡ 0)))
unfolding get count
get_from n pool [] ids held shared = inl (omega (arith, shared.all_there), refl)
get_from n pool (id ∷ queue) ids held shared = inr (
  record { pool = pool; conn_id_queue = queue; conn_to_id = ids },
  id,
  refl,
  ground (arith, shared.once id, nat_beq_iff id id),
  ground (arith, shared.once id, nat_beq_iff id id),
)

-- However threads take connections of a pool of n and give back what they hold, once `Init` has made
-- it, `Get` gives a connection of the pool that nobody holds, or all n are held and it blocks.
pub get_lem :
    (connects : ℕ → Bool) (n : ℕ) (p : ConnPool) (held : List ℕ)
    → Reachable connects n p held
    → ((length held ≡ n) × (get p ≡ none))
      ⊎ ((p' : ConnPool) × (conn : ℕ) × (get p ≡ some (p', conn))
          × (conn < n)
          × (count conn held ≡ 0))
get_lem connects n p held come =
    get_from n p.pool p.conn_id_queue p.conn_to_id held (Reachable-IsShared connects n p held come)
