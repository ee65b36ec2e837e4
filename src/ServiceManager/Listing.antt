-- ===== src/ServiceManager/Listing.antt =====
-- source/service/service_manager.h, `RegisterService` and the queries: the registry by name is
-- sorted, and a name's services are those registered for it, in order.
use migang_bot_cpp.Base.{
  ◌≡◌, refl, ◌↔◌, ◌≢◌, true, false, List, [], ◌∷◌, ◌++◌, Bytes, arith, bytes_beq, bytes_beq_iff,
  bytes_eq, lookup, if◌then◌else◌, is_some,
}
use migang_bot_cpp.Trie.{Ref}
use migang_bot_cpp.ServiceManager.{
  World, ServiceManager, bytes_lt, multi_emplace, equal_range, register_service, check_service,
}

bytes_lt_asymm : (x y : Bytes) → bytes_lt x y ≡ true → bytes_lt y x ≡ false
unfolding bytes_lt
bytes_lt_asymm [] [] h = cc
bytes_lt_asymm [] (b ∷ y) h = refl
bytes_lt_asymm (a ∷ x) [] h = cc
bytes_lt_asymm (a ∷ x) (b ∷ y) h = ground (arith, bytes_lt_asymm x y)

bytes_lt_trans_ge :
    (x y z : Bytes) → bytes_lt x y ≡ true → bytes_lt z y ≡ false → bytes_lt z x ≡ false
unfolding bytes_lt
bytes_lt_trans_ge [] [] z h g = cc
bytes_lt_trans_ge (a ∷ x) [] z h g = cc
bytes_lt_trans_ge [] (b ∷ y) [] h g = refl
bytes_lt_trans_ge [] (b ∷ y) (c ∷ z) h g = refl
bytes_lt_trans_ge (a ∷ x) (b ∷ y) [] h g = cc
bytes_lt_trans_ge (a ∷ x) (b ∷ y) (c ∷ z) h g = ground (arith, bytes_lt_trans_ge x y z)

-- No key is below `k`.
abbrev pub NoneBelow : Bytes → List (Bytes × Ref) → Type 0
NoneBelow k [] = Unit
NoneBelow k ((j, v) ∷ m) = (bytes_lt j k ≡ false) × NoneBelow k m

abbrev pub IsSorted : List (Bytes × Ref) → Type 0
IsSorted [] = Unit
IsSorted ((j, v) ∷ m) = NoneBelow j m × IsSorted m

NoneBelow-trans :
    (k j : Bytes) (m : List (Bytes × Ref)) → bytes_lt k j ≡ true → NoneBelow j m → NoneBelow k m
NoneBelow-trans k j [] h b = tt
NoneBelow-trans k j ((i, v) ∷ m) h b = (bytes_lt_trans_ge k j i h b.0, NoneBelow-trans k j m h b.1)

NoneBelow-multi_emplace :
    (j k : Bytes) (v : Ref) (m : List (Bytes × Ref))
    → bytes_lt k j ≡ false
    → NoneBelow j m
    → NoneBelow j (multi_emplace k v m)
unfolding multi_emplace
NoneBelow-multi_emplace j k v [] h b = (h, tt)
NoneBelow-multi_emplace j k v ((i, w) ∷ m) h b =
    ground (arith, NoneBelow-multi_emplace j k v m h b.1)

multi_emplace-IsSorted :
    (k : Bytes) (v : Ref) (m : List (Bytes × Ref)) → IsSorted m → IsSorted (multi_emplace k v m)
unfolding multi_emplace
multi_emplace-IsSorted k v [] s = (tt, tt)
multi_emplace-IsSorted k v ((j, w) ∷ m) s = ground (
  arith,
  bytes_lt_asymm k j,
  NoneBelow-trans k j m,
  NoneBelow-multi_emplace j k v m,
  multi_emplace-IsSorted k v m,
)

equal_range-above :
    (k j : Bytes) (m : List (Bytes × Ref))
    → bytes_lt k j ≡ true
    → NoneBelow j m
    → equal_range k m ≡ []
unfolding equal_range
equal_range-above k j [] h b = refl
equal_range-above k j ((i, v) ∷ m) h b =
    ground (arith, equal_range-above k j m h b.1, bytes_beq_iff i k)

equal_range-multi_emplace :
    (k name : Bytes) (v : Ref) (m : List (Bytes × Ref))
    → IsSorted m
    → equal_range name (multi_emplace k v m)
      ≡ (if bytes_beq k name then equal_range name m ++ v ∷ [] else equal_range name m)
unfolding equal_range multi_emplace
equal_range-multi_emplace k name v [] s = ground arith
equal_range-multi_emplace k name v ((j, w) ∷ m) s = ground (
  arith,
  equal_range-multi_emplace k name v m s.1,
  equal_range-above k j m,
  bytes_lt_asymm k j,
  bytes_beq_iff k name,
  bytes_beq_iff j name,
  bytes_beq_iff j k,
)

-- Registering a service in a sorted registry keeps it sorted, puts the service behind those of its
-- own name, and leaves the services of every other name as they were.
pub register_service-equal_range :
    (bundle name : Bytes) (r : Ref) (w : World) (m : ServiceManager)
    → IsSorted m.service_name_map
    → let m' = register_service bundle r w m in
      IsSorted m'.service_name_map
      × (equal_range name m'.service_name_map ≡ (
          if bytes_beq (w.heap r).service_name name
          then equal_range name m.service_name_map ++ r ∷ []
          else equal_range name m.service_name_map))
unfolding register_service
register_service-equal_range bundle name r w m s = (
  multi_emplace-IsSorted (w.heap r).service_name r m.service_name_map s,
  equal_range-multi_emplace (w.heap r).service_name name r m.service_name_map s,
)

lookup-equal_range :
    (name : Bytes) (m : List (Bytes × Ref))
    → (is_some (lookup name m) ≡ true) ↔ (equal_range name m ≢ [])
unfolding lookup equal_range
lookup-equal_range name [] = ground arith
lookup-equal_range name ((j, v) ∷ m) = ground (arith, lookup-equal_range name m)

-- A service name is known exactly when some service is registered under it.
pub check_service_iff :
    (name : Bytes) (m : ServiceManager)
    → (check_service name m ≡ true) ↔ (equal_range name m.service_name_map ≢ [])
unfolding check_service
check_service_iff name m = lookup-equal_range name m.service_name_map
