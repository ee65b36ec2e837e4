-- ===== src/Zhanbu/Picks.antt =====
-- source/modules/module/eorzea_zhanbu/eorzea_zhanbu.h, `GetZhanbuResult`: the loop that picks the
-- second event until it differs from the first.
use migang_bot_cpp.Base.{
  ℕ, zero, suc, ◌+◌, ◌<◌, ◌≡◌, refl, ap, ◌∙◌, true, false, none, some, List, [], ◌∷◌, Bytes,
  bytes_beq, bytes_beq_iff, length, get_elem?, get_elem?-within, ok, Bool-cases, inl, inr, arith,
}
use migang_bot_cpp.Zhanbu.{EorzeaZhanbu, Chance, select_randomly, pick_ji, get_zhanbu_result}

-- A pick is an index below the number of things.
abbrev pub IsPick : (ℕ → ℕ → ℕ) → Type 0
IsPick pick = (i n : ℕ) → 0 < n → pick i n < n

plus_zero : (i : ℕ) → i ≡ i + 0
plus_zero i = omega arith

plus_suc : (i k : ℕ) → i + 1 + k ≡ i + suc k
plus_suc i k = omega arith

pick-zero : (n : ℕ) → n < 1 → n ≡ 0
pick-zero n small = omega arith

pick_one :
    (pick : ℕ → ℕ → ℕ) (i : ℕ) (event : Bytes)
    → IsPick pick
    → select_randomly pick i (event ∷ []) ≡ ok event
unfolding select_randomly
pick_one pick i event fair = rw (pick-zero (pick i 1) (fair i 1 (omega arith))) refl

same_bytes : (s : Bytes) → bytes_beq s s ≡ true
same_bytes s = (bytes_beq_iff s s).1 refl

select_found :
    (pick : ℕ → ℕ → ℕ) (i : ℕ) (xs : List Bytes) (x : Bytes)
    → get_elem? xs (pick i (length xs)) ≡ some x
    → select_randomly pick i xs ≡ ok x
unfolding select_randomly
select_found pick i xs x found = rw found refl

pick_ji-single :
    (fuel i : ℕ) (pick : ℕ → ℕ → ℕ) (event : Bytes)
    → IsPick pick
    → pick_ji fuel pick i (event ∷ []) event event ≡ ok none
unfolding pick_ji
pick_ji-single zero i pick event fair = refl
pick_ji-single (suc fuel) i pick event fair =
    rw (same_bytes event)
      (rw (pick_one pick i event fair) (pick_ji-single fuel (i + 1) pick event fair))

pick_done :
    (fuel i : ℕ) (pick : ℕ → ℕ → ℕ) (events : List Bytes) (luck_yi luck_ji : Bytes)
    → bytes_beq luck_yi luck_ji ≡ false
    → pick_ji (suc fuel) pick i events luck_yi luck_ji ≡ ok (some luck_ji)
unfolding pick_ji
pick_done fuel i pick events luck_yi luck_ji differs = rw differs refl

pick_again :
    (fuel i : ℕ) (pick : ℕ → ℕ → ℕ) (events : List Bytes) (luck_yi luck_ji next : Bytes)
    → bytes_beq luck_yi luck_ji ≡ true
    → get_elem? events (pick i (length events)) ≡ some next
    → pick_ji (suc fuel) pick i events luck_yi luck_ji
      ≡ pick_ji fuel pick (i + 1) events luck_yi next
unfolding pick_ji select_randomly
pick_again fuel i pick events luck_yi luck_ji next same found = rw same (rw found refl)

some_events :
    (events : List Bytes) (n : ℕ) (e : Bytes) → get_elem? events n ≡ some e → 0 < length events
some_events [] n e found = cc
some_events (x ∷ events) n e found = omega arith

picks_on :
    (k i : ℕ) (pick : ℕ → ℕ → ℕ) (events : List Bytes) (luck_yi luck_ji other : Bytes)
    → IsPick pick
    → get_elem? events (pick (i + k) (length events)) ≡ some other
    → bytes_beq luck_yi other ≡ false
    → bytes_beq luck_yi luck_ji ≡ true
    → (left : Bytes) × (pick_ji (suc (suc k)) pick i events luck_yi luck_ji ≡ ok (some left))
      × (bytes_beq luck_yi left ≡ false)
picks_on zero i pick events luck_yi luck_ji other fair found differs same = (
  other,
  pick_again (suc zero) i pick events luck_yi luck_ji other same
        (ap (λ n. get_elem? events (pick n (length events))) (plus_zero i) ∙ found)
      ∙ pick_done zero (i + 1) pick events luck_yi other differs,
  differs,
)
picks_on (suc k) i pick events luck_yi luck_ji other fair found differs same =
    let some_event = some_events events (pick (i + suc k) (length events)) other found in
    let (next, picked) =
      get_elem?-within events (pick i (length events)) (fair i (length events) some_event) in
    let first = pick_again (suc (suc k)) i pick events luck_yi luck_ji next same picked in
    let found' = ap (λ n. get_elem? events (pick n (length events))) (plus_suc i k) ∙ found in
    elim (Bool-cases (bytes_beq luck_yi next)) [
      | inr done ↦ (next, first ∙ pick_done (suc k) (i + 1) pick events luck_yi next done, done)
      | inl still ↦
          (let (left, ends, other_event) =
              picks_on k (i + 1) pick events luck_yi next other fair found' differs still in
            (left, first ∙ ends, other_event))
    ]

-- As soon as a pick of the loop gives another event than the first, the loop has ended: fuel for one
-- round more than the picks up to it is enough, whatever the others are, and what the loop leaves
-- differs from the first event.
pub pick_ji-ends :
    (k i : ℕ) (pick : ℕ → ℕ → ℕ) (events : List Bytes) (luck_yi luck_ji other : Bytes)
    → IsPick pick
    → get_elem? events (pick (i + k) (length events)) ≡ some other
    → bytes_beq luck_yi other ≡ false
    → (left : Bytes) × (pick_ji (suc (suc k)) pick i events luck_yi luck_ji ≡ ok (some left))
      × (bytes_beq luck_yi left ≡ false)
pick_ji-ends k i pick events luck_yi luck_ji other fair found differs =
    elim (Bool-cases (bytes_beq luck_yi luck_ji)) [
      | inr done ↦ (luck_ji, pick_done (suc k) i pick events luck_yi luck_ji done, done)
      | inl same ↦ picks_on k i pick events luck_yi luck_ji other fair found differs same
    ]

-- With a single event configured, as in the configuration that the module writes as an example, the
-- loop of `GetZhanbuResult` does not end: no number of rounds is enough.
pub get_zhanbu_result-single :
    (fuel : ℕ) (z : EorzeaZhanbu) (chance : Chance) (event : Bytes)
    → IsPick chance.pick
    → 0 < length z.occupations
    → 0 < length z.dye
    → z.events ≡ event ∷ []
    → get_zhanbu_result fuel z chance ≡ ok none
unfolding get_zhanbu_result
get_zhanbu_result-single fuel z chance event fair some_job some_dye one =
    let (job, j) = get_elem?-within z.occupations _ (fair 0 (length z.occupations) some_job) in
    let (dye, d) = get_elem?-within z.dye _ (fair 1 (length z.dye) some_dye) in
    rw (select_found chance.pick 0 z.occupations job j) (
      rw (select_found chance.pick 1 z.dye dye d) (
        rw one (
          rw (pick_one chance.pick 2 event fair) (
            rw (pick_one chance.pick 3 event fair)
              (rw (pick_ji-single fuel 4 chance.pick event fair) refl)))))
