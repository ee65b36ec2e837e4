-- ===== src/Zhanbu/Days.antt =====
-- source/modules/module/eorzea_zhanbu/eorzea_zhanbu.h, `GetEorzeaZhanbu`: two calls on one day.
use migang_bot_cpp.Base.{
  ℕ, ◌⊎◌, inl, inr, ◌<◌, ◌≤◌, ◌≡◌, refl, sym, ap, ◌∙◌, Bool, true, false, ◌||◌, Option, none, some,
  List, [], nat_eq, lookup, lookup-insert_self, ok, ok_inj, >>=-eq-ok, subst, le→leb, arith,
  nat_beq, leb,
}
use migang_bot_cpp.Zhanbu.{
  EorzeaZhanbu, Drawing, Row, Chance, get_zhanbu_result, get_basemap, record_zhanbu, row_of,
  keep_drawing, new_zhanbu, get_zhanbu_record, zhanbu_with, get_eorzea_zhanbu,
}

-- The user has no row that is still valid.
abbrev pub HasNoDay : ℕ → ℕ → List (ℕ × Row) → Type 0
HasNoDay uid now rows =
    (lookup uid rows ≡ none)
    ⊎ ((row : Row) × (lookup uid rows ≡ some row) × (row.expire_time ≤ now))

-- The drawing with its dye and its message exchanged.
abbrev pub swapped : Drawing → Drawing
swapped d = record d { dye = d.append_msg; append_msg = d.dye }

some_inj {ℓ} : {A : Type ℓ} (x y : A) → ◌≡◌ {A = Option A} (some x) (some y) → x ≡ y
some_inj x y same = ap (λ o. elim o [ none ↦ x | some a ↦ a ]) same

kept_row :
    (last_second uid : ℕ) (z : EorzeaZhanbu) (pick_map : ℕ → ℕ → ℕ) (rows rows' : List (ℕ × Row))
    (result : Option Drawing) (d : Drawing)
    → keep_drawing z pick_map true last_second uid rows result ≡ ok (some (rows', d))
    → lookup uid rows' ≡ some (row_of last_second d)
unfolding keep_drawing record_zhanbu
kept_row last_second uid z pick_map rows rows' none d made = cc
kept_row last_second uid z pick_map rows rows' (some result) d made =
    let (file, found, rest) = >>=-eq-ok (get_basemap z pick_map result.basemap) _ made in
    subst (λ p. lookup uid p.0 ≡ some (row_of last_second p.1)) (some_inj _ _ (ok_inj rest))
      (lookup-insert_self uid _ rows)

record_of :
    (uid : ℕ) (rows : List (ℕ × Row)) (row : Row)
    → lookup uid rows ≡ some row
    → get_zhanbu_record uid rows
      ≡ (row.luck, row.yi, row.ji, row.append_msg, row.dye, row.basemap, row.expire_time)
unfolding get_zhanbu_record
record_of uid rows row there = rw (there, get_zhanbu_record) refl

no_record :
    (uid : ℕ) (rows : List (ℕ × Row))
    → lookup uid rows ≡ none
    → get_zhanbu_record uid rows ≡ ([], [], [], [], [], [], 0)
unfolding get_zhanbu_record
no_record uid rows absent = rw (absent, get_zhanbu_record) refl

first_call :
    (fuel now last_second uid : ℕ) (z : EorzeaZhanbu) (chance : Chance) (pick_map : ℕ → ℕ → ℕ)
    (works : Bool) (rows : List (ℕ × Row))
    → HasNoDay uid now rows
    → get_eorzea_zhanbu fuel z chance pick_map works now last_second uid rows
      ≡ new_zhanbu fuel z chance pick_map works last_second uid rows
unfolding get_eorzea_zhanbu zhanbu_with
first_call fuel now last_second uid z chance pick_map works rows (inl absent) =
    rw (no_record uid rows absent) refl
first_call fuel now last_second uid z chance pick_map works rows (inr (row, there, past)) =
    let expired : nat_beq row.expire_time 0 || leb row.expire_time now ≡ true =
      ground (arith, le→leb row.expire_time now past) in
    rw (record_of uid rows row there) (rw expired refl)

later_call :
    (fuel now last_second uid : ℕ) (z : EorzeaZhanbu) (chance : Chance) (pick_map : ℕ → ℕ → ℕ)
    (works : Bool) (rows : List (ℕ × Row)) (row : Row)
    → lookup uid rows ≡ some row
    → now < row.expire_time
    → get_eorzea_zhanbu fuel z chance pick_map works now last_second uid rows
      ≡ ok (
          some (
            rows,
            record {
              luck = row.luck;
              yi = row.yi;
              ji = row.ji;
              dye = row.append_msg;
              append_msg = row.dye;
              basemap = row.basemap;
            },
          ))
unfolding get_eorzea_zhanbu zhanbu_with
later_call fuel now last_second uid z chance pick_map works rows row there valid =
    let fresh : nat_beq row.expire_time 0 || leb row.expire_time now ≡ false =
      ground (arith, valid) in
    rw (record_of uid rows row there) (rw fresh refl)

-- A first call of the day keeps its result, where the statements of the database work: as long as
-- the day lasts, every further call of the user, whatever its random parts are, changes nothing and
-- draws the same texts and base map, but with the dye and the message exchanged.
pub get_eorzea_zhanbu-again :
    (fuel fuel' now now' last_second last' uid : ℕ) (z : EorzeaZhanbu) (chance chance' : Chance)
    (pick_map pick_map' : ℕ → ℕ → ℕ) (works : Bool) (rows rows' : List (ℕ × Row)) (d : Drawing)
    → HasNoDay uid now rows
    → get_eorzea_zhanbu fuel z chance pick_map true now last_second uid rows ≡ ok (some (rows', d))
    → now' < last_second
    → get_eorzea_zhanbu fuel' z chance' pick_map' works now' last' uid rows'
      ≡ ok (some (rows', swapped d))
unfolding new_zhanbu
get_eorzea_zhanbu-again fuel fuel' now now' last_second last' uid z chance chance' pick_map
      pick_map' works rows rows' d no_day made today =
    let fresh =
      sym (first_call fuel now last_second uid z chance pick_map true rows no_day) ∙ made in
    let (result, given, rest) = >>=-eq-ok (get_zhanbu_result fuel z chance) _ fresh in
    later_call fuel' now' last' uid z chance' pick_map' works rows' (row_of last_second d)
      (kept_row last_second uid z pick_map rows rows' result d rest) today
