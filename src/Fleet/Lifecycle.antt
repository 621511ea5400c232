-- ===== src/Fleet/Lifecycle.antt =====
-- What registrations and revocations do to the registry (src/fleet_operators.ts).
use materios_gateway.Prelude.{
  ℕ, suc, ◌+◌, ◌<◌, ◌≤◌, ◌≡◌, refl, Text, text_eq, text_eq_iff, Bool, true, false, ◌&&◌, some, List,
  [], ◌∷◌, ◌++◌, any, any-append, is_some, All, All-append, arith, if◌then◌else◌, Bool-cases, inl,
  inr,
}
use materios_gateway.Sql.{get, count, update}
use materios_gateway.Sql.Laws.{any-false-get}
use materios_gateway.Validator.Checks.{is_hex}
use materios_gateway.Fleet.{
  FleetOperatorRow, FleetDb, RegisterFleetOperatorInput, normalize_pubkey, has_pubkey, is_active,
  new_row, stamp, register_fleet_operator, revoke_fleet_operator, is_fleet_operator_active,
}

-- What the routes do to the registry.
pub data Op : Type 0 where
  register : RegisterFleetOperatorInput → ℕ → Op
  revoke : Text → ℕ → Op

abbrev pub step : Op → FleetDb → FleetDb
step (register input now) db = (register_fleet_operator input now db).1
step (revoke pubkey now) db = (revoke_fleet_operator pubkey now db).1

unfoldable pub run : List Op → FleetDb → FleetDb
run [] db = db
run (op ∷ ops) db = run ops (step op db)

abbrev live_row : Text → FleetOperatorRow → Bool
live_row k r = has_pubkey k r && is_active r

-- A key that has a row and no live one.
abbrev Dead : Text → List FleetOperatorRow → Type 0
Dead k rows = (any (has_pubkey k) rows ≡ true) × (any (live_row k) rows ≡ false)

any-stamp :
    (k j : Text) (now : ℕ) (rows : List FleetOperatorRow)
    → any (has_pubkey k) (update (live_row j) (stamp now) rows) ≡ any (has_pubkey k) rows
any-stamp k j now [] = refl
any-stamp k j now (r ∷ rows) = ground (arith, any-stamp k j now rows)

live-stamp :
    (k j : Text) (now : ℕ) (rows : List FleetOperatorRow)
    → any (live_row k) rows ≡ false
    → any (live_row k) (update (live_row j) (stamp now) rows) ≡ false
live-stamp k j now [] h = refl
live-stamp k j now (r ∷ rows) h = ground (arith, live-stamp k j now rows)

revoked-stamp :
    (k : Text) (now : ℕ) (rows : List FleetOperatorRow)
    → any (live_row k) (update (live_row k) (stamp now) rows) ≡ false
revoked-stamp k now [] = refl
revoked-stamp k now (r ∷ rows) = ground (arith, revoked-stamp k now rows)

register-Dead :
    (k : Text) (input : RegisterFleetOperatorInput) (now : ℕ) (db : FleetDb)
    → Dead k db.rows
    → Dead k (register_fleet_operator input now db).1.rows
unfolding register_fleet_operator
register-Dead k input now db h =
    let j = normalize_pubkey input.pubkey in
    let row = new_row db.next_id j input now in
    ground (
      arith,
      any-append (has_pubkey k) db.rows (row ∷ []),
      any-append (live_row k) db.rows (row ∷ []),
      text_eq_iff j k,
    )

revoke-Dead :
    (k : Text) (pubkey : Text) (now : ℕ) (db : FleetDb)
    → Dead k db.rows
    → Dead k (revoke_fleet_operator pubkey now db).1.rows
unfolding revoke_fleet_operator
revoke-Dead k pubkey now db h =
    let j = normalize_pubkey pubkey in
    (ground (arith, any-stamp k j now db.rows), live-stamp k j now db.rows h.1)

run-Dead : (ops : List Op) (k : Text) (db : FleetDb) → Dead k db.rows → Dead k (run ops db).rows
unfolding run
run-Dead [] k db h = h
run-Dead (register input now ∷ ops) k db h = run-Dead ops k _ (register-Dead k input now db h)
run-Dead (revoke pubkey now ∷ ops) k db h = run-Dead ops k _ (revoke-Dead k pubkey now db h)

Dead-inactive :
    (k : Text) (rows : List FleetOperatorRow)
    → Dead k rows
    → is_some (get (live_row k) rows) ≡ false
Dead-inactive k rows h = rw (any-false-get (live_row k) rows h.1) refl

-- An operator who is registered and revoked is inactive for ever, however the key is spelled:
-- whatever registrations and revocations follow, none revives it.
pub revoked_operator_forever :
    (pubkey spelling : Text) (now : ℕ) (ops : List Op) (db : FleetDb)
    → any (has_pubkey (normalize_pubkey pubkey)) db.rows ≡ true
    → normalize_pubkey spelling ≡ normalize_pubkey pubkey
    → is_fleet_operator_active spelling (some (run ops (revoke_fleet_operator pubkey now db).1))
      ≡ false
unfolding is_fleet_operator_active revoke_fleet_operator
revoked_operator_forever pubkey spelling now ops db known same =
    let k = normalize_pubkey pubkey in
    let db' = record db { rows = update (live_row k) (stamp now) db.rows } in
    rw same (
      Dead-inactive k (run ops db').rows (
        run-Dead ops k db'
          (ground (arith, any-stamp k k now db.rows), revoked-stamp k now db.rows)))

-- Keys are 64 hex digits and have one row each, and ids are below the next one.
pub record IsRegistry (db : FleetDb) : Type 0 where
  pub hex : All (λ r. is_hex 64 r.pubkey_hex ≡ true) db.rows
  pub once : (k : Text) → count (has_pubkey k) db.rows ≤ 1
  pub below : All (λ r. r.id < db.next_id) db.rows

count-append :
    (p : FleetOperatorRow → Bool) (rows : List FleetOperatorRow) (r : FleetOperatorRow)
    → count p (rows ++ r ∷ []) ≡ count p rows + (if p r then 1 else 0)
count-append p [] r = omega arith
count-append p (x ∷ rows) r = omega (arith, count-append p rows r)

any-false-count :
    (p : FleetOperatorRow → Bool) (rows : List FleetOperatorRow)
    → any p rows ≡ false
    → count p rows ≡ 0
any-false-count p [] h = refl
any-false-count p (r ∷ rows) h = ground (arith, any-false-count p rows)

count-stamp :
    (k j : Text) (now : ℕ) (rows : List FleetOperatorRow)
    → count (has_pubkey k) (update (live_row j) (stamp now) rows) ≡ count (has_pubkey k) rows
count-stamp k j now [] = refl
count-stamp k j now (r ∷ rows) = ground (arith, count-stamp k j now rows)

All-stamp {κ} :
    (P : FleetOperatorRow → Type κ) (j : Text) (now : ℕ) (rows : List FleetOperatorRow)
    → ((r : FleetOperatorRow) → P r → P (stamp now r))
    → All P rows
    → All P (update (live_row j) (stamp now) rows)
All-stamp P j now [] keep h = tt
All-stamp P j now (r ∷ rows) keep (p, h) = elim (Bool-cases (live_row j r)) [
  | inl e ↦ rw e (keep r p, All-stamp P j now rows keep h)
  | inr e ↦ rw e (p, All-stamp P j now rows keep h)
]

revoke-IsRegistry :
    (pubkey : Text) (now : ℕ) (db : FleetDb)
    → IsRegistry db
    → IsRegistry (revoke_fleet_operator pubkey now db).1
unfolding revoke_fleet_operator
revoke-IsRegistry pubkey now db v = record {
  hex = All-stamp _ (normalize_pubkey pubkey) now db.rows (λ r p. p) v.hex;
  once = λ k. omega (arith, count-stamp k (normalize_pubkey pubkey) now db.rows, v.once k);
  below = All-stamp _ (normalize_pubkey pubkey) now db.rows (λ r p. p) v.below;
}

below-suc :
    (n : ℕ) (rows : List FleetOperatorRow) → All (λ r. r.id < n) rows → All (λ r. r.id < suc n) rows
below-suc n [] h = tt
below-suc n (r ∷ rows) (p, h) = (omega arith, below-suc n rows h)

added-IsRegistry :
    (row : FleetOperatorRow) (db : FleetDb)
    → IsRegistry db
    → row.id ≡ db.next_id
    → is_hex 64 row.pubkey_hex ≡ true
    → any (has_pubkey row.pubkey_hex) db.rows ≡ false
    → IsRegistry (record { rows = db.rows ++ row ∷ []; next_id = suc db.next_id })
added-IsRegistry row db v same hex fresh = record {
  hex = All-append _ db.rows (row ∷ []) v.hex (hex, tt);
  once = λ k. elim (Bool-cases (text_eq row.pubkey_hex k)) [
    | inl mine ↦
        let key = (text_eq_iff row.pubkey_hex k).0 mine in
        let none_yet = any-false-count (has_pubkey row.pubkey_hex) db.rows fresh in
        rw (← key) (ground (arith, count-append (has_pubkey row.pubkey_hex) db.rows row))
    | inr other ↦ ground (arith, count-append (has_pubkey k) db.rows row, v.once k)
  ];
  below = All-append _ db.rows (row ∷ []) (below-suc db.next_id db.rows v.below) (omega arith, tt);
}

register-IsRegistry :
    (input : RegisterFleetOperatorInput) (now : ℕ) (db : FleetDb)
    → IsRegistry db
    → IsRegistry (register_fleet_operator input now db).1
unfolding register_fleet_operator
register-IsRegistry input now db v =
    let k = normalize_pubkey input.pubkey in
    elim (Bool-cases (is_hex 64 k)) [
      | inr bad ↦ simp bad v
      | inl good ↦ elim (Bool-cases (any (has_pubkey k) db.rows)) [
        | inl known ↦ simp (good, known) v
        | inr fresh ↦
            simp (good, fresh)
              (added-IsRegistry (new_row db.next_id k input now) db v refl good fresh)
      ]
    ]

-- Whatever is registered and revoked, in whatever order, a registry keeps one row to a key, keys of
-- 64 hex digits, and ids below the next one.
pub run-IsRegistry : (ops : List Op) (db : FleetDb) → IsRegistry db → IsRegistry (run ops db)
unfolding run
run-IsRegistry [] db v = v
run-IsRegistry (register input now ∷ ops) db v =
    run-IsRegistry ops (step (register input now) db) (register-IsRegistry input now db v)
run-IsRegistry (revoke pubkey now ∷ ops) db v =
    run-IsRegistry ops (step (revoke pubkey now) db) (revoke-IsRegistry pubkey now db v)
