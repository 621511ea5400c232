-- ===== src/Fleet/Tests.antt =====
-- A registry with one operator, and the theorems at it.
use materios_gateway.Prelude.{
  ℕ, zero, suc, ◌≡◌, refl, Text, codes, true, false, none, some, [], ◌∷◌, ◌++◌, arith,
}
use materios_gateway.Fleet.{
  FleetOperatorRow, FleetDb, RegisterFleetOperatorInput, registered, malformed, taken,
  normalize_pubkey, register_fleet_operator, revoke_fleet_operator, get_fleet_operator,
  is_fleet_operator_active, list_fleet_operators,
}
use materios_gateway.Fleet.Lifecycle.{
  register, revoke, run, IsRegistry, run-IsRegistry, revoked_operator_forever,
}

abbrev repeat : ℕ → Text → Text
repeat zero t = []
repeat (suc n) t = t ++ repeat n t

abbrev shouted : Text
shouted = codes "0X" ++ repeat 32 (codes "AB")

abbrev plain : Text
plain = repeat 32 (codes "ab")

abbrev input : RegisterFleetOperatorInput
input = record { pubkey = shouted; label = some (codes "fleet"); notes = some [] }

abbrev row : FleetOperatorRow
row = record {
  id = 1;
  pubkey_hex = plain;
  label = some (codes "fleet");
  registered_at = 70;
  revoked_at = none;
  notes = none;
}

abbrev empty : FleetDb
empty = record { rows = []; next_id = 1 }

abbrev one : FleetDb
one = record { rows = row ∷ []; next_id = 2 }

first_registered : register_fleet_operator input 70 empty ≡ (registered row, one)
unfolding register_fleet_operator normalize_pubkey
first_registered = refl

second_taken : (register_fleet_operator (record input { pubkey = plain }) 80 one).0 ≡ taken
unfolding register_fleet_operator normalize_pubkey
second_taken = refl

short_malformed :
    (register_fleet_operator (record input { pubkey = codes "0x12" }) 80 one).0 ≡ malformed
unfolding register_fleet_operator normalize_pubkey
short_malformed = refl

found : get_fleet_operator shouted one ≡ some row
unfolding get_fleet_operator normalize_pubkey
found = refl

none_listed : list_fleet_operators true (revoke_fleet_operator plain 90 one).1 ≡ []
unfolding list_fleet_operators revoke_fleet_operator normalize_pubkey
none_listed = refl

closed : is_fleet_operator_active plain none ≡ false
unfolding is_fleet_operator_active
closed = refl

revoked_operator_forever_example :
    is_fleet_operator_active shouted
      (some (run (register input 95 ∷ revoke plain 96 ∷ []) (revoke_fleet_operator plain 90 one).1))
    ≡ false
unfolding normalize_pubkey
revoked_operator_forever_example =
    revoked_operator_forever plain shouted 90 (register input 95 ∷ revoke plain 96 ∷ []) one refl
      refl

empty-IsRegistry : IsRegistry empty
empty-IsRegistry = record { hex = tt; once = λ k. omega arith; below = tt }

run-IsRegistry_example :
    IsRegistry (run (register input 95 ∷ revoke plain 96 ∷ register input 97 ∷ []) empty)
run-IsRegistry_example =
    run-IsRegistry (register input 95 ∷ revoke plain 96 ∷ register input 97 ∷ []) empty
      empty-IsRegistry
