-- ===== src/Fleet.antt =====
-- The registry of fleet operators (src/fleet_operators.ts). A key is the list of its characters'
-- codes. The table comes with the next id, since the ids are AUTOINCREMENT. Times are in seconds.
pub mod Lifecycle
mod Tests
use materios_gateway.Prelude.{
  ℕ, suc, String, Text, text_eq, lower, Bool, true, false, not, ◌&&◌, ◌||◌, Option, none, some,
  List, [], ◌∷◌, ◌++◌, any, take, length, ltb, leb, ◌==◌, is_some, map, if◌then◌else◌,
}
use materios_gateway.Sql.{get, select, update, order_by}
use materios_gateway.Validator.Checks.{is_hex}

pub record FleetOperatorRow : Type 0 where
  pub id : ℕ
  pub pubkey_hex : Text
  pub label : Option Text
  pub registered_at : ℕ
  pub revoked_at : Option ℕ
  pub notes : Option Text

pub record FleetDb : Type 0 where
  pub rows : List FleetOperatorRow
  pub next_id : ℕ

pub record RegisterFleetOperatorInput : Type 0 where
  pub pubkey : Text
  pub label : Option Text
  pub notes : Option Text

-- `strip` and `toLowerCase`; no other character becomes a hex digit.
abbrev pub strip_prefix : Text → Text
strip_prefix (c ∷ (d ∷ cs)) = if c == b'0' && (d == b'x' || d == b'X') then cs else c ∷ (d ∷ cs)
strip_prefix (c ∷ []) = c ∷ []
strip_prefix [] = []

unfoldable pub normalize_pubkey : Text → Text
normalize_pubkey input = map lower (strip_prefix input)

abbrev pub has_pubkey : Text → FleetOperatorRow → Bool
has_pubkey k r = text_eq r.pubkey_hex k

abbrev pub is_active : FleetOperatorRow → Bool
is_active r = not (is_some r.revoked_at)

-- `input ? String(input).slice(0, n) : null`
abbrev pub clipped : ℕ → Option Text → Option Text
clipped n none = none
clipped n (some []) = none
clipped n (some (c ∷ cs)) = some (take n (c ∷ cs))

-- `malformed` is the `TypeError`, `taken` the error of the UNIQUE constraint.
pub data Registration : Type 0 where
  registered : FleetOperatorRow → Registration
  malformed taken : Registration

abbrev pub new_row : ℕ → Text → RegisterFleetOperatorInput → ℕ → FleetOperatorRow
new_row id k input now = record {
  id = id;
  pubkey_hex = k;
  label = clipped 256 input.label;
  registered_at = now;
  revoked_at = none;
  notes = clipped 1_024 input.notes;
}

unfoldable pub register_fleet_operator :
    RegisterFleetOperatorInput → ℕ → FleetDb → Registration × FleetDb
register_fleet_operator input now db =
    let k = normalize_pubkey input.pubkey in
    let row = new_row db.next_id k input now in
    if not (is_hex 64 k)
    then (malformed, db)
    else if any (has_pubkey k) db.rows
    then (taken, db)
    else (registered row, record { rows = db.rows ++ row ∷ []; next_id = suc db.next_id })

abbrev pub stamp : ℕ → FleetOperatorRow → FleetOperatorRow
stamp now r = record r { revoked_at = some now }

-- The result says whether a row was changed.
unfoldable pub revoke_fleet_operator : Text → ℕ → FleetDb → Bool × FleetDb
revoke_fleet_operator pubkey now db =
    let live = λ (r : FleetOperatorRow). has_pubkey (normalize_pubkey pubkey) r && is_active r in
    (any live db.rows, record db { rows = update live (stamp now) db.rows })

unfoldable pub get_fleet_operator : Text → FleetDb → Option FleetOperatorRow
get_fleet_operator pubkey db = get (has_pubkey (normalize_pubkey pubkey)) db.rows

-- `none` is a registry that is not open.
abbrev pub active_in : Text → Option FleetDb → Bool
active_in k none = false
active_in k (some db) = is_some (get (λ r. has_pubkey k r && is_active r) db.rows)

unfoldable pub is_fleet_operator_active : Text → Option FleetDb → Bool
is_fleet_operator_active pubkey db = active_in (normalize_pubkey pubkey) db

-- `ORDER BY registered_at DESC, id DESC`
abbrev pub latest_first : FleetOperatorRow → FleetOperatorRow → Bool
latest_first a b =
    ltb b.registered_at a.registered_at || (b.registered_at == a.registered_at && leb b.id a.id)

unfoldable pub list_fleet_operators : Bool → FleetDb → List FleetOperatorRow
list_fleet_operators active db =
    order_by latest_first (select (λ r. not active || is_active r) db.rows)
