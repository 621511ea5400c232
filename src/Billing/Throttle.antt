-- ===== src/Billing/Throttle.antt =====
-- Warnings of which each key emits at most one a minute (src/middleware/warn-throttle.ts).
pub mod Rate
use materios_gateway.Prelude.{
  ℕ, ◌-◌, Text, text_eq, Bool, true, false, Option, none, some, List, [], ◌∷◌, ltb, if◌then◌else◌,
}

-- Milliseconds.
abbrev pub throttle_ms : ℕ
throttle_ms = 60000

pub record Emission : Type 0 where
  pub key : Text
  pub at : ℕ

-- `Map.get`
abbrev pub last_emitted : Text → List Emission → Option ℕ
last_emitted key [] = none
last_emitted key (e ∷ es) = if text_eq e.key key then some e.at else last_emitted key es

-- `Map.set`
abbrev pub set_emitted : Text → ℕ → List Emission → List Emission
set_emitted key now [] = record { key = key; at = now } ∷ []
set_emitted key now (e ∷ es) =
    if text_eq e.key key then record e { at = now } ∷ es else e ∷ set_emitted key now es

abbrev pub is_recent : Option ℕ → ℕ → Bool
is_recent none now = false
is_recent (some prev) now = ltb (now - prev) throttle_ms

-- Whether the line is emitted, and the new map. A clock that went back counts as recent.
unfoldable pub warn_throttled : Text → ℕ → List Emission → Bool × List Emission
warn_throttled key now es =
    if is_recent (last_emitted key es) now then (false, es) else (true, set_emitted key now es)

pub record Warning : Type 0 where
  pub key : Text
  pub at : ℕ

-- The times at which a sequence of warnings emits a line for `key`.
unfoldable pub emissions : Text → List Warning → List Emission → List ℕ
emissions key [] es = []
emissions key (w ∷ ws) es =
    let (emitted, es') = warn_throttled w.key w.at es in
    let rest = emissions key ws es' in
    if emitted then (if text_eq w.key key then w.at ∷ rest else rest) else rest

-- The map after a sequence of warnings.
unfoldable pub warn_all : List Warning → List Emission → List Emission
warn_all [] es = es
warn_all (w ∷ ws) es = warn_all ws (warn_throttled w.key w.at es).1
