-- ===== src/Metering/Workers.antt =====
-- The registry of a worker's hardware bounds and its last submission (src/worker_bounds.ts). A bound
-- is a whole number here: one that is not, or is below zero, is refused by the same check as zero.
-- Times are in seconds.
use materios_gateway.Prelude.{
  ℕ, ◌<◌, ◌≡◌, ◌≢◌, refl, sym, String, Text, str_eq, eq_refl, str_eq-ne, eq_iff, ◌∙◌, text_eq, Bool,
  true, false, ◌||◌, Option, none, some, List, [], ◌∷◌, arith, any, All, All-append, ◌==◌,
  if◌then◌else◌, Bool-cases, inl, inr, ◌⊎◌,
}
use mathlib.Core.Path.{subst}
use materios_gateway.Sql.{get, upsert}
use materios_gateway.Sql.Laws.{
  any-get, any-false-get, get-append_none, get-update_self, get-update_other,
  get-insert_or_ignore_other, All-update,
}

pub record WorkerBounds : Type 0 where
  pub max_cpu_cores : ℕ
  pub max_ram_gb : ℕ
  pub max_disk_gb : ℕ
  pub max_gpu_count : ℕ

abbrev pub default_bounds : WorkerBounds
default_bounds = record {
  max_cpu_cores = 128;
  max_ram_gb = 2_048;
  max_disk_gb = 16_384;
  max_gpu_count = 8;
}

pub record WorkerBoundsRow : Type 0 where
  pub worker_id : String
  pub bounds : WorkerBounds
  pub created_at : ℕ
  pub updated_at : ℕ

pub record WorkerState : Type 0 where
  pub worker_id : String
  pub last_period_start : ℕ
  pub last_content_hash : Option Text
  pub last_seen_at : ℕ

abbrev bounds_or_default : Option WorkerBoundsRow → WorkerBounds
bounds_or_default none = default_bounds
bounds_or_default (some r) = r.bounds

unfoldable pub get_worker_bounds : String → List WorkerBoundsRow → WorkerBounds
get_worker_bounds w rows = bounds_or_default (get (λ r. str_eq r.worker_id w) rows)

-- Some bound is no positive integer.
abbrev has_zero : WorkerBounds → Bool
has_zero b =
    b.max_cpu_cores == 0 || (b.max_ram_gb == 0 || (b.max_disk_gb == 0 || b.max_gpu_count == 0))

-- `none` is the `TypeError`.
unfoldable pub upsert_worker_bounds :
    String → WorkerBounds → ℕ → List WorkerBoundsRow → Option (List WorkerBoundsRow)
upsert_worker_bounds w b now rows =
    if has_zero b
    then none
    else some (
        upsert (λ r. str_eq r.worker_id w)
          (record { worker_id = w; bounds = b; created_at = now; updated_at = now })
          (λ r. record r { bounds = b; updated_at = now }) rows)

abbrev start_or_zero : Option WorkerState → ℕ
start_or_zero none = 0
start_or_zero (some s) = s.last_period_start

pub get_last_period_start : String → List WorkerState → ℕ
get_last_period_start w rows = start_or_zero (get (λ s. str_eq s.worker_id w) rows)

pub record_worker_submission : String → ℕ → Text → ℕ → List WorkerState → List WorkerState
record_worker_submission w period_start content_hash now =
    upsert (λ s. str_eq s.worker_id w)
      (record {
        worker_id = w;
        last_period_start = period_start;
        last_content_hash = some content_hash;
        last_seen_at = now;
      })
      (λ s. record s {
        last_period_start = period_start;
        last_content_hash = some content_hash;
        last_seen_at = now;
      })

abbrev is_hash : Text → Option Text → Bool
is_hash h none = false
is_hash h (some t) = text_eq t h

abbrev has_content : Text → Option WorkerState → Bool
has_content h none = false
has_content h (some s) = is_hash h s.last_content_hash

pub is_replayed_content : String → Text → List WorkerState → Bool
is_replayed_content w h rows = has_content h (get (λ s. str_eq s.worker_id w) rows)

-- Every bound of a worker is positive.
abbrev pub IsPositive : WorkerBounds → Type 0
IsPositive b =
    (0 < b.max_cpu_cores) × ((0 < b.max_ram_gb) × ((0 < b.max_disk_gb) × (0 < b.max_gpu_count)))

abbrev pub AllPositive : List WorkerBoundsRow → Type 0
AllPositive = All (λ r. IsPositive r.bounds)

has_zero-IsPositive : (b : WorkerBounds) → has_zero b ≡ false → IsPositive b
has_zero-IsPositive b h = ground arith

-- A registration that is not refused keeps the registry free of a bound that is no positive number.
upsert_worker_bounds-AllPositive :
    (w : String) (b : WorkerBounds) (now : ℕ) (rows rows' : List WorkerBoundsRow)
    → AllPositive rows
    → upsert_worker_bounds w b now rows ≡ some rows'
    → AllPositive rows'
unfolding upsert_worker_bounds
upsert_worker_bounds-AllPositive w b now rows rows' h e = elim (Bool-cases (has_zero b)) [
  | inl zero_in ↦ absurd (ground arith)
  | inr positive ↦
      let good = has_zero-IsPositive b positive in
      elim (Bool-cases (any (λ r. str_eq r.worker_id w) rows)) [
        | inl old ↦ subst AllPositive (ground arith) (
            All-update (λ r. IsPositive r.bounds) (λ r. str_eq r.worker_id w)
              (λ r. record r { bounds = b; updated_at = now }) rows (λ r k p. good) h)
        | inr new ↦ subst AllPositive (ground arith) (
            All-append (λ r. IsPositive r.bounds) rows
              (record { worker_id = w; bounds = b; created_at = now; updated_at = now } ∷ []) h
              (good, tt))
      ]
]

get-upsert_self :
    {A : Type 0} (p : A → Bool) (a : A) (f : A → A) (rows : List A)
    → p a ≡ true
    → ((x : A) → p x ≡ true → p (f x) ≡ true)
    → (any p rows ≡ false) × (get p (upsert p a f rows) ≡ some a)
      ⊎ ((x : A) × (get p (upsert p a f rows) ≡ some (f x)))
get-upsert_self p a f rows here keeps = elim (Bool-cases (any p rows)) [
  | inl old ↦
      let (x, found) = any-get p rows old in
      inr (x, (rw (old, get-update_self p f rows keeps, found) refl))
  | inr new ↦
      inl (new, rw (new, get-append_none p rows (a ∷ []) (any-false-get p rows new), here) refl)
]

get-upsert_other :
    {A : Type 0} (p q : A → Bool) (a : A) (f : A → A) (rows : List A)
    → p a ≡ false
    → ((x : A) → q x ≡ true → (p x ≡ false) × (p (f x) ≡ false))
    → get p (upsert q a f rows) ≡ get p rows
get-upsert_other p q a f rows away keeps = elim (Bool-cases (any q rows)) [
  | inl old ↦ rw (old) (get-update_other p q f rows keeps)
  | inr new ↦ rw (← get-insert_or_ignore_other p q a rows away, new) refl
]

-- A name that is one worker's is not another's.
str_eq-other : (w v x : String) → v ≢ w → str_eq x w ≡ true → str_eq x v ≡ false
str_eq-other w v x away h = str_eq-ne x v (λ e. away (sym e ∙ (eq_iff x w).0 h))

-- After a registration that is not refused the worker has the new bounds, and every other worker
-- has the bounds it had.
upsert_worker_bounds_lem :
    (w v : String) (b : WorkerBounds) (now : ℕ) (rows rows' : List WorkerBoundsRow)
    → upsert_worker_bounds w b now rows ≡ some rows'
    → v ≢ w
    → (get_worker_bounds w rows' ≡ b) × (get_worker_bounds v rows' ≡ get_worker_bounds v rows)
unfolding upsert_worker_bounds get_worker_bounds
upsert_worker_bounds_lem w v b now rows rows' e away = elim (Bool-cases (has_zero b)) [
  | inl zero_in ↦ absurd (ground arith)
  | inr positive ↦
      let a : WorkerBoundsRow = record {
        worker_id = w;
        bounds = b;
        created_at = now;
        updated_at = now;
      } in
      let f : WorkerBoundsRow → WorkerBoundsRow = λ r. record r { bounds = b; updated_at = now } in
      let p : WorkerBoundsRow → Bool = λ r. str_eq r.worker_id w in
      let same : upsert p a f rows ≡ rows' = ground arith in
      let mine : get_worker_bounds w (upsert p a f rows) ≡ b =
        elim (get-upsert_self p a f rows (eq_refl w) (λ x h. h)) [
          | inl (_, found) ↦ rw found refl
          | inr (x, found) ↦ rw found refl
        ] in
      let other =
        get-upsert_other (λ r. str_eq r.worker_id v) p a f rows (str_eq-ne w v (λ d. away (sym d)))
          (λ x h. (str_eq-other w v x.worker_id away h, str_eq-other w v x.worker_id away h)) in
      subst (λ t. (get_worker_bounds w t ≡ b) × (get_worker_bounds v t ≡ get_worker_bounds v rows))
        same (mine, rw other refl)
]

-- Recording a submission sets the worker's last period start, and makes its content the one that
-- counts as replayed and no other; it leaves the other workers alone.
record_worker_submission_lem :
    (w v : String) (start now : ℕ) (h k : Text) (rows : List WorkerState)
    → v ≢ w
    → ((get_last_period_start w (record_worker_submission w start h now rows) ≡ start)
        × (is_replayed_content w k (record_worker_submission w start h now rows) ≡ text_eq h k))
      × ((get_last_period_start v (record_worker_submission w start h now rows)
            ≡ get_last_period_start v rows)
          × (is_replayed_content v k (record_worker_submission w start h now rows)
              ≡ is_replayed_content v k rows))
unfolding record_worker_submission get_last_period_start is_replayed_content
record_worker_submission_lem w v start now h k rows away =
    let f : WorkerState → WorkerState =
      λ s. record s { last_period_start = start; last_content_hash = some h; last_seen_at = now } in
    let a : WorkerState = record {
      worker_id = w;
      last_period_start = start;
      last_content_hash = some h;
      last_seen_at = now;
    } in
    let p : WorkerState → Bool = λ s. str_eq s.worker_id w in
    let other =
      get-upsert_other (λ s. str_eq s.worker_id v) p a f rows (str_eq-ne w v (λ d. away (sym d)))
        (λ x e. (str_eq-other w v x.worker_id away e, str_eq-other w v x.worker_id away e)) in
    (
      elim (get-upsert_self p a f rows (eq_refl w) (λ x e. e)) [
        | inl (_, found) ↦ (rw found refl, rw found refl)
        | inr (x, found) ↦ (rw found refl, rw found refl)
      ],
      (rw other refl, rw other refl),
    )
