-- ===== src/Pipeline/Merge.antt =====
-- The merge policy of pipeline/ingest.py: what a repeat sighting of a guide may change.
pub mod Loops
pub mod Status
pub mod Fields
pub mod Idempotence
pub mod Known
use data_effi.Prelude.{
  ℕ, String, Bool, true, false, not, ◌&&◌, ◌||◌, Option, none, some, List, [], ◌∷◌, ◌++◌, foldl,
  ltb, is_some, is_empty, or_else, if◌then◌else◌,
}
use data_effi.Prelude.Equality.{string_eq}
use data_effi.Dict.{Dict, lookup, insert}
use data_effi.Decimal.{Decimal, decimal_eq}
use data_effi.Pipeline.Mapping.Status.{CanonStatus, canon, is_terminal_exception}
use data_effi.Pipeline.Models.{
  Value, value_eq, ShipmentInput, Discrepancy, Entity, static_fields, progress_fields, money_fields,
}

-- A stored shipment.
pub record ShipmentRecord : Type 0 where
  pub tracking_number : String
  pub connection_id : ℕ
  pub tenant_id : ℕ
  pub country_code : String
  pub status_code : String
  pub status_raw : Option String
  pub last_status_at : Option ℕ
  pub attr : String → Option Value
  pub money : String → Option Decimal
  pub first_batch_id : Option ℕ
  pub last_batch_id : Option ℕ

-- `updates`, by the kind of its keys: status_code with status_raw, last_status_at, the money
-- fields, last_batch_id, and the others.
pub record MergeOutcome : Type 0 where
  pub status : Option (String × Option String)
  pub last_status_at : Option ℕ
  pub attrs : Dict String Value
  pub money : Dict String Decimal
  pub last_batch_id : Option ℕ
  pub discrepancies : List Discrepancy
  pub status_advanced : Bool

abbrev pub empty_outcome : MergeOutcome
empty_outcome = record {
  status = none;
  last_status_at = none;
  attrs = [];
  money = [];
  last_batch_id = none;
  discrepancies = [];
  status_advanced = false;
}

-- bool(self.updates)
unfoldable pub changed : MergeOutcome → Bool
changed o =
    is_some o.status
    || is_some o.last_status_at
    || not (is_empty o.attrs)
    || not (is_empty o.money)
    || is_some o.last_batch_id

-- the test of the status step
unfoldable pub may_advance : CanonStatus → CanonStatus → Bool → Bool
may_advance current proposed allowed_from_terminal =
    (not current.is_terminal || allowed_from_terminal) && ltb current.sort_order proposed.sort_order

unfoldable pub status_step :
    CanonStatus → CanonStatus → ShipmentRecord → ShipmentInput → MergeOutcome → MergeOutcome
unfolding may_advance
status_step current proposed existing incoming o =
    if may_advance current proposed
      (is_terminal_exception existing.status_code incoming.status_code)
    then record o {
      status = some (incoming.status_code, incoming.status_raw);
      status_advanced = true;
    }
    else o

-- the newer of two sightings, if the incoming one is newer
unfoldable pub newer : Option ℕ → Option ℕ → Option ℕ
newer existing none = none
newer none (some t) = some t
newer (some s) (some t) = if ltb s t then some t else none

unfoldable pub sighting_step : ShipmentRecord → ShipmentInput → MergeOutcome → MergeOutcome
unfolding newer
sighting_step existing incoming o = record o {
  last_status_at = or_else (newer existing.last_status_at incoming.last_status_at) o.last_status_at;
}

-- static fields: fill gaps only
fill_gap : String → Option Value → Option Value → MergeOutcome → MergeOutcome
fill_gap name none current o = o
fill_gap name (some new) none o = record o { attrs = insert name new o.attrs }
fill_gap name (some new) (some current) o = o

static_step : ShipmentRecord → ShipmentInput → MergeOutcome → String → MergeOutcome
unfolding fill_gap
static_step existing incoming o name = fill_gap name (incoming.attr name) (existing.attr name) o

-- progress fields: newest wins, no discrepancy
refresh : String → Option Value → Option Value → MergeOutcome → MergeOutcome
refresh name none current o = o
refresh name (some new) none o = record o { attrs = insert name new o.attrs }
refresh name (some new) (some current) o =
    if value_eq current new then o else record o { attrs = insert name new o.attrs }

progress_step : ShipmentRecord → ShipmentInput → MergeOutcome → String → MergeOutcome
unfolding refresh
progress_step existing incoming o name = refresh name (incoming.attr name) (existing.attr name) o

-- money: newest wins, discrepancies recorded
newest : String → String → Option Decimal → Option Decimal → MergeOutcome → MergeOutcome
newest key name none current o = o
newest key name (some new) none o = record o { money = insert name new o.money }
newest key name (some new) (some current) o = if decimal_eq current new then o else record o {
  money = insert name new o.money;
  discrepancies =
      o.discrepancies
      ++ (record {
        entity = Entity.shipment;
        entity_key = key;
        field_name = name;
        old_value = current;
        new_value = new;
      })
        ∷ [];
}

money_step : ShipmentRecord → ShipmentInput → MergeOutcome → String → MergeOutcome
unfolding newest
money_step existing incoming o name =
    newest existing.tracking_number name (incoming.money name) (existing.money name) o

-- the three loops over the field names
unfoldable pub field_steps : ShipmentRecord → ShipmentInput → MergeOutcome → MergeOutcome
unfolding static_step progress_step money_step
field_steps existing incoming o =
    let filled = foldl (static_step existing incoming) o static_fields in
    let refreshed = foldl (progress_step existing incoming) filled progress_fields in
    foldl (money_step existing incoming) refreshed money_fields

-- the body, once both statuses are found
unfoldable pub merge_known :
    CanonStatus → CanonStatus → ShipmentRecord → ShipmentInput → MergeOutcome
unfolding status_step sighting_step field_steps
merge_known current proposed existing incoming =
    field_steps existing incoming (
      sighting_step existing incoming
        (status_step current proposed existing incoming empty_outcome))

merge_found :
    Option CanonStatus → Option CanonStatus → ShipmentRecord → ShipmentInput → Option MergeOutcome
unfolding merge_known
merge_found (some current) (some proposed) existing incoming =
    some (merge_known current proposed existing incoming)
merge_found _ _ existing incoming = none

-- None is the KeyError of a status that is not in STATUS_CANON
unfoldable pub merge_shipment : ShipmentRecord → ShipmentInput → Option MergeOutcome
unfolding merge_found
merge_shipment existing incoming =
    merge_found (canon existing.status_code) (canon incoming.status_code) existing incoming

-- replace(existing, **updates)
abbrev pub replaced : ShipmentRecord → MergeOutcome → ShipmentRecord
replaced e o = record e {
  status_code = elim o.status [ none ↦ e.status_code | some s ↦ s.0 ];
  status_raw = elim o.status [ none ↦ e.status_raw | some s ↦ s.1 ];
  last_status_at = or_else o.last_status_at e.last_status_at;
  attr = λ name. or_else (lookup name o.attrs) (e.attr name);
  money = λ name. or_else (lookup name o.money) (e.money name);
  last_batch_id = or_else o.last_batch_id e.last_batch_id;
}

unfoldable pub apply_merge : ShipmentRecord → MergeOutcome → ShipmentRecord
unfolding changed
apply_merge existing o = if changed o then replaced existing o else existing
