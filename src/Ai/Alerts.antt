-- ===== src/Ai/Alerts.antt =====
-- The notifications of ai/alerts.py: the table raw.notification, with the queries that read it and
-- the insert, and what is stored of the findings, of the digest of a day and of its report.
pub mod Findings
pub mod Digest
pub mod Spaced
pub mod Daily
use Prim.Native.String.{◌++◌}
use data_effi.Prelude.{
  ℕ, suc, ◌+◌, ◌*◌, Bool, ◌&&◌, String, Option, none, some, List, [], ◌∷◌, any, ltb, ◌==◌, str_eq,
  is_blank, take, if◌then◌else◌,
}
use mathlib.Core.List.{◌++◌ as ◌+++◌}
use data_effi.Decimal.{Decimal}
use data_effi.Pipeline.Normalize.Runtime.{Runtime}
use data_effi.Pipeline.Normalize.Text.{strip}

-- The finding of a detector.
pub record Finding : Type 0 where
  pub code : String
  pub country_code : Option String
  pub severity : String
  pub title : String
  pub finding : String
  pub action : String
  pub impact_amount : Option Decimal
  pub impact_currency : Option String
  pub deep_link : Option String

-- _compact
pub record Compact : Type 0 where
  pub code : String
  pub severity : String
  pub title : String
  pub impact_amount : Option Decimal
  pub impact_currency : Option String
  pub deep_link : Option String

pub data Payload : Type 0 where
  no_payload : Payload
  digest_payload : String → Bool → List Compact → Payload
  report_payload : String → String → String → Payload

-- A row of raw.notification; `created_at` in microseconds.
pub record Notification : Type 0 where
  pub id : ℕ
  pub tenant_id : ℕ
  pub country_code : Option String
  pub kind : String
  pub code : String
  pub severity : String
  pub title : String
  pub finding : String
  pub action : String
  pub impact_amount : Option Decimal
  pub impact_currency : Option String
  pub deep_link : Option String
  pub fingerprint : String
  pub payload : Payload
  pub created_at : ℕ

-- The event notification.created.
pub record Created : Type 0 where
  pub tenant_id : ℕ
  pub country_code : Option String
  pub notification_id : ℕ
  pub severity : String
  pub kind : String

-- The table in the order of its inserts, the events that were emitted, and the next id.
pub record Board : Type 0 where
  pub notifications : List Notification
  pub events : List Created
  pub next_id : ℕ

-- What is taken from Python besides the runtime: date.isoformat, strftime('%d/%m') and
-- round(float(_), 2).
pub record Formats : Type 0 where
  pub runtime : Runtime
  pub isoformat : ℕ → String
  pub day_month : ℕ → String
  pub round_2 : Decimal → Decimal

-- a truthy text, or None
abbrev pub filled : Option String → Option String
filled none = none
filled (some s) = if is_blank s then none else some s

abbrev or_blank : Option String → String
or_blank none = ""
or_blank (some s) = s

-- fingerprint
unfoldable pub fingerprint_of : Runtime → String → Option String → String → String
unfolding strip
fingerprint_of r code country subject =
    r.sha256 (code ++ "|" ++ r.upper (or_blank country) ++ "|" ++ strip subject)

abbrev pub day_length : ℕ
day_length = 86400000000

-- DEDUP_DAYS
abbrev dedup_days : ℕ
dedup_days = 3

abbrev pub is_of : ℕ → String → Notification → Bool
is_of tenant digest n = n.tenant_id == tenant && str_eq n.fingerprint digest

-- the SELECT of persist_findings: created_at > now() - make_interval(days => days)
unfoldable pub told_lately : ℕ → ℕ → ℕ → String → List Notification → Bool
told_lately now days tenant digest rows =
    any (λ n. is_of tenant digest n && ltb now (n.created_at + days * day_length)) rows

-- the SELECT of persist_digest and of persist_report_ready
unfoldable pub told_ever : ℕ → String → List Notification → Bool
told_ever tenant digest rows = any (is_of tenant digest) rows

-- _impact_value
abbrev pub impact_value : Formats → Option Decimal → Option Decimal
impact_value f none = none
impact_value f (some d) = some (f.round_2 d)

-- _insert of a row, whose id, title, amount and time are set here
unfoldable pub insert_row : Formats → ℕ → Notification → Board → Board × ℕ
unfolding take
insert_row f now n b = (
  record {
    notifications =
        b.notifications
        +++ record n {
          id = b.next_id;
          title = take 300 n.title;
          impact_amount = impact_value f n.impact_amount;
          created_at = now;
        }
          ∷ [];
    events =
        b.events
        +++ record {
          tenant_id = n.tenant_id;
          country_code = n.country_code;
          notification_id = b.next_id;
          severity = n.severity;
          kind = n.kind;
        }
          ∷ [];
    next_id = suc b.next_id;
  },
  b.next_id,
)
