-- ===== src/Ai/Alerts/Digest.antt =====
-- `persist_digest` and `persist_report_ready` of ai/alerts.py.
use Prim.Native.String.{◌++◌}
use data_effi.Prelude.{
  ℕ, zero, suc, ◌-◌, String, Option, none, some, List, [], ◌∷◌, map, or_else, is_some, is_empty,
  length, ◌==◌, take, if◌then◌else◌,
}
use mathlib.Core.List.{◌++◌ as ◌+++◌}
use data_effi.Prelude.Int.{pos}
use data_effi.Decimal.{Decimal, decimal_lt, whole}
use data_effi.Pipeline.Normalize.Runtime.{Runtime, Cell}
use data_effi.Pipeline.Normalize.Text.{strip}
use data_effi.Ai.Alerts.{
  Finding, Compact, Notification, Board, Formats, Payload, filled, fingerprint_of, told_ever,
  insert_row, impact_value,
}

-- MAX_DIGEST_CHARS and REPORT_WINDOW_DAYS
abbrev max_digest_chars : ℕ
max_digest_chars = 1500

abbrev report_window_days : ℕ
report_window_days = 14

-- _impact
abbrev impact : Finding → Decimal
impact item = elim item.impact_amount [ none ↦ whole 0 | some d ↦ d ]

-- max, which keeps the first of the greatest
greatest : Decimal → List Finding → Decimal
unfolding decimal_lt
greatest best [] = best
greatest best (item ∷ items) =
    greatest (if decimal_lt best (impact item) then impact item else best) items

abbrev worst : List Finding → Option Decimal
unfolding greatest
worst [] = none
worst (item ∷ items) = some (greatest (impact item) items)

-- the first currency, and the first action, that is not blank
first_currency : List Finding → Option String
first_currency [] = none
first_currency (item ∷ items) = or_else (filled item.impact_currency) (first_currency items)

first_action : List Finding → Option String
first_action [] = none
first_action (item ∷ items) = or_else (filled (some item.action)) (first_action items)

-- sorted(items, key=_impact, reverse=True), which leaves equal ones in their order
by_impact : Finding → List Finding → List Finding
unfolding decimal_lt
by_impact item [] = item ∷ []
by_impact item (next ∷ rest) =
    let further = by_impact item rest in
    if decimal_lt (impact item) (impact next) then next ∷ further else item ∷ next ∷ rest

worst_first : List Finding → List Finding
unfolding by_impact
worst_first [] = []
worst_first (item ∷ items) = by_impact item (worst_first items)

abbrev first_items : ℕ → List Finding → List Finding
first_items zero items = []
first_items (suc n) [] = []
first_items (suc n) (item ∷ items) = item ∷ first_items n items

-- the lines after the header, each with the end of the line before it
lines : List Finding → String
lines [] = ""
lines (item ∷ items) = "\n- " ++ item.title ++ lines items

-- _fallback_summary
unfoldable pub fallback_summary : Runtime → List Finding → String
unfolding worst_first lines take
fallback_summary r items = take max_digest_chars (
    r.show (Cell.integer (pos (length items)))
    ++ " hallazgo"
    ++ (if length items == 1 then "" else "s")
    ++ " para revisar hoy:"
    ++ lines (first_items 6 (worst_first items)))

-- _compact
abbrev compact_finding : Formats → Finding → Compact
compact_finding f item = record {
  code = item.code;
  severity = item.severity;
  title = item.title;
  impact_amount = impact_value f item.impact_amount;
  impact_currency = item.impact_currency;
  deep_link = item.deep_link;
}

abbrev digest_text : Formats → Option String → List Finding → String
unfolding fallback_summary take strip
digest_text f (some brief) items = take max_digest_chars (strip brief)
digest_text f none [] =
    "Ningún detector encontró algo que corregir hoy. Los números del tablero siguen siendo la fuente."
digest_text f none (item ∷ items) = fallback_summary f.runtime (item ∷ items)

abbrev pub or_default : Option String → String → String
or_default none s = s
or_default (some t) s = t

-- the arguments of _insert
abbrev pub digest_row : Formats → ℕ → String → Option String → List Finding → ℕ → Notification
unfolding fingerprint_of digest_text worst first_currency first_action
digest_row f tenant country brief items local_date = record {
  id = 0;
  tenant_id = tenant;
  country_code = some country;
  kind = "digest";
  code = "daily_digest";
  severity = if is_empty items then "info" else "warning";
  title = "Resumen del " ++ f.day_month local_date ++ " · " ++ country;
  finding = digest_text f (filled brief) items;
  action =
      or_default (first_action items) "Abre el tablero del país y revisa la efectividad de hoy.";
  impact_amount = worst items;
  impact_currency = first_currency items;
  deep_link = some ("/" ++ f.runtime.lower country);
  fingerprint = fingerprint_of f.runtime "digest" (some country) (f.isoformat local_date);
  payload =
      Payload.digest_payload (f.isoformat local_date) (is_some (filled brief))
        (map (compact_finding f) (first_items 12 items));
  created_at = 0;
}

abbrev pub report_row : Formats → ℕ → String → ℕ → Notification
unfolding fingerprint_of
report_row f tenant country local_date =
    let date_to = local_date - 1 in
    let date_from = local_date - report_window_days in
    record {
      id = 0;
      tenant_id = tenant;
      country_code = some country;
      kind = "system";
      code = "daily_report";
      severity = "info";
      title = "Informe diario consolidado · " ++ country;
      finding =
          "Guías por día y por plataforma del "
          ++ f.day_month date_from
          ++ " al "
          ++ f.day_month date_to
          ++ ": entregadas, devueltas, en camino y con novedad, "
          ++ "con el consolidado de Effi, Dropi y carga manual.";
      action = "Ábrelo, revísalo y guárdalo en PDF desde el mismo informe para compartirlo.";
      impact_amount = none;
      impact_currency = none;
      deep_link = some (
          "/"
          ++ f.runtime.lower country
          ++ "/informe?from="
          ++ f.isoformat date_from
          ++ "&to="
          ++ f.isoformat date_to);
      fingerprint = fingerprint_of f.runtime "report" (some country) (f.isoformat local_date);
      payload =
          Payload.report_payload (f.isoformat local_date) (f.isoformat date_from)
            (f.isoformat date_to);
      created_at = 0;
    }

abbrev with_id : Board × ℕ → Board × Option ℕ
with_id (b, id) = (b, some id)

-- the insert, unless the tenant was ever told
unfoldable pub insert_once : Formats → ℕ → Notification → Board → Board × Option ℕ
unfolding told_ever insert_row
insert_once f now row b =
    if told_ever row.tenant_id row.fingerprint b.notifications
    then (b, none)
    else with_id (insert_row f now row b)

unfoldable pub persist_digest :
    Formats
    → ℕ
    → ℕ
    → String
    → Option String
    → List Finding
    → List Finding
    → ℕ
    → Board
    → Board × Option ℕ
unfolding insert_once digest_row
persist_digest f now tenant country_code brief recommendations alerts local_date b =
    insert_once f now
      (digest_row f tenant (f.runtime.upper country_code) brief (recommendations +++ alerts)
        local_date)
      b

unfoldable pub persist_report_ready : Formats → ℕ → ℕ → String → ℕ → Board → Board × Option ℕ
unfolding insert_once report_row
persist_report_ready f now tenant country_code local_date b =
    insert_once f now (report_row f tenant (f.runtime.upper country_code) local_date) b
