-- ===== src/Ai/Alerts/Findings.antt =====
-- `persist_findings` of ai/alerts.py.
use data_effi.Prelude.{ℕ, String, Option, List, [], ◌∷◌, ◌++◌, or_else, if◌then◌else◌}
use data_effi.Ai.Alerts.{
  Finding, Notification, Board, Formats, Payload, filled, fingerprint_of, told_lately, insert_row,
}

-- item.get("country_code") or country_code or None
abbrev pub finding_country : Option String → Finding → Option String
finding_country country_code item = or_else (filled item.country_code) (filled country_code)

unfoldable pub digest_of : Formats → Option String → Finding → String
unfolding fingerprint_of
digest_of f country_code item =
    fingerprint_of f.runtime item.code (finding_country country_code item) item.title

-- the arguments of _insert; what the insert sets is 0 here
abbrev pub row_of : Formats → ℕ → Option String → String → Finding → Notification
unfolding digest_of
row_of f tenant country_code kind item = record {
  id = 0;
  tenant_id = tenant;
  country_code = finding_country country_code item;
  kind = kind;
  code = item.code;
  severity = item.severity;
  title = item.title;
  finding = item.finding;
  action = item.action;
  impact_amount = item.impact_amount;
  impact_currency = item.impact_currency;
  deep_link = item.deep_link;
  fingerprint = digest_of f country_code item;
  payload = Payload.no_payload;
  created_at = 0;
}

-- the body of the loop
unfoldable pub persist_finding :
    Formats → ℕ → ℕ → ℕ → Option String → String → Finding → Board × List ℕ → Board × List ℕ
unfolding digest_of told_lately insert_row row_of
persist_finding f now days tenant country_code kind item (b, created) =
    if told_lately now days tenant (digest_of f country_code item) b.notifications
    then (b, created)
    else let (b', id) = insert_row f now (row_of f tenant country_code kind item) b in
      (b', created ++ id ∷ [])

unfoldable pub persist_from :
    Formats → ℕ → ℕ → ℕ → Option String → String → List Finding → Board × List ℕ → Board × List ℕ
unfolding persist_finding
persist_from f now days tenant country_code kind [] acc = acc
persist_from f now days tenant country_code kind (item ∷ items) acc =
    persist_from f now days tenant country_code kind items
      (persist_finding f now days tenant country_code kind item acc)

unfoldable pub persist_findings :
    Formats → ℕ → ℕ → ℕ → Option String → String → List Finding → Board → Board × List ℕ
unfolding persist_from
persist_findings f now days tenant country_code kind items b =
    persist_from f now days tenant country_code kind items (b, [])
