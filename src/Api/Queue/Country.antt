-- ===== src/Api/Queue/Country.antt =====
-- `_resolve_country` and `_country_from_file` of api/ingest_queue.py.
use data_effi.Prelude.{String, Option, none, some, List, [], ◌∷◌, if◌then◌else◌, or_else, is_blank}
use data_effi.Prelude.Equality.{nat_eq, string_eq}
use data_effi.Dict.{Dict, lookup}
use data_effi.Pipeline.Normalize.Runtime.{Runtime}
use data_effi.Pipeline.Profiles.{SourceProfile, detect_profile, detect_country}
use data_effi.Pipeline.Readers.Bytes.{Bytes}
use data_effi.Pipeline.Readers.Tables.{Reading, Table, table, unsupported, empty_file, read_tabular}
use data_effi.Api.Queue.State.{JobError, UploadJob, Desk, Loader}

abbrev country_by : Runtime → Table → Option SourceProfile → Option String
unfolding detect_country
country_by r t none = none
country_by r t (some p) = detect_country r t.headers t.rows p

module _ {S : Type 0} (l : Loader S) where
  unfoldable pub country_of_reading : UploadJob → Reading → Option String
  unfolding country_by detect_profile
  country_of_reading job (table t) =
      country_by l.runtime t (detect_profile l.runtime l.known_profiles t.headers job.kind)
  country_of_reading job unsupported = none
  country_of_reading job empty_file = none

  -- _country_from_file
  unfoldable pub country_from_file : UploadJob → Bytes → Option String
  unfolding country_of_reading read_tabular
  country_from_file job payload =
      country_of_reading job (read_tabular l.runtime l.libraries payload (l.ends_with job.filename))

-- `job["country_code"] or ...`
abbrev pub named : Option String → Option String
named none = none
named (some s) = if is_blank s then none else some s

-- the country of a workspace that has one
abbrev pub only_country : List String → Option String
only_country (c ∷ []) = some c
only_country _ = none

-- A country with its currency, or CountryUndeterminedError.
pub data Resolved : Type 0 where
  resolved : String → String → Resolved
  unresolved : JobError → Resolved

abbrev priced : String → Option String → Resolved
priced country none = Resolved.unresolved (JobError.country_unsupported country)
priced country (some currency) = Resolved.resolved country currency

abbrev pub in_country : Dict String String → Option String → Resolved
unfolding lookup
in_country currencies none = Resolved.unresolved JobError.country_undetermined
in_country currencies (some country) = priced country (lookup country currencies)

abbrev pub told_country : Option String → List String → Option String
told_country none active = only_country active
told_country (some country) active = some country

module _ {S : Type 0} (l : Loader S) where
  -- _resolve_country
  unfoldable pub resolve : UploadJob → Bytes → Desk S → Resolved
  unfolding country_from_file in_country
  resolve job payload d = in_country d.currencies (
      told_country (or_else (named job.connection_country) (country_from_file l job payload))
        (d.active job.tenant_id))
