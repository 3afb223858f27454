-- ===== src/Ai/Sql/Lists.antt =====
-- The lists of ai/nl2sql.py: the views that a query may read, and the words that it may not hold.
use data_effi.Prelude.{ℕ, String, List, [], ◌∷◌}

-- MAX_ROWS
abbrev pub max_rows : ℕ
max_rows = 500

-- ALLOWED_VIEWS
abbrev pub allowed_views : List String
allowed_views =
    "v_daily_contribution" ∷ "v_carrier_effectiveness" ∷ "v_geo_performance"
    ∷ "v_product_performance" ∷ "v_cohort_maturation" ∷ "v_aging" ∷ "v_cs_confirmation"
    ∷ "v_cpa_roas" ∷ "v_global_summary" ∷ "v_connection_health" ∷ "v_available_platforms"
    ∷ "v_country_dashboard_layout" ∷ "v_batch_history" ∷ "v_alert_signals" ∷ "v_problem_rate"
    ∷ "v_cash_cycle" ∷ "v_dropshipping_margin" ∷ "v_fulfillment_sla" ∷ "v_office_rescue"
    ∷ "v_freight_analysis" ∷ "v_product_catalogue" ∷ "v_carrier_by_zone"
    ∷ "v_daily_status_by_platform" ∷ "v_platform_summary" ∷ []

-- NEVER_ALLOWED_VIEWS
abbrev pub never_allowed_views : List String
never_allowed_views = "v_source_row_archive" ∷ "v_ai_memory" ∷ []

-- FORBIDDEN_FUNCTIONS
abbrev pub forbidden_functions : List String
forbidden_functions =
    "pg_read_file" ∷ "pg_read_binary_file" ∷ "pg_ls_dir" ∷ "pg_stat_file" ∷ "pg_sleep"
    ∷ "pg_sleep_for" ∷ "pg_sleep_until" ∷ "lo_import" ∷ "lo_export" ∷ "dblink" ∷ "dblink_exec"
    ∷ "pg_terminate_backend" ∷ "pg_cancel_backend" ∷ "pg_reload_conf" ∷ "set_config"
    ∷ "current_setting" ∷ "pg_read_server_files" ∷ "query_to_xml" ∷ "xmlelement" ∷ "copy"
    ∷ "pg_client_encoding" ∷ "pg_backend_pid" ∷ "convert_from" ∷ "decode" ∷ "encode" ∷ "chr"
    ∷ "version" ∷ "current_user" ∷ "session_user" ∷ "current_database" ∷ "inet_client_addr"
    ∷ "inet_server_addr" ∷ "pg_stat_activity" ∷ "has_table_privilege" ∷ "pg_get_functiondef" ∷ []

-- FORBIDDEN_BARE_KEYWORDS
abbrev pub forbidden_bare_keywords : List String
forbidden_bare_keywords =
    "current_user" ∷ "session_user" ∷ "current_role" ∷ "current_catalog" ∷ "current_database"
    ∷ "current_schema" ∷ "system_user" ∷ []
