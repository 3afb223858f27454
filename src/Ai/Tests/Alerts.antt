-- ===== src/Ai/Tests/Alerts.antt =====
-- The notifications of ai/alerts.py at a finding that is found twice.
use data_effi.Prelude.{true, none, some, [], ◌∷◌, ◌≡◌, refl, arith}
use data_effi.Decimal.{whole}
use data_effi.Pipeline.Normalize.Runtime.{is_space}
use data_effi.Pipeline.Tests.Files.{ascii}
use data_effi.Ai.Alerts.{Finding, Board, Formats}
use data_effi.Ai.Alerts.Findings.{persist_findings}
use data_effi.Ai.Alerts.Digest.{persist_digest, fallback_summary}
use data_effi.Ai.Alerts.Spaced.{AlertSteps, AlertStep, spaced, steps-spaced}
use data_effi.Ai.Alerts.Daily.{all_told, persist_findings_again, persist_digest_again}

abbrev formats : Formats
formats = record {
  runtime = ascii;
  isoformat = λ d. "2024-05-01";
  day_month = λ d. "01/05";
  round_2 = λ d. d;
}

abbrev margin : Finding
margin = record {
  code = "below_breakeven";
  country_code = none;
  severity = "critical";
  title = " Cafe ";
  finding = "Cafe pierde plata";
  action = "Sube el precio";
  impact_amount = some (whole 500);
  impact_currency = some "COP";
  deep_link = none;
}

abbrev small : Finding
small = record margin { title = "Te"; impact_amount = none }

abbrev empty_board : Board
empty_board = record { notifications = []; events = []; next_id = 1 }

abbrev told : Board
unfolding persist_findings is_space
told = (persist_findings formats 100 3 7 (some "CO") "urgent" (margin ∷ margin ∷ []) empty_board).0

told_once :
    (persist_findings formats 100 3 7 (some "CO") "urgent" (margin ∷ margin ∷ []) empty_board).1
    ≡ 1 ∷ []
unfolding persist_findings is_space
told_once = refl

told_again_later :
    (persist_findings formats 259200000100 3 7 (some "CO") "urgent" (margin ∷ []) told).1 ≡ 2 ∷ []
unfolding persist_findings is_space told
told_again_later = refl

summary :
    fallback_summary ascii (small ∷ margin ∷ []) ≡ "7 hallazgos para revisar hoy:\n-  Cafe \n- Te"
unfolding fallback_summary
summary = refl

abbrev digested : Board
unfolding persist_digest is_space
digested = (persist_digest formats 200 7 "CO" none (margin ∷ []) [] 19844 told).0

abbrev steps : AlertSteps formats 3 empty_board digested
unfolding digested told
steps =
    AlertSteps.then_step
      (AlertSteps.then_step AlertSteps.start
        (AlertStep.findings 100 7 (some "CO") "urgent" (margin ∷ margin ∷ []) refl))
      (AlertStep.digest 200 7 "CO" none (margin ∷ []) [] 19844 refl)

steps-spaced_example : spaced 3 digested.notifications ≡ true
steps-spaced_example = steps-spaced formats 3 empty_board digested steps refl

persist_findings_again_example :
    (all_told formats 100 3 7
        (some "CO")
        (margin ∷ [])
        (persist_findings formats 100 3 7 (some "CO") "urgent" (margin ∷ []) empty_board).0
      ≡ true)
    × (persist_findings formats 100 3 7
          (some "CO")
          "urgent"
          (margin ∷ [])
          (persist_findings formats 100 3 7 (some "CO") "urgent" (margin ∷ []) empty_board).0
        ≡ ((persist_findings formats 100 3 7 (some "CO") "urgent" (margin ∷ []) empty_board).0, []))
persist_findings_again_example =
    persist_findings_again formats 100 3 7 (some "CO") "urgent" (margin ∷ []) empty_board
      (omega arith)

persist_digest_again_example :
    persist_digest formats 300 7 "CO"
      (some "Resumen")
      []
      []
      19844
      (persist_digest formats 200 7 "CO" none (margin ∷ []) [] 19844 told).0
    ≡ ((persist_digest formats 200 7 "CO" none (margin ∷ []) [] 19844 told).0, none)
persist_digest_again_example =
    persist_digest_again formats 200 300 7 "CO" none (some "Resumen") (margin ∷ []) [] [] [] 19844
      told
