-- ===== src/Ai/Alerts/Spaced.antt =====
-- What ai/alerts.py keeps of the table of notifications: the same finding is not told twice within
-- its window.
use data_effi.Prelude.{
  ℕ, ◌+◌, ◌*◌, ◌≡◌, refl, sym, ◌∙◌, Bool, true, false, not, ◌&&◌, String, Option, List, [], ◌∷◌,
  ◌++◌, all, any, all-append, ltb, Bool-cases, and_parts, and_of, or_false_parts, inl, inr,
}
use data_effi.Ai.Alerts.{
  Finding, Notification, Board, Formats, is_of, told_lately, told_ever, insert_row, day_length,
}
use data_effi.Ai.Alerts.Findings.{
  persist_findings, persist_from, persist_finding, digest_of, row_of,
}
use data_effi.Ai.Alerts.Digest.{
  insert_once, digest_row, report_row, persist_digest, persist_report_ready,
}

-- A row and an earlier one are not of one tenant with one fingerprint, or the earlier one was out of
-- the window when the later one was written.
abbrev pub apart : ℕ → Notification → Notification → Bool
apart days later earlier = not (
    is_of later.tenant_id later.fingerprint earlier
    && ltb later.created_at (earlier.created_at + days * day_length))

abbrev pub spaced : ℕ → List Notification → Bool
spaced days [] = true
spaced days (n ∷ ns) = all (λ m. apart days m n) ns && spaced days ns

spaced-append :
    (days : ℕ) (rows : List Notification) (m : Notification)
    → spaced days rows ≡ true
    → all (apart days m) rows ≡ true
    → spaced days (rows ++ m ∷ []) ≡ true
spaced-append days [] m h a = refl
spaced-append days (n ∷ ns) m h a =
    let hs = and_parts (all (λ k. apart days k n) ns) (spaced days ns) h in
    let ha = and_parts (apart days m n) (all (apart days m) ns) a in
    and_of (all (λ k. apart days k n) (ns ++ m ∷ [])) (spaced days (ns ++ m ∷ []))
      (all-append (λ k. apart days k n) ns (m ∷ [])
        ∙ and_of (all (λ k. apart days k n) ns) (all (λ k. apart days k n) (m ∷ [])) hs.0
            (and_of (apart days m n) true ha.0 refl))
      (spaced-append days ns m hs.1 ha.1)

none_of :
    {A : Type 0} (q : A → Bool) (xs : List A) → any q xs ≡ false → all (λ x. not (q x)) xs ≡ true
none_of q [] h = refl
none_of q (x ∷ xs) h = let e = or_false_parts (q x) (any q xs) h in rw e.0 (none_of q xs e.1)

pub insert_row-spaced :
    (f : Formats) (now days : ℕ) (n : Notification) (b : Board)
    → told_lately now days n.tenant_id n.fingerprint b.notifications ≡ false
    → spaced days b.notifications ≡ true
    → spaced days (insert_row f now n b).0.notifications ≡ true
unfolding insert_row told_lately
insert_row-spaced f now days n b h s = spaced-append days b.notifications _ s (
    none_of (λ m. is_of n.tenant_id n.fingerprint m && ltb now (m.created_at + days * day_length))
      b.notifications h)

persist_finding-spaced :
    (f : Formats) (now days tenant : ℕ) (country : Option String) (kind : String) (item : Finding)
    (acc : Board × List ℕ)
    → spaced days acc.0.notifications ≡ true
    → spaced days (persist_finding f now days tenant country kind item acc).0.notifications ≡ true
unfolding persist_finding
persist_finding-spaced f now days tenant country kind item (b, ids) s =
    elim (Bool-cases (told_lately now days tenant (digest_of f country item) b.notifications)) [
      | inl told ↦ rw told s
      | inr fresh ↦
          rw fresh (insert_row-spaced f now days (row_of f tenant country kind item) b fresh s)
    ]

persist_from-spaced :
    (f : Formats) (now days tenant : ℕ) (country : Option String) (kind : String)
    (items : List Finding) (acc : Board × List ℕ)
    → spaced days acc.0.notifications ≡ true
    → spaced days (persist_from f now days tenant country kind items acc).0.notifications ≡ true
unfolding persist_from
persist_from-spaced f now days tenant country kind [] acc s = s
persist_from-spaced f now days tenant country kind (item ∷ items) acc s =
    persist_from-spaced f now days tenant country kind items
      (persist_finding f now days tenant country kind item acc)
      (persist_finding-spaced f now days tenant country kind item acc s)

pub persist_findings-spaced :
    (f : Formats) (now days tenant : ℕ) (country : Option String) (kind : String)
    (items : List Finding) (b : Board)
    → spaced days b.notifications ≡ true
    → spaced days (persist_findings f now days tenant country kind items b).0.notifications ≡ true
unfolding persist_findings
persist_findings-spaced f now days tenant country kind items b s =
    persist_from-spaced f now days tenant country kind items (b, []) s

-- Who was never told was not told lately.
told_ever-lately :
    (now days tenant : ℕ) (digest : String) (rows : List Notification)
    → told_ever tenant digest rows ≡ false
    → told_lately now days tenant digest rows ≡ false
unfolding told_ever told_lately
told_ever-lately now days tenant digest [] h = refl
told_ever-lately now days tenant digest (n ∷ ns) h =
    let e = or_false_parts (is_of tenant digest n) (any (is_of tenant digest) ns) h in
    rw e.0 (told_ever-lately now days tenant digest ns e.1)

insert_once-spaced :
    (f : Formats) (now days : ℕ) (n : Notification) (b : Board)
    → spaced days b.notifications ≡ true
    → spaced days (insert_once f now n b).0.notifications ≡ true
unfolding insert_once
insert_once-spaced f now days n b s =
    elim (Bool-cases (told_ever n.tenant_id n.fingerprint b.notifications)) [
      | inl told ↦ rw told s
      | inr fresh ↦ rw fresh (
          insert_row-spaced f now days n b
            (told_ever-lately now days n.tenant_id n.fingerprint b.notifications fresh) s)
    ]

-- What is done to the table, with one window for the findings.
pub data AlertStep (f : Formats) (days : ℕ) : Board → Board → Type 0 where
  findings :
      {b c : Board} (now tenant : ℕ) (country : Option String) (kind : String)
      (items : List Finding)
      → (persist_findings f now days tenant country kind items b).0 ≡ c
      → AlertStep f days b c
  digest :
      {b c : Board} (now tenant : ℕ) (country : String) (brief : Option String)
      (recommendations alerts : List Finding) (local_date : ℕ)
      → (persist_digest f now tenant country brief recommendations alerts local_date b).0 ≡ c
      → AlertStep f days b c
  report :
      {b c : Board} (now tenant : ℕ) (country : String) (local_date : ℕ)
      → (persist_report_ready f now tenant country local_date b).0 ≡ c
      → AlertStep f days b c

pub data AlertSteps (f : Formats) (days : ℕ) : Board → Board → Type 0 where
  start : {b : Board} → AlertSteps f days b b
  then_step : {b c d : Board} → AlertSteps f days b c → AlertStep f days c d → AlertSteps f days b d

step-spaced :
    (f : Formats) (days : ℕ) (b c : Board)
    → AlertStep f days b c
    → spaced days b.notifications ≡ true
    → spaced days c.notifications ≡ true
unfolding persist_digest persist_report_ready
step-spaced f days b c (findings now tenant country kind items e) s =
    rw (sym e) (persist_findings-spaced f now days tenant country kind items b s)
step-spaced f days b c (digest now tenant country brief recommendations alerts local_date e) s =
    rw (sym e) (
      insert_once-spaced f now days
        (digest_row f tenant (f.runtime.upper country) brief (recommendations ++ alerts) local_date)
        b s)
step-spaced f days b c (report now tenant country local_date e) s =
    rw (sym e)
      (insert_once-spaced f now days (report_row f tenant (f.runtime.upper country) local_date) b s)

-- If no two rows of a table have one tenant and one fingerprint and were written within the window
-- of days, then neither do two rows of the table after any sequence of persist_findings with that
-- window, persist_digest and persist_report_ready, at any moments.
pub steps-spaced :
    (f : Formats) (days : ℕ) (b c : Board)
    → AlertSteps f days b c
    → spaced days b.notifications ≡ true
    → spaced days c.notifications ≡ true
steps-spaced f days b c start s = s
steps-spaced f days b c (then_step {c = m} before last) s =
    step-spaced f days m c last (steps-spaced f days b m before s)
