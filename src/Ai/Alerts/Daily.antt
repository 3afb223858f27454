-- ===== src/Ai/Alerts/Daily.antt =====
-- What ai/alerts.py tells at last, and tells once: findings, the digest and the report of a day.
use data_effi.Prelude.{
  ℕ, ◌+◌, ◌*◌, ◌<◌, ◌≡◌, refl, ◌∙◌, Bool, true, false, ◌&&◌, ◌||◌, String, Option, none, List, [],
  ◌∷◌, ◌++◌, all, any, any-append, ltb, lt→ltb, ◌==◌, str_eq, str_eq_refl, arith, Bool-cases, inl,
  inr, ==_iff, and_of, and_parts,
}
use data_effi.Ai.Alerts.{
  Finding, Notification, Board, Formats, is_of, told_lately, told_ever, insert_row, day_length,
}
use data_effi.Ai.Alerts.Findings.{
  persist_findings, persist_from, persist_finding, digest_of, row_of,
}
use data_effi.Ai.Alerts.Digest.{insert_once, digest_row, persist_digest}

or_of_right : (a b : Bool) → b ≡ true → (a || b) ≡ true
or_of_right true b h = refl
or_of_right false b h = h

or_of_left : (a b : Bool) → a ≡ true → (a || b) ≡ true
or_of_left true b h = refl
or_of_left false b h = cc

any-last :
    {A : Type 0} (q : A → Bool) (xs : List A) (x : A) → q x ≡ true → any q (xs ++ x ∷ []) ≡ true
any-last q xs x h =
    any-append q xs (x ∷ []) ∙ or_of_right (any q xs) (any q (x ∷ [])) (or_of_left (q x) false h)

any-left : {A : Type 0} (q : A → Bool) (xs ys : List A) → any q xs ≡ true → any q (xs ++ ys) ≡ true
any-left q xs ys h = any-append q xs ys ∙ or_of_left (any q xs) (any q ys) h

is_of_refl : (n : Notification) → is_of n.tenant_id n.fingerprint n ≡ true
is_of_refl n =
    and_of (n.tenant_id == n.tenant_id) (str_eq n.fingerprint n.fingerprint)
      ((==_iff n.tenant_id n.tenant_id).1 refl) (str_eq_refl n.fingerprint)

-- A row that was written is found.
insert_row-told :
    (f : Formats) (now days : ℕ) (n : Notification) (b : Board)
    → 0 < days
    → told_lately now days n.tenant_id n.fingerprint (insert_row f now n b).0.notifications ≡ true
unfolding told_lately insert_row
insert_row-told f now days n b h =
    any-last (λ m. is_of n.tenant_id n.fingerprint m && ltb now (m.created_at + days * day_length))
      b.notifications _
      (and_of (is_of n.tenant_id n.fingerprint n) (ltb now (now + days * day_length)) (is_of_refl n)
        (lt→ltb now (now + days * day_length) (omega arith)))

insert_row-told_ever :
    (f : Formats) (now : ℕ) (n : Notification) (b : Board)
    → told_ever n.tenant_id n.fingerprint (insert_row f now n b).0.notifications ≡ true
unfolding told_ever insert_row
insert_row-told_ever f now n b =
    any-last (is_of n.tenant_id n.fingerprint) b.notifications _ (is_of_refl n)

-- What is told stays told.
insert_row-keeps :
    (f : Formats) (now days tenant : ℕ) (fp : String) (n : Notification) (b : Board)
    → told_lately now days tenant fp b.notifications ≡ true
    → told_lately now days tenant fp (insert_row f now n b).0.notifications ≡ true
unfolding told_lately insert_row
insert_row-keeps f now days tenant fp n b h =
    any-left (λ m. is_of tenant fp m && ltb now (m.created_at + days * day_length)) b.notifications
      _ h

insert_once-idle :
    (f : Formats) (now : ℕ) (n : Notification) (b : Board)
    → told_ever n.tenant_id n.fingerprint b.notifications ≡ true
    → insert_once f now n b ≡ (b, none)
unfolding insert_once
insert_once-idle f now n b h = rw h refl

insert_once-told :
    (f : Formats) (now : ℕ) (n : Notification) (b : Board)
    → told_ever n.tenant_id n.fingerprint (insert_once f now n b).0.notifications ≡ true
unfolding insert_once
insert_once-told f now n b =
    elim (Bool-cases (told_ever n.tenant_id n.fingerprint b.notifications)) [
      | inl told ↦ rw told told
      | inr fresh ↦ rw fresh (insert_row-told_ever f now n b)
    ]

-- After persist_digest, another one of the same tenant, country and day, at any moment and with
-- any brief and findings, leaves the table as it is and returns none.
pub persist_digest_again :
    (f : Formats) (now later tenant : ℕ) (country : String) (brief brief' : Option String)
    (recommendations recommendations' alerts alerts' : List Finding) (local_date : ℕ) (b : Board)
    → let done = persist_digest f now tenant country brief recommendations alerts local_date b in
      persist_digest f later tenant country brief' recommendations' alerts' local_date done.0
      ≡ (done.0, none)
unfolding persist_digest
persist_digest_again f now later tenant country brief brief' rs rs' as' as'' local_date b =
    let row = digest_row f tenant (f.runtime.upper country) brief (rs ++ as') local_date in
    insert_once-idle f later
      (digest_row f tenant (f.runtime.upper country) brief' (rs' ++ as'') local_date)
      (insert_once f now row b).0 (insert_once-told f now row b)

persist_finding-told :
    (f : Formats) (now days tenant : ℕ) (country : Option String) (kind : String) (item : Finding)
    (acc : Board × List ℕ)
    → 0 < days
    → told_lately now days tenant
        (digest_of f country item)
        (persist_finding f now days tenant country kind item acc).0.notifications
      ≡ true
unfolding persist_finding
persist_finding-told f now days tenant country kind item (b, ids) h =
    elim (Bool-cases (told_lately now days tenant (digest_of f country item) b.notifications)) [
      | inl told ↦ rw told told
      | inr fresh ↦ rw fresh (insert_row-told f now days (row_of f tenant country kind item) b h)
    ]

persist_finding-keeps :
    (f : Formats) (now days tenant : ℕ) (country : Option String) (kind : String) (item : Finding)
    (acc : Board × List ℕ) (fp : String)
    → told_lately now days tenant fp acc.0.notifications ≡ true
    → told_lately now days tenant fp
        (persist_finding f now days tenant country kind item acc).0.notifications
      ≡ true
unfolding persist_finding
persist_finding-keeps f now days tenant country kind item (b, ids) fp h =
    elim (Bool-cases (told_lately now days tenant (digest_of f country item) b.notifications)) [
      | inl told ↦ rw told h
      | inr fresh ↦
          rw fresh (insert_row-keeps f now days tenant fp (row_of f tenant country kind item) b h)
    ]

persist_from-keeps :
    (f : Formats) (now days tenant : ℕ) (country : Option String) (kind : String)
    (items : List Finding) (acc : Board × List ℕ) (fp : String)
    → told_lately now days tenant fp acc.0.notifications ≡ true
    → told_lately now days tenant fp
        (persist_from f now days tenant country kind items acc).0.notifications
      ≡ true
unfolding persist_from
persist_from-keeps f now days tenant country kind [] acc fp h = h
persist_from-keeps f now days tenant country kind (item ∷ items) acc fp h =
    persist_from-keeps f now days tenant country kind items
      (persist_finding f now days tenant country kind item acc) fp
      (persist_finding-keeps f now days tenant country kind item acc fp h)

-- The findings that a table tells lately.
abbrev pub all_told : Formats → ℕ → ℕ → ℕ → Option String → List Finding → Board → Bool
all_told f now days tenant country items b =
    all (λ item. told_lately now days tenant (digest_of f country item) b.notifications) items

persist_from-told :
    (f : Formats) (now days tenant : ℕ) (country : Option String) (kind : String)
    (items : List Finding) (acc : Board × List ℕ)
    → 0 < days
    → all_told f now days tenant country items
        (persist_from f now days tenant country kind items acc).0
      ≡ true
unfolding persist_from
persist_from-told f now days tenant country kind [] acc h = refl
persist_from-told f now days tenant country kind (item ∷ items) acc h =
    let next = persist_finding f now days tenant country kind item acc in
    let fin = (persist_from f now days tenant country kind items next).0 in
    and_of (told_lately now days tenant (digest_of f country item) fin.notifications)
      (all_told f now days tenant country items fin)
      (persist_from-keeps f now days tenant country kind items next (digest_of f country item)
        (persist_finding-told f now days tenant country kind item acc h))
      (persist_from-told f now days tenant country kind items next h)

persist_from-idle :
    (f : Formats) (now days tenant : ℕ) (country : Option String) (kind : String)
    (items : List Finding) (b : Board) (ids : List ℕ)
    → all_told f now days tenant country items b ≡ true
    → persist_from f now days tenant country kind items (b, ids) ≡ (b, ids)
unfolding persist_from persist_finding
persist_from-idle f now days tenant country kind [] b ids h = refl
persist_from-idle f now days tenant country kind (item ∷ items) b ids h =
    let e =
      and_parts (told_lately now days tenant (digest_of f country item) b.notifications)
        (all_told f now days tenant country items b) h in
    rw e.0 (persist_from-idle f now days tenant country kind items b ids e.1)

-- If the window has a day or more, then after persist_findings each of the findings is in the
-- table within the window, and the same call once more writes nothing.
pub persist_findings_again :
    (f : Formats) (now days tenant : ℕ) (country : Option String) (kind : String)
    (items : List Finding) (b : Board)
    → 0 < days
    → let c = (persist_findings f now days tenant country kind items b).0 in
      (all_told f now days tenant country items c ≡ true)
      × (persist_findings f now days tenant country kind items c ≡ (c, []))
unfolding persist_findings
persist_findings_again f now days tenant country kind items b h =
    let told = persist_from-told f now days tenant country kind items (b, []) h in
    (
      told,
      persist_from-idle f now days tenant country kind items
          (persist_from f now days tenant country kind items (b, [])).0 [] told,
    )
