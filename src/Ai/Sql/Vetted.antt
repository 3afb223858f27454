-- ===== src/Ai/Sql/Vetted.antt =====
-- The statements that `validate_sql` of ai/nl2sql.py lets through.
use data_effi.Prelude.{
  Bool, true, false, not, String, Option, none, some, List, map, all, is_empty, mentions, ◌≡◌, refl,
  ap, ◌⊎◌, ◌↔◌, inl, inr,
}
use data_effi.Pipeline.Normalize.Runtime.{Runtime}
use data_effi.Ai.Sql.Lists.{forbidden_functions, forbidden_bare_keywords}
use data_effi.Ai.Sql.Scans.{calls, names}
use data_effi.Ai.Sql.Parser.{Parser, TableRef}
use data_effi.Ai.Sql.Guard.{
  Reason, accepted, rejected, forbidden_nodes, read_tables, sorted_set, called_name,
  statement_refusal, word_refusal, enforce_limit, vet, with_words, with_tables, with_statement,
}
use data_effi.Ai.Sql.Safe.{is_allowed, read_names, Reads, read_tables_lem}
use data_effi.Ai.Sql.Answers.{statement_iff, words_iff}

-- What the loop over the tables returns if it refuses none.
all_read :
    (lower : String → String) (cs : List String) (ts : List TableRef) (o : Reason ⊎ List String)
    → Reads lower cs ts o
    → all (is_allowed lower cs) ts ≡ true
    → o ≡ inr (read_names lower cs ts)
unfolding read_names
all_read lower cs ts (inl reason) h ok = cc
all_read lower cs ts (inr ns) h ok = ap inr h.1

of_not : (b : Bool) → not b ≡ false → b ≡ true
of_not true h = refl
of_not false h = cc

pub accepted_inj :
    (s s' : String) (vs vs' : List String) → accepted s vs ≡ accepted s' vs' → (s' ≡ s) × (vs' ≡ vs)
accepted_inj s s' vs vs' h = (cc, cc)

pub rejected_not :
    {C : Type 0} (reason : Reason) (s : String) (vs : List String)
    → rejected reason ≡ accepted s vs
    → C
rejected_not reason s vs h = absurd cc

module _ {Tree : Type 0} (r : Runtime) (p : Parser Tree) where
  abbrev pub ctes : Tree → List String
  ctes t = map r.lower (p.cte_aliases t)

  abbrev pub views_of : Tree → List String
  views_of t = read_names r.lower (ctes t) (p.tables t)

  -- A statement that is no danger.
  pub record IsSafe (text : String) (t : Tree) : Type 0 where
    pub select : p.is_select t ≡ true
    pub nodes : all (λ node. not (p.has_node node t)) forbidden_nodes ≡ true
    pub into : p.has_into t ≡ false
    pub locks : p.has_locks t ≡ false
    pub allowed : all (is_allowed r.lower (ctes t)) (p.tables t) ≡ true
    pub reading : is_empty (views_of t) ≡ false
    pub functions :
        all (λ f. not (mentions forbidden_functions f)) (map (called_name r.lower) (p.anonymous t))
        ≡ true
    pub calling : all (λ f. not (calls p.is_word (r.lower text) f)) forbidden_functions ≡ true
    pub keywords : all (λ k. not (names p.is_word (r.lower text) k)) forbidden_bare_keywords ≡ true

  statement_refusal_iff :
      (t : Tree)
      → (statement_refusal r p t ≡ none) ↔ (
          (not (p.is_select t) ≡ false)
          × (all (λ node. not (p.has_node node t)) forbidden_nodes ≡ true)
          × (p.has_into t ≡ false)
          × (p.has_locks t ≡ false))
  unfolding statement_refusal
  statement_refusal_iff t =
      statement_iff (p.is_select t) (p.has_into t) (p.has_locks t) (λ node. p.has_node node t)
        forbidden_nodes Reason.forbidden_node Reason.not_select Reason.selects_into
        Reason.takes_locks

  word_refusal_iff :
      (text : String) (t : Tree) (views : List String)
      → (word_refusal r p text t views ≡ none) ↔ (
          (is_empty views ≡ false)
          × (all
                (λ f. not (mentions forbidden_functions f))
                (map (called_name r.lower) (p.anonymous t))
              ≡ true)
          × (all (λ f. not (calls p.is_word (r.lower text) f)) forbidden_functions ≡ true)
          × (all (λ k. not (names p.is_word (r.lower text) k)) forbidden_bare_keywords ≡ true))
  unfolding word_refusal
  word_refusal_iff text t views =
      words_iff (is_empty views) (mentions forbidden_functions) (calls p.is_word (r.lower text))
        (names p.is_word (r.lower text)) (map (called_name r.lower) (p.anonymous t))
        forbidden_functions forbidden_bare_keywords Reason.forbidden_function
        Reason.forbidden_function Reason.forbidden_keyword Reason.reads_nothing

  pub vet-accepted :
      (text : String) (t : Tree)
      → IsSafe text t
      → vet r p text t ≡ accepted (p.sql (enforce_limit p t)) (sorted_set (views_of t))
  unfolding vet
  vet-accepted text t safe =
      let statement =
        (statement_refusal_iff t).1 (ap not safe.select, safe.nodes, safe.into, safe.locks) in
      let tables =
        all_read r.lower (ctes t) (p.tables t) (read_tables r.lower (ctes t) (p.tables t))
          (read_tables_lem r.lower (ctes t) (p.tables t)) safe.allowed in
      let words =
        (word_refusal_iff text t (views_of t)).1
          (safe.reading, safe.functions, safe.calling, safe.keywords) in
      rw (statement, tables, words) refl

  -- An accepted result tells that no stage refused.
  of_words :
      (t : Tree) (ns : List String) (o : Option Reason) (s : String) (vs : List String)
      → with_words r p t ns o ≡ accepted s vs
      → (o ≡ none) × (s ≡ p.sql (enforce_limit p t)) × (vs ≡ sorted_set ns)
  unfolding with_words
  of_words t ns (some reason) s vs h = rejected_not reason s vs h
  of_words t ns none s vs h =
      let e = accepted_inj (p.sql (enforce_limit p t)) s (sorted_set ns) vs h in (refl, e.0, e.1)

  of_tables :
      (text : String) (t : Tree) (o : Reason ⊎ List String) (s : String) (vs : List String)
      → Reads r.lower (ctes t) (p.tables t) o
      → with_tables r p text t o ≡ accepted s vs
      → (all (is_allowed r.lower (ctes t)) (p.tables t) ≡ true)
        × (word_refusal r p text t (views_of t) ≡ none)
        × (s ≡ p.sql (enforce_limit p t))
        × (vs ≡ sorted_set (views_of t))
  unfolding with_tables read_names
  of_tables text t (inl reason) s vs hr h = rejected_not reason s vs h
  of_tables text t (inr ns) s vs hr h =
      let h1 = rw hr.1 at h in
      let e = of_words t (views_of t) (word_refusal r p text t (views_of t)) s vs h1 in
      (hr.0, e.0, e.1, e.2)

  of_statement :
      (text : String) (t : Tree) (o : Option Reason) (s : String) (vs : List String)
      → with_statement r p text t o ≡ accepted s vs
      → (o ≡ none)
        × (with_tables r p text t (read_tables r.lower (ctes t) (p.tables t)) ≡ accepted s vs)
  unfolding with_statement
  of_statement text t (some reason) s vs h = rejected_not reason s vs h
  of_statement text t none s vs h = (refl, h)

  pub vet-IsSafe :
      (text : String) (t : Tree) (s : String) (vs : List String)
      → vet r p text t ≡ accepted s vs
      → IsSafe text t × (s ≡ p.sql (enforce_limit p t)) × (vs ≡ sorted_set (views_of t))
  unfolding vet
  vet-IsSafe text t s vs h =
      let hs = of_statement text t (statement_refusal r p t) s vs h in
      let ht =
        of_tables text t (read_tables r.lower (ctes t) (p.tables t)) s vs
          (read_tables_lem r.lower (ctes t) (p.tables t)) hs.1 in
      let ks = (statement_refusal_iff t).0 hs.0 in
      let kw = (word_refusal_iff text t (views_of t)).0 ht.1 in
      (
        record {
          select = of_not (p.is_select t) ks.0;
          nodes = ks.1;
          into = ks.2;
          locks = ks.3;
          allowed = ht.0;
          reading = kw.0;
          functions = kw.1;
          calling = kw.2;
          keywords = kw.3;
        },
        ht.2,
        ht.3,
      )
