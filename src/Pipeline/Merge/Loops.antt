-- ===== src/Pipeline/Merge/Loops.antt =====
-- The loops over the field names, as plain recursions that gather what each field writes.
use data_effi.Prelude.{
  String, true, Option, none, some, List, [], ◌∷◌, ◌++◌, foldl, or_else, mentions, str_eq,
  str_eq_iff, str_eq_refl, if◌then◌else◌, ◌≡◌, refl, arith,
}
use mathlib.Core.List.{append_assoc, append-nil}
use data_effi.Prelude.Equality.{string_eq}
use data_effi.Dict.{Dict, lookup, insert, lookup-insert}
use data_effi.Decimal.{Decimal, decimal_eq}
use data_effi.Pipeline.Models.{
  Value, value_eq, ShipmentInput, Discrepancy, Entity, static_fields, progress_fields, money_fields,
}
use data_effi.Pipeline.Merge.{
  ShipmentRecord, MergeOutcome, fill_gap, static_step, refresh, progress_step, newest, money_step,
  field_steps,
}

-- What the body of each loop writes for one field.
abbrev pub gap : Option Value → Option Value → Option Value
gap none current = none
gap (some new) none = some new
gap (some new) (some current) = none

abbrev pub refreshed : Option Value → Option Value → Option Value
refreshed none current = none
refreshed (some new) none = some new
refreshed (some new) (some current) = if value_eq current new then none else some new

abbrev pub revalued : Option Decimal → Option Decimal → Option Decimal
revalued none current = none
revalued (some new) none = some new
revalued (some new) (some current) = if decimal_eq current new then none else some new

module _ {ℓ} {V : Type ℓ} where
  abbrev put : String → Option V → Dict String V → Dict String V
  put name none d = d
  put name (some v) d = insert name v d

  unfoldable pub gather : (String → Option V) → List String → Dict String V → Dict String V
  gather f [] d = d
  gather f (n ∷ ns) d = gather f ns (put n (f n) d)

  lookup-put :
      (name n : String) (o : Option V) (d : Dict String V)
      → lookup n (put name o d) ≡ (if str_eq name n then or_else o (lookup n d) else lookup n d)
  lookup-put name n none d = ground arith
  lookup-put name n (some v) d = ground (arith, lookup-insert name n v d)

  -- What a loop leaves under a name: what it writes for the name, if it passes it.
  pub lookup-gather :
      (f : String → Option V) (ns : List String) (n : String) (d : Dict String V)
      → lookup n (gather f ns d)
        ≡ (if mentions ns n then or_else (f n) (lookup n d) else lookup n d)
  unfolding gather
  lookup-gather f [] n d = refl
  lookup-gather f (m ∷ ns) n d =
      ground (arith, lookup-gather f ns n (put m (f m) d), lookup-put m n (f m) d, str_eq_iff m n)

  -- A loop that writes nothing.
  pub gather_idle :
      (f : String → Option V) (ns : List String) (d : Dict String V)
      → ((n : String) → mentions ns n ≡ true → f n ≡ none)
      → gather f ns d ≡ d
  unfolding gather
  gather_idle f [] d h = refl
  gather_idle f (m ∷ ns) d h =
      rw (h m (ground (arith, str_eq_refl m))) (gather_idle f ns d (λ n p. h n (ground arith)))

-- The discrepancy that the money loop records for one field.
abbrev pub clash : String → String → Option Decimal → Option Decimal → List Discrepancy
clash key name none current = []
clash key name (some new) none = []
clash key name (some new) (some current) =
    if decimal_eq current new
    then []
    else (record {
      entity = Entity.shipment;
      entity_key = key;
      field_name = name;
      old_value = current;
      new_value = new;
    })
      ∷ []

module _ (existing : ShipmentRecord) (incoming : ShipmentInput) where
  abbrev pub gap_at : String → Option Value
  gap_at n = gap (incoming.attr n) (existing.attr n)

  abbrev pub refreshed_at : String → Option Value
  refreshed_at n = refreshed (incoming.attr n) (existing.attr n)

  abbrev pub revalued_at : String → Option Decimal
  revalued_at n = revalued (incoming.money n) (existing.money n)

  abbrev pub clashes : List String → List Discrepancy
  clashes [] = []
  clashes (n ∷ ns) =
      clash existing.tracking_number n (incoming.money n) (existing.money n) ++ clashes ns

fill_gap_lem :
    (name : String) (new current : Option Value) (o : MergeOutcome)
    → fill_gap name new current o ≡ record o { attrs = put name (gap new current) o.attrs }
unfolding fill_gap
fill_gap_lem name none current o = refl
fill_gap_lem name (some new) none o = refl
fill_gap_lem name (some new) (some current) o = refl

refresh_lem :
    (name : String) (new current : Option Value) (o : MergeOutcome)
    → refresh name new current o ≡ record o { attrs = put name (refreshed new current) o.attrs }
unfolding refresh
refresh_lem name none current o = refl
refresh_lem name (some new) none o = refl
refresh_lem name (some new) (some current) o = ground arith

newest_lem :
    (key name : String) (new current : Option Decimal) (o : MergeOutcome)
    → newest key name new current o ≡ record o {
      money = put name (revalued new current) o.money;
      discrepancies = o.discrepancies ++ clash key name new current;
    }
unfolding newest
newest_lem key name none current o = rw append-nil
newest_lem key name (some new) none o = rw append-nil
newest_lem key name (some new) (some current) o = ground (arith, append-nil o.discrepancies)

module _ (existing : ShipmentRecord) (incoming : ShipmentInput) where
  static_loop :
      (ns : List String) (o : MergeOutcome)
      → foldl (static_step existing incoming) o ns
        ≡ record o { attrs = gather (gap_at existing incoming) ns o.attrs }
  unfolding static_step gather
  static_loop [] o = refl
  static_loop (n ∷ ns) o =
      rw (fill_gap_lem n (incoming.attr n) (existing.attr n) o) (static_loop ns _)

  progress_loop :
      (ns : List String) (o : MergeOutcome)
      → foldl (progress_step existing incoming) o ns
        ≡ record o { attrs = gather (refreshed_at existing incoming) ns o.attrs }
  unfolding progress_step gather
  progress_loop [] o = refl
  progress_loop (n ∷ ns) o =
      rw (refresh_lem n (incoming.attr n) (existing.attr n) o) (progress_loop ns _)

  money_loop :
      (ns : List String) (o : MergeOutcome)
      → foldl (money_step existing incoming) o ns ≡ record o {
        money = gather (revalued_at existing incoming) ns o.money;
        discrepancies = o.discrepancies ++ clashes existing incoming ns;
      }
  unfolding money_step gather
  money_loop [] o = rw append-nil
  money_loop (n ∷ ns) o =
      rw (newest_lem existing.tracking_number n (incoming.money n) (existing.money n) o)
        (rw (money_loop ns _) (rw append_assoc))

  -- The three loops at once.
  pub field_steps_lem :
      (o : MergeOutcome)
      → field_steps existing incoming o ≡ record o {
        attrs =
            gather
              (refreshed_at existing incoming)
              progress_fields
              (gather (gap_at existing incoming) static_fields o.attrs);
        money = gather (revalued_at existing incoming) money_fields o.money;
        discrepancies = o.discrepancies ++ clashes existing incoming money_fields;
      }
  unfolding field_steps
  field_steps_lem o =
      rw (static_loop static_fields o)
        (rw (progress_loop progress_fields _) (money_loop money_fields _))
