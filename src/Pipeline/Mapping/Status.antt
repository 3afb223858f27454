-- ===== src/Pipeline/Mapping/Status.antt =====
-- The canonical status ladder of pipeline/mapping.py: STATUS_CANON, STATUS_ALIASES, STATUS_GROUPS.
use data_effi.Prelude.{ℕ, String, Bool, true, false, Option, none, some, [], ◌∷◌, ◌&&◌, str_eq}
use data_effi.Prelude.Equality.{string_eq}
use data_effi.Dict.{Dict, lookup}

pub record CanonStatus : Type 0 where
  pub code : String
  pub label : String
  pub sort_order : ℕ
  pub is_terminal : Bool
  pub is_delivered : Bool
  pub is_returned : Bool
  pub bucket : String

abbrev status : String → String → ℕ → Bool → Bool → Bool → String → String × CanonStatus
status c l n t d r b = (
  c,
  record {
    code = c;
    label = l;
    sort_order = n;
    is_terminal = t;
    is_delivered = d;
    is_returned = r;
    bucket = b;
  },
)

abbrev pub status_canon : Dict String CanonStatus
status_canon =
    status "created" "Generada" 10 false false false "pipeline"
    ∷ status "confirmed" "Confirmada" 20 false false false "pipeline"
    ∷ status "picked_up" "Recogida" 30 false false false "pipeline"
    ∷ status "in_transit" "En tránsito" 40 false false false "pipeline"
    ∷ status "out_for_delivery" "En reparto" 50 false false false "pipeline"
    ∷ status "in_office" "En oficina" 52 false false false "pipeline"
    ∷ status "delivery_issue" "Novedad" 55 false false false "pipeline"
    ∷ status "delivered" "Entregada" 60 true true false "delivered"
    ∷ status "returning" "En devolución" 70 true false true "returned"
    ∷ status "returned" "Devuelta" 80 true false true "returned"
    ∷ status "cancelled" "Cancelada" 90 true false false "dead"
    ∷ status "lost" "Extraviada" 95 true false false "dead"
    ∷ status "compensated" "Indemnizada" 96 true false false "dead"
    ∷ []

-- STATUS_CANON[code], where None is a KeyError
unfoldable pub canon : String → Option CanonStatus
unfolding lookup
canon code = lookup code status_canon

-- STATUS_TERMINAL_EXCEPTIONS, as a test
unfoldable pub is_terminal_exception : String → String → Bool
is_terminal_exception old new = str_eq old "lost" && str_eq new "compensated"

-- STATUS_GROUPS
abbrev pub status_groups : Dict String String
status_groups =
    ("created", "en_transito")
    ∷ ("confirmed", "en_transito")
    ∷ ("picked_up", "en_transito")
    ∷ ("in_transit", "en_transito")
    ∷ ("out_for_delivery", "en_transito")
    ∷ ("in_office", "novedad")
    ∷ ("delivery_issue", "novedad")
    ∷ ("delivered", "entregada")
    ∷ ("returning", "devolucion")
    ∷ ("returned", "devolucion")
    ∷ ("cancelled", "devolucion")
    ∷ ("lost", "indemnizacion")
    ∷ ("compensated", "indemnizacion")
    ∷ []

abbrev pub default_status_group : String
default_status_group = "en_transito"

unfoldable pub status_group : String → String
unfolding lookup
status_group code = elim (lookup code status_groups) [
  | none ↦ default_status_group
  | some group ↦ group
]
