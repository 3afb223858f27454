-- ===== src/Pipeline/Mapping/Aliases.antt =====
-- STATUS_ALIASES of pipeline/mapping.py: what the platforms call a status, in normalised spelling.
use data_effi.Prelude.{String, [], ◌∷◌}
use data_effi.Dict.{Dict}

-- STATUS_ALIASES
abbrev pub status_aliases : Dict String String
status_aliases =
    ("generada", "created")
    ∷ ("guia generada", "created")
    ∷ ("pendiente", "created")
    ∷ ("preparando", "confirmed")
    ∷ ("confirmado", "confirmed")
    ∷ ("confirmada", "confirmed")
    ∷ ("recogido", "picked_up")
    ∷ ("recogida", "picked_up")
    ∷ ("en transito", "in_transit")
    ∷ ("en ruta", "in_transit")
    ∷ ("en reparto", "out_for_delivery")
    ∷ ("en distribucion", "out_for_delivery")
    ∷ ("novedad", "delivery_issue")
    ∷ ("con novedad", "delivery_issue")
    ∷ ("entregado", "delivered")
    ∷ ("entregada", "delivered")
    ∷ ("en devolucion", "returning")
    ∷ ("devolucion", "returning")
    ∷ ("devolucion en transito", "returning")
    ∷ ("devuelto", "returned")
    ∷ ("devuelta", "returned")
    ∷ ("cancelado", "cancelled")
    ∷ ("cancelada", "cancelled")
    ∷ ("anulada", "cancelled")
    ∷ ("extraviado", "lost")
    ∷ ("perdida", "lost")
    ∷ ("entregada a destino", "delivered")
    ∷ ("disponible para retiro en oficina", "in_office")
    ∷ ("devolucion a origen", "returning")
    ∷ ("cancelada por transportadora", "cancelled")
    ∷ ("generada effi", "created")
    ∷ ("ingresando en agencia", "in_transit")
    ∷ ("ingresando operativo", "in_transit")
    ∷ ("en ruta a concesion", "in_transit")
    ∷ ("en distribucion a cliente", "out_for_delivery")
    ∷ ("reportado entregado en agencia", "in_office")
    ∷ ("reportado entregado en app", "delivered")
    ∷ ("entregado en agencia", "in_office")
    ∷ ("retirado en oficina", "delivered")
    ∷ ("devuelto a origen", "returned")
    ∷ ("devolucion entregada", "returned")
    ∷ ("anulada por transportadora", "cancelled")
    ∷ ("siniestro", "lost")
    ∷ ("extravio", "lost")
    ∷ ("incidencia en ruta", "delivery_issue")
    ∷ ("incidencia", "delivery_issue")
    ∷ ("recolectado", "picked_up")
    ∷ ("guia_generada", "created")
    ∷ ("preparado para transportadora", "confirmed")
    ∷ ("pendiente confirmacion", "created")
    ∷ ("en bodega transportadora", "picked_up")
    ∷ ("en proceso de devolucion", "returning")
    ∷ ("indemnizada", "compensated")
    ∷ ("indemnizado", "compensated")
    ∷ ("indemnizacion", "compensated")
    ∷ ("guia indemnizada", "compensated")
    ∷ ("siniestro indemnizado", "compensated")
    ∷ ("indemnizada por transportadora", "compensated")
    ∷ []

-- DEFAULT_STATUS
abbrev pub default_status : String
default_status = "created"
