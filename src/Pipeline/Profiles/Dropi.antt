-- ===== src/Pipeline/Profiles/Dropi.antt =====
-- The tables of the two reports of Dropi in pipeline/profiles.py.
use data_effi.Prelude.{List, [], ◌∷◌, String}
use data_effi.Dict.{Dict}

-- DROPI_ORDERS_COLUMNS, the headers as they are written
abbrev pub dropi_orders_columns : Dict String String
dropi_orders_columns =
    ("ID", "external_order_id")
    ∷ ("NÚMERO GUIA", "carrier_tracking_number")
    ∷ ("ID DE ORDEN DE TIENDA", "store_order_id")
    ∷ ("NUMERO DE PEDIDO DE TIENDA", "store_order_number")
    ∷ ("FECHA", "created_date")
    ∷ ("FECHA GENERACION DE GUIA", "guide_generated_date")
    ∷ ("FECHA DE ÚLTIMO MOVIMIENTO", "last_status_at")
    ∷ ("FECHA DE NOVEDAD", "issue_date")
    ∷ ("ESTATUS", "status_raw")
    ∷ ("ÚLTIMO MOVIMIENTO", "status_detail")
    ∷ ("NOVEDAD", "issue_note")
    ∷ ("FUE SOLUCIONADA LA NOVEDAD", "issue_solved_raw")
    ∷ ("TRANSPORTADORA", "carrier_name")
    ∷ ("DEPARTAMENTO DESTINO", "geo_level1")
    ∷ ("CIUDAD DESTINO", "city_name")
    ∷ ("TIENDA", "store_name")
    ∷ ("TIPO DE TIENDA", "store_type")
    ∷ ("CATEGORÍAS", "product_category")
    ∷ ("NOMBRE CLIENTE", "customer_name")
    ∷ ("TELÉFONO", "customer_identifier")
    ∷ ("NRO DE IDENTIFICACION", "customer_document")
    ∷ ("DIRECCION", "customer_address")
    ∷ ("VALOR DE COMPRA EN PRODUCTOS", "declared_value")
    ∷ ("PRECIO FLETE", "freight_cost")
    ∷ ("COSTO DEVOLUCION FLETE", "return_freight_cost")
    ∷ ("TOTAL EN PRECIOS DE PROVEEDOR", "product_cost")
    ∷ ("COMISION", "platform_fee")
    ∷ ("GANANCIA", "reported_profit")
    ∷ ("TIPO DE ENVIO", "shipping_kind")
    ∷ ("CONTADOR DE INDEMNIZACIONES", "compensation_count")
    ∷ ("CONCEPTO ÚLTIMA INDENMIZACIÓN", "compensation_concept")
    ∷ []

-- DROPI_ORDERS_PII
abbrev pub dropi_orders_pii : List String
dropi_orders_pii =
    "NOMBRE CLIENTE" ∷ "TELÉFONO" ∷ "EMAIL" ∷ "NRO DE IDENTIFICACION" ∷ "DIRECCION" ∷ "VENDEDOR"
    ∷ "USUARIO GENERACION DE GUIA" ∷ "USUARIO QUE SOLUCIONA LA NOVEDAD" ∷ []

abbrev pub dropi_orders_signature : List String
dropi_orders_signature =
    "numero guia" ∷ "estatus" ∷ "transportadora" ∷ "valor de compra en productos"
    ∷ "total en precios de proveedor" ∷ []

-- DROPI_WALLET_COLUMNS, the headers as they are written
abbrev pub dropi_wallet_columns : Dict String String
dropi_wallet_columns =
    ("ID", "external_ref")
    ∷ ("FECHA", "movement_date")
    ∷ ("TIPO", "direction_raw")
    ∷ ("MONTO", "amount")
    ∷ ("MONTO PREVIO", "balance_before")
    ∷ ("ORDEN ID", "order_ref")
    ∷ ("NUMERO DE GUIA", "tracking_number_raw")
    ∷ ("DESCRIPCIÓN", "description")
    ∷ ("CONCEPTO DE RETIRO", "withdrawal_concept")
    ∷ []

abbrev pub dropi_wallet_signature : List String
dropi_wallet_signature = "monto previo" ∷ "numero de guia" ∷ "descripcion" ∷ "tipo" ∷ []
