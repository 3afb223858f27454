-- ===== src/Pipeline/Profiles/Effi.antt =====
-- The tables of the two reports of Effi in pipeline/profiles.py.
use data_effi.Prelude.{List, [], ◌∷◌, String}
use data_effi.Dict.{Dict}

-- EFFI_GUIDES_COLUMNS, the headers as they are written
abbrev pub effi_guides_columns : Dict String String
effi_guides_columns =
    ("Guía transportadora", "carrier_tracking_number")
    ∷ ("Prefijo ID guía", "external_order_id")
    ∷ ("Documento de venta", "sale_document")
    ∷ ("Fecha de creación", "created_date")
    ∷ ("Fecha de envío", "created_at_source")
    ∷ ("Fecha de entrega esperada", "expected_delivery_date")
    ∷ ("Fecha de estado final", "final_status_date")
    ∷ ("Fecha de anulación", "cancelled_at")
    ∷ ("Fecha liquidación con recaudo", "settled_at")
    ∷ ("Estado global guía inicial", "status_raw")
    ∷ ("Estado guía inicial", "status_detail")
    ∷ ("Estado global guía devolución", "return_status_raw")
    ∷ ("Nombre transportadora Efficommerce", "carrier_name")
    ∷ ("Departamento destinatario", "geo_level1")
    ∷ ("Ciudad destinatario", "city_name")
    ∷ ("País destinatario", "country_name")
    ∷ ("Sucursal", "store_name")
    ∷ ("Destinatario", "customer_name")
    ∷ ("Teléfonos destinatario", "customer_identifier")
    ∷ ("ID. destinatario", "customer_document")
    ∷ ("Dirección destinatario", "customer_address")
    ∷ ("Nombre Proveedor", "supplier_name")
    ∷ ("Servicio", "service_level")
    ∷ ("Contenido", "content_raw")
    ∷ ("Cantidad de paquetes", "package_count")
    ∷ ("Valor recaudo", "declared_value")
    ∷ ("Valor declarado", "insured_value")
    ∷ ("Precio flete total a cliente", "freight_cost")
    ∷ ("Precio manejo (seguro) a cliente", "insurance_cost")
    ∷ ("Precio recaudo a cliente", "collection_fee")
    ∷ ("Costo documento de venta", "product_cost")
    ∷ ("Total documento de venta", "sale_total")
    ∷ ("Precio flete a cliente", "freight_base")
    ∷ ("% Descuento", "discount_pct")
    ∷ ("Peso (Kg)", "weight_kg")
    ∷ ("Nombre Distribuidor", "distributor_name")
    ∷ ("Total venta distribuidor", "distributor_sale_total")
    ∷ ("Total compra distribuidor", "distributor_cost_total")
    ∷ ("Total venta proveedor", "supplier_sale_total")
    ∷ ("Relación de despacho", "dispatch_batch_ref")
    ∷ ("Fecha relación de despacho", "dispatched_batch_at")
    ∷ ("Liquidación con recaudo", "settled_with_collection")
    ∷ ("Liquidación (de cualquier tipo)", "settled_any")
    ∷ ("Liquidación devolución", "settled_return")
    ∷ ("Fecha liquidación (de cualquier tipo)", "settled_any_at")
    ∷ ("Fecha liquidación devolución", "settled_return_at")
    ∷ ("Guía devolución transportadora", "return_tracking_number")
    ∷ []

-- EFFI_GUIDES_PII
abbrev pub effi_guides_pii : List String
effi_guides_pii =
    "Destinatario" ∷ "ID. destinatario" ∷ "Dirección destinatario" ∷ "Teléfonos destinatario"
    ∷ "Remitente" ∷ "ID. remitente" ∷ "Dirección remitente" ∷ "Teléfonos remitente" ∷ []

abbrev pub effi_guides_signature : List String
effi_guides_signature =
    "guia transportadora" ∷ "estado global guia inicial" ∷ "nombre transportadora efficommerce"
    ∷ "valor recaudo" ∷ []

-- EFFI_MOVEMENTS_COLUMNS, the headers as they are written
abbrev pub effi_movements_columns : Dict String String
effi_movements_columns =
    ("ID movimiento", "external_ref")
    ∷ ("Tipo de movimiento", "movement_type_raw")
    ∷ ("Fecha creación", "movement_date")
    ∷ ("Fecha origen", "shipment_created_ref")
    ∷ ("Valor movimiento", "amount")
    ∷ ("Detalle", "description")
    ∷ ("Guía inicial", "tracking_number_raw")
    ∷ ("Transportadora", "carrier_name")
    ∷ ("Sucursal", "store_name")
    ∷ ("Departamento destinatario Guía inicial", "geo_level1")
    ∷ ("Ciudad destinatario Guía inicial", "city_name")
    ∷ ("Contenido", "content_raw")
    ∷ ("ID Wallet", "wallet_id")
    ∷ ("Medio de pago Wallet", "wallet_method")
    ∷ ("Cuenta bancaria", "bank_account_ref")
    ∷ ("Responsable", "operator_name")
    ∷ ("Guía adicional", "secondary_tracking_number")
    ∷ ("ID venta referencia", "sale_reference")
    ∷ ("Precio flete a cliente", "freight_base")
    ∷ ("Precio manejo (seguro) a cliente", "insurance_cost")
    ∷ ("Precio recaudo a cliente", "collection_fee")
    ∷ ("Precio flete total a cliente", "freight_cost")
    ∷ ("Valor recaudo", "declared_value")
    ∷ ("Distribuidor", "distributor_name")
    ∷ ("Total venta distribuidor", "distributor_sale_total")
    ∷ ("Total compra distribuidor", "distributor_cost_total")
    ∷ ("Proveedor", "supplier_name")
    ∷ ("Total venta proveedor", "supplier_sale_total")
    ∷ []

-- EFFI_MOVEMENTS_PII
abbrev pub effi_movements_pii : List String
effi_movements_pii =
    "Titular Wallet" ∷ "Identificación titular" ∷ "Nombre remitente Guía inicial"
    ∷ "Teléfono remitente Guía inicial" ∷ "Dirección remitente Guía inicial"
    ∷ "ID remitente Guía inicial" ∷ "Nombre destinatario Guía inicial"
    ∷ "Teléfono destinatario Guía inicial" ∷ "Dirección destinatario Guía inicial"
    ∷ "ID destinatario Guía inicial" ∷ []

abbrev pub effi_movements_signature : List String
effi_movements_signature =
    "id movimiento" ∷ "tipo de movimiento" ∷ "valor movimiento" ∷ "guia inicial" ∷ []
