-- ===== src/Pipeline/Mapping/Columns.antt =====
-- The column tables of pipeline/mapping.py: the spellings of each field, normalised.
use data_effi.Prelude.{String, List, [], ◌∷◌, Option, none, some}
use data_effi.Dict.{Dict}
use data_effi.Pipeline.Models.{BatchKind}

-- SHIPMENT_COLUMNS
abbrev pub shipment_columns : Dict String (List String)
shipment_columns =
    (
      "tracking_number",
      "guia" ∷ "numero guia" ∷ "numero de guia" ∷ "no guia" ∷ "nro guia" ∷ "tracking"
          ∷ "tracking number" ∷ "codigo guia" ∷ "guia numero" ∷ [],
    )
    ∷ (
      "external_order_id",
      "orden" ∷ "id orden" ∷ "pedido" ∷ "numero pedido" ∷ "no pedido" ∷ "order id" ∷ "referencia"
          ∷ "id externo" ∷ [],
    )
    ∷ (
      "created_date",
      "fecha" ∷ "fecha creacion" ∷ "fecha de creacion" ∷ "fecha guia" ∷ "fecha generacion"
          ∷ "creado" ∷ "fecha de generacion" ∷ [],
    )
    ∷ ("dispatched_at", "fecha despacho" ∷ "fecha de despacho" ∷ "despachado" ∷ "fecha envio" ∷ [])
    ∷ (
      "delivered_at",
      "fecha entrega" ∷ "fecha de entrega" ∷ "entregado el" ∷ "fecha entregado" ∷ [],
    )
    ∷ ("returned_at", "fecha devolucion" ∷ "fecha de devolucion" ∷ "devuelto el" ∷ [])
    ∷ ("last_status_at", "ultima actualizacion" ∷ "fecha estado" ∷ "fecha ultimo estado" ∷ [])
    ∷ ("status_raw", "estado" ∷ "estatus" ∷ "status" ∷ "estado guia" ∷ "estado actual" ∷ [])
    ∷ (
      "carrier_name",
      "transportadora" ∷ "transportador" ∷ "carrier" ∷ "operador logistico" ∷ "empresa envio" ∷ [],
    )
    ∷ ("city_name", "ciudad" ∷ "ciudad destino" ∷ "municipio" ∷ "ciudad de entrega" ∷ [])
    ∷ (
      "geo_level1",
      "departamento" ∷ "depto" ∷ "estado destino" ∷ "provincia" ∷ "region" ∷ "departamento destino"
          ∷ [],
    )
    ∷ (
      "product_name",
      "producto" ∷ "nombre producto" ∷ "articulo" ∷ "item" ∷ "descripcion producto" ∷ [],
    )
    ∷ ("supplier_name", "proveedor" ∷ "supplier" ∷ "bodega" ∷ [])
    ∷ ("store_name", "tienda" ∷ "store" ∷ "cuenta" ∷ "marca" ∷ [])
    ∷ ("quantity", "cantidad" ∷ "unidades" ∷ "qty" ∷ "cant" ∷ [])
    ∷ (
      "customer_identifier",
      "telefono" ∷ "celular" ∷ "telefono cliente" ∷ "documento" ∷ "cedula" ∷ "identificacion"
          ∷ "nit" ∷ "movil" ∷ [],
    )
    ∷ (
      "declared_value",
      "valor" ∷ "valor recaudo" ∷ "valor a recaudar" ∷ "valor declarado" ∷ "total" ∷ "total pedido"
          ∷ "monto" ∷ "precio venta" ∷ "valor total" ∷ "total de la orden" ∷ [],
    )
    ∷ ("cod_collected", "recaudado" ∷ "valor recaudado" ∷ "monto recaudado" ∷ "cobrado" ∷ [])
    ∷ (
      "freight_cost",
      "flete" ∷ "costo flete" ∷ "valor flete" ∷ "envio" ∷ "costo envio" ∷ "precio flete" ∷ [],
    )
    ∷ ("return_freight_cost", "flete devolucion" ∷ "costo devolucion" ∷ "valor devolucion" ∷ [])
    ∷ ("product_cost", "costo producto" ∷ "costo" ∷ "costo proveedor" ∷ "cogs" ∷ [])
    ∷ ("platform_fee", "comision" ∷ "comision plataforma" ∷ "fee" ∷ [])
    ∷ ("currency_code", "moneda" ∷ "divisa" ∷ "currency" ∷ [])
    ∷ []

-- MOVEMENT_COLUMNS
abbrev pub movement_columns : Dict String (List String)
movement_columns =
    (
      "tracking_number_raw",
      "guia" ∷ "numero guia" ∷ "numero de guia" ∷ "tracking" ∷ "referencia guia" ∷ [],
    )
    ∷ (
      "movement_type_raw",
      "tipo" ∷ "concepto" ∷ "tipo movimiento" ∷ "descripcion tipo" ∷ "rubro" ∷ [],
    )
    ∷ ("movement_date", "fecha" ∷ "fecha movimiento" ∷ "fecha transaccion" ∷ "fecha pago" ∷ [])
    ∷ ("amount", "valor" ∷ "monto" ∷ "importe" ∷ "total" ∷ "valor movimiento" ∷ [])
    ∷ ("currency_code", "moneda" ∷ "divisa" ∷ "currency" ∷ [])
    ∷ ("external_ref", "referencia" ∷ "id movimiento" ∷ "consecutivo" ∷ "id transaccion" ∷ [])
    ∷ ("description", "descripcion" ∷ "detalle" ∷ "observacion" ∷ "nota" ∷ [])
    ∷ []

-- COLUMNS_BY_KIND[kind], where None is the KeyError of a kind that has no table
abbrev pub columns_by_kind : BatchKind → Option (Dict String (List String))
columns_by_kind BatchKind.shipments = some shipment_columns
columns_by_kind BatchKind.movements = some movement_columns
columns_by_kind BatchKind.ads = none
columns_by_kind BatchKind.cs = none

-- REQUIRED_COLUMNS[kind]
abbrev pub required_columns : BatchKind → Option (List String)
required_columns BatchKind.shipments = some ("tracking_number" ∷ "created_date" ∷ [])
required_columns BatchKind.movements = some ("amount" ∷ [])
required_columns BatchKind.ads = none
required_columns BatchKind.cs = none
