-- ===== src/Pipeline/Profiles/Catalogue.antt =====
-- PROFILES and TRANSFORMS of pipeline/profiles.py: the four reports that are known by name.
use data_effi.Prelude.{String, Option, none, some, List, [], ◌∷◌}
use data_effi.Prelude.Equality.{string_eq}
use data_effi.Dict.{Dict, insert}
use data_effi.Pipeline.Models.{BatchKind}
use data_effi.Pipeline.Normalize.Runtime.{Cell, Runtime}
use data_effi.Pipeline.Normalize.Text.{normalize_text}
use data_effi.Pipeline.Profiles.{SourceProfile}
use data_effi.Pipeline.Profiles.Effi.{
  effi_guides_columns, effi_guides_pii, effi_guides_signature, effi_movements_columns,
  effi_movements_pii, effi_movements_signature,
}
use data_effi.Pipeline.Profiles.Dropi.{
  dropi_orders_columns, dropi_orders_pii, dropi_orders_signature, dropi_wallet_columns,
  dropi_wallet_signature,
}
use data_effi.Pipeline.Profiles.EffiGuide.{transform_effi_guide}
use data_effi.Pipeline.Profiles.DropiOrder.{transform_dropi_order}
use data_effi.Pipeline.Profiles.Wallet.{transform_effi_movement, transform_dropi_movement}

keyed : Option String → String → Dict String String → Dict String String
unfolding insert
keyed none field out = out
keyed (some key) field out = insert key field out

norm_keys_from : Runtime → Dict String String → Dict String String → Dict String String
unfolding keyed normalize_text
norm_keys_from r [] out = out
norm_keys_from r ((header, field) ∷ mapping) out =
    norm_keys_from r mapping (keyed (normalize_text r (some (Cell.text header))) field out)

-- _norm_keys
unfoldable pub norm_keys : Runtime → Dict String String → Dict String String
unfolding norm_keys_from
norm_keys r mapping = norm_keys_from r mapping []

unfoldable pub effi_guides : Runtime → SourceProfile
unfolding norm_keys transform_effi_guide
effi_guides r = record {
  code = "effi_guias";
  platform_code = "effi";
  kind = BatchKind.shipments;
  label = "Effi · Reporte de guías de transporte";
  signature = effi_guides_signature;
  columns = norm_keys r effi_guides_columns;
  derived = "tracking_number" ∷ "product_name" ∷ "quantity" ∷ "delivered_at" ∷ "returned_at" ∷ [];
  pii_columns = effi_guides_pii;
  country_column = some "País destinatario";
  transform = transform_effi_guide r;
}

unfoldable pub effi_movements : Runtime → SourceProfile
unfolding norm_keys transform_effi_movement
effi_movements r = record {
  code = "effi_movimientos";
  platform_code = "effi";
  kind = BatchKind.movements;
  label = "Effi · Reporte de movimientos de dinero";
  signature = effi_movements_signature;
  columns = norm_keys r effi_movements_columns;
  derived = [];
  pii_columns = effi_movements_pii;
  country_column = some "País destinatario Guía inicial";
  transform = λ mapped. some (transform_effi_movement r mapped);
}

unfoldable pub dropi_orders : Runtime → SourceProfile
unfolding norm_keys transform_dropi_order
dropi_orders r = record {
  code = "dropi_ordenes";
  platform_code = "dropi";
  kind = BatchKind.shipments;
  label = "Dropi · Reporte de órdenes";
  signature = dropi_orders_signature;
  columns = norm_keys r dropi_orders_columns;
  derived = "tracking_number" ∷ [];
  pii_columns = dropi_orders_pii;
  country_column = none;
  transform = λ mapped. some (transform_dropi_order r mapped);
}

unfoldable pub dropi_wallet : Runtime → SourceProfile
unfolding norm_keys transform_dropi_movement
dropi_wallet r = record {
  code = "dropi_cartera";
  platform_code = "dropi";
  kind = BatchKind.movements;
  label = "Dropi · Historial de cartera";
  signature = dropi_wallet_signature;
  columns = norm_keys r dropi_wallet_columns;
  derived = [];
  pii_columns = [];
  country_column = none;
  transform = λ mapped. some (transform_dropi_movement r mapped);
}

unfoldable pub profiles : Runtime → List SourceProfile
unfolding effi_guides effi_movements dropi_orders dropi_wallet
profiles r = effi_guides r ∷ effi_movements r ∷ dropi_orders r ∷ dropi_wallet r ∷ []
