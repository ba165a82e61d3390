-- ===== src/PosUi.antt =====
-- frontend/src/store/usePOSUIStore.ts: which dialogs of the terminal are open, and the sale that the
-- dialog after a sale shows.
use blend_posv.Prelude.{Bool, true, false, Option, none, some}
use blend_posv.Text.{Text}
use blend_posv.Sale.{SaleRecord}

pub data TipoTicket : Type 0 where
  ticket factura_b factura_a factura_c : TipoTicket

pub record PosUiState (N : Type 0) : Type 0 where
  pub is_payment_modal_open : Bool
  pub is_comprobante_modal_open : Bool
  pub is_price_check_modal_open : Bool
  pub is_discount_modal_open : Bool
  pub discount_target_item_id : Option Text
  pub tipo_comprobante : TipoTicket
  pub is_post_sale_modal_open : Bool
  pub last_sale_record : Option (SaleRecord N)

module _ {N : Type 0} where
  unfoldable pub init_pos_ui : PosUiState N
  init_pos_ui = record {
    is_payment_modal_open = false;
    is_comprobante_modal_open = false;
    is_price_check_modal_open = false;
    is_discount_modal_open = false;
    discount_target_item_id = none;
    tipo_comprobante = ticket;
    is_post_sale_modal_open = false;
    last_sale_record = none;
  }

  unfoldable pub open_payment_modal : PosUiState N → PosUiState N
  open_payment_modal u = record u { is_payment_modal_open = true }

  unfoldable pub close_payment_modal : PosUiState N → PosUiState N
  close_payment_modal u = record u { is_payment_modal_open = false }

  unfoldable pub open_comprobante_modal : PosUiState N → PosUiState N
  open_comprobante_modal u = record u { is_comprobante_modal_open = true }

  unfoldable pub close_comprobante_modal : PosUiState N → PosUiState N
  close_comprobante_modal u = record u { is_comprobante_modal_open = false }

  unfoldable pub set_tipo_comprobante : TipoTicket → PosUiState N → PosUiState N
  set_tipo_comprobante tipo u = record u { tipo_comprobante = tipo }

  unfoldable pub open_price_check_modal : PosUiState N → PosUiState N
  open_price_check_modal u = record u { is_price_check_modal_open = true }

  unfoldable pub close_price_check_modal : PosUiState N → PosUiState N
  close_price_check_modal u = record u { is_price_check_modal_open = false }

  unfoldable pub open_discount_modal : PosUiState N → PosUiState N
  open_discount_modal u = record u { is_discount_modal_open = true; discount_target_item_id = none }

  unfoldable pub close_discount_modal : PosUiState N → PosUiState N
  close_discount_modal u = record u {
    is_discount_modal_open = false;
    discount_target_item_id = none;
  }

  unfoldable pub open_item_discount_modal : Text → PosUiState N → PosUiState N
  open_item_discount_modal id u = record u {
    is_discount_modal_open = true;
    discount_target_item_id = some id;
  }

  unfoldable pub open_post_sale_modal : SaleRecord N → PosUiState N → PosUiState N
  open_post_sale_modal sale u = record u {
    is_post_sale_modal_open = true;
    last_sale_record = some sale;
  }

  unfoldable pub close_post_sale_modal : PosUiState N → PosUiState N
  close_post_sale_modal u = record u { is_post_sale_modal_open = false; last_sale_record = none }
