-- ===== src/Printer/EscPos.antt =====
-- `encodeText` and `buildEscPosBuffer` of frontend/src/services/ThermalPrinterService.ts: the bytes
-- of a ticket for the printer.
use blend_posv.Prelude.{
  ℕ, min, Bool, true, false, ◌&&◌, List, [], ◌∷◌, ◌++◌, map, ltb, leb, if◌then◌else◌, or_else,
  replicate,
}
use blend_posv.Text.{Text, codes, truthy}
use blend_posv.Number.{Number}
use blend_posv.Digits.{to_text}
use blend_posv.Sale.{SaleRecord}
use blend_posv.Printer.{
  CodePage, pc437, pc850, pc858, PrinterConfig, Formats, default_width, repeat, left_right,
  remove_first, concat, copy_text, all_item_lines, item_lines, discount_lines, payment_lines,
}

-- A part of the bytes: a line of text with its line feed, or a command.
pub data Chunk : Type 0 where
  line : Text → Chunk
  raw : List ℕ → Chunk

abbrev pub is_high : ℕ → Bool
is_high c = leb 55_296 c && leb c 56_319

abbrev pub is_low : ℕ → Bool
is_low c = leb 56_320 c && leb c 57_343

-- `encodeText`, which takes the two units of a surrogate pair together; `paired` says that the unit
-- before was the first of one.
unfoldable pub encode_from : Bool → Text → List ℕ
encode_from paired [] = []
encode_from paired (c ∷ s) =
    let rest = encode_from (is_high c) s in
    if paired && is_low c then rest else (if leb c 255 then c else 63) ∷ rest

unfoldable pub encode_text : Text → List ℕ
unfolding encode_from
encode_text text = encode_from false text

abbrev pub chunk_bytes : Chunk → List ℕ
unfolding encode_text
chunk_bytes (line text) = encode_text text ++ (10 ∷ [])
chunk_bytes (raw bytes) = bytes

abbrev pub align : ℕ → Chunk
align k = raw (27 ∷ 97 ∷ k ∷ [])

abbrev pub bold : Bool → Chunk
bold on = raw (27 ∷ 69 ∷ (if on then 1 else 0) ∷ [])

abbrev pub dbl : Bool → Chunk
dbl on = raw (27 ∷ 33 ∷ (if on then 48 else 0) ∷ [])

abbrev pub feed : ℕ → Chunk
feed k = raw (replicate k 10)

abbrev pub code_byte : CodePage → ℕ
code_byte p = elim p [ pc437 ↦ 0 | pc850 ↦ 2 | pc858 ↦ 16 ]

abbrev pub drawer : Chunk
drawer = raw (27 ∷ 112 ∷ 0 ∷ 25 ∷ 250 ∷ [])

-- `if (text) line(text)`
abbrev pub line_if : Text → Chunk → List Chunk
line_if text chunk = if truthy text then chunk ∷ [] else []

abbrev pub lines : List Text → List Chunk
lines texts = map line texts

module _ {N : Type 0} ⦃n : Number N⦄ where
  -- The commands and lines of `buildEscPosBuffer`.
  unfoldable pub esc_pos_parts : Formats N → ℕ → PrinterConfig → SaleRecord N → List (List Chunk)
  unfolding left_right remove_first item_lines discount_lines payment_lines to_text
  esc_pos_parts f copy cfg sale =
      let w = or_else cfg.paper_width default_width in
      (raw (27 ∷ 64 ∷ [])
        ∷ raw (27 ∷ 116 ∷ code_byte (or_else cfg.code_page pc850) ∷ [])
        ∷ feed 1
        ∷ align 1
        ∷ dbl true
        ∷ bold true
        ∷ line (or_else cfg.store_name (codes "BLEND POS"))
        ∷ dbl false
        ∷ bold false
        ∷ [])
      ∷ (let sub = or_else cfg.store_subtitle (codes "Sistema de Punto de Venta") in
          line_if sub (line sub))
      ∷ (let address = or_else cfg.store_address [] in line_if address (line address))
      ∷ (let phone = or_else cfg.store_phone [] in line_if phone (line (codes "Tel: " ++ phone)))
      ∷ (line (repeat 45 w)
          ∷ align 0
          ∷ line (left_right (codes "Fecha:") (f.date sale.fecha) w)
          ∷ line (left_right (codes "Hora:") (f.time sale.fecha) w)
          ∷ line (left_right (codes "Cajero:") sale.cajero w)
          ∷ line (
              left_right (codes "Ticket N°:")
                (remove_first (codes "SALE-") (remove_first (codes "T-") sale.id)) w)
          ∷ [])
      ∷ (if ltb 1 copy then align 1 ∷ line (copy_text copy) ∷ align 0 ∷ [] else [])
      ∷ (line (repeat 61 w)
          ∷ align 1
          ∷ bold true
          ∷ line (codes "DETALLE DE VENTA")
          ∷ bold false
          ∷ align 0
          ∷ line (repeat 45 w)
          ∷ [])
      ∷ lines (all_item_lines f w sale.items)
      ∷ (line (repeat 45 w) ∷ [])
      ∷ lines (discount_lines f w sale)
      ∷ (bold true
          ∷ dbl true
          ∷ line (left_right (codes "TOTAL:") (f.price sale.total_con_descuento) w)
          ∷ dbl false
          ∷ bold false
          ∷ line (repeat 61 w)
          ∷ [])
      ∷ lines (payment_lines f w sale)
      ∷ (line (repeat 45 w)
          ∷ feed 1
          ∷ align 1
          ∷ line (or_else cfg.store_footer (codes "¡Gracias por su compra!"))
          ∷ line (codes "Conserve su ticket")
          ∷ feed 1
          ∷ line (repeat 61 (min 16 w))
          ∷ feed 4
          ∷ raw (29 ∷ 86 ∷ 1 ∷ [])
          ∷ [])
      ∷ (if or_else cfg.open_drawer true then drawer ∷ [] else [])
      ∷ []

  -- The numbers that `new Uint8Array` is made of.
  unfoldable pub build_esc_pos_buffer : Formats N → ℕ → PrinterConfig → SaleRecord N → List ℕ
  unfolding esc_pos_parts
  build_esc_pos_buffer f copy cfg sale =
      concat (map chunk_bytes (concat (esc_pos_parts f copy cfg sale)))
