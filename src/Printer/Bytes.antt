-- ===== src/Printer/Bytes.antt =====
-- The bytes for the printer.
use blend_posv.Prelude.{
  ℕ, ◌≤◌, Bool, true, false, ◌&&◌, List, [], ◌∷◌, ◌++◌, map, All, All-append, arith, if_intro,
  if_split, ltb, leb, or_else, if◌then◌else◌,
}
use blend_posv.Text.{Text, codes, truthy}
use blend_posv.Number.{Number}
use blend_posv.Sale.{SaleRecord}
use blend_posv.Printer.{
  CodePage, pc437, pc850, pc858, PrinterConfig, Formats, concat, all_item_lines, discount_lines,
  payment_lines, default_width, copy_text,
}
use blend_posv.Printer.EscPos.{
  Chunk, line, raw, lines, line_if, encode_from, encode_text, chunk_bytes, code_byte, is_high,
  is_low, esc_pos_parts, build_esc_pos_buffer, align, drawer,
}

abbrev pub IsByte : ℕ → Type 0
IsByte b = b ≤ 255

abbrev IsSound : Chunk → Type 0
IsSound (line text) = Unit
IsSound (raw bytes) = All IsByte bytes

encode_from-IsByte : (paired : Bool) (s : Text) → All IsByte (encode_from paired s)
unfolding encode_from
encode_from-IsByte paired [] = tt
encode_from-IsByte paired (c ∷ s) =
    let rest = encode_from-IsByte (is_high c) s in
    if_intro (All IsByte) (paired && is_low c) _ _ rest
      (if_split IsByte (leb c 255) c 63 (λ e. ground arith) (λ e. omega arith), rest)

chunks-IsByte : (cs : List Chunk) → All IsSound cs → All IsByte (concat (map chunk_bytes cs))
unfolding encode_text
chunks-IsByte [] h = tt
chunks-IsByte (line text ∷ cs) h =
    All-append IsByte (encode_text text ++ (10 ∷ [])) (concat (map chunk_bytes cs))
      (All-append IsByte (encode_text text) (10 ∷ []) (encode_from-IsByte false text)
        (omega arith, tt))
      (chunks-IsByte cs h.1)
chunks-IsByte (raw bytes ∷ cs) h =
    All-append IsByte bytes (concat (map chunk_bytes cs)) h.0 (chunks-IsByte cs h.1)

-- A list of parts is sound if each part is.
concat-IsSound : (css : List (List Chunk)) → All (All IsSound) css → All IsSound (concat css)
concat-IsSound [] h = tt
concat-IsSound (cs ∷ css) h = All-append IsSound cs (concat css) h.0 (concat-IsSound css h.1)

lines-IsSound : (texts : List Text) → All IsSound (lines texts)
lines-IsSound [] = tt
lines-IsSound (t ∷ texts) = (tt, lines-IsSound texts)

code_byte-IsByte : (p : CodePage) → IsByte (code_byte p)
code_byte-IsByte pc437 = omega arith
code_byte-IsByte pc850 = omega arith
code_byte-IsByte pc858 = omega arith

-- A line that is left out, and a group of commands that is left out, are sound.
line_if-IsSound : (text shown : Text) → All IsSound (line_if text (line shown))
line_if-IsSound text shown = if_intro (All IsSound) (truthy text) (line shown ∷ []) [] (tt, tt) tt

copy-IsSound :
    (copy : ℕ)
    → All IsSound (if ltb 1 copy then align 1 ∷ line (copy_text copy) ∷ align 0 ∷ [] else [])
copy-IsSound copy =
    if_intro (All IsSound) (ltb 1 copy) (align 1 ∷ line (copy_text copy) ∷ align 0 ∷ []) []
      (ground arith) tt

drawer-IsSound : (b : Bool) → All IsSound (if b then drawer ∷ [] else [])
drawer-IsSound b = if_intro (All IsSound) b (drawer ∷ []) [] (ground arith) tt

module _ {N : Type 0} ⦃n : Number N⦄ where
  parts-IsSound :
      (f : Formats N) (copy : ℕ) (cfg : PrinterConfig) (sale : SaleRecord N)
      → All (All IsSound) (esc_pos_parts f copy cfg sale)
  unfolding esc_pos_parts
  parts-IsSound f copy cfg sale = (
    ground (arith, code_byte-IsByte (or_else cfg.code_page pc850)),
    (
      line_if-IsSound (or_else cfg.store_subtitle (codes "Sistema de Punto de Venta"))
          (or_else cfg.store_subtitle (codes "Sistema de Punto de Venta")),
      (
        line_if-IsSound (or_else cfg.store_address []) (or_else cfg.store_address []),
        (
          line_if-IsSound (or_else cfg.store_phone [])
              (codes "Tel: " ++ or_else cfg.store_phone []),
          (
            ground arith,
            (
              copy-IsSound copy,
              (
                ground arith,
                (
                  lines-IsSound
                      (all_item_lines f (or_else cfg.paper_width default_width) sale.items),
                  (
                    (tt, tt),
                    (
                      lines-IsSound (discount_lines f (or_else cfg.paper_width default_width) sale),
                      (
                        ground arith,
                        (
                          lines-IsSound
                              (payment_lines f (or_else cfg.paper_width default_width) sale),
                          (ground arith, (drawer-IsSound (or_else cfg.open_drawer true), tt)),
                        ),
                      ),
                    ),
                  ),
                ),
              ),
            ),
          ),
        ),
      ),
    ),
  )

  -- Every number of the buffer for the printer is a byte, so `Uint8Array` changes none of them.
  pub build_esc_pos_buffer-IsByte :
      (f : Formats N) (copy : ℕ) (cfg : PrinterConfig) (sale : SaleRecord N)
      → All IsByte (build_esc_pos_buffer f copy cfg sale)
  unfolding build_esc_pos_buffer
  build_esc_pos_buffer-IsByte f copy cfg sale =
      chunks-IsByte (concat (esc_pos_parts f copy cfg sale))
        (concat-IsSound (esc_pos_parts f copy cfg sale) (parts-IsSound f copy cfg sale))
