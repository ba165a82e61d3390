-- ===== src/ImportCsv/Valid.antt =====
-- What the dialog of frontend/src/components/ImportProductosModal.tsx sends, over all that is done in it.
use blend_posv.Prelude.{
  ℕ, suc, ◌≡◌, refl, inl, inr, Bool, true, false, not, Option, none, some, List, [], ◌∷◌, ◌++◌, map,
  arith, ◌==◌, or_else, length, filter, All, All-append, length-append, Bool-cases, Option-cases,
  option_intro, ltb,
}
use blend_posv.Text.{Text, truthy, member}
use blend_posv.Text.Parts.{trim, split_on, split_lines}
use blend_posv.Dict.{Dict}
use blend_posv.Number.{Number}
use blend_posv.ImportCsv.Reading.{
  ParsedRow, Parsed, push_if, is_bad_price, is_bad_stock, row_errors, read_row, read_rows,
  parse_lines, parse_csv, raw_headers, expected_headers, header_index,
}
use blend_posv.ImportCsv.{
  CrearProducto, ImportState, valid_rows, reset, handle_file_change, handle_parse, take_parsed,
  to_crear, handle_import,
}

-- What is done in the dialog: a file is chosen or dropped, "Validar", "Importar", "Volver" and closing.
pub data ImportEvent : Type 0 where
  choose : Option Text → ImportEvent
  validate : Option Text → ImportEvent
  confirm : Option (List Bool) → ImportEvent
  back close : ImportEvent

push_if-nil :
    (b : Bool) (m : Text) (es : List Text)
    → (length (push_if b m es) == 0) ≡ true
    → (b ≡ false) × ((length es == 0) ≡ true)
push_if-nil true m es e = ground (arith, length-append es (m ∷ []))
push_if-nil false m es e = (refl, e)

there : (t : Text) → not (truthy t) ≡ false → truthy t ≡ true
there t e = ground arith

module _ {N : Type 0} ⦃n : Number N⦄ where
  open n use {num, lt, le}

  -- What the form asks of a product.
  pub record IsValid (p : CrearProducto N) : Type 0 where
    pub nombre : truthy p.nombre ≡ true
    pub codigo : truthy p.codigo_barras ≡ true
    pub categoria : truthy p.categoria ≡ true
    pub precio : le p.precio_venta (num 0) ≡ false
    pub stock : lt p.stock_actual (num 0) ≡ false

  -- A row without errors makes a valid product.
  abbrev pub IsSound : ParsedRow N → Type 0
  IsSound r = (length r.errors == 0) ≡ true → IsValid (to_crear r)

  good_price : (v : Option N) → is_bad_price v ≡ false → le (or_else v (num 0)) (num 0) ≡ false
  good_price none e = cc
  good_price (some v) e = e

  good_stock : (v : Option N) → is_bad_stock v ≡ false → lt (or_else v (num 0)) (num 0) ≡ false
  good_stock none e = cc
  good_stock (some v) e = e

  module _ (parse_float : Text → Option N) (parse_int : Text → Option N) (lower : Text → Text) where
    read_row-IsSound :
        (index : Dict ℕ) (i : ℕ) (cols : List Text)
        → IsSound (read_row parse_float parse_int index i cols)
    unfolding read_row row_errors
    read_row-IsSound index i cols e =
        let (no_category, e4) = push_if-nil _ _ _ e in
        let (no_stock, e3) = push_if-nil _ _ _ e4 in
        let (no_price, e2) = push_if-nil _ _ _ e3 in
        let (no_code, e1) = push_if-nil _ _ _ e2 in
        record {
          nombre = there _ (push_if-nil _ _ [] e1).0;
          codigo = there _ no_code;
          categoria = there _ no_category;
          precio = good_price _ no_price;
          stock = good_stock _ no_stock;
        }

    read_rows-AllSound :
        (index : Dict ℕ) (i : ℕ) (ls : List Text)
        → All IsSound (read_rows parse_float parse_int index i ls)
    unfolding read_rows
    read_rows-AllSound index i [] = tt
    read_rows-AllSound index i (l ∷ ls) =
        (read_row-IsSound index i (map trim (split_on 44 l)), read_rows-AllSound index (suc i) ls)

    parse_lines-AllSound :
        (ls : List Text) → All IsSound (parse_lines parse_float parse_int lower ls).rows
    unfolding parse_lines
    parse_lines-AllSound [] = tt
    parse_lines-AllSound (head ∷ []) = tt
    parse_lines-AllSound (head ∷ l ∷ ls) =
        let missing =
          filter (λ (h : Text). not (member h (raw_headers lower head))) expected_headers in
        elim (Bool-cases (ltb 0 (length missing))) [
          | inl some_missing ↦ rw some_missing tt
          | inr complete ↦
              rw complete
                (read_rows-AllSound (header_index 0 (raw_headers lower head) []) 1 (l ∷ ls))
        ]

    parse_csv-AllSound : (t : Text) → All IsSound (parse_csv parse_float parse_int lower t).rows
    unfolding parse_csv
    parse_csv-AllSound t =
        parse_lines-AllSound (filter (λ (l : Text). ltb 0 (length (trim l))) (split_lines t))

    -- What an event does to the dialog, and what it sends.
    unfoldable pub wizard_step :
        ImportEvent → ImportState N → ImportState N × List (CrearProducto N)
    unfolding handle_file_change handle_parse handle_import reset
    wizard_step (choose f) s = (handle_file_change f s, [])
    wizard_step (validate text) s = (handle_parse parse_float parse_int lower text s, [])
    wizard_step (confirm result) s = let a = handle_import result s in (a.state, or_else a.sent [])
    wizard_step back s = (record s { active = 0 }, [])
    wizard_step close s = (reset, [])

    unfoldable pub wizard_run : List ImportEvent → ImportState N → List (CrearProducto N)
    unfolding wizard_step
    wizard_run [] s = []
    wizard_run (e ∷ es) s = let (s', sent) = wizard_step e s in sent ++ wizard_run es s'

    to_crear-AllValid :
        (rs : List (ParsedRow N))
        → All IsSound rs
        → All IsValid (map to_crear (filter (λ (r : ParsedRow N). length r.errors == 0) rs))
    to_crear-AllValid [] h = tt
    to_crear-AllValid (r ∷ rs) h = elim (Bool-cases (length r.errors == 0)) [
      | inl clean ↦ rw clean (h.0 clean, to_crear-AllValid rs h.1)
      | inr faulty ↦ rw faulty (to_crear-AllValid rs h.1)
    ]

    handle_import-AllValid :
        (result : Option (List Bool)) (s : ImportState N)
        → All IsSound s.parsed_rows
        → All IsValid (or_else (handle_import result s).sent [])
    unfolding handle_import valid_rows
    handle_import-AllValid result s h = elim (Bool-cases (length (valid_rows s) == 0)) [
      | inl nothing ↦ rw nothing tt
      | inr something ↦ elim (Option-cases result) [
        | inl failed ↦ rw (something, failed) (to_crear-AllValid s.parsed_rows h)
        | inr (rs, answered) ↦ rw (something, answered) (to_crear-AllValid s.parsed_rows h)
      ]
    ]

    take_parsed-AllSound :
        (p : Parsed N) (s : ImportState N)
        → All IsSound p.rows
        → All IsSound s.parsed_rows
        → All IsSound (take_parsed p s).parsed_rows
    take_parsed-AllSound p s h k = elim (Option-cases p.header_error) [
      | inl fine ↦ rw fine h
      | inr (m, bad) ↦ rw bad k
    ]

    abbrev Sound : ImportState N → Type 0
    Sound s = All IsSound s.parsed_rows

    wizard_step-keeps :
        (e : ImportEvent) (s : ImportState N)
        → All IsSound s.parsed_rows
        → All IsSound (wizard_step e s).0.parsed_rows
    unfolding wizard_step handle_file_change handle_parse handle_import reset parse_csv
    wizard_step-keeps (choose f) s h = tt
    wizard_step-keeps (validate none) s h = option_intro Sound s.file s _ h (λ f. h)
    wizard_step-keeps (validate (some t)) s h =
        let parsed = parse_csv parse_float parse_int lower t in
        option_intro Sound s.file s _ h
          (λ f. take_parsed-AllSound parsed s (parse_csv-AllSound t) h)
    wizard_step-keeps (confirm result) s h = elim (Bool-cases (length (valid_rows s) == 0)) [
      | inl nothing ↦ rw nothing h
      | inr something ↦ elim (Option-cases result) [
        | inl failed ↦ rw (something, failed) h
        | inr (rs, answered) ↦ rw (something, answered) h
      ]
    ]
    wizard_step-keeps back s h = h
    wizard_step-keeps close s h = tt

    wizard_step-AllValid :
        (e : ImportEvent) (s : ImportState N)
        → All IsSound s.parsed_rows
        → All IsValid (wizard_step e s).1
    unfolding wizard_step
    wizard_step-AllValid (choose f) s h = tt
    wizard_step-AllValid (validate text) s h = tt
    wizard_step-AllValid (confirm result) s h = handle_import-AllValid result s h
    wizard_step-AllValid back s h = tt
    wizard_step-AllValid close s h = tt

    -- Whatever is done in the dialog and whatever stands in the files, every product that is sent
    -- has a name, a barcode, a category, a price above nothing and a stock that is not negative.
    pub wizard_run-AllValid :
        (es : List ImportEvent) (s : ImportState N)
        → All IsSound s.parsed_rows
        → All IsValid (wizard_run es s)
    unfolding wizard_run
    wizard_run-AllValid [] s h = tt
    wizard_run-AllValid (e ∷ es) s h =
        All-append IsValid _ _ (wizard_step-AllValid e s h)
          (wizard_run-AllValid es _ (wizard_step-keeps e s h))
