-- ===== src/ImportCsv/RoundTrip.antt =====
-- Files that frontend/src/components/ImportProductosModal.tsx reads back: the headers in the order
-- of its template, and a line for each product.
use blend_posv.Prelude.{
  ℕ, suc, ◌+◌, ◌≡◌, refl, ap, ◌∙◌, Bool, true, false, not, Option, none, some, List, [], ◌∷◌, ◌++◌,
  map, ◌==◌, length, filter, All, ltb,
}
use blend_posv.Text.{Text, truthy, codes}
use blend_posv.Text.Parts.{
  without-join, any-append, has_length, trim, split_on, split_lines, join, without, is_space,
  line_end, split_on-join, split_lines-line, trim-nonempty,
}
use blend_posv.Dict.{Dict}
use blend_posv.Number.{Number}
use blend_posv.ImportCsv.Reading.{
  ParsedRow, row_errors, read_row, read_rows, parse_lines, parse_body, parse_csv, raw_headers,
  expected_headers, header_index,
}

-- What a line of the file says.
pub record Entry (N : Type 0) : Type 0 where
  pub nombre : Text
  pub codigo_barras : Text
  pub precio_venta : N
  pub categoria : Text
  pub stock_actual : N

-- A field that is there and that the commas, the ends of lines and `trim` leave whole.
pub record IsField (t : Text) : Type 0 where
  pub there : truthy t ≡ true
  pub trimmed : trim t ≡ t
  pub no_comma : without 44 t ≡ true
  pub no_newline : without 10 t ≡ true
  pub no_return : without 13 t ≡ true

module _ {N : Type 0} ⦃n : Number N⦄ (show_price : N → Text) (show_stock : N → Text) where
  open n use {num, lt, le}

  abbrev pub fields : Entry N → List Text
  fields e =
      e.nombre
      ∷ e.codigo_barras
      ∷ show_price e.precio_venta
      ∷ e.categoria
      ∷ show_stock e.stock_actual
      ∷ []

  abbrev pub write_line : Bool → List Text → Text → Text
  write_line windows ts rest = join (44 ∷ []) ts ++ (line_end windows ++ rest)

  abbrev pub write_entries : Bool → List (Entry N) → Text
  write_entries windows [] = []
  write_entries windows (e ∷ es) = write_line windows (fields e) (write_entries windows es)

  -- The text of the file, with the ends of lines of Windows or of Unix.
  abbrev pub write_csv : Bool → List (Entry N) → Text
  write_csv windows es = write_line windows expected_headers (write_entries windows es)

  -- The row that is expected of the line `i + 1`.
  abbrev pub row_of : ℕ → Entry N → ParsedRow N
  row_of i e = record {
    row_number = i + 1;
    nombre = e.nombre;
    codigo_barras = e.codigo_barras;
    precio_venta = e.precio_venta;
    categoria = e.categoria;
    stock_actual = e.stock_actual;
    errors = [];
  }

  abbrev pub rows_of : ℕ → List (Entry N) → List (ParsedRow N)
  rows_of i [] = []
  rows_of i (e ∷ es) = row_of i e ∷ rows_of (suc i) es

  -- An entry that can be written: whole fields, a price above nothing, a stock that is not negative.
  pub record IsEntry (parse_float : Text → Option N) (parse_int : Text → Option N) (e : Entry N)
      : Type 0 where
    pub fields_whole : All IsField (fields e)
    pub price_read : parse_float (show_price e.precio_venta) ≡ some e.precio_venta
    pub stock_read : parse_int (show_stock e.stock_actual) ≡ some e.stock_actual
    pub price : le e.precio_venta (num 0) ≡ false
    pub stock : lt e.stock_actual (num 0) ≡ false

-- A line of two columns or more is not blank.
line-kept :
    (x y : Text) (ys : List Text) → ltb 0 (length (trim (join (44 ∷ []) (x ∷ y ∷ ys)))) ≡ true
line-kept x y ys =
    has_length _ (trim-nonempty _ (any-append (λ (c : ℕ). not (is_space c)) x 44 _ refl))

map-trim : (ts : List Text) → All IsField ts → map trim ts ≡ ts
map-trim [] h = refl
map-trim (t ∷ ts) h = rw (h.0.trimmed, map-trim ts h.1) refl

-- The columns of a line are its fields.
columns :
    (t : Text) (ts : List Text)
    → All IsField (t ∷ ts)
    → map trim (split_on 44 (join (44 ∷ []) (t ∷ ts))) ≡ t ∷ ts
columns t ts h =
    ap (λ (xs : List Text). map trim xs) (split_on-join 44 t ts (plain (t ∷ ts) h))
    ∙ map-trim (t ∷ ts) h
  where
    plain : (xs : List Text) → All IsField xs → All (λ (x : Text). without 44 x ≡ true) xs
    plain [] k = tt
    plain (x ∷ xs) k = (k.0.no_comma, plain xs k.1)

raw_headers-own :
    (lower : Text → Text)
    → All (λ (h : Text). lower h ≡ h) expected_headers
    → raw_headers lower (join (44 ∷ []) expected_headers) ≡ expected_headers
unfolding raw_headers trim
raw_headers-own lower h = rw (h.0, h.1.0, h.1.1.0, h.1.1.1.0, h.1.1.1.1.0) refl

module _ {N : Type 0} ⦃n : Number N⦄ (show_price : N → Text) (show_stock : N → Text)
    (parse_float : Text → Option N) (parse_int : Text → Option N) (lower : Text → Text) where
  open n use {num, lt, le}

  abbrev own_index : Dict ℕ
  own_index = header_index 0 expected_headers []

  read_row-own :
      (i : ℕ) (e : Entry N)
      → IsEntry show_price show_stock parse_float parse_int e
      → read_row parse_float parse_int own_index i (fields show_price show_stock e)
        ≡ row_of show_price show_stock i e
  unfolding read_row row_errors
  read_row-own i e h =
      let (nombre, more) = h.fields_whole in
      rw
        (nombre.there, more.0.there, more.1.1.0.there, h.price_read, h.stock_read, h.price, h.stock)
        refl

  abbrev IsWritable : Entry N → Type 0
  IsWritable e = IsEntry show_price show_stock parse_float parse_int e

  abbrev line_of : Entry N → Text
  line_of e = join (44 ∷ []) (fields show_price show_stock e)

  read_rows-own :
      (i : ℕ) (es : List (Entry N))
      → All IsWritable es
      → read_rows parse_float parse_int own_index i (map line_of es)
        ≡ rows_of show_price show_stock i es
  unfolding read_rows
  read_rows-own i [] h = refl
  read_rows-own i (e ∷ es) h =
      rw (columns e.nombre _ h.0.fields_whole, read_row-own i e h.0, read_rows-own (suc i) es h.1)
        refl

  plain_line :
      (k : ℕ) (ts : List Text)
      → (44 == k) ≡ false
      → ((t : Text) → IsField t → without k t ≡ true)
      → All IsField ts
      → without k (join (44 ∷ []) ts) ≡ true
  plain_line k ts apart plain h = without-join k ts apart (each ts h)
    where
      each : (xs : List Text) → All IsField xs → All (λ (x : Text). without k x ≡ true) xs
      each [] m = tt
      each (x ∷ xs) m = (plain x m.0, each xs m.1)

  split_lines-entries :
      (windows : Bool) (es : List (Entry N))
      → All IsWritable es
      → split_lines (write_entries show_price show_stock windows es) ≡ map line_of es ++ ([] ∷ [])
  split_lines-entries windows [] h = refl
  split_lines-entries windows (e ∷ es) h =
      split_lines-line windows (line_of e) _
        (plain_line 10 (fields show_price show_stock e) refl (λ t f. f.no_newline) h.0.fields_whole)
        (plain_line 13 (fields show_price show_stock e) refl (λ t f. f.no_return) h.0.fields_whole)
      ∙ ap (λ (ls : List Text). line_of e ∷ ls) (split_lines-entries windows es h.1)

  kept_lines :
      (es : List (Entry N))
      → filter (λ (l : Text). ltb 0 (length (trim l))) (map line_of es ++ ([] ∷ []))
        ≡ map line_of es
  unfolding trim
  kept_lines [] = refl
  kept_lines (e ∷ es) = rw (line-kept e.nombre e.codigo_barras _, kept_lines es) refl

  parse_lines-own :
      (e : Entry N) (es : List (Entry N))
      → All (λ (h : Text). lower h ≡ h) expected_headers
      → All IsWritable (e ∷ es)
      → parse_lines parse_float parse_int lower
          (join (44 ∷ []) expected_headers ∷ line_of e ∷ map line_of es)
        ≡ record { rows = rows_of show_price show_stock 1 (e ∷ es); header_error = none }
  unfolding parse_lines parse_body
  parse_lines-own e es same h =
      ap (λ (hs : List Text). parse_body parse_float parse_int hs (map line_of (e ∷ es)))
        (raw_headers-own lower same)
      ∙ ap (λ (rs : List (ParsedRow N)). record { rows = rs; header_error = none })
          (read_rows-own 1 (e ∷ es) h)

  -- A file with the headers of the template and a line for each product, with the ends of lines of
  -- Windows or of Unix, is read back product by product, without errors and with the numbers of its
  -- lines. There is at least one product; the fields are not empty and have no commas, no ends of
  -- lines and no white space around them, prices are above nothing and stocks not negative, and
  -- `parseFloat` and `parseInt` read back the written numbers. `toLowerCase` leaves the headers.
  pub parse_csv-write :
      (windows : Bool) (e : Entry N) (es : List (Entry N))
      → All (λ (h : Text). lower h ≡ h) expected_headers
      → All IsWritable (e ∷ es)
      → parse_csv parse_float parse_int lower (write_csv show_price show_stock windows (e ∷ es))
        ≡ record { rows = rows_of show_price show_stock 1 (e ∷ es); header_error = none }
  unfolding parse_csv
  parse_csv-write windows e es same h =
      let head = join (44 ∷ []) expected_headers in
      let lines : split_lines (write_csv show_price show_stock windows (e ∷ es))
          ≡ head ∷ (map line_of (e ∷ es) ++ ([] ∷ [])) =
        split_lines-line windows head _ refl refl
        ∙ ap (λ (ls : List Text). head ∷ ls) (split_lines-entries windows (e ∷ es) h) in
      rw (lines, line-kept (codes "nombre") (codes "codigo_barras") _, kept_lines (e ∷ es))
        (parse_lines-own e es same h)
