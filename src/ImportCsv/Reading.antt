-- ===== src/ImportCsv/Reading.antt =====
-- `parseCsv` of frontend/src/components/ImportProductosModal.tsx. `toLowerCase`, `parseFloat` and
-- `parseInt` are arguments; the latter two give `none` for NaN.
use blend_posv.Prelude.{
  ℕ, suc, ◌+◌, Bool, true, false, not, Option, none, some, List, [], ◌∷◌, ◌++◌, map, ltb,
  if◌then◌else◌, or_else, length, get_elem?, filter,
}
use blend_posv.Text.{Text, codes, truthy, member}
use blend_posv.Text.Parts.{trim, underscores, split_on, split_lines, join}
use blend_posv.Dict.{Dict, lookup, insert}
use blend_posv.Number.{Number}

pub record ParsedRow (N : Type 0) : Type 0 where
  pub row_number : ℕ
  pub nombre : Text
  pub codigo_barras : Text
  pub precio_venta : N
  pub categoria : Text
  pub stock_actual : N
  pub errors : List Text

-- `{ rows, headerError }`
pub record Parsed (N : Type 0) : Type 0 where
  pub rows : List (ParsedRow N)
  pub header_error : Option Text

abbrev pub expected_headers : List Text
expected_headers =
    codes "nombre"
    ∷ codes "codigo_barras"
    ∷ codes "precio_venta"
    ∷ codes "categoria"
    ∷ codes "stock_actual"
    ∷ []

abbrev pub too_short : Text
too_short = codes "El archivo debe tener al menos un encabezado y una fila de datos."

abbrev pub missing_message : List Text → Text
missing_message missing =
    codes "Columnas faltantes: "
    ++ (join (codes ", ") missing
        ++ (codes ". Columnas esperadas: " ++ join (codes ", ") expected_headers))

unfoldable pub raw_headers : (Text → Text) → Text → List Text
raw_headers lower line = map (λ (h : Text). underscores false (lower (trim h))) (split_on 44 line)

-- `Object.fromEntries(rawHeaders.map((h, i) => [h, i]))`, from a column on
abbrev pub header_index : ℕ → List Text → Dict ℕ → Dict ℕ
header_index i [] d = d
header_index i (h ∷ hs) d = header_index (suc i) hs (insert h i d)

-- `cols[headerIndex[h]] ?? ''`
abbrev pub cell : Dict ℕ → List Text → Text → Text
cell index cols h = elim (lookup h index) [ none ↦ [] | some i ↦ or_else (get_elem? cols i) [] ]

-- `if (bad) errors.push(message)`
abbrev pub push_if : Bool → Text → List Text → List Text
push_if bad message errors = if bad then errors ++ (message ∷ []) else errors

module _ {N : Type 0} ⦃n : Number N⦄ where
  open n use {num, lt, le}

  -- `isNaN(v) || v <= 0`
  abbrev pub is_bad_price : Option N → Bool
  is_bad_price none = true
  is_bad_price (some v) = le v (num 0)

  -- `isNaN(v) || v < 0`
  abbrev pub is_bad_stock : Option N → Bool
  is_bad_stock none = true
  is_bad_stock (some v) = lt v (num 0)

  unfoldable pub row_errors : Text → Text → Option N → Option N → Text → List Text
  row_errors nombre codigo precio stock categoria =
      push_if (not (truthy categoria)) (codes "categoría es requerida") (
        push_if (is_bad_stock stock) (codes "stock_actual debe ser un entero >= 0") (
          push_if (is_bad_price precio) (codes "precio_venta debe ser un número mayor a 0") (
            push_if (not (truthy codigo)) (codes "codigo_barras es requerido")
              (push_if (not (truthy nombre)) (codes "nombre es requerido") []))))

  module _ (parse_float : Text → Option N) (parse_int : Text → Option N) where
    -- The row at index `i` of the lines, from its columns.
    unfoldable pub read_row : Dict ℕ → ℕ → List Text → ParsedRow N
    unfolding row_errors
    read_row index i cols =
        let nombre = cell index cols (codes "nombre") in
        let codigo = cell index cols (codes "codigo_barras") in
        let precio = parse_float (cell index cols (codes "precio_venta")) in
        let categoria = cell index cols (codes "categoria") in
        let stock = parse_int (cell index cols (codes "stock_actual")) in
        record {
          row_number = i + 1;
          nombre = nombre;
          codigo_barras = codigo;
          precio_venta = or_else precio (num 0);
          categoria = categoria;
          stock_actual = or_else stock (num 0);
          errors = row_errors nombre codigo precio stock categoria;
        }

    -- The loop over the lines, from index `i` on.
    unfoldable pub read_rows : Dict ℕ → ℕ → List Text → List (ParsedRow N)
    unfolding read_row
    read_rows index i [] = []
    read_rows index i (l ∷ ls) =
        read_row index i (map trim (split_on 44 l)) ∷ read_rows index (suc i) ls

    -- The rest, for the names of the columns and the lines after the first.
    unfoldable pub parse_body : List Text → List Text → Parsed N
    unfolding read_rows
    parse_body headers ls =
        let missing = filter (λ (h : Text). not (member h headers)) expected_headers in
        if ltb 0 (length missing)
        then record { rows = []; header_error = some (missing_message missing) }
        else record { rows = read_rows (header_index 0 headers []) 1 ls; header_error = none }

    unfoldable pub parse_lines : (Text → Text) → List Text → Parsed N
    unfolding raw_headers parse_body
    parse_lines lower [] = record { rows = []; header_error = some too_short }
    parse_lines lower (head ∷ []) = record { rows = []; header_error = some too_short }
    parse_lines lower (head ∷ l ∷ ls) = parse_body (raw_headers lower head) (l ∷ ls)

    unfoldable pub parse_csv : (Text → Text) → Text → Parsed N
    unfolding parse_lines
    parse_csv lower text =
        parse_lines lower (filter (λ (l : Text). ltb 0 (length (trim l))) (split_lines text))
