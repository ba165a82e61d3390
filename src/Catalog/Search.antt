-- ===== src/Catalog/Search.antt =====
-- frontend/src/offline/catalog.ts: the searches of the terminal. `rows` is the table in the order of
-- its key, `by_name` in that of the index on the names, `by_barcode` in that of the barcodes.
use blend_posv.Prelude.{
  ℕ, ◌-◌, ◌≤◌, ◌≡◌, inl, inr, Bool, true, not, ◌&&◌, ◌||◌, Option, none, some, List, [], ◌∷◌, ◌++◌,
  map, filter, find, all, take, length, length-take, length-append, All, All-append, All-take, leb,
  if◌then◌else◌, arith, Bool-cases, if_intro, Option-cases, find-some,
}
use blend_posv.Text.{Text, text_eq, truthy, member, starts_with, includes}
use blend_posv.Number.{Number}
use blend_posv.Catalog.{LocalProduct}

-- A decimal digit.
abbrev pub is_digit : ℕ → Bool
is_digit c = leb 48 c && leb c 57

-- `/^\d{4}$/.test(s)`
abbrev pub is_barcode : Text → Bool
is_barcode s = leb 4 (length s) && all is_digit s

abbrev pub ids_of : {N : Type 0} → List (LocalProduct N) → List Text
ids_of ps = map (λ p. p.id) ps

module _ {N : Type 0} ⦃n : Number N⦄ where
  abbrev pub in_stock : LocalProduct N → Bool
  in_stock p = n.lt (n.num 0) p.stock

  abbrev pub has_barcode : Text → LocalProduct N → Bool
  has_barcode code p = text_eq p.codigo_barras code

  -- `trimmed` is `barcode.trim()`.
  unfoldable pub find_catalog_product_by_barcode :
      Text → List (LocalProduct N) → List (LocalProduct N) → Option (LocalProduct N)
  find_catalog_product_by_barcode trimmed by_barcode rows =
      if not (truthy trimmed)
      then none
      else elim (find (λ p. has_barcode trimmed p && in_stock p)
          (take 1 (filter (has_barcode trimmed) by_barcode))) [
            | some p ↦ some p
            | none ↦ find (λ p. has_barcode trimmed p && in_stock p) rows
          ]

  -- `lower` is `toLowerCase`, with which the index ignores case; `barcode` is `query.trim()`.
  abbrev pub starting : (Text → Text) → Text → ℕ → List (LocalProduct N) → List (LocalProduct N)
  starting lower q limit by_name =
      take limit
        (filter in_stock (filter (λ (p : LocalProduct N). starts_with q (lower p.nombre)) by_name))

  abbrev pub matches : (Text → Text) → Text → Text → List Text → LocalProduct N → Bool
  matches lower q barcode ids p =
      in_stock p
      && (not (member p.id ids)
          && (includes q (lower p.nombre) || includes barcode p.codigo_barras))

  -- The search by name.
  unfoldable pub search_by_name :
      (Text → Text)
      → Text
      → Text
      → ℕ
      → List (LocalProduct N)
      → List (LocalProduct N)
      → List (LocalProduct N)
  search_by_name lower q barcode limit by_name rows =
      let first = starting lower q limit by_name in
      if leb limit (length first)
      then first
      else first
        ++ take (limit - length first) (filter (matches lower q barcode (ids_of first)) rows)

  unfoldable pub search_catalog_products :
      (Text → Text)
      → Text
      → ℕ
      → List (LocalProduct N)
      → List (LocalProduct N)
      → List (LocalProduct N)
      → List (LocalProduct N)
  unfolding search_by_name
  search_catalog_products lower barcode limit by_barcode by_name rows =
      let q = lower barcode in
      if not (truthy q)
      then take limit (filter in_stock rows)
      else elim (if is_barcode barcode
          then find in_stock (take 1 (filter (has_barcode barcode) by_barcode))
          else none) [
            | some exact ↦ exact ∷ []
            | none ↦ search_by_name lower q barcode limit by_name rows
          ]

  abbrev pub IsInStock : LocalProduct N → Type 0
  IsInStock p = in_stock p ≡ true

  -- What a search gives: no more than asked for, and only products in stock.
  pub record IsOffer (limit : ℕ) (ps : List (LocalProduct N)) : Type 0 where
    pub short : length ps ≤ limit
    pub there : All IsInStock ps

  filter-IsInStock : (ps : List (LocalProduct N)) → All IsInStock (filter in_stock ps)
  filter-IsInStock [] = tt
  filter-IsInStock (p ∷ ps) = elim (Bool-cases (in_stock p)) [
    | inl e ↦ rw e (e, filter-IsInStock ps)
    | inr e ↦ rw e (filter-IsInStock ps)
  ]

  matches-IsInStock :
      (lower : Text → Text) (q barcode : Text) (ids : List Text) (ps : List (LocalProduct N))
      → All IsInStock (filter (matches lower q barcode ids) ps)
  matches-IsInStock lower q barcode ids [] = tt
  matches-IsInStock lower q barcode ids (p ∷ ps) =
      elim (Bool-cases (matches lower q barcode ids p)) [
        | inl e ↦ rw e (ground arith, matches-IsInStock lower q barcode ids ps)
        | inr e ↦ rw e (matches-IsInStock lower q barcode ids ps)
      ]

  take-IsOffer :
      (limit : ℕ) (ps : List (LocalProduct N)) → All IsInStock ps → IsOffer limit (take limit ps)
  take-IsOffer limit ps h = record {
    short = omega (arith, length-take limit ps);
    there = All-take IsInStock limit ps h;
  }

  search_by_name-IsOffer :
      (lower : Text → Text) (q barcode : Text) (limit : ℕ) (by_name rows : List (LocalProduct N))
      → IsOffer limit (search_by_name lower q barcode limit by_name rows)
  unfolding search_by_name
  search_by_name-IsOffer lower q barcode limit by_name rows =
      let first = starting lower q limit by_name in
      let more = filter (matches lower q barcode (ids_of first)) rows in
      let offer : IsOffer limit first = take-IsOffer limit _ (filter-IsInStock _) in
      if_intro (IsOffer limit) (leb limit (length first)) first
        (first ++ take (limit - length first) more) offer
        (record {
          short = omega (
            arith,
            offer.short,
            length-append first (take (limit - length first) more),
            length-take (limit - length first) more,
          );
          there =
              All-append IsInStock first _ offer.there
                (All-take IsInStock _ more (matches-IsInStock lower q barcode (ids_of first) rows));
        })

  -- A search for at least one product gives no more products than asked for, and only products
  -- with stock.
  pub search_catalog_products-IsOffer :
      (lower : Text → Text) (barcode : Text) (limit : ℕ)
      (by_barcode by_name rows : List (LocalProduct N))
      → 1 ≤ limit
      → IsOffer limit (search_catalog_products lower barcode limit by_barcode by_name rows)
  unfolding search_catalog_products
  search_catalog_products-IsOffer lower barcode limit by_barcode by_name rows h =
      if_intro (IsOffer limit) (not (truthy (lower barcode))) _ _
        (take-IsOffer limit (filter in_stock rows) (filter-IsInStock rows))
        (elim (Option-cases exact) [
          | inl e ↦ rw e (search_by_name-IsOffer lower (lower barcode) barcode limit by_name rows)
          | inr (p, e) ↦ rw e (record { short = h; there = (exact-IsInStock p e, tt) })
        ])
    where
      exact : Option (LocalProduct N)
      exact =
          if is_barcode barcode
          then find in_stock (take 1 (filter (has_barcode barcode) by_barcode))
          else none

      exact-IsInStock : (p : LocalProduct N) → exact ≡ some p → IsInStock p
      exact-IsInStock p e = elim (Bool-cases (is_barcode barcode)) [
        | inl b ↦ find-some in_stock (take 1 (filter (has_barcode barcode) by_barcode)) (rw b at e)
        | inr b ↦ cc (rw b at e)
      ]
