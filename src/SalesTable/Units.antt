-- ===== src/SalesTable/Units.antt =====
-- The units of a product over the rows that are shown.
use mathlib.Core.Option.{some-injective}
use blend_posv.Prelude.{
  ℕ, suc, ◌≡◌, refl, ap, ◌∙◌, inl, inr, Bool, true, false, some, List, [], ◌∷◌, ◌++◌, Bool-cases,
  Option-cases, if_intro, if◌then◌else◌, or_else, find, find-some,
}
use blend_posv.Text.{Text, member, text_eq, text_eq_iff, text_eq_refl, text_eq_cases}
use blend_posv.Dict.{Dict, lookup, insert, lookup-insert}
use blend_posv.Number.{Number}
use blend_posv.Cart.{CartItem, is_item}
use blend_posv.Promotions.{ProductoPromo}
use blend_posv.SalesTable.{
  ComboItem, DisplayRow, combo, individual, Building, left_of, initial_remaining, combo_items,
  consume, product_ids, individual_row, individual_rows,
}

-- No text stands in the list twice.
abbrev pub Once : List Text → Type 0
Once [] = Unit
Once (x ∷ xs) = (member x xs ≡ false) × Once xs

abbrev pub ids_of : {N : Type 0} → List (CartItem N) → List Text
ids_of [] = []
ids_of (c ∷ cs) = c.id ∷ ids_of cs

module _ {N : Type 0} ⦃n : Number N⦄ where
  open n use {num, add, sub, mul, div, floor, le, eq, min_of}

  abbrev pub item_units : Text → N → List (ComboItem N) → N
  item_units id u [] = u
  item_units id u (i ∷ is) = item_units id (if is_item id i.cart_item then add u i.qty else u) is

  -- The units of a product that a row shows, on top of `u`.
  abbrev pub row_units : Text → N → DisplayRow N → N
  row_units id u (combo r) = item_units id u r.items
  row_units id u (individual r) = if is_item id r.cart_item then add u r.display_qty else u

  abbrev pub units_from : Text → N → List (DisplayRow N) → N
  units_from id u [] = u
  units_from id u (r ∷ rs) = units_from id (row_units id u r) rs

  -- The units of a product that all rows show.
  abbrev pub shown_units : Text → List (DisplayRow N) → N
  shown_units id rows = units_from id (num 0) rows

  pub units_from-append :
      (id : Text) (u : N) (rs ss : List (DisplayRow N))
      → units_from id u (rs ++ ss) ≡ units_from id (units_from id u rs) ss
  units_from-append id u [] ss = refl
  units_from-append id u (r ∷ rs) ss = units_from-append id (row_units id u r) rs ss

  left_of-insert :
      (id j : Text) (x : N) (d : Dict N)
      → left_of id (insert j x d) ≡ (if text_eq j id then x else left_of id d)
  left_of-insert id j x d = rw lookup-insert (if_or (text_eq j id))
    where
      if_or :
          (b : Bool)
          → or_else (if b then some x else lookup id d) (num 0) ≡ (if b then x else left_of id d)
      if_or true = refl
      if_or false = refl

  -- A product that stands in a promotion once loses its units once.
  pub left_of-consume :
      (id : Text) (q : N) (ps : List (ProductoPromo N)) (d : Dict N)
      → Once (product_ids ps)
      → left_of id (consume q ps d)
        ≡ (if member id (product_ids ps) then sub (left_of id d) q else left_of id d)
  unfolding consume
  left_of-consume id q [] d once = refl
  left_of-consume id q (p ∷ ps) d once = elim (text_eq_cases p.id id) [
    | inl e ↦
        rw (← e, text_eq_refl)
          (left_of-consume p.id q ps _ once.1 ∙ rw (once.0, left_of-insert, text_eq_refl) refl)
    | inr other ↦
        rw (other.1) (left_of-consume id q ps _ once.1 ∙ rw (left_of-insert, other.0) refl)
  ]

  -- The line of a product in the cart.
  pub item_units-combo_items :
      (cart : List (CartItem N)) (id : Text) (c : CartItem N) (u q : N)
      (ps : List (ProductoPromo N))
      → find (is_item id) cart ≡ some c
      → Once (product_ids ps)
      → item_units id u (combo_items cart q ps)
        ≡ (if member id (product_ids ps) then add u q else u)
  unfolding combo_items
  item_units-combo_items cart id c u q [] found once = refl
  item_units-combo_items cart id c u q (p ∷ ps) found once = elim (text_eq_cases p.id id) [
    | inl e ↦
        let here : find (is_item p.id) cart ≡ some c = rw (← e) at found in
        let own : text_eq c.id p.id ≡ true = find-some (is_item p.id) cart here in
        rw (← e, text_eq_refl, here, combo_items, own)
          (item_units-combo_items cart p.id c (add u q) q ps here once.1 ∙ rw (once.0) refl)
    | inr other ↦ elim (Option-cases (find (is_item p.id) cart)) [
      | inl gone ↦
          rw (other.1, gone, combo_items) (item_units-combo_items cart id c u q ps found once.1)
      | inr (x, at) ↦
          let its : x.id ≡ p.id = (text_eq_iff x.id p.id).0 (find-some (is_item p.id) cart at) in
          rw (other.1, at, combo_items, its, other.0)
            (item_units-combo_items cart id c u q ps found once.1)
    ]
  ]

  -- No line of the product is left among those that follow.
  individual_rows-absent :
      (b : Building N) (i : ℕ) (id : Text) (u : N) (cs : List (CartItem N))
      → member id (ids_of cs) ≡ false
      → units_from id u (individual_rows b i cs) ≡ u
  unfolding individual_rows individual_row
  individual_rows-absent b i id u [] e = refl
  individual_rows-absent b i id u (c ∷ cs) e = elim (text_eq_cases c.id id) [
    | inl same ↦ cc (rw (same, text_eq_refl) at e)
    | inr other ↦
        let h = individual_rows-absent b (suc i) id u cs (rw (other.1) at e) in
        if_intro (λ (rs : List (DisplayRow N)). units_from id u rs ≡ u)
          (le (left_of c.id b.remaining) (num 0)) _ _ h (rw (other.0) h)
  ]

  pub individual_rows-own :
      (b : Building N) (i : ℕ) (id : Text) (u : N) (cs : List (CartItem N))
      → Once (ids_of cs)
      → member id (ids_of cs) ≡ true
      → units_from id u (individual_rows b i cs)
        ≡ (if le (left_of id b.remaining) (num 0) then u else add u (left_of id b.remaining))
  unfolding individual_rows individual_row
  individual_rows-own b i id u [] once e = cc
  individual_rows-own b i id u (c ∷ cs) once e = elim (text_eq_cases c.id id) [
    | inl same ↦ rw (← same) (elim (Bool-cases (le (left_of c.id b.remaining) (num 0))) [
      | inl nothing ↦ rw nothing (individual_rows-absent b (suc i) c.id u cs once.0)
      | inr some_left ↦
          let own = left_of c.id b.remaining in
          let h : units_from c.id (if is_item c.id c then add u own else u)
                (individual_rows b (suc i) cs)
              ≡ add u own =
            rw text_eq_refl (individual_rows-absent b (suc i) c.id (add u own) cs once.0) in
          rw some_left h
    ])
    | inr other ↦
        let h = individual_rows-own b (suc i) id u cs once.1 (rw (other.1) at e) in
        if_intro
          (λ (rs : List (DisplayRow N)).
            units_from id u rs
            ≡ (if le (left_of id b.remaining) (num 0) then u else add u (left_of id b.remaining)))
          (le (left_of c.id b.remaining) (num 0)) _ _ h (rw (other.0) h)
  ]

  initial_remaining-other :
      (id : Text) (cs : List (CartItem N)) (d : Dict N)
      → member id (ids_of cs) ≡ false
      → left_of id (initial_remaining cs d) ≡ left_of id d
  unfolding initial_remaining
  initial_remaining-other id [] d e = refl
  initial_remaining-other id (c ∷ cs) d e = elim (text_eq_cases c.id id) [
    | inl same ↦ cc (rw (same, text_eq_refl) at e)
    | inr other ↦
        initial_remaining-other id cs _ (rw (other.1) at e) ∙ rw (left_of-insert, other.0) refl
  ]

  pub initial_remaining-own :
      (id : Text) (cs : List (CartItem N)) (d : Dict N) (c : CartItem N)
      → Once (ids_of cs)
      → find (is_item id) cs ≡ some c
      → left_of id (initial_remaining cs d) ≡ c.cantidad
  unfolding initial_remaining
  initial_remaining-own id [] d c once e = cc
  initial_remaining-own id (x ∷ xs) d c once e = elim (text_eq_cases x.id id) [
    | inl same ↦
        let is : x ≡ c = some-injective _ _ (rw ((text_eq_iff x.id id).1 same) at e) in
        initial_remaining-other id xs _ (rw same at (once.0))
        ∙ (rw (left_of-insert, same, text_eq_refl) (ap (λ (y : CartItem N). y.cantidad) is))
    | inr other ↦ initial_remaining-own id xs _ c once.1 (rw (other.0) at e)
  ]
