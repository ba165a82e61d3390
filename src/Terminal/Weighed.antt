-- ===== src/Terminal/Weighed.antt =====
-- The products that are sold by weight at the till of frontend/src/pages/PosTerminal.tsx.
use mathlib.Core.Option.{some-injective}
use blend_posv.Prelude.{
  subst, ℕ, zero, suc, ◌≡◌, refl, inl, inr, Bool, true, false, not, ◌||◌, Option, none, some, List,
  [], ◌∷◌, ◌++◌, arith, if◌then◌else◌, get_elem?, All, All-append, if_intro, if_split, option_intro,
  Option-cases,
}
use blend_posv.Text.{Text}
use blend_posv.Number.{Number}
use blend_posv.Campo.{Campo}
use blend_posv.Cart.{CartItem, UnidadMedida}
use blend_posv.Cart.Store.{item_at, weight_line, add_weight_item}
use blend_posv.Cart.Store.Actions.{
  Action, add, add_weight, quantity, up, down, remove_selected, promo_discounts, step,
}
use blend_posv.Cart.Store.Lines.{KeepsLines, step-All}
use blend_posv.Terminal.Lookup.{Scanned, Found, found, of_local, find_product}
use blend_posv.Terminal.{
  to_weight_item, Terminal, Key, f3, f8, f10, escape, arrow_up, arrow_down, delete, plus, minus,
  by_weight, unidad_of, add_or_prompt_weight, handle_add_product, on_change, close_search,
  confirm_weight, numeric_peso, close_weight, with_stock, without_at, end_call, detect_promotions,
  any_modal_open, to_new_item,
}
use blend_posv.Terminal.Events.{
  PageEvent, key, scan, typed, pick, search_closed, weigh, weight_closed, ended, promos,
  terminal_step, terminal_run,
}
use blend_posv.Terminal.Keys.{handle_key, free_key, close_top, safe_item, is_empty}

abbrev pub sold_whole : Option UnidadMedida → Bool
sold_whole none = true
sold_whole (some um) = not (by_weight um)

module _ {N : Type 0} ⦃n : Number N⦄ where
  open n use {num, lt}

  abbrev pub positive_peso : Option N → Bool
  positive_peso none = false
  positive_peso (some w) = lt (num 0) w

  -- A line whose unit is one of weight has been weighed. A line without a unit counts as whole.
  abbrev pub IsWeighed : CartItem N → Type 0
  IsWeighed c = (sold_whole c.unidad_medida || positive_peso c.peso) ≡ true

  -- The calls that the page makes: only whole products are added without a weight.
  abbrev pub IsCall : Action N → Type 0
  IsCall (add stock item) = sold_whole item.unidad_medida ≡ true
  IsCall (add_weight uuid item) = lt (num 0) item.peso ≡ true
  IsCall _ = Unit

  IsWeighed-lines : KeepsLines IsWeighed IsCall
  unfolding weight_line
  IsWeighed-lines = record {
    new = λ stock item ok. ground (arith, ok);
    weighed = λ uuid item ok. ground (arith, ok);
    more = λ c h. h;
    barcode = λ item c h. ground arith;
    quantity_set = λ id q c h. ground arith;
    discount = λ id d c ok h. ground arith;
    promo = λ p q c h. ground arith;
  }

  -- Every line with a unit of weight has a weight, and so will the lines of the calls under way.
  abbrev pub IsSafe : Terminal N → Type 0
  IsSafe t = All IsWeighed t.cart.cart × All IsCall t.pending

  push_call :
      (t : Terminal N) (a : Action N)
      → IsCall a
      → IsSafe t
      → IsSafe (record t { pending = t.pending ++ (a ∷ []) })
  push_call t a ok h = (h.0, All-append IsCall t.pending (a ∷ []) h.1 (ok, tt))

  add_or_prompt_weight-IsSafe :
      (p : Scanned N) (t : Terminal N) → IsSafe t → IsSafe (add_or_prompt_weight p t)
  unfolding add_or_prompt_weight
  add_or_prompt_weight-IsSafe p t h =
      if_split IsSafe (by_weight (unidad_of p.unidad_medida)) _ _ (λ _. h)
        (λ whole. push_call t (Action.add none (to_new_item p)) (rw whole refl) h)

  handle_add_product-IsSafe :
      (f : Found N) (t : Terminal N) → IsSafe t → IsSafe (handle_add_product f t)
  unfolding handle_add_product
  handle_add_product-IsSafe (found p) t h = add_or_prompt_weight-IsSafe p t h
  handle_add_product-IsSafe _ t h = h

  free_key-IsSafe : (k : Key) (t : Terminal N) → IsSafe t → IsSafe (free_key k t)
  unfolding free_key step
  free_key-IsSafe f3 t h =
      if_intro IsSafe (is_empty t.cart.cart) t _ h
        (option_intro IsSafe (safe_item t.cart) t _ h (λ c. h))
  free_key-IsSafe f8 t h = if_intro IsSafe (is_empty t.cart.cart) t _ h h
  free_key-IsSafe f10 t h = if_intro IsSafe (is_empty t.cart.cart) t _ h h
  free_key-IsSafe arrow_up t h = (step-All IsWeighed IsCall IsWeighed-lines up t.cart tt h.0, h.1)
  free_key-IsSafe arrow_down t h =
      (step-All IsWeighed IsCall IsWeighed-lines down t.cart tt h.0, h.1)
  free_key-IsSafe delete t h =
      if_intro IsSafe (is_empty t.cart.cart) t _ h
        (step-All IsWeighed IsCall IsWeighed-lines remove_selected t.cart tt h.0, h.1)
  free_key-IsSafe plus t h =
      option_intro IsSafe (item_at t.cart.selected_row_index t.cart.cart) t _ h
        (λ c. push_call t (quantity none c.id _) tt h)
  free_key-IsSafe minus t h =
      option_intro IsSafe (item_at t.cart.selected_row_index t.cart.cart) t _ h (λ c.
        if_intro IsSafe (lt (num 1) c.cantidad) _ t (push_call t (quantity none c.id _) tt h) h)
  free_key-IsSafe _ t h = h

  close_top-IsSafe : (t : Terminal N) → IsSafe t → IsSafe (close_top t)
  unfolding close_top close_search
  close_top-IsSafe t h = ground (arith, h)

  if_free :
      (k : Key) (t : Terminal N) → IsSafe t → IsSafe (if any_modal_open t then t else free_key k t)
  if_free k t h = if_intro IsSafe (any_modal_open t) t _ h (free_key-IsSafe k t h)

  handle_key-IsSafe : (k : Key) (t : Terminal N) → IsSafe t → IsSafe (handle_key k t)
  unfolding handle_key
  handle_key-IsSafe escape t h = close_top-IsSafe t h
  handle_key-IsSafe k t h = if_free k t h

  without_at-All : (i : ℕ) (cs : List (Action N)) → All IsCall cs → All IsCall (without_at i cs)
  without_at-All i [] h = tt
  without_at-All zero (a ∷ cs) h = h.1
  without_at-All (suc i) (a ∷ cs) h = (h.0, without_at-All i cs h.1)

  get_elem?-All :
      (i : ℕ) (cs : List (Action N)) (a : Action N)
      → get_elem? cs i ≡ some a
      → All IsCall cs
      → IsCall a
  get_elem?-All i [] a e h = cc
  get_elem?-All zero (b ∷ cs) a e h = subst IsCall (some-injective _ _ e) h.0
  get_elem?-All (suc i) (b ∷ cs) a e h = get_elem?-All i cs a e h.1

  with_stock-IsCall : (stock : Option N) (a : Action N) → IsCall a → IsCall (with_stock stock a)
  with_stock-IsCall stock (add _ item) h = h
  with_stock-IsCall stock (quantity _ id q) h = tt
  with_stock-IsCall stock (add_weight uuid item) h = h
  with_stock-IsCall stock _ h = tt

  end_call-IsSafe :
      (i : ℕ) (stock : Option N) (t : Terminal N) → IsSafe t → IsSafe (end_call i stock t)
  unfolding end_call
  end_call-IsSafe i stock t h = elim (Option-cases (get_elem? t.pending i)) [
    | inl gone ↦ rw (gone, end_call) h
    | inr (a, there) ↦
        let ok = with_stock-IsCall stock a (get_elem?-All i t.pending a there h.1) in
        rw (there, end_call)
          (
            step-All IsWeighed IsCall IsWeighed-lines (with_stock stock a) t.cart ok h.0,
            without_at-All i t.pending h.1,
          )
  ]

  confirm_weight-IsSafe :
      (parse_float : Text → Option N) (uuid : Text) (peso : Campo N) (t : Terminal N)
      → IsSafe t
      → IsSafe (confirm_weight parse_float uuid peso t)
  unfolding confirm_weight add_weight_item
  confirm_weight-IsSafe parse_float uuid peso t h =
      option_intro IsSafe (numeric_peso parse_float peso) t _ h (λ w.
        if_split IsSafe (not (lt (num 0) w)) t _ (λ _. h)
          (λ heavy. option_intro IsSafe t.weight_product (close_weight t) _ h (λ p. (
            All-append IsWeighed t.cart.cart _ h.0
                (IsWeighed-lines.weighed uuid (to_weight_item p w) (ground (arith, heavy)), tt),
            h.1,
          ))))

  module _ (lower : Text → Text) (parse_float : Text → Option N) where
    terminal_step-IsSafe :
        (e : PageEvent N) (t : Terminal N) → IsSafe t → IsSafe (terminal_step lower parse_float e t)
    unfolding terminal_step on_change close_search detect_promotions step
    terminal_step-IsSafe (key k) t h = handle_key-IsSafe k t h
    terminal_step-IsSafe (scan value online precio local s1 s2) t h =
        handle_add_product-IsSafe (find_product lower value online precio local s1 s2) t h
    terminal_step-IsSafe (typed val) t h = if_intro IsSafe _ _ _ h h
    terminal_step-IsSafe (pick p) t h = add_or_prompt_weight-IsSafe (of_local p) t h
    terminal_step-IsSafe search_closed t h = h
    terminal_step-IsSafe (weigh uuid peso) t h = confirm_weight-IsSafe parse_float uuid peso t h
    terminal_step-IsSafe weight_closed t h = h
    terminal_step-IsSafe (ended i stock) t h = end_call-IsSafe i stock t h
    terminal_step-IsSafe (promos ps) t h =
        (step-All IsWeighed IsCall IsWeighed-lines (promo_discounts _ _) t.cart tt h.0, h.1)

    -- Whatever is scanned, picked, typed and pressed at the till, in whatever order the calls end,
    -- every line of the cart whose own unit of measure is the kilogram or the gram has a weight above
    -- nothing, if that holds at first and the calls under way add no such line without its weight. A
    -- product that comes without a unit counts as sold whole.
    pub terminal_run-IsSafe :
        (es : List (PageEvent N)) (t : Terminal N)
        → IsSafe t
        → All IsWeighed (terminal_run lower parse_float es t).cart.cart
    unfolding terminal_run
    terminal_run-IsSafe [] t h = h.0
    terminal_run-IsSafe (e ∷ es) t h =
        terminal_run-IsSafe es (terminal_step lower parse_float e t) (terminal_step-IsSafe e t h)
