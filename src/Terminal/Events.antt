-- ===== src/Terminal/Events.antt =====
-- What happens on the page of frontend/src/pages/PosTerminal.tsx, as a list of events.
use blend_posv.Prelude.{ℕ, Bool, Option, List, [], ◌∷◌}
use blend_posv.Text.{Text}
use blend_posv.Number.{Number}
use blend_posv.Campo.{Campo}
use blend_posv.Promotions.{Promocion}
use blend_posv.Catalog.{LocalProduct}
use blend_posv.Terminal.Lookup.{Precio, CatalogView, of_local, find_product}
use blend_posv.Terminal.{
  Terminal, Key, add_or_prompt_weight, handle_add_product, on_change, close_search, confirm_weight,
  close_weight, end_call, detect_promotions,
}
use blend_posv.Terminal.Keys.{handle_key}

-- What happens on the page: a key, Enter in the field of the scanner with the answers that it
-- waits for, what is typed there, a product of the search, the dialog for weights, the end of a
-- call to the cart and the effect of the promotions.
pub data PageEvent (N : Type 0) : Type 0 where
  key : Key → PageEvent N
  scan :
      Text
      → Bool
      → Option (Precio N)
      → Option (CatalogView N)
      → CatalogView N
      → CatalogView N
      → PageEvent N
  typed : Text → PageEvent N
  pick : LocalProduct N → PageEvent N
  search_closed : PageEvent N
  weigh : Text → Campo N → PageEvent N
  weight_closed : PageEvent N
  ended : ℕ → Option N → PageEvent N
  promos : List (Promocion N) → PageEvent N

module _ {N : Type 0} ⦃n : Number N⦄ (lower : Text → Text) (parse_float : Text → Option N) where
  unfoldable pub terminal_step : PageEvent N → Terminal N → Terminal N
  unfolding handle_key handle_add_product find_product on_change add_or_prompt_weight close_search
      confirm_weight end_call detect_promotions
  terminal_step (key k) t = handle_key k t
  terminal_step (scan value online precio local s1 s2) t =
      handle_add_product (find_product lower value online precio local s1 s2) t
  terminal_step (typed val) t = on_change val t
  terminal_step (pick p) t = add_or_prompt_weight (of_local p) t
  terminal_step search_closed t = close_search t
  terminal_step (weigh uuid peso) t = confirm_weight parse_float uuid peso t
  terminal_step weight_closed t = close_weight t
  terminal_step (ended i stock) t = end_call i stock t
  terminal_step (promos ps) t = detect_promotions ps t

  unfoldable pub terminal_run : List (PageEvent N) → Terminal N → Terminal N
  unfolding terminal_step
  terminal_run [] t = t
  terminal_run (e ∷ es) t = terminal_run es (terminal_step e t)
