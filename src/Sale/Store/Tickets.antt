-- ===== src/Sale/Store/Tickets.antt =====
-- The ticket numbers of the history, over sales, answers of the server and reloads of the page.
use blend_posv.Prelude.{
  ℕ, zero, suc, ◌+◌, ◌<◌, ◌≤◌, List, [], ◌∷◌, map, Option, some, inl, arith, length, take,
  length-take, if_split, ltb,
}
use blend_posv.Text.{Text}
use blend_posv.Number.{Number}
use blend_posv.Answer.{Answer, ok, thrown}
use blend_posv.Digits.{value_from, value_from-pad_start}
use blend_posv.Cart.{CartState}
use blend_posv.Sale.{SaleRecord}
use blend_posv.Sale.Store.{
  Pago, SaleState, StoredSale, max_historial, init_sale, set_cajero, sync_ticket_counter, merge,
  stored, revive, sale_record, confirm_sale,
}

-- What happens to the store: a sale, an answer on the last ticket, a change of the cashier's name,
-- and a reload, with the texts of dates.
pub data Event (N : Type 0) : Type 0 where
  sells : ℕ → Text → Option Text → Pago N → CartState N → Event N
  syncs : Answer ℕ → Event N
  renames : Text → Event N
  reloads : (ℕ → Text) → (Text → ℕ) → Event N

-- The number that a ticket shows.
abbrev pub ticket : {N : Type 0} → SaleRecord N → ℕ
ticket r = value_from 0 r.numero_ticket

-- The tickets, from the newest on, are numbers below the bound that go down.
abbrev pub Falls : {N : Type 0} → ℕ → List (SaleRecord N) → Type 0
Falls b [] = Unit
Falls b (r ∷ rs) = (ticket r < b) × Falls (ticket r) rs

pub record IsNumbered {N : Type 0} (s : SaleState N) : Type 0 where
  pub short : length s.historial ≤ 200
  pub falls : Falls (s.ticket_counter + 1) s.historial

module _ {N : Type 0} where
  Falls-le : (rs : List (SaleRecord N)) (a b : ℕ) → a ≤ b → Falls a rs → Falls b rs
  Falls-le [] a b h f = tt
  Falls-le (r ∷ rs) a b h f = (omega (arith, f.0), f.1)

  Falls-take : (k : ℕ) (rs : List (SaleRecord N)) (b : ℕ) → Falls b rs → Falls b (take k rs)
  Falls-take zero rs b f = tt
  Falls-take (suc k) [] b f = tt
  Falls-take (suc k) (r ∷ rs) b f = (f.0, Falls-take k rs (ticket r) f.1)

  abbrev put_away : (ℕ → Text) → SaleRecord N → StoredSale N
  put_away iso r = record { fecha = inl (iso r.fecha); sale = r }

  -- Storing and reading back the history leaves its ticket numbers.
  Falls-stored :
      (iso : ℕ → Text) (parse : Text → ℕ) (rs : List (SaleRecord N)) (b : ℕ)
      → Falls b rs
      → Falls b (map (revive parse) (map (put_away iso) rs))
  Falls-stored iso parse [] b f = tt
  Falls-stored iso parse (r ∷ rs) b f = (f.0, Falls-stored iso parse rs (ticket r) f.1)

  take-short : (rs : List (SaleRecord N)) → length (take max_historial rs) ≤ 200
  take-short rs = omega (arith, length-take max_historial rs)

module _ {N : Type 0} ⦃n : Number N⦄ where
  unfoldable pub happen : Event N → SaleState N → SaleState N
  unfolding confirm_sale sync_ticket_counter set_cajero merge stored
  happen (sells now id sesion pago cart) s = (confirm_sale now id sesion pago cart s).state
  happen (syncs a) s = sync_ticket_counter a s
  happen (renames nombre) s = set_cajero nombre s
  happen (reloads iso parse) s = merge parse (some (stored iso s)) init_sale

  unfoldable pub history : List (Event N) → SaleState N → SaleState N
  unfolding happen
  history [] s = s
  history (e ∷ es) s = history es (happen e s)

  sells-Falls :
      (now : ℕ) (id : Text) (sesion : Option Text) (pago : Pago N) (cart : CartState N)
      (s : SaleState N)
      → Falls (s.ticket_counter + 1) s.historial
      → Falls (s.ticket_counter + 1 + 1) (sale_record now id sesion pago cart s ∷ s.historial)
  unfolding sale_record
  sells-Falls now id sesion pago cart s f =
      let e = value_from-pad_start 6 (s.ticket_counter + 1) in (omega (arith, e), rw e f)

  happen-IsNumbered : (e : Event N) (s : SaleState N) → IsNumbered s → IsNumbered (happen e s)
  unfolding happen confirm_sale sync_ticket_counter set_cajero merge stored init_sale
  happen-IsNumbered (sells now id sesion pago cart) s h = record {
    short = take-short (sale_record now id sesion pago cart s ∷ s.historial);
    falls =
        Falls-take max_historial (sale_record now id sesion pago cart s ∷ s.historial) _
          (sells-Falls now id sesion pago cart s h.falls);
  }
  happen-IsNumbered (syncs (ok last)) s h =
      if_split IsNumbered (ltb s.ticket_counter last) _ s
        (λ e. record {
          short = h.short;
          falls = Falls-le s.historial (s.ticket_counter + 1) (last + 1) (ground arith) h.falls;
        })
        (λ e. h)
  happen-IsNumbered (syncs (thrown m)) s h = h
  happen-IsNumbered (renames nombre) s h = record { short = h.short; falls = h.falls }
  happen-IsNumbered (reloads iso parse) s h = record {
    short = take-short _;
    falls = Falls-take max_historial _ _ (Falls-stored iso parse s.historial _ h.falls);
  }

  -- Whatever sales, answers of the server and reloads follow each other, the history has at most
  -- 200 sales, and their ticket numbers go strictly down from the newest, none above the counter:
  -- no number is used twice.
  pub history-IsNumbered :
      (es : List (Event N)) (s : SaleState N) → IsNumbered s → IsNumbered (history es s)
  unfolding history
  history-IsNumbered [] s h = h
  history-IsNumbered (e ∷ es) s h = history-IsNumbered es (happen e s) (happen-IsNumbered e s h)
