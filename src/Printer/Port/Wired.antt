-- ===== src/Printer/Port/Wired.antt =====
-- The state of the connection over all uses of the printer.
use blend_posv.Prelude.{
  ℕ, zero, suc, ◌+◌, ◌≡◌, refl, inl, inr, Bool, true, false, not, ◌&&◌, ◌||◌, Option, none, some,
  List, [], ◌∷◌, is_some, or_else, if_intro, if◌then◌else◌, Option-cases, if_split, arith,
}
use blend_posv.Printer.Port.{
  PortInfo, Printer, has_id, open_port, candidate, auto_connect, remember, connect, disconnect,
  print_esc_pos, print_copies, open_cash_drawer, release_writer, close_port,
}

-- A printer that counts as connected has its port; and its writer, unless a `disconnect` waits for
-- the port to close. `closing` is the number of those.
pub record IsWired {P : Type 0} (closing : ℕ) (s : Printer P) : Type 0 where
  pub has_writer : s.is_connected ≡ true → closing ≡ 0 → s.writer ≡ true
  pub has_port : s.is_connected ≡ true → is_some s.port ≡ true

-- A call of the service, with what the browser does in it. A `disconnect` is one call, or its two
-- halves with other calls between them.
pub data Use (P : Type 0) : Type 0 where
  connects : Bool → (P → Bool) → Option P → Use P
  disconnects : Bool → Bool → Use P
  begins_disconnect ends_disconnect : Bool → Use P
  prints : Bool → (P → Bool) → Option (List P) → Bool → ℕ → Use P
  opens_drawer : Bool → (P → Bool) → Option (List P) → Bool → Use P

-- The service, and how often `disconnect` waits for a port to close.
pub record Service (P : Type 0) : Type 0 where
  pub printer : Printer P
  pub closing : ℕ

module _ {P : Type 0} (info_of : P → Option PortInfo) where
  abbrev begin_disconnect : Bool → Service P → Service P
  begin_disconnect released v =
      let (s, waits) = release_writer released v.printer in
      record { printer = s; closing = if waits then suc v.closing else v.closing }

  -- Nothing ends where nothing waits.
  abbrev end_disconnect : Bool → ℕ → Printer P → Service P
  end_disconnect closed zero s = record { printer = s; closing = 0 }
  end_disconnect closed (suc k) s = record { printer = close_port closed s; closing = k }

  -- A ticket stands for itself here.
  unfoldable pub use_printer : Use P → Service P → Service P
  unfolding connect disconnect print_copies open_cash_drawer release_writer close_port
  use_printer (connects usable opens chosen) v = record v {
    printer = (connect usable info_of opens chosen v.printer).0;
  }
  use_printer (disconnects released closed) v = record v {
    printer = disconnect released closed v.printer;
  }
  use_printer (begins_disconnect released) v = begin_disconnect released v
  use_printer (ends_disconnect closed) v = end_disconnect closed v.closing v.printer
  use_printer (prints usable opens ports writes copies) v = record v {
    printer = (print_copies usable info_of opens ports writes (λ k. k) 1 copies v.printer).0;
  }
  use_printer (opens_drawer usable opens ports writes) v = record v {
    printer = (open_cash_drawer usable info_of opens ports writes v.printer).0;
  }

  unfoldable pub use_all : List (Use P) → Service P → Service P
  unfolding use_printer
  use_all [] v = v
  use_all (u ∷ us) v = use_all us (use_printer u v)

  open_port-IsWired :
      (k : ℕ) (fine : Bool) (p : P) (s : Printer P) → IsWired k (open_port fine p s).0
  unfolding open_port
  open_port-IsWired k true p s = record { has_writer = λ e z. refl; has_port = λ e. refl }
  open_port-IsWired k false p s = record { has_writer = λ e z. cc; has_port = λ e. cc }

  auto_connect-IsWired :
      (k : ℕ) (usable : Bool) (opens : P → Bool) (ports : Option (List P)) (s : Printer P)
      → IsWired k s
      → IsWired k (auto_connect usable info_of opens ports s).0
  unfolding auto_connect
  auto_connect-IsWired k usable opens ports s h =
      let Wired = λ (r : Printer P × Bool). IsWired k r.0 in
      if_intro Wired (not usable) (s, false) _ h
        (if_intro Wired (s.is_connected && s.writer) (s, true) _ h
          (elim (Option-cases (candidate info_of s.info (or_else ports []))) [
            | inl e ↦ rw e h
            | inr (p, e) ↦ rw e (open_port-IsWired k (opens p) p s)
          ]))

  reconnect-IsWired :
      (k : ℕ) (usable : Bool) (opens : P → Bool) (ports : Option (List P)) (s : Printer P)
      → IsWired k s
      → IsWired k
          (if not s.is_connected || not s.writer
            then auto_connect usable info_of opens ports s
            else (s, true)).0
  reconnect-IsWired k usable opens ports s h =
      if_intro (λ (r : Printer P × Bool). IsWired k r.0) (not s.is_connected || not s.writer)
        (auto_connect usable info_of opens ports s) (s, true)
        (auto_connect-IsWired k usable opens ports s h) h

  remember-IsWired :
      (k : ℕ) (i : Option PortInfo) (s : Printer P) → IsWired k s → IsWired k (remember i s)
  remember-IsWired k none s h = h
  remember-IsWired k (some i) s h =
      if_intro (IsWired k) (has_id i.vendor || has_id i.product) _ s
        (record { has_writer = h.has_writer; has_port = h.has_port }) h

  connect-IsWired :
      (k : ℕ) (usable : Bool) (opens : P → Bool) (chosen : Option P) (s : Printer P)
      → IsWired k s
      → IsWired k (connect usable info_of opens chosen s).0
  unfolding connect
  connect-IsWired k false opens chosen s h = h
  connect-IsWired k true opens none s h = record { has_writer = λ e z. cc; has_port = λ e. cc }
  connect-IsWired k true opens (some p) s h =
      let fine = open_port-IsWired k (opens p) p s in
      if_intro (IsWired k) (open_port (opens p) p s).1 _ _
        (remember-IsWired k (info_of p) (open_port (opens p) p s).0 fine) fine

  close_port-IsWired : (k : ℕ) (closed : Bool) (s : Printer P) → IsWired k (close_port closed s)
  unfolding close_port
  close_port-IsWired k true s = record { has_writer = λ e z. cc; has_port = λ e. cc }
  close_port-IsWired k false s = record { has_writer = λ e z. cc; has_port = λ e. cc }

  begin_disconnect-IsWired :
      (released : Bool) (v : Service P)
      → IsWired v.closing v.printer
      → IsWired (begin_disconnect released v).closing (begin_disconnect released v).printer
  unfolding release_writer
  begin_disconnect-IsWired released v h =
      let k = v.closing in
      let s = v.printer in
      let Begun = λ (r : Printer P × Bool). IsWired (if r.1 then suc k else k) r.0 in
      if_split Begun (s.writer && not released) _ _
        (λ _. record { has_writer = λ e z. cc; has_port = λ e. cc })
        (λ _.
          if_split Begun (is_some s.port) _ _
            (λ there. record { has_writer = λ e z. ground arith; has_port = λ _. there })
            (λ _. record { has_writer = λ e z. cc; has_port = λ e. cc }))

  disconnect-IsWired :
      (k : ℕ) (released closed : Bool) (s : Printer P) → IsWired k (disconnect released closed s)
  unfolding disconnect release_writer
  disconnect-IsWired k released closed s =
      let Ended =
        λ (r : Printer P × Bool). IsWired k (if r.1 then close_port closed r.0 else r.0) in
      if_split Ended (s.writer && not released) _ _
        (λ _. record { has_writer = λ e z. cc; has_port = λ e. cc })
        (λ _.
          if_split Ended (is_some s.port) _ _ (λ _. close_port-IsWired k closed _)
            (λ _. record { has_writer = λ e z. cc; has_port = λ e. cc }))

  print_copies-IsWired :
      (k : ℕ) (usable : Bool) (opens : P → Bool) (ports : Option (List P)) (writes : Bool)
      (first left : ℕ) (s : Printer P)
      → IsWired k s
      → IsWired k (print_copies usable info_of opens ports writes (λ (k : ℕ). k) first left s).0
  unfolding print_copies print_esc_pos
  print_copies-IsWired k usable opens ports writes first zero s h = h
  print_copies-IsWired k usable opens ports writes first (suc left) s h =
      print_copies-IsWired k usable opens ports writes (first + 1) left _
        (reconnect-IsWired k usable opens ports s h)

  use_printer-IsWired :
      (u : Use P) (v : Service P)
      → IsWired v.closing v.printer
      → IsWired (use_printer u v).closing (use_printer u v).printer
  unfolding use_printer open_cash_drawer
  use_printer-IsWired (connects usable opens chosen) v h =
      connect-IsWired v.closing usable opens chosen v.printer h
  use_printer-IsWired (disconnects released closed) v h =
      disconnect-IsWired v.closing released closed v.printer
  use_printer-IsWired (begins_disconnect released) v h = begin_disconnect-IsWired released v h
  use_printer-IsWired (ends_disconnect closed) v h = ended v.closing v.printer h
    where
      ended :
          (k : ℕ) (s : Printer P)
          → IsWired k s
          → IsWired (end_disconnect closed k s).closing (end_disconnect closed k s).printer
      ended zero s h' = h'
      ended (suc k) s h' = close_port-IsWired k closed s
  use_printer-IsWired (prints usable opens ports writes copies) v h =
      print_copies-IsWired v.closing usable opens ports writes 1 copies v.printer h
  use_printer-IsWired (opens_drawer usable opens ports writes) v h =
      reconnect-IsWired v.closing usable opens ports v.printer h

  -- A printer that counts as connected has its port, and it has its writer unless a `disconnect`
  -- waits for the port to close. If that holds at first, it holds whatever the browser does in calls
  -- that run one after the other, or between the two halves of a `disconnect`.
  pub use_all-IsWired :
      (us : List (Use P)) (v : Service P)
      → IsWired v.closing v.printer
      → IsWired (use_all us v).closing (use_all us v).printer
  unfolding use_all
  use_all-IsWired [] v h = h
  use_all-IsWired (u ∷ us) v h = use_all-IsWired us (use_printer u v) (use_printer-IsWired u v h)
