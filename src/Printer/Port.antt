-- ===== src/Printer/Port.antt =====
-- frontend/src/services/ThermalPrinterService.ts: the serial port. What the browser does in a call
-- is an argument: whether the port opens, which ports it knows, what a write ends with.
pub mod Wired
use blend_posv.Prelude.{
  ℕ, zero, suc, ◌+◌, ◌≡◌, refl, inl, inr, Bool, true, false, not, ◌&&◌, ◌||◌, Option, none, some,
  List, [], ◌∷◌, ◌++◌, is_some, find, map, if◌then◌else◌, or_else, if_intro, ◌==◌, Option-cases,
  arith,
}

-- The USB ids of a port.
pub record PortInfo : Type 0 where
  pub vendor : Option ℕ
  pub product : Option ℕ

-- `writer` says that there is a writer; `info` is the entry of the local storage.
pub record Printer (P : Type 0) : Type 0 where
  pub port : Option P
  pub writer : Bool
  pub is_connected : Bool
  pub info : Option PortInfo

-- What a write does: the bytes go to the port, or the ticket to the console.
pub data Printed (A : Type 0) : Type 0 where
  to_port to_console : A → Printed A

abbrev pub has_id : Option ℕ → Bool
has_id none = false
has_id (some k) = not (k == 0)

-- Whether the saved id, if it is a number, is that of the port.
abbrev pub same_usb : Option ℕ → Option ℕ → Bool
same_usb none id = true
same_usb (some k) none = false
same_usb (some k) (some j) = k == j

abbrev pub fits : PortInfo → Option PortInfo → Bool
fits saved none = false
fits saved (some i) = same_usb saved.vendor i.vendor && same_usb saved.product i.product

module _ {P : Type 0} where
  unfoldable pub open_port : Bool → P → Printer P → Printer P × Bool
  open_port true p s = (record s { port = some p; writer = true; is_connected = true }, true)
  open_port false p s = (record s { port = none; writer = false; is_connected = false }, false)

  -- The port that was saved, or the only one; `info_of` is `getInfo`.
  unfoldable pub candidate : (P → Option PortInfo) → Option PortInfo → List P → Option P
  candidate info_of none (p ∷ []) = some p
  candidate info_of none _ = none
  candidate info_of (some saved) ports =
      let match =
        if has_id saved.vendor || has_id saved.product
        then find (λ p. fits saved (info_of p)) ports
        else none in
      elim match [
        | some p ↦ some p
        | none ↦ elim ports [ [] ↦ none | p ∷ rest ↦ elim rest [ [] ↦ some p | _ ∷ _ ↦ none ] ]
      ]

  -- `ports` is what `getPorts` gives, and `none` where it throws.
  unfoldable pub auto_connect :
      Bool → (P → Option PortInfo) → (P → Bool) → Option (List P) → Printer P → Printer P × Bool
  unfolding open_port candidate
  auto_connect usable info_of opens ports s =
      if not usable
      then (s, false)
      else if s.is_connected && s.writer
      then (s, true)
      else elim (candidate info_of s.info (or_else ports [])) [
        | none ↦ (s, false)
        | some p ↦ open_port (opens p) p s
      ]

  abbrev pub remember : Option PortInfo → Printer P → Printer P
  remember none s = s
  remember (some i) s =
      if has_id i.vendor || has_id i.product then record s { info = some i } else s

  -- `chosen` is what `requestPort` gives, and `none` where it throws.
  unfoldable pub connect :
      Bool → (P → Option PortInfo) → (P → Bool) → Option P → Printer P → Printer P × Bool
  unfolding open_port
  connect usable info_of opens chosen s = if not usable then (s, false) else elim chosen [
    | none ↦ (record s { is_connected = false }, false)
    | some p ↦
        let (s', fine) = open_port (opens p) p s in
        (if fine then remember (info_of p) s' else s', fine)
  ]

  -- `disconnect` up to its wait for `close`, with whether it gets there; `released` says that
  -- `releaseLock` did not throw. The printer still counts as connected during the wait.
  unfoldable pub release_writer : Bool → Printer P → Printer P × Bool
  release_writer released s =
      if s.writer && not released
      then (record s { is_connected = false }, false)
      else let s' = record s { writer = false } in
        if is_some s.port then (s', true) else (record s' { is_connected = false }, false)

  -- The rest, after `close`; the argument says that it did not throw.
  unfoldable pub close_port : Bool → Printer P → Printer P
  close_port true s = record s { port = none; is_connected = false }
  close_port false s = record s { is_connected = false }

  unfoldable pub disconnect : Bool → Bool → Printer P → Printer P
  unfolding release_writer close_port
  disconnect released closed s =
      let (s', waits) = release_writer released s in if waits then close_port closed s' else s'

  -- `writes` says that the write does not throw.
  unfoldable pub print_esc_pos :
      {A : Type 0}
      → Bool
      → (P → Option PortInfo)
      → (P → Bool)
      → Option (List P)
      → Bool
      → A
      → Printer P
      → Printer P × Printed A
  unfolding auto_connect
  print_esc_pos usable info_of opens ports writes ticket s =
      let (s', fine) =
        if not s.is_connected || not s.writer
        then auto_connect usable info_of opens ports s
        else (s, true) in
      (s', if fine && s'.writer && writes then to_port ticket else to_console ticket)

  -- `printAll`: the copies one after the other; `ticket k` is the ticket of copy k.
  unfoldable pub print_copies :
      {A : Type 0}
      → Bool
      → (P → Option PortInfo)
      → (P → Bool)
      → Option (List P)
      → Bool
      → (ℕ → A)
      → ℕ
      → ℕ
      → Printer P
      → Printer P × List (Printed A)
  unfolding print_esc_pos
  print_copies usable info_of opens ports writes ticket first zero s = (s, [])
  print_copies usable info_of opens ports writes ticket first (suc left) s =
      let (s', printed) = print_esc_pos usable info_of opens ports writes (ticket first) s in
      let (s'', rest) = print_copies usable info_of opens ports writes ticket (first + 1) left s' in
      (s'', printed ∷ rest)

  -- `openCashDrawer`, with whether the command was sent.
  unfoldable pub open_cash_drawer :
      Bool
      → (P → Option PortInfo)
      → (P → Bool)
      → Option (List P)
      → Bool
      → Printer P
      → Printer P × Bool
  unfolding auto_connect
  open_cash_drawer usable info_of opens ports writes s =
      let (s', fine) =
        if not s.is_connected || not s.writer
        then auto_connect usable info_of opens ports s
        else (s, true) in
      (s', fine && (s'.writer && writes))
