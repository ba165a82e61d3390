-- ===== src/PostSale/Polls.antt =====
-- The polling of frontend/src/components/pos/PostSaleModal.tsx ends, with the first final answer.
use blend_posv.Prelude.{
  ℕ, zero, suc, ◌≤◌, ◌≡◌, refl, ap, sym, ◌∙◌, inl, inr, Bool, true, false, Option, none, some,
  arith, if◌then◌else◌, Bool-cases, if_intro,
}
use blend_posv.PostSale.{
  Comprobante, PostSale, max_polls, is_done, set_comprobante, poll_attempts, poll,
}

-- No attempt is cancelled.
abbrev pub Stays : (ℕ → Bool) → Type 0
Stays gone = (i : ℕ) → gone i ≡ false

bounded :
    (left : ℕ) (gone gone_after : ℕ → Bool) (answers : ℕ → Option Comprobante) (s : PostSale)
    → (poll_attempts left gone gone_after answers s).1 ≤ left
unfolding poll_attempts
bounded zero gone gone_after answers s = omega arith
bounded (suc left) gone gone_after answers s = ground (
  arith,
  bounded left (λ i. gone (suc i)) (λ i. gone_after (suc i)) (λ i. answers (suc i))
      (set_comprobante (answers 0) s),
)

ends :
    (left : ℕ) (gone gone_after : ℕ → Bool) (answers : ℕ → Option Comprobante) (s : PostSale)
    → Stays gone
    → (poll_attempts left gone gone_after answers s).0.loading_comprobante ≡ false
unfolding poll_attempts
ends zero gone gone_after answers s here = rw (here 0) refl
ends (suc left) gone gone_after answers s here =
    let rest =
      ends left (λ i. gone (suc i)) (λ i. gone_after (suc i)) (λ i. answers (suc i))
        (set_comprobante (answers 0) s) (λ i. here (suc i)) in
    rw (here 0) (
      if_intro (λ (r : PostSale × ℕ). r.0.loading_comprobante ≡ false)
        (is_done (gone_after 0) (answers 0)) _ _ refl rest)

abbrev later : Option ℕ → Option ℕ
later none = none
later (some k) = some (suc k)

-- Which of the first answers is the first that is final.
abbrev pub first_done : ℕ → (ℕ → Option Comprobante) → Option ℕ
first_done zero answers = none
first_done (suc left) answers =
    let rest = first_done left (λ i. answers (suc i)) in
    if is_done false (answers 0) then some 0 else later rest

abbrev pub asked_until : ℕ → Option ℕ → ℕ
asked_until left none = left
asked_until left (some k) = suc k

-- The document that is shown is that of the answer.
abbrev pub Shows : (ℕ → Option Comprobante) → Option Comprobante → Option ℕ → Type 0
Shows answers shown none = Unit
Shows answers shown (some k) = shown ≡ answers k

asked_until-later :
    (left : ℕ) (o : Option ℕ) → asked_until (suc left) (later o) ≡ suc (asked_until left o)
asked_until-later left none = refl
asked_until-later left (some k) = refl

Shows-later :
    (answers : ℕ → Option Comprobante) (shown : Option Comprobante) (o : Option ℕ)
    → Shows (λ i. answers (suc i)) shown o
    → Shows answers shown (later o)
Shows-later answers shown none h = tt
Shows-later answers shown (some k) h = h

attempts_lem :
    (left : ℕ) (gone gone_after : ℕ → Bool) (answers : ℕ → Option Comprobante) (s : PostSale)
    → Stays gone
    → Stays gone_after
    → let r = poll_attempts left gone gone_after answers s in
      (r.1 ≡ asked_until left (first_done left answers))
      × Shows answers r.0.comprobante (first_done left answers)
unfolding poll_attempts
attempts_lem zero gone gone_after answers s here stays = (refl, tt)
attempts_lem (suc left) gone gone_after answers s here stays =
    let (asked, shows) =
      attempts_lem left (λ i. gone (suc i)) (λ i. gone_after (suc i)) (λ i. answers (suc i))
        (set_comprobante (answers 0) s) (λ i. here (suc i)) (λ i. stays (suc i)) in
    let first = first_done left (λ i. answers (suc i)) in
    elim (Bool-cases (is_done false (answers 0))) [
      | inl done ↦ rw (here 0, stays 0, done) (refl, shown_first (answers 0) done)
      | inr going ↦
          rw (here 0, stays 0, going)
            (ap suc asked ∙ sym (asked_until-later left first), Shows-later answers _ first shows)
    ]
  where
    shown_first :
        (a : Option Comprobante) → is_done false a ≡ true → (set_comprobante a s).comprobante ≡ a
    shown_first none e = cc
    shown_first (some c) e = refl

-- How polling ends.
pub record IsPolled (answers : ℕ → Option Comprobante) (r : PostSale × ℕ) : Type 0 where
  pub at_most : r.1 ≤ max_polls
  pub stopped : r.0.loading_comprobante ≡ false
  pub asked : r.1 ≡ asked_until max_polls (first_done max_polls answers)
  pub shown : Shows answers r.0.comprobante (first_done max_polls answers)

-- While the dialog stays open, polling ends whatever the server answers: it asks ten times, or up to
-- the first of ten answers that is final, which is then the document that is shown, and it leaves
-- no sign of loading.
pub poll-IsPolled :
    (gone gone_after : ℕ → Bool) (answers : ℕ → Option Comprobante) (s : PostSale)
    → Stays gone
    → Stays gone_after
    → IsPolled answers (poll gone gone_after answers s)
unfolding poll
poll-IsPolled gone gone_after answers s here stays =
    let s' = record s { loading_comprobante = true } in
    let (asks, shows) = attempts_lem max_polls gone gone_after answers s' here stays in
    record {
      at_most = bounded max_polls gone gone_after answers s';
      stopped = ends max_polls gone gone_after answers s' here;
      asked = asks;
      shown = shows;
    }
