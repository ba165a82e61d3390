-- ===== src/Table/Rows.antt =====
-- What writes and deletions do to the rows of a table.
use mathlib.Core.Option.{some-injective}
use blend_posv.Prelude.{
  ◌≡◌, ◌≢◌, refl, sym, subst, ◌⊎◌, inl, inr, none, some, List, [], ◌∷◌, In, Bool-cases,
  Option-cases, if_intro,
}
use blend_posv.Table.{Table, IsTable, put_all, delete_all, get_all}

module _ {K V : Type 0} (t : Table K V) (laws : IsTable t) where
  -- Every row has the property.
  abbrev pub AllRows : (V → Type 0) → t.Rows → Type 0
  AllRows P r = (k : K) (v : V) → t.get r k ≡ some v → P v

  -- The row of a key, if there is one, has the property.
  abbrev pub HasRow : (V → Type 0) → K → t.Rows → Type 0
  HasRow P k r = (v : V) × (t.get r k ≡ some v) × P v

  -- A row after a write is the one written or an old one.
  pub get-put_cases :
      (r : t.Rows) (w : V) (k : K) (v : V)
      → t.get (t.put r w) k ≡ some v
      → ((t.key w ≡ k) × (w ≡ v)) ⊎ ((t.key w ≢ k) × (t.get r k ≡ some v))
  get-put_cases r w k v e = elim (Bool-cases (t.same (t.key w) k)) [
    | inl is ↦ inl ((laws.same_iff _ _).0 is, some-injective _ _ (rw (laws.get-put, is) at e))
    | inr isnt ↦ inr ((λ p. cc ((laws.same_iff _ _).1 p)), rw (laws.get-put, isnt) at e)
  ]

  pub get-delete_cases :
      (r : t.Rows) (j k : K) (v : V)
      → t.get (t.delete r j) k ≡ some v
      → (j ≢ k) × (t.get r k ≡ some v)
  get-delete_cases r j k v e = elim (Bool-cases (t.same j k)) [
    | inl is ↦ cc (rw (laws.get-delete, is) at e)
    | inr isnt ↦ ((λ p. cc ((laws.same_iff _ _).1 p)), rw (laws.get-delete, isnt) at e)
  ]

  pub AllRows-put :
      (P : V → Type 0) (r : t.Rows) (w : V) → P w → AllRows P r → AllRows P (t.put r w)
  AllRows-put P r w hw h k v e = elim (get-put_cases r w k v e) [
    | inl new ↦ subst P new.1 hw
    | inr old ↦ h k v old.1
  ]

  pub AllRows-delete :
      (P : V → Type 0) (r : t.Rows) (j : K) → AllRows P r → AllRows P (t.delete r j)
  AllRows-delete P r j h k v e = h k v (get-delete_cases r j k v e).1

  pub AllRows-put_all :
      (P : V → Type 0) (ws : List V) (r : t.Rows)
      → ((w : V) → In w ws → P w)
      → AllRows P r
      → AllRows P (put_all t ws r)
  unfolding put_all
  AllRows-put_all P [] r hw h = h
  AllRows-put_all P (w ∷ ws) r hw h =
      AllRows-put_all P ws (t.put r w) (λ x at. hw x (inr at))
        (AllRows-put P r w (hw w (inl refl)) h)

  pub AllRows-delete_all :
      (P : V → Type 0) (ks : List K) (r : t.Rows) → AllRows P r → AllRows P (delete_all t ks r)
  unfolding delete_all
  AllRows-delete_all P [] r h = h
  AllRows-delete_all P (k ∷ ks) r h =
      AllRows-delete_all P ks (t.delete r k) (AllRows-delete P r k h)

  pub HasRow-put :
      (P : V → Type 0) (k : K) (r : t.Rows) (w : V)
      → (t.key w ≡ k → P w)
      → HasRow P k r
      → HasRow P k (t.put r w)
  HasRow-put P k r w hw h = elim (Bool-cases (t.same (t.key w) k)) [
    | inl is ↦ (w, rw (laws.get-put, is), hw ((laws.same_iff _ _).0 is))
    | inr isnt ↦ (h.0, rw (laws.get-put, isnt) (h.1), h.2)
  ]

  pub HasRow-delete :
      (P : V → Type 0) (j k : K) (r : t.Rows) → j ≢ k → HasRow P k r → HasRow P k (t.delete r j)
  HasRow-delete P j k r ne h = elim (Bool-cases (t.same j k)) [
    | inl is ↦ absurd (ne ((laws.same_iff _ _).0 is))
    | inr isnt ↦ (h.0, rw (laws.get-delete, isnt) (h.1), h.2)
  ]

  pub HasRow-put_all :
      (P : V → Type 0) (k : K) (ws : List V) (r : t.Rows)
      → ((w : V) → In w ws → t.key w ≡ k → P w)
      → HasRow P k r
      → HasRow P k (put_all t ws r)
  unfolding put_all
  HasRow-put_all P k [] r hw h = h
  HasRow-put_all P k (w ∷ ws) r hw h =
      HasRow-put_all P k ws (t.put r w) (λ x at. hw x (inr at))
        (HasRow-put P k r w (hw w (inl refl)) h)

  pub HasRow-delete_all :
      (P : V → Type 0) (k : K) (js : List K) (r : t.Rows)
      → ¬ (In k js)
      → HasRow P k r
      → HasRow P k (delete_all t js r)
  unfolding delete_all
  HasRow-delete_all P k [] r out h = h
  HasRow-delete_all P k (j ∷ js) r out h =
      HasRow-delete_all P k js (t.delete r j) (λ at. out (inr at))
        (HasRow-delete P j k r (λ e. out (inl (sym e))) h)

  -- A deleted key is gone.
  pub get-delete_all :
      (k : K) (js : List K) (r : t.Rows)
      → (In k js) ⊎ (t.get r k ≡ none)
      → t.get (delete_all t js r) k ≡ none
  unfolding delete_all
  get-delete_all k [] r (inl at) = absurd at
  get-delete_all k [] r (inr e) = e
  get-delete_all k (j ∷ js) r (inr e) =
      get-delete_all k js (t.delete r j)
        (inr (rw laws.get-delete (if_intro (λ o. o ≡ none) (t.same j k) none (t.get r k) refl e)))
  get-delete_all k (j ∷ js) r (inl (inr at)) = get-delete_all k js (t.delete r j) (inl at)
  get-delete_all k (j ∷ js) r (inl (inl e)) =
      get-delete_all k js (t.delete r j) (inr (rw (laws.get-delete, (laws.same_iff j k).1 (sym e))))

  -- No row was found, so none of the keys has one.
  pub get_all-nil :
      (r : t.Rows) (ks : List K) (k : K) → get_all t r ks ≡ [] → In k ks → t.get r k ≡ none
  unfolding get_all
  get_all-nil r [] k e at = absurd at
  get_all-nil r (j ∷ js) k e at = elim (Option-cases (t.get r j)) [
    | inl gone ↦ missing at gone (get_all-nil r js k (rw (gone, get_all) at e))
    | inr (v, found) ↦ cc (rw (found, get_all) at e)
  ]
    where
      missing : In k (j ∷ js) → t.get r j ≡ none → (In k js → t.get r k ≡ none) → t.get r k ≡ none
      missing (inl same) gone rest = rw same gone
      missing (inr at) gone rest = rest at

  -- What is left after deletions was there before.
  pub get-delete_all_old :
      (k : K) (js : List K) (r : t.Rows) (v : V)
      → t.get (delete_all t js r) k ≡ some v
      → t.get r k ≡ some v
  unfolding delete_all
  get-delete_all_old k [] r v e = e
  get-delete_all_old k (j ∷ js) r v e =
      (get-delete_cases r j k v (get-delete_all_old k js (t.delete r j) v e)).1

  pub get-put_other : (r : t.Rows) (v : V) (k : K) → t.key v ≢ k → t.get (t.put r v) k ≡ t.get r k
  get-put_other r v k ne = elim (Bool-cases (t.same (t.key v) k)) [
    | inl is ↦ absurd (ne ((laws.same_iff _ _).0 is))
    | inr isnt ↦ rw (laws.get-put, isnt) refl
  ]

  pub get-put_self : (r : t.Rows) (v : V) (k : K) → t.key v ≡ k → t.get (t.put r v) k ≡ some v
  get-put_self r v k e = rw (laws.get-put, (laws.same_iff (t.key v) k).1 e)

  -- A row after many writes is one of those written for its key, or an old one.
  pub get-put_all_cases :
      (ws : List V) (r : t.Rows) (k : K) (v : V)
      → t.get (put_all t ws r) k ≡ some v
      → (In v ws × (t.key v ≡ k)) ⊎ (t.get r k ≡ some v)
  unfolding put_all
  get-put_all_cases [] r k v e = inr e
  get-put_all_cases (w ∷ ws) r k v e = elim (get-put_all_cases ws (t.put r w) k v e) [
    | inl new ↦ inl (inr new.0, new.1)
    | inr old ↦ elim (get-put_cases r w k v old) [
      | inl is ↦ inl (inl (sym is.1), subst (λ x. t.key x ≡ k) is.1 is.0)
      | inr kept ↦ inr kept.1
    ]
  ]
