-- ===== src/Table/Listed.antt =====
-- A table kept as the list of its writes, newest first: it meets the laws of an IndexedDB table.
use blend_posv.Prelude.{
  ◌≡◌, ◌↔◌, refl, sym, subst, inl, inr, Bool, true, not, Option, none, some, List, [], ◌∷◌, In,
  In-filter, filter-In, filter, if◌then◌else◌, Bool-cases, arith,
}
use mathlib.Core.Option.{some-injective}
use blend_posv.Table.{Table, IsTable}

module _ {K V : Type 0} (key : V → K) (same : K → K → Bool) where
  abbrev pub find_row : List V → K → Option V
  find_row [] k = none
  find_row (v ∷ vs) k = if same (key v) k then some v else find_row vs k

  abbrev pub without : List V → K → List V
  without [] j = []
  without (v ∷ vs) j = if same (key v) j then without vs j else v ∷ without vs j

  abbrev pub distinct : List V → List V
  distinct [] = []
  distinct (v ∷ vs) = v ∷ filter (λ w. not (same (key v) (key w))) (distinct vs)

  abbrev pub listed : Table K V
  listed = record {
    Rows = List V;
    key = key;
    same = same;
    get = find_row;
    put = λ r v. v ∷ r;
    delete = without;
    to_array = distinct;
  }

  module _ (same_iff : (a b : K) → (same a b ≡ true) ↔ (a ≡ b)) where
    find_row-key : (r : List V) (k : K) (v : V) → find_row r k ≡ some v → key v ≡ k
    find_row-key [] k v e = cc
    find_row-key (w ∷ ws) k v e = elim (Bool-cases (same (key w) k)) [
      | inl is ↦ subst (λ x. key x ≡ k) (some-injective w v (rw is at e)) ((same_iff _ _).0 is)
      | inr isnt ↦ find_row-key ws k v (rw isnt at e)
    ]

    find_row-without :
        (r : List V) (j k : K)
        → find_row (without r j) k ≡ (if same j k then none else find_row r k)
    find_row-without [] j k = ground arith
    find_row-without (v ∷ vs) j k =
        ground
          (arith, find_row-without vs j k, same_iff (key v) j, same_iff (key v) k, same_iff j k)

    In-distinct : (r : List V) (v : V) → In v (distinct r) → find_row r (key v) ≡ some v
    In-distinct [] v m = absurd m
    In-distinct (w ∷ ws) v (inl e) = rw (e, (same_iff (key w) (key w)).1 refl)
    In-distinct (w ∷ ws) v (inr m) =
        let (m', apart) = In-filter (λ u. not (same (key w) (key u))) v (distinct ws) m in
        ground (arith, In-distinct ws v m')

    distinct-In : (r : List V) (v : V) → find_row r (key v) ≡ some v → In v (distinct r)
    distinct-In [] v e = cc
    distinct-In (w ∷ ws) v e = elim (Bool-cases (same (key w) (key v))) [
      | inl is ↦ inl (sym (some-injective w v (rw is at e)))
      | inr isnt ↦ inr (
          filter-In (λ u. not (same (key w) (key u))) v (distinct ws)
            (distinct-In ws v (rw isnt at e)) (rw isnt))
    ]

    pub listed-IsTable : IsTable listed
    listed-IsTable = record {
      same_iff = same_iff;
      get-key = find_row-key;
      get-put = λ r v k. refl;
      get-delete = find_row-without;
      in_array = λ r v. (In-distinct r v, distinct-In r v);
    }
