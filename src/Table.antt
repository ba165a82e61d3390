-- ===== src/Table.antt =====
-- An IndexedDB table of Dexie: an interface with the operations that the code calls and what it
-- relies on, and a list of rows that meets it.
pub mod Rows
pub mod Listed
use blend_posv.Prelude.{
  ℕ, zero, suc, ◌≡◌, ◌≢◌, ◌↔◌, refl, sym, ◌⊎◌, inl, inr, Bool, true, false, not, Option, none, some,
  List, [], ◌∷◌, arith, In, filter, if◌then◌else◌, Bool-cases,
}

-- Rows of type V with a primary key of type K.
pub record Table (K V : Type 0) : Type 1 where
  pub Rows : Type 0
  pub key : V → K
  pub same : K → K → Bool
  pub get : Rows → K → Option V
  pub put : Rows → V → Rows
  pub delete : Rows → K → Rows
  pub to_array : Rows → List V

-- A write replaces the row of its key, and a listing shows each row once.
pub record IsTable {K V : Type 0} (t : Table K V) : Type 0 where
  pub same_iff : (a b : K) → (t.same a b ≡ true) ↔ (a ≡ b)
  pub get-key : (r : t.Rows) (k : K) (v : V) → t.get r k ≡ some v → t.key v ≡ k
  pub get-put :
      (r : t.Rows) (v : V) (k : K)
      → t.get (t.put r v) k ≡ (if t.same (t.key v) k then some v else t.get r k)
  pub get-delete :
      (r : t.Rows) (j k : K) → t.get (t.delete r j) k ≡ (if t.same j k then none else t.get r k)
  pub in_array : (r : t.Rows) (v : V) → In v (t.to_array r) ↔ (t.get r (t.key v) ≡ some v)

module _ {K V : Type 0} (t : Table K V) where
  -- `bulkPut`
  unfoldable pub put_all : List V → t.Rows → t.Rows
  put_all [] r = r
  put_all (v ∷ vs) r = put_all vs (t.put r v)

  -- `bulkDelete`
  unfoldable pub delete_all : List K → t.Rows → t.Rows
  delete_all [] r = r
  delete_all (k ∷ ks) r = delete_all ks (t.delete r k)

  -- `bulkGet`, without the keys that are not there
  unfoldable pub get_all : t.Rows → List K → List V
  get_all r [] = []
  get_all r (k ∷ ks) = elim (t.get r k) [ none ↦ get_all r ks | some v ↦ v ∷ get_all r ks ]
