-- ===== src/Catalog/Delta.antt =====
-- What a delta synchronisation leaves in the catalogue, and what the cart then allows.
use blend_posv.Prelude.{
  ℕ, ◌≡◌, ◌≢◌, refl, sym, ap, ◌∙◌, ◌⊎◌, inl, inr, true, false, Option, none, some, List, [], ◌∷◌,
  map, In,
}
use blend_posv.Text.{Text, has_text}
use blend_posv.Number.{Number, IsLawful}
use blend_posv.Answer.{Answer, ok}
use blend_posv.Table.{put_all}
use blend_posv.Table.Rows.{HasRow, get-put_self, HasRow-put}
use blend_posv.Cart.{CartState, NewItem}
use blend_posv.Cart.Store.{add_item, check_stock}
use blend_posv.Catalog.{
  LocalProduct, Producto, CatalogStore, IsCatalogStore, Catalog, upsert_of, delta,
  delta_sync_catalog, get_local_stock, get_last_sync_at, set_last_sync_at,
}

module _ {N : Type 0} ⦃n : Number N⦄ where
  -- What the server says of a product makes it one that is not for sale.
  abbrev pub IsOff : Text → Producto N → Type 0
  IsOff id p = p.id ≡ id → p.activo ≡ false

  module _ (st : CatalogStore N) (laws : IsCatalogStore st) where
    abbrev IsEmpty : LocalProduct N → Type 0
    IsEmpty p = p.stock ≡ n.num 0

    put_all-IsEmpty :
        (ps : List (Producto N)) (rows : st.products.Rows) (id : Text)
        → ((p : Producto N) → In p ps → IsOff id p)
        → ((p : Producto N) × In p ps × (p.id ≡ id))
          ⊎ HasRow st.products laws.products_table IsEmpty id rows
        → HasRow st.products laws.products_table IsEmpty id
            (put_all st.products (map upsert_of ps) rows)
    unfolding put_all
    put_all-IsEmpty [] rows id off (inl h) = absurd h.1
    put_all-IsEmpty [] rows id off (inr h) = h
    put_all-IsEmpty (q ∷ qs) rows id off h =
        put_all-IsEmpty qs (st.products.put rows (upsert_of q)) id (λ p m. off p (inr m)) (next h)
      where
        key : st.products.key (upsert_of q) ≡ q.id
        key = laws.product_key (upsert_of q)

        empty : q.id ≡ id → IsEmpty (upsert_of q)
        empty e = rw (off q (inl refl) e) refl

        next :
            ((p : Producto N) × In p (q ∷ qs) × (p.id ≡ id))
              ⊎ HasRow st.products laws.products_table IsEmpty id rows
            → ((p : Producto N) × In p qs × (p.id ≡ id))
              ⊎ HasRow st.products laws.products_table IsEmpty id
                  (st.products.put rows (upsert_of q))
        next (inl (p, inr m, e)) = inl (p, m, e)
        next (inl (p, inl is, e)) =
            let mine : q.id ≡ id = sym (ap (λ (x : Producto N). x.id) is) ∙ e in
            inr (
              upsert_of q,
              get-put_self st.products laws.products_table rows _ id (key ∙ mine),
              empty mine,
            )
        next (inr row) = inr (
            HasRow-put st.products laws.products_table IsEmpty id rows (upsert_of q)
              (λ e. empty (sym key ∙ e)) row)

    -- After a delta synchronisation in which the server names a product, and only as deactivated,
    -- its local stock is 0 and `addItem` refuses it: the cart stays as it is, with a notification.
    pub delta_blocks_sale :
        (laws_n : IsLawful N) (start now : ℕ)
        (server : Option Text → Answer (Option (List (Producto N)))) (c : Catalog st)
        (ps : List (Producto N)) (p : Producto N) (item : NewItem N) (s : CartState N)
        → has_text (get_last_sync_at st c) ≡ true
        → server (get_last_sync_at st c) ≡ ok (some ps)
        → In p ps
        → p.id ≡ item.id
        → ((q : Producto N) → In q ps → IsOff item.id q)
        → let c' = (delta_sync_catalog st start now server c).0 in
          let (s', note) = add_item (some (get_local_stock st item.id c')) item s in
          (get_local_stock st item.id c' ≡ n.num 0) × (s' ≡ s) × (note ≢ none)
    unfolding delta_sync_catalog delta set_last_sync_at get_local_stock add_item check_stock
    delta_blocks_sale laws_n start now server c ps p item s before answer m e off =
        rw (before, answer) (blocked ps m off)
      where
        refused :
            (stock : N)
            → stock ≡ n.num 0
            → ((add_item (some stock) item s).0 ≡ s) × ((add_item (some stock) item s).1 ≢ none)
        refused stock zero = rw (zero, add_item, check_stock, laws_n.le_refl) (refl, λ e. cc)

        blocked :
            (qs : List (Producto N))
            → In p qs
            → ((q : Producto N) → In q qs → IsOff item.id q)
            → let c' = (delta st start (ok (some qs)) c).0 in
              let (s', note) = add_item (some (get_local_stock st item.id c')) item s in
              (get_local_stock st item.id c' ≡ n.num 0) × (s' ≡ s) × (note ≢ none)
        blocked [] m off = absurd m
        blocked (q ∷ qs) m off =
            let (p', found, zero) =
              put_all-IsEmpty (q ∷ qs) c.products item.id off (inl (p, m, e)) in
            let gone : get_local_stock st item.id (delta st start (ok (some (q ∷ qs))) c).0
                ≡ n.num 0 =
              rw (found, get_local_stock) zero in
            let (kept, note) = refused _ gone in (gone, kept, note)
