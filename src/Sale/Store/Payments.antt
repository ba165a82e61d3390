-- ===== src/Sale/Store/Payments.antt =====
-- The products that a confirmed sale sells.
use blend_posv.Prelude.{◌≡◌, refl, true, false, [], ◌∷◌, ◌++◌, take, All, arith, ◌==◌}
use blend_posv.Text.{Text, codes, includes, split_head}
use blend_posv.Cart.Store.{weight_line_id}
use blend_posv.Sale.Store.{product_of}

abbrev pub mark : Text
mark = codes "__w_"

-- A text without underscores, such as a UUID.
abbrev pub IsPlain : Text → Type 0
IsPlain id = All (λ c. (c == 95) ≡ false) id

includes-mark : (a b : Text) → includes mark (a ++ (mark ++ b)) ≡ true
includes-mark [] b = refl
includes-mark (c ∷ a) b = ground (arith, includes-mark a b)

split_head-mark : (a b : Text) → IsPlain a → split_head mark (a ++ (mark ++ b)) ≡ a
split_head-mark [] b h = refl
split_head-mark (c ∷ a) b h = ground (arith, split_head-mark a b h.1)

not-includes : (a : Text) → IsPlain a → includes mark a ≡ false
not-includes [] h = refl
not-includes (c ∷ a) h = ground (arith, not-includes a h.1)

-- Of a product whose id has no underscore, the id of a weighed line gives the product back, and the
-- id of any other line is the product's own.
pub product_of-weight_line_id :
    (uuid id : Text)
    → IsPlain id
    → (product_of (weight_line_id uuid id) ≡ id) × (product_of id ≡ id)
unfolding product_of weight_line_id
product_of-weight_line_id uuid id h = (
  rw (includes-mark id (take 8 uuid)) (split_head-mark id (take 8 uuid) h),
  rw (not-includes id h) refl,
)
