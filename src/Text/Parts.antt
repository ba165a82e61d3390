-- ===== src/Text/Parts.antt =====
-- The methods of strings that take a text apart: `trim`, `split` and `join`.
use blend_posv.Prelude.{
  ℕ, ◌≡◌, refl, ap, ◌∙◌, inl, inr, Bool, true, false, not, ◌&&◌, ◌||◌, List, [], ◌∷◌, ◌++◌, arith,
  leb, ◌==◌, if◌then◌else◌, Bool-cases, any, all, All, length, ltb,
}
use blend_posv.Text.{Text, truthy}

-- What `trim` and `\s` take for white space.
abbrev pub is_space : ℕ → Bool
is_space c =
    leb 9 c && leb c 13
    || leb 8192 c && leb c 8202
    || any (λ (w : ℕ). c == w) (32 ∷ 160 ∷ 5760 ∷ 8232 ∷ 8233 ∷ 8239 ∷ 8287 ∷ 12288 ∷ 65279 ∷ [])

abbrev pub trim_start : Text → Text
trim_start [] = []
trim_start (c ∷ s) = if is_space c then trim_start s else c ∷ s

abbrev pub trim_end : Text → Text
trim_end [] = []
trim_end (c ∷ s) = let rest = trim_end s in if is_space c && not (truthy rest) then [] else c ∷ rest

-- `s.trim()`
unfoldable pub trim : Text → Text
trim s = trim_end (trim_start s)

-- `s.replace(/\s+/g, '_')`; `after` says whether white space has just been replaced.
abbrev pub underscores : Bool → Text → Text
underscores after [] = []
underscores after (c ∷ s) =
    let inside = underscores true s in
    if is_space c then (if after then inside else 95 ∷ inside) else c ∷ underscores false s

abbrev pub push_char : ℕ → List Text → List Text
push_char c [] = (c ∷ []) ∷ []
push_char c (x ∷ xs) = (c ∷ x) ∷ xs

-- `s.split(sep)`, for a separator of one code unit
abbrev pub split_on : ℕ → Text → List Text
split_on sep [] = [] ∷ []
split_on sep (c ∷ s) = let rest = split_on sep s in if c == sep then [] ∷ rest else push_char c rest

abbrev pub before_newline : ℕ → Text → Bool
before_newline c [] = false
before_newline c (d ∷ s) = c == 13 && d == 10

-- `s.split(/\r?\n/)`
abbrev pub split_lines : Text → List Text
split_lines [] = [] ∷ []
split_lines (c ∷ s) =
    let rest = split_lines s in
    if c == 10 then [] ∷ rest else if before_newline c s then rest else push_char c rest

-- `xs.join(sep)`
abbrev pub join : Text → List Text → Text
join sep [] = []
join sep (x ∷ []) = x
join sep (x ∷ y ∷ ys) = x ++ (sep ++ join sep (y ∷ ys))

-- A text without the code unit.
abbrev pub without : ℕ → Text → Bool
without sep s = all (λ (c : ℕ). not (c == sep)) s

split_on-end : (sep : ℕ) (x : Text) → without sep x ≡ true → split_on sep x ≡ x ∷ []
split_on-end sep [] h = refl
split_on-end sep (c ∷ x) h = elim (Bool-cases (c == sep)) [
  | inl same ↦ cc (rw same at h)
  | inr other ↦ rw (other, split_on-end sep x (rw other at h)) refl
]

split_on-piece :
    (sep : ℕ) (x s : Text)
    → without sep x ≡ true
    → split_on sep (x ++ (sep ∷ s)) ≡ x ∷ split_on sep s
split_on-piece sep [] s h = rw (self sep) refl
  where
    self : (n : ℕ) → (n == n) ≡ true
    self n = ground arith
split_on-piece sep (c ∷ x) s h = elim (Bool-cases (c == sep)) [
  | inl same ↦ cc (rw same at h)
  | inr other ↦ rw (other, split_on-piece sep x s (rw other at h)) refl
]

-- Splitting takes back a join of pieces without the separator.
pub split_on-join :
    (sep : ℕ) (x : Text) (xs : List Text)
    → All (λ (t : Text). without sep t ≡ true) (x ∷ xs)
    → split_on sep (join (sep ∷ []) (x ∷ xs)) ≡ x ∷ xs
split_on-join sep x [] h = split_on-end sep x h.0
split_on-join sep x (y ∷ ys) h =
    split_on-piece sep x (join (sep ∷ []) (y ∷ ys)) h.0
    ∙ ap (λ (ts : List Text). x ∷ ts) (split_on-join sep y ys h.1)

-- The end of a line as Windows and as Unix write it.
abbrev pub line_end : Bool → Text
line_end true = 13 ∷ 10 ∷ []
line_end false = 10 ∷ []

pub split_lines-line :
    (windows : Bool) (x s : Text)
    → without 10 x ≡ true
    → without 13 x ≡ true
    → split_lines (x ++ (line_end windows ++ s)) ≡ x ∷ split_lines s
split_lines-line true [] s h k = refl
split_lines-line false [] s h k = refl
split_lines-line windows (c ∷ x) s h k = elim (Bool-cases (c == 10)) [
  | inl same ↦ cc (rw same at h)
  | inr other ↦ elim (Bool-cases (c == 13)) [
    | inl same ↦ cc (rw same at k)
    | inr inner ↦
        rw
          (
            other,
            apart (x ++ (line_end windows ++ s)) inner,
            split_lines-line windows x s (rw other at h) (rw inner at k),
          )
          refl
  ]
]
  where
    apart : (t : Text) → (c == 13) ≡ false → before_newline c t ≡ false
    apart [] e = refl
    apart (d ∷ t) e = rw e refl

trim_end-nonempty :
    (s : Text) → any (λ (c : ℕ). not (is_space c)) s ≡ true → truthy (trim_end s) ≡ true
trim_end-nonempty [] h = cc
trim_end-nonempty (c ∷ s) h = elim (Bool-cases (is_space c)) [
  | inl blank ↦ rw (blank, trim_end-nonempty s (rw blank at h)) refl
  | inr visible ↦ rw visible refl
]

-- A text with something but white space is not empty when trimmed.
pub trim-nonempty : (s : Text) → any (λ (c : ℕ). not (is_space c)) s ≡ true → truthy (trim s) ≡ true
unfolding trim
trim-nonempty [] h = cc
trim-nonempty (c ∷ s) h = elim (Bool-cases (is_space c)) [
  | inl blank ↦ rw blank (trim-nonempty s (rw blank at h))
  | inr visible ↦ rw visible (trim_end-nonempty (c ∷ s) (rw visible refl))
]

pub without-append :
    (k : ℕ) (x y : Text) → without k x ≡ true → without k y ≡ true → without k (x ++ y) ≡ true
without-append k [] y h e = e
without-append k (c ∷ x) y h e = elim (Bool-cases (c == k)) [
  | inl same ↦ cc (rw same at h)
  | inr other ↦ rw other (without-append k x y (rw other at h) e)
]

pub without-join :
    (k : ℕ) (ts : List Text)
    → (44 == k) ≡ false
    → All (λ (t : Text). without k t ≡ true) ts
    → without k (join (44 ∷ []) ts) ≡ true
without-join k [] e h = refl
without-join k (x ∷ []) e h = h.0
without-join k (x ∷ y ∷ ys) e h = without-append k x _ h.0 (rw e (without-join k (y ∷ ys) e h.1))

pub any-append :
    (p : ℕ → Bool) (x : Text) (c : ℕ) (y : Text) → p c ≡ true → any p (x ++ (c ∷ y)) ≡ true
any-append p [] c y h = rw h refl
any-append p (d ∷ x) c y h = ground (arith, any-append p x c y h)

pub has_length : (t : Text) → truthy t ≡ true → ltb 0 (length t) ≡ true
has_length [] h = cc
has_length (c ∷ t) h = ground arith
