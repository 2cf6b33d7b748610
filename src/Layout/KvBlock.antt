-- ===== src/Layout/KvBlock.antt =====
-- src/kv_layout.cpp: `KVBlockLayout`, [K/V][layer][head][token][dimension], the last one contiguous.
use native.Mathlib.Nat.{le-mul_of_pos_right, le_trans, mod-lt, mod-add-div'}
use kvflux.Base.{
  ℕ, ◌+◌, ◌-◌, ◌*◌, ◌/◌, ◌≤◌, ◌<◌, ◌≡◌, refl, sym, subst, ◌∙◌, inl, inr, ◌||◌, List, [], ◌∷◌, arith,
  leb, ◌==◌, if◌then◌else◌, Bool-cases, size_max, Result, ok, err, invalid_argument, out_of_range,
  wrap, wrap_id, multiply, multiply-ok, row_lt, row_injective, cell_end, cell_injective,
  Result-cases,
}
use kvflux.Layout.{DType, KvKind, key, value, dtype_bytes, dtype_bytes_pos, half, half_lt}

pub record ModelConfig : Type 0 where
  pub num_layers : ℕ
  pub num_heads : ℕ
  pub head_dim : ℕ
  pub block_size : ℕ
  pub dtype : DType

pub record CapacityPlan : Type 0 where
  pub block_bytes : ℕ
  pub total_blocks : ℕ
  pub allocated_bytes : ℕ
  pub unused_bytes : ℕ
  pub token_capacity : ℕ

pub record KvBlockLayout : Type 0 where
  pub config : ModelConfig
  pub element_bytes : ℕ
  pub block_bytes : ℕ

-- `for (auto size : sizes) bytes = multiply(bytes, size);`
abbrev pub multiply_all : ℕ → List ℕ → Result ℕ
multiply_all bytes [] = ok bytes
multiply_all bytes (size ∷ sizes) = elim (multiply bytes size) [
  | err e ↦ err e
  | ok bytes' ↦ multiply_all bytes' sizes
]

unfoldable pub create : ModelConfig → Result KvBlockLayout
create c =
    if c.num_layers == 0 || c.num_heads == 0 || c.head_dim == 0 || c.block_size == 0
    then err invalid_argument
    else elim (multiply_all 2
        (c.num_layers ∷ c.num_heads ∷ c.block_size ∷ c.head_dim ∷ dtype_bytes c.dtype ∷ [])) [
          | err e ↦ err e
          | ok bytes ↦
              ok (record { config = c; element_bytes = dtype_bytes c.dtype; block_bytes = bytes })
        ]

-- The element's index in the block. Each step is an operation on `size_t`.
abbrev pub element_index : ModelConfig → KvKind → ℕ → ℕ → ℕ → ℕ → ℕ
element_index c kind layer head token dimension = wrap (
    wrap
        (wrap (wrap (half kind * c.num_layers + layer) * c.num_heads + head) * c.block_size + token)
      * c.head_dim
    + dimension)

unfoldable pub byte_offset : KvBlockLayout → KvKind → ℕ → ℕ → ℕ → ℕ → Result ℕ
byte_offset l kind layer head token dimension =
    if leb l.config.num_layers layer
      || leb l.config.num_heads head
      || leb l.config.block_size token
      || leb l.config.head_dim dimension
    then err out_of_range
    else ok (wrap (element_index l.config kind layer head token dimension * l.element_bytes))

unfoldable pub capacity_for : KvBlockLayout → ℕ → Result CapacityPlan
capacity_for l budget =
    let blocks = budget / l.block_bytes in
    let allocated = wrap (blocks * l.block_bytes) in
    elim (multiply blocks l.config.block_size) [
      | err e ↦ err e
      | ok tokens ↦ ok (record {
        block_bytes = l.block_bytes;
        total_blocks = blocks;
        allocated_bytes = allocated;
        unused_bytes = budget - allocated;
        token_capacity = tokens;
      })
    ]

-- What the constructor ensures.
pub record IsLayout (l : KvBlockLayout) : Type 0 where
  pub layers : 0 < l.config.num_layers
  pub heads : 0 < l.config.num_heads
  pub tokens : 0 < l.config.block_size
  pub dims : 0 < l.config.head_dim
  pub element : 0 < l.element_bytes
  pub size :
      l.block_bytes
      ≡ 2 * l.config.num_layers * l.config.num_heads * l.config.block_size * l.config.head_dim
        * l.element_bytes
  pub fits : l.block_bytes ≤ size_max

abbrev sizes : ModelConfig → List ℕ
sizes c = c.num_layers ∷ c.num_heads ∷ c.block_size ∷ c.head_dim ∷ dtype_bytes c.dtype ∷ []

abbrev product : ℕ → List ℕ → ℕ
product n [] = n
product n (x ∷ xs) = product (n * x) xs

multiply_all-ok :
    (n : ℕ) (xs : List ℕ) (r : ℕ)
    → n ≤ size_max
    → multiply_all n xs ≡ ok r
    → (r ≡ product n xs) × (r ≤ size_max)
multiply_all-ok n [] r h e = ground arith
multiply_all-ok n (x ∷ xs) r h e = elim (Result-cases (multiply n x)) [
  | inr (b, q) ↦ absurd (ground arith)
  | inl (k, q) ↦
      let (exact, small) = multiply-ok n x k q in
      rw (← exact) (multiply_all-ok k xs r small (ground arith))
]

-- A constructed layout has positive dimensions, and its size is the exact product of them.
pub create-IsLayout :
    (c : ModelConfig) (l : KvBlockLayout) → create c ≡ ok l → IsLayout l × (l.config ≡ c)
unfolding create
create-IsLayout c l e =
    elim (Bool-cases
      (c.num_layers == 0 || c.num_heads == 0 || c.head_dim == 0 || c.block_size == 0)) [
        | inl bad ↦ absurd (ground arith)
        | inr good ↦ elim (Result-cases (multiply_all 2 (sizes c))) [
          | inr (x, q) ↦ absurd (ground arith)
          | inl (bytes, q) ↦
              let made : record {
                config = c;
                element_bytes = dtype_bytes c.dtype;
                block_bytes = bytes;
              }
                  ≡ l =
                ground arith in
              let (exact, small) = multiply_all-ok 2 (sizes c) bytes (omega arith) q in
              subst (λ k. IsLayout k × (k.config ≡ c)) made
                (
                  record {
                    layers = ground arith;
                    heads = ground arith;
                    tokens = ground arith;
                    dims = ground arith;
                    element = dtype_bytes_pos c.dtype;
                    size = exact;
                    fits = small;
                  },
                  refl,
                )
        ]
      ]

-- The index of an element in row-major order, over the numbers without a bound.
abbrev pub row_major : ModelConfig → KvKind → ℕ → ℕ → ℕ → ℕ → ℕ
row_major c kind layer head token dimension =
    (((half kind * c.num_layers + layer) * c.num_heads + head) * c.block_size + token) * c.head_dim
    + dimension

-- The addresses of a layout, with the wrap-around gone.
module _ (l : KvBlockLayout) (v : IsLayout l) (kind : KvKind) (layer head token dimension : ℕ)
    (in_layer : layer < l.config.num_layers) (in_head : head < l.config.num_heads)
    (in_token : token < l.config.block_size) (in_dim : dimension < l.config.head_dim) where
  open l use {config, element_bytes, block_bytes}
  open config use {num_layers, num_heads, block_size, head_dim}

  abbrev row1 : ℕ
  row1 = half kind * num_layers + layer

  abbrev row2 : ℕ
  row2 = row1 * num_heads + head

  abbrev row3 : ℕ
  row3 = row2 * block_size + token

  abbrev row4 : ℕ
  row4 = row3 * head_dim + dimension

  rows_lt :
      (row1 < 2 * num_layers)
      × (row2 < 2 * num_layers * num_heads)
      × (row3 < 2 * num_layers * num_heads * block_size)
      × (row4 < 2 * num_layers * num_heads * block_size * head_dim)
  rows_lt =
      let lt1 = row_lt (half kind) layer 2 num_layers (half_lt kind) in_layer in
      let lt2 = row_lt row1 head (2 * num_layers) num_heads lt1 in_head in
      let lt3 = row_lt row2 token (2 * num_layers * num_heads) block_size lt2 in_token in
      (
        lt1,
        lt2,
        lt3,
        row_lt row3 dimension (2 * num_layers * num_heads * block_size) head_dim lt3 in_dim,
      )

  sizes_le :
      (2 * num_layers ≤ block_bytes)
      × (2 * num_layers * num_heads ≤ block_bytes)
      × (2 * num_layers * num_heads * block_size ≤ block_bytes)
      × (2 * num_layers * num_heads * block_size * head_dim ≤ block_bytes)
  sizes_le =
      let le4 =
        le-mul_of_pos_right (2 * num_layers * num_heads * block_size * head_dim) v.element in
      let le3 = le-mul_of_pos_right (2 * num_layers * num_heads * block_size) v.dims in
      let le2 = le-mul_of_pos_right (2 * num_layers * num_heads) v.tokens in
      let le1 = le-mul_of_pos_right (2 * num_layers) v.heads in
      let top : 2 * num_layers * num_heads * block_size * head_dim ≤ block_bytes =
        rw (v.size) le4 in
      let three = le_trans le3 top in
      let two = le_trans le2 three in (le_trans le1 two, two, three, top)

  pub element_index-exact : element_index config kind layer head token dimension ≡ row4
  element_index-exact =
      let (lt1, lt2, lt3, lt4) = rows_lt in
      let (le1, le2, le3, le4) = sizes_le in
      let fits = v.fits in
      rw (
        wrap_id row1 (omega arith),
        wrap_id row2 (omega arith),
        wrap_id row3 (omega arith),
        wrap_id row4 (omega arith),
      )

  pub element_end : row4 * element_bytes + element_bytes ≤ block_bytes
  element_end =
      subst (λ n. row4 * element_bytes + element_bytes ≤ n) (sym v.size)
        (cell_end row4 (2 * num_layers * num_heads * block_size * head_dim) element_bytes rows_lt.3)

  pub byte_offset-exact : byte_offset l kind layer head token dimension ≡ ok (row4 * element_bytes)
  unfolding byte_offset
  byte_offset-exact =
      let fits = v.fits in
      let end = element_end in
      let exact : wrap (row4 * element_bytes) ≡ row4 * element_bytes = wrap_id _ (omega arith) in
      ground (arith, element_index-exact, exact)

half_injective : (a b : KvKind) → half a ≡ half b → a ≡ b
half_injective key key e = refl
half_injective key value e = absurd (omega arith)
half_injective value key e = absurd (omega arith)
half_injective value value e = refl

block_pos : (l : KvBlockLayout) → IsLayout l → 0 < l.block_bytes
block_pos l v =
    let at : KvKind = key in
    omega (arith, element_end l v at 0 0 0 0 v.layers v.heads v.tokens v.dims, v.element)

-- Coordinates outside the layout throw; an address returned belongs to coordinates inside.
byte_offset-inside :
    (l : KvBlockLayout) (kind : KvKind) (layer head token dimension o : ℕ)
    → byte_offset l kind layer head token dimension ≡ ok o
    → (layer < l.config.num_layers)
      × (head < l.config.num_heads)
      × (token < l.config.block_size)
      × (dimension < l.config.head_dim)
unfolding byte_offset
byte_offset-inside l kind layer head token dimension o e = ground arith

-- Every element that a valid layout addresses lies whole inside the block, in the half that its
-- kind names, and no step of the address computation wraps around.
pub byte_offset_bounds :
    (l : KvBlockLayout) (kind : KvKind) (layer head token dimension o : ℕ)
    → IsLayout l
    → byte_offset l kind layer head token dimension ≡ ok o
    → (o ≡ row_major l.config kind layer head token dimension * l.element_bytes)
      × (o + l.element_bytes ≤ l.block_bytes)
byte_offset_bounds l kind layer head token dimension o v e =
    let (a, b, c, d) = byte_offset-inside l kind layer head token dimension o e in
    let exact = byte_offset-exact l v kind layer head token dimension a b c d in
    let end = element_end l v kind layer head token dimension a b c d in
    (ground arith, ground arith)

-- Two coordinates with one address are the same coordinates.
pub byte_offset_injective :
    (l : KvBlockLayout) (kind kind' : KvKind)
    (layer layer' head head' token token' dimension dimension' o : ℕ)
    → IsLayout l
    → byte_offset l kind layer head token dimension ≡ ok o
    → byte_offset l kind' layer' head' token' dimension' ≡ ok o
    → (kind ≡ kind')
      × (layer ≡ layer')
      × (head ≡ head')
      × (token ≡ token')
      × (dimension ≡ dimension')
byte_offset_injective l kind kind' layer layer' head head' token token' dimension dimension' o v e
      e' =
    let (a, b, c, d) = byte_offset-inside l kind layer head token dimension o e in
    let (a', b', c', d') = byte_offset-inside l kind' layer' head' token' dimension' o e' in
    let at = (byte_offset_bounds l kind layer head token dimension o v e).0 in
    let at' = (byte_offset_bounds l kind' layer' head' token' dimension' o v e').0 in
    let cell = cell_injective _ _ l.element_bytes v.element (sym at ∙ at') in
    let (r3, q4) = row_injective _ dimension _ dimension' l.config.head_dim d d' cell in
    let (r2, q3) = row_injective _ token _ token' l.config.block_size c c' r3 in
    let (r1, q2) = row_injective _ head _ head' l.config.num_heads b b' r2 in
    let (r0, q1) = row_injective _ layer _ layer' l.config.num_layers a a' r1 in
    (half_injective kind kind' r0, q1, q2, q3, q4)

-- A plan within a budget: the blocks fit, one more would not, nothing wraps, and the tokens are
-- those of the blocks.
pub capacity_for_lem :
    (l : KvBlockLayout) (budget : ℕ) (plan : CapacityPlan)
    → IsLayout l
    → budget ≤ size_max
    → capacity_for l budget ≡ ok plan
    → (plan.allocated_bytes ≡ plan.total_blocks * l.block_bytes)
      × (plan.allocated_bytes + plan.unused_bytes ≡ budget)
      × (plan.unused_bytes < l.block_bytes)
      × (plan.token_capacity ≡ plan.total_blocks * l.config.block_size)
unfolding capacity_for
capacity_for_lem l budget plan v small e =
    elim (Result-cases (multiply (budget / l.block_bytes) l.config.block_size)) [
      | inr (x, q) ↦ absurd (ground arith)
      | inl (tokens, q) ↦
          let (exact, _) = multiply-ok _ _ tokens q in
          let div = mod-add-div' budget l.block_bytes in
          let rest = mod-lt budget (block_pos l v) in
          let whole : wrap (budget / l.block_bytes * l.block_bytes)
              ≡ budget / l.block_bytes * l.block_bytes =
            wrap_id _ (omega arith) in
          ground (arith, whole)
    ]
