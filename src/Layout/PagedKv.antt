-- ===== src/Layout/PagedKv.antt =====
-- src/v2/paged_kv_layout.cpp: `PagedKVLayout`, K[block][head][token][dimension], then V likewise.
use native.Mathlib.Nat.{le-mul_of_pos_right, mul-add-mod_self_right, mod-eq_of_lt}
use kvflux.Base.{
  ℕ, ◌+◌, ◌*◌, ◌/◌, ◌%◌, ◌≤◌, ◌<◌, ◌≡◌, refl, sym, ap, subst, ◌∙◌, inl, inr, false, ◌||◌, arith,
  leb, ◌==◌, if◌then◌else◌, Bool-cases, size_max, Result, ok, err, invalid_argument, out_of_range,
  wrap, wrap_id, multiply, multiply-ok, row_lt, cell_end, div_row,
}
use kvflux.Layout.{DType, KvKind, key, value, dtype_bytes, dtype_bytes_pos, half}
use kvflux.Layout.KvBlock.{
  KvBlockLayout, IsLayout, row_major, byte_offset, byte_offset-exact, byte_offset_injective,
}

pub record PagedKvLayout : Type 0 where
  pub num_blocks : ℕ
  pub num_kv_heads : ℕ
  pub block_size : ℕ
  pub head_size : ℕ
  pub dtype : DType
  pub element_bytes : ℕ
  pub page_bytes : ℕ
  pub cache_bytes : ℕ
  pub total_bytes : ℕ
  pub slot_count : ℕ

infixl 5 ◌and_then◌
abbrev pub ◌and_then◌ : {A B : Type 0} → Result A → (A → Result B) → Result B
ok a and_then f = f a
err e and_then f = err e

abbrev pub page_size : ℕ → ℕ → ℕ → ℕ → Result ℕ
page_size heads block_size head_size element =
    multiply heads block_size and_then λ a. multiply a head_size and_then λ b. multiply b element

-- The sizes, each product checked.
abbrev pub build : ℕ → ℕ → ℕ → ℕ → DType → Result PagedKvLayout
build blocks heads block_size head_size dtype =
    page_size heads block_size head_size (dtype_bytes dtype) and_then λ page.
    multiply blocks page and_then λ cache. multiply 2 cache and_then λ total.
    multiply blocks block_size and_then λ slots. ok (record {
      num_blocks = blocks;
      num_kv_heads = heads;
      block_size = block_size;
      head_size = head_size;
      dtype = dtype;
      element_bytes = dtype_bytes dtype;
      page_bytes = page;
      cache_bytes = cache;
      total_bytes = total;
      slot_count = slots;
    })

unfoldable pub create : ℕ → ℕ → ℕ → ℕ → DType → Result PagedKvLayout
create blocks heads block_size head_size dtype =
    if blocks == 0 || heads == 0 || block_size == 0 || head_size == 0
    then err invalid_argument
    else build blocks heads block_size head_size dtype

abbrev pub cache_offset : PagedKvLayout → KvKind → ℕ
cache_offset l value = l.cache_bytes
cache_offset l key = 0

unfoldable pub page_byte_offset : PagedKvLayout → KvKind → ℕ → Result ℕ
page_byte_offset l kind block =
    if leb l.num_blocks block
    then err out_of_range
    else ok (wrap (cache_offset l kind + wrap (block * l.page_bytes)))

abbrev pub element_in_page : PagedKvLayout → ℕ → ℕ → ℕ → ℕ
element_in_page l head token dimension =
    wrap (wrap (wrap (wrap (head * l.block_size) + token) * l.head_size) + dimension)

unfoldable pub byte_offset_in : PagedKvLayout → KvKind → ℕ → ℕ → ℕ → ℕ → Result ℕ
byte_offset_in l kind block head token dimension = page_byte_offset l kind block and_then λ page.
    if leb l.num_kv_heads head || leb l.block_size token || leb l.head_size dimension
    then err out_of_range
    else ok (wrap (page + wrap (element_in_page l head token dimension * l.element_bytes)))

unfoldable pub slot_byte_offset : PagedKvLayout → KvKind → ℕ → ℕ → ℕ → Result ℕ
slot_byte_offset l kind slot head dimension =
    if leb l.slot_count slot
    then err out_of_range
    else byte_offset_in l kind (slot / l.block_size) head (slot % l.block_size) dimension

-- What the constructor ensures.
pub record IsPaged (l : PagedKvLayout) : Type 0 where
  pub blocks : 0 < l.num_blocks
  pub heads : 0 < l.num_kv_heads
  pub tokens : 0 < l.block_size
  pub dims : 0 < l.head_size
  pub element : 0 < l.element_bytes
  pub page : l.page_bytes ≡ l.num_kv_heads * l.block_size * l.head_size * l.element_bytes
  pub cache : l.cache_bytes ≡ l.num_blocks * l.page_bytes
  pub total : l.total_bytes ≡ 2 * l.cache_bytes
  pub fits : l.total_bytes ≤ size_max
  pub slots : l.slot_count ≡ l.num_blocks * l.block_size

and_then-ok :
    {A B : Type 0} (r : Result A) (f : A → Result B) (b : B)
    → (r and_then f) ≡ ok b
    → (a : A) × (r ≡ ok a) × (f a ≡ ok b)
and_then-ok (ok a) f b e = (a, refl, e)
and_then-ok (err x) f b e = cc

page_size-ok : (a b c d n : ℕ) → page_size a b c d ≡ ok n → n ≡ a * b * c * d
page_size-ok a b c d n e =
    let (x, ex, rest) = and_then-ok (multiply a b) _ n e in
    let (y, ey, last) = and_then-ok (multiply x c) _ n rest in
    let px = (multiply-ok a b x ex).0 in
    let py = (multiply-ok x c y ey).0 in
    (multiply-ok y d n last).0 ∙ ap (λ (t : ℕ). t * d) (py ∙ ap (λ (t : ℕ). t * c) px)

-- A constructed layout has positive dimensions and exact sizes.
pub create-IsPaged :
    (blocks heads block_size head_size : ℕ) (dtype : DType) (l : PagedKvLayout)
    → create blocks heads block_size head_size dtype ≡ ok l
    → IsPaged l
unfolding create
create-IsPaged blocks heads block_size head_size dtype l e =
    elim (Bool-cases (blocks == 0 || heads == 0 || block_size == 0 || head_size == 0)) [
      | inl bad ↦ absurd (ground arith)
      | inr good ↦
          let made : build blocks heads block_size head_size dtype ≡ ok l = ground arith in
          let (page, ep, r1) =
            and_then-ok (page_size heads block_size head_size (dtype_bytes dtype)) _ l made in
          let (cache, ec, r2) = and_then-ok (multiply blocks page) _ l r1 in
          let (total, et, r3) = and_then-ok (multiply 2 cache) _ l r2 in
          let (slots, es, r4) = and_then-ok (multiply blocks block_size) _ l r3 in
          let page_is = page_size-ok heads block_size head_size (dtype_bytes dtype) page ep in
          let cache_is = (multiply-ok blocks page cache ec).0 in
          let (total_is, small) = multiply-ok 2 cache total et in
          let slots_is = (multiply-ok blocks block_size slots es).0 in
          let positive = dtype_bytes_pos dtype in
          record {
            blocks = ground arith;
            heads = ground arith;
            tokens = ground arith;
            dims = ground arith;
            element = ground arith;
            page = ground arith;
            cache = ground arith;
            total = ground arith;
            fits = ground arith;
            slots = ground arith;
          }
    ]

total_product :
    (l : PagedKvLayout)
    → IsPaged l
    → l.total_bytes
      ≡ 2 * l.num_blocks * l.num_kv_heads * l.block_size * l.head_size * l.element_bytes
total_product l v =
    v.total
    ∙ ap (λ (t : ℕ). 2 * t) (v.cache ∙ ap (λ (t : ℕ). l.num_blocks * t) v.page)
    ∙ omega arith

-- The same cache as a block of `KVBlockLayout`: the pages take the place of the layers.
abbrev pub as_block : PagedKvLayout → KvBlockLayout
as_block l = record {
  config = record {
    num_layers = l.num_blocks;
    num_heads = l.num_kv_heads;
    head_dim = l.head_size;
    block_size = l.block_size;
    dtype = l.dtype;
  };
  element_bytes = l.element_bytes;
  block_bytes = l.total_bytes;
}

as_block-IsLayout : (l : PagedKvLayout) → IsPaged l → IsLayout (as_block l)
as_block-IsLayout l v = record {
  layers = v.blocks;
  heads = v.heads;
  tokens = v.tokens;
  dims = v.dims;
  element = v.element;
  size = total_product l v;
  fits = v.fits;
}

cache_offset-le : (l : PagedKvLayout) (kind : KvKind) → cache_offset l kind ≤ l.cache_bytes
cache_offset-le l key = omega arith
cache_offset-le l value = omega arith

cache_offset-half :
    (l : PagedKvLayout) (kind : KvKind) → cache_offset l kind ≡ half kind * l.cache_bytes
cache_offset-half l key = omega arith
cache_offset-half l value = omega arith

module _ (l : PagedKvLayout) (v : IsPaged l) (kind : KvKind) (block head token dimension : ℕ)
    (in_block : block < l.num_blocks) (in_head : head < l.num_kv_heads)
    (in_token : token < l.block_size) (in_dim : dimension < l.head_size) where
  open l use {
    num_blocks, num_kv_heads, block_size, head_size, element_bytes, page_bytes, cache_bytes,
    total_bytes,
  }

  abbrev cell : ℕ
  cell = (head * block_size + token) * head_size + dimension

  cells_lt :
      (head * block_size + token < num_kv_heads * block_size)
      × (cell < num_kv_heads * block_size * head_size)
      × (cell * element_bytes + element_bytes ≤ page_bytes)
  cells_lt =
      let lt1 = row_lt head token num_kv_heads block_size in_head in_token in
      let lt2 =
        row_lt (head * block_size + token) dimension (num_kv_heads * block_size) head_size lt1
          in_dim in
      (
        lt1,
        lt2,
        subst (λ n. cell * element_bytes + element_bytes ≤ n) (sym v.page)
            (cell_end cell (num_kv_heads * block_size * head_size) element_bytes lt2),
      )

  page_fits :
      (block * page_bytes + page_bytes ≤ cache_bytes)
      × (page_bytes ≤ size_max)
      × (cache_offset l kind + cache_bytes ≤ total_bytes)
  page_fits =
      let in_cache : block * page_bytes + page_bytes ≤ cache_bytes =
        subst (λ n. block * page_bytes + page_bytes ≤ n) (sym v.cache)
          (cell_end block num_blocks page_bytes in_block) in
      let total = v.total in
      let fits = v.fits in
      let offset = cache_offset-le l kind in (in_cache, omega arith, omega arith)

  element_in_page-exact : element_in_page l head token dimension ≡ cell
  element_in_page-exact =
      let (lt1, lt2, lt3) = cells_lt in
      let small = page_fits.1 in
      let top : num_kv_heads * block_size * head_size ≤ page_bytes =
        subst (λ n. num_kv_heads * block_size * head_size ≤ n) (sym v.page)
          (le-mul_of_pos_right (num_kv_heads * block_size * head_size) v.element) in
      let mid = le-mul_of_pos_right (num_kv_heads * block_size) v.dims in
      let low = le-mul_of_pos_right (head * block_size + token) v.dims in
      rw (
        wrap_id (head * block_size) (omega arith),
        wrap_id (head * block_size + token) (omega arith),
        wrap_id ((head * block_size + token) * head_size) (omega arith),
        wrap_id cell (omega arith),
      )

  byte_offset_in-exact :
      byte_offset_in l kind block head token dimension
      ≡ ok (cache_offset l kind + block * page_bytes + cell * element_bytes)
  unfolding byte_offset_in page_byte_offset
  byte_offset_in-exact =
      let (lt1, lt2, lt3) = cells_lt in
      let (in_cache, small, in_total) = page_fits in
      let fits = v.fits in
      let w1 = wrap_id (block * page_bytes) (omega arith) in
      let w2 = wrap_id (cache_offset l kind + block * page_bytes) (omega arith) in
      let w3 = wrap_id (cell * element_bytes) (omega arith) in
      let w4 =
        wrap_id (cache_offset l kind + block * page_bytes + cell * element_bytes) (omega arith) in
      ground (arith, element_in_page-exact, w1, w2, w3, w4)

  in_row_major :
      cache_offset l kind + block * page_bytes + cell * element_bytes
      ≡ row_major (as_block l).config kind block head token dimension * element_bytes
  in_row_major =
      let page_is = v.page in
      let bytes : ℕ = num_kv_heads * block_size * head_size * element_bytes in
      let block_is : block * page_bytes ≡ block * bytes = ap (λ (t : ℕ). block * t) page_is in
      let cache_is : half kind * cache_bytes ≡ half kind * (num_blocks * bytes) =
        ap (λ (t : ℕ). half kind * t) (v.cache ∙ ap (λ (t : ℕ). num_blocks * t) page_is) in
      let offset = cache_offset-half l kind in omega arith

-- The paged addresses are those of one row-major block that has as many layers as the cache has pages,
-- the page taking the place of the layer: for each kind and all coordinates both functions return the
-- same address, or both throw.
pub byte_offset_in-as_block :
    (l : PagedKvLayout) (kind : KvKind) (block head token dimension : ℕ)
    → IsPaged l
    → byte_offset_in l kind block head token dimension
      ≡ byte_offset (as_block l) kind block head token dimension
unfolding byte_offset_in page_byte_offset byte_offset
byte_offset_in-as_block l kind block head token dimension v =
    elim (Bool-cases (
      leb l.num_blocks block
      || leb l.num_kv_heads head
      || leb l.block_size token
      || leb l.head_size dimension)) [
        | inl outside ↦ ground arith
        | inr inside ↦
            let a : block < l.num_blocks = ground arith in
            let b : head < l.num_kv_heads = ground arith in
            let c : token < l.block_size = ground arith in
            let d : dimension < l.head_size = ground arith in
            byte_offset_in-exact l v kind block head token dimension a b c d
            ∙ (ap ok (in_row_major l v kind block head token dimension a b c d)
                ∙ sym (
                    byte_offset-exact (as_block l) (as_block-IsLayout l v) kind block head token
                      dimension a b c d))
      ]

-- A slot number addresses the token that it was made from.
pub slot_byte_offset-slot :
    (l : PagedKvLayout) (kind : KvKind) (block head token dimension : ℕ)
    → IsPaged l
    → block < l.num_blocks
    → token < l.block_size
    → slot_byte_offset l kind (block * l.block_size + token) head dimension
      ≡ byte_offset_in l kind block head token dimension
unfolding slot_byte_offset
slot_byte_offset-slot l kind block head token dimension v a c =
    let inside : block * l.block_size + token < l.slot_count =
      subst (λ n. block * l.block_size + token < n) (sym v.slots)
        (row_lt block token l.num_blocks l.block_size a c) in
    let quotient = div_row block token c in
    let rest = mul-add-mod_self_right block l.block_size token ∙ mod-eq_of_lt c in
    let in_range : leb l.slot_count (block * l.block_size + token) ≡ false = ground arith in
    rw (in_range, quotient, rest)

-- Two elements of a paged cache never share an address: kind, page, head, token and dimension are
-- all determined by it.
pub byte_offset_in-injective :
    (l : PagedKvLayout) (kind kind' : KvKind)
    (block block' head head' token token' dimension dimension' o : ℕ)
    → IsPaged l
    → byte_offset_in l kind block head token dimension ≡ ok o
    → byte_offset_in l kind' block' head' token' dimension' ≡ ok o
    → (kind ≡ kind')
      × (block ≡ block')
      × (head ≡ head')
      × (token ≡ token')
      × (dimension ≡ dimension')
byte_offset_in-injective l kind kind' block block' head head' token token' dimension dimension' o v
      e e' =
    byte_offset_injective (as_block l) kind kind' block block' head head' token token' dimension
      dimension' o (as_block-IsLayout l v)
      (sym (byte_offset_in-as_block l kind block head token dimension v) ∙ e)
      (sym (byte_offset_in-as_block l kind' block' head' token' dimension' v) ∙ e')
