-- ===== src/Layout/Tests.antt =====
-- Runs of the layouts, and the theorems at concrete inputs.
use kvflux.Base.{ℕ, ◌+◌, ◌*◌, ◌<◌, ◌≤◌, ◌≡◌, refl, arith, multiply, wrap}
use kvflux.Layout.{float16, KvKind, key, value}
use kvflux.Layout.KvBlock
use kvflux.Layout.KvBlock.{
  ModelConfig, KvBlockLayout, CapacityPlan, IsLayout, create-IsLayout, byte_offset,
  byte_offset_bounds, byte_offset_injective, capacity_for, capacity_for_lem, row_major,
}
use kvflux.Layout.PagedKv
use kvflux.Layout.PagedKv.{
  PagedKvLayout, IsPaged, create-IsPaged, byte_offset_in, slot_byte_offset, as_block,
  byte_offset_in-as_block, slot_byte_offset-slot, byte_offset_in-injective, page_byte_offset,
}

code : Unit {0}
unfolding KvBlock.create PagedKv.create byte_offset capacity_for byte_offset_in page_byte_offset
    slot_byte_offset multiply wrap
code = tt

abbrev config : ModelConfig
config = record { num_layers = 2; num_heads = 3; head_dim = 8; block_size = 4; dtype = float16 }

abbrev layout : KvBlockLayout
layout = record { config = config; element_bytes = 2; block_bytes = 768 }

layout-IsLayout : IsLayout layout
unfolding code
layout-IsLayout = (create-IsLayout config layout refl).0

byte_offset_bounds_example : (766 ≡ row_major config value 1 2 3 7 * 2) × (766 + 2 ≤ 768)
unfolding code
byte_offset_bounds_example = byte_offset_bounds layout value 1 2 3 7 766 layout-IsLayout refl

byte_offset_injective_example :
    (◌≡◌ {A = KvKind} key key)
    × (◌≡◌ {A = ℕ} 1 1)
    × (◌≡◌ {A = ℕ} 0 0)
    × (◌≡◌ {A = ℕ} 3 3)
    × (◌≡◌ {A = ℕ} 5 5)
unfolding code
byte_offset_injective_example =
    byte_offset_injective layout key key 1 1 0 0 3 3 5 5 250 layout-IsLayout refl refl

abbrev plan : CapacityPlan
plan = record {
  block_bytes = 768;
  total_blocks = 2;
  allocated_bytes = 1536;
  unused_bytes = 464;
  token_capacity = 8;
}

capacity_for_example :
    (1536 ≡ plan.total_blocks * 768)
    × (plan.allocated_bytes + 464 ≡ 2000)
    × (464 < 768)
    × (8 ≡ plan.total_blocks * 4)
unfolding code
capacity_for_example = capacity_for_lem layout 2000 plan layout-IsLayout (omega arith) refl

abbrev paged : PagedKvLayout
paged = record {
  num_blocks = 5;
  num_kv_heads = 3;
  block_size = 4;
  head_size = 8;
  dtype = float16;
  element_bytes = 2;
  page_bytes = 192;
  cache_bytes = 960;
  total_bytes = 1920;
  slot_count = 20;
}

paged-IsPaged : IsPaged paged
unfolding code
paged-IsPaged = create-IsPaged 5 3 4 8 float16 paged refl

byte_offset_in-as_block_example :
    byte_offset_in paged value 3 1 2 6 ≡ byte_offset (as_block paged) value 3 1 2 6
byte_offset_in-as_block_example = byte_offset_in-as_block paged value 3 1 2 6 paged-IsPaged

byte_offset_in-injective_example :
    (◌≡◌ {A = KvKind} value value)
    × (◌≡◌ {A = ℕ} 3 3)
    × (◌≡◌ {A = ℕ} 1 1)
    × (◌≡◌ {A = ℕ} 2 2)
    × (◌≡◌ {A = ℕ} 6 6)
unfolding code
byte_offset_in-injective_example =
    byte_offset_in-injective paged value value 3 3 1 1 2 2 6 6 1644 paged-IsPaged refl refl
