-- ===== src/Memory/MemoryPool.antt =====
-- cpp/core/memory/memory_pool.hpp: a pool of equal blocks with a free list. The head of the list
-- packs a block's index and a generation; the links of the list stand in a side table, one array
-- per slab. An operation is one step here: its CAS succeeds. An address is a number, and 0 is null;
-- what `operator new` answers is a parameter of the operations that may grow the pool, `none` for
-- the exception.
pub mod Table
pub mod FreeList
pub mod Growth
pub mod Blocks
pub mod Members
pub mod Owners
pub mod Safety
pub mod Tests
use cascade.Base.{
  ℕ, zero, suc, ◌+◌, ◌-◌, ◌*◌, ◌/◌, ◌%◌, ◌^◌, Bool, true, false, ◌&&◌, ◌||◌, List, [], ◌∷◌, Option,
  none, some, ltb, leb, ◌==◌, if◌then◌else◌, get_or, set, replicate,
}
use cascade.Base.Word.{add32, add64, mul64, sub64}
use Prim.Native.Nat.{bit_and, bit_or}

abbrev pub max_slabs : ℕ
max_slabs = 1024

abbrev pub null_index : ℕ
null_index = 0xFFFFFFFF

-- The fixed arrays hold null where no slab is published: address 0, and an empty link array.
pub record MemoryPool : Type 0 where
  pub blocks_per_slab : ℕ
  pub free_head : ℕ
  pub allocated : ℕ
  pub slabs : List ℕ
  pub links : List (List ℕ)
  pub slab_count : ℕ

pub pack : ℕ → ℕ → ℕ
pack index generation = bit_or (generation * 2 ^ 32) index

pub index_of : ℕ → ℕ
index_of v = bit_and v 0xFFFFFFFF

pub generation_of : ℕ → ℕ
generation_of v = v / 2 ^ 32

-- The address of a block, for blocks of `stride` bytes.
pub block_ptr : ℕ → MemoryPool → ℕ → ℕ
block_ptr stride p global_index =
    let slab_idx = global_index / p.blocks_per_slab in
    let offset = global_index % p.blocks_per_slab in get_or p.slabs slab_idx 0 + offset * stride

pub link : MemoryPool → ℕ → ℕ
link p global_index =
    let slab_idx = global_index / p.blocks_per_slab in
    let offset = global_index % p.blocks_per_slab in get_or (get_or p.links slab_idx []) offset 0

-- The store to a link.
pub set_link : ℕ → ℕ → MemoryPool → MemoryPool
set_link global_index value p =
    let slab_idx = global_index / p.blocks_per_slab in
    let offset = global_index % p.blocks_per_slab in
    record p { links = set p.links slab_idx (set (get_or p.links slab_idx []) offset value) }

-- The loop over the slabs from slab `s` on, `remaining` of them.
pub search_slabs : ℕ → MemoryPool → ℕ → ℕ → ℕ → ℕ
search_slabs stride p ptr zero s = null_index
search_slabs stride p ptr (suc remaining) s =
    let base = get_or p.slabs s 0 in
    let end = base + stride * p.blocks_per_slab in
    let rest = search_slabs stride p ptr remaining (s + 1) in
    if leb base ptr && ltb ptr end
    then (s * p.blocks_per_slab + (ptr - base) / stride) % 2 ^ 32
    else rest

-- A slab's size in bytes, the stride times its blocks, is below 2 ^ 64.
pub index_from_ptr : ℕ → MemoryPool → ℕ → ℕ
index_from_ptr stride p ptr = search_slabs stride p ptr p.slab_count 0

-- The links of a new slab whose first block is `base`: each block's is the next one, `remaining`
-- blocks and then the last, whose link is the head that the splice replaces.
pub chain_links : ℕ → ℕ → ℕ → List ℕ
chain_links zero base old_index = old_index ∷ []
chain_links (suc remaining) base old_index =
    (base + 1) % 2 ^ 32 ∷ chain_links remaining (base + 1) old_index

-- The guards of `grow`: the slab table is full, the slabs have no blocks, or an index of the new
-- slab would not fit.
pub exhausted : MemoryPool → Bool
exhausted p =
    let base = mul64 p.slab_count p.blocks_per_slab in
    leb max_slabs p.slab_count
    || p.blocks_per_slab == 0
    || leb null_index base
    || ltb (sub64 null_index base) p.blocks_per_slab

-- The slab at `raw`, published and spliced onto the free list.
pub add_slab : ℕ → MemoryPool → MemoryPool
add_slab raw p =
    let base = mul64 p.slab_count p.blocks_per_slab in
    record p {
      slabs = set p.slabs p.slab_count raw;
      links =
          set p.links p.slab_count
            (chain_links (p.blocks_per_slab - 1) base (index_of p.free_head));
      slab_count = p.slab_count + 1;
      free_head = pack (base % 2 ^ 32) (add32 (generation_of p.free_head) 1);
    }

pub grow : Option ℕ → MemoryPool → Option MemoryPool
grow none p = none
grow (some raw) p = if exhausted p then none else some (add_slab raw p)

pub grow_if_still_empty : Option ℕ → MemoryPool → Option MemoryPool
grow_if_still_empty raw p = if index_of p.free_head == null_index then grow raw p else some p

-- The member initialisers.
pub initial : ℕ → MemoryPool
initial blocks_per_slab = record {
  blocks_per_slab = blocks_per_slab;
  free_head = pack null_index 0;
  allocated = 0;
  slabs = replicate max_slabs 0;
  links = replicate max_slabs [];
  slab_count = 0;
}

-- The constructor; `none` where it throws.
pub new_pool : ℕ → Option ℕ → Option MemoryPool
new_pool blocks_per_slab raw = grow raw (initial blocks_per_slab)

-- The CAS that takes the head's block, and the count.
pub pop_head : ℕ → MemoryPool → ℕ × MemoryPool
pop_head stride p =
    let index = index_of p.free_head in
    (
      block_ptr stride p index,
      record p {
        free_head = pack (link p index) (add32 (generation_of p.free_head) 1);
        allocated = add64 p.allocated 1;
      },
    )

-- The loop of `allocate`, on fuel; `none` for the exception or no fuel.
pub allocate_loop : ℕ → ℕ → Option ℕ → MemoryPool → Option (ℕ × MemoryPool)
allocate_loop zero stride raw p = none
allocate_loop (suc fuel) stride raw p =
    if index_of p.free_head == null_index
    then (elim (grow_if_still_empty raw p) [
      | none ↦ none
      | some q ↦ allocate_loop fuel stride raw q
    ])
    else some (pop_head stride p)

-- Two rounds are enough: after a growth the list has a block.
pub allocate : ℕ → Option ℕ → MemoryPool → Option (ℕ × MemoryPool)
allocate stride raw p = allocate_loop 2 stride raw p

-- The CAS that makes a block the head, and the count.
pub push_head : ℕ → MemoryPool → MemoryPool
push_head index p =
    let linked = set_link index (index_of p.free_head) p in
    record linked {
      free_head = pack index (add32 (generation_of p.free_head) 1);
      allocated = sub64 p.allocated 1;
    }

-- With the assertion compiled out, an address outside the pool changes nothing.
pub deallocate : ℕ → ℕ → MemoryPool → MemoryPool
deallocate stride ptr p =
    if ptr == 0
    then p
    else let index = index_from_ptr stride p ptr in
      if index == null_index then p else push_head index p

pub block_capacity : MemoryPool → ℕ
block_capacity p = mul64 p.slab_count p.blocks_per_slab
