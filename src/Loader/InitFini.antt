-- ===== src/Loader/InitFini.antt =====
-- `collect_init_fini` of src/loader.rs: the functions to run before and after an object.
use xob.Base.{
  ℕ, zero, suc, ◌+◌, ◌/◌, ◌%◌, ◌^◌, List, [], ◌∷◌, ◌++◌, Option, none, some, ◌==◌, if◌then◌else◌,
}
use xob.Memory.{Memory, read_u64}

abbrev pub dt_init : ℕ
dt_init = 12

abbrev pub dt_fini : ℕ
dt_fini = 13

abbrev pub dt_init_array : ℕ
dt_init_array = 25

abbrev pub dt_fini_array : ℕ
dt_fini_array = 26

abbrev pub dt_init_arraysz : ℕ
dt_init_arraysz = 27

abbrev pub dt_fini_arraysz : ℕ
dt_fini_arraysz = 28

pub record Dynamic : Type 0 where
  pub tag : ℕ
  pub val : ℕ

-- The local variables of the function.
pub record InitFini : Type 0 where
  pub init_array : List ℕ
  pub fini_array : List ℕ
  pub init_array_size : Option ℕ
  pub fini_array_size : Option ℕ
  pub init_array_ptr : Option ℕ
  pub fini_array_ptr : Option ℕ

unfoldable pub read_tag : InitFini → ℕ → Dynamic → InitFini
read_tag s base_addr dynamic =
    let addr_val = (base_addr + dynamic.val) % 2 ^ 64 in
    if dynamic.tag == dt_init
    then record s { init_array = addr_val ∷ s.init_array }
    else if dynamic.tag == dt_fini
    then record s { fini_array = addr_val ∷ s.fini_array }
    else if dynamic.tag == dt_init_array
    then record s { init_array_ptr = some addr_val }
    else if dynamic.tag == dt_fini_array
    then record s { fini_array_ptr = some addr_val }
    else if dynamic.tag == dt_init_arraysz
    then record s { init_array_size = some dynamic.val }
    else if dynamic.tag == dt_fini_arraysz
    then record s { fini_array_size = some dynamic.val }
    else s

unfoldable pub read_tags : InitFini → ℕ → List Dynamic → InitFini
unfolding read_tag
read_tags s base_addr [] = s
read_tags s base_addr (dynamic ∷ dynamics) =
    read_tags (read_tag s base_addr dynamic) base_addr dynamics

-- `n` pointers from an address on.
unfoldable pub read_pointers : Memory → ℕ → ℕ → List ℕ
read_pointers m zero ptr = []
read_pointers m (suc n) ptr = read_u64 m ptr ∷ read_pointers m n (ptr + 8)

unfoldable pub read_array : Memory → Option ℕ → Option ℕ → List ℕ
unfolding read_pointers
read_array m (some size) (some ptr) = read_pointers m (size / 8) ptr
read_array m (some size) none = []
read_array m none ptr = []

unfoldable pub collect_init_fini : Memory → List Dynamic → ℕ → List ℕ × List ℕ
unfolding read_tags read_array
collect_init_fini m dynamics base_addr =
    let found =
      read_tags
        (record {
          init_array = [];
          fini_array = [];
          init_array_size = none;
          fini_array_size = none;
          init_array_ptr = none;
          fini_array_ptr = none;
        })
        base_addr dynamics in
    (
      found.init_array ++ read_array m found.init_array_size found.init_array_ptr,
      found.fini_array ++ read_array m found.fini_array_size found.fini_array_ptr,
    )
