-- ===== src/Shm/Node.antt =====
-- The nodes of kernel/fs/shmfs.c: shmfs_ioctl, shmfs_close, shmfs_create_memfd and shmfs_finddir.
--
-- A node stands for an open file, and its object beside it. The functions of a node and the other
-- constants of its fields are left out.
use eter_os.Base.{
  ℕ, ◌^◌, ◌%◌, Bool, true, false, ◌&&◌, Option, none, some, List, [], ◌∷◌, ◌==◌, if◌then◌else◌,
  length, sub32,
}
use eter_os.Pmm.{Pmm}
use eter_os.Vfs.{strlcpy}
use eter_os.Shm.{Object, Machine, Truncated, free_pages, shmfs_truncate}
use eter_os.Shm.Directory.{name_size, new_object, shm_find_object}

pub record Node : Type 0 where
  pub name : List ℕ
  pub length : ℕ

pub data Request : Type 0 where
  set_name get_name set_size get_size set_prot_mask get_prot_mask get_pin_status pin unpin unknown :
      Request

-- The numbers of linux_compat.h.
unfoldable pub request_of : ℕ → Request
request_of request =
    if request == 0x41007701
    then set_name
    else if request == 0x81007702
    then get_name
    else if request == 0x40087703
    then set_size
    else if request == 0x7704
    then get_size
    else if request == 0x40087705
    then set_prot_mask
    else if request == 0x7706
    then get_prot_mask
    else if request == 0x40087708
    then pin
    else if request == 0x40087709
    then unpin
    else if request == 0x7707
    then get_pin_status
    else unknown

-- `text`: what the caller gets in its buffer.
pub data Reply : Type 0 where
  value : (result : ℕ) → Reply
  text : (name : List ℕ) → Reply
  bad_address not_a_request : Reply

pub record Opened : Type 0 where
  pub node : Node
  pub object : Object
  pub machine : Machine

-- What the user's memory gives: the string that `vmm_strncpy_from_user` reads, if it can, and whether
-- `vmm_verify_user_access` lets the kernel write.
pub record User : Type 0 where
  pub string : Option (List ℕ)
  pub writable : Bool

-- ASHMEM_IS_PINNED or ASHMEM_IS_UNPINNED.
abbrev pub pin_status : Object → ℕ
pin_status obj = if obj.is_pinned then 1 else 0

-- `shmfs_ioctl` by the request.
unfoldable pub answer : (locked array : Bool) → User → Request → (arg : ℕ) → Opened → Reply × Opened
unfolding shmfs_truncate
answer locked array user set_name arg s = elim user.string [
  | none ↦ (if arg == 0 then value 0 else bad_address, s)
  | some name ↦ (
    value 0,
    if arg == 0 then s else record s { node = record s.node { name = strlcpy name name_size } },
  )
]
answer locked array user get_name arg s =
    (if arg == 0 then value 0 else if user.writable then text s.node.name else bad_address, s)
answer locked array user set_size arg s =
    let new_length = arg % 2 ^ 32 in
    let (status, obj, m) = shmfs_truncate locked array new_length s.object s.machine in
    (
      value 0,
      record {
        node = elim status [
          | Truncated.done ↦ record s.node { length = new_length }
          | Truncated.no_memory ↦ s.node
        ];
        object = obj;
        machine = m;
      },
    )
answer locked array user get_size arg s = (value s.node.length, s)
answer locked array user set_prot_mask arg s =
    (value 0, record s { object = record s.object { prot_mask = arg % 2 ^ 32 } })
answer locked array user get_prot_mask arg s = (value s.object.prot_mask, s)
answer locked array user pin arg s =
    (value (pin_status s.object), record s { object = record s.object { is_pinned = true } })
answer locked array user unpin arg s =
    (value (pin_status s.object), record s { object = record s.object { is_pinned = false } })
answer locked array user get_pin_status arg s = (value (pin_status s.object), s)
answer locked array user unknown arg s = (not_a_request, s)

unfoldable pub shmfs_ioctl :
    (locked array : Bool) → User → (request arg : ℕ) → Opened → Reply × Opened
unfolding answer request_of
shmfs_ioctl locked array user request arg s = answer locked array user (request_of request) arg s

-- The object with one reference less, or `none` where that frees it.
unfoldable pub shmfs_close : Object → Pmm → Option Object × Pmm
unfolding free_pages
shmfs_close obj p =
    let ref_count = sub32 obj.ref_count 1 in
    if ref_count == 0 && (length obj.name == 0)
    then (none, free_pages obj.pages p)
    else (some (record obj { ref_count = ref_count }), p)

-- The two flags say whether `kmalloc` finds memory for the object and for the node; `name` is none
-- for NULL.
unfoldable pub shmfs_create_memfd :
    (object_memory node_memory : Bool) → (name : Option (List ℕ)) → Option (Node × Object)
unfolding new_object
shmfs_create_memfd object_memory node_memory name =
    let shown : List ℕ = elim name [ none ↦ 109 ∷ 101 ∷ 109 ∷ 102 ∷ 100 ∷ [] | some n ↦ n ] in
    if object_memory && node_memory
    then some (record { name = strlcpy shown name_size; length = 0 }, new_object [])
    else none

unfoldable pub shmfs_finddir :
    (memory : Bool) → (name : List ℕ) → List Object → Option (Node × Object)
unfolding shm_find_object
shmfs_finddir memory name objects = elim (shm_find_object name objects) [
  | none ↦ none
  | some obj ↦
      if memory
      then some (record { name = strlcpy name name_size; length = obj.size }, obj)
      else none
]
