-- ===== src/Tests/Allocators.antt =====
-- Runs of src/mirrored/sysv.rs, winapi.rs and macos.rs: systems with pages of four bytes, which place
-- 16 bytes at 4096.
use slice_deque.Common.{
  ℕ, ◌+◌, ◌<◌, ◌≡◌, refl, true, false, Bool, arith, none, some, [], ◌∷◌, leb, ◌==◌, ◌&&◌,
  if◌then◌else◌, done, failed, and_then,
}
use slice_deque.Mirrored.Buffer.{oom, other}
use slice_deque.Mirrored.Space.{
  Trace, Allocated, opened, closed, reserved, mapped, unmapped, remapped, refused, backing, byte,
  is_open,
}
use slice_deque.Mirrored.Space.Rounds.{next_round}
use slice_deque.Mirrored.Sysv
use slice_deque.Mirrored.Sysv.Release.{attached_memory-Allocated}
use slice_deque.Mirrored.Winapi
use slice_deque.Mirrored.Winapi.Release.{file_views-Allocated, allocate_mirrored-refused}
use slice_deque.Mirrored.Macos
use slice_deque.Mirrored.Macos.Mirror.{memory_entry-Released, allocate_mirrored-overwrite}

-- System V: shared memory 7, of which the second half can be attached from the second round on.
abbrev sysv : Sysv.Kernel
sysv = record {
  page_size = 4;
  shmget = λ bytes. some 7;
  shmctl = λ id. true;
  mmap = λ round size. some 4096;
  munmap = λ p bytes. true;
  shmat = λ round p. if leb round 1 && (p == 4104) then none else some p;
  shmdt = λ p. true;
}

shmat-there : (round p r : ℕ) (b : Bool) → (if b then none else some p) ≡ some r → r ≡ p
shmat-there round p r true e = cc
shmat-there round p r false e = cc

sysv-Obliging : Sysv.Mirror.Obliging sysv 16
sysv-Obliging = record {
  removes = λ id. refl;
  unmaps = λ p bytes. refl;
  detaches = λ p. refl;
  attaches = λ round p r e. shmat-there round p r (leb round 1 && (p == 4104)) e;
  placed = λ round p e. let same : p ≡ 4096 = cc in (omega arith, omega arith);
}

-- The second round succeeds, and leaves the maps alone.
abbrev sysv_calls : Trace
sysv_calls =
    closed 7
    ∷ mapped 4104 8 7
    ∷ mapped 4096 8 7
    ∷ unmapped 4096 16
    ∷ reserved 4096 16
    ∷ unmapped 4096 8
    ∷ refused
    ∷ mapped 4096 8 7
    ∷ unmapped 4096 16
    ∷ reserved 4096 16
    ∷ opened 7
    ∷ []

attached_memory-Allocated_example : Allocated [] 16 (Sysv.allocate_mirrored sysv 16 [])
attached_memory-Allocated_example =
    attached_memory-Allocated sysv [] 16 sysv-Obliging refl (omega arith) refl

-- Windows: file mapping 7; regions are found as `finds` says.
abbrev winapi : Bool → Winapi.Kernel
winapi finds = record {
  page_size = 2;
  allocation_granularity = 4;
  create_file_mapping_w = λ high low. some 7;
  close_handle = λ h. true;
  virtual_alloc = λ round size. if finds then some 4096 else none;
  virtual_free = λ p. true;
  map_view_of_file_ex = λ round h bytes p. some p;
  unmap_view_of_file = λ p. true;
}

found_at : (finds : Bool) (p : ℕ) → (if finds then some 4096 else none) ≡ some p → p ≡ 4096
found_at true p e = cc
found_at false p e = cc

winapi-Obliging : (finds : Bool) → Winapi.Mirror.Obliging (winapi finds) 16
winapi-Obliging finds = record {
  closes = λ h. refl;
  frees = λ p. refl;
  unmaps = λ p. refl;
  handles = λ high low h e. let same : h ≡ 7 = cc in omega arith;
  maps = λ round h bytes p r e. cc;
  placed = λ round p e. let same = found_at finds p e in (omega arith, omega arith);
}

winapi-Mirrorable : (finds : Bool) → Winapi.Mirror.Mirrorable (winapi finds) 16
winapi-Mirrorable finds = record { even = refl; some_size = omega arith; whole = refl }

abbrev winapi_calls : Trace
winapi_calls =
    closed 7
    ∷ mapped 4104 8 7
    ∷ mapped 4096 8 7
    ∷ unmapped 4096 16
    ∷ reserved 4096 16
    ∷ opened 7
    ∷ []

maps_views : Winapi.allocate_mirrored (winapi true) 16 [] ≡ done winapi_calls 4096
unfolding Winapi.allocate_mirrored Winapi.create_file_mapping Winapi.file_mapping_created
    Winapi.with_file_mapping Winapi.map_loop Winapi.reserve_virtual_memory Winapi.region_found
    Winapi.map_both Winapi.first_half_mapped Winapi.second_half_mapped Winapi.map_view_of_file
    Winapi.view_mapped Winapi.close_after Winapi.close_file_mapping Winapi.expect and_then
    next_round
maps_views = refl

file_views-Allocated_example : Allocated [] 16 (Winapi.allocate_mirrored (winapi true) 16 [])
file_views-Allocated_example =
    file_views-Allocated (winapi true) 16 (winapi-Obliging true) (winapi-Mirrorable true) []
      (λ round. (4096, refl))

allocate_mirrored-refused_example :
    (t : Trace) × (Winapi.allocate_mirrored (winapi false) 16 [] ≡ failed t oom)
    × (is_open t 7 ≡ true)
allocate_mirrored-refused_example =
    allocate_mirrored-refused (winapi false) 16 (winapi-Obliging false) (winapi-Mirrorable false) []
      7 refl refl

-- macOS: memory entry 7; the second allocation is granted as `overwrites` says.
abbrev macos : Bool → Macos.Kernel
macos overwrites = record {
  vm_page_size = 4;
  mach_vm_allocate = λ bytes. some 4096;
  mach_vm_allocate_fixed = λ p bytes. overwrites;
  mach_make_memory_entry = λ bytes p. some 7;
  mach_vm_remap = λ to bytes from. true;
  mach_vm_deallocate = λ p bytes. true;
}

macos-Obliging : (overwrites : Bool) → Macos.Mirror.Obliging (macos overwrites) 16
macos-Obliging overwrites = record {
  deallocates = λ p bytes. refl;
  placed = λ p e. let same : p ≡ 4096 = cc in (omega arith, omega arith);
}

macos-Mirrorable : (overwrites : Bool) → Macos.Mirror.Mirrorable (macos overwrites) 16
macos-Mirrorable overwrites = record { even = refl; some_size = omega arith; whole = refl }

abbrev macos_calls : Trace
macos_calls = remapped 4104 8 4096 ∷ opened 7 ∷ mapped 4096 8 4096 ∷ mapped 4096 16 4096 ∷ []

remaps_half : Macos.allocate_mirrored (macos true) 16 [] ≡ done macos_calls 4096
unfolding Macos.allocate_mirrored Macos.allocated_all Macos.split_first Macos.entry_made
    Macos.remap_second
remaps_half = refl

allocate_mirrored-overwrite_example :
    (t : Trace) × (Macos.allocate_mirrored (macos false) 16 [] ≡ failed t other)
    × ((i : ℕ) → i < 16 → backing t (4096 + i) ≡ some (byte 4096 i))
allocate_mirrored-overwrite_example =
    allocate_mirrored-overwrite (macos false) 16 (macos-Obliging false) (macos-Mirrorable false) []
      4096 refl refl
