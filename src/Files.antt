-- ===== src/Files.antt =====
-- nugpgpu_fileops.c and nugpgpu_fileops.h: files of the host, read and written from the kernel. The
-- state is the address limit of the thread, which get_fs and set_fs read and set.
pub mod Names
pub mod Limit
use nugpgpu.Prelude.{
  ℕ, zero, suc, ◌+◌, ◌/◌, ◌%◌, ◌^◌, Bool, List, [], ◌∷◌, ◌++◌, if◌then◌else◌, ◌==◌, bit_or,
}

-- The calls of the kernel, each with the address limit under which it is made.
pub data FileEvent : Type 0 where
  filp_opened : ℕ → List ℕ → ℕ → ℕ → FileEvent
  filp_closed : ℕ → ℕ → FileEvent
  vfs_was_read : ℕ → ℕ → ℕ → ℕ → ℕ → FileEvent
  vfs_was_written : ℕ → ℕ → ℕ → ℕ → ℕ → FileEvent
  vfs_fsynced : ℕ → ℕ → ℕ → FileEvent
  page_mapped : ℕ → FileEvent

pub record Thread (W : Type 0) : Type 0 where
  pub addr_limit : ℕ
  pub world : W
  pub log : List FileEvent

-- What nugpgpu_fileops.c takes from the kernel. The calls see the address limit; vfs_read and
-- vfs_write give a `ssize_t` by its bit pattern.
pub record Files (W : Type 0) : Type 0 where
  pub get_ds : ℕ
  pub filp_open : ℕ → List ℕ → ℕ → ℕ → W → ℕ × W
  pub filp_close : ℕ → ℕ → W → W
  pub vfs_read : ℕ → ℕ → ℕ → ℕ → ℕ → W → ℕ × W
  pub vfs_write : ℕ → ℕ → ℕ → ℕ → ℕ → W → ℕ × W
  pub vfs_fsync : ℕ → ℕ → ℕ → W → W
  pub kmap : ℕ → W → ℕ × W
  pub is_err : ℕ → Bool

abbrev pub page_size : ℕ
page_size = 4096

-- O_CREAT | O_RDWR | O_TRUNC
abbrev pub dump_flags : ℕ
dump_flags = bit_or (bit_or 0x40 0x2) 0x200

abbrev pub set_fs : {W : Type 0} → ℕ → Thread W → Thread W
set_fs limit t = record t { addr_limit = limit }

-- The decimal digits of `sprintf` for "%u", the last first, before those of `out`.
pub digits : ℕ → ℕ → List ℕ → List ℕ
digits zero n out = out
digits (suc fuel) n out =
    let rest = digits fuel (n / 10) ((b'0' + n % 10) ∷ out) in if n == 0 then out else rest

-- An `unsigned` has ten digits at most.
pub sprintf_u : ℕ → List ℕ
sprintf_u n = if n == 0 then b'0' ∷ [] else digits 10 n []

abbrev pub dump_file_name : List ℕ
dump_file_name = b'/' ∷ b't' ∷ b'm' ∷ b'p' ∷ b'/' ∷ b'p' ∷ b'a' ∷ b'g' ∷ b'e' ∷ b'_' ∷ []

-- `file_name` of file_dump_page, without the zero at its end
pub page_file_name : ℕ → List ℕ
page_file_name offset = dump_file_name ++ sprintf_u offset

module _ {W : Type 0} ⦃f : Files W⦄ where
  -- Under the limit of the thread, the call `op` and its event.
  abbrev pub request : (ℕ → W → ℕ × W) → (ℕ → FileEvent) → Thread W → ℕ × Thread W
  request op event t =
      let r = op t.addr_limit t.world in
      (r.0, record t { world = r.1; log = event t.addr_limit ∷ t.log })

  pub file_open : List ℕ → ℕ → ℕ → Thread W → ℕ × Thread W
  file_open path flags rights t =
      let oldfs = t.addr_limit in
      let (filp, u) =
        request (λ l. f.filp_open l path flags rights) (λ l. filp_opened l path flags rights)
          (set_fs f.get_ds t) in
      (if f.is_err filp then 0 else filp, set_fs oldfs u)

  pub file_close : ℕ → Thread W → Thread W
  file_close file t = (request (λ l w. (0, f.filp_close l file w)) (λ l. filp_closed l file) t).1

  pub file_read : ℕ → ℕ → ℕ → ℕ → Thread W → ℕ × Thread W
  file_read file offset buf size t =
      let oldfs = t.addr_limit in
      let (ret, u) =
        request (λ l. f.vfs_read l file buf size offset) (λ l. vfs_was_read l file buf size offset)
          (set_fs f.get_ds t) in
      (ret % 2 ^ 32, set_fs oldfs u)

  pub file_write : ℕ → ℕ → ℕ → ℕ → Thread W → ℕ × Thread W
  file_write file offset buf size t =
      let oldfs = t.addr_limit in
      let (ret, u) =
        request (λ l. f.vfs_write l file buf size offset)
          (λ l. vfs_was_written l file buf size offset) (set_fs f.get_ds t) in
      (ret % 2 ^ 32, set_fs oldfs u)

  pub file_sync : ℕ → Thread W → ℕ × Thread W
  file_sync file t =
      (0, (request (λ l w. (0, f.vfs_fsync l file 0 w)) (λ l. vfs_fsynced l file 0) t).1)

  pub file_dump_ptr : ℕ → List ℕ → ℕ → Thread W → Thread W
  file_dump_ptr ptr file_name size t =
      let (flip, a) = file_open file_name dump_flags 0 t in
      let b = (file_write flip 0 ptr size a).1 in file_close flip (file_sync flip b).1

  pub file_dump_page : ℕ → ℕ → Thread W → Thread W
  file_dump_page page offset t =
      let file_name = page_file_name offset in
      let (ptr, a) = request (λ l. f.kmap page) (λ l. page_mapped page) t in
      file_dump_ptr ptr file_name page_size a
