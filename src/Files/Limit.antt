-- ===== src/Files/Limit.antt =====
-- nugpgpu_fileops.c: under which address limit the kernel is called.
use nugpgpu.Prelude.{ℕ, ◌≡◌, refl, List, [], ◌∷◌, ◌++◌}
use nugpgpu.Files.{
  FileEvent, filp_opened, filp_closed, vfs_was_read, vfs_was_written, vfs_fsynced, page_mapped,
  Thread, Files, file_open, file_close, file_read, file_write, file_sync, file_dump_ptr,
  file_dump_page,
}

-- A call that takes addresses of the kernel is made under the limit `ds`, any other under `limit`.
abbrev pub IsLimited : ℕ → ℕ → FileEvent → Type 0
IsLimited ds limit (filp_opened l path flags rights) = l ≡ ds
IsLimited ds limit (filp_closed l file) = l ≡ limit
IsLimited ds limit (vfs_was_read l file buf size offset) = l ≡ ds
IsLimited ds limit (vfs_was_written l file buf size offset) = l ≡ ds
IsLimited ds limit (vfs_fsynced l file sync) = l ≡ limit
IsLimited ds limit (page_mapped page) = Unit {0}

abbrev pub AllLimited : ℕ → ℕ → List FileEvent → Type 0
AllLimited ds limit [] = Unit {0}
AllLimited ds limit (e ∷ l) = IsLimited ds limit e × AllLimited ds limit l

module _ {W : Type 0} ⦃f : Files W⦄ where
  -- From `t` to `u` the limit is restored, and each call was made under the right one.
  abbrev pub Guarded : Thread W → Thread W → Type 0
  Guarded t u =
      (u.addr_limit ≡ t.addr_limit)
      × ((new : List FileEvent) × (u.log ≡ new ++ t.log) × AllLimited f.get_ds t.addr_limit new)

  -- Every function of nugpgpu_fileops.c leaves the address limit of the thread as it found it,
  -- whether or not the file could be opened, and calls filp_open, vfs_read and vfs_write under the
  -- kernel's limit and filp_close and vfs_fsync under the thread's own.
  pub file_ops-Guarded :
      (t : Thread W) (path : List ℕ) (flags rights file offset buf size page : ℕ)
      → Guarded t (file_open path flags rights t).1
        × Guarded t (file_close file t)
        × Guarded t (file_read file offset buf size t).1
        × Guarded t (file_write file offset buf size t).1
        × Guarded t (file_sync file t).1
        × Guarded t (file_dump_ptr buf path size t)
        × Guarded t (file_dump_page page offset t)
  unfolding file_open file_close file_read file_write file_sync file_dump_ptr file_dump_page
  file_ops-Guarded t path flags rights file offset buf size page = (
    (refl, (_ ∷ [], refl, (refl, tt))),
    (refl, (_ ∷ [], refl, (refl, tt))),
    (refl, (_ ∷ [], refl, (refl, tt))),
    (refl, (_ ∷ [], refl, (refl, tt))),
    (refl, (_ ∷ [], refl, (refl, tt))),
    (refl, (_ ∷ _ ∷ _ ∷ _ ∷ [], refl, (refl, (refl, (refl, (refl, tt)))))),
    (refl, (_ ∷ _ ∷ _ ∷ _ ∷ _ ∷ [], refl, (refl, (refl, (refl, (refl, (tt, tt))))))),
  )
