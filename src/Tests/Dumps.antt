-- ===== src/Tests/Dumps.antt =====
-- The theorems on the files of nugpgpu_fileops.c, on a host that opens no file.
use nugpgpu.Prelude.{ℕ, ◌+◌, ◌-◌, ◌^◌, ◌≤◌, ◌≡◌, arith, [], length, leb}
use nugpgpu.Files.{
  Thread, Files, sprintf_u, page_file_name, file_open, file_close, file_read, file_write, file_sync,
  file_dump_ptr, file_dump_page,
}
use nugpgpu.Files.Names.{page_named, page_named-file_name}
use nugpgpu.Files.Limit.{Guarded, file_ops-Guarded}

instance abbrev host : Files ℕ
host = record {
  get_ds = 2 ^ 64 - 1;
  filp_open = λ limit path flags rights w. (2 ^ 64 - 2, w);
  filp_close = λ limit file w. w;
  vfs_read = λ limit file buf size offset w. (size, w);
  vfs_write = λ limit file buf size offset w. (size, w + 1);
  vfs_fsync = λ limit file sync w. w;
  kmap = λ page w. (page + 2 ^ 47, w);
  is_err = λ a. leb (2 ^ 64 - 4095) a;
}

abbrev user_thread : Thread ℕ
user_thread = record { addr_limit = 2 ^ 47; world = 0; log = [] }

page_named-file_name_example :
    (page_named (page_file_name 4095) ≡ 4095)
    × (length (sprintf_u 4095) + 1 ≤ 100)
    × (length (page_file_name 4095) + 1 ≤ 100)
page_named-file_name_example = page_named-file_name 4095 (omega arith)

file_ops-Guarded_example :
    Guarded user_thread (file_open [] 0 0 user_thread).1
    × Guarded user_thread (file_close 0 user_thread)
    × Guarded user_thread (file_read 0 8 64 16 user_thread).1
    × Guarded user_thread (file_write 0 8 64 16 user_thread).1
    × Guarded user_thread (file_sync 0 user_thread).1
    × Guarded user_thread (file_dump_ptr 64 [] 16 user_thread)
    × Guarded user_thread (file_dump_page 7 8 user_thread)
file_ops-Guarded_example = file_ops-Guarded user_thread [] 0 0 0 8 64 16 7
