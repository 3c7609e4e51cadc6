-- ===== src/Execbuffer.antt =====
-- nugpgpu_execbuffer.c and nugpgpu_execbuffer.h, whose functions announce themselves and succeed.
use nugpgpu.Prelude.{ℕ}
use nugpgpu.Machine.{M, ◌>>◌, pure, trace_in, trace_out}

module _ {W : Type 0} where
  abbrev pub nugpgpu_execbuffer_init : M W ℕ
  nugpgpu_execbuffer_init = do trace_in; trace_out; pure 0

  abbrev pub nugpgpu_execbuffer_exec : ℕ → M W ℕ
  nugpgpu_execbuffer_exec ring_id = do trace_in; trace_out; pure 0
