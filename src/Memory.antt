-- ===== src/Memory.antt =====
-- The allocator as the library sees it: any call of `malloc`, `realloc` or `strdup` may return NULL.
-- Which calls do is an argument of the model.
use libsqfs.Prelude.{ℕ, ◌+◌, ◌≡◌, Bool, true}

-- `grant n` tells whether the n-th call returns storage, and `calls` counts the calls made.
pub record Memory : Type 0 where
  pub grant : ℕ → Bool
  pub calls : ℕ

-- Whether the call returned storage.
abbrev pub malloc : Memory → Bool × Memory
malloc mem = (mem.grant mem.calls, record mem { calls = mem.calls + 1 })

-- Every call from now on returns storage.
abbrev pub IsPlentiful : Memory → Type 0
IsPlentiful mem = (n : ℕ) → mem.grant n ≡ true

-- An allocator that never fails, and one that fails from its n-th call on.
abbrev pub unlimited : Memory
unlimited = record { grant = λ n. true; calls = 0 }
