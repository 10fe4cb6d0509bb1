-- ===== src/Main/Sizing.antt =====
-- The size of the cache that `main` chooses.
use ece566_project.Prelude.{ℕ, ◌+◌, ◌≤◌, ◌<◌, ◌⊎◌, some, arith}
use ece566_project.Prelude.Int.{word}
use ece566_project.Main.{choose_cache_size}

-- Where the free space is known, and fits a `size_t`, the cache is no larger than what the user
-- asks for and than the free space, and it leaves 100 KiB free unless no more than that is free.
pub choose_cache_size_fits :
    (avail user : ℕ)
    → avail < word
    → (choose_cache_size (some avail) user ≤ user)
      × (choose_cache_size (some avail) user ≤ avail)
      × ((choose_cache_size (some avail) user + 100 ≤ avail) ⊎ (avail ≤ 100))
unfolding choose_cache_size
choose_cache_size_fits avail user h = ground arith
