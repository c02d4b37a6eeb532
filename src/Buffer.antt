-- ===== src/Buffer.antt =====
-- Growable byte buffers: lib/buffer.c and `struct mapcache_buffer` of include/mapcache.h. Memory is a
-- list of `avail` bytes; what malloc and realloc leave in new memory is the argument `garbage`.
-- `size_t` has 64 bits.
pub mod Growth
pub mod Append
mod Tests
use mapcache.Base.{
  ℕ, zero, suc, ◌+◌, ◌-◌, ◌%◌, ◌^◌, ◌≤◌, ◌≡◌, Bool, Option, none, some, List, [], ◌∷◌, ◌++◌, ltb,
  ◌==◌, if◌then◌else◌, ◌>>=◌, length, take, drop,
}

pub record Buffer : Type 0 where
  pub buf : List ℕ
  pub size : ℕ
  pub avail : ℕ

abbrev pub size_mod : ℕ
size_mod = 2 ^ 64

-- The bytes that are in use.
abbrev pub contents : Buffer → List ℕ
contents b = take b.size b.buf

pub record IsValid (b : Buffer) : Type 0 where
  pub within : b.size ≤ b.avail
  pub allocated : length b.buf ≡ b.avail

-- `n` bytes of new memory, from the offset `i` on
pub tabulate : (ℕ → ℕ) → ℕ → ℕ → List ℕ
tabulate garbage i zero = []
tabulate garbage i (suc n) = garbage i ∷ tabulate garbage (i + 1) n

-- memcpy to the offset `i`
abbrev pub write_at : List ℕ → ℕ → List ℕ → List ℕ
write_at memory i bytes = take i memory ++ (bytes ++ drop (i + length bytes) memory)

-- `while (len > avail) avail += avail`, on fuel
pub grow : ℕ → ℕ → ℕ → Option ℕ
grow zero len avail = none
grow (suc fuel) len avail =
    let rest = grow fuel len ((avail + avail) % size_mod) in
    if ltb avail len then rest else some avail

pub create : (ℕ → ℕ) → ℕ → Buffer
unfolding tabulate
create garbage n = record { buf = tabulate garbage 0 n; size = 0; avail = n }

pub realloc : (ℕ → ℕ) → Buffer → ℕ → Option Buffer
unfolding tabulate
realloc garbage b len =
    if b.avail == 0 then some (record b { buf = tabulate garbage 0 len; avail = len }) else do
      n ← grow (suc len) len b.avail
      some (record b { buf = b.buf ++ tabulate garbage b.avail (n - b.avail); avail = n })

-- The copy and the new size, once there is room.
abbrev copy_in : Buffer → List ℕ → Buffer
copy_in b bytes = record b {
  buf = write_at b.buf b.size bytes;
  size = (b.size + length bytes) % size_mod;
}

-- `none` is a loop in `realloc` that does not end.
pub append : (ℕ → ℕ) → Buffer → List ℕ → Option (Buffer × ℕ)
unfolding realloc
append garbage b bytes = do
  let total = (b.size + length bytes) % size_mod
  b' ← if ltb b.avail total then realloc garbage b total else some b
  some (copy_in b' bytes, length bytes)
