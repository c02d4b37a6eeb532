-- ===== src/Buffer/Tests.antt =====
-- Runs of the buffer operations, and the theorems about them at concrete inputs.
use mapcache.Base.{ℕ, ◌≡◌, refl, some, [], ◌∷◌, arith}
use mapcache.Buffer.{Buffer, grow, create, append, IsValid}
use mapcache.Buffer.Append.{Appended, append_total}

abbrev junk : ℕ → ℕ
junk i = 0xAA

abbrev three_bytes : Buffer
three_bytes = record { buf = 1 ∷ 2 ∷ 3 ∷ 0xAA ∷ []; size = 3; avail = 4 }

abbrev three_bytes-IsValid : IsValid three_bytes
three_bytes-IsValid = omega arith

-- Two more bytes double the four that are allocated.
append_doubles :
    append junk three_bytes (4 ∷ 5 ∷ [])
    ≡ some (record { buf = 1 ∷ 2 ∷ 3 ∷ 4 ∷ 5 ∷ 0xAA ∷ 0xAA ∷ 0xAA ∷ []; size = 5; avail = 8 }, 2)
unfolding append grow
append_doubles = refl

-- The first append to an empty buffer allocates what is asked for.
append_first :
    append junk (create junk 0) (7 ∷ 8 ∷ 9 ∷ [])
    ≡ some (record { buf = 7 ∷ 8 ∷ 9 ∷ []; size = 3; avail = 3 }, 3)
unfolding append create
append_first = refl

append_total_example :
    (b' : Buffer) × (append junk three_bytes (4 ∷ 5 ∷ []) ≡ some (b', 2))
    × Appended three_bytes (4 ∷ 5 ∷ []) b'
append_total_example = append_total junk three_bytes (4 ∷ 5 ∷ []) three_bytes-IsValid (omega arith)
