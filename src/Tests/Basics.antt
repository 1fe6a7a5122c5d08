-- ===== src/Tests/Basics.antt =====
-- The binary search, the masks and the times.
use ip_noise.BinarySearch.{bsearch}
use ip_noise.BinarySearch.Laws.{Finds, bsearch-Finds}
use ip_noise.Common.{ℕ, ◌≡◌, refl, true, some, List, [], ◌∷◌, arith}
use ip_noise.Common.Int.{pos}
use ip_noise.Iface.Operations.{operations, opcode_compare, find_operation}
use ip_noise.Iface.Operations.Search.{row_of, table-IsOrdered, find_operation-row_of}
use ip_noise.Mask.{test_mask, change_mask}
use ip_noise.Mask.Laws.{AllBytes, test_mask-change_mask}
use ip_noise.Model.{Timeval}

bsearch-Finds_example :
    Finds (opcode_compare 0xE) operations (bsearch (opcode_compare 0xE) operations)
bsearch-Finds_example = bsearch-Finds (opcode_compare 0xE) operations (table-IsOrdered 0xE)

find_operation-row_of_example : find_operation 0x11 ≡ some (row_of operations 0x11)
find_operation-row_of_example = find_operation-row_of 0x11

abbrev mask : List ℕ
mask = 5 ∷ 0 ∷ []

mask-AllBytes : AllBytes mask
mask-AllBytes = (omega arith, (omega arith, tt))

test_mask-change_mask_example : test_mask (change_mask mask 9 true) 2 ≡ some true
unfolding test_mask
test_mask-change_mask_example =
    test_mask-change_mask mask 9 true mask-AllBytes (omega arith) 2 true refl

abbrev time : ℕ → ℕ → Timeval
time s u = record { sec = pos s; usec = pos u }
