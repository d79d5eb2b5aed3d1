-- ===== src/Str/Tests.antt =====
-- A memory with two strings, and the theorems of the string functions on it.
use brainix_old.Base.{◌≡◌, refl, ◌==◌, if◌then◌else◌, arith, inl}
use brainix_old.Str.{Memory, memcpy, memmove, strlen, strcspn}
use brainix_old.Str.Search.{strcspn-strlen}
use brainix_old.Str.Copy.{memcpy_lem, memmove_lem}
use brainix_old.Str.Length.{IsString}

-- "ab" at 10 and "ac" at 20.
abbrev memory : Memory
memory a =
    if a == 10
    then 97
    else if a == 11
    then 98
    else if a == 20
    then 97
    else if a == 21
    then 99
    else 0

memory_10 : IsString memory 10 2
memory_10 = record { nonzero = λ i lt. ground arith; ends = refl }

memcpy_lem_example : memcpy memory 5 10 3 6 ≡ 98
memcpy_lem_example = memcpy_lem memory 5 10 3 6 (inl (omega arith))

memmove_lem_example : memmove memory 11 10 3 12 ≡ 98
memmove_lem_example = memmove_lem memory 11 10 3 12

strcspn-strlen_example : strcspn 3 memory 10 20 ≡ strlen 3 memory 10
strcspn-strlen_example = strcspn-strlen 3 memory 10 20 2 memory_10 (omega arith)
