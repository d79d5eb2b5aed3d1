-- ===== src/Str.antt =====
-- The memory and string functions: src/lib/string.c. The memory is a function from addresses to
-- bytes, and a pointer is an address; a `char` is signed, and a length does not run past the end
-- of the address space. A function that writes gives the memory that it leaves, in place of its
-- first argument. A loop that only a NUL byte ends runs on fuel; no result means that it has not
-- ended.
pub mod Compare
pub mod Copy
pub mod Length
pub mod Search
mod Tests
use brainix_old.Base.{
  ◌>>=◌, ℕ, zero, suc, ◌+◌, ◌-◌, ◌%◌, Bool, true, false, ◌&&◌, ◌||◌, not, Option, none, some, ltb,
  leb, ◌==◌, if◌then◌else◌, update,
}
use brainix_old.Base.Int.{ℤ, pos, negsuc}

abbrev pub Memory : Type 0
Memory = ℕ → ℕ

-- a - b
abbrev pub diff : ℕ → ℕ → ℤ
diff a b = if leb b a then pos (a - b) else negsuc (b - a - 1)

-- The difference of two bytes that are read as signed.
abbrev pub char_diff : ℕ → ℕ → ℤ
char_diff a b = diff ((a + 128) % 256) ((b + 128) % 256)

scan : Memory → (p c n : ℕ) → Option ℕ
scan m p c zero = none
scan m p c (suc n) = let rest = scan m (p + 1) c n in if m p == c then some p else rest

unfoldable pub memchr : Memory → (s c n : ℕ) → Option ℕ
unfolding scan
memchr m s c n = scan m s (c % 256) n

unfoldable pub memcmp : Memory → (s1 s2 n : ℕ) → ℤ
memcmp m p1 p2 zero = pos 0
memcmp m p1 p2 (suc n) =
    let rest = memcmp m (p1 + 1) (p2 + 1) n in if m p1 == m p2 then rest else diff (m p1) (m p2)

unfoldable pub memcpy : Memory → (s1 s2 n : ℕ) → Memory
memcpy m p1 p2 zero = m
memcpy m p1 p2 (suc n) = memcpy (update m p1 (m p2)) (p1 + 1) (p2 + 1) n

-- The loop of `memmove` with `over == -1`.
pub copy_back : Memory → (p1 p2 n : ℕ) → Memory
copy_back m p1 p2 zero = m
copy_back m p1 p2 (suc n) = copy_back (update m p1 (m p2)) (p1 - 1) (p2 - 1) n

-- With `over == 1` the loop is that of `memcpy`.
unfoldable pub memmove : Memory → (s1 s2 n : ℕ) → Memory
unfolding copy_back
memmove m s1 s2 n =
    if leb s2 s1 && ltb s1 (s2 + n)
    then copy_back m (s1 + n - 1) (s2 + n - 1) n
    else memcpy m s1 s2 n

pub fill : Memory → (p c n : ℕ) → Memory
fill m p c zero = m
fill m p c (suc n) = fill (update m p c) (p + 1) c n

unfoldable pub memset : Memory → (s c n : ℕ) → Memory
unfolding fill
memset m s c n = fill m s (c % 256) n

-- `for (; *p; p++) ;`
unfoldable pub find_end : (fuel : ℕ) → Memory → ℕ → Option ℕ
find_end zero m p = none
find_end (suc fuel) m p = let rest = find_end fuel m (p + 1) in if m p == 0 then some p else rest

unfoldable pub strlen : (fuel : ℕ) → Memory → ℕ → Option ℕ
unfolding find_end
strlen fuel m s = elim (find_end fuel m s) [ none ↦ none | some p ↦ some (p - s) ]

-- `for (; (*p1 = *p2); p1++, p2++) ;`
unfoldable pub strcpy : (fuel : ℕ) → Memory → (s1 s2 : ℕ) → Option Memory
strcpy zero m p1 p2 = none
strcpy (suc fuel) m p1 p2 =
    let m' = update m p1 (m p2) in
    let rest = strcpy fuel m' (p1 + 1) (p2 + 1) in if m p2 == 0 then some m' else rest

unfoldable pub strcat : (fuel : ℕ) → Memory → (s1 s2 : ℕ) → Option Memory
strcat fuel m s1 s2 = elim (find_end fuel m s1) [ none ↦ none | some p1 ↦ strcpy fuel m p1 s2 ]

-- The loop ends as soon as `ret_val` is set.
find_char : (fuel : ℕ) → Memory → (p c : ℕ) → Option (Option ℕ)
find_char zero m p c = none
find_char (suc fuel) m p c =
    let rest = find_char fuel m (p + 1) c in
    if m p == 0 then some none else if m p == c then some (some p) else rest

-- The inner result is the pointer, or NULL.
unfoldable pub strchr : (fuel : ℕ) → Memory → (s c : ℕ) → Option (Option ℕ)
unfolding find_char
strchr fuel m s c = find_char fuel m s (c % 256)

find_last : (fuel : ℕ) → Memory → (p c : ℕ) → Option ℕ → Option (Option ℕ)
find_last zero m p c ret_val = none
find_last (suc fuel) m p c ret_val =
    let rest = find_last fuel m (p + 1) c (if m p == c then some p else ret_val) in
    if m p == 0 then some ret_val else rest

unfoldable pub strrchr : (fuel : ℕ) → Memory → (s c : ℕ) → Option (Option ℕ)
unfolding find_last
strrchr fuel m s c = find_last fuel m s (c % 256) none

-- What `strcmp` makes of the bytes at which its loop stops.
abbrev pub verdict : ℕ → ℕ → ℤ
verdict a b =
    if (a == 0) && not (b == 0)
    then negsuc 0
    else if not (a == 0) && (b == 0)
    then pos 1
    else diff a b

unfoldable pub strcmp : (fuel : ℕ) → Memory → (s1 s2 : ℕ) → Option ℤ
strcmp zero m p1 p2 = none
strcmp (suc fuel) m p1 p2 =
    let rest = strcmp fuel m (p1 + 1) (p2 + 1) in
    if not (m p1 == 0) && not (m p2 == 0) && (m p1 == m p2)
    then rest
    else some (verdict (m p1) (m p2))

unfoldable pub strcoll : (fuel : ℕ) → Memory → (s1 s2 : ℕ) → Option ℤ
strcoll zero m p1 p2 = none
strcoll (suc fuel) m p1 p2 =
    let rest = strcoll fuel m (p1 + 1) (p2 + 1) in
    if m p1 == m p2
    then (if m p1 == 0 then some (pos 0) else rest)
    else some (char_diff (m p1) (m p2))

unfoldable pub strncmp : Memory → (s1 s2 n : ℕ) → ℤ
strncmp m p1 p2 zero = pos 0
strncmp m p1 p2 (suc n) =
    let rest = strncmp m (p1 + 1) (p2 + 1) n in
    if not (m p1 == m p2)
    then (if (m p1 == 0) || (m p2 == 0)
        then (if m p1 == 0 then negsuc 0 else pos 1)
        else char_diff (m p1) (m p2))
    else if m p1 == 0
    then pos 0
    else rest

-- The first loop, and the second from where it stops.
unfoldable pub strncpy : Memory → (s1 s2 n : ℕ) → Memory
unfolding fill
strncpy m p1 p2 zero = m
strncpy m p1 p2 (suc n) =
    let rest = strncpy (update m p1 (m p2)) (p1 + 1) (p2 + 1) n in
    if m p2 == 0 then fill m p1 0 (suc n) else rest

-- The second loop of `strncat`, and the NUL byte behind it.
append_part : Memory → (p1 p2 n : ℕ) → Memory
append_part m p1 p2 zero = update m p1 0
append_part m p1 p2 (suc n) =
    let m' = update m p1 (m p2) in
    let rest = append_part m' (p1 + 1) (p2 + 1) n in if m p2 == 0 then m' else rest

unfoldable pub strncat : (fuel : ℕ) → Memory → (s1 s2 n : ℕ) → Option Memory
unfolding append_part
strncat fuel m s1 s2 n = elim (find_end fuel m s1) [
  | none ↦ none
  | some p1 ↦ some (append_part m p1 s2 n)
]

-- The inner loop of `strpbrk` and `strspn`: whether it stops at a byte other than NUL.
occurs : (fuel : ℕ) → Memory → (p2 c : ℕ) → Option Bool
occurs zero m p2 c = none
occurs (suc fuel) m p2 c =
    let rest = occurs fuel m (p2 + 1) c in
    if m p2 == 0 then some false else if m p2 == c then some true else rest

-- The outer loop: where it stops, at a byte that is in the string s2 or not, as `wanted` says, or
-- at the end.
span : (fuel : ℕ) → Memory → (wanted : Bool) → (p1 s2 : ℕ) → Option ℕ
unfolding occurs
span zero m wanted p1 s2 = none
span (suc fuel) m wanted p1 s2 =
    let rest = span fuel m wanted (p1 + 1) s2 in
    if m p1 == 0 then some p1 else elim (occurs (suc fuel) m s2 (m p1)) [
      | none ↦ none
      | some b ↦ if (if wanted then b else not b) then some p1 else rest
    ]

unfoldable pub strpbrk : (fuel : ℕ) → Memory → (s1 s2 : ℕ) → Option (Option ℕ)
unfolding span
strpbrk fuel m s1 s2 = elim (span fuel m true s1 s2) [
  | none ↦ none
  | some p ↦ some (if m p == 0 then none else some p)
]

unfoldable pub strspn : (fuel : ℕ) → Memory → (s1 s2 : ℕ) → Option ℕ
unfolding span
strspn fuel m s1 s2 = elim (span fuel m false s1 s2) [ none ↦ none | some p ↦ some (p - s1) ]

-- The inner loop of `strcspn`, whose body leaves it at once.
strcspn_inner : (fuel : ℕ) → Memory → (p1 p2 : ℕ) → ℕ
strcspn_inner zero m p1 p2 = p2
strcspn_inner (suc fuel) m p1 p2 =
    let rest = strcspn_inner fuel m p1 (p2 + 1) in
    if not (m p2 == m p1) && not (m p2 == 0) then (if not (m p2 == 0) then p2 else rest) else p2

-- Its outer loop, from where both pointers are.
strcspn_outer : (fuel : ℕ) → Memory → (s1 p1 p2 : ℕ) → Option ℕ
unfolding strcspn_inner
strcspn_outer zero m s1 p1 p2 = none
strcspn_outer (suc fuel) m s1 p1 p2 =
    let rest = strcspn_outer fuel m s1 (p1 + 1) (strcspn_inner (suc fuel) m p1 p2) in
    if m p1 == 0 then some (p1 - s1) else rest

unfoldable pub strcspn : (fuel : ℕ) → Memory → (s1 s2 : ℕ) → Option ℕ
unfolding strcspn_outer
strcspn fuel m s1 s2 = strcspn_outer fuel m s1 s1 s2

abbrev is_zero : ℤ → Bool
is_zero (pos n) = n == 0
is_zero (negsuc n) = false

-- The loop of `strstr`, where n is strlen(s2).
find_sub : (fuel : ℕ) → Memory → (p1 s2 n : ℕ) → Option (Option ℕ)
find_sub zero m p1 s2 n = none
find_sub (suc fuel) m p1 s2 n =
    let rest = find_sub fuel m (p1 + 1) s2 n in
    if is_zero (strncmp m p1 s2 n) then some (if m p1 == 0 then none else some p1) else rest

-- It does not stop at the end of s1.
unfoldable pub strstr : (fuel : ℕ) → Memory → (s1 s2 : ℕ) → Option (Option ℕ)
unfolding find_sub
strstr fuel m s1 s2 = do n ← strlen fuel m s2; find_sub fuel m s1 s2 n
