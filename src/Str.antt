-- ===== src/Str.antt =====
-- The string library, kernel/src/generic/forslib/string.c. An object in memory is the list of its
-- bytes, a pointer into it the list from that byte on; a returned pointer is given as its distance
-- from the argument that it points into, and NULL as `none`. A read or a write past the end of the
-- object is a fault. A `char` is signed, as on x86-64.
pub mod Length
pub mod Search
pub mod Copy
pub mod Compare
use fors_kernel.Prelude.{
  ℕ, zero, suc, ◌+◌, ◌-◌, min, Bool, true, false, Option, none, some, List, [], ◌∷◌, ltb, ◌==◌,
  if◌then◌else◌, drop, Run, ok, fault, out_of_fuel, ◌>>=◌,
}
use fors_kernel.Prelude.Int.{ℤ, pos, negsuc, ◌-ℤ◌}

-- The value of a byte as a signed `char`.
unfoldable pub schar : ℕ → ℤ
schar b = if ltb b 128 then pos b else negsuc (255 - b)

-- `==` between two integers.
abbrev pub eq_int : ℤ → ℤ → Bool
eq_int (pos a) (pos b) = a == b
eq_int (negsuc a) (negsuc b) = a == b
eq_int (pos a) (negsuc b) = false
eq_int (negsuc a) (pos b) = false

-- What a loop over the rest of an object finds: moves the index found on by one.
abbrev pub shift : Run (Option ℕ) → Run (Option ℕ)
shift (ok (some i)) = ok (some (suc i))
shift (ok none) = ok none
shift fault = fault
shift out_of_fuel = out_of_fuel

unfoldable pub memchr : List ℕ → ℤ → ℕ → Run (Option ℕ)
memchr m c zero = ok none
memchr [] c (suc n) = fault
memchr (b ∷ m) c (suc n) =
    let rest = memchr m c n in if eq_int (schar b) c then ok (some 0) else shift rest

-- The loop of `memrchr`, for `i` from `n - 1` down to 0.
unfoldable pub memrchr : List ℕ → ℤ → ℕ → Run (Option ℕ)
memrchr m c zero = ok none
memrchr m c (suc i) =
    let rest = memrchr m c i in
    elim (drop i m) [ [] ↦ fault | b ∷ _ ↦ if eq_int (schar b) c then ok (some i) else rest ]

unfoldable pub memcmp : List ℕ → List ℕ → ℕ → Run ℤ
memcmp a b zero = ok (pos 0)
memcmp [] b (suc n) = fault
memcmp (x ∷ a) [] (suc n) = fault
memcmp (x ∷ a) (y ∷ b) (suc n) =
    let rest = memcmp a b n in if x == y then rest else ok (schar x -ℤ schar y)

-- Puts a byte in front of what a loop over the rest of the destination leaves there.
abbrev pub written : ℕ → Run (List ℕ) → Run (List ℕ)
written b (ok d) = ok (b ∷ d)
written b fault = fault
written b out_of_fuel = out_of_fuel

-- The destination, of which `dest` is returned, after the copy.
unfoldable pub memcpy : List ℕ → List ℕ → ℕ → Run (List ℕ)
memcpy d s zero = ok d
memcpy [] s (suc n) = fault
memcpy (x ∷ d) [] (suc n) = fault
memcpy (x ∷ d) (b ∷ s) (suc n) = written b (memcpy d s n)

unfoldable pub memset : List ℕ → ℕ → ℕ → Run (List ℕ)
memset m c zero = ok m
memset [] c (suc n) = fault
memset (x ∷ m) c (suc n) = written c (memset m c n)

-- The destination, and the place just behind the bytes copied unless all `n` were.
unfoldable pub memccpy : List ℕ → List ℕ → ℤ → ℕ → Run (List ℕ × Option ℕ)
memccpy d s c zero = ok (d, none)
memccpy d [] c (suc n) = fault
memccpy [] (b ∷ s) c (suc n) = if eq_int (schar b) c then ok ([], some 0) else fault
memccpy (x ∷ d) (b ∷ s) c (suc n) =
    let rest = memccpy d s c n in
    if eq_int (schar b) c then ok (x ∷ d, some 0) else elim rest [
      | fault ↦ fault
      | out_of_fuel ↦ out_of_fuel
      | ok (d', none) ↦ ok (b ∷ d', none)
      | ok (d', some i) ↦ ok (b ∷ d', some (suc i))
    ]

abbrev pub count : Run ℕ → Run ℕ
count (ok n) = ok (suc n)
count fault = fault
count out_of_fuel = out_of_fuel

unfoldable pub strlen : List ℕ → Run ℕ
strlen [] = fault
strlen (b ∷ s) = let rest = strlen s in if b == 0 then ok 0 else count rest

-- `*s` is read before `n` is tested.
unfoldable pub strnlen : List ℕ → ℕ → Run ℕ
strnlen [] n = fault
strnlen (b ∷ s) zero = ok 0
strnlen (b ∷ s) (suc n) = let rest = strnlen s n in if b == 0 then ok 0 else count rest

-- The destination; what `stpcpy` returns is the end of the source, `strlen` of it away.
unfoldable pub stpcpy : List ℕ → List ℕ → Run (List ℕ)
stpcpy d [] = fault
stpcpy [] (b ∷ s) = fault
stpcpy (x ∷ d) (b ∷ s) = let rest = stpcpy d s in if b == 0 then ok (0 ∷ d) else written b rest

-- The destination; the terminator is written also after `n` bytes.
unfoldable pub stpncpy : List ℕ → List ℕ → ℕ → Run (List ℕ)
stpncpy d [] n = fault
stpncpy [] (b ∷ s) n = fault
stpncpy (x ∷ d) (b ∷ s) zero = ok (0 ∷ d)
stpncpy (x ∷ d) (b ∷ s) (suc n) =
    let rest = stpncpy d s n in if b == 0 then ok (0 ∷ d) else written b rest

unfoldable pub strcpy : List ℕ → List ℕ → Run (List ℕ)
unfolding stpcpy
strcpy d s = stpcpy d s

unfoldable pub strncpy : List ℕ → List ℕ → ℕ → Run (List ℕ)
unfolding stpncpy
strncpy d s n = stpncpy d s n

-- Runs a copy into the object from its byte `k` on.
abbrev pub at_offset : ℕ → (List ℕ → Run (List ℕ)) → List ℕ → Run (List ℕ)
at_offset zero copy d = copy d
at_offset (suc k) copy [] = fault
at_offset (suc k) copy (x ∷ d) = written x (at_offset k copy d)

unfoldable pub strcat : List ℕ → List ℕ → Run (List ℕ)
unfolding strlen stpcpy
strcat d s = do k ← strlen d; at_offset k (λ e. stpcpy e s) d

unfoldable pub strncat : List ℕ → List ℕ → ℕ → Run (List ℕ)
unfolding strlen stpncpy
strncat d s n = do k ← strlen d; at_offset k (λ e. stpncpy e s n) d

unfoldable pub strchr : List ℕ → ℤ → Run (Option ℕ)
unfolding strlen memchr
strchr s c = do l ← strlen s; memchr s c l

unfoldable pub strchrnul : List ℕ → ℤ → Run ℕ
unfolding strlen memchr
strchrnul s c = do l ← strlen s; found ← memchr s c l; elim found [ some i ↦ ok i | none ↦ ok l ]

unfoldable pub strrchr : List ℕ → ℤ → Run (Option ℕ)
unfolding strlen memrchr
strrchr s c = do l ← strlen s; memrchr s c l

unfoldable pub strnchr : List ℕ → ℤ → ℕ → Run (Option ℕ)
unfolding strnlen memchr
strnchr s c n = do l ← strnlen s n; memchr s c l

unfoldable pub strnrchr : List ℕ → ℤ → ℕ → Run (Option ℕ)
unfolding strnlen memrchr
strnrchr s c n = do l ← strnlen s n; memrchr s c l

-- The inner loop of `strpbrk`: whether `accept[0 .. l)` has the byte.
accepts : ℕ → List ℕ → ℕ → Run Bool
accepts b a zero = ok false
accepts b [] (suc l) = fault
accepts b (x ∷ a) (suc l) = let rest = accepts b a l in if b == x then ok true else rest

strpbrk_loop : List ℕ → List ℕ → ℕ → Run (Option ℕ)
unfolding accepts
strpbrk_loop [] a l = fault
strpbrk_loop (b ∷ s) a l =
    let rest = strpbrk_loop s a l in
    if b == 0
    then ok none
    else (do found ← accepts b a l; if found then ok (some 0) else shift rest)

unfoldable pub strpbrk : List ℕ → List ℕ → Run (Option ℕ)
unfolding strlen strpbrk_loop
strpbrk s a = do l ← strlen a; strpbrk_loop s a l

unfoldable pub strcmp : List ℕ → List ℕ → Run ℤ
unfolding strlen memcmp
strcmp a b = do l ← strlen a; k ← strlen b; memcmp a b (min l k)

unfoldable pub strncmp : List ℕ → List ℕ → ℕ → Run ℤ
unfolding strnlen memcmp
strncmp a b n = do l ← strnlen a n; k ← strnlen b n; memcmp a b (min l k)

-- The inner loop of `strspn` leaves at its first round, by `break` or by `return n`.
strspn_loop : List ℕ → List ℕ → ℕ → ℕ → Run ℕ
strspn_loop [] a l n = fault
strspn_loop (b ∷ s) a zero n = let rest = strspn_loop s a 0 n in if b == 0 then ok n else rest
strspn_loop (b ∷ s) [] (suc l) n = if b == 0 then ok n else fault
strspn_loop (b ∷ s) (x ∷ a) (suc l) n =
    let rest = strspn_loop s (x ∷ a) (suc l) (n + 1) in
    if b == 0 then ok n else if b == x then rest else ok n

unfoldable pub strspn : List ℕ → List ℕ → Run ℕ
unfolding strlen strspn_loop
strspn s a = do l ← strlen a; strspn_loop s a l 0

-- The inner loop of `strcspn` leaves at its first round too.
strcspn_loop : List ℕ → List ℕ → ℕ → ℕ → Run ℕ
strcspn_loop [] a l n = fault
strcspn_loop (b ∷ s) a zero n = let rest = strcspn_loop s a 0 n in if b == 0 then ok n else rest
strcspn_loop (b ∷ s) [] (suc l) n = if b == 0 then ok n else fault
strcspn_loop (b ∷ s) (x ∷ a) (suc l) n =
    let rest = strcspn_loop s (x ∷ a) (suc l) (n + 1) in
    if b == 0 then ok n else if b == x then ok n else rest

unfoldable pub strcspn : List ℕ → List ℕ → Run ℕ
unfolding strlen strcspn_loop
strcspn s a = do l ← strlen a; strcspn_loop s a l 0
