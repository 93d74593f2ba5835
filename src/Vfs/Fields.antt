-- ===== src/Vfs/Fields.antt =====
-- A path as a sequence of fields, and what the string searches find in it.
pub mod Trailing
use fors_kernel.Prelude.{
  ℕ, zero, suc, ◌+◌, ◌<◌, ◌≤◌, ◌≡◌, refl, sym, ap, ◌∙◌, ◌≢◌, none, some, List, [], ◌∷◌, ◌++◌, ◌==◌,
  arith, length, length-append, get_elem?, drop, replicate, length-replicate, ok,
}
use mathlib.Core.Path.{subst}
use mathlib.Core.List.{append_assoc}
use fors_kernel.Str.{schar, eq_int, strlen, memchr, memrchr}
use fors_kernel.Str.Length.{NoNul, strlen_lem}
use fors_kernel.Vfs.Walk.{slash, trailing_loop, first_of_trailing}

-- Text of a field: neither '/' nor a zero byte.
abbrev pub IsField : List ℕ → Type 0
IsField [] = Unit
IsField (b ∷ f) = (b ≢ b'/') × (b ≢ 0) × IsField f

abbrev pub AreFields : List (List ℕ) → Type 0
AreFields [] = Unit
AreFields (f ∷ fs) = IsField f × AreFields fs

-- The fields, a '/' behind each, and then `t`.
abbrev pub join : List (List ℕ) → List ℕ → List ℕ
join [] t = t
join (f ∷ fs) t = f ++ (b'/' ∷ join fs t)

is_slash : (b : ℕ) → eq_int (schar b) slash ≡ (b == b'/')
unfolding schar
is_slash b = ground arith

pub NoNul-append : (s t : List ℕ) → NoNul s → NoNul t → NoNul (s ++ t)
NoNul-append [] t hs ht = ht
NoNul-append (b ∷ s) t hs ht = (hs.0, NoNul-append s t hs.1 ht)

pub IsField-NoNul : (f : List ℕ) → IsField f → NoNul f
IsField-NoNul [] h = tt
IsField-NoNul (b ∷ f) h = (h.1, IsField-NoNul f h.2)

pub join-NoNul : (fs : List (List ℕ)) (t : List ℕ) → AreFields fs → NoNul t → NoNul (join fs t)
join-NoNul [] t hs ht = ht
join-NoNul (f ∷ fs) t hs ht =
    NoNul-append f _ (IsField-NoNul f hs.0) (omega arith, join-NoNul fs t hs.1 ht)

-- The first '/' behind a field.
pub memchr_field :
    (f t : List ℕ) (n : ℕ)
    → IsField f
    → length f < n
    → memchr (f ++ (b'/' ∷ t)) slash n ≡ ok (some (length f))
unfolding memchr
memchr_field f t zero h lt = absurd (omega arith)
memchr_field [] t (suc n) h lt = ground (arith, is_slash b'/')
memchr_field (b ∷ f) t (suc n) h lt = ground (arith, is_slash b, memchr_field f t n h.2)

pub memchr-none :
    (f t : List ℕ) (n : ℕ) → IsField f → n ≤ length f → memchr (f ++ t) slash n ≡ ok none
unfolding memchr
memchr-none f t zero h le = refl
memchr-none [] t (suc n) h le = absurd (omega arith)
memchr-none (b ∷ f) t (suc n) h le = ground (arith, is_slash b, memchr-none f t n h.2)

drop-append : (s t : List ℕ) (n : ℕ) → drop (length s + n) (s ++ t) ≡ drop n t
drop-append [] t n = let e : 0 + n ≡ n = omega arith in rw e
drop-append (b ∷ s) t n =
    let e : suc (length s) + n ≡ suc (length s + n) = omega arith in rw e (drop-append s t n)

pub get_elem?-append : (s t : List ℕ) (n : ℕ) → get_elem? (s ++ t) (length s + n) ≡ get_elem? t n
get_elem?-append [] t n = let e : 0 + n ≡ n = omega arith in rw e
get_elem?-append (b ∷ s) t n =
    let e : suc (length s) + n ≡ suc (length s + n) = omega arith in rw e (get_elem?-append s t n)

-- A byte of a field, where it stands in a longer text.
field_at :
    (f t : List ℕ) (n : ℕ)
    → IsField f
    → n < length f
    → (b : ℕ) × (u : List ℕ) × (drop n (f ++ t) ≡ b ∷ u) × (b ≢ b'/')
field_at [] t n h lt = absurd (omega arith)
field_at (b ∷ f) t zero h lt = (b, f ++ t, refl, h.0)
field_at (b ∷ f) t (suc n) h lt = field_at f t n h.2 (omega arith)

memrchr_skip :
    (m : List ℕ) (i b : ℕ) (u : List ℕ)
    → drop i m ≡ b ∷ u
    → b ≢ b'/'
    → memrchr m slash (suc i) ≡ memrchr m slash i
unfolding memrchr
memrchr_skip m i b u e ne = rw (e, memrchr, is_slash b) (ground arith)

-- A field behind the last '/' is passed over by `memrchr`.
memrchr_field :
    (s f t : List ℕ) (n : ℕ)
    → IsField f
    → n ≤ length f
    → memrchr (s ++ (f ++ t)) slash (length s + n) ≡ memrchr (s ++ (f ++ t)) slash (length s)
memrchr_field s f t zero h le = ap (memrchr (s ++ (f ++ t)) slash) (omega arith)
memrchr_field s f t (suc n) h le =
    let (b, u, e, ne) = field_at f t n h (omega arith) in
    ap (memrchr (s ++ (f ++ t)) slash) (omega arith)
    ∙ (memrchr_skip _ (length s + n) b u (drop-append s (f ++ t) n ∙ e) ne
        ∙ memrchr_field s f t n h (omega arith))

memrchr-slash :
    (s t : List ℕ) → memrchr (s ++ (b'/' ∷ t)) slash (suc (length s)) ≡ ok (some (length s))
unfolding memrchr
memrchr-slash s t =
    let e : drop (length s) (s ++ (b'/' ∷ t)) ≡ b'/' ∷ t =
      ap (λ k. drop k (s ++ (b'/' ∷ t))) (omega arith) ∙ drop-append s (b'/' ∷ t) 0 in
    rw (e, memrchr, is_slash b'/')

-- The last '/' before a field.
pub memrchr_last_field :
    (s f t : List ℕ)
    → IsField f
    → memrchr (s ++ (b'/' ∷ (f ++ t))) slash (suc (length s + length f)) ≡ ok (some (length s))
memrchr_last_field s f t h =
    let s' = s ++ (b'/' ∷ []) in
    let e : s ++ (b'/' ∷ (f ++ t)) ≡ s' ++ (f ++ t) = sym (append_assoc s (b'/' ∷ []) (f ++ t)) in
    let l : length s' ≡ suc (length s) = omega (arith, length-append s (b'/' ∷ [])) in
    rw e (
      ap (memrchr (s' ++ (f ++ t)) slash) (omega arith)
      ∙ (memrchr_field s' f t (length f) h (omega arith)
          ∙ (ap (memrchr (s' ++ (f ++ t)) slash) l ∙ rw (← e) (memrchr-slash s (f ++ t)))))

-- With no '/' in front there is none.
pub memrchr_no_field : (f t : List ℕ) → IsField f → memrchr (f ++ t) slash (length f) ≡ ok none
unfolding memrchr
memrchr_no_field f t h =
    let e : 0 + length f ≡ length f = omega arith in
    rw e at (memrchr_field [] f t (length f) h (omega arith))
