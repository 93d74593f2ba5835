-- ===== src/Vfs/FieldWalk/Joined.antt =====
-- Fields joined into a path and its last name behind them, and the searches for a '/' in vfs.c.
use fors_kernel.Prelude.{
  ℕ, zero, suc, ◌+◌, ◌≤◌, ◌≡◌, refl, sym, ap, ◌∙◌, none, some, List, [], ◌∷◌, ◌++◌, arith, length,
  length-append, drop, replicate, ok,
}
use mathlib.Core.List.{append_assoc}
use fors_kernel.Str.{strnlen, strnchr}
use fors_kernel.Str.Length.{NoNul, strnlen_lem}
use fors_kernel.Vfs.Walk.{slash}
use fors_kernel.Vfs.Fields.{
  IsField, AreFields, join, NoNul-append, IsField-NoNul, join-NoNul, memchr_field, memchr-none,
}
use fors_kernel.Vfs.Fields.Trailing.{NoNul-slashes}

-- A path's last name, a nonempty field, with `k` slashes and the zero byte behind it.
abbrev pub last_name : ℕ → List ℕ → ℕ → List ℕ → List ℕ
last_name b f k r = (b ∷ f) ++ (replicate k b'/' ++ (0 ∷ r))

pub join-append : (fs : List (List ℕ)) (x t : List ℕ) → join fs (x ++ t) ≡ join fs x ++ t
join-append [] x t = refl
join-append (f ∷ fs) x t = rw (join-append fs x t) (sym (append_assoc f (b'/' ∷ join fs x) t))

pub length-join :
    (fs : List (List ℕ)) (t : List ℕ) → length (join fs t) ≡ length (join fs []) + length t
length-join [] t = omega arith
length-join (f ∷ fs) t = omega (
  arith,
  length-append f (b'/' ∷ join fs t),
  length-append f (b'/' ∷ join fs []),
  length-join fs t,
)

pub length-le-join : (fs : List (List ℕ)) (t : List ℕ) → length fs ≤ length (join fs t)
length-le-join [] t = omega arith
length-le-join (f ∷ fs) t = omega (arith, length-append f (b'/' ∷ join fs t), length-le-join fs t)

drop-nil : (m : ℕ) → [] ≡ drop {A = ℕ} m []
drop-nil zero = refl
drop-nil (suc m) = refl

pub drop-add : (n m : ℕ) (s : List ℕ) → drop (n + m) s ≡ drop m (drop n s)
drop-add zero m s = let e : 0 + m ≡ m = omega arith in rw e
drop-add (suc n) m [] = let e : suc n + m ≡ suc (n + m) = omega arith in rw e (drop-nil m)
drop-add (suc n) m (b ∷ s) = let e : suc n + m ≡ suc (n + m) = omega arith in rw e (drop-add n m s)

pub drop-length : (s t : List ℕ) → drop (length s) (s ++ t) ≡ t
drop-length [] t = refl
drop-length (b ∷ s) t = drop-length s t

-- `strnlen` bounded by the part of a path in front of its last slashes.
strnlen_path :
    (x : List ℕ) (k : ℕ) (r : List ℕ)
    → NoNul x
    → strnlen (x ++ (replicate k b'/' ++ (0 ∷ r))) (length x) ≡ ok (length x)
strnlen_path x k r h = rw (← append_assoc x (replicate k b'/') (0 ∷ r)) (
    strnlen_lem (x ++ replicate k b'/') r (length x) (NoNul-append x _ h (NoNul-slashes k))
    ∙ ap ok (omega (arith, length-append x (replicate k b'/'))))

-- The search for the next '/' finds the end of the next field, while one is left before the name.
pub strnchr-join :
    (g : List ℕ) (fs : List (List ℕ)) (b : ℕ) (f : List ℕ) (k : ℕ) (r : List ℕ)
    → AreFields (g ∷ fs)
    → IsField (b ∷ f)
    → strnchr (join (g ∷ fs) (last_name b f k r)) slash (length (join (g ∷ fs) (b ∷ f)))
      ≡ ok (some (length g))
unfolding strnchr
strnchr-join g fs b f k r hg hf =
    let u = replicate k b'/' ++ (0 ∷ r) in
    let x = join (g ∷ fs) (b ∷ f) in
    let hx = join-NoNul (g ∷ fs) (b ∷ f) hg (IsField-NoNul (b ∷ f) hf) in
    let e : join (g ∷ fs) (last_name b f k r) ≡ x ++ u = join-append (g ∷ fs) (b ∷ f) u in
    let len : strnlen (join (g ∷ fs) (last_name b f k r)) (length x) ≡ ok (length x) =
      rw e (strnlen_path x k r hx) in
    rw len (
      memchr_field g (join fs (last_name b f k r)) (length x) hg.0
        (omega (arith, length-append g (b'/' ∷ join fs (b ∷ f)))))

pub strnchr_last :
    (b : ℕ) (f : List ℕ) (k : ℕ) (r : List ℕ)
    → IsField (b ∷ f)
    → strnchr (last_name b f k r) slash (length (b ∷ f)) ≡ ok none
unfolding strnchr
strnchr_last b f k r hf =
    rw (strnlen_path (b ∷ f) k r (IsField-NoNul (b ∷ f) hf))
      (memchr-none (b ∷ f) (replicate k b'/' ++ (0 ∷ r)) (length (b ∷ f)) hf (omega arith))
