-- ===== src/Frames/Insert.antt =====
-- The loop of `frame_insert` of phys.c against an ascending list of addresses.
use fors_kernel.Prelude.{
  ℕ, zero, suc, ◌<◌, ◌≤◌, ◌≡◌, refl, ◌∙◌, ◌≢◌, inl, inr, true, false, Bool-cases, List, [], ◌∷◌,
  ltb, ◌==◌, if◌then◌else◌, arith, length, ok,
}
use fors_kernel.Frames.{Frames, update, inc_u64, insert_before, insert_last, insert_loop}

-- From `p` the `next` pointers lead through the frames `xs` to NULL, and the `prev` pointers back
-- to `before`.
abbrev pub Chain : Frames → ℕ → List ℕ → ℕ → Type 0
Chain m before [] p = p ≡ 0
Chain m before (x ∷ xs) p = (p ≡ x) × (m.prev x ≡ before) × Chain m x xs (m.next x)

-- The addresses ascend from above `p`.
abbrev pub IsAscending : ℕ → List ℕ → Type 0
IsAscending p [] = Unit
IsAscending p (x ∷ xs) = (p < x) × IsAscending x xs

abbrev pub IsAbsent : ℕ → List ℕ → Type 0
IsAbsent y [] = Unit
IsAbsent y (x ∷ xs) = (y ≢ x) × IsAbsent y xs

-- The pool holds the frames `xs`.
pub record IsPool (m : Frames) (xs : List ℕ) : Type 0 where
  pub chain : Chain m 0 xs m.frame_list
  pub ascending : IsAscending 0 xs
  pub counted : m.free_frames ≡ length xs

-- The list with `y` put in its place.
abbrev pub insert_sorted : ℕ → List ℕ → List ℕ
insert_sorted y [] = y ∷ []
insert_sorted y (x ∷ xs) = if ltb y x then y ∷ x ∷ xs else x ∷ insert_sorted y xs

-- The chain behind an address survives changes in front of it.
pub Chain-behind :
    (m m' : Frames) (x b : ℕ) (xs : List ℕ)
    → ((a : ℕ) → x ≤ a → m'.next a ≡ m.next a)
    → ((a : ℕ) → x < a → m'.prev a ≡ m.prev a)
    → x ≤ b
    → IsAscending b xs
    → Chain m b xs (m.next b)
    → Chain m' b xs (m'.next b)
Chain-behind m m' x b [] ns ps le asc c = ns b le ∙ c
Chain-behind m m' x b (y ∷ ys) ns ps le asc (e, back, rest) = (
  ns b le ∙ e,
  ps y (omega (arith, asc.0)) ∙ back,
  Chain-behind m m' x y ys ns ps (omega (arith, asc.0)) asc.1 rest,
)

-- What inserting `y` does to the part of the list from `q` on, whose frames were `xs`.
pub record Inserted (m m' : Frames) (p y : ℕ) (xs : List ℕ) (q : ℕ) : Type 0 where
  pub chain : Chain m' p (insert_sorted y xs) q
  pub link : p ≢ 0 → m'.next p ≡ q
  pub head : p ≡ 0 → m'.frame_list ≡ q
  pub head_kept : p ≢ 0 → m'.frame_list ≡ m.frame_list
  pub next_kept : (a : ℕ) → a < p → m'.next a ≡ m.next a
  pub prev_kept : (a : ℕ) → a ≤ p → m'.prev a ≡ m.prev a
  pub counted : m'.free_frames ≡ inc_u64 m.free_frames

-- The list from a new frame on that has been put in front of `x`.
Chain-inserted :
    (m m' : Frames) (p y x : ℕ) (xs : List ℕ)
    → ltb y x ≡ true
    → m'.next y ≡ x
    → m'.prev y ≡ p
    → m'.prev x ≡ y
    → ((a : ℕ) → x ≤ a → m'.next a ≡ m.next a)
    → ((a : ℕ) → x < a → m'.prev a ≡ m.prev a)
    → IsAscending x xs
    → Chain m x xs (m.next x)
    → Chain m' p (insert_sorted y (x ∷ xs)) y
Chain-inserted m m' p y x xs lt next back behind ns ps asc c =
    rw lt (refl, back, (next, behind, Chain-behind m m' x x xs ns ps (omega arith) asc c))

insert_before-Inserted :
    (m : Frames) (p y x : ℕ) (xs : List ℕ)
    → IsAscending p (x ∷ xs)
    → Chain m p (x ∷ xs) x
    → p < y
    → y < x
    → Inserted m (insert_before m y p x) p y (x ∷ xs) y
unfolding insert_before
insert_before-Inserted m p y x xs asc c py yx =
    let lt : ltb y x ≡ true = ground arith in
    elim (Bool-cases (p == 0)) [
      | inl z ↦ rw z record {
        chain =
            Chain-inserted m
              (record m { next = update m.next y x; prev = update (update m.prev x y) y 0 }) p y x
              xs lt (ground arith) (ground arith) (ground arith) (λ a l. ground arith)
              (λ a l. ground arith) asc.1 c.2;
        link = λ ne. absurd (ground arith);
        head = λ e. refl;
        head_kept = λ ne. absurd (ground arith);
        next_kept = λ a l. ground arith;
        prev_kept = λ a l. ground arith;
        counted = refl;
      }
      | inr nz ↦ rw nz record {
        chain =
            Chain-inserted m
              (record m {
                next = update (update m.next y x) p y;
                prev = update (update m.prev x y) y p;
              })
              p y x xs lt (ground arith) (ground arith) (ground arith) (λ a l. ground arith)
              (λ a l. ground arith) asc.1 c.2;
        link = λ ne. ground arith;
        head = λ e. absurd (ground arith);
        head_kept = λ ne. refl;
        next_kept = λ a l. ground arith;
        prev_kept = λ a l. ground arith;
        counted = refl;
      }
    ]

insert_last-Inserted :
    (m : Frames) (p y x : ℕ)
    → p < x
    → x < y
    → m.next x ≡ 0
    → Chain m p (x ∷ []) x
    → (p ≢ 0 → m.next p ≡ x)
    → (p ≡ 0 → m.frame_list ≡ x)
    → Inserted m (insert_last m y x) p y (x ∷ []) x
unfolding insert_last
insert_last-Inserted m p y x px xy e c link head =
    let ge : ltb y x ≡ false = ground arith in
    record {
      chain = rw ge (refl, ground (arith, c.1), (ground arith, ground arith, ground arith));
      link = λ ne. ground (arith, link ne);
      head = head;
      head_kept = λ ne. refl;
      next_kept = λ a l. ground arith;
      prev_kept = λ a l. ground arith;
      counted = refl;
    }

-- What is done behind `x` is done in the part of the list from `x` on.
Inserted-behind :
    (m m' : Frames) (p y x : ℕ) (xs : List ℕ) (q : ℕ)
    → ltb y x ≡ false
    → IsAscending p (x ∷ xs)
    → Chain m p (x ∷ xs) x
    → (p ≢ 0 → m.next p ≡ x)
    → (p ≡ 0 → m.frame_list ≡ x)
    → Inserted m m' x y xs q
    → Inserted m m' p y (x ∷ xs) x
Inserted-behind m m' p y x xs q ge asc c link head i =
    let x_nz : x ≢ 0 = omega (arith, asc.0) in
    record {
      chain = rw ge (refl, i.prev_kept x (omega arith) ∙ c.1, rw (i.link x_nz) i.chain);
      link = λ ne. i.next_kept p asc.0 ∙ link ne;
      head = λ e. i.head_kept x_nz ∙ head e;
      head_kept = λ ne. i.head_kept x_nz;
      next_kept = λ a l. i.next_kept a (omega (arith, asc.0));
      prev_kept = λ a l. i.prev_kept a (omega (arith, asc.0));
      counted = i.counted;
    }

-- The loop finds the place.
pub insert_loop-Inserted :
    (k : ℕ) (m : Frames) (p y x : ℕ) (xs : List ℕ)
    → length xs < k
    → IsAscending p (x ∷ xs)
    → Chain m p (x ∷ xs) x
    → (p ≢ 0 → m.next p ≡ x)
    → (p ≡ 0 → m.frame_list ≡ x)
    → p < y
    → IsAbsent y (x ∷ xs)
    → (m' : Frames) × (insert_loop k m y p x ≡ ok m')
      × Inserted m m' p y (x ∷ xs) (if ltb y x then y else x)
unfolding insert_loop
insert_loop-Inserted zero m p y x xs lk asc c link head py out = absurd (omega arith)
insert_loop-Inserted (suc k) m p y x [] lk asc c link head py out =
    let nz : (x == 0) ≡ false = ground (arith, asc.0) in
    let e : m.next x ≡ 0 = c.2 in
    elim (Bool-cases (ltb y x)) [
      | inl lt ↦ (
        insert_before m y p x,
        rw (nz, lt),
        rw lt (insert_before-Inserted m p y x [] asc c py (ground arith)),
      )
      | inr ge ↦
          let xy : x < y = ground (arith, out.0) in
          (
            insert_last m y x,
            rw (nz, ge, e),
            rw ge (insert_last-Inserted m p y x asc.0 xy e c link head),
          )
    ]
insert_loop-Inserted (suc k) m p y x (z ∷ zs) lk asc c link head py out =
    let nz : (x == 0) ≡ false = ground (arith, asc.0) in
    let e : m.next x ≡ z = c.2.0 in
    let on : (z == 0) ≡ false = ground (arith, asc.1.0) in
    elim (Bool-cases (ltb y x)) [
      | inl lt ↦ (
        insert_before m y p x,
        rw (nz, lt),
        rw lt (insert_before-Inserted m p y x (z ∷ zs) asc c py (ground arith)),
      )
      | inr ge ↦
          let xy : x < y = ground (arith, out.0) in
          let (m', q, i) =
            insert_loop-Inserted k m x y z zs (omega arith) asc.1 (refl, c.2.1, c.2.2) (λ ne. e)
              (λ n. absurd (omega (arith, asc.0))) xy out.1 in
          (
            m',
            rw (nz, ge, e, on) q,
            rw ge (Inserted-behind m m' p y x (z ∷ zs) _ ge asc c link head i),
          )
    ]
