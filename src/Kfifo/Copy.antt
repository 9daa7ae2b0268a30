-- ===== src/Kfifo/Copy.antt =====
-- What `memcpy` leaves in an array.
use chenghualearning.Common.{
  ℕ, zero, suc, ◌+◌, ◌-◌, ◌≤◌, ◌<◌, ◌≡◌, refl, ap, ◌∙◌, List, [], ◌∷◌, arith, leb, ltb, ◌&&◌,
  if◌then◌else◌, length, get_or, drop, length-set, get_or-set, ok,
}
use chenghualearning.Kfifo.{copy, memcpy}

pub length-copy :
    (dst : List ℕ) (at : ℕ) (src : List ℕ) (n : ℕ) → length (copy dst at src n) ≡ length dst
unfolding copy
length-copy dst at src zero = refl
length-copy dst at src (suc n) =
    length-set (copy dst at src n) (at + n) (get_or src n 0) ∙ length-copy dst at src n

same_index : (src : List ℕ) (n at j : ℕ) → at + n ≡ j → get_or src n 0 ≡ get_or src (j - at) 0
same_index src n at j e = ap (λ i. get_or src i 0) (omega arith)

pub get_or-copy :
    (dst : List ℕ) (at : ℕ) (src : List ℕ) (n j : ℕ)
    → at + n ≤ length dst
    → get_or (copy dst at src n) j 0
      ≡ (if leb at j && ltb j (at + n) then get_or src (j - at) 0 else get_or dst j 0)
unfolding copy
get_or-copy dst at src zero j h = ground arith
get_or-copy dst at src (suc n) j h =
    let here : at + n < length (copy dst at src n) = omega (arith, length-copy dst at src n) in
    rw (get_or-set (copy dst at src n) (at + n) j (get_or src n 0) 0 here)
      (ground (arith, get_or-copy dst at src n j, same_index src n at j))

pub get_or-drop : (m : ℕ) (xs : List ℕ) (i : ℕ) → get_or (drop m xs) i 0 ≡ get_or xs (m + i) 0
get_or-drop zero xs i = let e : 0 + i ≡ i = omega arith in rw e
get_or-drop (suc m) [] i = refl
get_or-drop (suc m) (x ∷ xs) i =
    let e : suc m + i ≡ suc (m + i) = omega arith in rw e (get_or-drop m xs i)

pub memcpy-ok :
    (dst : List ℕ) (at : ℕ) (src : List ℕ) (start n : ℕ)
    → at + n ≤ length dst
    → start + n ≤ length src
    → memcpy dst at src start n ≡ ok (copy dst at (drop start src) n)
unfolding memcpy
memcpy-ok dst at src start n to from = ground arith
