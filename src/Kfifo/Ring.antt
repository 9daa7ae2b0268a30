-- ===== src/Kfifo/Ring.antt =====
-- The pairs of copies by which clib/kfifo.c moves bytes into and out of its ring.
use native.Mathlib.Nat.{mod-add-mod, mod-lt, mod-eq_of_lt, mod-eq-sub-mod}
use chenghualearning.Common.{
  ℕ, ◌+◌, ◌-◌, ◌%◌, ◌≤◌, ◌<◌, ◌≡◌, sym, ap, ◌∙◌, min, List, arith, leb, ltb, ◌&&◌, if◌then◌else◌,
  dec_lt, length, get_or, drop,
}
use chenghualearning.Kfifo.Copy.{length-copy, get_or-copy, get_or-drop}
use chenghualearning.Kfifo.{copy}

-- One wrap round a buffer of `s` bytes.
fold : (s x : ℕ) → 0 < s → x < s + s → x % s ≡ (if ltb x s then x else x - s)
fold s x pos h = elim (dec_lt x s) [
  | yes p ↦ ground (arith, mod-eq_of_lt p)
  | no p ↦ ground (
    arith,
    mod-eq-sub-mod {n = x} {m = s} (omega arith),
    mod-eq_of_lt {n = x - s} {m = s} (omega arith),
  )
]

-- The index of the byte `j` places behind the index of `o`.
pub place :
    (s o j : ℕ)
    → 0 < s
    → j ≤ s
    → (o + j) % s ≡ (if ltb (o % s + j) s then o % s + j else o % s + j - s)
place s o j pos h = sym (mod-add-mod o s j) ∙ fold s (o % s + j) pos (omega (arith, mod-lt o pos))

from_zero : (p : ℕ) → p - 0 ≡ p
from_zero p = omega arith

-- The two copies of `kfifo_put`: `n` bytes from index `(o + u) % s` on, round the buffer.
module _ (buf src : List ℕ) (s o u n : ℕ) (pos : 0 < s) (whole : length buf ≡ s)
    (room : u + n ≤ s) where
  abbrev pub at : ℕ
  at = (o + u) % s

  abbrev pub first : ℕ
  first = min n (s - at)

  abbrev pub ring : List ℕ
  ring = copy (copy buf at src first) 0 (drop first src) (n - first)

  at-lt : at < s
  at-lt = mod-lt (o + u) pos

  pub length-ring : length ring ≡ s
  length-ring = length-copy _ 0 (drop first src) (n - first) ∙ length-copy buf at src first ∙ whole

  ring-get :
      (p : ℕ)
      → get_or ring p 0 ≡ (
          if ltb p (n - first)
          then get_or src (first + p) 0
          else (if leb at p && ltb p (at + first) then get_or src (p - at) 0 else get_or buf p 0))
  ring-get p =
      rw
        (get_or-copy (copy buf at src first) 0 (drop first src) (n - first) p
          (omega (arith, length-copy buf at src first, at-lt)))
        (rw (get_or-drop, get_or-copy buf at src first p (omega (arith, at-lt)))
          (ground (arith, from_zero p)))

  pub ring_old : (j : ℕ) → j < u → get_or ring ((o + j) % s) 0 ≡ get_or buf ((o + j) % s) 0
  ring_old j h =
      ground (arith, ring-get ((o + j) % s), place s o j pos, place s o u pos, mod-lt o pos)

  pub ring_new : (j : ℕ) → j < n → get_or ring ((o + (u + j)) % s) 0 ≡ get_or src j 0
  ring_new j h = elim (dec_lt j first) [
    | yes near ↦
        let e : (o + (u + j)) % s ≡ at + j =
          regroup ∙ ground (arith, place s (o + u) j pos (omega arith), at-lt) in
        rw (e, ring-get (at + j)) (ground (arith, ap (λ i. get_or src i 0) (back near), at-lt))
    | no far ↦
        let e : (o + (u + j)) % s ≡ j - first =
          regroup ∙ ground (arith, place s (o + u) j pos (omega arith), at-lt) in
        rw (e, ring-get (j - first)) (ground (arith, ap (λ i. get_or src i 0) (again far), at-lt))
  ]
    where
      regroup : (o + (u + j)) % s ≡ (o + u + j) % s
      regroup = ap (λ x. x % s) (omega arith)

      back : j < first → at + j - at ≡ j
      back near = omega arith

      again : ¬ (j < first) → first + (j - first) ≡ j
      again far = omega arith

-- The two copies of `kfifo_get`: `n` bytes from index `o % s` on go to the start of `dest`.
module _ (buf dest : List ℕ) (s o n : ℕ) (pos : 0 < s) (room : n ≤ s)
    (large : n ≤ length dest) where
  abbrev pub from : ℕ
  from = o % s

  abbrev pub run : ℕ
  run = min n (s - from)

  abbrev pub given : List ℕ
  given = copy (copy dest 0 (drop from buf) run) run (drop 0 buf) (n - run)

  pub length-given : length given ≡ length dest
  length-given = length-copy _ run (drop 0 buf) (n - run) ∙ length-copy dest 0 (drop from buf) run

  given-get :
      (p : ℕ)
      → get_or given p 0 ≡ (
          if leb run p && ltb p n
          then get_or buf (p - run) 0
          else (if ltb p run then get_or buf (from + p) 0 else get_or dest p 0))
  given-get p =
      rw
        (get_or-copy (copy dest 0 (drop from buf) run) run (drop 0 buf) (n - run) p
          (omega (arith, length-copy dest 0 (drop from buf) run)))
        (rw (get_or-drop, get_or-copy dest 0 (drop from buf) run p (omega arith), get_or-drop)
          (ground (arith, from_zero p)))

  pub given_new : (j : ℕ) → j < n → get_or given j 0 ≡ get_or buf ((o + j) % s) 0
  given_new j h = ground (arith, given-get j, place s o j pos, mod-lt o pos)

  pub given_old : (j : ℕ) → n ≤ j → get_or given j 0 ≡ get_or dest j 0
  given_old j h = ground (arith, given-get j)
